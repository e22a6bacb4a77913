-- ===== src/Log/Conf/Text/Read.antt =====
-- LexicalCast of src/log.cpp from YAML text: what every definition that is read is like.
use mathlib.Core.Path.{subst}
use ye_cc_server.Prelude.{
  ◌≡◌, sym, ap, ◌⊎◌, inl, inr, List, [], ◌∷◌, Bytes, codes, bytes_eq, All, All-append, arith,
  Bool-cases,
}
use ye_cc_server.Log.Level
use ye_cc_server.Log.Level.{unknow}
use ye_cc_server.Config.Var.{cast}
use ye_cc_server.Config.Convert.{
  Library, list_container, set_container, vector_lexical, set_lexical,
}
use ye_cc_server.Config.Convert.Reads.{
  cast_inj, cast_bind, Casts-bind, Casts-cast, container_from-keeps, All-set_insert,
}
use ye_cc_server.Log.Conf.{AppenderDefine, LogDefine}
use ye_cc_server.Log.Conf.Safe.{IsAppenderDefine, IsLogDefine}
use ye_cc_server.Log.Conf.Text.{
  if_defined, required, read_type, appender_from, appender_lexical, define_from, define_lt,
  logs_lexical,
}

module _ (lib : Library) where
  if_defined_either {ℓ} :
      {A : Type ℓ} (node : lib.Node) (key : Bytes) (ret : A) (given : Bytes → A) (r : A)
      → if_defined lib node key ret given ≡ cast r
      → (ret ≡ r) ⊎ ((text : Bytes) × (given text ≡ r))
  if_defined_either node key ret given r h =
      let (found, _, more) = cast_bind (lib.get node key) _ r h in
      elim (Bool-cases (lib.is_defined found)) [
        | inl there ↦
            let (text, _, e) =
              cast_bind (lib.as_string found) (λ text. cast (given text)) r (rw there at more) in
            inr (text, cast_inj e)
        | inr missing ↦ inl (cast_inj (rw missing at more))
      ]

  read_type-IsAppenderDefine :
      (node : lib.Node) (tp : Bytes) (ret : AppenderDefine)
      → read_type lib node tp ≡ cast ret
      → IsAppenderDefine ret
  unfolding read_type
  read_type-IsAppenderDefine node tp ret h =
      elim (Bool-cases (bytes_eq tp (codes "StdoutLogAppender"))) [
        | inl console ↦ inr (sym (ap (λ (r : AppenderDefine). r.type) (cast_inj (rw console at h))))
        | inr not_console ↦ elim (Bool-cases (bytes_eq tp (codes "FileLogAppender"))) [
          | inl file ↦
              let (path, _, e) =
                cast_bind
                  (required lib node (codes "file")
                    (codes "log conf: fileAppender need file path!"))
                  _ ret (rw (not_console, file) at h) in
              inl (sym (ap (λ (r : AppenderDefine). r.type) (cast_inj e)))
          | inr not_file ↦ absurd (ground (arith, h, not_console, not_file))
        ]
      ]

  -- An optional field does not change what a record is like.
  if_defined-keeps {ℓ κ} :
      {A : Type ℓ} (P : A → Type κ) (node : lib.Node) (key : Bytes) (ret : A) (given : Bytes → A)
      (r : A)
      → P ret
      → ((text : Bytes) → P (given text))
      → if_defined lib node key ret given ≡ cast r
      → P r
  if_defined-keeps P node key ret given r h k e = elim (if_defined_either node key ret given r e) [
    | inl same ↦ subst P same h
    | inr (text, same) ↦ subst P same (k text)
  ]

  appender_from-IsAppenderDefine :
      (v : Bytes) (a : AppenderDefine) → appender_from lib v ≡ cast a → IsAppenderDefine a
  unfolding appender_from
  appender_from-IsAppenderDefine v a h =
      let (node, _, h1) = cast_bind (lib.load v) _ a h in
      let (tp, _, h2) =
        cast_bind
          (required lib node (codes "type") (codes "log conf: appender type name not define!")) _ a
          h1 in
      let (ret, typed, h3) = cast_bind (read_type lib node tp) _ a h2 in
      let (leveled, l, h4) = cast_bind _ _ a h3 in
      let p = read_type-IsAppenderDefine node tp ret typed in
      let q =
        if_defined-keeps IsAppenderDefine node (codes "level") ret _ leveled p (λ text. p) l in
      if_defined-keeps IsAppenderDefine node (codes "formatter") leveled _ a q (λ text. q) h4

  appenders_from-All :
      (v : Bytes) (as' : List AppenderDefine)
      → (vector_lexical lib (appender_lexical lib)).from_str v ≡ cast as'
      → All IsAppenderDefine as'
  unfolding vector_lexical
  appenders_from-All v as' h =
      container_from-keeps lib list_container IsAppenderDefine (All IsAppenderDefine)
        (λ x ret p q. All-append IsAppenderDefine ret (x ∷ []) q (p, tt)) (appender_from lib)
        appender_from-IsAppenderDefine v as' tt h

  define_from-IsLogDefine : (v : Bytes) (d : LogDefine) → define_from lib v ≡ cast d → IsLogDefine d
  unfolding define_from
  define_from-IsLogDefine v d h =
      Casts-cast IsLogDefine (define_from lib v) d
        (Casts-bind IsLogDefine (lib.load v) _ (λ node loaded.
          Casts-bind IsLogDefine
            (required lib node (codes "name") (codes "log config error: no name!")) _
            (λ name named.
              let ret : LogDefine = record {
                name = name;
                level = unknow;
                formatter = [];
                appenders = [];
              } in
              Casts-bind IsLogDefine
                (if_defined lib node (codes "level") ret
                  (λ text. record ret { level = Level.from_string text }))
                _
                (λ leveled l.
                  Casts-bind IsLogDefine
                    (if_defined lib node (codes "formatter") leveled
                      (λ text. record leveled { formatter = text }))
                    _
                    (λ formatted f.
                      Casts-bind IsLogDefine (lib.get node (codes "appender")) _ (λ appender got.
                        Casts-bind IsLogDefine
                          ((vector_lexical lib (appender_lexical lib)).from_str (lib.emit appender))
                          (λ as'. cast (record formatted { appenders = as' }))
                          (λ as' read. appenders_from-All (lib.emit appender) as' read)))))))
        h

  -- Whatever the YAML library does, every definition of a set that a text is converted to asks for appenders
  -- of the types 1 and 2 only.
  pub logs_from_str-IsLogDefine :
      (v : Bytes) (ds : List LogDefine)
      → (logs_lexical lib).from_str v ≡ cast ds
      → All IsLogDefine ds
  unfolding set_lexical
  logs_from_str-IsLogDefine v ds h =
      container_from-keeps lib (set_container define_lt) IsLogDefine (All IsLogDefine)
        (λ x ret p q. All-set_insert IsLogDefine define_lt x ret p q) (define_from lib)
        define_from-IsLogDefine v ds tt h
