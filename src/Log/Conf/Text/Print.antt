-- ===== src/Log/Conf/Text/Print.antt =====
-- LexicalCast of src/log.cpp to YAML text: the mappings that definitions print.
use ye_cc_server.Prelude.{
  ◌≡◌, refl, inl, inr, true, List, [], ◌∷◌, map, some, ◌==◌, if◌then◌else◌, Bytes, codes, bytes_eq,
  All, arith, Bool-cases,
}
use ye_cc_server.Prelude.Maps.{find, bytes_key}
use ye_cc_server.Log.Level
use ye_cc_server.Config.Var.{cast}
use ye_cc_server.Config.Convert.{Library, container_to, list_container, vector_lexical}
use ye_cc_server.Config.Convert.Laws.{IsLibrary, IsDistinct, AreTexts, is_ascii, mapping, sequence}
use ye_cc_server.Config.Convert.RoundTrip.{push_items_lem}
use ye_cc_server.Log.Conf.{AppenderDefine, LogDefine}
use ye_cc_server.Log.Conf.Text.{if_defined, required, appender_to, appender_lexical, define_to}

to_string-is_ascii : (level : Level.Level) → is_ascii (Level.to_string level) ≡ true
unfolding Level.to_string
to_string-is_ascii level = ground arith

module _ (lib : Library) (laws : IsLibrary lib) where
  -- The entries of the mapping that an appender's definition prints.
  abbrev pub appender_fields : AppenderDefine → List (Bytes × Bytes)
  appender_fields a =
      let last = (codes "level", Level.to_string a.level) ∷ (codes "formatter", a.formatter) ∷ [] in
      if a.type == 1
      then (codes "type", codes "FileLogAppender") ∷ (codes "file", a.file) ∷ last
      else if a.type == 2
      then (codes "type", codes "StdoutLogAppender") ∷ last
      else last

  abbrev pub appender_text : AppenderDefine → Bytes
  appender_text a = lib.emit (mapping lib (appender_fields a))

  -- The strings of a definition can be written.
  abbrev pub IsPrintable : AppenderDefine → Type 0
  IsPrintable a = (laws.is_text a.file ≡ true) × (laws.is_text a.formatter ≡ true)

  appender_to-mapping : (a : AppenderDefine) → appender_to lib a ≡ cast (appender_text a)
  unfolding appender_to
  appender_to-mapping a = elim (Bool-cases (a.type == 1)) [
    | inl file ↦ rw (appender_text, appender_fields, file) refl
    | inr not_file ↦ elim (Bool-cases (a.type == 2)) [
      | inl console ↦ rw (appender_text, appender_fields, not_file, console) refl
      | inr other ↦ rw (appender_text, appender_fields, not_file, other) refl
    ]
  ]

  word : (t : Bytes) → is_ascii t ≡ true → laws.is_text t ≡ true
  word = laws.ascii_is_text

  level_text : (level : Level.Level) → laws.is_text (Level.to_string level) ≡ true
  level_text level = word (Level.to_string level) (to_string-is_ascii level)

  appender_texts :
      (a : AppenderDefine)
      → IsPrintable a
      → AreTexts laws.is_text (appender_fields a) × IsDistinct lib (appender_fields a)
  unfolding find bytes_eq
  appender_texts a (f, p) =
      let last : AreTexts laws.is_text
          ((codes "level", Level.to_string a.level) ∷ (codes "formatter", a.formatter) ∷ []) =
        (
          (word (codes "level") refl, level_text a.level),
          ((word (codes "formatter") refl, p), tt),
        ) in
      elim (Bool-cases (a.type == 1)) [
        | inl file ↦
            rw (appender_fields, file)
              (
                (
                  (word (codes "type") refl, word (codes "FileLogAppender") refl),
                  ((word (codes "file") refl, f), last),
                ),
                (refl, (refl, (refl, (refl, tt)))),
              )
        | inr not_file ↦ elim (Bool-cases (a.type == 2)) [
          | inl console ↦
              rw (appender_fields, not_file, console)
                (
                  ((word (codes "type") refl, word (codes "StdoutLogAppender") refl), last),
                  (refl, (refl, (refl, tt))),
                )
          | inr other ↦ rw (appender_fields, not_file, other) (last, (refl, (refl, tt)))
        ]
      ]

  appender_text-is_text :
      (a : AppenderDefine) → IsPrintable a → laws.is_text (appender_text a) ≡ true
  appender_text-is_text a p =
      let (texts, distinct) = appender_texts a p in
      laws.emit_mapping (appender_fields a) texts distinct

  pub all_texts :
      (as' : List AppenderDefine)
      → All IsPrintable as'
      → All (λ t. laws.is_text t ≡ true) (map appender_text as')
  all_texts [] h = tt
  all_texts (a ∷ as') (p, h) = (appender_text-is_text a p, all_texts as' h)

  all_printed :
      (as' : List AppenderDefine) → All (λ a. appender_to lib a ≡ cast (appender_text a)) as'
  all_printed [] = tt
  all_printed (a ∷ as') = (appender_to-mapping a, all_printed as')

  abbrev pub appenders_text : List AppenderDefine → Bytes
  appenders_text as' = lib.emit (sequence lib (map appender_text as'))

  appenders_to_lem :
      (as' : List AppenderDefine)
      → (vector_lexical lib (appender_lexical lib)).to_str as' ≡ cast (appenders_text as')
  unfolding vector_lexical container_to
  appenders_to_lem as' =
      rw
        (push_items_lem lib laws (appender_lexical lib) appender_text (λ a. a) list_container as'
          lib.null (all_printed as'))
        refl

  -- The entries of the mapping that a logger's definition prints.
  abbrev pub define_fields : LogDefine → List (Bytes × Bytes)
  define_fields d =
      (codes "name", d.name)
      ∷ (codes "level", Level.to_string d.level)
      ∷ (codes "formatter", d.formatter)
      ∷ (codes "appender", appenders_text d.appenders)
      ∷ []

  abbrev pub define_text : LogDefine → Bytes
  define_text d = lib.emit (mapping lib (define_fields d))

  pub define_to-mapping : (d : LogDefine) → define_to lib d ≡ cast (define_text d)
  unfolding define_to
  define_to-mapping d = rw (appenders_to_lem d.appenders) refl

  abbrev pub IsPrintableDefine : LogDefine → Type 0
  IsPrintableDefine d =
      (laws.is_text d.name ≡ true) × (laws.is_text d.formatter ≡ true) × All IsPrintable d.appenders

  pub define_texts :
      (d : LogDefine)
      → IsPrintableDefine d
      → AreTexts laws.is_text (define_fields d) × IsDistinct lib (define_fields d)
  unfolding find bytes_eq
  define_texts d (n, f, h) = (
    (
      (word (codes "name") refl, n),
      (
        (word (codes "level") refl, level_text d.level),
        (
          (word (codes "formatter") refl, f),
          (
            (
              word (codes "appender") refl,
              laws.emit_sequence (map appender_text d.appenders) (all_texts d.appenders h),
            ),
            tt,
          ),
        ),
      ),
    ),
    (refl, (refl, (refl, (refl, tt)))),
  )

  -- A field that is there.
  pub required-field :
      (ts : List (Bytes × Bytes)) (key missing t : Bytes)
      → IsDistinct lib ts
      → find key ts ≡ some t
      → required lib (mapping lib ts) key missing ≡ cast t
  required-field ts key missing t d h =
      rw (laws.get_mapping ts key t d h, laws.defined_scalar t, laws.as_scalar t) refl

  pub if_defined-field {ℓ} :
      {A : Type ℓ} (ts : List (Bytes × Bytes)) (key t : Bytes) (ret : A) (given : Bytes → A)
      → IsDistinct lib ts
      → find key ts ≡ some t
      → if_defined lib (mapping lib ts) key ret given ≡ cast (given t)
  if_defined-field ts key t ret given d h =
      rw (laws.get_mapping ts key t d h, laws.defined_scalar t, laws.as_scalar t) refl
