-- ===== src/Log/Conf/Text/Reread.antt =====
-- LexicalCast of src/log.cpp to YAML text and back: what a printed definition, and a printed set of them,
-- is read back as.
use ye_cc_server.Prelude.{◌≡◌, refl, true, List, [], ◌∷◌, map, Bytes, codes, bytes_eq, All}
use ye_cc_server.Prelude.Maps.{find, bytes_key}
use ye_cc_server.Log.Level
use ye_cc_server.Log.Level.{unknow}
use ye_cc_server.Config.Var.{cast, refused}
use ye_cc_server.Config.Convert.{
  Library, ◌>>=◌, container_from, container_to, read_items, set_container, vector_lexical,
  set_lexical,
}
use ye_cc_server.Config.Convert.Laws.{IsLibrary}
use ye_cc_server.Config.Convert.RoundTrip.{push_items_lem}
use ye_cc_server.Config.Convert.Nested.{vector_reads_scalar}
use ye_cc_server.Log.Conf.{LogDefine}
use ye_cc_server.Log.Conf.Text.{
  appender_lexical, define_from, define_to, define_lexical, define_lt, logs_lexical,
}
use ye_cc_server.Log.Conf.Text.Print.{
  IsPrintableDefine, appender_text, appenders_text, define_fields, define_text, define_to-mapping,
  define_texts, all_texts,
}

module _ (lib : Library) (laws : IsLibrary lib) where
  appenders_are_lost :
      (d : LogDefine)
      → IsPrintableDefine lib laws d
      → (vector_lexical lib (appender_lexical lib)).from_str
          (lib.emit (lib.scalar_node (appenders_text lib laws d.appenders)))
        ≡ cast []
  appenders_are_lost d (n, f, h) =
      vector_reads_scalar lib laws (appender_lexical lib) (appender_text lib laws)
        (appenders_text lib laws d.appenders)
        (laws.emit_sequence (map (appender_text lib laws) d.appenders)
          (all_texts lib laws d.appenders h))

  -- A logger's definition that YAML can write is read back from its text without its appenders, and with the
  -- level that the printed level is read as.
  pub define_round_trip :
      (d : LogDefine)
      → IsPrintableDefine lib laws d
      → (define_to lib d >>= define_from lib)
        ≡ cast (record d { level = Level.from_string (Level.to_string d.level); appenders = [] })
  unfolding define_from find bytes_eq
  define_round_trip d h =
      let (texts, distinct) = define_texts lib laws d h in
      let ts = define_fields lib laws d in
      let level = Level.to_string d.level in
      let appender = appenders_text lib laws d.appenders in
      rw
        (
          define_to-mapping lib laws d,
          laws.load_mapping ts texts distinct,
          laws.get_mapping ts (codes "name") d.name distinct refl,
          laws.defined_scalar d.name,
          laws.as_scalar d.name,
          laws.get_mapping ts (codes "level") level distinct refl,
          laws.defined_scalar level,
          laws.as_scalar level,
          laws.get_mapping ts (codes "formatter") d.formatter distinct refl,
          laws.defined_scalar d.formatter,
          laws.as_scalar d.formatter,
          laws.get_mapping ts (codes "appender") appender distinct refl,
          appenders_are_lost d h,
        )
        refl

  abbrev define_texts_of : List LogDefine → List Bytes
  define_texts_of ds = map (define_text lib laws) ds

  all_define_texts :
      (ds : List LogDefine)
      → All (IsPrintableDefine lib laws) ds
      → All (λ t. laws.is_text t ≡ true) (define_texts_of ds)
  all_define_texts [] h = tt
  all_define_texts (d ∷ ds) (p, h) =
      let (texts, distinct) = define_texts lib laws d p in
      (laws.emit_mapping (define_fields lib laws d) texts distinct, all_define_texts ds h)

  all_defines_print :
      (ds : List LogDefine) → All (λ d. define_to lib d ≡ cast (define_text lib laws d)) ds
  all_defines_print [] = tt
  all_defines_print (d ∷ ds) = (define_to-mapping lib laws d, all_defines_print ds)

  scalar_is_no_define :
      (t : Bytes)
      → laws.is_text t ≡ true
      → (what : Bytes) × (define_from lib (lib.emit (lib.scalar_node t)) ≡ refused what)
  unfolding define_from
  scalar_is_no_define t h =
      let (what, refuses) = laws.get_scalar t (codes "name") in
      (what, rw (laws.load_scalar t h, refuses) refl)

  -- What a set of definitions that YAML can write prints, if there is one in it, is refused when it is read.
  pub printed_logs_refused :
      (d : LogDefine) (ds : List LogDefine)
      → All (IsPrintableDefine lib laws) (d ∷ ds)
      → (what : Bytes) × (((logs_lexical lib).to_str (d ∷ ds) >>= (logs_lexical lib).from_str)
          ≡ refused what)
  unfolding set_lexical container_to container_from read_items
  printed_logs_refused d ds h =
      let ts = define_texts_of (d ∷ ds) in
      let texts = all_define_texts (d ∷ ds) h in
      let (what, refuses) = scalar_is_no_define (define_text lib laws d) texts.0 in
      (
        what,
        rw
            (
              push_items_lem lib laws (define_lexical lib) (define_text lib laws) (λ x. x)
                  (set_container define_lt) (d ∷ ds) lib.null (all_defines_print (d ∷ ds)),
              laws.load_sequence ts texts,
              laws.size_sequence ts,
              laws.at_sequence ts 0 (define_text lib laws d) refl,
              refuses,
            )
            refl,
      )
