-- ===== src/Log/Conf/Safe.antt =====
-- The steps of LogIniter's listener on one logger, in src/log.cpp: lemmas on configuring it.
use ye_cc_server.Prelude.{
  ℕ, suc, ◌+◌, ◌<◌, ◌≡◌, ◌≢◌, refl, sym, ◌∙◌, ap, ◌⊎◌, inl, inr, Bool, true, false, List, [], ◌∷◌,
  ◌++◌, Option, none, some, arith, Outcome, ok, fault, ◌>>=◌, Bytes, codes, bytes_eq, length,
  length-append, get_elem?, get_elem?-lt, All, ◌==◌, if◌then◌else◌, Bool-cases, Returns,
  Option-cases,
}
use ye_cc_server.Log.Formatter.Meaning.{new_formatter_total}
use ye_cc_server.Log.Appender
use ye_cc_server.Log.Appender.{Appender, Outside, Env, new_stdout, new_file}
use ye_cc_server.Log.Logger.{Store, set_level, clear_appender}
use ye_cc_server.Log.Logger.Valid.{
  IsValid, Preserves, Preserves-trans, Preserves-appenders, Keeps-append,
}
use ye_cc_server.Log.Logger.Changes.{
  add_appender-Preserves, clear_appender-Preserves, set_level-Preserves, set_pattern-Preserves,
}
use ye_cc_server.Log.Conf.{
  AppenderDefine, LogDefine, leveled, make_defined, set_defined, set_defined_pattern, add_defined,
  add_all_defined, configure,
}

-- The types that the parser of the configuration lets through.
abbrev pub IsAppenderDefine : AppenderDefine → Type 0
IsAppenderDefine a = (a.type ≡ 1) ⊎ (a.type ≡ 2)

abbrev pub IsLogDefine : LogDefine → Type 0
IsLogDefine v = All IsAppenderDefine v.appenders

pub Preserves-lt :
    (root p : ℕ) (s t : Store) → Preserves root s t → p < length s.loggers → p < length t.loggers
Preserves-lt root p s t k h =
    let (l, at) = ye_cc_server.Prelude.get_elem?-some s.loggers p h in
    let (m, at', _) = k.names p l at in get_elem?-lt t.loggers p m at'

-- The fields of an appender can be set, whatever the pattern.
set_defined-Returns :
    (np : Appender) (out : Outside) (a : AppenderDefine)
    → Returns (λ r. Unit {0}) (set_defined np out a)
unfolding set_defined Appender.set_pattern
set_defined-Returns np out a = elim (Bool-cases (bytes_eq a.formatter [])) [
  | inl empty ↦ ((leveled np a, out), rw empty, tt)
  | inr given ↦
      let (f, made, _) = new_formatter_total a.formatter in
      (
        (
          record (leveled np a) { formatter = some f; has_formatter = true },
          Appender.report out f a.formatter,
        ),
        rw (given, made),
        tt,
      )
]

make_defined_returns :
    (a : AppenderDefine) → IsAppenderDefine a → (np : Appender) × (make_defined a ≡ some np)
unfolding make_defined
make_defined_returns a (inl file) = (new_file a.file, ground arith)
make_defined_returns a (inr console) = (new_stdout, ground arith)

module _ (root p : ℕ) where
  -- What a step on the logger at `p` needs and promises.
  abbrev Steps : Store → Outcome Store → Type 0
  Steps s r = Returns (Preserves root s) r

  Steps-bind :
      (s : Store) (r : Outcome Store) (f : Store → Outcome Store)
      → p < length s.loggers
      → Steps s r
      → ((t : Store) → IsValid root t → p < length t.loggers → Steps t (f t))
      → Steps s (r >>= f)
  Steps-bind s r f h (t, done, kept) then' =
      let (u, done', kept') = then' t kept.valid (Preserves-lt root p s t kept h) in
      (u, rw done done', Preserves-trans kept kept')

  add_defined_returns :
      (s : Store) (a : AppenderDefine)
      → IsValid root s
      → p < length s.loggers
      → IsAppenderDefine a
      → Steps s (add_defined s p a)
  unfolding add_defined
  add_defined_returns s a v h k =
      let (np, made) = make_defined_returns a k in
      let ((app, out), done, _) = set_defined-Returns np s.outside a in
      let t : Store = record s { appenders = s.appenders ++ app ∷ []; outside = out } in
      let grown = Preserves-appenders root s t v (Keeps-append s.appenders (app ∷ [])) refl in
      let inside : length s.appenders < length t.appenders =
        omega (arith, length-append s.appenders (app ∷ [])) in
      let (u, added, kept) =
        add_appender-Preserves root p t grown.valid h (length s.appenders) inside in
      (u, rw (made, add_defined, done) added, Preserves-trans grown kept)

  add_all_defined_returns :
      (s : Store) (as' : List AppenderDefine)
      → IsValid root s
      → p < length s.loggers
      → All IsAppenderDefine as'
      → Steps s (add_all_defined s p as')
  unfolding add_all_defined
  add_all_defined_returns s [] v h k = (s, refl, Preserves-appenders root s s v (λ a x. x) refl)
  add_all_defined_returns s (a ∷ as') v h k =
      Steps-bind s (add_defined s p a) (λ t. add_all_defined t p as') h
        (add_defined_returns s a v h k.0) (λ t v' h'. add_all_defined_returns t as' v' h' k.1)

  set_defined_pattern_returns :
      (s : Store) (pattern : Bytes)
      → IsValid root s
      → p < length s.loggers
      → Steps s (set_defined_pattern s p pattern)
  unfolding set_defined_pattern
  set_defined_pattern_returns s pattern v h = elim (Bool-cases (bytes_eq pattern [])) [
    | inl empty ↦ (s, rw empty, Preserves-appenders root s s v (λ a x. x) refl)
    | inr given ↦ rw given (set_pattern-Preserves root p s v h pattern)
  ]

  -- A definition with known types configures any logger of a valid store.
  pub configure_returns :
      (s : Store) (d : LogDefine)
      → IsValid root s
      → p < length s.loggers
      → IsLogDefine d
      → Steps s (configure s p d)
  unfolding configure
  configure_returns s d v h k =
      Steps-bind s (set_level s p d.level) _ h (set_level-Preserves root p s v h d.level)
        (λ t v1 h1.
          Steps-bind t (set_defined_pattern t p d.formatter) _ h1
            (set_defined_pattern_returns t d.formatter v1 h1)
            (λ u v2 h2.
              Steps-bind u (clear_appender u p) _ h2 (clear_appender-Preserves root p u v2 h2)
                (λ x v3 h3. add_all_defined_returns x d.appenders v3 h3 k)))
