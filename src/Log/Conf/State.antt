-- ===== src/Log/Conf/State.antt =====
-- The listener of LogIniter in src/log.cpp on one logger: what the logger is like behind it.
use ye_cc_server.Prelude.{
  ℕ, ◌<◌, ◌≡◌, refl, sym, ◌∙◌, ap, inl, inr, true, false, List, [], ◌∷◌, ◌++◌, ◌==◌, if◌then◌else◌,
  none, some, arith, bytes_eq, append_assoc, append-nil, length, length-append, get_elem?,
  get_elem?-lt, get_elem?-append_left, get_elem?-append_length, get_elem?-set_self, set, All,
  Bool-cases, Option-cases, Returns,
}
use ye_cc_server.Log.Formatter.Meaning.{new_formatter_total}
use ye_cc_server.Log.Level.{unknow, debug}
use ye_cc_server.Log.Appender
use ye_cc_server.Log.Appender.{Appender, Outside, get_type, new_file, new_stdout}
use ye_cc_server.Log.Logger.{Logger, Store, add_appender, deref}
use ye_cc_server.Log.Conf.{
  AppenderDefine, make_defined, leveled, set_defined, add_defined, add_all_defined,
}
use ye_cc_server.Log.Conf.Safe.{IsAppenderDefine}

-- The appender is what the definition says.
pub record Fits (d : AppenderDefine) (app : Appender) : Type 0 where
  pub type_is : get_type app ≡ d.type
  pub level_is : app.level ≡ (if d.level == unknow then debug else d.level)

abbrev pub Configured : List Appender → List AppenderDefine → List ℕ → Type 0
Configured as' [] ids = ids ≡ []
Configured as' (d ∷ ds) [] = false ≡ true
Configured as' (d ∷ ds) (a ∷ ids) =
    ((app : Appender) × (get_elem? as' a ≡ some app) × Fits d app) × Configured as' ds ids

set-append_length {ℓ} :
    {A : Type ℓ} (xs : List A) (x y : A) → set (xs ++ x ∷ []) (length xs) y ≡ xs ++ y ∷ []
set-append_length [] x y = refl
set-append_length (z ∷ xs) x y = ap (◌∷◌ z) (set-append_length xs x y)

-- An object of the right type, once its level and pattern are set.
set_defined-Fits :
    (d : AppenderDefine) (np : Appender) (out : Outside)
    → get_type np ≡ d.type
    → np.level ≡ debug
    → Returns (λ r. Fits d r.0) (set_defined np out d)
unfolding set_defined Appender.set_pattern
set_defined-Fits d np out type level = elim (Bool-cases (bytes_eq d.formatter [])) [
  | inl empty ↦ ((leveled np d, out), rw empty, fits np type level)
  | inr given ↦
      let (f, made, _) = new_formatter_total d.formatter in
      (
        (
          record (leveled np d) { formatter = some f; has_formatter = true },
          Appender.report out f d.formatter,
        ),
        rw (given, made),
        record { type_is = (fits np type level).type_is; level_is = (fits np type level).level_is },
      )
]
  where
    fits : (np : Appender) → get_type np ≡ d.type → np.level ≡ debug → Fits d (leveled np d)
    fits np type level = elim (Bool-cases (d.level == unknow)) [
      | inl unset ↦ record {
        type_is = ground (arith, type, unset);
        level_is = ground (arith, level, unset);
      }
      | inr wanted ↦ record {
        type_is = ground (arith, type, wanted);
        level_is = ground (arith, level, wanted);
      }
    ]

made_defined-Fits :
    (d : AppenderDefine) (out : Outside)
    → IsAppenderDefine d
    → (np : Appender) × (make_defined d ≡ some np)
      × Returns (λ r. Fits d r.0) (set_defined np out d)
unfolding make_defined
made_defined-Fits d out (inl file) = (
  new_file d.file,
  ground (arith, file),
  set_defined-Fits d (new_file d.file) out (sym file) refl,
)
made_defined-Fits d out (inr console) =
    (new_stdout, ground (arith, console), set_defined-Fits d new_stdout out (sym console) refl)

Fits-same :
    {d : AppenderDefine} {a b : Appender}
    → b.sink ≡ a.sink
    → b.level ≡ a.level
    → Fits d a
    → Fits d b
Fits-same {d} {a} {b} sink level v = record {
  type_is = ground (arith, sink, v.type_is);
  level_is = level ∙ v.level_is;
}

-- The appender that is added is a new one that fits, behind those that the logger has.
add_defined-Fits :
    (s : Store) (p : ℕ) (l : Logger) (d : AppenderDefine)
    → get_elem? s.loggers p ≡ some l
    → IsAppenderDefine d
    → Returns
        (λ t.
          (app : Appender) × Fits d app
          × (t.appenders ≡ s.appenders ++ app ∷ [])
          × (t.loggers
              ≡ set s.loggers p (record l { appenders = l.appenders ++ length s.appenders ∷ [] })))
        (add_defined s p d)
unfolding add_defined add_appender
add_defined-Fits s p l d at k =
    let (np, made, ((app, out), done, fits)) = made_defined-Fits d s.outside k in
    let given : Appender = elim app.formatter [
      | none ↦ Appender.set_formatter app l.formatter
      | some f ↦ app
    ] in
    let new = record l { appenders = l.appenders ++ length s.appenders ∷ [] } in
    (
      record s {
        loggers = set s.loggers p new;
        appenders = s.appenders ++ given ∷ [];
        outside = out;
      },
      rw (
        made,
        add_defined,
        done,
        at,
        get_elem?-append_length s.appenders app,
        deref,
        set-append_length s.appenders app given,
      ),
      (given, given_fits app fits, refl, refl),
    )
  where
    given_fits :
        (app : Appender)
        → Fits d app
        → Fits d
            (elim app.formatter [ none ↦ Appender.set_formatter app l.formatter | some f ↦ app ])
    given_fits app fits = elim (Option-cases app.formatter) [
      | inl e ↦ rw e (Fits-same refl refl fits)
      | inr (g, e) ↦ rw e fits
    ]

-- Later appenders do not touch the earlier ones.
Configured-append :
    (as' bs : List Appender) (ds : List AppenderDefine) (ids : List ℕ)
    → Configured as' ds ids
    → Configured (as' ++ bs) ds ids
Configured-append as' bs [] ids h = h
Configured-append as' bs (d ∷ ds) [] h = h
Configured-append as' bs (d ∷ ds) (a ∷ ids) ((app, at, fits), h) = (
  (app, get_elem?-append_left as' bs a (get_elem?-lt as' a app at) ∙ at, fits),
  Configured-append as' bs ds ids h,
)

-- What adding the appenders of a definition does to the logger `l` at `p`.
abbrev pub Adds : ℕ → Store → Logger → List AppenderDefine → Store → Type 0
Adds p s l ds t =
    (more : List Appender) × (ids : List ℕ) × (t.appenders ≡ s.appenders ++ more)
    × (get_elem? t.loggers p ≡ some (record l { appenders = l.appenders ++ ids }))
    × Configured t.appenders ds ids

pub add_all_defined-Adds :
    (ds : List AppenderDefine) (s : Store) (p : ℕ) (l : Logger)
    → get_elem? s.loggers p ≡ some l
    → All IsAppenderDefine ds
    → Returns (Adds p s l ds) (add_all_defined s p ds)
unfolding add_all_defined
add_all_defined-Adds [] s p l at k = (
  s,
  refl,
  (
    [],
    [],
    sym (append-nil s.appenders),
    at ∙ ap (λ (x : List ℕ). some (record l { appenders = x })) (sym (append-nil l.appenders)),
    refl,
  ),
)
add_all_defined-Adds (d ∷ ds) s p l at (k, ks) =
    let a = length s.appenders in
    let (t, done, (app, fits, grown, put)) = add_defined-Fits s p l d at k in
    let new = record l { appenders = l.appenders ++ a ∷ [] } in
    let at_t : get_elem? t.loggers p ≡ some new =
      rw put (get_elem?-set_self s.loggers p new (get_elem?-lt s.loggers p l at)) in
    let (u, rest, (more, ids, grown', at_u, fit)) = add_all_defined-Adds ds t p new at_t ks in
    let split : u.appenders ≡ (s.appenders ++ app ∷ []) ++ more =
      grown' ∙ ap (λ (x : List Appender). x ++ more) grown in
    let inside : a < length (s.appenders ++ app ∷ []) =
      omega (arith, length-append s.appenders (app ∷ [])) in
    let here : get_elem? u.appenders a ≡ some app =
      ap (λ (x : List Appender). get_elem? x a) split
      ∙ get_elem?-append_left (s.appenders ++ app ∷ []) more a inside
      ∙ get_elem?-append_length s.appenders app in
    (
      u,
      rw done rest,
      (
        app ∷ more,
        a ∷ ids,
        split ∙ append_assoc s.appenders (app ∷ []) more,
        at_u
            ∙ ap (λ (x : List ℕ). some (record l { appenders = x }))
                (append_assoc l.appenders (a ∷ []) ids),
        ((app, here, fits), fit),
      ),
    )
