-- ===== src/Log/Logger/Changes.antt =====
-- The operations of Logger in src/log.cpp that change a logger or its appenders, on a valid store.
use ye_cc_server.Prelude.{
  ℕ, ◌<◌, ◌≡◌, refl, ap, inl, inr, List, [], ◌∷◌, ◌++◌, Option, none, some, arith, Bytes, length,
  get_elem?-lt, get_elem?-some, set, All, All-append, ◌==◌, if◌then◌else◌, Bool-cases, Returns,
  Option-cases,
}
use ye_cc_server.Log.Formatter.Items.{Formatter}
use ye_cc_server.Log.Formatter.Meaning.{new_formatter_total}
use ye_cc_server.Log.Level.{Level}
use ye_cc_server.Log.Appender
use ye_cc_server.Log.Appender.{Appender, Outside, Env}
use ye_cc_server.Log.Logger.{
  Logger, Store, add_appender, del_appender, clear_appender, set_level, give_formatter,
  set_formatter, set_pattern, remove, deref, put_logger, put_appender, report,
}
use ye_cc_server.Log.Logger.Valid.{
  HasFormat, IsValid, Preserves, Keeps, Keeps-set, All-Keeps, Preserves-put, get_elem?-set,
}

All-remove : (P : ℕ → Type 0) (a : ℕ) (ps : List ℕ) → All P ps → All P (remove a ps)
All-remove P a [] h = tt
All-remove P a (p ∷ ps) h = elim (Bool-cases (p == a)) [
  | inl hit ↦ rw hit (All-remove P a ps h.1)
  | inr miss ↦ rw miss (h.0, All-remove P a ps h.1)
]

-- Handing a formatter to appenders keeps each of them with one.
pub give_formatter-Returns :
    (ps : List ℕ) (s : Store) (f : Formatter)
    → All (HasFormat s.appenders) ps
    → Returns
        (λ t. (t.loggers ≡ s.loggers) × Keeps s.appenders t.appenders)
        (give_formatter ps s (some f))
unfolding give_formatter
give_formatter-Returns [] s f h = (s, refl, (refl, λ a k. k))
give_formatter-Returns (p ∷ ps) s f ((app, g, at, has), h) =
    let given = if app.has_formatter then app else Appender.set_formatter app (some f) in
    let (x, fx) = formatted app g has in
    let keeps = Keeps-set s.appenders p given x fx (get_elem?-lt s.appenders p app at) in
    let (t, rest, (same, more)) =
      give_formatter-Returns ps (put_appender s p given) f
        (All-Keeps s.appenders (set s.appenders p given) ps keeps h) in
    (t, rw (at, deref) rest, (same, λ a k. more a (keeps a k)))
  where
    formatted :
        (app : Appender) (g : Formatter)
        → app.formatter ≡ some g
        → (x : Formatter) × ((if app.has_formatter
              then app
              else Appender.set_formatter app (some f)).formatter
            ≡ some x)
    formatted app g has = elim (Bool-cases app.has_formatter) [
      | inl own ↦ (g, rw own has)
      | inr inherited ↦ (f, rw inherited refl)
    ]

module _ (root p : ℕ) (s : Store) (v : IsValid root s) (inside : p < length s.loggers) where
  -- Attaching an appender: one without a formatter gets the logger's.
  pub add_appender-Preserves :
      (a : ℕ) → a < length s.appenders → Returns (Preserves root s) (add_appender s p a)
  unfolding add_appender
  add_appender-Preserves a h =
      let (l, at) = get_elem?-some s.loggers p inside in
      let (app, at_a) = get_elem?-some s.appenders a h in
      let old = v.loggers_valid p l at in
      let (f, has) = old.formatted in
      let given : Appender = elim app.formatter [
        | none ↦ Appender.set_formatter app l.formatter
        | some g ↦ app
      ] in
      let (x, fx) = filled app l.formatter f has in
      let bs = set s.appenders a given in
      let keeps = Keeps-set s.appenders a given x fx h in
      let new : Logger = record l { appenders = l.appenders ++ a ∷ [] } in
      let here : HasFormat bs a =
        (given, x, rw (get_elem?-set s.appenders a a given h) (ground arith), fx) in
      (
        put_logger (put_appender s a given) p new,
        rw (at, at_a, deref),
        Preserves-put root s (put_logger (put_appender s a given) p new) v keeps p l new at refl
            refl refl (f, has)
            (All-append (HasFormat bs) l.appenders (a ∷ [])
              (All-Keeps s.appenders bs l.appenders keeps old.attached) (here, tt)),
      )
    where
      filled :
          (app : Appender) (o : Option Formatter) (f : Formatter)
          → o ≡ some f
          → (x : Formatter) × ((let given : Appender = elim app.formatter [
            | none ↦ Appender.set_formatter app o
            | some g ↦ app
          ] in
                given.formatter)
              ≡ some x)
      filled app o f has = elim (Option-cases app.formatter) [
        | inl e ↦ (f, ground arith)
        | inr (g, e) ↦ (g, ground arith)
      ]

  pub del_appender-Preserves : (a : ℕ) → Returns (Preserves root s) (del_appender s p a)
  unfolding del_appender
  del_appender-Preserves a =
      let (l, at) = get_elem?-some s.loggers p inside in
      let old = v.loggers_valid p l at in
      let new : Logger = record l { appenders = remove a l.appenders } in
      (
        put_logger s p new,
        rw (at, deref),
        Preserves-put root s (put_logger s p new) v (λ b k. k) p l new at refl refl refl
            old.formatted (All-remove (HasFormat s.appenders) a l.appenders old.attached),
      )

  pub clear_appender-Preserves : Returns (Preserves root s) (clear_appender s p)
  unfolding clear_appender
  clear_appender-Preserves =
      let (l, at) = get_elem?-some s.loggers p inside in
      let new : Logger = record l { appenders = [] } in
      (
        put_logger s p new,
        rw (at, deref),
        Preserves-put root s (put_logger s p new) v (λ b k. k) p l new at refl refl refl
            (v.loggers_valid p l at).formatted tt,
      )

  pub set_level-Preserves : (level : Level) → Returns (Preserves root s) (set_level s p level)
  unfolding set_level
  set_level-Preserves level =
      let (l, at) = get_elem?-some s.loggers p inside in
      let old = v.loggers_valid p l at in
      let new : Logger = record l { level = level } in
      (
        put_logger s p new,
        rw (at, deref),
        Preserves-put root s (put_logger s p new) v (λ b k. k) p l new at refl refl refl
            old.formatted old.attached,
      )

  -- A formatter that is not null.
  pub set_formatter-Preserves :
      (f : Formatter) → Returns (Preserves root s) (set_formatter s p (some f))
  unfolding set_formatter
  set_formatter-Preserves f =
      let (l, at) = get_elem?-some s.loggers p inside in
      let old = v.loggers_valid p l at in
      let new : Logger = record l { formatter = some f } in
      let (t, done, (same, keeps)) =
        give_formatter-Returns l.appenders (put_logger s p new) f old.attached in
      (
        t,
        rw (at, deref) done,
        Preserves-put root s t v keeps p l new at same refl refl (f, refl)
            (All-Keeps s.appenders t.appenders l.appenders keeps old.attached),
      )

  -- Any pattern, one with an error too.
  pub set_pattern-Preserves :
      (pattern : Bytes) → Returns (Preserves root s) (set_pattern s p pattern)
  unfolding set_pattern
  set_pattern-Preserves pattern =
      let (f, made, _) = new_formatter_total pattern in
      let (l, at) = get_elem?-some s.loggers p inside in
      let old = v.loggers_valid p l at in
      let new : Logger = record l { formatter = some f } in
      let (t, done, (same, keeps)) =
        give_formatter-Returns l.appenders
          (record s { outside = report s.outside l.name f pattern }) f old.attached in
      (
        put_logger t p new,
        rw (made, at, deref, done),
        Preserves-put root s (put_logger t p new) v keeps p l new at (ap (λ x. set x p new) same)
            refl refl (f, refl) (All-Keeps s.appenders t.appenders l.appenders keeps old.attached),
      )
