-- ===== src/Log/Logger/Inherit.antt =====
-- Logger::setFormatter in src/log.cpp: which appenders take over a new formatter of their logger.
use mathlib.Core.Option
use ye_cc_server.Prelude.{
  ℕ, ◌≡◌, refl, ◌∙◌, ap, inl, inr, Bool, true, false, ◌||◌, List, [], ◌∷◌, some, arith, ok, Bytes,
  get_elem?, get_elem?-lt, set, ◌==◌, ==_iff, if◌then◌else◌, Bool-cases, Returns, Option-cases,
}
use ye_cc_server.Log.Formatter.Items.{Formatter, new_formatter}
use ye_cc_server.Log.Formatter.Meaning.{new_formatter_total}
use ye_cc_server.Log.Appender.{Appender}
use ye_cc_server.Log.Logger.{
  Logger, Store, give_formatter, set_pattern, deref, put_appender, report,
}
use ye_cc_server.Log.Logger.Valid.{IsValid, get_elem?-set}
use ye_cc_server.Log.Logger.Changes.{give_formatter-Returns}

abbrev pub elem : ℕ → List ℕ → Bool
elem a [] = false
elem a (p ∷ ps) = p == a || elem a ps

-- An appender with a formatter of its own keeps it.
abbrev pub inherit : Formatter → Appender → Appender
inherit f app = if app.has_formatter then app else record app { formatter = some f }

inherit_idem : (f : Formatter) (app : Appender) → inherit f (inherit f app) ≡ inherit f app
inherit_idem f app = ground arith

absorbed :
    (f : Formatter) (app : Appender) (b : Bool)
    → (if b then Option.map (inherit f) (some (inherit f app)) else some (inherit f app))
      ≡ some (inherit f app)
absorbed f app true = ap some (inherit_idem f app)
absorbed f app false = refl

abbrev pub Inherits : Formatter → List ℕ → List Appender → List Appender → Type 0
Inherits f ps as' bs =
    (a : ℕ)
    → get_elem? bs a
      ≡ (if elem a ps then Option.map (inherit f) (get_elem? as' a) else get_elem? as' a)

give_formatter-Inherits :
    (ps : List ℕ) (s t : Store) (f : Formatter)
    → give_formatter ps s (some f) ≡ ok t
    → Inherits f ps s.appenders t.appenders
unfolding give_formatter
give_formatter-Inherits [] s t f e a = ground arith
give_formatter-Inherits (p ∷ ps) s t f e a = elim (Option-cases (get_elem? s.appenders p)) [
  | inl missing ↦ absurd (ground arith)
  | inr (app, at) ↦
      let next = put_appender s p (inherit f app) in
      let rest : give_formatter ps next (some f) ≡ ok t = ground (arith, e, at) in
      let tail = give_formatter-Inherits ps next t f rest a in
      let here =
        get_elem?-set s.appenders p a (inherit f app) (get_elem?-lt s.appenders p app at) in
      tail ∙ elim (Bool-cases (p == a)) [
        | inl eq ↦
            let found : get_elem? s.appenders a ≡ some app = rw (← (==_iff p a).0 eq) at in
            rw (here, eq, found) (absorbed f app (elem a ps))
        | inr ne ↦ rw (here, ne)
      ]
]

-- Setting a pattern on the logger at `p` of a valid store returns. The logger gets the new formatter
-- and keeps its other fields; each attached appender without a formatter of its own gets it too, and
-- every other appender and every other logger stays as it was.
pub set_pattern-Inherits :
    (root p : ℕ) (s : Store) (l : Logger) (pattern : Bytes)
    → IsValid root s
    → get_elem? s.loggers p ≡ some l
    → Returns
        (λ t.
          (f : Formatter) × (new_formatter pattern ≡ ok f)
          × (t.loggers ≡ set s.loggers p (record l { formatter = some f }))
          × Inherits f l.appenders s.appenders t.appenders)
        (set_pattern s p pattern)
unfolding set_pattern
set_pattern-Inherits root p s l pattern v at =
    let (f, made, _) = new_formatter_total pattern in
    let start : Store = record s { outside = report s.outside l.name f pattern } in
    let (t, done, (same, _)) =
      give_formatter-Returns l.appenders start f (v.loggers_valid p l at).attached in
    let new : Logger = record l { formatter = some f } in
    (
      record t { loggers = set t.loggers p new },
      rw (made, at, deref, done),
      (f, made, ap (λ x. set x p new) same, give_formatter-Inherits l.appenders start t f done),
    )
