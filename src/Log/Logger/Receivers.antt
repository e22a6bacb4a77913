-- ===== src/Log/Logger/Receivers.antt =====
-- Logger::log of src/log.cpp: the appenders that an event is handed to.
use ye_cc_server.Prelude.{
  ℕ, suc, ◌≡◌, refl, sym, inl, inr, true, List, [], ◌∷◌, ◌++◌, Option, none, some, arith, Outcome,
  ok, append-nil, get_elem?, if◌then◌else◌, Bool-cases, Returns, leb, ◌<◌, length,
}
use ye_cc_server.Log.Event.{Event}
use ye_cc_server.Log.Level.{Level}
use ye_cc_server.Log.Appender.{Env}
use ye_cc_server.Log.Logger.{Logger, Store, log, name_of}
use ye_cc_server.Log.Logger.Valid.{IsValid}
use ye_cc_server.Log.Logger.Output.{Target, contents, text_for, log_to-contents}

-- The appenders of a logger that takes the level.
abbrev pub own : Level → Logger → List ℕ
own level l = if leb l.level level then l.appenders else []

abbrev if_empty : List ℕ → List ℕ → List ℕ
if_empty [] other = other
if_empty (p ∷ ps) other = p ∷ ps

abbrev from_root : Option ℕ → List ℕ → List ℕ
from_root none other = []
from_root (some r) other = other

if_empty_lem : (ps : List ℕ) (r : Option ℕ) → if_empty ps (from_root r []) ≡ ps
if_empty_lem [] none = refl
if_empty_lem [] (some r) = refl
if_empty_lem (p ∷ ps) r = refl

-- A logger that takes the level hands an event to its appenders or, if it has none, to those of the
-- root, where the root takes the level too.
abbrev pub receivers : Level → Logger → Logger → List ℕ
receivers level l root =
    if leb l.level level then if_empty l.appenders (from_root l.root (own level root)) else []

module _ (env : Env) (now : ℕ) (level : Level) (event : Event) (target : Target) where
  -- A run that writes the event's text for the appenders `ps`.
  abbrev pub Writes : Store → List ℕ → Outcome Store → Type 0
  Writes s ps = Returns λ t.
      contents t.outside target
      ≡ contents s.outside target
        ++ text_for env now (name_of s.loggers) level event target s.appenders ps

  pub Writes-none : (s : Store) → Writes s [] (ok s)
  Writes-none s = (s, refl, sym (append-nil _))

  log-Writes :
      (fuel root p : ℕ) (s : Store) (l : Logger) (other : List ℕ)
      → IsValid root s
      → event.logger < length s.loggers
      → get_elem? s.loggers p ≡ some l
      → ((r : ℕ) → l.root ≡ some r → Writes s other (log fuel env now r s level event))
      → Writes s
          (if leb l.level level then if_empty l.appenders (from_root l.root other) else [])
          (log (suc fuel) env now p s level event)
  unfolding log
  log-Writes fuel root p s l other v from at up = elim (Bool-cases (leb l.level level)) [
    | inr low ↦
        let (t, done, writes) = Writes-none s in (t, ground (arith, done), ground (arith, writes))
    | inl high ↦ by_appenders l.appenders refl high l.root refl
  ]
    where
      by_appenders :
          (ps : List ℕ)
          → l.appenders ≡ ps
          → leb l.level level ≡ true
          → (r : Option ℕ) → l.root ≡ r
          → Writes s
              (if leb l.level level then if_empty l.appenders (from_root l.root other) else [])
              (log (suc fuel) env now p s level event)
      by_appenders (q ∷ ps) e high r h =
          let (t, done, writes) =
            log_to-contents env now level event target (q ∷ ps) s from
              (rw e at (v.loggers_valid p l at).attached) in
          (t, ground (arith, done), rw (high, e) writes)
      by_appenders [] e high none h =
          let (t, done, writes) = Writes-none s in (t, ground (arith, done), rw (high, e, h) writes)
      by_appenders [] e high (some r) h =
          let (t, done, writes) = up r h in (t, ground (arith, done), rw (high, e, h) writes)

  -- Logging an event writes to each target the event's text once for each receiver that reaches the
  -- target, in order, and nothing else: the console and every file are covered, and a file is reached
  -- where it takes a text at the time. The store is valid and has the event's logger, `l` and `top` are the
  -- loggers at `p` and at the root, and two calls of fuel do.
  pub log-receivers :
      (fuel root p : ℕ) (s : Store) (l top : Logger)
      → IsValid root s
      → event.logger < length s.loggers
      → get_elem? s.loggers p ≡ some l
      → get_elem? s.loggers root ≡ some top
      → Writes s (receivers level l top) (log (suc (suc fuel)) env now p s level event)
  log-receivers fuel root p s l top v from at at_root =
      log-Writes (suc fuel) root p s l (own level top) v from at (λ r e.
        elim (v.loggers_valid p l at).parent [
          | inl no_parent ↦ absurd (ground arith)
          | inr is ↦
              let same : root ≡ r = ground arith in
              rw (← same) (
                rw (if_empty_lem top.appenders top.root) at (
                  log-Writes fuel root root s top [] v from at_root
                    (λ q f. absurd (ground (arith, v.root_valid)))))
        ])
