-- ===== src/Log/Logger/Safe.antt =====
-- Logger::log of src/log.cpp on a valid store.
use ye_cc_server.Prelude.{
  ℕ, suc, ◌<◌, ◌≡◌, refl, ◌∙◌, inl, inr, true, List, [], ◌∷◌, Option, none, some, arith, ok, Bytes,
  length, get_elem?, get_elem?-lt, get_elem?-some, set, All, if◌then◌else◌, Bool-cases, Returns,
  leb, Outcome, Returns-bind, ◌++◌,
}
use ye_cc_server.Log.Event.{Event, stream}
use ye_cc_server.Log.Formatter.Items.{
  Formatter, FormatItem, format_item, format_all, format, message, level_item, elapse_item,
  log_name, thread_id, thread_name, fiber_id, date_time, filename, line_item, new_line, tab_item,
  string_item,
}
use ye_cc_server.Log.Level.{Level}
use ye_cc_server.Log.Appender
use ye_cc_server.Log.Appender.{Appender, Outside, Env}
use ye_cc_server.Log.Logger.{Logger, Store, log_to, log, log_macro, name_of, deref}
use ye_cc_server.Log.Logger.Valid.{
  HasFormat, IsValid, Preserves, Keeps, Keeps-set, All-Keeps, Preserves-appenders,
}

-- What an appender keeps when it logs.
pub record SameAppender (a b : Appender) : Type 0 where
  pub same_level : b.level ≡ a.level
  pub same_formatter : b.formatter ≡ a.formatter
  pub same_own : b.has_formatter ≡ a.has_formatter

-- What an appender that takes the event does with its text.
unfoldable pub deliver : Env → ℕ → Bytes → Appender → Outside → Appender × Outside
deliver env now text a out = elim a.sink [
  | Appender.console ↦ (a, Appender.print_out out text)
  | Appender.file f ↦ (
    record a { sink = Appender.file (Appender.refresh env now f) },
    Appender.write_stream (Appender.refresh env now f) text out,
  )
]

-- A formatting that returns.
abbrev pub text_of : Outcome Bytes → Bytes
text_of (ok s) = s
text_of _ = []

module _ (strftime : Bytes → ℕ → Bytes) (names : ℕ → Outcome Bytes) (level : Level) (event : Event)
    (name : Bytes) (named : names event.logger ≡ ok name) where
  format_item-Returns :
      (item : FormatItem) (os : Bytes)
      → Returns (λ s. Unit {0}) (format_item strftime names item os level event)
  unfolding format_item
  format_item-Returns message os = (_, refl, tt)
  format_item-Returns level_item os = (_, refl, tt)
  format_item-Returns elapse_item os = (_, refl, tt)
  format_item-Returns log_name os = (os ++ name, rw named refl, tt)
  format_item-Returns thread_id os = (_, refl, tt)
  format_item-Returns thread_name os = (_, refl, tt)
  format_item-Returns fiber_id os = (_, refl, tt)
  format_item-Returns (date_time fmt) os = (_, refl, tt)
  format_item-Returns filename os = (_, refl, tt)
  format_item-Returns line_item os = (_, refl, tt)
  format_item-Returns new_line os = (_, refl, tt)
  format_item-Returns tab_item os = (_, refl, tt)
  format_item-Returns (string_item s) os = (_, refl, tt)

  format_all-Returns :
      (items : List FormatItem) (os : Bytes)
      → Returns (λ s. Unit {0}) (format_all strftime names items os level event)
  unfolding format_all
  format_all-Returns [] os = (os, refl, tt)
  format_all-Returns (item ∷ items) os =
      Returns-bind (λ s. Unit {0}) (λ s. Unit {0}) (format_item strftime names item os level event)
        _ (format_item-Returns item os) (λ s k. format_all-Returns items s)

  -- An event whose logger is there is formatted.
  pub format-text_of :
      (f : Formatter)
      → format strftime names f level event ≡ ok (text_of (format strftime names f level event))
  unfolding format
  format-text_of f = let (s, done, _) = format_all-Returns f.items [] in rw done refl

module _ (env : Env) (now : ℕ) (names : ℕ → Outcome Bytes) (level : Level) (event : Event) where
  -- The appender's new state and the world outside behind a log that returns.
  unfoldable pub taken : Formatter → Appender → Outside → Appender × Outside
  taken f a out =
      if leb a.level level
      then deliver env now (text_of (format env.strftime names f level event)) a out
      else (a, out)

  pub appender_log_lem :
      (name : Bytes) (a : Appender) (out : Outside) (f : Formatter)
      → names event.logger ≡ ok name
      → a.formatter ≡ some f
      → Appender.log env now names a out level event ≡ ok (taken f a out)
  unfolding Appender.log taken deliver
  appender_log_lem name a out f named e =
      ground (arith, format-text_of env.strftime names level event name named f, e)

  pub taken-SameAppender :
      (a : Appender) (out : Outside) (f : Formatter) → SameAppender a (taken f a out).0
  unfolding taken deliver
  taken-SameAppender a out f = ground arith

-- A logger that is there has a name.
pub name_of-Returns :
    (loggers : List Logger) (p : ℕ)
    → p < length loggers
    → Returns (λ name. Unit {0}) (name_of loggers p)
unfolding name_of
name_of-Returns loggers p h =
    let (l, at) = get_elem?-some loggers p h in (l.name, rw (at, deref) refl, tt)

log_to-Returns :
    (env : Env) (now : ℕ) (ps : List ℕ) (s : Store) (level : Level) (event : Event)
    → event.logger < length s.loggers
    → All (HasFormat s.appenders) ps
    → Returns
        (λ t. (t.loggers ≡ s.loggers) × Keeps s.appenders t.appenders)
        (log_to env now ps s level event)
unfolding log_to
log_to-Returns env now [] s level event from h = (s, refl, (refl, λ a k. k))
log_to-Returns env now (p ∷ ps) s level event from ((app, f, at, has), h) =
    let names = name_of s.loggers in
    let (name, named, _) = name_of-Returns s.loggers event.logger from in
    let done = appender_log_lem env now names level event name app s.outside f named has in
    let r = taken env now names level event f app s.outside in
    let same = taken-SameAppender env now names level event app s.outside f in
    let keeps =
      Keeps-set s.appenders p r.0 f (same.same_formatter ∙ has)
        (get_elem?-lt s.appenders p app at) in
    let next : Store = record {
      loggers = s.loggers;
      appenders = set s.appenders p r.0;
      outside = r.1;
    } in
    let (t, rest, (loggers, more)) =
      log_to-Returns env now ps next level event from (All-Keeps s.appenders _ ps keeps h) in
    (t, rw (at, deref, done) rest, (loggers, λ a k. more a (keeps a k)))

-- A logger whose chain ends at the next root.
log-Returns_from :
    (fuel : ℕ) (env : Env) (now root p : ℕ) (s : Store) (level : Level) (event : Event) (l : Logger)
    → IsValid root s
    → event.logger < length s.loggers
    → get_elem? s.loggers p ≡ some l
    → ((r : ℕ)
        → l.root ≡ some r
        → Returns
            (λ t. (t.loggers ≡ s.loggers) × Keeps s.appenders t.appenders)
            (log fuel env now r s level event))
    → Returns
        (λ t. (t.loggers ≡ s.loggers) × Keeps s.appenders t.appenders)
        (log (suc fuel) env now p s level event)
unfolding log
log-Returns_from fuel env now root p s level event l v from at up =
    elim (Bool-cases (leb l.level level)) [
      | inr low ↦ (s, ground arith, (refl, λ a k. k))
      | inl high ↦ by_appenders l.appenders refl high l.root refl
    ]
  where
    by_appenders :
        (ps : List ℕ)
        → l.appenders ≡ ps
        → leb l.level level ≡ true
        → (r : Option ℕ) → l.root ≡ r
        → Returns
            (λ t. (t.loggers ≡ s.loggers) × Keeps s.appenders t.appenders)
            (log (suc fuel) env now p s level event)
    by_appenders (q ∷ ps) e high r h =
        let (t, done, same) =
          log_to-Returns env now (q ∷ ps) s level event from
            (rw e at (v.loggers_valid p l at).attached) in
        (t, ground (arith, done), same)
    by_appenders [] e high none h = (s, ground arith, (refl, λ a k. k))
    by_appenders [] e high (some r) h =
        let (t, done, same) = up r h in (t, ground (arith, done), same)

-- Two calls are enough: a logger, and the root that it hands over to.
pub log-Returns :
    (fuel : ℕ) (env : Env) (now root p : ℕ) (s : Store) (level : Level) (event : Event)
    → IsValid root s
    → event.logger < length s.loggers
    → p < length s.loggers
    → Returns
        (λ t. (t.loggers ≡ s.loggers) × Keeps s.appenders t.appenders)
        (log (suc (suc fuel)) env now p s level event)
log-Returns fuel env now root p s level event v from h =
    let (l, at) = get_elem?-some s.loggers p h in
    let (top, at_root, no_root) = v.root_valid in
    log-Returns_from (suc fuel) env now root p s level event l v from at (λ r e.
      elim (v.loggers_valid p l at).parent [
        | inl no_parent ↦ absurd (ground arith)
        | inr is ↦
            let same : root ≡ r = ground arith in
            rw (← same) (
              log-Returns_from fuel env now root root s level event top v from at_root
                (λ q f. absurd (ground arith)))
      ])

-- Logging an event whose logger is in the store, at any level and through any logger of a valid store,
-- returns, with two calls of fuel at least, and the store stays valid, with the same loggers.
pub log-Preserves :
    (fuel : ℕ) (env : Env) (now root p : ℕ) (s : Store) (level : Level) (event : Event)
    → IsValid root s
    → event.logger < length s.loggers
    → p < length s.loggers
    → Returns
        (λ t. Preserves root s t × (t.loggers ≡ s.loggers))
        (log (suc (suc fuel)) env now p s level event)
log-Preserves fuel env now root p s level event v from h =
    let (t, done, (same, keeps)) = log-Returns fuel env now root p s level event v from h in
    (t, done, (Preserves-appenders root s t v keeps same, same))

-- The macro logs through the same path.
pub log_macro-Preserves :
    (fuel : ℕ) (env : Env) (now root p : ℕ) (s : Store) (level : Level) (event : Event)
    (text : Bytes)
    → IsValid root s
    → p < length s.loggers
    → Returns
        (λ t. Preserves root s t × (t.loggers ≡ s.loggers))
        (log_macro (suc (suc fuel)) env now p s level event text)
unfolding log_macro
log_macro-Preserves fuel env now root p s level event text v h =
    let (l, at) = get_elem?-some s.loggers p h in
    elim (Bool-cases (leb l.level level)) [
      | inr low ↦ (s, ground arith, (Preserves-appenders root s s v (λ a k. k) refl, refl))
      | inl high ↦
          let (t, done, kept) =
            log-Preserves fuel env now root p s level
              (stream (record event { logger = p; level = level }) text) v (unfold stream in h) h in
          (t, ground (arith, done), kept)
    ]
