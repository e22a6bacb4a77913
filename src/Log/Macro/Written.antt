-- ===== src/Log/Macro/Written.antt =====
-- What the macros YECC_LOG_LEVEL and YECC_LOG_FMT_LEVEL of include/log.hpp write.
use mathlib.Core.Path.{subst}
use ye_cc_server.Prelude.{
  ◌∙◌, Bool, ℕ, suc, ◌%◌, ◌^◌, ◌<◌, ◌≡◌, refl, sym, ap, true, false, [], Option, none, some,
  Outcome, ok, ◌>>=◌, Bytes, leb, length, get_elem?, get_elem?-lt,
}
use ye_cc_server.Fiber.{get_cur_fiber_id}
use ye_cc_server.Thread.{get_name}
use ye_cc_server.Log.Level.{Level}
use ye_cc_server.Log.Event.{Event, stream, format}
use ye_cc_server.Log.Appender.{Env}
use ye_cc_server.Log.Logger.{Logger, Store, deref, log, log_macro}
use ye_cc_server.Log.Logger.Valid.{IsValid}
use ye_cc_server.Log.Logger.Output.{Target}
use ye_cc_server.Log.Logger.Receivers.{receivers, Writes, Writes-none, log-receivers}
use ye_cc_server.Log.Macro.{Site, event_at, destroy_wrap, level_macro, fmt_macro}

-- The event of a macro's place: its file and line, the thread's number and name, the current fiber's number as
-- 32 bits, the time, and a text.
abbrev pub made_at : Site → ℕ → Level → Bytes → Event
made_at site p level text = record {
  logger = p;
  level = level;
  file = site.file;
  line = site.line;
  elapse = 0;
  thread_id = site.thread_id;
  fiber_id = get_cur_fiber_id site.runtime % 2 ^ 32;
  time = site.now;
  thread_name = get_name site.thread;
  content = text;
}

-- The text that is written: none where vasprintf fails.
abbrev pub printed_text : Option Bytes → Bytes
printed_text none = []
printed_text (some buf) = buf

streamed_at :
    (site : Site) (p : ℕ) (level : Level) (text : Bytes)
    → stream (event_at site p level) text ≡ made_at site p level text
unfolding stream event_at ye_cc_server.Util.get_fiber_id
streamed_at site p level text = refl

formatted_at :
    (site : Site) (p : ℕ) (level : Level) (printed : Option Bytes)
    → format (event_at site p level) printed ≡ made_at site p level (printed_text printed)
unfolding stream format event_at ye_cc_server.Util.get_fiber_id
formatted_at site p level none = refl
formatted_at site p level (some buf) = refl

module _ (fuel : ℕ) (env : Env) (site : Site) (level : Level) (target : Target) where
  -- What both macros are behind the dereference of the logger.
  abbrev guarded : ℕ → Store → Event → Bool → Outcome Store
  guarded p s event false = ok s
  guarded p s event true = log (suc (suc fuel)) env site.now p s level event

  guarded-Writes :
      (root p : ℕ) (s : Store) (l top : Logger) (event : Event)
      → IsValid root s
      → event.logger < length s.loggers
      → get_elem? s.loggers p ≡ some l
      → get_elem? s.loggers root ≡ some top
      → (b : Bool) → leb l.level level ≡ b
      → Writes env site.now level event target s (receivers level l top) (guarded p s event b)
  guarded-Writes root p s l top event v from at at_root true high =
      log-receivers env site.now level event target fuel root p s l top v from at at_root
  guarded-Writes root p s l top event v from at at_root false low =
      rw low (Writes-none env site.now level event target s)

  -- The macro with a format, on a logger that is there.
  fmt_macro-guarded :
      (p : ℕ) (s : Store) (l : Logger) (printed : Option Bytes)
      → get_elem? s.loggers p ≡ some l
      → fmt_macro (suc (suc fuel)) env site p s level printed
        ≡ guarded p s (made_at site p level (printed_text printed)) (leb l.level level)
  unfolding fmt_macro destroy_wrap
  fmt_macro-guarded p s l printed at =
      ap (λ r. r >>= λ x. taken (leb x.level level)) found ∙ same (leb l.level level)
    where
      taken : Bool → Outcome Store
      taken b = elim b [
        | false ↦ ok s
        | true ↦
            destroy_wrap (suc (suc fuel)) env site.now s (format (event_at site p level) printed)
      ]

      found : deref s.loggers p ≡ ok l
      found = rw (deref, at) refl

      same : (b : Bool) → taken b ≡ guarded p s (made_at site p level (printed_text printed)) b
      same false = refl
      same true =
          ap (destroy_wrap (suc (suc fuel)) env site.now s) (formatted_at site p level printed)

  level_macro-guarded :
      (p : ℕ) (s : Store) (l : Logger) (text : Bytes)
      → get_elem? s.loggers p ≡ some l
      → level_macro (suc (suc fuel)) env site p s level text
        ≡ guarded p s (made_at site p level text) (leb l.level level)
  unfolding level_macro log_macro stream event_at ye_cc_server.Util.get_fiber_id
  level_macro-guarded p s l text at =
      ap (λ r. r >>= λ x. taken (leb x.level level)) found ∙ same (leb l.level level)
    where
      taken : Bool → Outcome Store
      taken b = elim b [
        | false ↦ ok s
        | true ↦ log (suc (suc fuel)) env site.now p s level (made_at site p level text)
      ]

      found : deref s.loggers p ≡ ok l
      found = rw (deref, at) refl

      same : (b : Bool) → taken b ≡ guarded p s (made_at site p level text) b
      same false = refl
      same true = refl

  -- Both macros log the event that the macro's place makes, with its text, where the logger takes the level, and
  -- hand it to the receivers of the logger that they name: what they write to a target is the text of that event
  -- for each of them that reaches it, and nothing else. The store is valid, `l` and `top` are the loggers at `p`
  -- and at the root, and two calls of fuel do; the text of the macro with a format is what vasprintf prints, or
  -- none where that fails.
  pub fmt_macro-Writes :
      (root p : ℕ) (s : Store) (l top : Logger) (printed : Option Bytes)
      → IsValid root s
      → get_elem? s.loggers p ≡ some l
      → get_elem? s.loggers root ≡ some top
      → let text = printed_text printed in
        Writes env site.now level
          (made_at site p level text)
          target
          s
          (receivers level l top)
          (fmt_macro (suc (suc fuel)) env site p s level printed)
        × Writes env site.now level
            (made_at site p level text)
            target
            s
            (receivers level l top)
            (level_macro (suc (suc fuel)) env site p s level text)
  fmt_macro-Writes root p s l top printed v at at_root =
      let event = made_at site p level (printed_text printed) in
      let written =
        guarded-Writes root p s l top event v (get_elem?-lt s.loggers p l at) at at_root
          (leb l.level level) refl in
      let receives : Outcome Store → Type 0 =
        Writes env site.now level event target s (receivers level l top) in
      (
        subst receives (sym (fmt_macro-guarded p s l printed at)) written,
        subst receives (sym (level_macro-guarded p s l (printed_text printed) at)) written,
      )
