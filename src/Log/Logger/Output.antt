-- ===== src/Log/Logger/Output.antt =====
-- The output of Logger::log in src/log.cpp, told without the store: the text of an event for a list of
-- appenders.
use ye_cc_server.Prelude.{
  ℕ, ◌≡◌, refl, sym, ◌∙◌, ap, inl, inr, Bool, true, false, List, [], ◌∷◌, ◌++◌, Option, none, some,
  arith, Bytes, Outcome, ◌<◌, length, bytes_eq, ◌&&◌, not, append_assoc, append-nil, get_elem?,
  get_elem?-lt, set, All, ◌==◌, ==_iff, if◌then◌else◌, Bool-cases, Returns, leb,
}
use mathlib.Core.Path.{ap₂}
use ye_cc_server.Log.Event.{Event}
use ye_cc_server.Log.Formatter.Items.{Formatter, format}
use ye_cc_server.Log.Level.{Level}
use ye_cc_server.Log.Appender
use ye_cc_server.Log.Appender.{Appender, Outside, Env}
use ye_cc_server.Log.Logger.{Store, log_to, name_of, deref}
use ye_cc_server.Log.Logger.Valid.{HasFormat, Keeps-set, All-Keeps, get_elem?-set}
use ye_cc_server.Log.Logger.Safe.{
  text_of, name_of-Returns, deliver, taken, appender_log_lem, taken-SameAppender,
}

-- Where text can go.
pub data Target : Type 0 where
  to_console : Target
  to_file : Bytes → Target

abbrev pub contents : Outside → Target → Bytes
contents out to_console = out.stdout
contents out (to_file name) = out.files name

-- A text logged at the time gets into the file of the sink: within a second of the last log, where the
-- stream is open and has not failed; else the file is opened anew, and the text gets in where that is
-- possible. The stream that failed while it was open stays so.
abbrev pub takes : Env → ℕ → Appender.FileSink → Bool
takes env now f =
    if now == f.last_time
    then f.is_open && not f.has_failed
    else env.can_open f.filename now && not (f.is_open && f.has_failed)

-- What is opened anew is open exactly where the file takes a text.
refresh-takes :
    (env : Env) (now : ℕ) (f : Appender.FileSink)
    → let g = Appender.refresh env now f in (g.is_open && not g.has_failed) ≡ takes env now f
unfolding Appender.refresh Appender.reopen
refresh-takes env now f = ground arith

refresh-name :
    (env : Env) (now : ℕ) (f : Appender.FileSink)
    → (Appender.refresh env now f).filename ≡ f.filename
unfolding Appender.refresh Appender.reopen
refresh-name env now f = ground arith

-- A second refresh at the same time changes nothing.
refresh_idem :
    (env : Env) (now : ℕ) (f : Appender.FileSink)
    → takes env now (Appender.refresh env now f) ≡ takes env now f
unfolding Appender.refresh Appender.reopen
refresh_idem env now f = ground (arith, (==_iff now now).1 refl)

module _ (env : Env) (now : ℕ) (names : ℕ → Outcome Bytes) (level : Level) (event : Event) where
  -- The sink of an appender takes a text to the target.
  abbrev pub reaches : Target → Appender.Sink → Bool
  reaches to_console Appender.console = true
  reaches to_console (Appender.file f) = false
  reaches (to_file name) Appender.console = false
  reaches (to_file name) (Appender.file f) = bytes_eq f.filename name && takes env now f

  abbrev pub event_text : Option Formatter → Bytes
  event_text none = []
  event_text (some f) = text_of (format env.strftime names f level event)

  -- What one appender writes to a target for the event.
  abbrev pub part : Target → Appender → Bytes
  part target a = if leb a.level level && reaches target a.sink then event_text a.formatter else []

  abbrev pub part_of : Target → Option Appender → Bytes
  part_of target none = []
  part_of target (some a) = part target a

  abbrev pub part_at : Target → List Appender → ℕ → Bytes
  part_at target as' p = part_of target (get_elem? as' p)

  abbrev pub text_for : Target → List Appender → List ℕ → Bytes
  text_for target as' [] = []
  text_for target as' (p ∷ ps) = part_at target as' p ++ text_for target as' ps

  taken-contents :
      (target : Target) (a : Appender) (out : Outside) (f : Formatter)
      → a.formatter ≡ some f
      → contents (taken env now names level event f a out).1 target
        ≡ contents out target ++ part target a
  unfolding taken deliver
  taken-contents to_console a out f e = ground (arith, append-nil out.stdout)
  taken-contents (to_file name) a out f e = by_sink a.sink refl
    where
      by_sink :
          (k : Appender.Sink)
          → a.sink ≡ k
          → contents (taken env now names level event f a out).1 (to_file name)
            ≡ contents out (to_file name) ++ part (to_file name) a
      by_sink Appender.console k = ground (arith, k, append-nil (out.files name))
      by_sink (Appender.file g) k = ground (
        arith,
        e,
        k,
        append-nil (out.files name),
        refresh-takes env now g,
        refresh-name env now g,
      )

  taken-part :
      (target : Target) (a : Appender) (out : Outside) (f : Formatter)
      → part target (taken env now names level event f a out).0 ≡ part target a
  unfolding taken deliver
  taken-part to_console a out f = ground arith
  taken-part (to_file name) a out f = by_sink a.sink refl
    where
      by_sink :
          (k : Appender.Sink)
          → a.sink ≡ k
          → part (to_file name) (taken env now names level event f a out).0 ≡ part (to_file name) a
      by_sink Appender.console e = ground arith
      by_sink (Appender.file g) e = ground (arith, refresh_idem env now g, refresh-name env now g)

  part_at-set :
      (target : Target) (as' : List Appender) (p : ℕ) (a b : Appender) (q : ℕ)
      → get_elem? as' p ≡ some a
      → part target b ≡ part target a
      → part_at target (set as' p b) q ≡ part_at target as' q
  part_at-set target as' p a b q at same =
      ap (part_of target) (get_elem?-set as' p q b (get_elem?-lt as' p a at))
      ∙ elim (Bool-cases (p == q)) [
        | inl eq ↦ rw eq (rw (← (==_iff p q).0 eq) (rw at same))
        | inr ne ↦ rw ne
      ]

  text_for-set :
      (target : Target) (as' : List Appender) (p : ℕ) (a b : Appender) (ps : List ℕ)
      → get_elem? as' p ≡ some a
      → part target b ≡ part target a
      → text_for target (set as' p b) ps ≡ text_for target as' ps
  text_for-set target as' p a b [] at same = refl
  text_for-set target as' p a b (q ∷ ps) at same =
      ap₂ ◌++◌ (part_at-set target as' p a b q at same) (text_for-set target as' p a b ps at same)

module _ (env : Env) (now : ℕ) (level : Level) (event : Event) (target : Target) where
  pub log_to-contents :
      (ps : List ℕ) (s : Store)
      → event.logger < length s.loggers
      → All (HasFormat s.appenders) ps
      → Returns
          (λ t.
            contents t.outside target
            ≡ contents s.outside target
              ++ text_for env now (name_of s.loggers) level event target s.appenders ps)
          (log_to env now ps s level event)
  unfolding log_to
  log_to-contents [] s from h = (s, refl, sym (append-nil _))
  log_to-contents (p ∷ ps) s from ((app, f, at, has), h) =
      let names = name_of s.loggers in
      let (name, named, _) = name_of-Returns s.loggers event.logger from in
      let done = appender_log_lem env now names level event name app s.outside f named has in
      let r = taken env now names level event f app s.outside in
      let same = taken-SameAppender env now names level event app s.outside f in
      let keeps =
        Keeps-set s.appenders p r.0 f (same.same_formatter ∙ has)
          (get_elem?-lt s.appenders p app at) in
      let next : Store = record {
        loggers = s.loggers;
        appenders = set s.appenders p r.0;
        outside = r.1;
      } in
      let (t, rest, written) = log_to-contents ps next from (All-Keeps s.appenders _ ps keeps h) in
      let first = taken-contents env now names level event target app s.outside f has in
      let others =
        text_for-set env now names level event target s.appenders p app r.0 ps at
          (taken-part env now names level event target app s.outside f) in
      (
        t,
        rw (at, deref, done) rest,
        written ∙ rw (first, others, at) (append_assoc (contents s.outside target) _ _),
      )
