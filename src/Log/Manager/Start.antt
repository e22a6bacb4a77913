-- ===== src/Log/Manager/Start.antt =====
-- LoggerManager::LoggerManager of src/log.cpp: the manager that a program starts with.
use mathlib.Core.Path.{subst}
use ye_cc_server.Prelude.{
  sym, ◌∙◌, ap, ok, ok_inj, Outcome, Bytes, ◌++◌, decimal, decimal_int, leb, true, false, ◌&&◌,
  if◌then◌else◌, append-nil, List, ℕ, zero, suc, ◌≡◌, refl, inl, [], ◌∷◌, none, some, arith, codes,
  get_elem?, Returns,
}
use ye_cc_server.Prelude.Maps.{find, bytes_key}
use ye_cc_server.Log.Formatter.Items.{Formatter, new_formatter, format}
use ye_cc_server.Log.Formatter.Pieces.{Piece, lit, item, IsPattern}
use ye_cc_server.Log.Formatter.Meaning.{meaning, new_formatter-print}
use ye_cc_server.Log.Event.{Event}
use ye_cc_server.Log.Level.{Level, debug, to_string}
use ye_cc_server.Log.Logger.Output.{to_console, text_for}
use ye_cc_server.Log.Logger.Receivers.{log-receivers}
use ye_cc_server.Log.Appender.{Outside, Env, console, new_stdout}
use ye_cc_server.Log.Logger.{
  Logger, Store, default_pattern, make_logger, add_appender, log, name_of,
}
use ye_cc_server.Log.Logger.Valid.{IsLogger, IsValid}
use ye_cc_server.Log.Logger.Changes.{add_appender-Preserves}
use ye_cc_server.Log.Manager.{Manager, new_manager}
use ye_cc_server.Log.Manager.Valid.{IsManager, make_logger-Returns}

-- The store with the root logger and the appender that it does not have yet.
abbrev first : Logger → Outside → Store
first l out = record { loggers = l ∷ []; appenders = new_stdout ∷ []; outside = out }

first-IsValid :
    (l : Logger) (out : Outside)
    → ((f : Formatter) × (l.formatter ≡ some f))
    → l.appenders ≡ []
    → l.root ≡ none
    → IsValid 0 (first l out)
first-IsValid l out f empty alone = record { loggers_valid = each; root_valid = (l, refl, alone) }
  where
    each : (p : ℕ) (x : Logger) → get_elem? (l ∷ []) p ≡ some x → IsLogger (new_stdout ∷ []) 0 x
    each zero x e =
        let is : l ≡ x = ground (arith, e) in
        rw (← is) (record { formatted = f; attached = rw empty tt; parent = inl alone })
    each (suc p) x e = absurd (ground (arith, e))

-- The constructor of the manager returns a valid one, in which no name leads to a logger yet.
pub new_manager-IsManager :
    (out : Outside) → Returns (λ m. IsManager m × (m.loggers ≡ [])) (new_manager out)
unfolding new_manager
new_manager-IsManager out =
    let (l, made, (_, empty, alone, f)) = make_logger-Returns (codes "root") in
    let v = first-IsValid l out f empty alone in
    let (s, added, kept) =
      add_appender-Preserves 0 0 (first l out) v (omega arith) 0 (omega arith) in
    (
      record { store = s; root = 0; loggers = [] },
      rw (made, added),
      (
        record {
          valid = kept.valid;
          named = λ name p h. absurd (unfold find in ground (arith, h));
        },
        refl,
      ),
    )

-- The pattern of a new logger.
abbrev tab : Piece
tab = item b'T' none

abbrev default_pieces : List Piece
default_pieces =
    item b'd' (some (codes "%Y-%m-%d %H:%M:%S"))
    ∷ tab
    ∷ item b't' none
    ∷ tab
    ∷ item b'F' none
    ∷ tab
    ∷ lit (codes "[")
    ∷ item b'p' none
    ∷ lit (codes "]")
    ∷ tab
    ∷ lit (codes "[")
    ∷ item b'c' none
    ∷ lit (codes "]")
    ∷ tab
    ∷ item b'f' none
    ∷ lit (codes ":")
    ∷ item b'l' none
    ∷ tab
    ∷ item b'm' none
    ∷ item b'n' none
    ∷ []

default_pieces-IsPattern : IsPattern default_pieces
default_pieces-IsPattern = ground arith

default_formatter :
    Returns
      (λ f.
        (strftime : Bytes → ℕ → Bytes) (logger_name : ℕ → Outcome Bytes) (level : Level)
        (event : Event)
        → format strftime logger_name f level event
          ≡ meaning strftime logger_name level event default_pieces)
      (new_formatter default_pattern)
default_formatter =
    let (f, made, (_, _, formats)) =
      new_formatter-print default_pieces default_pieces-IsPattern (omega arith) in
    (f, made, formats)

-- The line that the default pattern makes of an event of the root logger.
abbrev pub root_line : Env → Level → Event → Bytes
root_line env level event =
    env.strftime (codes "%Y-%m-%d %H:%M:%S") event.time
    ++ (codes "\t"
        ++ (decimal event.thread_id
            ++ (codes "\t"
                ++ (decimal event.fiber_id
                    ++ (codes "\t["
                        ++ (to_string level
                            ++ (codes "]\t[root]\t"
                                ++ (event.file
                                    ++ (codes ":"
                                        ++ (decimal_int event.line
                                            ++ (codes "\t"
                                                ++ (event.content ++ codes "\n"))))))))))))

-- The manager behind its constructor, for the formatter of its root.
abbrev started : Formatter → Outside → Manager
started f out = record {
  store = record {
    loggers =
        record {
          name = codes "root";
          level = debug;
          appenders = 0 ∷ [];
          formatter = some f;
          root = none;
        }
        ∷ [];
    appenders =
        record { level = debug; formatter = some f; has_formatter = false; sink = console } ∷ [];
    outside = out;
  };
  root = 0;
  loggers = [];
}

new_manager-started :
    (f : Formatter) (out : Outside)
    → new_formatter default_pattern ≡ ok f
    → new_manager out ≡ ok (started f out)
unfolding new_manager make_logger add_appender
new_manager-started f out made = rw made refl

-- What the appender of the root writes to the console.
root_line_lem :
    (f : Formatter) (env : Env) (now : ℕ) (level : Level) (event : Event) (out : Outside)
    → leb debug level ≡ true
    → let s = (started f out).store in
      format env.strftime (name_of s.loggers) f level event
        ≡ meaning env.strftime (name_of s.loggers) level event default_pieces
      → event.logger ≡ 0
      → text_for env now
          (name_of s.loggers)
          level
          event
          to_console
          s.appenders
          (if leb debug level then 0 ∷ [] else [])
        ≡ root_line env level event
unfolding name_of
root_line_lem f env now level event out high formats is_root =
    rw (high, formats, is_root)
      (ap (λ b. (if b then root_line env level event else []) ++ []) high'
        ∙ append-nil (root_line env level event))
  where
    high' : (leb debug level && true) ≡ true
    high' = ground (arith, high)

-- The constructor of the manager returns a valid one, in which no name leads to a logger yet, and whose root
-- prints: an event of the root logger, at any level from DEBUG on, is logged through it with two calls of fuel,
-- and the console then has the line of the default pattern for it behind what it had.
pub new_manager-Logs :
    (fuel : ℕ) (env : Env) (now : ℕ) (level : Level) (event : Event) (out : Outside)
    → leb debug level ≡ true
    → Returns
        (λ m.
          IsManager m
          × (m.loggers ≡ [])
          × Returns
              (λ t. t.outside.stdout ≡ out.stdout ++ root_line env level event)
              (log
                (suc (suc fuel))
                env
                now
                m.root
                m.store
                level
                (record event { logger = m.root })))
        (new_manager out)
new_manager-Logs fuel env now level event out high =
    let (f, made, formats) = default_formatter in
    let start = new_manager-started f out made in
    let (m, done, (v, _)) = new_manager-IsManager out in
    let valid : IsManager (started f out) = subst IsManager (ok_inj (sym done ∙ start)) v in
    let s = (started f out).store in
    let top : Logger = record {
      name = codes "root";
      level = debug;
      appenders = 0 ∷ [];
      formatter = some f;
      root = none;
    } in
    let (t, logged, written) =
      log-receivers env now level (record event { logger = 0 }) to_console fuel 0 0 s top top
        valid.valid (omega arith) refl refl in
    (
      started f out,
      start,
      (
        valid,
        refl,
        (
          t,
          logged,
          written
              ∙ ap (◌++◌ out.stdout) (
                  root_line_lem f env now level (record event { logger = 0 }) out high
                    (formats env.strftime (name_of s.loggers) level (record event { logger = 0 }))
                    refl),
        ),
      ),
    )
