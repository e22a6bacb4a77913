-- ===== src/Tests/Loggers.antt =====
-- A root logger that writes to the console and a logger below it, of src/log.cpp.
use mathlib.Core.Path.{subst}
use ye_cc_server.Prelude.{
  ℕ, zero, suc, ◌≡◌, refl, inl, inr, true, false, List, [], ◌∷◌, none, some, ok, Bytes, codes,
  bytes_eq, bytes_eq_iff, bytes_eq, All, Bool-cases, set, ◌>>=◌, ◌++◌, get_elem?, Returns, arith,
  pos, to_upper,
}
use ye_cc_server.Prelude.Maps.{find, bytes_key}
use ye_cc_server.Log.Event.{Event}
use ye_cc_server.Log.Level.{Level, debug, info, warn, fatal, disabled}
use ye_cc_server.Log.Level
use ye_cc_server.Log.Formatter.Items.{Formatter, message, new_line, new_formatter, format}
use ye_cc_server.Log.Appender
use ye_cc_server.Log.Appender.{Appender, Outside, Env, console}
use ye_cc_server.Log.Logger.{Logger, Store, log, log_to, set_pattern}
use ye_cc_server.Log.Logger.Valid.{IsValid, IsLogger, Preserves}
use ye_cc_server.Log.Logger.Safe.{log-Preserves}
use ye_cc_server.Log.Logger.Output.{to_console}
use ye_cc_server.Log.Logger.Receivers.{log-receivers, receivers, Writes}
use ye_cc_server.Log.Logger.Calls.{call, call-Preserves, adds}
use ye_cc_server.Log.Logger.Inherit.{Inherits, set_pattern-Inherits}
use ye_cc_server.Log.Manager.{Manager, get_logger, new_manager}
use ye_cc_server.Log.Manager.Start.{root_line, new_manager-Logs}
use ye_cc_server.Log.Manager.Valid.{IsNamed, IsManager, Finds, get_logger-Finds}
use ye_cc_server.Log.Conf.Configured.{IsConfigured, configure-IsConfigured}
use ye_cc_server.Log.Conf.{configure, LogDefine, on_change, update_all, find_define, define_eq}
use ye_cc_server.Log.Conf.Total.{on_change-IsManager}
use ye_cc_server.Log.Conf.Stops.{on_change-stops}
use ye_cc_server.Log.Conf.Keeps.{IsInForce}
use ye_cc_server.Log.Conf.Whole.{IsGoneOff, on_change-IsInForce}

abbrev pub plain : Formatter
plain = record { pattern = codes "%m%n"; items = message ∷ new_line ∷ []; is_error = false }

abbrev screen : Appender
screen = record { level = debug; formatter = some plain; has_formatter = false; sink = console }

abbrev pub top : Logger
top = record {
  name = codes "root";
  level = debug;
  appenders = 0 ∷ [];
  formatter = some plain;
  root = none;
}

abbrev pub child : Logger
child = record {
  name = codes "db";
  level = warn;
  appenders = [];
  formatter = some plain;
  root = some 0;
}

abbrev nothing : Outside
nothing = record { stdout = []; files = λ name. [] }

abbrev pub two : Store
two = record { loggers = top ∷ child ∷ []; appenders = screen ∷ []; outside = nothing }

pub two-IsValid : IsValid 0 two
two-IsValid = record { loggers_valid = each; root_valid = (top, refl, refl) }
  where
    each : (p : ℕ) (l : Logger) → get_elem? two.loggers p ≡ some l → IsLogger two.appenders 0 l
    each zero l e =
        let is : top ≡ l = ground (arith, e) in
        rw (← is) (record {
          formatted = (plain, refl);
          attached = ((screen, plain, refl, refl), tt);
          parent = inl refl;
        })
    each (suc zero) l e =
        let is : child ≡ l = ground (arith, e) in
        rw (← is) (record { formatted = (plain, refl); attached = tt; parent = inr refl })
    each (suc (suc p)) l e = absurd (ground (arith, e))

abbrev pub clock : Env
clock = record { strftime = λ fmt time. fmt; can_open = λ name now. true }

abbrev pub hello : Event
hello = record {
  logger = 1;
  level = fatal;
  file = codes "main.cpp";
  line = pos 7;
  elapse = 0;
  thread_id = 1;
  fiber_id = 0;
  time = 5;
  thread_name = codes "main";
  content = codes "hello";
}

log-receivers_example :
    Writes clock 9 fatal hello to_console two
      (receivers fatal child top)
      (log 2 clock 9 1 two fatal hello)
log-receivers_example =
    log-receivers clock 9 fatal hello to_console 0 0 1 two child top two-IsValid (omega arith) refl
      refl

log-Preserves_example :
    Returns (λ t. Preserves 0 two t × (t.loggers ≡ two.loggers)) (log 2 clock 9 1 two fatal hello)
log-Preserves_example =
    log-Preserves 0 clock 9 0 1 two fatal hello two-IsValid (omega arith) (omega arith)

call-Preserves_example : Returns (Preserves 0 two) (call two 1 (adds 0))
call-Preserves_example = call-Preserves 0 1 two (adds 0) two-IsValid (omega arith) (omega arith)

-- The text reaches the console through the root.
hello_is_written :
    log 2 clock 9 1 two fatal hello
    ≡ ok (record two { outside = record nothing { stdout = codes "hello\n" } })
unfolding log log_to Appender.log format
hello_is_written = refl

abbrev pub boss : Manager
boss = record { store = two; root = 0; loggers = (codes "db", 1) ∷ [] }

pub boss-IsManager : IsManager boss
unfolding find
boss-IsManager = record { valid = two-IsValid; named = each }
  where
    each : (name : Bytes) (p : ℕ) → find name boss.loggers ≡ some p → IsNamed boss name p
    each name p e = elim (Bool-cases (bytes_eq (codes "db") name)) [
      | inl same ↦
          let is : 1 ≡ p = ground (arith, e, same) in
          subst (IsNamed boss name) is (record {
            logger = child;
            at = refl;
            has_name = (bytes_eq_iff (codes "db") name).0 same;
            not_root = λ x. absurd (omega (arith, x));
          })
      | inr other ↦ absurd (ground (arith, e, other))
    ]

get_logger-Finds_example :
    Returns (λ r. Finds boss (codes "net") r.0 r.1) (get_logger boss (codes "net"))
get_logger-Finds_example = get_logger-Finds boss (codes "net") boss-IsManager

set_pattern-Inherits_example :
    Returns
      (λ t.
        (f : Formatter) × (new_formatter (codes "%p %m") ≡ ok f)
        × (t.loggers ≡ set two.loggers 0 (record top { formatter = some f }))
        × Inherits f top.appenders two.appenders t.appenders)
      (set_pattern two 0 (codes "%p %m"))
set_pattern-Inherits_example = set_pattern-Inherits 0 0 two top (codes "%p %m") two-IsValid refl

-- A configuration with one logger that writes to the console.
abbrev define : Bytes → LogDefine
define name = record {
  name = name;
  level = info;
  formatter = codes "%m";
  appenders = record { type = 2; level = warn; formatter = []; file = [] } ∷ [];
}

on_change-IsManager_example :
    Returns IsManager
      (on_change clock 9 hello (define (codes "old") ∷ []) (define (codes "db") ∷ []) boss)
on_change-IsManager_example =
    on_change-IsManager clock 9 hello (define (codes "old") ∷ []) (define (codes "db") ∷ []) boss
      boss-IsManager ((inr refl, tt), tt)

on_change-stops_example :
    on_change clock 9 hello
      (define (codes "db") ∷ [])
      ([] ++ define (codes "db") ∷ define (codes "net") ∷ [])
      boss
    ≡ (update_all clock 9 hello (define (codes "db") ∷ []) [] boss >>= λ r. ok r.0)
unfolding find_define bytes_eq define_eq
on_change-stops_example =
    on_change-stops clock 9 hello (define (codes "db") ∷ []) (define (codes "net") ∷ [])
      (define (codes "db")) (define (codes "db")) refl refl [] boss

from_string-to_string_example : Level.from_string (codes "warn") ≡ warn
unfolding Level.to_string to_upper
from_string-to_string_example = Level.from_string-to_string warn (codes "warn") (omega arith) refl

new_manager-Logs_example :
    Returns
      (λ m.
        IsManager m
        × (m.loggers ≡ [])
        × Returns
            (λ t. t.outside.stdout ≡ root_line clock fatal hello)
            (log 2 clock 9 m.root m.store fatal (record hello { logger = m.root })))
      (new_manager nothing)
new_manager-Logs_example = new_manager-Logs 0 clock 9 fatal hello nothing refl

configure-IsConfigured_example :
    Returns (IsConfigured (define (codes "db")) child 1) (configure two 1 (define (codes "db")))
configure-IsConfigured_example =
    configure-IsConfigured 0 1 two child (define (codes "db")) two-IsValid refl (inr refl, tt)

-- The level of `db` changes, `net` is new, `old` is gone.
abbrev before : List LogDefine
before = define (codes "db") ∷ define (codes "old") ∷ []

abbrev after : List LogDefine
after = record (define (codes "db")) { level = fatal } ∷ define (codes "net") ∷ []

on_change-IsInForce_example :
    Returns
      (λ n. IsManager n × All (IsInForce n) after × All (IsGoneOff clock 9 hello after n) before)
      (on_change clock 9 hello before after boss)
unfolding find_define bytes_eq define_eq
on_change-IsInForce_example =
    on_change-IsInForce clock 9 hello before after boss boss-IsManager
      ((inr refl, tt), ((inr refl, tt), tt)) ((((λ e. absurd (ground (arith, e))), tt), (tt, tt)))
      ((((λ e. absurd (ground (arith, e))), tt), (tt, tt)))
      ((inr (define (codes "db"), refl, refl), (inl refl, tt)))
