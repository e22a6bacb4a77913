-- ===== src/Log/Logger.antt =====
-- Logger of include/log.hpp and src/log.cpp, over a store: loggers and appenders are shared objects,
-- and a pointer to one is its number in the store.
pub mod Valid
pub mod Safe
pub mod Changes
pub mod Calls
pub mod Output
pub mod Receivers
pub mod Inherit
use ye_cc_server.Prelude.{
  ℕ, zero, suc, Bool, true, false, not, List, [], ◌∷◌, ◌++◌, Option, none, some, Outcome, ok, fault,
  out_of_fuel, ◌>>=◌, Bytes, codes, leb, ◌==◌, if◌then◌else◌, length, get_elem?, set,
}
use ye_cc_server.Log.Event
use ye_cc_server.Log.Event.{Event, stream}
use ye_cc_server.Log.Formatter.Items.{Formatter, new_formatter}
use ye_cc_server.Log.Level.{Level, debug}
use ye_cc_server.Log.Appender
use ye_cc_server.Log.Appender.{Appender, Outside, Env}

pub record Logger : Type 0 where
  pub name : Bytes
  pub level : Level
  pub appenders : List ℕ
  pub formatter : Option Formatter
  pub root : Option ℕ

pub record Store : Type 0 where
  pub loggers : List Logger
  pub appenders : List Appender
  pub outside : Outside

abbrev pub deref {ℓ} : {A : Type ℓ} → List A → ℕ → Outcome A
deref xs p = elim (get_elem? xs p) [ none ↦ fault | some x ↦ ok x ]

-- The assignment `*p = x`.
abbrev pub put_logger : Store → ℕ → Logger → Store
put_logger s p l = record s { loggers = set s.loggers p l }

abbrev pub put_appender : Store → ℕ → Appender → Store
put_appender s p a = record s { appenders = set s.appenders p a }

-- `new`: the object gets the next number.
abbrev pub new_appender : Store → Appender → Store × ℕ
new_appender s a = (record s { appenders = s.appenders ++ a ∷ [] }, length s.appenders)

abbrev pub new_logger : Store → Logger → Store × ℕ
new_logger s l = (record s { loggers = s.loggers ++ l ∷ [] }, length s.loggers)

abbrev pub default_pattern : Bytes
default_pattern = codes "%d{%Y-%m-%d %H:%M:%S}%T%t%T%F%T[%p]%T[%c]%T%f:%l%T%m%n"

-- Logger::Logger.
unfoldable pub make_logger : Bytes → Outcome Logger
make_logger name = do
  formatter ← new_formatter default_pattern
  ok (record {
    name = name;
    level = debug;
    appenders = [];
    formatter = some formatter;
    root = none;
  })

-- event->getLogger()->getName()
unfoldable pub name_of : List Logger → ℕ → Outcome Bytes
name_of loggers p = deref loggers p >>= λ l. ok l.name

-- The loop of Logger::log over the appenders.
unfoldable pub log_to : Env → ℕ → List ℕ → Store → Level → Event → Outcome Store
log_to env now [] s level event = ok s
log_to env now (p ∷ ps) s level event = do
  app ← deref s.appenders p
  done ← Appender.log env now (name_of s.loggers) app s.outside level event
  log_to env now ps (record (put_appender s p done.0) { outside = done.1 }) level event

-- Logger::log. The fuel bounds the chain of `m_root` pointers.
unfoldable pub log : ℕ → Env → ℕ → ℕ → Store → Level → Event → Outcome Store
log zero env now p s level event = out_of_fuel
log (suc fuel) env now p s level event = do
  l ← deref s.loggers p
  elim (leb l.level level) [
    | false ↦ ok s
    | true ↦ elim l.appenders [
      | [] ↦ elim l.root [ none ↦ ok s | some root ↦ log fuel env now root s level event ]
      | app ∷ apps ↦ log_to env now (app ∷ apps) s level event
    ]
  ]

-- YECC_LOG_LEVEL(logger, level)<<text, with the event that the macro makes. The event is logged by the
-- destructor of the LogEventWrap, behind the text.
unfoldable pub log_macro : ℕ → Env → ℕ → ℕ → Store → Level → Event → Bytes → Outcome Store
log_macro fuel env now p s level event text = do
  l ← deref s.loggers p
  elim (leb l.level level) [
    | false ↦ ok s
    | true ↦ log fuel env now p s level (stream (record event { logger = p; level = level }) text)
  ]

-- Logger::addAppender.
unfoldable pub add_appender : Store → ℕ → ℕ → Outcome Store
add_appender s p a = do
  l ← deref s.loggers p
  app ← deref s.appenders a
  let given : Appender = elim app.formatter [
    | none ↦ Appender.set_formatter app l.formatter
    | some f ↦ app
  ]
  ok (put_logger (put_appender s a given) p (record l { appenders = l.appenders ++ a ∷ [] }))

-- `std::list::remove`.
abbrev pub remove : ℕ → List ℕ → List ℕ
remove a [] = []
remove a (x ∷ xs) = if x == a then remove a xs else x ∷ remove a xs

-- Logger::delAppender.
unfoldable pub del_appender : Store → ℕ → ℕ → Outcome Store
del_appender s p a = do
  l ← deref s.loggers p
  ok (put_logger s p (record l { appenders = remove a l.appenders }))

-- Logger::clearAppender.
unfoldable pub clear_appender : Store → ℕ → Outcome Store
clear_appender s p = do l ← deref s.loggers p; ok (put_logger s p (record l { appenders = [] }))

-- Logger::setLevel.
unfoldable pub set_level : Store → ℕ → Level → Outcome Store
set_level s p level = do l ← deref s.loggers p; ok (put_logger s p (record l { level = level }))

-- The loop of Logger::setFormatter over the appenders: one that has a formatter of its own keeps it.
unfoldable pub give_formatter : List ℕ → Store → Option Formatter → Outcome Store
give_formatter [] s val = ok s
give_formatter (a ∷ as') s val = do
  app ← deref s.appenders a
  let given = if app.has_formatter then app else Appender.set_formatter app val
  give_formatter as' (put_appender s a given) val

-- Logger::setFormatter of a formatter. The two overloads assign and loop in the opposite order.
unfoldable pub set_formatter : Store → ℕ → Option Formatter → Outcome Store
set_formatter s p val = do
  l ← deref s.loggers p
  give_formatter l.appenders (put_logger s p (record l { formatter = val })) val

-- The report of a pattern with an error.
abbrev pub report : Outside → Bytes → Formatter → Bytes → Outside
report out name f val =
    let head = codes "Logger setFormatter name = " ++ name in
    let text = head ++ (codes " value = " ++ (val ++ codes " invalid formatter\n")) in
    if f.is_error then Appender.print_out out text else out

-- Logger::setFormatter of a pattern. A pattern with an error is reported, and taken all the same.
unfoldable pub set_pattern : Store → ℕ → Bytes → Outcome Store
set_pattern s p val = do
  new_val ← new_formatter val
  l ← deref s.loggers p
  t ←
      give_formatter l.appenders (record s { outside = report s.outside l.name new_val val })
        (some new_val)
  ok (put_logger t p (record l { formatter = some new_val }))
