-- ===== src/Log/Macro.antt =====
-- The macros YECC_LOG_LEVEL and YECC_LOG_FMT_LEVEL of include/log.hpp with the event that they make, and
-- LogEventWrap, Logger::debug, info, warn and fatal of src/log.cpp.
pub mod Written
use ye_cc_server.Prelude.{
  ℕ, ◌≡◌, refl, sym, ap, true, false, [], append-nil, Option, none, some, Outcome, ok, ◌>>=◌,
  bind_cong, Bytes, ℤ, leb, Bool-cases, inl, inr,
}
use ye_cc_server.Fiber.{Runtime}
use ye_cc_server.Util.{get_fiber_id}
use ye_cc_server.Thread.{World, get_name}
use ye_cc_server.Log.Level.{Level, debug, info, warn, fatal}
use ye_cc_server.Log.Event.{Event, stream, format}
use ye_cc_server.Log.Appender.{Env}
use ye_cc_server.Log.Logger.{Store, deref, log, log_macro}

-- LogEvent::LogEvent.
abbrev pub new_event : ℕ → Level → Bytes → ℤ → ℕ → ℕ → ℕ → ℕ → Bytes → Event
new_event logger level file line elapse thread_id fiber_id time tname = record {
  logger = logger;
  level = level;
  file = file;
  line = line;
  elapse = elapse;
  thread_id = thread_id;
  fiber_id = fiber_id;
  time = time;
  thread_name = tname;
  content = [];
}

-- The place of a macro, and the thread that comes to it: its number, its fibers and its name.
pub record Site : Type 0 where
  pub file : Bytes
  pub line : ℤ
  pub thread_id : ℕ
  pub runtime : Runtime
  pub thread : World
  pub now : ℕ

-- The event that a macro makes.
unfoldable pub event_at : Site → ℕ → Level → Event
unfolding get_fiber_id
event_at site p level =
    new_event p level site.file site.line 0 site.thread_id (get_fiber_id site.runtime) site.now
      (get_name site.thread)

module _ (fuel : ℕ) (env : Env) where
  -- Logger::debug, info, warn and fatal.
  unfoldable pub log_debug : ℕ → ℕ → Store → Event → Outcome Store
  log_debug now p s event = log fuel env now p s debug event

  unfoldable pub log_info : ℕ → ℕ → Store → Event → Outcome Store
  log_info now p s event = log fuel env now p s info event

  unfoldable pub log_warn : ℕ → ℕ → Store → Event → Outcome Store
  log_warn now p s event = log fuel env now p s warn event

  unfoldable pub log_fatal : ℕ → ℕ → Store → Event → Outcome Store
  log_fatal now p s event = log fuel env now p s fatal event

  -- LogEventWrap::~LogEventWrap.
  unfoldable pub destroy_wrap : ℕ → Store → Event → Outcome Store
  destroy_wrap now s event = log fuel env now event.logger s event.level event

  -- YECC_LOG_LEVEL(logger, level)<<text
  unfoldable pub level_macro : Site → ℕ → Store → Level → Bytes → Outcome Store
  unfolding event_at
  level_macro site p s level text =
      log_macro fuel env site.now p s level (event_at site p level) text

  -- YECC_LOG_FMT_LEVEL(logger, level, fmt, ...), where `printed` is what vasprintf makes of the arguments.
  unfoldable pub fmt_macro : Site → ℕ → Store → Level → Option Bytes → Outcome Store
  unfolding destroy_wrap event_at
  fmt_macro site p s level printed = deref s.loggers p >>= λ l. elim (leb l.level level) [
    | false ↦ ok s
    | true ↦ destroy_wrap site.now s (format (event_at site p level) printed)
  ]
