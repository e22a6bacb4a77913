-- ===== src/Log/Event.antt =====
-- LogEvent of include/log.hpp: what the macros put into an event, and its text.
use ye_cc_server.Prelude.{ℕ, ℤ, ◌++◌, Option, none, some, Bytes}
use ye_cc_server.Log.Level.{Level}

-- `m_logger` is a pointer, here the number of the logger. `content` is what the stream `m_ss` holds.
pub record Event : Type 0 where
  pub logger : ℕ
  pub level : Level
  pub file : Bytes
  pub line : ℤ
  pub elapse : ℕ
  pub thread_id : ℕ
  pub fiber_id : ℕ
  pub time : ℕ
  pub thread_name : Bytes
  pub content : Bytes

-- m_logEvent->getSS()<<text.
unfoldable pub stream : Event → Bytes → Event
stream event written = record event { content = event.content ++ written }

-- LogEvent::format: `printed` is what `vasprintf` makes of the arguments, none where it returns -1.
unfoldable pub format : Event → Option Bytes → Event
unfolding stream
format event none = event
format event (some buf) = stream event buf
