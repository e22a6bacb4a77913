-- ===== src/Log/Logger/Calls.antt =====
-- The public operations of Logger in src/log.cpp that change a logger, as one type of calls.
use ye_cc_server.Prelude.{ℕ, ◌<◌, some, Outcome, Bytes, length, Returns}
use ye_cc_server.Log.Formatter.Items.{Formatter}
use ye_cc_server.Log.Level.{Level}
use ye_cc_server.Log.Logger.{
  Store, add_appender, del_appender, clear_appender, set_level, set_formatter, set_pattern,
}
use ye_cc_server.Log.Logger.Valid.{IsValid, Preserves}
use ye_cc_server.Log.Logger.Changes.{
  add_appender-Preserves, del_appender-Preserves, clear_appender-Preserves, set_level-Preserves,
  set_formatter-Preserves, set_pattern-Preserves,
}

pub data Call : Type 0 where
  adds deletes : ℕ → Call
  clears : Call
  levels : Level → Call
  formats : Formatter → Call
  patterns : Bytes → Call

-- The call on the logger at `p`.
unfoldable pub call : Store → ℕ → Call → Outcome Store
call s p (adds a) = add_appender s p a
call s p (deletes a) = del_appender s p a
call s p clears = clear_appender s p
call s p (levels level) = set_level s p level
call s p (formats f) = set_formatter s p (some f)
call s p (patterns pattern) = set_pattern s p pattern

-- An appender that is added is a real one.
abbrev pub IsCall : Store → Call → Type 0
IsCall s (adds a) = a < length s.appenders
IsCall s _ = Unit

-- Every call of an operation that changes a logger returns on a valid store and leaves it valid, with
-- the same loggers under their names: adding an existing appender, deleting any, clearing them, setting
-- the level, a formatter that is not null, or any pattern at all.
pub call-Preserves :
    (root p : ℕ) (s : Store) (x : Call)
    → IsValid root s
    → p < length s.loggers
    → IsCall s x
    → Returns (Preserves root s) (call s p x)
unfolding call
call-Preserves root p s (adds a) v h k = add_appender-Preserves root p s v h a k
call-Preserves root p s (deletes a) v h k = del_appender-Preserves root p s v h a
call-Preserves root p s clears v h k = clear_appender-Preserves root p s v h
call-Preserves root p s (levels level) v h k = set_level-Preserves root p s v h level
call-Preserves root p s (formats f) v h k = set_formatter-Preserves root p s v h f
call-Preserves root p s (patterns pattern) v h k = set_pattern-Preserves root p s v h pattern
