-- ===== src/Log/Formatter/Items.antt =====
-- The items of a formatter: the second half of LogFormatter::init, and LogFormatter::format, of
-- src/log.cpp.
use ye_cc_server.Prelude.{
  ℕ, Bool, true, false, List, [], ◌∷◌, ◌++◌, ◌==◌, if◌then◌else◌, Option, none, some, Outcome, ok,
  ◌>>=◌, Bytes, codes, bytes_eq, decimal, decimal_int,
}
use ye_cc_server.Log.Event.{Event}
use ye_cc_server.Log.Level.{Level, to_string}
use ye_cc_server.Log.Formatter.Parse.{Entry, parse}

-- The subclasses of LogFormatter::FormatItem.
pub data FormatItem : Type 0 where
  message level_item elapse_item log_name thread_id thread_name fiber_id : FormatItem
  date_time : Bytes → FormatItem
  filename line_item new_line tab_item : FormatItem
  string_item : Bytes → FormatItem

-- The static table s_format_items: the constructor that a code stands for, applied to the text in
-- braces. Only DateTimeFormatItem keeps that text.
unfoldable pub format_items : Bytes → Bytes → Option FormatItem
format_items code fmt =
    if bytes_eq code (codes "m")
    then some message
    else if bytes_eq code (codes "p")
    then some level_item
    else if bytes_eq code (codes "r")
    then some elapse_item
    else if bytes_eq code (codes "c")
    then some log_name
    else if bytes_eq code (codes "t")
    then some thread_id
    else if bytes_eq code (codes "N")
    then some thread_name
    else if bytes_eq code (codes "n")
    then some new_line
    else if bytes_eq code (codes "d")
    then some (date_time fmt)
    else if bytes_eq code (codes "f")
    then some filename
    else if bytes_eq code (codes "l")
    then some line_item
    else if bytes_eq code (codes "T")
    then some tab_item
    else if bytes_eq code (codes "F")
    then some fiber_id
    else none

pub record Formatter : Type 0 where
  pub pattern : Bytes
  pub items : List FormatItem
  pub is_error : Bool

abbrev pub error_item : FormatItem
error_item = string_item (codes "<error type>")

-- One round of the loop over `parse_tab`.
unfoldable pub add_item : Formatter → Entry → Formatter
add_item f e =
    if e.kind == 0
    then record f { items = f.items ++ string_item e.code_str ∷ [] }
    else elim (format_items e.code_str e.detail) [
      | none ↦ record f { items = f.items ++ error_item ∷ []; is_error = true }
      | some item ↦ record f { items = f.items ++ item ∷ [] }
    ]

unfoldable pub add_items : Formatter → List Entry → Formatter
unfolding add_item
add_items f [] = f
add_items f (e ∷ es) = add_items (add_item f e) es

-- LogFormatter::LogFormatter and LogFormatter::init.
unfoldable pub new_formatter : Bytes → Outcome Formatter
unfolding add_items
new_formatter pattern = do
  parse_tab ← parse pattern
  ok (add_items (record { pattern = pattern; items = []; is_error = false }) parse_tab)

-- `strftime` is what `localtime_r` and `strftime` put into the buffer for a format and a time;
-- `logger_name` is event->getLogger()->getName(), which faults on a null or dangling pointer.
module _ (strftime : Bytes → ℕ → Bytes) (logger_name : ℕ → Outcome Bytes) where
  -- FormatItem::format of each subclass, on the stream `os`.
  unfoldable pub format_item : FormatItem → Bytes → Level → Event → Outcome Bytes
  format_item message os level event = ok (os ++ event.content)
  format_item level_item os level event = ok (os ++ to_string level)
  format_item elapse_item os level event = ok (os ++ decimal event.elapse)
  format_item log_name os level event = logger_name event.logger >>= λ name. ok (os ++ name)
  format_item thread_id os level event = ok (os ++ decimal event.thread_id)
  format_item thread_name os level event = ok (os ++ event.thread_name)
  format_item fiber_id os level event = ok (os ++ decimal event.fiber_id)
  format_item (date_time fmt) os level event = ok (os ++ strftime fmt event.time)
  format_item filename os level event = ok (os ++ event.file)
  format_item line_item os level event = ok (os ++ decimal_int event.line)
  format_item new_line os level event = ok (os ++ codes "\n")
  format_item tab_item os level event = ok (os ++ codes "\t")
  format_item (string_item s) os level event = ok (os ++ s)

  unfoldable pub format_all : List FormatItem → Bytes → Level → Event → Outcome Bytes
  unfolding format_item
  format_all [] os level event = ok os
  format_all (item ∷ items) os level event =
      format_item item os level event >>= λ written. format_all items written level event

  -- LogFormatter::format.
  unfoldable pub format : Formatter → Level → Event → Outcome Bytes
  unfolding format_all
  format f level event = format_all f.items [] level event
