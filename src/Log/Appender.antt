-- ===== src/Log/Appender.antt =====
-- LogAppender, StdoutAppender and FileAppender of include/log.hpp and src/log.cpp. An appender is one
-- record: the fields of the base class, and what the subclass adds in `sink`.
use ye_cc_server.Prelude.{
  ℕ, Bool, true, false, not, ◌&&◌, [], ◌++◌, Option, none, some, Outcome, ok, fault, ◌>>=◌, Bytes,
  codes, bytes_eq, leb, ◌==◌, if◌then◌else◌,
}
use ye_cc_server.Log.Event.{Event}
use ye_cc_server.Log.Formatter.Items.{Formatter, new_formatter, format}
use ye_cc_server.Log.Level.{Level, debug}

-- The members of FileAppender. Of the std::ofstream the code uses whether its file is open and
-- whether its fail bit is set.
pub record FileSink : Type 0 where
  pub filename : Bytes
  pub is_open : Bool
  pub has_failed : Bool
  pub last_time : ℕ

pub data Sink : Type 0 where
  console : Sink
  file : FileSink → Sink

pub record Appender : Type 0 where
  pub level : Level
  pub formatter : Option Formatter
  pub has_formatter : Bool
  pub sink : Sink

-- StdoutAppender::StdoutAppender.
abbrev pub new_stdout : Appender
new_stdout = record { level = debug; formatter = none; has_formatter = false; sink = console }

-- FileAppender::FileAppender.
abbrev pub new_file : Bytes → Appender
new_file name = record {
  level = debug;
  formatter = none;
  has_formatter = false;
  sink = file (record { filename = name; is_open = false; has_failed = false; last_time = 0 });
}

-- LogAppender::getType.
abbrev pub get_type : Appender → ℕ
get_type a = elim a.sink [ console ↦ 2 | file f ↦ 1 ]

-- LogAppender::getFileName and its override.
abbrev pub get_file_name : Appender → Bytes
get_file_name a = elim a.sink [ console ↦ [] | file f ↦ f.filename ]

-- LogAppender::setLevel.
abbrev pub set_level : Appender → Level → Appender
set_level a level = record a { level = level }

-- LogAppender::setFormatter of a formatter: it does not count as the appender's own.
abbrev pub set_formatter : Appender → Option Formatter → Appender
set_formatter a val = record a { formatter = val }

-- What is outside of the program: the console, and the files' contents by name.
pub record Outside : Type 0 where
  pub stdout : Bytes
  pub files : Bytes → Bytes

-- std::cout<<text
abbrev pub print_out : Outside → Bytes → Outside
print_out out text = record out { stdout = out.stdout ++ text }

-- The report of a pattern with an error.
abbrev pub report : Outside → Formatter → Bytes → Outside
report out f val =
    let text = codes "LogAppender setFormatter value = " ++ (val ++ codes " invalid formatter\n") in
    if f.is_error then print_out out text else out

-- LogAppender::setFormatter of a pattern. A pattern with an error is reported, and taken all the same.
unfoldable pub set_pattern : Appender → Outside → Bytes → Outcome (Appender × Outside)
set_pattern a out val = do
  new_val ← new_formatter val
  ok (record a { formatter = some new_val; has_formatter = true }, report out new_val val)

-- The C library's answers: the text of a time in a format, and whether a file can be opened for
-- appending at a time.
pub record Env : Type 0 where
  pub strftime : Bytes → ℕ → Bytes
  pub can_open : Bytes → ℕ → Bool

-- `std::ofstream::close`: it sets the fail bit if no file is open.
abbrev pub close_stream : FileSink → FileSink
close_stream f = if f.is_open then record f { is_open = false } else record f { has_failed = true }

-- `std::ofstream::open`: it fails on an open stream, and clears the state if it succeeds.
abbrev pub open_stream : Bool → FileSink → FileSink
open_stream can f =
    if not f.is_open && can
    then record f { is_open = true; has_failed = false }
    else record f { has_failed = true }

-- FileAppender::reopen. The value that it returns is the negation of `has_failed`.
unfoldable pub reopen : Bool → FileSink → FileSink
reopen can f = open_stream can (if f.has_failed then f else close_stream f)

-- `m_filestream<<text`: nothing is written where the stream has failed or has no file.
abbrev pub write_stream : FileSink → Bytes → Outside → Outside
write_stream f text out =
    if f.is_open && not f.has_failed
    then record out {
      files = λ name. if bytes_eq f.filename name then out.files name ++ text else out.files name;
    }
    else out

-- The file that FileAppender::log writes to: it is opened anew when the second has changed.
unfoldable pub refresh : Env → ℕ → FileSink → FileSink
unfolding reopen
refresh env now f =
    if now == f.last_time
    then f
    else reopen (env.can_open f.filename now) (record f { last_time = now })

-- `m_formatter->format(...)`, which faults on a null pointer.
abbrev pub formatted : Option Formatter → (Formatter → Outcome Bytes) → Outcome Bytes
formatted none render = fault
formatted (some f) render = render f

-- StdoutAppender::log and FileAppender::log, at the time `now`. `logger_name` gives the name of the
-- event's logger.
unfoldable pub log :
    Env
    → ℕ
    → (ℕ → Outcome Bytes)
    → Appender
    → Outside
    → Level
    → Event
    → Outcome (Appender × Outside)
unfolding refresh
log env now logger_name a out level event =
    if leb a.level level
    then (let text = formatted a.formatter (λ f. format env.strftime logger_name f level event) in
        elim a.sink [
          | console ↦ text >>= λ s. ok (a, print_out out s)
          | file f ↦
              let opened = refresh env now f in
              text >>= λ s. ok (record a { sink = file opened }, write_stream opened s out)
        ])
    else ok (a, out)
