-- ===== src/Lib.antt =====
-- YeCC-Server: the logger, the configuration, the threads and the fibers of a C++ server library, as
-- functions and relations of steps, with the theorems that make them correct.
--
-- The program's parts. A Logger hands events to appenders, each with a LogFormatter that is made from a
-- pattern; a LoggerManager keeps the loggers by name, below one root logger. Config keeps named variables
-- that are read from YAML and call listeners when they change; one of them, "logs", has a listener that
-- makes and changes loggers. A Fiber is a flow of control that the main fiber of its thread swaps in and
-- that yields back to it. A Thread is made with a handshake through a semaphore; a Scheduler queues fibers and
-- functions. Configuration variables and fibers report through the root logger.
--
-- Which file models which part:
--   Log/Level.antt      LogLevel (src/log.cpp, include/log.hpp): ToString is to_string, FromString is
--                       from_string
--   Log/Event.antt      LogEvent and its stream
--   Log/Formatter/Parse.antt   the loop of LogFormatter::init over the pattern
--   Log/Formatter/Items.antt   the items of LogFormatter::init, and LogFormatter::format
--   Log/Formatter/Positions, Rounds, Pieces, Meaning, Nameless, Total, Quirks   their
--                       theory
--   Log/Appender.antt   LogAppender, StdoutAppender and FileAppender
--   Log/Logger.antt     Logger and the macro YECC_LOG_LEVEL: Logger::log is log, addAppender is
--                       add_appender, setFormatter is set_formatter and, for a pattern, set_pattern
--   Log/Logger/...      its invariant (Valid), logging (Safe, Output, Receivers), changes (Changes, Calls,
--                       Inherit)
--   Log/Manager.antt    LoggerManager: getLogger is get_logger; its invariant (Manager/Valid, Start)
--   Log/Macro.antt      the macros YECC_LOG_LEVEL and YECC_LOG_FMT_LEVEL with the event that they make; what
--                       they write (Macro/Written)
--   Log/Conf.antt       LogDefine and the listener of LogIniter, which is on_change
--   Log/Conf/...        the listener on one logger (Safe, State, Configured, Changed, Each), what stays of the
--                       others (Stable, Frame, Keeps), and the listener as a whole (Total, Stops, Whole)
--   Log/Conf/Text.antt  LexicalCast of LogAppenderDefine and LogDefine; what is read (Read), printed (Print)
--                       and read back (Reread); Logger::ToYamlStr is to_yaml_str of Text/Describe.antt
--   Log/Conf/Variable.antt   the variable "logs" with its listener, whose world is the LoggerManager
--   Config/Var.antt     ConfigVarBase and ConfigVar (include/config.hpp)
--   Config/Convert.antt LexicalCast of containers (include/config.hpp) over an interface of the YAML library,
--                       whose documented behaviour is IsLibrary of Convert/Laws.antt
--   Config/Convert/...  what containers print and read back (RoundTrip, Keys, Nested, Reads)
--   Config/Registry.antt   Config: Lookup is lookup and lookup_or_create, LookupBase is lookup_base
--   Config/Yaml.antt, Config/Load.antt   ListAllMember and LoadFromYaml (src/config.cpp); what a load changes
--                       (Load/Frame) and which node decides (Load/Takes)
--   Fiber.antt          Fiber (include/fiber.hpp, src/fiber.cpp), with what the code relies on of ucontext
--   Fiber/...           the invariant of a thread's fibers (Coherent), the operations under it (Runs, Made,
--                       Destroyed, Start) and runs as a relation of steps (Steps)
--   Thread.antt         Thread and Semaphore (include/thread.hpp, src/thread.cpp): Thread::Thread is construct,
--                       create and wait_for, Thread::run is run, a statement at a time
--   Thread/...          the steps of the two threads (Handshake, Progress, Runs), join and destroy (Ends)
--   Lock.antt           the guards ScopedMutex, ReadScopedMutex and WriteScopedMutex (include/thread.hpp)
--   Scheduler.antt      Scheduler (include/scheduler.hpp, src/scheduler.cpp): the queue (Scheduler/Queue) and
--                       the constructor (Scheduler/Made)
--   Util.antt           GetFiberId and BackTraceToString (src/util.cpp)
--   Prelude/...         outcomes of calls, lists, text, numbers and maps, shared by all
--   Tests/...           runs of the definitions on concrete inputs
--
-- State and errors. Shared objects live in lists, and a pointer is a position. A call ends in a value, an
-- exception, a fault (an assertion, a null or dangling pointer) or, where the model counts rounds, the end
-- of the fuel. An operation that holds a mutex is one step.
--
-- Bounds and fuel. Positions in a pattern are natural numbers; they fit the `int` of the code where the
-- pattern is shorter than 2^31 bytes, which the theorems on the parser's answers assume; of longer patterns
-- the theorems that a formatter is made are about positions without a bound. The loop has as many rounds as
-- the pattern has bytes, and one more, since each round moves ahead. Logger::log has two calls, since a
-- root logger has no root. ListAllMember has as many as the nodes are deep, and one more. Counters of
-- fibers and of listeners' keys wrap at 2^64.
--
-- Taken as parameters: strftime and localtime_r, vasprintf, whether a file can be opened, the nodes of the
-- YAML library and its reading and writing, the conversions of a variable's type, the reports that Config
-- makes through the root logger, what pthread does to a lock, Scheduler::tickle, which has no definition, the
-- answer of Scheduler::GetThis, which has no body, backtrace and backtrace_symbols.
--
-- Simpler than the program: what is written to a file is there at once, while the code's stream has a buffer;
-- what strftime leaves in the code's 50 bytes is a function of the format and the time, also where the text
-- does not fit; the listener of "logs" logs its three lines with one event, while the line numbers of their
-- places differ; sizes and `skip` of a backtrace are natural numbers; and a pthread_t is a number.
--
-- Not modelled: the level of concurrency below one call, except for the handshake of a new thread; calls of
-- pthread_join and of semaphores that fail; the bodies that the scheduler lacks; the callback that a fiber or
-- a thread runs; and the log lines that Fiber::MainFunc writes for an exception and that a failed assertion
-- or a failed call of the system writes.
pub mod Prelude
pub mod Log
pub mod Config
pub mod Fiber
pub mod Thread
pub mod Lock
pub mod Scheduler
pub mod Util
pub mod Tests
