-- ===== src/Log/Conf.antt =====
-- The logger configuration of src/log.cpp: LogAppenderDefine, LogDefine, and the listener of
-- LogIniter, which turns a change of the configuration into loggers.
pub mod Safe
pub mod Total
pub mod Stops
pub mod State
pub mod Configured
pub mod Changed
pub mod Text
pub mod Variable
pub mod Stable
pub mod Frame
pub mod Keeps
pub mod Each
pub mod Whole
use ye_cc_server.Prelude.{
  ℕ, Bool, true, false, ◌&&◌, List, [], ◌∷◌, ◌++◌, ◌==◌, if◌then◌else◌, Option, none, some, Outcome,
  ok, fault, ◌>>=◌, Bytes, codes, bytes_eq,
}
use ye_cc_server.Log.Event.{Event}
use ye_cc_server.Log.Level.{Level, unknow, info, disabled}
use ye_cc_server.Log.Appender
use ye_cc_server.Log.Appender.{Appender, Outside, Env, new_stdout, new_file}
use ye_cc_server.Log.Logger.{
  Store, new_appender, log_macro, set_level, set_pattern, clear_appender, add_appender,
}
use ye_cc_server.Log.Manager.{Manager, get_logger}

pub record AppenderDefine : Type 0 where
  pub type : ℕ
  pub level : Level
  pub formatter : Bytes
  pub file : Bytes

pub record LogDefine : Type 0 where
  pub name : Bytes
  pub level : Level
  pub formatter : Bytes
  pub appenders : List AppenderDefine

-- LogAppenderDefine::operator==.
unfoldable pub appender_eq : AppenderDefine → AppenderDefine → Bool
appender_eq a b =
    a.type == b.type
    && a.level == b.level
    && bytes_eq a.formatter b.formatter
    && bytes_eq a.file b.file

-- `operator==` of std::vector.
unfoldable pub appenders_eq : List AppenderDefine → List AppenderDefine → Bool
unfolding appender_eq
appenders_eq [] [] = true
appenders_eq (a ∷ as') (b ∷ bs) = appender_eq a b && appenders_eq as' bs
appenders_eq _ _ = false

-- LogDefine::operator==.
unfoldable pub define_eq : LogDefine → LogDefine → Bool
unfolding appenders_eq
define_eq a b =
    bytes_eq a.name b.name
    && a.level == b.level
    && bytes_eq a.formatter b.formatter
    && appenders_eq a.appenders b.appenders

-- `find` of std::set<LogDefine>, whose order compares the names.
unfoldable pub find_define : LogDefine → List LogDefine → Option LogDefine
find_define v [] = none
find_define v (d ∷ ds) = if bytes_eq d.name v.name then some d else find_define v ds

-- The null pointer `np`, or the appender that the type asks for.
unfoldable pub make_defined : AppenderDefine → Option Appender
make_defined a =
    if a.type == 1 then some (new_file a.file) else if a.type == 2 then some new_stdout else none

-- if(a.level != LogLevel::UNKNOW) np->setLevel(a.level)
abbrev pub leveled : Appender → AppenderDefine → Appender
leveled np a = if a.level == unknow then np else Appender.set_level np a.level

-- np->setLevel and np->setFormatter, where the configuration gives a level or a pattern.
unfoldable pub set_defined : Appender → Outside → AppenderDefine → Outcome (Appender × Outside)
set_defined np out a =
    if bytes_eq a.formatter []
    then ok (leveled np a, out)
    else Appender.set_pattern (leveled np a) out a.formatter

-- The body of the loop over `v.appenders`. Every path dereferences `np`, so a null one faults.
unfoldable pub add_defined : Store → ℕ → AppenderDefine → Outcome Store
unfolding make_defined set_defined
add_defined s logger a = elim (make_defined a) [
  | none ↦ fault
  | some np ↦ set_defined np s.outside a >>= λ done.
      let (t, p) = new_appender (record s { outside = done.1 }) done.0 in add_appender t logger p
]

unfoldable pub add_all_defined : Store → ℕ → List AppenderDefine → Outcome Store
unfolding add_defined
add_all_defined s logger [] = ok s
add_all_defined s logger (a ∷ as') = add_defined s logger a >>= λ t. add_all_defined t logger as'

-- if(!v.formatter.empty()) logger->setFormatter(v.formatter)
unfoldable pub set_defined_pattern : Store → ℕ → Bytes → Outcome Store
set_defined_pattern s logger formatter =
    if bytes_eq formatter [] then ok s else set_pattern s logger formatter

-- The part of the first loop's body behind `if(!logger) return`.
unfoldable pub configure : Store → ℕ → LogDefine → Outcome Store
unfolding add_all_defined set_defined_pattern
configure s logger v = do
  t ← set_level s logger v.level
  u ← set_defined_pattern t logger v.formatter
  x ← clear_appender u logger
  add_all_defined x logger v.appenders

-- The program's loggers are in a Manager; `event` is what a macro puts into an event at this place.
module _ (env : Env) (now : ℕ) (event : Event) where
  -- YECC_LOG_INFO(YECC_ROOT_LOG)<<"logger conf changed: "<<what<<name
  unfoldable pub announce : Manager → Bytes → Outcome Manager
  announce m text =
      log_macro 2 env now m.root m.store info event (codes "logger conf changed: " ++ text) >>= λ s.
      ok (record m { store = s })

  -- A logger whose definition is new or has changed is announced and configured.
  unfoldable pub update_logger : Manager → Bytes → LogDefine → Outcome Manager
  unfolding announce configure
  update_logger m text v = do
    n ← announce m (text ++ v.name)
    found ← get_logger n v.name
    s ← configure found.0.store found.1 v
    ok (record found.0 { store = s })

  -- The first loop. The flag says that it went through; it is false where `return` left the listener.
  unfoldable pub update_all : List LogDefine → List LogDefine → Manager → Outcome (Manager × Bool)
  unfolding update_logger
  update_all old [] m = ok (m, true)
  update_all old (v ∷ vs) m = elim (find_define v old) [
    | none ↦ update_logger m (codes "new logger added, name: ") v >>= λ n. update_all old vs n
    | some it ↦ elim (define_eq v it) [
      | true ↦ ok (m, false)
      | false ↦
          update_logger m (codes "logger conf modified, name: ") v >>= λ n. update_all old vs n
    ]
  ]

  -- The body of the second loop for a logger that is gone.
  unfoldable pub delete_logger : Manager → LogDefine → Outcome Manager
  unfolding announce
  delete_logger m v = do
    n ← announce m (codes "logger deleted, name: " ++ v.name)
    found ← get_logger n v.name
    s ← set_level found.0.store found.1 disabled
    t ← clear_appender s found.1
    ok (record found.0 { store = t })

  unfoldable pub delete_all : List LogDefine → List LogDefine → Manager → Outcome Manager
  unfolding delete_logger
  delete_all new [] m = ok m
  delete_all new (v ∷ vs) m = elim (find_define v new) [
    | some it ↦ delete_all new vs m
    | none ↦ delete_logger m v >>= λ n. delete_all new vs n
  ]

  -- The listener.
  unfoldable pub on_change : List LogDefine → List LogDefine → Manager → Outcome Manager
  unfolding update_all delete_all
  on_change old new m = update_all old new m >>= λ r. if r.1 then delete_all new old r.0 else ok r.0
