-- ===== src/Log/Manager.antt =====
-- LoggerManager of src/log.cpp, the singleton behind YECC_ROOT_LOG and YECC_LOG_NAME.
pub mod Valid
pub mod Start
use ye_cc_server.Prelude.{ℕ, List, [], ◌∷◌, Option, none, some, Outcome, ok, ◌>>=◌, Bytes, codes}
use ye_cc_server.Prelude.Maps.{find, put, bytes_key}
use ye_cc_server.Log.Appender.{new_stdout, Outside}
use ye_cc_server.Log.Logger.{Store, Logger, make_logger, new_logger, new_appender, add_appender}

pub record Manager : Type 0 where
  pub store : Store
  pub root : ℕ
  pub loggers : List (Bytes × ℕ)

-- LoggerManager::LoggerManager: the root logger writes to the console, and is not in the map.
unfoldable pub new_manager : Outside → Outcome Manager
new_manager out = do
  l ← make_logger (codes "root")
  let (s, root) = new_logger (record { loggers = []; appenders = []; outside = out }) l
  let (t, a) = new_appender s new_stdout
  u ← add_appender t root a
  ok (record { store = u; root = root; loggers = [] })

-- LoggerManager::getLogger.
unfoldable pub get_logger : Manager → Bytes → Outcome (Manager × ℕ)
get_logger m name = elim (find name m.loggers) [
  | some p ↦ ok (m, p)
  | none ↦ make_logger name >>= λ l.
      let (s, p) = new_logger m.store (record l { root = some m.root }) in
      ok (record m { store = s; loggers = put name p m.loggers }, p)
]
