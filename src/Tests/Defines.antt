-- ===== src/Tests/Defines.antt =====
-- Concrete inputs for the configuration of loggers as text, and for the variable "logs", of src/log.cpp.
use ye_cc_server.Prelude.{◌≡◌, refl, List, [], ◌∷◌, ok, Bytes, codes, Returns, All}
use ye_cc_server.Log.Level.{warn}
use ye_cc_server.Config.Var.{refused}
use ye_cc_server.Config.Convert.{◌>>=◌}
use ye_cc_server.Log.Conf.{LogDefine, AppenderDefine}
use ye_cc_server.Log.Conf.Text.{logs_lexical}
use ye_cc_server.Log.Conf.Text.Print.{IsPrintableDefine}
use ye_cc_server.Log.Conf.Text.Reread.{printed_logs_refused}
use ye_cc_server.Log.Conf.Text.Describe.{to_yaml_str}
use ye_cc_server.Log.Conf.Text.Described.{PrintsLogger, IsWritable, to_yaml_str-PrintsLogger}
use ye_cc_server.Log.Conf.Variable.{logs_define, read_all}
use ye_cc_server.Log.Conf.Variable.Kept.{IsLogs, logs_define-IsLogs}
use ye_cc_server.Tests.Loggers.{plain, top, two, two-IsValid, clock, hello, boss, boss-IsManager}
use ye_cc_server.Tests.Nodes.{trees, trees-IsLibrary}

abbrev to_file : AppenderDefine
to_file = record { type = 1; level = warn; formatter = codes "%m"; file = codes "db.log" }

abbrev db : LogDefine
db = record { name = codes "db"; level = warn; formatter = codes "%m%n"; appenders = to_file ∷ [] }

db-IsPrintable : IsPrintableDefine trees trees-IsLibrary db
unfolding trees-IsLibrary
db-IsPrintable = (refl, refl, ((refl, refl), tt))

printed_logs_refused_example :
    (what : Bytes) × (((logs_lexical trees).to_str (db ∷ []) >>= (logs_lexical trees).from_str)
      ≡ refused what)
printed_logs_refused_example = printed_logs_refused trees trees-IsLibrary db [] (db-IsPrintable, tt)

top-IsWritable : All (IsWritable trees trees-IsLibrary two.appenders) top.appenders
unfolding trees-IsLibrary
top-IsWritable = ((λ app f at has. (refl, refl)), tt)

to_yaml_str-PrintsLogger_example :
    Returns (PrintsLogger trees trees-IsLibrary two top plain) (to_yaml_str trees two 0)
unfolding trees-IsLibrary
to_yaml_str-PrintsLogger_example =
    to_yaml_str-PrintsLogger trees trees-IsLibrary 0 0 two top plain two-IsValid refl refl refl refl
      top-IsWritable

-- A text with a logger in it, a text that is not YAML, and an empty set.
abbrev texts : List Bytes
texts =
    trees.emit (
      trees.push_back trees.null
        (trees.insert trees.null (codes "name") (trees.scalar_node (codes "db"))))
    ∷ codes "nonsense"
    ∷ trees.emit trees.null
    ∷ []

logs_define-IsLogs_example :
    let r =
      read_all clock 9 hello trees (codes "set") texts (logs_define clock 9 hello) (ok boss) in
    IsLogs clock 9 hello r.0 r.1
logs_define-IsLogs_example =
    logs_define-IsLogs clock 9 hello trees (codes "set") texts boss boss-IsManager
