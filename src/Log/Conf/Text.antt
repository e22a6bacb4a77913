-- ===== src/Log/Conf/Text.antt =====
-- The logger configuration of src/log.cpp as YAML text: LexicalCast of LogAppenderDefine and LogDefine, the
-- set of definitions of the variable "logs", and Logger::ToYamlStr.
pub mod Read
pub mod Print
pub mod Reread
pub mod Describe
pub mod Described
use ye_cc_server.Prelude.{
  ℕ, Bool, true, false, not, List, [], ◌∷◌, ◌++◌, ◌==◌, if◌then◌else◌, Option, none, some, Outcome,
  ok, throws, fault, Bytes, codes, bytes_eq,
}
use ye_cc_server.Prelude
use ye_cc_server.Prelude.Maps.{bytes_lt}
use ye_cc_server.Log.Level
use ye_cc_server.Log.Level.{unknow}
use ye_cc_server.Log.Formatter.Items.{Formatter}
use ye_cc_server.Log.Appender.{Appender, get_type, get_file_name}
use ye_cc_server.Log.Logger.{Store, deref}
use ye_cc_server.Log.Conf.{AppenderDefine, LogDefine}
use ye_cc_server.Config.Var.{Cast, cast, refused}
use ye_cc_server.Config.Convert.{Library, Lexical, ◌>>=◌, vector_lexical, set_lexical}

module _ (lib : Library) where
  -- if(node[key].IsDefined()) ret.… = node[key].as<std::string>()
  abbrev pub if_defined {ℓ} : {A : Type ℓ} → lib.Node → Bytes → A → (Bytes → A) → Cast A
  if_defined node key ret given = do
    found ← lib.get node key
    if lib.is_defined found then (lib.as_string found >>= λ text. cast (given text)) else cast ret

  -- A node that has to be there.
  abbrev pub required : lib.Node → Bytes → Bytes → Cast Bytes
  required node key missing = do
    found ← lib.get node key
    if lib.is_defined found then lib.as_string found else refused missing

  abbrev pub appender_of_type : ℕ → Bytes → AppenderDefine
  appender_of_type type file = record { type = type; level = unknow; formatter = []; file = file }

  -- The branches on the name of the type.
  unfoldable pub read_type : lib.Node → Bytes → Cast AppenderDefine
  read_type node tp =
      if bytes_eq tp (codes "StdoutLogAppender")
      then cast (appender_of_type 2 [])
      else if bytes_eq tp (codes "FileLogAppender")
      then (required node (codes "file") (codes "log conf: fileAppender need file path!")
          >>= λ file. cast (appender_of_type 1 file))
      else refused (codes "log conf: appender type name: " ++ (tp ++ codes " invalid!"))

  -- LexicalCast<std::string, LogAppenderDefine>.
  unfoldable pub appender_from : Bytes → Cast AppenderDefine
  unfolding read_type
  appender_from v = do
    node ← lib.load v
    tp ← required node (codes "type") (codes "log conf: appender type name not define!")
    ret ← read_type node tp
    leveled ←
        if_defined node (codes "level") ret (λ text. record ret { level = Level.from_string text })
    if_defined node (codes "formatter") leveled (λ text. record leveled { formatter = text })

  -- node[key] = text
  abbrev pub assign : lib.Node → Bytes → Bytes → lib.Node
  assign node key text = lib.insert node key (lib.scalar_node text)

  abbrev pub write_type : AppenderDefine → lib.Node
  write_type v =
      if v.type == 1
      then assign (assign lib.null (codes "type") (codes "FileLogAppender")) (codes "file") v.file
      else if v.type == 2
      then assign lib.null (codes "type") (codes "StdoutLogAppender")
      else lib.null

  -- LexicalCast<LogAppenderDefine, std::string>.
  unfoldable pub appender_to : AppenderDefine → Cast Bytes
  appender_to v =
      let leveled = assign (write_type v) (codes "level") (Level.to_string v.level) in
      cast (lib.emit (assign leveled (codes "formatter") v.formatter))

  abbrev pub appender_lexical : Lexical AppenderDefine
  appender_lexical = record { from_str = appender_from; to_str = appender_to }

  -- LexicalCast<std::string, LogDefine>.
  unfoldable pub define_from : Bytes → Cast LogDefine
  define_from v = do
    node ← lib.load v
    name ← required node (codes "name") (codes "log config error: no name!")
    let ret : LogDefine = record { name = name; level = unknow; formatter = []; appenders = [] }
    leveled ←
        if_defined node (codes "level") ret (λ text. record ret { level = Level.from_string text })
    formatted ←
        if_defined node (codes "formatter") leveled (λ text. record leveled { formatter = text })
    appender ← lib.get node (codes "appender")
    appenders ← (vector_lexical lib appender_lexical).from_str (lib.emit appender)
    cast (record formatted { appenders = appenders })

  -- LexicalCast<LogDefine, std::string>.
  unfoldable pub define_to : LogDefine → Cast Bytes
  define_to v = do
    let named = assign lib.null (codes "name") v.name
    let leveled = assign named (codes "level") (Level.to_string v.level)
    let formatted = assign leveled (codes "formatter") v.formatter
    text ← (vector_lexical lib appender_lexical).to_str v.appenders
    cast (lib.emit (assign formatted (codes "appender") text))

  abbrev pub define_lexical : Lexical LogDefine
  define_lexical = record { from_str = define_from; to_str = define_to }

-- LogDefine::operator<.
abbrev pub define_lt : LogDefine → LogDefine → Bool
define_lt a b = bytes_lt a.name b.name

-- The conversions of std::set<LogDefine>, the type of the variable "logs".
abbrev pub logs_lexical : Library → Lexical (List LogDefine)
logs_lexical lib = set_lexical lib define_lt (define_lexical lib)
