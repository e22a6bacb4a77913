-- ===== src/Log/Conf/Text/Describe.antt =====
-- Logger::ToYamlStr of src/log.cpp: the definition that it makes of a logger, and its text.
use ye_cc_server.Prelude.{
  ℕ, List, [], ◌∷◌, ◌==◌, if◌then◌else◌, Option, none, some, Outcome, ok, throws, fault, ◌>>=◌,
  Bytes,
}
use ye_cc_server.Log.Formatter.Items.{Formatter}
use ye_cc_server.Log.Appender.{Appender, get_type, get_file_name}
use ye_cc_server.Log.Logger.{Store, deref}
use ye_cc_server.Log.Conf.{AppenderDefine, LogDefine}
use ye_cc_server.Config.Var.{Cast, cast, refused}
use ye_cc_server.Config.Convert.{Library}
use ye_cc_server.Log.Conf.Text.{define_to}

-- m_formatter->getPattern()
abbrev pub pattern_of : Option Formatter → Outcome Bytes
pattern_of none = fault
pattern_of (some f) = ok f.pattern

-- The definition of an appender.
unfoldable pub describe_appender : Appender → Outcome AppenderDefine
describe_appender app = do
  pattern ← pattern_of app.formatter
  ok (record {
    type = get_type app;
    level = app.level;
    formatter = pattern;
    file = if get_type app == 1 then get_file_name app else [];
  })

-- The loop over the appenders.
unfoldable pub describe_appenders : Store → List ℕ → Outcome (List AppenderDefine)
unfolding describe_appender
describe_appenders s [] = ok []
describe_appenders s (p ∷ ps) = do
  app ← deref s.appenders p
  d ← describe_appender app
  ds ← describe_appenders s ps
  ok (d ∷ ds)

-- The definition of the logger.
unfoldable pub describe : Store → ℕ → Outcome LogDefine
unfolding describe_appenders
describe s p = do
  l ← deref s.loggers p
  pattern ← pattern_of l.formatter
  ds ← describe_appenders s l.appenders
  ok (record { name = l.name; level = l.level; formatter = pattern; appenders = ds })

-- An exception of a conversion leaves the call.
abbrev pub outcome_of {ℓ} : {A : Type ℓ} → Cast A → Outcome A
outcome_of (cast a) = ok a
outcome_of (refused what) = throws what

-- Logger::ToYamlStr.
unfoldable pub to_yaml_str : Library → Store → ℕ → Outcome Bytes
unfolding describe
to_yaml_str lib s p = describe s p >>= λ d. outcome_of (define_to lib d)
