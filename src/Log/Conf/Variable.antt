-- ===== src/Log/Conf/Variable.antt =====
-- The variable "logs" of src/log.cpp with the listener of LogIniter: ConfigVar of include/config.hpp, the
-- conversions of LogDefine, the listener and the loggers together. The world is the program's loggers, or the
-- way in which a call ended that did not return.
pub mod Kept
use ye_cc_server.Prelude.{
  ℕ, ◌≡◌, refl, sym, ◌∙◌, ap, inl, inr, Bool, true, false, ◌&&◌, List, [], ◌∷◌, Option, none, some,
  Outcome, ok, ◌>>=◌, Bytes, codes, All, Returns, Returns-bind, Bool-cases, arith, get_elem?-lt,
  if◌then◌else◌, ◌++◌,
}
use ye_cc_server.Prelude.Maps.{put, nat_key}
use ye_cc_server.Log.Event.{Event}
use ye_cc_server.Log.Level.{Level}
use ye_cc_server.Log.Appender.{Env}
use ye_cc_server.Log.Logger.{log_macro}
use ye_cc_server.Log.Logger.Safe.{log_macro-Preserves}
use ye_cc_server.Log.Manager.{Manager}
use ye_cc_server.Log.Manager.Valid.{IsManager}
use ye_cc_server.Config.Var.{
  Cast, cast, refused, Codec, Listener, ConfigVar, new_var, add_listener, set_value, notify,
  from_string, from_string_failed,
}
use ye_cc_server.Config.Convert.{Library}
use ye_cc_server.Log.Conf.{LogDefine, define_eq, on_change}
use ye_cc_server.Log.Conf.Safe.{IsLogDefine}
use ye_cc_server.Log.Conf.Total.{IsManager-store, on_change-IsManager}
use ye_cc_server.Log.Conf.Text.{logs_lexical}
use ye_cc_server.Log.Conf.Text.Read.{logs_from_str-IsLogDefine}

abbrev pub World : Type 0
World = Outcome Manager

-- `operator==` of std::set.
abbrev pub defines_eq : List LogDefine → List LogDefine → Bool
defines_eq [] [] = true
defines_eq (a ∷ as') (b ∷ bs) = define_eq a b && defines_eq as' bs
defines_eq _ _ = false

-- What std::set<LogDefine> brings to a ConfigVar. `type_name` is what the compiler calls it.
abbrev pub logs_codec : Library → Bytes → Codec (List LogDefine)
logs_codec lib type_name = record {
  eq = defines_eq;
  from_str = (logs_lexical lib).from_str;
  to_str = (logs_lexical lib).to_str;
  type_name = type_name;
}

module _ (env : Env) (now : ℕ) (event : Event) where
  -- YECC_LOG_…(YECC_ROOT_LOG)<<text
  abbrev pub root_log : Level → Bytes → World → World
  root_log level text w = w >>= λ m.
      log_macro 2 env now m.root m.store level event text >>= λ s. ok (record m { store = s })

  -- The listener of LogIniter. It throws nothing.
  abbrev pub listener : Listener (List LogDefine) World
  listener old new w = (w >>= on_change env now event old new, none)

  -- logs_define and LogIniter::LogIniter.
  unfoldable pub logs_define : ConfigVar (List LogDefine) World
  unfolding new_var add_listener
  logs_define = (add_listener 0 (new_var (codes "logs") [] (codes "logs config")) listener).1

  module _ (lib : Library) (type_name : Bytes) where
    -- A caller that calls logs_define->fromString for one text after the other.
    unfoldable pub read_all :
        List Bytes
        → ConfigVar (List LogDefine) World
        → World
        → ConfigVar (List LogDefine) World × World
    unfolding from_string
    read_all [] var w = (var, w)
    read_all (text ∷ texts) var w =
        let (var', w', done) = from_string root_log (logs_codec lib type_name) var text w in
        read_all texts var' w'
