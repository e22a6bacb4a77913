-- ===== src/Log/Conf/Keeps.antt =====
-- What stays of the loggers and appenders when LogIniter's listener in src/log.cpp changes some of them, and what
-- it is for a definition to be in force.
use ye_cc_server.Prelude.{
  ℕ, ◌≡◌, ◌≢◌, ◌∙◌, ◌⊎◌, inl, inr, List, [], ◌∷◌, some, ok, Bytes, get_elem?,
}
use ye_cc_server.Prelude.Maps.{find, bytes_key}
use ye_cc_server.Log.Level.{disabled}
use ye_cc_server.Log.Formatter.Items.{Formatter, new_formatter}
use ye_cc_server.Log.Appender.{Appender}
use ye_cc_server.Log.Logger.{Logger}
use ye_cc_server.Log.Manager.{Manager}
use ye_cc_server.Log.Conf.{AppenderDefine, LogDefine}
use ye_cc_server.Log.Conf.State.{Configured}
use ye_cc_server.Log.Conf.Changed.{IsApplied}
use ye_cc_server.Log.Conf.Stable.{Stable, Stable-trans}

-- The name leads to the logger.
abbrev pub Holds : Manager → Bytes → Logger → Type 0
Holds m name l = (p : ℕ) × (find name m.loggers ≡ some p) × (get_elem? m.store.loggers p ≡ some l)

-- The loggers of the names that have the property stay, and the types and levels of all appenders.
pub record Keeps (K : Bytes → Type 0) (m n : Manager) : Type 0 where
  pub loggers : (name : Bytes) (l : Logger) → K name → Holds m name l → Holds n name l
  pub appenders : Stable m.store.appenders n.store.appenders

pub Keeps-trans : (K : Bytes → Type 0) (m n o : Manager) → Keeps K m n → Keeps K n o → Keeps K m o
Keeps-trans K m n o a b = record {
  loggers = λ name l k h. b.loggers name l k (a.loggers name l k h);
  appenders =
      Stable-trans m.store.appenders n.store.appenders o.store.appenders a.appenders b.appenders;
}

pub Keeps-weaken :
    (K L : Bytes → Type 0) (m n : Manager)
    → ((name : Bytes) → L name → K name)
    → Keeps K m n
    → Keeps L m n
Keeps-weaken K L m n f a = record {
  loggers = λ name l k h. a.loggers name l (f name k) h;
  appenders = a.appenders;
}

-- The definition is in force: its name leads to a logger that is as it says.
pub record IsInForce (m : Manager) (d : LogDefine) : Type 0 where
  pub logger : Logger
  pub holds : Holds m d.name logger
  pub level_is : logger.level ≡ d.level
  pub formatter_is :
      (d.formatter ≡ [])
      ⊎ ((f : Formatter) × (new_formatter d.formatter ≡ ok f) × (logger.formatter ≡ some f))
  pub appenders_are : Configured m.store.appenders d.appenders logger.appenders

-- The name of the definition leads to a logger that logs nothing.
abbrev pub IsOff : Manager → LogDefine → Type 0
IsOff m d = (l : Logger) × Holds m d.name l × (l.level ≡ disabled) × (l.appenders ≡ [])

Configured-Stable :
    (as' bs : List Appender) (ds : List AppenderDefine) (ids : List ℕ)
    → Stable as' bs
    → Configured as' ds ids
    → Configured bs ds ids
Configured-Stable as' bs [] ids k h = h
Configured-Stable as' bs (d ∷ ds) [] k h = h
Configured-Stable as' bs (d ∷ ds) (a ∷ ids) k ((app, at, fits), h) =
    let (b, at', (type, level)) = k a app at in
    (
      (b, at', record { type_is = type ∙ fits.type_is; level_is = level ∙ fits.level_is }),
      Configured-Stable as' bs ds ids k h,
    )

pub IsInForce-Keeps :
    (K : Bytes → Type 0) (m n : Manager) (d : LogDefine)
    → Keeps K m n
    → K d.name
    → IsInForce m d
    → IsInForce n d
IsInForce-Keeps K m n d k here v = record {
  logger = v.logger;
  holds = k.loggers d.name v.logger here v.holds;
  level_is = v.level_is;
  formatter_is = v.formatter_is;
  appenders_are =
      Configured-Stable m.store.appenders n.store.appenders d.appenders v.logger.appenders
        k.appenders v.appenders_are;
}

pub IsOff-Keeps :
    (K : Bytes → Type 0) (m n : Manager) (d : LogDefine)
    → Keeps K m n
    → K d.name
    → IsOff m d
    → IsOff n d
IsOff-Keeps K m n d k here (l, holds, level, empty) =
    (l, k.loggers d.name l here holds, level, empty)

-- A configured logger is in force, whatever its formatter was.
pub IsApplied-IsInForce : (m : Manager) (d : LogDefine) → IsApplied m d → IsInForce m d
IsApplied-IsInForce m d v = record {
  logger = v.is_configured.logger;
  holds = (v.pointer, v.named, v.is_configured.at);
  level_is = v.is_configured.level_is;
  formatter_is = elim v.is_configured.formatter_is [
    | inl (empty, _) ↦ inl empty
    | inr given ↦ inr given
  ];
  appenders_are = v.is_configured.appenders_are;
}

abbrev pub Other : Bytes → Bytes → Type 0
Other name other = other ≢ name
