-- ===== src/Log/Conf/Text/Described.antt =====
-- Logger::ToYamlStr of src/log.cpp on a logger of a valid store.
use ye_cc_server.Prelude.{
  ℕ, ◌≡◌, refl, ◌∙◌, ap, true, false, List, [], ◌∷◌, ◌==◌, if◌then◌else◌, some, ◌>>=◌, Bytes,
  get_elem?, Returns, All, arith,
}
use ye_cc_server.Log.Level
use ye_cc_server.Log.Formatter.Items.{Formatter}
use ye_cc_server.Log.Appender.{Appender, get_type, get_file_name}
use ye_cc_server.Log.Logger.{Logger, Store, deref}
use ye_cc_server.Log.Logger.Valid.{IsValid, HasFormat}
use ye_cc_server.Config.Var.{cast}
use ye_cc_server.Config.Convert.{Library}
use ye_cc_server.Config.Convert.Laws.{IsLibrary}
use ye_cc_server.Log.Conf.{AppenderDefine, LogDefine}
use ye_cc_server.Log.Conf.Text.{define_from, define_to}
use ye_cc_server.Log.Conf.Text.Print.{
  IsPrintable, IsPrintableDefine, define_text, define_to-mapping,
}
use ye_cc_server.Log.Conf.Text.Reread.{define_round_trip}
use ye_cc_server.Log.Conf.Text.Describe.{
  describe_appender, describe_appenders, describe, outcome_of, to_yaml_str,
}

-- The definition says of the appender at `a` what it is.
abbrev pub Describes : List Appender → ℕ → AppenderDefine → Type 0
Describes as' a d =
    (app : Appender) × (f : Formatter) × (get_elem? as' a ≡ some app)
    × (app.formatter ≡ some f)
    × (d.type ≡ get_type app)
    × (d.level ≡ app.level)
    × (d.formatter ≡ f.pattern)
    × (d.file ≡ get_file_name app)

abbrev pub AllDescribed : List Appender → List ℕ → List AppenderDefine → Type 0
AllDescribed as' [] ds = ds ≡ []
AllDescribed as' (a ∷ ids) [] = false ≡ true
AllDescribed as' (a ∷ ids) (d ∷ ds) = Describes as' a d × AllDescribed as' ids ds

described_file :
    (app : Appender) → (if get_type app == 1 then get_file_name app else []) ≡ get_file_name app
described_file app = ground arith

describe_appender-Describes :
    (as' : List Appender) (a : ℕ) (app : Appender) (f : Formatter)
    → get_elem? as' a ≡ some app
    → app.formatter ≡ some f
    → Returns (Describes as' a) (describe_appender app)
unfolding describe_appender
describe_appender-Describes as' a app f at has = (
  record {
    type = get_type app;
    level = app.level;
    formatter = f.pattern;
    file = if get_type app == 1 then get_file_name app else [];
  },
  rw has refl,
  (app, f, at, has, refl, refl, refl, described_file app),
)

describe_appenders-Returns :
    (s : Store) (ids : List ℕ)
    → All (HasFormat s.appenders) ids
    → Returns (AllDescribed s.appenders ids) (describe_appenders s ids)
unfolding describe_appenders
describe_appenders-Returns s [] h = ([], refl, refl)
describe_appenders-Returns s (a ∷ ids) ((app, f, at, has), h) =
    let (d, one, says) = describe_appender-Describes s.appenders a app f at has in
    let (ds, more, all) = describe_appenders-Returns s ids h in
    (d ∷ ds, rw (at, deref, one, more) refl, (says, all))

-- What ToYamlStr makes of the logger `l`, whose pattern is that of `f`.
pub record Portrays (s : Store) (l : Logger) (f : Formatter) (d : LogDefine) : Type 0 where
  pub name_is : d.name ≡ l.name
  pub level_is : d.level ≡ l.level
  pub formatter_is : d.formatter ≡ f.pattern
  pub appenders_are : AllDescribed s.appenders l.appenders d.appenders

describe-Portrays :
    (root p : ℕ) (s : Store) (l : Logger) (f : Formatter)
    → IsValid root s
    → get_elem? s.loggers p ≡ some l
    → l.formatter ≡ some f
    → Returns (Portrays s l f) (describe s p)
unfolding describe
describe-Portrays root p s l f v at has =
    let valid = v.loggers_valid p l at in
    let (ds, done, says) = describe_appenders-Returns s l.appenders valid.attached in
    (
      record { name = l.name; level = l.level; formatter = f.pattern; appenders = ds },
      rw (at, deref, has, done) refl,
      record { name_is = refl; level_is = refl; formatter_is = refl; appenders_are = says },
    )

module _ (lib : Library) (laws : IsLibrary lib) where
  abbrev pub IsWritable : List Appender → ℕ → Type 0
  IsWritable as' a =
      (app : Appender) (f : Formatter)
      → get_elem? as' a ≡ some app
      → app.formatter ≡ some f
      → (laws.is_text (get_file_name app) ≡ true) × (laws.is_text f.pattern ≡ true)

  described_print :
      (as' : List Appender) (ids : List ℕ) (ds : List AppenderDefine)
      → AllDescribed as' ids ds
      → All (IsWritable as') ids
      → All (IsPrintable lib laws) ds
  described_print as' [] ds h w = rw h tt
  described_print as' (a ∷ ids) [] h w = absurd (ground (arith, h))
  described_print as' (a ∷ ids) (d ∷ ds) ((app, f, at, has, _, _, pattern, path), h) (w, ws) =
      let (p, q) = w app f at has in ((rw path p, rw pattern q), described_print as' ids ds h ws)

  -- What the text of the logger is, and what it is read back as.
  abbrev pub PrintsLogger : Store → Logger → Formatter → Bytes → Type 0
  PrintsLogger s l f text =
      ((d : LogDefine) × Portrays s l f d × (define_to lib d ≡ cast text))
      × (define_from lib text
          ≡ cast (record {
            name = l.name;
            level = Level.from_string (Level.to_string l.level);
            formatter = f.pattern;
            appenders = [];
          }))

  -- ToYamlStr of a logger of a valid store, whose strings YAML can write, returns the text of the definition
  -- that has the logger's name, level and pattern, and the type, level, pattern and file of each of its
  -- appenders; but that text is read back as a definition without appenders, with the level that the printed
  -- level is read as.
  pub to_yaml_str-PrintsLogger :
      (root p : ℕ) (s : Store) (l : Logger) (f : Formatter)
      → IsValid root s
      → get_elem? s.loggers p ≡ some l
      → l.formatter ≡ some f
      → laws.is_text l.name ≡ true
      → laws.is_text f.pattern ≡ true
      → All (IsWritable s.appenders) l.appenders
      → Returns (PrintsLogger s l f) (to_yaml_str lib s p)
  unfolding to_yaml_str
  to_yaml_str-PrintsLogger root p s l f v at has n t w =
      let (d, done, says) = describe-Portrays root p s l f v at has in
      let printable : IsPrintableDefine lib laws d = (
        rw says.name_is n,
        rw says.formatter_is t,
        described_print s.appenders l.appenders d.appenders says.appenders_are w,
      ) in
      let text = define_text lib laws d in
      let written = define_to-mapping lib laws d in
      let back : define_from lib text ≡ _ =
        rw written at (define_round_trip lib laws d printable) in
      (
        text,
        ap (λ r. r >>= λ x. outcome_of (define_to lib x)) done ∙ ap outcome_of written,
        ((d, says, written), back ∙ rw (says.name_is, says.level_is, says.formatter_is) refl),
      )
