-- ===== src/Log/Conf/Configured.antt =====
-- The listener of LogIniter in src/log.cpp on one logger: all that it sets.
use mathlib.Core.Path.{subst}
use ye_cc_server.Prelude.{
  ℕ, ◌≡◌, refl, sym, ◌∙◌, ◌⊎◌, inl, inr, [], Option, some, ok, Bytes, bytes_eq, bytes_eq_iff,
  get_elem?, get_elem?-lt, get_elem?-set_self, set, Bool-cases, Returns, ok_inj,
}
use ye_cc_server.Log.Formatter.Items.{Formatter, new_formatter}
use ye_cc_server.Log.Level.{Level}
use ye_cc_server.Log.Logger.{Logger, Store, set_level, clear_appender, deref, put_logger}
use ye_cc_server.Log.Logger.Valid.{IsValid}
use ye_cc_server.Log.Logger.Changes.{set_level-Preserves}
use ye_cc_server.Log.Logger.Inherit.{set_pattern-Inherits}
use ye_cc_server.Log.Conf.{LogDefine, set_defined_pattern, configure}
use ye_cc_server.Log.Conf.Safe.{IsLogDefine}
use ye_cc_server.Log.Conf.State.{Configured, add_all_defined-Adds}

-- A pattern that is given makes the new formatter; an empty one keeps the old.
abbrev pub Formats : Bytes → Option Formatter → Option Formatter → Type 0
Formats pattern old new =
    ((pattern ≡ []) × (new ≡ old))
    ⊎ ((f : Formatter) × (new_formatter pattern ≡ ok f) × (new ≡ some f))

-- The logger `l`, once it is configured.
pub record IsConfigured (d : LogDefine) (l : Logger) (p : ℕ) (t : Store) : Type 0 where
  pub logger : Logger
  pub at : get_elem? t.loggers p ≡ some logger
  pub name_kept : logger.name ≡ l.name
  pub root_kept : logger.root ≡ l.root
  pub level_is : logger.level ≡ d.level
  pub formatter_is : Formats d.formatter l.formatter logger.formatter
  pub appenders_are : Configured t.appenders d.appenders logger.appenders

module _ (root p : ℕ) (s : Store) (l : Logger) (at : get_elem? s.loggers p ≡ some l) where
  put_self : (new : Logger) → get_elem? (set s.loggers p new) p ≡ some new
  put_self new = get_elem?-set_self s.loggers p new (get_elem?-lt s.loggers p l at)

  pub level_set :
      (level : Level)
      → IsValid root s
      → Returns
          (λ t. IsValid root t × (get_elem? t.loggers p ≡ some (record l { level = level })))
          (set_level s p level)
  level_set level v =
      let (t, done, kept) = set_level-Preserves root p s v (get_elem?-lt s.loggers p l at) level in
      let new : Logger = record l { level = level } in
      let run : set_level s p level ≡ ok (put_logger s p new) =
        unfold set_level in rw (at, deref) in
      let same : put_logger s p new ≡ t = ok_inj (sym run ∙ done) in
      (
        t,
        done,
        (kept.valid, subst (λ (x : Store). get_elem? x.loggers p ≡ some new) same (put_self new)),
      )

  pattern_set :
      (pattern : Bytes)
      → IsValid root s
      → Returns
          (λ t.
            (f : Option Formatter) × Formats pattern l.formatter f
            × (get_elem? t.loggers p ≡ some (record l { formatter = f })))
          (set_defined_pattern s p pattern)
  unfolding set_defined_pattern
  pattern_set pattern v = elim (Bool-cases (bytes_eq pattern [])) [
    | inl empty ↦ (s, rw empty, (l.formatter, inl ((bytes_eq_iff pattern []).0 empty, refl), at))
    | inr given ↦
        let (t, done, (f, made, put, _)) = set_pattern-Inherits root p s l pattern v at in
        (
          t,
          rw given done,
          (some f, inr (f, made, refl), rw put (put_self (record l { formatter = some f }))),
        )
  ]

  pub cleared :
      Returns (λ t. get_elem? t.loggers p ≡ some (record l { appenders = [] })) (clear_appender s p)
  unfolding clear_appender
  cleared = (
    put_logger s p (record l { appenders = [] }),
    rw (at, deref),
    put_self (record l { appenders = [] }),
  )

-- A definition with known types, applied to a logger of a valid store, returns: the logger has the
-- definition's level, one appender for each of its appenders, in order, of the type and level asked for,
-- or DEBUG if that was unknown, and no others, and the formatter of its pattern if there is one; its name
-- and root stay.
pub configure-IsConfigured :
    (root p : ℕ) (s : Store) (l : Logger) (d : LogDefine)
    → IsValid root s
    → get_elem? s.loggers p ≡ some l
    → IsLogDefine d
    → Returns (IsConfigured d l p) (configure s p d)
unfolding configure
configure-IsConfigured root p s l d v at k =
    let (t, leveled, (v', at_t)) = level_set root p s l at d.level v in
    let l1 : Logger = record l { level = d.level } in
    let (u, patterned, (f, formats, at_u)) = pattern_set root p t l1 at_t d.formatter v' in
    let l2 : Logger = record l1 { formatter = f } in
    let (x, empty, at_x) = cleared root p u l2 at_u in
    let l3 : Logger = record l2 { appenders = [] } in
    let (y, added, (more, ids, _, at_y, fits)) = add_all_defined-Adds d.appenders x p l3 at_x k in
    (
      y,
      rw (leveled, patterned, empty) added,
      record {
        logger = record l3 { appenders = ids };
        at = at_y;
        name_kept = refl;
        root_kept = refl;
        level_is = refl;
        formatter_is = formats;
        appenders_are = fits;
      },
    )
