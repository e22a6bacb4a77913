-- ===== src/Log/Conf/Changed.antt =====
-- The bodies of the two loops of LogIniter's listener in src/log.cpp: what a logger is like behind one.
use mathlib.Core.Path.{subst}
use ye_cc_server.Prelude.{
  ◌≡◌, refl, sym, ◌∙◌, [], some, Bytes, codes, ℕ, get_elem?, get_elem?-lt, Returns, ok_inj, ◌++◌,
}
use ye_cc_server.Prelude.Maps.{find, bytes_key}
use ye_cc_server.Log.Event.{Event}
use ye_cc_server.Log.Level.{disabled}
use ye_cc_server.Log.Appender.{Env}
use ye_cc_server.Log.Logger.{Logger, Store}
use ye_cc_server.Log.Logger.Valid.{Preserves-trans}
use ye_cc_server.Log.Logger.Changes.{clear_appender-Preserves, set_level-Preserves}
use ye_cc_server.Log.Manager.{Manager}
use ye_cc_server.Log.Manager.Valid.{IsManager, get_logger-Finds}
use ye_cc_server.Log.Conf.{LogDefine, update_logger, delete_logger}
use ye_cc_server.Log.Conf.Safe.{IsLogDefine, configure_returns}
use ye_cc_server.Log.Conf.Configured.{IsConfigured, configure-IsConfigured, level_set, cleared}
use ye_cc_server.Log.Conf.Total.{announce-Returns, IsManager-store}

-- The logger that a name leads to, in a valid manager, is as a definition says.
pub record IsApplied (m : Manager) (d : LogDefine) : Type 0 where
  pub manager : IsManager m
  pub pointer : ℕ
  pub before : Logger
  pub named : find d.name m.loggers ≡ some pointer
  pub is_configured : IsConfigured d before pointer m.store

module _ (env : Env) (now : ℕ) (event : Event) where
  -- The body of the first loop, for a definition with known types that is new or has changed, returns on
  -- a valid manager and leaves it valid, and the definition's name leads to a logger that is configured
  -- as the definition says.
  pub update_logger-IsApplied :
      (m : Manager) (text : Bytes) (d : LogDefine)
      → IsManager m
      → IsLogDefine d
      → Returns (λ n. IsApplied n d) (update_logger env now event m text d)
  unfolding update_logger
  update_logger-IsApplied m text d v k =
      let (n, said, v') = announce-Returns env now event m (text ++ d.name) v in
      let ((x, p), got, finds) = get_logger-Finds n d.name v' in
      let named = finds.manager.named d.name p finds.found in
      let (s, done, kept) =
        configure_returns x.root p x.store d finds.manager.valid
          (get_elem?-lt x.store.loggers p named.logger named.at) k in
      let (s', done', set) =
        configure-IsConfigured x.root p x.store named.logger d finds.manager.valid named.at k in
      (
        record x { store = s },
        rw (said, got, done),
        record {
          manager = IsManager-store x s finds.manager kept;
          pointer = p;
          before = named.logger;
          named = finds.found;
          is_configured = subst (IsConfigured d named.logger p) (ok_inj (sym done' ∙ done)) set;
        },
      )

  -- The body of the second loop, for a definition that is gone, returns on a valid manager and leaves it
  -- valid, and the definition's name leads to a logger of that name with the level 100 and no appenders.
  pub delete_logger-IsDeleted :
      (m : Manager) (d : LogDefine)
      → IsManager m
      → Returns
          (λ n.
            IsManager n
            × ((p : ℕ) × (l : Logger) × (find d.name n.loggers ≡ some p)
                × (get_elem? n.store.loggers p ≡ some l)
                × (l.name ≡ d.name)
                × (l.level ≡ disabled)
                × (l.appenders ≡ [])))
          (delete_logger env now event m d)
  unfolding delete_logger
  delete_logger-IsDeleted m d v =
      let (n, said, v') =
        announce-Returns env now event m (codes "logger deleted, name: " ++ d.name) v in
      let ((x, p), got, finds) = get_logger-Finds n d.name v' in
      let named = finds.manager.named d.name p finds.found in
      let old = named.logger in
      let inside = get_elem?-lt x.store.loggers p old named.at in
      let (s, done, kept) =
        set_level-Preserves x.root p x.store finds.manager.valid inside disabled in
      let (s', done', (_, put)) =
        level_set x.root p x.store old named.at disabled finds.manager.valid in
      let quiet : Logger = record old { level = disabled } in
      let at : get_elem? s.loggers p ≡ some quiet =
        subst (λ (y : Store). get_elem? y.loggers p ≡ some quiet) (ok_inj (sym done' ∙ done)) put in
      let (t, gone, kept') =
        clear_appender-Preserves x.root p s kept.valid (get_elem?-lt s.loggers p quiet at) in
      let (t', gone', put') = cleared x.root p s quiet at in
      let bare : Logger = record quiet { appenders = [] } in
      let at' : get_elem? t.loggers p ≡ some bare =
        subst (λ (y : Store). get_elem? y.loggers p ≡ some bare) (ok_inj (sym gone' ∙ gone)) put' in
      (
        record x { store = t },
        rw (said, got, done, gone),
        (
          IsManager-store x t finds.manager (Preserves-trans kept kept'),
          (p, bare, finds.found, at', named.has_name, refl, refl),
        ),
      )
