-- ===== src/Log/Conf/Each.antt =====
-- LogIniter's listener in src/log.cpp on one definition: what it does to the logger of that name, and that the
-- loggers of other names stay.
use mathlib.Core.Path.{subst}
use ye_cc_server.Prelude.{
  ℕ, ◌≡◌, ◌≢◌, refl, sym, ◌∙◌, ap, inl, inr, ◌++◌, ok, ◌>>=◌, Ends, Ends-bind, Ends-ok, ok_inj,
  Bytes, codes, leb, get_elem?, get_elem?-lt, Returns, Bool-cases, arith,
}
use ye_cc_server.Prelude.Maps.{bytes_key}
use ye_cc_server.Log.Event.{Event, stream}
use ye_cc_server.Log.Level.{Level, info, disabled}
use ye_cc_server.Log.Appender.{Env}
use ye_cc_server.Log.Logger.{Logger, Store, deref, log_macro, set_level, clear_appender}
use ye_cc_server.Log.Logger.Safe.{log_macro-Preserves}
use ye_cc_server.Log.Manager.{Manager}
use ye_cc_server.Log.Manager.Valid.{IsManager, Finds, get_logger-Finds}
use ye_cc_server.Log.Conf.{LogDefine, announce, update_logger, delete_logger, configure}
use ye_cc_server.Log.Logger.Changes.{clear_appender-Preserves, set_level-Preserves}
use ye_cc_server.Log.Conf.Safe.{IsLogDefine, Preserves-lt, configure_returns}
use ye_cc_server.Log.Conf.Changed.{IsApplied, update_logger-IsApplied, delete_logger-IsDeleted}
use ye_cc_server.Log.Conf.Total.{IsManager-store}
use ye_cc_server.Log.Conf.Stable.{Stable, Stable-refl, log-Stable, Frame}
use ye_cc_server.Log.Conf.Frame.{configure-Frame, disable-Frame}
use ye_cc_server.Log.Conf.Keeps.{
  Keeps, Keeps-trans, Keeps-weaken, IsInForce, IsOff, IsApplied-IsInForce, Other,
}

-- A change of the logger that a lookup found keeps the loggers of the other names.
framed_lookup :
    (m x : Manager) (name : Bytes) (p : ℕ) (s : Store)
    → Finds m name x p
    → Frame p x.store s
    → Keeps (Other name) m (record x { store = s })
framed_lookup m x name p s finds (stable, others) = record {
  loggers = λ other l ne (q, named, at).
      let found = finds.others other ne ∙ named in
      let before = finds.loggers_kept q l at in
      let mine = finds.manager.named name p finds.found in
      let theirs = finds.manager.named other q found in
      let apart : q ≢ p = λ e.
        let same : theirs.logger ≡ mine.logger = ground (arith, e, theirs.at, mine.at) in
        ne (sym theirs.has_name ∙ ap (λ (y : Logger). y.name) same ∙ mine.has_name) in
      (q, found, others q apart ∙ before);
  appenders = subst (λ as'. Stable as' s.appenders) finds.appenders_kept stable;
}

module _ (env : Env) (now : ℕ) (event : Event) where
  log_macro-Stable :
      (fuel p : ℕ) (s : Store) (level : Level) (text : Bytes)
      → Ends (λ t. Stable s.appenders t.appenders) (log_macro fuel env now p s level event text)
  unfolding log_macro
  log_macro-Stable fuel p s level text = Ends-bind _ (deref s.loggers p) _ (λ l found.
      elim (Bool-cases (leb l.level level)) [
        | inl high ↦ rw high (
            log-Stable env now (stream (record event { logger = p; level = level }) text) fuel p s
              level)
        | inr low ↦ rw low (Stable-refl s.appenders)
      ])

  -- What is announced changes no logger.
  announce-Keeps :
      (m : Manager) (text : Bytes)
      → IsManager m
      → Returns (λ n. IsManager n × Keeps (λ name. Unit) m n) (announce env now event m text)
  unfolding announce
  announce-Keeps m text v =
      let (top, at, _) = v.valid.root_valid in
      let said = codes "logger conf changed: " ++ text in
      let (s, done, (kept, same)) =
        log_macro-Preserves 0 env now m.root m.root m.store info event said v.valid
          (get_elem?-lt m.store.loggers m.root top at) in
      let stable = Ends-ok _ _ s (log_macro-Stable 2 m.root m.store info said) done in
      (
        record m { store = s },
        rw done refl,
        (
          IsManager-store m s v kept,
          record {
            loggers =
                λ name l k (p, named, there). (p, named, ap (λ ls. get_elem? ls p) same ∙ there);
            appenders = stable;
          },
        ),
      )

  -- The body of the first loop puts the definition in force, and keeps the loggers of other names.
  pub update_logger-Keeps :
      (m : Manager) (text : Bytes) (d : LogDefine)
      → IsManager m
      → IsLogDefine d
      → Returns
          (λ n. IsManager n × IsInForce n d × Keeps (Other d.name) m n)
          (update_logger env now event m text d)
  unfolding update_logger
  update_logger-Keeps m text d v k =
      let (n, said, (v', quiet)) = announce-Keeps m (text ++ d.name) v in
      let ((x, p), got, finds) = get_logger-Finds n d.name v' in
      let named = finds.manager.named d.name p finds.found in
      let (s, done, kept) =
        configure_returns x.root p x.store d finds.manager.valid
          (get_elem?-lt x.store.loggers p named.logger named.at) k in
      let frame =
        Ends-ok (Frame p x.store) (configure x.store p d) s (configure-Frame p x.store d) done in
      let o : Manager = record x { store = s } in
      let (o', all, applied) = update_logger-IsApplied env now event m text d v k in
      let run : update_logger env now event m text d ≡ ok o =
        unfold update_logger in rw (said, got, done) refl in
      let here : IsApplied o d = subst (λ y. IsApplied y d) (ok_inj (sym all ∙ run)) applied in
      (
        o,
        run,
        (
          here.manager,
          IsApplied-IsInForce o d here,
          Keeps-trans (Other d.name) m n o
              (Keeps-weaken (λ name. Unit) (Other d.name) m n (λ name k. tt) quiet)
              (framed_lookup n x d.name p s finds frame),
        ),
      )

  -- The body of the second loop turns the logger off, and keeps the loggers of other names.
  pub delete_logger-Keeps :
      (m : Manager) (d : LogDefine)
      → IsManager m
      → Returns
          (λ n. IsManager n × IsOff n d × Keeps (Other d.name) m n)
          (delete_logger env now event m d)
  unfolding delete_logger
  delete_logger-Keeps m d v =
      let (n, said, (v', quiet)) = announce-Keeps m (codes "logger deleted, name: " ++ d.name) v in
      let ((x, p), got, finds) = get_logger-Finds n d.name v' in
      let (o', all, (w, (q, l, named, at, _, level, empty))) =
        delete_logger-IsDeleted env now event m d v in
      let mine = finds.manager.named d.name p finds.found in
      let inside = get_elem?-lt x.store.loggers p mine.logger mine.at in
      let (s, done, kept) =
        set_level-Preserves x.root p x.store finds.manager.valid inside disabled in
      let (t, gone, _) =
        clear_appender-Preserves x.root p s kept.valid
          (Preserves-lt x.root p x.store s kept inside) in
      let changed : (set_level x.store p disabled >>= λ u. clear_appender u p) ≡ ok t =
        rw done gone in
      let frame = Ends-ok (Frame p x.store) _ t (disable-Frame p x.store disabled) changed in
      let o : Manager = record x { store = t } in
      let run : delete_logger env now event m d ≡ ok o =
        unfold delete_logger in rw (said, got, done, gone) refl in
      let (manager, off) =
        subst (λ y. IsManager y × IsOff y d) (ok_inj (sym all ∙ run))
          (w, (l, (q, named, at), level, empty)) in
      (
        o,
        run,
        (
          manager,
          off,
          Keeps-trans (Other d.name) m n o
              (Keeps-weaken (λ name. Unit) (Other d.name) m n (λ name k. tt) quiet)
              (framed_lookup n x d.name p t finds frame),
        ),
      )
