-- ===== src/Log/Conf/Total.antt =====
-- LogIniter's listener in src/log.cpp as a whole, on a valid manager.
use ye_cc_server.Prelude.{
  ℕ, refl, ◌∙◌, inl, inr, true, false, List, [], ◌∷◌, ◌++◌, Bytes, codes, get_elem?-lt, All,
  Bool-cases, Returns, Option-cases,
}
use ye_cc_server.Log.Event.{Event}
use ye_cc_server.Log.Level.{info, disabled}
use ye_cc_server.Log.Appender.{Env}
use ye_cc_server.Log.Logger.{Store}
use ye_cc_server.Log.Logger.Valid.{Preserves, Preserves-trans}
use ye_cc_server.Log.Logger.Safe.{log_macro-Preserves}
use ye_cc_server.Log.Logger.Changes.{clear_appender-Preserves, set_level-Preserves}
use ye_cc_server.Log.Manager.{Manager}
use ye_cc_server.Log.Manager.Valid.{IsManager, get_logger-Finds}
use ye_cc_server.Log.Conf.{
  LogDefine, announce, update_logger, update_all, delete_logger, delete_all, on_change, find_define,
  define_eq,
}
use ye_cc_server.Log.Conf.Safe.{IsLogDefine, Preserves-lt, configure_returns}

-- A step on the store leaves the manager valid.
pub IsManager-store :
    (m : Manager) (s : Store)
    → IsManager m
    → Preserves m.root m.store s
    → IsManager (record m { store = s })
IsManager-store m s v k = record {
  valid = k.valid;
  named = λ name p h.
      let old = v.named name p h in
      let (l, at, same) = k.names p old.logger old.at in
      record { logger = l; at = at; has_name = same ∙ old.has_name; not_root = old.not_root };
}

module _ (env : Env) (now : ℕ) (event : Event) where
  pub announce-Returns :
      (m : Manager) (text : Bytes) → IsManager m → Returns IsManager (announce env now event m text)
  unfolding announce
  announce-Returns m text v =
      let (top, at, _) = v.valid.root_valid in
      let (s, done, (kept, _)) =
        log_macro-Preserves 0 env now m.root m.root m.store info event
          (codes "logger conf changed: " ++ text) v.valid
          (get_elem?-lt m.store.loggers m.root top at) in
      (record m { store = s }, rw done, IsManager-store m s v kept)

  update_logger-Returns :
      (m : Manager) (text : Bytes) (d : LogDefine)
      → IsManager m
      → IsLogDefine d
      → Returns IsManager (update_logger env now event m text d)
  unfolding update_logger
  update_logger-Returns m text d v k =
      let (n, said, v') = announce-Returns m (text ++ d.name) v in
      let ((x, p), got, finds) = get_logger-Finds n d.name v' in
      let named = finds.manager.named d.name p finds.found in
      let (s, done, kept) =
        configure_returns x.root p x.store d finds.manager.valid
          (get_elem?-lt x.store.loggers p named.logger named.at) k in
      (record x { store = s }, rw (said, got, done), IsManager-store x s finds.manager kept)

  delete_logger-Returns :
      (m : Manager) (d : LogDefine)
      → IsManager m
      → Returns IsManager (delete_logger env now event m d)
  unfolding delete_logger
  delete_logger-Returns m d v =
      let (n, said, v') = announce-Returns m (codes "logger deleted, name: " ++ d.name) v in
      let ((x, p), got, finds) = get_logger-Finds n d.name v' in
      let named = finds.manager.named d.name p finds.found in
      let inside = get_elem?-lt x.store.loggers p named.logger named.at in
      let (s, done, kept) =
        set_level-Preserves x.root p x.store finds.manager.valid inside disabled in
      let (t, done', kept') =
        clear_appender-Preserves x.root p s kept.valid
          (Preserves-lt x.root p x.store s kept inside) in
      (
        record x { store = t },
        rw (said, got, done, done'),
        IsManager-store x t finds.manager (Preserves-trans kept kept'),
      )

  update_all-Returns :
      (old new : List LogDefine) (m : Manager)
      → IsManager m
      → All IsLogDefine new
      → Returns (λ r. IsManager r.0) (update_all env now event old new m)
  unfolding update_all
  update_all-Returns old [] m v k = ((m, true), refl, v)
  update_all-Returns old (d ∷ ds) m v k = elim (Option-cases (find_define d old)) [
    | inl added ↦
        let (n, done, v') = update_logger-Returns m (codes "new logger added, name: ") d v k.0 in
        let (r, rest, v'') = update_all-Returns old ds n v' k.1 in
        (r, rw (added, update_all, done) rest, v'')
    | inr (it, found) ↦ elim (Bool-cases (define_eq d it)) [
      | inl same ↦ ((m, false), rw (found, update_all, same), v)
      | inr changed ↦
          let (n, done, v') =
            update_logger-Returns m (codes "logger conf modified, name: ") d v k.0 in
          let (r, rest, v'') = update_all-Returns old ds n v' k.1 in
          (r, rw (found, update_all, changed, done) rest, v'')
    ]
  ]

  delete_all-Returns :
      (new old : List LogDefine) (m : Manager)
      → IsManager m
      → Returns IsManager (delete_all env now event new old m)
  unfolding delete_all
  delete_all-Returns new [] m v = (m, refl, v)
  delete_all-Returns new (d ∷ ds) m v = elim (Option-cases (find_define d new)) [
    | inr (it, found) ↦
        let (r, rest, v') = delete_all-Returns new ds m v in (r, rw (found, delete_all) rest, v')
    | inl gone ↦
        let (n, done, v') = delete_logger-Returns m d v in
        let (r, rest, v'') = delete_all-Returns new ds n v' in
        (r, rw (gone, delete_all, done) rest, v'')
  ]

  -- The listener returns on every change of the configuration in which all appenders are of the two
  -- known types, from every valid manager, and leaves the manager valid.
  pub on_change-IsManager :
      (old new : List LogDefine) (m : Manager)
      → IsManager m
      → All IsLogDefine new
      → Returns IsManager (on_change env now event old new m)
  unfolding on_change
  on_change-IsManager old new m v k =
      let (r, done, v') = update_all-Returns old new m v k in
      elim (Bool-cases r.1) [
        | inl through ↦
            let (n, rest, v'') = delete_all-Returns new old r.0 v' in
            (n, rw (done, through) rest, v'')
        | inr early ↦ (r.0, rw (done, early), v')
      ]
