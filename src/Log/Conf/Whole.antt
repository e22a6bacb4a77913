-- ===== src/Log/Conf/Whole.antt =====
-- LogIniter's listener in src/log.cpp as a whole, on a change in which every definition is new or has changed.
use ye_cc_server.Prelude.{
  ℕ, ◌≡◌, ◌≢◌, refl, sym, ◌⊎◌, inl, inr, Bool, true, false, List, [], ◌∷◌, none, some, Bytes, codes,
  bytes_eq, bytes_eq_iff, Returns, All, All-map, Bool-cases, Option-cases, arith,
}
use ye_cc_server.Log.Event.{Event}
use ye_cc_server.Log.Appender.{Env}
use ye_cc_server.Log.Manager.{Manager}
use ye_cc_server.Log.Manager.Valid.{IsManager}
use ye_cc_server.Log.Conf.{LogDefine, find_define, define_eq, update_all, delete_all, on_change}
use ye_cc_server.Log.Conf.Safe.{IsLogDefine}
use ye_cc_server.Log.Conf.Stable.{Stable-refl}
use ye_cc_server.Log.Conf.Keeps.{
  Keeps, Keeps-trans, Keeps-weaken, IsInForce, IsOff, IsInForce-Keeps, IsOff-Keeps, Other,
}
use ye_cc_server.Log.Conf.Each.{update_logger-Keeps, delete_logger-Keeps}

-- No definition of the list has the name.
abbrev pub Lacks : List LogDefine → Bytes → Type 0
Lacks ds name = All (λ (d : LogDefine). name ≢ d.name) ds

-- The names of a std::set of definitions.
abbrev pub AreDistinct : List LogDefine → Type 0
AreDistinct [] = Unit
AreDistinct (d ∷ ds) = Lacks ds d.name × AreDistinct ds

-- The definition is new, or differs from the old one of its name.
abbrev pub IsChange : List LogDefine → LogDefine → Type 0
IsChange old d =
    (find_define d old ≡ none)
    ⊎ ((it : LogDefine) × (find_define d old ≡ some it) × (define_eq d it ≡ false))

Keeps-refl : (K : Bytes → Type 0) (m : Manager) → Keeps K m m
Keeps-refl K m = record { loggers = λ name l k h. h; appenders = Stable-refl m.store.appenders }

module _ (env : Env) (now : ℕ) (event : Event) where
  -- Where the first loop goes through, all its definitions are in force behind it.
  abbrev Updates : List LogDefine → Manager → Manager × Bool → Type 0
  Updates ds m r = IsManager r.0 × (r.1 ≡ true) × All (IsInForce r.0) ds × Keeps (Lacks ds) m r.0

  updated-first :
      (d : LogDefine) (ds : List LogDefine) (m n : Manager) (r : Manager × Bool)
      → Lacks ds d.name
      → IsInForce n d
      → Keeps (Other d.name) m n
      → Updates ds n r
      → Updates (d ∷ ds) m r
  updated-first d ds m n r apart here kept (v, through, all, more) = (
    v,
    through,
    (IsInForce-Keeps (Lacks ds) n r.0 d more apart here, all),
    Keeps-trans (Lacks (d ∷ ds)) m n r.0
        (Keeps-weaken (Other d.name) (Lacks (d ∷ ds)) m n (λ name k. k.0) kept)
        (Keeps-weaken (Lacks ds) (Lacks (d ∷ ds)) n r.0 (λ name k. k.1) more),
  )

  update_all-Updates :
      (old ds : List LogDefine) (m : Manager)
      → IsManager m
      → All IsLogDefine ds
      → AreDistinct ds
      → All (IsChange old) ds
      → Returns (Updates ds m) (update_all env now event old ds m)
  unfolding update_all
  update_all-Updates old [] m v k a c = ((m, true), refl, (v, refl, tt, Keeps-refl (Lacks []) m))
  update_all-Updates old (d ∷ ds) m v k a c = elim c.0 [
    | inl added ↦
        let (n, done, (w, here, kept)) =
          update_logger-Keeps env now event m (codes "new logger added, name: ") d v k.0 in
        let (r, rest, u) = update_all-Updates old ds n w k.1 a.1 c.1 in
        (r, rw (added, update_all, done) rest, updated-first d ds m n r a.0 here kept u)
    | inr (it, found, differs) ↦
        let (n, done, (w, here, kept)) =
          update_logger-Keeps env now event m (codes "logger conf modified, name: ") d v k.0 in
        let (r, rest, u) = update_all-Updates old ds n w k.1 a.1 c.1 in
        (r, rw (found, update_all, differs, done) rest, updated-first d ds m n r a.0 here kept u)
  ]

  -- The name is that of no definition that is gone.
  abbrev NotGone : List LogDefine → List LogDefine → Bytes → Type 0
  NotGone new ds name = All (λ (d : LogDefine). find_define d new ≡ none → name ≢ d.name) ds

  -- The definition is still there, or its logger is off.
  abbrev pub IsGoneOff : List LogDefine → Manager → LogDefine → Type 0
  IsGoneOff new n d = ((it : LogDefine) × (find_define d new ≡ some it)) ⊎ IsOff n d

  abbrev Deletes : List LogDefine → List LogDefine → Manager → Manager → Type 0
  Deletes new ds m n = IsManager n × All (IsGoneOff new n) ds × Keeps (NotGone new ds) m n

  delete_all-Deletes :
      (new ds : List LogDefine) (m : Manager)
      → IsManager m
      → AreDistinct ds
      → Returns (Deletes new ds m) (delete_all env now event new ds m)
  unfolding delete_all
  delete_all-Deletes new [] m v a = (m, refl, (v, tt, Keeps-refl (NotGone new []) m))
  delete_all-Deletes new (d ∷ ds) m v a = elim (Option-cases (find_define d new)) [
    | inr (it, found) ↦
        let (r, rest, (w, all, kept)) = delete_all-Deletes new ds m v a.1 in
        (
          r,
          rw (found, delete_all) rest,
          (
            w,
            (inl (it, found), all),
            Keeps-weaken (NotGone new ds) (NotGone new (d ∷ ds)) m r (λ name k. k.1) kept,
          ),
        )
    | inl gone ↦
        let (n, done, (w, off, first)) = delete_logger-Keeps env now event m d v in
        let (r, rest, (u, all, kept)) = delete_all-Deletes new ds n w a.1 in
        let apart : NotGone new ds d.name = All-map _ _ ds (λ x ne e. ne) a.0 in
        (
          r,
          rw (gone, delete_all, done) rest,
          (
            u,
            (inr (IsOff-Keeps (NotGone new ds) n r d kept apart off), all),
            Keeps-trans (NotGone new (d ∷ ds)) m n r
                (Keeps-weaken (Other d.name) (NotGone new (d ∷ ds)) m n (λ name k. k.0 gone) first)
                (Keeps-weaken (NotGone new ds) (NotGone new (d ∷ ds)) n r (λ name k. k.1) kept),
          ),
        )
  ]

  -- A name that a list does not find is the name of none of its definitions.
  find_define-Lacks :
      (d : LogDefine) (ds : List LogDefine) → find_define d ds ≡ none → Lacks ds d.name
  unfolding find_define
  find_define-Lacks d [] e = tt
  find_define-Lacks d (x ∷ ds) e = elim (Bool-cases (bytes_eq x.name d.name)) [
    | inl same ↦ absurd (ground (arith, same, e))
    | inr other ↦ (
      (λ eq. absurd (ground (arith, other, (bytes_eq_iff x.name d.name).1 (sym eq)))),
      find_define-Lacks d ds (ground (arith, other, e)),
    )
  ]

  -- A logger that a definition of the list is for is not gone.
  found-NotGone :
      (new old : List LogDefine)
      → (part : List LogDefine) → ((e : LogDefine) → Lacks new e.name → Lacks part e.name)
      → All (λ d. NotGone new old d.name) part
  found-NotGone new old [] sub = tt
  found-NotGone new old (d ∷ part) sub = (each old, found-NotGone new old part (λ e k. (sub e k).1))
    where
      each : (ds : List LogDefine) → NotGone new ds d.name
      each [] = tt
      each (e ∷ ds) = ((λ gone same. (sub e (find_define-Lacks e new gone)).0 (sym same)), each ds)

  -- What the second loop keeps is still in force behind it.
  carried :
      (new old : List LogDefine) (m n : Manager) (part : List LogDefine)
      → Keeps (NotGone new old) m n
      → All (λ d. NotGone new old d.name) part
      → All (IsInForce m) part
      → All (IsInForce n) part
  carried new old m n [] k a b = tt
  carried new old m n (d ∷ part) k (a, more) (b, rest) =
      (IsInForce-Keeps (NotGone new old) m n d k a b, carried new old m n part k more rest)

  -- Where a manager is valid, the appenders of every new definition have a type that can be made, no two of
  -- the new and no two of the old ones have the same name, and each new one differs from the old one of its
  -- name, the listener returns a valid manager in which every new definition is in force (its logger is there
  -- under its name with its level, an appender of the type and level of each of its appenders, and the
  -- formatter of its pattern if it has one) and the logger of every old definition that is gone is disabled
  -- and has no appender.
  pub on_change-IsInForce :
      (old new : List LogDefine) (m : Manager)
      → IsManager m
      → All IsLogDefine new
      → AreDistinct new
      → AreDistinct old
      → All (IsChange old) new
      → Returns
          (λ n. IsManager n × All (IsInForce n) new × All (IsGoneOff new n) old)
          (on_change env now event old new m)
  unfolding on_change
  on_change-IsInForce old new m v k a b c =
      let (r, done, (w, through, all, more)) = update_all-Updates old new m v k a c in
      let (n, rest, (u, off, kept)) = delete_all-Deletes new old r.0 w b in
      (
        n,
        rw (done, through) rest,
        (u, carried new old r.0 n new kept (found-NotGone new old new (λ e x. x)) all, off),
      )
