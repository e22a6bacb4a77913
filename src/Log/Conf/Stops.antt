-- ===== src/Log/Conf/Stops.antt =====
-- The `return` in the first loop of LogIniter's listener, in src/log.cpp.
use ye_cc_server.Prelude.{
  ◌≡◌, sym, ◌∙◌, inl, inr, Bool, true, List, [], ◌∷◌, ◌++◌, some, Outcome, ok, bind_cong,
  bind_assoc, ◌>>=◌, codes, Bytes, ℕ, if◌then◌else◌, Bool-cases, Option-cases,
}
use ye_cc_server.Log.Event.{Event}
use ye_cc_server.Log.Appender.{Env}
use ye_cc_server.Log.Manager.{Manager}
use ye_cc_server.Log.Conf.{
  LogDefine, update_logger, update_all, delete_all, on_change, find_define, define_eq,
}

module _ (env : Env) (now : ℕ) (event : Event) (old rest : List LogDefine) (v it : LogDefine)
    (found : find_define v old ≡ some it) (same : define_eq v it ≡ true) where
  -- What the listener does behind the first loop.
  abbrev behind : List LogDefine → Manager × Bool → Outcome Manager
  behind new r = if r.1 then delete_all env now event new old r.0 else ok r.0

  abbrev update : List LogDefine → Manager → Outcome (Manager × Bool)
  update = update_all env now event old

  update_all_stops :
      (new pre : List LogDefine) (m : Manager)
      → (update (pre ++ v ∷ rest) m >>= behind new) ≡ (update pre m >>= λ r. ok r.0)
  unfolding update_all
  update_all_stops new [] m = rw (found, update_all, same)
  update_all_stops new (d ∷ pre) m = elim (Option-cases (find_define d old)) [
    | inl added ↦
        rw (added, update_all) (next (update_all_stops new pre) (codes "new logger added, name: "))
    | inr (x, known) ↦ elim (Bool-cases (define_eq d x)) [
      | inl equal ↦ rw (known, update_all, equal)
      | inr changed ↦
          rw (known, update_all, changed)
            (next (update_all_stops new pre) (codes "logger conf modified, name: "))
    ]
  ]
    where
      next :
          ((n : Manager)
            → (update (pre ++ v ∷ rest) n >>= behind new) ≡ (update pre n >>= λ r. ok r.0))
          → (text : Bytes)
          → ((update_logger env now event m text d >>= λ n. update (pre ++ v ∷ rest) n)
              >>= behind new)
            ≡ ((update_logger env now event m text d >>= λ n. update pre n) >>= λ r. ok r.0)
      next later text =
          bind_assoc (update_logger env now event m text d) (update (pre ++ v ∷ rest)) (behind new)
          ∙ bind_cong (update_logger env now event m text d) _ _ later
          ∙ sym (bind_assoc (update_logger env now event m text d) (update pre) (λ r. ok r.0))

  -- At a definition that equals its old one the listener ends: the change is then as if the
  -- definitions in front of it were all there is, what the new configuration says behind it is not
  -- looked at, and no logger is deleted.
  pub on_change-stops :
      (pre : List LogDefine) (m : Manager)
      → on_change env now event old (pre ++ v ∷ rest) m
        ≡ (update_all env now event old pre m >>= λ r. ok r.0)
  unfolding on_change
  on_change-stops pre m = update_all_stops (pre ++ v ∷ rest) pre m
