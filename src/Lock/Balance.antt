-- ===== src/Lock/Balance.antt =====
-- The guards of include/thread.hpp over a whole scope.
use ye_cc_server.Prelude.{
  ℕ, zero, suc, ◌≡◌, refl, ap, Bool, true, false, List, [], ◌∷◌, if◌then◌else◌,
}
use ye_cc_server.Lock.{
  Mutex, RwMutex, Guard, construct, lock, unlock, destroy, Call, locks, unlocks, guard_class,
  scoped_mutex, read_scoped_mutex, write_scoped_mutex, calls_on, scope,
}

module _ {ℓ} {M : Type ℓ} where
  -- The lock is taken and released so many times, one after the other.
  abbrev pub rounds : (M → M) → (M → M) → ℕ → M → M
  rounds take release zero m = m
  rounds take release (suc n) m = release (take (rounds take release n m))

  module _ (take release : M → M) where
    -- The guard holds the lock behind so many rounds, or has released it at their end.
    abbrev IsBalanced : M → Guard M → Type ℓ
    IsBalanced m g =
        (n : ℕ) × (g.mutex
          ≡ (if g.locked then take (rounds take release n m) else rounds take release (suc n) m))

    call-IsBalanced :
        (c : Call) (locked : Bool) (m mutex : M)
        → (let g : Guard M = record { locked = locked; mutex = mutex } in
            IsBalanced m g → IsBalanced m ((guard_class take release).call c g))
    unfolding lock unlock
    call-IsBalanced locks true m mutex (n, e) = (n, e)
    call-IsBalanced locks false m mutex (n, e) = (suc n, ap take e)
    call-IsBalanced unlocks true m mutex (n, e) = (n, ap release e)
    call-IsBalanced unlocks false m mutex (n, e) = (n, e)

    calls-IsBalanced :
        (cs : List Call) (m : M) (g : Guard M)
        → IsBalanced m g
        → IsBalanced m (calls_on (guard_class take release) cs g)
    calls-IsBalanced [] m g h = h
    calls-IsBalanced (c ∷ cs) m g h =
        calls-IsBalanced cs m ((guard_class take release).call c g)
          (call-IsBalanced c g.locked m g.mutex h)

    -- A guard that holds the lock ends one more round.
    ends-IsBalanced :
        (locked : Bool) (m mutex : M)
        → (let g : Guard M = record { locked = locked; mutex = mutex } in
            IsBalanced m g → (n : ℕ) × (destroy take release g ≡ rounds take release (suc n) m))
    unfolding destroy unlock
    ends-IsBalanced true m mutex (n, e) = (n, ap release e)
    ends-IsBalanced false m mutex (n, e) = (n, e)

    class-rounds :
        (cs : List Call) (m : M)
        → (n : ℕ) × (scope (guard_class take release) cs m ≡ rounds take release (suc n) m)
    unfolding construct
    class-rounds cs m =
        let g = calls_on (guard_class take release) cs (construct take release m) in
        ends-IsBalanced g.locked m g.mutex
          (calls-IsBalanced cs m (construct take release m) (0, refl))

  -- Whatever is called on a guard in its scope, in each of the three classes, its lock is taken and released
  -- in turn, at least once, never taken while it is held nor released while it is not, and is released at the end.
  pub scope-rounds :
      (cs : List Call) (mutex : Mutex M) (rw_mutex : RwMutex M) (m : M)
      → ((n : ℕ) × (scope (scoped_mutex mutex) cs m ≡ rounds mutex.lock mutex.unlock (suc n) m))
        × ((n : ℕ) × (scope (read_scoped_mutex rw_mutex) cs m
              ≡ rounds rw_mutex.rdlock rw_mutex.unlock (suc n) m))
        × ((n : ℕ) × (scope (write_scoped_mutex rw_mutex) cs m
              ≡ rounds rw_mutex.wrlock rw_mutex.unlock (suc n) m))
  scope-rounds cs mutex rw_mutex m = (
    class-rounds mutex.lock mutex.unlock cs m,
    class-rounds rw_mutex.rdlock rw_mutex.unlock cs m,
    class-rounds rw_mutex.wrlock rw_mutex.unlock cs m,
  )
