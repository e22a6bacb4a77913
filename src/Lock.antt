-- ===== src/Lock.antt =====
-- The mutexes and their guards of include/thread.hpp. What pthread does to a lock is not under src/: a lock is
-- of any type, with functions for the calls on it that return.
pub mod Balance
use ye_cc_server.Prelude.{Bool, true, false, if◌then◌else◌, List, [], ◌∷◌}

-- The calls of Mutex, SpinMutex and NullMutex.
pub record Mutex {ℓ} (M : Type ℓ) : Type ℓ where
  pub lock : M → M
  pub unlock : M → M

-- The calls of RWMutex and NullRWMutex.
pub record RwMutex {ℓ} (M : Type ℓ) : Type ℓ where
  pub rdlock : M → M
  pub wrlock : M → M
  pub unlock : M → M

-- NullMutex and NullRWMutex.
abbrev pub null_mutex {ℓ} : {M : Type ℓ} → Mutex M
null_mutex = record { lock = λ m. m; unlock = λ m. m }

abbrev pub null_rw_mutex {ℓ} : {M : Type ℓ} → RwMutex M
null_rw_mutex = record { rdlock = λ m. m; wrlock = λ m. m; unlock = λ m. m }

-- A guard with the lock that it refers to.
pub record Guard {ℓ} (M : Type ℓ) : Type ℓ where
  pub locked : Bool
  pub mutex : M

-- The constructor, lock(), unlock() and the destructor of a guard, which are the same in the three classes but
-- for the call that takes the lock.
module _ {ℓ} {M : Type ℓ} (take release : M → M) where
  unfoldable pub construct : M → Guard M
  construct mutex = record { locked = true; mutex = take mutex }

  unfoldable pub lock : Guard M → Guard M
  lock g = if g.locked then g else record { locked = true; mutex = take g.mutex }

  unfoldable pub unlock : Guard M → Guard M
  unlock g = if g.locked then record { locked = false; mutex = release g.mutex } else g

  -- What is left of the lock behind the guard.
  unfoldable pub destroy : Guard M → M
  unfolding unlock
  destroy g = (unlock g).mutex

-- What can be called on a guard.
pub data Call : Type 0 where
  locks unlocks : Call

-- A guard class: its constructor, its calls and its destructor.
pub record GuardClass {ℓ} (M : Type ℓ) : Type ℓ where
  pub construct : M → Guard M
  pub call : Call → Guard M → Guard M
  pub destroy : Guard M → M

module _ {ℓ} {M : Type ℓ} where
  abbrev pub guard_class : (M → M) → (M → M) → GuardClass M
  guard_class take release = record {
    construct = construct take release;
    call = λ c. elim c [ locks ↦ lock take release | unlocks ↦ unlock take release ];
    destroy = destroy take release;
  }

  abbrev pub scoped_mutex : Mutex M → GuardClass M
  scoped_mutex m = guard_class m.lock m.unlock

  abbrev pub read_scoped_mutex : RwMutex M → GuardClass M
  read_scoped_mutex m = guard_class m.rdlock m.unlock

  abbrev pub write_scoped_mutex : RwMutex M → GuardClass M
  write_scoped_mutex m = guard_class m.wrlock m.unlock

  -- A scope: the guard is made, called, and destroyed at the end.
  abbrev pub calls_on : GuardClass M → List Call → Guard M → Guard M
  calls_on k [] g = g
  calls_on k (c ∷ cs) g = calls_on k cs (k.call c g)

  abbrev pub scope : GuardClass M → List Call → M → M
  scope k cs mutex = k.destroy (calls_on k cs (k.construct mutex))
