-- ===== src/Scheduler/Made.antt =====
-- The constructor of Scheduler in src/scheduler.cpp, in a thread that has no fiber yet.
use ye_cc_server.Prelude.{
  Bool, ℕ, ◌+◌, ◌-◌, ◌≤◌, ◌≡◌, refl, ◌⊎◌, inl, inr, true, false, [], ◌∷◌, ◌==◌, none, some, fault,
  Bytes, length, Returns, Bool-cases, arith,
}
use ye_cc_server.Fiber.{Fiber, fiber_at, get_this, new_fiber, init, entry}
use ye_cc_server.Fiber.Coherent.{IsRuntime}
use ye_cc_server.Fiber.Start.{fresh, get_this-IsRuntime}
use ye_cc_server.Fiber.Made.{new_fiber-IsRuntime}
use ye_cc_server.Thread.{Thread, World, set_name, get_name, put}
use ye_cc_server.Scheduler.{Scheduler, Caller, construct}

-- t_thread is null, or the object that it leads to is there.
abbrev pub CanBeNamed : World → Type 0
CanBeNamed w = (w.local.this ≡ false) ⊎ ((o : Thread) × (w.object ≡ some o))

set_name-get_name :
    (w : World) (name : Bytes) → CanBeNamed w → Returns (λ t. get_name t ≡ name) (set_name w name)
unfolding set_name
set_name-get_name w name (inl outside) =
    (record w { local = record w.local { name = name } }, ground (arith, outside), refl)
set_name-get_name w name (inr (o, there)) = elim (Bool-cases w.local.this) [
  | inl inside ↦ (
    put (record w { local = record w.local { name = name } }) (record o { name = name }),
    ground (arith, inside, there),
    refl,
  )
  | inr outside ↦
      (record w { local = record w.local { name = name } }, ground (arith, outside), refl)
]

-- The scheduler for so many threads, made by the thread `tid`, which is one of them.
pub record IsMade (tid thread_num : ℕ) (name : Bytes) (s : Scheduler) (c : Caller) : Type 0 where
  pub threads : s.total + length s.tids ≡ thread_num
  pub tids_are : s.tids ≡ tid ∷ []
  pub named : s.name ≡ name
  pub thread_named : get_name c.thread ≡ name
  pub runtime : (m : ℕ) × IsRuntime m m c.runtime
  pub fiber :
      (p : ℕ) × (f : Fiber) × (s.main_fiber ≡ some p)
      × (c.fiber ≡ some p)
      × (fiber_at c.runtime.fibers p ≡ some f)
      × (f.state ≡ init)
      × (f.ctx ≡ record { owner = p; point = entry })

abbrev pub newcomer : ℕ → ℕ → World → Caller
newcomer id count thread = record {
  runtime = fresh id count;
  thread = thread;
  is_current = false;
  fiber = none;
}

-- A scheduler that its maker takes part in, a thread without fibers whose name can be set, since it is not
-- inside a Thread or the object of that Thread is there. For at least one thread, where GetThis answers a null
-- pointer, the constructor returns: as many threads are still to be made as were asked for, less one; the maker
-- has the scheduler's name, a coherent runtime with its main fiber current, and the scheduler's main fiber is
-- INIT at the head of MainFunc. For no thread, or where GetThis answers another pointer, an assertion fails.
pub construct-IsMade :
    (config_size tid thread_num id count : ℕ) (name : Bytes) (thread : World)
    → CanBeNamed thread
    → (1 ≤ thread_num
        → Returns
            (λ r. IsMade tid thread_num name r.0 r.1)
            (construct config_size tid true thread_num true name (newcomer id count thread)))
      × ((no_current : Bool)
          → construct config_size tid no_current 0 true name (newcomer id count thread) ≡ fault)
      × ((thread_num' : ℕ)
          → construct config_size tid false thread_num' true name (newcomer id count thread)
            ≡ fault)
unfolding construct
construct-IsMade config_size tid thread_num id count name thread can = (
  λ h.
      let some' : (thread_num == 0) ≡ false = ground (arith, h) in
      let (named, done, is_named) = set_name-get_name thread name can in
      let first = get_this (fresh id count) in
      let made = new_fiber config_size first.0 0 in
      let (kept, _, (f, at, is_init, ctx, _)) =
        new_fiber-IsRuntime first.1 first.1 config_size 0 first.0 (get_this-IsRuntime id count) in
      (
        (
          record {
            name = name;
            main_fiber = some made.1;
            tids = tid ∷ [];
            total = thread_num - 1;
            main_thread = tid;
            m_fibers = [];
          },
          record { runtime = made.0; thread = named; is_current = true; fiber = some made.1 },
        ),
        rw (some', done) refl,
        record {
          threads = omega (arith, h);
          tids_are = refl;
          named = refl;
          thread_named = is_named;
          runtime = (first.1, kept);
          fiber = (made.1, f, refl, refl, at, is_init, ctx);
        },
      ),
  λ no_current. refl,
  λ n. elim (Bool-cases (n == 0)) [ inl e ↦ rw e refl | inr e ↦ rw e refl ],
)
