-- ===== src/Scheduler.antt =====
-- Scheduler of include/scheduler.hpp and src/scheduler.cpp, as far as it is written: its constructor, and the
-- queue of tasks that schedule fills. A fiber or a function is its number; a variable of type Fiber::ptr or
-- std::function, which a task may be taken from by a pointer, is a cell that may be empty. tickle has no
-- definition in the source and is a parameter, on the world `W` around the scheduler. A call is one step: its
-- loop is under the scheduler's mutex.
pub mod Queue
pub mod Made
use ye_cc_server.Prelude.{
  ℕ, ◌+◌, ◌-◌, ◌^◌, Bool, true, false, not, ◌&&◌, ◌||◌, List, [], ◌∷◌, ◌++◌, ◌==◌, if◌then◌else◌,
  Option, none, some, Outcome, ok, fault, ◌>>=◌, Bytes, get_elem?, set,
}
use ye_cc_server.Fiber
use ye_cc_server.Fiber.{Runtime, get_this, new_fiber, assert}
use ye_cc_server.Thread
use ye_cc_server.Thread.{World, set_name}

-- (pthread_t)-1
abbrev pub no_thread : ℕ
no_thread = 2 ^ 64 - 1

-- Scheduler::FiberOrFunc.
pub record Task : Type 0 where
  pub fiber : Option ℕ
  pub cb : Option ℕ
  pub thread : ℕ

-- FiberOrFunc::reset.
unfoldable pub reset : Task → Task
reset t = record { fiber = none; cb = none; thread = no_thread }

-- The variables that pointers lead to.
pub record Variables : Type 0 where
  pub fibers : List (Option ℕ)
  pub funcs : List (Option ℕ)

-- What is handed to schedule: a Fiber::ptr, a function, or a pointer to either.
pub data Source : Type 0 where
  fiber : Option ℕ → Source
  func : Option ℕ → Source
  fiber_at : ℕ → Source
  func_at : ℕ → Source

abbrev pub deref : List (Option ℕ) → ℕ → Outcome (Option ℕ)
deref cells p = elim (get_elem? cells p) [ none ↦ fault | some cell ↦ ok cell ]

-- The four constructors of FiberOrFunc. Those of a pointer swap the variable with the new task's empty one.
unfoldable pub make_task : Variables → Source → ℕ → Outcome (Variables × Task)
make_task vars (fiber f) thr = ok (vars, record { fiber = f; cb = none; thread = thr })
make_task vars (func f) thr = ok (vars, record { fiber = none; cb = f; thread = thr })
make_task vars (fiber_at p) thr = deref vars.fibers p >>= λ f.
    ok (
      record vars { fibers = set vars.fibers p none },
      record { fiber = f; cb = none; thread = thr },
    )
make_task vars (func_at p) thr = deref vars.funcs p >>= λ f.
    ok
      (record vars { funcs = set vars.funcs p none }, record { fiber = none; cb = f; thread = thr })

abbrev pub is_some : Option ℕ → Bool
is_some none = false
is_some (some x) = true

abbrev pub is_empty : List Task → Bool
is_empty [] = true
is_empty (t ∷ ts) = false

-- ft.fiber || ft.cb
abbrev pub is_runnable : Task → Bool
is_runnable t = is_some t.fiber || is_some t.cb

-- Scheduler::scheduleNoBlock: m_fibers, the variables, and need_tickle.
unfoldable pub schedule_no_block :
    List Task → Variables → Source → ℕ → Outcome (List Task × Variables × Bool)
unfolding make_task
schedule_no_block m_fibers vars fc thr = make_task vars fc thr >>= λ made.
    ok (if is_runnable made.1 then m_fibers ++ made.1 ∷ [] else m_fibers, made.0, is_empty m_fibers)

-- The loop of schedule over a batch.
unfoldable pub schedule_all :
    List Task → Variables → Bool → List Source → ℕ → Outcome (List Task × Variables × Bool)
unfolding schedule_no_block
schedule_all m_fibers vars need_tickle [] thr = ok (m_fibers, vars, need_tickle)
schedule_all m_fibers vars need_tickle (fc ∷ fcs) thr =
    schedule_no_block m_fibers vars fc thr >>= λ r.
    schedule_all r.0 r.1 (need_tickle || r.2) fcs thr

-- m_fibers, the variables, and the world that tickle works on.
pub record State {ℓ} (W : Type ℓ) : Type ℓ where
  pub m_fibers : List Task
  pub vars : Variables
  pub world : W

module _ {ℓ} {W : Type ℓ} (tickle : W → W) where
  abbrev pub after : State W → List Task × Variables × Bool → State W
  after s r = record { m_fibers = r.0; vars = r.1; world = if r.2 then tickle s.world else s.world }

  -- The two templates Scheduler::schedule.
  unfoldable pub schedule : State W → Source → ℕ → Outcome (State W)
  unfolding schedule_no_block
  schedule s fc thr = schedule_no_block s.m_fibers s.vars fc thr >>= λ r. ok (after s r)

  unfoldable pub schedule_batch : State W → List Source → ℕ → Outcome (State W)
  unfolding schedule_all
  schedule_batch s fcs thr = schedule_all s.m_fibers s.vars false fcs thr >>= λ r. ok (after s r)

-- The members that the constructor sets. Its list of tasks is empty.
pub record Scheduler : Type 0 where
  pub name : Bytes
  pub main_fiber : Option ℕ
  pub tids : List ℕ
  pub total : ℕ
  pub main_thread : ℕ
  pub m_fibers : List Task

-- The thread that makes a scheduler: its fibers, its name, whether it is t_scheduler, and t_fiber.
pub record Caller : Type 0 where
  pub runtime : Runtime
  pub thread : World
  pub is_current : Bool
  pub fiber : Option ℕ

-- Scheduler::Scheduler, in the thread that the system calls `tid`. `no_current` is whether GetThis, whose body
-- is missing, answers a null pointer; `config_size` is the stack size of a fiber.
unfoldable pub construct : ℕ → ℕ → Bool → ℕ → Bool → Bytes → Caller → Outcome (Scheduler × Caller)
unfolding get_this new_fiber set_name
construct config_size tid no_current thread_num use_caller name caller =
    assert (not (thread_num == 0)) (
      if use_caller
      then assert no_current (
          let (r, _) = get_this caller.runtime in
          let (s, p) = new_fiber config_size r 0 in
          set_name caller.thread name >>= λ thread. ok (
            record {
              name = name;
              main_fiber = some p;
              tids = tid ∷ [];
              total = thread_num - 1;
              main_thread = tid;
              m_fibers = [];
            },
            record { runtime = s; thread = thread; is_current = true; fiber = some p },
          ))
      else ok (
        record {
          name = name;
          main_fiber = none;
          tids = [];
          total = thread_num;
          main_thread = no_thread;
          m_fibers = [];
        },
        caller,
      ))
