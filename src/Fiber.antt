-- ===== src/Fiber.antt =====
-- Fiber of include/fiber.hpp and src/fiber.cpp, in a program of one thread. A pointer to a fiber is its
-- number among all that were made; a destroyed one leaves `none`. A context says whose flow of control
-- it resumes, and where: that is all that the code relies on of getcontext, makecontext and swapcontext,
-- which do not fail here. A failed YECC_ASSERT is a fault.
pub mod Coherent
pub mod Runs
pub mod Made
pub mod Destroyed
pub mod Start
pub mod Steps
use ye_cc_server.Prelude.{
  ℕ, ◌+◌, ◌-◌, ◌%◌, ◌^◌, Bool, true, false, not, ◌&&◌, ◌||◌, List, [], ◌∷◌, ◌++◌, ◌==◌,
  if◌then◌else◌, Option, none, some, Outcome, ok, fault, ◌>>=◌, length, get_elem?, set,
}

-- Fiber::State.
pub data State : Type 0 where
  init hold exec term ready excep : State

-- Where a flow of control goes on: at the head of MainFunc, behind a swap that it made, or behind the
-- last swap of MainFunc, where no code is left.
pub data Point : Type 0 where
  entry inside ended : Point

pub record Context : Type 0 where
  pub owner : ℕ
  pub point : Point

pub record Fiber : Type 0 where
  pub id : ℕ
  pub stack_size : ℕ
  pub state : State
  pub ctx : Context
  pub has_stack : Bool
  pub has_cb : Bool

-- `cur` is cur_fiber, `last` is last_s_fiber; `running` is where the processor is.
pub record Runtime : Type 0 where
  pub fibers : List (Option Fiber)
  pub cur : Option ℕ
  pub last : Option ℕ
  pub fiber_id : ℕ
  pub fiber_count : ℕ
  pub running : Context

abbrev pub wrap : ℕ → ℕ
wrap n = n % 2 ^ 64

abbrev pub in_cell : Option (Option Fiber) → Option Fiber
in_cell none = none
in_cell (some cell) = cell

-- The object that a pointer leads to.
abbrev pub fiber_at : List (Option Fiber) → ℕ → Option Fiber
fiber_at fibers p = in_cell (get_elem? fibers p)

abbrev pub deref : Runtime → ℕ → Outcome Fiber
deref r p = elim (fiber_at r.fibers p) [ none ↦ fault | some f ↦ ok f ]

abbrev pub put : Runtime → ℕ → Fiber → Runtime
put r p f = record r { fibers = set r.fibers p (some f) }

-- YECC_ASSERT
abbrev pub assert {ℓ} : {A : Type ℓ} → Bool → Outcome A → Outcome A
assert true rest = rest
assert false rest = fault

abbrev pub is_exec : State → Bool
is_exec exec = true
is_exec _ = false

-- m_state == INIT || m_state == TERM || m_state == EXCEP
abbrev pub is_idle : State → Bool
is_idle init = true
is_idle term = true
is_idle excep = true
is_idle _ = false

-- Fiber::Fiber(), the main fiber of a thread: the flow that runs is the new fiber's from here on.
unfoldable pub new_main : Runtime → Runtime × ℕ
new_main r =
    let p = length r.fibers in
    let f : Fiber = record {
      id = 0;
      stack_size = 0;
      state = exec;
      ctx = record { owner = p; point = inside };
      has_stack = false;
      has_cb = false;
    } in
    (
      record r {
        fibers = r.fibers ++ some f ∷ [];
        cur = some p;
        fiber_count = wrap (r.fiber_count + 1);
        running = f.ctx;
      },
      p,
    )

-- Fiber::Fiber(cb, stack_size); `config_size` is the value of fiber.stack_size.
unfoldable pub new_fiber : ℕ → Runtime → ℕ → Runtime × ℕ
new_fiber config_size r stack_size =
    let p = length r.fibers in
    let f : Fiber = record {
      id = wrap (r.fiber_id + 1);
      stack_size = if stack_size == 0 then config_size else stack_size;
      state = init;
      ctx = record { owner = p; point = entry };
      has_stack = true;
      has_cb = true;
    } in
    (
      record r {
        fibers = r.fibers ++ some f ∷ [];
        fiber_id = f.id;
        fiber_count = wrap (r.fiber_count + 1);
      },
      p,
    )

-- Fiber::GetThis.
unfoldable pub get_this : Runtime → Runtime × ℕ
unfolding new_main
get_this r = elim r.cur [
  | some p ↦ (r, p)
  | none ↦ let (s, p) = new_main r in (record s { last = some p }, p)
]

-- swapcontext(&a->m_ctx, &b->m_ctx), for a flow that stops at `point`.
unfoldable pub swap_context : Runtime → ℕ → ℕ → Point → Outcome Runtime
swap_context r a b point = do
  f ← deref r a
  g ← deref (put r a (record f { ctx = record { owner = r.running.owner; point = point } })) b
  ok (record (put r a (record f { ctx = record { owner = r.running.owner; point = point } })) {
    running = g.ctx;
  })

-- Fiber::swapIn.
unfoldable pub swap_in : Runtime → ℕ → Outcome Runtime
unfolding swap_context
swap_in r p = do
  f ← deref r p
  assert (not (is_exec f.state)) (elim r.last [
    | none ↦ fault
    | some m ↦
        swap_context (record (put r p (record f { state = exec })) { cur = some p }) m p inside
  ])

-- Fiber::swapOut, for a flow that stops at `point`.
unfoldable pub swap_out : Runtime → ℕ → Point → Outcome Runtime
unfolding swap_context
swap_out r p point = elim r.last [
  | none ↦ fault
  | some m ↦ swap_context (record r { cur = some m }) p m point
]

-- The common part of YieldToReady, YieldToHold and MainFunc: the current fiber gets a state and swaps
-- out.
unfoldable pub leave : State → Point → Runtime → Outcome Runtime
unfolding get_this swap_out
leave state point r =
    let (s, p) = get_this r in
    deref s p >>= λ f. swap_out (put s p (record f { state = state })) p point

-- Fiber::YieldToReady and Fiber::YieldToHold.
unfoldable pub yield_to_ready : Runtime → Outcome Runtime
unfolding leave
yield_to_ready = leave ready inside

unfoldable pub yield_to_hold : Runtime → Outcome Runtime
unfolding leave
yield_to_hold = leave hold inside

-- The end of Fiber::MainFunc, behind a callback that returned or threw. One that returned is dropped.
unfoldable pub main_func_end : Bool → Runtime → Outcome Runtime
unfolding get_this swap_out
main_func_end returned r =
    let (s, p) = get_this r in
    deref s p >>= λ f.
    let done =
      if returned then record f { has_cb = false; state = term } else record f { state = excep } in
    swap_out (put s p done) p ended

-- Fiber::reset.
unfoldable pub reset : Runtime → ℕ → Outcome Runtime
reset r p = do
  f ← deref r p
  assert f.has_stack (
      assert (is_idle f.state) (
        ok (
          put r p
            (record f { has_cb = true; ctx = record { owner = p; point = entry }; state = init }))))

-- Fiber::~Fiber.
unfoldable pub destroy : Runtime → ℕ → Outcome Runtime
destroy r p = deref r p >>= λ f.
    let freed = record r {
      fibers = set r.fibers p none;
      fiber_count = wrap (r.fiber_count + (2 ^ 64 - 1));
    } in
    if f.has_stack
    then assert (is_idle f.state) (ok freed)
    else (assert (not f.has_cb) (
        assert (is_exec f.state) (
          ok (elim r.cur [
            | none ↦ freed
            | some c ↦ if c == p then record freed { cur = none } else freed
          ]))))

-- Fiber::GetCurFiberId.
unfoldable pub get_cur_fiber_id : Runtime → ℕ
get_cur_fiber_id r = elim r.cur [
  | none ↦ 0
  | some p ↦ elim (fiber_at r.fibers p) [ none ↦ 0 | some f ↦ f.id ]
]
