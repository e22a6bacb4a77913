-- ===== src/Fiber/Start.antt =====
-- A thread's first call of Fiber::GetThis, and a fiber that is run once, of src/fiber.cpp.
use ye_cc_server.Prelude.{
  ℕ, zero, suc, ◌≡◌, ◌≢◌, refl, inl, true, false, [], none, some, ◌>>=◌, arith,
}
use ye_cc_server.Fiber.{
  Context, Fiber, Runtime, fiber_at, is_exec, swap_in, get_this, new_main, yield_to_ready,
  yield_to_hold, main_func_end, inside, ready, hold, term, excep,
}
use ye_cc_server.Fiber.Coherent.{IsFiber, IsRuntime}
use ye_cc_server.Fiber.Runs.{Leaves, swap_in-Resumes, leave-Leaves}

-- A thread that has no fiber yet.
abbrev pub fresh : ℕ → ℕ → Runtime
fresh id count = record {
  fibers = [];
  cur = none;
  last = none;
  fiber_id = id;
  fiber_count = count;
  running = record { owner = 0; point = inside };
}

-- The first GetThis of a thread makes its main fiber, and the runtime is coherent from there on.
pub get_this-IsRuntime :
    (id count : ℕ)
    → IsRuntime
        (get_this (fresh id count)).1
        (get_this (fresh id count)).1
        (get_this (fresh id count)).0
unfolding get_this new_main
get_this-IsRuntime id count = record {
  current = refl;
  at_processor = refl;
  last_is = refl;
  main_is = (_, refl);
  runs = (_, refl, refl);
  each = first;
}
  where
    first :
        (p : ℕ) (f : Fiber)
        → fiber_at (get_this (fresh id count)).0.fibers p ≡ some f
        → IsFiber 0 0 p f
    first zero f h = record {
      owns = ground (arith, h);
      one_runs = λ e. inl refl;
      has_role = inl (refl, ground (arith, h), ground (arith, h));
    }
    first (suc p) f h = absurd (ground (arith, h))

-- A fiber that does not execute, which the main fiber of a coherent runtime swaps in and which then
-- leaves, whichever way, comes back to the place behind swapIn in the main fiber: it is READY, HOLD, TERM
-- or EXCEP by that way, and the runtime is coherent.
pub swap_in-Leaves :
    (m p : ℕ) (r : Runtime) (f : Fiber)
    → IsRuntime m m r
    → p ≢ m
    → fiber_at r.fibers p ≡ some f
    → is_exec f.state ≡ false
    → let back : Context = record { owner = m; point = inside } in
      Leaves m back p ready (swap_in r p >>= yield_to_ready)
      × Leaves m back p hold (swap_in r p >>= yield_to_hold)
      × Leaves m back p term (swap_in r p >>= main_func_end true)
      × Leaves m back p excep (swap_in r p >>= main_func_end false)
swap_in-Leaves m p r f v ne at idle =
    let (t, done, (w, _, (g, at_m, ctx))) = swap_in-Resumes m r p f v ne at idle in
    let (a, b, c, d) = leave-Leaves m t p g w ne at_m in rw (done, ← ctx) (a, b, c, d)
