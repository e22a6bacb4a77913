-- ===== src/Tests/Fibers.antt =====
-- A thread with its main fiber and one more, of src/fiber.cpp.
use ye_cc_server.Prelude.{
  ℕ, zero, suc, ◌≡◌, refl, inl, inr, true, false, [], ◌∷◌, some, ok, ◌>>=◌, arith,
}
use ye_cc_server.Fiber.{
  Context, Fiber, Runtime, fiber_at, new_fiber, swap_in, yield_to_ready, yield_to_hold,
  main_func_end, init, exec, ready, hold, term, excep, entry, inside,
}
use ye_cc_server.Fiber.Coherent.{IsFiber, IsRuntime}
use ye_cc_server.Fiber.Runs.{Leaves, leave-Leaves}
use ye_cc_server.Fiber.Steps.{IsCoherent, Reach-IsCoherent, here, next, makes, resumes}
use ye_cc_server.Fiber.Start.{swap_in-Leaves}

abbrev main_fiber : Fiber
main_fiber = record {
  id = 0;
  stack_size = 0;
  state = exec;
  ctx = record { owner = 0; point = inside };
  has_stack = false;
  has_cb = false;
}

abbrev worker : Fiber
worker = record {
  id = 1;
  stack_size = 4096;
  state = init;
  ctx = record { owner = 1; point = entry };
  has_stack = true;
  has_cb = true;
}

-- Between runs, and while the worker runs.
abbrev resting : Runtime
resting = record {
  fibers = some main_fiber ∷ some worker ∷ [];
  cur = some 0;
  last = some 0;
  fiber_id = 1;
  fiber_count = 2;
  running = main_fiber.ctx;
}

abbrev running_worker : Fiber
running_worker = record worker { state = exec }

abbrev working : Runtime
working = record resting {
  fibers = some main_fiber ∷ some running_worker ∷ [];
  cur = some 1;
  running = worker.ctx;
}

main_fiber-IsFiber : (c : ℕ) → IsFiber 0 c 0 main_fiber
main_fiber-IsFiber c = record {
  owns = refl;
  one_runs = λ e. inl refl;
  has_role = inl (refl, refl, refl);
}

resting-IsRuntime : IsRuntime 0 0 resting
resting-IsRuntime = record {
  current = refl;
  at_processor = refl;
  last_is = refl;
  main_is = (main_fiber, refl);
  runs = (main_fiber, refl, refl);
  each = each;
}
  where
    each : (p : ℕ) (f : Fiber) → fiber_at resting.fibers p ≡ some f → IsFiber 0 0 p f
    each zero f h = let is : main_fiber ≡ f = ground (arith, h) in rw (← is) (main_fiber-IsFiber 0)
    each (suc zero) f h =
        let is : worker ≡ f = ground (arith, h) in
        rw (← is) (record {
          owns = refl;
          one_runs = λ e. absurd (ground (arith, e));
          has_role = inr ((λ e. absurd (omega (arith, e))), refl);
        })
    each (suc (suc p)) f h = absurd (ground (arith, h))

working-IsRuntime : IsRuntime 0 1 working
working-IsRuntime = record {
  current = refl;
  at_processor = refl;
  last_is = refl;
  main_is = (main_fiber, refl);
  runs = (running_worker, refl, refl);
  each = each;
}
  where
    each : (p : ℕ) (f : Fiber) → fiber_at working.fibers p ≡ some f → IsFiber 0 1 p f
    each zero f h = let is : main_fiber ≡ f = ground (arith, h) in rw (← is) (main_fiber-IsFiber 1)
    each (suc zero) f h =
        let is : running_worker ≡ f = ground (arith, h) in
        rw (← is) (record {
          owns = refl;
          one_runs = λ e. inr refl;
          has_role = inr ((λ e. absurd (omega (arith, e))), refl);
        })
    each (suc (suc p)) f h = absurd (ground (arith, h))

leave-Leaves_example :
    Leaves 0 main_fiber.ctx 1 ready (yield_to_ready working)
    × Leaves 0 main_fiber.ctx 1 hold (yield_to_hold working)
    × Leaves 0 main_fiber.ctx 1 term (main_func_end true working)
    × Leaves 0 main_fiber.ctx 1 excep (main_func_end false working)
leave-Leaves_example =
    leave-Leaves 0 working 1 main_fiber working-IsRuntime (λ e. absurd (omega (arith, e))) refl

swap_in-Leaves_example :
    let back : Context = record { owner = 0; point = inside } in
    Leaves 0 back 1 ready (swap_in resting 1 >>= yield_to_ready)
    × Leaves 0 back 1 hold (swap_in resting 1 >>= yield_to_hold)
    × Leaves 0 back 1 term (swap_in resting 1 >>= main_func_end true)
    × Leaves 0 back 1 excep (swap_in resting 1 >>= main_func_end false)
swap_in-Leaves_example =
    swap_in-Leaves 0 1 resting worker resting-IsRuntime (λ e. absurd (omega (arith, e))) refl refl

-- A fiber that swaps another in overwrites the main fiber's context with its own: the main fiber's
-- place is lost.
nested_swap_in_loses_the_main_fiber :
    (let (t, p) = new_fiber 1024 working 0 in swap_in t p >>= λ u. ok (fiber_at u.fibers 0))
    ≡ ok (some (record main_fiber { ctx = record { owner = 1; point = inside } }))
unfolding swap_in new_fiber
nested_swap_in_loses_the_main_fiber = refl

Reach-IsCoherent_example : IsCoherent 0 (new_fiber 1024 working 0).0
unfolding swap_in
Reach-IsCoherent_example =
    Reach-IsCoherent 0 resting (new_fiber 1024 working 0).0 (0, resting-IsRuntime)
      (next (next here (resumes 1 refl (λ e. absurd (omega (arith, e))) refl)) (makes 1024 0))
