-- ===== src/Fiber/Runs.antt =====
-- Fiber::swapIn from the main fiber, and the ways back to it, of src/fiber.cpp.
use ye_cc_server.Prelude.{
  ℕ, ◌<◌, ◌≡◌, ◌≢◌, refl, ◌∙◌, ap, inl, inr, Bool, true, false, ◌==◌, ==_iff, if◌then◌else◌, Option,
  some, Outcome, ok, length, length-set, set, arith, Bool-cases, Returns,
}
use ye_cc_server.Fiber.{
  yield_to_ready, yield_to_hold, ready, hold, State, Point, Context, Fiber, Runtime, fiber_at,
  deref, put, is_exec, swap_context, swap_in, swap_out, get_this, leave, main_func_end, exec, term,
  excep, inside, ended,
}
use ye_cc_server.Fiber.Coherent.{
  IsRuntime, fiber_at-lt, fiber_at-set_self, fiber_at-set_ne, put_twice, IsRuntime-step, stacked,
  executes,
}

-- A run that goes back to the main fiber at `back`, and leaves the fiber `c` in a state.
abbrev pub Leaves : ℕ → Context → ℕ → State → Outcome Runtime → Type 0
Leaves m back c state = Returns λ t.
    IsRuntime m m t
    × (t.running ≡ back)
    × ((f : Fiber) × (fiber_at t.fibers c ≡ some f) × (f.state ≡ state))

module _ (m : ℕ) (r : Runtime) where
  -- Resuming a fiber that does not execute, from the main fiber of a coherent runtime, returns: the fiber
  -- is the current one, the processor is at the place that the fiber's context had, the main fiber's
  -- context is behind its swap, and the runtime is coherent again.
  pub swap_in-Resumes :
      (p : ℕ) (f : Fiber)
      → IsRuntime m m r
      → p ≢ m
      → fiber_at r.fibers p ≡ some f
      → is_exec f.state ≡ false
      → Returns
          (λ t.
            IsRuntime m p t
            × (t.running ≡ f.ctx)
            × ((g : Fiber) × (fiber_at t.fibers m ≡ some g)
                × (g.ctx ≡ record { owner = m; point = inside })))
          (swap_in r p)
  unfolding swap_in swap_context
  swap_in-Resumes p f v ne at idle =
      let (g, at_m) = v.main_is in
      let f' : Fiber = record f { state = exec } in
      let g' : Fiber = record g { ctx = record { owner = r.running.owner; point = inside } } in
      let hp = fiber_at-lt r.fibers p f at in
      let hm = fiber_at-lt r.fibers m g at_m in
      let once = set r.fibers p (some f') in
      let t : Runtime = record r {
        fibers = set once m (some g');
        cur = some p;
        last = some m;
        running = f.ctx;
      } in
      let main_still : fiber_at once m ≡ some g =
        fiber_at-set_ne r.fibers p m (some f') ne ∙ at_m in
      let there : fiber_at t.fibers p ≡ some f' =
        put_twice r.fibers p m p f' g' hp hm ∙ ground (arith, (==_iff p p).1 refl) in
      (
        t,
        rw (at, deref, idle, v.last_is, main_still, there)
            (ap (λ (x : Option ℕ). ok (record t { last = x })) v.last_is),
        (
          IsRuntime-step m m p p r t f' g' v (inr refl) (λ q. put_twice r.fibers p m q f' g' hp hm)
              refl (v.each p f at).owns refl ne
              (record {
                owns = (v.each p f at).owns;
                one_runs = λ e. inr refl;
                has_role = inr (ne, stacked p f (v.each p f at) ne);
              })
              (record {
                owns = v.at_processor;
                one_runs = λ e. inl refl;
                has_role = (v.each m g at_m).has_role;
              })
              (inl (refl, refl)),
          refl,
          (
            g',
            put_twice r.fibers p m m f' g' hp hm ∙ ground (arith, (==_iff m m).1 refl),
            ap (λ x. record { owner = x; point = inside }) v.at_processor,
          ),
        ),
      )

  pub main_apart :
      {c : ℕ} (q : ℕ) (f f1 g : Fiber)
      → c ≢ m
      → fiber_at r.fibers m ≡ some g
      → (if c == q then some f else if c == q then some f1 else fiber_at r.fibers q)
        ≡ (if m == q then some g else if c == q then some f else fiber_at r.fibers q)
  main_apart {c} q f f1 g ne at_m = elim (Bool-cases (m == q)) [
    | inl eq ↦
        let other : (c == q) ≡ false = ground (arith, ne, (==_iff m q).0 eq) in
        rw (eq, other) (rw (← (==_iff m q).0 eq) at_m)
    | inr differs ↦ ground (arith, differs)
  ]

  swap_out_returns :
      (c : ℕ) (f f1 g : Fiber) (point : Point)
      → IsRuntime m c r
      → c ≢ m
      → fiber_at r.fibers c ≡ some f
      → fiber_at r.fibers m ≡ some g
      → is_exec f1.state ≡ false
      → f1.has_stack ≡ f.has_stack
      → Leaves m g.ctx c f1.state (swap_out (put r c f1) c point)
  unfolding swap_out swap_context
  swap_out_returns c f f1 g point v ne at at_m idle same =
      let f2 : Fiber = record f1 { ctx = record { owner = r.running.owner; point = point } } in
      let hp = fiber_at-lt r.fibers c f at in
      let once = set r.fibers c (some f1) in
      let twice = set once c (some f2) in
      let longer : c < length once = omega (arith, length-set r.fibers c (some f1)) in
      let t : Runtime = record r { fibers = twice; cur = some m; last = some m; running = g.ctx } in
      let first : fiber_at once c ≡ some f1 = fiber_at-set_self r.fibers c (some f1) hp in
      let at_c : fiber_at twice c ≡ some f2 = fiber_at-set_self once c (some f2) longer in
      let main_still : fiber_at twice m ≡ some g =
        put_twice r.fibers c c m f1 f2 hp hp ∙ ground (arith, ne, at_m) in
      (
        t,
        rw (v.last_is, first, deref, main_still),
        (
          IsRuntime-step m c m c r t f2 g v (inl refl)
              (λ q. put_twice r.fibers c c q f1 f2 hp hp ∙ main_apart q f2 f1 g ne at_m) refl
              (v.each m g at_m).owns refl ne
              (record {
                owns = v.at_processor;
                one_runs = λ e. absurd (ground (arith, idle));
                has_role = inr (ne, same ∙ stacked c f (v.each c f at) ne);
              })
              (record {
                owns = (v.each m g at_m).owns;
                one_runs = λ e. inl refl;
                has_role = (v.each m g at_m).has_role;
              })
              (inr (refl, executes g (v.each m g at_m))),
          refl,
          (f2, at_c, refl),
        ),
      )

  leave_returns :
      (c : ℕ) (state : State) (point : Point) (g : Fiber)
      → IsRuntime m c r
      → c ≢ m
      → fiber_at r.fibers m ≡ some g
      → is_exec state ≡ false
      → Leaves m g.ctx c state (leave state point r)
  unfolding leave get_this
  leave_returns c state point g v ne at_m idle =
      let (f, at, _) = v.runs in
      let (t, done, kept) =
        swap_out_returns c f (record f { state = state }) g point v ne at at_m idle refl in
      (t, rw (v.current, at, deref) done, kept)

  main_func_end_returns :
      (c : ℕ) (returned : Bool) (g : Fiber)
      → IsRuntime m c r
      → c ≢ m
      → fiber_at r.fibers m ≡ some g
      → Leaves m g.ctx c (if returned then term else excep) (main_func_end returned r)
  unfolding main_func_end get_this
  main_func_end_returns c true g v ne at_m =
      let (f, at, _) = v.runs in
      let (t, done, kept) =
        swap_out_returns c f (record f { has_cb = false; state = term }) g ended v ne at at_m refl
          refl in
      (t, rw (v.current, at, deref) done, kept)
  main_func_end_returns c false g v ne at_m =
      let (f, at, _) = v.runs in
      let (t, done, kept) =
        swap_out_returns c f (record f { state = excep }) g ended v ne at at_m refl refl in
      (t, rw (v.current, at, deref) done, kept)

  -- In a coherent runtime each way in which a fiber other than the main one leaves returns to the main
  -- fiber, which goes on at the place of its context: the fiber that left is READY or HOLD behind a
  -- yield, TERM behind a function that returned and EXCEP behind one that threw, and the runtime is
  -- coherent again.
  pub leave-Leaves :
      (c : ℕ) (g : Fiber)
      → IsRuntime m c r
      → c ≢ m
      → fiber_at r.fibers m ≡ some g
      → Leaves m g.ctx c ready (yield_to_ready r)
        × Leaves m g.ctx c hold (yield_to_hold r)
        × Leaves m g.ctx c term (main_func_end true r)
        × Leaves m g.ctx c excep (main_func_end false r)
  unfolding yield_to_ready yield_to_hold
  leave-Leaves c g v ne at_m = (
    leave_returns c ready inside g v ne at_m refl,
    leave_returns c hold inside g v ne at_m refl,
    main_func_end_returns c true g v ne at_m,
    main_func_end_returns c false g v ne at_m,
  )
