-- ===== src/Fiber/Made.antt =====
-- Fibers of src/fiber.cpp that are made, and reset between runs.
use ye_cc_server.Prelude.{
  ℕ, zero, suc, ◌<◌, ◌≡◌, ◌≢◌, refl, ◌∙◌, ap, ◌⊎◌, inl, inr, true, List, [], ◌∷◌, ◌++◌, Option,
  some, length, set, get_elem?-append_left, get_elem?-append_length, arith, Bool-cases, Returns,
  if◌then◌else◌, ◌==◌, ==_iff,
}
use ye_cc_server.Fiber.{
  Fiber, Runtime, in_cell, fiber_at, deref, is_idle, new_fiber, reset, entry, init,
}
use ye_cc_server.Fiber.Coherent.{
  IsRuntime, fiber_at-lt, fiber_at-set_self, fiber_at-set_ne, IsRuntime-step, stacked, executes,
}

append_cases :
    (fs : List (Option Fiber)) (f : Fiber) (q : ℕ) (x : Fiber)
    → fiber_at (fs ++ some f ∷ []) q ≡ some x
    → (fiber_at fs q ≡ some x) ⊎ ((q ≡ length fs) × (f ≡ x))
append_cases [] f zero x h = inr (refl, ground (arith, h))
append_cases [] f (suc q) x h = absurd (ground (arith, h))
append_cases (y ∷ fs) f zero x h = inl h
append_cases (y ∷ fs) f (suc q) x h = elim (append_cases fs f q x h) [
  | inl old ↦ inl old
  | inr (eq, is) ↦ inr (ap suc eq, is)
]

-- A fiber that is there is found when another has been made.
append_keeps :
    (fs : List (Option Fiber)) (f : Fiber) (q : ℕ) (x : Fiber)
    → fiber_at fs q ≡ some x
    → fiber_at (fs ++ some f ∷ []) q ≡ some x
append_keeps fs f q x h =
    ap in_cell (get_elem?-append_left fs (some f ∷ []) q (fiber_at-lt fs q x h)) ∙ h

-- Making a fiber in a coherent runtime, with any size of its stack: the runtime stays coherent and every
-- fiber as it was, and the new one is INIT at the head of MainFunc, with the size asked for, or the
-- configured one if that was 0.
pub new_fiber-IsRuntime :
    (m c config_size stack_size : ℕ) (r : Runtime)
    → IsRuntime m c r
    → let (t, p) = new_fiber config_size r stack_size in
      IsRuntime m c t
      × ((q : ℕ) (x : Fiber) → fiber_at r.fibers q ≡ some x → fiber_at t.fibers q ≡ some x)
      × ((f : Fiber) × (fiber_at t.fibers p ≡ some f)
          × (f.state ≡ init)
          × (f.ctx ≡ record { owner = p; point = entry })
          × (f.stack_size ≡ (if stack_size == 0 then config_size else stack_size)))
unfolding new_fiber
new_fiber-IsRuntime m c config_size stack_size r v =
    let made = new_fiber config_size r stack_size in
    (
      record {
        current = v.current;
        at_processor = v.at_processor;
        last_is = v.last_is;
        main_is = (v.main_is.0, append_keeps r.fibers _ m v.main_is.0 v.main_is.1);
        runs = (v.runs.0, append_keeps r.fibers _ c v.runs.0 v.runs.1, v.runs.2);
        each = λ q x h. elim (append_cases r.fibers _ q x h) [
          | inl old ↦ v.each q x old
          | inr (eq, is) ↦ rw eq (
              rw (← is) (record {
                owns = refl;
                one_runs = λ e. absurd (ground (arith, e));
                has_role = inr (
                  (λ e. absurd (omega (arith, e, fiber_at-lt r.fibers m v.main_is.0 v.main_is.1))),
                  refl,
                );
              }))
        ];
      },
      (λ q x h. append_keeps r.fibers _ q x h),
      (_, ap in_cell (get_elem?-append_length r.fibers (some _)), refl, refl, refl),
    )

-- A write to a fiber other than the main one.
put_once :
    (fs : List (Option Fiber)) (m p q : ℕ) (f g : Fiber)
    → p < length fs
    → p ≢ m
    → fiber_at fs m ≡ some g
    → fiber_at (set fs p (some f)) q
      ≡ (if m == q then some g else if p == q then some f else fiber_at fs q)
put_once fs m p q f g hp ne at_m = elim (Bool-cases (m == q)) [
  | inl eq ↦ rw eq (rw (← (==_iff m q).0 eq) (fiber_at-set_ne fs p m (some f) ne ∙ at_m))
  | inr other ↦ rw other (elim (Bool-cases (p == q)) [
    | inl eq ↦ rw eq (rw (← (==_iff p q).0 eq) (fiber_at-set_self fs p (some f) hp))
    | inr differs ↦ rw differs (fiber_at-set_ne fs p q (some f) (λ e. absurd (ground arith)))
  ])
]

-- Resetting a fiber that is INIT, TERM or EXCEP, from the main fiber of a coherent runtime, returns: the
-- fiber is INIT at the head of MainFunc again, with a callback, and the runtime stays coherent.
pub reset-IsRuntime :
    (m p : ℕ) (r : Runtime) (f : Fiber)
    → IsRuntime m m r
    → p ≢ m
    → fiber_at r.fibers p ≡ some f
    → is_idle f.state ≡ true
    → Returns
        (λ t.
          IsRuntime m m t
          × (fiber_at t.fibers p
              ≡ some (record f {
                has_cb = true;
                ctx = record { owner = p; point = entry };
                state = init;
              })))
        (reset r p)
unfolding reset
reset-IsRuntime m p r f v ne at idle =
    let f' : Fiber = record f {
      has_cb = true;
      ctx = record { owner = p; point = entry };
      state = init;
    } in
    let (g, at_m) = v.main_is in
    let stack = stacked p f (v.each p f at) ne in
    let hp = fiber_at-lt r.fibers p f at in
    let t : Runtime = record r { fibers = set r.fibers p (some f') } in
    (
      t,
      rw (at, deref, stack, idle),
      (
        IsRuntime-step m m m p r t f' g v (inr refl) (λ q. put_once r.fibers m p q f' g hp ne at_m)
            v.current v.at_processor v.last_is ne
            (record {
              owns = refl;
              one_runs = λ e. absurd (ground (arith, e));
              has_role = inr (ne, stack);
            })
            (v.each m g at_m) (inr (refl, executes g (v.each m g at_m))),
        fiber_at-set_self r.fibers p (some f') hp,
      ),
    )
