-- ===== src/Fiber/Steps.antt =====
-- The runs of a thread's fibers of src/fiber.cpp, as a relation of steps: what a program does that swaps
-- fibers in from the main fiber only.
use mathlib.Core.Path.{subst}
use ye_cc_server.Prelude.{
  ℕ, ◌≡◌, ◌≢◌, sym, ◌∙◌, ap, inl, inr, Bool, true, false, some, Outcome, ok, arith, Bool-cases,
  Option-cases, ok_inj,
}
use ye_cc_server.Fiber.{
  Fiber, Runtime, fiber_at, is_exec, is_idle, new_fiber, swap_in, yield_to_ready, yield_to_hold,
  main_func_end, reset, destroy,
}
use ye_cc_server.Fiber.Coherent.{IsRuntime, stacked}
use ye_cc_server.Fiber.Runs.{swap_in-Resumes, leave-Leaves}
use ye_cc_server.Fiber.Made.{new_fiber-IsRuntime, reset-IsRuntime}
use ye_cc_server.Fiber.Destroyed.{destroy-freed, freed-IsRuntime}

-- One call that returns: anyone makes a fiber and destroys one that is not the main one, the main fiber `m` swaps others in and resets them, and
-- the others yield or end.
pub data Step (m : ℕ) : Runtime → Runtime → Type 0 where
  makes :
      {r : Runtime} (config_size stack_size : ℕ) → Step m r (new_fiber config_size r stack_size).0
  destroys : {r t : Runtime} (p : ℕ) → p ≢ m → destroy r p ≡ ok t → Step m r t
  resumes : {r t : Runtime} (p : ℕ) → r.cur ≡ some m → p ≢ m → swap_in r p ≡ ok t → Step m r t
  resets : {r t : Runtime} (p : ℕ) → r.cur ≡ some m → p ≢ m → reset r p ≡ ok t → Step m r t
  readies : {r t : Runtime} → r.cur ≢ some m → yield_to_ready r ≡ ok t → Step m r t
  holds : {r t : Runtime} → r.cur ≢ some m → yield_to_hold r ≡ ok t → Step m r t
  ends :
      {r t : Runtime} (returned : Bool)
      → r.cur ≢ some m
      → main_func_end returned r ≡ ok t
      → Step m r t

pub data Reach (m : ℕ) (r : Runtime) : Runtime → Type 0 where
  here : Reach m r r
  next : {s t : Runtime} → Reach m r s → Step m s t → Reach m r t

abbrev pub IsCoherent : ℕ → Runtime → Type 0
IsCoherent m r = (c : ℕ) × IsRuntime m c r

-- The runtime that a call returns is the one that it was shown to return.
same_result :
    {m d : ℕ} {s t : Runtime} (x : Outcome Runtime)
    → x ≡ ok s
    → x ≡ ok t
    → IsRuntime m d s
    → IsCoherent m t
same_result {m} {d} x a b v = (d, subst (IsRuntime m d) (ok_inj (sym a ∙ b)) v)

module _ {m c : ℕ} {r : Runtime} (v : IsRuntime m c r) where
  from_main : r.cur ≡ some m → IsRuntime m m r
  from_main at = let e : c ≡ m = ground (arith, v.current, at) in subst (λ x. IsRuntime m x r) e v

  resumes-IsCoherent :
      {t : Runtime} (p : ℕ) → r.cur ≡ some m → p ≢ m → swap_in r p ≡ ok t → IsCoherent m t
  unfolding swap_in
  resumes-IsCoherent {t} p at ne e = elim (Option-cases (fiber_at r.fibers p)) [
    | inl missing ↦ absurd (ground (arith, missing, e))
    | inr (f, found) ↦ elim (Bool-cases (is_exec f.state)) [
      | inl busy ↦ absurd (ground (arith, found, busy, e))
      | inr idle ↦
          let (s, done, (w, _, _)) = swap_in-Resumes m r p f (from_main at) ne found idle in
          same_result (swap_in r p) done e w
    ]
  ]

  resets-IsCoherent :
      {t : Runtime} (p : ℕ) → r.cur ≡ some m → p ≢ m → reset r p ≡ ok t → IsCoherent m t
  unfolding reset
  resets-IsCoherent {t} p at ne e = elim (Option-cases (fiber_at r.fibers p)) [
    | inl missing ↦ absurd (ground (arith, missing, e))
    | inr (f, found) ↦ elim (Bool-cases (is_idle f.state)) [
      | inl idle ↦
          let (s, done, (w, _)) = reset-IsRuntime m p r f (from_main at) ne found idle in
          same_result (reset r p) done e w
      | inr busy ↦ absurd (ground (arith, found, busy, e, stacked p f (v.each p f found) ne))
    ]
  ]

  -- The four ways to leave, from a fiber that is not the main one.
  leaving : r.cur ≢ some m → (g : Fiber) × (c ≢ m) × (fiber_at r.fibers m ≡ some g)
  leaving other = (v.main_is.0, (λ e. other (v.current ∙ ap some e)), v.main_is.1)

pub Step-IsCoherent : {m : ℕ} {r t : Runtime} → Step m r t → IsCoherent m r → IsCoherent m t
Step-IsCoherent {m} (makes {r} config_size stack_size) (c, v) =
    (c, (new_fiber-IsRuntime m c config_size stack_size r v).0)
Step-IsCoherent {m} (destroys {r} {t} p ne e) (c, v) =
    let (inside, apart, is) = destroy-freed m c p r t v ne e in
    (c, subst (IsRuntime m c) (sym is) (freed-IsRuntime m c p r v ne inside apart))
Step-IsCoherent (resumes p at ne e) (c, v) = resumes-IsCoherent v p at ne e
Step-IsCoherent (resets p at ne e) (c, v) = resets-IsCoherent v p at ne e
Step-IsCoherent {m} (readies {r} other e) (c, v) =
    let (g, ne, at) = leaving v other in
    let (way, _, _, _) = leave-Leaves m r c g v ne at in
    let (s, done, (w, _, _)) = way in same_result (yield_to_ready r) done e w
Step-IsCoherent {m} (holds {r} other e) (c, v) =
    let (g, ne, at) = leaving v other in
    let (_, way, _, _) = leave-Leaves m r c g v ne at in
    let (s, done, (w, _, _)) = way in same_result (yield_to_hold r) done e w
Step-IsCoherent {m} (ends {r} true other e) (c, v) =
    let (g, ne, at) = leaving v other in
    let (_, _, way, _) = leave-Leaves m r c g v ne at in
    let (s, done, (w, _, _)) = way in same_result (main_func_end true r) done e w
Step-IsCoherent {m} (ends {r} false other e) (c, v) =
    let (g, ne, at) = leaving v other in
    let (_, _, _, way) = leave-Leaves m r c g v ne at in
    let (s, done, (w, _, _)) = way in same_result (main_func_end false r) done e w

-- From a coherent runtime every run, of any length, in which only the main fiber swaps in and resets, the
-- other fibers yield or end, and the main fiber is not destroyed, leaves the runtime coherent: one fiber at most executes beside the
-- main one, it is the current one, and each context resumes its own fiber.
pub Reach-IsCoherent : (m : ℕ) (r t : Runtime) → IsCoherent m r → Reach m r t → IsCoherent m t
Reach-IsCoherent m r t v here = v
Reach-IsCoherent m r t v (next {s} run step) = Step-IsCoherent step (Reach-IsCoherent m r s v run)
