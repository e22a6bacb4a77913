-- ===== src/Fiber/Destroyed.antt =====
-- Fibers of src/fiber.cpp that are destroyed between runs.
use ye_cc_server.Prelude.{
  ℕ, ◌≡◌, ◌≢◌, refl, sym, ◌∙◌, ap, inl, inr, none, some, ok, ok_inj, ◌<◌, length, set, ◌==◌, ==_iff,
  arith, Bool-cases, Option-cases, ◌+◌, ◌-◌, ◌^◌,
}
use ye_cc_server.Fiber.{Runtime, deref, wrap, fiber_at, is_idle, destroy}
use ye_cc_server.Fiber.Coherent.{
  IsRuntime, fiber_at-lt, fiber_at-set_self, fiber_at-set_ne, stacked,
}

-- The thread without the fiber at `p`.
abbrev pub freed : Runtime → ℕ → Runtime
freed r p = record r {
  fibers = set r.fibers p none;
  fiber_count = wrap (r.fiber_count + (2 ^ 64 - 1));
}

-- The destructor of a fiber other than the main one returns only where the fiber does not execute.
pub destroy-freed :
    (m c p : ℕ) (r t : Runtime)
    → IsRuntime m c r
    → p ≢ m
    → destroy r p ≡ ok t
    → (p < length r.fibers) × (c ≢ p) × (t ≡ freed r p)
unfolding destroy
destroy-freed m c p r t v ne e = elim (Option-cases (fiber_at r.fibers p)) [
  | inl missing ↦ absurd (ground (arith, missing, e))
  | inr (f, at) ↦
      let stack = stacked p f (v.each p f at) ne in
      elim (Bool-cases (is_idle f.state)) [
        | inr busy ↦ absurd (ground (arith, at, stack, busy, e))
        | inl idle ↦ (
          fiber_at-lt r.fibers p f at,
          (λ same. absurd (ground (arith, at, idle, same, v.runs.1, v.runs.2))),
          ok_inj (sym e ∙ rw (deref, at, stack, idle) refl),
        )
      ]
]

-- What is left without a fiber that neither is the main one nor executes is coherent.
pub freed-IsRuntime :
    (m c p : ℕ) (r : Runtime)
    → IsRuntime m c r
    → p ≢ m
    → p < length r.fibers
    → c ≢ p
    → IsRuntime m c (freed r p)
freed-IsRuntime m c p r v ne hp apart = record {
  current = v.current;
  at_processor = v.at_processor;
  last_is = v.last_is;
  main_is = (v.main_is.0, fiber_at-set_ne r.fibers p m none ne ∙ v.main_is.1);
  runs = (
    v.runs.0,
    fiber_at-set_ne r.fibers p c none (λ e. absurd (apart (sym e))) ∙ v.runs.1,
    v.runs.2,
  );
  each = λ q x h. elim (Bool-cases (p == q)) [
    | inl eq ↦
        let same : p ≡ q = (==_iff p q).0 eq in
        let gone : none ≡ some x =
          sym (fiber_at-set_self r.fibers p none hp)
          ∙ (ap (fiber_at (set r.fibers p none)) same ∙ h) in
        absurd (ground (arith, gone))
    | inr differs ↦
        v.each q x
          (sym (fiber_at-set_ne r.fibers p q none (λ e. absurd (ground (arith, differs, e)))) ∙ h)
  ];
}
