-- ===== src/Fiber/Coherent.antt =====
-- The invariant of the fibers of a thread whose main fiber alone swaps others in (src/fiber.cpp).
use ye_cc_server.Prelude.{
  ℕ, ◌<◌, ◌≡◌, ◌≢◌, refl, ◌∙◌, ap, ◌⊎◌, inl, inr, true, false, List, ◌==◌, ==_iff, if◌then◌else◌,
  Option, some, length, length-set, get_elem?, get_elem?-lt, set, get_elem?-set_self,
  get_elem?-set_ne, arith, Bool-cases, Option-cases,
}
use ye_cc_server.Fiber.{Fiber, Runtime, in_cell, fiber_at, is_exec, exec}

pub fiber_at-lt :
    (fs : List (Option Fiber)) (p : ℕ) (f : Fiber) → fiber_at fs p ≡ some f → p < length fs
fiber_at-lt fs p f h = elim (Option-cases (get_elem? fs p)) [
  | inl missing ↦ absurd (ground arith)
  | inr (cell, at) ↦ get_elem?-lt fs p cell at
]

pub fiber_at-set_self :
    (fs : List (Option Fiber)) (p : ℕ) (c : Option Fiber)
    → p < length fs
    → fiber_at (set fs p c) p ≡ c
fiber_at-set_self fs p c h = ap in_cell (get_elem?-set_self fs p c h)

pub fiber_at-set_ne :
    (fs : List (Option Fiber)) (p q : ℕ) (c : Option Fiber)
    → p ≢ q
    → fiber_at (set fs p c) q ≡ fiber_at fs q
fiber_at-set_ne fs p q c h = ap in_cell (get_elem?-set_ne fs p q c h)

-- A live fiber at `p`, while `c` is the current one and `m` the main one.
pub record IsFiber (m c p : ℕ) (f : Fiber) : Type 0 where
  pub owns : f.ctx.owner ≡ p
  pub one_runs : is_exec f.state ≡ true → (p ≡ m) ⊎ (p ≡ c)
  pub has_role :
      ((p ≡ m) × (f.state ≡ exec) × (f.has_stack ≡ false)) ⊎ ((p ≢ m) × (f.has_stack ≡ true))

-- `m` is the main fiber: it executes all the time; of the others only the current one may, and each
-- saved context is of its own fiber's flow.
pub record IsRuntime (m c : ℕ) (r : Runtime) : Type 0 where
  pub current : r.cur ≡ some c
  pub at_processor : r.running.owner ≡ c
  pub last_is : r.last ≡ some m
  pub main_is : (f : Fiber) × (fiber_at r.fibers m ≡ some f)
  pub runs : (f : Fiber) × (fiber_at r.fibers c ≡ some f) × (f.state ≡ exec)
  pub each : (p : ℕ) (f : Fiber) → fiber_at r.fibers p ≡ some f → IsFiber m c p f

-- Two writes, to different fibers.
pub put_twice :
    (fs : List (Option Fiber)) (p m q : ℕ) (f g : Fiber)
    → p < length fs
    → m < length fs
    → fiber_at (set (set fs p (some f)) m (some g)) q
      ≡ (if m == q then some g else if p == q then some f else fiber_at fs q)
put_twice fs p m q f g hp hm = elim (Bool-cases (m == q)) [
  | inl eq ↦ rw eq (
      rw (← (==_iff m q).0 eq) (
        fiber_at-set_self (set fs p (some f)) m (some g) (omega (arith, length-set fs p (some f)))))
  | inr ne ↦ rw ne (
      fiber_at-set_ne (set fs p (some f)) m q (some g) (λ e. absurd (ground arith))
      ∙ elim (Bool-cases (p == q)) [
        | inl eq ↦ rw eq (rw (← (==_iff p q).0 eq) (fiber_at-set_self fs p (some f) hp))
        | inr differs ↦ rw differs (fiber_at-set_ne fs p q (some f) (λ e. absurd (ground arith)))
      ])
]

-- What two steps have in common: `p` and the main fiber are written, or the main fiber is as before.
pub IsRuntime-step :
    (m c d p : ℕ) (r t : Runtime) (f g : Fiber)
    → IsRuntime m c r
    → (c ≡ p) ⊎ (c ≡ m)
    → ((q : ℕ)
        → fiber_at t.fibers q
          ≡ (if m == q then some g else if p == q then some f else fiber_at r.fibers q))
    → t.cur ≡ some d
    → t.running.owner ≡ d
    → t.last ≡ some m
    → p ≢ m
    → IsFiber m d p f
    → IsFiber m d m g
    → ((d ≡ p) × (f.state ≡ exec)) ⊎ ((d ≡ m) × (g.state ≡ exec))
    → IsRuntime m d t
IsRuntime-step m c d p r t f g v from reads cur running last ne of_p of_m at_d = record {
  current = cur;
  at_processor = running;
  last_is = last;
  main_is = (g, at_main);
  runs = elim at_d [
    | inl (eq, state) ↦ (f, rw eq at_p, state)
    | inr (eq, state) ↦ (g, rw eq at_main, state)
  ];
  each = λ q x h. elim (Bool-cases (m == q)) [
    | inl eq ↦ let is : g ≡ x = ground (arith, reads q) in rw (← (==_iff m q).0 eq) (rw is at of_m)
    | inr other ↦ elim (Bool-cases (p == q)) [
      | inl eq ↦
          let is : f ≡ x = ground (arith, reads q) in rw (← (==_iff p q).0 eq) (rw is at of_p)
      | inr differs ↦
          let old = v.each q x (ground (arith, reads q)) in
          record {
            owns = old.owns;
            one_runs = λ e. elim (old.one_runs e) [
              | inl is_main ↦ inl is_main
              | inr is_current ↦ absurd (ground (arith, from, other, differs))
            ];
            has_role = old.has_role;
          }
    ]
  ];
}
  where
    at_main : fiber_at t.fibers m ≡ some g
    at_main = rw (reads m) (rw ((==_iff m m).1 refl))

    at_p : fiber_at t.fibers p ≡ some f
    at_p = reads p ∙ ground (arith, (==_iff p p).1 refl)

pub stacked : {m c : ℕ} (p : ℕ) (f : Fiber) → IsFiber m c p f → p ≢ m → f.has_stack ≡ true
stacked p f v ne = elim v.has_role [ inl (eq, _, _) ↦ absurd (ne eq) | inr (_, stack) ↦ stack ]

pub executes : {m c : ℕ} (f : Fiber) → IsFiber m c m f → f.state ≡ exec
executes f v = elim v.has_role [ inl (_, state, _) ↦ state | inr (ne, _) ↦ absurd (ne refl) ]
