-- ===== src/Util/Traces.antt =====
-- The backtrace of src/util.cpp.
use ye_cc_server.Prelude.{
  ℕ, zero, suc, ◌+◌, ◌-◌, ◌≤◌, ◌≡◌, refl, sym, ◌∙◌, ap, ◌⊎◌, inl, inr, List, [], ◌∷◌, ◌++◌,
  append_assoc, append-nil, none, some, Outcome, ok, ◌>>=◌, Bytes, length, get_elem?,
  get_elem?-some, take, drop, map, arith, Returns, Option-cases, Bool-cases, ltb,
}
use ye_cc_server.Util.{
  Tracer, array, deref, push_strs, back_trace, unwritten, lines, back_trace_to_string,
}

-- The entries from `i` on, so many of them.
abbrev pub slice : List Bytes → ℕ → ℕ → List Bytes
slice strs i left = take left (drop i strs)

slice-suc :
    (strs : List Bytes) (i left : ℕ) (str : Bytes)
    → get_elem? strs i ≡ some str
    → slice strs i (suc left) ≡ str ∷ slice strs (suc i) left
slice-suc [] i left str h = absurd (ground (arith, h))
slice-suc (s ∷ strs) zero left str h = let same : s ≡ str = ground (arith, h) in rw same refl
slice-suc (s ∷ strs) (suc i) left str h = slice-suc strs i left str h

push_strs-slice :
    (strs : List Bytes) (left i : ℕ) (bt : List Bytes)
    → (left ≡ 0) ⊎ (i + left ≤ length strs)
    → push_strs strs left i bt ≡ ok (bt ++ slice strs i left)
unfolding push_strs
push_strs-slice strs zero i bt h = ap ok (sym (append-nil bt))
push_strs-slice strs (suc left) i bt (inl e) = absurd (omega (arith, e))
push_strs-slice strs (suc left) i bt (inr h) =
    let (str, found) = get_elem?-some strs i (omega (arith, h)) in
    let next : push_strs strs left (suc i) (bt ++ str ∷ [])
        ≡ ok ((bt ++ str ∷ []) ++ slice strs (suc i) left) =
      push_strs-slice strs left (suc i) (bt ++ str ∷ []) (inr (omega (arith, h))) in
    let one : deref strs i ≡ ok str = rw (deref, found) refl in
    let step : i + 1 ≡ suc i = omega arith in
    ap (λ r. r >>= λ x. push_strs strs left (i + 1) (bt ++ x ∷ [])) one
    ∙ ap (λ j. push_strs strs left j (bt ++ str ∷ [])) step
    ∙ next
    ∙ ap ok (append_assoc bt (str ∷ []) (slice strs (suc i) left))
    ∙ ap (λ ys. ok (bt ++ ys)) (sym (slice-suc strs i left str found))

-- What backtrace_symbols promises for an array in which backtrace wrote every entry: a string for each of them,
-- if there are any. It promises nothing for entries that were not written.
pub record IsTracer (t : Tracer) : Type 0 where
  pub strings :
      (frames : List ℕ) (strs : List Bytes)
      → t.symbols (map some frames) ≡ some strs
      → length strs ≡ length frames

-- The array that backtrace filled.
full_array :
    (frames : List ℕ) (size : ℕ) → length frames ≡ size → array frames size ≡ map some frames
full_array frames size full =
    let nothing_left : size - length frames ≡ 0 = omega (arith, full) in
    ap (λ n. map some frames ++ unwritten n) nothing_left ∙ append-nil (map some frames)

-- The strings of the frames behind the skipped ones, and the blocks in use; or none and a block that is lost.
abbrev pub Traced : Tracer → ℕ → ℕ → Bytes → ℕ → Bytes × ℕ → Type 0
Traced t size skip prefix live r =
    let s = length (t.backtrace size) in
    ((t.symbols (array (t.backtrace size) size) ≡ none) × (r ≡ ([], live + 1)))
    ⊎ ((strs : List Bytes) × (t.symbols (array (t.backtrace size) size) ≡ some strs)
        × (r ≡ (lines prefix (slice strs skip (s - skip)), live)))

-- The loop's bound is the strings' number, or it makes no round.
slice_bound : (s size skip n : ℕ) → s ≤ size → size ≤ n → (s - skip ≡ 0) ⊎ (skip + (s - skip) ≤ n)
slice_bound s size skip n h k = elim (Bool-cases (ltb s skip)) [
  | inl behind ↦ inl (ground (arith, behind))
  | inr within ↦ let le : skip ≤ s = ground (arith, within) in inr (omega (arith, le, h, k))
]

back_trace-some :
    (t : Tracer) (size skip live : ℕ) (strs : List Bytes)
    → IsTracer t
    → length (t.backtrace size) ≡ size
    → t.symbols (array (t.backtrace size) size) ≡ some strs
    → back_trace t [] size skip live ≡ ok (slice strs skip (length (t.backtrace size) - skip), live)
unfolding back_trace
back_trace-some t size skip live strs h full there =
    let s = length (t.backtrace size) in
    let given : t.symbols (map some (t.backtrace size)) ≡ some strs =
      ap t.symbols (sym (full_array (t.backtrace size) size full)) ∙ there in
    let enough : length strs ≡ length (t.backtrace size) =
      h.strings (t.backtrace size) strs given in
    let pushed =
      push_strs-slice strs (s - skip) skip [] (
        slice_bound s size skip (length strs) (omega (arith, full))
          (omega (arith, full, enough))) in
    let kept : live + 2 - 2 ≡ live = omega arith in
    rw (back_trace, there)
      (ap (λ r. r >>= λ new. ok (new, live + 2 - 2)) pushed
        ∙ ap (λ n. ok (slice strs skip (s - skip), n)) kept)

-- With a library that keeps its promises, where the stack is so deep that backtrace fills the whole array, and
-- for a `skip` that is not negative, BackTraceToString reads no string behind the last one. It returns the strings of the frames behind the first `skip`, each on a line behind the
-- prefix, with as many blocks of memory in use as before; or, where the symbols are not to be had, an empty
-- text, with one block more in use.
pub back_trace_to_string-Traced :
    (t : Tracer) (size skip : ℕ) (prefix : Bytes) (live : ℕ)
    → IsTracer t
    → length (t.backtrace size) ≡ size
    → Returns (Traced t size skip prefix live) (back_trace_to_string t size skip prefix live)
unfolding back_trace_to_string back_trace
back_trace_to_string-Traced t size skip prefix live h full =
    let written : List Bytes × ℕ → Outcome (Bytes × ℕ) = λ r. ok (lines prefix r.0, r.1) in
    elim (Option-cases (t.symbols (array (t.backtrace size) size))) [
      | inl nothing ↦
          let lost : back_trace t [] size skip live ≡ ok ([], live + 1) =
            rw (back_trace, nothing) refl in
          (([], live + 1), ap (λ r. r >>= written) lost, inl (nothing, refl))
      | inr (strs, there) ↦ (
        (lines prefix (slice strs skip (length (t.backtrace size) - skip)), live),
        ap (λ r. r >>= written) (back_trace-some t size skip live strs h full there),
        inr (strs, there, refl),
      )
    ]
