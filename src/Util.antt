-- ===== src/Util.antt =====
-- include/util.hpp and src/util.cpp: the fiber's number in a log event, and the backtrace that a failed
-- assertion prints. backtrace and backtrace_symbols of the C library are parameters. `live` counts the blocks of
-- memory in use.
pub mod Traces
use ye_cc_server.Prelude.{
  ℕ, zero, suc, ◌+◌, ◌-◌, ◌%◌, ◌^◌, Bool, true, false, List, [], ◌∷◌, ◌++◌, map, Option, none, some,
  Outcome, ok, fault, ◌>>=◌, Bytes, codes, length, get_elem?,
}
use ye_cc_server.Fiber.{Runtime, get_cur_fiber_id}

-- GetFiberId: the conversion from uint64_t to uint32_t.
unfoldable pub get_fiber_id : Runtime → ℕ
unfolding get_cur_fiber_id
get_fiber_id r = get_cur_fiber_id r % 2 ^ 32

-- backtrace(arr, size) writes its answer to the front of `arr`; backtrace_symbols(arr, size) reads all of
-- `arr`, `none` where nothing was written, and allocates its answer, or answers a null pointer.
pub record Tracer : Type 0 where
  pub backtrace : ℕ → List ℕ
  pub symbols : List (Option ℕ) → Option (List Bytes)

abbrev pub unwritten : ℕ → List (Option ℕ)
unwritten zero = []
unwritten (suc n) = none ∷ unwritten n

-- The array of `size` entries behind backtrace.
abbrev pub array : List ℕ → ℕ → List (Option ℕ)
array frames size = map some frames ++ unwritten (size - length frames)

abbrev pub deref : List Bytes → ℕ → Outcome Bytes
deref strs i = elim (get_elem? strs i) [ none ↦ fault | some s ↦ ok s ]

-- for(int i = skip; i<s; i++) bt.push_back(strs[i]), from `i` on with `left` rounds to go.
unfoldable pub push_strs : List Bytes → ℕ → ℕ → List Bytes → Outcome (List Bytes)
push_strs strs zero i bt = ok bt
push_strs strs (suc left) i bt =
    deref strs i >>= λ str. push_strs strs left (i + 1) (bt ++ str ∷ [])

-- BackTrace, for a `skip` that is not negative: the vector, and the blocks in use.
unfoldable pub back_trace : Tracer → List Bytes → ℕ → ℕ → ℕ → Outcome (List Bytes × ℕ)
unfolding push_strs
back_trace t bt size skip live =
    let frames = t.backtrace size in
    let s = length frames in
    elim (t.symbols (array frames size)) [
      | none ↦ ok (bt, live + 1)
      | some strs ↦ push_strs strs (s - skip) skip bt >>= λ new. ok (new, live + 2 - 2)
    ]

-- The loop of BackTraceToString.
abbrev pub lines : Bytes → List Bytes → Bytes
lines prefix [] = []
lines prefix (str ∷ strs) = (prefix ++ str) ++ codes "\n" ++ lines prefix strs

-- BackTraceToString.
unfoldable pub back_trace_to_string : Tracer → ℕ → ℕ → Bytes → ℕ → Outcome (Bytes × ℕ)
unfolding back_trace
back_trace_to_string t size skip prefix live =
    back_trace t [] size skip live >>= λ r. ok (lines prefix r.0, r.1)
