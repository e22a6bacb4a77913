-- ===== src/Log/Formatter/Parse.antt =====
-- The first half of LogFormatter::init: the loop that splits a pattern into the entries of
-- `parse_tab`. Indices are kept as in the source; the pattern is shorter than 2^31 bytes, so that
-- they fit an `int`.
use ye_cc_server.Prelude.{
  ℕ, zero, suc, ◌+◌, true, false, ◌||◌, not, List, [], ◌∷◌, ◌++◌, ltb, leb, ◌==◌, if◌then◌else◌,
  length, get_or, Outcome, ok, out_of_fuel, ◌>>=◌, Bytes, codes, size_diff, substr,
}

-- std::tuple<std::string, std::string, int>: the text or the code, the text in braces, and 1 for a
-- code, 0 for plain text.
pub record Entry : Type 0 where
  pub code_str : Bytes
  pub detail : Bytes
  pub kind : ℕ

abbrev pub text : Bytes → Entry
text s = record { code_str = s; detail = []; kind = 0 }

abbrev pub code : ℕ → Bytes → Entry
code c detail = record { code_str = c ∷ []; detail = detail; kind = 1 }

-- `operator[]` of a string, which reads 0 at the end.
abbrev pub byte_at : Bytes → ℕ → ℕ
byte_at p i = get_or p i 0

-- while(idx<len && m_pattern[idx]!='}') idx++;
unfoldable pub find_close : ℕ → Bytes → ℕ → ℕ
find_close zero p idx = idx
find_close (suc fuel) p idx = elim (ltb idx (length p)) [
  | false ↦ idx
  | true ↦ elim (byte_at p idx == b'}') [ true ↦ idx | false ↦ find_close fuel p (idx + 1) ]
]

-- The variables of the loop: `i`, `last_idx` and `parse_tab`.
pub record Cursor : Type 0 where
  pub i : ℕ
  pub last_idx : ℕ
  pub parse_tab : List Entry

-- if(last_idx != i) parse_tab.push_back(substr(last_idx, i-last_idx))
unfoldable pub push_text : Bytes → ℕ → ℕ → List Entry → Outcome (List Entry)
push_text p last_idx upto tab =
    if last_idx == upto
    then ok tab
    else substr p last_idx (size_diff upto last_idx) >>= λ s. ok (tab ++ text s ∷ [])

-- The part of the body that reads a code in front of '{': `last` is `last_idx`, which is `i+2`.
unfoldable pub read_detail : Bytes → ℕ → ℕ → List Entry → Outcome Cursor
read_detail p i last tab =
    let idx = find_close (length p) p (i + 3) in
    if leb (length p) idx
    then ok (record { i = i; last_idx = last; parse_tab = tab })
    else (substr p (last + 1) (size_diff idx (last + 1)) >>= λ s. ok (record {
      i = idx;
      last_idx = idx + 1;
      parse_tab = tab ++ code (byte_at p (i + 1)) s ∷ [];
    }))

-- The part of the body behind `last_idx = i+2`.
unfoldable pub read_code : Bytes → ℕ → List Entry → Outcome Cursor
unfolding read_detail
read_code p i tab =
    if byte_at p (i + 1) == b'%'
    then ok (record { i = i; last_idx = i + 2; parse_tab = tab ++ text (codes "%") ∷ [] })
    else if leb (length p) (i + 2) || not (byte_at p (i + 2) == b'{')
    then ok
        (record { i = i; last_idx = i + 2; parse_tab = tab ++ code (byte_at p (i + 1)) [] ∷ [] })
    else read_detail p i (i + 2) tab

-- The body of the loop; every `continue` returns.
unfoldable pub scan_body : Bytes → Cursor → Outcome Cursor
unfolding read_code push_text
scan_body p c =
    if byte_at p c.i == b'%'
    then (push_text p c.last_idx c.i c.parse_tab >>= λ tab.
        if leb (length p) (c.i + 1) then ok (record c { parse_tab = tab }) else read_code p c.i tab)
    else ok c

-- for(int i = 0; i<len; i++)
unfoldable pub scan : ℕ → Bytes → Cursor → Outcome Cursor
scan zero p c = out_of_fuel
scan (suc fuel) p c = elim (ltb c.i (length p)) [
  | false ↦ ok c
  | true ↦ scan_body p c >>= λ d. scan fuel p (record d { i = d.i + 1 })
]

abbrev pub start : Cursor
start = record { i = 0; last_idx = 0; parse_tab = [] }

-- The loop and the push of what is left behind it, from a cursor on.
unfoldable pub parse_from : ℕ → Bytes → Cursor → Outcome (List Entry)
unfolding scan push_text
parse_from fuel p c = scan fuel p c >>= λ d. push_text p d.last_idx (length p) d.parse_tab

-- LogFormatter::init up to the static table. Each round moves `i`, so `length p + 1` rounds do.
unfoldable pub parse : Bytes → Outcome (List Entry)
unfolding parse_from
parse p = parse_from (length p + 1) p start
