-- ===== src/Log/Formatter/Rounds.antt =====
-- LogFormatter::init of src/log.cpp: one round of the loop, at a position given by the text in front
-- of it.
use ye_cc_server.Prelude.{
  ℕ, suc, ◌+◌, ◌≤◌, ◌<◌, ◌≡◌, ◌≢◌, refl, sym, ◌∙◌, ap, Bool, true, false, List, [], ◌∷◌, ◌++◌,
  arith, ltb, leb, ◌==◌, if◌then◌else◌, length, length-append, append_assoc, ok, Bytes, codes,
  size_diff, size_diff-le, substr,
}
use ye_cc_server.Log.Formatter.Parse.{
  Entry, text, code, byte_at, find_close, Cursor, push_text, read_detail, read_code, scan_body,
  scan, parse_from,
}
use ye_cc_server.Log.Formatter.Positions.{
  Lacks, int_max, byte_at_split, length_split, substr_split, pending, push_text_split,
  find_close_split, find_close_missing,
}

-- The text begins with an opening brace.
abbrev pub opens : Bytes → Bool
opens [] = false
opens (x ∷ s) = x == b'{'

abbrev pub cursor : ℕ → ℕ → List Entry → Cursor
cursor i last tab = record { i = i; last_idx = last; parse_tab = tab }

-- A round that returns `d` goes on behind it.
pub parse_from_round :
    (p : Bytes) (fuel : ℕ) (c d : Cursor)
    → c.i < length p
    → scan_body p c ≡ ok d
    → parse_from (suc fuel) p c ≡ parse_from fuel p (record d { i = d.i + 1 })
unfolding parse_from scan
parse_from_round p fuel c d h e =
    let inside : ltb c.i (length p) ≡ true = ground arith in rw (inside, scan, e)

-- At the end of the pattern what is left is pushed.
pub parse_from_end :
    (p : Bytes) (fuel : ℕ) (c : Cursor)
    → length p ≤ c.i
    → parse_from (suc fuel) p c ≡ push_text p c.last_idx (length p) c.parse_tab
unfolding parse_from scan
parse_from_end p fuel c h =
    let outside : ltb c.i (length p) ≡ false = ground arith in rw (outside, scan)

module _ {p : Bytes} where
  -- A byte other than '%' is passed over.
  pub parse_from_plain :
      (x : ℕ) (pre suf : Bytes) (fuel i last : ℕ) (tab : List Entry)
      → p ≡ pre ++ x ∷ suf
      → i ≡ length pre
      → x ≢ b'%'
      → parse_from (suc fuel) p (cursor i last tab) ≡ parse_from fuel p (cursor (i + 1) last tab)
  unfolding scan_body
  parse_from_plain x pre suf fuel i last tab e h n =
      parse_from_round p fuel (cursor i last tab) (cursor i last tab)
        (omega (arith, length_split {p = p} pre (x ∷ suf) e))
        (ground (arith, byte_at_split {p = p} pre x suf i e h))

  pub parse_from_text :
      (s pre suf : Bytes) (fuel i last : ℕ) (tab : List Entry)
      → p ≡ pre ++ (s ++ suf)
      → i ≡ length pre
      → Lacks b'%' s
      → parse_from (length s + fuel) p (cursor i last tab)
        ≡ parse_from fuel p (cursor (i + length s) last tab)
  parse_from_text [] pre suf fuel i last tab e h n = ground (arith)
  parse_from_text (x ∷ s) pre suf fuel i last tab e h n =
      let next : length (x ∷ s) + fuel ≡ suc (length s + fuel) = omega arith in
      rw next (
        parse_from_plain x pre (s ++ suf) (length s + fuel) i last tab e h n.0
        ∙ parse_from_text s (pre ++ x ∷ []) suf fuel (i + 1) last tab
            (e ∙ sym (append_assoc pre (x ∷ []) (s ++ suf)))
            (omega (arith, length-append pre (x ∷ []))) n.1
        ∙ ap (λ (k : ℕ). parse_from fuel p (cursor k last tab)) (omega arith))

-- A '%' behind the pending text `s`, which starts at `last`.
module _ {p : Bytes} (pre s rest : Bytes) (i last : ℕ) (tab : List Entry)
    (split : p ≡ pre ++ (s ++ b'%' ∷ rest)) (at : i ≡ length pre + length s)
    (from : last ≡ length pre) (fits : length p < int_max) where
  at_split :
      (x : ℕ) (suf : Bytes) (mid : Bytes) (k : ℕ)
      → b'%' ∷ rest ≡ mid ++ x ∷ suf
      → k ≡ i + length mid
      → byte_at p k ≡ x
  at_split x suf mid k e h =
      byte_at_split {p = p} (pre ++ (s ++ mid)) x suf k
        (split ∙ ap (λ (t : Bytes). pre ++ (s ++ t)) e ∙ simp append_assoc)
        (omega (arith, length-append pre (s ++ mid), length-append s mid))

  total : length p ≡ i + suc (length rest)
  total =
      omega
        (arith, length_split {p = p} pre (s ++ b'%' ∷ rest) split, length-append s (b'%' ∷ rest))

  pub percent_round : scan_body p (cursor i last tab) ≡ (
      if leb (length p) (i + 1)
      then ok (cursor i last (tab ++ pending s))
      else read_code p i (tab ++ pending s))
  unfolding scan_body
  percent_round =
      let here : (byte_at p i == b'%') ≡ true =
        ground (arith, at_split b'%' rest [] i refl (omega arith)) in
      rw (here, push_text_split {p = p} pre s (b'%' ∷ rest) last i tab split from at fits)

  -- '%' at the end of the pattern.
  pub trailing_round :
      rest ≡ [] → scan_body p (cursor i last tab) ≡ ok (cursor i last (tab ++ pending s))
  trailing_round e =
      let over : leb (length p) (i + 1) ≡ true = ground (arith, total, ap length e) in
      rw percent_round (rw over)

  code_follows :
      (c : ℕ) (suf : Bytes)
      → rest ≡ c ∷ suf
      → (scan_body p (cursor i last tab) ≡ read_code p i (tab ++ pending s))
        × (byte_at p (i + 1) ≡ c)
  code_follows c suf e =
      let inside : leb (length p) (i + 1) ≡ false = ground (arith, total, ap length e) in
      (
        rw percent_round (rw inside),
        at_split c suf (b'%' ∷ []) (i + 1) (ap (◌∷◌ b'%') e) (omega arith),
      )

  -- "%%".
  pub double_round :
      (suf : Bytes)
      → rest ≡ b'%' ∷ suf
      → scan_body p (cursor i last tab)
        ≡ ok (cursor i (i + 2) ((tab ++ pending s) ++ text (codes "%") ∷ []))
  unfolding read_code
  double_round suf e = let (reads, is) = code_follows b'%' suf e in rw (reads, is, read_code)

  -- A code with no brace behind it.
  pub code_round :
      (c : ℕ) (suf : Bytes)
      → rest ≡ c ∷ suf
      → c ≢ b'%'
      → opens suf ≡ false
      → scan_body p (cursor i last tab)
        ≡ ok (cursor i (i + 2) ((tab ++ pending s) ++ code c [] ∷ []))
  unfolding read_code
  code_round c [] e n o =
      let (reads, is) = code_follows c [] e in ground (arith, reads, is, total, ap length e)
  code_round c (x ∷ suf) e n o =
      let (reads, is) = code_follows c (x ∷ suf) e in
      ground (
        arith,
        reads,
        is,
        total,
        ap length e,
        at_split x suf (b'%' ∷ c ∷ []) (i + 2) (ap (◌∷◌ b'%') e) (omega arith),
      )

  brace_follows :
      (c : ℕ) (suf : Bytes)
      → rest ≡ c ∷ b'{' ∷ suf
      → c ≢ b'%'
      → scan_body p (cursor i last tab) ≡ read_detail p i (i + 2) (tab ++ pending s)
  unfolding read_code
  brace_follows c suf e n =
      let (reads, is) = code_follows c (b'{' ∷ suf) e in
      ground (
        arith,
        reads,
        is,
        total,
        ap length e,
        at_split b'{' suf (b'%' ∷ c ∷ []) (i + 2) (ap (◌∷◌ b'%') e) (omega arith),
      )

  split_behind_brace :
      (c : ℕ) (suf : Bytes)
      → rest ≡ c ∷ b'{' ∷ suf
      → (p ≡ (pre ++ (s ++ b'%' ∷ c ∷ b'{' ∷ [])) ++ suf)
        × (length (pre ++ (s ++ b'%' ∷ c ∷ b'{' ∷ [])) ≡ i + 3)
  split_behind_brace c suf e = (
    split ∙ ap (λ (t : Bytes). pre ++ (s ++ b'%' ∷ t)) e ∙ simp append_assoc,
    omega (
      arith,
      length-append pre (s ++ b'%' ∷ c ∷ b'{' ∷ []),
      length-append s (b'%' ∷ c ∷ b'{' ∷ []),
    ),
  )

  -- A code with a text in braces.
  pub detail_round :
      (c : ℕ) (a suf : Bytes)
      → rest ≡ c ∷ b'{' ∷ (a ++ b'}' ∷ suf)
      → c ≢ b'%'
      → Lacks b'}' a
      → scan_body p (cursor i last tab)
        ≡ ok (cursor (i + 3 + length a) (i + 4 + length a) ((tab ++ pending s) ++ code c a ∷ []))
  unfolding read_detail
  detail_round c a suf e n l =
      let (_, is) = code_follows c (b'{' ∷ (a ++ b'}' ∷ suf)) e in
      let front : Bytes = pre ++ (s ++ b'%' ∷ c ∷ b'{' ∷ []) in
      let (whole, len) = split_behind_brace c (a ++ b'}' ∷ suf) e in
      let size = length_split {p = p} front (a ++ b'}' ∷ suf) whole in
      let sizes = length-append a (b'}' ∷ suf) in
      let idx : find_close (length p) p (i + 3) ≡ i + 3 + length a =
        find_close_split {p = p} a front suf (length p) (i + 3) whole (sym len) l
          (omega (arith, size, sizes))
        ∙ omega (arith, len) in
      let inside : leb (length p) (i + 3 + length a) ≡ false = ground (arith, size, sizes, len) in
      let diff : size_diff (i + 3 + length a) (i + 2 + 1) ≡ length a =
        size_diff-le (i + 3 + length a) (i + 2 + 1) (omega arith) (omega (arith, size, sizes, len))
        ∙ omega arith in
      let part : substr p (i + 2 + 1) (size_diff (i + 3 + length a) (i + 2 + 1)) ≡ ok a =
        substr_split {p = p} front a (b'}' ∷ suf) (i + 2 + 1) _ whole (omega (arith, len)) diff in
      brace_follows c (a ++ b'}' ∷ suf) e n ∙ rw (idx, inside, part, is) (ground arith)

  -- A brace that is not closed.
  pub unclosed_round :
      (c : ℕ) (a : Bytes)
      → rest ≡ c ∷ b'{' ∷ a
      → c ≢ b'%'
      → Lacks b'}' a
      → scan_body p (cursor i last tab) ≡ ok (cursor i (i + 2) (tab ++ pending s))
  unfolding read_detail
  unclosed_round c a e n l =
      let front : Bytes = pre ++ (s ++ b'%' ∷ c ∷ b'{' ∷ []) in
      let (whole, len) = split_behind_brace c a e in
      let size = length_split {p = p} front a whole in
      let idx : find_close (length p) p (i + 3) ≡ length p =
        find_close_missing {p = p} a front (length p) (i + 3) whole (sym len) l
          (omega (arith, size, len)) in
      let over : leb (length p) (length p) ≡ true = ground arith in
      brace_follows c a e n ∙ rw (idx, over)
