-- ===== src/Log/Formatter/Quirks.antt =====
-- LogFormatter::init of src/log.cpp on patterns with "%%", a '%' at the end or an open brace.
use ye_cc_server.Prelude.{
  ℕ, suc, ◌+◌, ◌-◌, ◌^◌, ◌<◌, ◌≡◌, ◌≢◌, inl, inr, Bool-cases, refl, sym, ◌∙◌, ap, true, false, List,
  [], ◌∷◌, ◌++◌, arith, length, length-append, append_assoc, append-nil, ok, Bytes, codes,
  size_diff, substr, take_all, drop-append, ltb, ◌==◌, leb,
}
use ye_cc_server.Log.Formatter.Parse.{
  Entry, text, Cursor, push_text, parse_from, parse, scan_body, byte_at,
}
use ye_cc_server.Log.Formatter.Positions.{
  Lacks, int_max, length_split, pending, push_text_split, byte_at_split,
}
use ye_cc_server.Log.Formatter.Rounds.{
  cursor, parse_from_round, parse_from_end, parse_from_plain, parse_from_text, trailing_round,
  double_round, unclosed_round,
}
use ye_cc_server.Log.Formatter.Total.{
  Extends-refl, Extends-trans, Moves, read_code-Returns, parse_from-Returns,
}

-- The loop from the start of a pattern up to its first '%'.
parse_first_percent :
    (a rest : Bytes)
    → Lacks b'%' a
    → parse (a ++ b'%' ∷ rest)
      ≡ parse_from (suc (suc (length rest))) (a ++ b'%' ∷ rest) (cursor (length a) 0 [])
unfolding parse
parse_first_percent a rest n =
    ap (λ (k : ℕ). parse_from k (a ++ b'%' ∷ rest) (cursor 0 0 []))
      (omega (arith, length-append a (b'%' ∷ rest)))
    ∙ parse_from_text a [] (b'%' ∷ rest) (suc (suc (length rest))) 0 0 [] refl refl n
    ∙ ap (λ (k : ℕ). parse_from (suc (suc (length rest))) (a ++ b'%' ∷ rest) (cursor k 0 []))
        (omega arith)

-- A pattern of plain text and a '%' at its end, of fewer than 2^31 bytes: the entries are the text, if
-- any, and then the text with the '%', so that the text is output twice.
parse_trailing :
    (a : Bytes)
    → Lacks b'%' a
    → length (a ++ b'%' ∷ []) < int_max
    → parse (a ++ b'%' ∷ []) ≡ ok (pending a ++ text (a ++ b'%' ∷ []) ∷ [])
parse_trailing a n fits =
    let p : Bytes = a ++ b'%' ∷ [] in
    let size = length-append a (b'%' ∷ []) in
    parse_first_percent a [] n
    ∙ parse_from_round p 1 (cursor (length a) 0 []) _ (omega (arith, size))
        (trailing_round {p = p} [] a [] (length a) 0 [] refl (omega arith) refl fits refl)
    ∙ parse_from_end p 0 (cursor (length a + 1) 0 (pending a)) (omega (arith, size))
    ∙ push_text_split {p = p} [] p [] 0 (length p) (pending a) (sym (append-nil p)) refl
        (omega arith) fits
    ∙ ap (λ (t : List Entry). ok (pending a ++ t)) (pending_end a)
  where
    pending_end : (s : Bytes) → pending (s ++ b'%' ∷ []) ≡ text (s ++ b'%' ∷ []) ∷ []
    pending_end [] = refl
    pending_end (x ∷ s) = refl

-- A pattern of fewer than 2^31 bytes with a code, no '%', behind plain text, whose brace is not closed and
-- has no '%' behind it: the code is dropped, and the brace and what follows are plain text.
parse_unclosed :
    (a : Bytes) (c : ℕ) (b : Bytes)
    → Lacks b'%' a
    → c ≢ b'%'
    → Lacks b'}' b
    → Lacks b'%' b
    → length (a ++ b'%' ∷ c ∷ b'{' ∷ b) < int_max
    → parse (a ++ b'%' ∷ c ∷ b'{' ∷ b) ≡ ok (pending a ++ text (b'{' ∷ b) ∷ [])
parse_unclosed a c b n m l k fits =
    let p : Bytes = a ++ b'%' ∷ c ∷ b'{' ∷ b in
    let size = length-append a (b'%' ∷ c ∷ b'{' ∷ b) in
    let front : Bytes = a ++ b'%' ∷ c ∷ [] in
    let len : length front ≡ length a + 2 = omega (arith, length-append a (b'%' ∷ c ∷ [])) in
    let before : length (a ++ b'%' ∷ []) ≡ length a + 1 =
      omega (arith, length-append a (b'%' ∷ [])) in
    let whole : p ≡ front ++ (b'{' ∷ b) = sym (append_assoc a (b'%' ∷ c ∷ []) (b'{' ∷ b)) in
    let fuel : suc (length (b'{' ∷ b)) ≡ length (b'{' ∷ b) + 1 = omega arith in
    parse_first_percent a (c ∷ b'{' ∷ b) n
    ∙ parse_from_round p (suc (suc (length (b'{' ∷ b)))) (cursor (length a) 0 []) _
        (omega (arith, size))
        (unclosed_round {p = p} [] a (c ∷ b'{' ∷ b) (length a) 0 [] refl (omega arith) refl fits c b
          refl m l)
    ∙ parse_from_plain c (a ++ b'%' ∷ []) (b'{' ∷ b) (suc (length (b'{' ∷ b))) (length a + 1)
        (length a + 2) (pending a) (sym (append_assoc a (b'%' ∷ []) (c ∷ b'{' ∷ b))) (sym before) m
    ∙ ap (λ (f : ℕ). parse_from f p (cursor (length a + 1 + 1) (length a + 2) (pending a))) fuel
    ∙ parse_from_text (b'{' ∷ b) front [] 1 (length a + 1 + 1) (length a + 2) (pending a)
        (whole ∙ ap (λ (t : Bytes). front ++ t) (sym (append-nil (b'{' ∷ b)))) (omega (arith, len))
        ((λ e. absurd (omega arith)), k)
    ∙ parse_from_end p 0 (cursor (length a + 1 + 1 + length (b'{' ∷ b)) (length a + 2) (pending a))
        (omega (arith, size))
    ∙ push_text_split {p = p} front (b'{' ∷ b) [] (length a + 2) (length p) (pending a)
        (whole ∙ ap (λ (t : Bytes). front ++ t) (sym (append-nil (b'{' ∷ b)))) (sym len)
        (omega (arith, size, len)) fits

-- The length that the second '%' of "%%" asks of `substr` is -1, read as a size.
size_diff_wraps : (i : ℕ) → i < int_max → size_diff i (i + 1) ≡ 2 ^ 64 - 1
unfolding size_diff
size_diff_wraps i h = omega arith

push_text_wraps :
    (p front r : Bytes) (i : ℕ) (tab : List Entry)
    → p ≡ front ++ r
    → i + 1 ≡ length front
    → length p < int_max
    → push_text p (i + 1) i tab ≡ ok (tab ++ text r ∷ [])
unfolding push_text substr
push_text_wraps p front r i tab e h fits =
    let size = length_split {p = p} front r e in
    let differs : ((i + 1) == i) ≡ false = ground arith in
    let inside : ltb (length p) (i + 1) ≡ false = ground (arith, size) in
    rw (
      differs,
      inside,
      size_diff_wraps i (omega (arith, size)),
      h,
      e,
      drop-append front r,
      take_all (2 ^ 64 - 1) r (omega (arith, size)),
    )

-- The round at the second '%' of "%%", where `last_idx` is already behind it.
second_round :
    (p front r : Bytes) (i : ℕ) (tab : List Entry)
    → p ≡ front ++ (b'%' ∷ r)
    → i ≡ length front
    → length p < int_max
    → (d : Cursor) × (scan_body p (cursor i (i + 1) tab) ≡ ok d) × Moves p i (tab ++ text r ∷ []) d
unfolding scan_body
second_round p front r i tab e h fits =
    let size = length_split {p = p} front (b'%' ∷ r) e in
    let here : (byte_at p i == b'%') ≡ true =
      ground (arith, byte_at_split {p = p} front b'%' r i e h) in
    let pushed =
      push_text_wraps p (front ++ b'%' ∷ []) r i tab (e ∙ sym (append_assoc front (b'%' ∷ []) r))
        (omega (arith, length-append front (b'%' ∷ []))) fits in
    elim (Bool-cases (leb (length p) (i + 1))) [
      | inl over ↦ (
        cursor i (i + 1) (tab ++ text r ∷ []),
        rw (here, pushed, over),
        record { forward = omega arith; within = omega (arith, size); extends = Extends-refl _ },
      )
      | inr inside ↦
          let (d, read, moves) = read_code-Returns p i (tab ++ text r ∷ []) (ground arith) in
          (d, rw (here, pushed, inside) read, moves)
    ]

-- A pattern of fewer than 2^31 bytes with "%%" behind plain text: the table gets the text, if any, a '%',
-- then the whole rest of the pattern as plain text, and then more entries.
parse_double :
    (a r : Bytes)
    → Lacks b'%' a
    → length (a ++ b'%' ∷ b'%' ∷ r) < int_max
    → (more : List Entry) × (parse (a ++ b'%' ∷ b'%' ∷ r)
        ≡ ok (pending a ++ (text (codes "%") ∷ text r ∷ more)))
parse_double a r n fits =
    let p : Bytes = a ++ b'%' ∷ b'%' ∷ r in
    let size = length-append a (b'%' ∷ b'%' ∷ r) in
    let tab : List Entry = pending a ++ text (codes "%") ∷ [] in
    let (d, body, moves) =
      second_round p (a ++ b'%' ∷ []) r (length a + 1) tab
        (sym (append_assoc a (b'%' ∷ []) (b'%' ∷ r))) (omega (arith, length-append a (b'%' ∷ [])))
        fits in
    let (all, rest, more) =
      parse_from-Returns p (suc (length r)) (record d { i = d.i + 1 }) moves.within
        (omega (arith, size, moves.forward)) (omega arith) in
    let grown = Extends-trans moves.extends more in
    (
      grown.more,
      parse_first_percent a (b'%' ∷ r) n
          ∙ parse_from_round p (suc (suc (length r))) (cursor (length a) 0 []) _
              (omega (arith, size))
              (double_round {p = p} [] a (b'%' ∷ r) (length a) 0 [] refl (omega arith) refl fits r
                refl)
          ∙ ap (λ (k : ℕ). parse_from (suc (suc (length r))) p (cursor (length a + 1) k tab))
              (omega arith)
          ∙ parse_from_round p (suc (length r)) (cursor (length a + 1) (length a + 1 + 1) tab) d
              (omega (arith, size)) body
          ∙ rest
          ∙ ap ok (grown.appended ∙ simp append_assoc),
    )

-- What the parser makes of plain text `a` in front of a '%' at the end of the pattern, in front of "%%" and
-- the rest `r`, and in front of a code `c`, no '%', with an open brace and `r`, where `r` has no '%' and no
-- closing brace and the patterns have fewer than 2^31 bytes: the text twice, the second time with the '%'; the
-- text, a '%', the whole rest as plain text, and then more entries; and the text, and the brace with the rest
-- as plain text, without the code.
pub parse_malformed :
    (a : Bytes) (c : ℕ) (r : Bytes)
    → Lacks b'%' a
    → c ≢ b'%'
    → Lacks b'}' r
    → Lacks b'%' r
    → length (a ++ b'%' ∷ c ∷ b'{' ∷ r) < int_max
    → (parse (a ++ b'%' ∷ []) ≡ ok (pending a ++ text (a ++ b'%' ∷ []) ∷ []))
      × ((more : List Entry) × (parse (a ++ b'%' ∷ b'%' ∷ r)
            ≡ ok (pending a ++ (text (codes "%") ∷ text r ∷ more))))
      × (parse (a ++ b'%' ∷ c ∷ b'{' ∷ r) ≡ ok (pending a ++ text (b'{' ∷ r) ∷ []))
parse_malformed a c r n ne no_close no_percent fits =
    let whole = length-append a (b'%' ∷ c ∷ b'{' ∷ r) in
    (
      parse_trailing a n (omega (arith, fits, whole, length-append a (b'%' ∷ []))),
      parse_double a r n (omega (arith, fits, whole, length-append a (b'%' ∷ b'%' ∷ r))),
      parse_unclosed a c r n ne no_close no_percent fits,
    )
