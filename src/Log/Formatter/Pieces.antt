-- ===== src/Log/Formatter/Pieces.antt =====
-- A pattern of LogFormatter in src/log.cpp as a list of pieces.
use ye_cc_server.Prelude.{
  ℕ, zero, suc, ◌+◌, ◌-◌, ◌<◌, ◌≡◌, ◌≢◌, refl, sym, ◌∙◌, ap, Bool, true, false, List, [], ◌∷◌, ◌++◌,
  map, arith, length, length-append, append_assoc, append-nil, Option, none, some, ok, Bytes,
}
use ye_cc_server.Log.Formatter.Parse.{Entry, text, code, parse_from, parse}
use ye_cc_server.Log.Formatter.Positions.{Lacks, int_max, length_split, pending, push_text_split}
use ye_cc_server.Log.Formatter.Rounds.{
  opens, cursor, parse_from_round, parse_from_end, parse_from_plain, parse_from_text, code_round,
  detail_round,
}

-- A stretch of plain text, or a code with or without a text in braces.
pub data Piece : Type 0 where
  lit : Bytes → Piece
  item : ℕ → Option Bytes → Piece

abbrev pub print_piece : Piece → Bytes
print_piece (lit s) = s
print_piece (item c none) = b'%' ∷ c ∷ []
print_piece (item c (some a)) = b'%' ∷ c ∷ b'{' ∷ (a ++ b'}' ∷ [])

abbrev pub print : List Piece → Bytes
print [] = []
print (x ∷ ps) = print_piece x ++ print ps

abbrev pub entry_of : Piece → Entry
entry_of (lit s) = text s
entry_of (item c none) = code c []
entry_of (item c (some a)) = code c a

abbrev pub begins_lit : List Piece → Bool
begins_lit (lit s ∷ ps) = true
begins_lit _ = false

abbrev pub IsPiece : Piece → List Piece → Type 0
IsPiece (lit s) next = (s ≢ []) × Lacks b'%' s × (begins_lit next ≡ false)
IsPiece (item c none) next = (c ≢ b'%') × (opens (print next) ≡ false)
IsPiece (item c (some a)) next = (c ≢ b'%') × Lacks b'}' a

-- Texts are not empty, hold no '%' and do not meet; a code is no '%'; behind a code with no braces
-- no brace opens, and the text in braces holds no closing brace.
abbrev pub IsPattern : List Piece → Type 0
IsPattern [] = Unit
IsPattern (x ∷ ps) = IsPiece x ps × IsPattern ps

pending-lit : (s : Bytes) → s ≢ [] → pending s ≡ text s ∷ []
pending-lit [] h = absurd (h refl)
pending-lit (x ∷ s) h = refl

module _ (p : Bytes) (fits : length p < int_max) where
  -- The parser reads what is left of a pattern, the pieces `ps`, from a cursor in front of which the
  -- text `s` waits.
  abbrev Reads : List Piece → Type 0
  Reads ps =
      (pre s : Bytes) (fuel i last : ℕ) (tab : List Entry)
      → p ≡ pre ++ (s ++ print ps)
      → i ≡ length pre + length s
      → last ≡ length pre
      → IsPattern ps
      → ((begins_lit ps ≡ true) → s ≡ [])
      → length (print ps) < fuel
      → parse_from fuel p (cursor i last tab) ≡ ok (tab ++ (pending s ++ map entry_of ps))

  Reads-nil : Reads []
  Reads-nil pre s zero i last tab e h k w m f = elim f [ ]
  Reads-nil pre s (suc fuel) i last tab e h k w m f =
      let size = length_split {p = p} pre (s ++ []) e in
      let len : length p ≡ length pre + length s = omega (arith, size, length-append s []) in
      parse_from_end p fuel (cursor i last tab) (omega (arith, len))
      ∙ push_text_split {p = p} pre s [] last (length p) tab e k len fits
      ∙ rw append-nil

  Reads-text : (t : Bytes) (ps : List Piece) → Reads ps → Reads (lit t ∷ ps)
  Reads-text t ps rest pre s zero i last tab e h k w m f = elim f [ ]
  Reads-text t ps rest pre s (suc fuel) i last tab e h k ((ne, n, sep), w) m f =
      let none_pending : s ≡ [] = m refl in
      let len = length-append t (print ps) in
      let here : length s ≡ 0 = ap length none_pending in
      let enough : suc fuel ≡ length t + (suc fuel - length t) = omega (arith, len) in
      let whole : p ≡ pre ++ (t ++ print ps) =
        e ∙ ap (λ (u : Bytes). pre ++ (u ++ (t ++ print ps))) none_pending in
      ap (λ (x : ℕ). parse_from x p (cursor i last tab)) enough
      ∙ parse_from_text t pre (print ps) (suc fuel - length t) i last tab whole
          (omega (arith, here)) n
      ∙ rest pre t (suc fuel - length t) (i + length t) last tab whole (omega (arith, here)) k w
          (λ b. cc) (omega (arith, len))
      ∙ rw (pending-lit t ne, none_pending)

  Reads-code : (c : ℕ) (ps : List Piece) → Reads ps → Reads (item c none ∷ ps)
  Reads-code c ps rest pre s zero i last tab e h k w m f = elim f [ ]
  Reads-code c ps rest pre s (suc zero) i last tab e h k w m f = absurd (omega arith)
  Reads-code c ps rest pre s (suc (suc fuel)) i last tab e h k ((n, o), w) m f =
      let size = length_split {p = p} pre (s ++ (b'%' ∷ c ∷ print ps)) e in
      let sizes = length-append s (b'%' ∷ c ∷ print ps) in
      let front : Bytes = pre ++ (s ++ b'%' ∷ c ∷ []) in
      let len : length front ≡ i + 2 =
        omega (arith, length-append pre (s ++ b'%' ∷ c ∷ []), length-append s (b'%' ∷ c ∷ [])) in
      let before : length (pre ++ (s ++ b'%' ∷ [])) ≡ i + 1 =
        omega (arith, length-append pre (s ++ b'%' ∷ []), length-append s (b'%' ∷ [])) in
      parse_from_round p (suc fuel) (cursor i last tab) _ (omega (arith, size, sizes))
        (code_round {p = p} pre s (c ∷ print ps) i last tab e h k fits c (print ps) refl n o)
      ∙ parse_from_plain c (pre ++ (s ++ b'%' ∷ [])) (print ps) fuel (i + 1) (i + 2) _
          (e ∙ simp append_assoc) (sym before) n
      ∙ rest front [] fuel (i + 1 + 1) (i + 2) _ (e ∙ simp append_assoc) (omega (arith, len))
          (sym len) w (λ _. refl) (omega arith)
      ∙ simp append_assoc

  Reads-detail : (c : ℕ) (a : Bytes) (ps : List Piece) → Reads ps → Reads (item c (some a) ∷ ps)
  Reads-detail c a ps rest pre s zero i last tab e h k w m f = elim f [ ]
  Reads-detail c a ps rest pre s (suc fuel) i last tab e h k ((n, l), w) m f =
      let spread : (b'%' ∷ c ∷ b'{' ∷ (a ++ b'}' ∷ [])) ++ print ps
          ≡ b'%' ∷ c ∷ b'{' ∷ (a ++ b'}' ∷ print ps) =
        simp append_assoc in
      let whole : p ≡ pre ++ (s ++ (b'%' ∷ c ∷ b'{' ∷ (a ++ b'}' ∷ print ps))) =
        e ∙ ap (λ (u : Bytes). pre ++ (s ++ u)) spread in
      let size = length_split {p = p} pre (s ++ (b'%' ∷ c ∷ b'{' ∷ (a ++ b'}' ∷ print ps))) whole in
      let sizes = length-append s (b'%' ∷ c ∷ b'{' ∷ (a ++ b'}' ∷ print ps)) in
      let front : Bytes = pre ++ (s ++ b'%' ∷ c ∷ b'{' ∷ (a ++ b'}' ∷ [])) in
      let len : length front ≡ i + 4 + length a = omega (
        arith,
        length-append pre (s ++ b'%' ∷ c ∷ b'{' ∷ (a ++ b'}' ∷ [])),
        length-append s (b'%' ∷ c ∷ b'{' ∷ (a ++ b'}' ∷ [])),
        length-append a (b'}' ∷ []),
      ) in
      let tail = ap length spread in
      parse_from_round p fuel (cursor i last tab) _ (omega (arith, size, sizes)) (
        detail_round {p = p} pre s (c ∷ b'{' ∷ (a ++ b'}' ∷ print ps)) i last tab whole h k fits c a
          (print ps) refl n l)
      ∙ rest front [] fuel (i + 3 + length a + 1) (i + 4 + length a) _ (whole ∙ simp append_assoc)
          (omega (arith, len)) (sym len) w (λ _. refl)
          (omega (arith, tail, length-append a (b'}' ∷ print ps)))
      ∙ simp append_assoc

  parse_from-print : (ps : List Piece) → Reads ps
  parse_from-print [] = Reads-nil
  parse_from-print (lit t ∷ ps) = Reads-text t ps (parse_from-print ps)
  parse_from-print (item c none ∷ ps) = Reads-code c ps (parse_from-print ps)
  parse_from-print (item c (some a) ∷ ps) = Reads-detail c a ps (parse_from-print ps)

-- A pattern written from pieces is split into exactly the entries of the pieces, in order: what the
-- text says is what the parser reads, and the loop ends within its fuel. The pieces are well formed
-- and the pattern is shorter than 2^31 bytes.
pub parse-print :
    (ps : List Piece)
    → IsPattern ps
    → length (print ps) < int_max
    → parse (print ps) ≡ ok (map entry_of ps)
unfolding parse
parse-print ps w fits =
    parse_from-print (print ps) fits ps [] [] (length (print ps) + 1) 0 0 [] refl (omega arith)
      (omega arith) w (λ _. refl) (omega arith)
