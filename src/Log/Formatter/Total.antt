-- ===== src/Log/Formatter/Total.antt =====
-- LogFormatter::init of src/log.cpp on every pattern.
use ye_cc_server.Prelude.{
  ℕ, zero, suc, ◌+◌, ◌≤◌, ◌<◌, ◌≡◌, ◌⊎◌, inl, inr, refl, sym, ◌∙◌, ap, ◌||◌, not, List, [], ◌∷◌,
  ◌++◌, arith, length, ltb, leb, ◌==◌, Bool-cases, append_assoc, append-nil, ok, Bytes, codes,
  substr, All, All-append, Returns, take, drop, size_diff,
}
use ye_cc_server.Log.Formatter.Parse.{
  Entry, text, code, byte_at, Cursor, push_text, find_close, read_detail, read_code, parse_from,
  parse, scan_body, start,
}
use ye_cc_server.Log.Formatter.Rounds.{cursor, parse_from_round, parse_from_end}

-- Plain text, or a code of one byte.
abbrev pub IsEntry : Entry → Type 0
IsEntry e = (e.kind ≡ 0) ⊎ ((e.kind ≡ 1) × (length e.code_str ≡ 1))

-- `tab` is the table `before` and more entries behind it.
pub record Extends (before tab : List Entry) : Type 0 where
  pub more : List Entry
  pub appended : tab ≡ before ++ more
  pub entries : All IsEntry more

pub Extends-refl : (tab : List Entry) → Extends tab tab
Extends-refl tab = record { more = []; appended = sym (append-nil tab); entries = tt }

Extends-one : (tab : List Entry) (e : Entry) → IsEntry e → Extends tab (tab ++ e ∷ [])
Extends-one tab e h = record { more = e ∷ []; appended = refl; entries = (h, tt) }

pub Extends-trans : {a b c : List Entry} → Extends a b → Extends b c → Extends a c
Extends-trans {a} x y = record {
  more = x.more ++ y.more;
  appended =
      y.appended ∙ ap (λ (t : List Entry). t ++ y.more) x.appended ∙ append_assoc a x.more y.more;
  entries = All-append IsEntry x.more y.more x.entries y.entries;
}

module _ (p : Bytes) where
  substr_returns : (pos n : ℕ) → pos ≤ length p → substr p pos n ≡ ok (take n (drop pos p))
  unfolding substr
  substr_returns pos n h = ground arith

  push_text-Returns :
      (last upto : ℕ) (tab : List Entry)
      → last ≤ length p
      → Returns (Extends tab) (push_text p last upto tab)
  unfolding push_text
  push_text-Returns last upto tab h = elim (Bool-cases (last == upto)) [
    | inl same ↦ (tab, rw same, Extends-refl tab)
    | inr differs ↦ (
      _,
      rw (differs, substr_returns last (size_diff upto last) h),
      Extends-one tab (text (take (size_diff upto last) (drop last p))) (inl refl),
    )
  ]

  find_close-le : (fuel idx : ℕ) → idx ≤ find_close fuel p idx
  unfolding find_close
  find_close-le zero idx = omega arith
  find_close-le (suc fuel) idx = ground (arith, find_close-le fuel (idx + 1))

  -- What a round keeps.
  pub record Moves (i : ℕ) (tab : List Entry) (d : Cursor) : Type 0 where
    pub forward : i ≤ d.i
    pub within : d.last_idx ≤ length p
    pub extends : Extends tab d.parse_tab

  read_detail-Returns :
      (i : ℕ) (tab : List Entry)
      → i + 2 < length p
      → Returns (Moves i tab) (read_detail p i (i + 2) tab)
  unfolding read_detail
  read_detail-Returns i tab h =
      let idx = find_close (length p) p (i + 3) in
      let later = find_close-le (length p) (i + 3) in
      elim (Bool-cases (leb (length p) idx)) [
        | inl missing ↦ (
          cursor i (i + 2) tab,
          rw missing,
          record { forward = omega arith; within = omega arith; extends = Extends-refl tab },
        )
        | inr found ↦ (
          cursor idx (idx + 1) (
              tab
              ++ code (byte_at p (i + 1)) (take (size_diff idx (i + 2 + 1)) (drop (i + 2 + 1) p))
                ∷ []),
          rw (found, substr_returns (i + 2 + 1) (size_diff idx (i + 2 + 1)) (omega arith)),
          record {
            forward = omega (arith, later);
            within = ground arith;
            extends = Extends-one tab (code _ _) (inr (refl, refl));
          },
        )
      ]

  pub read_code-Returns :
      (i : ℕ) (tab : List Entry) → i + 1 < length p → Returns (Moves i tab) (read_code p i tab)
  unfolding read_code
  read_code-Returns i tab h = elim (Bool-cases (byte_at p (i + 1) == b'%')) [
    | inl double ↦ (
      cursor i (i + 2) (tab ++ text (codes "%") ∷ []),
      rw double,
      record {
        forward = omega arith;
        within = omega arith;
        extends = Extends-one tab (text (codes "%")) (inl refl);
      },
    )
    | inr plain ↦ elim (Bool-cases (leb (length p) (i + 2) || not (byte_at p (i + 2) == b'{'))) [
      | inl bare ↦ (
        cursor i (i + 2) (tab ++ code (byte_at p (i + 1)) [] ∷ []),
        rw (plain, bare),
        record {
          forward = omega arith;
          within = omega arith;
          extends = Extends-one tab (code _ _) (inr (refl, refl));
        },
      )
      | inr brace ↦ rw (plain, brace) (read_detail-Returns i tab (ground arith))
    ]
  ]

  scan_body-Returns :
      (c : Cursor)
      → c.i < length p
      → c.last_idx ≤ length p
      → Returns (Moves c.i c.parse_tab) (scan_body p c)
  unfolding scan_body
  scan_body-Returns c h k = elim (Bool-cases (byte_at p c.i == b'%')) [
    | inr plain ↦ (
      c,
      rw plain,
      record { forward = omega arith; within = k; extends = Extends-refl c.parse_tab },
    )
    | inl percent ↦
        let (tab, pushed, more) = push_text-Returns c.last_idx c.i c.parse_tab k in
        elim (Bool-cases (leb (length p) (c.i + 1))) [
          | inl over ↦ (
            record c { parse_tab = tab },
            rw (percent, pushed, over),
            record { forward = omega arith; within = k; extends = more },
          )
          | inr inside ↦
              let (d, read, moves) = read_code-Returns c.i tab (ground arith) in
              (
                d,
                rw (percent, pushed, inside) read,
                record {
                  forward = moves.forward;
                  within = moves.within;
                  extends = Extends-trans more moves.extends;
                },
              )
        ]
  ]

  -- From any cursor within the pattern, with fuel for the rest, the parser adds to the table.
  pub parse_from-Returns :
      (fuel : ℕ) (c : Cursor)
      → c.last_idx ≤ length p
      → length p < fuel + c.i
      → 0 < fuel
      → Returns (Extends c.parse_tab) (parse_from fuel p c)
  parse_from-Returns zero c k f pos = elim pos [ ]
  parse_from-Returns (suc fuel) c k f pos = elim (Bool-cases (ltb c.i (length p))) [
    | inr over ↦
        let (tab, pushed, more) = push_text-Returns c.last_idx (length p) c.parse_tab k in
        (tab, parse_from_end p fuel c (ground arith) ∙ pushed, more)
    | inl inside ↦
        let (d, body, moves) = scan_body-Returns c (ground arith) k in
        let (tab, rest, more) =
          parse_from-Returns fuel (record d { i = d.i + 1 }) moves.within
            (omega (arith, moves.forward)) (ground arith) in
        (
          tab,
          parse_from_round p fuel c d (ground arith) body ∙ rest,
          Extends-trans moves.extends more,
        )
  ]

-- On every pattern the parser's loop ends within `length p + 1` rounds and no `substr` throws, and each entry
-- of the table is plain text or a code of one byte.
pub parse_total : (p : Bytes) → Returns (All IsEntry) (parse p)
unfolding parse
parse_total p =
    let (tab, e, more) =
      parse_from-Returns p (length p + 1) start (omega arith) (omega arith) (omega arith) in
    (tab, e, rw more.appended more.entries)
