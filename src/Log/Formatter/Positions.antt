-- ===== src/Log/Formatter/Positions.antt =====
-- LogFormatter::init of src/log.cpp: its reads at a position given by the text in front of it.
use ye_cc_server.Prelude.{
  ℕ, zero, suc, ◌+◌, ◌<◌, ◌^◌, ◌≡◌, ◌≢◌, sym, ◌∙◌, ap, true, false, List, [], ◌∷◌, ◌++◌, arith, ltb,
  ◌==◌, length, length-append, get_or-append, drop-append, take-append, All, append_assoc,
  append-nil, ok, Bytes, size_diff, size_diff-le, substr,
}
use ye_cc_server.Log.Formatter.Parse.{text, byte_at, find_close, push_text, Entry}

-- The bytes of `s` differ from `b`.
abbrev pub Lacks : ℕ → Bytes → Type 0
Lacks b s = All (λ c. c ≢ b) s

-- The bound under which a size fits an `int`.
abbrev pub int_max : ℕ
int_max = 2 ^ 31

module _ {p : Bytes} where
  pub byte_at_split :
      (pre : Bytes) (x : ℕ) (suf : Bytes) (i : ℕ)
      → p ≡ pre ++ x ∷ suf
      → i ≡ length pre
      → byte_at p i ≡ x
  byte_at_split pre x suf i e h = rw (e, h) (get_or-append pre suf x 0)

  pub length_split : (pre suf : Bytes) → p ≡ pre ++ suf → length p ≡ length pre + length suf
  length_split pre suf e = rw e (length-append pre suf)

  pub substr_split :
      (pre s suf : Bytes) (pos n : ℕ)
      → p ≡ pre ++ (s ++ suf)
      → pos ≡ length pre
      → n ≡ length s
      → substr p pos n ≡ ok s
  unfolding substr
  substr_split pre s suf pos n e h k =
      let fits : ltb (length p) pos ≡ false = ground (arith, length_split pre (s ++ suf) e) in
      rw fits (rw (e, h, k, drop-append pre (s ++ suf), take-append s suf))

-- What `push_text` adds for the text `s`.
abbrev pub pending : Bytes → List Entry
pending [] = []
pending (x ∷ s) = text (x ∷ s) ∷ []

pub push_text_split :
    {p : Bytes} (pre s suf : Bytes) (last upto : ℕ) (tab : List Entry)
    → p ≡ pre ++ (s ++ suf)
    → last ≡ length pre
    → upto ≡ length pre + length s
    → length p < int_max
    → push_text p last upto tab ≡ ok (tab ++ pending s)
unfolding push_text
push_text_split pre [] suf last upto tab e h k b =
    let same : (last == upto) ≡ true = ground arith in rw same (ap ok (sym (append-nil tab)))
push_text_split {p} pre (x ∷ s) suf last upto tab e h k b =
    let differs : (last == upto) ≡ false = ground arith in
    let whole = length_split {p = p} pre (x ∷ s ++ suf) e in
    let size : size_diff upto last ≡ length (x ∷ s) =
      size_diff-le upto last (omega arith) (omega (arith, whole, length-append s suf))
      ∙ omega arith in
    rw (differs, substr_split {p = p} pre (x ∷ s) suf last (size_diff upto last) e h size)

module _ {p : Bytes} where
  pub find_close_split :
      (a pre suf : Bytes) (fuel idx : ℕ)
      → p ≡ pre ++ (a ++ b'}' ∷ suf)
      → idx ≡ length pre
      → Lacks b'}' a
      → length a < fuel
      → find_close fuel p idx ≡ length pre + length a
  unfolding find_close
  find_close_split a pre suf zero idx e h n k = elim k [ ]
  find_close_split [] pre suf (suc fuel) idx e h n k =
      ground
        (arith, byte_at_split {p = p} pre b'}' suf idx e h, length_split {p = p} pre (b'}' ∷ suf) e)
  find_close_split (x ∷ a) pre suf (suc fuel) idx e h n k = ground (
    arith,
    byte_at_split {p = p} pre x (a ++ b'}' ∷ suf) idx e h,
    length_split {p = p} pre (x ∷ a ++ b'}' ∷ suf) e,
    length-append pre (x ∷ []),
    find_close_split a (pre ++ x ∷ []) suf fuel (idx + 1) (e ∙ sym (append_assoc pre (x ∷ []) _))
        (omega (arith, length-append pre (x ∷ []))) n.1 (omega arith),
  )

  pub find_close_missing :
      (a pre : Bytes) (fuel idx : ℕ)
      → p ≡ pre ++ a
      → idx ≡ length pre
      → Lacks b'}' a
      → length a < fuel
      → find_close fuel p idx ≡ length p
  unfolding find_close
  find_close_missing a pre zero idx e h n k = elim k [ ]
  find_close_missing [] pre (suc fuel) idx e h n k = ground (arith, length_split {p = p} pre [] e)
  find_close_missing (x ∷ a) pre (suc fuel) idx e h n k = ground (
    arith,
    byte_at_split {p = p} pre x a idx e h,
    length_split {p = p} pre (x ∷ a) e,
    find_close_missing a (pre ++ x ∷ []) fuel (idx + 1) (e ∙ sym (append_assoc pre (x ∷ []) _))
        (omega (arith, length-append pre (x ∷ []))) n.1 (omega arith),
  )
