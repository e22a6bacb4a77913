-- ===== src/Log/Formatter/Nameless.antt =====
-- LogFormatter::format of src/log.cpp on an event whose logger is not there.
use ye_cc_server.Prelude.{
  ℕ, ◌≡◌, refl, ◌⊎◌, inl, inr, Bool, true, false, ◌||◌, List, [], ◌∷◌, ◌++◌, ◌==◌, ◌<◌, length,
  Outcome, ok, fault, ◌>>=◌, Bytes, arith, Bool-cases, Returns,
}
use ye_cc_server.Log.Event.{Event}
use ye_cc_server.Log.Level.{Level}
use ye_cc_server.Log.Formatter.Positions.{int_max}
use ye_cc_server.Log.Formatter.Pieces.{Piece, lit, item, print, IsPattern}
use ye_cc_server.Log.Formatter.Meaning.{code_meaning, piece_meaning, meaning, new_formatter-print}
use ye_cc_server.Log.Formatter.Items.{new_formatter, format}

-- The code that reads the name of the event's logger.
abbrev pub is_name : Piece → Bool
is_name (lit s) = false
is_name (item c a) = c == b'c'

abbrev pub uses_name : List Piece → Bool
uses_name [] = false
uses_name (x ∷ ps) = is_name x || uses_name ps

-- A formatting faults exactly if the pattern has a `%c`, and returns else.
abbrev pub FaultsIf : Bool → Outcome Bytes → Type 0
FaultsIf b r = ((b ≡ true) × (r ≡ fault)) ⊎ ((b ≡ false) × ((s : Bytes) × (r ≡ ok s)))

FaultsIf-then :
    (b c : Bool) (m r : Outcome Bytes)
    → FaultsIf b m
    → FaultsIf c r
    → FaultsIf (b || c) (m >>= λ s. r >>= λ t. ok (s ++ t))
FaultsIf-then b c m r (inl (e, f)) k = inl (rw e refl, rw f refl)
FaultsIf-then b c m r (inr (e, (s, f))) (inl (g, h)) = inl (rw (e, g) refl, rw (f, h) refl)
FaultsIf-then b c m r (inr (e, (s, f))) (inr (g, (t, h))) =
    inr (rw (e, g) refl, (s ++ t, rw (f, h) refl))

module _ (strftime : Bytes → ℕ → Bytes) (names : ℕ → Outcome Bytes) (level : Level) (event : Event)
    (gone : names event.logger ≡ fault) where
  abbrev text_in : Outcome Bytes → Bytes
  text_in (ok s) = s
  text_in _ = []

  code_meaning-FaultsIf :
      (c : ℕ) (fmt : Bytes) → FaultsIf (c == b'c') (code_meaning strftime names level event c fmt)
  code_meaning-FaultsIf c fmt = elim (Bool-cases (c == b'c')) [
    | inl same ↦ inl (same, ground (arith, same, gone))
    | inr other ↦
        inr
          (other, (text_in (code_meaning strftime names level event c fmt), ground (arith, other)))
  ]

  meaning-FaultsIf :
      (ps : List Piece) → FaultsIf (uses_name ps) (meaning strftime names level event ps)
  meaning-FaultsIf [] = inr (refl, ([], refl))
  meaning-FaultsIf (x ∷ ps) =
      FaultsIf-then (is_name x) (uses_name ps) (piece_meaning strftime names level event x)
        (meaning strftime names level event ps) (first x) (meaning-FaultsIf ps)
    where
      first : (x : Piece) → FaultsIf (is_name x) (piece_meaning strftime names level event x)
      first (lit s) = inr (refl, (s, refl))
      first (item c a) = code_meaning-FaultsIf c _

  -- Of a formatter that is made from a well formed pattern of fewer than 2^31 bytes: formatting an event whose
  -- logger is not there faults if the pattern has the code `%c`, and returns a text if it has not.
  pub new_formatter-FaultsIf :
      (ps : List Piece)
      → IsPattern ps
      → length (print ps) < int_max
      → Returns
          (λ f. FaultsIf (uses_name ps) (format strftime names f level event))
          (new_formatter (print ps))
  new_formatter-FaultsIf ps w fits =
      let (f, made, (_, _, formats)) = new_formatter-print ps w fits in
      (f, made, rw (formats strftime names level event) (meaning-FaultsIf ps))
