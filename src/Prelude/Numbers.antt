-- ===== src/Prelude/Numbers.antt =====
-- Numbers written by `operator<<`: decimal digits, and signed integers.
use Prim.Native.Nat.{ℕ, zero, suc, ◌+◌, ◌/◌, ◌%◌}
use mathlib.Core.List.{[], ◌∷◌}
use ye_cc_server.Prelude.Tests.{ltb, if◌then◌else◌}
use ye_cc_server.Prelude.Text.{Bytes}

-- `negsuc n` is -(n + 1).
pub data ℤ : Type 0 where
  pos : ℕ → ℤ
  negsuc : ℕ → ℤ

-- The digits of a number below 10 ^ fuel, in front of `out`.
digits_onto : ℕ → ℕ → Bytes → Bytes
digits_onto zero n out = out
digits_onto (suc fuel) n out =
    let rest = digits_onto fuel (n / 10) ((b'0' + n % 10) ∷ out) in
    if ltb n 10 then (b'0' + n) ∷ out else rest

-- A number of at most 64 bits has no more than 20 digits.
unfoldable pub decimal : ℕ → Bytes
unfolding digits_onto
decimal n = digits_onto 20 n []

unfoldable pub decimal_int : ℤ → Bytes
unfolding decimal
decimal_int (pos n) = decimal n
decimal_int (negsuc n) = b'-' ∷ decimal (n + 1)
