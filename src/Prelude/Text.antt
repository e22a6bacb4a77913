-- ===== src/Prelude/Text.antt =====
-- `std::string` as a list of bytes: comparison, `substr`, `find_first_not_of`, letter case, numbers.
use Prim.Native.Nat.{ℕ, ◌+◌, ◌-◌, ◌%◌, ◌^◌, ◌≤◌, ◌<◌}
use Prim.Native.Char.{code}
use Prim.Native.String.{String}
use mathlib.Core.Path.{◌≡◌}
use mathlib.Core.Logic.{◌↔◌}
use mathlib.Core.Bool.{Bool, true, false, ◌&&◌}
use mathlib.Core.List.{List, [], ◌∷◌}
use native.Mathlib.Omega.{arith}
use ye_cc_server.Prelude.Tests.{ltb, leb, ◌==◌, if◌then◌else◌}
use ye_cc_server.Prelude.Lists.{length, take, drop}
use ye_cc_server.Prelude.Result.{Outcome, ok, throws}

abbrev pub Bytes : Type 0
Bytes = List ℕ

-- The bytes of an ASCII literal.
abbrev pub codes : String → Bytes
codes String.[] = []
codes (String.◌∷◌ c s) = code c ∷ codes s

-- `operator==` of strings.
unfoldable pub bytes_eq : Bytes → Bytes → Bool
bytes_eq [] [] = true
bytes_eq (x ∷ xs) (y ∷ ys) = x == y && bytes_eq xs ys
bytes_eq _ _ = false

pub bytes_eq_iff : (a b : Bytes) → (bytes_eq a b ≡ true) ↔ (a ≡ b)
unfolding bytes_eq
bytes_eq_iff (x ∷ a) (y ∷ b) = ground (arith, bytes_eq_iff a b)
bytes_eq_iff _ _ = ground arith

-- `a - b` of two values of type `int` that is passed on as a `size_t`.
unfoldable pub size_diff : ℕ → ℕ → ℕ
size_diff a b = (a + 2 ^ 64 - b) % 2 ^ 64

pub size_diff-le : (a b : ℕ) → b ≤ a → a < 2 ^ 31 → size_diff a b ≡ a - b
unfolding size_diff
size_diff-le a b h k = omega arith

-- `s.substr(pos, n)`.
unfoldable pub substr : Bytes → ℕ → ℕ → Outcome Bytes
substr s pos n =
    if ltb (length s) pos then throws (codes "basic_string::substr") else ok (take n (drop pos s))

-- `::tolower` and `::toupper` in the "C" locale.
unfoldable pub to_lower : ℕ → ℕ
to_lower c = if leb b'A' c && leb c b'Z' then c + 32 else c

unfoldable pub to_upper : ℕ → ℕ
to_upper c = if leb b'a' c && leb c b'z' then c - 32 else c

pub to_upper_idem : (c : ℕ) → to_upper (to_upper c) ≡ to_upper c
unfolding to_upper
to_upper_idem c = ground arith

pub to_lower_idem : (c : ℕ) → to_lower (to_lower c) ≡ to_lower c
unfolding to_lower
to_lower_idem c = ground arith
