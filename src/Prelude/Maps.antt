-- ===== src/Prelude/Maps.antt =====
-- `std::map` as an association list that is kept in the order of its keys.
use Prim.Native.Nat.{ℕ}
use mathlib.Core.Path.{◌≡◌, refl}
use mathlib.Core.Logic.{◌↔◌}
use mathlib.Core.Bool.{Bool, true, false}
use mathlib.Core.List.{List, [], ◌∷◌}
use mathlib.Core.Option.{Option, none, some}
use native.Mathlib.Omega.{arith}
use ye_cc_server.Prelude.Tests.{ltb, ◌==◌, ==_iff, if◌then◌else◌}
use ye_cc_server.Prelude.Text.{Bytes, bytes_eq, bytes_eq_iff}

-- The order of strings.
unfoldable pub bytes_lt : Bytes → Bytes → Bool
bytes_lt [] [] = false
bytes_lt [] (y ∷ ys) = true
bytes_lt (x ∷ xs) [] = false
bytes_lt (x ∷ xs) (y ∷ ys) = if x == y then bytes_lt xs ys else ltb x y

pub record Key {ℓ} (K : Type ℓ) : Type ℓ where
  pub eq : K → K → Bool
  pub lt : K → K → Bool
  pub eq_iff : (a b : K) → (eq a b ≡ true) ↔ (a ≡ b)

instance abbrev pub nat_key : Key ℕ
nat_key = record { eq = ◌==◌; lt = ltb; eq_iff = ==_iff }

instance abbrev pub bytes_key : Key Bytes
bytes_key = record { eq = bytes_eq; lt = bytes_lt; eq_iff = bytes_eq_iff }

module _ {ℓ κ} {K : Type ℓ} {V : Type κ} ⦃k : Key K⦄ where
  unfoldable pub find : K → List (K × V) → Option V
  find a [] = none
  find a ((b, v) ∷ m) = if k.eq b a then some v else find a m

  -- m[a] = v
  unfoldable pub put : K → V → List (K × V) → List (K × V)
  put a v [] = (a, v) ∷ []
  put a v ((b, w) ∷ m) =
      if k.eq b a then (a, v) ∷ m else if k.lt a b then (a, v) ∷ (b, w) ∷ m else (b, w) ∷ put a v m

  unfoldable pub erase : K → List (K × V) → List (K × V)
  erase a [] = []
  erase a ((b, w) ∷ m) = if k.eq b a then erase a m else (b, w) ∷ erase a m

  pub find-put :
      (a c : K) (v : V) (m : List (K × V))
      → find c (put a v m) ≡ (if k.eq a c then some v else find c m)
  unfolding find put
  find-put a c v [] = refl
  find-put a c v ((b, w) ∷ m) =
      ground (arith, k.eq_iff a c, k.eq_iff b a, k.eq_iff b c, find-put a c v m)

  pub find-erase :
      (a c : K) (m : List (K × V)) → find c (erase a m) ≡ (if k.eq a c then none else find c m)
  unfolding find erase
  find-erase a c [] = ground arith
  find-erase a c ((b, w) ∷ m) =
      ground (arith, k.eq_iff a c, k.eq_iff b a, k.eq_iff b c, find-erase a c m)
