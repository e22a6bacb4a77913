-- ===== src/Config/Name.antt =====
-- The names that Config of include/config.hpp and src/config.cpp accepts.
use ye_cc_server.Prelude.{
  ℕ, Bool, true, ◌&&◌, ◌||◌, ◌∷◌, [], ◌==◌, leb, Bytes, ◌≡◌, refl, arith, inl, inr, map, to_lower,
  Bool-cases,
}

-- "abcdefghijklmnopqrstuvwxyz._0123456789" holds the byte.
abbrev pub is_name_byte : ℕ → Bool
is_name_byte c =
    (leb b'a' c && leb c b'z') || (leb b'0' c && leb c b'9') || (c == b'.' || c == b'_')

-- name.find_first_not_of(...) == std::string::npos
unfoldable pub is_valid_name : Bytes → Bool
is_valid_name [] = true
is_valid_name (c ∷ s) = is_name_byte c && is_valid_name s

-- A valid name has no capital letter.
pub lower-valid : (s : Bytes) → is_valid_name s ≡ true → map to_lower s ≡ s
unfolding is_valid_name
lower-valid [] h = refl
lower-valid (c ∷ s) h = elim (Bool-cases (is_name_byte c)) [
  | inl byte ↦
      let same : to_lower c ≡ c = unfold to_lower in ground (arith, byte) in
      rw (same, lower-valid s (ground (arith, h, byte)))
  | inr other ↦ absurd (ground (arith, h, other))
]
