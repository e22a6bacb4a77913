-- ===== src/Config/Convert/Reads.antt =====
-- LexicalCast of include/config.hpp: what holds of every element that is read holds of the container.
use ye_cc_server.Prelude.{
  ℕ, zero, suc, ◌+◌, ◌≡◌, refl, sym, ◌∙◌, List, [], ◌∷◌, Bytes, arith, All, Bool-cases, inl, inr,
}
use mathlib.Core.Path.{subst}
use ye_cc_server.Config.Var.{Cast, cast, refused}
use ye_cc_server.Config.Convert.{Library, Container, ◌>>=◌, read_items, container_from, set_insert}

pub cast_inj {ℓ} : {A : Type ℓ} {x y : A} → cast x ≡ cast y → x ≡ y
cast_inj {x = x} {y = y} e = ground (arith, e)

-- A conversion in two steps that succeeds succeeds in each.
pub cast_bind {ℓ κ} :
    {A : Type ℓ} {B : Type κ} (m : Cast A) (f : A → Cast B) (b : B)
    → (m >>= f) ≡ cast b
    → (a : A) × (m ≡ cast a) × (f a ≡ cast b)
cast_bind (cast a) f b h = (a, refl, h)
cast_bind (refused what) f b h = absurd (ground (arith, h))

-- If the conversion succeeds, its value has the property.
abbrev pub Casts {ℓ κ} : {A : Type ℓ} → (A → Type κ) → Cast A → Type κ
Casts P (cast a) = P a
Casts P (refused what) = Unit

pub Casts-bind {ℓ κ ι} :
    {A : Type ℓ} {B : Type κ} (P : B → Type ι) (m : Cast A) (f : A → Cast B)
    → ((a : A) → m ≡ cast a → Casts P (f a))
    → Casts P (m >>= f)
Casts-bind P (cast a) f h = h a refl
Casts-bind P (refused what) f h = tt

pub Casts-cast {ℓ κ} :
    {A : Type ℓ} (P : A → Type κ) (m : Cast A) (a : A) → Casts P m → m ≡ cast a → P a
Casts-cast P m a h e = subst (Casts P) e h

module _ {ℓ κ} {T C : Type ℓ} (lib : Library) (c : Container T C) (P : T → Type κ) (Q : C → Type κ)
    (keeps : (x : T) (ret : C) → P x → Q ret → Q (c.insert x ret)) (from : Bytes → Cast T)
    (each : (v : Bytes) (x : T) → from v ≡ cast x → P x) where
  read_items-keeps :
      (node : lib.Node) (left i : ℕ) (ret r : C)
      → Q ret
      → read_items lib c from node left i ret ≡ cast r
      → Q r
  unfolding read_items
  read_items-keeps node zero i ret r q h = subst Q (cast_inj h) q
  read_items-keeps node (suc left) i ret r q h =
      let (x, read, more) = cast_bind (from (lib.emit (lib.at node i))) _ r h in
      read_items-keeps node left (i + 1) (c.insert x ret) r (keeps x ret (each _ x read) q) more

  pub container_from-keeps :
      (v : Bytes) (r : C) → Q c.empty → container_from lib c from v ≡ cast r → Q r
  unfolding container_from
  container_from-keeps v r q h =
      let (node, _, more) = cast_bind (lib.load v) _ r h in
      read_items-keeps node (lib.size node) 0 c.empty r q more

pub All-set_insert {ℓ κ} :
    {T : Type ℓ} (P : T → Type κ) (less : T → T → ye_cc_server.Prelude.Bool) (x : T) (ys : List T)
    → P x
    → All P ys
    → All P (set_insert less x ys)
unfolding set_insert
All-set_insert P less x [] p h = (p, tt)
All-set_insert P less x (y ∷ ys) p (q, h) = elim (Bool-cases (less x y)) [
  | inl before ↦ rw before (p, (q, h))
  | inr not_before ↦ elim (Bool-cases (less y x)) [
    | inl behind ↦ rw (not_before, behind) (q, All-set_insert P less x ys p h)
    | inr equal ↦ rw (not_before, equal) (q, h)
  ]
]
