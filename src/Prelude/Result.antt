-- ===== src/Prelude/Result.antt =====
-- What a call can end in: a value, a C++ exception with its text, a fault (a failed assertion, or a
-- dereference of a null or dangling pointer), or the end of the fuel of a loop's model.
use Prim.Native.Nat.{ℕ}
use mathlib.Core.List.{List}
use mathlib.Core.Path.{◌≡◌, refl, subst}
use native.Mathlib.Omega.{arith}

pub data Outcome {ℓ} (A : Type ℓ) : Type ℓ where
  ok : A → Outcome A
  throws : List ℕ → Outcome A
  fault : Outcome A
  out_of_fuel : Outcome A

infixl 5 ◌>>=◌
abbrev pub ◌>>=◌ {ℓ κ} : {A : Type ℓ} {B : Type κ} → Outcome A → (A → Outcome B) → Outcome B
ok a >>= f = f a
throws what >>= f = throws what
fault >>= f = fault
out_of_fuel >>= f = out_of_fuel

-- The call returns a value, and the value has the property.
abbrev pub Returns {ℓ κ} : {A : Type ℓ} → (A → Type κ) → Outcome A → Type (ℓ ⊔ κ)
Returns {A} P r = (a : A) × (r ≡ ok a) × P a

pub Returns-bind {ℓ κ} :
    {A B : Type ℓ} (P : A → Type κ) (Q : B → Type κ) (m : Outcome A) (f : A → Outcome B)
    → Returns P m
    → ((a : A) → P a → Returns Q (f a))
    → Returns Q (m >>= f)
Returns-bind P Q (ok a) f (b, e, h) k = k a (ground (arith, e, h))
Returns-bind P Q (throws what) f (b, e, h) k = cc
Returns-bind P Q fault f (b, e, h) k = cc
Returns-bind P Q out_of_fuel f (b, e, h) k = cc

pub bind_cong {ℓ κ} :
    {A : Type ℓ} {B : Type κ} (m : Outcome A) (f g : A → Outcome B)
    → ((a : A) → f a ≡ g a)
    → (m >>= f) ≡ (m >>= g)
bind_cong (ok a) f g h = h a
bind_cong (throws what) f g h = refl
bind_cong fault f g h = refl
bind_cong out_of_fuel f g h = refl

pub bind_assoc {ℓ κ ι} :
    {A : Type ℓ} {B : Type κ} {C : Type ι} (m : Outcome A) (f : A → Outcome B) (g : B → Outcome C)
    → ((m >>= f) >>= g) ≡ (m >>= λ a. f a >>= g)
bind_assoc (ok a) f g = refl
bind_assoc (throws what) f g = refl
bind_assoc fault f g = refl
bind_assoc out_of_fuel f g = refl

pub ok_inj {ℓ} : {A : Type ℓ} {x y : A} → ok x ≡ ok y → x ≡ y
ok_inj {x = x} {y = y} e = ground (arith, e)

-- A sequence of two calls that returns returns from each.
pub bind_ok {ℓ κ} :
    {A : Type ℓ} {B : Type κ} (m : Outcome A) (f : A → Outcome B) (b : B)
    → (m >>= f) ≡ ok b
    → (a : A) × (m ≡ ok a) × (f a ≡ ok b)
bind_ok (ok a) f b h = (a, refl, h)
bind_ok (throws what) f b h = absurd (ground (arith, h))
bind_ok fault f b h = absurd (ground (arith, h))
bind_ok out_of_fuel f b h = absurd (ground (arith, h))

-- If the call returns a value, the value has the property.
abbrev pub Ends {ℓ κ} : {A : Type ℓ} → (A → Type κ) → Outcome A → Type κ
Ends P (ok a) = P a
Ends P _ = Unit

pub Ends-bind {ℓ κ ι} :
    {A : Type ℓ} {B : Type κ} (P : B → Type ι) (m : Outcome A) (f : A → Outcome B)
    → ((a : A) → m ≡ ok a → Ends P (f a))
    → Ends P (m >>= f)
Ends-bind P (ok a) f h = h a refl
Ends-bind P (throws what) f h = tt
Ends-bind P fault f h = tt
Ends-bind P out_of_fuel f h = tt

pub Ends-ok {ℓ κ} :
    {A : Type ℓ} (P : A → Type κ) (m : Outcome A) (a : A) → Ends P m → m ≡ ok a → P a
Ends-ok P m a h e = subst (Ends P) e h

pub Ends-map {ℓ κ ι} :
    {A : Type ℓ} {P : A → Type κ} {Q : A → Type ι}
    → ((a : A) → P a → Q a)
    → (m : Outcome A) → Ends P m
    → Ends Q m
Ends-map f (ok a) h = f a h
Ends-map f (throws what) h = tt
Ends-map f fault h = tt
Ends-map f out_of_fuel h = tt
