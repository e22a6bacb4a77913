-- ===== src/Config/Var/Changes.antt =====
-- ConfigVar::setValue and fromString of include/config.hpp.
use ye_cc_server.Prelude.{
  ℕ, ◌≡◌, refl, ◌↔◌, ◌⊎◌, inl, inr, true, false, List, [], ◌∷◌, ◌++◌, none, some, arith, Bytes,
  Bool-cases, Option-cases, All, if◌then◌else◌,
}
use ye_cc_server.Log.Level.{Level}
use ye_cc_server.Config.Var.{
  Cast, cast, refused, Codec, Listener, ConfigVar, notify, set_value, from_string,
}

Cast-cases {ℓ} :
    {A : Type ℓ} (c : Cast A) → ((a : A) × (c ≡ cast a)) ⊎ ((what : Bytes) × (c ≡ refused what))
Cast-cases (cast a) = inl (a, refl)
Cast-cases (refused what) = inr (what, refl)

-- The comparison of the values decides their equality.
abbrev pub IsEq {ℓ} : {T : Type ℓ} → Codec T → Type ℓ
IsEq {T} c = (a b : T) → (c.eq a b ≡ true) ↔ (a ≡ b)

module _ {ℓ κ} {T : Type ℓ} {W : Type κ} where
  -- Listeners are called in the order of their keys, and none behind one that throws.
  pub notify-append :
      (cbs ds : List (ℕ × Listener T W)) (old new : T) (w : W)
      → notify (cbs ++ ds) old new w ≡ (
          let (w', thrown) = notify cbs old new w in
          elim thrown [ none ↦ notify ds old new w' | some what ↦ (w', some what) ])
  unfolding notify
  notify-append [] ds old new w = refl
  notify-append ((key, cb) ∷ cbs) ds old new w =
      ground (arith, notify-append cbs ds old new (cb old new w).0)

  -- No listener throws.
  abbrev pub AreQuiet : List (ℕ × Listener T W) → Type (ℓ ⊔ κ)
  AreQuiet cbs =
      All (λ (entry : ℕ × Listener T W). (old new : T) (w : W) → (entry.1 old new w).1 ≡ none) cbs

  -- The world behind every listener, one after the other.
  abbrev pub after : List (ℕ × Listener T W) → T → T → W → W
  after [] old new w = w
  after ((key, cb) ∷ cbs) old new w = after cbs old new (cb old new w).0

  pub notify-after :
      (cbs : List (ℕ × Listener T W)) (old new : T) (w : W)
      → AreQuiet cbs
      → notify cbs old new w ≡ (after cbs old new w, none)
  unfolding notify
  notify-after [] old new w q = refl
  notify-after ((key, cb) ∷ cbs) old new w (q, qs) =
      rw (notify, q old new w) (notify-after cbs old new (cb old new w).0 qs)

  module _ (c : Codec T) (eq : IsEq c) (log : Level → Bytes → W → W) where
    -- Reading a text into a variable either converts it and returns true, and then the variable holds
    -- the value and is otherwise as before, or returns false and leaves the variable as it was. The
    -- comparison of values decides their equality.
    pub from_string_atomic :
        (var : ConfigVar T W) (val : Bytes) (w : W)
        → let (var', w', done) = from_string log c var val w in
          ((done ≡ true)
            × ((v : T) × (c.from_str val ≡ cast v) × (var' ≡ record var { value = v })))
          ⊎ ((done ≡ false) × (var' ≡ var))
    unfolding from_string set_value
    from_string_atomic var val w = elim (Cast-cases (c.from_str val)) [
      | inr (what, fails) ↦ inr (ground (arith, fails), ground (arith, fails))
      | inl (v, is) ↦ elim (Bool-cases (c.eq var.value v)) [
        | inl same ↦
            let e = (eq var.value v).0 same in
            inl (ground (arith, is, same), (v, is, ground (arith, is, same, e)))
        | inr new ↦ elim (Option-cases (notify var.cbs var.value v w).1) [
          | inl quiet ↦
              inl (ground (arith, is, new, quiet), (v, is, ground (arith, is, new, quiet)))
          | inr (what, thrown) ↦
              inr (ground (arith, is, new, thrown), ground (arith, is, new, thrown))
        ]
      ]
    ]

    -- Setting a variable whose listeners do not throw leaves it with the value and otherwise as before. If that
    -- is the value it had, nothing is called; else every listener is called once, in the order of the keys, on
    -- the old and the new value, before the next one. Setting the same value again calls none and changes
    -- nothing. The comparison of values decides their equality.
    pub set_value_twice :
        (var : ConfigVar T W) (v : T) (w : W)
        → AreQuiet var.cbs
        → let called : W = if c.eq var.value v then w else after var.cbs var.value v w in
          (set_value c var v w ≡ (record var { value = v }, called, none))
          × (set_value c (record var { value = v }) v called
              ≡ (record var { value = v }, called, none))
    unfolding set_value
    set_value_twice var v w quiet = (
      elim (Bool-cases (c.eq var.value v)) [
        | inl same ↦ let e = (eq var.value v).0 same in ground (arith, same, e)
        | inr differs ↦ ground (arith, differs, notify-after var.cbs var.value v w quiet)
      ],
      rw ((eq v v).1 refl) refl,
    )
