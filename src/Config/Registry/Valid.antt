-- ===== src/Config/Registry/Valid.antt =====
-- The invariant of the registry of include/config.hpp, and Config::Lookup.
use ye_cc_server.Prelude.{
  ℕ, ◌≡◌, refl, ◌∙◌, inl, inr, ◌⊎◌, true, false, [], ◌∷◌, ◌++◌, Option, some, none, arith, ◌≤◌,
  Outcome, ok, throws, Bytes, bytes_eq, bytes_eq_iff, length, get_elem?, get_elem?-lt,
  get_elem?-append_left, get_elem?-append_length, Bool-cases, Option-cases, ==_iff,
}
use ye_cc_server.Prelude.Maps.{find, put, find-put, bytes_key}
use ye_cc_server.Log.Level.{Level}
use ye_cc_server.Config.Var.{Codec, new_var}
use ye_cc_server.Config.Name.{is_valid_name, lower-valid}
use ye_cc_server.Config.Registry.{Variable, Config, lookup, lookup_taken, lookup_or_create}

-- The name leads to a variable that bears it, and is a valid one.
pub record IsEntry {ℓ κ} {U : Type ℓ} {W : Type κ} (c : Config U W) (name : Bytes) (p : ℕ)
    : Type (ℓ ⊔ κ) where
  pub variable : Variable U W
  pub at : get_elem? c.variables p ≡ some variable
  pub bears : variable.var.name ≡ name
  pub valid : is_valid_name name ≡ true

abbrev pub IsConfig {ℓ κ} : {U : Type ℓ} {W : Type κ} → Config U W → Type (ℓ ⊔ κ)
IsConfig c = (name : Bytes) (p : ℕ) → find name c.datas ≡ some p → IsEntry c name p

module _ {ℓ κ} {U : Type ℓ} {W : Type κ} (codec : ℕ → Codec U) (log : Level → Bytes → W → W) where
  -- The name leads to a new variable of the type, with the value, the description and no listener; the other
  -- names lead where they led.
  pub record IsCreated (c : Config U W) (tag : ℕ) (name : Bytes) (default_val : U) (desp : Bytes)
      (c' : Config U W) (r : Outcome (Option ℕ)) : Type (ℓ ⊔ κ) where
    pub place : ℕ
    pub is_new : length c.variables ≤ place
    pub returned : r ≡ ok (some place)
    pub found : lookup c' tag name ≡ some place
    pub made :
        get_elem? c'.variables place
        ≡ some (record {
          tag = tag;
          var = record { name = name; description = desp; value = default_val; cbs = [] };
        })
    pub others :
        (other : Bytes) → bytes_eq name other ≡ false → find other c'.datas ≡ find other c.datas

  -- What Config::Lookup promises: the registry stays valid and no variable is lost or changed; on an invalid
  -- name that is not there the call throws, with no change; on a valid one it creates the variable; and a name
  -- that is there stays, and what it leads to at the type is returned.
  pub record LooksUp (c : Config U W) (tag : ℕ) (name : Bytes) (default_val : U) (desp : Bytes)
      (c' : Config U W) (r : Outcome (Option ℕ)) : Type (ℓ ⊔ κ) where
    pub registry : IsConfig c'
    pub kept :
        (q : ℕ) (v : Variable U W)
        → get_elem? c.variables q ≡ some v
        → get_elem? c'.variables q ≡ some v
    pub result :
        ((find name c.datas ≡ none) × (is_valid_name name ≡ false) × (r ≡ throws name) × (c' ≡ c))
        ⊎ (((find name c.datas ≡ none)
              × (is_valid_name name ≡ true)
              × IsCreated c tag name default_val desp c' r)
            ⊎ ((p : ℕ) × (find name c.datas ≡ some p) × (c' ≡ c) × (r ≡ ok (lookup c tag name))))

  LooksUp-taken :
      (c : Config U W) (tag : ℕ) (name : Bytes) (default_val : U) (desp : Bytes) (p : ℕ)
      (v : Variable U W) (w : W)
      → IsConfig c
      → find name c.datas ≡ some p
      → get_elem? c.variables p ≡ some v
      → LooksUp c tag name default_val desp c (ok (lookup_taken codec log c tag name p v w).1)
  unfolding lookup lookup_taken
  LooksUp-taken c tag name default_val desp p v w valid e at = record {
    registry = valid;
    kept = λ q x h. h;
    result = inr (inr (p, e, refl, ground (arith, e, at)));
  }

  -- The variable that is made.
  abbrev fresh : ℕ → Bytes → U → Bytes → Variable U W
  fresh tag name default_val desp = record {
    tag = tag;
    var = record { name = name; description = desp; value = default_val; cbs = [] };
  }

  LooksUp-new :
      (c : Config U W) (tag : ℕ) (name : Bytes) (default_val : U) (desp : Bytes)
      → IsConfig c
      → find name c.datas ≡ none
      → is_valid_name name ≡ true
      → let p = length c.variables in
        LooksUp c tag name default_val desp
          (record {
            variables = c.variables ++ fresh tag name default_val desp ∷ [];
            datas = put name p c.datas;
          })
          (ok (some p))
  unfolding lookup
  LooksUp-new c tag name default_val desp valid missing good = record {
    registry = each;
    kept = old;
    result = inr (
        inl (
          missing,
          good,
          record {
            place = p;
            is_new = omega arith;
            returned = refl;
            found = ground (
              arith,
              find-put name name p c.datas,
              (bytes_eq_iff name name).1 refl,
              get_elem?-append_length c.variables v,
              (==_iff tag tag).1 refl,
            );
            made = get_elem?-append_length c.variables v;
            others = λ other ne. find-put name other p c.datas ∙ rw ne refl;
          },
        ));
  }
    where
      p : ℕ
      p = length c.variables

      v : Variable U W
      v = fresh tag name default_val desp

      new : Config U W
      new = record { variables = c.variables ++ v ∷ []; datas = put name p c.datas }

      old :
          (q : ℕ) (x : Variable U W)
          → get_elem? c.variables q ≡ some x
          → get_elem? (c.variables ++ v ∷ []) q ≡ some x
      old q x h = get_elem?-append_left c.variables (v ∷ []) q (get_elem?-lt c.variables q x h) ∙ h

      each :
          (other : Bytes) (q : ℕ)
          → find other (put name (length c.variables) c.datas) ≡ some q
          → IsEntry
              (record {
                variables = c.variables ++ v ∷ [];
                datas = put name (length c.variables) c.datas;
              })
              other
              q
      each other q h = elim (Bool-cases (bytes_eq name other)) [
        | inl same ↦
            let eq = (bytes_eq_iff name other).0 same in
            let is : length c.variables ≡ q =
              ground (arith, h, same, find-put name other (length c.variables) c.datas) in
            rw (← is) (record {
              variable = v;
              at = get_elem?-append_length c.variables v;
              bears = eq;
              valid = rw (← eq) good;
            })
        | inr differs ↦
            let e =
              valid other q
                (ground (arith, h, differs, find-put name other (length c.variables) c.datas)) in
            record {
              variable = e.variable;
              at = old q e.variable e.at;
              bears = e.bears;
              valid = e.valid;
            }
      ]

  -- Looking a name up at a type, in a valid registry, to create it where it is not there: the registry
  -- stays valid and no variable is lost or changed. On an invalid name that is not there the call throws, and
  -- changes nothing. On a valid one that is not there it makes a variable of that name with the value, the
  -- description and no listener, which the name leads to from then on, while the others lead where they led,
  -- and returns it. A name that is there changes nothing, and the call returns what it leads to at the type,
  -- which is null where the variable is of another type.
  pub lookup_or_create-LooksUp :
      (c : Config U W) (tag : ℕ) (name : Bytes) (default_val : U) (desp : Bytes) (w : W)
      → IsConfig c
      → let (c', w', r) = lookup_or_create codec log c tag name default_val desp w in
        LooksUp c tag name default_val desp c' r
  unfolding lookup_or_create new_var
  lookup_or_create-LooksUp c tag name default_val desp w valid =
      elim (Option-cases (find name c.datas)) [
        | inr (p, e) ↦
            let entry = valid name p e in
            rw (e, lookup_or_create, entry.at)
              (LooksUp-taken c tag name default_val desp p entry.variable w valid e entry.at)
        | inl e ↦ elim (Bool-cases (is_valid_name name)) [
          | inl good ↦
              let lower = lower-valid name good in
              rw (e, lookup_or_create, good, new_var, lower)
                (LooksUp-new c tag name default_val desp valid e good)
          | inr bad ↦
              rw (e, lookup_or_create, bad)
                (record { registry = valid; kept = λ q x h. h; result = inl (e, bad, refl, refl) })
        ]
      ]
