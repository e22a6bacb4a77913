-- ===== src/Config/Registry.antt =====
-- Config of include/config.hpp and src/config.cpp: the map from names to variables. The variables are
-- shared objects, and a pointer to one is its number among all that were made. `tag` is the type T of a
-- variable and `U` the values of all types, so that `codec tag` is what that type brings;
-- dynamic_pointer_cast succeeds if the tags agree. A call is one step: the mutex is not modelled.
pub mod Valid
use ye_cc_server.Prelude.{
  ℕ, Bool, true, false, ◌&&◌, ◌||◌, List, [], ◌∷◌, ◌++◌, ◌==◌, leb, if◌then◌else◌, Option, none,
  some, Outcome, ok, throws, fault, out_of_fuel, ◌>>=◌, Bytes, codes, bytes_eq, length, get_elem?,
  set, map, to_lower, zero, suc,
}
use ye_cc_server.Prelude.Maps.{find, put, bytes_key}
use ye_cc_server.Log.Level.{Level, info, error}
use ye_cc_server.Config.Name.{is_valid_name}
use ye_cc_server.Config.Var.{Codec, ConfigVar, new_var, from_string, to_string}

pub record Variable {ℓ κ} (U : Type ℓ) (W : Type κ) : Type (ℓ ⊔ κ) where
  pub tag : ℕ
  pub var : ConfigVar U W

pub record Config {ℓ κ} (U : Type ℓ) (W : Type κ) : Type (ℓ ⊔ κ) where
  pub variables : List (Variable U W)
  pub datas : List (Bytes × ℕ)

-- Config::Visit, for a callback on the world: it is handed the variables in the order of their names.
unfoldable pub visit {κ} : {W : Type κ} → List (Bytes × ℕ) → (ℕ → W → W) → W → W
visit [] cb w = w
visit ((name, p) ∷ datas) cb w = visit datas cb (cb p w)

module _ {ℓ κ} {U : Type ℓ} {W : Type κ} where
  -- data.find(name), and the variable that the pointer found leads to.
  unfoldable pub lookup_base : Config U W → Bytes → Option ℕ
  lookup_base c name = find name c.datas

  -- Config::Lookup<T>(name).
  unfoldable pub lookup : Config U W → ℕ → Bytes → Option ℕ
  lookup c tag name = elim (find name c.datas) [
    | none ↦ none
    | some p ↦ elim (get_elem? c.variables p) [
      | none ↦ none
      | some v ↦ if v.tag == tag then some p else none
    ]
  ]

module _ {ℓ κ} {U : Type ℓ} {W : Type κ} (codec : ℕ → Codec U) (log : Level → Bytes → W → W) where
  -- The branch of Config::Lookup on a name that is taken.
  unfoldable pub lookup_taken : Config U W → ℕ → Bytes → ℕ → Variable U W → W → W × Option ℕ
  lookup_taken c tag name p v w =
      if v.tag == tag
      then (log info (codes "Lookup name = " ++ (name ++ codes " exists")) w, some p)
      else (let (text, w') = to_string log (codec v.tag) v.var w in
          let types = (codec v.tag).type_name ++ (codes " not: " ++ (codec tag).type_name) in
          let value = codes ", it's value is " ++ text in
          let what =
            codes "Lookup name = "
            ++ (name ++ (codes " exists but type was " ++ (types ++ value))) in
          (log error what w', none))

  -- Config::Lookup<T>(name, default_val, desp): the registry, the world, and the pointer returned or
  -- the exception.
  unfoldable pub lookup_or_create :
      Config U W → ℕ → Bytes → U → Bytes → W → Config U W × W × Outcome (Option ℕ)
  unfolding lookup_taken
  lookup_or_create c tag name default_val desp w = elim (find name c.datas) [
    | some p ↦ elim (get_elem? c.variables p) [
      | none ↦ (c, w, fault)
      | some v ↦ let (w', found) = lookup_taken c tag name p v w in (c, w', ok found)
    ]
    | none ↦ elim (is_valid_name name) [
      | false ↦ (c, log error (codes "Lookup name invalid " ++ name) w, throws name)
      | true ↦
          let p = length c.variables in
          let v : Variable U W = record { tag = tag; var = new_var name default_val desp } in
          (record { variables = c.variables ++ v ∷ []; datas = put name p c.datas }, w, ok (some p))
    ]
  ]

  -- var->fromString(text), through a pointer.
  unfoldable pub assign : Config U W → ℕ → Bytes → W → Config U W × W
  assign c p text w = elim (get_elem? c.variables p) [
    | none ↦ (c, w)
    | some v ↦
        let (var, w', done) = from_string log (codec v.tag) v.var text w in
        (record c { variables = set c.variables p (record v { var = var }) }, w')
  ]
