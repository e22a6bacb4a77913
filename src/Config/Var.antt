-- ===== src/Config/Var.antt =====
-- ConfigVarBase and ConfigVar<T, FromStr, ToStr> of include/config.hpp. The mutex is not modelled: a
-- call is one step. A listener runs under the variable's lock, so it works on the world `W` around the
-- variable and not on the variable.
pub mod Changes
pub mod Listeners
use ye_cc_server.Prelude.{
  ℕ, ◌+◌, ◌%◌, ◌^◌, Bool, true, false, List, [], ◌∷◌, ◌++◌, map, if◌then◌else◌, Option, none, some,
  Bytes, codes, to_lower,
}
use ye_cc_server.Prelude.Maps.{find, put, erase, nat_key}
use ye_cc_server.Log.Level.{Level, error}

-- A conversion: a value, or an exception with its text.
pub data Cast {ℓ} (A : Type ℓ) : Type ℓ where
  cast : A → Cast A
  refused : Bytes → Cast A

-- What a type T brings: `operator==`, FromStr, ToStr and typeid(T).name().
pub record Codec {ℓ} (T : Type ℓ) : Type ℓ where
  pub eq : T → T → Bool
  pub from_str : Bytes → Cast T
  pub to_str : T → Cast Bytes
  pub type_name : Bytes

-- on_change_cb, from the old and the new value: the world behind the call, and the text of the
-- exception that left it.
abbrev pub Listener {ℓ κ} : Type ℓ → Type κ → Type (ℓ ⊔ κ)
Listener T W = T → T → W → W × Option Bytes

pub record ConfigVar {ℓ κ} (T : Type ℓ) (W : Type κ) : Type (ℓ ⊔ κ) where
  pub name : Bytes
  pub description : Bytes
  pub value : T
  pub cbs : List (ℕ × Listener T W)

module _ {ℓ κ} {T : Type ℓ} {W : Type κ} where
  -- ConfigVar::ConfigVar and ConfigVarBase::ConfigVarBase, which puts the name in lower case.
  unfoldable pub new_var : Bytes → T → Bytes → ConfigVar T W
  new_var name default_val desp = record {
    name = map to_lower name;
    description = desp;
    value = default_val;
    cbs = [];
  }

  -- The loop of setValue over the listeners.
  unfoldable pub notify : List (ℕ × Listener T W) → T → T → W → W × Option Bytes
  notify [] old new w = (w, none)
  notify ((key, cb) ∷ cbs) old new w =
      let (w', thrown) = cb old new w in
      elim thrown [ none ↦ notify cbs old new w' | some what ↦ (w', some what) ]

  -- ConfigVar::setValue: the variable, the world, and the exception that left the call.
  unfoldable pub set_value : Codec T → ConfigVar T W → T → W → ConfigVar T W × W × Option Bytes
  set_value c var v w =
      if c.eq var.value v
      then (var, w, none)
      else (let (w', thrown) = notify var.cbs var.value v w in
          elim thrown [
            | none ↦ (record var { value = v }, w', none)
            | some what ↦ (var, w', some what)
          ])

  -- `log` is YECC_LOG_…(YECC_ROOT_LOG) at a level.
  module _ (log : Level → Bytes → W → W) where
    -- The handler of ConfigVar::fromString.
    abbrev pub from_string_failed : Codec T → Bytes → W → W
    from_string_failed c what = log error (
        codes "ConfigVar::fromString exception"
        ++ (what ++ (codes " convert: string to" ++ c.type_name)))

    -- ConfigVar::fromString: the variable, the world, and the value returned.
    unfoldable pub from_string : Codec T → ConfigVar T W → Bytes → W → ConfigVar T W × W × Bool
    unfolding set_value
    from_string c var val w = elim (c.from_str val) [
      | refused what ↦ (var, from_string_failed c what w, false)
      | cast v ↦
          let (var', w', thrown) = set_value c var v w in
          elim thrown [
            | none ↦ (var', w', true)
            | some what ↦ (var', from_string_failed c what w', false)
          ]
    ]

    -- ConfigVar::toString.
    unfoldable pub to_string : Codec T → ConfigVar T W → W → Bytes × W
    to_string c var w = elim (c.to_str var.value) [
      | cast text ↦ (text, w)
      | refused what ↦ (
        [],
        log error
            (codes "ConfigVar::toString exception"
              ++ (what ++ (codes " convert: " ++ (c.type_name ++ codes "to string"))))
            w,
      )
    ]

  -- ConfigVar::addListener. The static counter `key` is shared by the variables of one type: the call
  -- returns the counter behind it, the variable and the listener's key.
  unfoldable pub add_listener : ℕ → ConfigVar T W → Listener T W → ℕ × ConfigVar T W × ℕ
  add_listener key var cb = ((key + 1) % 2 ^ 64, record var { cbs = put key cb var.cbs }, key)

  -- ConfigVar::delListener.
  unfoldable pub del_listener : ConfigVar T W → ℕ → ConfigVar T W
  del_listener var key = record var { cbs = erase key var.cbs }

  -- ConfigVar::clearListener.
  unfoldable pub clear_listener : ConfigVar T W → ConfigVar T W
  clear_listener var = record var { cbs = [] }

  -- ConfigVar::getListener.
  unfoldable pub get_listener : ConfigVar T W → ℕ → Option (Listener T W)
  get_listener var key = find key var.cbs
