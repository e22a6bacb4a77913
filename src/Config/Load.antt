-- ===== src/Config/Load.antt =====
-- Config::LoadFromYaml of src/config.cpp.
pub mod Frame
pub mod Takes
use ye_cc_server.Prelude.{
  ℕ, List, [], ◌∷◌, if◌then◌else◌, Option, none, some, Outcome, ok, ◌>>=◌, Bytes, bytes_eq, map,
  to_lower,
}
use ye_cc_server.Log.Level.{Level}
use ye_cc_server.Config.Var.{Codec}
use ye_cc_server.Config.Registry.{Config, lookup_base, assign}
use ye_cc_server.Config.Yaml.{Yaml, node_text, list_all_member}

module _ {ℓ κ} {U : Type ℓ} {W : Type κ} (codec : ℕ → Codec U) (log : Level → Bytes → W → W)
    (yaml : Yaml) where
  open yaml use {Node}

  -- The body of the loop of LoadFromYaml.
  unfoldable pub load_node : Config U W → Bytes → Node → W → Config U W × W
  unfolding assign lookup_base
  load_node c key node w =
      if bytes_eq key [] then (c, w) else elim (lookup_base c (map to_lower key)) [
        | none ↦ (c, w)
        | some p ↦ assign codec log c p (node_text yaml node) w
      ]

  unfoldable pub load_nodes : Config U W → List (Bytes × Node) → W → Config U W × W
  unfolding load_node
  load_nodes c [] w = (c, w)
  load_nodes c ((key, node) ∷ rest) w =
      let (c', w') = load_node c key node w in load_nodes c' rest w'

  -- Config::LoadFromYaml.
  unfoldable pub load_from_yaml : ℕ → Config U W → Node → W → Outcome (Config U W × W)
  unfolding list_all_member load_nodes
  load_from_yaml fuel c root w =
      list_all_member log yaml fuel [] root ([], w) >>= λ l. ok (load_nodes c l.0 l.1)
