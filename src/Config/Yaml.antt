-- ===== src/Config/Yaml.antt =====
-- ListAllMember of src/config.cpp, over the YAML library's nodes.
pub mod Listing
use ye_cc_server.Prelude.{
  ℕ, zero, suc, Bool, true, false, List, [], ◌∷◌, ◌++◌, if◌then◌else◌, Outcome, ok, out_of_fuel,
  ◌>>=◌, Bytes, codes, bytes_eq,
}
use ye_cc_server.Log.Level.{Level, error}
use ye_cc_server.Config.Name.{is_valid_name}

-- The YAML library's nodes: a map node has members, each with the scalar of its key.
pub record Yaml : Type 1 where
  pub Node : Type 0
  pub is_map : Node → Bool
  pub members : Node → List (Bytes × Node)
  pub is_scalar : Node → Bool
  pub scalar : Node → Bytes
  -- what `ss << node` writes
  pub emit : Node → Bytes

-- The dotted name of a member.
abbrev pub nested : Bytes → Bytes → Bytes
nested prefix key = if bytes_eq prefix [] then key else prefix ++ (b'.' ∷ key)

-- The text that LoadFromYaml hands to a variable.
abbrev pub node_text : (yaml : Yaml) → yaml.Node → Bytes
node_text yaml node = if yaml.is_scalar node then yaml.scalar node else yaml.emit node

module _ {κ} {W : Type κ} (log : Level → Bytes → W → W) (yaml : Yaml) where
  open yaml use {Node, is_map, members, emit}

  -- The list `output` and the world.
  abbrev pub Listing : Type κ
  Listing = List (Bytes × Node) × W

  -- The head of ListAllMember, up to output.push_back.
  abbrev pub list_node : Bytes → Node → Listing → Listing
  list_node prefix node l = (
    l.0 ++ (prefix, node) ∷ [],
    if is_valid_name prefix
        then l.1
        else log error (codes "Config Invalid name: " ++ (prefix ++ (codes " : " ++ emit node)))
            l.1,
  )

  -- The loop over the members of a map node, for a call `visit_node` of ListAllMember.
  unfoldable pub list_members :
      (Bytes → Node → Listing → Outcome Listing)
      → Bytes
      → List (Bytes × Node)
      → Listing
      → Outcome Listing
  list_members visit_node prefix [] l = ok l
  list_members visit_node prefix ((key, node) ∷ rest) l =
      visit_node (nested prefix key) node l >>= λ l'. list_members visit_node prefix rest l'

  -- ListAllMember. The fuel bounds the depth of the nodes.
  unfoldable pub list_all_member : ℕ → Bytes → Node → Listing → Outcome Listing
  unfolding list_members
  list_all_member zero prefix node l = out_of_fuel
  list_all_member (suc fuel) prefix node l = elim (is_map node) [
    | false ↦ ok (list_node prefix node l)
    | true ↦ list_members (list_all_member fuel) prefix (members node) (list_node prefix node l)
  ]
