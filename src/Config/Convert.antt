-- ===== src/Config/Convert.antt =====
-- LexicalCast of include/config.hpp: the conversions of containers from and to YAML text, over the YAML
-- library's functions. The templates for vector, list, set and unordered_set are one loop over different
-- containers, and so are those for map and unordered_map.
pub mod Laws
pub mod RoundTrip
pub mod Keys
pub mod Nested
pub mod Reads
use ye_cc_server.Prelude.{ℕ, zero, suc, ◌+◌, Bool, List, [], ◌∷◌, ◌++◌, if◌then◌else◌, Bytes}
use ye_cc_server.Prelude.Maps.{put, bytes_key}
use ye_cc_server.Config.Var.{Cast, cast, refused}

-- What the conversions call of the YAML library. A Node may be undefined.
pub record Library : Type 1 where
  pub Node : Type 0
  -- YAML::Load, which throws on text that is not YAML
  pub load : Bytes → Cast Node
  -- what `ss << node` writes
  pub emit : Node → Bytes
  pub size : Node → ℕ
  -- node[i]
  pub at : Node → ℕ → Node
  -- node["key"], which throws on a scalar
  pub get : Node → Bytes → Cast Node
  pub is_defined : Node → Bool
  -- node.as<std::string>()
  pub as_string : Node → Cast Bytes
  -- what `for(auto p: node)` visits, with `p.first.Scalar()`, or the exception of the latter
  pub each : Node → Cast (List (Bytes × Node))
  -- YAML::Node node;
  pub null : Node
  -- YAML::Node(text)
  pub scalar_node : Bytes → Node
  -- node.push_back(item)
  pub push_back : Node → Node → Node
  -- node[key] = value
  pub insert : Node → Bytes → Node → Node

infixl 5 ◌>>=◌
abbrev pub ◌>>=◌ {ℓ κ} : {A : Type ℓ} {B : Type κ} → Cast A → (A → Cast B) → Cast B
cast a >>= f = f a
refused what >>= f = refused what

-- LexicalCast<std::string, T> and LexicalCast<T, std::string>.
pub record Lexical {ℓ} (T : Type ℓ) : Type ℓ where
  pub from_str : Bytes → Cast T
  pub to_str : T → Cast Bytes

-- What the loops use of std::vector, std::list, std::set and std::unordered_set: push_back or insert,
-- and the order of iteration.
pub record Container {ℓ} (T C : Type ℓ) : Type ℓ where
  pub empty : C
  pub insert : T → C → C
  pub elements : C → List T

-- What they use of std::map and std::unordered_map with keys of type std::string.
pub record Keyed {ℓ} (T C : Type ℓ) : Type ℓ where
  pub empty : C
  pub assign : Bytes → T → C → C
  pub entries : C → List (Bytes × T)

module _ {ℓ} {T C : Type ℓ} (lib : Library) (c : Container T C) where
  -- for(size_t i = 0; i<node.size(); i++), from `i` on with `left` rounds to go.
  unfoldable pub read_items : (Bytes → Cast T) → lib.Node → ℕ → ℕ → C → Cast C
  read_items from node zero i ret = cast ret
  read_items from node (suc left) i ret =
      from (lib.emit (lib.at node i)) >>= λ x. read_items from node left (i + 1) (c.insert x ret)

  unfoldable pub container_from : (Bytes → Cast T) → Bytes → Cast C
  unfolding read_items
  container_from from v = lib.load v >>= λ node. read_items from node (lib.size node) 0 c.empty

  -- for(auto d: v) node.push_back(YAML::Node(...))
  unfoldable pub push_items : (T → Cast Bytes) → lib.Node → List T → Cast lib.Node
  push_items to node [] = cast node
  push_items to node (d ∷ ds) =
      to d >>= λ text. push_items to (lib.push_back node (lib.scalar_node text)) ds

  unfoldable pub container_to : (T → Cast Bytes) → C → Cast Bytes
  unfolding push_items
  container_to to v = push_items to lib.null (c.elements v) >>= λ node. cast (lib.emit node)

  -- The two conversions of a container, from those of its elements.
  abbrev pub container_lexical : Lexical T → Lexical C
  container_lexical l = record {
    from_str = container_from l.from_str;
    to_str = container_to l.to_str;
  }

module _ {ℓ} {T C : Type ℓ} (lib : Library) (c : Keyed T C) where
  -- for(auto p: node)
  unfoldable pub read_entries : (Bytes → Cast T) → List (Bytes × lib.Node) → C → Cast C
  read_entries from [] ret = cast ret
  read_entries from ((key, node) ∷ rest) ret =
      from (lib.emit node) >>= λ x. read_entries from rest (c.assign key x ret)

  unfoldable pub keyed_from : (Bytes → Cast T) → Bytes → Cast C
  unfolding read_entries
  keyed_from from v =
      lib.load v >>= λ node. lib.each node >>= λ entries. read_entries from entries c.empty

  -- for(auto d: v) node[d.first] = YAML::Node(...)
  unfoldable pub insert_entries : (T → Cast Bytes) → lib.Node → List (Bytes × T) → Cast lib.Node
  insert_entries to node [] = cast node
  insert_entries to node ((key, d) ∷ ds) =
      to d >>= λ text. insert_entries to (lib.insert node key (lib.scalar_node text)) ds

  unfoldable pub keyed_to : (T → Cast Bytes) → C → Cast Bytes
  unfolding insert_entries
  keyed_to to v = insert_entries to lib.null (c.entries v) >>= λ node. cast (lib.emit node)

  abbrev pub keyed_lexical : Lexical T → Lexical C
  keyed_lexical l = record { from_str = keyed_from l.from_str; to_str = keyed_to l.to_str }

-- `insert` of std::set: an element that is neither before nor behind an old one is not inserted.
unfoldable pub set_insert {ℓ} : {T : Type ℓ} → (T → T → Bool) → T → List T → List T
set_insert less x [] = x ∷ []
set_insert less x (y ∷ ys) =
    if less x y then x ∷ y ∷ ys else if less y x then y ∷ set_insert less x ys else y ∷ ys

abbrev pub list_container {ℓ} : {T : Type ℓ} → Container T (List T)
list_container = record { empty = []; insert = λ x xs. xs ++ x ∷ []; elements = λ xs. xs }

abbrev pub set_container {ℓ} : {T : Type ℓ} → (T → T → Bool) → Container T (List T)
set_container less = record { empty = []; insert = set_insert less; elements = λ xs. xs }

abbrev pub map_keyed {ℓ} : {T : Type ℓ} → Keyed T (List (Bytes × T))
map_keyed = record { empty = []; assign = put; entries = λ xs. xs }

module _ {ℓ} {T : Type ℓ} (lib : Library) where
  -- The specialisations for std::vector, std::list, std::set and std::map.
  unfoldable pub vector_lexical : Lexical T → Lexical (List T)
  vector_lexical = container_lexical lib list_container

  unfoldable pub list_lexical : Lexical T → Lexical (List T)
  list_lexical = container_lexical lib list_container

  unfoldable pub set_lexical : (T → T → Bool) → Lexical T → Lexical (List T)
  set_lexical less = container_lexical lib (set_container less)

  unfoldable pub map_lexical : Lexical T → Lexical (List (Bytes × T))
  map_lexical = keyed_lexical lib map_keyed

  -- The specialisations for std::unordered_set and std::unordered_map, whose hash tables are a parameter.
  unfoldable unordered_set_lexical : {C : Type ℓ} → Container T C → Lexical T → Lexical C
  unordered_set_lexical = container_lexical lib

  unfoldable unordered_map_lexical : {C : Type ℓ} → Keyed T C → Lexical T → Lexical C
  unordered_map_lexical = keyed_lexical lib
