-- ===== src/Config/Convert/Laws.antt =====
-- What the conversions of include/config.hpp rely on of the YAML library: documented behaviour, on the
-- nodes that they build, whose items and values are scalars.
use ye_cc_server.Prelude.{
  ℕ, ◌≡◌, Bool, true, none, List, [], ◌∷◌, map, some, Bytes, All, length, get_elem?, ltb, ◌&&◌,
}
use ye_cc_server.Prelude.Maps.{find, bytes_key}
use ye_cc_server.Config.Var.{cast, refused}
use ye_cc_server.Config.Convert.{Library}

abbrev pub is_ascii : Bytes → Bool
is_ascii [] = true
is_ascii (c ∷ t) = ltb c 128 && is_ascii t

abbrev pub AreTexts : (Bytes → Bool) → List (Bytes × Bytes) → Type 0
AreTexts is_text = All (λ (e : Bytes × Bytes). (is_text e.0 ≡ true) × (is_text e.1 ≡ true))

module _ (lib : Library) where
  -- A node behind `push_back` of scalars, and behind `node[key] = scalar`.
  abbrev pub sequence_onto : lib.Node → List Bytes → lib.Node
  sequence_onto node [] = node
  sequence_onto node (t ∷ ts) = sequence_onto (lib.push_back node (lib.scalar_node t)) ts

  abbrev pub sequence : List Bytes → lib.Node
  sequence = sequence_onto lib.null

  abbrev pub mapping_onto : lib.Node → List (Bytes × Bytes) → lib.Node
  mapping_onto node [] = node
  mapping_onto node ((key, t) ∷ ts) = mapping_onto (lib.insert node key (lib.scalar_node t)) ts

  abbrev pub mapping : List (Bytes × Bytes) → lib.Node
  mapping = mapping_onto lib.null

  abbrev pub IsDistinct : List (Bytes × Bytes) → Type 0
  IsDistinct [] = Unit
  IsDistinct ((key, t) ∷ ts) = (find key ts ≡ none) × IsDistinct ts

  -- `is_text` holds of the strings that YAML can write, those of valid UTF-8.
  pub record IsLibrary : Type 0 where
    pub is_text : Bytes → Bool
    pub ascii_is_text : (t : Bytes) → is_ascii t ≡ true → is_text t ≡ true
    pub load_scalar :
        (t : Bytes)
        → is_text t ≡ true
        → lib.load (lib.emit (lib.scalar_node t)) ≡ cast (lib.scalar_node t)
    pub load_sequence :
        (ts : List Bytes)
        → All (λ t. is_text t ≡ true) ts
        → lib.load (lib.emit (sequence ts)) ≡ cast (sequence ts)
    pub load_mapping :
        (ts : List (Bytes × Bytes))
        → AreTexts is_text ts
        → IsDistinct ts
        → lib.load (lib.emit (mapping ts)) ≡ cast (mapping ts)
    pub emit_sequence :
        (ts : List Bytes) → All (λ t. is_text t ≡ true) ts → is_text (lib.emit (sequence ts)) ≡ true
    pub emit_mapping :
        (ts : List (Bytes × Bytes))
        → AreTexts is_text ts
        → IsDistinct ts
        → is_text (lib.emit (mapping ts)) ≡ true
    pub size_scalar : (t : Bytes) → lib.size (lib.scalar_node t) ≡ 0
    pub size_sequence : (ts : List Bytes) → lib.size (sequence ts) ≡ length ts
    pub at_sequence :
        (ts : List Bytes) (i : ℕ) (t : Bytes)
        → get_elem? ts i ≡ some t
        → lib.at (sequence ts) i ≡ lib.scalar_node t
    pub each_mapping :
        (ts : List (Bytes × Bytes))
        → IsDistinct ts
        → lib.each (mapping ts) ≡ cast (map (λ (e : Bytes × Bytes). (e.0, lib.scalar_node e.1)) ts)
    pub get_mapping :
        (ts : List (Bytes × Bytes)) (key t : Bytes)
        → IsDistinct ts
        → find key ts ≡ some t
        → lib.get (mapping ts) key ≡ cast (lib.scalar_node t)
    pub get_scalar :
        (t key : Bytes) → (what : Bytes) × (lib.get (lib.scalar_node t) key ≡ refused what)
    pub defined_scalar : (t : Bytes) → lib.is_defined (lib.scalar_node t) ≡ true
    pub as_scalar : (t : Bytes) → lib.as_string (lib.scalar_node t) ≡ cast t
