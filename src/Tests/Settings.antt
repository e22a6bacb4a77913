-- ===== src/Tests/Settings.antt =====
-- A registry of include/config.hpp with one variable, and a small YAML tree.
use mathlib.Core.Path.{subst}
use ye_cc_server.Prelude.{
  ℕ, suc, ◌≡◌, ◌<◌, ◌⊎◌, ◌+◌, refl, inl, inr, true, false, [], ◌∷◌, none, some, ok, Bytes, codes,
  bytes_eq, bytes_eq_iff, to_lower, ◌==◌, ==_iff, if◌then◌else◌, length, map, All, Bool-cases,
  Returns, arith,
}
use ye_cc_server.Prelude.Maps.{find, bytes_key}
use ye_cc_server.Log.Level.{Level}
use ye_cc_server.Config.Name.{is_valid_name}
use ye_cc_server.Config.Var.{
  cast, refused, Codec, Listener, ConfigVar, set_value, from_string, add_listener, get_listener,
}
use ye_cc_server.Config.Var.Changes.{IsEq, from_string_atomic, set_value_twice}
use ye_cc_server.Config.Var.Listeners.{IsKeyed, add_listener_fresh}
use ye_cc_server.Config.Registry.{Config, lookup_or_create}
use ye_cc_server.Config.Registry.Valid.{IsEntry, IsConfig, LooksUp, lookup_or_create-LooksUp}
use ye_cc_server.Config.Yaml.{Yaml, list_all_member}
use ye_cc_server.Config.Yaml.Listing.{
  IsTree, preorder, extended, paths, by_name, list_all_member-paths,
}
use ye_cc_server.Config.Load.{load_from_yaml}
use ye_cc_server.Config.Load.Frame.{Loads, named, load_from_yaml-Loads}
use ye_cc_server.Config.Load.Takes.{Has, load_from_yaml-Takes}

-- Texts of one digit stand for numbers. The world counts the reports and the calls of listeners.
abbrev digit : Codec ℕ
digit = record {
  eq = λ a b. a == b;
  from_str = λ s. elim s [ [] ↦ refused (codes "empty") | c ∷ rest ↦ cast c ];
  to_str = λ n. cast (n ∷ []);
  type_name = codes "i";
}

digit-IsEq : IsEq digit
digit-IsEq a b = ==_iff a b

abbrev count : Level → Bytes → ℕ → ℕ
count level text w = w + 1

abbrev counting : Listener ℕ ℕ
counting old new w = (w + 1, none)

abbrev port : ConfigVar ℕ ℕ
port = record { name = codes "port"; description = []; value = 8; cbs = (0, counting) ∷ [] }

from_string_atomic_example :
    let (var', w', done) = from_string count digit port (5 ∷ []) 0 in
    ((done ≡ true)
      × ((v : ℕ) × (digit.from_str (5 ∷ []) ≡ cast v) × (var' ≡ record port { value = v })))
    ⊎ ((done ≡ false) × (var' ≡ port))
from_string_atomic_example = from_string_atomic digit digit-IsEq count port (5 ∷ []) 0

set_value_twice_example :
    (set_value digit port 5 0 ≡ (record port { value = 5 }, 1, none))
    × (set_value digit (record port { value = 5 }) 5 1 ≡ (record port { value = 5 }, 1, none))
set_value_twice_example = set_value_twice digit digit-IsEq count port 5 0 ((λ old new w. refl), tt)

add_listener_fresh_example :
    let (next, var', given) = add_listener 1 port counting in
    (length var'.cbs ≡ suc (length port.cbs))
    × IsKeyed next var'
    × ((k : ℕ) → get_listener var' k ≡ (if given == k then some counting else get_listener port k))
add_listener_fresh_example = add_listener_fresh 1 port counting (omega arith, tt) (omega arith)

abbrev types : ℕ → Codec ℕ
types tag = digit

abbrev settings : Config ℕ ℕ
settings = record {
  variables = record { tag = 0; var = port } ∷ [];
  datas = (codes "port", 0) ∷ [];
}

settings-IsConfig : IsConfig settings
unfolding find is_valid_name
settings-IsConfig name p e = elim (Bool-cases (bytes_eq (codes "port") name)) [
  | inl same ↦
      let is : 0 ≡ p = ground (arith, e, same) in
      let eq = (bytes_eq_iff (codes "port") name).0 same in
      subst (IsEntry settings name) is (record {
        variable = record { tag = 0; var = port };
        at = refl;
        bears = eq;
        valid = rw (← eq) refl;
      })
  | inr other ↦ absurd (ground (arith, e, other))
]

lookup_or_create-LooksUp_example :
    let (c', w', r) = lookup_or_create types count settings 0 (codes "host") 1 [] 0 in
    LooksUp types count settings 0 (codes "host") 1 [] c' r
lookup_or_create-LooksUp_example =
    lookup_or_create-LooksUp types count settings 0 (codes "host") 1 [] 0 settings-IsConfig

-- A map with members, or a scalar.
data Tree : Type 0 where
  inner : Tree
  leaf : Bytes → Tree

abbrev file_tree : Yaml
file_tree = record {
  Node = Tree;
  is_map = λ n. elim n [ inner ↦ true | leaf s ↦ false ];
  members = λ n. elim n [
    | inner ↦ (codes "Port", leaf (codes "4")) ∷ (codes "port", leaf (codes "5")) ∷ []
    | leaf s ↦ []
  ];
  is_scalar = λ n. elim n [ inner ↦ false | leaf s ↦ true ];
  scalar = λ n. elim n [ inner ↦ [] | leaf s ↦ s ];
  emit = λ n. elim n [ inner ↦ [] | leaf s ↦ s ];
}

file_tree-IsTree : IsTree file_tree
file_tree-IsTree = record { depth = depth; falls = falls }
  where
    depth : Tree → ℕ
    depth inner = 1
    depth (leaf s) = 0

    falls :
        (n : Tree)
        → file_tree.is_map n ≡ true
        → All (λ (m : Bytes × Tree). depth m.1 < depth n) (file_tree.members n)
    falls inner h = (omega arith, (omega arith, tt))
    falls (leaf s) h = tt

list_all_member-paths_example :
    list_all_member count file_tree 2 [] inner ([], 0)
    ≡ ok (
        extended count file_tree file_tree-IsTree
          ([], 0)
          (map (by_name file_tree) (paths file_tree 2 [] inner)))
unfolding file_tree-IsTree
list_all_member-paths_example =
    list_all_member-paths count file_tree file_tree-IsTree 2 inner ([], 0) (omega arith)

load_from_yaml-Loads_example :
    Returns
      (λ r.
        Loads types count (named types count settings (preorder file_tree 2 [] inner)) settings r.0)
      (load_from_yaml types count file_tree 2 settings inner 0)
unfolding file_tree-IsTree
load_from_yaml-Loads_example =
    load_from_yaml-Loads types count file_tree file_tree-IsTree 2 settings inner 0 (omega arith)

-- Both nodes lead to the variable `port`; the second one decides.
load_from_yaml-Takes_example :
    Returns
      (λ r. Has types count file_tree r.0 0 (record { tag = 0; var = port }) 53)
      (load_from_yaml types count file_tree 2 settings inner 0)
unfolding file_tree-IsTree preorder bytes_eq find to_lower
load_from_yaml-Takes_example =
    load_from_yaml-Takes types count file_tree file_tree-IsTree 2 settings inner 0
      (([], inner) ∷ (codes "Port", leaf (codes "4")) ∷ []) [] (codes "port") (leaf (codes "5")) 0
      (record { tag = 0; var = port }) 53 (omega arith) refl refl refl refl
      ((λ old new w. refl), tt) refl
