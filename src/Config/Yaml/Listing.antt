-- ===== src/Config/Yaml/Listing.antt =====
-- ListAllMember of src/config.cpp, and the nodes of a tree in preorder.
use mathlib.Core.List.{map-append}
use ye_cc_server.Prelude.{
  ℕ, zero, suc, ◌<◌, ◌≡◌, refl, sym, ◌∙◌, ap, inl, inr, true, false, List, [], ◌∷◌, ◌++◌,
  if◌then◌else◌, arith, append_assoc, append-nil, Outcome, ok, Bytes, All, All-map, codes,
  Bool-cases, bytes_eq, map,
}
use ye_cc_server.Log.Level.{Level, error}
use ye_cc_server.Config.Name.{is_valid_name}
use ye_cc_server.Config.Yaml.{Yaml, Listing, nested, list_members, list_all_member}

-- A depth that falls from a map node to its members, which a tree of nodes has and a cyclic one not.
pub record IsTree (yaml : Yaml) : Type 0 where
  pub depth : yaml.Node → ℕ
  pub falls :
      (n : yaml.Node)
      → yaml.is_map n ≡ true
      → All (λ (m : Bytes × yaml.Node). depth m.1 < depth n) (yaml.members n)

module _ (yaml : Yaml) where
  open yaml use {Node, is_map, members, emit}

  abbrev pub children :
      (Bytes → Node → List (Bytes × Node)) → Bytes → List (Bytes × Node) → List (Bytes × Node)
  children below prefix [] = []
  children below prefix ((key, n) ∷ ms) = below (nested prefix key) n ++ children below prefix ms

  -- A node and, behind it, those below it, member by member; the fuel bounds the depth.
  unfoldable pub preorder : ℕ → Bytes → Node → List (Bytes × Node)
  preorder zero prefix n = []
  preorder (suc fuel) prefix n =
      (prefix, n)
      ∷ (elim (is_map n) [ true ↦ children (preorder fuel) prefix (members n) | false ↦ [] ])

  -- The reports of invalid names.
  abbrev pub reports {κ} : {W : Type κ} → (Level → Bytes → W → W) → List (Bytes × Node) → W → W
  reports log [] w = w
  reports log ((prefix, n) ∷ ns) w = reports log ns (
      if is_valid_name prefix
      then w
      else log error (codes "Config Invalid name: " ++ (prefix ++ (codes " : " ++ emit n))) w)

  reports-append {κ} :
      {W : Type κ} (log : Level → Bytes → W → W) (xs ys : List (Bytes × Node)) (w : W)
      → reports log (xs ++ ys) w ≡ reports log ys (reports log xs w)
  reports-append log [] ys w = refl
  reports-append log ((prefix, n) ∷ xs) ys w = reports-append log xs ys _

module _ {κ} {W : Type κ} (log : Level → Bytes → W → W) (yaml : Yaml) (tree : IsTree yaml) where
  open yaml use {Node, is_map, members}
  open tree use {depth, falls}

  -- The listing with more nodes behind it, and their reports made.
  abbrev pub extended : Listing log yaml → List (Bytes × Node) → Listing log yaml
  extended l ns = (l.0 ++ ns, reports yaml log ns l.1)

  extended-append :
      (l : Listing log yaml) (xs ys : List (Bytes × Node))
      → extended (extended l xs) ys ≡ extended l (xs ++ ys)
  extended-append l xs ys =
      λ i. (append_assoc l.0 xs ys i, sym (reports-append yaml log xs ys l.1) i)

  list_members-children :
      (visit_node : Bytes → Node → Listing log yaml → Outcome (Listing log yaml))
      (below : Bytes → Node → List (Bytes × Node)) (prefix : Bytes) (ms : List (Bytes × Node))
      (l : Listing log yaml)
      → All
          (λ (m : Bytes × Node).
            (p : Bytes) (k : Listing log yaml) → visit_node p m.1 k ≡ ok (extended k (below p m.1)))
          ms
      → list_members log yaml visit_node prefix ms l
        ≡ ok (extended l (children yaml below prefix ms))
  unfolding list_members
  list_members-children visit_node below prefix [] l h = ap ok (λ i. (sym (append-nil l.0) i, l.1))
  list_members-children visit_node below prefix ((key, n) ∷ ms) l (h, hs) =
      rw (h (nested prefix key) l) (
        list_members-children visit_node below prefix ms (extended l (below (nested prefix key) n))
          hs
        ∙ ap ok (extended-append l (below (nested prefix key) n) (children yaml below prefix ms)))

  -- With more fuel than the depth of a node, the listing gets the node and all below it, in preorder
  -- and under their dotted names, and a report for each invalid name. The nodes form a tree.
  pub list_all_member-preorder :
      (fuel : ℕ) (prefix : Bytes) (n : Node) (l : Listing log yaml)
      → depth n < fuel
      → list_all_member log yaml fuel prefix n l ≡ ok (extended l (preorder yaml fuel prefix n))
  unfolding list_all_member preorder
  list_all_member-preorder zero prefix n l h = elim h [ ]
  list_all_member-preorder (suc fuel) prefix n l h = elim (Bool-cases (is_map n)) [
    | inr leaf ↦ rw (leaf, list_all_member, preorder)
    | inl inner ↦
        rw (inner, list_all_member, preorder)
          (list_members-children (list_all_member log yaml fuel) (preorder yaml fuel) prefix
              (members n) _
              (All-map (λ (m : Bytes × Node). depth m.1 < depth n) _ (members n)
                (λ m lt p k. list_all_member-preorder fuel p m.1 k (omega arith)) (falls n inner))
            ∙ ap ok (extended-append l ((prefix, n) ∷ []) _))
  ]

-- A dotted name, told from the keys on the way to a node: the keys with a dot between them, but for the empty
-- ones at the start.
abbrev pub suffix : List Bytes → Bytes
suffix [] = []
suffix (k ∷ ks) = b'.' ∷ k ++ suffix ks

abbrev pub dotted : List Bytes → Bytes
dotted [] = []
dotted (k ∷ ks) = if bytes_eq k [] then dotted ks else k ++ suffix ks

suffix-append :
    (ks : List Bytes) (key : Bytes) → suffix ks ++ (b'.' ∷ key) ≡ suffix (ks ++ key ∷ [])
suffix-append [] key = ap (◌∷◌ b'.') (sym (append-nil key))
suffix-append (k ∷ ks) key =
    ap (◌∷◌ b'.') (append_assoc k (suffix ks) (b'.' ∷ key) ∙ ap (◌++◌ k) (suffix-append ks key))

-- The name that the code makes of the name of a node and the key of a member.
nested-dotted :
    (path : List Bytes) (key : Bytes) → nested (dotted path) key ≡ dotted (path ++ key ∷ [])
unfolding bytes_eq
nested-dotted [] [] = refl
nested-dotted [] (c ∷ key) = ap (◌∷◌ c) (sym (append-nil key))
nested-dotted ([] ∷ ks) key = nested-dotted ks key
nested-dotted ((c ∷ k) ∷ ks) key =
    append_assoc (c ∷ k) (suffix ks) (b'.' ∷ key) ∙ ap (◌++◌ (c ∷ k)) (suffix-append ks key)

module _ (yaml : Yaml) where
  open yaml use {Node, is_map, members}

  abbrev pub below_each :
      (List Bytes → Node → List (List Bytes × Node))
      → List Bytes
      → List (Bytes × Node)
      → List (List Bytes × Node)
  below_each below path [] = []
  below_each below path ((key, n) ∷ ms) = below (path ++ key ∷ []) n ++ below_each below path ms

  -- A node and, behind it, those below it, member by member, each with the keys on the way to it.
  unfoldable pub paths : ℕ → List Bytes → Node → List (List Bytes × Node)
  paths zero path n = []
  paths (suc fuel) path n =
      (path, n) ∷ (elim (is_map n) [ true ↦ below_each (paths fuel) path (members n) | false ↦ [] ])

  abbrev pub by_name : List Bytes × Node → Bytes × Node
  by_name (path, n) = (dotted path, n)

  children-below_each :
      (below : Bytes → Node → List (Bytes × Node))
      (ways : List Bytes → Node → List (List Bytes × Node)) (path : List Bytes)
      → ((way : List Bytes) (n : Node) → below (dotted way) n ≡ map by_name (ways way n))
      → (ms : List (Bytes × Node))
      → children yaml below (dotted path) ms ≡ map by_name (below_each ways path ms)
  children-below_each below ways path h [] = refl
  children-below_each below ways path h ((key, n) ∷ ms) =
      let way : List Bytes = path ++ key ∷ [] in
      ap (λ name. below name n ++ children yaml below (dotted path) ms) (nested-dotted path key)
      ∙ ap (λ ns. ns ++ children yaml below (dotted path) ms) (h way n)
      ∙ ap (λ ns. map by_name (ways way n) ++ ns) (children-below_each below ways path h ms)
      ∙ sym (map-append by_name (ways way n) (below_each ways path ms))

  preorder-paths :
      (fuel : ℕ) (path : List Bytes) (n : Node)
      → preorder yaml fuel (dotted path) n ≡ map by_name (paths fuel path n)
  unfolding preorder paths
  preorder-paths zero path n = refl
  preorder-paths (suc fuel) path n = elim (Bool-cases (is_map n)) [
    | inr leaf ↦ rw (preorder, paths, leaf) refl
    | inl inner ↦
        rw (preorder, paths, inner)
          (ap (◌∷◌ (dotted path, n)) (
            children-below_each (preorder yaml fuel) (paths fuel) path (preorder-paths fuel)
              (members n)))
  ]

module _ {κ} {W : Type κ} (log : Level → Bytes → W → W) (yaml : Yaml) (tree : IsTree yaml) where
  open yaml use {Node}
  open tree use {depth}

  -- With more fuel than the depth of a node, the listing gets the node and all below it, in preorder, each
  -- under the keys on the way to it with a dot between them, but for empty keys at the start, and a report for
  -- each name that is invalid. The nodes form a tree.
  pub list_all_member-paths :
      (fuel : ℕ) (n : Node) (l : Listing log yaml)
      → depth n < fuel
      → list_all_member log yaml fuel [] n l
        ≡ ok (extended log yaml tree l (map (by_name yaml) (paths yaml fuel [] n)))
  list_all_member-paths fuel n l h =
      list_all_member-preorder log yaml tree fuel [] n l h
      ∙ ap (λ ns. ok (extended log yaml tree l ns)) (preorder-paths yaml fuel [] n)
