-- ===== src/Config/Convert/RoundTrip.antt =====
-- LexicalCast of include/config.hpp for sequences: what a container prints, read back.
use ye_cc_server.Prelude.{
  ℕ, suc, ◌+◌, ◌≡◌, refl, sym, ◌∙◌, ap, Bool, true, false, List, [], ◌∷◌, ◌++◌, append_assoc,
  append-nil, map, some, Bytes, All, length, length-append, get_elem?, arith,
}
use ye_cc_server.Config.Var.{cast}
use ye_cc_server.Config.Convert.{
  Library, Lexical, Container, ◌>>=◌, read_items, container_from, push_items, container_to,
  set_insert, list_container, set_container, vector_lexical, list_lexical, set_lexical,
}
use ye_cc_server.Config.Convert.Laws.{IsLibrary, sequence, sequence_onto}

pub get_elem?-append_cons {ℓ} :
    {A : Type ℓ} (xs : List A) (x : A) (ys : List A) → get_elem? (xs ++ x ∷ ys) (length xs) ≡ some x
get_elem?-append_cons [] x ys = refl
get_elem?-append_cons (y ∷ xs) x ys = get_elem?-append_cons xs x ys

pub length-map {ℓ κ} :
    {A : Type ℓ} {B : Type κ} (f : A → B) (xs : List A) → length (map f xs) ≡ length xs
length-map f [] = refl
length-map f (x ∷ xs) = ap suc (length-map f xs)

module _ {ℓ} {T : Type ℓ} (lib : Library) (laws : IsLibrary lib) (l : Lexical T) (text : T → Bytes)
    (back : T → T) where
  -- The element prints as its text, and `back` of it is read from the scalar of that text.
  pub record Prints (x : T) : Type ℓ where
    pub prints : l.to_str x ≡ cast (text x)
    pub is_text : laws.is_text (text x) ≡ true
    pub reads : l.from_str (lib.emit (lib.scalar_node (text x))) ≡ cast (back x)

  pub Prints-text : (xs : List T) → All Prints xs → All (λ t. laws.is_text t ≡ true) (map text xs)
  Prints-text [] h = tt
  Prints-text (x ∷ xs) (p, h) = (p.is_text, Prints-text xs h)

  module _ {C : Type ℓ} (c : Container T C) where
    -- What is read of the elements, inserted one by one.
    abbrev pub rebuilt : List T → C → C
    rebuilt [] ret = ret
    rebuilt (x ∷ xs) ret = rebuilt xs (c.insert (back x) ret)

    pub push_items_lem :
        (xs : List T) (node : lib.Node)
        → All (λ x. l.to_str x ≡ cast (text x)) xs
        → push_items lib c l.to_str node xs ≡ cast (sequence_onto lib node (map text xs))
    unfolding push_items
    push_items_lem [] node h = refl
    push_items_lem (x ∷ xs) node (p, h) =
        rw p (push_items_lem xs (lib.push_back node (lib.scalar_node (text x))) h)

    read_items_lem :
        (xs : List T) (pre all : List Bytes) (i : ℕ) (ret : C)
        → all ≡ pre ++ map text xs
        → i ≡ length pre
        → All Prints xs
        → read_items lib c l.from_str (sequence lib all) (length xs) i ret ≡ cast (rebuilt xs ret)
    unfolding read_items
    read_items_lem [] pre all i ret e k h = refl
    read_items_lem (x ∷ xs) pre all i ret e k (p, h) =
        let t = text x in
        let found : get_elem? all i ≡ some t =
          rw (e, k) (get_elem?-append_cons pre t (map text xs)) in
        rw (laws.at_sequence all i t found, p.reads)
          (read_items_lem xs (pre ++ t ∷ []) all (i + 1) (c.insert (back x) ret)
            (e ∙ sym (append_assoc pre (t ∷ []) (map text xs)))
            (omega (arith, k, length-append pre (t ∷ []))) h)

    pub Prints-only : (xs : List T) → All Prints xs → All (λ x. l.to_str x ≡ cast (text x)) xs
    Prints-only [] h = tt
    Prints-only (x ∷ xs) (p, h) = (p.prints, Prints-only xs h)

    -- Printing a container succeeds, and reading what it printed inserts what is read of its elements, in order.
    pub container_round_trip :
        (v : C)
        → All Prints (c.elements v)
        → (container_to lib c l.to_str v >>= container_from lib c l.from_str)
          ≡ cast (rebuilt (c.elements v) c.empty)
    unfolding container_to container_from
    container_round_trip v h =
        let xs = c.elements v in
        let ts = map text xs in
        rw
          (
            push_items_lem xs lib.null (Prints-only xs h),
            laws.load_sequence ts (Prints-text xs h),
            laws.size_sequence ts,
            length-map text xs,
          )
          (read_items_lem xs [] ts 0 c.empty refl refl h)

  pub rebuilt-list : (xs ret : List T) → rebuilt list_container xs ret ≡ ret ++ map back xs
  rebuilt-list [] ret = sym (append-nil ret)
  rebuilt-list (x ∷ xs) ret =
      rebuilt-list xs (ret ++ back x ∷ []) ∙ append_assoc ret (back x ∷ []) (map back xs)

-- Each element is before those behind it, and not the other way round.
abbrev pub IsBefore {ℓ} : {T : Type ℓ} → (T → T → Bool) → T → List T → Type 0
IsBefore less x ys = All (λ y. (less x y ≡ true) × (less y x ≡ false)) ys

abbrev pub IsSorted {ℓ} : {T : Type ℓ} → (T → T → Bool) → List T → Type 0
IsSorted less [] = Unit
IsSorted less (x ∷ xs) = IsBefore less x xs × IsSorted less xs

-- Everything of the first list is before everything of the second.
abbrev pub Separated {ℓ} : {T : Type ℓ} → (T → T → Bool) → List T → List T → Type 0
Separated less ys xs = All (λ y. IsBefore less y xs) ys

pub Separated-step {ℓ} :
    {T : Type ℓ} (less : T → T → Bool) (x : T) (xs ys : List T)
    → Separated less ys (x ∷ xs)
    → IsBefore less x xs
    → Separated less (ys ++ x ∷ []) xs
Separated-step less x xs [] h k = (k, tt)
Separated-step less x xs (y ∷ ys) ((_, a), h) k = (a, Separated-step less x xs ys h k)

map_id {ℓ} : {T : Type ℓ} (xs : List T) → map (λ x. x) xs ≡ xs
map_id [] = refl
map_id (x ∷ xs) = ap (◌∷◌ x) (map_id xs)

module _ {ℓ} {T : Type ℓ} (lib : Library) (laws : IsLibrary lib) (l : Lexical T)
    (text : T → Bytes) where
  set_insert-last :
      (less : T → T → Bool) (x : T) (xs ys : List T)
      → Separated less ys (x ∷ xs)
      → set_insert less x ys ≡ ys ++ x ∷ []
  unfolding set_insert
  set_insert-last less x xs [] h = refl
  set_insert-last less x xs (y ∷ ys) ((a, _), h) =
      rw (a.1, a.0) (ap (◌∷◌ y) (set_insert-last less x xs ys h))

  rebuilt-set :
      (less : T → T → Bool) (xs ret : List T)
      → IsSorted less xs
      → Separated less ret xs
      → rebuilt lib laws l text (λ x. x) (set_container less) xs ret ≡ ret ++ xs
  rebuilt-set less [] ret s h = sym (append-nil ret)
  rebuilt-set less (x ∷ xs) ret (b, s) h = rw (set_insert-last less x xs ret h) (
      rebuilt-set less xs (ret ++ x ∷ []) s (Separated-step less x xs ret h b)
      ∙ append_assoc ret (x ∷ []) xs)

  -- A vector or a list is read back as it was printed, if each of its elements is read back from the scalar of
  -- its text; it may be in any order and have equal elements.
  pub lexical_round_trip :
      (xs : List T)
      → All (Prints lib laws l text (λ x. x)) xs
      → ((vector_lexical lib l).to_str xs >>= (vector_lexical lib l).from_str ≡ cast xs)
        × ((list_lexical lib l).to_str xs >>= (list_lexical lib l).from_str ≡ cast xs)
  unfolding vector_lexical list_lexical
  lexical_round_trip xs h =
      let listed =
        container_round_trip lib laws l text (λ x. x) list_container xs h
        ∙ ap cast (rebuilt-list lib laws l text (λ x. x) xs [] ∙ map_id xs) in
      (listed, listed)

  -- A set, whose elements are in strictly ascending order, is read back as it was printed, if each of its
  -- elements is read back from the scalar of its text.
  pub set_round_trip :
      (less : T → T → Bool) (xs : List T)
      → All (Prints lib laws l text (λ x. x)) xs
      → IsSorted less xs
      → (set_lexical lib less l).to_str xs >>= (set_lexical lib less l).from_str ≡ cast xs
  unfolding set_lexical
  set_round_trip less xs h s =
      container_round_trip lib laws l text (λ x. x) (set_container less) xs h
      ∙ ap cast (rebuilt-set less xs [] s tt)
