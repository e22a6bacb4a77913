-- ===== src/Config/Convert/Keys.antt =====
-- LexicalCast of include/config.hpp for maps from names: what a map prints, read back.
use ye_cc_server.Prelude.{
  ◌≡◌, refl, sym, ◌∙◌, ap, Bool, true, false, List, [], ◌∷◌, ◌++◌, append_assoc, append-nil, map,
  none, Bytes, bytes_eq, bytes_eq_iff, All, arith,
}
use ye_cc_server.Prelude.Maps.{find, put, bytes_key, bytes_lt}
use ye_cc_server.Config.Var.{cast}
use ye_cc_server.Config.Convert.{
  Library, Lexical, ◌>>=◌, read_entries, keyed_from, insert_entries, keyed_to, map_keyed,
  map_lexical,
}
use ye_cc_server.Config.Convert.Laws.{IsLibrary, IsDistinct, mapping_onto}
use ye_cc_server.Config.Convert.RoundTrip.{Prints, IsSorted, IsBefore, Separated, Separated-step}

module _ {ℓ} {T : Type ℓ} where
  -- The order of a std::map's entries.
  abbrev pub entry_lt : Bytes × T → Bytes × T → Bool
  entry_lt a b = bytes_lt a.0 b.0

  ordered_ne :
      (a b : Bytes × T) → entry_lt a b ≡ true → entry_lt b a ≡ false → bytes_eq a.0 b.0 ≡ false
  ordered_ne a b h k = ground (arith, bytes_eq_iff a.0 b.0, h, k)

  put-last :
      (x : Bytes × T) (xs ys : List (Bytes × T))
      → Separated entry_lt ys (x ∷ xs)
      → put x.0 x.1 ys ≡ ys ++ x ∷ []
  unfolding put
  put-last x xs [] h = refl
  put-last x xs (y ∷ ys) ((a, _), h) =
      rw (ordered_ne y x a.0 a.1, a.1) (ap (◌∷◌ y) (put-last x xs ys h))

module _ {ℓ} {T : Type ℓ} (lib : Library) (laws : IsLibrary lib) (l : Lexical T)
    (text : T → Bytes) where
  -- The key is a text, and the value is read back from the scalar of its own.
  abbrev pub EntryPrints : Bytes × T → Type ℓ
  EntryPrints e = (laws.is_text e.0 ≡ true) × Prints lib laws l text (λ x. x) e.1

  abbrev pub printed : Bytes × T → Bytes × Bytes
  printed e = (e.0, text e.1)

  insert_entries_lem :
      (xs : List (Bytes × T)) (node : lib.Node)
      → All EntryPrints xs
      → insert_entries lib map_keyed l.to_str node xs
        ≡ cast (mapping_onto lib node (map printed xs))
  unfolding insert_entries
  insert_entries_lem [] node h = refl
  insert_entries_lem ((key, x) ∷ xs) node ((_, p), h) =
      rw p.prints (insert_entries_lem xs (lib.insert node key (lib.scalar_node (text x))) h)

  read_entries_lem :
      (xs ret : List (Bytes × T))
      → All EntryPrints xs
      → IsSorted entry_lt xs
      → Separated entry_lt ret xs
      → read_entries lib map_keyed l.from_str
          (map (λ (e : Bytes × Bytes). (e.0, lib.scalar_node e.1)) (map printed xs))
          ret
        ≡ cast (ret ++ xs)
  unfolding read_entries
  read_entries_lem [] ret h s k = ap cast (sym (append-nil ret))
  read_entries_lem ((key, x) ∷ xs) ret ((_, p), h) (b, s) k =
      rw (p.reads, put-last (key, x) xs ret k)
        (read_entries_lem xs (ret ++ (key, x) ∷ []) h s
            (Separated-step entry_lt (key, x) xs ret k b)
          ∙ ap cast (append_assoc ret ((key, x) ∷ []) xs))

  find-printed :
      (x : Bytes × T) (xs : List (Bytes × T))
      → IsBefore entry_lt x xs
      → find x.0 (map printed xs) ≡ none
  unfolding find
  find-printed x [] h = refl
  find-printed x (y ∷ ys) (a, h) =
      let ne : bytes_eq y.0 x.0 ≡ false =
        ground (arith, bytes_eq_iff x.0 y.0, bytes_eq_iff y.0 x.0, ordered_ne x y a.0 a.1) in
      rw ne (find-printed x ys h)

  printed-IsDistinct :
      (xs : List (Bytes × T)) → IsSorted entry_lt xs → IsDistinct lib (map printed xs)
  printed-IsDistinct [] s = tt
  printed-IsDistinct (x ∷ xs) (b, s) = (find-printed x xs b, printed-IsDistinct xs s)

  printed_texts :
      (xs : List (Bytes × T))
      → All EntryPrints xs
      → All
          (λ (e : Bytes × Bytes). (laws.is_text e.0 ≡ true) × (laws.is_text e.1 ≡ true))
          (map printed xs)
  printed_texts [] h = tt
  printed_texts (x ∷ xs) ((k, p), h) = ((k, p.is_text), printed_texts xs h)

  -- A map in the order of its keys is read back as it was printed, if its keys are texts and each value is
  -- read back from the scalar of its text.
  pub map_round_trip :
      (xs : List (Bytes × T))
      → All EntryPrints xs
      → IsSorted entry_lt xs
      → ((map_lexical lib l).to_str xs >>= (map_lexical lib l).from_str) ≡ cast xs
  unfolding map_lexical keyed_to keyed_from
  map_round_trip xs h s =
      let ts = map printed xs in
      let d = printed-IsDistinct xs s in
      rw
        (
          insert_entries_lem xs lib.null h,
          laws.load_mapping ts (printed_texts xs h) d,
          laws.each_mapping ts d,
        )
        (read_entries_lem xs [] h s tt)
