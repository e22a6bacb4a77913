-- ===== src/Config/Convert/Nested.antt =====
-- LexicalCast of include/config.hpp for containers in containers: the text of an inner one becomes a
-- scalar of the outer one.
use ye_cc_server.Prelude.{true, ◌≡◌, refl, ◌∙◌, ap, List, [], ◌∷◌, map, Bytes, All}
use ye_cc_server.Config.Var.{cast}
use ye_cc_server.Config.Convert.{
  Library, Lexical, ◌>>=◌, read_items, container_from, container_to, list_container, vector_lexical,
}
use ye_cc_server.Config.Convert.Laws.{IsLibrary, sequence}
use ye_cc_server.Config.Convert.RoundTrip.{
  Prints, push_items_lem, Prints-only, Prints-text, rebuilt-list, container_round_trip,
}

module _ {ℓ} {T : Type ℓ} (lib : Library) (laws : IsLibrary lib) (l : Lexical T)
    (text : T → Bytes) where
  -- The text of an inner vector.
  abbrev inner_text : List T → Bytes
  inner_text xs = lib.emit (sequence lib (map text xs))

  pub vector_reads_scalar :
      (t : Bytes)
      → laws.is_text t ≡ true
      → (vector_lexical lib l).from_str (lib.emit (lib.scalar_node t)) ≡ cast []
  unfolding vector_lexical container_from read_items
  vector_reads_scalar t h = rw (laws.load_scalar t h, laws.size_scalar t) refl

  inner-Prints :
      (xs : List T)
      → All (Prints lib laws l text (λ x. x)) xs
      → Prints lib laws (vector_lexical lib l) inner_text (λ x. []) xs
  unfolding vector_lexical container_to
  inner-Prints xs h =
      let is_text = laws.emit_sequence (map text xs) (Prints-text lib laws l text (λ x. x) xs h) in
      record {
        prints =
            rw
              (push_items_lem lib laws l text (λ x. x) list_container xs lib.null
                (Prints-only lib laws l text (λ x. x) list_container xs h))
              refl;
        is_text = is_text;
        reads = vector_reads_scalar (inner_text xs) is_text;
      }

  all_inner_print :
      (xss : List (List T))
      → All (λ xs. All (Prints lib laws l text (λ x. x)) xs) xss
      → All (Prints lib laws (vector_lexical lib l) inner_text (λ x. [])) xss
  all_inner_print [] h = tt
  all_inner_print (xs ∷ xss) (p, h) = (inner-Prints xs p, all_inner_print xss h)

  -- A vector of vectors of values that are read back from the scalars of their texts is read back, from what
  -- it printed, as the vector of as many empty vectors.
  pub nested_is_lost :
      (xss : List (List T))
      → All (λ xs. All (Prints lib laws l text (λ x. x)) xs) xss
      → let nested = vector_lexical lib (vector_lexical lib l) in
        (nested.to_str xss >>= nested.from_str) ≡ cast (map (λ xs. []) xss)
  unfolding vector_lexical
  nested_is_lost xss h =
      container_round_trip lib laws (vector_lexical lib l) inner_text (λ x. []) list_container xss
        (all_inner_print xss h)
      ∙ ap cast (rebuilt-list lib laws (vector_lexical lib l) inner_text (λ x. []) xss [])
