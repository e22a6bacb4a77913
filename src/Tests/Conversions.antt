-- ===== src/Tests/Conversions.antt =====
-- Concrete inputs for the conversions of include/config.hpp.
use ye_cc_server.Prelude.{◌≡◌, refl, List, [], ◌∷◌, Bytes, codes, All}
use ye_cc_server.Prelude.Maps.{bytes_lt}
use ye_cc_server.Config.Var.{cast}
use ye_cc_server.Config.Convert.{
  Lexical, ◌>>=◌, vector_lexical, list_lexical, set_lexical, map_lexical,
}
use ye_cc_server.Config.Convert.RoundTrip.{Prints, lexical_round_trip, set_round_trip}
use ye_cc_server.Config.Convert.Keys.{EntryPrints, map_round_trip}
use ye_cc_server.Config.Convert.Nested.{nested_is_lost}
use ye_cc_server.Tests.Nodes.{trees, trees-IsLibrary}

-- Texts that are written and read as scalars.
abbrev words : Lexical Bytes
words = record { from_str = λ v. trees.load v >>= trees.as_string; to_str = cast }

abbrev ab : List Bytes
ab = codes "a" ∷ codes "b: c" ∷ []

ab_print : All (Prints trees trees-IsLibrary words (λ x. x) (λ x. x)) ab
unfolding trees-IsLibrary
ab_print = (
  record { prints = refl; is_text = refl; reads = refl },
  (record { prints = refl; is_text = refl; reads = refl }, tt),
)

-- The same word twice.
abbrev twice : List Bytes
twice = codes "a" ∷ codes "a" ∷ []

lexical_round_trip_example :
    ((vector_lexical trees words).to_str twice >>= (vector_lexical trees words).from_str
      ≡ cast twice)
    × ((list_lexical trees words).to_str twice >>= (list_lexical trees words).from_str ≡ cast twice)
lexical_round_trip_example =
    lexical_round_trip trees trees-IsLibrary words (λ x. x) twice (ab_print.0, (ab_print.0, tt))

set_round_trip_example :
    (set_lexical trees bytes_lt words).to_str ab >>= (set_lexical trees bytes_lt words).from_str
    ≡ cast ab
unfolding bytes_lt
set_round_trip_example =
    set_round_trip trees trees-IsLibrary words (λ x. x) bytes_lt ab ab_print
      (((refl, refl), tt), (tt, tt))

abbrev settings : List (Bytes × Bytes)
settings = (codes "host", codes "a") ∷ (codes "port", codes "b: c") ∷ []

settings_print : All (EntryPrints trees trees-IsLibrary words (λ x. x)) settings
unfolding trees-IsLibrary
settings_print = ((refl, ab_print.0), ((refl, ab_print.1.0), tt))

map_round_trip_example :
    ((map_lexical trees words).to_str settings >>= (map_lexical trees words).from_str)
    ≡ cast settings
unfolding bytes_lt
map_round_trip_example =
    map_round_trip trees trees-IsLibrary words (λ x. x) settings settings_print
      (((refl, refl), tt), (tt, tt))

nested_is_lost_example :
    let nested = vector_lexical trees (vector_lexical trees words) in
    (nested.to_str (ab ∷ ab ∷ []) >>= nested.from_str) ≡ cast ([] ∷ [] ∷ [])
nested_is_lost_example =
    nested_is_lost trees trees-IsLibrary words (λ x. x) (ab ∷ ab ∷ []) (ab_print, (ab_print, tt))
