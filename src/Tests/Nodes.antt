-- ===== src/Tests/Nodes.antt =====
-- A YAML library of the interface of Config/Convert.antt, for the tests: nodes are trees, and a text is
-- the code of a tree in prefix form.
use ye_cc_server.Prelude.{
  ℕ, zero, suc, ◌+◌, ◌≤◌, ◌≡◌, refl, sym, ◌∙◌, ap, Bool, true, false, List, [], ◌∷◌, ◌++◌,
  append_assoc, append-nil, map, Option, none, some, Bytes, codes, bytes_eq, bytes_eq_iff,
  Bool-cases, inl, inr, All, length, length-append, get_elem?, take, drop, take-append, drop-append,
  arith, if◌then◌else◌,
}
use ye_cc_server.Prelude.Maps.{find, bytes_key}
use ye_cc_server.Config.Var.{Cast, cast, refused}
use ye_cc_server.Config.Convert.{Library, ◌>>=◌}
use ye_cc_server.Config.Convert.Laws.{
  IsLibrary, IsDistinct, sequence, sequence_onto, mapping, mapping_onto,
}

-- `item` and `entry` stand in front of the rest of a sequence and of a mapping.
pub data Tree : Type 0 where
  null : Tree
  scalar : Bytes → Tree
  item : Tree → Tree → Tree
  entry : Bytes → Tree → Tree → Tree

abbrev emit : Tree → Bytes
emit null = 0 ∷ []
emit (scalar t) = 1 ∷ length t ∷ t
emit (item a rest) = 2 ∷ (emit a ++ emit rest)
emit (entry key a rest) = 3 ∷ length key ∷ (key ++ (emit a ++ emit rest))

abbrev parse : ℕ → Bytes → Option (Tree × Bytes)
parse zero text = none
parse (suc fuel) [] = none
parse (suc fuel) (zero ∷ text) = some (null, text)
parse (suc fuel) (suc zero ∷ []) = none
parse (suc fuel) (suc zero ∷ n ∷ text) = some (scalar (take n text), drop n text)
parse (suc fuel) (suc (suc zero) ∷ text) = elim (parse fuel text) [
  | none ↦ none
  | some (a, more) ↦ elim (parse fuel more) [
    | none ↦ none
    | some (rest, left) ↦ some (item a rest, left)
  ]
]
parse (suc fuel) (suc (suc (suc zero)) ∷ []) = none
parse (suc fuel) (suc (suc (suc zero)) ∷ n ∷ text) = elim (parse fuel (drop n text)) [
  | none ↦ none
  | some (a, more) ↦ elim (parse fuel more) [
    | none ↦ none
    | some (rest, left) ↦ some (entry (take n text) a rest, left)
  ]
]
parse (suc fuel) (suc (suc (suc (suc c))) ∷ text) = none

abbrev load : Bytes → Cast Tree
load text = elim (parse (length text) text) [
  | none ↦ refused (codes "yaml-cpp: error")
  | some (node, rest) ↦ cast node
]

abbrev weight : Tree → ℕ
weight null = 1
weight (scalar t) = 1
weight (item a rest) = 1 + weight a + weight rest
weight (entry key a rest) = 1 + weight a + weight rest

parse-emit :
    (node : Tree) (rest : Bytes) (fuel : ℕ)
    → weight node ≤ fuel
    → parse fuel (emit node ++ rest) ≡ some (node, rest)
parse-emit null rest zero h = absurd (omega arith)
parse-emit null rest (suc fuel) h = refl
parse-emit (scalar t) rest zero h = absurd (omega arith)
parse-emit (scalar t) rest (suc fuel) h = rw (take-append t rest, drop-append t rest) refl
parse-emit (item a b) rest zero h = absurd (omega arith)
parse-emit (item a b) rest (suc fuel) h =
    rw
      (
        append_assoc (emit a) (emit b) rest,
        parse-emit a (emit b ++ rest) fuel (omega arith),
        parse-emit b rest fuel (omega arith),
      )
      refl
parse-emit (entry key a b) rest zero h = absurd (omega arith)
parse-emit (entry key a b) rest (suc fuel) h =
    let code = emit a ++ emit b in
    let named : take (length key) ((key ++ code) ++ rest) ≡ key =
      ap (take (length key)) (append_assoc key code rest) ∙ take-append key (code ++ rest) in
    let behind : drop (length key) ((key ++ code) ++ rest) ≡ emit a ++ (emit b ++ rest) =
      ap (drop (length key)) (append_assoc key code rest)
      ∙ drop-append key (code ++ rest)
      ∙ append_assoc (emit a) (emit b) rest in
    rw
      (
        behind,
        parse-emit a (emit b ++ rest) fuel (omega arith),
        parse-emit b rest fuel (omega arith),
        named,
      )
      refl

weight_le : (node : Tree) → weight node ≤ length (emit node)
weight_le null = omega arith
weight_le (scalar t) = omega arith
weight_le (item a b) = omega (arith, weight_le a, weight_le b, length-append (emit a) (emit b))
weight_le (entry key a b) = omega (
  arith,
  weight_le a,
  weight_le b,
  length-append (emit a) (emit b),
  length-append key (emit a ++ emit b),
)

pub load-emit : (node : Tree) → load (emit node) ≡ cast node
load-emit node =
    let whole = parse-emit node [] (length (emit node)) (weight_le node) in
    let found : parse (length (emit node)) (emit node) ≡ some (node, []) =
      ap (parse (length (emit node))) (sym (append-nil (emit node))) ∙ whole in
    rw (found, load) refl

abbrev size : Tree → ℕ
size (item a rest) = 1 + size rest
size (entry key a rest) = 1 + size rest
size _ = 0

abbrev at : Tree → ℕ → Tree
at (item a rest) zero = a
at (item a rest) (suc i) = at rest i
at _ i = null

abbrev in_entries : Tree → Bytes → Tree
in_entries (entry k a rest) key = if bytes_eq k key then a else in_entries rest key
in_entries _ key = null

abbrev get : Tree → Bytes → Cast Tree
get (scalar t) key = refused (codes "yaml-cpp: error: operator[] call on a scalar")
get node key = cast (in_entries node key)

abbrev is_defined : Tree → Bool
is_defined null = false
is_defined _ = true

abbrev as_string : Tree → Cast Bytes
as_string (scalar t) = cast t
as_string _ = refused (codes "yaml-cpp: error: bad conversion")

abbrev each : Tree → Cast (List (Bytes × Tree))
each (entry key a rest) = each rest >>= λ more. cast ((key, a) ∷ more)
each (item a rest) = refused (codes "yaml-cpp: error: invalid node")
each _ = cast []

abbrev push_back : Tree → Tree → Tree
push_back (item a rest) node = item a (push_back rest node)
push_back _ node = item node null

abbrev insert : Tree → Bytes → Tree → Tree
insert (entry k a rest) key node =
    if bytes_eq k key then entry k node rest else entry k a (insert rest key node)
insert _ key node = entry key node null

abbrev pub trees : Library
trees = record {
  Node = Tree;
  load = load;
  emit = emit;
  size = size;
  at = at;
  get = get;
  is_defined = is_defined;
  as_string = as_string;
  each = each;
  null = null;
  scalar_node = scalar;
  push_back = push_back;
  insert = insert;
}

abbrev items : List Bytes → Tree
items [] = null
items (t ∷ ts) = item (scalar t) (items ts)

abbrev entries : List (Bytes × Bytes) → Tree
entries [] = null
entries ((key, t) ∷ ts) = entry key (scalar t) (entries ts)

push_back-items :
    (pre : List Bytes) (t : Bytes) → push_back (items pre) (scalar t) ≡ items (pre ++ t ∷ [])
push_back-items [] t = refl
push_back-items (p ∷ pre) t = ap (item (scalar p)) (push_back-items pre t)

sequence_onto-items : (pre ts : List Bytes) → sequence_onto trees (items pre) ts ≡ items (pre ++ ts)
sequence_onto-items pre [] = ap items (sym (append-nil pre))
sequence_onto-items pre (t ∷ ts) =
    rw (push_back-items pre t)
      (sequence_onto-items (pre ++ t ∷ []) ts ∙ ap items (append_assoc pre (t ∷ []) ts))

insert-entries :
    (pre : List (Bytes × Bytes)) (key t : Bytes)
    → find key pre ≡ none
    → insert (entries pre) key (scalar t) ≡ entries (pre ++ (key, t) ∷ [])
unfolding find
insert-entries [] key t h = refl
insert-entries ((k, p) ∷ pre) key t h = elim (Bool-cases (bytes_eq k key)) [
  | inl e ↦ absurd (ground (arith, e, h))
  | inr e ↦ rw e (ap (entry k (scalar p)) (insert-entries pre key t (ground (arith, e, h))))
]

-- No key of the second list is in the first one.
abbrev Apart : List (Bytes × Bytes) → List (Bytes × Bytes) → Type 0
Apart pre ts = All (λ (e : Bytes × Bytes). find e.0 pre ≡ none) ts

find-last :
    (c key t : Bytes) (pre : List (Bytes × Bytes))
    → find c pre ≡ none
    → bytes_eq key c ≡ false
    → find c (pre ++ (key, t) ∷ []) ≡ none
unfolding find
find-last c key t [] h e = rw e refl
find-last c key t ((k, p) ∷ pre) h e = elim (Bool-cases (bytes_eq k c)) [
  | inl same ↦ absurd (ground (arith, same, h))
  | inr other ↦ rw other (find-last c key t pre (ground (arith, other, h)) e)
]

Apart-step :
    (pre ts : List (Bytes × Bytes)) (key t : Bytes)
    → Apart pre ts
    → find key ts ≡ none
    → Apart (pre ++ (key, t) ∷ []) ts
unfolding find
Apart-step pre [] key t h k = tt
Apart-step pre ((c, u) ∷ ts) key t (h, hs) k = elim (Bool-cases (bytes_eq c key)) [
  | inl same ↦ absurd (ground (arith, same, k))
  | inr other ↦ (
    find-last c key t pre h (ground (arith, other, bytes_eq_iff c key, bytes_eq_iff key c)),
    Apart-step pre ts key t hs (ground (arith, other, k)),
  )
]

mapping_onto-entries :
    (pre ts : List (Bytes × Bytes))
    → IsDistinct trees ts
    → Apart pre ts
    → mapping_onto trees (entries pre) ts ≡ entries (pre ++ ts)
mapping_onto-entries pre [] d h = ap entries (sym (append-nil pre))
mapping_onto-entries pre ((key, t) ∷ ts) (n, d) (k, h) = rw (insert-entries pre key t k) (
    mapping_onto-entries (pre ++ (key, t) ∷ []) ts d (Apart-step pre ts key t h n)
    ∙ ap entries (append_assoc pre ((key, t) ∷ []) ts))

Apart-nil : (ts : List (Bytes × Bytes)) → Apart [] ts
unfolding find
Apart-nil [] = tt
Apart-nil (t ∷ ts) = (refl, Apart-nil ts)

pub sequence_lem : (ts : List Bytes) → sequence trees ts ≡ items ts
sequence_lem = sequence_onto-items []

pub mapping_lem : (ts : List (Bytes × Bytes)) → IsDistinct trees ts → mapping trees ts ≡ entries ts
mapping_lem ts d = mapping_onto-entries [] ts d (Apart-nil ts)

pub size-items : (ts : List Bytes) → size (items ts) ≡ length ts
size-items [] = refl
size-items (t ∷ ts) = omega (arith, size-items ts)

pub at-items :
    (ts : List Bytes) (i : ℕ) (t : Bytes) → get_elem? ts i ≡ some t → at (items ts) i ≡ scalar t
at-items [] i t h = absurd (ground (arith, h))
at-items (u ∷ ts) zero t h = ground (arith, h)
at-items (u ∷ ts) (suc i) t h = at-items ts i t h

pub each-entries :
    (ts : List (Bytes × Bytes))
    → each (entries ts) ≡ cast (map (λ (e : Bytes × Bytes). (e.0, scalar e.1)) ts)
each-entries [] = refl
each-entries (e ∷ ts) = rw (each-entries ts) refl

pub get-entries :
    (ts : List (Bytes × Bytes)) (key t : Bytes)
    → find key ts ≡ some t
    → get (entries ts) key ≡ cast (scalar t)
unfolding find
get-entries [] key t h = absurd (ground (arith, h))
get-entries ((k, u) ∷ []) key t h = elim (Bool-cases (bytes_eq k key)) [
  | inl e ↦ rw e (ground (arith, e, h))
  | inr e ↦ absurd (ground (arith, e, h))
]
get-entries ((k, u) ∷ (l, w) ∷ ts) key t h = elim (Bool-cases (bytes_eq k key)) [
  | inl e ↦ rw e (ground (arith, e, h))
  | inr e ↦ rw e (get-entries ((l, w) ∷ ts) key t (ground (arith, e, h)))
]

unfoldable pub trees-IsLibrary : IsLibrary trees
trees-IsLibrary = record {
  is_text = λ t. true;
  ascii_is_text = λ t h. refl;
  emit_mapping = λ ts h d. refl;
  load_scalar = λ t h. load-emit (scalar t);
  load_sequence = λ ts h. load-emit (sequence trees ts);
  load_mapping = λ ts h d. load-emit (mapping trees ts);
  emit_sequence = λ ts h. refl;
  size_scalar = λ t. refl;
  size_sequence = λ ts. ap size (sequence_lem ts) ∙ size-items ts;
  at_sequence = λ ts i t h. ap (λ n. at n i) (sequence_lem ts) ∙ at-items ts i t h;
  each_mapping = λ ts d. ap each (mapping_lem ts d) ∙ each-entries ts;
  get_mapping = λ ts key t d h. ap (λ n. get n key) (mapping_lem ts d) ∙ get-entries ts key t h;
  get_scalar = λ t key. (codes "yaml-cpp: error: operator[] call on a scalar", refl);
  defined_scalar = λ t. refl;
  as_scalar = λ t. refl;
}
