-- ===== src/Config/Load/Takes.antt =====
-- Config::LoadFromYaml of src/config.cpp: which value a variable has behind it.
use ye_cc_server.Prelude.{
  ℕ, ◌<◌, ◌≡◌, refl, sym, ◌∙◌, ap, ◌⊎◌, inl, inr, Bool, true, false, List, [], ◌∷◌, ◌++◌, ==_iff,
  some, arith, Bytes, bytes_eq, map, to_lower, get_elem?, get_elem?-lt, get_elem?-set_self, set,
  Bool-cases, Option-cases, Returns,
}
use mathlib.Core.Path.{subst}
use ye_cc_server.Prelude.Maps.{find, bytes_key}
use ye_cc_server.Log.Level.{Level}
use ye_cc_server.Config.Var.{cast, Codec, ConfigVar, set_value, from_string}
use ye_cc_server.Config.Var.Changes.{AreQuiet, notify-after}
use ye_cc_server.Config.Registry.{Variable, Config, lookup_base, assign}
use ye_cc_server.Config.Yaml.{Yaml, node_text}
use ye_cc_server.Config.Yaml.Listing.{IsTree, preorder, reports, list_all_member-preorder}
use ye_cc_server.Config.Load.{load_node, load_nodes, load_from_yaml}
use ye_cc_server.Config.Load.Frame.{
  SameBut, SameBut-trans, from_string-SameBut, leads, named, named-kept, Loads, load_nodes-Loads,
}

-- The value, or one that the variable's type compares as equal to it.
abbrev pub Takes {ℓ} : {U : Type ℓ} → Codec U → U → U → Type ℓ
Takes k v now = (now ≡ v) ⊎ (k.eq now v ≡ true)

module _ {ℓ κ} {U : Type ℓ} {W : Type κ} where
  set_value-Takes :
      (k : Codec U) (var : ConfigVar U W) (v : U) (w : W)
      → AreQuiet var.cbs
      → Takes k v (set_value k var v w).0.value
  unfolding set_value
  set_value-Takes k var v w q = elim (Bool-cases (k.eq var.value v)) [
    | inl same ↦ rw same (inr same)
    | inr differs ↦ rw (differs, notify-after var.cbs var.value v w q) (inl refl)
  ]

  from_string-Takes :
      (log : Level → Bytes → W → W) (k : Codec U) (var : ConfigVar U W) (text : Bytes) (v : U)
      (w : W)
      → AreQuiet var.cbs
      → k.from_str text ≡ cast v
      → Takes k v (from_string log k var text w).0.value
  unfolding from_string
  from_string-Takes log k var text v w q read = elim (Option-cases (set_value k var v w).2) [
    | inl quiet ↦ rw (from_string, read, quiet) (set_value-Takes k var v w q)
    | inr (what, thrown) ↦ rw (from_string, read, thrown) (set_value-Takes k var v w q)
  ]

module _ {ℓ κ} {U : Type ℓ} {W : Type κ} (codec : ℕ → Codec U) (log : Level → Bytes → W → W)
    (yaml : Yaml) where
  open yaml use {Node}

  load_nodes-append :
      (pre rest : List (Bytes × Node)) (c : Config U W) (w : W)
      → load_nodes codec log yaml c (pre ++ rest) w
        ≡ (let (d, w') = load_nodes codec log yaml c pre w in load_nodes codec log yaml d rest w')
  unfolding load_nodes
  load_nodes-append [] rest c w = refl
  load_nodes-append ((key, node) ∷ pre) rest c w =
      let (d, w') = load_node codec log yaml c key node w in load_nodes-append pre rest d w'

  -- The variable at the place is `x` but for its value, which is `v`.
  abbrev pub Has : Config U W → ℕ → Variable U W → U → Type (ℓ ⊔ κ)
  Has c p x v =
      (y : Variable U W) × (get_elem? c.variables p ≡ some y)
      × SameBut x y
      × Takes (codec x.tag) v y.var.value

  -- A node whose name leads to a variable without a throwing listener gives it the node's value.
  load_node-Has :
      (c : Config U W) (key : Bytes) (node : Node) (w : W) (p : ℕ) (x : Variable U W) (v : U)
      → leads codec log c (key, node) p ≡ true
      → get_elem? c.variables p ≡ some x
      → AreQuiet x.var.cbs
      → (codec x.tag).from_str (node_text yaml node) ≡ cast v
      → ((load_node codec log yaml c key node w).0.datas ≡ c.datas)
        × Has (load_node codec log yaml c key node w).0 p x v
  unfolding load_node lookup_base assign
  load_node-Has c key node w p x v lead at quiet read = elim (Bool-cases (bytes_eq key [])) [
    | inl empty ↦ absurd (ground (arith, empty, lead))
    | inr full ↦ elim (Option-cases (find (map to_lower key) c.datas)) [
      | inl unknown ↦ absurd (ground (arith, full, unknown, lead))
      | inr (q, known) ↦
          let e : q ≡ p = (==_iff q p).0 (ground (arith, full, known, lead)) in
          let here : get_elem? c.variables q ≡ some x = ap (get_elem? c.variables) e ∙ at in
          let new : Variable U W = record x {
            var = (from_string log (codec x.tag) x.var (node_text yaml node) w).0;
          } in
          rw (load_node, full, known, assign, here)
            (
              refl,
              (
                new,
                ap (get_elem? (set c.variables q new)) (sym e)
                    ∙ get_elem?-set_self c.variables q new (get_elem?-lt c.variables q x here),
                from_string-SameBut codec log x (node_text yaml node) w,
                from_string-Takes log (codec x.tag) x.var (node_text yaml node) v w quiet read,
              ),
            )
    ]
  ]

  Has-Loads :
      (changes : ℕ → Bool) (c d : Config U W) (p : ℕ) (x : Variable U W) (v : U)
      → Has c p x v
      → Loads codec log changes c d
      → changes p ≡ false
      → Has d p x v
  Has-Loads changes c d p x v (y, at, same, takes) loads quiet =
      let (z, there, like, kept) = loads.each p y at in
      let e : z ≡ y = kept quiet in (y, there ∙ ap some e, same, takes)

  -- Among the listed nodes, the last one that leads to a variable decides its value.
  load_nodes-Has :
      (c : Config U W) (pre rest : List (Bytes × Node)) (key : Bytes) (node : Node) (w : W) (p : ℕ)
      → (x : Variable U W) (v : U) → leads codec log c (key, node) p ≡ true
      → named codec log c rest p ≡ false
      → get_elem? c.variables p ≡ some x
      → AreQuiet x.var.cbs
      → (codec x.tag).from_str (node_text yaml node) ≡ cast v
      → Has (load_nodes codec log yaml c (pre ++ (key, node) ∷ rest) w).0 p x v
  unfolding load_nodes
  load_nodes-Has c pre rest key node w p x v lead quiet at still read =
      let (d, w1) = load_nodes codec log yaml c pre w in
      let (e, w2) = load_node codec log yaml d key node w1 in
      let before = load_nodes-Loads codec log yaml pre c w in
      let (y, there, like, _) = before.each p x at in
      let (datas, (z, found, same, takes)) =
        load_node-Has d key node w1 p y v (rw before.datas_kept lead) there
          (subst AreQuiet (sym like.listeners_kept) still) (rw like.tag_kept read) in
      let now : Has e p x v = (
        z,
        found,
        SameBut-trans codec log like same,
        subst (λ t. Takes (codec t) v z.var.value) like.tag_kept takes,
      ) in
      let after = load_nodes-Loads codec log yaml rest e w2 in
      let others = named-kept codec log c e (datas ∙ before.datas_kept) rest p ∙ quiet in
      rw (load_nodes-append pre ((key, node) ∷ rest) c w)
        (Has-Loads (named codec log e rest) e _ p x v now after others)

  -- The last node of a tree that leads to a variable decides its value: where none behind it leads to the
  -- variable, its text converts to the variable's type and no listener of the variable throws, loading the
  -- tree with more fuel than its depth returns, and behind it the variable is as before but that its value is
  -- the node's, or one that its type compares as equal to the node's.
  pub load_from_yaml-Takes :
      (tree : IsTree yaml) (fuel : ℕ) (c : Config U W) (root : Node) (w : W)
      → (pre rest : List (Bytes × Node)) (key : Bytes) (node : Node) (p : ℕ)
      → (x : Variable U W) (v : U) → tree.depth root < fuel
      → preorder yaml fuel [] root ≡ pre ++ (key, node) ∷ rest
      → leads codec log c (key, node) p ≡ true
      → named codec log c rest p ≡ false
      → get_elem? c.variables p ≡ some x
      → AreQuiet x.var.cbs
      → (codec x.tag).from_str (node_text yaml node) ≡ cast v
      → Returns (λ r. Has r.0 p x v) (load_from_yaml codec log yaml fuel c root w)
  unfolding load_from_yaml
  load_from_yaml-Takes tree fuel c root w pre rest key node p x v h listed lead quiet at still
        read =
      let told = reports yaml log (preorder yaml fuel [] root) w in
      let r = load_nodes codec log yaml c (preorder yaml fuel [] root) told in
      (
        r,
        rw (list_all_member-preorder log yaml tree fuel [] root ([], w) h) refl,
        subst (λ ns. Has (load_nodes codec log yaml c ns told).0 p x v) (sym listed)
            (load_nodes-Has c pre rest key node told p x v lead quiet at still read),
      )
