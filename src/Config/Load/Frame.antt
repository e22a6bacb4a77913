-- ===== src/Config/Load/Frame.antt =====
-- Config::LoadFromYaml of src/config.cpp: what it may change.
use ye_cc_server.Prelude.{
  ℕ, ◌<◌, ◌≡◌, refl, ◌∙◌, inl, inr, Bool, true, false, ◌||◌, List, [], ◌∷◌, ◌==◌, ==_iff,
  if◌then◌else◌, none, some, arith, Bytes, bytes_eq, map, to_lower, get_elem?, get_elem?-lt,
  get_elem?-set_self, get_elem?-set_ne, Bool-cases, Option-cases, Returns,
}
use mathlib.Core.Path.{subst}
use ye_cc_server.Prelude.Maps.{find, bytes_key}
use ye_cc_server.Log.Level.{Level}
use ye_cc_server.Config.Var.{Codec, from_string}
use ye_cc_server.Config.Registry.{Variable, Config, lookup_base, assign}
use ye_cc_server.Config.Yaml.{Yaml, node_text}
use ye_cc_server.Config.Yaml.Listing.{IsTree, preorder, reports, list_all_member-preorder}
use ye_cc_server.Config.Load.{load_node, load_nodes, load_from_yaml}

-- The same variable but for its value.
pub record SameBut {ℓ κ} {U : Type ℓ} {W : Type κ} (v w : Variable U W) : Type (ℓ ⊔ κ) where
  pub tag_kept : w.tag ≡ v.tag
  pub name_kept : w.var.name ≡ v.var.name
  pub description_kept : w.var.description ≡ v.var.description
  pub listeners_kept : w.var.cbs ≡ v.var.cbs

module _ {ℓ κ} {U : Type ℓ} {W : Type κ} (codec : ℕ → Codec U) (log : Level → Bytes → W → W) where
  pub from_string-SameBut :
      (v : Variable U W) (text : Bytes) (w : W)
      → SameBut v (record v { var = (from_string log (codec v.tag) v.var text w).0 })
  unfolding from_string
  from_string-SameBut v text w = ground arith

  -- A listed key that is not empty leads, in lower case, to the variable at `p`.
  abbrev pub leads {ι} : {N : Type ι} → Config U W → Bytes × N → ℕ → Bool
  leads c entry p =
      if bytes_eq entry.0 []
      then false
      else elim (find (map to_lower entry.0) c.datas) [ none ↦ false | some q ↦ q == p ]

  abbrev pub named {ι} : {N : Type ι} → Config U W → List (Bytes × N) → ℕ → Bool
  named c [] p = false
  named c (entry ∷ entries) p = leads c entry p || named c entries p

  -- The names that are listed lead to the same variables while the registry stays.
  pub named-kept {ι} :
      {N : Type ι} (c d : Config U W)
      → d.datas ≡ c.datas
      → (ns : List (Bytes × N)) (p : ℕ) → named d ns p ≡ named c ns p
  named-kept c d e [] p = refl
  named-kept c d e (n ∷ ns) p = rw (e, named-kept c d e ns p)

  -- The registry is the same, and so is each variable, but that a variable for which `changes` may
  -- have a new value.
  pub record Loads (changes : ℕ → Bool) (c c' : Config U W) : Type (ℓ ⊔ κ) where
    pub datas_kept : c'.datas ≡ c.datas
    pub each :
        (p : ℕ) (v : Variable U W)
        → get_elem? c.variables p ≡ some v
        → (v' : Variable U W) × (get_elem? c'.variables p ≡ some v')
          × SameBut v v'
          × (changes p ≡ false → v' ≡ v)

  SameBut-refl : (v : Variable U W) → SameBut v v
  SameBut-refl v = record {
    tag_kept = refl;
    name_kept = refl;
    description_kept = refl;
    listeners_kept = refl;
  }

  pub SameBut-trans : {u v w : Variable U W} → SameBut u v → SameBut v w → SameBut u w
  SameBut-trans a b = record {
    tag_kept = b.tag_kept ∙ a.tag_kept;
    name_kept = b.name_kept ∙ a.name_kept;
    description_kept = b.description_kept ∙ a.description_kept;
    listeners_kept = b.listeners_kept ∙ a.listeners_kept;
  }

  Loads-refl : (changes : ℕ → Bool) (c : Config U W) → Loads changes c c
  Loads-refl changes c = record {
    datas_kept = refl;
    each = λ p v h. (v, h, SameBut-refl v, λ _. refl);
  }

  assign-Loads :
      (changes : ℕ → Bool) (c : Config U W) (q : ℕ) (text : Bytes) (w : W)
      → changes q ≡ true
      → Loads changes c (assign codec log c q text w).0
  unfolding assign
  assign-Loads changes c q text w hit = elim (Option-cases (get_elem? c.variables q)) [
    | inl missing ↦ rw (missing, assign) (Loads-refl changes c)
    | inr (x, at) ↦
        rw (at, assign)
          (record {
            datas_kept = refl;
            each = λ p v h. elim (Bool-cases (q == p)) [
              | inl same ↦
                  let e : q ≡ p = (==_iff q p).0 same in
                  let is : x ≡ v = ground (arith, at, h, e) in
                  let r : Variable U W = record x {
                    var = (from_string log (codec x.tag) x.var text w).0;
                  } in
                  (
                    r,
                    rw (← e) (get_elem?-set_self c.variables q r (get_elem?-lt c.variables q x at)),
                    subst (λ u. SameBut u r) is (from_string-SameBut x text w),
                    λ quiet. absurd (ground (arith, hit, quiet, e)),
                  )
              | inr differs ↦ (
                v,
                get_elem?-set_ne c.variables q p _ (λ e. absurd (ground arith)) ∙ h,
                SameBut-refl v,
                λ _. refl,
              )
            ];
          })
  ]

  module _ (yaml : Yaml) where
    open yaml use {Node}

    load_node-Loads :
        (c : Config U W) (key : Bytes) (node : Node) (w : W)
        → Loads (leads c (key, node)) c (load_node codec log yaml c key node w).0
    unfolding load_node lookup_base
    load_node-Loads c key node w = elim (Bool-cases (bytes_eq key [])) [
      | inl empty ↦ rw empty (Loads-refl _ c)
      | inr full ↦ elim (Option-cases (find (map to_lower key) c.datas)) [
        | inl unknown ↦ rw (full, unknown, load_node) (Loads-refl _ c)
        | inr (q, known) ↦
            rw (full, known, load_node)
              (assign-Loads (leads c (key, node)) c q (node_text yaml node) w
                (ground (arith, full, known, (==_iff q q).1 refl)))
      ]
    ]

    -- The variables that a listing changes do not depend on what was loaded before.
    Loads-step :
        (c d e : Config U W) (entry : Bytes × Node) (entries : List (Bytes × Node))
        → Loads (leads c entry) c d
        → Loads (named d entries) d e
        → Loads (named c (entry ∷ entries)) c e
    Loads-step c d e entry entries first rest = record {
      datas_kept = rest.datas_kept ∙ first.datas_kept;
      each = λ p v h.
          let (v', at, same, quiet) = first.each p v h in
          let (v'', at', same', quiet') = rest.each p v' at in
          (
            v'',
            at',
            SameBut-trans same same',
            λ none_named.
                quiet' (named-kept c d first.datas_kept entries p ∙ ground (arith, none_named))
                ∙ quiet (ground (arith, none_named)),
          );
    }

    pub load_nodes-Loads :
        (entries : List (Bytes × Node)) (c : Config U W) (w : W)
        → Loads (named c entries) c (load_nodes codec log yaml c entries w).0
    unfolding load_nodes
    load_nodes-Loads [] c w = Loads-refl _ c
    load_nodes-Loads ((key, node) ∷ entries) c w =
        let (d, w') = load_node codec log yaml c key node w in
        Loads-step c d _ (key, node) entries (load_node-Loads c key node w)
          (load_nodes-Loads entries d w')

    -- Loading a tree of nodes returns, with more fuel than its depth. Each variable keeps its type, name,
    -- description and listeners, and its value too unless a node of the tree has the variable's name, in
    -- lower case, as its dotted name.
    pub load_from_yaml-Loads :
        (tree : IsTree yaml) (fuel : ℕ) (c : Config U W) (root : Node) (w : W)
        → tree.depth root < fuel
        → Returns
            (λ r. Loads (named c (preorder yaml fuel [] root)) c r.0)
            (load_from_yaml codec log yaml fuel c root w)
    unfolding load_from_yaml
    load_from_yaml-Loads tree fuel c root w h =
        let nodes = preorder yaml fuel [] root in
        (
          load_nodes codec log yaml c nodes (reports yaml log nodes w),
          rw (list_all_member-preorder log yaml tree fuel [] root ([], w) h),
          load_nodes-Loads nodes c (reports yaml log nodes w),
        )
