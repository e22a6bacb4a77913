-- ===== src/Log/Logger/Valid.antt =====
-- The invariant of the loggers' store of src/log.cpp.
use ye_cc_server.Prelude.{
  ℕ, ◌<◌, ◌≡◌, refl, ◌∙◌, ◌⊎◌, inl, inr, List, [], ◌∷◌, ◌++◌, none, some, arith, length, get_elem?,
  get_elem?-set_self, get_elem?-set_ne, get_elem?-lt, get_elem?-append_left, set, All, ◌==◌, ==_iff,
  if◌then◌else◌, Bool-cases,
}
use ye_cc_server.Log.Formatter.Items.{Formatter}
use ye_cc_server.Log.Appender.{Appender}
use ye_cc_server.Log.Logger.{Logger, Store}

-- The pointer is to an appender that has a formatter.
abbrev pub HasFormat : List Appender → ℕ → Type 0
HasFormat as' a =
    (app : Appender) × (f : Formatter) × (get_elem? as' a ≡ some app) × (app.formatter ≡ some f)

pub record IsLogger (as' : List Appender) (root : ℕ) (l : Logger) : Type 0 where
  pub formatted : (f : Formatter) × (l.formatter ≡ some f)
  pub attached : All (HasFormat as') l.appenders
  pub parent : (l.root ≡ none) ⊎ (l.root ≡ some root)

-- Every logger has a formatter, is attached to appenders that have one, and hands over to no logger
-- but `root`, which hands over to none.
pub record IsValid (root : ℕ) (s : Store) : Type 0 where
  pub loggers_valid :
      (p : ℕ) (l : Logger) → get_elem? s.loggers p ≡ some l → IsLogger s.appenders root l
  pub root_valid : (l : Logger) × (get_elem? s.loggers root ≡ some l) × (l.root ≡ none)

-- Appenders keep having formatters.
abbrev pub Keeps : List Appender → List Appender → Type 0
Keeps as' bs = (a : ℕ) → HasFormat as' a → HasFormat bs a

pub get_elem?-set {ℓ} :
    {A : Type ℓ} (xs : List A) (i j : ℕ) (v : A)
    → i < length xs
    → get_elem? (set xs i v) j ≡ (if i == j then some v else get_elem? xs j)
get_elem?-set xs i j v h = elim (Bool-cases (i == j)) [
  | inl same ↦ rw same (rw (← (==_iff i j).0 same) (get_elem?-set_self xs i v h))
  | inr differs ↦ rw differs (get_elem?-set_ne xs i j v (λ e. absurd (ground arith)))
]

pub Keeps-set :
    (as' : List Appender) (p : ℕ) (app : Appender) (f : Formatter)
    → app.formatter ≡ some f
    → p < length as'
    → Keeps as' (set as' p app)
Keeps-set as' p app f e h a (x, g, at, has) = elim (Bool-cases (p == a)) [
  | inl same ↦ (app, f, rw (get_elem?-set as' p a app h) (rw same), e)
  | inr differs ↦ (x, g, rw (get_elem?-set as' p a app h) (rw differs at), has)
]

pub Keeps-append : (as' bs : List Appender) → Keeps as' (as' ++ bs)
Keeps-append as' bs a (x, g, at, has) =
    (x, g, get_elem?-append_left as' bs a (get_elem?-lt as' a x at) ∙ at, has)

pub All-Keeps :
    (as' bs : List Appender) (ps : List ℕ)
    → Keeps as' bs
    → All (HasFormat as') ps
    → All (HasFormat bs) ps
All-Keeps as' bs [] k h = tt
All-Keeps as' bs (p ∷ ps) k h = (k p h.0, All-Keeps as' bs ps k h.1)

-- The loggers of the first list are in the second, with their names.
abbrev pub SameNames : List Logger → List Logger → Type 0
SameNames ls ms =
    (q : ℕ) (l : Logger)
    → get_elem? ls q ≡ some l
    → (m : Logger) × (get_elem? ms q ≡ some m) × (m.name ≡ l.name)

-- What every operation on a valid store `s` promises of the store `t` behind it.
pub record Preserves (root : ℕ) (s t : Store) : Type 0 where
  pub valid : IsValid root t
  pub names : SameNames s.loggers t.loggers

pub Preserves-trans :
    {root : ℕ} {s t u : Store} → Preserves root s t → Preserves root t u → Preserves root s u
Preserves-trans x y = record {
  valid = y.valid;
  names = λ q l h.
      let (m, at, same) = x.names q l h in
      let (n, at', same') = y.names q m at in (n, at', same' ∙ same);
}

-- From a valid store `s` to a store `t` whose appenders keep their formatters.
module _ (root : ℕ) (s t : Store) (valid : IsValid root s)
    (keeps : Keeps s.appenders t.appenders) where
  IsLogger-Keeps : (l : Logger) → IsLogger s.appenders root l → IsLogger t.appenders root l
  IsLogger-Keeps l v = record {
    formatted = v.formatted;
    attached = All-Keeps s.appenders t.appenders l.appenders keeps v.attached;
    parent = v.parent;
  }

  IsValid-appenders : t.loggers ≡ s.loggers → IsValid root t
  IsValid-appenders same = record {
    loggers_valid = λ p l e. IsLogger-Keeps l (valid.loggers_valid p l (rw same at e));
    root_valid = rw same valid.root_valid;
  }

  -- A step that changes appenders only.
  pub Preserves-appenders : t.loggers ≡ s.loggers → Preserves root s t
  Preserves-appenders same = record {
    valid = IsValid-appenders same;
    names = λ q l h. (l, rw same h, refl);
  }

  IsValid-put :
      (p : ℕ) (old new : Logger)
      → get_elem? s.loggers p ≡ some old
      → t.loggers ≡ set s.loggers p new
      → new.root ≡ old.root
      → ((f : Formatter) × (new.formatter ≡ some f))
      → All (HasFormat t.appenders) new.appenders
      → IsValid root t
  IsValid-put p old new e put same f attached = record {
    loggers_valid = each;
    root_valid = at_root;
  }
    where
      reads : (q : ℕ) → get_elem? t.loggers q ≡ (if p == q then some new else get_elem? s.loggers q)
      reads q = rw put (get_elem?-set s.loggers p q new (get_elem?-lt s.loggers p old e))

      written : IsLogger t.appenders root new
      written = record {
        formatted = f;
        attached = attached;
        parent = rw same (valid.loggers_valid p old e).parent;
      }

      each : (q : ℕ) (l : Logger) → get_elem? t.loggers q ≡ some l → IsLogger t.appenders root l
      each q l h = elim (Bool-cases (p == q)) [
        | inl eq ↦ let is : new ≡ l = ground (arith, reads q) in rw is at written
        | inr ne ↦ IsLogger-Keeps l (valid.loggers_valid q l (ground (arith, reads q)))
      ]

      at_root : (l : Logger) × (get_elem? t.loggers root ≡ some l) × (l.root ≡ none)
      at_root = elim (Bool-cases (p == root)) [
        | inl eq ↦
            (new, rw (reads root) (rw eq), ground (arith, valid.root_valid, (==_iff p root).0 eq))
        | inr ne ↦
            (valid.root_valid.0, rw (reads root) (rw ne valid.root_valid.1), valid.root_valid.2)
      ]

  -- A step that also writes the logger at `p`, and keeps its name and root.
  pub Preserves-put :
      (p : ℕ) (old new : Logger)
      → get_elem? s.loggers p ≡ some old
      → t.loggers ≡ set s.loggers p new
      → new.root ≡ old.root
      → new.name ≡ old.name
      → ((f : Formatter) × (new.formatter ≡ some f))
      → All (HasFormat t.appenders) new.appenders
      → Preserves root s t
  Preserves-put p old new e put same name f attached = record {
    valid = IsValid-put p old new e put same f attached;
    names = λ q l h. elim (Bool-cases (p == q)) [
      | inl eq ↦ (new, rw (reads q) (rw eq), name ∙ ground (arith, (==_iff p q).0 eq))
      | inr ne ↦ (l, rw (reads q) (rw ne h), refl)
    ];
  }
    where
      reads : (q : ℕ) → get_elem? t.loggers q ≡ (if p == q then some new else get_elem? s.loggers q)
      reads q = rw put (get_elem?-set s.loggers p q new (get_elem?-lt s.loggers p old e))
