-- ===== src/Log/Manager/Valid.antt =====
-- The invariant of LoggerManager in src/log.cpp, and LoggerManager::getLogger.
use ye_cc_server.Prelude.{
  ℕ, zero, suc, ◌≡◌, ◌≢◌, refl, ◌∙◌, ap, ◌⊎◌, inl, inr, List, [], ◌∷◌, ◌++◌, none, some, arith, ok,
  Bytes, bytes_eq_iff, bytes_eq, length, get_elem?, get_elem?-lt, get_elem?-append_left,
  get_elem?-append_length, Bool-cases, Returns, Option-cases,
}
use ye_cc_server.Prelude.Maps.{find, put, find-put, bytes_key}
use ye_cc_server.Log.Formatter.Items.{Formatter}
use ye_cc_server.Log.Formatter.Meaning.{new_formatter_total}
use ye_cc_server.Log.Level.{debug}
use ye_cc_server.Log.Logger.{Logger, Store, make_logger, default_pattern}
use ye_cc_server.Log.Logger.Valid.{IsValid}
use ye_cc_server.Log.Manager.{Manager, get_logger}

-- A name stands for a logger of that name that is not the root.
pub record IsNamed (m : Manager) (name : Bytes) (p : ℕ) : Type 0 where
  pub logger : Logger
  pub at : get_elem? m.store.loggers p ≡ some logger
  pub has_name : logger.name ≡ name
  pub not_root : p ≢ m.root

pub record IsManager (m : Manager) : Type 0 where
  pub valid : IsValid m.root m.store
  pub named : (name : Bytes) (p : ℕ) → find name m.loggers ≡ some p → IsNamed m name p

pub make_logger-Returns :
    (name : Bytes)
    → Returns
        (λ l.
          (l.name ≡ name)
          × (l.appenders ≡ [])
          × (l.root ≡ none)
          × ((f : Formatter) × (l.formatter ≡ some f)))
        (make_logger name)
unfolding make_logger
make_logger-Returns name =
    let (f, made, _) = new_formatter_total default_pattern in
    (
      record { name = name; level = debug; appenders = []; formatter = some f; root = none },
      rw made,
      (refl, refl, refl, (f, refl)),
    )

-- The list with one more element at the end.
get_elem?-concat {ℓ} :
    {A : Type ℓ} (xs : List A) (x : A) (i : ℕ) (y : A)
    → get_elem? (xs ++ x ∷ []) i ≡ some y
    → (get_elem? xs i ≡ some y) ⊎ ((i ≡ length xs) × (y ≡ x))
get_elem?-concat [] x zero y h = inr (refl, ground arith)
get_elem?-concat [] x (suc i) y h = absurd (ground arith)
get_elem?-concat (z ∷ xs) x zero y h = inl h
get_elem?-concat (z ∷ xs) x (suc i) y h = elim (get_elem?-concat xs x i y h) [
  | inl e ↦ inl e
  | inr (e, is) ↦ inr (ap suc e, is)
]

-- A fresh logger below the root keeps a store valid.
IsValid-concat :
    (root : ℕ) (s : Store) (l : Logger)
    → IsValid root s
    → ((f : Formatter) × (l.formatter ≡ some f))
    → l.appenders ≡ []
    → l.root ≡ some root
    → IsValid root (record s { loggers = s.loggers ++ l ∷ [] })
IsValid-concat root s l v f empty up = record {
  loggers_valid = λ p x h. elim (get_elem?-concat s.loggers l p x h) [
    | inl old ↦ v.loggers_valid p x old
    | inr (_, is) ↦ rw is (record { formatted = f; attached = rw empty tt; parent = inr up })
  ];
  root_valid =
      let (top, at, no_root) = v.root_valid in
      (
        top,
        get_elem?-append_left s.loggers (l ∷ []) root (get_elem?-lt s.loggers root top at) ∙ at,
        no_root,
      );
}

-- What a lookup promises: the manager stays valid, the name now stands for the logger returned, the
-- loggers that were there are the same, and so are appenders, output and the loggers of other names.
pub record Finds (m : Manager) (name : Bytes) (n : Manager) (p : ℕ) : Type 0 where
  pub manager : IsManager n
  pub found : find name n.loggers ≡ some p
  pub others : (other : Bytes) → other ≢ name → find other n.loggers ≡ find other m.loggers
  pub loggers_kept :
      (q : ℕ) (l : Logger)
      → get_elem? m.store.loggers q ≡ some l
      → get_elem? n.store.loggers q ≡ some l
  pub appenders_kept : n.store.appenders ≡ m.store.appenders
  pub output_kept : n.store.outside ≡ m.store.outside
  pub root_kept : n.root ≡ m.root

get_logger-known :
    (m : Manager) (name : Bytes) (p : ℕ)
    → find name m.loggers ≡ some p
    → get_logger m name ≡ ok (m, p)
unfolding get_logger
get_logger-known m name p e = rw (e, get_logger)

module _ (m : Manager) (name : Bytes) (v : IsManager m) where
  Finds-known : (p : ℕ) → find name m.loggers ≡ some p → Finds m name m p
  Finds-known p e = record {
    manager = v;
    found = e;
    others = λ other ne. refl;
    loggers_kept = λ q l h. h;
    appenders_kept = refl;
    output_kept = refl;
    root_kept = refl;
  }

  module _ (l : Logger) (has_name : l.name ≡ name) (empty : l.appenders ≡ [])
      (f : (f : Formatter) × (l.formatter ≡ some f)) where
    abbrev added : Logger
    added = record l { root = some m.root }

    abbrev with_added : Manager
    with_added = record m {
      store = record m.store { loggers = m.store.loggers ++ added ∷ [] };
      loggers = put name (length m.store.loggers) m.loggers;
    }

    kept :
        (q : ℕ) (x : Logger)
        → get_elem? m.store.loggers q ≡ some x
        → get_elem? with_added.store.loggers q ≡ some x
    kept q x h =
        get_elem?-append_left m.store.loggers (added ∷ []) q (get_elem?-lt m.store.loggers q x h)
        ∙ h

    named_with_added :
        (other : Bytes) (p : ℕ)
        → find other with_added.loggers ≡ some p
        → IsNamed with_added other p
    named_with_added other p h = elim (Bool-cases (bytes_eq name other)) [
      | inl same ↦
          let is : length m.store.loggers ≡ p =
            ground (arith, find-put name other (length m.store.loggers) m.loggers) in
          rw (← is) (record {
            logger = added;
            at = get_elem?-append_length m.store.loggers added;
            has_name = has_name ∙ (bytes_eq_iff name other).0 same;
            not_root =
                let (top, at, _) = v.valid.root_valid in
                let inside = get_elem?-lt m.store.loggers m.root top at in
                λ e. absurd (omega arith);
          })
      | inr differs ↦
          let old =
            v.named other p
              (ground (arith, find-put name other (length m.store.loggers) m.loggers)) in
          record {
            logger = old.logger;
            at = kept p old.logger old.at;
            has_name = old.has_name;
            not_root = old.not_root;
          }
    ]

    Finds-added : Finds m name with_added (length m.store.loggers)
    Finds-added = record {
      manager = record {
        valid = IsValid-concat m.root m.store added v.valid f empty refl;
        named = named_with_added;
      };
      found = ground (
        arith,
        find-put name name (length m.store.loggers) m.loggers,
        (bytes_eq_iff name name).1 refl,
      );
      others = λ other ne.
          ground (
            arith,
            find-put name other (length m.store.loggers) m.loggers,
            bytes_eq_iff name other,
          );
      loggers_kept = kept;
      appenders_kept = refl;
      output_kept = refl;
      root_kept = refl;
    }

  -- Looking a logger up by its name returns on a valid manager. What it finds is a logger of that
  -- name, never the root, and it changes nothing else: see Finds and IsManager.
  pub get_logger-Finds : Returns (λ r. Finds m name r.0 r.1) (get_logger m name)
  unfolding get_logger
  get_logger-Finds = elim (Option-cases (find name m.loggers)) [
    | inr (p, e) ↦ ((m, p), rw (e, get_logger), Finds-known p e)
    | inl e ↦
        let (l, made, (has_name, empty, _, f)) = make_logger-Returns name in
        (
          (with_added l has_name empty f, length m.store.loggers),
          rw (e, get_logger, made),
          Finds-added l has_name empty f,
        )
  ]
