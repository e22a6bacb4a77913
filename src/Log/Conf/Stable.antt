-- ===== src/Log/Conf/Stable.antt =====
-- What the calls of LogIniter's listener in src/log.cpp leave alone: the types and levels of the appenders that
-- are there, and every logger but one.
use ye_cc_server.Prelude.{
  ℕ, zero, suc, ◌≡◌, ◌≢◌, refl, sym, ◌∙◌, ap, inl, inr, Bool, List, [], ◌∷◌, ◌++◌, ◌==◌, ==_iff,
  Option, none, some, Outcome, ok, Ends, Ends-bind, Ends-ok, Ends-map, Bytes, leb, if◌then◌else◌,
  get_elem?, get_elem?-lt, get_elem?-append_left, get_elem?-set_self, get_elem?-set_ne, set,
  Bool-cases, Option-cases, arith,
}
use ye_cc_server.Log.Event.{Event}
use ye_cc_server.Log.Level.{Level}
use ye_cc_server.Log.Formatter.Items.{Formatter}
use ye_cc_server.Log.Appender
use ye_cc_server.Log.Appender.{Appender, Sink, console, file, FileSink, Outside, Env, get_type}
use ye_cc_server.Log.Logger.{
  Logger, Store, deref, name_of, log_to, log, put_logger, put_appender, give_formatter,
}

-- The appender has the same type and level.
abbrev pub Same : Appender → Appender → Type 0
Same a b = (get_type b ≡ get_type a) × (b.level ≡ a.level)

abbrev pub Stable : List Appender → List Appender → Type 0
Stable as' bs =
    (p : ℕ) (a : Appender)
    → get_elem? as' p ≡ some a
    → (b : Appender) × (get_elem? bs p ≡ some b) × Same a b

pub Stable-refl : (as' : List Appender) → Stable as' as'
Stable-refl as' p a h = (a, h, (refl, refl))

pub Stable-trans : (as' bs cs : List Appender) → Stable as' bs → Stable bs cs → Stable as' cs
Stable-trans as' bs cs h k p a at =
    let (b, at_b, (t, l)) = h p a at in
    let (c, at_c, (t', l')) = k p b at_b in (c, at_c, (t' ∙ t, l' ∙ l))

pub Stable-set :
    (as' : List Appender) (p : ℕ) (a b : Appender)
    → get_elem? as' p ≡ some a
    → Same a b
    → Stable as' (set as' p b)
Stable-set as' p a b at same q x h = elim (Bool-cases (p == q)) [
  | inl e ↦
      let here : p ≡ q = (==_iff p q).0 e in
      let is : a ≡ x = ground (arith, at, h, here) in
      (b, rw (← here) (get_elem?-set_self as' p b (get_elem?-lt as' p a at)), rw (← is) same)
  | inr e ↦ (x, get_elem?-set_ne as' p q b (λ k. absurd (ground (arith, e, k))) ∙ h, (refl, refl))
]

pub Stable-append : (as' bs : List Appender) → Stable as' (as' ++ bs)
Stable-append as' bs p a h =
    (a, get_elem?-append_left as' bs p (get_elem?-lt as' p a h) ∙ h, (refl, refl))

pub deref_ok {ℓ} :
    {A : Type ℓ} (xs : List A) (p : ℕ) (x : A) → deref xs p ≡ ok x → get_elem? xs p ≡ some x
deref_ok xs p x h = elim (Option-cases (get_elem? xs p)) [
  | inl missing ↦ absurd (ground (arith, missing, h))
  | inr (y, found) ↦ let same : y ≡ x = ground (arith, found, h) in found ∙ ap some same
]

module _ (env : Env) (now : ℕ) (event : Event) where
  -- An appender that logs an event.
  logged_by :
      (names : ℕ → Outcome Bytes) (sink : Sink) (least : Level) (formatter : Option Formatter)
      (own : Bool) (out : Outside) (level : Level)
      → (let a : Appender = record {
        level = least;
        formatter = formatter;
        has_formatter = own;
        sink = sink;
      } in
          Ends (λ r. Same a r.0) (Appender.log env now names a out level event))
  unfolding Appender.log
  logged_by names console least formatter own out level = elim (Bool-cases (leb least level)) [
    | inl high ↦ rw high (Ends-bind _ (Appender.formatted formatter _) _ (λ t e. (refl, refl)))
    | inr low ↦ rw low (refl, refl)
  ]
  logged_by names (file f) least formatter own out level = elim (Bool-cases (leb least level)) [
    | inl high ↦ rw high (Ends-bind _ (Appender.formatted formatter _) _ (λ t e. (refl, refl)))
    | inr low ↦ rw low (refl, refl)
  ]

  log-Same :
      (names : ℕ → Outcome Bytes) (a : Appender) (out : Outside) (level : Level)
      → Ends (λ r. Same a r.0) (Appender.log env now names a out level event)
  log-Same names a out level = logged_by names a.sink a.level a.formatter a.has_formatter out level

  log_to-Stable :
      (ps : List ℕ) (s : Store) (level : Level)
      → Ends (λ t. Stable s.appenders t.appenders) (log_to env now ps s level event)
  unfolding log_to
  log_to-Stable [] s level = Stable-refl s.appenders
  log_to-Stable (p ∷ ps) s level = Ends-bind _ (deref s.appenders p) _ (λ a found.
      Ends-bind _ (Appender.log env now (name_of s.loggers) a s.outside level event) _ (λ r logged.
        let u : Store = record (put_appender s p r.0) { outside = r.1 } in
        let same =
          Ends-ok (λ x. Same a x.0) _ r (log-Same (name_of s.loggers) a s.outside level) logged in
        Ends-map
          (λ t k.
            Stable-trans s.appenders u.appenders t.appenders
              (Stable-set s.appenders p a r.0 (deref_ok s.appenders p a found) same) k)
          (log_to env now ps u level event) (log_to-Stable ps u level)))

  -- A logger without appenders hands the event on.
  handed_on :
      (s : Store) (level : Level) (apps : List ℕ) (root : Option ℕ) (rest : ℕ → Outcome Store)
      → ((top : ℕ) → Ends (λ t. Stable s.appenders t.appenders) (rest top))
      → Ends
          (λ t. Stable s.appenders t.appenders)
          (elim apps [
            | [] ↦ elim root [ none ↦ ok s | some top ↦ rest top ]
            | app ∷ more ↦ log_to env now (app ∷ more) s level event
          ])
  handed_on s level [] none rest h = Stable-refl s.appenders
  handed_on s level [] (some top) rest h = h top
  handed_on s level (app ∷ more) root rest h = log_to-Stable (app ∷ more) s level

  pub log-Stable :
      (fuel p : ℕ) (s : Store) (level : Level)
      → Ends (λ t. Stable s.appenders t.appenders) (log fuel env now p s level event)
  unfolding log
  log-Stable zero p s level = tt
  log-Stable (suc fuel) p s level = Ends-bind _ (deref s.loggers p) _ (λ l found.
      elim (Bool-cases (leb l.level level)) [
        | inr low ↦ rw low (Stable-refl s.appenders)
        | inl high ↦ rw high (
            handed_on s level l.appenders l.root (λ top. log fuel env now top s level event)
              (λ top. log-Stable fuel top s level))
      ])

-- The loop of setFormatter gives formatters, and changes no logger.
pub give_formatter-Stable :
    (ps : List ℕ) (s : Store) (val : Option Formatter)
    → Ends (λ t. Stable s.appenders t.appenders × (t.loggers ≡ s.loggers)) (give_formatter ps s val)
unfolding give_formatter
give_formatter-Stable [] s val = (Stable-refl s.appenders, refl)
give_formatter-Stable (p ∷ ps) s val = Ends-bind _ (deref s.appenders p) _ (λ a found.
    let given = if a.has_formatter then a else Appender.set_formatter a val in
    let u : Store = put_appender s p given in
    let same : Same a given = given_same a in
    Ends-map
      (λ t k. (
        Stable-trans s.appenders u.appenders t.appenders
            (Stable-set s.appenders p a given (deref_ok s.appenders p a found) same) k.0,
        k.1,
      ))
      (give_formatter ps u val) (give_formatter-Stable ps u val))
  where
    given_same :
        (a : Appender) → Same a (if a.has_formatter then a else Appender.set_formatter a val)
    given_same a = elim (Bool-cases a.has_formatter) [
      | inl own ↦ rw own (refl, refl)
      | inr other ↦ rw other (refl, refl)
    ]

-- The step leaves the appenders stable and all loggers but the one at `p` as they are.
abbrev pub Frame : ℕ → Store → Store → Type 0
Frame p s t =
    Stable s.appenders t.appenders
    × ((q : ℕ) → q ≢ p → get_elem? t.loggers q ≡ get_elem? s.loggers q)

pub Frame-trans : (p : ℕ) (s t u : Store) → Frame p s t → Frame p t u → Frame p s u
Frame-trans p s t u (a, k) (b, l) =
    (Stable-trans s.appenders t.appenders u.appenders a b, λ q ne. l q ne ∙ k q ne)

pub put_logger-Frame : (p : ℕ) (s : Store) (l : Logger) → Frame p s (put_logger s p l)
put_logger-Frame p s l =
    (Stable-refl s.appenders, λ q ne. get_elem?-set_ne s.loggers p q l (λ e. ne (sym e)))
