-- ===== src/Scheduler/Queue.antt =====
-- The queue of Scheduler in include/scheduler.hpp.
use ye_cc_server.Prelude.{
  ℕ, ◌≡◌, refl, sym, ◌∙◌, ap, inl, inr, Bool, true, false, ◌&&◌, ◌||◌, List, [], ◌∷◌, ◌++◌,
  append_assoc, append-nil, if◌then◌else◌, Outcome, ok, ◌>>=◌, bind_cong, bind_assoc, Bool-cases,
}
use ye_cc_server.Scheduler.{
  Task, Variables, Source, make_task, is_empty, is_runnable, schedule_no_block, schedule_all, State,
  after, schedule, schedule_batch,
}

-- The tasks of a batch, in order.
abbrev pub tasks_of : Variables → List Source → ℕ → Outcome (Variables × List Task)
tasks_of vars [] thr = ok (vars, [])
tasks_of vars (fc ∷ fcs) thr = make_task vars fc thr >>= λ made.
    tasks_of made.0 fcs thr >>= λ rest. ok (rest.0, made.1 ∷ rest.1)

abbrev pub runnable : List Task → List Task
runnable [] = []
runnable (t ∷ ts) = if is_runnable t then t ∷ runnable ts else runnable ts

abbrev pub has_any : List Source → Bool
has_any [] = false
has_any (fc ∷ fcs) = true

or_true : (b : Bool) → (b || true) ≡ true
or_true true = refl
or_true false = refl

or_false : (b : Bool) → (b || false) ≡ b
or_false true = refl
or_false false = refl

abbrev queued :
    List Task → Bool → List Source → Variables × List Task → List Task × Variables × Bool
queued q need fcs r = (q ++ runnable r.1, r.0, need || (is_empty q && has_any fcs))

abbrev pushed : List Task → Task → List Task
pushed q t = if is_runnable t then q ++ t ∷ [] else q

pushed-runnable :
    (q : List Task) (t : Task) (ts : List Task) → pushed q t ++ runnable ts ≡ q ++ runnable (t ∷ ts)
pushed-runnable q t ts = elim (Bool-cases (is_runnable t)) [
  | inl yes' ↦ rw yes' (append_assoc q (t ∷ []) (runnable ts))
  | inr no' ↦ rw no' refl
]

pushed_need :
    (q : List Task) (t : Task) (need : Bool) (fcs : List Source)
    → ((need || is_empty q) || (is_empty (pushed q t) && has_any fcs)) ≡ (need || is_empty q)
pushed_need [] t need fcs = rw (or_true need) refl
pushed_need (x ∷ q) t need fcs = elim (Bool-cases (is_runnable t)) [
  | inl yes' ↦ rw yes' (or_false (need || false))
  | inr no' ↦ rw no' (or_false (need || false))
]

and_false : (b : Bool) → (b && false) ≡ false
and_false true = refl
and_false false = refl

queued-cons :
    (q : List Task) (t : Task) (need : Bool) (fc : Source) (fcs : List Source)
    (rest : Variables × List Task)
    → queued (pushed q t) (need || is_empty q) fcs rest
      ≡ queued q need (fc ∷ fcs) (rest.0, t ∷ rest.1)
queued-cons q t need fc fcs rest =
    rw (pushed-runnable q t rest.1, pushed_need q t need fcs)
      (ap (λ b. (q ++ runnable (t ∷ rest.1), rest.0, need || b)) (sym (and_true (is_empty q))))
  where
    and_true : (b : Bool) → (b && true) ≡ b
    and_true true = refl
    and_true false = refl

schedule_all-queued :
    (fcs : List Source) (q : List Task) (vars : Variables) (need : Bool) (thr : ℕ)
    → schedule_all q vars need fcs thr ≡ (tasks_of vars fcs thr >>= λ r. ok (queued q need fcs r))
unfolding schedule_all schedule_no_block
schedule_all-queued [] q vars need thr =
    rw (and_false (is_empty q), or_false need, append-nil q) refl
schedule_all-queued (fc ∷ fcs) q vars need thr =
    let made = make_task vars fc thr in
    bind_assoc made _ _
    ∙ bind_cong made _ _ (λ m.
      schedule_all-queued fcs (pushed q m.1) m.0 (need || is_empty q) thr
      ∙ bind_cong (tasks_of m.0 fcs thr) _ _ (λ rest. ap ok (queued-cons q m.1 need fc fcs rest))
      ∙ sym (bind_assoc (tasks_of m.0 fcs thr) _ _))
    ∙ sym (bind_assoc made _ _)

module _ {ℓ} {W : Type ℓ} (tickle : W → W) where
  -- The queue of a first-in, first-out scheduler behind a batch.
  abbrev pub enqueued : State W → List Source → Variables × List Task → State W
  enqueued s fcs r = record {
    m_fibers = s.m_fibers ++ runnable r.1;
    vars = r.0;
    world = if is_empty s.m_fibers && has_any fcs then tickle s.world else s.world;
  }

  -- Scheduling a batch puts its tasks behind the queue, in their order and without the empty ones, and calls
  -- tickle once, if the queue was empty and the batch was not, even where all its tasks are empty; it ends as
  -- the making of the tasks ends, and takes them from the variables that this takes them from. Scheduling one
  -- task is scheduling the batch of it.
  pub schedule_batch-enqueued :
      (s : State W) (fcs : List Source) (thr : ℕ)
      → (schedule_batch tickle s fcs thr ≡ (tasks_of s.vars fcs thr >>= λ r. ok (enqueued s fcs r)))
        × ((fc : Source) → schedule tickle s fc thr ≡ schedule_batch tickle s (fc ∷ []) thr)
  unfolding schedule_batch schedule schedule_all schedule_no_block
  schedule_batch-enqueued s fcs thr = (
    ap (λ r. r >>= λ x. ok (after tickle s x)) (schedule_all-queued fcs s.m_fibers s.vars false thr)
        ∙ bind_assoc (tasks_of s.vars fcs thr) _ _,
    λ fc. sym (bind_assoc (schedule_no_block s.m_fibers s.vars fc thr) _ _ ∙ refl),
  )
