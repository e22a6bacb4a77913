-- ===== src/Thread/Ends.antt =====
-- Thread::join and Thread::~Thread of src/thread.cpp, behind a constructor that has returned.
use mathlib.Core.Path.{subst}
use ye_cc_server.Prelude.{
  ℕ, ◌≡◌, ◌≢◌, refl, sym, ◌∙◌, ap, inl, inr, false, ◌==◌, ==_iff, Option, none, some, ok, fault,
  ◌>>=◌, Bytes, ℤ, arith, if◌then◌else◌, Bool-cases,
}
use ye_cc_server.Thread.{
  Thread, World, Point, finished, Phase, creating, waiting, returned, failed, joinable, joined,
  detached, deref, destroy, join, join_object, with_handle, detach, pthread_join,
}
use ye_cc_server.Thread.Handshake.{IsObject, Phased, IsThread}

module _ (name : Bytes) (tid : ℤ) (handle : ℕ) (given : handle ≢ 0) where
  -- The handle of an object that is there is the thread's.
  handle_given : (p : Point) (o : Thread) → IsObject name tid handle p o → (o.thread == 0) ≡ false
  handle_given p o h = elim (Bool-cases (o.thread == 0)) [
    | inl null ↦ absurd (given (sym h.1 ∙ (==_iff o.thread 0).0 null))
    | inr not_null ↦ not_null
  ]

  module _ (w : World) (v : IsThread name tid handle w) (at : w.phase ≡ returned) where
    returned_object : (o : Thread) → w.object ≡ some o → IsObject name tid handle w.point o
    returned_object o there = go w.phase w.object at there v.phased
      where
        go :
            (phase : Phase) (object : Option Thread)
            → phase ≡ returned
            → object ≡ some o
            → Phased name tid handle w.point phase object
            → IsObject name tid handle w.point o
        go returned (some x) e f h =
            (let same : x ≡ o = ground (arith, f) in
              subst (IsObject name tid handle w.point) same h.1)
        go returned none e f h = absurd (ground (arith, f))
        go waiting object e f h = absurd (ground (arith, e))
        go creating object e f h = absurd (ground (arith, e))
        go failed object e f h = absurd (ground (arith, e))

    -- ~Thread of a thread that nobody joined detaches it; the object is gone.
    destroy-joinable :
        (o : Thread)
        → w.object ≡ some o
        → w.handle ≡ joinable
        → destroy w ≡ ok (record w { object = none; handle = detached })
    unfolding destroy detach
    destroy-joinable o there known =
        rw (there, handle_given w.point o (returned_object o there), known) refl

    -- Of one that was joined it detaches a thread that is no more.
    destroy-joined : (o : Thread) → w.object ≡ some o → w.handle ≡ joined → destroy w ≡ fault
    unfolding destroy detach
    destroy-joined o there known =
        rw (there, handle_given w.point o (returned_object o there), known) refl

    -- join of a thread that ended joins it.
    join-joinable :
        (o : Thread)
        → w.object ≡ some o
        → w.handle ≡ joinable
        → w.point ≡ finished
        → join w ≡ ok (some (record w { handle = joined }))
    unfolding join pthread_join
    join-joinable o there known over =
        let found : deref w ≡ ok o = rw there refl in
        let given : (o.thread == 0) ≡ false = handle_given w.point o (returned_object o there) in
        let done' : pthread_join w.point w.handle ≡ ok (some joined) = rw (known, over) refl in
        ap (λ r. r >>= join_object w) found
        ∙ ap
            (λ b.
              if b
              then ok (some w)
              else (pthread_join w.point w.handle >>= λ r. ok (with_handle w r)))
            given
        ∙ ap (λ r. r >>= λ x. ok (with_handle w x)) done'

  -- For a thread whose pthread_t is not 0, as the code's tests of m_thread assume: behind a constructor that has
  -- returned, destroying an object whose thread nobody joined detaches the thread, ended or not; and join of a
  -- thread that has ended returns, but then the destructor detaches the thread that was joined, which pthread
  -- leaves undefined, and so it does to join it again.
  pub join-destroy :
      (w : World) (o : Thread)
      → IsThread name tid handle w
      → w.phase ≡ returned
      → w.object ≡ some o
      → w.handle ≡ joinable
      → (destroy w ≡ ok (record w { object = none; handle = detached }))
        × (w.point ≡ finished
            → (t : World) × (join w ≡ ok (some t)) × (destroy t ≡ fault) × (join t ≡ fault))
  unfolding join pthread_join
  join-destroy w o v at there known = (
    destroy-joinable w v at o there known,
    λ over.
        let t : World = record w { handle = joined } in
        let kept : IsThread name tid handle t = record {
          phased = v.phased;
          this_is = v.this_is;
          local_is = v.local_is;
          taken_is = v.taken_is;
        } in
        (
          t,
          join-joinable w v at o there known over,
          destroy-joined t kept at o there refl,
          simp (there, handle_given w.point o (returned_object w v at o there), over) refl,
        ),
  )
