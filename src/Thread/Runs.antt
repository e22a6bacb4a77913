-- ===== src/Thread/Runs.antt =====
-- All runs of a thread and of the thread that makes it, of src/thread.cpp.
use mathlib.Core.Path.{subst}
use ye_cc_server.Prelude.{
  ℕ, zero, suc, ◌+◌, ◌≤◌, ◌≡◌, ◌≢◌, refl, sym, ◌∙◌, inl, inr, true, false, ◌==◌, Option, none, some,
  ok, bind_ok, Bytes, codes, ℤ, negsuc, arith, leb, ltb, Returns, ok_inj, Bool-cases,
}
use ye_cc_server.Thread.{
  Thread, World, sets_this, finished, Phase, creating, waiting, returned, failed, Handle, joinable,
  deref, run, wait_for, destroy, join, join_object, with_handle, construct, create, detach,
  pthread_join,
}
use ye_cc_server.Thread.Handshake.{
  Step, runs, waits, joins, destroys, Reach, here, next, done, Phased, IsThread,
}
use ye_cc_server.Thread.Progress.{given_name, Runs, run-Runs, wait_for-Waits}

module _ (name : Bytes) (tid : ℤ) (handle : ℕ) where
  abbrev Valid : World → Type 0
  Valid = IsThread name tid handle

  unfinished : (w t : World) → run tid w ≡ ok t → w.point ≢ finished
  unfolding run
  unfinished w t e at = absurd (ground (arith, e, at))

  Step-runs : (w t : World) → Valid w → run tid w ≡ ok t → Valid t
  Step-runs w t v e =
      let (u, returns, (x, _, _, _)) = run-Runs name tid handle w v (unfinished w t e) in
      subst Valid (ok_inj (sym returns ∙ e)) x

  Step-waits : (w t : World) → Valid w → w.phase ≡ waiting → wait_for w ≡ ok (some t) → Valid t
  Step-waits w t v at e = elim (wait_for-Waits name tid handle w v at) [
    | inl (_, blocked) ↦ absurd (ground (arith, sym blocked ∙ e))
    | inr (_, (u, o, returns, x, _, _, _, _)) ↦
        let same : u ≡ t = ground (arith, sym returns ∙ e) in subst Valid same x
  ]

  with_handle-Valid :
      (w t : World) (r : Option Handle) → Valid w → with_handle w r ≡ some t → Valid t
  with_handle-Valid w t none v e = absurd (ground (arith, e))
  with_handle-Valid w t (some h) v e =
      let new : World = record w { handle = h } in
      let same : new ≡ t = ground (arith, e) in
      subst Valid same (record {
        phased = v.phased;
        this_is = v.this_is;
        local_is = v.local_is;
        taken_is = v.taken_is;
      })

  Step-joins : (w t : World) → Valid w → join w ≡ ok (some t) → Valid t
  unfolding join
  Step-joins w t v e =
      let (o, _, joined_it) = bind_ok (deref w) (join_object w) (some t) e in
      elim (Bool-cases (o.thread == 0)) [
        | inl null ↦ let same : w ≡ t = ground (arith, null, joined_it) in subst Valid same v
        | inr not_null ↦
            let (r, _, changed) =
              bind_ok (pthread_join w.point w.handle) (λ r. ok (with_handle w r)) (some t)
                (rw not_null at joined_it) in
            with_handle-Valid w t r v (ok_inj changed)
      ]

  without_object :
      (w : World) (h : Handle)
      → w.phase ≡ returned
      → Valid w
      → Valid (record w { object = none; handle = h })
  without_object w h at v = record {
    phased = go w.phase w.object at v.phased;
    this_is = v.this_is;
    local_is = v.local_is;
    taken_is = v.taken_is;
  }
    where
      go :
          (phase : Phase) (object : Option Thread)
          → phase ≡ returned
          → Phased name tid handle w.point phase object
          → Phased name tid handle w.point phase none
      go returned (some o) e h = h.0
      go returned none e h = h
      go waiting object e h = absurd (ground (arith, e))
      go creating object e h = h
      go failed object e h = h

  Step-destroys : (w t : World) → Valid w → w.phase ≡ returned → destroy w ≡ ok t → Valid t
  unfolding destroy
  Step-destroys w t v at e =
      let (o, _, gone) = bind_ok (deref w) _ t e in
      elim (Bool-cases (o.thread == 0)) [
        | inl null ↦ subst Valid (ok_inj (rw null at gone)) (without_object w w.handle at v)
        | inr not_null ↦
            let (h, _, left) =
              bind_ok (detach w.handle) (λ h. ok (record w { object = none; handle = h })) t
                (rw not_null at gone) in
            subst Valid (ok_inj left) (without_object w h at v)
      ]

  Step-IsThread : (w t : World) → Step tid w t → Valid w → Valid t
  Step-IsThread w t (runs e) v = Step-runs w t v e
  Step-IsThread w t (waits at e) v = Step-waits w t v at e
  Step-IsThread w t (joins at e) v = Step-joins w t v e
  Step-IsThread w t (destroys at e) v = Step-destroys w t v at e

  pub Reach-IsThread : (w t : World) → Valid w → Reach tid w t → Valid t
  Reach-IsThread w t v here = v
  Reach-IsThread w t v (next {t = u} run' step) = Step-IsThread u t step (Reach-IsThread w u v run')

  -- The start of all runs: pthread_create succeeded.
  created : World
  created = record {
    object =
        some (record { id = negsuc 0; thread = handle; has_cb = true; name = name; semaphore = 0 });
    local = record { this = false; name = codes "UNKNOWN" };
    taken = false;
    point = sets_this;
    phase = waiting;
    handle = joinable;
  }

  created-IsThread : Valid created
  unfolding created
  created-IsThread = record {
    phased = ((refl, refl, tt, refl), refl);
    this_is = refl;
    local_is = tt;
    taken_is = refl;
  }

  Reach-trans : (w t u : World) → Reach tid w t → Reach tid t u → Reach tid w u
  Reach-trans w t u a here = a
  Reach-trans w t u a (next {t = x} b step) = next (Reach-trans w t x a b) step

  -- The constructor has returned, with the object as the new thread left it.
  abbrev pub Returned : World → Type 0
  Returned u =
      (o : Thread) × (u.phase ≡ returned)
      × (u.object ≡ some o)
      × (o.id ≡ tid)
      × (o.name ≡ name)
      × (o.has_cb ≡ false)
      × (u.local.name ≡ name)

  Returned-object :
      (u : World) (o : Thread) → Valid u → u.phase ≡ returned → u.object ≡ some o → Returned u
  Returned-object u o v at there = go u.phase u.object at there v.phased
    where
      go :
          (phase : Phase) (object : Option Thread)
          → phase ≡ returned
          → object ≡ some o
          → Phased name tid handle u.point phase object
          → Returned (record u { phase = phase; object = object })
      go returned (some x) e f h =
          let id_set : leb 3 (done u.point) ≡ true = ground (arith, h.0) in
          let cb_gone : ltb (done u.point) 5 ≡ false = ground (arith, h.0) in
          let named : leb 2 (done u.point) ≡ true = ground (arith, h.0) in
          (x, refl, refl, rw id_set at h.1.2, h.1.0, h.1.3 ∙ cb_gone, rw named at v.local_is)
      go returned none e f h = absurd (ground (arith, f))
      go waiting object e f h = absurd (ground (arith, e))
      go creating object e f h = absurd (ground (arith, e))
      go failed object e f h = absurd (ground (arith, e))

  comes_to_return :
      (n : ℕ) (w : World)
      → Valid w
      → w.phase ≡ waiting
      → 6 ≤ done w.point + n
      → (u : World) × Reach tid w u × Returned u
  comes_to_return zero w v at h = elim (wait_for-Waits name tid handle w v at) [
    | inr (_, (u, o, returns, x, back, there, _, _)) ↦
        (u, next here (waits at returns), Returned-object u o x back there)
    | inl (early, _) ↦ absurd (ground (arith, early, h))
  ]
  comes_to_return (suc n) w v at h = elim (wait_for-Waits name tid handle w v at) [
    | inr (_, (u, o, returns, x, back, there, _, _)) ↦
        (u, next here (waits at returns), Returned-object u o x back there)
    | inl (early, _) ↦
        let unfinished : w.point ≢ finished = λ e. absurd (ground (arith, early, e)) in
        let (t, moves, (x, same, _, more)) = run-Runs name tid handle w v unfinished in
        let (u, rest, r) = comes_to_return n t x (same ∙ at) (omega (arith, more, h)) in
        (u, Reach-trans w t u (next here (runs moves)) rest, r)
  ]

-- Once pthread_create has succeeded, in every order of the statements of Thread::run and of the steps of the
-- other thread, which waits for the semaphore and may then join the thread or destroy the object, no statement
-- of Thread::run touches an object that is gone or calls an empty callback: each returns. And what IsThread
-- says holds throughout: the constructor has not returned before the semaphore was posted, and by then the
-- object has its number and the thread its name and its callback.
pub create-IsThread :
    (name : Bytes) (tid : ℤ) (handle : ℕ)
    → Returns
        (λ w.
          (t : World)
          → Reach tid w t
          → IsThread (given_name name) tid handle t
            × (t.point ≢ finished → Runs (given_name name) tid handle t))
        (create 0 handle (construct name))
unfolding construct create created
create-IsThread name tid handle =
    let x = given_name name in
    (
      created x tid handle,
      refl,
      λ t run'.
          let v =
            Reach-IsThread x tid handle (created x tid handle) t (created-IsThread x tid handle)
              run' in
          (v, λ more. run-Runs x tid handle t v more),
    )

-- The constructor returns: once pthread_create has succeeded, each run in which it still waits can be gone on
-- with until it has returned, with the object there, its number that of the thread, its name the one given, or
-- "UNKNOWN" for an empty one, which is also the new thread's, and its callback taken.
pub constructor-Returns :
    (name : Bytes) (tid : ℤ) (handle : ℕ)
    → Returns
        (λ w.
          (t : World)
          → Reach tid w t
          → t.phase ≡ waiting
          → (u : World) × Reach tid t u × Returned (given_name name) tid handle u)
        (create 0 handle (construct name))
unfolding construct create created
constructor-Returns name tid handle =
    let x = given_name name in
    (
      created x tid handle,
      refl,
      λ t run' at.
          let v =
            Reach-IsThread x tid handle (created x tid handle) t (created-IsThread x tid handle)
              run' in
          comes_to_return x tid handle 6 t v at (omega arith),
    )
