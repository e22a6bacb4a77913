-- ===== src/Thread/Progress.antt =====
-- Thread::Thread and Thread::run of src/thread.cpp: all their runs, and how far each of them comes.
use ye_cc_server.Prelude.{
  ℕ, suc, ◌≡◌, ◌≢◌, refl, ◌⊎◌, inl, inr, Bool, true, false, [], Option, none, some, ok, Bytes,
  codes, bytes_eq, ℤ, arith, leb, if◌then◌else◌, Returns, Bool-cases,
}
use ye_cc_server.Thread.{
  Thread, World, Local, Point, finished, Phase, creating, waiting, returned, failed, Handle, run,
  wait, wait_for,
}
use ye_cc_server.Thread.Handshake.{done, IsThread, world, Advances, run-waiting, run-returned}

-- The name that a thread of a given name gets.
abbrev pub given_name : Bytes → Bytes
given_name name = if bytes_eq name [] then codes "UNKNOWN" else name

module _ (name : Bytes) (tid : ℤ) (handle : ℕ) where
  run_parts :
      (local : Local) (taken : Bool) (handled : Handle) (p : Point) (phase : Phase)
      (object : Option Thread)
      → IsThread name tid handle (world name tid handle local taken handled p phase object)
      → p ≢ finished
      → Returns
          (Advances name tid handle local taken handled p phase handled)
          (run tid (world name tid handle local taken handled p phase object))
  run_parts local taken handled p waiting (some o) v ne =
      run-waiting name tid handle local taken handled p o v ne
  run_parts local taken handled p waiting none v ne = absurd (ground (arith, v.phased))
  run_parts local taken handled p returned object v ne =
      run-returned name tid handle local taken handled p object v ne
  run_parts local taken handled p creating object v ne = absurd (ground (arith, v.phased))
  run_parts local taken handled p failed object v ne = absurd (ground (arith, v.phased))

  -- The thread's next statement returns, in a phase that stays.
  abbrev pub Runs : World → Type 0
  Runs w =
      Returns
        (λ t.
          IsThread name tid handle t
          × (t.phase ≡ w.phase)
          × (t.handle ≡ w.handle)
          × (done t.point ≡ suc (done w.point)))
        (run tid w)

  pub run-Runs : (w : World) → IsThread name tid handle w → w.point ≢ finished → Runs w
  run-Runs w v ne = run_parts w.local w.taken w.handle w.point w.phase w.object v ne

  -- The constructor is blocked as long as the handshake is not over, and returns with the object behind it.
  abbrev pub Waits : World → Type 0
  Waits w =
      ((leb 6 (done w.point) ≡ false) × (wait_for w ≡ ok none))
      ⊎ ((leb 6 (done w.point) ≡ true)
          × ((t : World) × (o : Thread) × (wait_for w ≡ ok (some t))
              × IsThread name tid handle t
              × (t.phase ≡ returned)
              × (t.object ≡ some o)
              × (t.point ≡ w.point)
              × (t.handle ≡ w.handle)))

  wait_parts :
      (local : Local) (taken : Bool) (handled : Handle) (p : Point) (o : Thread)
      → (let w = world name tid handle local taken handled p waiting (some o) in
          IsThread name tid handle w → Waits w)
  unfolding wait_for wait
  wait_parts local taken handled p o v = elim (Bool-cases (leb 6 (done p))) [
    | inl over ↦
        let one : o.semaphore ≡ 1 = ground (arith, over, v.phased) in
        inr (
          over,
          (
            world name tid handle local taken handled p returned
                (some (record o { semaphore = 0 })),
            record o { semaphore = 0 },
            rw one refl,
            record {
              phased = (over, v.phased.0);
              this_is = v.this_is;
              local_is = v.local_is;
              taken_is = v.taken_is;
            },
            refl,
            refl,
            refl,
            refl,
          ),
        )
    | inr early ↦
        let no_post : o.semaphore ≡ 0 = ground (arith, early, v.phased) in
        inl (early, rw no_post refl)
  ]

  pub wait_for-Waits : (w : World) → IsThread name tid handle w → w.phase ≡ waiting → Waits w
  wait_for-Waits w v at = go w.phase w.object at v
    where
      go :
          (phase : Phase) (object : Option Thread)
          → phase ≡ waiting
          → IsThread name tid handle
              (world name tid handle w.local w.taken w.handle w.point phase object)
          → Waits (world name tid handle w.local w.taken w.handle w.point phase object)
      go waiting (some o) e x = wait_parts w.local w.taken w.handle w.point o x
      go waiting none e x = absurd (ground (arith, x.phased))
      go returned object e x = absurd (ground (arith, e))
      go creating object e x = absurd (ground (arith, e))
      go failed object e x = absurd (ground (arith, e))
