-- ===== src/Thread/Handshake.antt =====
-- The handshake of Thread::Thread and Thread::run in src/thread.cpp, in every order of their steps.
use ye_cc_server.Prelude.{
  ℕ, suc, ◌≡◌, ◌≢◌, refl, Bool, true, false, Option, none, some, ok, Bytes, ℤ, arith, leb, ltb,
  if◌then◌else◌, Returns,
}
use ye_cc_server.Thread.{
  Thread, World, Local, Point, sets_this, sets_local_name, sets_id, sets_system_name, takes_cb,
  notifies, calls, finished, Phase, waiting, returned, Handle, run, wait_for, notify, destroy, join,
}

-- One step: the new thread runs a statement, or the other one goes on behind the semaphore and, from there,
-- joins the thread or destroys the object.
pub data Step (tid : ℤ) : World → World → Type 0 where
  runs : {w t : World} → run tid w ≡ ok t → Step tid w t
  waits : {w t : World} → w.phase ≡ waiting → wait_for w ≡ ok (some t) → Step tid w t
  joins : {w t : World} → w.phase ≡ returned → join w ≡ ok (some t) → Step tid w t
  destroys : {w t : World} → w.phase ≡ returned → destroy w ≡ ok t → Step tid w t

pub data Reach (tid : ℤ) (w : World) : World → Type 0 where
  here : Reach tid w w
  next : {t u : World} → Reach tid w t → Step tid t u → Reach tid w u

-- How many statements of Thread::run are done.
abbrev pub done : Point → ℕ
done sets_this = 0
done sets_local_name = 1
done sets_id = 2
done sets_system_name = 3
done takes_cb = 4
done notifies = 5
done calls = 6
done finished = 7

-- The property, where the test is true.
abbrev pub If : Bool → Type 0 → Type 0
If true P = P
If false P = Unit

module _ (name : Bytes) (tid : ℤ) (handle : ℕ) where
  -- The object, when the thread `tid` comes to a point: its name, handle, number and callback.
  abbrev pub IsObject : Point → Thread → Type 0
  IsObject p o =
      (o.name ≡ name)
      × (o.thread ≡ handle)
      × If (leb 3 (done p)) (o.id ≡ tid)
      × (o.has_cb ≡ ltb (done p) 5)

  -- While the constructor waits the object is there, and the semaphore has been posted once from the end of
  -- the handshake on. Where it has returned the handshake is over.
  abbrev pub Phased : Point → Phase → Option Thread → Type 0
  Phased p waiting (some o) = IsObject p o × (o.semaphore ≡ (if leb 6 (done p) then 1 else 0))
  Phased p returned (some o) = (leb 6 (done p) ≡ true) × IsObject p o
  Phased p returned none = leb 6 (done p) ≡ true
  Phased p _ _ = false ≡ true

  -- What holds from pthread_create on.
  pub record IsThread (w : World) : Type 0 where
    pub phased : Phased w.point w.phase w.object
    pub this_is : w.local.this ≡ leb 1 (done w.point)
    pub local_is : If (leb 2 (done w.point)) (w.local.name ≡ name)
    pub taken_is : w.taken ≡ leb 5 (done w.point)

  module _ (local : Local) (taken : Bool) (handled : Handle) where
    abbrev pub world : Point → Phase → Option Thread → World
    world p phase object = record {
      object = object;
      local = local;
      taken = taken;
      point = p;
      phase = phase;
      handle = handled;
    }

    -- What a statement does in a phase.
    abbrev pub Advances : Point → Phase → Handle → World → Type 0
    Advances p phase h t =
        IsThread t × (t.phase ≡ phase) × (t.handle ≡ h) × (done t.point ≡ suc (done p))

    -- While the constructor waits, each statement of the thread returns.
    pub run-waiting :
        (p : Point) (o : Thread)
        → IsThread (world p waiting (some o))
        → p ≢ finished
        → Returns (Advances p waiting handled) (run tid (world p waiting (some o)))
    unfolding run notify
    run-waiting sets_this o v ne = (
      _,
      refl,
      (
        record { phased = v.phased; this_is = refl; local_is = tt; taken_is = v.taken_is },
        refl,
        refl,
        refl,
      ),
    )
    run-waiting sets_local_name o v ne = (
      _,
      refl,
      (
        record {
          phased = v.phased;
          this_is = v.this_is;
          local_is = v.phased.0.0;
          taken_is = v.taken_is;
        },
        refl,
        refl,
        refl,
      ),
    )
    run-waiting sets_id o v ne = (
      _,
      refl,
      (
        record {
          phased = ((v.phased.0.0, v.phased.0.1, refl, v.phased.0.3), v.phased.1);
          this_is = v.this_is;
          local_is = v.local_is;
          taken_is = v.taken_is;
        },
        refl,
        refl,
        refl,
      ),
    )
    run-waiting sets_system_name o v ne = (
      _,
      refl,
      (
        record {
          phased = v.phased;
          this_is = v.this_is;
          local_is = v.local_is;
          taken_is = v.taken_is;
        },
        refl,
        refl,
        refl,
      ),
    )
    run-waiting takes_cb o v ne = (
      _,
      refl,
      (
        record {
          phased = ((v.phased.0.0, v.phased.0.1, v.phased.0.2, v.taken_is), v.phased.1);
          this_is = v.this_is;
          local_is = v.local_is;
          taken_is = v.phased.0.3;
        },
        refl,
        refl,
        refl,
      ),
    )
    run-waiting notifies o v ne = (
      _,
      refl,
      (
        record {
          phased = (v.phased.0, omega (arith, v.phased.1));
          this_is = v.this_is;
          local_is = v.local_is;
          taken_is = v.taken_is;
        },
        refl,
        refl,
        refl,
      ),
    )
    run-waiting calls o v ne = (
      world finished waiting (some o),
      rw v.taken_is refl,
      (
        record {
          phased = v.phased;
          this_is = v.this_is;
          local_is = v.local_is;
          taken_is = v.taken_is;
        },
        refl,
        refl,
        refl,
      ),
    )
    run-waiting finished o v ne = absurd (ne refl)

    returned_late :
        (p : Point) (object : Option Thread) → Phased p returned object → leb 6 (done p) ≡ true
    returned_late p none h = h
    returned_late p (some o) h = h.0

    -- Where the constructor has returned, the thread only calls its callback, whether the object is there or
    -- not.
    pub run-returned :
        (p : Point) (object : Option Thread)
        → IsThread (world p returned object)
        → p ≢ finished
        → Returns (Advances p returned handled) (run tid (world p returned object))
    unfolding run
    run-returned calls none v ne = (
      world finished returned none,
      rw v.taken_is refl,
      (
        record { phased = refl; this_is = v.this_is; local_is = v.local_is; taken_is = v.taken_is },
        refl,
        refl,
        refl,
      ),
    )
    run-returned calls (some o) v ne = (
      world finished returned (some o),
      rw v.taken_is refl,
      (
        record {
          phased = v.phased;
          this_is = v.this_is;
          local_is = v.local_is;
          taken_is = v.taken_is;
        },
        refl,
        refl,
        refl,
      ),
    )
    run-returned finished object v ne = absurd (ne refl)
    run-returned sets_this object v ne =
        absurd (ground (arith, returned_late sets_this object v.phased))
    run-returned sets_local_name object v ne =
        absurd (ground (arith, returned_late sets_local_name object v.phased))
    run-returned sets_id object v ne =
        absurd (ground (arith, returned_late sets_id object v.phased))
    run-returned sets_system_name object v ne =
        absurd (ground (arith, returned_late sets_system_name object v.phased))
    run-returned takes_cb object v ne =
        absurd (ground (arith, returned_late takes_cb object v.phased))
    run-returned notifies object v ne =
        absurd (ground (arith, returned_late notifies object v.phased))
