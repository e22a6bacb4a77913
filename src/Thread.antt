-- ===== src/Thread.antt =====
-- Thread of include/thread.hpp and src/thread.cpp: one object, the thread that its constructor makes, and the
-- thread that runs the constructor. A statement of Thread::run and a call of the other thread are steps that
-- may come in any order. A destroyed object is `none`, and an access to it is a fault; so is what pthread
-- leaves undefined, to join or detach a thread that was joined or detached.
pub mod Handshake
pub mod Progress
pub mod Ends
pub mod Runs
use ye_cc_server.Prelude.{
  ℕ, zero, suc, ◌+◌, ◌-◌, Bool, true, false, not, [], ◌==◌, if◌then◌else◌, Option, none, some,
  Outcome, ok, throws, fault, ◌>>=◌, Bytes, codes, bytes_eq, ℤ, negsuc, ltb,
}

-- The members of Thread. Of the callback only whether there is one is kept.
pub record Thread : Type 0 where
  pub id : ℤ
  pub thread : ℕ
  pub has_cb : Bool
  pub name : Bytes
  pub semaphore : ℕ

-- t_thread, which is null or leads to the object, and t_thread_name.
pub record Local : Type 0 where
  pub this : Bool
  pub name : Bytes

-- The statements of Thread::run, by what comes next.
pub data Point : Type 0 where
  sets_this sets_local_name sets_id sets_system_name takes_cb notifies calls finished : Point

-- Where Thread::Thread is.
pub data Phase : Type 0 where
  creating waiting returned failed : Phase

-- What pthread knows of the thread.
pub data Handle : Type 0 where
  absent joinable joined detached : Handle

-- `taken` is whether the variable cb of Thread::run holds the callback.
pub record World : Type 0 where
  pub object : Option Thread
  pub local : Local
  pub taken : Bool
  pub point : Point
  pub phase : Phase
  pub handle : Handle

abbrev pub deref : World → Outcome Thread
deref w = elim w.object [ none ↦ fault | some o ↦ ok o ]

abbrev pub put : World → Thread → World
put w o = record w { object = some o }

-- Thread::Thread up to pthread_create.
unfoldable pub construct : Bytes → World
construct name = record {
  object = some (record {
    id = negsuc 0;
    thread = 0;
    has_cb = true;
    name = if bytes_eq name [] then codes "UNKNOWN" else name;
    semaphore = 0;
  });
  local = record { this = false; name = codes "UNKNOWN" };
  taken = false;
  point = sets_this;
  phase = creating;
  handle = absent;
}

-- pthread_create, which answers `rt`, and the branch on it. An exception leaves the constructor: there is no
-- object then.
unfoldable pub create : ℕ → ℕ → World → Outcome World
create rt handle w = deref w >>= λ o.
    if rt == 0
    then ok (record (put w (record o { thread = handle })) { phase = waiting; handle = joinable })
    else ok (record w { object = none; phase = failed })

-- Semaphore::notify and Semaphore::wait, where the calls of the system succeed; to wait is to be blocked
-- where the count is 0.
unfoldable pub notify : ℕ → ℕ
notify count = count + 1

unfoldable pub wait : ℕ → Option ℕ
wait zero = none
wait (suc count) = some count

-- The next statement of Thread::run, in the thread that the system calls `tid`.
unfoldable pub run : ℤ → World → Outcome World
unfolding notify
run tid w = elim w.point [
  | sets_this ↦ ok (record w { local = record w.local { this = true }; point = sets_local_name })
  | sets_local_name ↦
      deref w >>= λ o. ok (record w { local = record w.local { name = o.name }; point = sets_id })
  | sets_id ↦
      deref w >>= λ o. ok (record (put w (record o { id = tid })) { point = sets_system_name })
  | sets_system_name ↦ deref w >>= λ o. ok (record w { point = takes_cb })
  | takes_cb ↦ deref w >>= λ o.
      ok (record (put w (record o { has_cb = w.taken })) { taken = o.has_cb; point = notifies })
  | notifies ↦ deref w >>= λ o.
      ok (record (put w (record o { semaphore = notify o.semaphore })) { point = calls })
  | calls ↦ if w.taken then ok (record w { point = finished }) else fault
  | finished ↦ fault
]

-- m_semaphore.wait() in Thread::Thread: none where it is blocked.
unfoldable pub wait_for : World → Outcome (Option World)
unfolding wait
wait_for w = deref w >>= λ o. ok (elim (wait o.semaphore) [
  | none ↦ none
  | some count ↦ some (record (put w (record o { semaphore = count })) { phase = returned })
])

-- pthread_detach and pthread_join. A join waits for the thread's end: none where it is blocked.
unfoldable pub detach : Handle → Outcome Handle
detach joinable = ok detached
detach _ = fault

unfoldable pub pthread_join : Point → Handle → Outcome (Option Handle)
pthread_join finished joinable = ok (some joined)
pthread_join _ joinable = ok none
pthread_join _ _ = fault

-- Thread::~Thread.
unfoldable pub destroy : World → Outcome World
unfolding detach
destroy w = deref w >>= λ o.
    if o.thread == 0
    then ok (record w { object = none })
    else (detach w.handle >>= λ h. ok (record w { object = none; handle = h }))

abbrev pub with_handle : World → Option Handle → Option World
with_handle w none = none
with_handle w (some h) = some (record w { handle = h })

-- Thread::join, where pthread_join reports no error.
abbrev pub join_object : World → Thread → Outcome (Option World)
join_object w o =
    if o.thread == 0
    then ok (some w)
    else (pthread_join w.point w.handle >>= λ r. ok (with_handle w r))

unfoldable pub join : World → Outcome (Option World)
unfolding pthread_join
join w = deref w >>= join_object w

-- Thread::SetName in the new thread.
unfoldable pub set_name : World → Bytes → Outcome World
set_name w name =
    let here = record w { local = record w.local { name = name } } in
    if w.local.this then (deref w >>= λ o. ok (put here (record o { name = name }))) else ok here

-- Thread::GetName in the new thread.
abbrev pub get_name : World → Bytes
get_name w = w.local.name
