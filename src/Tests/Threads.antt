-- ===== src/Tests/Threads.antt =====
-- Concrete inputs for the threads, locks, schedulers and traces of src/thread.cpp, src/scheduler.cpp and
-- src/util.cpp.
use ye_cc_server.Prelude.{
  Bool, ℕ, suc, ◌+◌, ◌≤◌, ◌≡◌, ◌≢◌, refl, inl, true, false, List, [], ◌∷◌, none, some, ok, Option,
  map, ◌∙◌, fault, ◌>>=◌, Bytes, codes, pos, Returns, arith,
}
use ye_cc_server.Fiber.Start.{fresh}
use ye_cc_server.Thread.{
  Thread, World, sets_this, finished, waiting, returned, joinable, detached, construct, create,
  join, destroy,
}
use ye_cc_server.Thread.Handshake.{Reach, IsThread}
use ye_cc_server.Thread.Progress.{given_name, Runs}
use ye_cc_server.Thread.Runs.{Returned, create-IsThread, constructor-Returns}
use ye_cc_server.Thread.Ends.{join-destroy}
use ye_cc_server.Lock.{
  Mutex, RwMutex, locks, unlocks, scope, scoped_mutex, read_scoped_mutex, write_scoped_mutex,
}
use ye_cc_server.Lock.Balance.{rounds, scope-rounds}
use ye_cc_server.Scheduler
use ye_cc_server.Scheduler.{
  Variables, Source, fiber, func, fiber_at, State, schedule, schedule_batch,
}
use ye_cc_server.Scheduler.Queue.{tasks_of, enqueued, schedule_batch-enqueued}
use ye_cc_server.Scheduler.Made.{IsMade, newcomer, construct-IsMade}
use ye_cc_server.Log.Level.{fatal}
use ye_cc_server.Log.Macro.{Site, level_macro, fmt_macro}
use ye_cc_server.Log.Macro.Written.{made_at, fmt_macro-Writes}
use ye_cc_server.Log.Logger.Output.{to_console}
use ye_cc_server.Log.Logger.Receivers.{Writes, receivers}
use ye_cc_server.Tests.Loggers.{two, two-IsValid, child, top, clock}
use ye_cc_server.Util.{Tracer, back_trace_to_string}
use ye_cc_server.Util.Traces.{IsTracer, Traced, back_trace_to_string-Traced}
use ye_cc_server.Config.Convert.RoundTrip.{length-map}

create-IsThread_example :
    Returns
      (λ w.
        (t : World)
        → Reach (pos 7) w t
        → IsThread (given_name (codes "io")) (pos 7) 40 t
          × (t.point ≢ finished → Runs (given_name (codes "io")) (pos 7) 40 t))
      (create 0 40 (construct (codes "io")))
create-IsThread_example = create-IsThread (codes "io") (pos 7) 40

constructor-Returns_example :
    Returns
      (λ w.
        (t : World)
        → Reach (pos 7) w t
        → t.phase ≡ waiting
        → (u : World) × Reach (pos 7) t u × Returned (given_name []) (pos 7) 40 u)
      (create 0 40 (construct []))
constructor-Returns_example = constructor-Returns [] (pos 7) 40

-- A thread that has ended.
abbrev object : Thread
object = record { id = pos 7; thread = 40; has_cb = false; name = codes "io"; semaphore = 0 }

abbrev ended : World
ended = record {
  object = some object;
  local = record { this = true; name = codes "io" };
  taken = true;
  point = finished;
  phase = returned;
  handle = joinable;
}

join-destroy_example :
    (destroy ended ≡ ok (record ended { object = none; handle = detached }))
    × (ended.point ≡ finished
        → (t : World) × (join ended ≡ ok (some t)) × (destroy t ≡ fault) × (join t ≡ fault))
join-destroy_example =
    join-destroy (codes "io") (pos 7) 40 (λ e. absurd (omega (arith, e))) ended object
      (record {
        phased = (refl, (refl, refl, refl, refl));
        this_is = refl;
        local_is = refl;
        taken_is = refl;
      })
      refl refl refl

-- A lock that counts the calls.
abbrev counted : Mutex ℕ
counted = record { lock = λ n. n + 1; unlock = λ n. n + 10 }

abbrev rw_counted : RwMutex ℕ
rw_counted = record { rdlock = λ n. n + 1; wrlock = λ n. n + 2; unlock = λ n. n + 10 }

scope-rounds_example :
    ((n : ℕ) × (scope (scoped_mutex counted) (unlocks ∷ locks ∷ []) 0
        ≡ rounds counted.lock counted.unlock (suc n) 0))
    × ((n : ℕ) × (scope (read_scoped_mutex rw_counted) (unlocks ∷ locks ∷ []) 0
          ≡ rounds rw_counted.rdlock rw_counted.unlock (suc n) 0))
    × ((n : ℕ) × (scope (write_scoped_mutex rw_counted) (unlocks ∷ locks ∷ []) 0
          ≡ rounds rw_counted.wrlock rw_counted.unlock (suc n) 0))
scope-rounds_example = scope-rounds (unlocks ∷ locks ∷ []) counted rw_counted 0

abbrev idle : State ℕ
idle = record { m_fibers = []; vars = record { fibers = some 3 ∷ []; funcs = [] }; world = 0 }

abbrev batch : List Source
batch = func none ∷ fiber_at 0 ∷ fiber_at 0 ∷ fiber (some 5) ∷ []

schedule_batch-enqueued_example :
    (schedule_batch (λ n. n + 1) idle batch 2
      ≡ (tasks_of idle.vars batch 2 >>= λ r. ok (enqueued (λ n. n + 1) idle batch r)))
    × ((fc : Source)
        → schedule (λ n. n + 1) idle fc 2 ≡ schedule_batch (λ n. n + 1) idle (fc ∷ []) 2)
schedule_batch-enqueued_example = schedule_batch-enqueued (λ n. n + 1) idle batch 2

abbrev main_thread : World
main_thread = record {
  object = none;
  local = record { this = false; name = codes "UNKNOWN" };
  taken = false;
  point = sets_this;
  phase = waiting;
  handle = joinable;
}

construct-IsMade_example :
    (1 ≤ 4
      → Returns
          (λ r. IsMade 7 4 (codes "work") r.0 r.1)
          (Scheduler.construct 4096 7 true 4 true (codes "work") (newcomer 0 0 main_thread)))
    × ((no_current : Bool)
        → Scheduler.construct 4096 7 no_current 0 true (codes "work") (newcomer 0 0 main_thread)
          ≡ fault)
    × ((n : ℕ)
        → Scheduler.construct 4096 7 false n true (codes "work") (newcomer 0 0 main_thread) ≡ fault)
construct-IsMade_example = construct-IsMade 4096 7 4 0 0 (codes "work") main_thread (inl refl)

-- Three frames, and a string for every entry that is asked for.
abbrev named_frame : Option ℕ → Bytes
named_frame frame = codes "f"

abbrev tracer : Tracer
tracer = record {
  backtrace = λ size. 11 ∷ 12 ∷ 13 ∷ [];
  symbols = λ entries. some (map named_frame entries);
}

tracer-IsTracer : IsTracer tracer
tracer-IsTracer = record {
  strings = λ frames strs e.
      let same : map named_frame (map some frames) ≡ strs = ground (arith, e) in
      rw (← same) (length-map named_frame (map some frames) ∙ length-map some frames);
}

back_trace_to_string-Traced_example :
    Returns (Traced tracer 3 1 (codes "  ") 5) (back_trace_to_string tracer 3 1 (codes "  ") 5)
back_trace_to_string-Traced_example =
    back_trace_to_string-Traced tracer 3 1 (codes "  ") 5 tracer-IsTracer refl

abbrev site : Site
site = record {
  file = codes "main.cpp";
  line = pos 7;
  thread_id = 1;
  runtime = fresh 0 0;
  thread = main_thread;
  now = 9;
}

fmt_macro-Writes_example :
    Writes clock 9 fatal
      (made_at site 1 fatal (codes "x=3"))
      to_console
      two
      (receivers fatal child top)
      (fmt_macro 2 clock site 1 two fatal (some (codes "x=3")))
    × Writes clock 9 fatal
        (made_at site 1 fatal (codes "x=3"))
        to_console
        two
        (receivers fatal child top)
        (level_macro 2 clock site 1 two fatal (codes "x=3"))
fmt_macro-Writes_example =
    fmt_macro-Writes 0 clock site fatal to_console 0 1 two child top (some (codes "x=3"))
      two-IsValid refl refl
