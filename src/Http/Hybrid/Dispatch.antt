-- ===== src/Http/Hybrid/Dispatch.antt =====
-- What event_base_dispatch, and the threads of the workers, make of the hybrid server as Initialize
-- leaves it (samples/http_sync_async_server/http_hybrid_server.cc): the events that its callback, its
-- socket, its executors and its workers let come about.
use Prim.Native.String.{String}
use gexecutor.Prelude.{
  ℕ, ◌<◌, ◌≡◌, refl, ◌∙◌, ◌==◌, if◌then◌else◌, Bool, true, false, ◌&&◌, Option, none, some, ap,
  undefined, get_elem?, List, [], ◌∷◌, ◌++◌, Outcome, arith,
}
use gexecutor.Pipe.{Pipe}
use gexecutor.TaskQ.{max_notifn}
use gexecutor.TaskQ.Enqueue.{IsReady}
use gexecutor.Task.{GTask}
use gexecutor.Store.{Store}
use gexecutor.Http.Text.{Bytes}
use gexecutor.Http.{Web, Files, Log}
use gexecutor.Http.Hybrid.{HttpHybridServer, HttpTask}
use gexecutor.Http.Hybrid.Startup.{HybridState, Given}
use gexecutor.Http.Serving.{Event, Serving}
use gexecutor.Http.Serving.Live.{
  Loops, works, watches, watches-true, live, live-append, AllWork, live-rounds,
}
use gexecutor.AsyncExecutor
use gexecutor.AsyncExecutor.{async_executor}
use gexecutor.Worker
use gexecutor.Worker.{setup_event_loop}
use gexecutor.SyncExecutor
use gexecutor.SyncExecutor.{SyncExecutor, sync_executor, start_worker}
use gexecutor.SyncExecutor.Workers.{initialize_workers}
use gexecutor.Http.Serving.Answered.{rounds}
use gexecutor.Http.Hybrid.Serving.{hybrid}
use gexecutor.Http.Hybrid.Serving.Answered.{plays}

-- What the handlers read of the server: the queues of its two executors.
abbrev pub serving_from : {P : Type 0} → (docroot : Bytes) → HybridState P → HttpHybridServer
serving_from docroot s = record {
  docroot = docroot;
  async_taskq = s.async_executor.p_taskq;
  sync_taskq = s.sync_executor.p_taskq;
}

-- The handlers where the queues are 0 and 1.
abbrev pub two_queues : (docroot : Bytes) → HttpHybridServer
two_queues docroot = record { docroot = docroot; async_taskq = 0; sync_taskq = 1 }

-- What the tasks share: the queues 0 and 1 of the server, some tasks, and nothing sent yet.
abbrev pub shared : {P : Type 0} → (ℕ → GTask HttpTask) → HybridState P → Store HttpTask P Log
shared heap s = record {
  tasks = heap;
  next_task = 0;
  queues = λ q. if q == 0 then s.async_taskq else s.sync_taskq;
  world = [];
}

-- Requests reach http_default_cb where it is set and the socket is bound.
abbrev pub is_handled : {P : Type 0} → HybridState P → Bool
is_handled s = s.gencb && elim s.socket_handle [ none ↦ false | some _ ↦ true ]

-- Which workers, by their numbers, take tasks from the queue of the synchronous executor.
abbrev pub works_of : {P : Type 0} → Loops → HybridState P → (self : ℕ) → Bool
works_of loops s self =
    works loops s.sync_executor.p_taskq self (get_elem? s.sync_executor.workers self)

-- pthread_create makes a thread for each of these workers, which has the number below n, and the
-- thread gets an event base and an event.
abbrev pub Started : {P : Type 0} → Given P → Loops → (n : ℕ) → List (ℕ × ℕ) → Type 0
Started g loops n [] = Unit {0}
Started g loops n ((self, other) ∷ rs) =
    (other < n)
    × (g.created other ≡ true)
    × ((base ev : ℕ) × (loops other ≡ (some base, some ev)))
    × Started g loops n rs

module _ {P U : Type 0} (io : Pipe P) (web : Web U) (files : Files) (docroot : Bytes)
    (address : String) (heap : ℕ → GTask HttpTask) (loops : Loops) where
  -- The event loops run until these events are over, of which those come about that the server, as
  -- it is then, lets come about.
  abbrev pub dispatching : List Event → Option ℕ → HybridState P → Outcome (Store HttpTask P Log)
  dispatching evs none s = undefined
  dispatching evs (some base) s =
      plays io web files (serving_from docroot s) address
        (live (is_handled s) (watches (some base) s.async_executor) (works_of loops s) evs)
        (shared heap s)

module _ (loops : Loops) where
  works-start_worker :
      (created : ℕ → Bool) (q i base ev : ℕ)
      → created i ≡ true
      → loops i ≡ (some base, some ev)
      → works loops q i (some (start_worker created q i)) ≡ true
  unfolding setup_event_loop AsyncExecutor.initialize async_executor Worker.initialize Worker.new
  works-start_worker created q i base ev made h = rw (made, h) (ground arith)

module _ {P : Type 0} (loops : Loops) where
  works_of-AllWork :
      (s : HybridState P) (g : Given P) (n : ℕ) (rs : List (ℕ × ℕ))
      → s.sync_executor ≡ SyncExecutor.initialize g.created (sync_executor 1 n)
      → Started g loops n rs
      → AllWork (works_of loops s) rs
  unfolding sync_executor SyncExecutor.initialize
  works_of-AllWork s g n [] e all = tt
  works_of-AllWork s g n ((self, other) ∷ rs) e (small, made, (base, ev, h), all) =
      (working s.sync_executor e, works_of-AllWork s g n rs e all)
    where
      working :
          (x : SyncExecutor)
          → x ≡ SyncExecutor.initialize g.created (sync_executor 1 n)
          → works loops x.p_taskq other (get_elem? x.workers other) ≡ true
      working x e =
          let (new, added, _, each) = initialize_workers g.created (sync_executor 1 n) in
          rw e (
            rw (added, each other small)
              (works-start_worker loops g.created 1 other base ev made h))

  -- Of a server that is set up all requests come about, and the turns of a worker that works.
  pub live-all :
      (s : HybridState P) (g : Given P) (evs : List Event) (rs : List (ℕ × ℕ))
      (base handle ev n : ℕ)
      → s.gencb ≡ true
      → s.socket_handle ≡ some handle
      → s.async_executor.event_base ≡ some base
      → s.async_executor.p_taskq_ev ≡ some ev
      → s.sync_executor ≡ SyncExecutor.initialize g.created (sync_executor 1 n)
      → Started g loops n rs
      → live
          (is_handled s)
          (watches (some base) s.async_executor)
          (works_of loops s)
          (evs ++ rounds rs)
        ≡ live true true (works_of loops s) evs ++ rounds rs
  live-all s g evs rs base handle ev n handles bound its_base its_ev pool started =
      let handled : is_handled s ≡ true = rw (handles, bound) refl in
      let watching : watches (some base) s.async_executor ≡ true =
        watches-true base ev s.async_executor its_base its_ev in
      ap
        (λ (h : Bool).
          live h (watches (some base) s.async_executor) (works_of loops s) (evs ++ rounds rs))
        handled
      ∙ ap (λ (w : Bool). live true w (works_of loops s) (evs ++ rounds rs)) watching
      ∙ live-append true true (works_of loops s) evs (rounds rs)
      ∙ ap (λ l. live true true (works_of loops s) evs ++ l)
          (live-rounds true (works_of loops s) rs (works_of-AllWork s g n rs pool started))

module _ {P U : Type 0} (web : Web U) (files : Files) (docroot : Bytes)
    (heap : ℕ → GTask HttpTask) where
  pub shared-Serving :
      (s : HybridState P) (p p' : P)
      → IsReady s.async_taskq p × (s.async_taskq.task_queue ≡ [])
      → IsReady s.sync_taskq p' × (s.sync_taskq.task_queue ≡ [])
      → s.async_taskq.max_outstanding_notifn ≡ max_notifn
      → s.sync_taskq.max_outstanding_notifn ≡ max_notifn
      → Serving (hybrid web files (two_queues docroot)) max_notifn [] [] (shared heap s)
  shared-Serving s p p' (ready, empty) (ready', empty') limit limit' = record {
    async_holds = record {
      pipe = p;
      ready = ready;
      queued = empty;
      bounded = omega (arith, limit);
      tasks = tt;
    };
    sync_holds = record {
      pipe = p';
      ready = ready';
      queued = empty';
      bounded = omega (arith, limit');
      tasks = tt;
    };
  }
