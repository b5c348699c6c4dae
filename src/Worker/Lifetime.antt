-- ===== src/Worker/Lifetime.antt =====
-- A worker from its thread to its destructor (gexecutor/gsync_worker_thread.cc).
use gexecutor.Prelude.{
  ℕ, ◌≡◌, refl, Bool, true, false, Option, some, [], ◌∷◌, ◌++◌, if◌then◌else◌, Outcome, done,
}
use gexecutor.AsyncExecutor.{AsyncExecutor, Log}
use gexecutor.AsyncExecutor
use gexecutor.AsyncExecutor.Events.{replay, timer_of}
use gexecutor.Worker.{Worker, new, setup_event_loop, gsync_executor_worker, shutdown, destroy}

-- A worker whose thread has set up its event loop, that is shut down and destroyed: no call of
-- libevent names an event that does not exist, the event base is freed after the event of the queue,
-- and the event of the timer, where there is one, is left.
worker_lifetime :
    (base : Option ℕ) (taskq worker_id : ℕ) (has_timer : Bool)
    → (w w' : Worker) × (log log' : Log) × (setup_event_loop base
          (some 0)
          (timer_of has_timer 1)
          (new taskq worker_id)
        ≡ done (w, log))
      × (shutdown w ≡ done (w', log'))
      × (replay (log ++ log' ++ (destroy w').0) [] ≡ some (if has_timer then 1 ∷ [] else []))
      × ((destroy w').1 ≡ base)
unfolding setup_event_loop shutdown destroy new replay AsyncExecutor.initialize
    AsyncExecutor.shutdown AsyncExecutor.destroy AsyncExecutor.async_executor
worker_lifetime base taskq worker_id true = (_, _, _, _, refl, refl, refl, refl)
worker_lifetime base taskq worker_id false = (_, _, _, _, refl, refl, refl, refl)

-- The thread of a new worker, where the event of its queue can be made: it runs its own event base,
-- with an executor on the queue of its pool.
gsync_executor_worker_lem :
    {S : Type 0} (dispatch : Option ℕ → Worker → Outcome S) (base timer_ev : Option ℕ)
    (ev taskq worker_id : ℕ)
    → (w : Worker) × (x : AsyncExecutor) × (gsync_executor_worker dispatch base
          (some ev)
          timer_ev
          (new taskq worker_id)
        ≡ dispatch base w)
      × (w.async_executor ≡ some x)
      × (x.event_base ≡ base)
      × (x.p_taskq ≡ taskq)
      × (x.p_taskq_ev ≡ some ev)
unfolding gsync_executor_worker setup_event_loop new AsyncExecutor.initialize
    AsyncExecutor.async_executor
gsync_executor_worker_lem dispatch base timer_ev ev taskq worker_id =
    (_, _, refl, refl, refl, refl, refl)
