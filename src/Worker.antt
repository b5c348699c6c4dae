-- ===== src/Worker.antt =====
-- gexecutor/gsync_worker_thread.h and gexecutor/gsync_worker_thread.cc: a worker thread, which runs
-- an asynchronous executor of its own on the queue of its pool.
pub mod Lifetime
use gexecutor.Prelude.{ℕ, Bool, false, Option, none, some, [], Outcome, done, undefined, ◌>>=◌}
use gexecutor.AsyncExecutor.{AsyncExecutor, Log}
use gexecutor.AsyncExecutor

-- GSyncWorkerThread. `thread` says whether pthread_create made a thread; `worker_id` is the number
-- that std::to_string prints.
pub record Worker : Type 0 where
  pub taskq : ℕ
  pub worker_id : ℕ
  pub thread : Bool
  pub event_base : Option ℕ
  pub async_executor : Option AsyncExecutor

unfoldable pub new : (taskq worker_id : ℕ) → Worker
new taskq worker_id = record {
  taskq = taskq;
  worker_id = worker_id;
  thread = false;
  event_base = none;
  async_executor = none;
}

-- Initialize returns 0 also when no thread was created.
unfoldable pub initialize : (created : Bool) → Worker → Worker
initialize created w = record w { thread = created }

-- SetupEventLoop, in the worker's thread.
unfoldable pub setup_event_loop :
    (base taskq_ev timer_ev : Option ℕ) → Worker → Outcome (Worker × Log)
setup_event_loop base taskq_ev timer_ev w =
    AsyncExecutor.initialize taskq_ev timer_ev (AsyncExecutor.async_executor base w.taskq)
    >>= (λ r. done (record w { event_base = base; async_executor = some r.0 }, r.1))

-- gsync_executor_worker, which the thread runs. event_base_dispatch, which libevent implements, is a
-- parameter: what it makes of an event base, with the worker as it is then. Nobody reads what the
-- thread returns.
unfoldable pub gsync_executor_worker :
    {S : Type 0}
    → (dispatch : Option ℕ → Worker → Outcome S) (base taskq_ev timer_ev : Option ℕ) → Worker
    → Outcome S
gsync_executor_worker dispatch base taskq_ev timer_ev w =
    setup_event_loop base taskq_ev timer_ev w >>= (λ r. dispatch r.0.event_base r.0)

-- Before the thread has set it up, async_executor_ is NULL.
unfoldable pub shutdown : Worker → Outcome (Worker × Log)
shutdown w = elim w.async_executor [
  | none ↦ undefined
  | some x ↦ done (
    record w { async_executor = some (AsyncExecutor.shutdown x).0 },
    (AsyncExecutor.shutdown x).1,
  )
]

-- The destructor: its calls for events, and the event base that it frees.
unfoldable pub destroy : Worker → Log × Option ℕ
destroy w = (elim w.async_executor [ none ↦ [] | some x ↦ AsyncExecutor.destroy x ], w.event_base)
