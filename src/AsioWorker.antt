-- ===== src/AsioWorker.antt =====
-- gexecutor/asio/gsync_worker_thread_asio.h and gexecutor/asio/gsync_worker_thread_asio.cc: a worker
-- thread with an executor on boost::asio.
use gexecutor.Prelude.{ℕ, Bool, false, Option, none, some, Outcome, done, undefined, ◌>>=◌}
use gexecutor.TaskQ.{GTaskQ}
use gexecutor.AsioExecutor.{AsioExecutor, io, asio_executor}
use gexecutor.AsioExecutor

-- GSyncWorkerThreadAsio. Its io_service is its own, io_.
pub record AsioWorker : Type 0 where
  pub taskq : ℕ
  pub worker_id : ℕ
  pub thread : Bool
  pub async_executor : Option AsioExecutor

unfoldable pub new_asio : (taskq worker_id : ℕ) → AsioWorker
new_asio taskq worker_id = record {
  taskq = taskq;
  worker_id = worker_id;
  thread = false;
  async_executor = none;
}

-- Initialize returns 0 also when no thread was created.
unfoldable pub initialize : (created : Bool) → AsioWorker → AsioWorker
initialize created w = record w { thread = created }

-- SetupEventLoop, which is all that the worker's thread does: nothing runs its io_service. The queue
-- is that of the pool, and `pipe` what pipe2 gives.
unfoldable pub setup_event_loop :
    {P : Type 0} → (pipe : Option P) → AsioWorker → GTaskQ P → Outcome (AsioWorker × GTaskQ P)
setup_event_loop pipe w q =
    AsioExecutor.initialize pipe (asio_executor (io w.worker_id) w.taskq) q
    >>= (λ r. done (record w { async_executor = some r.0 }, r.1))

-- Before the thread has set it up, async_executor_ is NULL.
unfoldable pub shutdown : AsioWorker → Outcome AsioWorker
shutdown w = elim w.async_executor [
  | none ↦ undefined
  | some x ↦ done (record w { async_executor = some (AsioExecutor.shutdown x) })
]

-- The destructor: the executor that it deletes, whose descriptors are closed with it.
unfoldable pub destroy : AsioWorker → Option AsioExecutor
destroy w = w.async_executor
