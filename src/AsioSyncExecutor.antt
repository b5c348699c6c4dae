-- ===== src/AsioSyncExecutor.antt =====
-- gexecutor/asio/gsync_executor_asio.h and gexecutor/asio/gsync_executor_asio.cc: a pool of worker
-- threads with executors on boost::asio, on one queue.
pub mod Workers
use gexecutor.Prelude.{
  ℕ, Bool, none, some, List, [], ◌∷◌, get_elem?, set, ◌==◌, if◌then◌else◌, Outcome, done, undefined,
  ◌>>=◌,
}
use gexecutor.TaskQ.{GTaskQ}
use gexecutor.AsyncExecutor.{ExecutorType, sync}
use gexecutor.SyncExecutor.{start_workers}
use gexecutor.AsioWorker.{AsioWorker, new_asio, setup_event_loop}
use gexecutor.AsioWorker

-- GSyncExecutorAsio. The set of workers is the list of them, in the order of insertion.
pub record AsioSyncExecutor : Type 0 where
  pub gexec_type : ExecutorType
  pub p_taskq : ℕ
  pub num_workers : ℕ
  pub workers : List AsioWorker

unfoldable pub asio_sync_executor : (taskq num_workers : ℕ) → AsioSyncExecutor
asio_sync_executor taskq num_workers = record {
  gexec_type = sync;
  p_taskq = taskq;
  num_workers = num_workers;
  workers = [];
}

abbrev pub start_asio_worker : (created : ℕ → Bool) (taskq thindex : ℕ) → AsioWorker
start_asio_worker created taskq thindex =
    AsioWorker.initialize (created thindex) (new_asio taskq thindex)

-- Initialize, which returns 0; `created` says which threads pthread_create makes.
unfoldable pub initialize : (created : ℕ → Bool) → AsioSyncExecutor → AsioSyncExecutor
unfolding start_workers
initialize created x = record x {
  workers =
      if x.num_workers == 0
      then x.workers
      else start_workers (start_asio_worker created x.p_taskq) x.num_workers 0 x.workers;
}

-- Shutdown. After `workers_.erase(itr)` the iterator is invalid, and the loop increments it.
unfoldable pub shutdown_asio_workers : List AsioWorker → Outcome (List AsioWorker)
shutdown_asio_workers [] = done []
shutdown_asio_workers (w ∷ ws) = AsioWorker.shutdown w >>= (λ _. undefined)

unfoldable pub shutdown : AsioSyncExecutor → Outcome AsioSyncExecutor
unfolding shutdown_asio_workers
shutdown x = shutdown_asio_workers x.workers >>= (λ ws. done (record x { workers = ws }))

-- The threads of the workers with these numbers, each with the pipe that pipe2 gives it. The
-- threads run at the same time; here each call of SetupEventLoop is one step, in the order of the list.
pub run_threads :
    {P : Type 0}
    → List (ℕ × P)
    → AsioSyncExecutor
    → GTaskQ P
    → Outcome (AsioSyncExecutor × GTaskQ P)
unfolding setup_event_loop
run_threads [] x q = done (x, q)
run_threads ((i, pipe) ∷ ts) x q = elim (get_elem? x.workers i) [
  | none ↦ undefined
  | some w ↦
      setup_event_loop (some pipe) w q
      >>= (λ r. run_threads ts (record x { workers = set x.workers i r.0 }) r.1)
]
