-- ===== src/SyncExecutor.antt =====
-- gexecutor/gsync_executor.h and gexecutor/gsync_executor.cc: a pool of worker threads that share
-- one queue.
pub mod Workers
use gexecutor.Prelude.{
  ℕ, zero, suc, ◌+◌, Bool, true, false, Option, none, some, List, [], ◌∷◌, ◌++◌, ◌==◌,
  if◌then◌else◌, Outcome, done, undefined, ◌>>=◌,
}
use gexecutor.AsyncExecutor.{ExecutorType, sync, AsyncExecutor, Log, async_executor}
use gexecutor.Worker.{Worker}
use gexecutor.Worker

-- GSyncExecutor. The set of workers is the list of them, in the order of insertion.
pub record SyncExecutor : Type 0 where
  pub gexec_type : ExecutorType
  pub p_taskq : ℕ
  pub num_workers : ℕ
  pub workers : List Worker

abbrev pub default_num_workers : ℕ
default_num_workers = 4

unfoldable pub sync_executor : (taskq num_workers : ℕ) → SyncExecutor
sync_executor taskq num_workers = record {
  gexec_type = sync;
  p_taskq = taskq;
  num_workers = num_workers;
  workers = [];
}

-- The `for` of Initialize, by the rounds left; `start` makes and initializes one worker.
unfoldable pub start_workers : {W : Type 0} → (start : ℕ → W) (rounds thindex : ℕ) → List W → List W
start_workers start zero thindex workers = workers
start_workers start (suc rounds) thindex workers =
    start_workers start rounds (thindex + 1) (workers ++ start thindex ∷ [])

abbrev pub start_worker : (created : ℕ → Bool) (taskq thindex : ℕ) → Worker
start_worker created taskq thindex = Worker.initialize (created thindex) (Worker.new taskq thindex)

-- Initialize, which returns 0; `created` says which threads pthread_create makes.
unfoldable pub initialize : (created : ℕ → Bool) → SyncExecutor → SyncExecutor
unfolding start_workers
initialize created x = record x {
  workers =
      if x.num_workers == 0
      then x.workers
      else start_workers (start_worker created x.p_taskq) x.num_workers 0 x.workers;
}

-- Shutdown. After `workers_.erase(itr)` the iterator is invalid, and the loop increments it.
unfoldable pub shutdown_workers : List Worker → Outcome (List Worker × Log)
shutdown_workers [] = done ([], [])
shutdown_workers (w ∷ ws) = Worker.shutdown w >>= (λ _. undefined)

unfoldable pub shutdown : SyncExecutor → Outcome (SyncExecutor × Log)
unfolding shutdown_workers
shutdown x = shutdown_workers x.workers >>= (λ r. done (record x { workers = r.0 }, r.1))
