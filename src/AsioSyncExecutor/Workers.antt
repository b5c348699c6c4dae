-- ===== src/AsioSyncExecutor/Workers.antt =====
-- The workers of GSyncExecutorAsio, and what their threads do to the queue of the pool
-- (gexecutor/asio/gsync_executor_asio.cc and gexecutor/asio/gsync_worker_thread_asio.cc).
use gexecutor.Prelude.{
  ℕ, ◌<◌, ◌≡◌, refl, Bool, Option, some, List, [], ◌∷◌, ◌++◌, length, set, length-set, get_elem?,
  get_elem?-below, done, undefined, >>=-eq-done, arith,
}
use gexecutor.TaskQ.{GTaskQ}
use gexecutor.TaskQ
use gexecutor.SyncExecutor.Workers.{started_workers}
use gexecutor.AsioExecutor.{starts, io, asio_executor}
use gexecutor.AsioExecutor
use gexecutor.AsioWorker.{AsioWorker, setup_event_loop}
use gexecutor.AsioWorker
use gexecutor.AsioSyncExecutor.{
  AsioSyncExecutor, start_asio_worker, initialize, shutdown, shutdown_asio_workers, run_threads,
}

-- Initialize keeps the workers that are there and adds num_workers_ new ones: the i-th of them has
-- the number i and the pool's queue, and a thread where pthread_create made one.
initialize_asio_workers :
    (created : ℕ → Bool) (x : AsioSyncExecutor)
    → (new : List AsioWorker) × ((initialize created x).workers ≡ x.workers ++ new)
      × (length new ≡ x.num_workers)
      × ((i : ℕ)
          → i < x.num_workers
          → get_elem? new i ≡ some (start_asio_worker created x.p_taskq i))
unfolding initialize
initialize_asio_workers created x =
    started_workers (start_asio_worker created x.p_taskq) x.num_workers x.workers

abbrev pub last_pipe : {P : Type 0} → List (ℕ × P) → Option P → Option P
last_pipe [] p = p
last_pipe ((_, pipe) ∷ ts) p = last_pipe ts (some pipe)

abbrev pub AllBelow : {P : Type 0} → List (ℕ × P) → ℕ → Type 0
AllBelow [] n = Unit {0}
AllBelow ((i, _) ∷ ts) n = (i < n) × AllBelow ts n

-- Threads of a pool, in any order, each of which gets a pipe: all of them return, and the queue keeps
-- its tasks, but its pipe is the one that the last of them has made.
pub run_threads_lem :
    {P : Type 0} (ts : List (ℕ × P)) (x : AsioSyncExecutor) (q : GTaskQ P)
    → AllBelow ts (length x.workers)
    → (x' : AsioSyncExecutor) × (q' : GTaskQ P) × (run_threads ts x q ≡ done (x', q'))
      × (q'.task_queue ≡ q.task_queue)
      × (q'.pipefds ≡ last_pipe ts q.pipefds)
unfolding run_threads TaskQ.initialize AsioExecutor.initialize asio_executor
run_threads_lem [] x q h = (x, q, refl, refl, refl)
run_threads_lem ((i, pipe) ∷ ts) x q h =
    let (w, e) = get_elem?-below x.workers i h.0 in
    let executor = record (asio_executor (io w.worker_id) w.taskq) { calls = starts } in
    let ready : AsioWorker = record w { async_executor = some executor } in
    let x1 : AsioSyncExecutor = record x { workers = set x.workers i ready } in
    let below : AllBelow ts (length x1.workers) = rw (length-set x.workers i ready) h.1 in
    let (x', q', ran, tasks, last) =
      run_threads_lem ts x1 (record q { pipefds = some pipe }) below in
    (x', q', rw (e, run_threads) ran, tasks, last)

shutdown_asio_workers-returns :
    (ws : List AsioWorker) {r : List AsioWorker}
    → shutdown_asio_workers ws ≡ done r
    → (ws ≡ []) × (r ≡ [])
unfolding shutdown_asio_workers
shutdown_asio_workers-returns [] e = (refl, ground arith)
shutdown_asio_workers-returns (w ∷ ws) e =
    let (_, _, bad) = >>=-eq-done (AsioWorker.shutdown w) (λ _. undefined) e in cc bad

-- Shutdown returns for a pool without workers, and with one or more it never returns normally.
asio_shutdown_returns : (x r : AsioSyncExecutor) → shutdown x ≡ done r → (x.workers ≡ []) × (r ≡ x)
unfolding shutdown
asio_shutdown_returns x r e =
    let (ws, f, g) = >>=-eq-done (shutdown_asio_workers x.workers) _ e in
    let (none_there, none_left) = shutdown_asio_workers-returns x.workers f in
    (none_there, ground arith)
