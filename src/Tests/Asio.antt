-- ===== src/Tests/Asio.antt =====
-- Executors on boost::asio (gexecutor/asio).
use Prim.Native.String.{String}
use gexecutor.Prelude.{
  ℕ, ◌≡◌, ◌≢◌, refl, true, false, none, some, List, [], ◌∷◌, ◌++◌, pos, get_elem?, lookup, done,
  arith,
}
use gexecutor.TaskQ.{GTaskQ, gtaskq}
use gexecutor.AsioExecutor.{
  AsioExecutor, default_io_service, application, asio_executor, starts, initialize,
}
use gexecutor.AsioExecutor
use gexecutor.AsioExecutor.Descriptors.{init, stop, run, replay, opened, descriptors_lem}
use gexecutor.AsioSyncExecutor.{AsioSyncExecutor, asio_sync_executor, run_threads}
use gexecutor.AsioSyncExecutor
use gexecutor.AsioSyncExecutor.Workers.{run_threads_lem}
use gexecutor.Service.{Service, async_asio, find_executor, shutdown_executor}
use gexecutor.Service.Asio.{create_async_asio, create_sync_asio}
use gexecutor.Service.Asio.Create.{begun, create_sync_asio_lem, create_async_asio-shutdown}
use gexecutor.Service.Asio.Registry
use gexecutor.Service.Asio.Registry.{Names, Represents, run_asio-Represents}
use gexecutor.Tests.Queue.{ready}
use gexecutor.Tests.Registry.{env, empty}

-- Three calls, of which the last would throw.
descriptors_lem_example :
    (x : AsioExecutor) × (q : GTaskQ ℕ) × (run 0
        (init ∷ stop ∷ init ∷ init ∷ [])
        (asio_executor default_io_service 1)
        (ready 0 [])
      ≡ done (x, q))
    × (replay x.calls (opened false) ≡ none)
    × (q.task_queue ≡ [])
descriptors_lem_example =
    descriptors_lem 0 default_io_service 1 (init ∷ stop ∷ init ∷ init ∷ []) (ready 0 [])

abbrev pool : AsioSyncExecutor
pool = AsioSyncExecutor.initialize (λ _. true) (asio_sync_executor 6 2)

-- Two workers; the second thread is the first to run.
run_threads_lem_example :
    (x : AsioSyncExecutor) × (q : GTaskQ ℕ) × (run_threads
        ((1, 0) ∷ (0, 7) ∷ [])
        pool
        (ready 1 (some 4 ∷ []))
      ≡ done (x, q))
    × (q.task_queue ≡ some 4 ∷ [])
    × (q.pipefds ≡ some 7)
unfolding AsioSyncExecutor.initialize asio_sync_executor
run_threads_lem_example =
    run_threads_lem ((1, 0) ∷ (0, 7) ∷ []) pool (ready 1 (some 4 ∷ [])) (omega arith)

-- The application has made queue 0, with one task and one byte.
abbrev queued : GTaskQ ℕ
queued = ready 1 (some 4 ∷ [])

abbrev with_queue : Service ℕ
with_queue = record empty { taskqs = queued ∷ [] }

create_sync_asio_lem_example :
    (x taskq : ℕ) × (s : Service ℕ) × (create_sync_asio env (some 0) "sync" 4 with_queue
      ≡ done (some x, s))
    × (find_executor "sync" s ≡ some x)
    × (get_elem? s.executors x ≡ some (async_asio (begun default_io_service taskq)))
    × ((j : String) → "sync" ≢ j → find_executor j s ≡ find_executor j with_queue)
    × (get_elem? s.taskqs taskq ≡ some (record (gtaskq {P = ℕ} true) { pipefds = some 0 }))
    × (taskq ≡ 1)
create_sync_asio_lem_example = create_sync_asio_lem env "sync" 0 4 with_queue

create_async_asio-shutdown_example :
    (x : ℕ) × (s s' : Service ℕ) × (create_async_asio env
        (some 0)
        "a"
        (some 0)
        (application 3)
        with_queue
      ≡ done (some x, s))
    × (get_elem? s.taskqs 0 ≡ some (record queued { pipefds = some 0 }))
    × (shutdown_executor "a" s ≡ done (pos 0, s'))
    × ((j : String) → find_executor j s' ≡ find_executor j with_queue)
    × (s'.executors ≡ [] ++ async_asio (AsioExecutor.shutdown (begun (application 3) 0)) ∷ [])
unfolding lookup
create_async_asio-shutdown_example =
    create_async_asio-shutdown env "a" 0 0 (application 3) queued with_queue refl refl

abbrev no_names : Names
no_names = record { registered = λ _. none; made = 0; queues = 1 }

no_names-Represents : Represents no_names with_queue
unfolding lookup
no_names-Represents = record {
  entries = λ j. refl;
  count = refl;
  queues = refl;
  kinds = λ j x e. cc;
}

abbrev calls : List (Registry.Call ℕ)
calls =
    Registry.create 0 "a" 0 (application 3)
    ∷ Registry.create_sync true 0 "b" 2
    ∷ Registry.shut "b"
    ∷ Registry.create 0 "c" 1 default_io_service
    ∷ []

run_asio-Represents_example :
    (s : Service ℕ) × (Registry.run env calls with_queue ≡ done s)
    × Represents (Registry.spec_run calls no_names) s
run_asio-Represents_example =
    run_asio-Represents env calls no_names with_queue no_names-Represents
      (omega arith, (tt, ((1, refl), (omega arith, tt))))
