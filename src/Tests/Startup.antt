-- ===== src/Tests/Startup.antt =====
-- The startup of the HTTP samples (samples/http_sync_async_server and samples/simple_http_server).
use gexecutor.Prelude.{
  ℕ, Option, Outcome, ◌≡◌, refl, true, some, [], pos, length, get_elem?, done, ◌>>=◌,
}
use gexecutor.Http.Hybrid.Startup.{HybridState, Given, hybrid_server, hybrid_starts}
use gexecutor.Http.Hybrid.Startup as HybridStartup
use gexecutor.Http.Simple.Startup.{SimpleState, simple_server, served, simple_starts}
use gexecutor.Http.Simple.Startup as SimpleStartup
use gexecutor.AsyncExecutor
use gexecutor.SyncExecutor.{SyncExecutor, sync_executor, initialize}
use gexecutor.Service.{sync}
use gexecutor.TaskQ.Enqueue.{IsReady}

abbrev given : Given ℕ
given = record {
  socket = some 9;
  errno = 0;
  async_pipe = some 0;
  sync_pipe = some 0;
  taskq_ev = some 50;
  timer_ev = some 51;
  created = λ _. true;
}

hybrid_starts_example :
    (s : HybridState ℕ) × (log : AsyncExecutor.Log) × (HybridStartup.initialize given
        (hybrid_server true (some 1) (some 3) 2)
      ≡ done (pos 0, s, log))
    × (IsReady s.async_taskq 0 × (s.async_taskq.task_queue ≡ []))
    × (IsReady s.sync_taskq 0 × (s.sync_taskq.task_queue ≡ []))
    × (◌≡◌ {A = ℕ} s.async_taskq.max_outstanding_notifn 4096)
    × (◌≡◌ {A = ℕ} s.sync_taskq.max_outstanding_notifn 4096)
    × (s.async_executor.p_taskq_ev ≡ some 50)
    × (length s.sync_executor.workers ≡ 2)
    × (s.gencb ≡ true)
    × (s.event_base ≡ some 1)
    × (s.socket_handle ≡ some 9)
    × (s.async_executor.event_base ≡ some 1)
    × (s.async_executor.p_taskq ≡ 0)
    × (s.sync_executor ≡ initialize given.created (sync_executor 1 2))
hybrid_starts_example = hybrid_starts 1 3 9 50 2 0 0 given refl refl refl refl

-- An event loop that ends at once.
abbrev record_state : Option ℕ → SimpleState ℕ → Outcome (Option ℕ × SimpleState ℕ)
record_state base s = done (base, s)

simple_starts_example :
    let env = served {P = ℕ} true 0 50 (some 51) (λ _. true) in
    (s s' : SimpleState ℕ) × (x : SyncExecutor) × (simple_server env (some 1) (some 3) 2 ≡ done s)
    × (s.async_executor ≡ s.executors.default_async_executor)
    × (s.async_taskq ≡ some 0)
    × (length s.executors.taskqs ≡ 3)
    × (s.sync_taskq ≡ some 2)
    × (SimpleStartup.initialize (some 9) 0 env (some 0) s ≡ done (pos 0, s'))
    × (get_elem? s'.executors.executors 1 ≡ some (sync x))
    × (length x.workers ≡ 4)
    × (s'.gencb ≡ true)
    × (s'.event_base ≡ some 1)
    × (s'.socket_handle ≡ some 9)
    × (SimpleStartup.main record_state env (some 1) (some 3) 2 (some 9) 0 (some 0)
        ≡ SimpleStartup.run record_state s')
    × (SimpleStartup.main record_state env (some 1) (some 3) 2 (some 9) 0 (some 0)
        ≡ (record_state (some 1) s' >>= (λ r. done (pos 0, r))))
simple_starts_example = simple_starts true 0 0 50 (some 51) (λ _. true) 1 3 9 0 2 record_state
