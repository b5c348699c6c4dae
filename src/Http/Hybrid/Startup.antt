-- ===== src/Http/Hybrid/Startup.antt =====
-- The constructor and Initialize of HTTPHybridServer
-- (samples/http_sync_async_server/http_hybrid_server.cc).
use gexecutor.Prelude.{
  ℕ, ◌≡◌, refl, ◌∙◌, ap, Bool, true, false, Option, none, some, [], ◌∷◌, ◌++◌, length, ℤ, pos,
  Outcome, done, undefined, ◌>>=◌, arith, length-replicate,
}
use gexecutor.TaskQ.{GTaskQ, gtaskq, max_notifn}
use gexecutor.TaskQ
use gexecutor.TaskQ.Enqueue.{IsReady}
use gexecutor.AsyncExecutor.{AsyncExecutor, async_executor, event_new, event_add, created}
use gexecutor.AsyncExecutor
use gexecutor.SyncExecutor.{SyncExecutor, sync_executor}
use gexecutor.SyncExecutor
use gexecutor.SyncExecutor.Workers.{initialize_workers}

-- The server's own queues, 0 and 1, and executors.
pub record HybridState (P : Type 0) : Type 0 where
  pub event_base : Option ℕ
  pub evhttp : Option ℕ
  pub socket_handle : Option ℕ
  pub gencb : Bool  -- whether http_default_cb has been set
  pub async_taskq : GTaskQ P
  pub sync_taskq : GTaskQ P
  pub async_executor : AsyncExecutor
  pub sync_executor : SyncExecutor

-- What the system calls inside Initialize return.
pub record Given (P : Type 0) : Type 0 where
  pub socket : Option ℕ
  pub errno : ℕ
  pub async_pipe : Option P
  pub sync_pipe : Option P
  pub taskq_ev : Option ℕ
  pub timer_ev : Option ℕ
  pub created : ℕ → Bool

-- The callback is set after the two tests for NULL.
abbrev pub gencb_set : (event_base evhttp : Option ℕ) → Bool
gencb_set none evhttp = false
gencb_set (some _) none = false
gencb_set (some _) (some _) = true

unfoldable pub hybrid_server :
    {P : Type 0}
    → (memory : Bool) (event_base evhttp : Option ℕ) (num_sync_workers : ℕ) → HybridState P
hybrid_server memory event_base evhttp num_sync_workers = record {
  event_base = event_base;
  evhttp = evhttp;
  socket_handle = none;
  gencb = gencb_set event_base evhttp;
  async_taskq = gtaskq memory;
  sync_taskq = gtaskq memory;
  async_executor = async_executor event_base 0;
  sync_executor = sync_executor 1 num_sync_workers;
}

module _ {P : Type 0} where
  -- Initialize after the socket has been bound.
  pub initialize_parts : Given P → HybridState P → Outcome (ℤ × HybridState P × AsyncExecutor.Log)
  initialize_parts g s = TaskQ.initialize g.async_pipe s.async_taskq >>= (λ async_taskq.
      TaskQ.initialize g.sync_pipe s.sync_taskq >>= (λ sync_taskq.
        AsyncExecutor.initialize g.taskq_ev g.timer_ev s.async_executor >>= (λ started. done (
          pos 0,
          record s {
            async_taskq = async_taskq;
            sync_taskq = sync_taskq;
            async_executor = started.0;
            sync_executor = SyncExecutor.initialize g.created s.sync_executor;
          },
          started.1,
        ))))

  -- Initialize: evhttp_bind_socket_with_handle uses `evhttp_` also when it is NULL.
  unfoldable pub initialize :
      Given P → HybridState P → Outcome (ℤ × HybridState P × AsyncExecutor.Log)
  unfolding initialize_parts
  initialize g s = elim s.evhttp [
    | none ↦ undefined
    | some _ ↦ elim g.socket [
      | none ↦ done (pos g.errno, s, [])
      | some handle ↦ initialize_parts g (record s { socket_handle = some handle })
    ]
  ]

  -- A server with an event base and an evhttp, whose socket is bound and whose system calls succeed:
  -- Initialize returns 0, the callback and the socket are set, both queues are ready, with the pipes
  -- that were made for them and their first limit, and empty, the asynchronous executor has its event,
  -- on the event base of the server, and the first queue, and the synchronous one is that of the second
  -- queue, initialized once, with as many workers as asked.
  pub hybrid_starts :
      (base evhttp handle ev n : ℕ) (p p' : P) (g : Given P)
      → g.socket ≡ some handle
      → g.async_pipe ≡ some p
      → g.sync_pipe ≡ some p'
      → g.taskq_ev ≡ some ev
      → (s : HybridState P) × (log : AsyncExecutor.Log) × (initialize g
            (hybrid_server true (some base) (some evhttp) n)
          ≡ done (pos 0, s, log))
        × (IsReady s.async_taskq p × (s.async_taskq.task_queue ≡ []))
        × (IsReady s.sync_taskq p' × (s.sync_taskq.task_queue ≡ []))
        × (s.async_taskq.max_outstanding_notifn ≡ max_notifn)
        × (s.sync_taskq.max_outstanding_notifn ≡ max_notifn)
        × (s.async_executor.p_taskq_ev ≡ some ev)
        × (length s.sync_executor.workers ≡ n)
        × (s.gencb ≡ true)
        × (s.event_base ≡ some base)
        × (s.socket_handle ≡ some handle)
        × (s.async_executor.event_base ≡ some base)
        × (s.async_executor.p_taskq ≡ 0)
        × (s.sync_executor ≡ SyncExecutor.initialize g.created (sync_executor 1 n))
  unfolding initialize hybrid_server TaskQ.initialize AsyncExecutor.initialize gtaskq async_executor
      sync_executor
  hybrid_starts base evhttp handle ev n p p' g a b c d =
      let (new, added, count, _) = initialize_workers g.created (sync_executor 1 n) in
      let ready : (pipe : P) → IsReady (record (gtaskq true) { pipefds = some pipe }) pipe = λ pipe.
        record {
          buffer = _;
          connected = refl;
          has_buffer = refl;
          room = length-replicate {A = ℕ} 4096 b'G';
          settled = refl;
          limit = omega arith;
        } in
      let q : (pipe : P) → GTaskQ P = λ pipe. record (gtaskq true) { pipefds = some pipe } in
      let started : HybridState P = record (hybrid_server true (some base) (some evhttp) n) {
        socket_handle = some handle;
        async_taskq = q p;
        sync_taskq = q p';
        async_executor = record (async_executor (some base) 0) {
          p_taskq_ev = some ev;
          p_timer_ev = g.timer_ev;
        };
        sync_executor = SyncExecutor.initialize g.created (sync_executor 1 n);
      } in
      (
        started,
        (event_new ev ∷ event_add ev ∷ []) ++ created g.timer_ev,
        rw (a, initialize) (rw (b, c, d, initialize_parts) refl),
        (ready p, refl),
        (ready p', refl),
        refl,
        refl,
        refl,
        ap length added ∙ count,
        refl,
        refl,
        refl,
        refl,
        refl,
        refl,
      )
