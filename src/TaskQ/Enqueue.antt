-- ===== src/TaskQ/Enqueue.antt =====
-- EnqueueGTask of gexecutor/gtaskq.cc on a queue that is constructed and initialized.
use gexecutor.Prelude.{
  ℕ, ◌+◌, ◌^◌, ◌≤◌, ◌<◌, ◌≡◌, refl, true, some, List, [], ◌∷◌, ◌++◌, length, done, arith,
  >>=-eq-done,
}
use gexecutor.Prelude.{length-replicate}
use gexecutor.Pipe.{Pipe, PipeLaws, failed, eagain}
use gexecutor.TaskQ.{
  GTaskQ, GTaskSharedPtr, gtaskq, initialize, max_notifn, u64, enqueue_gtask, notify_q, push_task,
  add_outstanding, num_notifn_to_write,
}
use gexecutor.TaskQ.Notify.{IsRecoverable, notify_loop_lem}

module _ {P : Type 0} where
  -- Initialized with the pipe p, nothing held back, and the limit not below the buffer.
  pub record IsReady (q : GTaskQ P) (p : P) : Type 0 where
    pub buffer : List ℕ
    pub connected : q.pipefds ≡ some p
    pub has_buffer : q.notfn_buffer ≡ some buffer
    pub room : length buffer ≡ max_notifn
    pub settled : q.num_outstanding_notifn ≡ 0
    pub limit : max_notifn ≤ q.max_outstanding_notifn

  pub initialize-IsReady :
      (p : P) → (q : GTaskQ P) × (initialize (some p) (gtaskq true) ≡ done q) × IsReady q p
  unfolding initialize gtaskq
  initialize-IsReady p = (
    _,
    refl,
    record {
      buffer = _;
      connected = refl;
      has_buffer = refl;
      room = length-replicate {A = ℕ} 4096 b'G';
      settled = refl;
      limit = omega arith;
    },
  )

  module _ (io : Pipe P) where
    pub record Enqueued (task : GTaskSharedPtr) (q : GTaskQ P) (p : P) (q' : GTaskQ P) (p' : P)
        : Type 0 where
      pub ready : IsReady q' p'
      pub appended : q'.task_queue ≡ q.task_queue ++ task ∷ []
      pub counted : q'.num_enqueue ≡ u64 (q.num_enqueue + 1)
      pub dequeues : q'.num_dequeue ≡ q.num_dequeue
      pub notified :
          io.buffered p' + q'.max_outstanding_notifn ≡ io.buffered p + q.max_outstanding_notifn + 1
      pub limit_grows : q.max_outstanding_notifn ≤ q'.max_outstanding_notifn
      pub limit_bounded : q'.max_outstanding_notifn ≤ q.max_outstanding_notifn + 1

    module _ (laws : PipeLaws io) (recoverable : IsRecoverable io) where
      -- A queue that is ready takes every task, on a pipe whose failures may be tried again and while
      -- the limit does not wrap around: EnqueueGTask returns, appends the task, counts it, and either
      -- writes one byte into the pipe or raises max_outstanding_notifn_ by one. The queue stays ready.
      pub enqueue_gtask_lem :
          (task : GTaskSharedPtr) (q : GTaskQ P) (p : P)
          → IsReady q p
          → q.max_outstanding_notifn + 1 < 2 ^ 64
          → (q' : GTaskQ P) × (p' : P) × (enqueue_gtask io task q ≡ done q')
            × Enqueued task q p q' p'
      unfolding enqueue_gtask num_notifn_to_write notify_q
      enqueue_gtask_lem task q p v h =
          let (r, e, post) = notify_loop_lem io laws recoverable 3 1 0 p (omega arith) in
          (
            add_outstanding io 1 r.0 (record (push_task io task q).1 { pipefds = some r.1 }),
            r.1,
            ground arith,
            record {
              ready = record {
                buffer = v.buffer;
                connected = ground arith;
                has_buffer = ground arith;
                room = v.room;
                settled = ground arith;
                limit = ground arith;
              };
              appended = ground arith;
              counted = ground arith;
              dequeues = ground arith;
              notified = ground arith;
              limit_grows = ground arith;
              limit_bounded = ground arith;
            },
          )

    -- On a ready queue whose pipe is full (write returns EAGAIN), while the limit does not wrap around:
    -- EnqueueGTask returns, the task is queued, no byte is written, and what the failure leaves behind
    -- is a limit that is higher by one. No notification is outstanding afterwards.
    enqueue_gtask_full :
        (task : GTaskSharedPtr) (q : GTaskQ P) (p : P)
        → IsReady q p
        → q.max_outstanding_notifn + 1 < 2 ^ 64
        → io.write p 1 ≡ (failed eagain, p)
        → (q' : GTaskQ P) × (enqueue_gtask io task q ≡ done q')
          × (q'.task_queue ≡ q.task_queue ++ task ∷ [])
          × (q'.pipefds ≡ some p)
          × (q'.num_outstanding_notifn ≡ 0)
          × (q'.max_outstanding_notifn ≡ q.max_outstanding_notifn + 1)
    unfolding enqueue_gtask num_notifn_to_write notify_q
    enqueue_gtask_full task q p v h full = (
      add_outstanding io 1 0 (record (push_task io task q).1 { pipefds = some p }),
      ground arith,
      ground arith,
      ground arith,
      ground arith,
      ground arith,
    )

module _ {P : Type 0} (io : Pipe P) where
  notify_q-task_queue :
      (n : ℕ) (q q' : GTaskQ P) (k : ℕ)
      → notify_q io n q ≡ done (k, q')
      → q'.task_queue ≡ q.task_queue
  unfolding notify_q
  notify_q-task_queue n q q' k e = ground arith

  -- An EnqueueGTask that returns, on any queue, has appended its task.
  pub enqueue_gtask-appends :
      (task : GTaskSharedPtr) (q q' : GTaskQ P)
      → enqueue_gtask io task q ≡ done q'
      → q'.task_queue ≡ q.task_queue ++ task ∷ []
  unfolding enqueue_gtask push_task add_outstanding num_notifn_to_write
  enqueue_gtask-appends task q q' e =
      let pushed = push_task io task q in
      let (r, sent, rest) = >>=-eq-done (notify_q io pushed.0 pushed.1) _ e in
      let kept = notify_q-task_queue pushed.0 pushed.1 r.1 r.0 sent in ground arith
