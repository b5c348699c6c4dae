-- ===== src/TaskQ/System/Safety.antt =====
-- What holds of a shared GTaskQ in every interleaving of its threads.
use gexecutor.Prelude.{
  ℕ, zero, suc, ◌+◌, ◌<◌, ◌≡◌, ◌≤◌, refl, ap, true, some, List, [], ◌∷◌, length, get_elem?, set,
  replicate, total, total-replicate, le-total, arith,
}
use gexecutor.Pipe.{Pipe, PipeLaws}
use gexecutor.TaskQ.{GTaskSharedPtr, gtaskq, max_notifn, u64_sub, add_outstanding, pop_task}
use gexecutor.TaskQ.System.{running, restoring, restored, thread, System, Reach}
use gexecutor.TaskQ.System.Invariant.{
  weight, Inv, Step-Inv, Reach-Inv, Reach-limit, AllOk, AllOk-get,
}

-- n threads at rest on a queue that is constructed and initialized with the pipe p.
unfoldable pub start : {P : Type 0} → ℕ → P → System P
unfolding gtaskq
start n p = record {
  queue = record (gtaskq true) { pipefds = some p };
  threads = replicate n (thread 0 running);
}

AllOk-replicate : (n : ℕ) → AllOk (replicate n (thread 0 running))
AllOk-replicate zero = tt
AllOk-replicate (suc n) = (tt, AllOk-replicate n)

module _ {P : Type 0} (io : Pipe P) where
  pub start-Inv : (n : ℕ) (p : P) → io.buffered p ≡ 0 → Inv io (start n p)
  unfolding start
  start-Inv n p e = record {
    pipe = p;
    connected = refl;
    settled = refl;
    limit = omega arith;
    fits = omega arith;
    balance = omega (arith, total-replicate weight n (thread 0 running) refl);
    stages = AllOk-replicate n;
  }

  module _ (laws : PipeLaws io) (n : ℕ) (p : P) (empty : io.buffered p ≡ 0) {s : System P}
      (r : Reach io (start n p) s) where
    inv : Inv io s
    inv = Reach-Inv io laws r (start-Inv n p empty)

    -- In every state that n threads reach from a new queue with an empty pipe, in any interleaving: a
    -- thread that has read a byte and not yet dequeued for it finds a task in the queue, and dequeues
    -- the first.
    pub no_empty_dequeue :
        (i c : ℕ)
        → get_elem? s.threads i ≡ some (thread (suc c) running)
        → (task : GTaskSharedPtr) × (rest : List GTaskSharedPtr) × (s.queue.task_queue
            ≡ task ∷ rest)
          × ((pop_task s.queue).0 ≡ task)
    unfolding pop_task
    no_empty_dequeue i c e =
        let v = inv in
        let part : weight (thread (suc c) running) < suc (total weight s.threads) =
          le-total weight s.threads i e in
        let some_task : 0 < length s.queue.task_queue = omega arith in
        split s.queue.task_queue refl some_task
      where
        split :
            (ts : List GTaskSharedPtr)
            → s.queue.task_queue ≡ ts
            → 0 < length s.queue.task_queue
            → (task : GTaskSharedPtr) × (rest : List GTaskSharedPtr) × (s.queue.task_queue
                ≡ task ∷ rest)
              × ((pop_task s.queue).0 ≡ task)
        split [] e h = ground arith
        split (t ∷ ts) e h = (t, ts, e, ground arith)

    -- In every state that n threads reach from a new queue with an empty pipe each queued task is
    -- accounted for: by an unread byte of the pipe, by a dequeue or a notification that a thread has
    -- still to do, or by a unit of the limit beyond its first value.
    pub accounting :
        (p' : P)
        → s.queue.pipefds ≡ some p'
        → length s.queue.task_queue + max_notifn
          ≡ io.buffered p' + total weight s.threads + s.queue.max_outstanding_notifn
    accounting p' c =
        let v = inv in
        let same : v.pipe ≡ p' = cc (v.connected, c) in omega (arith, ap io.buffered same)

    -- In a state that n threads reach from a new queue with an empty pipe, a thread is about to leave
    -- EnqueueGTask after it could write only k of its `a` notifications. It gives up a - k of them, at
    -- least one, and they are never made good: from then on, whatever the threads do, at least as
    -- many tasks as that stay in the queue, and as many again as the limit had been raised by before.
    pub never_recovered :
        (i c a k : ℕ)
        → get_elem? s.threads i ≡ some (thread c (restoring a k))
        → {t : System P}
        → Reach io
            (record {
              queue = add_outstanding io a k s.queue;
              threads = set s.threads i (thread c running);
            })
            t
        → (0 < u64_sub a k)
          × (s.queue.max_outstanding_notifn + u64_sub a k ≤ length t.queue.task_queue + max_notifn)
    unfolding add_outstanding
    never_recovered i c a k e q =
        let v = inv in
        let unsent : 0 < u64_sub a k = AllOk-get s.threads i c (restoring a k) e v.stages in
        let part : weight (thread c (restoring a k)) < suc (total weight s.threads) =
          le-total weight s.threads i e in
        let v' = Step-Inv io laws (restored i c a k e) v in
        let w = Reach-Inv io laws q v' in
        let raised : s.queue.max_outstanding_notifn + u64_sub a k
            ≡ (add_outstanding io a k s.queue).max_outstanding_notifn =
          ground arith in
        (unsent, omega (arith, Reach-limit io laws q v', w.balance))
