-- ===== src/TaskQ/System.antt =====
-- One GTaskQ shared by any number of threads, interleaved in any order: the workers of a
-- GSyncExecutor, the thread of an asynchronous executor and every thread that sends them tasks.
-- A step is a critical section of gexecutor/gtaskq.cc, one write(2) of NotifyQ, or one read(2) of
-- taskq_cb (gexecutor/gasync_executor.cc). A task that runs may itself enqueue, so every thread
-- may do all of these.
pub mod Invariant
pub mod Safety
pub mod Moves
pub mod LostWakeup
pub mod Effort
pub mod Progress
pub mod Order
pub mod Alone
pub mod Sequential
use gexecutor.Prelude.{
  ℕ, zero, suc, ◌+◌, ◌^◌, ◌<◌, ◌≡◌, ◌⊎◌, true, some, List, length, get_elem?, set, ltb,
  if◌then◌else◌,
}
use gexecutor.Pipe.{Pipe, IoResult, bytes, failed, Errno}
use gexecutor.TaskQ.{
  GTaskQ, GTaskSharedPtr, u64, u64_sub, push_task, add_outstanding, pop_task, is_retried,
}

-- Where a thread stands in EnqueueGTask, with its live locals. `asked` is the num_notifn of
-- EnqueueGTask, which NotifyQ gets a copy of.
pub data Stage : Type 0 where
  running : Stage
  notifying : (retry_count num_notifn num_notified asked : ℕ) → Stage
  restoring : (asked num_notified : ℕ) → Stage

-- `credit` is num_bytes - num_tasks of taskq_cb: how many times it will still dequeue.
pub record Thread : Type 0 where
  pub credit : ℕ
  pub stage : Stage

abbrev pub thread : ℕ → Stage → Thread
thread credit stage = record { credit = credit; stage = stage }

pub record System (P : Type 0) : Type 0 where
  pub queue : GTaskQ P
  pub threads : List Thread

-- std::deque::max_size for a pointer of 16 bytes; push_back refuses to go beyond.
abbrev pub max_size : ℕ
max_size = 2 ^ 59

-- The buffer of taskq_cb.
abbrev pub read_size : ℕ
read_size = 4096

abbrev pub after_notify : (asked num_notified : ℕ) → Stage
after_notify asked num_notified =
    if ltb 0 (u64_sub asked num_notified) then restoring asked num_notified else running

module _ {P : Type 0} (io : Pipe P) where
  abbrev pub with_pipe : GTaskQ P → P → GTaskQ P
  with_pipe q p = record q { pipefds = some p }

  pub data Step (s : System P) : System P → Type 0 where
    push :
        (i c : ℕ) (task : GTaskSharedPtr)
        → get_elem? s.threads i ≡ some (thread c running)
        → length s.queue.task_queue < max_size
        → Step s (record {
          queue = (push_task io task s.queue).1;
          threads = set s.threads i (
              thread c (notifying 3 (push_task io task s.queue).0 0 (push_task io task s.queue).0));
        })
    wrote :
        (i c r n k a : ℕ) (p p' : P) (b : ℕ)
        → get_elem? s.threads i ≡ some (thread c (notifying (suc r) (suc n) k a))
        → s.queue.pipefds ≡ some p
        → io.write p (suc n) ≡ (bytes b, p')
        → Step s (record {
          queue = with_pipe s.queue p';
          threads = set s.threads i (thread c (notifying r (u64_sub (suc n) b) (u64 (k + b)) a));
        })
    retried :
        (i c r n k a : ℕ) (p p' : P) (e : Errno)
        → get_elem? s.threads i ≡ some (thread c (notifying (suc r) (suc n) k a))
        → s.queue.pipefds ≡ some p
        → io.write p (suc n) ≡ (failed e, p')
        → is_retried e ≡ true
        → Step s (record {
          queue = with_pipe s.queue p';
          threads = set s.threads i (thread c (notifying r (suc n) k a));
        })
    notified :
        (i c r n k a : ℕ)
        → get_elem? s.threads i ≡ some (thread c (notifying r n k a))
        → (r ≡ 0) ⊎ (n ≡ 0)
        → Step s
            (record { queue = s.queue; threads = set s.threads i (thread c (after_notify a k)) })
    restored :
        (i c a k : ℕ)
        → get_elem? s.threads i ≡ some (thread c (restoring a k))
        → Step s (record {
          queue = add_outstanding io a k s.queue;
          threads = set s.threads i (thread c running);
        })
    woken :
        (i : ℕ) (p p' : P) (b : ℕ)
        → get_elem? s.threads i ≡ some (thread 0 running)
        → s.queue.pipefds ≡ some p
        → io.read p read_size ≡ (bytes b, p')
        → Step s
            (record { queue = with_pipe s.queue p'; threads = set s.threads i (thread b running) })
    drained :
        (i : ℕ) (p p' : P) (e : Errno)
        → get_elem? s.threads i ≡ some (thread 0 running)
        → s.queue.pipefds ≡ some p
        → io.read p read_size ≡ (failed e, p')
        → Step s (record { queue = with_pipe s.queue p'; threads = s.threads })
    dequeued :
        (i c : ℕ)
        → get_elem? s.threads i ≡ some (thread (suc c) running)
        → Step s
            (record { queue = (pop_task s.queue).1; threads = set s.threads i (thread c running) })

  pub data Reach (s : System P) : System P → Type 0 where
    here : Reach s s
    next : {t u : System P} → Reach s t → Step t u → Reach s u
