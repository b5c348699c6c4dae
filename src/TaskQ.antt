-- ===== src/TaskQ.antt =====
-- gexecutor/gtaskq.h and gexecutor/gtaskq.cc, the class GTaskQ: a queue of tasks under a mutex,
-- with a pipe that gets one byte for each task so that an event loop wakes up for it.
-- The bodies between lock and unlock are single steps; TaskQ.System interleaves them.
-- A shared pointer to a task is a reference into the store of tasks, or NULL.
pub mod Notify
pub mod Enqueue
pub mod System
pub mod Trace
pub mod Lifetime
use gexecutor.Prelude.{
  ℕ, zero, suc, ◌+◌, ◌-◌, ◌%◌, ◌^◌, Bool, true, false, ◌||◌, Option, none, some, List, [], ◌∷◌,
  ◌++◌, length, replicate, ltb, leb, ◌==◌, if◌then◌else◌, Outcome, done, aborted, undefined, ◌>>=◌,
}
use gexecutor.Pipe.{Pipe, Errno, eagain, eintr, efault, other, IoResult, bytes, failed}

abbrev pub GTaskSharedPtr : Type 0
GTaskSharedPtr = Option ℕ

-- size_t and the bit pattern of int64_t wrap at 2 ^ 64.
abbrev pub u64 : ℕ → ℕ
u64 n = n % 2 ^ 64

abbrev pub u64_sub : ℕ → ℕ → ℕ
u64_sub a b = (a + 2 ^ 64 - b) % 2 ^ 64

-- What an executor does with its queue needs the two ends of the pipe, `none` until `initialize`.
pub record GTaskQ (P : Type 0) : Type 0 where
  pub num_enqueue : ℕ
  pub num_dequeue : ℕ
  pub max_outstanding_notifn : ℕ
  pub task_queue : List GTaskSharedPtr
  pub executor_ctx : Option ℕ
  pub num_outstanding_notifn : ℕ
  pub pipefds : Option P
  pub notfn_buffer : Option (List ℕ)

abbrev pub max_notifn : ℕ
max_notifn = 4096

-- The constructor; `memory` says whether malloc succeeds.
unfoldable pub gtaskq : {P : Type 0} → Bool → GTaskQ P
gtaskq memory = record {
  num_enqueue = 0;
  num_dequeue = 0;
  max_outstanding_notifn = max_notifn;
  task_queue = [];
  executor_ctx = none;
  num_outstanding_notifn = 0;
  pipefds = none;
  notfn_buffer = if memory then some (replicate max_notifn b'G') else none;
}

-- `pipe` is what pipe2 gives, `none` for -1, which runs into `assert(0)`. The code returned is 0.
unfoldable pub initialize : {P : Type 0} → Option P → GTaskQ P → Outcome (GTaskQ P)
initialize none q = aborted
initialize (some p) q = done (record q { pipefds = some p })

-- The destructor: whether there is a buffer to free, and the pipe of which it closes both ends.
-- Without `initialize` the two descriptors have no value.
unfoldable pub destroy : {P : Type 0} → GTaskQ P → Outcome (Bool × P)
destroy q = elim q.pipefds [
  | none ↦ undefined
  | some p ↦ done (elim q.notfn_buffer [ none ↦ false | some _ ↦ true ], p)
]

abbrev pub set_gexecutor : {P : Type 0} → Option ℕ → GTaskQ P → GTaskQ P
set_gexecutor executor_ctx q = record q { executor_ctx = executor_ctx }

-- The number to write now, and the queue that remembers the others.
pub num_notifn_to_write : {P : Type 0} → ℕ → GTaskQ P → ℕ × GTaskQ P
num_notifn_to_write num_new_notifn q =
    let outstanding = u64 (q.num_outstanding_notifn + num_new_notifn) in
    let num_notifn =
      if ltb q.max_outstanding_notifn outstanding then q.max_outstanding_notifn else outstanding in
    (num_notifn, record q { num_outstanding_notifn = u64_sub outstanding num_notifn })

abbrev pub is_retried : Errno → Bool
is_retried eagain = true
is_retried eintr = true
is_retried efault = false
is_retried (other _) = false

module _ {P : Type 0} (io : Pipe P) where
  -- The `while` of NotifyQ, by the retries left: how many were written in all, and the pipe. Any
  -- errno but EAGAIN and EINTR is an `assert(0)`. A return is with code 0.
  pub notify_loop : (retry_count num_notifn num_notified : ℕ) → P → Outcome (ℕ × P)
  notify_loop zero num_notifn num_notified p = done (num_notified, p)
  notify_loop (suc retry_count) num_notifn num_notified p = elim (num_notifn == 0) [
    | true ↦ done (num_notified, p)
    | false ↦ elim (io.write p num_notifn).0 [
      | failed errno ↦ elim (is_retried errno) [
        | true ↦ notify_loop retry_count num_notifn num_notified (io.write p num_notifn).1
        | false ↦ aborted
      ]
      | bytes rc ↦
          notify_loop retry_count (u64_sub num_notifn rc) (u64 (num_notified + rc))
            (io.write p num_notifn).1
    ]
  ]

  -- write(2) reads `num_notifn` bytes of the buffer: with a NULL buffer it fails with EFAULT, and
  -- past the end of the buffer or without a pipe anything may happen.
  pub notify_q : ℕ → GTaskQ P → Outcome (ℕ × GTaskQ P)
  unfolding notify_loop
  notify_q num_notifn q = if num_notifn == 0 then done (0, q) else elim q.pipefds [
    | none ↦ undefined
    | some p ↦ elim q.notfn_buffer [
      | none ↦ aborted
      | some buffer ↦
          if leb num_notifn (length buffer)
          then notify_loop 3 num_notifn 0 p >>= (λ r. done (r.0, record q { pipefds = some r.1 }))
          else undefined
    ]
  ]

  -- The first critical section of EnqueueGTask.
  pub push_task : GTaskSharedPtr → GTaskQ P → ℕ × GTaskQ P
  unfolding num_notifn_to_write
  push_task task q =
      num_notifn_to_write 1
        (record q { num_enqueue = u64 (q.num_enqueue + 1); task_queue = q.task_queue ++ task ∷ [] })

  -- The second one, for the notifications that were not written.
  pub add_outstanding : (num_notifn num_notified : ℕ) → GTaskQ P → GTaskQ P
  add_outstanding num_notifn num_notified q =
      let unsent = u64_sub num_notifn num_notified in
      if ltb 0 unsent
      then record q { max_outstanding_notifn = u64 (q.max_outstanding_notifn + unsent) }
      else q

  -- EnqueueGTask, which returns the code 0.
  unfoldable pub enqueue_gtask : GTaskSharedPtr → GTaskQ P → Outcome (GTaskQ P)
  unfolding push_task notify_q add_outstanding
  enqueue_gtask task q =
      let pushed = push_task task q in
      notify_q pushed.0 pushed.1 >>= (λ r. done (add_outstanding pushed.0 r.0 r.1))

-- The critical section of DequeueGTask: NULL from an empty queue.
unfoldable pub pop_task : {P : Type 0} → GTaskQ P → GTaskSharedPtr × GTaskQ P
pop_task q = elim q.task_queue [
  | [] ↦ (none, q)
  | task ∷ rest ↦ (task, record q { task_queue = rest; num_dequeue = u64 (q.num_dequeue + 1) })
]
