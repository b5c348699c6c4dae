-- ===== src/Tests/Threads.antt =====
-- Threads that share a GTaskQ (gexecutor/gtaskq.cc): one thread and a pipe of two bytes.
use gexecutor.Prelude.{
  ℕ, ◌<◌, ◌+◌, ◌≤◌, ◌≡◌, ◌⊎◌, refl, some, List, [], ◌∷◌, ◌++◌, length, get_elem?, total, arith,
}
use gexecutor.Pipe.{bounded, bounded-PipeLaws, bounded_read_lem}
use gexecutor.TaskQ.{GTaskSharedPtr, max_notifn, add_outstanding, pop_task}
use gexecutor.TaskQ.Notify.{bounded-IsRecoverable}
use gexecutor.TaskQ.System.{
  running, restoring, thread, System, Reach, here, next, dequeued, read_size,
}
use gexecutor.TaskQ.System.Invariant.{weight}
use gexecutor.TaskQ.System.Safety.{start, no_empty_dequeue, accounting, never_recovered}
use gexecutor.TaskQ.System.Effort.{left}
use gexecutor.TaskQ.System.Progress.{Quiet, stay, go, Reads, Goes, AtRest, Rests, comes_to_rest}
use gexecutor.TaskQ.System.LostWakeup.{lost_wakeup, Reached, wakes, overfull, fills, refused}
use gexecutor.TaskQ.System.Moves.{At, dequeues}
use gexecutor.TaskQ.System.Order.{all_pushed, all_popped, in_order, all_done}

-- Three tasks are queued; the thread has read two bytes and dequeued nothing.
abbrev awake : Reached 2 3 0 2 1
awake = wakes 2 2 (overfull 2 (omega arith)) (ground arith)

has_credit : get_elem? awake.0.threads 0 ≡ some (thread 2 running)
has_credit = ground (arith, awake.2.alone)

no_empty_dequeue_example :
    (task : GTaskSharedPtr) × (rest : List GTaskSharedPtr) × (awake.0.queue.task_queue
      ≡ task ∷ rest)
    × ((pop_task awake.0.queue).0 ≡ task)
no_empty_dequeue_example =
    no_empty_dequeue (bounded 2) (bounded-PipeLaws 2) 1 0 refl awake.1 0 1 has_credit

accounting_example :
    length awake.0.queue.task_queue + max_notifn
    ≡ 0 + total weight awake.0.threads + awake.0.queue.max_outstanding_notifn
accounting_example = accounting (bounded 2) (bounded-PipeLaws 2) 1 0 refl awake.1 0 awake.2.pipe

-- The pipe is full with two bytes, and the third task has given its notification up.
abbrev giving_up : (t : System ℕ) × Reach (bounded 2) (start 1 0) t × At 3 2 0 0 (restoring 1 0) t
giving_up = refused 2 (fills 2 2 (omega arith) (omega arith)) (omega arith)

is_restoring : get_elem? giving_up.0.threads 0 ≡ some (thread 0 (restoring 1 0))
is_restoring = ground (arith, giving_up.2.alone)

never_recovered_example :
    (0 < 1)
    × (giving_up.0.queue.max_outstanding_notifn + 1
        ≤ length (add_outstanding (bounded 2) 1 0 giving_up.0.queue).task_queue + max_notifn)
never_recovered_example =
    never_recovered (bounded 2) (bounded-PipeLaws 2) 1 0 refl giving_up.1 0 0 1 0 is_restoring here

lost_wakeup_example :
    (s : System ℕ) × Reach (bounded 2) (start 1 0) s
    × (length s.queue.task_queue ≡ 1)
    × (s.queue.pipefds ≡ some 0)
    × (s.threads ≡ thread 0 running ∷ [])
lost_wakeup_example = lost_wakeup 2 (omega arith)

bounded-Reads : Reads (bounded 2)
bounded-Reads p h =
    let (k, some_bytes, _, e) = bounded_read_lem p read_size h (ground arith) in
    (k, _, some_bytes, e)

-- The thread has dequeued once.
abbrev popped : (t : System ℕ) × Quiet (bounded 2) awake.0 1 t
popped = (_, go stay (dequeued 0 1 has_credit) tt)

comes_to_rest_example :
    (1 + left (bounded 2) popped.0 ≤ left (bounded 2) awake.0)
    × (Goes (bounded 2) popped.0 ⊎ AtRest (bounded 2) popped.0)
    × Rests (bounded 2) popped.0
comes_to_rest_example =
    comes_to_rest (bounded 2) (bounded-PipeLaws 2) (bounded-IsRecoverable 2) bounded-Reads 1 0
      (ground arith) refl awake.1 popped.1

in_order_example : all_pushed awake.1 ≡ all_popped awake.1 ++ awake.0.queue.task_queue
in_order_example = in_order (bounded-PipeLaws 2) 1 0 refl awake.1

-- One task, which the thread has dequeued.
abbrev served : Reached 2 0 0 0 0
served =
    let (s, r, v) = wakes 2 1 (fills 2 1 (omega arith) (omega arith)) (ground arith) in
    let (s1, e1, v1) = dequeues 2 v in (s1, next r e1, v1)

nothing_left : left (bounded 2) served.0 ≡ 0
nothing_left = rw (served.2.pipe, served.2.alone)

all_done_example : all_popped served.1 ≡ all_pushed served.1
all_done_example = all_done (bounded-PipeLaws 2) 1 0 refl served.1 nothing_left served.2.limit
