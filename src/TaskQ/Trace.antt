-- ===== src/TaskQ/Trace.antt =====
-- GTaskQ against the abstract queue that it implements: a list of tasks, first in first out.
use gexecutor.Prelude.{
  ℕ, suc, ◌+◌, ◌^◌, ◌<◌, ◌≡◌, refl, sym, ap, ◌∙◌, none, some, List, [], ◌∷◌, ◌++◌, map, Outcome,
  done, ◌>>=◌, arith, append-cons,
}
use mathlib.Core.List.{append-nil, map-append}
use gexecutor.Pipe.{Pipe, PipeLaws}
use gexecutor.TaskQ.{GTaskQ, GTaskSharedPtr, enqueue_gtask, pop_task}
use gexecutor.TaskQ.Notify.{IsRecoverable}
use gexecutor.TaskQ.Enqueue.{IsReady, enqueue_gtask_lem}

-- A producer enqueues a task, or a consumer dequeues.
pub data Op : Type 0 where
  enqueue : ℕ → Op
  dequeue : Op

-- The specification: what the dequeues return, and the tasks that are left.
abbrev pub spec_pop : List ℕ → GTaskSharedPtr
spec_pop [] = none
spec_pop (t ∷ ts) = some t

abbrev pub spec_rest : List ℕ → List ℕ
spec_rest [] = []
spec_rest (t ∷ ts) = ts

unfoldable pub spec_run : List Op → List ℕ → List GTaskSharedPtr × List ℕ
spec_run [] ts = ([], ts)
spec_run (enqueue t ∷ ops) ts = spec_run ops (ts ++ t ∷ [])
spec_run (dequeue ∷ ops) ts =
    let rest = spec_run ops (spec_rest ts) in (spec_pop ts ∷ rest.0, rest.1)

abbrev pub enqueued : List Op → List ℕ
enqueued [] = []
enqueued (enqueue t ∷ ops) = t ∷ enqueued ops
enqueued (dequeue ∷ ops) = enqueued ops

abbrev pub delivered : List GTaskSharedPtr → List ℕ
delivered [] = []
delivered (none ∷ outs) = delivered outs
delivered (some t ∷ outs) = t ∷ delivered outs

abbrev pub count_enqueues : List Op → ℕ
count_enqueues [] = 0
count_enqueues (enqueue t ∷ ops) = suc (count_enqueues ops)
count_enqueues (dequeue ∷ ops) = count_enqueues ops

-- No task is lost, made up, or overtaken.
spec_run-fifo :
    (ops : List Op) (ts : List ℕ)
    → delivered (spec_run ops ts).0 ++ (spec_run ops ts).1 ≡ ts ++ enqueued ops
unfolding spec_run
spec_run-fifo [] ts = sym (append-nil ts)
spec_run-fifo (enqueue t ∷ ops) ts = spec_run-fifo ops (ts ++ t ∷ []) ∙ append-cons ts _ t
spec_run-fifo (dequeue ∷ ops) [] = spec_run-fifo ops []
spec_run-fifo (dequeue ∷ ops) (t ∷ ts) = ap (λ xs. t ∷ xs) (spec_run-fifo ops ts)

-- On an empty queue the dequeue returns NULL and changes nothing; otherwise it takes the head.
pub pop_task_lem :
    {P : Type 0} (ts : List ℕ) (q : GTaskQ P) (p : P)
    → IsReady q p
    → q.task_queue ≡ map some ts
    → ((pop_task q).0 ≡ spec_pop ts)
      × ((pop_task q).1.task_queue ≡ map some (spec_rest ts))
      × IsReady (pop_task q).1 p
      × ((pop_task q).1.max_outstanding_notifn ≡ q.max_outstanding_notifn)
unfolding pop_task
pop_task_lem [] q p v e = ground arith
pop_task_lem (t ∷ ts) q p v e = ground arith

module _ {P : Type 0} (io : Pipe P) where
  -- The queue of the source, driven by the same operations.
  pub run : List Op → GTaskQ P → Outcome (List GTaskSharedPtr × GTaskQ P)
  run [] q = done ([], q)
  run (enqueue t ∷ ops) q = enqueue_gtask io (some t) q >>= λ q'. run ops q'
  run (dequeue ∷ ops) q =
      let popped = pop_task q in run ops popped.1 >>= λ r. done (popped.0 ∷ r.0, r.1)

  module _ (laws : PipeLaws io) (recoverable : IsRecoverable io) where
    -- For every sequence of enqueues and dequeues on a ready queue, on a pipe whose failures may be
    -- tried again and while the limit cannot wrap around: the code returns, its dequeues return what
    -- those of the abstract queue return, it holds what the abstract queue holds, and is ready.
    pub run-refines :
        (ops : List Op) (ts : List ℕ) (q : GTaskQ P) (p : P)
        → IsReady q p
        → q.task_queue ≡ map some ts
        → q.max_outstanding_notifn + count_enqueues ops < 2 ^ 64
        → (q' : GTaskQ P) × (p' : P) × (run ops q ≡ done ((spec_run ops ts).0, q'))
          × IsReady q' p'
          × (q'.task_queue ≡ map some (spec_run ops ts).1)
    unfolding run spec_run
    run-refines [] ts q p v e h = (q, p, refl, v, e)
    run-refines (enqueue t ∷ ops) ts q p v e h =
        let (q', p', r, d) = enqueue_gtask_lem io laws recoverable (some t) q p v (omega arith) in
        let holds : q'.task_queue ≡ map some (ts ++ t ∷ []) =
          rw (map-append some ts (t ∷ []), d.appended, e) in
        let (q'', p'', s, v'', e'') =
          run-refines ops (ts ++ t ∷ []) q' p' d.ready holds (omega (arith, d.limit_bounded)) in
        (q'', p'', rw (r, ◌>>=◌) s, v'', e'')
    run-refines (dequeue ∷ ops) ts q p v e h =
        let (o, e', v', m) = pop_task_lem ts q p v e in
        let (q'', p'', s, v'', e'') =
          run-refines ops (spec_rest ts) (pop_task q).1 p v' e' (omega arith) in
        (q'', p'', rw (s, o), v'', e'')

    -- For every sequence of enqueues and dequeues on a ready queue, on a pipe whose failures may be
    -- tried again and while the limit cannot wrap around, no task is lost, made up or overtaken: the
    -- tasks that the dequeues return, in order, and then those left in the queue, are those that were
    -- in the queue at first and then those enqueued, in order.
    run-fifo :
        (ops : List Op) (ts : List ℕ) (q : GTaskQ P) (p : P)
        → IsReady q p
        → q.task_queue ≡ map some ts
        → q.max_outstanding_notifn + count_enqueues ops < 2 ^ 64
        → (outs : List GTaskSharedPtr) × (q' : GTaskQ P) × (left : List ℕ) × (run ops q
            ≡ done (outs, q'))
          × (q'.task_queue ≡ map some left)
          × (delivered outs ++ left ≡ ts ++ enqueued ops)
    run-fifo ops ts q p v e h =
        let (q', p', r, _, e') = run-refines ops ts q p v e h in
        (_, q', _, r, e', spec_run-fifo ops ts)
