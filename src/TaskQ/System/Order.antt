-- ===== src/TaskQ/System/Order.antt =====
-- The order in which threads that share a GTaskQ dequeue its tasks (gexecutor/gtaskq.cc).
use gexecutor.Prelude.{
  ℕ, suc, ◌<◌, ◌≡◌, refl, sym, ap, ◌∙◌, List, [], ◌∷◌, ◌++◌, length, total, le-total, arith,
}
use mathlib.Core.List.{append-nil, append_assoc}
use gexecutor.Pipe.{Pipe, PipeLaws}
use gexecutor.TaskQ.{GTaskQ, GTaskSharedPtr, max_notifn, push_task, add_outstanding, pop_task}
use gexecutor.TaskQ.System.{
  System, thread, running, Step, push, wrote, retried, notified, restored, woken, drained, dequeued,
  Reach, here, next,
}
use gexecutor.TaskQ.System.Invariant.{weight, Inv, Reach-Inv}
use gexecutor.TaskQ.System.Safety.{start, start-Inv}
use gexecutor.TaskQ.System.Effort.{left, unread}
use gexecutor.TaskQ.System.Progress.{idle-weight}

pop_task-splits :
    {P : Type 0} (q : GTaskQ P)
    → 0 < length q.task_queue
    → q.task_queue ≡ (pop_task q).0 ∷ (pop_task q).1.task_queue
unfolding pop_task
pop_task-splits q h = ground arith

add_outstanding-task_queue :
    {P : Type 0} (io : Pipe P) (a k : ℕ) (q : GTaskQ P)
    → (add_outstanding io a k q).task_queue ≡ q.task_queue
unfolding add_outstanding
add_outstanding-task_queue io a k q = ground arith

length-zero : (ts : List GTaskSharedPtr) → length ts ≡ 0 → ts ≡ []
length-zero [] e = refl
length-zero (t ∷ ts) e = absurd (omega (arith, e))

module _ {P : Type 0} {io : Pipe P} where
  -- The task that a step puts into the queue, and the one that it takes out.
  abbrev pub pushed : {s t : System P} → Step io s t → List GTaskSharedPtr
  pushed (push i c task e room) = task ∷ []
  pushed (wrote i c r n k a p p' b e f w) = []
  pushed (retried i c r n k a p p' x e f w y) = []
  pushed (notified i c r n k a e w) = []
  pushed (restored i c a k e) = []
  pushed (woken i p p' b e f w) = []
  pushed (drained i p p' x e f w) = []
  pushed (dequeued i c e) = []

  abbrev pub popped : {s t : System P} → Step io s t → List GTaskSharedPtr
  popped (push i c task e room) = []
  popped (wrote i c r n k a p p' b e f w) = []
  popped (retried i c r n k a p p' x e f w y) = []
  popped (notified i c r n k a e w) = []
  popped (restored i c a k e) = []
  popped (woken i p p' b e f w) = []
  popped (drained i p p' x e f w) = []
  popped {s} (dequeued i c e) = (pop_task s.queue).0 ∷ []

  -- All of them, in the order of the steps.
  abbrev pub all_pushed : {s t : System P} → Reach io s t → List GTaskSharedPtr
  all_pushed here = []
  all_pushed (next r st) = all_pushed r ++ pushed st

  abbrev pub all_popped : {s t : System P} → Reach io s t → List GTaskSharedPtr
  all_popped here = []
  all_popped (next r st) = all_popped r ++ popped st

  Step-order :
      {s t : System P}
      → (st : Step io s t) → Inv io s
      → s.queue.task_queue ++ pushed st ≡ popped st ++ t.queue.task_queue
  unfolding push_task
  Step-order (push i c task e room) v = refl
  Step-order {s} (wrote i c r n k a p p' b e f w) v = append-nil s.queue.task_queue
  Step-order {s} (retried i c r n k a p p' x e f w y) v = append-nil s.queue.task_queue
  Step-order {s} (notified i c r n k a e w) v = append-nil s.queue.task_queue
  Step-order {s} (restored i c a k e) v =
      append-nil s.queue.task_queue ∙ sym (add_outstanding-task_queue io a k s.queue)
  Step-order {s} (woken i p p' b e f w) v = append-nil s.queue.task_queue
  Step-order {s} (drained i p p' x e f w) v = append-nil s.queue.task_queue
  Step-order {s} (dequeued i c e) v =
      let part : weight (thread (suc c) running) < suc (total weight s.threads) =
        le-total weight s.threads i e in
      append-nil s.queue.task_queue ∙ pop_task-splits s.queue (omega (arith, v.balance, v.limit))

  Reach-order :
      PipeLaws io
      → {s t : System P} → (r : Reach io s t) → Inv io s
      → s.queue.task_queue ++ all_pushed r ≡ all_popped r ++ t.queue.task_queue
  Reach-order laws {s} here v = append-nil s.queue.task_queue
  Reach-order laws {s} (next {t} {u} r st) v =
      sym (append_assoc s.queue.task_queue (all_pushed r) (pushed st))
      ∙ ap (λ (ts : List GTaskSharedPtr). ts ++ pushed st) (Reach-order laws r v)
      ∙ append_assoc (all_popped r) t.queue.task_queue (pushed st)
      ∙ ap (λ (ts : List GTaskSharedPtr). all_popped r ++ ts)
          (Step-order st (Reach-Inv io laws r v))
      ∙ sym (append_assoc (all_popped r) (popped st) u.queue.task_queue)

  module _ (laws : PipeLaws io) (n : ℕ) (p : P) (empty : io.buffered p ≡ 0) {s : System P}
      (r : Reach io (start n p) s) where
    -- In every execution of n threads on a new queue with an empty pipe, in any interleaving, no task
    -- is lost, made up, taken out twice or overtaken: those taken out of the queue so far and then those in
    -- it are the ones put into it, in the same order.
    pub in_order : all_pushed r ≡ all_popped r ++ s.queue.task_queue
    unfolding start
    in_order = Reach-order laws r (start-Inv io n p empty)

    -- Where n threads on a new queue with an empty pipe have come to rest and no notification has
    -- been given up, every task has been taken out, in the order in which they were put in.
    pub all_done :
        left io s ≡ 0 → s.queue.max_outstanding_notifn ≡ max_notifn → all_popped r ≡ all_pushed r
    all_done idle kept =
        let v = Reach-Inv io laws r (start-Inv io n p empty) in
        let unread_bytes : unread io s.queue.pipefds ≡ io.buffered v.pipe =
          ap (unread io) v.connected in
        let empty_queue : s.queue.task_queue ≡ [] =
          length-zero s.queue.task_queue
            (omega (arith, v.balance, idle-weight s.threads (omega (arith, idle)))) in
        sym (
          in_order
          ∙ ap (λ (ts : List GTaskSharedPtr). all_popped r ++ ts) empty_queue
          ∙ append-nil (all_popped r))
