-- ===== src/Store.antt =====
-- The objects that threads share: the tasks and the queues, reached through references, and the
-- state of the application, which the functions of its tasks change. Here are the operations of
-- GTaskQ (gexecutor/gtaskq.cc) as the other parts call them, on a queue by its reference.
use gexecutor.Prelude.{
  ℕ, ◌+◌, Option, none, some, ◌==◌, if◌then◌else◌, Outcome, done, aborted, ◌>>=◌,
}
use gexecutor.Pipe.{Pipe}
use gexecutor.Task.{GTask, set_exec_task_q}
use gexecutor.TaskQ.{GTaskQ, GTaskSharedPtr, enqueue_gtask, pop_task}

pub record Store (B P W : Type 0) : Type 0 where
  pub tasks : ℕ → GTask B
  pub next_task : ℕ
  pub queues : ℕ → GTaskQ P
  pub world : W

abbrev pub update {ℓ} : {A : Type ℓ} → (ℕ → A) → ℕ → A → ℕ → A
update f i a j = if i == j then a else f j

module _ {B P W : Type 0} where
  -- `new`: the next reference is the new task.
  abbrev pub new_task : GTask B → Store B P W → Store B P W
  new_task task s = record s {
    tasks = update s.tasks s.next_task task;
    next_task = s.next_task + 1;
  }

  module _ (io : Pipe P) where
    -- `q->EnqueueGTask(task)`, with the assertion of boost::shared_ptr that q is not NULL.
    unfoldable pub enqueue_on : Option ℕ → GTaskSharedPtr → Store B P W → Outcome (Store B P W)
    enqueue_on none task s = aborted
    enqueue_on (some q) task s =
        enqueue_gtask io task (s.queues q) >>= λ r. done (record s { queues = update s.queues q r })

  -- DequeueGTask: the critical section, then the task learns the queue that it runs from.
  unfoldable pub dequeue_gtask : ℕ → Store B P W → Outcome (GTaskSharedPtr × Store B P W)
  unfolding pop_task set_exec_task_q
  dequeue_gtask q s =
      let popped = pop_task (s.queues q) in
      let s' = record s { queues = update s.queues q popped.1 } in
      elim popped.0 [
        | none ↦ done (none, s')
        | some t ↦
            set_exec_task_q q (s.tasks t)
            >>= (λ task. done (some t, record s' { tasks = update s.tasks t task }))
      ]
