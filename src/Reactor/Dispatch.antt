-- ===== src/Reactor/Dispatch.antt =====
-- One turn of the loop of taskq_cb (gexecutor/gasync_executor.cc) with DequeueGTask.
use gexecutor.Prelude.{ℕ, suc, ◌≡◌, none, some, List, [], ◌∷◌, Outcome, done, aborted, ◌>>=◌, arith}
use gexecutor.Pipe.{Pipe}
use gexecutor.TaskQ.{GTaskSharedPtr, pop_task}
use gexecutor.Store.{Store, update, dequeue_gtask}
use gexecutor.Reactor.{Reactor, started, run_tasks}

module _ {B P W : Type 0} where
  abbrev pub taken : ℕ → ℕ → Store B P W → Store B P W
  taken q t s = record s {
    queues = update s.queues q (pop_task (s.queues q)).1;
    tasks = update s.tasks t (record (s.tasks t) { exec_task_q = some q });
  }

  dequeue_gtask-head :
      (q t : ℕ) (rest : List GTaskSharedPtr) (s : Store B P W)
      → (s.queues q).task_queue ≡ some t ∷ rest
      → (s.tasks t).exec_task_q ≡ none
      → dequeue_gtask q s ≡ done (some t, taken q t s)
  unfolding dequeue_gtask
  dequeue_gtask-head q t rest s e f = ground arith

module _ {B P W : Type 0} (io : Pipe P) (execute : ℕ → Store B P W → Outcome (Store B P W))
    (r : Reactor) where
  pub run_tasks-head :
      (n t : ℕ) (rest : List GTaskSharedPtr) (s : Store B P W)
      → (s.queues r.taskq).task_queue ≡ some t ∷ rest
      → (s.tasks t).exec_task_q ≡ none
      → run_tasks io execute r (suc n) s
        ≡ (execute t (started io execute r t (taken r.taskq t s)) >>= run_tasks io execute r n)
  unfolding run_tasks
  run_tasks-head n t rest s e f = rw (dequeue_gtask-head r.taskq t rest s e f)

  -- The loop stops the process where a task comes a second time, and where the queue is empty.
  pub run_tasks-again :
      (n t u : ℕ) (rest : List GTaskSharedPtr) (s : Store B P W)
      → (s.queues r.taskq).task_queue ≡ some t ∷ rest
      → (s.tasks t).exec_task_q ≡ some u
      → run_tasks io execute r (suc n) s ≡ aborted
  unfolding run_tasks
  run_tasks-again n t u rest s e f = ground arith

  pub run_tasks-empty :
      (n : ℕ) (s : Store B P W)
      → (s.queues r.taskq).task_queue ≡ []
      → run_tasks io execute r (suc n) s ≡ aborted
  unfolding run_tasks
  run_tasks-empty n s e = ground arith
