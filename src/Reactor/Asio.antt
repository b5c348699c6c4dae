-- ===== src/Reactor/Asio.antt =====
-- taskq_read_handler of gexecutor/asio/gasync_executor_asio.cc: what an executor on boost::asio does
-- when its pipe has been read. The read itself is boost's, so its outcome is an argument.
use gexecutor.Prelude.{
  ℕ, zero, suc, Bool, true, false, ◌≡◌, refl, none, some, [], Outcome, done, ◌>>=◌, >>=-eq-done,
  Option, ◌+◌, ◌-◌, ◌<◌, ◌≤◌, ◌==◌, if◌then◌else◌, arith, ◌∙◌,
}
use gexecutor.Store.{Store, update, dequeue_gtask}
use gexecutor.TaskQ.{pop_task}
use gexecutor.Reactor.{Reactor, started, run_task, run_tasks}
use gexecutor.Pipe.{Pipe}

-- A notification of no bytes counts as one.
abbrev pub num_bytes_of : (bytes_transferred : ℕ) → ℕ
num_bytes_of bytes_transferred = if bytes_transferred == 0 then 1 else bytes_transferred

module _ {B P W : Type 0} (io : Pipe P) (execute : ℕ → Store B P W → Outcome (Store B P W))
    (r : Reactor) where
  unfoldable pub run_if_any : Option ℕ → Store B P W → Outcome (Store B P W)
  run_if_any none s = done s
  run_if_any (some t) s = execute t (started io execute r t s)

  -- The `for` over the bytes transferred.
  unfoldable pub handle_tasks : (num_bytes : ℕ) → Store B P W → Outcome (Store B P W)
  unfolding run_if_any dequeue_gtask
  handle_tasks zero s = done s
  handle_tasks (suc num_bytes) s =
      dequeue_gtask r.taskq s >>= (λ d. run_if_any d.0 d.1 >>= handle_tasks num_bytes)

  -- `ec` says whether the read failed.
  unfoldable pub taskq_read_handler :
      (ec : Bool) (bytes_transferred : ℕ) → Store B P W → Outcome (Store B P W)
  unfolding handle_tasks
  taskq_read_handler true bytes_transferred s = done s
  taskq_read_handler false bytes_transferred s = handle_tasks (num_bytes_of bytes_transferred) s

  run_task-some :
      (o : Option ℕ) (s s' : Store B P W)
      → run_task io execute r o s ≡ done s'
      → run_if_any o s ≡ done s'
  unfolding run_task run_if_any
  run_task-some none s s' e = cc
  run_task-some (some t) s s' e = e

  handle_tasks-run_tasks :
      (n : ℕ) (s s' : Store B P W)
      → run_tasks io execute r n s ≡ done s'
      → handle_tasks n s ≡ done s'
  unfolding run_tasks handle_tasks
  handle_tasks-run_tasks zero s s' e = e
  handle_tasks-run_tasks (suc n) s s' e =
      let (d, taken, rest) = >>=-eq-done (dequeue_gtask r.taskq s) _ e in
      let (s1, ran, left) = >>=-eq-done (run_task io execute r d.0 d.1) _ rest in
      rw (taken, run_task-some d.0 d.1 s1 ran) (handle_tasks-run_tasks n s1 s' left)

  -- Dequeues from an empty queue leave the tasks, the application and the empty queue as they are.
  record Skipped (s s' : Store B P W) : Type 0 where
    tasks : s'.tasks ≡ s.tasks
    world : s'.world ≡ s.world
    empty : (s'.queues r.taskq).task_queue ≡ []

  handle_task-idle :
      (s : Store B P W)
      → (s.queues r.taskq).task_queue ≡ []
      → (s' : Store B P W) × (dequeue_gtask r.taskq s ≡ done (none, s')) × Skipped s s'
  unfolding dequeue_gtask pop_task
  handle_task-idle s e = (
    record s { queues = update s.queues r.taskq (pop_task (s.queues r.taskq)).1 },
    ground (arith, e),
    record { tasks = refl; world = refl; empty = ground (arith, e) },
  )

  handle_tasks-idle :
      (n : ℕ) (s : Store B P W)
      → (s.queues r.taskq).task_queue ≡ []
      → (s' : Store B P W) × (handle_tasks n s ≡ done s') × Skipped s s'
  unfolding handle_tasks run_if_any
  handle_tasks-idle zero s e = (s, refl, record { tasks = refl; world = refl; empty = e })
  handle_tasks-idle (suc n) s e =
      let (s1, skipped, v) = handle_task-idle s e in
      let (s2, left, w) = handle_tasks-idle n s1 v.empty in
      (
        s2,
        rw skipped left,
        record { tasks = w.tasks ∙ v.tasks; world = w.world ∙ v.world; empty = w.empty },
      )

  handle_tasks-surplus :
      (n k m : ℕ) (s s' : Store B P W)
      → m ≡ n + k
      → run_tasks io execute r n s ≡ done s'
      → (s'.queues r.taskq).task_queue ≡ []
      → (t : Store B P W) × (handle_tasks m s ≡ done t) × Skipped s' t
  unfolding run_tasks handle_tasks
  handle_tasks-surplus zero k m s s' h e empty =
      let same : s ≡ s' = cc e in rw same (handle_tasks-idle m s' empty)
  handle_tasks-surplus (suc n) k zero s s' h e empty = absurd (omega (arith, h))
  handle_tasks-surplus (suc n) k (suc m) s s' h e empty =
      let (d, taken, rest) = >>=-eq-done (dequeue_gtask r.taskq s) _ e in
      let (s1, ran, left) = >>=-eq-done (run_task io execute r d.0 d.1) _ rest in
      let (t, more, v) = handle_tasks-surplus n k m s1 s' (omega (arith, h)) left empty in
      (t, rw (taken, run_task-some d.0 d.1 s1 ran) more, v)

  -- Where the loop of taskq_cb returns for some bytes, the handler returns for as many, and with the
  -- same tasks, queues and state of the application.
  pub taskq_read_handler-run_tasks :
      (n : ℕ) (s s' : Store B P W)
      → 0 < n
      → run_tasks io execute r n s ≡ done s'
      → taskq_read_handler false n s ≡ done s'
  unfolding taskq_read_handler
  taskq_read_handler-run_tasks n s s' h e =
      let counted : num_bytes_of n ≡ n = ground arith in
      rw counted (handle_tasks-run_tasks n s s' e)

  -- Where the loop of taskq_cb returns for n bytes and leaves the queue empty, the handler returns for
  -- any number of bytes that is at least n, with the same tasks and the same state of the application,
  -- and the queue is empty: what is too much is passed over, and 0 bytes are 1.
  taskq_read_handler-surplus :
      (n m : ℕ) (s s' : Store B P W)
      → run_tasks io execute r n s ≡ done s'
      → (s'.queues r.taskq).task_queue ≡ []
      → n ≤ m
      → (t : Store B P W) × (taskq_read_handler false m s ≡ done t)
        × (t.tasks ≡ s'.tasks)
        × (t.world ≡ s'.world)
        × ((t.queues r.taskq).task_queue ≡ [])
  unfolding taskq_read_handler
  taskq_read_handler-surplus n m s s' e empty h =
      let (t, ran, v) =
        handle_tasks-surplus n (num_bytes_of m - n) (num_bytes_of m) s s' (ground (arith, h)) e
          empty in
      (t, ran, v.tasks, v.world, v.empty)
