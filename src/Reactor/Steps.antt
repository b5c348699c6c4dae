-- ===== src/Reactor/Steps.antt =====
-- taskq_cb (gexecutor/gasync_executor.cc) as the steps that its thread takes when no other thread
-- comes between.
use gexecutor.Prelude.{
  ℕ, zero, suc, ◌<◌, ◌≤◌, length, ◌≡◌, refl, sym, ap, ◌∙◌, Bool, true, false, none, some, List, set,
  get_elem?, get_elem?-set_self, Outcome, done, aborted, undefined, ◌>>=◌, >>=-eq-done, ltb,
  Bool-cases, Option-cases, Outcome-cases, arith, inl, inr,
}
use mathlib.Core.Path.{subst}
use gexecutor.Pipe.{Pipe, Errno, IoResult-cases, bytes, failed}
use gexecutor.Task.{set_exec_task_q}
use gexecutor.TaskQ.{GTaskQ, GTaskSharedPtr, pop_task}
use gexecutor.TaskQ.System.{
  Thread, thread, running, System, Reach, here, next, max_size, with_pipe, woken, drained, dequeued,
}
use gexecutor.TaskQ.System.Alone.{Reach-append, Reach-fits, set-get_elem?, at_thread, goes_on}
use gexecutor.Store.{Store, update, dequeue_gtask}
use gexecutor.Reactor.{
  Reactor, started, run_task, run_tasks, after_read, read_loop, taskq_cb, msg_size,
}

update_self : {A : Type 0} (f : ℕ → A) (i : ℕ) (a : A) → update f i a i ≡ a
update_self f i a = ground arith

dequeue_gtask-queue :
    {B P W : Type 0} (q : ℕ) (s : Store B P W) (d : GTaskSharedPtr × Store B P W)
    → dequeue_gtask q s ≡ done d
    → (d.1.queues q ≡ (pop_task (s.queues q)).1) × (d.0 ≡ (pop_task (s.queues q)).0)
unfolding dequeue_gtask
dequeue_gtask-queue {B} {P} {W} q s d e =
    let popped = pop_task (s.queues q) in
    let s' : Store B P W = record s { queues = update s.queues q popped.1 } in
    elim (Option-cases popped.0) [
      | inl n ↦
          let same : (none, s') ≡ d = ground (arith, e, n) in
          (
            sym (ap (λ (d : GTaskSharedPtr × Store B P W). d.1.queues q) same)
                ∙ update_self s.queues q popped.1,
            sym (ap (λ (d : GTaskSharedPtr × Store B P W). d.0) same) ∙ sym n,
          )
      | inr (t, n) ↦
          let found : (set_exec_task_q q (s.tasks t)
                >>= (λ task. done (some t, record s' { tasks = update s.tasks t task })))
              ≡ done d =
            ground (arith, e, n) in
          let (task, _, f) =
            >>=-eq-done (set_exec_task_q q (s.tasks t))
              (λ task. done (some t, record s' { tasks = update s.tasks t task })) found in
          let same : (some t, record s' { tasks = update s.tasks t task }) ≡ d = cc f in
          (
            sym (ap (λ (d : GTaskSharedPtr × Store B P W). d.1.queues q) same)
                ∙ update_self s.queues q popped.1,
            sym (ap (λ (d : GTaskSharedPtr × Store B P W). d.0) same) ∙ sym n,
          )
    ]

abbrev pub Fits : {P : Type 0} → GTaskQ P → Type 0
Fits q = length q.task_queue ≤ max_size

-- A task that is taken out makes room for another.
pop_task-room :
    {P : Type 0} (q : GTaskQ P) (u : ℕ)
    → (pop_task q).0 ≡ some u
    → Fits q
    → length (pop_task q).1.task_queue < max_size
unfolding pop_task
pop_task-room q u e h = ground arith

pop_task-Fits : {P : Type 0} (q : GTaskQ P) → Fits q → Fits (pop_task q).1
unfolding pop_task
pop_task-Fits q h = ground arith

module _ {B P W : Type 0} (io : Pipe P) (execute : ℕ → Store B P W → Outcome (Store B P W))
    (r : Reactor) (ts : List Thread) (i : ℕ) where
  -- The queue of the executor, and the threads, of which this one is still to dequeue c times.
  abbrev pub seen : Store B P W → ℕ → System P
  seen s c = at_thread io ts i (s.queues r.taskq) (thread c running)

  -- Execute, where the queue has room for a task, is itself an execution of steps of its thread.
  abbrev pub Executes : Type 0
  Executes =
      (t c : ℕ) (s s' : Store B P W)
      → length (s.queues r.taskq).task_queue < max_size
      → execute t s ≡ done s'
      → Reach io (seen s c) (seen s' c)

  module _ (executes : Executes) {u : Thread} (there : get_elem? ts i ≡ some u) where
    stands : (c : ℕ) → get_elem? (set ts i (thread c running)) i ≡ some (thread c running)
    stands c = get_elem?-set_self ts i (thread c running) there

    run_task-Reach :
        (t : GTaskSharedPtr) (c : ℕ) (s s' : Store B P W)
        → ((u : ℕ) → t ≡ some u → length (s.queues r.taskq).task_queue < max_size)
        → run_task io execute r t s ≡ done s'
        → Reach io (seen s c) (seen s' c)
    unfolding run_task
    run_task-Reach none c s s' room e = cc e
    run_task-Reach (some t) c s s' room e =
        executes t c (started io execute r t s) s' (room t refl) e

    run_tasks-Reach :
        (n : ℕ) (s s' : Store B P W)
        → Fits (s.queues r.taskq)
        → run_tasks io execute r n s ≡ done s'
        → Reach io (seen s n) (seen s' 0)
    unfolding run_tasks
    run_tasks-Reach zero s s' h e =
        let same : s ≡ s' = cc e in
        subst (λ (s' : Store B P W). Reach io (seen s 0) (seen s' 0)) same here
    run_tasks-Reach (suc n) s s' h e =
        let q = s.queues r.taskq in
        let (d, f, g) =
          >>=-eq-done (dequeue_gtask r.taskq s)
            (λ d. run_task io execute r d.0 d.1 >>= run_tasks io execute r n) e in
        let (s1, f1, g1) =
          >>=-eq-done (run_task io execute r d.0 d.1) (run_tasks io execute r n) g in
        let (same, head) = dequeue_gtask-queue r.taskq s d f in
        let shorter : length (d.1.queues r.taskq).task_queue ≡ length (pop_task q).1.task_queue =
          ap (λ (q : GTaskQ P). length q.task_queue) same in
        let first : Reach io (seen d.1 n) (seen s1 n) =
          run_task-Reach d.0 n d.1 s1
            (λ u found. omega (arith, shorter, pop_task-room q u (sym head ∙ found) h)) f1 in
        let rest : Reach io (seen s1 n) (seen s' 0) =
          run_tasks-Reach n s1 s' (Reach-fits io first (omega (arith, shorter, pop_task-Fits q h)))
            g1 in
        goes_on io ts i q (thread (suc n) running) (pop_task q).1 (thread n running)
          (dequeued i n (stands (suc n)))
          (subst (λ (q : GTaskQ P). Reach io (at_thread io ts i q (thread n running)) (seen s' 0))
            same (Reach-append io first rest))

    -- A read that returns bytes, and the dequeues for them.
    turn-Reach :
        (p p' : P) (b : ℕ) (s s' : Store B P W)
        → (s.queues r.taskq).pipefds ≡ some p
        → io.read p msg_size ≡ (bytes b, p')
        → Fits (s.queues r.taskq)
        → run_tasks io execute r b (after_read io execute r s p') ≡ done s'
        → Reach io (seen s 0) (seen s' 0)
    turn-Reach p p' b s s' d w h e =
        let s1 = after_read io execute r s p' in
        let same = update_self s.queues r.taskq (with_pipe io (s.queues r.taskq) p') in
        goes_on io ts i (s.queues r.taskq) (thread 0 running) (with_pipe io (s.queues r.taskq) p')
          (thread b running) (woken i p p' b (stands 0) d w)
          (subst (λ (q : GTaskQ P). Reach io (at_thread io ts i q (thread b running)) (seen s' 0))
            same
            (run_tasks-Reach b s1 s'
              (omega (arith, h, ap (λ (q : GTaskQ P). length q.task_queue) same)) e))

    -- A read that fails ends the loop.
    fails-Reach :
        (p p' : P) (x : Errno) (s s' : Store B P W)
        → (s.queues r.taskq).pipefds ≡ some p
        → io.read p msg_size ≡ (failed x, p')
        → after_read io execute r s p' ≡ s'
        → Reach io (seen s 0) (seen s' 0)
    fails-Reach p p' x s s' d w e =
        subst (λ (q : GTaskQ P). Reach io (seen s 0) (at_thread io ts i q (thread 0 running)))
          (sym (update_self s.queues r.taskq (with_pipe io (s.queues r.taskq) p'))
            ∙ ap (λ (s : Store B P W). s.queues r.taskq) e)
          (next here (drained i p p' x (stands 0) d w))

    read_loop-Reach :
        (fuel : ℕ) (s s' : Store B P W)
        → Fits (s.queues r.taskq)
        → read_loop io execute r fuel s ≡ some (done s')
        → Reach io (seen s 0) (seen s' 0)
    unfolding read_loop
    read_loop-Reach zero s s' h e = cc e
    read_loop-Reach (suc fuel) s s' h e = elim (Option-cases (s.queues r.taskq).pipefds) [
      | inl d ↦ let bad : some undefined ≡ some (done s') = ground (arith, e, d) in cc bad
      | inr (p, d) ↦ elim (IoResult-cases (io.read p msg_size)) [
        | inr (x, p', w) ↦ fails-Reach p p' x s s' d w (ground (arith, e, d, w))
        | inl (b, p', w) ↦
            let s1 = after_read io execute r s p' in
            elim (Outcome-cases (run_tasks io execute r b s1)) [
              | inl (s2, f) ↦ elim (Bool-cases (ltb 0 b)) [
                | inl y ↦
                    let turn : Reach io (seen s 0) (seen s2 0) = turn-Reach p p' b s s2 d w h f in
                    Reach-append io turn (
                      read_loop-Reach fuel s2 s' (Reach-fits io turn h)
                        (ground (arith, e, d, w, f, y)))
                | inr y ↦
                    let same : s2 ≡ s' = ground (arith, e, d, w, f, y) in
                    turn-Reach p p' b s s' d w h (f ∙ ap done same)
              ]
              | inr (inl f) ↦
                  let bad : some aborted ≡ some (done s') = ground (arith, e, d, w, f) in cc bad
              | inr (inr f) ↦
                  let bad : some undefined ≡ some (done s') = ground (arith, e, d, w, f) in cc bad
            ]
      ]
    ]

-- A call of taskq_cb that returns, if each Execute that returns is an execution of steps of its thread.
pub taskq_cb-Reach :
    {B P W : Type 0} (io : Pipe P) (execute : ℕ → Store B P W → Outcome (Store B P W)) (r : Reactor)
    (ts : List Thread) (i : ℕ)
    → Executes io execute r ts i
    → get_elem? ts i ≡ some (thread 0 running)
    → (ev_read : Bool) (fuel : ℕ) (s s' : Store B P W) → Fits (s.queues r.taskq)
    → taskq_cb io execute r ev_read fuel s ≡ some (done s')
    → Reach io
        (record { queue = s.queues r.taskq; threads = ts })
        (record { queue = s'.queues r.taskq; threads = ts })
unfolding taskq_cb
taskq_cb-Reach {B} {P} {W} io execute r ts i executes there false fuel s s' h e =
    let same : s ≡ s' = cc e in
    subst
      (λ (s' : Store B P W).
        Reach io (record { queue = s.queues r.taskq; threads = ts })
          (record { queue = s'.queues r.taskq; threads = ts }))
      same here
taskq_cb-Reach io execute r ts i executes there true fuel s s' h e =
    subst
      (λ (us : List Thread).
        Reach io (record { queue = s.queues r.taskq; threads = us })
          (record { queue = s'.queues r.taskq; threads = us }))
      (set-get_elem? ts i (thread 0 running) there)
      (read_loop-Reach io execute r ts i executes there fuel s s' h e)
