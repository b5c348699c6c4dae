-- ===== src/Deferred/Steps.antt =====
-- taskq_cb (gexecutor/gasync_executor.cc) of an executor of deferred tasks (gexecutor/deferred_task.h),
-- as steps of its thread: a response that goes to the queue of the executor is a call of EnqueueGTask.
use Prim.Native.String.{String}
use gexecutor.Prelude.{
  ℕ, ◌<◌, ◌≡◌, refl, ap, Bool, Option, none, some, List, length, get_elem?, get_elem?-set_self,
  done, >>=-eq-done, ◌==◌, Bool-cases, arith, inl, inr,
}
use mathlib.Core.Path.{subst}
use gexecutor.Pipe.{Pipe}
use gexecutor.Task.{GTask, gtask}
use gexecutor.TaskQ.{GTaskQ, GTaskSharedPtr, enqueue_gtask}
use gexecutor.TaskQ.System.{Thread, thread, running, max_size, System, Reach, here}
use gexecutor.TaskQ.System.Alone.{at_thread}
use gexecutor.TaskQ.System.Sequential.{enqueue_gtask-Reach}
use gexecutor.Store.{Store, update, enqueue_on, new_task}
use gexecutor.Reactor.{Reactor, taskq_cb}
use gexecutor.Reactor.Steps.{Fits, seen, Executes, taskq_cb-Reach}
use gexecutor.Deferred.{
  Functions, Callable, DeferredTask, new_void, call, task_fn_of, response, respond, execute,
}

module _ {B P W : Type 0} (io : Pipe P) (q : ℕ) (ts : List Thread) (i : ℕ) {u : Thread}
    (there : get_elem? ts i ≡ some u) where
  abbrev pub seen_at : Store B P W → ℕ → System P
  seen_at s c = at_thread io ts i (s.queues q) (thread c running)

  -- A task that is sent, to this queue or another.
  pub enqueue_on-Reach :
      (target : Option ℕ) (task : GTaskSharedPtr) (c : ℕ) (s s' : Store B P W)
      → length (s.queues q).task_queue < max_size
      → enqueue_on io target task s ≡ done s'
      → Reach io (seen_at s c) (seen_at s' c)
  unfolding enqueue_on
  enqueue_on-Reach none task c s s' room e = cc e
  enqueue_on-Reach (some k) task c s s' room e =
      let (q', f, g) =
        >>=-eq-done (enqueue_gtask io task (s.queues k))
          (λ q'. done (record s { queues = update s.queues k q' })) e in
      let same : record s { queues = update s.queues k q' } ≡ s' = cc g in
      let sent : update s.queues k q' q ≡ s'.queues q = ap (λ (s : Store B P W). s.queues q) same in
      let to : GTaskQ P → System P = λ x. at_thread io ts i x (thread c running) in
      subst (λ (x : GTaskQ P). Reach io (seen_at s c) (to x)) sent
        (elim (Bool-cases (k == q)) [
          | inl y ↦
              let this : k ≡ q = ground (arith, y) in
              let now : q' ≡ update s.queues k q' q = rw y refl in
              subst (λ (x : GTaskQ P). Reach io (seen_at s c) (to x)) now
                (enqueue_gtask-Reach io (seen_at s c) i c task q'
                  (get_elem?-set_self ts i (thread c running) there) room
                  (subst (λ (k : ℕ). enqueue_gtask io task (s.queues k) ≡ done q') this f))
          | inr n ↦
              let now : s.queues q ≡ update s.queues k q' q = rw n refl in
              subst (λ (x : GTaskQ P). Reach io (seen_at s c) (to x)) now here
        ])

module _ {V P W : Type 0} (io : Pipe P) (functions : Functions V W) (address : String) (r : Reactor)
    (ts : List Thread) (i : ℕ) where
  respond-Reach :
      {u : Thread}
      → get_elem? ts i ≡ some u
      → (task : GTask (DeferredTask V)) (f : Option (Callable V)) (c : ℕ)
      → (s s' : Store (DeferredTask V) P W) → length (s.queues r.taskq).task_queue < max_size
      → respond io functions address task f s ≡ done s'
      → Reach io
          (seen io (execute io functions address) r ts i s c)
          (seen io (execute io functions address) r ts i s' c)
  unfolding respond
  respond-Reach there task none c s s' room e =
      let same : s ≡ s' = cc e in
      subst
        (λ (s' : Store (DeferredTask V) P W).
          Reach io (seen io (execute io functions address) r ts i s c)
            (seen io (execute io functions address) r ts i s' c))
        same here
  respond-Reach there task (some f) c s s' room e =
      enqueue_on-Reach io r.taskq ts i there task.resp_task_q (some s.next_task) c
        (new_task (gtask task.exec_task_q address (new_void f)) s) s' room e

  -- Execute of a deferred task.
  execute-Executes :
      {u : Thread} → get_elem? ts i ≡ some u → Executes io (execute io functions address) r ts i
  unfolding execute
  execute-Executes there t c s s' room e =
      let task = s.tasks t in
      let called = call functions (task_fn_of task.body) s.world in
      respond-Reach there task (response task.body called.0) c (record s { world = called.1 }) s'
        room e

  -- A call of taskq_cb that returns, of an executor that runs deferred tasks and with no step of
  -- another thread between its own, is an execution of steps of its thread: they start with the queue
  -- of the executor as the call finds it, not longer than it may be, and end with it as the call
  -- leaves it, and all threads are as they were. So it is where the tasks send their responses to the
  -- same queue.
  pub deferred_taskq_cb-Reach :
      get_elem? ts i ≡ some (thread 0 running)
      → (ev_read : Bool) (fuel : ℕ) (s s' : Store (DeferredTask V) P W) → Fits (s.queues r.taskq)
      → taskq_cb io (execute io functions address) r ev_read fuel s ≡ some (done s')
      → Reach io
          (record { queue = s.queues r.taskq; threads = ts })
          (record { queue = s'.queues r.taskq; threads = ts })
  deferred_taskq_cb-Reach there =
      taskq_cb-Reach io (execute io functions address) r ts i (execute-Executes there) there
