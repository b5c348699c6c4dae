-- ===== src/Deferred/Silence.antt =====
-- A deferred task that sends no response (gexecutor/deferred_task.h with taskq_cb of
-- gexecutor/gasync_executor.cc).
use Prim.Native.String.{String}
use gexecutor.Prelude.{ℕ, ◌≡◌, ◌≢◌, refl, none, List, ◌∷◌, some, done, arith}
use gexecutor.Pipe.{Pipe}
use gexecutor.TaskQ.{GTaskSharedPtr, pop_task}
use gexecutor.Store.{Store}
use gexecutor.Reactor.{Reactor, started, run_tasks}
use gexecutor.Reactor.Dispatch.{taken, run_tasks-head}
use gexecutor.Deferred.{
  Functions, CallResult, returned, thrown, DeferredTask, deferred, deferred_void, response, execute,
}
use gexecutor.Deferred.RoundTrip.{call_of, execute-silent}

module _ {V : Type 0} where
  -- There is no callback for a function that returns, or no errback for one that throws.
  abbrev pub Lacks : DeferredTask V → CallResult V → Type 0
  Lacks (deferred_void task_fn callback errback) (returned x) = callback ≡ none
  Lacks (deferred_void task_fn callback errback) (thrown errno) = errback ≡ none
  Lacks (deferred task_fn callback errback) (returned x) = callback ≡ none
  Lacks (deferred task_fn callback errback) (thrown errno) = errback ≡ none

  Lacks-none : (d : DeferredTask V) (r : CallResult V) → Lacks d r → response d r ≡ none
  Lacks-none (deferred_void task_fn callback errback) (returned x) e = rw e refl
  Lacks-none (deferred_void task_fn callback errback) (thrown errno) e = rw e refl
  Lacks-none (deferred task_fn callback errback) (returned x) e = rw e refl
  Lacks-none (deferred task_fn callback errback) (thrown errno) e = rw e refl

module _ {V W P : Type 0} (io : Pipe P) (functions : Functions V W) (address : String) where
  -- A deferred task of either class that is next on the queue of executor a and has not run before,
  -- whose function returns where it has no callback, or throws where it has no errback: the function
  -- is called, no task is made, the queue of a is left with the tasks behind it, and no other queue
  -- changes. It needs no queue for responses.
  pub no_response :
      (a : Reactor) (s : Store (DeferredTask V) P W) (t : ℕ) (rest : List GTaskSharedPtr)
      → (s.queues a.taskq).task_queue ≡ some t ∷ rest
      → (s.tasks t).exec_task_q ≡ none
      → Lacks (s.tasks t).body (call_of io functions address s t).0
      → (s' : Store (DeferredTask V) P W) × (run_tasks io (execute io functions address) a 1 s
          ≡ done s')
        × (s'.world ≡ (call_of io functions address s t).1)
        × (s'.next_task ≡ s.next_task)
        × ((s'.queues a.taskq).task_queue ≡ rest)
        × ((q : ℕ) → a.taskq ≢ q → s'.queues q ≡ s.queues q)
  unfolding run_tasks pop_task
  no_response a s t rest head fresh lacks =
      let e = Lacks-none (s.tasks t).body (call_of io functions address s t).0 lacks in
      let there = started io (execute io functions address) a t (taken a.taskq t s) in
      let same : (there.tasks t).body ≡ (s.tasks t).body = ground arith in
      let called : call_of io functions address there t ≡ call_of io functions address s t =
        rw same refl in
      let here : execute io functions address t there
          ≡ done (record there { world = (call_of io functions address there t).1 }) =
        execute-silent io functions address there t (rw same e) in
      (
        record there { world = (call_of io functions address there t).1 },
        rw (run_tasks-head io (execute io functions address) a 0 t rest s head fresh) (rw here),
        rw called refl,
        refl,
        ground arith,
        λ q h. ground arith,
      )
