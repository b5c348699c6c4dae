-- ===== src/Deferred/RoundTrip.antt =====
-- A deferred task from the executor that runs it back to the one that sent it
-- (gexecutor/deferred_task.h with taskq_cb of gexecutor/gasync_executor.cc).
use Prim.Native.String.{String}
use gexecutor.Prelude.{
  ℕ, ◌+◌, ◌^◌, ◌<◌, ◌≡◌, ◌≢◌, refl, sym, ap, ◌∙◌, neg_ℕ, Option, none, some, List, [], ◌∷◌, ◌++◌,
  done, arith,
}
use gexecutor.Pipe.{Pipe, PipeLaws}
use gexecutor.Task.{gtask}
use gexecutor.TaskQ.{GTaskQ, GTaskSharedPtr, pop_task, enqueue_gtask}
use gexecutor.TaskQ.Notify.{IsRecoverable}
use gexecutor.TaskQ.Enqueue.{IsReady, enqueue_gtask_lem}
use gexecutor.Store.{Store, update, enqueue_on}
use gexecutor.Reactor.{Reactor, started, run_tasks}
use gexecutor.Reactor.Dispatch.{taken, run_tasks-head}
use gexecutor.Deferred.{
  Functions, Callable, CallResult, returned, thrown, call, DeferredTask, new_void, bind, no_arg,
  result, error, deferred, deferred_void, errback_of, task_fn_of, response, respond, execute,
}

module _ {V W P : Type 0} (io : Pipe P) (functions : Functions V W) (address : String) where
  abbrev pub call_of : Store (DeferredTask V) P W → ℕ → CallResult V × W
  call_of s t = call functions (task_fn_of (s.tasks t).body) s.world

  -- The store after task t has sent f to the queue q, which has become q'.
  abbrev pub sent :
      Store (DeferredTask V) P W → ℕ → Callable V → ℕ → GTaskQ P → Store (DeferredTask V) P W
  sent s t f q q' = record s {
    tasks = update s.tasks s.next_task (gtask (s.tasks t).exec_task_q address (new_void f));
    next_task = s.next_task + 1;
    queues = update s.queues q q';
    world = (call_of s t).1;
  }

  -- A response task has no callbacks of its own: however its function ends, nothing is sent.
  pub silent :
      (r : CallResult V) (d : DeferredTask V) (f : Callable V)
      → d ≡ new_void f
      → response d r ≡ none
  silent (returned x) d f e = rw e
  silent (thrown x) d f e = rw e

  pub execute-silent :
      (s : Store (DeferredTask V) P W) (t : ℕ)
      → response (s.tasks t).body (call_of s t).0 ≡ none
      → execute io functions address t s ≡ done (record s { world = (call_of s t).1 })
  unfolding execute
  execute-silent s t e = rw (e, respond)

  pub execute-sends :
      (s : Store (DeferredTask V) P W) (t q : ℕ) (f : Callable V) (q' : GTaskQ P)
      → response (s.tasks t).body (call_of s t).0 ≡ some f
      → (s.tasks t).resp_task_q ≡ some q
      → enqueue_gtask io (some s.next_task) (s.queues q) ≡ done q'
      → execute io functions address t s ≡ done (sent s t f q q')
  unfolding execute enqueue_on
  execute-sends s t q f q' e g h = rw (e, respond) (rw (g, enqueue_on) (rw h))

  -- The task t is next on the queue of executor a and has not run before, and its responses go to
  -- the queue of executor b, which is ready, empty and another one.
  pub record Posted (a b : Reactor) (s : Store (DeferredTask V) P W) (t : ℕ)
      (rest : List GTaskSharedPtr) : Type 0 where
    pub pipe : P
    pub head : (s.queues a.taskq).task_queue ≡ some t ∷ rest
    pub fresh : (s.tasks t).exec_task_q ≡ none
    pub replies : (s.tasks t).resp_task_q ≡ some b.taskq
    pub allocated : t < s.next_task
    pub apart : a.taskq ≢ b.taskq
    pub ready : IsReady (s.queues b.taskq) pipe
    pub idle : (s.queues b.taskq).task_queue ≡ []
    pub room : (s.queues b.taskq).max_outstanding_notifn + 1 < 2 ^ 64

  module _ (laws : PipeLaws io) (recoverable : IsRecoverable io) (a b : Reactor)
      (s : Store (DeferredTask V) P W) (t : ℕ) (rest : List GTaskSharedPtr)
      (v : Posted a b s t rest) where
    -- The store in which t runs.
    abbrev there : Store (DeferredTask V) P W
    there = started io (execute io functions address) a t (taken a.taskq t s)

    outward :
        (f : Callable V)
        → response (s.tasks t).body (call_of s t).0 ≡ some f
        → (s' : Store (DeferredTask V) P W) × (run_tasks io (execute io functions address) a 1 s
            ≡ done s')
          × (s'.world ≡ (call_of s t).1)
          × ((s'.queues a.taskq).task_queue ≡ rest)
          × ((s'.queues b.taskq).task_queue ≡ some s.next_task ∷ [])
          × (s'.tasks s.next_task ≡ gtask (some a.taskq) address (new_void f))
          × ((q : ℕ) → a.taskq ≢ q → b.taskq ≢ q → s'.queues q ≡ s.queues q)
    unfolding run_tasks pop_task
    outward f e =
        let (q', p', r, d) =
          enqueue_gtask_lem io laws recoverable (some s.next_task) (s.queues b.taskq) v.pipe v.ready
            v.room in
        let same : there.tasks t
            ≡ record (s.tasks t) { exec_task_q = some a.taskq; executor = some a.self } =
          ground arith in
        let own : there.queues b.taskq ≡ s.queues b.taskq = ground arith in
        let here : execute io functions address t there ≡ done (sent there t f b.taskq q') =
          execute-sends there t b.taskq f q' (rw same e) (rw same v.replies) (rw own r) in
        let queued : q'.task_queue ≡ some s.next_task ∷ [] =
          d.appended ∙ ap (λ (xs : List GTaskSharedPtr). xs ++ some s.next_task ∷ []) v.idle in
        (
          sent there t f b.taskq q',
          rw (run_tasks-head io (execute io functions address) a 0 t rest s v.head v.fresh)
              (rw here),
          rw same refl,
          ground arith,
          ground arith,
          ground (arith, same),
          λ q g h. ground arith,
        )

  -- A task without callbacks, next on the queue of b: its function is called, and that is all.
  homeward :
      (b : Reactor) (s : Store (DeferredTask V) P W) (t : ℕ) (u : Option ℕ) (f : Callable V)
      → (s.queues b.taskq).task_queue ≡ some t ∷ []
      → s.tasks t ≡ gtask u address (new_void f)
      → (s' : Store (DeferredTask V) P W) × (run_tasks io (execute io functions address) b 1 s
          ≡ done s')
        × (s'.world ≡ (call functions f s.world).1)
        × ((s'.queues b.taskq).task_queue ≡ [])
        × ((q : ℕ) → b.taskq ≢ q → s'.queues q ≡ s.queues q)
  unfolding run_tasks pop_task
  homeward b s t u f head e =
      let there = started io (execute io functions address) b t (taken b.taskq t s) in
      let same : (there.tasks t).body ≡ new_void f = ground arith in
      let here : execute io functions address t there
          ≡ done (record there { world = (call_of there t).1 }) =
        execute-silent there t (silent (call_of there t).0 (there.tasks t).body f same) in
      (
        record there { world = (call_of there t).1 },
        rw (run_tasks-head io (execute io functions address) b 0 t [] s head (ground arith))
            (rw here),
        rw same refl,
        ground arith,
        λ q h. ground arith,
      )

  module _ (laws : PipeLaws io) (recoverable : IsRecoverable io) (a b : Reactor)
      (s : Store (DeferredTask V) P W) (t : ℕ) (rest : List GTaskSharedPtr)
      (v : Posted a b s t rest) where
    -- Executor a runs the task, then executor b the response: the application is called twice, the
    -- second time with f. The queue of a is left with the tasks behind the task, that of b is empty,
    -- and every other queue is what it was.
    abbrev pub Answered : Callable V → Type 0
    Answered f =
        (s1 s2 : Store (DeferredTask V) P W) × (run_tasks io (execute io functions address) a 1 s
          ≡ done s1)
        × (s1.world ≡ (call_of s t).1)
        × (run_tasks io (execute io functions address) b 1 s1 ≡ done s2)
        × (s2.world ≡ (call functions f s1.world).1)
        × ((s2.queues a.taskq).task_queue ≡ rest)
        × ((s2.queues b.taskq).task_queue ≡ [])
        × ((q : ℕ) → a.taskq ≢ q → b.taskq ≢ q → s2.queues q ≡ s.queues q)

    round_trip : (f : Callable V) → response (s.tasks t).body (call_of s t).0 ≡ some f → Answered f
    round_trip f e =
        let (s1, run1, w1, left, queued, made, others) =
          outward laws recoverable a b s t rest v f e in
        let (s2, run2, w2, drained, same) =
          homeward b s1 s.next_task (some a.taskq) f queued made in
        let kept : s2.queues a.taskq ≡ s1.queues a.taskq = same a.taskq (λ h. v.apart (sym h)) in
        (
          s1,
          s2,
          run1,
          w1,
          run2,
          w2,
          ap (λ (q : GTaskQ P). q.task_queue) kept ∙ left,
          drained,
          λ q g h. same q h ∙ others q g h,
        )

    -- A DeferredTask<Rtype> with a callback, that has not run before and is at the head of the queue of
    -- executor a, and whose responses go to the queue of executor b, which is ready, empty and another
    -- one than the queue of a. Its function returns x: a calls the function, then b
    -- calls the callback with x, and no other function is called, however the callback ends: also
    -- where it throws, no task is sent and the errback is not called. The queue of a is left with the
    -- tasks behind the task, that of b is empty, and every other queue is what it was.
    pub result_round_trip :
        (task_fn callback : ℕ) (errback : Option ℕ) (x : V) (w : W)
        → (s.tasks t).body ≡ deferred task_fn (some callback) errback
        → functions task_fn no_arg s.world ≡ (returned x, w)
        → Answered (bind callback (result x))
    result_round_trip task_fn callback errback x w e h = round_trip _ (answer (s.tasks t).body e)
      where
        answer :
            (d : DeferredTask V)
            → d ≡ deferred task_fn (some callback) errback
            → response d (call functions (task_fn_of d) s.world).0 ≡ some (bind callback (result x))
        answer d e = rw (e, h)

    -- A deferred task of either class with an errback, that has not run before and is at the head of the queue of
    -- executor a, and whose responses go to the queue of executor b, which is ready, empty and another
    -- one than the queue of a. Its function throws: a calls the function, then b calls
    -- the errback with -errno, and no other function is called. The queue of a is left with the tasks
    -- behind the task, that of b is empty, and every other queue is what it was.
    pub error_round_trip :
        (errback errno : ℕ) (w : W)
        → errback_of (s.tasks t).body ≡ some errback
        → call_of s t ≡ (thrown errno, w)
        → Answered (bind errback (error (neg_ℕ errno)))
    error_round_trip errback errno w e h =
        round_trip (bind errback (error (neg_ℕ errno))) (rw (h, e))

    -- A DeferredTask<void> with a callback, that has not run before and is at the head of the queue of
    -- executor a, and whose responses go to the queue of executor b, which is ready, empty and another
    -- one than the queue of a. Its function returns: a calls the function,
    -- then b calls the callback with no argument added, and no other function is called.
    void_round_trip :
        (task_fn callback : Callable V) (errback : Option ℕ) (x : V) (w : W)
        → (s.tasks t).body ≡ deferred_void task_fn (some callback) errback
        → call functions task_fn s.world ≡ (returned x, w)
        → Answered callback
    void_round_trip task_fn callback errback x w e h = round_trip _ (answer (s.tasks t).body e)
      where
        answer :
            (d : DeferredTask V)
            → d ≡ deferred_void task_fn (some callback) errback
            → response d (call functions (task_fn_of d) s.world).0 ≡ some callback
        answer d e = rw (e, h)
