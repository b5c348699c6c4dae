-- ===== src/AsioExecutor/Idle.antt =====
-- An executor on boost::asio that has had its read: Initialize of
-- gexecutor/asio/gasync_executor_asio.cc starts one, and taskq_read_handler starts no other.
use gexecutor.Prelude.{
  ℕ, ◌+◌, ◌≤◌, ◌<◌, ◌≡◌, refl, Bool, true, false, Option, some, List, [], ◌∷◌, ◌++◌, map, Outcome,
  done, ◌>>=◌, >>=-eq-done, arith, sym, ap, ◌∙◌, inl, inr, Bool-cases, ◌==◌,
}
use mathlib.Core.List.{append-nil, append_assoc, map-append}
use gexecutor.Pipe.{Pipe, bytes}
use gexecutor.Task.{GTask}
use gexecutor.TaskQ
use gexecutor.TaskQ.{GTaskQ, GTaskSharedPtr, enqueue_gtask}
use gexecutor.Store.{Store, new_task, enqueue_on}
use gexecutor.Reactor.{Reactor, after_read}
use gexecutor.AsioExecutor.{
  AsioExecutor, IoService, DescriptorCall, assign, close, async_read_some, initialize,
  asio_executor,
}
use gexecutor.TaskQ.Enqueue.{enqueue_gtask-appends}
use gexecutor.Reactor.Asio.{taskq_read_handler}

-- taskq_msgs_.
abbrev pub msgs_size : ℕ
msgs_size = 8192

-- The reads that have been started.
abbrev pub started_reads : List DescriptorCall → ℕ
started_reads [] = 0
started_reads (assign d ∷ cs) = started_reads cs
started_reads (close d ∷ cs) = started_reads cs
started_reads (async_read_some ∷ cs) = started_reads cs + 1

-- `handled` counts the calls of taskq_read_handler.
pub record Loop (B P W : Type 0) : Type 0 where
  pub executor : AsioExecutor
  pub store : Store B P W
  pub handled : ℕ

module _ {B P W : Type 0} (io : Pipe P) (execute : ℕ → Store B P W → Outcome (Store B P W))
    (self : ℕ) where
  abbrev pub reactor : AsioExecutor → Reactor
  reactor x = record { self = self; taskq = x.p_taskq }

  -- taskq_read_handler as a method of its executor: it does not touch the descriptors.
  unfoldable pub on_read :
      (ec : Bool) (bytes_transferred : ℕ)
      → AsioExecutor
      → Store B P W
      → Outcome (AsioExecutor × Store B P W)
  on_read ec bytes_transferred x s =
      taskq_read_handler io execute (reactor x) ec bytes_transferred s >>= (λ s'. done (x, s'))

  -- A thread makes a task and puts it on a queue; or boost::asio calls the handler, with what has been
  -- read or with an error, which it does once for each read that has been started.
  pub data Step (l : Loop B P W) : Loop B P W → Type 0 where
    sent :
        (task : GTask B) (q : ℕ) (s : Store B P W)
        → enqueue_on io (some q) (some l.store.next_task) (new_task task l.store) ≡ done s
        → Step l (record { executor = l.executor; store = s; handled = l.handled })
    completed :
        (p p' : P) (n : ℕ) (x : AsioExecutor) (s : Store B P W)
        → l.handled < started_reads l.executor.calls
        → (l.store.queues l.executor.p_taskq).pipefds ≡ some p
        → io.read p msgs_size ≡ (bytes n, p')
        → on_read false n l.executor (after_read io execute (reactor l.executor) l.store p')
          ≡ done (x, s)
        → Step l (record { executor = x; store = s; handled = l.handled + 1 })
    failed :
        (x : AsioExecutor) (s : Store B P W)
        → l.handled < started_reads l.executor.calls
        → on_read true 0 l.executor l.store ≡ done (x, s)
        → Step l (record { executor = x; store = s; handled = l.handled + 1 })

  pub data Reach (l : Loop B P W) : Loop B P W → Type 0 where
    here : Reach l l
    next : {k m : Loop B P W} → Reach l k → Step k m → Reach l m

  abbrev pub waiting : Loop B P W → List GTaskSharedPtr
  waiting l = (l.store.queues l.executor.p_taskq).task_queue

  -- Every read has been handled, and since l only tasks have come.
  record Since (l m : Loop B P W) : Type 0 where
    same : m.executor ≡ l.executor
    idle : started_reads m.executor.calls ≤ m.handled
    count : m.handled ≡ l.handled
    world : m.store.world ≡ l.store.world
    later : List ℕ
    queue : waiting m ≡ waiting l ++ map some later

  sent-queue :
      (q : ℕ) (t : ℕ) (j : ℕ) (s s' : Store B P W)
      → enqueue_on io (some q) (some t) s ≡ done s'
      → (later : List ℕ) × ((s'.queues j).task_queue ≡ (s.queues j).task_queue ++ map some later)
        × (s'.world ≡ s.world)
  unfolding enqueue_on
  sent-queue q t j s s' e =
      let (q', put, rest) = >>=-eq-done (enqueue_gtask io (some t) (s.queues q)) _ e in
      let appended = enqueue_gtask-appends io (some t) (s.queues q) q' put in
      elim (Bool-cases (q == j)) [
        | inl same ↦ (t ∷ [], ground (arith, appended), ground arith)
        | inr other ↦ ([], rw (append-nil (s.queues j).task_queue) (ground arith), ground arith)
      ]

  Step-Since : {l k m : Loop B P W} → Since l k → Step k m → Since l m
  Step-Since {l} {k} v (sent task q s e) =
      let (ts, queue, world) =
        sent-queue q k.store.next_task k.executor.p_taskq (new_task task k.store) s e in
      record {
        same = v.same;
        idle = v.idle;
        count = v.count;
        world = world ∙ v.world;
        later = v.later ++ ts;
        queue =
            queue
            ∙ ap (λ (xs : List GTaskSharedPtr). xs ++ map some ts) v.queue
            ∙ append_assoc (waiting l) (map some v.later) (map some ts)
            ∙ ap (λ (xs : List GTaskSharedPtr). waiting l ++ xs) (sym (map-append some v.later ts));
      }
  Step-Since v (completed p p' n x s more c read e) = absurd (omega (arith, v.idle, more))
  Step-Since v (failed x s more e) = absurd (omega (arith, v.idle, more))

  Reach-Since : {l m : Loop B P W} → Since l l → Reach l m → Since l m
  Reach-Since v here = v
  Reach-Since v (next r e) = Step-Since (Reach-Since v r) e

  Step-reads :
      {k m : Loop B P W}
      → Step k m
      → started_reads m.executor.calls ≡ started_reads k.executor.calls
  unfolding on_read
  Step-reads (sent task q s e) = refl
  Step-reads {k} (completed p p' n x s more c read e) = ground (
    arith,
    >>=-eq-done
        (taskq_read_handler io execute (reactor k.executor) false n
          (after_read io execute (reactor k.executor) k.store p'))
        _ e,
  )
  Step-reads {k} (failed x s more e) =
      ground
        (arith, >>=-eq-done (taskq_read_handler io execute (reactor k.executor) true 0 k.store) _ e)

  Reach-reads :
      {l m : Loop B P W}
      → Reach l m
      → started_reads m.executor.calls ≡ started_reads l.executor.calls
  Reach-reads here = refl
  Reach-reads (next r e) = Step-reads e ∙ Reach-reads r

  -- From the first Initialize of an executor on: once its handler has been called, whatever tasks are
  -- then sent to whatever queues, no step runs a task. The handler is not called again, the state of the
  -- application stays, and the tasks of the queue stay in it, before those that are sent to it.
  pub idle_lem :
      (io_service : IoService) (taskq : ℕ) (pipe : Option P) (q q' : GTaskQ P) {l k m : Loop B P W}
      → initialize pipe (asio_executor io_service taskq) q ≡ done (l.executor, q')
      → Reach l k
      → 0 < k.handled
      → Reach k m
      → (later : List ℕ) × (waiting m ≡ waiting k ++ map some later)
        × (m.store.world ≡ k.store.world)
        × (m.handled ≡ k.handled)
  unfolding initialize asio_executor
  idle_lem io_service taskq pipe q q' {l} {k} begun before first later =
      let (_, _, e) = >>=-eq-done (TaskQ.initialize pipe q) _ begun in
      let one : started_reads l.executor.calls ≡ 1 = ground arith in
      let v =
        Reach-Since
          (record {
            same = refl;
            idle = omega (arith, Reach-reads before, one, first);
            count = refl;
            world = refl;
            later = [];
            queue = sym (append-nil (waiting k));
          })
          later in
      (v.later, v.queue, v.world, v.count)
