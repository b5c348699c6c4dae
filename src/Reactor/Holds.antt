-- ===== src/Reactor/Holds.antt =====
-- Queues of tasks that wait to run (gexecutor/gtaskq.cc with taskq_cb of
-- gexecutor/gasync_executor.cc): what a task that is posted and a task that is taken out do to them.
use gexecutor.Prelude.{
  ℕ, ◌+◌, ◌^◌, ◌≤◌, ◌<◌, ◌≡◌, ◌≢◌, refl, ap, ◌∙◌, none, some, List, [], ◌∷◌, ◌++◌, map, Outcome,
  done, ◌>>=◌, arith,
}
use mathlib.Core.List.{map-append}
use gexecutor.Pipe.{Pipe, PipeLaws}
use gexecutor.Task.{GTask}
use gexecutor.TaskQ.{GTaskQ, pop_task}
use gexecutor.TaskQ.Notify.{IsRecoverable}
use gexecutor.TaskQ.Enqueue.{IsReady, enqueue_gtask_lem}
use gexecutor.TaskQ.Trace.{pop_task_lem}
use gexecutor.Store.{Store, update, new_task, enqueue_on}
use gexecutor.Reactor.{started, run_tasks}
use gexecutor.Reactor.Dispatch.{taken, run_tasks-head}
use gexecutor.Reactor.Drain.{Absent}
use gexecutor.Reactor.Posted.{loop, posted}
use gexecutor.Reactor.Waiting.{
  Waiting, Waiting-update, Waiting-later, Waiting-append, Absent-new, weigh, weigh-update,
}

module _ {B P W : Type 0} where
  -- The queue q is ready and holds these tasks.
  pub record Holds (K : GTask B → Type 0) (q limit : ℕ) (ts : List ℕ) (s : Store B P W)
      : Type 0 where
    pub pipe : P
    pub ready : IsReady (s.queues q) pipe
    pub queued : (s.queues q).task_queue ≡ map some ts
    pub bounded : (s.queues q).max_outstanding_notifn ≤ limit
    pub tasks : Waiting K s.tasks s.next_task ts

  -- What the queue holds does not depend on the state of the application, nor on other tasks.
  pub Holds-change :
      {K : GTask B → Type 0} {q limit : ℕ} {ts : List ℕ} {s : Store B P W} (t : ℕ) (x : GTask B)
      (w : W)
      → Holds K q limit ts s
      → Absent t ts
      → Holds K q limit ts (record s { tasks = update s.tasks t x; world = w })
  Holds-change {K} {ts = ts} {s = s} t x w v a = record {
    pipe = v.pipe;
    ready = v.ready;
    queued = v.queued;
    bounded = v.bounded;
    tasks = Waiting-update K s.tasks s.next_task t x ts a v.tasks;
  }

  pub Holds-world :
      {K : GTask B → Type 0} {q limit : ℕ} {ts : List ℕ} {s : Store B P W} (w : W)
      → Holds K q limit ts s
      → Holds K q limit ts (record s { world = w })
  Holds-world w v = record {
    pipe = v.pipe;
    ready = v.ready;
    queued = v.queued;
    bounded = v.bounded;
    tasks = v.tasks;
  }

  pub Holds-weaken :
      {K : GTask B → Type 0} {q limit : ℕ} {ts : List ℕ} {s : Store B P W}
      → Holds K q limit ts s
      → Holds K q (limit + 1) ts s
  Holds-weaken v = record {
    pipe = v.pipe;
    ready = v.ready;
    queued = v.queued;
    bounded = omega (arith, v.bounded);
    tasks = v.tasks;
  }

  -- A task that is posted to another queue.
  pub Holds-posted :
      {K : GTask B → Type 0} {q limit : ℕ} {ts : List ℕ} {s : Store B P W} (k : ℕ) (q' : GTaskQ P)
      (task : GTask B)
      → k ≢ q
      → Holds K q limit ts s
      → Holds K q limit ts (posted k q' task s)
  Holds-posted {K} {q} {ts = ts} {s = s} k q' task other v =
      let same : update s.queues k q' q ≡ s.queues q = ground (arith, other) in
      record {
        pipe = v.pipe;
        ready = rw same v.ready;
        queued = rw same v.queued;
        bounded = rw same v.bounded;
        tasks = Waiting-later K (update s.tasks s.next_task task) s.next_task ts (
            Waiting-update K s.tasks s.next_task s.next_task task ts
              (Absent-new K s.tasks s.next_task ts v.tasks) v.tasks);
      }

  module _ (io : Pipe P) where
    -- A task that is posted to this one.
    pub Holds-posts :
        PipeLaws io
        → IsRecoverable io
        → {K : GTask B → Type 0} {q limit : ℕ} {ts : List ℕ} {s : Store B P W} (task : GTask B)
        → task.exec_task_q ≡ none
        → K task
        → limit + 1 < 2 ^ 64
        → Holds K q limit ts s
        → (q' : GTaskQ P) × (enqueue_on io (some q) (some s.next_task) (new_task task s)
            ≡ done (posted q q' task s))
          × Holds K q (limit + 1) (ts ++ s.next_task ∷ []) (posted q q' task s)
    unfolding enqueue_on
    Holds-posts laws recoverable {K} {q} {limit} {ts} {s} task fresh kind few v =
        let (q', p', sent, d) =
          enqueue_gtask_lem io laws recoverable (some s.next_task) (s.queues q) v.pipe v.ready
            (omega (arith, v.bounded, few)) in
        let same : update s.queues q q' q ≡ q' = ground arith in
        let own : update s.tasks s.next_task task s.next_task ≡ task = ground arith in
        (
          q',
          rw sent refl,
          record {
            pipe = p';
            ready = rw same d.ready;
            queued =
                rw same (d.appended ∙ rw (v.queued, map-append some ts (s.next_task ∷ [])) refl);
            bounded = rw same (omega (arith, d.limit_bounded, v.bounded));
            tasks =
                Waiting-append K (update s.tasks s.next_task task) s.next_task ts
                  (ap (λ (y : GTask B). y.exec_task_q) own ∙ fresh) (rw own kind)
                  (Waiting-update K s.tasks s.next_task s.next_task task ts
                    (Absent-new K s.tasks s.next_task ts v.tasks) v.tasks);
          },
        )

    module _ (execute : ℕ → Store B P W → Outcome (Store B P W)) (self q t : ℕ) where
      -- The store in which the first task runs.
      abbrev pub front : Store B P W → Store B P W
      front s = started io execute (loop self q) t (taken q t s)

      abbrev pub runs_as : GTask B → GTask B
      runs_as task = record task { exec_task_q = some q; executor = some self }

      pub front-task : (s : Store B P W) → (front s).tasks t ≡ runs_as (s.tasks t)
      front-task s = ground arith

      front-Waiting :
          (K : GTask B → Type 0) (s : Store B P W) (ts : List ℕ)
          → Absent t ts
          → Waiting K s.tasks s.next_task ts
          → Waiting K (front s).tasks s.next_task ts
      front-Waiting K s ts once v =
          Waiting-update K (taken q t s).tasks s.next_task t _ ts once
            (Waiting-update K s.tasks s.next_task t _ ts once v)

      pub weigh-front :
          (w : GTask B → ℕ) (s : Store B P W) (ts : List ℕ)
          → Absent t ts
          → weigh w (front s).tasks ts ≡ weigh w s.tasks ts
      weigh-front w s ts once =
          weigh-update w (taken q t s).tasks t _ ts once ∙ weigh-update w s.tasks t _ ts once

      -- One turn of the loop on a queue with a first task.
      pub Holds-turn :
          {K : GTask B → Type 0} {limit : ℕ} {ts : List ℕ} {s : Store B P W}
          → Holds K q limit (t ∷ ts) s
          → (run_tasks io execute (loop self q) 1 s
              ≡ (execute t (front s) >>= run_tasks io execute (loop self q) 0))
            × Holds K q limit ts (front s)
      Holds-turn {K} {limit} {ts} {s} v =
          let (below, fresh, kind, once, rest) = v.tasks in
          let (_, emptied, ready, same) =
            pop_task_lem (t ∷ ts) (s.queues q) v.pipe v.ready v.queued in
          let own : (front s).queues q ≡ (pop_task (s.queues q)).1 = ground arith in
          (
            run_tasks-head io execute (loop self q) 0 t (map some ts) s v.queued fresh,
            record {
              pipe = v.pipe;
              ready = rw own ready;
              queued = rw own emptied;
              bounded = rw own (omega (arith, same, v.bounded));
              tasks = front-Waiting K s ts once rest;
            },
          )

      -- A queue that is not this one.
      pub Holds-front :
          {K : GTask B → Type 0} {k limit : ℕ} {ts : List ℕ} {s : Store B P W}
          → q ≢ k
          → Absent t ts
          → Holds K k limit ts s
          → Holds K k limit ts (front s)
      Holds-front {K} {k} {limit} {ts} {s} other once v =
          let same : (front s).queues k ≡ s.queues k = ground (arith, other) in
          record {
            pipe = v.pipe;
            ready = rw same v.ready;
            queued = rw same v.queued;
            bounded = rw same v.bounded;
            tasks = front-Waiting K s ts once v.tasks;
          }
