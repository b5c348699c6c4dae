-- ===== src/Reactor/Posted.antt =====
-- A task that is put on an empty queue, and the turn of the event loop that runs it: EnqueueGTask
-- of gexecutor/gtaskq.cc, then taskq_cb of gexecutor/gasync_executor.cc.
use gexecutor.Prelude.{
  ℕ, suc, ◌+◌, ◌^◌, ◌<◌, ◌≡◌, refl, ap, ◌∙◌, none, some, List, [], ◌∷◌, ◌++◌, Outcome, done, ◌>>=◌,
  arith,
}
use gexecutor.Pipe.{Pipe, PipeLaws}
use gexecutor.Task.{GTask}
use gexecutor.TaskQ.{GTaskQ, GTaskSharedPtr, pop_task}
use gexecutor.TaskQ.Notify.{IsRecoverable}
use gexecutor.TaskQ.Enqueue.{IsReady, enqueue_gtask_lem}
use gexecutor.TaskQ.Trace.{pop_task_lem}
use gexecutor.Store.{Store, update, new_task, enqueue_on}
use gexecutor.Reactor.{Reactor, started, run_tasks}
use gexecutor.Reactor.Dispatch.{taken, run_tasks-head}

abbrev pub loop : (self q : ℕ) → Reactor
loop self q = record { self = self; taskq = q }

-- The queue q' holds the task t alone, and has room for n tasks once it is taken.
pub record Alone {P : Type 0} (n t : ℕ) (q' : GTaskQ P) : Type 0 where
  pub pipe : P
  pub ready : IsReady q' pipe
  pub alone : q'.task_queue ≡ some t ∷ []
  pub room : q'.max_outstanding_notifn + n < 2 ^ 64

module _ {B P W : Type 0} where
  -- The queue q has nothing in it, and room for n tasks.
  pub record Idle (q n : ℕ) (s : Store B P W) : Type 0 where
    pub pipe : P
    pub ready : IsReady (s.queues q) pipe
    pub idle : (s.queues q).task_queue ≡ []
    pub room : (s.queues q).max_outstanding_notifn + n < 2 ^ 64

  abbrev pub posted : ℕ → GTaskQ P → GTask B → Store B P W → Store B P W
  posted q q' task s = record (new_task task s) { queues = update s.queues q q' }

  module _ (io : Pipe P) where
    pub posts :
        PipeLaws io
        → IsRecoverable io
        → (q n : ℕ) (task : GTask B) (s : Store B P W) → Idle q (suc n) s
        → (q' : GTaskQ P) × (enqueue_on io (some q) (some s.next_task) (new_task task s)
            ≡ done (posted q q' task s))
          × Alone n s.next_task q'
    unfolding enqueue_on
    posts laws recoverable q n task s v =
        let (q', p', sent, d) =
          enqueue_gtask_lem io laws recoverable (some s.next_task) (s.queues q) v.pipe v.ready
            (omega (arith, v.room)) in
        (
          q',
          rw sent refl,
          record {
            pipe = p';
            ready = d.ready;
            alone =
                d.appended ∙ ap (λ (xs : List GTaskSharedPtr). xs ++ some s.next_task ∷ []) v.idle;
            room = omega (arith, d.limit_bounded, v.room);
          },
        )

    module _ (execute : ℕ → Store B P W → Outcome (Store B P W)) (self q : ℕ) where
      -- The store in which a task that was posted runs.
      abbrev pub running : GTaskQ P → GTask B → Store B P W → Store B P W
      running q' task s =
          started io execute (loop self q) s.next_task (taken q s.next_task (posted q q' task s))

      module _ (n : ℕ) (q' : GTaskQ P) (task : GTask B) (s : Store B P W)
          (v : Alone n s.next_task q') where
        pub posted-runs :
            (turns : ℕ)
            → task.exec_task_q ≡ none
            → run_tasks io execute (loop self q) (suc turns) (posted q q' task s) ≡ (
                execute s.next_task (running q' task s)
                >>= run_tasks io execute (loop self q) turns)
        posted-runs turns fresh =
            run_tasks-head io execute (loop self q) turns s.next_task [] (posted q q' task s)
              (ground (arith, v.alone)) (ground arith)

        -- The task is as it was posted, but for where it runs.
        pub running-task :
            (running q' task s).tasks s.next_task
            ≡ record task { exec_task_q = some q; executor = some self }
        running-task = ground arith

        pub running-Idle : Idle q n (running q' task s)
        running-Idle =
            let own : (running q' task s).queues q ≡ (pop_task q').1 = ground arith in
            let (_, emptied, ready, same) =
              pop_task_lem (s.next_task ∷ []) q' v.pipe v.ready v.alone in
            record {
              pipe = v.pipe;
              ready = rw own ready;
              idle = rw own emptied;
              room = rw own (omega (arith, same, v.room));
            }
