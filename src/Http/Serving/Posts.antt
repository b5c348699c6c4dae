-- ===== src/Http/Serving/Posts.antt =====
-- A task that a server posts to one of its queues, and the tasks that wait there already
-- (gexecutor/gtaskq.cc with the handlers of the samples).
use gexecutor.Prelude.{
  ℕ, ◌+◌, ◌^◌, ◌<◌, ◌≡◌, ◌≢◌, sym, none, some, List, [], ◌∷◌, ◌++◌, done, arith,
}
use gexecutor.Pipe.{Pipe, PipeLaws}
use gexecutor.TaskQ.{GTaskQ}
use gexecutor.TaskQ.Notify.{IsRecoverable}
use gexecutor.Task.{GTask}
use gexecutor.Store.{Store, new_task, enqueue_on}
use gexecutor.Reactor.Posted.{posted}
use gexecutor.Reactor.Drain.{Absent}
use gexecutor.Reactor.Waiting.{weigh-posted, weigh-update, Absent-new}
use gexecutor.Reactor.Holds.{Holds-weaken, Holds-posted, Holds-posts}
use gexecutor.Http.{Effect, Log}
use gexecutor.Http.Serving.{ServerKind, Serving, turns, owing, left, account}

module _ {B P : Type 0} (v : ServerKind B) (io : Pipe P) (pipe_laws : PipeLaws io)
    (recoverable : IsRecoverable io) (apart : v.async_taskq ≢ v.sync_taskq) where
  -- From the tasks ts and us to ts' and us', by a task that is posted to q.
  abbrev pub Posting : (q limit : ℕ) (ts us ts' us' : List ℕ) → GTask B → Store B P Log → Type 0
  Posting q limit ts us ts' us' task s =
      (q' : GTaskQ P) × (enqueue_on io (some q) (some s.next_task) (new_task task s)
        ≡ done (posted q q' task s))
      × Serving v (limit + 1) ts' us' (posted q q' task s)
      × ((f : Effect → ℕ)
          → account v f ts' us' (posted q q' task s) ≡ account v f ts us s + v.owes f task.body)
      × (left v ts' us' (posted q q' task s) ≡ left v ts us s + v.turns_of task.body)

  pub posts_async :
      (limit : ℕ) (ts us : List ℕ) (task : GTask B) (s : Store B P Log)
      → limit + 1 < 2 ^ 64
      → Serving v limit ts us s
      → task.exec_task_q ≡ none
      → v.IsAsync task
      → Posting v.async_taskq limit ts us (ts ++ s.next_task ∷ []) us task s
  posts_async limit ts us task s few d fresh kind =
      let (q', sent, holds) =
        Holds-posts io pipe_laws recoverable task fresh kind few d.async_holds in
      let own : Absent s.next_task ts =
        Absent-new v.IsAsync s.tasks s.next_task ts d.async_holds.tasks in
      let other : Absent s.next_task us =
        Absent-new v.IsSync s.tasks s.next_task us d.sync_holds.tasks in
      (
        q',
        sent,
        record {
          async_holds = holds;
          sync_holds = Holds-weaken (Holds-posted v.async_taskq q' task apart d.sync_holds);
        },
        λ f. omega (
          arith,
          weigh-posted (owing v f) s.tasks s.next_task task ts own,
          weigh-update (owing v f) s.tasks s.next_task task us other,
        ),
        omega (
          arith,
          weigh-posted (turns v) s.tasks s.next_task task ts own,
          weigh-update (turns v) s.tasks s.next_task task us other,
        ),
      )

  pub posts_sync :
      (limit : ℕ) (ts us : List ℕ) (task : GTask B) (s : Store B P Log)
      → limit + 1 < 2 ^ 64
      → Serving v limit ts us s
      → task.exec_task_q ≡ none
      → v.IsSync task
      → Posting v.sync_taskq limit ts us ts (us ++ s.next_task ∷ []) task s
  posts_sync limit ts us task s few d fresh kind =
      let (q', sent, holds) =
        Holds-posts io pipe_laws recoverable task fresh kind few d.sync_holds in
      let own : Absent s.next_task us =
        Absent-new v.IsSync s.tasks s.next_task us d.sync_holds.tasks in
      let other : Absent s.next_task ts =
        Absent-new v.IsAsync s.tasks s.next_task ts d.async_holds.tasks in
      (
        q',
        sent,
        record {
          async_holds =
              Holds-weaken (Holds-posted v.sync_taskq q' task (λ e. apart (sym e)) d.async_holds);
          sync_holds = holds;
        },
        λ f. omega (
          arith,
          weigh-posted (owing v f) s.tasks s.next_task task us own,
          weigh-update (owing v f) s.tasks s.next_task task ts other,
        ),
        omega (
          arith,
          weigh-posted (turns v) s.tasks s.next_task task us own,
          weigh-update (turns v) s.tasks s.next_task task ts other,
        ),
      )
