-- ===== src/TaskQ/System/Moves.antt =====
-- The steps of one thread on a pipe that holds so many bytes (gexecutor/gtaskq.cc).
use gexecutor.Prelude.{
  ℕ, suc, ◌+◌, ◌≤◌, ◌<◌, ◌≡◌, refl, ◌∙◌, set, some, inl, inr, List, [], ◌∷◌, length, length-append,
  arith,
}
use gexecutor.Pipe.{bounded, eagain}
use gexecutor.TaskQ.{max_notifn, push_task, add_outstanding, pop_task, num_notifn_to_write}
use gexecutor.TaskQ.System.{
  Stage, notifying, restoring, running, Thread, thread, System, max_size, Step, push, wrote,
  retried, notified, restored, dequeued,
}
use gexecutor.TaskQ.System.Invariant.{pop_task_shrinks}

-- One thread at the given stage, with k tasks queued, b bytes in the pipe, c dequeues to do, and m
-- notifications given up.
pub record At (k b c m : ℕ) (stage : Stage) (s : System ℕ) : Type 0 where
  pub tasks : length s.queue.task_queue ≡ k
  pub pipe : s.queue.pipefds ≡ some b
  pub alone : s.threads ≡ thread c stage ∷ []
  pub settled : s.queue.num_outstanding_notifn ≡ 0
  pub limit : s.queue.max_outstanding_notifn ≡ max_notifn + m

set-alone : {ts : List Thread} {u : Thread} (t : Thread) → ts ≡ u ∷ [] → set ts 0 t ≡ t ∷ []
set-alone t e = rw e

module _ (cap : ℕ) where
  -- One step of the thread, to a state of which we know where it is.
  abbrev pub Leads : System ℕ → (k b c m : ℕ) → Stage → Type 0
  Leads s k b c m stage = (t : System ℕ) × Step (bounded cap) s t × At k b c m stage t

  module _ {k b c m : ℕ} {s : System ℕ} where
    pub pushes :
        At k b c m running s
        → k < max_size
        → m < max_size
        → Leads s (suc k) b c m (notifying 3 1 0 1)
    unfolding push_task num_notifn_to_write
    pushes v fits few =
        let one : (push_task (bounded cap) (some 0) s.queue).0 ≡ 1 = ground arith in
        (
          _,
          push 0 c (some 0) (ground (arith, v.alone)) (omega (arith, v.tasks)),
          record {
            tasks = omega (arith, v.tasks, length-append s.queue.task_queue (some 0 ∷ []));
            pipe = v.pipe;
            alone = rw (v.alone, one);
            settled = ground arith;
            limit = v.limit;
          },
        )

    pub writes :
        (r : ℕ)
        → At k b c m (notifying (suc r) 1 0 1) s
        → b < cap
        → Leads s k (suc b) c m (notifying r 0 1 1)
    writes r v room = (
      _,
      wrote 0 c r 0 0 1 b (suc b) 1 (ground (arith, v.alone)) v.pipe (ground arith),
      record {
        tasks = v.tasks;
        pipe = refl;
        alone = rw v.alone;
        settled = v.settled;
        limit = v.limit;
      },
    )

    pub retries :
        (r : ℕ)
        → At k b c m (notifying (suc r) 1 0 1) s
        → cap ≤ b
        → Leads s k b c m (notifying r 1 0 1)
    retries r v full = (
      _,
      retried 0 c r 0 0 1 b b eagain (ground (arith, v.alone)) v.pipe (ground arith) refl,
      record {
        tasks = v.tasks;
        pipe = refl;
        alone = rw v.alone;
        settled = v.settled;
        limit = v.limit;
      },
    )

    pub returns : (r : ℕ) → At k b c m (notifying r 0 1 1) s → Leads s k b c m running
    returns r v = (
      _,
      notified 0 c r 0 1 1 (ground (arith, v.alone)) (inr refl),
      record {
        tasks = v.tasks;
        pipe = v.pipe;
        alone = rw v.alone;
        settled = v.settled;
        limit = v.limit;
      },
    )

    pub gives_up : At k b c m (notifying 0 1 0 1) s → Leads s k b c m (restoring 1 0)
    gives_up v = (
      _,
      notified 0 c 0 1 0 1 (ground (arith, v.alone)) (inl refl),
      record {
        tasks = v.tasks;
        pipe = v.pipe;
        alone = rw v.alone;
        settled = v.settled;
        limit = v.limit;
      },
    )

    pub restores : At k b c m (restoring 1 0) s → m < max_size → Leads s k b c (suc m) running
    unfolding add_outstanding
    restores v few = (
      _,
      restored 0 c 1 0 (ground (arith, v.alone)),
      record {
        tasks = v.tasks;
        pipe = v.pipe;
        alone = rw v.alone;
        settled = v.settled;
        limit = omega (arith, v.limit);
      },
    )

    pub dequeues : At (suc k) b (suc c) m running s → Leads s k b c m running
    unfolding pop_task
    dequeues v =
        let (shrinks, f, z, l) = pop_task_shrinks s.queue (omega (arith, v.tasks)) in
        (
          _,
          dequeued 0 c (ground (arith, v.alone)),
          record {
            tasks = omega (arith, v.tasks);
            pipe = f ∙ v.pipe;
            alone = rw v.alone;
            settled = z ∙ v.settled;
            limit = l ∙ v.limit;
          },
        )
