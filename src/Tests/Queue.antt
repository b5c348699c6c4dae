-- ===== src/Tests/Queue.antt =====
-- GTaskQ (gexecutor/gtaskq.cc) on a pipe that holds two bytes.
use gexecutor.Prelude.{
  ℕ, ◌≡◌, refl, none, some, List, [], ◌∷◌, map, replicate, length-replicate, done, arith,
}
use gexecutor.Pipe.{bounded, bounded-PipeLaws}
use gexecutor.TaskQ.{GTaskQ, GTaskSharedPtr, max_notifn, enqueue_gtask}
use gexecutor.TaskQ.Notify.{bounded-IsRecoverable}
use gexecutor.TaskQ.Enqueue.{IsReady, Enqueued, enqueue_gtask_lem}
use gexecutor.TaskQ.System.{System, thread, running, Reach}
use gexecutor.TaskQ.System.Sequential.{enqueue_gtask-Reach}
use gexecutor.TaskQ.Trace.{Op, enqueue, dequeue, spec_run, run, run-refines}

-- Initialized with a pipe that holds `used` bytes already.
abbrev pub ready : (used : ℕ) → List GTaskSharedPtr → GTaskQ ℕ
ready used tasks = record {
  num_enqueue = 0;
  num_dequeue = 0;
  max_outstanding_notifn = max_notifn;
  task_queue = tasks;
  executor_ctx = none;
  num_outstanding_notifn = 0;
  pipefds = some used;
  notfn_buffer = some (replicate max_notifn b'G');
}

pub ready-IsReady : (used : ℕ) (tasks : List GTaskSharedPtr) → IsReady (ready used tasks) used
ready-IsReady used tasks = record {
  buffer = replicate max_notifn b'G';
  connected = refl;
  has_buffer = refl;
  room = length-replicate {A = ℕ} max_notifn b'G';
  settled = refl;
  limit = omega arith;
}

abbrev ops : List Op
ops = enqueue 5 ∷ dequeue ∷ enqueue 6 ∷ enqueue 7 ∷ dequeue ∷ []

ops_spec : spec_run ops (4 ∷ []) ≡ (some 4 ∷ some 5 ∷ [], 6 ∷ 7 ∷ [])
unfolding spec_run
ops_spec = refl

-- Nobody else is there.
abbrev alone : System ℕ
alone = record { queue = ready 0 []; threads = thread 0 running ∷ [] }

abbrev sent :
    (q' : GTaskQ ℕ) × (p' : ℕ) × (enqueue_gtask (bounded 2) (some 7) (ready 0 []) ≡ done q')
    × Enqueued (bounded 2) (some 7) (ready 0 []) 0 q' p'
sent =
    enqueue_gtask_lem (bounded 2) (bounded-PipeLaws 2) (bounded-IsRecoverable 2) (some 7)
      (ready 0 []) 0 (ready-IsReady 0 []) (omega arith)

enqueue_gtask-Reach_example :
    Reach (bounded 2) alone (record { queue = sent.0; threads = alone.threads })
enqueue_gtask-Reach_example =
    enqueue_gtask-Reach (bounded 2) alone 0 0 (some 7) sent.0 refl (omega arith) sent.2

run-refines_example :
    (q' : GTaskQ ℕ) × (p' : ℕ) × (run (bounded 2) ops (ready 0 (some 4 ∷ []))
      ≡ done ((spec_run ops (4 ∷ [])).0, q'))
    × IsReady q' p'
    × (q'.task_queue ≡ map some (spec_run ops (4 ∷ [])).1)
run-refines_example =
    run-refines (bounded 2) (bounded-PipeLaws 2) (bounded-IsRecoverable 2) ops (4 ∷ [])
      (ready 0 (some 4 ∷ [])) 0 (ready-IsReady 0 (some 4 ∷ [])) refl (omega arith)
