-- ===== src/Tests/Loop.antt =====
-- taskq_cb (gexecutor/gasync_executor.cc) on three tasks that record their numbers.
use gexecutor.Prelude.{ℕ, ◌≡◌, refl, true, false, none, some, List, [], ◌∷◌, ◌++◌, map, done, arith}
use gexecutor.Pipe.{bounded}
use gexecutor.Task.{gtask}
use gexecutor.TaskQ
use gexecutor.TaskQ.{enqueue_gtask}
use gexecutor.Store.{Store, enqueue_on}
use gexecutor.AsioExecutor.{default_io_service, asio_executor, initialize}
use gexecutor.AsioExecutor.Idle
use gexecutor.AsioExecutor.Idle.{Loop, Reach, here, next, sent, completed, on_read, idle_lem}
use gexecutor.Service.Asio.Create.{begun}
use gexecutor.Reactor.{Reactor, run_tasks, taskq_cb}
use gexecutor.Reactor.Asio.{taskq_read_handler, taskq_read_handler-run_tasks}
use gexecutor.Reactor.Drain.{effect, taskq_cb_drains}
use gexecutor.Tests.Queue.{ready}

abbrev record_number : ℕ → List ℕ → List ℕ
record_number t w = t ∷ w

abbrev executor : Reactor
executor = record { self = 9; taskq = 1 }

abbrev waiting : Store ℕ ℕ (List ℕ)
waiting = record {
  tasks = λ _. gtask none "0x1000" 0;
  next_task = 3;
  queues = λ _. ready 3 (some 0 ∷ some 1 ∷ some 2 ∷ []);
  world = [];
}

taskq_cb_drains_example :
    (s' : Store ℕ ℕ (List ℕ)) × (taskq_cb (bounded 8) (effect record_number) executor true 4 waiting
      ≡ some (done s'))
    × (s'.world ≡ 2 ∷ 1 ∷ 0 ∷ [])
    × ((s'.queues 1).task_queue ≡ [])
    × ((s'.queues 1).pipefds ≡ some 0)
taskq_cb_drains_example =
    taskq_cb_drains record_number 8 executor 4 (0 ∷ 1 ∷ 2 ∷ []) waiting refl refl
      (refl, ((λ e. cc e), ((λ e. cc e), tt)), (refl, ((λ e. cc e), tt), (refl, tt, tt)))
      (omega arith)

-- The loop of taskq_cb for three bytes.
abbrev all_run :
    (s : Store ℕ ℕ (List ℕ)) × (run_tasks (bounded 8) (effect record_number) executor 3 waiting
      ≡ done s)
    × ((s.queues 1).task_queue ≡ [])
    × (s.world ≡ 2 ∷ 1 ∷ 0 ∷ [])
unfolding run_tasks
all_run = (_, refl, refl, refl)

taskq_read_handler-run_tasks_example :
    taskq_read_handler (bounded 8) (effect record_number) executor false 3 waiting ≡ done all_run.0
taskq_read_handler-run_tasks_example =
    taskq_read_handler-run_tasks (bounded 8) (effect record_number) executor 3 waiting all_run.0
      (omega arith) all_run.1

-- An executor on the queue 1 that has been initialized once.
abbrev before_read : Loop ℕ ℕ (List ℕ)
unfolding asio_executor
before_read = record { executor = begun default_io_service 1; store = waiting; handled = 0 }

-- All three bytes are read at once.
abbrev after_first :
    (l : Loop ℕ ℕ (List ℕ)) × Reach (bounded 8) (effect record_number) 9 before_read l
    × (l.handled ≡ 1)
    × (l.executor ≡ before_read.executor)
unfolding asio_executor on_read taskq_read_handler
after_first = (_, next here (completed 3 0 3 _ _ (omega arith) refl refl refl), refl, refl)

-- Then a fourth task is sent.
abbrev after_sent :
    (l : Loop ℕ ℕ (List ℕ)) × Reach (bounded 8) (effect record_number) 9 after_first.0 l
    × (Idle.waiting (bounded 8) (effect record_number) 9 l ≡ some 3 ∷ [])
unfolding asio_executor on_read taskq_read_handler enqueue_on enqueue_gtask
after_sent = (_, next here (sent (gtask none "0x2000" 0) 1 _ refl), refl)

idle_lem_example :
    (later : List ℕ) × (Idle.waiting (bounded 8) (effect record_number) 9 after_sent.0
      ≡ Idle.waiting (bounded 8) (effect record_number) 9 after_first.0 ++ map some later)
    × (after_sent.0.store.world ≡ after_first.0.store.world)
    × (after_sent.0.handled ≡ after_first.0.handled)
unfolding initialize asio_executor TaskQ.initialize after_first
idle_lem_example =
    idle_lem (bounded 8) (effect record_number) 9 default_io_service 1 (some 0) (ready 0 [])
      (ready 0 []) refl after_first.1 (omega arith) after_sent.1
