-- ===== src/Reactor.antt =====
-- taskq_cb and check_taskq_cb of gexecutor/gasync_executor.cc: what the event loop of an
-- asynchronous executor, and so of each worker of a synchronous one, does when its pipe is readable.
pub mod Dispatch
pub mod Posted
pub mod Drain
pub mod Steps
pub mod Waiting
pub mod Holds
pub mod Asio
use Prim.Native.String.{String}
use gexecutor.Prelude.{
  ℕ, zero, suc, Bool, true, false, Option, none, some, ltb, Outcome, done, aborted, undefined,
  ◌>>=◌,
}
use gexecutor.Pipe.{Pipe, bytes, failed}
use gexecutor.Task.{gtask, set_executor}
use gexecutor.Store.{Store, update, new_task, enqueue_on, dequeue_gtask}

-- An executor as its callback sees it.
pub record Reactor : Type 0 where
  pub self : ℕ
  pub taskq : ℕ

abbrev pub msg_size : ℕ
msg_size = 4096

module _ {B P W : Type 0} (io : Pipe P) where
  -- `execute` is the virtual Execute, on a task by its reference; its code is ignored. Logging is
  -- on at level 0, so the message with `p_task->DebugString()` is built before the test for NULL.
  module _ (execute : ℕ → Store B P W → Outcome (Store B P W)) (r : Reactor) where
    abbrev pub started : ℕ → Store B P W → Store B P W
    started t s = record s { tasks = update s.tasks t (set_executor r.self (s.tasks t)) }

    unfoldable pub run_task : Option ℕ → Store B P W → Outcome (Store B P W)
    run_task none s = aborted
    run_task (some t) s = execute t (started t s)

    -- The `for` over the bytes read.
    unfoldable pub run_tasks : (num_bytes : ℕ) → Store B P W → Outcome (Store B P W)
    unfolding run_task dequeue_gtask
    run_tasks zero s = done s
    run_tasks (suc num_bytes) s =
        dequeue_gtask r.taskq s >>= (λ d. run_task d.0 d.1 >>= run_tasks num_bytes)

    abbrev pub after_read : Store B P W → P → Store B P W
    after_read s p = record s {
      queues = update s.queues r.taskq (record (s.queues r.taskq) { pipefds = some p });
    }

    -- The `do … while (num_bytes > 0)`; `none` means that the fuel ran out.
    unfoldable pub read_loop : (fuel : ℕ) → Store B P W → Option (Outcome (Store B P W))
    unfolding run_tasks
    read_loop zero s = none
    read_loop (suc fuel) s = elim (s.queues r.taskq).pipefds [
      | none ↦ some undefined
      | some p ↦ elim (io.read p msg_size).0 [
        | failed errno ↦ some (done (after_read s (io.read p msg_size).1))
        | bytes num_bytes ↦ elim (run_tasks num_bytes (after_read s (io.read p msg_size).1)) [
          | done s' ↦ elim (ltb 0 num_bytes) [ true ↦ read_loop fuel s' | false ↦ some (done s') ]
          | aborted ↦ some aborted
          | undefined ↦ some undefined
        ]
      ]
    ]

    -- The callback; `ev_read` is `what & EV_READ`.
    unfoldable pub taskq_cb :
        (ev_read : Bool) (fuel : ℕ) → Store B P W → Option (Outcome (Store B P W))
    taskq_cb false fuel s = some (done s)
    taskq_cb true fuel s = read_loop fuel s

  -- The timer callback: a task that does nothing, to its own queue.
  unfoldable pub check_taskq_cb : Reactor → B → String → Store B P W → Outcome (Store B P W)
  check_taskq_cb r check address s =
      enqueue_on io (some r.taskq) (some s.next_task)
        (new_task (gtask (some r.taskq) address check) s)
