-- ===== src/Task.antt =====
-- gexecutor/gtaskq.h and gexecutor/gtaskq.cc, the class GTask: what every task carries, whatever
-- its Execute does. `body` is the part of the derived class.
use Prim.Native.String.{String}
use gexecutor.Prelude.{ℕ, Option, none, some, ℤ, pos, Outcome, done, aborted}

-- The queues and the executor are shared pointers: references into the store, or NULL.
pub record GTask (B : Type 0) : Type 0 where
  pub resp_task_q : Option ℕ
  pub exec_task_q : Option ℕ
  pub executor : Option ℕ
  pub debug_str : String
  pub error_code : Option ℤ  -- `none` while no constructor has given it a value
  pub body : B

module _ {B : Type 0} where
  -- The constructor with one argument, which prints its own address into debug_str_ and leaves
  -- error_code_ without a value.
  abbrev pub gtask : (response_queue : Option ℕ) (address : String) → B → GTask B
  gtask response_queue address body = record {
    resp_task_q = response_queue;
    exec_task_q = none;
    executor = none;
    debug_str = address;
    error_code = none;
    body = body;
  }

  abbrev pub gtask_named : (response_queue : Option ℕ) (debug_str : String) → B → GTask B
  gtask_named response_queue debug_str body = record {
    resp_task_q = response_queue;
    exec_task_q = none;
    executor = none;
    debug_str = debug_str;
    error_code = some (pos 0);
    body = body;
  }

  -- A task is given its queue once.
  unfoldable pub set_exec_task_q : ℕ → GTask B → Outcome (GTask B)
  set_exec_task_q execution_task_q task = elim task.exec_task_q [
    | none ↦ done (record task { exec_task_q = some execution_task_q })
    | some _ ↦ aborted
  ]

  abbrev pub set_executor : ℕ → GTask B → GTask B
  set_executor executor task = record task { executor = some executor }
