-- ===== src/AsyncExecutor.antt =====
-- gexecutor/gexecutor.h, gexecutor/gasync_executor.h and gexecutor/gasync_executor.cc: the life of
-- an asynchronous executor and of its two events. libevent is seen by the calls it gets.
pub mod Events
pub mod Lifecycle
use gexecutor.Prelude.{ℕ, Option, none, some, List, [], ◌∷◌, ◌++◌, Outcome, done, aborted}

pub data ExecutorType : Type 0 where
  async sync : ExecutorType

pub data EventCall : Type 0 where
  event_new event_add event_del event_free : ℕ → EventCall

abbrev pub Log : Type 0
Log = List EventCall

-- An event is a reference, or NULL. The timeouts of the events are constants that nothing reads.
pub record AsyncExecutor : Type 0 where
  pub gexec_type : ExecutorType
  pub event_base : Option ℕ
  pub p_taskq : ℕ
  pub p_taskq_ev : Option ℕ
  pub p_timer_ev : Option ℕ

unfoldable pub async_executor : (event_base : Option ℕ) (taskq : ℕ) → AsyncExecutor
async_executor event_base taskq = record {
  gexec_type = async;
  event_base = event_base;
  p_taskq = taskq;
  p_taskq_ev = none;
  p_timer_ev = none;
}

unfoldable pub created : Option ℕ → Log
created none = []
created (some e) = event_new e ∷ []

-- What event_new and evtimer_new return is given. A NULL of the first is an assertion; the timer is
-- created and not added. The code returned is 0.
unfoldable pub initialize :
    (taskq_ev timer_ev : Option ℕ) → AsyncExecutor → Outcome (AsyncExecutor × Log)
unfolding created
initialize none timer_ev x = aborted
initialize (some ev) timer_ev x = done (
  record x { p_taskq_ev = some ev; p_timer_ev = timer_ev },
  (event_new ev ∷ event_add ev ∷ []) ++ created timer_ev,
)

-- StopTimer: the line that would free the timer's event is commented out.
pub stop_timer : AsyncExecutor → AsyncExecutor × Log
stop_timer x = elim x.p_timer_ev [
  | none ↦ (x, [])
  | some ev ↦ (record x { p_timer_ev = none }, event_del ev ∷ [])
]

drop_taskq_ev : AsyncExecutor → AsyncExecutor × Log
drop_taskq_ev x = elim x.p_taskq_ev [
  | none ↦ (x, [])
  | some ev ↦ (record x { p_taskq_ev = none }, event_del ev ∷ event_free ev ∷ [])
]

-- Shutdown, which returns 0.
unfoldable pub shutdown : AsyncExecutor → AsyncExecutor × Log
unfolding drop_taskq_ev stop_timer
shutdown x =
    let dropped = drop_taskq_ev x in
    let stopped = stop_timer dropped.0 in (stopped.0, dropped.1 ++ stopped.1)

-- The destructor.
unfoldable pub destroy : AsyncExecutor → Log
destroy x = elim x.p_taskq_ev [ none ↦ [] | some ev ↦ event_del ev ∷ event_free ev ∷ [] ]
