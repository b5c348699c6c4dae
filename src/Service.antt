-- ===== src/Service.antt =====
-- gexecutor/gexecutor_service_base.h, gexecutor/gexecutor_service_base.cc,
-- gexecutor/gexecutor_service.h and gexecutor/gexecutor_service.cc: the registry of executors.
-- Every method holds the service's mutex while it works on the map, so a call is one step.
pub mod Create
pub mod Shutdown
pub mod Registry
mod Starts
pub mod Asio
use Prim.Native.String.{String}
use gexecutor.Prelude.{
  ℕ, Bool, true, false, Option, none, some, List, [], ◌∷◌, ◌++◌, ℤ, pos, negsuc, length, get_elem?,
  set, lookup, insert, erase, if◌then◌else◌, Outcome, done, aborted, undefined, ◌>>=◌,
}
use gexecutor.TaskQ.{GTaskQ, gtaskq}
use gexecutor.TaskQ
use gexecutor.AsyncExecutor.{AsyncExecutor, Log}
use gexecutor.AsyncExecutor
use gexecutor.AsioExecutor.{AsioExecutor}
use gexecutor.AsioExecutor
use gexecutor.SyncExecutor.{SyncExecutor, sync_executor}
use gexecutor.SyncExecutor

-- The classes derived from GExecutor, and their virtual Shutdown.
pub data Executor : Type 0 where
  async : AsyncExecutor → Executor
  async_asio : AsioExecutor → Executor
  sync : SyncExecutor → Executor

abbrev pub taskq_of : Executor → ℕ
taskq_of (async x) = x.p_taskq
taskq_of (async_asio x) = x.p_taskq
taskq_of (sync x) = x.p_taskq

unfoldable pub shutdown_of : Executor → Outcome (Executor × Log)
shutdown_of (async x) = done (async (AsyncExecutor.shutdown x).0, (AsyncExecutor.shutdown x).1)
shutdown_of (async_asio x) = done (async_asio (AsioExecutor.shutdown x), [])
shutdown_of (sync x) = SyncExecutor.shutdown x >>= (λ r. done (sync r.0, r.1))

-- What the system calls inside one method return.
pub record Env (P : Type 0) : Type 0 where
  pub memory : Bool
  pub pipe : Option P
  pub taskq_ev : Option ℕ
  pub timer_ev : Option ℕ
  pub created : ℕ → Bool

-- The service, with the executors and queues that it has made: their references are positions in
-- the lists. A value of the map may be NULL.
pub record Service (P : Type 0) : Type 0 where
  pub default_taskq : Option ℕ
  pub default_async_executor : Option ℕ
  pub default_async_event_base : Option ℕ
  pub gexecutor_map : List (String × Option ℕ)
  pub executors : List Executor
  pub taskqs : List (GTaskQ P)
  pub log : Log

abbrev pub default_executor_id : String
default_executor_id = "DefaultExecutor"

abbrev pub or_null : Option (Option ℕ) → Option ℕ
or_null none = none
or_null (some x) = x

-- `gexecutor_map_[id]` makes an entry with NULL for a name that is not there.
abbrev pub index_map : String → List (String × Option ℕ) → List (String × Option ℕ)
index_map gexecutor_id m = elim (lookup gexecutor_id m) [
  | none ↦ insert gexecutor_id none m
  | some _ ↦ m
]

module _ {P : Type 0} where
  -- `new GTaskQ()`: its reference is `length s.taskqs`.
  abbrev pub add_taskq : GTaskQ P → Service P → Service P
  add_taskq q s = record s { taskqs = s.taskqs ++ q ∷ [] }

  -- `new` and the map entry of a new executor: its reference is `length s.executors`.
  abbrev pub add_executor : String → Executor → Log → Service P → Service P
  add_executor executor_id x calls s = record s {
    gexecutor_map = insert executor_id (some (length s.executors)) s.gexecutor_map;
    executors = s.executors ++ x ∷ [];
    log = s.log ++ calls;
  }

  -- The queue that CreateAsyncExecutor is given, or a new one that is initialized.
  unfoldable pub taskq_or_new : Env P → Option ℕ → Service P → Outcome (ℕ × Service P)
  taskq_or_new env (some q) s = done (q, s)
  taskq_or_new env none s =
      TaskQ.initialize env.pipe (gtaskq env.memory) >>= (λ q. done (length s.taskqs, add_taskq q s))

  unfoldable pub register_async :
      Env P
      → (executor_id : String) (taskq : ℕ) (event_base : Option ℕ) → Service P
      → Outcome (Option ℕ × Service P)
  register_async env executor_id taskq event_base s = elim (lookup executor_id s.gexecutor_map) [
    | some executor ↦ done (executor, s)
    | none ↦
        AsyncExecutor.initialize env.taskq_ev env.timer_ev
          (AsyncExecutor.async_executor event_base taskq)
        >>= (λ r. done (some (length s.executors), add_executor executor_id (async r.0) r.1 s))
  ]

  -- CreateAsyncExecutor: what is registered under the name already is returned, a NULL too.
  unfoldable pub create_async_executor :
      Env P
      → (executor_id : String) (p_taskq event_base : Option ℕ) → Service P
      → Outcome (Option ℕ × Service P)
  unfolding taskq_or_new register_async
  create_async_executor env executor_id p_taskq event_base s =
      taskq_or_new env p_taskq s >>= (λ r. register_async env executor_id r.0 event_base r.1)

  -- CreateSyncExecutor: the new queue is not initialized, and what was registered is replaced. The
  -- threads that Initialize starts read the descriptors of that queue, which have no value; the model
  -- has the records of the workers.
  unfoldable pub create_sync_executor :
      Env P → (executor_id : String) (num_workers : ℕ) → Service P → Option ℕ × Service P
  create_sync_executor env executor_id num_workers s =
      let s' = add_taskq (gtaskq env.memory) s in
      let x = SyncExecutor.initialize env.created (sync_executor (length s.taskqs) num_workers) in
      (some (length s.executors), add_executor executor_id (sync x) [] s')

  -- gexecutor(id): NULL if the name is not registered.
  unfoldable pub find_executor : String → Service P → Option ℕ
  find_executor gexecutor_id s = or_null (lookup gexecutor_id s.gexecutor_map)

  -- `p_gexec->Shutdown()`.
  pub shutdown_ref : ℕ → Service P → Outcome (Service P)
  shutdown_ref x s = elim (get_elem? s.executors x) [
    | none ↦ undefined
    | some e ↦
        shutdown_of e
        >>= (λ r. done (record s { executors = set s.executors x r.0; log = s.log ++ r.1 }))
  ]

  -- ShutdownExecutor: the code -1 if there is no executor.
  pub shutdown_executor : String → Service P → Outcome (ℤ × Service P)
  unfolding shutdown_ref
  shutdown_executor gexecutor_id s =
      let m = index_map gexecutor_id s.gexecutor_map in
      elim (or_null (lookup gexecutor_id m)) [
        | none ↦ done (negsuc 0, record s { gexecutor_map = m })
        | some x ↦
            shutdown_ref x (record s { gexecutor_map = erase gexecutor_id m })
            >>= (λ s'. done (pos 0, s'))
      ]

  -- The constructor of the base class.
  unfoldable pub new_base : Env P → (enable_default : Bool) → Outcome (Service P)
  new_base env enable_default =
      let empty : Service P = record {
        default_taskq = none;
        default_async_executor = none;
        default_async_event_base = none;
        gexecutor_map = [];
        executors = [];
        taskqs = [];
        log = [];
      } in
      if enable_default
      then TaskQ.initialize env.pipe (gtaskq env.memory)
        >>= (λ q. done (record empty { default_taskq = some 0; taskqs = q ∷ [] }))
      else done empty

  -- The constructor of GExecutorService. `event_base` is what event_base_new gives.
  unfoldable pub new_service :
      Env P → (event_base : Option ℕ) (enable_default : Bool) → Outcome (Service P)
  unfolding new_base
  new_service env event_base enable_default = new_base env enable_default >>= (λ s.
      if enable_default
      then create_async_executor env default_executor_id s.default_taskq event_base
          (record s { default_async_event_base = event_base })
        >>= (λ r. done (record (r.1) { default_async_executor = r.0 }))
      else done s)

  -- run: event_base_dispatch, which libevent implements, is a parameter.
  unfoldable pub run :
      {S : Type 0} → (dispatch : Option ℕ → Service P → Outcome S) → Service P → Outcome S
  run dispatch s = dispatch s.default_async_event_base s

  -- The destructor of the base class, over the entries in the order of iteration: a NULL entry is
  -- an assertion of boost::shared_ptr, and after `erase(itr)` the loop increments `itr`.
  pub destroy_entries : List (String × Option ℕ) → Service P → Outcome (Service P)
  destroy_entries [] s = done s
  destroy_entries ((_, none) ∷ _) s = aborted
  destroy_entries ((_, some x) ∷ _) s = shutdown_ref x s >>= (λ _. undefined)
