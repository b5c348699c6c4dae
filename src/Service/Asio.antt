-- ===== src/Service/Asio.antt =====
-- gexecutor/asio/gexecutor_service_asio.h and gexecutor/asio/gexecutor_service_asio.cc: the service
-- that makes executors on boost::asio. The base class is that of Service. A queue that the application
-- gives is one of `taskqs` too.
pub mod Create
pub mod Registry
use Prim.Native.String.{String}
use gexecutor.Prelude.{
  ℕ, Bool, Option, none, some, List, [], ◌∷◌, ◌++◌, length, get_elem?, set, lookup, insert,
  if◌then◌else◌, Outcome, done, undefined, ◌>>=◌,
}
use gexecutor.TaskQ.{gtaskq}
use gexecutor.TaskQ
use gexecutor.AsioExecutor.{AsioExecutor, IoService, default_io_service, asio_executor}
use gexecutor.AsioExecutor
use gexecutor.Service.{
  Env, Service, async_asio, default_executor_id, add_taskq, add_executor, taskq_or_new, new_base,
}

module _ {P : Type 0} where
  -- `new GAsyncExecutorAsio(io_service, taskq)` and its Initialize, which makes another pipe.
  unfoldable pub new_initialized :
      (pipe : Option P) → IoService → (taskq : ℕ) → Service P → Outcome (AsioExecutor × Service P)
  new_initialized pipe io_service taskq s = elim (get_elem? s.taskqs taskq) [
    | none ↦ undefined
    | some q ↦
        AsioExecutor.initialize pipe (asio_executor io_service taskq) q
        >>= (λ r. done (r.0, record s { taskqs = set s.taskqs taskq r.1 }))
  ]

  unfoldable pub register_asio :
      (pipe : Option P) (executor_id : String) (taskq : ℕ)
      → IoService
      → Service P
      → Outcome (Option ℕ × Service P)
  register_asio pipe executor_id taskq io_service s = elim (lookup executor_id s.gexecutor_map) [
    | some executor ↦ done (executor, s)
    | none ↦ new_initialized pipe io_service taskq s >>= (λ r.
        done (some (length r.1.executors), add_executor executor_id (async_asio r.0) [] r.1))
  ]

  -- CreateAsyncExecutor: `env.pipe` is for a queue that it makes, `pipe` for the executor's Initialize.
  unfoldable pub create_async_asio :
      Env P
      → (pipe : Option P) (executor_id : String) (p_taskq : Option ℕ) → IoService
      → Service P
      → Outcome (Option ℕ × Service P)
  unfolding register_asio new_initialized
  create_async_asio env pipe executor_id p_taskq io_service s =
      taskq_or_new env p_taskq s >>= (λ r. register_asio pipe executor_id r.0 io_service r.1)

  -- CreateSyncExecutor, which makes an asynchronous executor and does not use `num_workers`.
  unfoldable pub create_sync_asio :
      Env P
      → (pipe : Option P) (executor_id : String) (num_workers : ℕ) → Service P
      → Outcome (Option ℕ × Service P)
  unfolding new_initialized
  create_sync_asio env pipe executor_id num_workers s =
      new_initialized pipe default_io_service (length s.taskqs) (add_taskq (gtaskq env.memory) s)
      >>= (λ r.
          done (some (length r.1.executors), add_executor executor_id (async_asio r.0) [] r.1))

  -- The constructor of GExecutorServiceAsio.
  unfoldable pub new_service_asio :
      Env P → (pipe : Option P) (enable_default : Bool) → Outcome (Service P)
  unfolding create_async_asio
  new_service_asio env pipe enable_default = new_base env enable_default >>= (λ s.
      if enable_default
      then create_async_asio env pipe default_executor_id s.default_taskq default_io_service s
        >>= (λ r. done (record (r.1) { default_async_executor = r.0 }))
      else done s)

  -- run: the run of an io_service, which boost::asio implements, is a parameter.
  unfoldable pub run_asio_service :
      {S : Type 0} → (io_run : IoService → Service P → Outcome S) → Service P → Outcome S
  run_asio_service io_run s = io_run default_io_service s
