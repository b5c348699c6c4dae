-- ===== src/Service/Starts.antt =====
-- The constructor of GExecutorService and its run, with the registry that it starts from
-- (gexecutor/gexecutor_service.cc and gexecutor/gexecutor_service.h).
use Prim.Native.String.{String}
use gexecutor.Prelude.{
  ℕ, ◌≡◌, refl, true, Option, none, some, [], ◌∷◌, ◌++◌, get_elem?, lookup, insert, str_eq,
  if◌then◌else◌, Outcome, done, arith,
}
use gexecutor.TaskQ.{gtaskq}
use gexecutor.TaskQ
use gexecutor.AsyncExecutor.{AsyncExecutor, EventCall}
use gexecutor.AsyncExecutor
use gexecutor.Service.{
  Env, Service, async, create_async_executor, new_service, new_base, default_executor_id,
  register_async, taskq_or_new, run,
}
use gexecutor.Service.Registry.{async_entry, put, Represents}

only_kind :
    (x : AsyncExecutor) (j : String) (k : ℕ)
    → (if str_eq default_executor_id j then some (async_entry 0) else none) ≡ some (async_entry k)
    → (y : AsyncExecutor) × (get_elem? (async x ∷ []) k ≡ some (async y))
only_kind x j k f = (x, ground (arith, f))

module _ {P : Type 0} where
  -- A new service with a default executor, whose system calls succeed, has one name, and its run is
  -- that of the event base of this executor.
  new_service-Represents :
      {S : Type 0} (dispatch : Option ℕ → Service P → Outcome S) (env : Env P) (p : P) (ev base : ℕ)
      → env.pipe ≡ some p
      → env.taskq_ev ≡ some ev
      → (s : Service P) × (new_service env (some base) true ≡ done s)
        × Represents
            (put default_executor_id
              (some (async_entry 0))
              (record { registered = λ _. none; made = 1 }))
            s
        × (s.default_async_executor ≡ some 0)
        × (run dispatch s ≡ dispatch (some base) s)
  unfolding new_service new_base create_async_executor TaskQ.initialize AsyncExecutor.initialize
      AsyncExecutor.async_executor run insert lookup register_async taskq_or_new
  new_service-Represents dispatch env p ev base a b =
      let x : AsyncExecutor = record (AsyncExecutor.async_executor (some base) 0) {
        p_taskq_ev = some ev;
        p_timer_ev = env.timer_ev;
      } in
      let s : Service P = record {
        default_taskq = some 0;
        default_async_executor = some 0;
        default_async_event_base = some base;
        gexecutor_map = (default_executor_id, some 0) ∷ [];
        executors = async x ∷ [];
        taskqs = record (gtaskq env.memory) { pipefds = some p } ∷ [];
        log =
            (EventCall.event_new ev ∷ EventCall.event_add ev ∷ [])
            ++ AsyncExecutor.created env.timer_ev;
      } in
      (
        s,
        rw (a, new_service) (rw b refl),
        record { entries = λ j. ground arith; count = refl; kinds = λ j k f. only_kind x j k f },
        refl,
        refl,
      )
