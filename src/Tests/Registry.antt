-- ===== src/Tests/Registry.antt =====
-- The registry (gexecutor/gexecutor_service.cc and gexecutor/gexecutor_service_base.cc).
use Prim.Native.String.{String}
use gexecutor.Prelude.{
  ℕ, ◌≡◌, ◌≢◌, refl, true, none, some, Option, List, [], ◌∷◌, ◌++◌, pos, negsuc, get_elem?, set,
  lookup, done, ◌>>=◌, undefined, str_eq, if◌then◌else◌, arith,
}
use gexecutor.Pipe.{Pipe}
use gexecutor.TaskQ
use gexecutor.TaskQ.{GTaskSharedPtr, gtaskq, enqueue_gtask}
use gexecutor.AsyncExecutor.{AsyncExecutor}
use gexecutor.AsyncExecutor
use gexecutor.SyncExecutor.{SyncExecutor}
use gexecutor.Service.{
  Env, Service, async, sync, find_executor, taskq_or_new, register_async, create_async_executor,
  create_sync_executor, shutdown_executor,
}
use gexecutor.Service.Create.{create_async_again, create_sync_lem}
use gexecutor.Service.Shutdown.{shutdown_async, shutdown_unknown}
use gexecutor.Service.Registry.{
  async_entry, Names, Call, create, create_sync, shut, Represents, run, spec_run, run-Represents,
}

abbrev pub env : Env ℕ
env = record {
  memory = true;
  pipe = some 0;
  taskq_ev = some 50;
  timer_ev = some 51;
  created = λ _. true;
}

abbrev idle : AsyncExecutor
idle = AsyncExecutor.async_executor (some 1) 3

abbrev pub empty : Service ℕ
empty = record {
  default_taskq = none;
  default_async_executor = none;
  default_async_event_base = none;
  gexecutor_map = [];
  executors = [];
  taskqs = [];
  log = [];
}

-- One executor, "a", is registered.
abbrev one : Service ℕ
one = record empty { gexecutor_map = ("a", some 0) ∷ []; executors = async idle ∷ [] }

create_async_again_example : create_async_executor env "a" (some 9) none one ≡ done (some 0, one)
unfolding create_async_executor taskq_or_new register_async lookup
create_async_again_example = create_async_again env env "a" (some 3) (some 1) none 9 one refl

create_sync_lem_example :
    let r = create_sync_executor env "a" 2 one in
    (x : ℕ) × (a : SyncExecutor) × (r.0 ≡ some x)
    × (find_executor "a" r.1 ≡ some x)
    × (get_elem? r.1.executors x ≡ some (sync a))
    × ((j : String) → "a" ≢ j → find_executor j r.1 ≡ find_executor j one)
    × (get_elem? r.1.taskqs a.p_taskq ≡ some (gtaskq true))
    × ((io : Pipe ℕ) (task : GTaskSharedPtr)
        → enqueue_gtask io task (gtaskq {P = ℕ} true) ≡ undefined)
create_sync_lem_example = create_sync_lem env "a" 2 one

shutdown_async_example :
    (s' : Service ℕ) × (shutdown_executor "a" one ≡ done (pos 0, s'))
    × (find_executor "a" s' ≡ none)
    × ((j : String) → "a" ≢ j → find_executor j s' ≡ find_executor j one)
    × (s'.executors ≡ set one.executors 0 (async (AsyncExecutor.shutdown idle).0))
    × (s'.log ≡ one.log ++ (AsyncExecutor.shutdown idle).1)
unfolding find_executor lookup
shutdown_async_example = shutdown_async "a" 0 idle one refl refl

shutdown_unknown_example :
    (s' : Service ℕ) × (shutdown_executor "b" one ≡ done (negsuc 0, s'))
    × ((j : String) → find_executor j s' ≡ find_executor j one)
    × ((env : Env ℕ) (q : ℕ) (base : Option ℕ)
        → create_async_executor env "b" (some q) base s' ≡ done (none, s'))
    × ((env : Env ℕ) (base : Option ℕ)
        → create_async_executor env "b" none base s' ≡ (
            TaskQ.initialize env.pipe (gtaskq env.memory)
            >>= (λ q. done (none, record s' { taskqs = s'.taskqs ++ q ∷ [] }))))
unfolding find_executor lookup
shutdown_unknown_example = shutdown_unknown "b" one refl

-- "a" is the asynchronous executor 0.
abbrev names : Names
names = record { registered = λ j. if str_eq "a" j then some (async_entry 0) else none; made = 1 }

names-Represents : Represents names one
unfolding lookup
names-Represents = record {
  entries = λ j. ground arith;
  count = refl;
  kinds = λ j x e. (idle, ground arith);
}

abbrev calls : List (Call ℕ)
calls = shut "a" ∷ create env "a" 3 60 none ∷ create_sync env "b" 2 ∷ shut "a" ∷ []

run-Represents_example :
    (s' : Service ℕ) × (run calls one ≡ done s') × Represents (spec_run calls names) s'
run-Represents_example =
    run-Represents calls names one names-Represents ((0, refl), (tt, (tt, ((1, refl), tt))))
