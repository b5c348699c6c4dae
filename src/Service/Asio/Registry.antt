-- ===== src/Service/Asio/Registry.antt =====
-- The registry of gexecutor/asio/gexecutor_service_asio.cc against the abstract map that it is meant
-- to be.
use Prim.Native.String.{String}
use gexecutor.Prelude.{
  ℕ, ◌+◌, ◌<◌, ◌≡◌, refl, sym, ◌∙◌, Bool, Option, none, some, List, [], ◌∷◌, ◌++◌, length,
  length-append, length-set, get_elem?, get_elem?-below, set, lookup, erase, lookup-insert,
  lookup-erase, str_eq, if◌then◌else◌, Outcome, done, ◌>>=◌, arith, inl, inr, Option-cases,
  Bool-cases,
}
use gexecutor.TaskQ.{GTaskQ, gtaskq}
use gexecutor.AsioExecutor.{AsioExecutor, IoService, default_io_service, asio_executor, starts}
use gexecutor.AsioExecutor
use gexecutor.Service.{
  Env, Service, async_asio, add_taskq, add_executor, taskq_or_new, shutdown_of, shutdown_executor,
}
use gexecutor.Service.Create.{get_elem?-append_last}
use gexecutor.Service.Asio.Create.{begun, repiped, new_initialized-runs}
use gexecutor.Service.Registry.{get_elem?-append_some, get_elem?-set_kind}
use gexecutor.Service.Asio.{register_asio, create_async_asio, create_sync_asio}

-- The specification: which executor a name has, how many there have been, and how many queues.
pub record Names : Type 0 where
  pub registered : String → Option ℕ
  pub made : ℕ
  pub queues : ℕ

abbrev pub put : String → Option ℕ → Names → Names
put k e n = record n { registered = λ j. if str_eq k j then e else n.registered j }

abbrev pub null_or : Option ℕ → Option (Option ℕ)
null_or none = none
null_or (some x) = some (some x)

-- The calls, where pipe2 succeeds: `pipe` is the new executor's.
pub data Call (P : Type 0) : Type 0 where
  create : (pipe : P) (id : String) (taskq : ℕ) → IoService → Call P
  create_sync : (memory : Bool) (pipe : P) (id : String) (num_workers : ℕ) → Call P
  shut : (id : String) → Call P

abbrev pub spec_create : String → Names → Option ℕ → Names
spec_create id n none = record (put id (some n.made) n) { made = n.made + 1 }
spec_create id n (some _) = n

module _ {P : Type 0} where
  abbrev pub spec_step : Call P → Names → Names
  spec_step (create pipe id taskq svc) n = spec_create id n (n.registered id)
  spec_step (create_sync memory pipe id num_workers) n = record (put id (some n.made) n) {
    made = n.made + 1;
    queues = n.queues + 1;
  }
  spec_step (shut id) n = put id none n

  -- The queue exists, and the name is registered.
  abbrev pub IsAllowed : Call P → Names → Type 0
  IsAllowed (create pipe id taskq svc) n = taskq < n.queues
  IsAllowed (create_sync memory pipe id num_workers) n = Unit {0}
  IsAllowed (shut id) n = (x : ℕ) × (n.registered id ≡ some x)

  -- The same call of the service; `env` is for what it does not ask the system for.
  pub step : Env P → Call P → Service P → Outcome (Service P)
  step env (create pipe id taskq svc) s =
      create_async_asio env (some pipe) id (some taskq) svc s >>= λ r. done r.1
  step env (create_sync memory pipe id num_workers) s =
      create_sync_asio (record env { memory = memory }) (some pipe) id num_workers s >>= λ r.
      done r.1
  step env (shut id) s = shutdown_executor id s >>= λ r. done r.1

  pub record Represents (n : Names) (s : Service P) : Type 0 where
    pub entries : (j : String) → lookup j s.gexecutor_map ≡ null_or (n.registered j)
    pub count : n.made ≡ length s.executors
    pub queues : n.queues ≡ length s.taskqs
    pub kinds :
        (j : String) (x : ℕ)
        → n.registered j ≡ some x
        → (a : AsioExecutor) × (get_elem? s.executors x ≡ some (async_asio a))

  -- A new executor under the name id.
  add-Represents :
      (n : Names) (s : Service P) (id : String) (a : AsioExecutor)
      → Represents n s
      → Represents
          (record (put id (some n.made) n) { made = n.made + 1 })
          (add_executor id (async_asio a) [] s)
  add-Represents n s id a v = record {
    entries = λ j.
        rw (lookup-insert id j (some (length s.executors)) s.gexecutor_map)
          (ground (arith, v.entries j));
    count = omega (arith, length-append s.executors (async_asio a ∷ []));
    queues = v.queues;
    kinds = λ j k f. elim (Bool-cases (str_eq id j)) [
      | inl same ↦
          let last : k ≡ length s.executors = ground arith in
          (a, rw last (get_elem?-append_last s.executors (async_asio a)))
      | inr other ↦
          let (b, g) = v.kinds j k (ground arith) in
          (b, get_elem?-append_some s.executors (async_asio a ∷ []) k g)
    ];
  }

  step-Represents :
      (env : Env P) (c : Call P) (n : Names) (s : Service P)
      → Represents n s
      → IsAllowed c n
      → (s' : Service P) × (step env c s ≡ done s') × Represents (spec_step c n) s'
  unfolding step create_async_asio create_sync_asio register_asio taskq_or_new shutdown_executor
      shutdown_of
  step-Represents env (create pipe id taskq svc) n s v h = elim (Option-cases (n.registered id)) [
    | inl e ↦
        let (q, there) = get_elem?-below s.taskqs taskq (omega (arith, v.queues, h)) in
        let s1 = repiped taskq q pipe s in
        let v1 : Represents n s1 = record {
          entries = v.entries;
          count = v.count;
          queues = v.queues ∙ sym (length-set s.taskqs taskq (record q { pipefds = some pipe }));
          kinds = v.kinds;
        } in
        (
          add_executor id (async_asio (begun svc taskq)) [] s1,
          ground (arith, new_initialized-runs pipe svc taskq s there, v.entries id),
          rw e (add-Represents n s1 id (begun svc taskq) v1),
        )
    | inr (y, e) ↦ (s, ground (arith, v.entries id), rw e v)
  ]
  step-Represents env (create_sync memory pipe id num_workers) n s v h =
      let taskq = length s.taskqs in
      let new : GTaskQ P = gtaskq memory in
      let found = get_elem?-append_last s.taskqs new in
      let s0 = add_taskq new s in
      let s1 = repiped taskq new pipe s0 in
      let a = begun default_io_service taskq in
      let v1 : Represents (record n { queues = n.queues + 1 }) s1 = record {
        entries = v.entries;
        count = v.count;
        queues = omega (
          arith,
          v.queues,
          length-set s0.taskqs taskq (record new { pipefds = some pipe }),
          length-append s.taskqs (new ∷ []),
        );
        kinds = v.kinds;
      } in
      (
        add_executor id (async_asio a) [] s1,
        rw (new_initialized-runs pipe default_io_service taskq s0 found) refl,
        add-Represents (record n { queues = n.queues + 1 }) s1 id a v1,
      )
  step-Represents env (shut id) n s v (x, h) =
      let (a, g) = v.kinds id x h in
      (
        record s {
          gexecutor_map = erase id s.gexecutor_map;
          executors = set s.executors x (async_asio (AsioExecutor.shutdown a));
          log = s.log ++ [];
        },
        ground (arith, v.entries id),
        record {
          entries = λ j. rw (lookup-erase id j s.gexecutor_map) (ground (arith, v.entries j));
          count = v.count ∙ sym (length-set s.executors x (async_asio (AsioExecutor.shutdown a)));
          queues = v.queues;
          kinds = λ j y f.
              get_elem?-set_kind async_asio s.executors x y (AsioExecutor.shutdown a)
                (v.kinds j y (ground arith));
        },
      )

  pub run : Env P → List (Call P) → Service P → Outcome (Service P)
  run env [] s = done s
  run env (c ∷ cs) s = step env c s >>= run env cs

  abbrev pub spec_run : List (Call P) → Names → Names
  spec_run [] n = n
  spec_run (c ∷ cs) n = spec_run cs (spec_step c n)

  abbrev pub AllAllowed : List (Call P) → Names → Type 0
  AllAllowed [] n = Unit {0}
  AllAllowed (c ∷ cs) n = IsAllowed c n × AllAllowed cs (spec_step c n)

  -- Any sequence of CreateAsyncExecutor with a queue, CreateSyncExecutor, both where pipe2 succeeds, and
  -- ShutdownExecutor of registered executors, of either origin, from a service that represents an
  -- abstract map of names: every call returns, and the service then represents the map after the same
  -- calls of the specification.
  pub run_asio-Represents :
      (env : Env P) (cs : List (Call P)) (n : Names) (s : Service P)
      → Represents n s
      → AllAllowed cs n
      → (s' : Service P) × (run env cs s ≡ done s') × Represents (spec_run cs n) s'
  unfolding run
  run_asio-Represents env [] n s v h = (s, refl, v)
  run_asio-Represents env (c ∷ cs) n s v h =
      let (s1, e, v1) = step-Represents env c n s v h.0 in
      let (s2, f, v2) = run_asio-Represents env cs (spec_step c n) s1 v1 h.1 in
      (s2, rw (e, ◌>>=◌) f, v2)
