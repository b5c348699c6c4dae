-- ===== src/Service/Registry.antt =====
-- The registry against the abstract map that it is meant to be (gexecutor/gexecutor_service.cc and
-- gexecutor/gexecutor_service_base.cc).
use Prim.Native.String.{String}
use gexecutor.Prelude.{
  ℕ, zero, suc, ◌+◌, ◌≡◌, refl, sym, ap, ◌∙◌, Option, none, some, List, [], ◌∷◌, ◌++◌, length,
  length-append, get_elem?, set, lookup, erase, lookup-insert, lookup-erase, str_eq, if◌then◌else◌,
  Outcome, done, ◌>>=◌, arith, inl, inr, Option-cases, Bool-cases, length-set,
}
use gexecutor.Service.Create.{get_elem?-append_last}
use gexecutor.AsyncExecutor.{AsyncExecutor, EventCall, Log}
use gexecutor.AsyncExecutor
use gexecutor.TaskQ.{gtaskq}
use gexecutor.Service.{
  Env, Service, Executor, async, add_taskq, add_executor, shutdown_of, shutdown_executor,
  create_async_executor, create_sync_executor,
}

-- What is registered under a name: the reference of an executor, and which kind it is.
pub data Entry : Type 0 where
  async_entry sync_entry : ℕ → Entry

abbrev pub ref : Entry → ℕ
ref (async_entry x) = x
ref (sync_entry x) = x

abbrev pub null_or : Option Entry → Option (Option ℕ)
null_or none = none
null_or (some e) = some (some (ref e))

-- The specification: a partial map, and how many executors there have been.
pub record Names : Type 0 where
  pub registered : String → Option Entry
  pub made : ℕ

abbrev pub put : String → Option Entry → Names → Names
put k e n = record n { registered = λ j. if str_eq k j then e else n.registered j }

-- The calls of one application, with a queue for each asynchronous executor.
pub data Call (P : Type 0) : Type 0 where
  create : Env P → (id : String) (taskq taskq_ev : ℕ) (event_base : Option ℕ) → Call P
  create_sync : Env P → (id : String) (num_workers : ℕ) → Call P
  shut : (id : String) → Call P

abbrev pub spec_create : String → Names → Option Entry → Names
spec_create id n none = record (put id (some (async_entry n.made)) n) { made = n.made + 1 }
spec_create id n (some _) = n

pub get_elem?-append_some :
    {A : Type 0} (xs ys : List A) (i : ℕ) {v : A}
    → get_elem? xs i ≡ some v
    → get_elem? (xs ++ ys) i ≡ some v
get_elem?-append_some [] ys i e = cc
get_elem?-append_some (x ∷ xs) ys zero e = e
get_elem?-append_some (x ∷ xs) ys (suc i) e = get_elem?-append_some xs ys i e

-- An element of one kind stays one when another of that kind is written.
pub get_elem?-set_kind :
    {A B : Type 0} (kind : B → A) (xs : List A) (i j : ℕ) (b : B)
    → ((a : B) × (get_elem? xs j ≡ some (kind a)))
    → (a : B) × (get_elem? (set xs i (kind b)) j ≡ some (kind a))
get_elem?-set_kind kind [] i j b (a, e) = (a, e)
get_elem?-set_kind kind (x ∷ xs) zero zero b (a, e) = (b, refl)
get_elem?-set_kind kind (x ∷ xs) zero (suc j) b (a, e) = (a, e)
get_elem?-set_kind kind (x ∷ xs) (suc i) zero b (a, e) = (a, e)
get_elem?-set_kind kind (x ∷ xs) (suc i) (suc j) b (a, e) = get_elem?-set_kind kind xs i j b (a, e)

module _ {P : Type 0} where
  abbrev pub spec_step : Call P → Names → Names
  spec_step (create env id taskq ev base) n = spec_create id n (n.registered id)
  spec_step (create_sync env id num_workers) n = record (put id (some (sync_entry n.made)) n) {
    made = n.made + 1;
  }
  spec_step (shut id) n = put id none n

  -- Only an asynchronous executor that is registered is shut down.
  abbrev pub IsAllowed : Call P → Names → Type 0
  IsAllowed (shut id) n = (x : ℕ) × (n.registered id ≡ some (async_entry x))
  IsAllowed (create env id taskq ev base) n = Unit {0}
  IsAllowed (create_sync env id num_workers) n = Unit {0}

  -- The same call of the service.
  pub step : Call P → Service P → Outcome (Service P)
  step (create env id taskq ev base) s =
      create_async_executor (record env { taskq_ev = some ev }) id (some taskq) base s >>= λ r.
      done r.1
  step (create_sync env id num_workers) s = done (create_sync_executor env id num_workers s).1
  step (shut id) s = shutdown_executor id s >>= λ r. done r.1

  pub record Represents (n : Names) (s : Service P) : Type 0 where
    pub entries : (j : String) → lookup j s.gexecutor_map ≡ null_or (n.registered j)
    pub count : n.made ≡ length s.executors
    pub kinds :
        (j : String) (x : ℕ)
        → n.registered j ≡ some (async_entry x)
        → (a : AsyncExecutor) × (get_elem? s.executors x ≡ some (async a))

  -- A new executor under the name id.
  add-Represents :
      (n : Names) (s : Service P) (id : String) (e : Entry) (x : Executor) (calls : Log)
      → Represents n s
      → ref e ≡ n.made
      → ((k : ℕ) → e ≡ async_entry k → (a : AsyncExecutor) × (x ≡ async a))
      → Represents (record (put id (some e) n) { made = n.made + 1 }) (add_executor id x calls s)
  add-Represents n s id e x calls v r h = record {
    entries = λ j.
        rw (lookup-insert id j (some (length s.executors)) s.gexecutor_map)
          (ground (arith, v.entries j));
    count = omega (arith, length-append s.executors (x ∷ []));
    kinds = λ j k f. kind j k f;
  }
    where
      kind :
          (j : String) (k : ℕ)
          → (put id (some e) n).registered j ≡ some (async_entry k)
          → (a : AsyncExecutor) × (get_elem? (s.executors ++ x ∷ []) k ≡ some (async a))
      kind j k f = elim (Bool-cases (str_eq id j)) [
        | inl same ↦
            let new : e ≡ async_entry k = ground arith in
            let (a, xa) = h k new in
            let last : k ≡ length s.executors = sym (ap ref new) ∙ r ∙ v.count in
            (a, rw (last, xa) (get_elem?-append_last s.executors (async a)))
        | inr other ↦
            let (a, g) = v.kinds j k (ground arith) in
            (a, get_elem?-append_some s.executors (x ∷ []) k g)
      ]

  step-Represents :
      (c : Call P) (n : Names) (s : Service P)
      → Represents n s
      → IsAllowed c n
      → (s' : Service P) × (step c s ≡ done s') × Represents (spec_step c n) s'
  unfolding step create_async_executor AsyncExecutor.initialize AsyncExecutor.async_executor
      create_sync_executor shutdown_executor shutdown_of
  step-Represents (create env id taskq ev base) n s v h = elim (Option-cases (n.registered id)) [
    | inl e ↦
        let a : AsyncExecutor = record (AsyncExecutor.async_executor base taskq) {
          p_taskq_ev = some ev;
          p_timer_ev = env.timer_ev;
        } in
        let calls : Log =
          (EventCall.event_new ev ∷ EventCall.event_add ev ∷ [])
          ++ AsyncExecutor.created env.timer_ev in
        (
          add_executor id (async a) calls s,
          ground (arith, v.entries id),
          rw e (
              add-Represents n s id (async_entry n.made) (async a) calls v refl (λ k _. (a, refl))),
        )
    | inr (y, e) ↦ (s, ground (arith, v.entries id), rw e v)
  ]
  step-Represents (create_sync env id num_workers) n s v h = (
    _,
    refl,
    add-Represents n (add_taskq (gtaskq env.memory) s) id (sync_entry n.made) _ []
        (record { entries = v.entries; count = v.count; kinds = v.kinds }) refl (λ k e. cc),
  )
  step-Represents (shut id) n s v (x, h) =
      let (a, g) = v.kinds id x h in
      (
        record s {
          gexecutor_map = erase id s.gexecutor_map;
          executors = set s.executors x (async (AsyncExecutor.shutdown a).0);
          log = s.log ++ (AsyncExecutor.shutdown a).1;
        },
        ground (arith, v.entries id),
        record {
          entries = λ j. rw (lookup-erase id j s.gexecutor_map) (ground (arith, v.entries j));
          count = v.count ∙ sym (length-set s.executors x (async (AsyncExecutor.shutdown a).0));
          kinds = λ j y f.
              get_elem?-set_kind async s.executors x y (AsyncExecutor.shutdown a).0
                (v.kinds j y (ground arith));
        },
      )

  pub run : List (Call P) → Service P → Outcome (Service P)
  run [] s = done s
  run (c ∷ cs) s = step c s >>= run cs

  abbrev pub spec_run : List (Call P) → Names → Names
  spec_run [] n = n
  spec_run (c ∷ cs) n = spec_run cs (spec_step c n)

  abbrev pub AllAllowed : List (Call P) → Names → Type 0
  AllAllowed [] n = Unit {0}
  AllAllowed (c ∷ cs) n = IsAllowed c n × AllAllowed cs (spec_step c n)

  -- Any sequence of CreateAsyncExecutor with a queue, CreateSyncExecutor and ShutdownExecutor, of
  -- which the last is called for registered asynchronous executors only, from a service that
  -- represents an abstract map of names: every call returns, and the service then represents the
  -- map after the same calls of the specification.
  pub run-Represents :
      (cs : List (Call P)) (n : Names) (s : Service P)
      → Represents n s
      → AllAllowed cs n
      → (s' : Service P) × (run cs s ≡ done s') × Represents (spec_run cs n) s'
  unfolding run
  run-Represents [] n s v h = (s, refl, v)
  run-Represents (c ∷ cs) n s v h =
      let (s1, e, v1) = step-Represents c n s v h.0 in
      let (s2, f, v2) = run-Represents cs (spec_step c n) s1 v1 h.1 in (s2, rw (e, ◌>>=◌) f, v2)
