-- ===== src/Service/Shutdown.antt =====
-- ShutdownExecutor and the destructor of gexecutor/gexecutor_service_base.cc.
use Prim.Native.String.{String}
use text.Mathlib.TextPositions.{eq_refl}
use text.Mathlib.TextEquality.{eq_iff}
use gexecutor.Prelude.{
  ℕ, ◌≡◌, ◌≢◌, refl, Option, none, some, List, [], ◌∷◌, ◌++◌, pos, negsuc, get_elem?, set, lookup,
  insert, erase, lookup-insert, lookup-erase, str_eq, if◌then◌else◌, done, undefined, aborted,
  Outcome, ◌>>=◌, length, >>=-eq-done, arith, inl, inr, Option-cases,
}
use gexecutor.AsyncExecutor.{AsyncExecutor, Log}
use gexecutor.AsyncExecutor
use gexecutor.TaskQ.{GTaskQ, gtaskq}
use gexecutor.TaskQ
use gexecutor.Service.{
  Env, Service, Executor, async, find_executor, shutdown_ref, shutdown_of, shutdown_executor,
  create_async_executor, destroy_entries, add_taskq, taskq_or_new, register_async,
}

module _ {P : Type 0} where
  -- The service without the name, and with one executor shut down.
  abbrev pub ended : String → (x : ℕ) → Executor → Log → Service P → Service P
  ended id x e calls s = record s {
    gexecutor_map = erase id s.gexecutor_map;
    executors = set s.executors x e;
    log = s.log ++ calls;
  }

  pub shutdown_executor-ended :
      (id : String) (x : ℕ) (e e' : Executor) (calls : Log) (s : Service P)
      → find_executor id s ≡ some x
      → get_elem? s.executors x ≡ some e
      → shutdown_of e ≡ done (e', calls)
      → shutdown_executor id s ≡ done (pos 0, ended id x e' calls s)
  unfolding shutdown_executor find_executor
  shutdown_executor-ended id x e e' calls s f g h = ground arith

  pub find-ended :
      (id j : String) (x : ℕ) (e : Executor) (calls : Log) (s : Service P)
      → find_executor j (ended id x e calls s) ≡ (if str_eq id j then none else find_executor j s)
  unfolding find_executor
  find-ended id j x e calls s = rw (lookup-erase id j s.gexecutor_map) (ground arith)

  -- ShutdownExecutor with the name of an asynchronous executor returns 0 and shuts that executor
  -- down: its state and its calls of libevent are those of GAsyncExecutor::Shutdown. The name then
  -- finds nothing, and every other name and executor is what it was.
  pub shutdown_async :
      (id : String) (x : ℕ) (a : AsyncExecutor) (s : Service P)
      → find_executor id s ≡ some x
      → get_elem? s.executors x ≡ some (async a)
      → (s' : Service P) × (shutdown_executor id s ≡ done (pos 0, s'))
        × (find_executor id s' ≡ none)
        × ((j : String) → id ≢ j → find_executor j s' ≡ find_executor j s)
        × (s'.executors ≡ set s.executors x (async (AsyncExecutor.shutdown a).0))
        × (s'.log ≡ s.log ++ (AsyncExecutor.shutdown a).1)
  unfolding shutdown_of
  shutdown_async id x a s f e =
      let a' = async (AsyncExecutor.shutdown a).0 in
      let calls = (AsyncExecutor.shutdown a).1 in
      (
        ended id x a' calls s,
        shutdown_executor-ended id x (async a) a' calls s f e refl,
        rw (find-ended id id x a' calls s, eq_refl id),
        λ j h. rw (find-ended id j x a' calls s) (ground (arith, eq_iff id j)),
        refl,
        refl,
      )

  -- CreateAsyncExecutor where the name has a NULL entry.
  again :
      (id : String) (env : Env P) (q : ℕ) (base : Option ℕ) (t : Service P)
      → lookup id t.gexecutor_map ≡ some none
      → create_async_executor env id (some q) base t ≡ done (none, t)
  unfolding create_async_executor taskq_or_new register_async
  again id env q base t e = ground arith

  after :
      (id : String) (env : Env P) (base : Option ℕ) (t : Service P) (o : Outcome (GTaskQ P))
      → lookup id t.gexecutor_map ≡ some none
      → ◌>>=◌ {A = ℕ × Service P}
          (o >>= (λ q. done (length t.taskqs, add_taskq q t)))
          (λ r. register_async env id r.0 base r.1)
        ≡ (o >>= (λ q. done (none, record t { taskqs = t.taskqs ++ q ∷ [] })))
  unfolding register_async
  after id env base t (done q) e = ground arith
  after id env base t undefined e = refl
  after id env base t aborted e = refl

  again_null :
      (id : String) (env : Env P) (base : Option ℕ) (t : Service P)
      → lookup id t.gexecutor_map ≡ some none
      → create_async_executor env id none base t ≡ (
          TaskQ.initialize env.pipe (gtaskq env.memory)
          >>= (λ q. done (none, record t { taskqs = t.taskqs ++ q ∷ [] })))
  unfolding create_async_executor taskq_or_new
  again_null id env base t e = after id env base t (TaskQ.initialize env.pipe (gtaskq env.memory)) e

  -- ShutdownExecutor with a name that finds no executor returns -1, and every name finds what it
  -- found before. But the name now has a NULL entry: a CreateAsyncExecutor that follows under that
  -- name returns NULL, whatever the system calls return. With a queue it changes nothing; with a NULL
  -- queue it makes a queue and initializes it, which nothing has afterwards, and changes nothing else.
  pub shutdown_unknown :
      (id : String) (s : Service P)
      → find_executor id s ≡ none
      → (s' : Service P) × (shutdown_executor id s ≡ done (negsuc 0, s'))
        × ((j : String) → find_executor j s' ≡ find_executor j s)
        × ((env : Env P) (q : ℕ) (base : Option ℕ)
            → create_async_executor env id (some q) base s' ≡ done (none, s'))
        × ((env : Env P) (base : Option ℕ)
            → create_async_executor env id none base s' ≡ (
                TaskQ.initialize env.pipe (gtaskq env.memory)
                >>= (λ q. done (none, record s' { taskqs = s'.taskqs ++ q ∷ [] }))))
  unfolding shutdown_executor find_executor
  shutdown_unknown id s f = elim (Option-cases (lookup id s.gexecutor_map)) [
    | inl e ↦
        let s' = record s { gexecutor_map = insert id none s.gexecutor_map } in
        let entry : lookup id s'.gexecutor_map ≡ some none =
          ground (arith, lookup-insert id id none s.gexecutor_map, eq_refl id) in
        (
          s',
          ground (arith, lookup-insert id id none s.gexecutor_map, eq_refl id),
          λ j. ground (arith, lookup-insert id j none s.gexecutor_map, eq_iff id j),
          λ env q base. again id env q base s' entry,
          λ env base. again_null id env base s' entry,
        )
    | inr (v, e) ↦
        let entry : lookup id s.gexecutor_map ≡ some none = ground arith in
        (
          s,
          ground arith,
          λ j. refl,
          λ env q base. again id env q base s entry,
          λ env base. again_null id env base s entry,
        )
  ]

  -- The destructor returns for a service with no entry in its map. With an entry it never returns
  -- normally, whatever the other entries are: a NULL is an assertion, and after the shutdown of an
  -- executor the iterator that erase has invalidated is used.
  destroy_returns :
      (k : String) (x : Option ℕ) (m : List (String × Option ℕ)) (s r : Service P)
      → (destroy_entries [] s ≡ done s) × (destroy_entries ((k, x) ∷ m) s ≢ done r)
  unfolding destroy_entries
  destroy_returns k none m s r = (refl, λ e. cc e)
  destroy_returns k (some x) m s r =
      (refl, λ e. let (_, _, bad) = >>=-eq-done (shutdown_ref x s) (λ _. undefined) e in cc bad)
