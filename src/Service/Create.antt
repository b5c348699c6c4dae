-- ===== src/Service/Create.antt =====
-- CreateAsyncExecutor and CreateSyncExecutor of gexecutor/gexecutor_service.cc.
use Prim.Native.String.{String}
use text.Mathlib.TextPositions.{eq_refl}
use text.Mathlib.TextEquality.{eq_iff}
use gexecutor.Prelude.{
  ℕ, ◌≡◌, ◌≢◌, refl, Option, none, some, List, [], ◌∷◌, ◌++◌, length, get_elem?, lookup,
  lookup-insert, str_eq, if◌then◌else◌, done, undefined, >>=-eq-done, arith,
}
use gexecutor.Pipe.{Pipe}
use gexecutor.TaskQ.{GTaskSharedPtr, gtaskq, enqueue_gtask}
use gexecutor.AsyncExecutor.{AsyncExecutor, EventCall, Log}
use gexecutor.AsyncExecutor
use gexecutor.SyncExecutor.{SyncExecutor, sync_executor}
use gexecutor.SyncExecutor
use gexecutor.Service.{
  Env, Service, Executor, async, sync, add_taskq, add_executor, taskq_or_new, register_async,
  create_async_executor, create_sync_executor, find_executor,
}

pub get_elem?-append_last {ℓ} :
    {A : Type ℓ} (xs : List A) (x : A) → get_elem? (xs ++ x ∷ []) (length xs) ≡ some x
get_elem?-append_last [] x = refl
get_elem?-append_last (y ∷ xs) x = get_elem?-append_last xs x

module _ {P : Type 0} where
  -- A new executor is found under its name, and every other name finds what it found before.
  pub find-add_executor :
      (k j : String) (x : Executor) (calls : Log) (s : Service P)
      → find_executor j (add_executor k x calls s)
        ≡ (if str_eq k j then some (length s.executors) else find_executor j s)
  unfolding find_executor
  find-add_executor k j x calls s =
      rw (lookup-insert k j (some (length s.executors)) s.gexecutor_map) (ground arith)

  pub find-add_executor_self :
      (k : String) (x : Executor) (calls : Log) (s : Service P)
      → find_executor k (add_executor k x calls s) ≡ some (length s.executors)
  find-add_executor_self k x calls s = rw (find-add_executor k k x calls s, eq_refl k)

  pub find-add_executor_ne :
      (k j : String) (x : Executor) (calls : Log) (s : Service P)
      → k ≢ j
      → find_executor j (add_executor k x calls s) ≡ find_executor j s
  find-add_executor_ne k j x calls s h =
      rw (find-add_executor k j x calls s) (ground (arith, eq_iff k j))

  -- CreateAsyncExecutor under a name that is not in the map, given a queue, where event_new succeeds:
  -- it returns a new executor on that queue with the new event, which the name finds from now on,
  -- and every other name finds what it found before.
  create_async_new :
      (env : Env P) (id : String) (q ev : ℕ) (base : Option ℕ) (s : Service P)
      → lookup id s.gexecutor_map ≡ none
      → env.taskq_ev ≡ some ev
      → (x : ℕ) × (a : AsyncExecutor) × (s' : Service P) × (create_async_executor env id
            (some q)
            base
            s
          ≡ done (some x, s'))
        × (find_executor id s' ≡ some x)
        × (get_elem? s'.executors x ≡ some (async a))
        × (a.p_taskq ≡ q)
        × (a.p_taskq_ev ≡ some ev)
        × ((j : String) → id ≢ j → find_executor j s' ≡ find_executor j s)
  unfolding create_async_executor AsyncExecutor.initialize AsyncExecutor.async_executor
  create_async_new env id q ev base s h e =
      let a : AsyncExecutor = record (AsyncExecutor.async_executor base q) {
        p_taskq_ev = some ev;
        p_timer_ev = env.timer_ev;
      } in
      let calls : Log =
        (EventCall.event_new ev ∷ EventCall.event_add ev ∷ [])
        ++ AsyncExecutor.created env.timer_ev in
      (
        length s.executors,
        a,
        add_executor id (async a) calls s,
        ground arith,
        find-add_executor_self id (async a) calls s,
        get_elem?-append_last s.executors (async a),
        refl,
        refl,
        λ j n. find-add_executor_ne id j (async a) calls s n,
      )

  register_async-lookup :
      (env : Env P) (id : String) (q : ℕ) (base : Option ℕ) (s : Service P) {r : Option ℕ}
      {s' : Service P}
      → register_async env id q base s ≡ done (r, s')
      → lookup id s'.gexecutor_map ≡ some r
  unfolding register_async
  register_async-lookup env id q base s {r} {s'} e =
      ground (arith, lookup-insert id id (some (length s.executors)) s.gexecutor_map, eq_refl id)

  -- After any CreateAsyncExecutor that returns, a second one under the same name, given any queue
  -- and whatever the system calls return, returns the same executor and changes nothing.
  pub create_async_again :
      (env env' : Env P) (id : String) (q base base' : Option ℕ) (q' : ℕ) (s : Service P)
      {x : Option ℕ} {s' : Service P}
      → create_async_executor env id q base s ≡ done (x, s')
      → create_async_executor env' id (some q') base' s' ≡ done (x, s')
  unfolding create_async_executor
  create_async_again env env' id q base base' q' s e =
      let (r, f, g) =
        >>=-eq-done (taskq_or_new env q s) (λ r. register_async env id r.0 base r.1) e in
      rw (register_async-lookup env id r.0 base r.1 g, register_async)

  -- CreateSyncExecutor returns a new synchronous executor, which the name finds from now on, whatever
  -- it found before, and every other name finds what it found before. The queue of the new executor
  -- has not been initialized: to put any task on it is undefined behaviour.
  pub create_sync_lem :
      (env : Env P) (id : String) (n : ℕ) (s : Service P)
      → let r = create_sync_executor env id n s in
        (x : ℕ) × (a : SyncExecutor) × (r.0 ≡ some x)
        × (find_executor id r.1 ≡ some x)
        × (get_elem? r.1.executors x ≡ some (sync a))
        × ((j : String) → id ≢ j → find_executor j r.1 ≡ find_executor j s)
        × (get_elem? r.1.taskqs a.p_taskq ≡ some (gtaskq env.memory))
        × ((io : Pipe P) (task : GTaskSharedPtr)
            → enqueue_gtask io task (gtaskq {P = P} env.memory) ≡ undefined)
  unfolding create_sync_executor SyncExecutor.initialize sync_executor gtaskq enqueue_gtask
      find_executor
  create_sync_lem env id n s =
      let a = SyncExecutor.initialize env.created (sync_executor (length s.taskqs) n) in
      let own : a.p_taskq ≡ length s.taskqs = ground arith in
      let s' = add_taskq (gtaskq env.memory) s in
      (
        length s.executors,
        a,
        refl,
        find-add_executor_self id (sync a) [] s',
        get_elem?-append_last s.executors (sync a),
        (λ j h. find-add_executor_ne id j (sync a) [] s' h),
        rw own (get_elem?-append_last s.taskqs (gtaskq env.memory)),
        λ io task. refl,
      )
