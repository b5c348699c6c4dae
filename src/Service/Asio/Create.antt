-- ===== src/Service/Asio/Create.antt =====
-- CreateAsyncExecutor and CreateSyncExecutor of gexecutor/asio/gexecutor_service_asio.cc.
use Prim.Native.String.{String}
use text.Mathlib.TextEquality.{eq_iff}
use gexecutor.Prelude.{
  ℕ, ◌≡◌, ◌≢◌, refl, none, some, List, [], ◌∷◌, ◌++◌, length, get_elem?, set, get_elem?-set_self,
  lookup, ap, pos, done, arith,
}
use gexecutor.TaskQ.{GTaskQ, gtaskq}
use gexecutor.TaskQ
use gexecutor.AsioExecutor.{AsioExecutor, IoService, default_io_service, asio_executor, starts}
use gexecutor.AsioExecutor
use gexecutor.Service.{
  Env, Service, async_asio, add_taskq, add_executor, taskq_or_new, find_executor, shutdown_of,
  shutdown_executor,
}
use gexecutor.Service.Create.{get_elem?-append_last, find-add_executor_self, find-add_executor_ne}
use gexecutor.Service.Shutdown.{ended, shutdown_executor-ended, find-ended}
use gexecutor.Service.Asio.{new_initialized, register_asio, create_async_asio, create_sync_asio}

set-append_last {ℓ} :
    {A : Type ℓ} (xs : List A) (x y : A) → set (xs ++ x ∷ []) (length xs) y ≡ xs ++ y ∷ []
set-append_last [] x y = refl
set-append_last (z ∷ xs) x y = ap (λ ys. z ∷ ys) (set-append_last xs x y)

-- An executor that has been initialized once.
abbrev pub begun : IoService → ℕ → AsioExecutor
unfolding asio_executor
begun svc taskq = record (asio_executor svc taskq) { calls = starts }

module _ {P : Type 0} where
  -- The queue with a new pipe.
  abbrev pub repiped : (taskq : ℕ) → GTaskQ P → P → Service P → Service P
  repiped taskq q pipe s = record s {
    taskqs = set s.taskqs taskq (record q { pipefds = some pipe });
  }

  -- A queue of the service gets the new pipe.
  pub new_initialized-runs :
      (pipe : P) (svc : IoService) (taskq : ℕ) (s : Service P) {q : GTaskQ P}
      → get_elem? s.taskqs taskq ≡ some q
      → new_initialized (some pipe) svc taskq s ≡ done (begun svc taskq, repiped taskq q pipe s)
  unfolding new_initialized AsioExecutor.initialize TaskQ.initialize asio_executor begun
  new_initialized-runs pipe svc taskq s e = ground arith

  -- CreateAsyncExecutor under a name that is not in the map, given a queue, where pipe2 succeeds: it
  -- returns a new executor on that queue, which the name finds from now on, and every other name finds
  -- what it found before. The queue keeps its tasks, but gets a new pipe: the bytes that were written for
  -- these tasks are gone.
  create_async_asio_lem :
      (env : Env P) (id : String) (taskq : ℕ) (pipe : P) (svc : IoService) (q : GTaskQ P)
      (s : Service P)
      → lookup id s.gexecutor_map ≡ none
      → get_elem? s.taskqs taskq ≡ some q
      → (x : ℕ) × (s' : Service P) × (create_async_asio env (some pipe) id (some taskq) svc s
          ≡ done (some x, s'))
        × (find_executor id s' ≡ some x)
        × (x ≡ length s.executors)
        × (s'.executors ≡ s.executors ++ async_asio (begun svc taskq) ∷ [])
        × ((j : String) → id ≢ j → find_executor j s' ≡ find_executor j s)
        × (get_elem? s'.taskqs taskq ≡ some (record q { pipefds = some pipe }))
  unfolding create_async_asio register_asio taskq_or_new find_executor
  create_async_asio_lem env id taskq pipe svc q s absent e =
      let s1 = repiped taskq q pipe s in
      (
        length s.executors,
        add_executor id (async_asio (begun svc taskq)) [] s1,
        ground (arith, new_initialized-runs pipe svc taskq s e),
        find-add_executor_self id (async_asio (begun svc taskq)) [] s1,
        refl,
        refl,
        λ j h. find-add_executor_ne id j (async_asio (begun svc taskq)) [] s1 h,
        get_elem?-set_self s.taskqs taskq (record q { pipefds = some pipe }) e,
      )

  -- CreateSyncExecutor, where pipe2 succeeds, for any number of workers: it returns a new asynchronous
  -- executor, on a new queue with nothing in it and the new pipe, and on the service's io_service. The
  -- name finds it from now on, whatever it found before, and every other name finds what it found.
  pub create_sync_asio_lem :
      (env : Env P) (id : String) (pipe : P) (n : ℕ) (s : Service P)
      → (x taskq : ℕ) × (s' : Service P) × (create_sync_asio env (some pipe) id n s
          ≡ done (some x, s'))
        × (find_executor id s' ≡ some x)
        × (get_elem? s'.executors x ≡ some (async_asio (begun default_io_service taskq)))
        × ((j : String) → id ≢ j → find_executor j s' ≡ find_executor j s)
        × (get_elem? s'.taskqs taskq ≡ some (record (gtaskq env.memory) { pipefds = some pipe }))
        × (taskq ≡ length s.taskqs)
  unfolding create_sync_asio find_executor
  create_sync_asio_lem env id pipe n s =
      let taskq = length s.taskqs in
      let new : GTaskQ P = gtaskq env.memory in
      let s0 = add_taskq new s in
      let found = get_elem?-append_last s.taskqs new in
      let s1 = repiped taskq new pipe s0 in
      let a = async_asio (begun default_io_service taskq) in
      (
        length s.executors,
        taskq,
        add_executor id a [] s1,
        rw (new_initialized-runs pipe default_io_service taskq s0 found) refl,
        find-add_executor_self id a [] s1,
        get_elem?-append_last s.executors a,
        λ j h. find-add_executor_ne id j a [] s1 h,
        get_elem?-set_self s0.taskqs taskq (record new { pipefds = some pipe }) found,
        refl,
      )

  -- CreateAsyncExecutor as above and then ShutdownExecutor under the same name: the code is 0, the
  -- executor has been shut down, and every name, this one too, finds what it found before the two calls.
  pub create_async_asio-shutdown :
      (env : Env P) (id : String) (taskq : ℕ) (pipe : P) (svc : IoService) (q : GTaskQ P)
      (s : Service P)
      → lookup id s.gexecutor_map ≡ none
      → get_elem? s.taskqs taskq ≡ some q
      → (x : ℕ) × (s' s'' : Service P) × (create_async_asio env (some pipe) id (some taskq) svc s
          ≡ done (some x, s'))
        × (get_elem? s'.taskqs taskq ≡ some (record q { pipefds = some pipe }))
        × (shutdown_executor id s' ≡ done (pos 0, s''))
        × ((j : String) → find_executor j s'' ≡ find_executor j s)
        × (s''.executors ≡ s.executors ++ async_asio (AsioExecutor.shutdown (begun svc taskq)) ∷ [])
  unfolding shutdown_of find_executor
  create_async_asio-shutdown env id taskq pipe svc q s absent e =
      let (x, s', made, found, at, grown, others, repiped_queue) =
        create_async_asio_lem env id taskq pipe svc q s absent e in
      let a = begun svc taskq in
      let a' = async_asio (AsioExecutor.shutdown a) in
      let there : get_elem? s'.executors x ≡ some (async_asio a) =
        rw (at, grown) (get_elem?-append_last s.executors (async_asio a)) in
      (
        x,
        s',
        ended id x a' [] s',
        made,
        repiped_queue,
        shutdown_executor-ended id x (async_asio a) a' [] s' found there refl,
        λ j. rw (find-ended id j x a' [] s') (ground (arith, others j, eq_iff id j)),
        rw (at, grown) (set-append_last s.executors (async_asio a) a'),
      )
