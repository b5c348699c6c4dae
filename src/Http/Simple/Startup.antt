-- ===== src/Http/Simple/Startup.antt =====
-- The constructor and Initialize of SimpleHttpServer
-- (samples/simple_http_server/simple_http_server.cc), which makes its executors in a service.
use gexecutor.Prelude.{
  ℕ, ◌+◌, ◌≡◌, refl, ap, Bool, true, false, Option, none, some, ◌++◌, length, length-append, insert,
  lookup, get_elem?, set, ℤ, pos, Outcome, done, aborted, undefined, ◌>>=◌, arith,
}
use gexecutor.TaskQ.{GTaskQ, gtaskq}
use gexecutor.TaskQ
use gexecutor.AsyncExecutor
use gexecutor.AsioExecutor
use gexecutor.SyncExecutor.{SyncExecutor, sync_executor}
use gexecutor.SyncExecutor
use gexecutor.SyncExecutor.Workers.{initialize_workers}
use gexecutor.Service.{
  Env, Service, Executor, async, async_asio, sync, taskq_of, default_executor_id, taskq_or_new,
  register_async, new_service, new_base, create_async_executor, create_sync_executor,
}

-- The server: its queues and executors are references into the service's, or NULL.
pub record SimpleState (P : Type 0) : Type 0 where
  pub event_base : Option ℕ
  pub evhttp : Option ℕ
  pub socket_handle : Option ℕ
  pub gencb : Bool
  pub executors : Service P
  pub async_taskq : Option ℕ
  pub sync_taskq : Option ℕ
  pub async_executor : Option ℕ
  pub sync_executor : Option ℕ

-- `executor->taskq()`, with the assertion of boost::shared_ptr.
abbrev pub taskq_ref : {P : Type 0} → Option ℕ → Service P → Outcome ℕ
taskq_ref none s = aborted
taskq_ref (some x) s = elim (get_elem? s.executors x) [
  | none ↦ undefined
  | some e ↦ done (taskq_of e)
]

module _ {P : Type 0} where
  -- The virtual Initialize of an executor, in the service that it belongs to.
  unfoldable pub initialize_of : Env P → Executor → Service P → Outcome (Executor × Service P)
  initialize_of env (async x) s =
      AsyncExecutor.initialize env.taskq_ev env.timer_ev x
      >>= (λ r. done (async r.0, record s { log = s.log ++ r.1 }))
  initialize_of env (async_asio x) s = elim (get_elem? s.taskqs x.p_taskq) [
    | none ↦ undefined
    | some q ↦
        AsioExecutor.initialize env.pipe x q
        >>= (λ r. done (async_asio r.0, record s { taskqs = set s.taskqs x.p_taskq r.1 }))
  ]
  initialize_of env (sync x) s = done (sync (SyncExecutor.initialize env.created x), s)

  unfoldable pub initialize_executor : Env P → Option ℕ → Service P → Outcome (Service P)
  unfolding initialize_of
  initialize_executor env none s = aborted
  initialize_executor env (some x) s = elim (get_elem? s.executors x) [
    | none ↦ undefined
    | some e ↦
        initialize_of env e s >>= (λ r. done (record (r.1) { executors = set r.1.executors x r.0 }))
  ]

  -- A queue that has a pipe already gets a new one, and the old one stays open.
  unfoldable pub initialize_taskq : Option P → Option ℕ → Service P → Outcome (Service P)
  initialize_taskq pipe none s = aborted
  initialize_taskq pipe (some q) s = elim (get_elem? s.taskqs q) [
    | none ↦ undefined
    | some taskq ↦
        TaskQ.initialize pipe taskq >>= (λ r. done (record s { taskqs = set s.taskqs q r }))
  ]

  -- The constructor from CreateAsyncExecutor on.
  pub create_executors : Env P → (num_sync_workers : ℕ) → SimpleState P → Outcome (SimpleState P)
  create_executors env num_sync_workers s =
      create_async_executor env default_executor_id none s.event_base s.executors >>= (λ a.
        taskq_ref a.0 a.1 >>= (λ async_taskq.
          let b = create_sync_executor env "sync" num_sync_workers a.1 in
          taskq_ref b.0 b.1 >>= (λ sync_taskq. done (record s {
            executors = b.1;
            async_executor = a.0;
            async_taskq = some async_taskq;
            sync_executor = b.0;
            sync_taskq = some sync_taskq;
          }))))

  unfoldable pub simple_server :
      Env P → (event_base evhttp : Option ℕ) (num_sync_workers : ℕ) → Outcome (SimpleState P)
  unfolding create_executors
  simple_server env event_base evhttp num_sync_workers =
      new_service env event_base true >>= (λ executors.
        let s : SimpleState P = record {
          event_base = event_base;
          evhttp = none;
          socket_handle = none;
          gencb = false;
          executors = executors;
          async_taskq = none;
          sync_taskq = none;
          async_executor = none;
          sync_executor = none;
        } in
        elim event_base [
          | none ↦ done s
          | some _ ↦ elim evhttp [
            | none ↦ done s
            | some http ↦
                create_executors env num_sync_workers
                  (record s { evhttp = some http; gencb = true })
          ]
        ])

  -- Initialize; each call may get a pipe and events of its own.
  unfoldable pub initialize :
      (socket : Option ℕ) (errno : ℕ)
      → Env P
      → (sync_pipe : Option P) → SimpleState P
      → Outcome (ℤ × SimpleState P)
  initialize socket errno env sync_pipe s = elim s.evhttp [
    | none ↦ undefined
    | some _ ↦ elim socket [
      | none ↦ done (pos errno, s)
      | some handle ↦ initialize_taskq env.pipe s.async_taskq s.executors >>= (λ e.
          initialize_taskq sync_pipe s.sync_taskq e >>= (λ e.
            initialize_executor env s.async_executor e >>= (λ e.
              initialize_executor env s.sync_executor e
              >>= (λ e. done (pos 0, record s { socket_handle = some handle; executors = e })))))
    ]
  ]

  -- event_base_dispatch, which libevent implements, is a parameter: what it makes of an event base,
  -- with the server as it is then. The codes of Run and of Initialize are not looked at.
  unfoldable pub run :
      {S : Type 0}
      → (dispatch : Option ℕ → SimpleState P → Outcome S) → SimpleState P
      → Outcome (ℤ × S)
  run dispatch s = dispatch s.event_base s >>= (λ r. done (pos 0, r))

  -- Run returns 0, if it returns.
  pub run-code :
      {S : Type 0} (dispatch : Option ℕ → SimpleState P → Outcome S) (s : SimpleState P)
      → (run dispatch s >>= (λ r. done (pos 0, r.1))) ≡ run dispatch s
  unfolding run
  run-code dispatch s = ground arith

  unfoldable pub main :
      {S : Type 0}
      → (dispatch : Option ℕ → SimpleState P → Outcome S) → Env P
      → (event_base evhttp : Option ℕ) (num_sync_workers : ℕ) (socket : Option ℕ) (errno : ℕ)
        (sync_pipe : Option P)
      → Outcome (ℤ × S)
  unfolding run
  main dispatch env event_base evhttp num_sync_workers socket errno sync_pipe =
      simple_server env event_base evhttp num_sync_workers >>= (λ s.
        initialize socket errno env sync_pipe s
        >>= (λ r. run dispatch r.1 >>= (λ r. done (pos 0, r.1))))

  -- Everything that the system calls return inside the two is there.
  abbrev pub served :
      (memory : Bool) (p : P) (ev : ℕ) (timer : Option ℕ) (created : ℕ → Bool) → Env P
  served memory p ev timer created = record {
    memory = memory;
    pipe = some p;
    taskq_ev = some ev;
    timer_ev = timer;
    created = created;
  }

  -- Where every system call succeeds, the constructor and Initialize return: the executor for
  -- asynchronous requests is the service's default one, and the queue that CreateAsyncExecutor has
  -- made on the way is nobody's; the executor for synchronous requests has been initialized twice
  -- and has twice as many workers as were asked for. The callback and the socket are set. main runs
  -- the event loop of the server in this state, on its event base, and returns 0 if that returns.
  -- The worker threads that run meanwhile are left out.
  pub simple_starts :
      (memory : Bool) (p p' : P) (ev : ℕ) (timer : Option ℕ) (created : ℕ → Bool)
      (base evhttp handle errno n : ℕ) {S : Type 0}
      (dispatch : Option ℕ → SimpleState P → Outcome S)
      → let env = served memory p ev timer created in
        (s s' : SimpleState P) × (x : SyncExecutor) × (simple_server env (some base) (some evhttp) n
          ≡ done s)
        × (s.async_executor ≡ s.executors.default_async_executor)
        × (s.async_taskq ≡ some 0)
        × (length s.executors.taskqs ≡ 3)
        × (s.sync_taskq ≡ some 2)
        × (initialize (some handle) errno env (some p') s ≡ done (pos 0, s'))
        × (get_elem? s'.executors.executors 1 ≡ some (sync x))
        × (length x.workers ≡ n + n)
        × (s'.gencb ≡ true)
        × (s'.event_base ≡ some base)
        × (s'.socket_handle ≡ some handle)
        × (main dispatch env (some base) (some evhttp) n (some handle) errno (some p')
            ≡ run dispatch s')
        × (main dispatch env (some base) (some evhttp) n (some handle) errno (some p')
            ≡ (dispatch (some base) s' >>= (λ r. done (pos 0, r))))
  unfolding main run simple_server initialize initialize_taskq initialize_executor new_service
      new_base create_async_executor create_sync_executor TaskQ.initialize AsyncExecutor.initialize
      AsyncExecutor.async_executor SyncExecutor.sync_executor SyncExecutor.initialize insert lookup
      gtaskq taskq_or_new register_async
  simple_starts memory p p' ev timer created base evhttp handle errno n dispatch =
      let once = SyncExecutor.initialize created (sync_executor 2 n) in
      let (new, added, count, _) = initialize_workers created (sync_executor 2 n) in
      let (new', added', count', _) = initialize_workers created once in
      (
        _,
        _,
        SyncExecutor.initialize created once,
        refl,
        refl,
        refl,
        refl,
        refl,
        refl,
        refl,
        omega (
          arith,
          ap length added',
          ap length added,
          length-append once.workers new',
          count,
          count',
        ),
        refl,
        refl,
        refl,
        run-code dispatch _,
        run-code dispatch _,
      )
