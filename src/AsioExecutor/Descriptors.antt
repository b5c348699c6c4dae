-- ===== src/AsioExecutor/Descriptors.antt =====
-- The two descriptors over the life of an executor on boost::asio
-- (gexecutor/asio/gasync_executor_asio.cc).
use gexecutor.Prelude.{
  ℕ, ◌+◌, ◌≡◌, refl, Bool, true, false, Option, none, some, List, [], ◌∷◌, ◌++◌, if◌then◌else◌,
  done, Outcome, ◌>>=◌, inl, inr, Option-cases,
}
use gexecutor.TaskQ.{GTaskQ}
use gexecutor.TaskQ
use gexecutor.AsioExecutor.{
  AsioExecutor, IoService, reader, writer, DescriptorCall, assign, close, async_read_some, starts,
  closes, initialize, shutdown, asio_executor,
}

-- Which descriptors are open, and how many reads have been started and not completed.
pub record Open : Type 0 where
  pub read_open : Bool
  pub write_open : Bool
  pub reads : ℕ

abbrev pub opened : Bool → Open
opened b = record { read_open = b; write_open = b; reads = if b then 1 else 0 }

-- What boost::asio documents: assign throws if the descriptor is open, and close cancels its reads.
-- A read on one that is not open fails at once.
pub call_descriptor : DescriptorCall → Open → Option Open
call_descriptor (assign reader) d =
    if d.read_open then none else some (record d { read_open = true })
call_descriptor (assign writer) d =
    if d.write_open then none else some (record d { write_open = true })
call_descriptor (close reader) d = some (record d { read_open = false; reads = 0 })
call_descriptor (close writer) d = some (record d { write_open = false })
call_descriptor async_read_some d =
    some (if d.read_open then record d { reads = d.reads + 1 } else d)

-- `none` if a call throws.
pub replay : List DescriptorCall → Open → Option Open
unfolding call_descriptor
replay [] d = some d
replay (c ∷ cs) d = elim (call_descriptor c d) [ none ↦ none | some d' ↦ replay cs d' ]

replay-append :
    (xs ys : List DescriptorCall) (d : Open)
    → replay (xs ++ ys) d ≡ elim (replay xs d) [ none ↦ none | some d' ↦ replay ys d' ]
unfolding replay
replay-append [] ys d = refl
replay-append (c ∷ xs) ys d = elim (Option-cases (call_descriptor c d)) [
  | inl e ↦ rw (e, replay)
  | inr (d', e) ↦ rw (e, replay) (replay-append xs ys d')
]

pub data Op : Type 0 where
  init stop : Op

-- The calls without the queue.
abbrev calls_of : Op → List DescriptorCall
calls_of init = starts
calls_of stop = closes

-- Whether the descriptors are open; `none` once a second Initialize has thrown.
abbrev pub after : Op → Option Bool → Option Bool
after init none = none
after init (some true) = none
after init (some false) = some true
after stop none = none
after stop (some b) = some false

abbrev pub after_all : List Op → Option Bool → Option Bool
after_all [] o = o
after_all (op ∷ ops) o = after_all ops (after op o)

abbrev pub opened_or : Option Bool → Option Open
opened_or none = none
opened_or (some b) = some (opened b)

calls-after :
    (op : Op) (cs : List DescriptorCall) (o : Option Bool)
    → replay cs (opened false) ≡ opened_or o
    → replay (cs ++ calls_of op) (opened false) ≡ opened_or (after op o)
unfolding replay call_descriptor
calls-after init cs none e = rw (replay-append cs starts (opened false), e)
calls-after init cs (some true) e = rw (replay-append cs starts (opened false), e)
calls-after init cs (some false) e = rw (replay-append cs starts (opened false), e)
calls-after stop cs none e = rw (replay-append cs closes (opened false), e)
calls-after stop cs (some true) e = rw (replay-append cs closes (opened false), e)
calls-after stop cs (some false) e = rw (replay-append cs closes (opened false), e)

module _ {P : Type 0} (pipe : P) where
  -- Calls of Initialize, for which pipe2 gives the pipe, and of Shutdown.
  pub run : List Op → AsioExecutor → GTaskQ P → Outcome (AsioExecutor × GTaskQ P)
  unfolding initialize shutdown
  run [] x q = done (x, q)
  run (init ∷ ops) x q = initialize (some pipe) x q >>= (λ r. run ops r.0 r.1)
  run (stop ∷ ops) x q = run ops (shutdown x) q

  runs :
      (ops : List Op) (x : AsioExecutor) (q : GTaskQ P) (o : Option Bool)
      → replay x.calls (opened false) ≡ opened_or o
      → (x' : AsioExecutor) × (q' : GTaskQ P) × (run ops x q ≡ done (x', q'))
        × (replay x'.calls (opened false) ≡ opened_or (after_all ops o))
        × (q'.task_queue ≡ q.task_queue)
  unfolding run initialize shutdown TaskQ.initialize
  runs [] x q o e = (x, q, refl, e, refl)
  runs (init ∷ ops) x q o e =
      runs ops (record x { calls = x.calls ++ starts }) (record q { pipefds = some pipe })
        (after init o) (calls-after init x.calls o e)
  runs (stop ∷ ops) x q o e =
      runs ops (record x { calls = x.calls ++ closes }) q (after stop o)
        (calls-after stop x.calls o e)

  -- For any sequence of Initialize and Shutdown of a new executor, where pipe2 succeeds: boost::asio
  -- throws exactly where Initialize is called again with no Shutdown since; otherwise both descriptors
  -- are open, and one read has been started, if the last call was Initialize, and both are closed and no
  -- read is left if it was Shutdown or there was none. The tasks of the queue stay.
  pub descriptors_lem :
      (io_service : IoService) (taskq : ℕ) (ops : List Op) (q : GTaskQ P)
      → (x : AsioExecutor) × (q' : GTaskQ P) × (run ops (asio_executor io_service taskq) q
          ≡ done (x, q'))
        × (replay x.calls (opened false) ≡ opened_or (after_all ops (some false)))
        × (q'.task_queue ≡ q.task_queue)
  unfolding asio_executor replay
  descriptors_lem io_service taskq ops q =
      runs ops (asio_executor io_service taskq) q (some false) refl
