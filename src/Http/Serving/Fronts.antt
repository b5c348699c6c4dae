-- ===== src/Http/Serving/Fronts.antt =====
-- A task that an event loop takes from one of a server's queues to run it
-- (taskq_cb of gexecutor/gasync_executor.cc).
use gexecutor.Prelude.{ℕ, ◌+◌, ◌≡◌, ◌≢◌, sym, List, ◌∷◌, ◌++◌, Outcome, ◌>>=◌, arith}
use gexecutor.Pipe.{Pipe}
use gexecutor.Task.{GTask}
use gexecutor.Store.{Store, update}
use gexecutor.Reactor.{run_tasks}
use gexecutor.Reactor.Posted.{loop}
use gexecutor.Reactor.Drain.{Absent}
use gexecutor.Reactor.Waiting.{weigh-cons, weigh-update, Absent-kind}
use gexecutor.Reactor.Holds.{Holds-world, Holds-change, Holds-turn, Holds-front, front, weigh-front}
use gexecutor.Http.{Effect, Log}
use gexecutor.Http.Replies.{replies, sum}
use gexecutor.Http.Serving.{ServerKind, Serving, turns, owing, left, account, sum-replies}

module _ {B P : Type 0} (v : ServerKind B) (io : Pipe P)
    (execute : ℕ → Store B P Log → Outcome (Store B P Log)) (apart : v.async_taskq ≢ v.sync_taskq)
    (apart_kinds : (task : GTask B) → v.IsAsync task → ¬ v.IsSync task) where
  -- The store in which task t runs, once it has added to the log.
  abbrev pub logged : (self q t : ℕ) → Log → Store B P Log → Store B P Log
  logged self q t log s = record (front io execute self q t s) { world = s.world ++ log }

  -- From the tasks ts0 and us0, with t among them, to those that wait while it runs.
  abbrev pub Front : (self q limit t : ℕ) (ts0 us0 ts us : List ℕ) → Store B P Log → Type 0
  Front self q limit t ts0 us0 ts us s =
      (run_tasks io execute (loop self q) 1 s
        ≡ (execute t (front io execute self q t s) >>= run_tasks io execute (loop self q) 0))
      × ((log : Log) → Serving v limit ts us (logged self q t log s))
      × ((f : Effect → ℕ) (log : Log)
          → account v f ts us (logged self q t log s) + v.owes f (s.tasks t).body
            ≡ account v f ts0 us0 s + sum f (replies log))
      × ((log : Log)
          → left v ts us (logged self q t log s) + v.turns_of (s.tasks t).body ≡ left v ts0 us0 s)
      × Absent t ts
      × Absent t us

  pub async_taskq-Front :
      (self limit t : ℕ) (ts us : List ℕ) (s : Store B P Log)
      → Serving v limit (t ∷ ts) us s
      → Front self v.async_taskq limit t (t ∷ ts) us ts us s
  async_taskq-Front self limit t ts us s d =
      let q = v.async_taskq in
      let (below, fresh, kind, once, rest) = d.async_holds.tasks in
      let (runs, held) = Holds-turn io execute self q t d.async_holds in
      let others : Absent t us =
        Absent-kind v.IsSync s.tasks s.next_task t us (apart_kinds (s.tasks t) kind)
          d.sync_holds.tasks in
      (
        runs,
        λ log. record {
          async_holds = Holds-world _ held;
          sync_holds = Holds-world _ (Holds-front io execute self q t apart others d.sync_holds);
        },
        λ f log. omega (
          arith,
          sum-replies f s.world log,
          weigh-cons (owing v f) s.tasks t ts,
          weigh-front io execute self q t (owing v f) s ts once,
          weigh-front io execute self q t (owing v f) s us others,
        ),
        λ log. omega (
          arith,
          weigh-cons (turns v) s.tasks t ts,
          weigh-front io execute self q t (turns v) s ts once,
          weigh-front io execute self q t (turns v) s us others,
        ),
        once,
        others,
      )

  pub sync_taskq-Front :
      (self limit t : ℕ) (ts us : List ℕ) (s : Store B P Log)
      → Serving v limit ts (t ∷ us) s
      → Front self v.sync_taskq limit t ts (t ∷ us) ts us s
  sync_taskq-Front self limit t ts us s d =
      let q = v.sync_taskq in
      let (below, fresh, kind, once, rest) = d.sync_holds.tasks in
      let (runs, held) = Holds-turn io execute self q t d.sync_holds in
      let others : Absent t ts =
        Absent-kind v.IsAsync s.tasks s.next_task t ts (λ a. apart_kinds (s.tasks t) a kind)
          d.async_holds.tasks in
      (
        runs,
        λ log. record {
          async_holds =
              Holds-world _
                (Holds-front io execute self q t (λ e. apart (sym e)) others d.async_holds);
          sync_holds = Holds-world _ held;
        },
        λ f log. omega (
          arith,
          sum-replies f s.world log,
          weigh-cons (owing v f) s.tasks t us,
          weigh-front io execute self q t (owing v f) s us once,
          weigh-front io execute self q t (owing v f) s ts others,
        ),
        λ log. omega (
          arith,
          weigh-cons (turns v) s.tasks t us,
          weigh-front io execute self q t (turns v) s us once,
          weigh-front io execute self q t (turns v) s ts others,
        ),
        others,
        once,
      )

  -- The same where the task that runs has changed itself.
  pub Front-changes :
      (self q limit t : ℕ) (ts0 us0 ts us : List ℕ) (s : Store B P Log) (x : GTask B) (log : Log)
      → Front self q limit t ts0 us0 ts us s
      → let s1 = record (logged self q t log s) {
        tasks = update (front io execute self q t s).tasks t x;
      } in
        Serving v limit ts us s1
        × ((f : Effect → ℕ)
            → account v f ts us s1 + v.owes f (s.tasks t).body
              ≡ account v f ts0 us0 s + sum f (replies log))
        × (left v ts us s1 + v.turns_of (s.tasks t).body ≡ left v ts0 us0 s)
  Front-changes self q limit t ts0 us0 ts us s x log (_, serving, owed, less, once, others) =
      let d = serving log in
      let there = front io execute self q t s in
      (
        record {
          async_holds = Holds-change t x (s.world ++ log) d.async_holds once;
          sync_holds = Holds-change t x (s.world ++ log) d.sync_holds others;
        },
        λ f. omega (
          arith,
          owed f log,
          weigh-update (owing v f) there.tasks t x ts once,
          weigh-update (owing v f) there.tasks t x us others,
        ),
        omega (
          arith,
          less log,
          weigh-update (turns v) there.tasks t x ts once,
          weigh-update (turns v) there.tasks t x us others,
        ),
      )
