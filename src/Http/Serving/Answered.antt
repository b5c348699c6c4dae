-- ===== src/Http/Serving/Answered.antt =====
-- A server over a whole run (samples/http_sync_async_server and samples/simple_http_server).
use gexecutor.Prelude.{
  ℕ, ◌+◌, ◌-◌, ◌*◌, ◌^◌, ◌≤◌, ◌<◌, ◌≡◌, refl, ◌∙◌, List, [], ◌∷◌, ◌++◌, length, Outcome, done,
  arith,
}
use gexecutor.Pipe.{Pipe}
use gexecutor.Store.{Store}
use gexecutor.Reactor.Waiting.{weigh, weigh-cons, weigh-nil}
use gexecutor.Http.{Request, Effect, Log}
use gexecutor.Http.Replies.{replies, sum, sum-append}
use gexecutor.Http.Serving.{
  Event, async_turn, sync_turn, arrivals, ServerKind, all_expected, Serving, Serving-weaken, turns,
  owing, left, account, Served, play, Laws, Each,
}
use gexecutor.Http.Serving.Runs.{rests, spends, follows, async_turn-idle, serve_lem, play_lem}

-- The same replies, in any order: each weight of replies has the same sum.
abbrev pub SameReplies : (xs ys : Log) → Type 0
SameReplies xs ys = (f : Effect → ℕ) → sum f xs ≡ sum f ys

-- No reply more often than there.
abbrev pub NoMoreReplies : (xs ys : Log) → Type 0
NoMoreReplies xs ys = (f : Effect → ℕ) → sum f xs ≤ sum f ys

-- In each round the loops on the two queues, which any executors run, have a turn each.
abbrev pub rounds : List (ℕ × ℕ) → List Event
rounds [] = []
rounds ((self, other) ∷ rs) = async_turn self ∷ sync_turn other ∷ rounds rs

module _ {B P : Type 0} (v : ServerKind B) (io : Pipe P)
    (execute : ℕ → Store B P Log → Outcome (Store B P Log))
    (handler : Request → Store B P Log → Outcome (Store B P Log)) where
  -- From s, where no task waits, over the events and then these rounds.
  abbrev pub Answered : List Event → List (ℕ × ℕ) → Store B P Log → Type 0
  Answered evs rs s =
      let expect = replies s.world ++ all_expected v (arrivals evs) in
      (s1 s2 : Store B P Log) × (now later : Log) × (play v io execute handler evs s ≡ done s1)
      × (s1.world ≡ s.world ++ now)
      × NoMoreReplies (replies s1.world) expect
      × (play v io execute handler (rounds rs) s1 ≡ done s2)
      × (s2.world ≡ s1.world ++ later)
      × SameReplies (replies s2.world) expect
      × ((s2.queues v.async_taskq).task_queue ≡ [])
      × ((s2.queues v.sync_taskq).task_queue ≡ [])

module _ {B P : Type 0} (v : ServerKind B) (io : Pipe P)
    (execute : ℕ → Store B P Log → Outcome (Store B P Log))
    (handler : Request → Store B P Log → Outcome (Store B P Log)) (Known : Request → Type 0)
    (laws : Laws v io execute handler Known) where
  weightless : (s : Store B P Log) (ts : List ℕ) → weigh (turns v) s.tasks ts ≤ 0 → ts ≡ []
  weightless s [] h = refl
  weightless s (t ∷ ts) h =
      absurd
        (omega (arith, h, weigh-cons (turns v) s.tasks t ts, laws.takes_turns (s.tasks t).body))

  some_step :
      (other : ℕ) (us : List ℕ) (s : Store B P Log)
      → left v [] us s ≤ (left v [] us s - 1) + spends v [] us (sync_turn other)
  some_step other [] s = omega (arith, weigh-nil (turns v) s.tasks)
  some_step other (t ∷ us) s = omega arith

  -- A round leaves one step less, where there is one.
  abbrev Round : (self other limit : ℕ) (ts us : List ℕ) (s : Store B P Log) → Type 0
  Round self other limit ts us s =
      (s' : Store B P Log) × (spent : ℕ) × ((rest : List (ℕ × ℕ))
        → play v io execute handler (rounds ((self, other) ∷ rest)) s
          ≡ play v io execute handler (rounds rest) s')
      × (d : Served v (limit + 1 + 1) ts us [] spent s s') × (left v d.ts' d.us' s'
          ≤ left v ts us s - 1)

  round_lem :
      (self other limit : ℕ) (ts us : List ℕ) (s : Store B P Log)
      → limit + 2 < 2 ^ 64
      → Serving v limit ts us s
      → Round self other limit ts us s
  unfolding play
  round_lem self other limit (t ∷ ts) us s few d =
      let (s1, first, e) =
        serve_lem v io execute handler Known laws (async_turn self) limit (t ∷ ts) us s
          (omega (arith, few)) tt d in
      let (s2, second, e2) =
        serve_lem v io execute handler Known laws (sync_turn other) (limit + 1) e.ts' e.us' s1
          (omega (arith, few)) tt e.serving in
      let both = follows v e e2 in
      (s2, _, λ rest. rw first (rw second refl), both, omega (arith, e.effort, e2.effort))
  round_lem self other limit [] us s few d =
      let (s2, second, e) =
        serve_lem v io execute handler Known laws (sync_turn other) (limit + 1) [] us s
          (omega (arith, few)) tt (Serving-weaken v d) in
      (
        s2,
        _,
        λ rest. rw (async_turn-idle v io execute handler self limit us s d) (rw second refl),
        e,
        omega (arith, e.effort, some_step other us s),
      )

  rounds_lem :
      (rs : List (ℕ × ℕ)) (limit : ℕ) (ts us : List ℕ) (s : Store B P Log)
      → limit + 2 * length rs < 2 ^ 64
      → left v ts us s ≤ length rs
      → Serving v limit ts us s
      → (s' : Store B P Log) × (limit' spent : ℕ) × (play v io execute handler (rounds rs) s
          ≡ done s')
        × (d : Served v limit' ts us [] spent s s') × (d.ts' ≡ [])
        × (d.us' ≡ [])
  unfolding play rests follows
  rounds_lem [] limit ts us s few enough d = (
    s,
    limit,
    0,
    refl,
    rests v limit ts us s d,
    weightless s ts (omega (arith, enough)),
    weightless s us (omega (arith, enough)),
  )
  rounds_lem ((self, other) ∷ rs) limit ts us s few enough d =
      let (s1, _, first, e, less) = round_lem self other limit ts us s (omega (arith, few)) d in
      let (s2, limit2, _, later, e2, no_async, no_sync) =
        rounds_lem rs (limit + 1 + 1) e.ts' e.us' s1 (omega (arith, few))
          (omega (arith, less, enough)) e.serving in
      (s2, limit2, _, first rs ∙ later, follows v e e2, no_async, no_sync)

  -- Where no task waits, the account is the replies sent.
  settled :
      (f : Effect → ℕ) (ts us : List ℕ) (s : Store B P Log)
      → ts ≡ []
      → us ≡ []
      → account v f ts us s ≡ sum f (replies s.world)
  settled f ts us s no_async no_sync =
      rw (no_async, no_sync) (omega (arith, weigh-nil (owing v f) s.tasks))

  pub rounds-Answered :
      (evs : List Event) (rs : List (ℕ × ℕ)) (limit : ℕ) (s : Store B P Log)
      → limit + length evs + 2 * length rs < 2 ^ 64
      → 2 * length (arrivals evs) ≤ length rs
      → Each Known (arrivals evs)
      → Serving v limit [] [] s
      → Answered v io execute handler evs rs s
  rounds-Answered evs rs limit s few enough known d =
      let (s1, limit1, _, runs, below, e) =
        play_lem v io execute handler Known laws evs limit [] [] s (omega (arith, few)) known d in
      let idle : left v [] [] s ≡ 0 = omega (arith, weigh-nil (turns v) s.tasks) in
      let (s2, _, _, later, e2, no_async, no_sync) =
        rounds_lem rs limit1 e.ts' e.us' s1 (omega (arith, few, below))
          (omega (arith, e.effort, idle, enough)) e.serving in
      (
        s1,
        s2,
        e.log,
        e2.log,
        runs,
        e.world,
        λ f. omega (
          arith,
          e.accounts f,
          settled f [] [] s refl refl,
          sum-append f (replies s.world) (all_expected v (arrivals evs)),
        ),
        later,
        e2.world,
        λ f. omega (
          arith,
          e.accounts f,
          e2.accounts f,
          settled f [] [] s refl refl,
          settled f e2.ts' e2.us' s2 no_async no_sync,
          sum-append f (replies s.world) (all_expected v (arrivals evs)),
        ),
        rw no_async at e2.serving.async_holds.queued,
        rw no_sync at e2.serving.sync_holds.queued,
      )
