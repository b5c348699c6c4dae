-- ===== src/Http/Serving.antt =====
-- A server of samples/http_sync_async_server or samples/simple_http_server as it serves: requests
-- that arrive, and turns of the event loops on its two queues, in any order. A request is handled in
-- one step, and so is a task. An event loop gets to run where its pipe has a byte for it, and finds a
-- task then: with an empty queue it has nothing to do.
pub mod Posts
pub mod Fronts
pub mod Runs
pub mod Answered
pub mod Live
use gexecutor.Prelude.{
  ℕ, ◌+◌, ◌*◌, ◌^◌, ◌≤◌, ◌<◌, ◌≡◌, refl, ap, ◌∙◌, List, [], ◌∷◌, ◌++◌, length, Outcome, done, ◌>>=◌,
  arith,
}
use gexecutor.Pipe.{Pipe}
use gexecutor.Task.{GTask}
use gexecutor.Store.{Store}
use gexecutor.Reactor.{run_tasks}
use gexecutor.Reactor.Posted.{loop}
use gexecutor.Reactor.Waiting.{weigh}
use gexecutor.Reactor.Holds.{Holds, Holds-weaken}
use gexecutor.Http.{Request, Effect, Log}
use gexecutor.Http.Replies.{replies, sum, sum-append}

-- `self` is the executor that runs the turn.
pub data Event : Type 0 where
  arrives : Request → Event
  async_turn sync_turn : (self : ℕ) → Event

abbrev pub arrivals : List Event → List Request
arrivals [] = []
arrivals (arrives req ∷ evs) = req ∷ arrivals evs
arrivals (async_turn self ∷ evs) = arrivals evs
arrivals (sync_turn self ∷ evs) = arrivals evs

pub replies-append : (xs ys : Log) → replies (xs ++ ys) ≡ replies xs ++ replies ys
replies-append [] ys = refl
replies-append (x ∷ xs) ys = ground (arith, replies-append xs ys)

pub sum-replies :
    (f : Effect → ℕ) (xs ys : Log)
    → sum f (replies (xs ++ ys)) ≡ sum f (replies xs) + sum f (replies ys)
sum-replies f xs ys = ap (sum f) (replies-append xs ys) ∙ sum-append f (replies xs) (replies ys)

-- What a server puts on its two queues, the replies that a request is to get in all, and for a task
-- the replies that it still owes, counted by a weight, and how many turns it takes at most.
pub record ServerKind (B : Type 0) : Type 1 where
  pub async_taskq : ℕ
  pub sync_taskq : ℕ
  pub IsAsync : GTask B → Type 0
  pub IsSync : GTask B → Type 0
  pub expected : Request → Log
  pub owes : (Effect → ℕ) → B → ℕ
  pub turns_of : B → ℕ

module _ {B : Type 0} (v : ServerKind B) where
  abbrev pub all_expected : List Request → Log
  all_expected [] = []
  all_expected (req ∷ reqs) = v.expected req ++ all_expected reqs

  -- Both queues are ready and hold these tasks.
  pub record Serving {P : Type 0} (limit : ℕ) (ts us : List ℕ) (s : Store B P Log) : Type 0 where
    pub async_holds : Holds v.IsAsync v.async_taskq limit ts s
    pub sync_holds : Holds v.IsSync v.sync_taskq limit us s

  pub Serving-weaken :
      {P : Type 0} {limit : ℕ} {ts us : List ℕ} {s : Store B P Log}
      → Serving limit ts us s
      → Serving (limit + 1) ts us s
  Serving-weaken d = record {
    async_holds = Holds-weaken d.async_holds;
    sync_holds = Holds-weaken d.sync_holds;
  }

  abbrev pub turns : GTask B → ℕ
  turns task = v.turns_of task.body

  abbrev pub owing : (Effect → ℕ) → GTask B → ℕ
  owing f task = v.owes f task.body

  -- Steps left, where no request arrives.
  abbrev pub left : {P : Type 0} → (ts us : List ℕ) → Store B P Log → ℕ
  left ts us s = weigh turns s.tasks ts + weigh turns s.tasks us

  -- The replies sent and those owed, counted by a weight of replies.
  abbrev pub account : {P : Type 0} → (Effect → ℕ) → (ts us : List ℕ) → Store B P Log → ℕ
  account f ts us s =
      sum f (replies s.world) + weigh (owing f) s.tasks ts + weigh (owing f) s.tasks us

  -- From s, with these tasks, to s', with those: what has arrived is sent or owed.
  pub record Served {P : Type 0} (limit : ℕ) (ts us : List ℕ) (arrived : List Request) (spent : ℕ)
      (s s' : Store B P Log) : Type 0 where
    pub ts' : List ℕ
    pub us' : List ℕ
    pub log : Log
    pub world : s'.world ≡ s.world ++ log
    pub serving : Serving limit ts' us' s'
    pub accounts :
        (f : Effect → ℕ) → account f ts' us' s' ≡ account f ts us s + sum f (all_expected arrived)
    pub effort : left ts' us' s' + spent ≤ left ts us s + 2 * length arrived

  module _ {P : Type 0} (io : Pipe P) (execute : ℕ → Store B P Log → Outcome (Store B P Log))
      (handler : Request → Store B P Log → Outcome (Store B P Log)) where
    unfoldable pub turn : (self q : ℕ) → Store B P Log → Outcome (Store B P Log)
    turn self q s = elim (s.queues q).task_queue [
      | [] ↦ done s
      | _ ∷ _ ↦ run_tasks io execute (loop self q) 1 s
    ]

    unfoldable pub serve : Event → Store B P Log → Outcome (Store B P Log)
    unfolding turn
    serve (arrives req) s = handler req s
    serve (async_turn self) s = turn self v.async_taskq s
    serve (sync_turn self) s = turn self v.sync_taskq s

    unfoldable pub play : List Event → Store B P Log → Outcome (Store B P Log)
    unfolding serve
    play [] s = done s
    play (ev ∷ evs) s = serve ev s >>= play evs

    -- What is to hold of the handler and of the tasks, for each request that may arrive.
    pub record Laws (Known : Request → Type 0) : Type 0 where
      pub takes_turns : (body : B) → 0 < v.turns_of body
      pub arrival :
          (limit : ℕ) (ts us : List ℕ) (req : Request) (s : Store B P Log)
          → limit + 1 < 2 ^ 64
          → Known req
          → Serving limit ts us s
          → (s' : Store B P Log) × (handler req s ≡ done s')
            × Served (limit + 1) ts us (req ∷ []) 0 s s'
      pub async_step :
          (self limit t : ℕ) (ts us : List ℕ) (s : Store B P Log)
          → limit + 1 < 2 ^ 64
          → Serving limit (t ∷ ts) us s
          → (s' : Store B P Log) × (run_tasks io execute (loop self v.async_taskq) 1 s ≡ done s')
            × Served (limit + 1) (t ∷ ts) us [] 1 s s'
      pub sync_step :
          (self limit t : ℕ) (ts us : List ℕ) (s : Store B P Log)
          → limit + 1 < 2 ^ 64
          → Serving limit ts (t ∷ us) s
          → (s' : Store B P Log) × (run_tasks io execute (loop self v.sync_taskq) 1 s ≡ done s')
            × Served (limit + 1) ts (t ∷ us) [] 1 s s'

-- A property of each request.
abbrev pub Each : (Request → Type 0) → List Request → Type 0
Each Known [] = Unit {0}
Each Known (req ∷ reqs) = Known req × Each Known reqs
