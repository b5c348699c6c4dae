-- ===== src/Http/Serving/Live.antt =====
-- Which events of a server come about at all (samples/http_sync_async_server): a request is handled
-- only where a callback is set on a socket, and a queue has turns only from event loops that watch it.
use gexecutor.Prelude.{
  ℕ, ◌≡◌, ◌≤◌, refl, ap, Bool, true, false, ◌&&◌, ◌==◌, Option, none, some, List, [], ◌∷◌, ◌++◌,
  length, Outcome, done, undefined, aborted, if◌then◌else◌, arith,
}
use gexecutor.AsyncExecutor.{AsyncExecutor, Log}
use gexecutor.Worker.{Worker, setup_event_loop}
use gexecutor.Http.Serving.{Event, arrives, async_turn, sync_turn, arrivals}
use gexecutor.Http.Serving.Answered.{rounds}

-- The executor has its event on this event base.
abbrev pub watches : (base : Option ℕ) → AsyncExecutor → Bool
watches none x = false
watches (some base) x = elim x.event_base [
  | none ↦ false
  | some b ↦ b == base && elim x.p_taskq_ev [ none ↦ false | some _ ↦ true ]
]

pub watches-true :
    (base ev : ℕ) (x : AsyncExecutor)
    → x.event_base ≡ some base
    → x.p_taskq_ev ≡ some ev
    → watches (some base) x ≡ true
watches-true base ev x e f = rw (e, f) (ground arith)

-- What the thread of a worker has of libevent: its event base, and the event of its executor.
abbrev pub Loops : Type 0
Loops = ℕ → Option ℕ × Option ℕ

abbrev pub watches_own : Outcome (Worker × Log) → Bool
watches_own (done (w, log)) = elim w.async_executor [
  | none ↦ false
  | some x ↦ watches w.event_base x
]
watches_own undefined = false
watches_own aborted = false

-- The worker has a thread, is on the queue, and its thread sets its event loop up.
abbrev pub works : Loops → (taskq self : ℕ) → Option Worker → Bool
works loops taskq self none = false
works loops taskq self (some w) =
    w.thread
    && w.taskq == taskq
    && watches_own (setup_event_loop (loops self).0 (loops self).1 none w)

-- The events without those that do not come about.
abbrev pub live : (handled watched : Bool) (works : ℕ → Bool) → List Event → List Event
live handled watched works [] = []
live handled watched works (arrives req ∷ evs) =
    let rest = live handled watched works evs in if handled then arrives req ∷ rest else rest
live handled watched works (async_turn self ∷ evs) =
    let rest = live handled watched works evs in if watched then async_turn self ∷ rest else rest
live handled watched works (sync_turn self ∷ evs) =
    let rest = live handled watched works evs in if works self then sync_turn self ∷ rest else rest

pub live-append :
    (handled watched : Bool) (works : ℕ → Bool) (xs ys : List Event)
    → live handled watched works (xs ++ ys)
      ≡ live handled watched works xs ++ live handled watched works ys
live-append h w works [] ys = refl
live-append h w works (arrives req ∷ xs) ys = ground (arith, live-append h w works xs ys)
live-append h w works (async_turn self ∷ xs) ys = ground (arith, live-append h w works xs ys)
live-append h w works (sync_turn self ∷ xs) ys = ground (arith, live-append h w works xs ys)

pub arrivals-live :
    (watched : Bool) (works : ℕ → Bool) (evs : List Event)
    → arrivals (live true watched works evs) ≡ arrivals evs
arrivals-live w works [] = refl
arrivals-live w works (arrives req ∷ evs) = ap (λ l. req ∷ l) (arrivals-live w works evs)
arrivals-live w works (async_turn self ∷ evs) = ground (arith, arrivals-live w works evs)
arrivals-live w works (sync_turn self ∷ evs) = ground (arith, arrivals-live w works evs)

pub length-live :
    (handled watched : Bool) (works : ℕ → Bool) (evs : List Event)
    → length (live handled watched works evs) ≤ length evs
length-live h w works [] = omega arith
length-live h w works (arrives req ∷ evs) = ground (arith, length-live h w works evs)
length-live h w works (async_turn self ∷ evs) = ground (arith, length-live h w works evs)
length-live h w works (sync_turn self ∷ evs) = ground (arith, length-live h w works evs)

-- In every round the turn on the second queue is one of a worker that works.
abbrev pub AllWork : (works : ℕ → Bool) → List (ℕ × ℕ) → Type 0
AllWork works [] = Unit {0}
AllWork works ((self, other) ∷ rs) = (works other ≡ true) × AllWork works rs

pub live-rounds :
    (handled : Bool) (works : ℕ → Bool) (rs : List (ℕ × ℕ))
    → AllWork works rs
    → live handled true works (rounds rs) ≡ rounds rs
live-rounds h works [] all = refl
live-rounds h works ((self, other) ∷ rs) (one, all) = rw (one, live-rounds h works rs all) refl
