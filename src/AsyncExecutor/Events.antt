-- ===== src/AsyncExecutor/Events.antt =====
-- The calls of libevent that an asynchronous executor makes, replayed (gexecutor/gasync_executor.cc).
use gexecutor.Prelude.{
  ℕ, ◌+◌, ◌≡◌, ◌≢◌, refl, Bool, true, false, ◌||◌, Option, none, some, List, [], ◌∷◌, if◌then◌else◌,
  ◌==◌, done, arith,
}
use gexecutor.AsyncExecutor.{
  AsyncExecutor, Log, EventCall, event_new, event_add, event_del, event_free, initialize, shutdown,
  stop_timer,
}

abbrev pub elem : ℕ → List ℕ → Bool
elem e [] = false
elem e (x ∷ xs) = e == x || elem e xs

abbrev pub remove : ℕ → List ℕ → List ℕ
remove e [] = []
remove e (x ∷ xs) = if e == x then remove e xs else x ∷ remove e xs

pub elem-remove : (a e : ℕ) (xs : List ℕ) → a ≢ e → elem a (remove e xs) ≡ elem a xs
elem-remove a e [] h = refl
elem-remove a e (x ∷ xs) h = ground (arith, elem-remove a e xs h)

-- The rules of libevent that a caller must keep: a new event is none of those that exist, and only
-- those may be added, deleted or freed. `none` if a call breaks them, otherwise what exists then.
unfoldable pub call_event : EventCall → List ℕ → Option (List ℕ)
call_event (event_new e) live = if elem e live then none else some (e ∷ live)
call_event (event_add e) live = if elem e live then some live else none
call_event (event_del e) live = if elem e live then some live else none
call_event (event_free e) live = if elem e live then some (remove e live) else none

unfoldable pub replay : Log → List ℕ → Option (List ℕ)
unfolding call_event
replay [] live = some live
replay (c ∷ cs) live = elim (call_event c live) [ none ↦ none | some live' ↦ replay cs live' ]

-- The calls that an application makes between construction and destruction. Initialize is given
-- two events that libevent has not given out before; the timer's may be NULL.
pub data Op : Type 0 where
  init : (has_timer : Bool) → Op
  stop stop_timer_only : Op

pub record Life : Type 0 where
  pub executor : AsyncExecutor
  pub next_event : ℕ
  pub live : List ℕ

abbrev pub timer_of : Bool → ℕ → Option ℕ
timer_of true n = some n
timer_of false n = none

-- `none` if libevent's rules are broken.
abbrev pub after : ℕ → AsyncExecutor → Option (List ℕ) → Option Life
after n x none = none
after n x (some live) = some (record { executor = x; next_event = n; live = live })

unfoldable pub step : Op → Life → Option Life
unfolding replay
step (init has_timer) l =
    elim (initialize (some l.next_event) (timer_of has_timer (l.next_event + 1)) l.executor) [
      | done (x, log) ↦ after (l.next_event + 2) x (replay log l.live)
      | _ ↦ none
    ]
step stop l = after l.next_event (shutdown l.executor).0 (replay (shutdown l.executor).1 l.live)
step stop_timer_only l =
    after l.next_event (stop_timer l.executor).0 (replay (stop_timer l.executor).1 l.live)
