-- ===== src/AsyncExecutor/Lifecycle.antt =====
-- The calls of libevent over the life of an asynchronous executor (gexecutor/gasync_executor.cc).
use gexecutor.Prelude.{
  ℕ, zero, suc, ◌+◌, ◌≤◌, ◌<◌, ◌≡◌, inl, inr, ◌≢◌, refl, Bool, true, false, Option, none, some,
  List, [], ◌∷◌, if◌then◌else◌, arith, Bool-cases, Option-cases,
}
use gexecutor.AsyncExecutor.{
  async_executor, initialize, shutdown, stop_timer, drop_taskq_ev, destroy, created,
}
use gexecutor.AsyncExecutor.Events.{
  elem, remove, elem-remove, replay, Op, Life, timer_of, step, init, stop, stop_timer_only,
}

pub record IsSound (l : Life) : Type 0 where
  pub taskq_live : (e : ℕ) → l.executor.p_taskq_ev ≡ some e → elem e l.live ≡ true
  pub timer_live : (e : ℕ) → l.executor.p_timer_ev ≡ some e → elem e l.live ≡ true
  pub apart : (e : ℕ) → l.executor.p_taskq_ev ≡ some e → l.executor.p_timer_ev ≢ some e
  pub below : (e : ℕ) → elem e l.live ≡ true → e < l.next_event

fresh : (l : Life) → IsSound l → (k : ℕ) → l.next_event ≤ k → elem k l.live ≡ false
fresh l v k h = elim (Bool-cases (elem k l.live)) [
  | inl e ↦ absurd (omega (arith, v.below k e))
  | inr e ↦ e
]

abbrev live_after : Bool → ℕ → List ℕ → List ℕ
live_after true n live = suc n ∷ n ∷ live
live_after false n live = n ∷ live

init-runs :
    (b : Bool) (l : Life)
    → IsSound l
    → step (init b) l
      ≡ some (record {
        executor = record l.executor {
          p_taskq_ev = some l.next_event;
          p_timer_ev = timer_of b (l.next_event + 1);
        };
        next_event = l.next_event + 2;
        live = live_after b l.next_event l.live;
      })
unfolding step initialize created replay
init-runs true l v = ground (arith, fresh l v l.next_event, fresh l v (l.next_event + 1))
init-runs false l v = ground (arith, fresh l v l.next_event)

init-IsSound :
    (b : Bool) (l : Life)
    → IsSound l
    → IsSound (record {
      executor = record l.executor {
        p_taskq_ev = some l.next_event;
        p_timer_ev = timer_of b (l.next_event + 1);
      };
      next_event = l.next_event + 2;
      live = live_after b l.next_event l.live;
    })
init-IsSound true l v = record {
  taskq_live = λ e h. ground arith;
  timer_live = λ e h. ground arith;
  apart = λ e h k. ground arith;
  below = λ e h. ground (arith, v.below e);
}
init-IsSound false l v = record {
  taskq_live = λ e h. ground arith;
  timer_live = λ e h. ground arith;
  apart = λ e h k. ground arith;
  below = λ e h. ground (arith, v.below e);
}

abbrev without : Option ℕ → List ℕ → List ℕ
without none live = live
without (some e) live = remove e live

abbrev stopped : Life → Life
stopped l = record l {
  executor = record l.executor { p_taskq_ev = none; p_timer_ev = none };
  live = without l.executor.p_taskq_ev l.live;
}

stop-runs : (l : Life) → IsSound l → step stop l ≡ some (stopped l)
unfolding step stop_timer drop_taskq_ev shutdown replay
stop-runs l v = elim (Option-cases l.executor.p_taskq_ev) [
  | inl e ↦ elim (Option-cases l.executor.p_timer_ev) [
    | inl f ↦ ground arith
    | inr (b, f) ↦ ground (arith, v.timer_live b f)
  ]
  | inr (a, e) ↦ elim (Option-cases l.executor.p_timer_ev) [
    | inl f ↦ ground (arith, v.taskq_live a e)
    | inr (b, f) ↦
        ground (arith, v.taskq_live a e, v.timer_live b f, v.apart a e, elem-remove b a l.live)
  ]
]

elem-without :
    (o : Option ℕ) (e : ℕ) (live : List ℕ) → elem e (without o live) ≡ true → elem e live ≡ true
elem-without none e live h = h
elem-without (some x) e [] h = h
elem-without (some x) e (y ∷ live) h = ground (arith, elem-without (some x) e live)

step-IsSound : (op : Op) (l : Life) → IsSound l → (l' : Life) × (step op l ≡ some l') × IsSound l'
unfolding step stop_timer replay
step-IsSound (init b) l v = (_, init-runs b l v, init-IsSound b l v)
step-IsSound stop l v = (
  stopped l,
  stop-runs l v,
  record {
    taskq_live = λ e h. cc;
    timer_live = λ e h. cc;
    apart = λ e h k. cc;
    below = λ e h. v.below e (elem-without l.executor.p_taskq_ev e l.live h);
  },
)
step-IsSound stop_timer_only l v = (
  record l { executor = record l.executor { p_timer_ev = none } },
  elim (Option-cases l.executor.p_timer_ev) [
    | inl f ↦ ground arith
    | inr (b, f) ↦ ground (arith, v.timer_live b f)
  ],
  record {
    taskq_live = v.taskq_live;
    timer_live = λ e h. cc;
    apart = λ e h k. cc;
    below = v.below;
  },
)

-- All the calls, then the destructor: the events that exist in the end.
pub run : List Op → Life → Option (List ℕ)
unfolding replay
run [] l = replay (destroy l.executor) l.live
run (op ∷ ops) l = elim (step op l) [ none ↦ none | some l' ↦ run ops l' ]

pub born : (event_base : Option ℕ) (taskq : ℕ) → Life
unfolding async_executor
born event_base taskq = record {
  executor = async_executor event_base taskq;
  next_event = 0;
  live = [];
}

run_lem : (ops : List Op) (l : Life) → IsSound l → (live : List ℕ) × (run ops l ≡ some live)
unfolding run destroy replay
run_lem [] l v = elim (Option-cases l.executor.p_taskq_ev) [
  | inl e ↦ (l.live, ground arith)
  | inr (a, e) ↦ (remove a l.live, ground (arith, v.taskq_live a e))
]
run_lem (op ∷ ops) l v =
    let (l', e, v') = step-IsSound op l v in
    let (live, f) = run_lem ops l' v' in (live, rw (e, run) f)

-- For any sequence of Initialize, Shutdown and StopTimer and then the destructor, where Initialize
-- gets events that libevent has not given out before and a timer or NULL: no call of libevent
-- names an event that does not exist, so none is used after it is freed and none is freed twice.
pub events_sound :
    (event_base : Option ℕ) (taskq : ℕ) (ops : List Op)
    → (live : List ℕ) × (run ops (born event_base taskq) ≡ some live)
unfolding born async_executor
events_sound event_base taskq ops = run_lem ops (born event_base taskq) (record {
  taskq_live = λ e h. cc;
  timer_live = λ e h. cc;
  apart = λ e h k. cc;
  below = λ e h. cc;
})

abbrev pub stops : ℕ → List Op
stops zero = []
stops (suc n) = stop ∷ stops n

run-stops :
    (n : ℕ) (l : Life)
    → l.executor.p_taskq_ev ≡ none
    → l.executor.p_timer_ev ≡ none
    → run (stops n) l ≡ some l.live
unfolding run step stop_timer drop_taskq_ev shutdown replay destroy
run-stops zero l e f = ground arith
run-stops (suc n) l e f =
    let idle : Life = record l {
      executor = record l.executor { p_taskq_ev = none; p_timer_ev = none };
    } in
    let again : step stop l ≡ some idle = ground arith in
    rw (again, run) (run-stops n idle refl refl)

-- An executor that is initialized once, stopped any number of times and destroyed: the event of its
-- queue has been freed, and the event of its timer, where it had one, is never freed.
pub timer_leaks :
    (event_base : Option ℕ) (taskq n : ℕ) (has_timer : Bool)
    → run (init has_timer ∷ stops n) (born event_base taskq)
      ≡ some (if has_timer then 1 ∷ [] else [])
unfolding run step stop_timer drop_taskq_ev shutdown replay destroy born async_executor initialize
    created
timer_leaks event_base taskq zero true = refl
timer_leaks event_base taskq zero false = refl
timer_leaks event_base taskq (suc n) true = run-stops n _ refl refl
timer_leaks event_base taskq (suc n) false = run-stops n _ refl refl
