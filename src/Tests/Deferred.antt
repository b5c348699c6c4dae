-- ===== src/Tests/Deferred.antt =====
-- Deferred tasks (gexecutor/deferred_task.h) between two executors, on pipes that hold two bytes.
use gexecutor.Prelude.{
  ℕ, ◌≡◌, ◌≢◌, refl, true, none, some, List, [], ◌∷◌, neg_ℕ, if◌then◌else◌, ◌==◌, done, arith,
}
use gexecutor.Pipe.{bounded, bounded-PipeLaws}
use gexecutor.TaskQ.Notify.{bounded-IsRecoverable}
use gexecutor.Task.{gtask}
use gexecutor.Store.{Store, enqueue_on}
use gexecutor.TaskQ.{enqueue_gtask}
use gexecutor.TaskQ.System.{Thread, thread, running, Reach}
use gexecutor.Reactor.{Reactor, run_tasks, read_loop, taskq_cb}
use gexecutor.Deferred.{
  Functions, Arg, result, error, returned, thrown, fn, bind, DeferredTask, deferred, deferred_void,
  execute,
}
use gexecutor.Deferred.Steps.{deferred_taskq_cb-Reach}
use gexecutor.Deferred.RoundTrip.{Posted, Answered, result_round_trip, error_round_trip}
use gexecutor.Deferred.Silence.{no_response}
use gexecutor.Tests.Queue.{ready, ready-IsReady}

-- Function 0 returns 42, function 1 throws with errno 5, and the others record what they are given.
abbrev functions : Functions ℕ (List (ℕ × Arg ℕ))
functions f arg w =
    if f == 0
    then (returned 42, w)
    else if f == 1
    then (thrown 5, w)
    else (returned 0, (f, arg) ∷ w)

abbrev sender : Reactor
sender = record { self = 10; taskq = 1 }

abbrev worker : Reactor
worker = record { self = 20; taskq = 2 }

-- Task 0, with the given functions, is on the queue of the worker.
abbrev posted : DeferredTask ℕ → Store (DeferredTask ℕ) ℕ (List (ℕ × Arg ℕ))
posted d = record {
  tasks = λ _. gtask (some 1) "0x1000" d;
  next_task = 1;
  queues = λ q. ready 0 (if q == 2 then some 0 ∷ [] else []);
  world = [];
}

posted-Posted :
    (d : DeferredTask ℕ) → Posted (bounded 2) functions "0x2000" worker sender (posted d) 0 []
posted-Posted d = record {
  pipe = 0;
  head = refl;
  fresh = refl;
  replies = refl;
  allocated = omega arith;
  apart = omega arith;
  ready = ready-IsReady 0 [];
  idle = refl;
  room = omega arith;
}

abbrev with_result : DeferredTask ℕ
with_result = deferred 0 (some 7) (some 8)

abbrev with_error : DeferredTask ℕ
with_error = deferred 1 (some 7) (some 8)

abbrev with_void : DeferredTask ℕ
with_void = deferred_void (fn 0) (some (fn 7)) none

result_round_trip_example :
    Answered
      (bounded 2)
      functions
      "0x2000"
      (bounded-PipeLaws 2)
      (bounded-IsRecoverable 2)
      worker
      sender
      (posted with_result)
      0
      []
      (posted-Posted with_result)
      (bind 7 (result 42))
result_round_trip_example =
    result_round_trip (bounded 2) functions "0x2000" (bounded-PipeLaws 2) (bounded-IsRecoverable 2)
      worker sender (posted with_result) 0 [] (posted-Posted with_result) 0 7 (some 8) 42 [] refl
      refl

error_round_trip_example :
    Answered
      (bounded 2)
      functions
      "0x2000"
      (bounded-PipeLaws 2)
      (bounded-IsRecoverable 2)
      worker
      sender
      (posted with_error)
      0
      []
      (posted-Posted with_error)
      (bind 8 (error (neg_ℕ 5)))
error_round_trip_example =
    error_round_trip (bounded 2) functions "0x2000" (bounded-PipeLaws 2) (bounded-IsRecoverable 2)
      worker sender (posted with_error) 0 [] (posted-Posted with_error) 8 5 [] refl refl

-- Function 1 throws, and there is no errback.
abbrev without_errback : DeferredTask ℕ
without_errback = deferred 1 (some 7) none

no_response_example :
    (s' : Store (DeferredTask ℕ) ℕ (List (ℕ × Arg ℕ))) × (run_tasks
        (bounded 2)
        (execute (bounded 2) functions "0x2000")
        worker
        1
        (posted without_errback)
      ≡ done s')
    × (s'.world ≡ [])
    × (s'.next_task ≡ 1)
    × ((s'.queues 2).task_queue ≡ [])
    × ((q : ℕ) → 2 ≢ q → s'.queues q ≡ (posted without_errback).queues q)
no_response_example =
    no_response (bounded 2) functions "0x2000" worker (posted without_errback) 0 [] refl refl refl

-- An executor that sends its response to itself: one call runs the task and then the callback.
abbrev to_itself : Store (DeferredTask ℕ) ℕ (List (ℕ × Arg ℕ))
to_itself = record (posted with_result) {
  tasks = λ _. gtask (some 2) "0x1000" with_result;
  queues = λ _. ready 1 (some 0 ∷ []);
}

abbrev one_call :
    (s : Store (DeferredTask ℕ) ℕ (List (ℕ × Arg ℕ))) × (taskq_cb
        (bounded 2)
        (execute (bounded 2) functions "0x2000")
        worker
        true
        4
        to_itself
      ≡ some (done s))
    × (s.world ≡ (7, result 42) ∷ [])
unfolding taskq_cb read_loop execute enqueue_on enqueue_gtask
one_call = (_, refl, refl)

abbrev only_thread : List Thread
only_thread = thread 0 running ∷ []

deferred_taskq_cb-Reach_example :
    Reach
      (bounded 2)
      (record { queue = to_itself.queues 2; threads = only_thread })
      (record { queue = one_call.0.queues 2; threads = only_thread })
deferred_taskq_cb-Reach_example =
    deferred_taskq_cb-Reach (bounded 2) functions "0x2000" worker only_thread 0 refl true 4
      to_itself one_call.0 (omega arith) one_call.1
