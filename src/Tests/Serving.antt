-- ===== src/Tests/Serving.antt =====
-- The servers as they serve (samples/http_sync_async_server and samples/simple_http_server): requests,
-- one of them refused, that arrive between the turns of two executors.
use gexecutor.Prelude.{
  ℕ, ◌+◌, ◌==◌, if◌then◌else◌, ◌≡◌, refl, List, [], ◌∷◌, ◌++◌, map, done, arith, true, some,
}
use gexecutor.Pipe.{bounded, bounded-PipeLaws}
use gexecutor.TaskQ.{max_notifn}
use gexecutor.TaskQ.Notify.{bounded-IsRecoverable}
use gexecutor.Store.{Store}
use gexecutor.Http.Text.{Bytes, ascii}
use gexecutor.Http.{Request, Log}
use gexecutor.Http.Replies.{replies}
use gexecutor.Http.Hybrid.{HttpTask}
use gexecutor.Http.Serving.{Event, all_expected, arrives, async_turn, sync_turn, arrivals, Serving}
use gexecutor.Http.Serving.Answered.{rounds, SameReplies, NoMoreReplies}
use gexecutor.Http.Hybrid.Serving.{expected, hybrid}
use gexecutor.Http.Hybrid.Serving.Answered.{plays, all_answered}
use gexecutor.Http.Hybrid.Startup.{Given}
use gexecutor.Http.Serving.Live.{Loops}
use gexecutor.Deferred.{DeferredTask}
use gexecutor.Http.Simple.Serving.{simple as simple_kind}
use gexecutor.Http.Simple.Serving.Answered.{simple_all_answered}
use gexecutor.Http.Simple.Serving.Answered as SimpleAnswered
use gexecutor.Tests.Queue.{ready-IsReady}
use gexecutor.Tests.Http.{
  web, web-WebLaws, files, get, post, server, async_idle, simple, simple_idle,
}

abbrev events : List Event
events =
    arrives (get 5 (ascii "/async/a.txt?x"))
    ∷ arrives (get 6 (ascii "/sync/a.txt"))
    ∷ async_turn 7
    ∷ arrives (get 7 (ascii "/a.txt"))
    ∷ sync_turn 8
    ∷ arrives (post 8 (ascii "/sync/a.txt"))
    ∷ arrives (get 9 (ascii "/sync/b.txt"))
    ∷ []

abbrev ten_rounds : List (ℕ × ℕ)
ten_rounds =
    (7, 8) ∷ (7, 8) ∷ (7, 9) ∷ (7, 8) ∷ (7, 8) ∷ (7, 8) ∷ (9, 8) ∷ (7, 8) ∷ (7, 8) ∷ (7, 8) ∷ []

idle-Serving : Serving (hybrid web files server) max_notifn [] [] async_idle
idle-Serving = record {
  async_holds = record {
    pipe = 0;
    ready = ready-IsReady 0 [];
    queued = refl;
    bounded = omega arith;
    tasks = tt;
  };
  sync_holds = record {
    pipe = 0;
    ready = ready-IsReady 0 [];
    queued = refl;
    bounded = omega arith;
    tasks = tt;
  };
}

all_answered_example :
    let expect = [] ++ map (expected web files server) (arrivals events) in
    (s1 s2 : Store HttpTask ℕ Log) × (now later : Log) × (plays
        (bounded 2)
        web
        files
        server
        "0x1000"
        events
        async_idle
      ≡ done s1)
    × (s1.world ≡ [] ++ now)
    × NoMoreReplies (replies s1.world) expect
    × (plays (bounded 2) web files server "0x1000" (rounds ten_rounds) s1 ≡ done s2)
    × (s2.world ≡ s1.world ++ later)
    × SameReplies (replies s2.world) expect
    × ((s2.queues 1).task_queue ≡ [])
    × ((s2.queues 2).task_queue ≡ [])
all_answered_example =
    all_answered (bounded 2) web files server "0x1000" (bounded-PipeLaws 2)
      (bounded-IsRecoverable 2) web-WebLaws (λ e. absurd (omega (arith, e))) events ten_rounds
      max_notifn async_idle (omega arith) (omega arith) idle-Serving

abbrev given : Given ℕ
given = record {
  socket = some 9;
  errno = 0;
  async_pipe = some 0;
  sync_pipe = some 0;
  taskq_ev = some 50;
  timer_ev = some 51;
  created = λ _. true;
}

-- Each worker's thread gets an event base and an event.
abbrev loops : Loops
loops = λ worker. (some (60 + worker), some (80 + worker))

-- The request objects of the simple server, one of which is refused.
abbrev objects : ℕ → Request
objects id =
    if id == 5
    then get 5 (ascii "/async/a.txt?x")
    else if id == 6
    then post 6 (ascii "/sync/a.txt")
    else get 7 (ascii "/sync/b.txt")

abbrev simple_events : List Event
simple_events =
    arrives (objects 5)
    ∷ arrives (objects 6)
    ∷ sync_turn 8
    ∷ async_turn 7
    ∷ arrives (objects 7)
    ∷ sync_turn 9
    ∷ []

simple_idle-Serving : Serving (simple_kind simple objects web files) max_notifn [] [] simple_idle
simple_idle-Serving = record {
  async_holds = record {
    pipe = 0;
    ready = ready-IsReady 0 [];
    queued = refl;
    bounded = omega arith;
    tasks = tt;
  };
  sync_holds = record {
    pipe = 0;
    ready = ready-IsReady 0 [];
    queued = refl;
    bounded = omega arith;
    tasks = tt;
  };
}

simple_all_answered_example :
    let expect =
      [] ++ all_expected (simple_kind simple objects web files) (arrivals simple_events) in
    (s1 s2 : Store (DeferredTask Bytes) ℕ Log) × (now later : Log) × (SimpleAnswered.plays
        (bounded 2)
        web
        files
        simple
        "0x1000"
        0
        objects
        simple_events
        simple_idle
      ≡ done s1)
    × (s1.world ≡ [] ++ now)
    × NoMoreReplies (replies s1.world) expect
    × (SimpleAnswered.plays (bounded 2) web files simple "0x1000" 0 objects (rounds ten_rounds) s1
        ≡ done s2)
    × (s2.world ≡ s1.world ++ later)
    × SameReplies (replies s2.world) expect
    × ((s2.queues 1).task_queue ≡ [])
    × ((s2.queues 2).task_queue ≡ [])
simple_all_answered_example =
    simple_all_answered (bounded 2) web files simple "0x1000" 0 objects (bounded-PipeLaws 2)
      (bounded-IsRecoverable 2) web-WebLaws (λ e. absurd (omega (arith, e))) simple_events
      ten_rounds max_notifn simple_idle (omega arith) (omega arith) (refl, (refl, (refl, tt)))
      simple_idle-Serving
