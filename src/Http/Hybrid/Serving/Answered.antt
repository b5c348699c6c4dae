-- ===== src/Http/Hybrid/Serving/Answered.antt =====
-- The hybrid server over a whole run (samples/http_sync_async_server/http_hybrid_server.cc).
use Prim.Native.String.{String}
use gexecutor.Prelude.{
  ℕ, ◌+◌, ◌*◌, ◌^◌, ◌≤◌, ◌<◌, ◌≡◌, ◌≢◌, refl, ap, List, [], ◌∷◌, ◌++◌, map, length, Outcome, done,
  arith,
}
use gexecutor.Pipe.{Pipe, PipeLaws}
use gexecutor.TaskQ.Notify.{IsRecoverable}
use gexecutor.Store.{Store}
use gexecutor.Http.{Request, Web, WebLaws, Files, Log}
use gexecutor.Http.Replies.{replies}
use gexecutor.Http.Serving.{Event, arrivals, all_expected, Serving, play, Laws, Each}
use gexecutor.Http.Serving.Answered.{rounds, SameReplies, NoMoreReplies, rounds-Answered}
use gexecutor.Http.Hybrid.{
  HttpHybridServer, HttpTask, async_request, sync_request, sync_response, execute, http_default_cb,
}
use gexecutor.Http.Hybrid.Serving.{expected, turns_of, hybrid}
use gexecutor.Http.Hybrid.Serving.Arrivals.{arrives_lem}
use gexecutor.Http.Hybrid.Serving.Turns.{async_turns}
use gexecutor.Http.Hybrid.Serving.SyncTurns.{sync_turns}

some_turn : (body : HttpTask) → 0 < turns_of body
some_turn (async_request req h) = omega arith
some_turn (sync_request req h) = omega arith
some_turn (sync_response req path evb) = omega arith

Each-any : (reqs : List Request) → Each (λ req. Unit {0}) reqs
Each-any [] = tt
Each-any (req ∷ reqs) = (tt, Each-any reqs)

module _ {P U : Type 0} (io : Pipe P) (web : Web U) (files : Files) (server : HttpHybridServer)
    (address : String) where
  all_expected-map :
      (reqs : List Request)
      → all_expected (hybrid web files server) reqs ≡ map (expected web files server) reqs
  all_expected-map [] = refl
  all_expected-map (req ∷ reqs) =
      ap (λ l. expected web files server req ∷ l) (all_expected-map reqs)

  -- The server over a list of events.
  abbrev pub plays : List Event → Store HttpTask P Log → Outcome (Store HttpTask P Log)
  plays =
      play (hybrid web files server) io (execute web files server io)
        (http_default_cb web files server io address)

  module _ (pipe_laws : PipeLaws io) (recoverable : IsRecoverable io) (web_laws : WebLaws web)
      (apart : server.async_taskq ≢ server.sync_taskq) where
    hybrid-Laws :
        Laws
          (hybrid web files server)
          io
          (execute web files server io)
          (http_default_cb web files server io address)
          (λ req. Unit {0})
    hybrid-Laws = record {
      takes_turns = some_turn;
      arrival = λ limit ts us req s few _ d.
          arrives_lem io web files server address pipe_laws recoverable apart limit ts us req s few
            d;
      async_step = λ self limit t ts us s few d.
          async_turns io web files server web_laws apart self limit t ts us s d;
      sync_step = λ self limit t ts us s few d.
          sync_turns io web files server address pipe_laws recoverable web_laws apart self limit t
            ts us s few d;
    }

    -- The queues of the two executors are different, ready and empty, and fewer than 2 ^ 64
    -- notifications can be outstanding. Requests then arrive, and executors have turns, in any order;
    -- a turn takes the first task of its queue, where there is one, and runs it. All of it returns, and
    -- so far no reply has been sent more often than there are requests that are to get it. No further
    -- request arrives, and in each round any executor has a turn on either queue: after twice as many
    -- rounds as there were requests both queues are empty, and besides the replies from before exactly
    -- one has been sent for each request. It is the one that the route of the request calls for: a bad
    -- request where no path can be decoded, else the file that the path names, behind "/async" or
    -- "/sync" or as a whole, under the document root, and not found where it cannot be read.
    pub all_answered :
        (evs : List Event) (rs : List (ℕ × ℕ)) (limit : ℕ) (s : Store HttpTask P Log)
        → limit + length evs + 2 * length rs < 2 ^ 64
        → 2 * length (arrivals evs) ≤ length rs
        → Serving (hybrid web files server) limit [] [] s
        → let expect = replies s.world ++ map (expected web files server) (arrivals evs) in
          (s1 s2 : Store HttpTask P Log) × (now later : Log) × (plays evs s ≡ done s1)
          × (s1.world ≡ s.world ++ now)
          × NoMoreReplies (replies s1.world) expect
          × (plays (rounds rs) s1 ≡ done s2)
          × (s2.world ≡ s1.world ++ later)
          × SameReplies (replies s2.world) expect
          × ((s2.queues server.async_taskq).task_queue ≡ [])
          × ((s2.queues server.sync_taskq).task_queue ≡ [])
    all_answered evs rs limit s few enough d = rw (all_expected-map (arrivals evs)) at (
        rounds-Answered (hybrid web files server) io (execute web files server io)
          (http_default_cb web files server io address) (λ req. Unit {0}) hybrid-Laws evs rs limit s
          few enough (Each-any (arrivals evs)) d)
