-- ===== src/Http/Simple/Serving/Answered.antt =====
-- The simple server over a whole run (samples/simple_http_server/simple_http_server.cc).
use Prim.Native.String.{String}
use gexecutor.Prelude.{
  ℕ, ◌+◌, ◌*◌, ◌^◌, ◌≤◌, ◌<◌, ◌≡◌, ◌≢◌, List, [], ◌++◌, length, Outcome, done, arith,
}
use gexecutor.Pipe.{Pipe, PipeLaws}
use gexecutor.TaskQ.Notify.{IsRecoverable}
use gexecutor.Store.{Store}
use gexecutor.Deferred.{DeferredTask, deferred_void, deferred, execute}
use gexecutor.Http.Text.{Bytes}
use gexecutor.Http.{Request, Web, WebLaws, Files, Log}
use gexecutor.Http.Replies.{replies}
use gexecutor.Http.Serving.{Event, arrivals, all_expected, Serving, play, Laws, Each}
use gexecutor.Http.Serving.Answered.{rounds, SameReplies, NoMoreReplies, rounds-Answered}
use gexecutor.Http.Simple.{SimpleHttpServer, functions, http_default_cb}
use gexecutor.Http.Simple.Serving.{turns_of, simple}
use gexecutor.Http.Simple.Serving.Arrivals.{arrives_lem}
use gexecutor.Http.Simple.Serving.Turns.{async_turns}
use gexecutor.Http.Simple.Serving.SyncTurns.{sync_turns}

some_turn : (body : DeferredTask Bytes) → 0 < turns_of body
some_turn (deferred_void task_fn callback errback) = omega arith
some_turn (deferred task_fn callback errback) = omega arith

module _ {P U : Type 0} (io : Pipe P) (web : Web U) (files : Files) (server : SimpleHttpServer)
    (address : String) (errno : ℕ) (requests : ℕ → Request) where
  -- The server over a list of events.
  abbrev pub plays :
      List Event → Store (DeferredTask Bytes) P Log → Outcome (Store (DeferredTask Bytes) P Log)
  plays =
      play (simple server requests web files) io
        (execute io (functions web files server errno requests) address)
        (http_default_cb web files server io address)

  module _ (pipe_laws : PipeLaws io) (recoverable : IsRecoverable io) (web_laws : WebLaws web)
      (apart : server.async_taskq ≢ server.sync_taskq) where
    simple-Laws :
        Laws
          (simple server requests web files)
          io
          (execute io (functions web files server errno requests) address)
          (http_default_cb web files server io address)
          (λ req. requests req.id ≡ req)
    simple-Laws = record {
      takes_turns = some_turn;
      arrival = λ limit ts us req s few known d.
          arrives_lem io web files server address requests pipe_laws recoverable apart limit ts us
            req s few known d;
      async_step = λ self limit t ts us s few d.
          async_turns io web files server address errno requests web_laws apart self limit t ts us s
            d;
      sync_step = λ self limit t ts us s few d.
          sync_turns io web files server address errno requests pipe_laws recoverable web_laws apart
            self limit t ts us s few d;
    }

    -- The queues of the two executors are different, ready and empty, fewer than 2 ^ 64 notifications
    -- can be outstanding, and the request objects are there as they arrive for as long as functions
    -- are bound to them. Requests then arrive, and executors have turns, in any order; a turn takes the
    -- first task of its queue, where there is one, and runs it. All of it returns, and so far no reply
    -- has been sent more often than the requests call for it. No further request arrives, and in each
    -- round any executor has a turn on either queue: after twice as many rounds as there were requests
    -- both queues are empty, and besides the replies from before exactly those have been sent that the
    -- routes of the requests call for. It is one for a request: a bad request where no path can be
    -- decoded, else the file that the path names, behind "/async" or "/sync" or as a whole, under the
    -- document root, and not found where it cannot be read. But a request for "/sync" whose path cannot
    -- be decoded gets two, the bad request and then the file "Failure", or not found.
    pub simple_all_answered :
        (evs : List Event) (rs : List (ℕ × ℕ)) (limit : ℕ) (s : Store (DeferredTask Bytes) P Log)
        → limit + length evs + 2 * length rs < 2 ^ 64
        → 2 * length (arrivals evs) ≤ length rs
        → Each (λ req. requests req.id ≡ req) (arrivals evs)
        → Serving (simple server requests web files) limit [] [] s
        → let expect =
            replies s.world ++ all_expected (simple server requests web files) (arrivals evs) in
          (s1 s2 : Store (DeferredTask Bytes) P Log) × (now later : Log) × (plays evs s ≡ done s1)
          × (s1.world ≡ s.world ++ now)
          × NoMoreReplies (replies s1.world) expect
          × (plays (rounds rs) s1 ≡ done s2)
          × (s2.world ≡ s1.world ++ later)
          × SameReplies (replies s2.world) expect
          × ((s2.queues server.async_taskq).task_queue ≡ [])
          × ((s2.queues server.sync_taskq).task_queue ≡ [])
    simple_all_answered evs rs limit s few enough known d =
        rounds-Answered (simple server requests web files) io
          (execute io (functions web files server errno requests) address)
          (http_default_cb web files server io address) (λ req. requests req.id ≡ req) simple-Laws
          evs rs limit s few enough known d
