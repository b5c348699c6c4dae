-- ===== src/Http/Hybrid/Serving/Arrivals.antt =====
-- What http_default_cb of samples/http_sync_async_server/http_hybrid_server.cc does to the tasks that
-- wait already.
use Prim.Native.String.{String}
use gexecutor.Prelude.{
  ℕ, some, ◌+◌, ◌^◌, ◌<◌, ◌≡◌, ◌≢◌, refl, sym, ap, true, List, [], ◌∷◌, ◌++◌, done, arith, inl, inr,
  Bool-cases,
}
use mathlib.Core.List.{append-nil}
use gexecutor.Pipe.{Pipe, PipeLaws}
use gexecutor.TaskQ.Notify.{IsRecoverable}
use gexecutor.Task.{gtask}
use gexecutor.Store.{Store}
use gexecutor.Reactor.Posted.{posted}
use gexecutor.Reactor.Holds.{Holds-world, Holds-weaken}
use gexecutor.Http.Text.{ascii, find, at_start, whole_path}
use gexecutor.Http.{Request, Web, Files, Log, nothing, locate}
use gexecutor.Http.Replies.{sum, reply_for}
use gexecutor.Http.Paths.{not_async}
use gexecutor.Http.Hybrid.{
  HttpHybridServer, HttpTask, async_request, sync_request, answer_at_once, handle_async_request,
  handle_sync_request, http_default_cb,
}
use gexecutor.Http.Hybrid.Answers.{answer_at_once-Answers}
use gexecutor.Http.Serving.{Serving, Served, sum-replies}
use gexecutor.Http.Serving.Posts.{posts_async, posts_sync}
use gexecutor.Http.Hybrid.Serving.{expected, expected_async, expected_sync, hybrid}

module _ {P U : Type 0} (io : Pipe P) (web : Web U) (files : Files) (server : HttpHybridServer)
    (address : String) (pipe_laws : PipeLaws io) (recoverable : IsRecoverable io)
    (apart : server.async_taskq ≢ server.sync_taskq) where
  abbrev pub Arrives : (limit : ℕ) (ts us : List ℕ) → Request → Store HttpTask P Log → Type 0
  Arrives limit ts us req s =
      (s' : Store HttpTask P Log) × (http_default_cb web files server io address req s ≡ done s')
      × Served (hybrid web files server) (limit + 1) ts us (req ∷ []) 0 s s'

  handle_async_request-Arrives :
      (limit : ℕ) (ts us : List ℕ) (req : Request) (s : Store HttpTask P Log)
      → limit + 1 < 2 ^ 64
      → Serving (hybrid web files server) limit ts us s
      → at_start (find (ascii "/async") req.uri) ≡ true
      → Arrives limit ts us req s
  unfolding http_default_cb handle_async_request
  handle_async_request-Arrives limit ts us req s few v h =
      let task = gtask (some server.async_taskq) address (async_request req nothing) in
      let (q', sent, serving, owed, more) =
        posts_async (hybrid web files server) io pipe_laws recoverable apart limit ts us task s few
          v refl h in
      let expects : expected web files server req ≡ expected_async web files server req =
        rw h refl in
      (
        posted server.async_taskq q' task s,
        rw h sent,
        record {
          ts' = ts ++ s.next_task ∷ [];
          us' = us;
          log = [];
          world = sym (append-nil s.world);
          serving = serving;
          accounts = λ f. omega (arith, owed f, ap f expects);
          effort = omega (arith, more);
        },
      )

  handle_sync_request-Arrives :
      (limit : ℕ) (ts us : List ℕ) (req : Request) (s : Store HttpTask P Log)
      → limit + 1 < 2 ^ 64
      → Serving (hybrid web files server) limit ts us s
      → at_start (find (ascii "/sync") req.uri) ≡ true
      → Arrives limit ts us req s
  unfolding http_default_cb handle_sync_request
  handle_sync_request-Arrives limit ts us req s few v h =
      let task = gtask (some server.sync_taskq) address (sync_request (some req) nothing) in
      let (q', sent, serving, owed, more) =
        posts_sync (hybrid web files server) io pipe_laws recoverable apart limit ts us task s few v
          refl (h, refl) in
      let expects : expected web files server req ≡ expected_sync web files server req =
        rw (not_async req.uri h, h) refl in
      (
        posted server.sync_taskq q' task s,
        rw (not_async req.uri h, h) sent,
        record {
          ts' = ts;
          us' = us ++ s.next_task ∷ [];
          log = [];
          world = sym (append-nil s.world);
          serving = serving;
          accounts = λ f. omega (arith, owed f, ap f expects);
          effort = omega (arith, more);
        },
      )

  pub arrives_lem :
      (limit : ℕ) (ts us : List ℕ) (req : Request) (s : Store HttpTask P Log)
      → limit + 1 < 2 ^ 64
      → Serving (hybrid web files server) limit ts us s
      → Arrives limit ts us req s
  unfolding http_default_cb
  arrives_lem limit ts us req s few v =
      elim (Bool-cases (at_start (find (ascii "/async") req.uri))) [
        | inl h ↦ handle_async_request-Arrives limit ts us req s few v h
        | inr n ↦ elim (Bool-cases (at_start (find (ascii "/sync") req.uri))) [
          | inl h ↦ handle_sync_request-Arrives limit ts us req s few v h
          | inr m ↦
              let log = answer_at_once web files server req in
              let answers = answer_at_once-Answers web files server req in
              let expects : expected web files server req
                  ≡ reply_for files (whole_path server.docroot) req.id (locate web req).path =
                rw (n, m) refl in
              (
                record s { world = s.world ++ log },
                rw (n, m) refl,
                record {
                  ts' = ts;
                  us' = us;
                  log = log;
                  world = refl;
                  serving = record {
                    async_holds = Holds-weaken (Holds-world _ v.async_holds);
                    sync_holds = Holds-weaken (Holds-world _ v.sync_holds);
                  };
                  accounts = λ f.
                      omega (arith, sum-replies f s.world log, ap (sum f) answers, ap f expects);
                  effort = omega arith;
                },
              )
        ]
      ]
