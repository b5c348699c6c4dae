-- ===== src/Http/Simple/Serving/Arrivals.antt =====
-- What http_default_cb of samples/simple_http_server/simple_http_server.cc does to the tasks that wait
-- already.
use Prim.Native.String.{String}
use gexecutor.Prelude.{
  ℕ, some, none, ◌+◌, ◌^◌, ◌<◌, ◌≡◌, ◌≢◌, refl, sym, ap, true, List, [], ◌∷◌, ◌++◌, done, arith,
  inl, inr, Bool-cases,
}
use mathlib.Core.List.{append-nil}
use gexecutor.Pipe.{Pipe, PipeLaws}
use gexecutor.TaskQ.Notify.{IsRecoverable}
use gexecutor.Task.{GTask, gtask}
use gexecutor.Store.{Store}
use gexecutor.Reactor.Posted.{posted}
use gexecutor.Reactor.Holds.{Holds-world, Holds-weaken}
use gexecutor.Deferred.{DeferredTask, fn, new_void, deferred, set_callback}
use gexecutor.Http.Text.{Bytes, ascii, find, at_start, whole_path}
use gexecutor.Http.{Request, Web, Files, Log, locate}
use gexecutor.Http.Replies.{sum, sum-append, reply_for}
use gexecutor.Http.Paths.{not_async}
use gexecutor.Http.Serving.{Serving, Served, sum-replies}
use gexecutor.Http.Serving.Posts.{posts_async, posts_sync}
use gexecutor.Http.Simple.{
  SimpleHttpServer, async_fn, sync_fn, sync_callback_fn, answer_at_once, handle_async_request,
  handle_sync_request, http_default_cb,
}
use gexecutor.Http.Simple.Answers.{answer_at_once-Answers}
use gexecutor.Http.Simple.Serving.{
  expected, expected_async, expected_sync, simple, owes-async, owes-sync,
}

module _ {P U : Type 0} (io : Pipe P) (web : Web U) (files : Files) (server : SimpleHttpServer)
    (address : String) (requests : ℕ → Request) (pipe_laws : PipeLaws io)
    (recoverable : IsRecoverable io) (apart : server.async_taskq ≢ server.sync_taskq) where
  abbrev pub Arrives :
      (limit : ℕ) (ts us : List ℕ) → Request → Store (DeferredTask Bytes) P Log → Type 0
  Arrives limit ts us req s =
      (s' : Store (DeferredTask Bytes) P Log) × (http_default_cb web files server io address req s
        ≡ done s')
      × Served (simple server requests web files) (limit + 1) ts us (req ∷ []) 0 s s'

  handle_async_request-Arrives :
      (limit : ℕ) (ts us : List ℕ) (req : Request) (s : Store (DeferredTask Bytes) P Log)
      → limit + 1 < 2 ^ 64
      → requests req.id ≡ req
      → Serving (simple server requests web files) limit ts us s
      → at_start (find (ascii "/async") req.uri) ≡ true
      → Arrives limit ts us req s
  unfolding http_default_cb handle_async_request
  handle_async_request-Arrives limit ts us req s few known d h =
      let task : GTask (DeferredTask Bytes) =
        gtask (some server.async_taskq) address (new_void (fn (async_fn req.id))) in
      let (q', sent, serving, owed, more) =
        posts_async (simple server requests web files) io pipe_laws recoverable apart limit ts us
          task s few d refl (req, known, refl, h) in
      let expects : expected server requests web files req
          ≡ expected_async server requests web files req ∷ [] =
        rw h refl in
      (
        posted server.async_taskq q' task s,
        rw h sent,
        record {
          ts' = ts ++ s.next_task ∷ [];
          us' = us;
          log = [];
          world = sym (append-nil s.world);
          serving = serving;
          accounts = λ f. omega (
            arith,
            owed f,
            owes-async server requests web files f req known,
            sum-append f (expected server requests web files req) [],
            ap (sum f) expects,
          );
          effort = omega (arith, more);
        },
      )

  handle_sync_request-Arrives :
      (limit : ℕ) (ts us : List ℕ) (req : Request) (s : Store (DeferredTask Bytes) P Log)
      → limit + 1 < 2 ^ 64
      → requests req.id ≡ req
      → Serving (simple server requests web files) limit ts us s
      → at_start (find (ascii "/sync") req.uri) ≡ true
      → Arrives limit ts us req s
  unfolding http_default_cb handle_sync_request set_callback
  handle_sync_request-Arrives limit ts us req s few known d h =
      let task : GTask (DeferredTask Bytes) =
        gtask (some server.sync_taskq) address
          (deferred (sync_fn req.id) (some (sync_callback_fn req.id)) none) in
      let (q', sent, serving, owed, more) =
        posts_sync (simple server requests web files) io pipe_laws recoverable apart limit ts us
          task s few d refl (inl (req, known, refl, h, refl)) in
      let expects : expected server requests web files req
          ≡ expected_sync server requests web files req =
        rw (not_async req.uri h, h) refl in
      (
        posted server.sync_taskq q' task s,
        rw (not_async req.uri h, h) sent,
        record {
          ts' = ts;
          us' = us ++ s.next_task ∷ [];
          log = [];
          world = sym (append-nil s.world);
          serving = serving;
          accounts = λ f. omega (
            arith,
            owed f,
            owes-sync server requests web files f req known,
            sum-append f (expected server requests web files req) [],
            ap (sum f) expects,
          );
          effort = omega (arith, more);
        },
      )

  pub arrives_lem :
      (limit : ℕ) (ts us : List ℕ) (req : Request) (s : Store (DeferredTask Bytes) P Log)
      → limit + 1 < 2 ^ 64
      → requests req.id ≡ req
      → Serving (simple server requests web files) limit ts us s
      → Arrives limit ts us req s
  unfolding http_default_cb
  arrives_lem limit ts us req s few known d =
      elim (Bool-cases (at_start (find (ascii "/async") req.uri))) [
        | inl h ↦ handle_async_request-Arrives limit ts us req s few known d h
        | inr n ↦ elim (Bool-cases (at_start (find (ascii "/sync") req.uri))) [
          | inl h ↦ handle_sync_request-Arrives limit ts us req s few known d h
          | inr m ↦
              let log = answer_at_once web files server req in
              let answers = answer_at_once-Answers web files server req in
              let expects : expected server requests web files req
                  ≡ reply_for files (whole_path server.docroot) req.id (locate web req).path ∷ [] =
                rw (n, m) refl in
              (
                record s { world = s.world ++ log },
                rw (n, m) refl,
                record {
                  ts' = ts;
                  us' = us;
                  log = log;
                  world = refl;
                  serving = record {
                    async_holds = Holds-weaken (Holds-world _ d.async_holds);
                    sync_holds = Holds-weaken (Holds-world _ d.sync_holds);
                  };
                  accounts = λ f. omega (
                    arith,
                    sum-replies f s.world log,
                    ap (sum f) answers,
                    sum-append f (expected server requests web files req) [],
                    ap (sum f) expects,
                  );
                  effort = omega arith;
                },
              )
        ]
      ]
