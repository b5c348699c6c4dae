-- ===== src/Http/Simple/Serving/SyncTurns.antt =====
-- A turn of an event loop on the synchronous queue of the simple server
-- (samples/simple_http_server/simple_http_server.cc).
use Prim.Native.String.{String}
use gexecutor.Prelude.{
  ℕ, ◌+◌, ◌^◌, ◌<◌, ◌≡◌, ◌≢◌, refl, ap, ◌∙◌, none, some, List, [], ◌∷◌, ◌++◌, done, arith, inl, inr,
}
use gexecutor.Pipe.{Pipe, PipeLaws}
use gexecutor.TaskQ.Notify.{IsRecoverable}
use gexecutor.Task.{GTask, gtask}
use gexecutor.Store.{Store}
use gexecutor.Reactor.{run_tasks}
use gexecutor.Reactor.Posted.{loop, posted}
use gexecutor.Reactor.Holds.{front, front-task}
use gexecutor.Deferred.{DeferredTask, new_void, bind, result, deferred, execute, respond}
use gexecutor.Http.Text.{Bytes}
use gexecutor.Http.{Request, Web, WebLaws, Files, Log, send_response}
use gexecutor.Http.Replies.{sum}
use gexecutor.Http.Paths.{replies-send_response}
use gexecutor.Http.Serving.{Serving, Serving-weaken, Served, sum-replies}
use gexecutor.Http.Serving.Fronts.{sync_taskq-Front, logged}
use gexecutor.Http.Serving.Posts.{posts_sync}
use gexecutor.Http.Simple.{SimpleHttpServer, sync_fn, sync_callback_fn, functions}
use gexecutor.Http.Simple.Answers.{process_sync_task_lem}
use gexecutor.Http.Simple.Calls.{sync_executes, callback_executes}
use gexecutor.Http.Simple.Serving.{
  IsRequest, IsCallback, apart_tasks, simple, turns_of, owes, owes-sync, owes-callback,
}

module _ {P U : Type 0} (io : Pipe P) (web : Web U) (files : Files) (server : SimpleHttpServer)
    (address : String) (errno : ℕ) (requests : ℕ → Request) (pipe_laws : PipeLaws io)
    (recoverable : IsRecoverable io) (web_laws : WebLaws web)
    (apart : server.async_taskq ≢ server.sync_taskq) where
  abbrev pub SyncTurns :
      (self limit t : ℕ) (ts us : List ℕ) → Store (DeferredTask Bytes) P Log → Type 0
  SyncTurns self limit t ts us s =
      (s' : Store (DeferredTask Bytes) P Log) × (run_tasks io
          (execute io (functions web files server errno requests) address)
          (loop self server.sync_taskq) 1 s
        ≡ done s')
      × Served (simple server requests web files) (limit + 1) ts (t ∷ us) [] 1 s s'

  callback_turns :
      (self limit t : ℕ) (ts us : List ℕ) (s : Store (DeferredTask Bytes) P Log)
      → Serving (simple server requests web files) limit ts (t ∷ us) s
      → IsCallback server requests (s.tasks t)
      → SyncTurns self limit t ts us s
  unfolding run_tasks
  callback_turns self limit t ts us s d (req, path, known, body) =
      let exec = execute io (functions web files server errno requests) address in
      let v = simple server requests web files in
      let q = server.sync_taskq in
      let log = send_response files req.id path in
      let there = front io exec self q t s in
      let (runs, serving, owed, less, _, _) =
        sync_taskq-Front v io exec apart (apart_tasks server requests) self limit t ts us s d in
      let own : (there.tasks t).body ≡ new_void (bind (sync_callback_fn req.id) (result path)) =
        ap (λ (x : GTask (DeferredTask Bytes)). x.body) (front-task io exec self q t s) ∙ body in
      (
        logged v io exec apart (apart_tasks server requests) self q t log s,
        runs
            ∙ rw
                (callback_executes io web files server address errno requests req known t path there
                  own)
                refl,
        record {
          ts' = ts;
          us' = us;
          log = log;
          world = refl;
          serving = Serving-weaken v (serving log);
          accounts = λ f. omega (
            arith,
            owed f log,
            ap (sum f) (replies-send_response files req.id path),
            ap (owes server requests web files f) body,
            owes-callback server requests web files f req known path,
          );
          effort = omega (arith, less log, ap turns_of body);
        },
      )

  request_turns :
      (self limit t : ℕ) (ts us : List ℕ) (s : Store (DeferredTask Bytes) P Log)
      → limit + 1 < 2 ^ 64
      → Serving (simple server requests web files) limit ts (t ∷ us) s
      → IsRequest server requests (s.tasks t)
      → SyncTurns self limit t ts us s
  unfolding run_tasks respond
  request_turns self limit t ts us s few d (req, known, body, starts, resp) =
      let exec = execute io (functions web files server errno requests) address in
      let v = simple server requests web files in
      let q = server.sync_taskq in
      let (path, log, ran, _, answers) =
        process_sync_task_lem web files server errno web_laws req starts in
      let there = front io exec self q t s in
      let (runs, serving, owed, less, _, _) =
        sync_taskq-Front v io exec apart (apart_tasks server requests) self limit t ts us s d in
      let task = front-task io exec self q t s in
      let own : (there.tasks t).body
          ≡ deferred (sync_fn req.id) (some (sync_callback_fn req.id)) none =
        ap (λ (x : GTask (DeferredTask Bytes)). x.body) task ∙ body in
      let replies_to : (there.tasks t).resp_task_q ≡ some q =
        ap (λ (x : GTask (DeferredTask Bytes)). x.resp_task_q) task ∙ resp in
      let s1 = logged v io exec apart (apart_tasks server requests) self q t log s in
      let response : GTask (DeferredTask Bytes) =
        gtask (there.tasks t).exec_task_q address
          (new_void (bind (sync_callback_fn req.id) (result path))) in
      let (q2, sent, serving2, owed2, less2) =
        posts_sync v io pipe_laws recoverable apart limit ts us response s1 few (serving log) refl
          (inr (req, path, known, refl)) in
      (
        posted q q2 response s1,
        runs
            ∙ rw
                (
                  sync_executes io web files server address errno requests req known t path log
                      there own ran,
                  respond,
                )
                (rw (replies_to, sent) refl),
        record {
          ts' = ts;
          us' = us ++ s1.next_task ∷ [];
          log = log;
          world = refl;
          serving = serving2;
          accounts = λ f. omega (
            arith,
            owed f log,
            owed2 f,
            sum-replies f log (send_response files req.id path),
            ap (sum f) (replies-send_response files req.id path),
            ap (sum f) answers,
            ap (owes server requests web files f) body,
            owes-sync server requests web files f req known,
            owes-callback server requests web files f req known path,
          );
          effort = omega (arith, less log, less2, ap turns_of body);
        },
      )

  pub sync_turns :
      (self limit t : ℕ) (ts us : List ℕ) (s : Store (DeferredTask Bytes) P Log)
      → limit + 1 < 2 ^ 64
      → Serving (simple server requests web files) limit ts (t ∷ us) s
      → SyncTurns self limit t ts us s
  sync_turns self limit t ts us s few d =
      let (_, _, kind, _, _) = d.sync_holds.tasks in
      elim kind [
        | inl request ↦ request_turns self limit t ts us s few d request
        | inr callback ↦ callback_turns self limit t ts us s d callback
      ]
