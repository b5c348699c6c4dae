-- ===== src/Http/Simple/Serving/Turns.antt =====
-- A turn of an event loop on the asynchronous queue of the simple server
-- (samples/simple_http_server/simple_http_server.cc).
use Prim.Native.String.{String}
use gexecutor.Prelude.{ℕ, ◌+◌, ◌≡◌, ◌≢◌, refl, ap, ◌∙◌, List, [], ◌∷◌, done, arith}
use gexecutor.Pipe.{Pipe}
use gexecutor.Task.{GTask}
use gexecutor.Store.{Store}
use gexecutor.Reactor.{run_tasks}
use gexecutor.Reactor.Posted.{loop}
use gexecutor.Reactor.Holds.{front, front-task}
use gexecutor.Deferred.{DeferredTask, new_void, fn, execute}
use gexecutor.Http.Text.{Bytes}
use gexecutor.Http.{Request, Web, WebLaws, Files, Log}
use gexecutor.Http.Replies.{sum}
use gexecutor.Http.Serving.{Serving, Serving-weaken, Served}
use gexecutor.Http.Serving.Fronts.{async_taskq-Front, logged}
use gexecutor.Http.Simple.{SimpleHttpServer, async_fn, functions}
use gexecutor.Http.Simple.Answers.{process_async_task_lem}
use gexecutor.Http.Simple.Calls.{async_executes}
use gexecutor.Http.Simple.Serving.{apart_tasks, simple, turns_of, owes, owes-async}

module _ {P U : Type 0} (io : Pipe P) (web : Web U) (files : Files) (server : SimpleHttpServer)
    (address : String) (errno : ℕ) (requests : ℕ → Request) (web_laws : WebLaws web)
    (apart : server.async_taskq ≢ server.sync_taskq) where
  pub async_turns :
      (self limit t : ℕ) (ts us : List ℕ) (s : Store (DeferredTask Bytes) P Log)
      → let exec = execute io (functions web files server errno requests) address in
        let v = simple server requests web files in
        Serving v limit (t ∷ ts) us s
        → (s' : Store (DeferredTask Bytes) P Log) × (run_tasks io exec
              (loop self server.async_taskq)
              1
              s
            ≡ done s')
          × Served v (limit + 1) (t ∷ ts) us [] 1 s s'
  unfolding run_tasks
  async_turns self limit t ts us s d =
      let exec = execute io (functions web files server errno requests) address in
      let v = simple server requests web files in
      let q = server.async_taskq in
      let (_, _, (req, known, body, starts), _, _) = d.async_holds.tasks in
      let (log, ran, _, answers) =
        process_async_task_lem web files server errno web_laws req starts in
      let there = front io exec self q t s in
      let (runs, serving, owed, less, _, _) =
        async_taskq-Front v io exec apart (apart_tasks server requests) self limit t ts us s d in
      let own : (there.tasks t).body ≡ new_void (fn (async_fn req.id)) =
        ap (λ (x : GTask (DeferredTask Bytes)). x.body) (front-task io exec self q t s) ∙ body in
      (
        logged v io exec apart (apart_tasks server requests) self q t log s,
        runs
            ∙ rw
                (async_executes io web files server address errno requests req known t log there own
                  ran)
                refl,
        record {
          ts' = ts;
          us' = us;
          log = log;
          world = refl;
          serving = Serving-weaken v (serving log);
          accounts = λ f. omega (
            arith,
            owed f log,
            ap (sum f) answers,
            ap (owes server requests web files f) body,
            owes-async server requests web files f req known,
          );
          effort = omega (arith, less log, ap turns_of body);
        },
      )
