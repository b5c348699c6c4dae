-- ===== src/Http/Simple/Requests.antt =====
-- A request from http_default_cb of samples/simple_http_server/simple_http_server.cc through the
-- queues, the deferred tasks and the event loops to its replies.
use Prim.Native.String.{String}
use gexecutor.Prelude.{ℕ, ◌≡◌, refl, ap, ◌∙◌, true, none, some, [], ◌++◌, ◌==◌, if◌then◌else◌, done}
use mathlib.Core.List.{append_assoc}
use gexecutor.Pipe.{Pipe, PipeLaws}
use gexecutor.TaskQ.Notify.{IsRecoverable}
use gexecutor.Task.{GTask, gtask}
use gexecutor.Store.{Store}
use gexecutor.Reactor.{run_tasks}
use gexecutor.Reactor.Posted.{
  loop, Idle, posts, posted, running, posted-runs, running-task, running-Idle,
}
use gexecutor.Deferred.{
  result, fn, bind, DeferredTask, new_void, set_callback, deferred, execute, respond,
}
use gexecutor.Http.Simple.Calls.{async_executes, sync_executes, callback_executes}
use gexecutor.Http.Text.{Bytes, ascii, find, at_start}
use gexecutor.Http.{Request, Web, WebLaws, Files, Log, locate, send_response}
use gexecutor.Http.Replies.{sum, reply_to, AnswersOnce, Answers, replies}
use gexecutor.Http.Paths.{not_async, file_behind}
use gexecutor.Http.Simple.{
  SimpleHttpServer, async_fn, sync_fn, sync_callback_fn, functions, handle_async_request,
  handle_sync_request, http_default_cb,
}
use gexecutor.Http.Simple.Answers.{
  expected, sync_replies, process_async_task_lem, process_sync_task_lem,
}

module _ {P U : Type 0} (io : Pipe P) (web : Web U) (files : Files) (server : SimpleHttpServer)
    (address : String) (errno : ℕ) (pipe_laws : PipeLaws io) (recoverable : IsRecoverable io)
    (web_laws : WebLaws web) where
  -- A request object for a URI that starts with /async, where the queue of the asynchronous executor is
  -- ready and empty: http_default_cb returns, one turn of an event loop on that queue returns,
  -- exactly one reply has then been sent since, to the request, and the queue is empty again. The
  -- reply is a bad request where no path can be decoded, else the file that the path behind "/async"
  -- names under the document root, and not found where it cannot be read.
  simple_async_answered :
      (requests : ℕ → Request) (req : Request) (self : ℕ) (s : Store (DeferredTask Bytes) P Log)
      → requests req.id ≡ req
      → at_start (find (ascii "/async") req.uri) ≡ true
      → Idle server.async_taskq 1 s
      → (s1 s2 : Store (DeferredTask Bytes) P Log) × (log : Log) × (http_default_cb web files server
            io address req s
          ≡ done s1)
        × (run_tasks io
              (execute io (functions web files server errno requests) address)
              (loop self server.async_taskq)
              1
              s1
            ≡ done s2)
        × (s2.world ≡ s.world ++ log)
        × AnswersOnce req.id log
        × Answers files (file_behind 6 server.docroot) req.id (locate web req).path log
        × ((s2.queues server.async_taskq).task_queue ≡ [])
  unfolding http_default_cb run_tasks handle_async_request
  simple_async_answered requests req self s known h v =
      let exec = execute io (functions web files server errno requests) address in
      let q = server.async_taskq in
      let task = gtask (some q) address (new_void (fn (async_fn req.id))) in
      let (q', sent, alone) = posts io pipe_laws recoverable q 0 task s v in
      let (log, ran, once, answers) =
        process_async_task_lem web files server errno web_laws req h in
      let there = running io exec self q q' task s in
      let body =
        ap (λ (t : GTask (DeferredTask Bytes)). t.body)
          (running-task io exec self q 0 q' task s alone) in
      let final = record there { world = s.world ++ log } in
      let runs : exec s.next_task there ≡ done final =
        async_executes io web files server address errno requests req known s.next_task log there
          body ran in
      (
        posted q q' task s,
        final,
        log,
        rw h sent,
        rw (posted-runs io exec self q 0 q' task s alone 0 refl, runs) refl,
        refl,
        once,
        answers,
        (running-Idle io exec self q 0 q' task s alone).idle,
      )

  -- A request object for a URI that starts with /sync, where the queue of the synchronous executor is ready
  -- and empty: http_default_cb returns, two turns of an event loop on that queue return, and the
  -- queue is empty again. A request whose path can be decoded has been replied to exactly once by
  -- then, with the file that the path behind "/sync" names, or not found; one that was refused before
  -- that has been replied to twice, with a bad request and then with the file "Failure" of the working
  -- directory, or not found. No other request has been.
  pub simple_sync_answered :
      (requests : ℕ → Request) (req : Request) (self : ℕ) (s : Store (DeferredTask Bytes) P Log)
      → requests req.id ≡ req
      → at_start (find (ascii "/sync") req.uri) ≡ true
      → Idle server.sync_taskq 2 s
      → (s1 s2 : Store (DeferredTask Bytes) P Log) × (log : Log) × (http_default_cb web files server
            io address req s
          ≡ done s1)
        × (run_tasks io
              (execute io (functions web files server errno requests) address)
              (loop self server.sync_taskq)
              2
              s1
            ≡ done s2)
        × (s2.world ≡ s.world ++ log)
        × ((i : ℕ)
            → sum (reply_to i) log ≡ (if i == req.id then expected (locate web req).path else 0))
        × (replies log ≡ sync_replies files server.docroot req.id (locate web req).path)
        × ((s2.queues server.sync_taskq).task_queue ≡ [])
  unfolding http_default_cb run_tasks handle_sync_request set_callback execute respond
  simple_sync_answered requests req self s known h v =
      let calls = functions web files server errno requests in
      let exec = execute io calls address in
      let q = server.sync_taskq in
      let task : GTask (DeferredTask Bytes) =
        gtask (some q) address (deferred (sync_fn req.id) (some (sync_callback_fn req.id)) none) in
      let (q', sent, alone) = posts io pipe_laws recoverable q 1 task s v in
      let (path, log, ran, count, answers) =
        process_sync_task_lem web files server errno web_laws req h in
      let there = running io exec self q q' task s in
      let own = running-task io exec self q 1 q' task s alone in
      let body = ap (λ (t : GTask (DeferredTask Bytes)). t.body) own in
      let resp = ap (λ (t : GTask (DeferredTask Bytes)). t.resp_task_q) own in
      let free = running-Idle io exec self q 1 q' task s alone in
      let mid = record there { world = s.world ++ log } in
      let free2 : Idle q 1 mid = record {
        pipe = free.pipe;
        ready = free.ready;
        idle = free.idle;
        room = free.room;
      } in
      let callback : DeferredTask Bytes = new_void (bind (sync_callback_fn req.id) (result path)) in
      let response = gtask (there.tasks s.next_task).exec_task_q address callback in
      let (q2, sent2, alone2) = posts io pipe_laws recoverable q 0 response mid free2 in
      let first : exec s.next_task there ≡ done (posted q q2 response mid) =
        sync_executes io web files server address errno requests req known s.next_task path log
          there body ran
        ∙ rw (resp, respond) sent2 in
      let there2 = running io exec self q q2 response mid in
      let body2 =
        ap (λ (t : GTask (DeferredTask Bytes)). t.body)
          (running-task io exec self q 0 q2 response mid alone2) in
      let final = record there2 { world = (s.world ++ log) ++ send_response files req.id path } in
      let second : exec mid.next_task there2 ≡ done final =
        callback_executes io web files server address errno requests req known mid.next_task path
          there2 body2 in
      (
        posted q q' task s,
        final,
        log ++ send_response files req.id path,
        rw (not_async req.uri h, h) sent,
        rw (posted-runs io exec self q 1 q' task s alone 1 refl, first)
            (rw (posted-runs io exec self q 0 q2 response mid alone2 0 refl, second) refl),
        append_assoc s.world log (send_response files req.id path),
        count,
        answers,
        (running-Idle io exec self q 0 q2 response mid alone2).idle,
      )
