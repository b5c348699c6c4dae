-- ===== src/Http/Hybrid/Requests.antt =====
-- A request from http_default_cb of samples/http_sync_async_server/http_hybrid_server.cc through the
-- queues and the event loops to its reply.
use Prim.Native.String.{String}
use gexecutor.Prelude.{
  ℕ, ◌≤◌, ◌≡◌, refl, sym, ap, ◌∙◌, true, Option, none, some, [], ◌++◌, done, arith, inl, inr,
  Option-cases,
}
use mathlib.Core.List.{append-nil, append_assoc}
use gexecutor.Pipe.{Pipe, PipeLaws}
use gexecutor.TaskQ.Notify.{IsRecoverable}
use gexecutor.Task.{GTask, gtask, gtask_named}
use gexecutor.Store.{Store}
use gexecutor.Reactor.{run_tasks}
use gexecutor.Reactor.Posted.{
  loop, Idle, posts, posted, running, posted-runs, running-task, running-Idle,
}
use gexecutor.Http.Text.{Bytes, ascii, find, at_start}
use gexecutor.Http.{Request, Web, WebLaws, Files, Log, nothing, locate, send_response}
use gexecutor.Http.Replies.{AnswersOnce, Answers}
use gexecutor.Http.Hybrid.{
  HttpHybridServer, HttpTask, async_request, sync_request, sync_response, progress, respond,
  execute_body, execute, handle_async_request, handle_sync_request, http_default_cb,
}
use gexecutor.Http.Paths.{response_log, not_async, file_behind}
use gexecutor.Http.Hybrid.Answers.{run_async_lem, run_sync_lem}

-- What holds of a log with its response, where there is no response and where there is one.
without_response :
    (Holds : Files → Log → Type 0) (files : Files) (req : ℕ) (log : Log) (file : Option Bytes)
    → file ≡ none
    → ((files' : Files) → Holds files' (log ++ response_log files' req file))
    → Holds files log
without_response Holds files req log none e h = rw (sym (append-nil log)) (h files)
without_response Holds files req log (some _) e h = cc e

with_response :
    (Holds : Files → Log → Type 0) (files : Files) (req : ℕ) (log : Log) (file : Option Bytes)
    (path : Bytes)
    → file ≡ some path
    → ((files' : Files) → Holds files' (log ++ response_log files' req file))
    → Holds files (log ++ send_response files req path)
with_response Holds files req log file path e h = rw (sym (ap (response_log files req) e)) (h files)

module _ {P U : Type 0} (io : Pipe P) (web : Web U) (files : Files) (server : HttpHybridServer)
    (address : String) (pipe_laws : PipeLaws io) (recoverable : IsRecoverable io)
    (web_laws : WebLaws web) where
  progress-resp :
      (t : ℕ) (body : HttpTask) (log : Log) (s : Store HttpTask P Log)
      → ((progress web files server io t body log s).tasks t).resp_task_q ≡ (s.tasks t).resp_task_q
  progress-resp t body log s = ground arith

  -- A request for a URI that starts with /async, where the queue of the asynchronous executor is
  -- ready and empty: http_default_cb returns, one turn of an event loop on that queue returns,
  -- exactly one reply has then been sent since, to the request, and the queue is empty again. The
  -- reply is a bad request where no path can be decoded, else the file that the path behind "/async"
  -- names under the document root, and not found where it cannot be read.
  async_request_answered :
      (req : Request) (self : ℕ) (s : Store HttpTask P Log)
      → at_start (find (ascii "/async") req.uri) ≡ true
      → Idle server.async_taskq 1 s
      → (s1 s2 : Store HttpTask P Log) × (log : Log) × (http_default_cb web files server io address
            req s
          ≡ done s1)
        × (run_tasks io (execute web files server io) (loop self server.async_taskq) 1 s1 ≡ done s2)
        × (s2.world ≡ s.world ++ log)
        × AnswersOnce req.id log
        × Answers files (file_behind 6 server.docroot) req.id (locate web req).path log
        × Idle server.async_taskq 0 s2
  unfolding http_default_cb run_tasks execute execute_body handle_async_request
  async_request_answered req self s h v =
      let q = server.async_taskq in
      let task = gtask (some q) address (async_request req nothing) in
      let (q', sent, alone) = posts io pipe_laws recoverable q 0 task s v in
      let (log, h', ran, once, _, answers) = run_async_lem web files server web_laws req h in
      let there = running io (execute web files server io) self q q' task s in
      let body =
        ap (λ (t : GTask HttpTask). t.body)
          (running-task io (execute web files server io) self q 0 q' task s alone) in
      let free = running-Idle io (execute web files server io) self q 0 q' task s alone in
      (
        posted q q' task s,
        progress web files server io s.next_task (async_request req h') log there,
        log,
        rw h sent,
        rw (posted-runs io (execute web files server io) self q 0 q' task s alone 0 refl, body, ran)
            refl,
        refl,
        once,
        answers,
        record { pipe = free.pipe; ready = free.ready; idle = free.idle; room = free.room },
      )

  -- A request for a URI that starts with /sync, where the queue of the synchronous executor is
  -- ready and empty: http_default_cb returns, one or two turns of an event loop on that queue
  -- return, exactly one reply has then been sent since, to the request, and the queue is empty
  -- again. The reply is a bad request where no path can be decoded, else the file that the path behind
  -- "/sync" names under the document root, and not found where it cannot be read.
  pub sync_request_answered :
      (req : Request) (self : ℕ) (s : Store HttpTask P Log)
      → at_start (find (ascii "/sync") req.uri) ≡ true
      → Idle server.sync_taskq 2 s
      → (turns : ℕ) × (s1 s2 : Store HttpTask P Log) × (log : Log) × (turns ≤ 2)
        × (http_default_cb web files server io address req s ≡ done s1)
        × (run_tasks io (execute web files server io) (loop self server.sync_taskq) turns s1
            ≡ done s2)
        × (s2.world ≡ s.world ++ log)
        × AnswersOnce req.id log
        × Answers files (file_behind 5 server.docroot) req.id (locate web req).path log
        × ((s2.queues server.sync_taskq).task_queue ≡ [])
  unfolding http_default_cb run_tasks execute execute_body handle_sync_request
  sync_request_answered req self s h v =
      let exec = execute web files server io in
      let q = server.sync_taskq in
      let task = gtask (some q) address (sync_request (some req) nothing) in
      let (q', sent, alone) = posts io pipe_laws recoverable q 1 task s v in
      let (log, h', file, ran, once, _, answers) = run_sync_lem web files server web_laws req h in
      let answered = λ (files' : Files).
        Answers files' (file_behind 5 server.docroot) req.id (locate web req).path in
      let own = running-task io exec self q 1 q' task s alone in
      let body = ap (λ (t : GTask HttpTask). t.body) own in
      let free = running-Idle io exec self q 1 q' task s alone in
      let s2 =
        progress web files server io s.next_task (sync_request (some req) h') log
          (running io exec self q q' task s) in
      let posted1 : http_default_cb web files server io address req s ≡ done (posted q q' task s) =
        rw (not_async req.uri h, h) sent in
      elim (Option-cases file) [
        | inl e ↦ (
          1,
          posted q q' task s,
          s2,
          log,
          omega arith,
          posted1,
          rw (posted-runs io exec self q 1 q' task s alone 0 refl, body, ran, e) refl,
          refl,
          without_response (λ _. AnswersOnce req.id) files req.id log file e once,
          without_response answered files req.id log file e answers,
          free.idle,
        )
        | inr (path, e) ↦
            let response =
              gtask_named (s2.tasks s.next_task).exec_task_q "HTTPSyncResponseTask"
                (sync_response req.id path none) in
            let free2 : Idle q 1 s2 = record {
              pipe = free.pipe;
              ready = free.ready;
              idle = free.idle;
              room = free.room;
            } in
            let (q2, sent2, alone2) = posts io pipe_laws recoverable q 0 response s2 free2 in
            let body2 =
              ap (λ (t : GTask HttpTask). t.body)
                (running-task io exec self q 0 q2 response s2 alone2) in
            let replies : (s2.tasks s.next_task).resp_task_q ≡ some q =
              progress-resp s.next_task (sync_request (some req) h') log
                (running io exec self q q' task s)
              ∙ ap (λ (t : GTask HttpTask). t.resp_task_q) own in
            let responds : respond web files server io s.next_task req.id (some path) s2
                ≡ done (posted q q2 response s2) =
              rw replies sent2 in
            let free3 = running-Idle io exec self q 0 q2 response s2 alone2 in
            (
              2,
              posted q q' task s,
              progress web files server io s2.next_task (sync_response req.id path (some true))
                  (send_response files req.id path) (running io exec self q q2 response s2),
              log ++ send_response files req.id path,
              omega arith,
              posted1,
              rw (posted-runs io exec self q 1 q' task s alone 1 refl, body, ran, e)
                  (rw responds
                    (rw (posted-runs io exec self q 0 q2 response s2 alone2 0 refl, body2) refl)),
              append_assoc s.world log (send_response files req.id path),
              with_response (λ _. AnswersOnce req.id) files req.id log file path e once,
              with_response answered files req.id log file path e answers,
              free3.idle,
            )
      ]
