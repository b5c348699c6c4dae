-- ===== src/Http/Hybrid.antt =====
-- samples/http_sync_async_server/http_hybrid_server.h and http_hybrid_server.cc: a server that
-- answers on the event loop, in a task of its asynchronous executor, or in two tasks of its
-- synchronous executor, by the prefix of the URI.
pub mod Answers
pub mod Requests
pub mod Serving
pub mod Dispatch
pub mod Program
pub mod Startup
use Prim.Native.String.{String}
use gexecutor.Prelude.{
  ℕ, Bool, true, false, Option, none, some, List, [], ◌∷◌, ◌++◌, if◌then◌else◌, Outcome, done,
  aborted, undefined, ◌>>=◌,
}
use gexecutor.Pipe.{Pipe}
use gexecutor.Task.{gtask, gtask_named}
use gexecutor.Store.{Store, update, new_task, enqueue_on}
use gexecutor.Http.Text.{Bytes, ascii, find, at_start, substr, whole_path}
use gexecutor.Http.ContentType.{guess_content_type}
use gexecutor.Http.{
  Request, Web, Files, add_header, Log, Held, held, nothing, http_req_cleanup, Located, locate,
  send_file, send_response,
}

-- What the handlers read of HTTPHybridServer. EnQueueTask of an executor is EnqueueGTask on the
-- p_taskq_ that it was constructed with: these are the references that the two executors have.
pub record HttpHybridServer : Type 0 where
  pub docroot : Bytes
  pub async_taskq : ℕ
  pub sync_taskq : ℕ

-- HTTPAsyncRequestTask, HTTPSyncRequestTask and HTTPSyncResponseTask, with the objects that they
-- hold. The buffer of a response task has no value until it runs.
pub data HttpTask : Type 0 where
  async_request : (req : Request) → Held → HttpTask
  sync_request : (req : Option Request) → Held → HttpTask
  sync_response : (req : ℕ) (whole_path : Bytes) (evb : Option Bool) → HttpTask

module _ {U : Type 0} (web : Web U) (files : Files) (server : HttpHybridServer) where
  -- http_default_cb from its test of the command on: the answer on the event loop.
  unfoldable pub answer_at_once : Request → Log
  answer_at_once req =
      let l = locate web req in
      elim l.path [
        | none ↦ l.log ++ http_req_cleanup l.held
        | some decoded_path ↦
            let sent =
              send_file files req.id (whole_path server.docroot decoded_path)
                (guess_content_type decoded_path) in
            l.log ++ sent.0 ++ http_req_cleanup (record (l.held) { evb = sent.1 })
      ]

  -- HTTPAsyncRequestTask::Execute: the log and what the task holds. The exception of substr leaves
  -- the event loop and ends the process.
  unfoldable pub run_async : Request → Outcome (Log × Held)
  run_async req =
      let l = locate web req in
      elim l.path [
        | none ↦ done (l.log, l.held)
        | some decoded_path ↦ elim (substr 6 decoded_path) [
          | none ↦ aborted
          | some file_path ↦
              let sent =
                send_file files req.id (whole_path server.docroot file_path)
                  (guess_content_type decoded_path) in
              done (l.log ++ sent.0, record (l.held) { evb = sent.1 })
        ]
      ]

  -- HTTPSyncRequestTask::Execute up to the response task, for which it returns the path.
  unfoldable pub run_sync : Request → Outcome (Log × Held × Option Bytes)
  run_sync req =
      let l = locate web req in
      elim l.path [
        | none ↦ done (l.log, l.held, none)
        | some decoded_path ↦ elim (substr 5 decoded_path) [
          | none ↦ aborted
          | some file_path ↦ done (
            l.log ++ add_header req.id (guess_content_type decoded_path) ∷ [],
            l.held,
            some (whole_path server.docroot file_path),
          )
        ]
      ]

  module _ {P : Type 0} (io : Pipe P) where
    -- The task t after it has run so far, and what it has done.
    abbrev pub progress : ℕ → HttpTask → Log → Store HttpTask P Log → Store HttpTask P Log
    progress t body log s = record s {
      tasks = update s.tasks t (record (s.tasks t) { body = body });
      world = s.world ++ log;
    }

    abbrev pub respond :
        (t : ℕ) → (req : ℕ) → Option Bytes → Store HttpTask P Log → Outcome (Store HttpTask P Log)
    respond t req none s = done s
    respond t req (some path) s = enqueue_on io (s.tasks t).resp_task_q (some s.next_task) (
        new_task
          (gtask_named (s.tasks t).exec_task_q "HTTPSyncResponseTask" (sync_response req path none))
          s)

    -- Execute of each class, which returns 0.
    unfoldable pub execute_body :
        ℕ → HttpTask → Store HttpTask P Log → Outcome (Store HttpTask P Log)
    execute_body t (async_request req _) s =
        run_async req >>= (λ r. done (progress t (async_request req r.1) r.0 s))
    execute_body t (sync_request none _) s = undefined
    execute_body t (sync_request (some req) _) s =
        run_sync req
        >>= (λ r. respond t req.id r.2 (progress t (sync_request (some req) r.1) r.0 s))
    execute_body t (sync_response req path _) s =
        done (progress t (sync_response req path (some true)) (send_response files req path) s)

    unfoldable pub execute : ℕ → Store HttpTask P Log → Outcome (Store HttpTask P Log)
    unfolding execute_body
    execute t s = execute_body t (s.tasks t).body s

    -- The destructors: of a response task that has not run, `evb_` has no value.
    unfoldable pub destroy_task : HttpTask → Outcome Log
    destroy_task (async_request req h) = done (http_req_cleanup h)
    destroy_task (sync_request req h) = done (http_req_cleanup h)
    destroy_task (sync_response req path none) = undefined
    destroy_task (sync_response req path (some evb)) =
        done (http_req_cleanup (held false false evb))

    unfoldable pub handle_async_request :
        (address : String) → Request → Store HttpTask P Log → Outcome (Store HttpTask P Log)
    handle_async_request address req s =
        enqueue_on io (some server.async_taskq) (some s.next_task)
          (new_task (gtask (some server.async_taskq) address (async_request req nothing)) s)

    unfoldable pub handle_sync_request :
        (address : String) → Option Request → Store HttpTask P Log → Outcome (Store HttpTask P Log)
    handle_sync_request address none s = done s
    handle_sync_request address (some req) s =
        enqueue_on io (some server.sync_taskq) (some s.next_task)
          (new_task (gtask (some server.sync_taskq) address (sync_request (some req) nothing)) s)

    -- http_default_cb.
    unfoldable pub http_default_cb :
        (address : String) → Request → Store HttpTask P Log → Outcome (Store HttpTask P Log)
    unfolding handle_async_request handle_sync_request find
    http_default_cb address req s =
        if at_start (find (ascii "/async") req.uri)
        then handle_async_request address req s
        else if at_start (find (ascii "/sync") req.uri)
        then handle_sync_request address (some req) s
        else done (record s { world = s.world ++ answer_at_once req })
