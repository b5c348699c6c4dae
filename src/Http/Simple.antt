-- ===== src/Http/Simple.antt =====
-- samples/simple_http_server/simple_http_server.h and simple_http_server.cc: the server whose tasks
-- are DeferredTask objects.
pub mod Answers
pub mod Calls
pub mod Requests
pub mod Startup
pub mod Serving
use Prim.Native.String.{String}
use gexecutor.Prelude.{
  ℕ, ◌+◌, ◌*◌, ◌/◌, ◌%◌, Bool, true, false, Option, none, some, List, [], ◌∷◌, ◌++◌, ◌==◌,
  if◌then◌else◌, Outcome, done,
}
use gexecutor.Pipe.{Pipe}
use gexecutor.Task.{gtask}
use gexecutor.Store.{Store, new_task, enqueue_on}
use gexecutor.Deferred.{
  Functions, Arg, no_arg, result, error, CallResult, returned, thrown, fn, DeferredTask, new_void,
  new_deferred, set_callback,
}
use gexecutor.Http.Text.{Bytes, ascii, find, at_start, substr, whole_path}
use gexecutor.Http.ContentType.{guess_content_type}
use gexecutor.Http.{
  Request, Web, Files, add_header, Log, Held, http_req_cleanup, Located, locate, send_file,
  send_response,
}

-- What the handlers read of SimpleHttpServer.
pub record SimpleHttpServer : Type 0 where
  pub docroot : Bytes
  pub async_taskq : ℕ
  pub sync_taskq : ℕ

-- The names of the functions that boost::bind makes for the request object `req`.
abbrev pub async_fn : (req : ℕ) → ℕ
async_fn req = 3 * req

abbrev pub sync_fn : (req : ℕ) → ℕ
sync_fn req = 3 * req + 1

abbrev pub sync_callback_fn : (req : ℕ) → ℕ
sync_callback_fn req = 3 * req + 2

module _ {U : Type 0} (web : Web U) (files : Files) (server : SimpleHttpServer) where
  -- http_default_cb from its test of the command on: the answer on the event loop.
  unfoldable pub answer_at_once : Request → Log
  answer_at_once req =
      let l = locate web req in
      elim l.path [
        | none ↦ l.log ++ http_req_cleanup l.held
        | some decoded_path ↦
            let sent =
              send_file files req.id (whole_path server.docroot decoded_path)
                (guess_content_type decoded_path) in
            l.log ++ sent.0 ++ http_req_cleanup (record (l.held) { evb = sent.1 })
      ]

  -- `errno` is what it happens to be when substr throws.
  unfoldable pub process_async_task : (errno : ℕ) → Request → CallResult Bytes × Log
  process_async_task errno req =
      let l = locate web req in
      elim l.path [
        | none ↦ (returned [], l.log)
        | some decoded_path ↦ elim (substr 6 decoded_path) [
          | none ↦ (thrown errno, l.log)
          | some file_path ↦
              let sent =
                send_file files req.id (whole_path server.docroot file_path)
                  (guess_content_type decoded_path) in
              (returned [], l.log ++ sent.0)
        ]
      ]

  -- After an error reply it returns a path all the same, "Failure".
  unfoldable pub process_sync_task : (errno : ℕ) → Request → CallResult Bytes × Log
  process_sync_task errno req =
      let l = locate web req in
      elim l.path [
        | none ↦ (returned (ascii "Failure"), l.log)
        | some decoded_path ↦ elim (substr 5 decoded_path) [
          | none ↦ (thrown errno, l.log)
          | some file_path ↦ (
            returned (whole_path server.docroot file_path),
            l.log ++ add_header req.id (guess_content_type decoded_path) ∷ [],
          )
        ]
      ]

  abbrev pub process_sync_task_callback : Request → (whole_path : Bytes) → CallResult Bytes × Log
  process_sync_task_callback req path = (returned [], send_response files req.id path)

  -- `requests` are the request objects.
  abbrev pub call_function :
      (errno : ℕ) (requests : ℕ → Request) → ℕ → Arg Bytes → CallResult Bytes × Log
  call_function errno requests f no_arg =
      if f % 3 == 0
      then process_async_task errno (requests (f / 3))
      else process_sync_task errno (requests (f / 3))
  call_function errno requests f (result path) = process_sync_task_callback (requests (f / 3)) path
  call_function errno requests f (error _) = (returned [], [])

  -- What a call adds to the log.
  abbrev pub functions : (errno : ℕ) (requests : ℕ → Request) → Functions Bytes Log
  functions errno requests f arg log =
      let called = call_function errno requests f arg in (called.0, log ++ called.1)

  module _ {P : Type 0} (io : Pipe P) where
    unfoldable pub handle_async_request :
        (address : String)
        → Request
        → Store (DeferredTask Bytes) P Log
        → Outcome (Store (DeferredTask Bytes) P Log)
    handle_async_request address req s =
        enqueue_on io (some server.async_taskq) (some s.next_task)
          (new_task (gtask (some server.async_taskq) address (new_void (fn (async_fn req.id)))) s)

    unfoldable pub handle_sync_request :
        (address : String)
        → Option Request
        → Store (DeferredTask Bytes) P Log
        → Outcome (Store (DeferredTask Bytes) P Log)
    unfolding set_callback
    handle_sync_request address none s = done s
    handle_sync_request address (some req) s =
        enqueue_on io (some server.sync_taskq) (some s.next_task) (
          new_task
            (gtask (some server.sync_taskq) address
              (set_callback (sync_callback_fn req.id) (new_deferred (sync_fn req.id))))
            s)

    unfoldable pub http_default_cb :
        (address : String)
        → Request
        → Store (DeferredTask Bytes) P Log
        → Outcome (Store (DeferredTask Bytes) P Log)
    unfolding handle_async_request handle_sync_request find
    http_default_cb address req s =
        if at_start (find (ascii "/async") req.uri)
        then handle_async_request address req s
        else if at_start (find (ascii "/sync") req.uri)
        then handle_sync_request address (some req) s
        else done (record s { world = s.world ++ answer_at_once req })
