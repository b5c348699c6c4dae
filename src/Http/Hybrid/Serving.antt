-- ===== src/Http/Hybrid/Serving.antt =====
-- What the hybrid server puts on its queues
-- (samples/http_sync_async_server/http_hybrid_server.cc), for Http/Serving.
pub mod Turns
pub mod SyncTurns
pub mod Arrivals
pub mod Answered
use Prim.Native.String.{String}
use gexecutor.Prelude.{
  ℕ, ◌+◌, ◌≡◌, refl, sym, ap, ◌∙◌, true, Option, none, some, List, [], ◌∷◌, ◌++◌, map, length, ◌*◌,
  ◌≤◌, if◌then◌else◌, Outcome, done, ◌>>=◌, arith,
}
use gexecutor.Pipe.{Pipe}
use gexecutor.Task.{GTask}
use gexecutor.Store.{Store}
use gexecutor.Reactor.{run_tasks}
use gexecutor.Reactor.Posted.{loop}
use gexecutor.Reactor.Waiting.{weigh}
use gexecutor.Reactor.Holds.{Holds, Holds-weaken}
use gexecutor.Http.Text.{Bytes, ascii, find, at_start, whole_path}
use gexecutor.Http.{Request, Web, Files, Effect, send_error, send_reply, Log, locate}
use gexecutor.Http.Replies.{reply_for, replies, sum, sum-append}
use gexecutor.Http.Paths.{file_behind}
use gexecutor.Http.Serving.{ServerKind}
use gexecutor.Http.Hybrid.{
  HttpHybridServer, HttpTask, async_request, sync_request, sync_response, execute, http_default_cb,
}

abbrev pub AsyncBody : HttpTask → Type 0
AsyncBody (async_request req h) = at_start (find (ascii "/async") req.uri) ≡ true
AsyncBody (sync_request req h) = ⊥
AsyncBody (sync_response req path evb) = ⊥

abbrev pub SyncBody : HttpHybridServer → (resp_task_q : Option ℕ) → HttpTask → Type 0
SyncBody server resp_task_q (async_request req h) = ⊥
SyncBody server resp_task_q (sync_request none h) = ⊥
SyncBody server resp_task_q (sync_request (some req) h) =
    (at_start (find (ascii "/sync") req.uri) ≡ true) × (resp_task_q ≡ some server.sync_taskq)
SyncBody server resp_task_q (sync_response req path evb) = Unit {0}

pub apart_bodies :
    (server : HttpHybridServer) (resp_task_q : Option ℕ) (body : HttpTask)
    → AsyncBody body
    → ¬ SyncBody server resp_task_q body
apart_bodies server resp_task_q (async_request req h) a b = b
apart_bodies server resp_task_q (sync_request req h) a b = a
apart_bodies server resp_task_q (sync_response req path evb) a b = a

-- How many turns a task takes at most, with its response.
abbrev pub turns_of : HttpTask → ℕ
turns_of (async_request req h) = 1
turns_of (sync_request req h) = 2
turns_of (sync_response req path evb) = 1

-- The tasks of the asynchronous queue, and those of the synchronous one.
abbrev pub IsAsync : GTask HttpTask → Type 0
IsAsync task = AsyncBody task.body

module _ (server : HttpHybridServer) where
  abbrev pub IsSync : GTask HttpTask → Type 0
  IsSync task = SyncBody server task.resp_task_q task.body

  pub apart_tasks : (task : GTask HttpTask) → IsAsync task → ¬ IsSync task
  apart_tasks task = apart_bodies server task.resp_task_q task.body

module _ {U : Type 0} (web : Web U) (files : Files) (server : HttpHybridServer) where
  -- The reply that a request is to get, by its route.
  abbrev pub expected_async : Request → Effect
  expected_async req = reply_for files (file_behind 6 server.docroot) req.id (locate web req).path

  abbrev pub expected_sync : Request → Effect
  expected_sync req = reply_for files (file_behind 5 server.docroot) req.id (locate web req).path

  abbrev pub expected : Request → Effect
  expected req =
      if at_start (find (ascii "/async") req.uri)
      then expected_async req
      else if at_start (find (ascii "/sync") req.uri)
      then expected_sync req
      else reply_for files (whole_path server.docroot) req.id (locate web req).path

  -- The reply that a task still owes.
  abbrev pub owes : (Effect → ℕ) → HttpTask → ℕ
  owes f (async_request req h) = f (expected_async req)
  owes f (sync_request none h) = 0
  owes f (sync_request (some req) h) = f (expected_sync req)
  owes f (sync_response req path evb) = f (reply_for files (λ path. path) req (some path))

  abbrev pub hybrid : ServerKind HttpTask
  hybrid = record {
    async_taskq = server.async_taskq;
    sync_taskq = server.sync_taskq;
    IsAsync = IsAsync;
    IsSync = IsSync server;
    expected = λ req. expected req ∷ [];
    owes = owes;
    turns_of = turns_of;
  }
