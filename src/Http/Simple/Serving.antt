-- ===== src/Http/Simple/Serving.antt =====
-- What the simple server puts on its queues (samples/simple_http_server/simple_http_server.cc), for
-- Http/Serving.
pub mod Arrivals
pub mod Turns
pub mod SyncTurns
pub mod Answered
use gexecutor.Prelude.{
  ℕ, ◌+◌, ◌*◌, ◌/◌, ◌<◌, ◌≡◌, ◌⊎◌, inl, inr, refl, sym, ap, ◌∙◌, true, none, some, List, [], ◌∷◌,
  if◌then◌else◌, arith,
}
use gexecutor.Task.{GTask}
use gexecutor.Deferred.{
  Arg, no_arg, result, error, Callable, fn, bind, DeferredTask, deferred_void, deferred, new_void,
}
use gexecutor.Http.Text.{Bytes, ascii, find, at_start, whole_path}
use gexecutor.Http.{Request, Web, Files, Effect, Log, locate}
use gexecutor.Http.Replies.{reply_for, sum}
use gexecutor.Http.Paths.{file_behind}
use gexecutor.Http.Serving.{ServerKind}
use gexecutor.Http.Simple.{SimpleHttpServer, async_fn, sync_fn, sync_callback_fn}
use gexecutor.Http.Simple.Answers.{sync_replies}

-- How many turns a task takes at most, with its callback.
abbrev pub turns_of : DeferredTask Bytes → ℕ
turns_of (deferred_void task_fn callback errback) = 1
turns_of (deferred task_fn callback errback) = 2

module _ (server : SimpleHttpServer) (requests : ℕ → Request) where
  -- The tasks of the asynchronous queue.
  abbrev pub IsAsync : GTask (DeferredTask Bytes) → Type 0
  IsAsync task =
      (req : Request) × (requests req.id ≡ req)
      × (task.body ≡ new_void (fn (async_fn req.id)))
      × (at_start (find (ascii "/async") req.uri) ≡ true)

  -- Those of the synchronous one: a request, whose callback comes back to this queue, or a callback.
  abbrev pub IsRequest : GTask (DeferredTask Bytes) → Type 0
  IsRequest task =
      (req : Request) × (requests req.id ≡ req)
      × (task.body ≡ deferred (sync_fn req.id) (some (sync_callback_fn req.id)) none)
      × (at_start (find (ascii "/sync") req.uri) ≡ true)
      × (task.resp_task_q ≡ some server.sync_taskq)

  abbrev pub IsCallback : GTask (DeferredTask Bytes) → Type 0
  IsCallback task =
      (req : Request) × (path : Bytes) × (requests req.id ≡ req)
      × (task.body ≡ new_void (bind (sync_callback_fn req.id) (result path)))

  abbrev pub IsSync : GTask (DeferredTask Bytes) → Type 0
  IsSync task = IsRequest task ⊎ IsCallback task

  pub apart_tasks : (task : GTask (DeferredTask Bytes)) → IsAsync task → ¬ IsSync task
  apart_tasks task (_, _, a, _) (inl (_, _, b, _, _)) = cc (a, b)
  apart_tasks task (_, _, a, _) (inr (_, _, _, b)) = cc (a, b)

  module _ {U : Type 0} (web : Web U) (files : Files) where
    -- The replies that a request is to get, by its route.
    abbrev pub expected_async : Request → Effect
    expected_async req = reply_for files (file_behind 6 server.docroot) req.id (locate web req).path

    abbrev pub expected_sync : Request → Log
    expected_sync req = sync_replies files server.docroot req.id (locate web req).path

    abbrev pub expected : Request → Log
    expected req =
        if at_start (find (ascii "/async") req.uri)
        then expected_async req ∷ []
        else if at_start (find (ascii "/sync") req.uri)
        then expected_sync req
        else reply_for files (whole_path server.docroot) req.id (locate web req).path ∷ []

    -- The replies that a task still owes.
    abbrev pub owes : (Effect → ℕ) → DeferredTask Bytes → ℕ
    owes f (deferred_void (fn n) _ _) = f (expected_async (requests (n / 3)))
    owes f (deferred_void (bind n no_arg) _ _) = 0
    owes f (deferred_void (bind n (error _)) _ _) = 0
    owes f (deferred_void (bind n (result path)) _ _) =
        f (reply_for files (λ path. path) (requests (n / 3)).id (some path))
    owes f (deferred n _ _) = sum f (expected_sync (requests (n / 3)))

    abbrev pub simple : ServerKind (DeferredTask Bytes)
    simple = record {
      async_taskq = server.async_taskq;
      sync_taskq = server.sync_taskq;
      IsAsync = IsAsync;
      IsSync = IsSync;
      expected = expected;
      owes = owes;
      turns_of = turns_of;
    }

    module _ (f : Effect → ℕ) (req : Request) (known : requests req.id ≡ req) where
      pub owes-async : owes f (new_void (fn (async_fn req.id))) ≡ f (expected_async req)
      owes-async = ground (arith, known)

      pub owes-sync :
          owes f (deferred (sync_fn req.id) (some (sync_callback_fn req.id)) none)
          ≡ sum f (expected_sync req)
      owes-sync = ground (arith, known)

      pub owes-callback :
          (path : Bytes)
          → owes f (new_void (bind (sync_callback_fn req.id) (result path)))
            ≡ f (reply_for files (λ path. path) req.id (some path))
      owes-callback path = ground (arith, known)
