-- ===== src/Http/Simple/Calls.antt =====
-- The functions that boost::bind makes for a request in
-- samples/simple_http_server/simple_http_server.cc, as a deferred task calls them.
use Prim.Native.String.{String}
use gexecutor.Prelude.{ℕ, ◌≡◌, ap, ◌∙◌, none, some, [], ◌++◌, done, arith}
use gexecutor.Pipe.{Pipe}
use gexecutor.Store.{Store}
use gexecutor.Deferred.{
  CallResult, returned, call, fn, bind, result, DeferredTask, new_void, deferred, task_fn_of,
  respond, execute, response,
}
use gexecutor.Deferred.RoundTrip.{silent, execute-silent}
use gexecutor.Http.Text.{Bytes}
use gexecutor.Http.{Request, Web, Files, Log, send_response}
use gexecutor.Http.Simple.{
  SimpleHttpServer, async_fn, sync_fn, sync_callback_fn, functions, process_async_task,
  process_sync_task, process_sync_task_callback,
}

module _ {U : Type 0} (web : Web U) (files : Files) (server : SimpleHttpServer) (errno : ℕ)
    (requests : ℕ → Request) (req : Request) (known : requests req.id ≡ req) where
  abbrev pub calls : CallResult Bytes × Log → Log → CallResult Bytes × Log
  calls called log = (called.0, log ++ called.1)

  pub async_calls :
      (log : Log)
      → call (functions web files server errno requests) (fn (async_fn req.id)) log
        ≡ calls (process_async_task web files server errno req) log
  async_calls log = ground (arith, known)

  pub sync_calls :
      (log : Log)
      → call (functions web files server errno requests) (fn (sync_fn req.id)) log
        ≡ calls (process_sync_task web files server errno req) log
  sync_calls log = ground (arith, known)

  pub callback_calls :
      (path : Bytes) (log : Log)
      → call
          (functions web files server errno requests)
          (bind (sync_callback_fn req.id) (result path))
          log
        ≡ calls (process_sync_task_callback web files server req path) log
  callback_calls path log = ground (arith, known)

module _ {P U : Type 0} (io : Pipe P) (web : Web U) (files : Files) (server : SimpleHttpServer)
    (address : String) (errno : ℕ) (requests : ℕ → Request) (req : Request)
    (known : requests req.id ≡ req) where
  -- Execute of the three tasks, with what their functions do.
  pub async_executes :
      (t : ℕ) (log : Log) (s : Store (DeferredTask Bytes) P Log)
      → (s.tasks t).body ≡ new_void (fn (async_fn req.id))
      → process_async_task web files server errno req ≡ (returned [], log)
      → execute io (functions web files server errno requests) address t s
        ≡ done (record s { world = s.world ++ log })
  async_executes t log s body ran =
      let funs = functions web files server errno requests in
      execute-silent io funs address s t (silent io funs address _ _ (fn (async_fn req.id)) body)
      ∙ ap (λ (r : CallResult Bytes × Log). done (record s { world = r.1 }))
          (ap (λ (d : DeferredTask Bytes). call funs (task_fn_of d) s.world) body
            ∙ async_calls web files server errno requests req known s.world
            ∙ ap (λ r. calls web files server errno requests req known r s.world) ran)

  pub callback_executes :
      (t : ℕ) (path : Bytes) (s : Store (DeferredTask Bytes) P Log)
      → (s.tasks t).body ≡ new_void (bind (sync_callback_fn req.id) (result path))
      → execute io (functions web files server errno requests) address t s
        ≡ done (record s { world = s.world ++ send_response files req.id path })
  callback_executes t path s body =
      let funs = functions web files server errno requests in
      execute-silent io funs address s t
        (silent io funs address _ _ (bind (sync_callback_fn req.id) (result path)) body)
      ∙ ap (λ (r : CallResult Bytes × Log). done (record s { world = r.1 }))
          (ap (λ (d : DeferredTask Bytes). call funs (task_fn_of d) s.world) body
            ∙ callback_calls web files server errno requests req known path s.world)

  pub sync_executes :
      (t : ℕ) (path : Bytes) (log : Log) (s : Store (DeferredTask Bytes) P Log)
      → (s.tasks t).body ≡ deferred (sync_fn req.id) (some (sync_callback_fn req.id)) none
      → process_sync_task web files server errno req ≡ (returned path, log)
      → execute io (functions web files server errno requests) address t s
        ≡ respond io
            (functions web files server errno requests)
            address
            (s.tasks t)
            (some (bind (sync_callback_fn req.id) (result path)))
            (record s { world = s.world ++ log })
  unfolding execute
  sync_executes t path log s body ran =
      let funs = functions web files server errno requests in
      let called : call funs (task_fn_of (s.tasks t).body) s.world
          ≡ (returned path, s.world ++ log) =
        ap (λ (d : DeferredTask Bytes). call funs (task_fn_of d) s.world) body
        ∙ sync_calls web files server errno requests req known s.world
        ∙ ap (λ r. calls web files server errno requests req known r s.world) ran in
      ap
        (λ (r : CallResult Bytes × Log).
          respond io funs address (s.tasks t) (response (s.tasks t).body r.0)
            (record s { world = r.1 }))
        called
      ∙ ap
          (λ (d : DeferredTask Bytes).
            respond io funs address (s.tasks t) (response d (returned path))
              (record s { world = s.world ++ log }))
          body
