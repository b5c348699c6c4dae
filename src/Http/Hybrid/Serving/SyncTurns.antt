-- ===== src/Http/Hybrid/Serving/SyncTurns.antt =====
-- A turn of an event loop on the synchronous queue of the hybrid server, with any tasks behind it
-- (samples/http_sync_async_server/http_hybrid_server.cc).
use Prim.Native.String.{String}
use gexecutor.Prelude.{
  ℕ, ◌+◌, ◌^◌, ◌<◌, ◌≡◌, ◌≢◌, ◌⊎◌, Bool, refl, sym, ap, ◌∙◌, true, Option, none, some, List, [],
  ◌∷◌, ◌++◌, done, ◌>>=◌, arith, inl, inr, Option-cases,
}
use mathlib.Core.List.{append-nil}
use mathlib.Core.Path.{subst}
use gexecutor.Pipe.{Pipe, PipeLaws}
use gexecutor.TaskQ.Notify.{IsRecoverable}
use gexecutor.Task.{GTask, gtask_named}
use gexecutor.Store.{Store}
use gexecutor.Reactor.{run_tasks}
use gexecutor.Reactor.Posted.{loop, posted}
use gexecutor.Reactor.Holds.{front, front-task}
use gexecutor.Http.Text.{Bytes, ascii, find, at_start}
use gexecutor.Http.{Held, Request, Web, WebLaws, Files, Effect, Log, send_response}
use gexecutor.Http.Replies.{replies, sum}
use gexecutor.Http.Paths.{response_log, replies-send_response}
use gexecutor.Http.Hybrid.{
  HttpHybridServer, HttpTask, async_request, sync_request, sync_response, progress, respond,
  execute_body, execute, run_sync,
}
use gexecutor.Http.Hybrid.Answers.{run_sync_lem}
use gexecutor.Http.Serving.{account, left, Serving, Served, sum-replies, Serving-weaken}
use gexecutor.Http.Serving.Fronts.{sync_taskq-Front, Front-changes}
use gexecutor.Http.Serving.Posts.{posts_sync}
use gexecutor.Http.Hybrid.Serving.{apart_tasks, SyncBody, expected_sync, owes, turns_of, hybrid}

sync-cases :
    (server : HttpHybridServer) (resp_task_q : Option ℕ) (body : HttpTask)
    → SyncBody server resp_task_q body
    → ((req : Request) × (h : Held) × (body ≡ sync_request (some req) h)
        × (at_start (find (ascii "/sync") req.uri) ≡ true)
        × (resp_task_q ≡ some server.sync_taskq))
      ⊎ ((req : ℕ) × (path : Bytes) × (evb : Option Bool) × (body ≡ sync_response req path evb))
sync-cases server resp (async_request req h) a = absurd a
sync-cases server resp (sync_request none h) a = absurd a
sync-cases server resp (sync_request (some req) h) a = inl (req, h, refl, a.0, a.1)
sync-cases server resp (sync_response req path evb) a = inr (req, path, evb, refl)

module _ {P U : Type 0} (io : Pipe P) (web : Web U) (files : Files) (server : HttpHybridServer)
    (address : String) (pipe_laws : PipeLaws io) (recoverable : IsRecoverable io)
    (web_laws : WebLaws web) (apart : server.async_taskq ≢ server.sync_taskq) where
  -- A task of the synchronous queue that runs, up to what it has done itself.
  record Ran (limit t : ℕ) (ts us : List ℕ) (before after : HttpTask) (log : Log)
      (s s1 : Store HttpTask P Log) : Type 0 where
    serving : Serving (hybrid web files server) limit ts us s1
    accounts :
        (f : Effect → ℕ)
        → account (hybrid web files server) f ts us s1 + owes web files server f before
          ≡ account (hybrid web files server) f ts (t ∷ us) s + sum f (replies log)
    effort :
        left (hybrid web files server) ts us s1 + turns_of before
        ≡ left (hybrid web files server) ts (t ∷ us) s

  progress-Ran :
      (self limit t : ℕ) (ts us : List ℕ) (s : Store HttpTask P Log)
      → Serving (hybrid web files server) limit ts (t ∷ us) s
      → (before after : HttpTask) (log : Log) → (s.tasks t).body ≡ before
      → let exec = execute web files server io in
        let q = server.sync_taskq in
        let there = front io exec self q t s in
        (run_tasks io exec (loop self q) 1 s
          ≡ (execute_body web files server io t before there >>= run_tasks io exec (loop self q) 0))
        × Ran limit t ts us before after log s (progress web files server io t after log there)
  unfolding execute
  progress-Ran self limit t ts us s v before after log body =
      let exec = execute web files server io in
      let q = server.sync_taskq in
      let taken =
        sync_taskq-Front (hybrid web files server) io exec apart (apart_tasks server) self limit t
          ts us s v in
      let task = record ((front io exec self q t s).tasks t) { body = after } in
      let (serving, owed, less) =
        Front-changes (hybrid web files server) io exec apart (apart_tasks server) self q limit t ts
          (t ∷ us) ts us s task log taken in
      (
        taken.0
            ∙ rw (ap (λ (x : GTask HttpTask). x.body) (front-task io exec self q t s) ∙ body) refl,
        record {
          serving = serving;
          accounts = λ f. omega (arith, owed f, ap (owes web files server f) body);
          effort = omega (arith, less, ap turns_of body);
        },
      )

  -- A turn of a loop on the synchronous queue.
  abbrev pub SyncTurns : (self limit t : ℕ) (ts us : List ℕ) → Store HttpTask P Log → Type 0
  SyncTurns self limit t ts us s =
      (s' : Store HttpTask P Log) × (run_tasks io (execute web files server io)
          (loop self server.sync_taskq) 1 s
        ≡ done s')
      × Served (hybrid web files server) (limit + 1) ts (t ∷ us) [] 1 s s'

  -- A task that answers itself.
  answers_turns :
      (self limit t : ℕ) (ts us : List ℕ) (s : Store HttpTask P Log)
      → Serving (hybrid web files server) limit ts (t ∷ us) s
      → (before after : HttpTask) (log : Log) → (s.tasks t).body ≡ before
      → ((there : Store HttpTask P Log)
          → execute_body web files server io t before there
            ≡ done (progress web files server io t after log there))
      → ((f : Effect → ℕ) → sum f (replies log) ≡ owes web files server f before)
      → 0 < turns_of before
      → SyncTurns self limit t ts us s
  unfolding run_tasks
  answers_turns self limit t ts us s v before after log body ran answers some_turn =
      let exec = execute web files server io in
      let q = server.sync_taskq in
      let there = front io exec self q t s in
      let (runs, d) = progress-Ran self limit t ts us s v before after log body in
      (
        progress web files server io t after log there,
        runs ∙ rw (ran there) refl,
        record {
          ts' = ts;
          us' = us;
          log = log;
          world = refl;
          serving = Serving-weaken (hybrid web files server) d.serving;
          accounts = λ f. omega (arith, d.accounts f, answers f);
          effort = omega (arith, d.effort, some_turn);
        },
      )

  response_turns :
      (self limit t : ℕ) (ts us : List ℕ) (s : Store HttpTask P Log)
      → Serving (hybrid web files server) limit ts (t ∷ us) s
      → (req : ℕ) (path : Bytes) (evb : Option Bool) → (s.tasks t).body ≡ sync_response req path evb
      → SyncTurns self limit t ts us s
  unfolding execute_body
  response_turns self limit t ts us s v req path evb body =
      answers_turns self limit t ts us s v (sync_response req path evb)
        (sync_response req path (some true)) (send_response files req path) body (λ there. refl)
        (λ f. omega (arith, ap (sum f) (replies-send_response files req path))) (omega arith)

  -- A request task without a response: it has answered.
  refused_turns :
      (self limit t : ℕ) (ts us : List ℕ) (s : Store HttpTask P Log)
      → Serving (hybrid web files server) limit ts (t ∷ us) s
      → (req : Request) (h h' : Held) (log : Log) → (s.tasks t).body ≡ sync_request (some req) h
      → run_sync web files server req ≡ done (log, h', none)
      → replies log ≡ expected_sync web files server req ∷ []
      → SyncTurns self limit t ts us s
  unfolding execute_body
  refused_turns self limit t ts us s v req h h' log body ran answers =
      answers_turns self limit t ts us s v (sync_request (some req) h) (sync_request (some req) h')
        log body (λ there. rw ran refl) (λ f. omega (arith, ap (sum f) answers)) (omega arith)

  -- A request task with a response, which goes to the same queue.
  responds_turns :
      (self limit t : ℕ) (ts us : List ℕ) (s : Store HttpTask P Log)
      → limit + 1 < 2 ^ 64
      → Serving (hybrid web files server) limit ts (t ∷ us) s
      → (req : Request) (h h' : Held) (log : Log) (path : Bytes)
      → (s.tasks t).body ≡ sync_request (some req) h
      → (s.tasks t).resp_task_q ≡ some server.sync_taskq
      → run_sync web files server req ≡ done (log, h', some path)
      → replies (log ++ send_response files req.id path) ≡ expected_sync web files server req ∷ []
      → SyncTurns self limit t ts us s
  unfolding execute_body run_tasks
  responds_turns self limit t ts us s few v req h h' log path body resp ran answers =
      let exec = execute web files server io in
      let q = server.sync_taskq in
      let there = front io exec self q t s in
      let after = sync_request (some req) h' in
      let s1 = progress web files server io t after log there in
      let (runs, d) =
        progress-Ran self limit t ts us s v (sync_request (some req) h) after log body in
      let response =
        gtask_named (s1.tasks t).exec_task_q "HTTPSyncResponseTask"
          (sync_response req.id path none) in
      let (q2, sent, serving, owed, more) =
        posts_sync (hybrid web files server) io pipe_laws recoverable apart limit ts us response s1
          few d.serving refl tt in
      let own : (s1.tasks t).resp_task_q ≡ (there.tasks t).resp_task_q = ground arith in
      let replies_to : (s1.tasks t).resp_task_q ≡ some q =
        own ∙ ap (λ (x : GTask HttpTask). x.resp_task_q) (front-task io exec self q t s) ∙ resp in
      let responds : respond web files server io t req.id (some path) s1
          ≡ done (posted q q2 response s1) =
        rw replies_to sent in
      (
        posted q q2 response s1,
        runs ∙ rw ran (rw responds refl),
        record {
          ts' = ts;
          us' = us ++ s1.next_task ∷ [];
          log = log;
          world = refl;
          serving = serving;
          accounts = λ f. omega (
            arith,
            d.accounts f,
            owed f,
            sum-replies f log (send_response files req.id path),
            ap (sum f) (replies-send_response files req.id path),
            ap (sum f) answers,
          );
          effort = omega (arith, d.effort, more);
        },
      )

  pub sync_turns :
      (self limit t : ℕ) (ts us : List ℕ) (s : Store HttpTask P Log)
      → limit + 1 < 2 ^ 64
      → Serving (hybrid web files server) limit ts (t ∷ us) s
      → SyncTurns self limit t ts us s
  sync_turns self limit t ts us s few v =
      let (below, fresh, kind, once, rest) = v.sync_holds.tasks in
      elim (sync-cases server (s.tasks t).resp_task_q (s.tasks t).body kind) [
        | inr (req, path, evb, body) ↦ response_turns self limit t ts us s v req path evb body
        | inl (req, h, body, starts, resp) ↦
            let (log, h', file, ran, _, _, answers) =
              run_sync_lem web files server web_laws req starts in
            let answered : (o : Option Bytes)
                → file ≡ o
                → replies (log ++ response_log files req.id o)
                  ≡ expected_sync web files server req ∷ [] =
              λ o e.
                subst
                  (λ (o : Option Bytes).
                    replies (log ++ response_log files req.id o)
                    ≡ expected_sync web files server req ∷ [])
                  e (answers files) in
            elim (Option-cases file) [
              | inl e ↦
                  refused_turns self limit t ts us s v req h h' log body (rw e at ran)
                    (ap replies (sym (append-nil log)) ∙ answered none e)
              | inr (path, e) ↦
                  responds_turns self limit t ts us s few v req h h' log path body resp
                    (rw e at ran) (answered (some path) e)
            ]
      ]
