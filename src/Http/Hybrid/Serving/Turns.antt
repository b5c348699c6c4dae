-- ===== src/Http/Hybrid/Serving/Turns.antt =====
-- A turn of an event loop on the asynchronous queue of the hybrid server, with any tasks behind it
-- (samples/http_sync_async_server/http_hybrid_server.cc).
use gexecutor.Prelude.{ℕ, ◌+◌, ◌≡◌, ◌≢◌, refl, ap, ◌∙◌, true, List, [], ◌∷◌, done, arith}
use gexecutor.Pipe.{Pipe}
use gexecutor.Task.{GTask}
use gexecutor.Store.{Store}
use gexecutor.Reactor.{run_tasks}
use gexecutor.Reactor.Posted.{loop}
use gexecutor.Reactor.Holds.{front, front-task}
use gexecutor.Http.Text.{ascii, find, at_start}
use gexecutor.Http.{Held, Request, Web, WebLaws, Files, Log}
use gexecutor.Http.Replies.{sum}
use gexecutor.Http.Hybrid.{
  HttpHybridServer, HttpTask, async_request, sync_request, sync_response, progress, execute_body,
  execute,
}
use gexecutor.Http.Hybrid.Answers.{run_async_lem}
use gexecutor.Http.Serving.Fronts.{async_taskq-Front, Front-changes}
use gexecutor.Http.Serving.{Serving-weaken, Serving, Served}
use gexecutor.Http.Hybrid.Serving.{apart_tasks, AsyncBody, owes, turns_of, hybrid}

async-cases :
    (body : HttpTask)
    → AsyncBody body
    → (req : Request) × (h : Held) × (body ≡ async_request req h)
      × (at_start (find (ascii "/async") req.uri) ≡ true)
async-cases (async_request req h) a = (req, h, refl, a)
async-cases (sync_request req h) a = absurd a
async-cases (sync_response req path evb) a = absurd a

module _ {P U : Type 0} (io : Pipe P) (web : Web U) (files : Files) (server : HttpHybridServer)
    (web_laws : WebLaws web) (apart : server.async_taskq ≢ server.sync_taskq) where
  pub async_turns :
      (self limit t : ℕ) (ts us : List ℕ) (s : Store HttpTask P Log)
      → Serving (hybrid web files server) limit (t ∷ ts) us s
      → (s' : Store HttpTask P Log) × (run_tasks io
            (execute web files server io)
            (loop self server.async_taskq)
            1
            s
          ≡ done s')
        × Served (hybrid web files server) (limit + 1) (t ∷ ts) us [] 1 s s'
  unfolding execute execute_body run_tasks
  async_turns self limit t ts us s v =
      let exec = execute web files server io in
      let q = server.async_taskq in
      let (below, fresh, kind, once, rest) = v.async_holds.tasks in
      let (req, h, body, starts) = async-cases (s.tasks t).body kind in
      let (log, h', ran, _, _, answers) = run_async_lem web files server web_laws req starts in
      let there = front io exec self q t s in
      let taken =
        async_taskq-Front (hybrid web files server) io exec apart (apart_tasks server) self limit t
          ts us s v in
      let task = record (there.tasks t) { body = async_request req h' } in
      let (serving, owed, less) =
        Front-changes (hybrid web files server) io exec apart (apart_tasks server) self q limit t
          (t ∷ ts) us ts us s task log taken in
      let s' = progress web files server io t (async_request req h') log there in
      (
        s',
        taken.0
            ∙ rw (ap (λ (x : GTask HttpTask). x.body) (front-task io exec self q t s) ∙ body, ran)
                refl,
        record {
          ts' = ts;
          us' = us;
          log = log;
          world = refl;
          serving = Serving-weaken (hybrid web files server) serving;
          accounts =
              λ f. omega (arith, owed f, ap (sum f) answers, ap (owes web files server f) body);
          effort = omega (arith, less, ap turns_of body);
        },
      )
