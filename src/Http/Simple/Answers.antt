-- ===== src/Http/Simple/Answers.antt =====
-- Every handler of samples/simple_http_server/simple_http_server.cc on its own: what it returns and
-- the replies that it sends.
use gexecutor.Prelude.{
  ℕ, ◌+◌, ◌≡◌, refl, ap, ◌∙◌, Bool, true, false, Option, none, some, [], ◌∷◌, ◌++◌, ◌==◌,
  if◌then◌else◌, arith, inl, inr, Option-cases,
}
use gexecutor.Deferred.{returned}
use gexecutor.Http.Text.{Bytes, ascii, find, at_start, substr, drop, whole_path}
use gexecutor.Http.ContentType.{guess_content_type}
use gexecutor.Http.{
  http_req_cleanup, Request, Web, WebLaws, Files, Log, uri_new, path_new, add_header, locate,
  send_file, send_response, send_error, bad_request,
}
use gexecutor.Http.Replies.{
  Balanced, of_uri, of_path, of_evb, sum, sum-append, reply_to, one_if, AnswersOnce, AnswersAsked,
  Answers, replies, reply_for,
}
use gexecutor.Http.Paths.{
  locate-Asks, locate-none, locate-Answers, locate-some, locate-refused, replies-send_response,
  file_behind, sent-Answers, send_response-Answers, locate-start, sent-AnswersOnce,
  send_response-AnswersOnce,
}
use gexecutor.Http.Simple.{answer_at_once, SimpleHttpServer, process_async_task, process_sync_task}

-- How many replies to a request there are in all.
abbrev pub expected : Option Bytes → ℕ
expected none = 2
expected (some _) = 1

-- The replies to a request in the deferred task and in its callback: after a refusal the callback
-- takes "Failure" for the name of a file.
abbrev pub sync_replies : Files → (docroot : Bytes) (req : ℕ) → Option Bytes → Log
sync_replies files docroot req none =
    send_error req bad_request ∷ reply_for files (λ path. path) req (some (ascii "Failure")) ∷ []
sync_replies files docroot req (some path) =
    reply_for files (file_behind 5 docroot) req (some path) ∷ []

twice : {x y : ℕ} (b : Bool) → x ≡ one_if b → y ≡ one_if b → x + y ≡ (if b then 2 else 0)
twice true e f = omega (arith, e, f)
twice false e f = omega (arith, e, f)

module _ {U : Type 0} (web : Web U) (files : Files) (server : SimpleHttpServer) (errno : ℕ)
    (laws : WebLaws web) where
  -- A task for a URI that starts with /async returns after exactly one reply, to its request.
  pub process_async_task_lem :
      (req : Request)
      → at_start (find (ascii "/async") req.uri) ≡ true
      → (log : Log) × (process_async_task web files server errno req ≡ (returned [], log))
        × AnswersOnce req.id log
        × Answers files (file_behind 6 server.docroot) req.id (locate web req).path log
  unfolding process_async_task
  process_async_task_lem req h = elim (Option-cases (locate web req).path) [
    | inl e ↦ (
      (locate web req).log,
      rw (e, process_async_task) refl,
      (locate-none web req e).0,
      locate-Answers web files (file_behind 6 server.docroot) req e,
    )
    | inr (p, e) ↦
        let within : substr 6 p ≡ some (drop 6 p) =
          locate-start web laws (ascii "/async") req p refl h e in
        let (log, _) = locate-some web req p e in
        let sent =
          send_file files req.id (whole_path server.docroot (drop 6 p)) (guess_content_type p) in
        (
          uri_new ∷ path_new ∷ sent.0,
          ground (arith, within, log),
          (sent-AnswersOnce files req.id (whole_path server.docroot (drop 6 p))
              (guess_content_type p)).0,
          rw e (sent-Answers files (file_behind 6 server.docroot) req.id p (guess_content_type p)),
        )
  ]

  -- A task for a URI that starts with /sync returns a path, and with the callback's reply for the
  -- path there is one reply, or two where the request has been refused already.
  pub process_sync_task_lem :
      (req : Request)
      → at_start (find (ascii "/sync") req.uri) ≡ true
      → (path : Bytes) × (log : Log) × (process_sync_task web files server errno req
          ≡ (returned path, log))
        × ((i : ℕ)
            → sum (reply_to i) (log ++ send_response files req.id path)
              ≡ (if i == req.id then expected (locate web req).path else 0))
        × (replies (log ++ send_response files req.id path)
            ≡ sync_replies files server.docroot req.id (locate web req).path)
  unfolding process_sync_task
  process_sync_task_lem req h = elim (Option-cases (locate web req).path) [
    | inl e ↦ (
      ascii "Failure",
      (locate web req).log,
      rw (e, process_sync_task) refl,
      λ i.
          let first = (locate-none web req e).0 i in
          let second = send_response-AnswersOnce files req.id (ascii "Failure") i in
          rw e (
            sum-append (reply_to i) (locate web req).log
              (send_response files req.id (ascii "Failure"))
            ∙ twice (i == req.id) first second),
      rw e (
          locate-refused web req (send_response files req.id (ascii "Failure")) e
          ∙ ap (λ (rest : Log). send_error req.id bad_request ∷ rest)
              (replies-send_response files req.id (ascii "Failure"))),
    )
    | inr (p, e) ↦
        let within : substr 5 p ≡ some (drop 5 p) =
          locate-start web laws (ascii "/sync") req p refl h e in
        let (log, _) = locate-some web req p e in
        (
          whole_path server.docroot (drop 5 p),
          uri_new ∷ path_new ∷ add_header req.id (guess_content_type p) ∷ [],
          ground (arith, within, log),
          λ i. rw e (
              ground (
                arith,
                send_response-AnswersOnce files req.id (whole_path server.docroot (drop 5 p)) i,
              )),
          rw e (
              send_response-Answers files (file_behind 5 server.docroot) req.id p
                (guess_content_type p)),
        )
  ]

module _ {U : Type 0} (web : Web U) (files : Files) (server : SimpleHttpServer) where
  pub answer_at_once-Answers :
      (req : Request)
      → Answers files
          (whole_path server.docroot)
          req.id
          (locate web req).path
          (answer_at_once web files server req)
  unfolding answer_at_once locate send_file http_req_cleanup
  answer_at_once-Answers req = ground arith

  -- An answer of this server on the event loop: exactly one reply, to the request that is answered.
  -- It is a bad request if the request is not a GET, its URI cannot be parsed or its path cannot be
  -- decoded, where a URI without a path has the path `/`. Otherwise it is the file whose name is the
  -- first 2047 bytes of the document root, a slash and the path, and not found where that file cannot
  -- be read. Every URI, path and buffer that is made is freed, on every branch.
  pub simple_answer_at_once :
      (req : Request)
      → AnswersOnce req.id (answer_at_once web files server req)
        × Balanced (answer_at_once web files server req)
        × AnswersAsked web files server.docroot req (answer_at_once web files server req)
  unfolding answer_at_once locate send_file http_req_cleanup
  simple_answer_at_once req = (
    λ i. ground arith,
    balanced,
    ((locate web req).path, locate-Asks web req, answer_at_once-Answers req),
  )
    where
      balanced : Balanced (answer_at_once web files server req)
      balanced of_uri = ground arith
      balanced of_path = ground arith
      balanced of_evb = ground arith
