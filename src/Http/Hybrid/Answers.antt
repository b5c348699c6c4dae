-- ===== src/Http/Hybrid/Answers.antt =====
-- Every handler of samples/http_sync_async_server/http_hybrid_server.cc on its own: it answers its
-- request once, and what it makes is freed.
use gexecutor.Prelude.{
  ℕ, ◌≡◌, refl, true, false, Option, none, some, [], ◌∷◌, ◌++◌, done, arith, inl, inr, Option-cases,
}
use mathlib.Core.List.{append-nil}
use gexecutor.Http.Text.{Bytes, ascii, drop, substr, find, at_start, whole_path}
use gexecutor.Http.ContentType.{guess_content_type}
use gexecutor.Http.{
  held, uri_new, path_new, Request, Web, WebLaws, Files, Log, Held, http_req_cleanup, locate,
  send_file, send_response, add_header,
}
use gexecutor.Http.Replies.{of_uri, of_path, of_evb, AnswersOnce, AnswersAsked, Balanced, Answers}
use gexecutor.Http.Paths.{
  locate-Asks, locate-none, locate-Answers, locate-some, locate-start, sent-AnswersOnce,
  sent-Answers, send_response-Answers, response_log, file_behind,
}
use gexecutor.Http.Hybrid.{HttpHybridServer, answer_at_once, run_async, run_sync}

module _ {U : Type 0} (web : Web U) (files : Files) (server : HttpHybridServer) where
  pub answer_at_once-Answers :
      (req : Request)
      → Answers files
          (whole_path server.docroot)
          req.id
          (locate web req).path
          (answer_at_once web files server req)
  unfolding answer_at_once locate send_file http_req_cleanup
  answer_at_once-Answers req = ground arith

  -- An answer of this server on the event loop: exactly one reply, to the request that is answered.
  -- It is a bad request if the request is not a GET, its URI cannot be parsed or its path cannot be
  -- decoded, where a URI without a path has the path `/`. Otherwise it is the file whose name is the
  -- first 2047 bytes of the document root, a slash and the path, and not found where that file cannot
  -- be read. Every URI, path and buffer that is made is freed, on every branch.
  pub answer_at_once_lem :
      (req : Request)
      → AnswersOnce req.id (answer_at_once web files server req)
        × Balanced (answer_at_once web files server req)
        × AnswersAsked web files server.docroot req (answer_at_once web files server req)
  unfolding answer_at_once locate send_file http_req_cleanup
  answer_at_once_lem req = (
    λ i. ground arith,
    balanced,
    ((locate web req).path, locate-Asks web req, answer_at_once-Answers req),
  )
    where
      balanced : Balanced (answer_at_once web files server req)
      balanced of_uri = ground arith
      balanced of_path = ground arith
      balanced of_evb = ground arith

  module _ (laws : WebLaws web) where
    -- A task for a URI that starts with /async runs to its end: it sends exactly one reply, to its
    -- request, and its destructor frees every URI, path and buffer that it has made.
    pub run_async_lem :
        (req : Request)
        → at_start (find (ascii "/async") req.uri) ≡ true
        → (log : Log) × (h : Held) × (run_async web files server req ≡ done (log, h))
          × AnswersOnce req.id log
          × Balanced (log ++ http_req_cleanup h)
          × Answers files (file_behind 6 server.docroot) req.id (locate web req).path log
    unfolding run_async
    run_async_lem req h = elim (Option-cases (locate web req).path) [
      | inl e ↦
          let (once, balanced) = locate-none web req e in
          (
            (locate web req).log,
            (locate web req).held,
            rw (e, run_async) refl,
            once,
            balanced,
            locate-Answers web files (file_behind 6 server.docroot) req e,
          )
      | inr (p, e) ↦
          let within : substr 6 p ≡ some (drop 6 p) =
            locate-start web laws (ascii "/async") req p refl h e in
          let (log, kept) = locate-some web req p e in
          let sent =
            send_file files req.id (whole_path server.docroot (drop 6 p)) (guess_content_type p) in
          let (once, balanced) =
            sent-AnswersOnce files req.id (whole_path server.docroot (drop 6 p))
              (guess_content_type p) in
          (
            uri_new ∷ path_new ∷ sent.0,
            held true true sent.1,
            ground (arith, within, log, kept),
            once,
            balanced,
            rw e
                (sent-Answers files (file_behind 6 server.docroot) req.id p (guess_content_type p)),
          )
    ]

    -- A task for a URI that starts with /sync runs to its end. Either it sends exactly one reply, to
    -- its request, and no response task; or it sends none, and the response task for the path that
    -- it returns sends exactly one, whatever the files are by then. Its destructor frees every URI
    -- and path that it has made.
    pub run_sync_lem :
        (req : Request)
        → at_start (find (ascii "/sync") req.uri) ≡ true
        → (log : Log) × (h : Held) × (file : Option Bytes) × (run_sync web files server req
            ≡ done (log, h, file))
          × ((files' : Files) → AnswersOnce req.id (log ++ response_log files' req.id file))
          × Balanced (log ++ http_req_cleanup h)
          × ((files' : Files)
              → Answers files'
                  (file_behind 5 server.docroot)
                  req.id
                  (locate web req).path
                  (log ++ response_log files' req.id file))
    unfolding run_sync send_response http_req_cleanup
    run_sync_lem req h = elim (Option-cases (locate web req).path) [
      | inl e ↦
          let (once, balanced) = locate-none web req e in
          (
            (locate web req).log,
            (locate web req).held,
            none,
            rw (e, run_sync) refl,
            (λ files' i. rw (append-nil (locate web req).log) (once i)),
            balanced,
            λ files'.
                rw (append-nil (locate web req).log)
                  (locate-Answers web files' (file_behind 5 server.docroot) req e),
          )
      | inr (p, e) ↦
          let within : substr 5 p ≡ some (drop 5 p) =
            locate-start web laws (ascii "/sync") req p refl h e in
          let (log, kept) = locate-some web req p e in
          (
            uri_new ∷ path_new ∷ add_header req.id (guess_content_type p) ∷ [],
            held true true false,
            some (whole_path server.docroot (drop 5 p)),
            ground (arith, within, log, kept),
            (λ files' i. ground arith),
            balanced req.id (guess_content_type p),
            λ files'. rw e (
                send_response-Answers files' (file_behind 5 server.docroot) req.id p
                  (guess_content_type p)),
          )
    ]
      where
        balanced :
            (req : ℕ) (t : Bytes)
            → Balanced (
                (uri_new ∷ path_new ∷ add_header req t ∷ [])
                ++ http_req_cleanup (held true true false))
        balanced req t of_uri = refl
        balanced req t of_path = refl
        balanced req t of_evb = refl
