-- ===== src/Http/Paths.antt =====
-- The part that the handlers of both HTTP samples share, and the routes: what http_default_cb makes
-- of the start of a URI, and what can be said before and after the path of a request is known.
use gexecutor.Prelude.{
  sym, ap, ◌∙◌, ℕ, Bool-cases, ◌≡◌, refl, true, false, Option, none, some, [], ◌∷◌, ◌++◌, length,
  leb, arith, inl, inr, Option-cases,
}
use mathlib.Core.Path.{subst}
use gexecutor.Http.Text.{Bytes, ascii, starts_with, drop, substr, find, at_start, whole_path}
use gexecutor.Http.{
  is_plain, path_or_root, held, uri_new, path_new, Request, Web, WebLaws, Files, Log,
  http_req_cleanup, locate, send_file, send_response, add_header, send_error, bad_request,
}
use gexecutor.Http.Replies.{
  Asks, not_get, bad_uri, bad_path, for_path, of_uri, of_path, of_evb, AnswersOnce, Answers,
  replies, reply_for, Balanced,
}

starts_with-length :
    (start s : Bytes) → starts_with start s ≡ true → leb (length start) (length s) ≡ true
starts_with-length [] s h = ground arith
starts_with-length (b ∷ start) [] h = cc h
starts_with-length (b ∷ start) (c ∷ s) h = ground (arith, starts_with-length start s)

find-starts_with : (part s : Bytes) → at_start (find part s) ≡ starts_with part s
unfolding find
find-starts_with part [] = ground arith
find-starts_with part (c ∷ s) = ground arith

starts-not_async :
    (uri : Bytes)
    → starts_with (ascii "/sync") uri ≡ true
    → starts_with (ascii "/async") uri ≡ false
starts-not_async [] h = refl
starts-not_async (c ∷ []) h = ground (arith, h)
starts-not_async (c ∷ b ∷ s) h = ground (arith, h)

pub not_async :
    (uri : Bytes)
    → at_start (find (ascii "/sync") uri) ≡ true
    → at_start (find (ascii "/async") uri) ≡ false
not_async uri h =
    find-starts_with (ascii "/async") uri
    ∙ starts-not_async uri (sym (find-starts_with (ascii "/sync") uri) ∙ h)

-- The file for a path behind a route of n letters.
abbrev pub file_behind : (n : ℕ) (docroot path : Bytes) → Bytes
file_behind n docroot path = whole_path docroot (drop n path)

-- What the response task sends, if there is one.
abbrev pub response_log : Files → (req : ℕ) → Option Bytes → Log
response_log files req none = []
response_log files req (some file) = send_response files req file

module _ {U : Type 0} (web : Web U) where
  pub locate-none :
      (req : Request)
      → (locate web req).path ≡ none
      → AnswersOnce req.id (locate web req).log
        × Balanced ((locate web req).log ++ http_req_cleanup (locate web req).held)
  unfolding locate http_req_cleanup
  locate-none req e = (λ i. ground arith, balanced)
    where
      balanced : Balanced ((locate web req).log ++ http_req_cleanup (locate web req).held)
      balanced of_uri = ground arith
      balanced of_path = ground arith
      balanced of_evb = ground arith

  pub locate-Answers :
      (files : Files) (file_of : Bytes → Bytes) (req : Request)
      → (locate web req).path ≡ none
      → Answers files file_of req.id (locate web req).path (locate web req).log
  unfolding locate
  locate-Answers files file_of req e = ground arith

  pub locate-Asks : (req : Request) → Asks web req (locate web req).path
  unfolding locate
  locate-Asks req = elim (Bool-cases req.is_get) [
    | inr e ↦ as_asked none (ground arith) (not_get e)
    | inl e ↦ elim (Option-cases (web.uri_parse req.uri)) [
      | inl f ↦ as_asked none (ground arith) (bad_uri f)
      | inr (u, f) ↦ elim (Option-cases (web.uridecode (path_or_root (web.get_path u)))) [
        | inl g ↦ as_asked none (ground arith) (bad_path u f (as_path u none g))
        | inr (path, g) ↦
            as_asked (some path) (ground arith) (for_path u path e f (as_path u (some path) g))
      ]
    ]
  ]
    where
      as_asked :
          (wanted : Option Bytes)
          → wanted ≡ (locate web req).path
          → Asks web req wanted
          → Asks web req (locate web req).path
      as_asked wanted e a = subst (Asks web req) e a

      same : (o : Option Bytes) → path_or_root o ≡ elim o [ none ↦ ascii "/" | some path ↦ path ]
      same none = refl
      same (some path) = refl

      as_path :
          (u : U) (o : Option Bytes)
          → web.uridecode (path_or_root (web.get_path u)) ≡ o
          → web.uridecode (elim (web.get_path u) [ none ↦ ascii "/" | some path ↦ path ]) ≡ o
      as_path u o g = ap web.uridecode (sym (same (web.get_path u))) ∙ g

  -- A refusal, whatever is sent after it.
  pub locate-refused :
      (req : Request) (log : Log)
      → (locate web req).path ≡ none
      → replies ((locate web req).log ++ log) ≡ send_error req.id bad_request ∷ replies log
  unfolding locate
  locate-refused req log e = ground arith

  pub locate-some :
      (req : Request) (p : Bytes)
      → (locate web req).path ≡ some p
      → ((locate web req).log ≡ uri_new ∷ path_new ∷ [])
        × ((locate web req).held ≡ held true true false)
  unfolding locate
  locate-some req p e = ground arith

  module _ (laws : WebLaws web) where
    -- The decoded path of a request starts as its URI does, and substr is not beyond its end.
    pub locate-start :
        (start : Bytes) (req : Request) (p : Bytes)
        → is_plain start ≡ true
        → at_start (find start req.uri) ≡ true
        → (locate web req).path ≡ some p
        → substr (length start) p ≡ some (drop (length start) p)
    unfolding locate
    locate-start start req p plain h e = elim (Option-cases (web.uri_parse req.uri)) [
      | inl f ↦ ground arith
      | inr (decoded, f) ↦
          let path : web.uridecode (path_or_root (web.get_path decoded)) ≡ some p = ground arith in
          let starts : starts_with start req.uri ≡ true =
            sym (find-starts_with start req.uri) ∙ h in
          rw
            (starts_with-length start p
              (laws.keeps_start start req.uri p decoded plain starts f path))
            refl
    ]

module _ (files : Files) where
  -- What both kinds of answers from a file come to, after the path has been decoded.
  pub sent-AnswersOnce :
      (req : ℕ) (file content_type : Bytes)
      → let sent = send_file files req file content_type in
        AnswersOnce req (uri_new ∷ path_new ∷ sent.0)
        × Balanced ((uri_new ∷ path_new ∷ sent.0) ++ http_req_cleanup (held true true sent.1))
  unfolding send_file http_req_cleanup
  sent-AnswersOnce req file content_type = (λ i. ground arith, balanced)
    where
      balanced :
          let sent = send_file files req file content_type in
          Balanced ((uri_new ∷ path_new ∷ sent.0) ++ http_req_cleanup (held true true sent.1))
      balanced of_uri = ground arith
      balanced of_path = ground arith
      balanced of_evb = ground arith

  pub sent-Answers :
      (file_of : Bytes → Bytes) (req : ℕ) (path content_type : Bytes)
      → Answers files file_of req
          (some path)
          (uri_new ∷ path_new ∷ (send_file files req (file_of path) content_type).0)
  unfolding send_file
  sent-Answers file_of req path content_type = ground arith

  pub send_response-Answers :
      (file_of : Bytes → Bytes) (req : ℕ) (path content_type : Bytes)
      → Answers files file_of req (some path) (
          uri_new ∷ path_new ∷ add_header req content_type ∷ send_response files req (file_of path))
  unfolding send_response
  send_response-Answers file_of req path content_type = ground arith

  pub replies-send_response :
      (req : ℕ) (file : Bytes)
      → replies (send_response files req file) ≡ reply_for files (λ path. path) req (some file) ∷ []
  unfolding send_response
  replies-send_response req file = ground arith

  pub send_response-AnswersOnce :
      (req : ℕ) (file : Bytes) → AnswersOnce req (send_response files req file)
  unfolding send_response
  send_response-AnswersOnce req file i = ground arith
