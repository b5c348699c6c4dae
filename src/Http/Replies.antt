-- ===== src/Http/Replies.antt =====
-- What the handlers send and release, counted over their logs.
use gexecutor.Prelude.{
  ℕ, ◌+◌, ◌≡◌, Bool, true, false, Option, none, some, [], ◌∷◌, ◌++◌, ◌==◌, ◌&&◌, if◌then◌else◌,
  arith,
}
use gexecutor.Http.Text.{Bytes, ascii, take}
use gexecutor.Http.{
  Effect, uri_new, uri_free, path_new, path_free, evb_new, evb_free, send_error, send_reply, Log,
  Files, Web, Request,
}

abbrev pub one_if : Bool → ℕ
one_if true = 1
one_if false = 0

-- The replies to request i, errors included.
abbrev pub reply_to : (i : ℕ) → Effect → ℕ
reply_to i (send_error req code) = one_if (i == req)
reply_to i (send_reply req file size) = one_if (i == req)
reply_to i _ = 0

-- The replies of a log, in order.
abbrev pub replies : Log → Log
replies [] = []
replies (send_error req code ∷ log) = send_error req code ∷ replies log
replies (send_reply req file size ∷ log) = send_reply req file size ∷ replies log
replies (_ ∷ log) = replies log

-- The reply that a request should get: the file that its path stands for, if it can be read, whatever
-- the path is.
abbrev pub reply_for : Files → (file_of : Bytes → Bytes) → (req : ℕ) → Option Bytes → Effect
reply_for files file_of req none = send_error req 400
reply_for files file_of req (some path) =
    if files.stat (file_of path) && files.open_rdonly (file_of path)
    then elim (files.fstat (file_of path)) [
      | none ↦ send_error req 404
      | some size ↦ send_reply req (file_of path) size
    ]
    else send_error req 404

-- The log has one reply, the one for the path.
abbrev pub Answers : Files → (file_of : Bytes → Bytes) → (req : ℕ) → Option Bytes → Log → Type 0
Answers files file_of req path log = replies log ≡ reply_for files file_of req path ∷ []

-- What a request asks for: the path that its URI names and that can be decoded, `/` where the URI has
-- none; and nothing if it is not a GET, or its URI is bad, or its path cannot be decoded.
pub data Asks {U : Type 0} (web : Web U) (req : Request) : Option Bytes → Type 0 where
  not_get : req.is_get ≡ false → Asks web req none
  bad_uri : web.uri_parse req.uri ≡ none → Asks web req none
  bad_path :
      (u : U)
      → web.uri_parse req.uri ≡ some u
      → web.uridecode (elim (web.get_path u) [ none ↦ ascii "/" | some path ↦ path ]) ≡ none
      → Asks web req none
  for_path :
      (u : U) (path : Bytes)
      → req.is_get ≡ true
      → web.uri_parse req.uri ≡ some u
      → web.uridecode (elim (web.get_path u) [ none ↦ ascii "/" | some p ↦ p ]) ≡ some path
      → Asks web req (some path)

-- The log has one reply, the one for what the request asks for: the file is that of the document
-- root, a slash and the path, of which 2047 bytes are kept.
abbrev pub AnswersAsked : {U : Type 0} → Web U → Files → (docroot : Bytes) → Request → Log → Type 0
AnswersAsked web files docroot req log =
    (wanted : Option Bytes) × Asks web req wanted
    × Answers files (λ path. take 2047 (docroot ++ b'/' ∷ path)) req.id wanted log

-- What is made and what is freed.
pub data Kind : Type 0 where
  of_uri of_path of_evb : Kind

abbrev pub makes : Kind → Effect → ℕ
makes of_uri uri_new = 1
makes of_path path_new = 1
makes of_evb evb_new = 1
makes _ _ = 0

abbrev pub frees : Kind → Effect → ℕ
frees of_uri uri_free = 1
frees of_path path_free = 1
frees of_evb evb_free = 1
frees _ _ = 0

abbrev pub sum : (Effect → ℕ) → Log → ℕ
sum f [] = 0
sum f (e ∷ log) = f e + sum f log

pub sum-append : (f : Effect → ℕ) (xs ys : Log) → sum f (xs ++ ys) ≡ sum f xs + sum f ys
sum-append f [] ys = omega arith
sum-append f (x ∷ xs) ys = omega (arith, sum-append f xs ys)

-- One reply to a request, and none to any other.
abbrev pub AnswersOnce : (req : ℕ) → Log → Type 0
AnswersOnce req log = (i : ℕ) → sum (reply_to i) log ≡ one_if (i == req)

-- Every object of libevent that is made is freed as often.
abbrev pub Balanced : Log → Type 0
Balanced log = (k : Kind) → sum (makes k) log ≡ sum (frees k) log
