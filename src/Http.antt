-- ===== src/Http.antt =====
-- The parts that the two HTTP servers of the samples share word for word:
-- samples/http_sync_async_server/http_hybrid_server.cc and
-- samples/simple_http_server/simple_http_server.cc. Requests are answered through libevent, which
-- is a parameter (`Web`), and from files, which are another (`Files`).
pub mod Text
pub mod ContentType
pub mod Replies
pub mod Paths
pub mod Serving
pub mod Hybrid
pub mod Simple
use gexecutor.Prelude.{
  ℕ, Bool, true, false, Option, none, some, List, [], ◌∷◌, ◌++◌, ◌≡◌, ◌&&◌, leb, ◌==◌,
  if◌then◌else◌,
}
use gexecutor.Http.Text.{Bytes, ascii, starts_with}

pub record Request : Type 0 where
  pub id : ℕ  -- which evhttp_request it is
  pub is_get : Bool
  pub uri : Bytes

-- evhttp_uri_parse, evhttp_uri_get_path and evhttp_uridecode, with NULL as `none`.
pub record Web (U : Type 0) : Type 0 where
  pub uri_parse : Bytes → Option U
  pub get_path : U → Option Bytes
  pub uridecode : Bytes → Option Bytes

abbrev pub path_or_root : Option Bytes → Bytes
path_or_root none = ascii "/"
path_or_root (some path) = path

-- A path of letters at the start of a URI, as of "/async?x", is at the start of its decoded path:
-- the path of a URI that starts with one slash is what comes before the query, and only escapes are
-- decoded.
abbrev pub is_letter : ℕ → Bool
is_letter c = leb b'a' c && leb c b'z'

abbrev pub are_letters : Bytes → Bool
are_letters [] = true
are_letters (c ∷ s) = is_letter c && are_letters s

abbrev pub is_plain : Bytes → Bool
is_plain [] = false
is_plain (c ∷ []) = false
is_plain (c ∷ b ∷ s) = c == b'/' && are_letters (b ∷ s)

pub record WebLaws {U : Type 0} (web : Web U) : Type 0 where
  pub keeps_start :
      (start uri path : Bytes) (decoded : U)
      → is_plain start ≡ true
      → starts_with start uri ≡ true
      → web.uri_parse uri ≡ some decoded
      → web.uridecode (path_or_root (web.get_path decoded)) ≡ some path
      → starts_with start path ≡ true

-- Whether stat and open succeed on a path, and the size that fstat gives for it.
pub record Files : Type 0 where
  pub stat : Bytes → Bool
  pub open_rdonly : Bytes → Bool
  pub fstat : Bytes → Option ℕ

-- What a handler does to the outside: the objects that it makes and frees, the file that it opens
-- and gives to a buffer, and what it sends for a request.
pub data Effect : Type 0 where
  uri_new uri_free path_new path_free evb_new evb_free fd_open fd_given : Effect
  add_header : (req : ℕ) (content_type : Bytes) → Effect
  send_error : (req code : ℕ) → Effect
  send_reply : (req : ℕ) (file : Bytes) (size : ℕ) → Effect

abbrev pub Log : Type 0
Log = List Effect

abbrev pub bad_request : ℕ
bad_request = 400

abbrev pub http_notfound : ℕ
http_notfound = 404

-- Which of `decoded`, `decoded_path` and `evb` are not NULL.
pub record Held : Type 0 where
  pub decoded : Bool
  pub decoded_path : Bool
  pub evb : Bool

abbrev pub held : (decoded decoded_path evb : Bool) → Held
held decoded decoded_path evb = record { decoded = decoded; decoded_path = decoded_path; evb = evb }

abbrev pub nothing : Held
nothing = held false false false

-- http_req_cleanup.
unfoldable pub http_req_cleanup : Held → Log
http_req_cleanup h =
    (if h.decoded then uri_free ∷ [] else [])
    ++ (if h.decoded_path then path_free ∷ [] else [])
    ++ (if h.evb then evb_free ∷ [] else [])

pub record Located : Type 0 where
  pub log : Log
  pub held : Held
  pub path : Option Bytes

-- The first part of every handler: from the request to the decoded path, with the error reply for
-- a command that is not GET, a bad URI and a path that cannot be decoded.
unfoldable pub locate : {U : Type 0} → Web U → Request → Located
locate web req =
    if req.is_get
    then elim (web.uri_parse req.uri) [
      | none ↦ record { log = send_error req.id bad_request ∷ []; held = nothing; path = none }
      | some decoded ↦ elim (web.uridecode (path_or_root (web.get_path decoded))) [
        | none ↦ record {
          log = uri_new ∷ send_error req.id bad_request ∷ [];
          held = held true false false;
          path = none;
        }
        | some path ↦ record {
          log = uri_new ∷ path_new ∷ [];
          held = held true true false;
          path = some path;
        }
      ]
    ]
    else record { log = send_error req.id bad_request ∷ []; held = nothing; path = none }

-- The last part of the handlers that answer at once: the log, and whether there is a buffer.
unfoldable pub send_file : Files → (req : ℕ) (file content_type : Bytes) → Log × Bool
send_file files req file content_type = elim (files.stat file) [
  | false ↦ (send_error req http_notfound ∷ [], false)
  | true ↦ elim (files.open_rdonly file) [
    | false ↦ (evb_new ∷ send_error req http_notfound ∷ [], true)
    | true ↦ elim (files.fstat file) [
      | none ↦ (evb_new ∷ fd_open ∷ send_error req http_notfound ∷ [], true)
      | some size ↦ (
        evb_new ∷ fd_open ∷ add_header req content_type ∷ fd_given ∷ send_reply req file size ∷ [],
        true,
      )
    ]
  ]
]

-- The same where the answer is a task of its own: the buffer comes first, and the header is there
-- already.
unfoldable pub send_response : Files → (req : ℕ) (file : Bytes) → Log
send_response files req file = elim (files.stat file) [
  | false ↦ evb_new ∷ send_error req http_notfound ∷ []
  | true ↦ elim (files.open_rdonly file) [
    | false ↦ evb_new ∷ send_error req http_notfound ∷ []
    | true ↦ elim (files.fstat file) [
      | none ↦ evb_new ∷ fd_open ∷ send_error req http_notfound ∷ []
      | some size ↦ evb_new ∷ fd_open ∷ fd_given ∷ send_reply req file size ∷ []
    ]
  ]
]
