-- ===== src/Tests/Http.antt =====
-- The HTTP samples (samples/http_sync_async_server and samples/simple_http_server), with URIs that
-- have no escapes and one file, /srv//a.txt, of 3 bytes.
use gexecutor.Prelude.{
  ℕ, ◌≤◌, ◌≡◌, ◌⊎◌, refl, Bool, true, false, ◌||◌, ◌==◌, none, some, [], ◌∷◌, ◌++◌, map,
  if◌then◌else◌, done, arith,
}
use gexecutor.Pipe.{bounded, bounded-PipeLaws}
use gexecutor.TaskQ.Notify.{bounded-IsRecoverable}
use gexecutor.Task.{gtask}
use gexecutor.Store.{Store}
use gexecutor.Reactor.{run_tasks}
use gexecutor.Reactor.Posted.{loop, Idle}
use gexecutor.Deferred.{DeferredTask, new_void, fn}
use gexecutor.Deferred
use gexecutor.Http.Text.{Bytes, ascii, starts_with, find, same_text, strchr, tolower}
use gexecutor.Http.{
  Request, Web, WebLaws, Files, Log, send_error, nothing, are_letters, is_plain, locate,
}
use gexecutor.Http.ContentType.{guess_content_type, guess_content_type_lem, media_type}
use gexecutor.Http.Replies.{AnswersOnce, AnswersAsked, Answers, Balanced, sum, reply_to, replies}
use gexecutor.Http.Hybrid.{HttpHybridServer, HttpTask, async_request}
use gexecutor.Http.Hybrid
use gexecutor.Http.Simple.Answers.{simple_answer_at_once}
use gexecutor.Http.Hybrid.Answers.{answer_at_once_lem}
use gexecutor.Http.Paths.{file_behind}
use gexecutor.Http.Hybrid.Requests.{sync_request_answered}
use gexecutor.Http.Simple.{SimpleHttpServer, functions}
use gexecutor.Http.Simple
use gexecutor.Http.Simple.Requests.{simple_sync_answered}
use gexecutor.Tests.Queue.{ready, ready-IsReady}

-- What comes before the query and the fragment.
abbrev pub path_part : Bytes → Bytes
path_part [] = []
path_part (c ∷ s) = if c == b'?' || c == b'#' then [] else c ∷ path_part s

abbrev pub web : Web Bytes
web = record { uri_parse = some; get_path = λ u. some (path_part u); uridecode = some }

letters-path_part :
    (start s : Bytes)
    → are_letters start ≡ true
    → starts_with start s ≡ true
    → starts_with start (path_part s) ≡ true
letters-path_part [] s e h = refl
letters-path_part (b ∷ start) [] e h = h
letters-path_part (b ∷ start) (c ∷ s) e h = ground (arith, letters-path_part start s)

plain-path_part :
    (start s : Bytes)
    → is_plain start ≡ true
    → starts_with start s ≡ true
    → starts_with start (path_part s) ≡ true
plain-path_part [] s e h = refl
plain-path_part (b ∷ []) s e h = cc e
plain-path_part (b ∷ d ∷ start) [] e h = h
plain-path_part (b ∷ d ∷ start) (c ∷ s) e h = ground (arith, letters-path_part (d ∷ start) s)

pub web-WebLaws : WebLaws web
web-WebLaws = record {
  keeps_start = λ start uri path decoded plain starts parsed found.
      ground (arith, plain-path_part start uri plain starts);
}

abbrev pub is_file : Bytes → Bool
is_file path = same_text path (ascii "/srv//a.txt")

abbrev pub files : Files
files = record { stat = is_file; open_rdonly = is_file; fstat = λ path. some 3 }

abbrev pub get : (id : ℕ) → Bytes → Request
get id u = record { id = id; is_get = true; uri = u }

abbrev pub post : (id : ℕ) → Bytes → Request
post id u = record { id = id; is_get = false; uri = u }

abbrev pub server : HttpHybridServer
server = record { docroot = ascii "/srv"; async_taskq = 1; sync_taskq = 2 }

abbrev pub idle : {B : Type 0} → B → Store B ℕ Log
idle b = record {
  tasks = λ _. gtask none "0x1000" b;
  next_task = 0;
  queues = λ _. ready 0 [];
  world = [];
}

idle-Idle : {B : Type 0} (b : B) (q : ℕ) → Idle q 2 (idle b)
idle-Idle b q = record { pipe = 0; ready = ready-IsReady 0 []; idle = refl; room = omega arith }

answer_at_once_lem_example :
    AnswersOnce 5 (Hybrid.answer_at_once web files server (get 5 (ascii "/a.txt")))
    × Balanced (Hybrid.answer_at_once web files server (get 5 (ascii "/a.txt")))
    × AnswersAsked web files
        (ascii "/srv")
        (get 5 (ascii "/a.txt"))
        (Hybrid.answer_at_once web files server (get 5 (ascii "/a.txt")))
answer_at_once_lem_example = answer_at_once_lem web files server (get 5 (ascii "/a.txt"))

abbrev pub async_idle : Store HttpTask ℕ Log
async_idle = idle (async_request (get 0 []) nothing)

sync_request_answered_example :
    (turns : ℕ) × (s1 s2 : Store HttpTask ℕ Log) × (log : Log) × (turns ≤ 2)
    × (Hybrid.http_default_cb web files server
          (bounded 2)
          "0x1000"
          (get 5 (ascii "/sync/a.txt?x"))
          async_idle
        ≡ done s1)
    × (run_tasks (bounded 2) (Hybrid.execute web files server (bounded 2)) (loop 7 2) turns s1
        ≡ done s2)
    × (s2.world ≡ [] ++ log)
    × AnswersOnce 5 log
    × Answers files
        (file_behind 5 server.docroot)
        5
        (locate web (get 5 (ascii "/sync/a.txt?x"))).path
        log
    × ((s2.queues 2).task_queue ≡ [])
unfolding find
sync_request_answered_example =
    sync_request_answered (bounded 2) web files server "0x1000" (bounded-PipeLaws 2)
      (bounded-IsRecoverable 2) web-WebLaws (get 5 (ascii "/sync/a.txt?x")) 7 async_idle refl
      (idle-Idle _ 2)

abbrev pub simple : SimpleHttpServer
simple = record { docroot = ascii "/srv"; async_taskq = 1; sync_taskq = 2 }

abbrev pub simple_idle : Store (DeferredTask Bytes) ℕ Log
simple_idle = idle (new_void (fn 0))

-- A request that is not a GET: two replies.
simple_sync_answered_example :
    (s1 s2 : Store (DeferredTask Bytes) ℕ Log) × (log : Log) × (Simple.http_default_cb web files
        simple
        (bounded 2)
        "0x1000"
        (post 5 (ascii "/sync/a.txt"))
        simple_idle
      ≡ done s1)
    × (run_tasks
          (bounded 2)
          (Deferred.execute
            (bounded 2)
            (functions web files simple 0 (λ _. post 5 (ascii "/sync/a.txt")))
            "0x1000")
          (loop 7 2)
          2
          s1
        ≡ done s2)
    × (s2.world ≡ [] ++ log)
    × ((i : ℕ) → sum (reply_to i) log ≡ (if i == 5 then 2 else 0))
    × (replies log ≡ send_error 5 400 ∷ send_error 5 404 ∷ [])
    × ((s2.queues 2).task_queue ≡ [])
unfolding find locate
simple_sync_answered_example =
    simple_sync_answered (bounded 2) web files simple "0x1000" 0 (bounded-PipeLaws 2)
      (bounded-IsRecoverable 2) web-WebLaws (λ _. post 5 (ascii "/sync/a.txt"))
      (post 5 (ascii "/sync/a.txt")) 7 simple_idle refl refl (idle-Idle _ 2)

simple_answer_at_once_example :
    AnswersOnce 5 (Simple.answer_at_once web files simple (post 5 (ascii "/a.txt")))
    × Balanced (Simple.answer_at_once web files simple (post 5 (ascii "/a.txt")))
    × AnswersAsked web files
        (ascii "/srv")
        (post 5 (ascii "/a.txt"))
        (Simple.answer_at_once web files simple (post 5 (ascii "/a.txt")))
simple_answer_at_once_example = simple_answer_at_once web files simple (post 5 (ascii "/a.txt"))

guess_content_type_lem_example :
    let path = ascii "/a.TXT" in
    ((strchr b'.' path ≡ false) × (guess_content_type path ≡ ascii "application/misc"))
    ⊎ ((stem extension : Bytes) × (path ≡ stem ++ b'.' ∷ extension)
        × (strchr b'.' extension ≡ false)
        × (guess_content_type path ≡ media_type (map tolower extension)))
guess_content_type_lem_example = guess_content_type_lem (ascii "/a.TXT")
