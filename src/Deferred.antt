-- ===== src/Deferred.antt =====
-- gexecutor/deferred_task.h: DeferredTask<Rtype> and DeferredTask<void>, tasks made of three
-- functions of the application, and the task that carries a result or an error back.
pub mod RoundTrip
pub mod Silence
pub mod Steps
use Prim.Native.String.{String}
use gexecutor.Prelude.{ℕ, Option, none, some, ℤ, neg_ℕ, Outcome, done}
use gexecutor.Pipe.{Pipe}
use gexecutor.Task.{GTask, gtask}
use gexecutor.Store.{Store, new_task, enqueue_on}

-- The functions of the application, by name: what a call is given, how it ends, and what it does
-- to the state of the application. An exception leaves errno with some value.
pub data Arg (V : Type 0) : Type 0 where
  no_arg : Arg V
  result : V → Arg V
  error : ℤ → Arg V

pub data CallResult (V : Type 0) : Type 0 where
  returned : V → CallResult V
  thrown : (errno : ℕ) → CallResult V

abbrev pub Functions : Type 0 → Type 0 → Type 0
Functions V W = ℕ → Arg V → W → CallResult V × W

-- boost::function<void()>: a function, or boost::bind of deferred_cb to a function and its argument.
pub data Callable (V : Type 0) : Type 0 where
  fn : ℕ → Callable V
  bind : ℕ → Arg V → Callable V

abbrev pub call : {V W : Type 0} → Functions V W → Callable V → W → CallResult V × W
call functions (fn f) w = functions f no_arg w
call functions (bind f arg) w = functions f arg w

pub data DeferredTask (V : Type 0) : Type 0 where
  deferred_void :
      (task_fn : Callable V) (callback : Option (Callable V)) (errback : Option ℕ) → DeferredTask V
  deferred : (task_fn : ℕ) (callback errback : Option ℕ) → DeferredTask V

module _ {V : Type 0} where
  -- The constructors, with no callbacks yet, and the setters.
  abbrev pub new_void : Callable V → DeferredTask V
  new_void task_fn = deferred_void task_fn none none

  abbrev pub new_deferred : ℕ → DeferredTask V
  new_deferred task_fn = deferred task_fn none none

  unfoldable pub set_callback : ℕ → DeferredTask V → DeferredTask V
  set_callback f (deferred_void task_fn _ errback) = deferred_void task_fn (some (fn f)) errback
  set_callback f (deferred task_fn _ errback) = deferred task_fn (some f) errback

  unfoldable pub set_errback : ℕ → DeferredTask V → DeferredTask V
  set_errback f (deferred_void task_fn callback _) = deferred_void task_fn callback (some f)
  set_errback f (deferred task_fn callback _) = deferred task_fn callback (some f)

  -- What the response task calls, if there is one: the two `if (… == NULL) return 0` of each Execute.
  abbrev pub on_success : DeferredTask V → V → Option (Callable V)
  on_success (deferred_void task_fn callback errback) v = callback
  on_success (deferred task_fn none errback) v = none
  on_success (deferred task_fn (some callback) errback) v = some (bind callback (result v))

  abbrev pub on_error : Option ℕ → ℕ → Option (Callable V)
  on_error none errno = none
  on_error (some errback) errno = some (bind errback (error (neg_ℕ errno)))

  abbrev pub errback_of : DeferredTask V → Option ℕ
  errback_of (deferred_void task_fn callback errback) = errback
  errback_of (deferred task_fn callback errback) = errback

  abbrev pub task_fn_of : DeferredTask V → Callable V
  task_fn_of (deferred_void task_fn callback errback) = task_fn
  task_fn_of (deferred task_fn callback errback) = fn task_fn

  abbrev pub response : DeferredTask V → CallResult V → Option (Callable V)
  response task (returned v) = on_success task v
  response task (thrown errno) = on_error (errback_of task) errno

  module _ {P W : Type 0} (io : Pipe P) (functions : Functions V W) (address : String) where
    -- A new DeferredTask<void>, whose responses go to the queue that this task runs from, is put
    -- on the queue that this task's responses go to.
    unfoldable pub respond :
        GTask (DeferredTask V)
        → Option (Callable V)
        → Store (DeferredTask V) P W
        → Outcome (Store (DeferredTask V) P W)
    respond task none s = done s
    respond task (some f) s =
        enqueue_on io task.resp_task_q (some s.next_task)
          (new_task (gtask task.exec_task_q address (new_void f)) s)

    -- Execute of both classes, which returns 0: call task_fn_, then send the callback with the
    -- result, or after an exception the errback with -errno.
    unfoldable pub execute : ℕ → Store (DeferredTask V) P W → Outcome (Store (DeferredTask V) P W)
    unfolding respond
    execute t s =
        let task = s.tasks t in
        let called = call functions (task_fn_of task.body) s.world in
        respond task (response task.body called.0) (record s { world = called.1 })
