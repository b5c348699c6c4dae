-- ===== src/Lib.antt =====
-- gexecutor runs tasks in executors. A task is an object with a method Execute and, for its
-- answer, a queue. An asynchronous executor is an event loop in the thread of the application; a
-- synchronous executor is a pool of worker threads, each with an event loop, on one queue. A queue
-- has a pipe: who enqueues a task writes a byte into it, and an event loop that finds bytes
-- dequeues and runs one task for each. A service makes executors and finds them by name. The
-- repository has two HTTP servers as samples.
--
-- The parts and their files, with paths of the repository below src/:
-- - Pipe: the pipe of a queue, which the kernel implements. write(2) and read(2) are a parameter
--   (`Pipe`); what the proofs need of them is in `PipeLaws` and in TaskQ.Notify.IsRecoverable.
--   `bounded` is a pipe of any capacity for which both hold.
-- - TaskQ: GTaskQ of gexecutor/gtaskq.cc and .h. `initialize`, `enqueue_gtask` (EnqueueGTask),
--   `notify_q` (NotifyQ), `num_notifn_to_write` and `pop_task` (DequeueGTask under the lock) are
--   its methods; size_t wraps around at 2 ^ 64. A failed assertion is `aborted`, undefined
--   behaviour is `undefined` (Prelude/Results). The destructor is `destroy`; TaskQ/Lifetime has a
--   queue from its constructor to there. TaskQ/System has the interleavings of any number of
--   threads, as a step relation on critical sections and system calls: Sequential has one call of
--   EnqueueGTask as its steps, Safety what holds of each state, Order the order of the tasks,
--   Progress the end of every execution without new tasks, and LostWakeup a task that is left for
--   good.
-- - Task and Store: GTask, and the tasks and queues that threads share, by reference.
-- - Reactor: taskq_cb and check_taskq_cb of gexecutor/gasync_executor.cc. `read_loop` takes fuel,
--   one unit for each read(2), and `none` says that it ran out: one unit more than there are tasks
--   is enough (Reactor/Drain). `run_tasks`, its inner loop, needs none. Reactor/Steps has a call
--   of taskq_cb as steps of TaskQ/System, and Deferred/Steps the same where it runs deferred
--   tasks. Reactor/Asio has the read handler of gexecutor/asio/gasync_executor_asio.cc, the same
--   loop on boost::asio.
-- - Deferred: DeferredTask of gexecutor/deferred_task.h (Deferred/RoundTrip has a task with its
--   response, Deferred/Silence one without). The functions of the application are a
--   parameter, named by numbers; their state is the `world` of the store.
-- - AsyncExecutor, Worker (with Worker/Lifetime) and SyncExecutor: the classes of
--   gexecutor/gasync_executor.cc, gexecutor/gsync_worker_thread.cc and
--   gexecutor/gsync_executor.cc. libevent is seen by the calls that it gets; what pthread_create
--   and event_new return is an argument. The retries of NotifyQ are 3, as in the source; its
--   proofs hold for any number.
-- - Service: gexecutor/gexecutor_service_base.cc and gexecutor/gexecutor_service.cc. A call holds
--   the mutex and is one step. Service/Registry has the map of names that it stands for, and
--   Service/Starts the one that it starts from.
-- - AsioExecutor, AsioWorker and AsioSyncExecutor: gasync_executor_asio.cc,
--   gsync_worker_thread_asio.cc and gsync_executor_asio.cc of gexecutor/asio. boost::asio is seen
--   by the calls on its two descriptors (`assign`, which throws on a descriptor that is open,
--   `close` and async_read_some); the handler that it calls is `on_read` of AsioExecutor/Idle.
-- - Service/Asio: gexecutor/asio/gexecutor_service_asio.cc, on the same registry. One kind of
--   Executor is the one of boost::asio.
-- - Http: what samples/http_sync_async_server/http_hybrid_server.cc and
--   samples/simple_http_server/simple_http_server.cc have in common; Http/Hybrid and Http/Simple
--   have the rest of each. Requests and files are parameters (`Web`, `Files`), with one law
--   (`WebLaws`). Http/Serving has a server over lists of events, each a request that arrives or a
--   turn of an executor on one of its queues, with an account of the replies sent and owed (Runs
--   and Answered have whole runs); what it asks of a server is `Laws`, which Http/Hybrid/Serving
--   and Http/Simple/Serving (Arrivals, Turns, SyncTurns) have for the two; Posts and Fronts are
--   what a task that is posted and one that is taken out do to the account. Reactor/Waiting and
--   Reactor/Holds have what they need of queues of tasks that wait. Http/Hybrid/Program has `main`
--   of samples/http_sync_async_server/main.cc, with event_base_dispatch as a parameter, and
--   Http/Simple/Startup that of samples/simple_http_server/main.cc, to where it enters the event
--   loop. Http/Hybrid/Dispatch, with Http/Serving/Live, has what event_base_dispatch makes of the
--   hybrid server: which events come about with the callback, the socket, the executors and the
--   workers that there are.
-- - Tests: runs at fixed inputs, and each theorem at an input that meets its hypotheses.
--
-- A client takes what it needs of another part as a parameter: the loop of taskq_cb takes Execute,
-- the queue takes its pipe, a deferred task takes the functions of the application.
--
-- Not modelled: the dispatch loops themselves, which are libevent's and boost::asio's
-- (event_base_dispatch and the run of an io_service, which run(), Run and the thread of a worker
-- enter): they are parameters, what they call is modelled, and the step relations and lists of
-- events call it in any order. A turn in a list of events stands for one byte that a loop reads;
-- that a byte may be lost is in TaskQ/System/LostWakeup. The threads that CreateSyncExecutor starts
-- read descriptors that have no value, which is undefined behaviour: of them only the records of the
-- workers are modelled, and so the simple server is not followed from its constructor into its event
-- loop. Memory that runs out (but for the buffer
-- of a queue), the statistics of GExecutor that nothing reads, flags and logging are left out. The
-- unit tests are programs that exercise the library.
pub mod Prelude
pub mod Pipe
pub mod TaskQ
pub mod Task
pub mod Store
pub mod Reactor
pub mod Deferred
pub mod AsyncExecutor
pub mod AsioExecutor
pub mod Worker
pub mod SyncExecutor
pub mod AsioWorker
pub mod AsioSyncExecutor
pub mod Service
pub mod Http
mod Tests
