-- ===== src/AsioExecutor.antt =====
-- gexecutor/asio/gasync_executor_asio.h and gexecutor/asio/gasync_executor_asio.cc: an asynchronous
-- executor on boost::asio, which is seen by the calls that the two stream descriptors get.
pub mod Descriptors
pub mod Idle
use gexecutor.Prelude.{ℕ, Option, List, [], ◌∷◌, ◌++◌, Outcome, done, ◌>>=◌}
use gexecutor.TaskQ.{GTaskQ}
use gexecutor.TaskQ
use gexecutor.AsyncExecutor.{ExecutorType}

-- taskq_read_desc_ and taskq_write_desc_.
pub data Descriptor : Type 0 where
  reader writer : Descriptor

pub data DescriptorCall : Type 0 where
  assign close : Descriptor → DescriptorCall
  async_read_some : DescriptorCall  -- of the first one, with taskq_read_handler

-- Who owns a boost::asio::io_service: the service, a worker, or the application.
pub data IoService : Type 0 where
  default_io_service : IoService
  io application : ℕ → IoService

-- GAsyncExecutorAsio. The timer is constructed and never set.
pub record AsioExecutor : Type 0 where
  pub gexec_type : ExecutorType
  pub io_service : IoService
  pub p_taskq : ℕ
  pub calls : List DescriptorCall

unfoldable pub asio_executor : (io_service : IoService) (taskq : ℕ) → AsioExecutor
asio_executor io_service taskq = record {
  gexec_type = ExecutorType.async;
  io_service = io_service;
  p_taskq = taskq;
  calls = [];
}

abbrev pub starts : List DescriptorCall
starts = assign reader ∷ assign writer ∷ async_read_some ∷ []

abbrev pub closes : List DescriptorCall
closes = close reader ∷ close writer ∷ []

-- Initialize, with the queue of the executor, which it initializes too; `pipe` is what pipe2 gives.
unfoldable pub initialize :
    {P : Type 0} → (pipe : Option P) → AsioExecutor → GTaskQ P → Outcome (AsioExecutor × GTaskQ P)
initialize pipe x q =
    TaskQ.initialize pipe q >>= (λ q'. done (record x { calls = x.calls ++ starts }, q'))

-- Shutdown, which returns 0; StopTimer does nothing.
unfoldable pub shutdown : AsioExecutor → AsioExecutor
shutdown x = record x { calls = x.calls ++ closes }
