-- ===== src/Http/Hybrid/Program.antt =====
-- The program of the hybrid server: main of samples/http_sync_async_server/main.cc, and Run of
-- samples/http_sync_async_server/http_hybrid_server.cc.
use Prim.Native.String.{String}
use gexecutor.Prelude.{ℕ, Bool, Option, ℤ, pos, Outcome, done, ◌>>=◌}
use gexecutor.Pipe.{Pipe}
use gexecutor.Store.{Store}
use gexecutor.Http.Hybrid.Startup.{HybridState, Given, hybrid_server, initialize}
use gexecutor.SyncExecutor

-- event_base_dispatch, which libevent implements, is a parameter: what it makes of an event base,
-- with the server as it is then. Its code is not looked at.
module _ {P S : Type 0} (dispatch : Option ℕ → HybridState P → Outcome S) where
  unfoldable pub run : HybridState P → Outcome (ℤ × S)
  run s = dispatch s.event_base s >>= (λ r. done (pos 0, r))

  -- main from the constructor on; the codes of Initialize and of Run are not looked at.
  unfoldable pub main :
      (memory : Bool) (event_base evhttp : Option ℕ) (num_sync_workers : ℕ)
      → Given P
      → Outcome (ℤ × S)
  unfolding run
  main memory event_base evhttp num_sync_workers g =
      initialize g (hybrid_server memory event_base evhttp num_sync_workers)
      >>= (λ r. run r.1 >>= (λ r. done (pos 0, r.1)))
