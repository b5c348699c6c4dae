-- ===== src/Tests/Executors.antt =====
-- Executors (gexecutor/gasync_executor.cc and gexecutor/gsync_executor.cc).
use gexecutor.Prelude.{ℕ, ◌≡◌, Bool, true, false, some, List, [], ◌∷◌, ltb}
use gexecutor.AsyncExecutor.Events.{Op, init, stop, stop_timer_only}
use gexecutor.AsyncExecutor.Lifecycle.{run, born, stops, events_sound, timer_leaks}
use gexecutor.Worker.{Worker}
use gexecutor.SyncExecutor.{SyncExecutor, sync_executor, default_num_workers}

abbrev calls : List Op
calls = init true ∷ stop_timer_only ∷ init false ∷ stop ∷ init true ∷ []

events_sound_example : (live : List ℕ) × (run calls (born (some 1) 2) ≡ some live)
events_sound_example = events_sound (some 1) 2 calls

timer_leaks_example : run (init true ∷ stops 2) (born (some 1) 2) ≡ some (1 ∷ [])
timer_leaks_example = timer_leaks (some 1) 2 2 true

-- The third thread and those after it cannot be created.
abbrev few_threads : ℕ → Bool
few_threads i = ltb i 2

abbrev four : SyncExecutor
four = sync_executor 6 default_num_workers
