-- ===== src/SyncExecutor/Workers.antt =====
-- The workers that GSyncExecutor::Initialize starts (gexecutor/gsync_executor.cc), and how they
-- are shut down.
use gexecutor.Prelude.{
  ℕ, ◌≢◌, zero, suc, ◌+◌, ◌<◌, if◌then◌else◌, ◌≡◌, refl, Bool, some, List, [], ◌∷◌, ◌++◌, length,
  get_elem?, done, undefined, arith, append-cons, sym, ap, >>=-eq-done, ◌∙◌, ◌==◌,
}
use mathlib.Core.List.{append-nil}
use gexecutor.AsyncExecutor.{Log}
use gexecutor.Worker.{Worker}
use gexecutor.Worker
use gexecutor.SyncExecutor.{
  SyncExecutor, start_workers, start_worker, initialize, shutdown, shutdown_workers,
}

module _ {W : Type 0} (start : ℕ → W) where
  abbrev pub pool : (rounds thindex : ℕ) → List W
  pool zero thindex = []
  pool (suc rounds) thindex = start thindex ∷ pool rounds (thindex + 1)

  start_workers-pool :
      (rounds thindex : ℕ) (ws : List W)
      → start_workers start rounds thindex ws ≡ ws ++ pool rounds thindex
  unfolding start_workers
  start_workers-pool zero thindex ws = sym (append-nil ws)
  start_workers-pool (suc rounds) thindex ws =
      start_workers-pool rounds (thindex + 1) _ ∙ append-cons ws _ _

  length-pool : (rounds thindex : ℕ) → length (pool rounds thindex) ≡ rounds
  length-pool zero thindex = refl
  length-pool (suc rounds) thindex = ap suc (length-pool rounds (thindex + 1))

  get_elem?-pool :
      (rounds thindex i : ℕ)
      → i < rounds
      → get_elem? (pool rounds thindex) i ≡ some (start (thindex + i))
  get_elem?-pool zero thindex i h = elim h [ ]
  get_elem?-pool (suc rounds) thindex zero h = ap (λ (i : ℕ). some (start i)) (omega arith)
  get_elem?-pool (suc rounds) thindex (suc i) h =
      get_elem?-pool rounds (thindex + 1) i (omega arith)
      ∙ ap (λ (k : ℕ). some (start k)) (omega arith)

  -- The `if` of Initialize with its loop adds num_workers_ workers, the i-th with the number i.
  pub started_workers :
      (n : ℕ) (ws : List W)
      → (new : List W) × ((if n == 0 then ws else start_workers start n 0 ws) ≡ ws ++ new)
        × (length new ≡ n)
        × ((i : ℕ) → i < n → get_elem? new i ≡ some (start i))
  started_workers zero ws = ([], sym (append-nil ws), refl, λ i h. elim h [ ])
  started_workers (suc n) ws = (
    pool (suc n) 0,
    ground (arith, start_workers-pool (suc n) 0 ws),
    length-pool (suc n) 0,
    λ i h. get_elem?-pool (suc n) 0 i h ∙ ap (λ (k : ℕ). some (start k)) (omega arith),
  )

pub initialize_workers :
    (created : ℕ → Bool) (x : SyncExecutor)
    → (new : List Worker) × ((initialize created x).workers ≡ x.workers ++ new)
      × (length new ≡ x.num_workers)
      × ((i : ℕ) → i < x.num_workers → get_elem? new i ≡ some (start_worker created x.p_taskq i))
unfolding initialize
initialize_workers created x =
    started_workers (start_worker created x.p_taskq) x.num_workers x.workers

shutdown_workers-returns :
    (ws : List Worker) {r : List Worker × Log}
    → shutdown_workers ws ≡ done r
    → (ws ≡ []) × (r ≡ ([], []))
unfolding shutdown_workers
shutdown_workers-returns [] e = ground arith
shutdown_workers-returns (w ∷ ws) e =
    let (_, _, bad) = >>=-eq-done (Worker.shutdown w) (λ _. undefined) e in cc bad

-- Shutdown returns for a pool without workers, and sends no call to libevent then. With one or
-- more workers it never returns normally: the iterator that erase has invalidated is used.
shutdown_returns :
    (x : SyncExecutor) (w : Worker) (ws : List Worker) (r : SyncExecutor × Log)
    → (shutdown (record x { workers = [] }) ≡ done (record x { workers = [] }, []))
      × (shutdown (record x { workers = w ∷ ws }) ≢ done r)
unfolding shutdown shutdown_workers
shutdown_returns x w ws r = (
  refl,
  λ e.
      let pool : SyncExecutor = record x { workers = w ∷ ws } in
      let (_, f, _) =
        >>=-eq-done (shutdown_workers (w ∷ ws)) (λ r. done (record pool { workers = r.0 }, r.1))
          e in
      let (none_left, _) = shutdown_workers-returns (w ∷ ws) f in cc none_left,
)
