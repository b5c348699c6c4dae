-- ===== src/TaskQ/System/LostWakeup.antt =====
-- How a task is left in the queue with no thread to run it (gexecutor/gtaskq.cc): a thread that finds
-- the pipe full gives its notification up.
use gexecutor.Prelude.{
  ℕ, zero, suc, ◌+◌, ◌-◌, sym, ◌≤◌, ◌<◌, ◌≡◌, refl, some, [], ◌∷◌, length, arith,
}
use gexecutor.Pipe.{bounded, bytes, bounded_read, bounded_read_lem}
use gexecutor.TaskQ.System.{
  running, restoring, thread, System, max_size, read_size, woken, Reach, here, next,
}
use gexecutor.TaskQ.System.Safety.{start}
use gexecutor.TaskQ.System.Moves.{
  At, pushes, writes, retries, returns, gives_up, restores, dequeues,
}

module _ (cap : ℕ) where
  abbrev pub Reached : (k b c m : ℕ) → Type 0
  Reached k b c m = (t : System ℕ) × Reach (bounded cap) (start 1 0) t × At k b c m running t

  -- A read that returns n of the bytes.
  pub wakes :
      {k b m : ℕ} (n : ℕ)
      → Reached k b 0 m
      → bounded_read b read_size ≡ (bytes n, b - n)
      → Reached k (b - n) n m
  wakes {b = b} n (s, r, v) read = (
    _,
    next r (woken 0 b (b - n) n (ground (arith, v.alone)) v.pipe read),
    record {
      tasks = v.tasks;
      pipe = refl;
      alone = rw v.alone;
      settled = v.settled;
      limit = v.limit;
    },
  )

  begins : Reached 0 0 0 0
  unfolding start
  begins =
      (_, here, record { tasks = refl; pipe = refl; alone = refl; settled = refl; limit = refl })

  -- A task for which there is room in the pipe.
  sends : {k b : ℕ} → Reached k b 0 0 → k < max_size → b < cap → Reached (suc k) (suc b) 0 0
  sends (s, r, v) fits room =
      let (s1, e1, v1) = pushes cap v fits (omega arith) in
      let (s2, e2, v2) = writes cap 2 v1 room in
      let (s3, e3, v3) = returns cap 2 v2 in (s3, next (next (next r e1) e2) e3, v3)

  pub fills : (n : ℕ) → n ≤ cap → n < max_size → Reached n n 0 0
  fills zero h few = begins
  fills (suc n) h few = sends (fills n (omega arith) (omega arith)) (omega arith) (omega arith)

  -- A task for which there is none: its notification is given up.
  pub refused :
      {k : ℕ}
      → Reached k cap 0 0
      → k < max_size
      → (t : System ℕ) × Reach (bounded cap) (start 1 0) t × At (suc k) cap 0 0 (restoring 1 0) t
  refused (s, r, v) fits =
      let (s1, e1, v1) = pushes cap v fits (omega arith) in
      let (s2, e2, v2) = retries cap 2 v1 (omega arith) in
      let (s3, e3, v3) = retries cap 1 v2 (omega arith) in
      let (s4, e4, v4) = retries cap 0 v3 (omega arith) in
      let (s5, e5, v5) = gives_up cap v4 in
      (s5, next (next (next (next (next r e1) e2) e3) e4) e5, v5)

  overflows : {k : ℕ} → Reached k cap 0 0 → k < max_size → Reached (suc k) cap 0 1
  overflows begun fits =
      let (s, r, v) = refused begun fits in
      let (s', e, v') = restores cap v (omega arith) in (s', next r e, v')

  recounts : {j k b c m : ℕ} → j ≡ k → Reached j b c m → Reached k b c m
  recounts e r = rw (sym e) r

  drains : (n b : ℕ) → Reached (n + suc b) b n 1 → Reached (suc b) b 0 1
  drains zero b r = recounts (omega arith) r
  drains (suc n) b r =
      let (s, q, v) = recounts {k = suc (n + suc b)} (omega arith) r in
      let (s1, e1, v1) = dequeues cap v in drains n b (s1, next q e1, v1)

  -- The reads and dequeues until the pipe is empty.
  empties : (fuel b : ℕ) → b ≤ fuel → Reached (suc b) b 0 1 → Reached 1 0 0 1
  empties fuel zero h r = r
  empties zero (suc b) h r = absurd (omega (arith, h))
  empties (suc fuel) (suc b) h r =
      let (n, some_bytes, within, read) =
        bounded_read_lem (suc b) read_size (omega arith) (omega arith) in
      let credited : Reached (n + suc (suc b - n)) (suc b - n) n 1 =
        recounts (omega (arith, within)) (wakes n r read) in
      empties fuel (suc b - n) (omega (arith, some_bytes, h)) (drains n (suc b - n) credited)

  -- A full pipe, and one task more.
  pub overfull : cap < max_size → Reached (suc cap) cap 0 1
  overfull few = overflows (fills cap (omega arith) few) few

-- With a pipe of any capacity below the greatest size of the queue there is an execution of one
-- thread from a new queue after which the pipe is empty, the thread has nothing left to do, and a
-- task is still in the queue.
pub lost_wakeup :
    (cap : ℕ)
    → cap < max_size
    → (s : System ℕ) × Reach (bounded cap) (start 1 0) s
      × (length s.queue.task_queue ≡ 1)
      × (s.queue.pipefds ≡ some 0)
      × (s.threads ≡ thread 0 running ∷ [])
lost_wakeup cap few =
    let (t, r, v) = empties cap cap cap (omega arith) (overfull cap few) in
    (t, r, v.tasks, v.pipe, v.alone)
