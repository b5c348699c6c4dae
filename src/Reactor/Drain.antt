-- ===== src/Reactor/Drain.antt =====
-- The whole loop of taskq_cb (gexecutor/gasync_executor.cc), on a pipe that holds one byte for each
-- task of its queue.
use gexecutor.Prelude.{
  ℕ, zero, suc, ◌-◌, ◌≤◌, ◌<◌, ◌≡◌, ◌≢◌, refl, sym, ap, ◌∙◌, true, Option, none, some, List, [],
  ◌∷◌, ◌++◌, map, length, length-append, Outcome, done, arith, lt→ltb,
}
use gexecutor.Pipe.{IoResult, bounded, bounded_read, bounded_read_lem, bytes}
use gexecutor.Task.{GTask}
use gexecutor.TaskQ.{pop_task}
use gexecutor.Store.{Store, update}
use gexecutor.Reactor.{Reactor, started, after_read, run_tasks, read_loop, taskq_cb, msg_size}
use gexecutor.Reactor.Dispatch.{taken, run_tasks-head}

-- A task that is not among these.
abbrev pub Absent : ℕ → List ℕ → Type 0
Absent t [] = Unit {0}
Absent t (u ∷ us) = (t ≢ u) × Absent t us

-- Each of these tasks is there once and has not run yet.
abbrev pub Fresh : {B : Type 0} → (ℕ → GTask B) → List ℕ → Type 0
Fresh tasks [] = Unit {0}
Fresh tasks (t ∷ ts) = ((tasks t).exec_task_q ≡ none) × Absent t ts × Fresh tasks ts

update-Fresh :
    {B : Type 0} (tasks : ℕ → GTask B) (t : ℕ) (task : GTask B) (ts : List ℕ)
    → Absent t ts
    → Fresh tasks ts
    → Fresh (update tasks t task) ts
update-Fresh tasks t task [] a v = tt
update-Fresh tasks t task (u ∷ us) a v =
    (ground (arith, a.0, v.0), v.1, update-Fresh tasks t task us a.1 v.2)

splits : (k : ℕ) (ts : List ℕ) → k ≤ length ts → (a b : List ℕ) × (ts ≡ a ++ b) × (length a ≡ k)
splits zero ts h = ([], ts, refl, refl)
splits (suc k) [] h = absurd (omega (arith, h))
splits (suc k) (t ∷ ts) h =
    let (a, b, e, n) = splits k ts (omega (arith, h)) in
    (t ∷ a, b, ap (λ (xs : List ℕ). t ∷ xs) e, ap suc n)

-- What one read takes of the bytes for the tasks ts, and the tasks that it is for.
takes :
    (ts : List ℕ)
    → 0 < length ts
    → (a b : List ℕ) × (ts ≡ a ++ b)
      × (0 < length a)
      × (length b < length ts)
      × (bounded_read (length ts) msg_size ≡ (bytes (length a), length b))
takes ts h =
    let (k, some_bytes, within, read) = bounded_read_lem (length ts) msg_size h (omega arith) in
    let (a, b, split, count) = splits k ts within in
    let rest : length b ≡ length ts - k =
      omega (arith, count, ap length split, length-append a b) in
    (
      a,
      b,
      split,
      omega (arith, count, some_bytes),
      omega (arith, rest, some_bytes, h),
      rw (count, rest) read,
    )

module _ {W : Type 0} (f : ℕ → W → W) where
  -- The effects of these tasks, the first one first.
  abbrev pub applied : List ℕ → W → W
  applied [] w = w
  applied (t ∷ ts) w = applied ts (f t w)

  applied-append : (a b : List ℕ) (w : W) → applied (a ++ b) w ≡ applied b (applied a w)
  applied-append [] b w = refl
  applied-append (t ∷ a) b w = applied-append a b (f t w)

module _ {B W : Type 0} (f : ℕ → W → W) where
  -- An Execute that only changes the state of the application.
  abbrev pub effect : {P : Type 0} → ℕ → Store B P W → Outcome (Store B P W)
  effect t s = done (record s { world = f t s.world })

  module _ (cap : ℕ) (r : Reactor) where
    -- What is left of the tasks ts, after the store was s.
    record Left (ts : List ℕ) (w : W) (p : Option ℕ) (s : Store B ℕ W) : Type 0 where
      queue : (s.queues r.taskq).task_queue ≡ map some ts
      fresh : Fresh s.tasks ts
      world : s.world ≡ w
      pipe : (s.queues r.taskq).pipefds ≡ p

    ran : (t : ℕ) → Store B ℕ W → Store B ℕ W
    ran t s = record (started (bounded cap) effect r t (taken r.taskq t s)) { world = f t s.world }

    ran-Left :
        (t : ℕ) (ts : List ℕ) (w : W) (p : Option ℕ) (s : Store B ℕ W)
        → Left (t ∷ ts) w p s
        → Left ts (f t w) p (ran t s)
    unfolding ran pop_task
    ran-Left t ts w p s v = record {
      queue = ground (arith, v.queue);
      fresh = update-Fresh _ t _ ts v.fresh.1 (update-Fresh s.tasks t _ ts v.fresh.1 v.fresh.2);
      world = ap (f t) v.world;
      pipe = ground (arith, v.queue, v.pipe);
    }

    runs :
        (a b : List ℕ) (w : W) (p : Option ℕ) (s : Store B ℕ W)
        → Left (a ++ b) w p s
        → (s' : Store B ℕ W) × (run_tasks (bounded cap) effect r (length a) s ≡ done s')
          × Left b (applied f a w) p s'
    unfolding run_tasks ran
    runs [] b w p s v = (s, refl, v)
    runs (t ∷ a) b w p s v =
        let (s', e, v') = runs a b (f t w) p (ran t s) (ran-Left t (a ++ b) w p s v) in
        (
          s',
          rw
              (run_tasks-head (bounded cap) effect r (length a) t (map some (a ++ b)) s v.queue
                v.fresh.0)
              e,
          v',
        )

    -- One read and its tasks.
    round :
        (fuel n : ℕ) (a b : List ℕ) (w : W) (s : Store B ℕ W)
        → Left (a ++ b) w (some n) s
        → 0 < length a
        → bounded_read n msg_size ≡ (bytes (length a), length b)
        → (s' : Store B ℕ W) × (read_loop (bounded cap) effect r (suc fuel) s
            ≡ read_loop (bounded cap) effect r fuel s')
          × Left b (applied f a w) (some (length b)) s'
    unfolding read_loop
    round fuel n a b w s v some_bytes read =
        let s0 = after_read (bounded cap) effect r s (length b) in
        let v0 : Left (a ++ b) w (some (length b)) s0 = record {
          queue = ground (arith, v.queue);
          fresh = v.fresh;
          world = v.world;
          pipe = ground arith;
        } in
        let (s1, ran1, v1) = runs a b w (some (length b)) s0 v0 in
        let after : run_tasks (bounded cap) effect r (length a)
              (after_read (bounded cap) effect r s (bounded_read n msg_size).1)
            ≡ done s1 =
          ap
            (λ (p : ℕ).
              run_tasks (bounded cap) effect r (length a) (after_read (bounded cap) effect r s p))
            (ap (λ (x : IoResult × ℕ). x.1) read)
          ∙ ran1 in
        (s1, rw (v.pipe, read_loop) (rw read (rw (after, lt→ltb 0 (length a) some_bytes) refl)), v1)

    loops :
        (fuel : ℕ) (ts : List ℕ) (w : W) (s : Store B ℕ W)
        → Left ts w (some (length ts)) s
        → length ts < fuel
        → (s' : Store B ℕ W) × (read_loop (bounded cap) effect r fuel s ≡ some (done s'))
          × Left [] (applied f ts w) (some 0) s'
    unfolding read_loop
    loops zero ts w s v few = absurd (omega (arith, few))
    loops (suc fuel) [] w s v few = (
      after_read (bounded cap) effect r s 0,
      ground (arith, v.pipe),
      record { queue = ground (arith, v.queue); fresh = tt; world = v.world; pipe = ground arith },
    )
    loops (suc fuel) (t ∷ ts) w s v few =
        let (a, b, split, some_bytes, less, read) = takes (t ∷ ts) (omega arith) in
        let (s1, turn, v1) =
          round fuel (length (t ∷ ts)) a b w s (rw (sym split) v) some_bytes read in
        let (s2, ran, v2) = loops fuel b (applied f a w) s1 v1 (omega (arith, less, few)) in
        let effects : applied f b (applied f a w) ≡ applied f (t ∷ ts) w =
          sym (applied-append f a b w) ∙ ap (λ (xs : List ℕ). applied f xs w) (sym split) in
        (
          s2,
          rw turn ran,
          record { queue = v2.queue; fresh = tt; world = v2.world ∙ effects; pipe = v2.pipe },
        )

    -- A queue with tasks that are each there once and have not run, whose pipe holds one byte for
    -- each of them, where Execute only changes the state of the application: with more fuel than
    -- tasks taskq_cb returns, has run every task, in the order of the queue, and leaves the queue
    -- and the pipe empty.
    pub taskq_cb_drains :
        (fuel : ℕ) (ts : List ℕ) (s : Store B ℕ W)
        → (s.queues r.taskq).task_queue ≡ map some ts
        → (s.queues r.taskq).pipefds ≡ some (length ts)
        → Fresh s.tasks ts
        → length ts < fuel
        → (s' : Store B ℕ W) × (taskq_cb (bounded cap) effect r true fuel s ≡ some (done s'))
          × (s'.world ≡ applied f ts s.world)
          × ((s'.queues r.taskq).task_queue ≡ [])
          × ((s'.queues r.taskq).pipefds ≡ some 0)
    unfolding taskq_cb
    taskq_cb_drains fuel ts s queue pipe fresh few =
        let (s', ran, v) =
          loops fuel ts s.world s
            (record { queue = queue; fresh = fresh; world = refl; pipe = pipe }) few in
        (s', ran, v.world, v.queue, v.pipe)
