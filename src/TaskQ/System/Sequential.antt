-- ===== src/TaskQ/System/Sequential.antt =====
-- EnqueueGTask (gexecutor/gtaskq.cc) as the steps that its thread takes when no other thread comes between.
use gexecutor.Prelude.{
  ℕ, zero, suc, ◌+◌, ◌<◌, ◌⊎◌, ◌≡◌, refl, sym, ap, Option, some, List, length, set, get_elem?,
  get_elem?-set_self, done, aborted, undefined, ◌>>=◌, >>=-eq-done, ltb, leb, Bool-cases,
  Option-cases, arith, inl, inr,
}
use mathlib.Core.Path.{subst}
use gexecutor.Pipe.{Pipe, IoResult-cases}
use gexecutor.TaskQ.{
  GTaskQ, GTaskSharedPtr, u64, u64_sub, push_task, notify_q, notify_loop, add_outstanding,
  enqueue_gtask, is_retried,
}
use gexecutor.TaskQ.System.Alone.{set-get_elem?, Step-Reach, Reach-append, at_thread, goes_on}
use gexecutor.TaskQ.System.{
  Stage, running, notifying, restoring, Thread, thread, System, max_size, after_notify, with_pipe,
  push, wrote, retried, notified, restored, Reach, here,
}

module _ {P : Type 0} (io : Pipe P) where
  module _ (ts : List Thread) (i c : ℕ) (u : Thread) (there : get_elem? ts i ≡ some u) where
    abbrev at_stage : GTaskQ P → Stage → System P
    at_stage q stage = at_thread io ts i q (thread c stage)

    stands : (stage : Stage) → get_elem? (set ts i (thread c stage)) i ≡ some (thread c stage)
    stands stage = get_elem?-set_self ts i (thread c stage) there

    -- The end of NotifyQ, and what EnqueueGTask does next.
    stops :
        (retry n k a : ℕ) (q : GTaskQ P) (p : P) (r : ℕ × P)
        → (retry ≡ 0) ⊎ (n ≡ 0)
        → done (k, p) ≡ done r
        → Reach io
            (at_stage (with_pipe io q p) (notifying retry n k a))
            (at_stage (with_pipe io q r.1) (after_notify a r.0))
    stops retry n k a q p r h e =
        subst
          (λ (r : ℕ × P).
            Reach io (at_stage (with_pipe io q p) (notifying retry n k a))
              (at_stage (with_pipe io q r.1) (after_notify a r.0)))
          (cc e)
          (goes_on io ts i _ _ _ (thread c (after_notify a k))
            (notified i c retry n k a (stands _) h) here)

    -- The loop of NotifyQ.
    notify_loop-Reach :
        (retry n k a : ℕ) (q : GTaskQ P) (p : P) (r : ℕ × P)
        → notify_loop io retry n k p ≡ done r
        → Reach io
            (at_stage (with_pipe io q p) (notifying retry n k a))
            (at_stage (with_pipe io q r.1) (after_notify a r.0))
    unfolding notify_loop
    notify_loop-Reach zero n k a q p r e = stops zero n k a q p r (inl refl) e
    notify_loop-Reach (suc retry) zero k a q p r e = stops (suc retry) zero k a q p r (inr refl) e
    notify_loop-Reach (suc retry) (suc n) k a q p r e = elim (IoResult-cases (io.write p (suc n))) [
      | inl (b, p', w) ↦
          goes_on io ts i _ _ _ (thread c (notifying retry (u64_sub (suc n) b) (u64 (k + b)) a))
            (wrote i c retry n k a p p' b (stands _) refl w)
            (notify_loop-Reach retry (u64_sub (suc n) b) (u64 (k + b)) a q p' r
              (ground (arith, e, w)))
      | inr (x, p', w) ↦ elim (Bool-cases (is_retried x)) [
        | inl y ↦
            goes_on io ts i _ _ _ (thread c (notifying retry (suc n) k a))
              (retried i c retry n k a p p' x (stands _) refl w y)
              (notify_loop-Reach retry (suc n) k a q p' r (ground (arith, e, w, y)))
        | inr y ↦ let stopped : aborted ≡ done r = ground (arith, e, w, y) in cc stopped
      ]
    ]

    -- EnqueueGTask after NotifyQ.
    finishes :
        (a k : ℕ) (q : GTaskQ P)
        → Reach io (at_stage q (after_notify a k)) (at_stage (add_outstanding io a k q) running)
    unfolding add_outstanding
    finishes a k q = elim (Bool-cases (ltb 0 (u64_sub a k))) [
      | inl e ↦
          let asked : after_notify a k ≡ restoring a k = rw e refl in
          subst
            (λ (stage : Stage).
              Reach io (at_stage q stage) (at_stage (add_outstanding io a k q) running))
            (sym asked)
            (goes_on io ts i q (thread c (restoring a k)) (add_outstanding io a k q)
              (thread c running) (restored i c a k (stands _)) here)
      | inr e ↦ rw e here
    ]

    notify_q-Reach :
        (n : ℕ) (q : GTaskQ P) (r : ℕ × GTaskQ P)
        → notify_q io n q ≡ done r
        → Reach io (at_stage q (notifying 3 n 0 n)) (at_stage r.1 (after_notify n r.0))
    unfolding notify_q
    notify_q-Reach zero q r e =
        let same : (0, q) ≡ r = cc e in
        subst
          (λ (r : ℕ × GTaskQ P).
            Reach io (at_stage q (notifying 3 zero 0 zero)) (at_stage r.1 (after_notify zero r.0)))
          same
          (goes_on io ts i q _ q (thread c (after_notify zero 0))
            (notified i c 3 zero 0 zero (stands _) (inr refl)) here)
    notify_q-Reach (suc n) q r e = elim (Option-cases q.pipefds) [
      | inl d ↦ let bad : undefined ≡ done r = ground (arith, e, d) in cc bad
      | inr (p, d) ↦ elim (Option-cases q.notfn_buffer) [
        | inl g ↦ let bad : aborted ≡ done r = ground (arith, e, d, g) in cc bad
        | inr (buffer, g) ↦ elim (Bool-cases (leb (suc n) (length buffer))) [
          | inl w ↦
              let loop : (notify_loop io 3 (suc n) 0 p
                    >>= (λ r. done (r.0, record q { pipefds = some r.1 })))
                  ≡ done r =
                ground (arith, e, d, g, w) in
              let (r', f, g') =
                >>=-eq-done (notify_loop io 3 (suc n) 0 p)
                  (λ r. done (r.0, record q { pipefds = some r.1 })) loop in
              let same : (r'.0, with_pipe io q r'.1) ≡ r = cc g' in
              let piped : with_pipe io q p ≡ q =
                ap (λ (o : Option P). record q { pipefds = o }) (sym d) in
              subst
                (λ (q : GTaskQ P).
                  Reach io (at_stage q (notifying 3 (suc n) 0 (suc n)))
                    (at_stage r.1 (after_notify (suc n) r.0)))
                piped
                (subst
                  (λ (r : ℕ × GTaskQ P).
                    Reach io (at_stage (with_pipe io q p) (notifying 3 (suc n) 0 (suc n)))
                      (at_stage r.1 (after_notify (suc n) r.0)))
                  same (notify_loop-Reach 3 (suc n) 0 (suc n) q p r' f))
          | inr w ↦ let bad : undefined ≡ done r = ground (arith, e, d, g, w) in cc bad
        ]
      ]
    ]

  -- A call of EnqueueGTask that returns, with no step of another thread between its own, is an
  -- execution of steps of its thread: they start where the thread is free to call and the queue has
  -- room, and end with the queue that the call leaves, and all threads as they were.
  pub enqueue_gtask-Reach :
      (s : System P) (i c : ℕ) (task : GTaskSharedPtr) (q : GTaskQ P)
      → get_elem? s.threads i ≡ some (thread c running)
      → length s.queue.task_queue < max_size
      → enqueue_gtask io task s.queue ≡ done q
      → Reach io s (record { queue = q; threads = s.threads })
  unfolding enqueue_gtask
  enqueue_gtask-Reach s i c task q there room e =
      let pushed = push_task io task s.queue in
      let (r, f, g) =
        >>=-eq-done (notify_q io pushed.0 pushed.1)
          (λ r. done (add_outstanding io pushed.0 r.0 r.1)) e in
      let ends : add_outstanding io pushed.0 r.0 r.1 ≡ q = cc g in
      let calls : Reach io s (
          at_stage s.threads i c (thread c running) there (add_outstanding io pushed.0 r.0 r.1)
            running) =
        Step-Reach io (push i c task there room) (
          Reach-append io
            (notify_q-Reach s.threads i c (thread c running) there pushed.0 pushed.1 r f)
            (finishes s.threads i c (thread c running) there pushed.0 r.0 r.1)) in
      let back : (add_outstanding io pushed.0 r.0 r.1, set s.threads i (thread c running))
          ≡ (q, s.threads) =
        cc (ends, set-get_elem? s.threads i (thread c running) there) in
      subst (λ (x : GTaskQ P × List Thread). Reach io s (record { queue = x.0; threads = x.1 }))
        back calls
