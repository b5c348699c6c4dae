-- ===== src/TaskQ/System/Progress.antt =====
-- How many steps threads take when no task is pushed, and where they end (gexecutor/gtaskq.cc and taskq_cb of
-- gexecutor/gasync_executor.cc).
use gexecutor.Prelude.{
  ℕ, zero, suc, ◌+◌, ◌≤◌, ◌<◌, ◌≡◌, ◌⊎◌, inl, inr, refl, ap, ◌∙◌, some, List, [], ◌∷◌, length,
  length-set, length-replicate, get_elem?, total, arith, Bool-cases, ◌==◌,
}
use gexecutor.Pipe.{Pipe, PipeLaws, IoResult-cases, bytes}
use gexecutor.TaskQ.{max_notifn}
use gexecutor.TaskQ.Notify.{IsRecoverable}
use gexecutor.TaskQ.System.{
  Stage, running, notifying, restoring, Thread, thread, System, read_size, Step, push, wrote,
  retried, notified, restored, woken, drained, dequeued, Reach, here, next,
}
use gexecutor.TaskQ.System.Safety.{start, start-Inv}
use gexecutor.TaskQ.System.Invariant.{weight, Inv, Step-Inv, Reach-Inv, owed}
use gexecutor.TaskQ.System.Effort.{effort, work, unread, left, IsQuiet, quiet-left}

module _ {P : Type 0} (io : Pipe P) where
  -- An execution of n steps, all of them quiet.
  pub data Quiet (s : System P) : ℕ → System P → Type 0 where
    stay : Quiet s 0 s
    go :
        {n : ℕ} {t u : System P}
        → Quiet s n t
        → (st : Step io t u) → IsQuiet io st
        → Quiet s (suc n) u

  Quiet-Inv :
      PipeLaws io → {s : System P} {n : ℕ} {t : System P} → Quiet s n t → Inv io s → Inv io t
  Quiet-Inv laws stay v = v
  Quiet-Inv laws (go q st h) v = Step-Inv io laws st (Quiet-Inv laws q v)

  Quiet-left :
      PipeLaws io
      → {s : System P} {n : ℕ} {t : System P} → Quiet s n t
      → Inv io s
      → n + left io t ≤ left io s
  Quiet-left laws stay v = omega arith
  Quiet-left laws (go q st h) v =
      omega (arith, Quiet-left laws q v, quiet-left io laws st h (Quiet-Inv laws q v))

  -- A read from a pipe with bytes in it returns some.
  abbrev pub Reads : Type 0
  Reads =
      (p : P)
      → 0 < io.buffered p
      → (b : ℕ) × (p' : P) × (0 < b) × (io.read p read_size ≡ (bytes b, p'))

  abbrev pub Goes : System P → Type 0
  Goes s = (t : System P) × (st : Step io s t) × IsQuiet io st

  -- A thread with something to do can do it.
  works :
      PipeLaws io
      → IsRecoverable io
      → {s : System P} (v : Inv io s) (i c : ℕ) (stage : Stage)
      → get_elem? s.threads i ≡ some (thread c stage)
      → 0 < c + effort stage
      → Goes s
  works laws recoverable v i zero running e h = absurd (omega (arith, h))
  works laws recoverable v i (suc c) running e h = (_, dequeued i c e, tt)
  works laws recoverable v i c (notifying zero n k a) e h =
      (_, notified i c zero n k a e (inl refl), tt)
  works laws recoverable v i c (notifying (suc r) zero k a) e h =
      (_, notified i c (suc r) zero k a e (inr refl), tt)
  works laws recoverable v i c (notifying (suc r) (suc n) k a) e h =
      elim (IoResult-cases (io.write v.pipe (suc n))) [
        | inl (b, p', w) ↦ (_, wrote i c r n k a v.pipe p' b e v.connected w, tt)
        | inr (x, p', w) ↦ (
          _,
          retried i c r n k a v.pipe p' x e v.connected w (recoverable v.pipe p' (suc n) x w),
          tt,
        )
      ]
  works laws recoverable v i c (restoring a k) e h = (_, restored i c a k e, tt)

idle_owes_nothing : (c : ℕ) (stage : Stage) → c + effort stage ≡ 0 → c + owed stage ≡ 0
idle_owes_nothing c running e = omega (arith, e)
idle_owes_nothing c (notifying r n k a) e = absurd (omega (arith, e))
idle_owes_nothing c (restoring a k) e = absurd (omega (arith, e))

idle_is_at_rest : (c : ℕ) (stage : Stage) → c + effort stage ≡ 0 → thread c stage ≡ thread 0 running
idle_is_at_rest c running e = let z : c ≡ 0 = omega (arith, e) in ap (λ (x : ℕ). thread x running) z
idle_is_at_rest c (notifying r n k a) e = absurd (omega (arith, e))
idle_is_at_rest c (restoring a k) e = absurd (omega (arith, e))

-- One of the threads has something to do, or they are all at rest.
busy :
    (ts : List Thread)
    → ((i c : ℕ) × (stage : Stage) × (get_elem? ts i ≡ some (thread c stage))
        × (0 < c + effort stage))
      ⊎ (total work ts ≡ 0)
busy [] = inr refl
busy (t ∷ ts) = elim (Bool-cases (work t == 0)) [
  | inr e ↦ inl (0, t.credit, t.stage, refl, ground arith)
  | inl e ↦ elim (busy ts) [
    | inl (i, c, stage, f, h) ↦ inl (suc i, c, stage, f, h)
    | inr f ↦ inr (ground (arith, f))
  ]
]

pub idle-weight : (ts : List Thread) → total work ts ≡ 0 → total weight ts ≡ 0
idle-weight [] e = refl
idle-weight (t ∷ ts) e = omega (
  arith,
  idle_owes_nothing t.credit t.stage (omega (arith, e)),
  idle-weight ts (omega (arith, e)),
)

first_at_rest :
    (ts : List Thread)
    → 0 < length ts
    → total work ts ≡ 0
    → get_elem? ts 0 ≡ some (thread 0 running)
first_at_rest [] h e = absurd (omega (arith, h))
first_at_rest (t ∷ ts) h e = ap some (idle_is_at_rest t.credit t.stage (omega (arith, e)))

module _ {P : Type 0} (io : Pipe P) where
  -- A thread has something to do, or bytes are unread, or nothing is left to do.
  progress :
      PipeLaws io
      → IsRecoverable io
      → Reads io
      → {s : System P} → Inv io s
      → 0 < length s.threads
      → Goes io s ⊎ (left io s ≡ 0)
  progress laws recoverable reads {s} v many = elim (busy s.threads) [
    | inl (i, c, stage, e, h) ↦ inl (works io laws recoverable v i c stage e h)
    | inr e ↦ elim (Bool-cases (io.buffered v.pipe == 0)) [
      | inl z ↦
          let unread_bytes : unread io s.queue.pipefds ≡ io.buffered v.pipe =
            ap (unread io) v.connected in
          inr (ground arith)
      | inr z ↦
          let (b, p', some_bytes, w) = reads v.pipe (ground arith) in
          inl (_, woken 0 v.pipe p' b (first_at_rest s.threads many e) v.connected w, some_bytes)
    ]
  ]

  Step-length : {s t : System P} → Step io s t → length t.threads ≡ length s.threads
  Step-length {s} (push i c task e room) = length-set s.threads i _
  Step-length {s} (wrote i c r n k a p p' b e f w) = length-set s.threads i _
  Step-length {s} (retried i c r n k a p p' x e f w y) = length-set s.threads i _
  Step-length {s} (notified i c r n k a e w) = length-set s.threads i _
  Step-length {s} (restored i c a k e) = length-set s.threads i _
  Step-length {s} (woken i p p' b e f w) = length-set s.threads i _
  Step-length (drained i p p' x e f w) = refl
  Step-length {s} (dequeued i c e) = length-set s.threads i _

  Reach-length : {s t : System P} → Reach io s t → length t.threads ≡ length s.threads
  Reach-length here = refl
  Reach-length (next r st) = Step-length st ∙ Reach-length r

  Quiet-Reach : {s t : System P} {k : ℕ} → Quiet io s k t → Reach io s t
  Quiet-Reach stay = here
  Quiet-Reach (go q st h) = next (Quiet-Reach q) st

  Quiet-first :
      {s t u : System P} {k : ℕ}
      → (st : Step io s t) → IsQuiet io st
      → Quiet io t k u
      → Quiet io s (suc k) u
  Quiet-first st h stay = go stay st h
  Quiet-first st h (go q st' h') = go (Quiet-first st h q) st' h'

  -- Nothing is left to do, and as many tasks are left as notifications were given up.
  abbrev pub AtRest : System P → Type 0
  AtRest s =
      (left io s ≡ 0) × (length s.queue.task_queue + max_notifn ≡ s.queue.max_outstanding_notifn)

  idle-AtRest : {s : System P} → Inv io s → left io s ≡ 0 → AtRest s
  idle-AtRest {s} v e =
      let unread_bytes : unread io s.queue.pipefds ≡ io.buffered v.pipe =
        ap (unread io) v.connected in
      (e, omega (arith, v.balance, idle-weight s.threads (omega (arith, e))))

  -- A way to rest.
  abbrev pub Rests : System P → Type 0
  Rests s = (end : System P) × (j : ℕ) × Quiet io s j end × AtRest end

  rests :
      PipeLaws io
      → IsRecoverable io
      → Reads io
      → (fuel : ℕ) {s : System P} → Inv io s
      → 0 < length s.threads
      → left io s < fuel
      → Rests s
  rests laws recoverable reads zero v many few = absurd (omega (arith, few))
  rests laws recoverable reads (suc fuel) {s} v many few =
      elim (progress laws recoverable reads v many) [
        | inr e ↦ (s, 0, stay, idle-AtRest v e)
        | inl (t, st, h) ↦
            let (end, j, q, r) =
              rests laws recoverable reads fuel (Step-Inv io laws st v)
                (omega (arith, many, Step-length st))
                (omega (arith, few, quiet-left io laws st h v)) in
            (end, suc j, Quiet-first st h q, r)
      ]

  -- What n threads do from any state that they reach from a new queue with an empty pipe, where n is
  -- not 0, a failed write can be retried and a read of a pipe with bytes returns some: when no task
  -- is pushed, they take at most `left` steps but for reads of nothing. While they have not come to
  -- rest one of them can take such a step, and they can all come to rest; when they have, all
  -- notifications are written, all bytes are read, and the tasks in the queue are as many as the
  -- notifications that were given up.
  pub comes_to_rest :
      PipeLaws io
      → IsRecoverable io
      → Reads io
      → (n : ℕ) (p : P) → 0 < n
      → io.buffered p ≡ 0
      → {s t : System P} {k : ℕ} → Reach io (start n p) s
      → Quiet io s k t
      → (k + left io t ≤ left io s) × (Goes io t ⊎ AtRest t) × Rests t
  unfolding start
  comes_to_rest laws recoverable reads n p many empty {s} {t} r q =
      let v = Reach-Inv io laws r (start-Inv io n p empty) in
      let u = Quiet-Inv io laws q v in
      let counted : length t.threads ≡ n =
        Reach-length (Quiet-Reach q) ∙ Reach-length r ∙ length-replicate n (thread 0 running) in
      let some_thread : 0 < length t.threads = omega (arith, counted, many) in
      (
        Quiet-left io laws q v,
        elim (progress laws recoverable reads u some_thread) [
          | inl g ↦ inl g
          | inr e ↦ inr (idle-AtRest u e)
        ],
        rests laws recoverable reads (suc (left io t)) u some_thread (omega arith),
      )
