-- ===== src/TaskQ/Notify.antt =====
-- num_notifn_to_write and NotifyQ of gexecutor/gtaskq.cc.
use gexecutor.Prelude.{
  ℕ, zero, suc, ◌+◌, ◌^◌, ◌≤◌, ◌<◌, ◌≡◌, ◌⊎◌, inl, inr, refl, true, done, arith, ◌==◌, Bool-cases,
}
use gexecutor.Pipe.{bounded, Pipe, PipeLaws, Errno, failed, IoResult-cases}
use gexecutor.TaskQ.{GTaskQ, num_notifn_to_write, notify_loop, is_retried, u64, u64_sub}

-- Where size_t does not wrap around, num_notifn_to_write splits the old and the new notifications
-- into those to write now, at most max_outstanding_notifn_, and those that it remembers. It
-- remembers some only if it writes as many as it may.
num_notifn_to_write_lem :
    {P : Type 0} (n : ℕ) (q : GTaskQ P)
    → q.num_outstanding_notifn + n < 2 ^ 64
    → let r = num_notifn_to_write n q in
      (r.0 + r.1.num_outstanding_notifn ≡ q.num_outstanding_notifn + n)
      × (r.0 ≤ q.max_outstanding_notifn)
      × ((r.1.num_outstanding_notifn ≡ 0) ⊎ (r.0 ≡ q.max_outstanding_notifn))
unfolding num_notifn_to_write
num_notifn_to_write_lem n q h = ground arith

module _ {P : Type 0} (io : Pipe P) where
  -- What a pipe with a reader promises: a write that fails may be tried again.
  abbrev pub IsRecoverable : Type 0
  IsRecoverable =
      (p p' : P) (n : ℕ) (e : Errno) → io.write p n ≡ (failed e, p') → is_retried e ≡ true

  -- A call that got from `num_notified` written and `num_notifn` to write to the result.
  abbrev pub Notified : (num_notifn num_notified : ℕ) → P → ℕ × P → Type 0
  Notified num_notifn num_notified p r =
      (num_notified ≤ r.0)
      × (r.0 ≤ num_notified + num_notifn)
      × (io.buffered r.1 + num_notified ≡ io.buffered p + r.0)

  module _ (laws : PipeLaws io) (recoverable : IsRecoverable) where
    -- The loop of NotifyQ, on a pipe whose failures may be tried again and with any number of
    -- retries left, ends without an assertion: what it returns is what was written before and as
    -- many bytes as the pipe has got more, at most what was asked for.
    pub notify_loop_lem :
        (retry n k : ℕ) (p : P)
        → n + k < 2 ^ 64
        → (r : ℕ × P) × (notify_loop io retry n k p ≡ done r) × Notified n k p r
    unfolding notify_loop
    notify_loop_lem zero n k p h = ((k, p), refl, omega arith)
    notify_loop_lem (suc retry) n k p h = elim (Bool-cases (n == 0)) [
      | inl e ↦ ((k, p), rw (e, notify_loop), omega arith)
      | inr e ↦ elim (IoResult-cases (io.write p n)) [
        | inl (b, p', w) ↦
            let law : (b ≤ n) × (io.buffered p' ≡ io.buffered p + b) =
              laws.write_bytes p p' n b w in
            let (r, q, post) = notify_loop_lem retry (u64_sub n b) (u64 (k + b)) p' (omega arith) in
            (r, ground arith, omega arith)
        | inr (x, p', w) ↦
            let law : io.buffered p' ≡ io.buffered p = laws.write_failed p p' n x w in
            let (r, q, post) = notify_loop_lem retry n k p' h in
            (r, ground (arith, recoverable p p' n x w), omega arith)
      ]
    ]

pub bounded-IsRecoverable : (cap : ℕ) → IsRecoverable (bounded cap)
bounded-IsRecoverable cap p p' n e h = ground arith
