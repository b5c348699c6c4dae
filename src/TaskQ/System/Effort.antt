-- ===== src/TaskQ/System/Effort.antt =====
-- How much threads have left to do when no task is pushed (gexecutor/gtaskq.cc and taskq_cb of
-- gexecutor/gasync_executor.cc).
use gexecutor.Prelude.{
  ℕ, suc, ◌+◌, ◌≤◌, ◌<◌, ◌≡◌, refl, ap, ◌∙◌, none, some, Option, get_elem?, set, total, total-set,
  le-total, arith,
}
use gexecutor.Pipe.{Pipe, PipeLaws}
use gexecutor.TaskQ.{GTaskQ, add_outstanding}
use gexecutor.TaskQ.System.{
  Stage, running, notifying, restoring, Thread, thread, System, read_size, Step, push, wrote,
  retried, notified, restored, woken, drained, dequeued,
}
use gexecutor.TaskQ.System.Invariant.{weight, Inv, StageOk, AllOk-get, pop_task_shrinks}

-- A bound on the steps that a thread will take: a byte that it writes is a read and a dequeue more.
abbrev pub effort : Stage → ℕ
effort running = 0
effort (notifying r n k a) = r + n + n + 2
effort (restoring a k) = 1

abbrev pub work : Thread → ℕ
work t = t.credit + effort t.stage

module _ {P : Type 0} (io : Pipe P) where
  abbrev pub unread : Option P → ℕ
  unread none = 0
  unread (some p) = io.buffered p

  abbrev pub left : System P → ℕ
  left s = unread s.queue.pipefds + unread s.queue.pipefds + total work s.threads

  -- A step that brings no task, and that is not a read of nothing.
  abbrev pub IsQuiet : {s t : System P} → Step io s t → Type 0
  IsQuiet (push i c task e room) = ⊥
  IsQuiet (wrote i c r n k a p p' b e f w) = Unit {0}
  IsQuiet (retried i c r n k a p p' x e f w y) = Unit {0}
  IsQuiet (notified i c r n k a e w) = Unit {0}
  IsQuiet (restored i c a k e) = Unit {0}
  IsQuiet (woken i p p' b e f w) = 0 < b
  IsQuiet (drained i p p' x e f w) = ⊥
  IsQuiet (dequeued i c e) = Unit {0}

  -- Thread i becomes t and the pipe p': it is enough that the change lowers the sum.
  move-left :
      (s : System P) (i : ℕ) (u t : Thread) (o : Option P) (p p' : P)
      → get_elem? s.threads i ≡ some u
      → s.queue.pipefds ≡ some p
      → o ≡ some p'
      → io.buffered p' + io.buffered p' + work t < io.buffered p + io.buffered p + work u
      → unread o + unread o + total work (set s.threads i t) < left s
  move-left s i u t o p p' e f g h =
      let before : unread s.queue.pipefds ≡ io.buffered p = ap unread f in
      let after : unread o ≡ io.buffered p' = ap unread g in
      omega (arith, total-set work s.threads i t e)

  add_outstanding-pipefds :
      (a k : ℕ) (q : GTaskQ P) → (add_outstanding io a k q).pipefds ≡ q.pipefds
  unfolding add_outstanding
  add_outstanding-pipefds a k q = ground arith

  pub quiet-left :
      PipeLaws io → {s t : System P} → (st : Step io s t) → IsQuiet st → Inv io s → left t < left s
  quiet-left laws (push i c task e room) h v = absurd h
  quiet-left laws {s} (wrote i c r n k a p p' b e f w) h v =
      let law : (b ≤ suc n) × (io.buffered p' ≡ io.buffered p + b) =
        laws.write_bytes p p' (suc n) b w in
      let ok : StageOk (notifying (suc r) (suc n) k a) = AllOk-get s.threads i c _ e v.stages in
      move-left s i _ _ _ p p' e f refl (omega arith)
  quiet-left laws {s} (retried i c r n k a p p' x e f w y) h v =
      let law : io.buffered p' ≡ io.buffered p = laws.write_failed p p' (suc n) x w in
      move-left s i _ _ _ p p' e f refl (omega arith)
  quiet-left laws {s} (notified i c r n k a e w) h v =
      move-left s i _ _ _ v.pipe v.pipe e v.connected v.connected (ground arith)
  quiet-left laws {s} (restored i c a k e) h v =
      move-left s i _ _ _ v.pipe v.pipe e v.connected
        (add_outstanding-pipefds a k s.queue ∙ v.connected) (omega arith)
  quiet-left laws {s} (woken i p p' b e f w) h v =
      let law : (b ≤ read_size) × (io.buffered p ≡ io.buffered p' + b) =
        laws.read_bytes p p' read_size b w in
      move-left s i _ _ _ p p' e f refl (omega arith)
  quiet-left laws (drained i p p' x e f w) h v = absurd h
  quiet-left laws {s} (dequeued i c e) h v =
      let part : weight (thread (suc c) running) < suc (total weight s.threads) =
        le-total weight s.threads i e in
      let (_, f, _, _) = pop_task_shrinks s.queue (omega (arith, v.balance, v.limit)) in
      move-left s i _ _ _ v.pipe v.pipe e v.connected (f ∙ v.connected) (omega arith)
