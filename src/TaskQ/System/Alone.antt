-- ===== src/TaskQ/System/Alone.antt =====
-- One thread of a TaskQ.System (gexecutor/gtaskq.cc) that takes steps while the others stand still.
use gexecutor.Prelude.{
  ℕ, zero, suc, ◌≤◌, length, length-append, arith, ◌≡◌, refl, ap, some, List, [], ◌∷◌, set,
  get_elem?,
}
use mathlib.Core.Path.{subst}
use gexecutor.Pipe.{Pipe}
use gexecutor.TaskQ.{GTaskQ, push_task, num_notifn_to_write, add_outstanding, pop_task}
use gexecutor.TaskQ.System.{
  Thread, System, Step, push, wrote, retried, notified, restored, woken, drained, dequeued, Reach,
  here, next, max_size,
}

set-set : (ts : List Thread) (i : ℕ) (t u : Thread) → set (set ts i t) i u ≡ set ts i u
set-set [] i t u = refl
set-set (x ∷ ts) zero t u = refl
set-set (x ∷ ts) (suc i) t u = ap (λ (us : List Thread). x ∷ us) (set-set ts i t u)

pub set-get_elem? :
    (ts : List Thread) (i : ℕ) (t : Thread) → get_elem? ts i ≡ some t → set ts i t ≡ ts
set-get_elem? [] i t e = refl
set-get_elem? (x ∷ ts) zero t e = cc e
set-get_elem? (x ∷ ts) (suc i) t e = ap (λ (us : List Thread). x ∷ us) (set-get_elem? ts i t e)

module _ {P : Type 0} (io : Pipe P) where
  pub Step-Reach : {s t u : System P} → Step io s t → Reach io t u → Reach io s u
  Step-Reach st here = next here st
  Step-Reach st (next r st') = next (Step-Reach st r) st'

  pub Reach-append : {s t u : System P} → Reach io s t → Reach io t u → Reach io s u
  Reach-append r here = r
  Reach-append r (next q st) = next (Reach-append r q) st

  -- No step makes the queue longer than it may be.
  Step-fits :
      {s t : System P}
      → Step io s t
      → length s.queue.task_queue ≤ max_size
      → length t.queue.task_queue ≤ max_size
  unfolding push_task num_notifn_to_write add_outstanding pop_task
  Step-fits {s} (push i c task e room) h =
      omega (arith, length-append s.queue.task_queue (task ∷ []))
  Step-fits (wrote i c r n k a p p' b e f w) h = h
  Step-fits (retried i c r n k a p p' x e f w y) h = h
  Step-fits (notified i c r n k a e w) h = h
  Step-fits (restored i c a k e) h = ground arith
  Step-fits (woken i p p' b e f w) h = h
  Step-fits (drained i p p' x e f w) h = h
  Step-fits (dequeued i c e) h = ground arith

  pub Reach-fits :
      {s t : System P}
      → Reach io s t
      → length s.queue.task_queue ≤ max_size
      → length t.queue.task_queue ≤ max_size
  Reach-fits here h = h
  Reach-fits (next r st) h = Step-fits st (Reach-fits r h)

  module _ (ts : List Thread) (i : ℕ) where
    abbrev pub at_thread : GTaskQ P → Thread → System P
    at_thread q t = record { queue = q; threads = set ts i t }

    -- A step of the thread, and then the others.
    pub goes_on :
        (q : GTaskQ P) (t : Thread) (q' : GTaskQ P) (t' : Thread) {end : System P}
        → Step io (at_thread q t) (record { queue = q'; threads = set (set ts i t) i t' })
        → Reach io (at_thread q' t') end
        → Reach io (at_thread q t) end
    goes_on q t q' t' st r =
        Step-Reach
          (subst
            (λ (us : List Thread). Step io (at_thread q t) (record { queue = q'; threads = us }))
            (set-set ts i t t') st)
          r
