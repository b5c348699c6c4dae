-- ===== src/TaskQ/System/Invariant.antt =====
-- Where every notification is: the count that each interleaving keeps.
use gexecutor.Prelude.{
  ℕ, zero, suc, ◌+◌, ◌^◌, ◌≤◌, ◌<◌, ◌≡◌, refl, ap, ◌∙◌, none, some, Option, List, [], ◌∷◌, ◌++◌,
  length, get_elem?, set, total, total-set, le-total, arith, length-append,
}
use mathlib.Core.Path.{subst}
use gexecutor.Pipe.{Pipe, PipeLaws}
use gexecutor.TaskQ.{
  GTaskQ, max_notifn, u64_sub, push_task, add_outstanding, pop_task, num_notifn_to_write,
}
use gexecutor.TaskQ.System.{
  Stage, running, notifying, restoring, Thread, thread, System, max_size, read_size, after_notify,
  Step, push, wrote, retried, notified, restored, woken, drained, dequeued, Reach, here, next,
}

-- The notifications that a thread owes for a task it has pushed.
abbrev pub owed : Stage → ℕ
owed running = 0
owed (notifying r n k a) = n
owed (restoring a k) = u64_sub a k

-- With the dequeues it has read bytes for.
abbrev pub weight : Thread → ℕ
weight t = t.credit + owed t.stage

abbrev pub StageOk : Stage → Type 0
StageOk running = Unit {0}
StageOk (notifying r n k a) = (a ≡ n + k) × (a < 2 ^ 64)
StageOk (restoring a k) = 0 < u64_sub a k

abbrev pub AllOk : List Thread → Type 0
AllOk [] = Unit {0}
AllOk (t ∷ ts) = StageOk t.stage × AllOk ts

AllOk-set :
    (ts : List Thread) (i : ℕ) (t : Thread) → AllOk ts → StageOk t.stage → AllOk (set ts i t)
AllOk-set [] i t a h = tt
AllOk-set (x ∷ ts) zero t a h = (h, a.1)
AllOk-set (x ∷ ts) (suc i) t a h = (a.0, AllOk-set ts i t a.1 h)

stage_of : Option Thread → Stage
stage_of none = running
stage_of (some t) = t.stage

pub AllOk-get :
    (ts : List Thread) (i c : ℕ) (st : Stage)
    → get_elem? ts i ≡ some (thread c st)
    → AllOk ts
    → StageOk st
unfolding stage_of
AllOk-get [] i c st e a = ground arith
AllOk-get (x ∷ ts) zero c st e a = subst StageOk (ap (λ (o : Option Thread). stage_of o) e) a.0
AllOk-get (x ∷ ts) (suc i) c st e a = AllOk-get ts i c st e a.1

pub pop_task_shrinks :
    {P : Type 0} (q : GTaskQ P)
    → 0 < length q.task_queue
    → let r = (pop_task q).1 in
      (length r.task_queue + 1 ≡ length q.task_queue)
      × (r.pipefds ≡ q.pipefds)
      × (r.num_outstanding_notifn ≡ q.num_outstanding_notifn)
      × (r.max_outstanding_notifn ≡ q.max_outstanding_notifn)
unfolding pop_task
pop_task_shrinks q h = grind arith

module _ {P : Type 0} (io : Pipe P) where
  pub record Inv (s : System P) : Type 0 where
    pub pipe : P
    pub connected : s.queue.pipefds ≡ some pipe
    pub settled : s.queue.num_outstanding_notifn ≡ 0
    pub limit : max_notifn ≤ s.queue.max_outstanding_notifn
    pub fits : length s.queue.task_queue ≤ max_size
    pub balance :
        length s.queue.task_queue + max_notifn
        ≡ io.buffered pipe + total weight s.threads + s.queue.max_outstanding_notifn
    pub stages : AllOk s.threads

  -- Thread i becomes t and the queue q', with the pipe p': it is enough that the change balances.
  move-Inv :
      {s : System P} (v : Inv s) (i : ℕ) (u t : Thread) (q' : GTaskQ P) (p' : P)
      → get_elem? s.threads i ≡ some u
      → q'.pipefds ≡ some p'
      → q'.num_outstanding_notifn ≡ 0
      → s.queue.max_outstanding_notifn ≤ q'.max_outstanding_notifn
      → length q'.task_queue ≤ max_size
      → length q'.task_queue + io.buffered v.pipe + weight u + s.queue.max_outstanding_notifn
        ≡ length s.queue.task_queue + io.buffered p' + weight t + q'.max_outstanding_notifn
      → StageOk t.stage
      → Inv (record { queue = q'; threads = set s.threads i t })
  move-Inv {s} v i u t q' p' e f z m l b ok = record {
    pipe = p';
    connected = f;
    settled = z;
    limit = omega arith;
    fits = l;
    balance = omega (arith, total-set weight s.threads i t e);
    stages = AllOk-set s.threads i t v.stages ok;
  }

  -- Every step keeps the balance.
  pub Step-Inv : PipeLaws io → {s t : System P} → Step io s t → Inv s → Inv t
  unfolding push_task num_notifn_to_write add_outstanding pop_task
  Step-Inv laws {s} (push i c task e room) v =
      let more : length (s.queue.task_queue ++ task ∷ []) ≡ length s.queue.task_queue + 1 =
        length-append s.queue.task_queue (task ∷ []) in
      let one : (push_task io task s.queue).0 ≡ 1 = ground arith in
      move-Inv v i _ _ _ v.pipe e v.connected (ground arith) (omega arith) (omega arith)
        (omega arith) (omega arith)
  Step-Inv laws {s} (wrote i c r n k a p p' b e f w) v =
      let law : (b ≤ suc n) × (io.buffered p' ≡ io.buffered p + b) =
        laws.write_bytes p p' (suc n) b w in
      let same : v.pipe ≡ p = cc (v.connected, f) in
      let ok : StageOk (notifying (suc r) (suc n) k a) = AllOk-get s.threads i c _ e v.stages in
      move-Inv v i _ _ _ p' e refl v.settled (omega arith) v.fits
        (omega (arith, ap io.buffered same)) (omega arith)
  Step-Inv laws {s} (retried i c r n k a p p' x e f w y) v =
      let law : io.buffered p' ≡ io.buffered p = laws.write_failed p p' (suc n) x w in
      let same : v.pipe ≡ p = cc (v.connected, f) in
      move-Inv v i _ _ _ p' e refl v.settled (omega arith) v.fits
        (omega (arith, ap io.buffered same)) (AllOk-get s.threads i c _ e v.stages)
  Step-Inv laws {s} (notified i c r n k a e w) v =
      let ok : StageOk (notifying r n k a) = AllOk-get s.threads i c _ e v.stages in
      let same : owed (after_notify a k) ≡ n = ground arith in
      move-Inv v i _ _ _ v.pipe e v.connected v.settled (omega arith) v.fits (omega arith)
        (ground arith)
  Step-Inv laws {s} (restored i c a k e) v =
      let part : weight (thread c (restoring a k)) < suc (total weight s.threads) =
        le-total weight s.threads i e in
      move-Inv v i _ _ _ v.pipe e (ground arith) (ground arith) (ground arith) (ground arith)
        (ground arith) tt
  Step-Inv laws {s} (woken i p p' b e f w) v =
      let law : (b ≤ read_size) × (io.buffered p ≡ io.buffered p' + b) =
        laws.read_bytes p p' read_size b w in
      let same : v.pipe ≡ p = cc (v.connected, f) in
      move-Inv v i _ _ _ p' e refl v.settled (omega arith) v.fits
        (omega (arith, ap io.buffered same)) tt
  Step-Inv laws {s} (drained i p p' x e f w) v =
      let law : io.buffered p' ≡ io.buffered p = laws.read_failed p p' read_size x w in
      let same : v.pipe ≡ p = cc (v.connected, f) in
      record {
        pipe = p';
        connected = refl;
        settled = v.settled;
        limit = v.limit;
        fits = v.fits;
        balance = omega (arith, ap io.buffered same);
        stages = v.stages;
      }
  Step-Inv laws {s} (dequeued i c e) v =
      let part : weight (thread (suc c) running) < suc (total weight s.threads) =
        le-total weight s.threads i e in
      let (shrinks, f, z, m) = pop_task_shrinks s.queue (omega arith) in
      move-Inv v i _ _ _ v.pipe e (f ∙ v.connected) (z ∙ v.settled) (omega arith) (omega arith)
        (omega arith) tt

  pub Reach-Inv : PipeLaws io → {s t : System P} → Reach io s t → Inv s → Inv t
  Reach-Inv laws here v = v
  Reach-Inv laws (next r st) v = Step-Inv laws st (Reach-Inv laws r v)

  -- No step lowers the limit.
  pub Step-limit :
      {s t : System P}
      → Step io s t
      → Inv s
      → s.queue.max_outstanding_notifn ≤ t.queue.max_outstanding_notifn
  unfolding push_task num_notifn_to_write add_outstanding pop_task
  Step-limit (push i c task e room) v = omega arith
  Step-limit (wrote i c r n k a p p' b e f w) v = omega arith
  Step-limit (retried i c r n k a p p' x e f w y) v = omega arith
  Step-limit (notified i c r n k a e w) v = omega arith
  Step-limit {s} (restored i c a k e) v =
      let part : weight (thread c (restoring a k)) < suc (total weight s.threads) =
        le-total weight s.threads i e in
      ground arith
  Step-limit (woken i p p' b e f w) v = omega arith
  Step-limit (drained i p p' x e f w) v = omega arith
  Step-limit (dequeued i c e) v = ground arith

  pub Reach-limit :
      PipeLaws io
      → {s t : System P} → Reach io s t
      → Inv s
      → s.queue.max_outstanding_notifn ≤ t.queue.max_outstanding_notifn
  Reach-limit laws here v = omega arith
  Reach-limit laws (next r st) v =
      omega (arith, Reach-limit laws r v, Step-limit st (Reach-Inv laws r v))
