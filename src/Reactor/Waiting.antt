-- ===== src/Reactor/Waiting.antt =====
-- Tasks that wait to run, in the store (gexecutor/gtaskq.h).
use gexecutor.Prelude.{ℕ, ◌+◌, ◌<◌, ◌≡◌, refl, ap, ◌∙◌, none, List, [], ◌∷◌, ◌++◌, total, arith}
use gexecutor.Task.{GTask}
use gexecutor.Store.{update}
use gexecutor.Reactor.Drain.{Absent}

pub total-append :
    {A : Type 0} (w : A → ℕ) (xs ys : List A) → total w (xs ++ ys) ≡ total w xs + total w ys
total-append w [] ys = omega arith
total-append w (x ∷ xs) ys = omega (arith, total-append w xs ys)

Absent-append : (t next : ℕ) (ts : List ℕ) → t < next → Absent t ts → Absent t (ts ++ next ∷ [])
Absent-append t next [] h a = ((λ e. absurd (omega (arith, h, e))), tt)
Absent-append t next (u ∷ us) h (a, others) = (a, Absent-append t next us h others)

module _ {B : Type 0} where
  -- A weight of tasks does not see a task that is not among them.
  pub weigh : (GTask B → ℕ) → (ℕ → GTask B) → List ℕ → ℕ
  weigh w tasks ts = total (λ t. w (tasks t)) ts

  pub weigh-update :
      (w : GTask B → ℕ) (tasks : ℕ → GTask B) (t : ℕ) (x : GTask B) (ts : List ℕ)
      → Absent t ts
      → weigh w (update tasks t x) ts ≡ weigh w tasks ts
  unfolding weigh
  weigh-update w tasks t x [] a = refl
  weigh-update w tasks t x (u ∷ us) a = ground (arith, a.0, weigh-update w tasks t x us a.1)

  pub weigh-cons :
      (w : GTask B → ℕ) (tasks : ℕ → GTask B) (t : ℕ) (ts : List ℕ)
      → weigh w tasks (t ∷ ts) ≡ w (tasks t) + weigh w tasks ts
  unfolding weigh
  weigh-cons w tasks t ts = refl

  pub weigh-nil : (w : GTask B → ℕ) (tasks : ℕ → GTask B) → weigh w tasks [] ≡ 0
  unfolding weigh
  weigh-nil w tasks = refl

  -- A new task weighs what it weighs.
  pub weigh-posted :
      (w : GTask B → ℕ) (tasks : ℕ → GTask B) (next : ℕ) (x : GTask B) (ts : List ℕ)
      → Absent next ts
      → weigh w (update tasks next x) (ts ++ next ∷ []) ≡ weigh w tasks ts + w x
  unfolding weigh
  weigh-posted w tasks next x ts a =
      let own : update tasks next x next ≡ x = ground arith in
      omega (
        arith,
        total-append (λ t. w (update tasks next x t)) ts (next ∷ []),
        weigh-update w tasks next x ts a,
        ap w own,
      )

  -- These tasks have been made, are there once, have not run, and are of the kind K.
  abbrev pub Waiting : (GTask B → Type 0) → (ℕ → GTask B) → (next : ℕ) → List ℕ → Type 0
  Waiting K tasks next [] = Unit {0}
  Waiting K tasks next (t ∷ ts) =
      (t < next)
      × ((tasks t).exec_task_q ≡ none)
      × K (tasks t)
      × Absent t ts
      × Waiting K tasks next ts

  pub Waiting-update :
      (K : GTask B → Type 0) (tasks : ℕ → GTask B) (next t : ℕ) (x : GTask B) (ts : List ℕ)
      → Absent t ts
      → Waiting K tasks next ts
      → Waiting K (update tasks t x) next ts
  Waiting-update K tasks next t x [] a v = tt
  Waiting-update K tasks next t x (u ∷ us) (a, others) (below, fresh, kind, once, rest) =
      let same : update tasks t x u ≡ tasks u = ground (arith, a) in
      (
        below,
        ap (λ (y : GTask B). y.exec_task_q) same ∙ fresh,
        rw same kind,
        once,
        Waiting-update K tasks next t x us others rest,
      )

  pub Waiting-later :
      (K : GTask B → Type 0) (tasks : ℕ → GTask B) (next : ℕ) (ts : List ℕ)
      → Waiting K tasks next ts
      → Waiting K tasks (next + 1) ts
  Waiting-later K tasks next [] v = tt
  Waiting-later K tasks next (t ∷ ts) (below, fresh, kind, once, rest) =
      (omega (arith, below), fresh, kind, once, Waiting-later K tasks next ts rest)

  pub Absent-new :
      (K : GTask B → Type 0) (tasks : ℕ → GTask B) (next : ℕ) (ts : List ℕ)
      → Waiting K tasks next ts
      → Absent next ts
  Absent-new K tasks next [] v = tt
  Absent-new K tasks next (t ∷ ts) (below, _, _, _, rest) =
      ((λ e. absurd (omega (arith, below, e))), Absent-new K tasks next ts rest)

  -- Tasks of another kind are others.
  pub Absent-kind :
      (K : GTask B → Type 0) (tasks : ℕ → GTask B) (next t : ℕ) (ts : List ℕ)
      → ¬ K (tasks t)
      → Waiting K tasks next ts
      → Absent t ts
  Absent-kind K tasks next t [] other v = tt
  Absent-kind K tasks next t (u ∷ us) other (_, _, kind, _, rest) =
      ((λ e. other (rw e kind)), Absent-kind K tasks next t us other rest)

  -- A new task behind the others.
  pub Waiting-append :
      (K : GTask B → Type 0) (tasks : ℕ → GTask B) (next : ℕ) (ts : List ℕ)
      → (tasks next).exec_task_q ≡ none
      → K (tasks next)
      → Waiting K tasks next ts
      → Waiting K tasks (next + 1) (ts ++ next ∷ [])
  Waiting-append K tasks next [] e k v = (omega arith, e, k, tt, tt)
  Waiting-append K tasks next (t ∷ ts) e k (below, fresh, kind, once, rest) = (
    omega (arith, below),
    fresh,
    kind,
    Absent-append t next ts below once,
    Waiting-append K tasks next ts e k rest,
  )
