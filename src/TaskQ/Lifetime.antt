-- ===== src/TaskQ/Lifetime.antt =====
-- A GTaskQ from its constructor to its destructor (gexecutor/gtaskq.cc).
use gexecutor.Prelude.{
  ◌≡◌, refl, Bool, true, false, none, some, List, [], ◌∷◌, ◌++◌, Outcome, done, undefined, ◌>>=◌,
}
use gexecutor.TaskQ.{GTaskQ, gtaskq, initialize, destroy}

module _ {P : Type 0} where
  -- Calls of Initialize, with the pipes that pipe2 gives.
  initialize_all : List P → GTaskQ P → Outcome (GTaskQ P)
  initialize_all [] q = done q
  initialize_all (p ∷ ps) q = initialize (some p) q >>= initialize_all ps

  closes_last :
      (ps : List P) (p : P) (q : GTaskQ P) (has_buffer : Bool)
      → (elim q.notfn_buffer [ none ↦ false | some _ ↦ true ]) ≡ has_buffer
      → (initialize_all (ps ++ p ∷ []) q >>= destroy) ≡ done (has_buffer, p)
  unfolding initialize_all initialize destroy
  closes_last [] p q b e = rw e
  closes_last (p' ∷ ps) p q b e = closes_last ps p (record q { pipefds = some p' }) b e

  -- A queue that is initialized one or more times and destroyed: only the last pipe is closed, and the
  -- buffer is freed where there is one. To destroy a queue that has not been initialized is undefined.
  lifetime_lem :
      (memory : Bool) (ps : List P) (p : P)
      → ((initialize_all (ps ++ p ∷ []) (gtaskq memory) >>= destroy) ≡ done (memory, p))
        × (destroy (gtaskq {P = P} memory) ≡ undefined)
  unfolding gtaskq destroy
  lifetime_lem true ps p = (closes_last ps p (gtaskq true) true refl, refl)
  lifetime_lem false ps p = (closes_last ps p (gtaskq false) false refl, refl)
