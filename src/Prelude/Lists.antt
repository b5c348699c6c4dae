-- ===== src/Prelude/Lists.antt =====
-- Lists measured and indexed by native numbers, and the sum of a weight over a list.
use Prim.Native.Nat.{ℕ, zero, suc, ◌+◌, ◌<◌}
use mathlib.Core.Path.{◌≡◌, refl}
use mathlib.Core.List.{List, [], ◌∷◌, ◌++◌}
use mathlib.Core.Option.{Option, none, some}
use native.Mathlib.Omega.{arith}

module _ {ℓ} {A : Type ℓ} where
  abbrev pub length : List A → ℕ
  length [] = 0
  length (x ∷ xs) = suc (length xs)

  abbrev pub get_elem? : List A → ℕ → Option A
  get_elem? [] i = none
  get_elem? (x ∷ xs) zero = some x
  get_elem? (x ∷ xs) (suc i) = get_elem? xs i

  -- A write out of bounds changes nothing.
  abbrev pub set : List A → ℕ → A → List A
  set [] i v = []
  set (x ∷ xs) zero v = v ∷ xs
  set (x ∷ xs) (suc i) v = x ∷ set xs i v

  abbrev pub replicate : ℕ → A → List A
  replicate zero a = []
  replicate (suc n) a = a ∷ replicate n a

  pub length-append : (xs ys : List A) → length (xs ++ ys) ≡ length xs + length ys
  length-append [] ys = omega arith
  length-append (x ∷ xs) ys = omega (arith, length-append xs ys)

  pub length-replicate : (n : ℕ) (a : A) → length (replicate n a) ≡ n
  length-replicate zero a = refl
  length-replicate (suc n) a = omega (arith, length-replicate n a)

  pub length-set : (xs : List A) (i : ℕ) (v : A) → length (set xs i v) ≡ length xs
  length-set [] i v = refl
  length-set (x ∷ xs) zero v = refl
  length-set (x ∷ xs) (suc i) v = omega (arith, length-set xs i v)

  -- The last element moves behind an append one at a time.
  pub append-cons : (xs ys : List A) (y : A) → (xs ++ y ∷ []) ++ ys ≡ xs ++ y ∷ ys
  append-cons [] ys y = refl
  append-cons (x ∷ xs) ys y = cc (append-cons xs ys y)

  abbrev pub total : (A → ℕ) → List A → ℕ
  total w [] = 0
  total w (x ∷ xs) = w x + total w xs

  -- Replacing one element exchanges its weight.
  pub total-set :
      (w : A → ℕ) (xs : List A) (i : ℕ) (v : A) {u : A}
      → get_elem? xs i ≡ some u
      → total w (set xs i v) + w u ≡ total w xs + w v
  total-set w [] i v e = ground arith
  total-set w (x ∷ xs) zero v e = ground arith
  total-set w (x ∷ xs) (suc i) v {u} e = omega (arith, total-set w xs i v e)

  pub total-replicate : (w : A → ℕ) (n : ℕ) (a : A) → w a ≡ 0 → total w (replicate n a) ≡ 0
  total-replicate w zero a e = refl
  total-replicate w (suc n) a e = omega (arith, total-replicate w n a e)

  -- One element weighs no more than the whole list.
  pub le-total :
      (w : A → ℕ) (xs : List A) (i : ℕ) {u : A} → get_elem? xs i ≡ some u → w u < suc (total w xs)
  le-total w [] i e = ground arith
  le-total w (x ∷ xs) zero e = ground arith
  le-total w (x ∷ xs) (suc i) e = omega (arith, le-total w xs i e)

  -- A position in the list holds something.
  pub get_elem?-below : (xs : List A) (i : ℕ) → i < length xs → (v : A) × (get_elem? xs i ≡ some v)
  get_elem?-below [] i h = elim h [ ]
  get_elem?-below (x ∷ xs) zero h = (x, refl)
  get_elem?-below (x ∷ xs) (suc i) h = get_elem?-below xs i (omega arith)

  pub get_elem?-set_self :
      (xs : List A) (i : ℕ) (v : A) {u : A}
      → get_elem? xs i ≡ some u
      → get_elem? (set xs i v) i ≡ some v
  get_elem?-set_self [] i v e = cc
  get_elem?-set_self (x ∷ xs) zero v e = refl
  get_elem?-set_self (x ∷ xs) (suc i) v e = get_elem?-set_self xs i v e
