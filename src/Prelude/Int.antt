-- ===== src/Prelude/Int.antt =====
-- Signed integers, for `gerror_code_t`: `negsuc n` is -(n + 1).
use Prim.Native.Nat.{ℕ, zero, suc}
use mathlib.Core.Path.{◌≡◌, refl}

pub data ℤ : Type 0 where
  pos : ℕ → ℤ
  negsuc : ℕ → ℤ

-- -n, for a natural number n.
abbrev pub neg_ℕ : ℕ → ℤ
neg_ℕ zero = pos 0
neg_ℕ (suc n) = negsuc n

abbrev pub magnitude : ℤ → ℕ
magnitude (pos n) = n
magnitude (negsuc n) = suc n

pub magnitude-neg_ℕ : (n : ℕ) → magnitude (neg_ℕ n) ≡ n
magnitude-neg_ℕ zero = refl
magnitude-neg_ℕ (suc n) = refl
