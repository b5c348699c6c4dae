-- ===== src/Pipe.antt =====
-- The notification pipe, which the kernel implements: write(2) and read(2) on the two ends that
-- pipe2(2) makes, both non-blocking. It is a parameter of the queue (`Pipe`); `PipeLaws` is what
-- pipe(7), write(2) and read(2) document of it and the proofs rely on.
use gexecutor.Prelude.{
  ◌⊎◌, inl, inr, refl, ℕ, ◌+◌, ◌-◌, ◌≤◌, ◌≡◌, arith, leb, ◌==◌, Bool-cases, ◌<◌, if◌then◌else◌,
}

-- Only the distinctions that the source makes: EAGAIN and EINTR are retried, others are fatal.
pub data Errno : Type 0 where
  eagain eintr efault : Errno
  other : ℕ → Errno

-- The result of read(2) or write(2): a byte count, or -1 with `errno`.
pub data IoResult : Type 0 where
  bytes : ℕ → IoResult
  failed : Errno → IoResult

pub record Pipe (P : Type 0) : Type 0 where
  pub buffered : P → ℕ  -- bytes written and not yet read
  pub write : P → ℕ → IoResult × P
  pub read : P → ℕ → IoResult × P

pub record PipeLaws {P : Type 0} (io : Pipe P) : Type 0 where
  -- A write of n bytes takes at most n of them into the pipe.
  pub write_bytes :
      (p p' : P) (n k : ℕ)
      → io.write p n ≡ (bytes k, p')
      → (k ≤ n) × (io.buffered p' ≡ io.buffered p + k)
  pub write_failed :
      (p p' : P) (n : ℕ) (e : Errno)
      → io.write p n ≡ (failed e, p')
      → io.buffered p' ≡ io.buffered p
  -- A read of at most n bytes takes what it returns out of the pipe.
  pub read_bytes :
      (p p' : P) (n k : ℕ)
      → io.read p n ≡ (bytes k, p')
      → (k ≤ n) × (io.buffered p ≡ io.buffered p' + k)
  pub read_failed :
      (p p' : P) (n : ℕ) (e : Errno) → io.read p n ≡ (failed e, p') → io.buffered p' ≡ io.buffered p

-- A pipe that holds at most `cap` bytes, as its state the number it holds: a full one refuses a
-- write and an empty one a read, both with EAGAIN.
abbrev pub bounded_write : ℕ → ℕ → ℕ → IoResult × ℕ
bounded_write cap p n =
    if leb cap p
    then (failed eagain, p)
    else if leb (p + n) cap
    then (bytes n, p + n)
    else (bytes (cap - p), cap)

abbrev pub bounded_read : ℕ → ℕ → IoResult × ℕ
bounded_read p n =
    if p == 0 then (failed eagain, p) else if leb p n then (bytes p, 0) else (bytes n, p - n)

abbrev pub bounded : ℕ → Pipe ℕ
bounded cap = record { buffered = λ p. p; write = bounded_write cap; read = bounded_read }

pub bounded-PipeLaws : (cap : ℕ) → PipeLaws (bounded cap)
bounded-PipeLaws cap = record {
  write_bytes = λ p p' n k e. ground arith;
  write_failed = λ p p' n x e. ground arith;
  read_bytes = λ p p' n k e. ground arith;
  read_failed = λ p p' n x e. ground arith;
}

-- The two outcomes of a call, with the equation.
pub IoResult-cases :
    {P : Type 0} (r : IoResult × P)
    → ((k : ℕ) × (p : P) × (r ≡ (bytes k, p))) ⊎ ((e : Errno) × (p : P) × (r ≡ (failed e, p)))
IoResult-cases (bytes k, p) = inl (k, p, refl)
IoResult-cases (failed e, p) = inr (e, p, refl)

-- A read from a pipe with bytes in it, into a buffer that is not empty, returns some of them.
pub bounded_read_lem :
    (p size : ℕ)
    → 0 < p
    → 0 < size
    → (k : ℕ) × (0 < k) × (k ≤ p) × (bounded_read p size ≡ (bytes k, p - k))
bounded_read_lem p size h h' = elim (Bool-cases (leb p size)) [
  | inl e ↦ (p, h, omega arith, ground arith)
  | inr e ↦ (size, h', ground arith, ground arith)
]
