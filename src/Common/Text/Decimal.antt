-- ===== src/Common/Text/Decimal.antt =====
-- Decimal digits, as a stream prints them, read back.
use Prim.Native.Nat.{ℕ, zero, suc, ◌+◌, ◌-◌, ◌*◌, ◌/◌, ◌%◌, ◌^◌, ◌<◌, ◌≤◌}
use mathlib.Core.Path.{◌≡◌, refl, ◌∙◌, ap}
use mathlib.Core.Logic.{inl, inr}
use mathlib.Core.List.{[], ◌∷◌, ◌++◌}
use native.Mathlib.Omega.{arith}
use logsvc.Common.Lists.{length, All}
use logsvc.Common.Tests.{ltb, Bool-cases}
use logsvc.Common.Text.{Bytes, decimal, decimal_loop}

-- The number that decimal digits stand for, after `n`.
abbrev pub read_on : ℕ → Bytes → ℕ
read_on n [] = n
read_on n (c ∷ cs) = read_on (10 * n + (c - b'0')) cs

abbrev pub read_decimal : Bytes → ℕ
read_decimal = read_on 0

pub read_on-append : (n : ℕ) (xs ys : Bytes) → read_on n (xs ++ ys) ≡ read_on (read_on n xs) ys
read_on-append n [] ys = refl
read_on-append n (x ∷ xs) ys = read_on-append (10 * n + (x - b'0')) xs ys

decimal_loop-read_on :
    (f n : ℕ) (acc : Bytes) → n < f → read_on 0 (decimal_loop f n acc) ≡ read_on n acc
unfolding decimal_loop
decimal_loop-read_on zero n acc h = absurd (omega arith)
decimal_loop-read_on (suc f) n acc h = elim (Bool-cases (ltb n 10)) [
  | inl small ↦ rw small (ap (λ k. read_on k acc) (omega arith))
  | inr large ↦
      let big : 10 ≤ n = ground arith in
      rw large (
        decimal_loop-read_on f (n / 10) ((b'0' + n % 10) ∷ acc) (omega arith)
        ∙ ap (λ k. read_on k acc) (omega arith))
]

decimal_loop-length :
    (k f n : ℕ) (acc : Bytes)
    → n < f
    → n < 10 ^ suc k
    → length (decimal_loop f n acc) ≤ suc k + length acc
unfolding decimal_loop
decimal_loop-length k zero n acc h b = absurd (omega arith)
decimal_loop-length zero (suc f) n acc h b = elim (Bool-cases (ltb n 10)) [
  | inl small ↦ rw small (omega arith)
  | inr large ↦ absurd (ground arith)
]
decimal_loop-length (suc k) (suc f) n acc h b = elim (Bool-cases (ltb n 10)) [
  | inl small ↦ rw small (omega arith)
  | inr large ↦
      let big : 10 ≤ n = ground arith in
      rw large (
        omega (
          arith,
          decimal_loop-length k f (n / 10) ((b'0' + n % 10) ∷ acc) (omega arith) (omega arith),
        ))
]

-- The digits of a number are read back as that number.
pub decimal-read_on : (n : ℕ) → read_on 0 (decimal n) ≡ n
unfolding decimal
decimal-read_on n = decimal_loop-read_on (suc n) n [] (omega arith)

pub decimal-length : (n k : ℕ) → n < 10 ^ suc k → length (decimal n) ≤ suc k
unfolding decimal
decimal-length n k b = omega (arith, decimal_loop-length k (suc n) n [] (omega arith) b)

abbrev pub IsDigit : ℕ → Type 0
IsDigit c = (b'0' ≤ c) × (c < b'0' + 10)

decimal_loop-IsDigit :
    (f n : ℕ) (acc : Bytes) → n < f → All IsDigit acc → All IsDigit (decimal_loop f n acc)
unfolding decimal_loop
decimal_loop-IsDigit zero n acc h d = d
decimal_loop-IsDigit (suc f) n acc h d = elim (Bool-cases (ltb n 10)) [
  | inl small ↦ let below : n < 10 = ground arith in rw small ((omega arith, omega arith), d)
  | inr large ↦
      let big : 10 ≤ n = ground arith in
      rw large (
        decimal_loop-IsDigit f (n / 10) ((b'0' + n % 10) ∷ acc) (omega arith)
          ((omega arith, omega arith), d))
]

pub decimal-IsDigit : (n : ℕ) → All IsDigit (decimal n)
unfolding decimal
decimal-IsDigit n = decimal_loop-IsDigit (suc n) n [] (omega arith) tt
