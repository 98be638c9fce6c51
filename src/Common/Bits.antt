-- ===== src/Common/Bits.antt =====
-- `|` of disjoint fields and `&` with a mask of ones, as arithmetic.
use Prim.Native.Nat.{
  ℕ, zero, suc, ◌+◌, ◌-◌, ◌*◌, ◌/◌, ◌%◌, ◌^◌, ◌≤◌, ◌<◌, min, max, bit_and, bit_or, digits,
  bit_and-bitwise, bit_or-bitwise,
}
use mathlib.Core.Path.{◌≡◌, refl, ap, ap₂}
use native.Mathlib.Nat.{pow-suc, one-le-pow}
use native.Mathlib.Omega.{arith}

-- The recursion that the native operations stand for: `count` is the number of digits to go.
module _ (end : ℕ → ℕ) (digit : ℕ → ℕ → ℕ) where
  -- Any count does that is not below the first number.
  recount :
      (x y count more : ℕ)
      → x ≤ count
      → x ≤ more
      → digits end digit count x y ≡ digits end digit more x y
  recount zero y zero zero h k = refl
  recount zero y zero (suc more) h k = refl
  recount zero y (suc count) zero h k = refl
  recount zero y (suc count) (suc more) h k = refl
  recount (suc x) y zero more h k = absurd (omega arith)
  recount (suc x) y (suc count) zero h k = absurd (omega arith)
  recount (suc x) y (suc count) (suc more) h k =
      let rest = recount (suc x / 2) (y / 2) count more (omega arith) (omega arith) in omega arith

  -- The lowest digits, and the rest.
  lowest :
      (x y : ℕ)
      → digits end digit (suc x) (suc x) y
        ≡ digits end digit (suc x / 2) (suc x / 2) (y / 2) * 2 + digit (suc x % 2) (y % 2)
  lowest x y =
      let rest = recount (suc x / 2) (y / 2) x (suc x / 2) (omega arith) (omega arith) in
      omega arith

pub zero-bit_or : (b : ℕ) → bit_or 0 b ≡ b
zero-bit_or b = bit_or-bitwise 0 b

bit_or_step : (x y : ℕ) → bit_or x y ≡ bit_or (x / 2) (y / 2) * 2 + max (x % 2) (y % 2)
bit_or_step zero y = omega (arith, zero-bit_or y, zero-bit_or (y / 2))
bit_or_step (suc x) y =
    let whole = bit_or-bitwise (suc x) y in
    let rest = bit_or-bitwise (suc x / 2) (y / 2) in omega (arith, lowest (λ b. b) max x y)

bit_and_step : (x y : ℕ) → bit_and x y ≡ bit_and (x / 2) (y / 2) * 2 + min (x % 2) (y % 2)
bit_and_step zero y =
    let whole = bit_and-bitwise 0 y in let rest = bit_and-bitwise 0 (y / 2) in omega arith
bit_and_step (suc x) y =
    let whole = bit_and-bitwise (suc x) y in
    let rest = bit_and-bitwise (suc x / 2) (y / 2) in omega (arith, lowest (λ b. zero) min x y)

double_shift : (b k : ℕ) → b * 2 ^ suc k ≡ (b * 2 ^ k) * 2
double_shift b k = omega (arith, ap (λ (t : ℕ). b * t) (pow-suc 2 k))

shifted_half : (k b : ℕ) → (b * 2 ^ suc k) / 2 ≡ b * 2 ^ k
shifted_half k b = omega (arith, double_shift b k)

-- `a | (b << k)` is a sum when `a` fits in `k` bits.
pub bit_or_shifted : (k a b : ℕ) → a < 2 ^ k → bit_or a (b * 2 ^ k) ≡ a + b * 2 ^ k
bit_or_shifted zero a b fits =
    let e : a ≡ 0 = omega arith in rw e (omega (arith, zero-bit_or (b * 1)))
bit_or_shifted (suc k) a b fits = omega (
  arith,
  bit_or_step a (b * 2 ^ suc k),
  ap (bit_or (a / 2)) (shifted_half k b),
  double_shift b k,
  pow-suc 2 k,
  bit_or_shifted k (a / 2) b (omega (arith, pow-suc 2 k)),
)

no_digits : (count x : ℕ) → digits (λ b. zero) min count x 0 ≡ 0
no_digits zero x = refl
no_digits (suc count) zero = refl
no_digits (suc count) (suc x) = let rest = no_digits count (suc x / 2) in omega arith

bit_and-zero : (x : ℕ) → bit_and x 0 ≡ 0
bit_and-zero x = let whole = bit_and-bitwise x 0 in omega (arith, no_digits x x)

mask_two : (a : ℕ) → bit_and a 3 ≡ a % 4
mask_two a = omega (arith, bit_and_step a 3, bit_and_step (a / 2) 1, bit_and-zero (a / 2 / 2))

mask_four : (a : ℕ) → bit_and a 15 ≡ a % 16
mask_four a = omega (arith, bit_and_step a 15, bit_and_step (a / 2) 7, mask_two (a / 2 / 2))

mask_six : (a : ℕ) → bit_and a 63 ≡ a % 64
mask_six a = omega (arith, bit_and_step a 63, bit_and_step (a / 2) 31, mask_four (a / 2 / 2))

-- `a & 0xFF` keeps the lowest byte.
pub bit_and_byte : (a : ℕ) → bit_and a 255 ≡ a % 256
bit_and_byte a = omega (arith, bit_and_step a 255, bit_and_step (a / 2) 127, mask_six (a / 2 / 2))

pub bit_or-zero : (a : ℕ) → bit_or a 0 ≡ a
bit_or-zero a = below a a (omega arith)
  where
    below : (n a : ℕ) → a ≤ n → bit_or a 0 ≡ a
    below n zero h = refl
    below zero (suc a) h = absurd (omega arith)
    below (suc n) (suc a) h =
        omega (arith, bit_or_step (suc a) 0, below n (suc a / 2) (omega arith))

-- `|` of two numbers that share their low `k` bits with nothing of the second.
pub bit_or_high :
    (k a u v : ℕ) → a < 2 ^ k → bit_or (a + u * 2 ^ k) (v * 2 ^ k) ≡ a + bit_or u v * 2 ^ k
bit_or_high zero a u v fits =
    let e : a ≡ 0 = omega arith in
    let f : u * 2 ^ 0 ≡ u = omega arith in
    let g : v * 2 ^ 0 ≡ v = omega arith in
    let h : 0 + u ≡ u = omega arith in rw (e, f, g, h) (omega arith)
bit_or_high (suc k) a u v fits = omega (
  arith,
  bit_or_step (a + u * 2 ^ suc k) (v * 2 ^ suc k),
  ap₂ bit_or (halved k a u) (shifted_half k v),
  double_shift u k,
  double_shift v k,
  double_shift (bit_or u v) k,
  pow-suc 2 k,
  bit_or_high k (a / 2) u v (omega (arith, pow-suc 2 k)),
)
  where
    halved : (k a u : ℕ) → (a + u * 2 ^ suc k) / 2 ≡ a / 2 + u * 2 ^ k
    halved k a u = omega (arith, double_shift u k)

-- Ones stay ones.
pub bit_or_ones : (k v : ℕ) → v < 2 ^ k → bit_or (2 ^ k - 1) v ≡ 2 ^ k - 1
bit_or_ones zero v fits = let e : v ≡ 0 = omega arith in rw e refl
bit_or_ones (suc k) v fits = omega (
  arith,
  bit_or_step (2 ^ suc k - 1) v,
  ap (λ (t : ℕ). bit_or t (v / 2)) (halved k),
  pow-suc 2 k,
  one-le-pow 2 k,
  bit_or_ones k (v / 2) (omega (arith, pow-suc 2 k)),
)
  where
    halved : (k : ℕ) → (2 ^ suc k - 1) / 2 ≡ 2 ^ k - 1
    halved k = omega (arith, pow-suc 2 k)
