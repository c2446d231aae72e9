-- ===== src/Bits.antt =====
-- The bits of a number, and how `&`, `|` and `<<` act on them, at every position.
mod Steps
use Steps.{bit_and_step, bit_or_step}
use matf_master_vpn.Prelude.{
  ℕ, zero, suc, ◌+◌, ◌-◌, ◌*◌, ◌/◌, ◌%◌, ◌^◌, ◌≤◌, ◌<◌, min, max, ◌≡◌, refl, sym, ap, ◌∙◌, arith,
  ltb, ◌==◌, if◌then◌else◌,
}
use Prim.Native.Nat.{bit_and, bit_or}
use native.Mathlib.Nat.{pow-suc, one-le-pow}

-- Bit `i` of `n`, as 0 or 1.
pub bit : ℕ → ℕ → ℕ
bit zero n = n % 2
bit (suc i) n = bit i (n / 2)

pub bit-lt : (i n : ℕ) → bit i n < 2
unfolding bit
bit-lt zero n = omega arith
bit-lt (suc i) n = bit-lt i (n / 2)

pub bit-zero : (i : ℕ) → bit i 0 ≡ 0
unfolding bit
bit-zero zero = refl
bit-zero (suc i) = bit-zero i

pub bit-bit_and : (i a b : ℕ) → bit i (bit_and a b) ≡ min (bit i a) (bit i b)
unfolding bit
bit-bit_and zero a b = omega (arith, bit_and_step a b)
bit-bit_and (suc i) a b =
    let half : bit_and a b / 2 ≡ bit_and (a / 2) (b / 2) = omega (arith, bit_and_step a b) in
    rw half (bit-bit_and i (a / 2) (b / 2))

pub bit-bit_or : (i a b : ℕ) → bit i (bit_or a b) ≡ max (bit i a) (bit i b)
unfolding bit
bit-bit_or zero a b = omega (arith, bit_or_step a b)
bit-bit_or (suc i) a b =
    let half : bit_or a b / 2 ≡ bit_or (a / 2) (b / 2) = omega (arith, bit_or_step a b) in
    rw half (bit-bit_or i (a / 2) (b / 2))

-- `1 << k` has bit `k` alone.
pub bit-pow : (i k : ℕ) → bit i (2 ^ k) ≡ (if i == k then 1 else 0)
unfolding bit
bit-pow zero zero = refl
bit-pow zero (suc k) = rw (pow-suc 2 k) (ground arith)
bit-pow (suc i) zero = bit-zero i ∙ ground arith
bit-pow (suc i) (suc k) =
    let half : 2 ^ suc k / 2 ≡ 2 ^ k = omega (arith, pow-suc 2 k) in
    rw half (bit-pow i k ∙ ground arith)

-- `(1 << k) - 1` has the bits below `k`.
pub bit-mask : (i k : ℕ) → bit i (2 ^ k - 1) ≡ (if ltb i k then 1 else 0)
unfolding bit
bit-mask i zero = bit-zero i ∙ ground arith
bit-mask zero (suc k) = ground (arith, pow-suc 2 k, one-le-pow k 2)
bit-mask (suc i) (suc k) =
    let half : (2 ^ suc k - 1) / 2 ≡ 2 ^ k - 1 = omega (arith, pow-suc 2 k) in
    rw half (bit-mask i k ∙ ground arith)

double_shift : (a k : ℕ) → a * 2 ^ suc k ≡ 2 * (a * 2 ^ k)
double_shift a k = omega (arith, ap (λ (t : ℕ). a * t) (pow-suc 2 k))

bit_and-zero_below : (bound n : ℕ) → n ≤ bound → bit_and n 0 ≡ 0
bit_and-zero_below bound zero h = refl
bit_and-zero_below zero (suc n) h = absurd (omega arith)
bit_and-zero_below (suc bound) (suc n) h =
    omega (arith, bit_and_step (suc n) 0, bit_and-zero_below bound (suc n / 2) (omega arith))

bit_and-zero : (n : ℕ) → bit_and n 0 ≡ 0
bit_and-zero n = bit_and-zero_below n n (omega arith)

-- `a << s`
pub bit-shift : (i s a : ℕ) → bit i (a * 2 ^ s) ≡ (if ltb i s then 0 else bit (i - s) a)
unfolding bit
bit-shift i zero a =
    let same : a * 1 ≡ a = omega arith in
    let start : i - 0 ≡ i = omega arith in rw (same, start) (ground arith)
bit-shift zero (suc s) a = rw (double_shift a s) (ground arith)
bit-shift (suc i) (suc s) a =
    let half : a * 2 ^ suc s / 2 ≡ a * 2 ^ s = omega (arith, double_shift a s) in
    let back : suc i - suc s ≡ i - s = omega arith in
    rw (half, back) (bit-shift i s a ∙ ground arith)

-- `n & (1 << k)` keeps bit `k` of `n` in its place.
pub bit_and-pow : (n k : ℕ) → bit_and n (2 ^ k) ≡ bit k n * 2 ^ k
unfolding bit
bit_and-pow n zero = omega (arith, bit_and_step n 1, bit_and-zero (n / 2))
bit_and-pow n (suc k) =
    let half : 2 ^ suc k / 2 ≡ 2 ^ k = omega (arith, pow-suc 2 k) in
    let low : 2 ^ suc k % 2 ≡ 0 = omega (arith, pow-suc 2 k) in
    rw (bit_and_step n (2 ^ suc k), half, low, bit_and-pow (n / 2) k)
      (omega (arith, double_shift (bit k (n / 2)) k))
