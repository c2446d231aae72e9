-- ===== src/Bits/Steps.antt =====
-- The recursion of the native bit operations on the lowest bit.
use Prim.Native.Nat.{
  ℕ, zero, suc, ◌+◌, ◌*◌, ◌/◌, ◌%◌, ◌-◌, ◌≤◌, min, max, bit_and, bit_or, digits, bit_and-bitwise,
  bit_or-bitwise,
}
use mathlib.Core.Path.{◌≡◌, refl}
use native.Mathlib.Omega.{arith}

-- The fuel of the library's digit recursion does not matter once it covers the first number.
module _ (base : ℕ → ℕ) (op : ℕ → ℕ → ℕ) where
  enough_fuel :
      (x y extra : ℕ) (k : ℕ) → x ≤ k → digits base op (k + extra) x y ≡ digits base op k x y
  enough_fuel x y zero k h = let e : k + zero ≡ k = omega arith in rw e refl
  enough_fuel zero y (suc extra) zero h =
      let e : zero + suc extra ≡ suc extra = omega arith in rw e refl
  enough_fuel (suc x) y (suc extra) zero h = absurd (omega arith)
  enough_fuel zero y (suc extra) (suc k) h =
      let e : suc k + suc extra ≡ suc (k + suc extra) = omega arith in rw e refl
  enough_fuel (suc x) y (suc extra) (suc k) h =
      let e : suc k + suc extra ≡ suc (k + suc extra) = omega arith in
      rw e (rw (enough_fuel (suc x / 2) (y / 2) (suc extra) k (omega arith)))

  lowest :
      (x y : ℕ)
      → digits base op (suc x) (suc x) y
        ≡ digits base op (suc x / 2) (suc x / 2) (y / 2) * 2 + op (suc x % 2) (y % 2)
  lowest x y =
      let spare : suc x / 2 + (x - suc x / 2) ≡ x = omega arith in
      let shorter = enough_fuel (suc x / 2) (y / 2) (x - suc x / 2) (suc x / 2) (omega arith) in
      rw (← shorter, spare)

none_and : (n : ℕ) → bit_and 0 n ≡ 0
none_and n = bit_and-bitwise 0 n

none_or : (n : ℕ) → bit_or 0 n ≡ n
none_or n = bit_or-bitwise 0 n

-- The lowest bit of either result, beside the result for the halves.
pub bit_and_step : (m n : ℕ) → bit_and m n ≡ bit_and (m / 2) (n / 2) * 2 + min (m % 2) (n % 2)
bit_and_step zero n = omega (arith, none_and n, none_and (n / 2))
bit_and_step (suc m) n =
    rw (bit_and-bitwise (suc m) n, bit_and-bitwise (suc m / 2) (n / 2)) (lowest (λ t. 0) min m n)

pub bit_or_step : (m n : ℕ) → bit_or m n ≡ bit_or (m / 2) (n / 2) * 2 + max (m % 2) (n % 2)
bit_or_step zero n = omega (arith, none_or n, none_or (n / 2))
bit_or_step (suc m) n =
    rw (bit_or-bitwise (suc m) n, bit_or-bitwise (suc m / 2) (n / 2)) (lowest (λ t. t) max m n)
