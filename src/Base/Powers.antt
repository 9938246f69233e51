-- ===== src/Base/Powers.antt =====
-- Powers of two at variable exponents.
use native.Mathlib.Nat.{pow-suc, div-eq_of_lt, div-eq_of_lt-le}
use Prim.Native.Nat.{ℕ, zero, suc, ◌+◌, ◌-◌, ◌*◌, ◌/◌, ◌^◌, ◌≤◌, ◌<◌}
use mathlib.Core.Path.{◌≡◌, sym, ◌∙◌}
use mathlib.Core.Bool.{true}
use native.Mathlib.Omega.{arith}
use xklee.Base.Tests.{◌==◌}

pub two-pow-pos : (n : ℕ) → 0 < 2 ^ n
two-pow-pos zero = omega arith
two-pow-pos (suc n) = omega (arith, pow-suc 2 n, two-pow-pos n)

pub two-pow_mono : (n m : ℕ) → m ≤ n → 2 ^ m ≤ 2 ^ n
two-pow_mono zero zero h = omega arith
two-pow_mono zero (suc m) h = absurd (omega arith)
two-pow_mono (suc n) m h = ground (arith, pow-suc 2 n, two-pow_mono n m)

pub two-pow-add : (m n : ℕ) → 2 ^ (m + n) ≡ 2 ^ m * 2 ^ n
two-pow-add zero n = let e : 0 + n ≡ n = omega arith in rw e (omega arith)
two-pow-add (suc m) n =
    let e : suc m + n ≡ suc (m + n) = omega arith in
    rw (e, pow-suc 2 (m + n), pow-suc 2 m) (omega (arith, two-pow-add m n))

-- A shift to the right leaves nothing exactly of the numbers below the power.
pub shift_zero→lt : (x n : ℕ) → (x / 2 ^ n == 0) ≡ true → x < 2 ^ n
shift_zero→lt x n h = ground (arith, two-pow-pos n)

pub lt→shift_zero : (x n : ℕ) → x < 2 ^ n → (x / 2 ^ n == 0) ≡ true
lt→shift_zero x n h = rw (div-eq_of_lt h)

-- The 64-bit all-ones word without its low bits, shifted down: `n` ones.
pub ones_shift : (n : ℕ) → n ≤ 64 → (2 ^ 64 - 1) / 2 ^ (64 - n) ≡ 2 ^ n - 1
ones_shift n h =
    div-eq_of_lt-le (2 ^ (64 - n)) (grind (arith, split, two-pow-pos n))
      (grind (arith, split, two-pow-pos (64 - n), two-pow-pos n))
  where
    split : 2 ^ n * 2 ^ (64 - n) ≡ 2 ^ 64
    split = let e : n + (64 - n) ≡ 64 = omega arith in sym (two-pow-add n (64 - n)) ∙ rw e
