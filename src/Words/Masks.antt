-- ===== src/Words/Masks.antt =====
-- The mask of `truncateToNBits` of klee/include/klee/util/Bits.h.
use Prim.Native.Nat.{min, digits, bit_and, bit_and-bitwise}
use native.Mathlib.Nat.{pow-suc, mod-add-div, mod-lt, mod-eq_of_lt, add-mul-mod_self_right}
use xklee.Base.{
  ℕ, zero, suc, ◌+◌, ◌-◌, ◌*◌, ◌/◌, ◌%◌, ◌^◌, ◌<◌, ◌≤◌, ◌≡◌, refl, ap, sym, ◌∙◌, arith,
}
use xklee.Base.Powers.{two-pow-pos, ones_shift}
use xklee.Words.{truncate_to_n_bits}

abbrev and_digits : ℕ → ℕ → ℕ → ℕ
and_digits fuel a b = digits (λ _. 0) min fuel a b

-- Any fuel that is at least the first number serves.
and_digits_enough :
    (fuel other x y : ℕ) → x ≤ fuel → x ≤ other → and_digits fuel x y ≡ and_digits other x y
and_digits_enough zero zero x y p q = refl
and_digits_enough (suc fuel) zero zero y p q = refl
and_digits_enough zero (suc other) zero y p q = refl
and_digits_enough (suc fuel) (suc other) zero y p q = refl
and_digits_enough zero other (suc x) y p q = absurd (omega arith)
and_digits_enough fuel zero (suc x) y p q = absurd (omega arith)
and_digits_enough (suc fuel) (suc other) (suc x) y p q =
    rw (and_digits_enough fuel other (suc x / 2) (y / 2) (omega arith) (omega arith))

lowest_digit : (x y : ℕ) → bit_and x y ≡ 2 * bit_and (x / 2) (y / 2) + min (x % 2) (y % 2)
lowest_digit zero y = simp bit_and-bitwise (omega arith)
lowest_digit (suc x) y =
    let half : suc x / 2 ≤ suc x / 2 = omega arith in
    simp bit_and-bitwise
      (omega (arith, and_digits_enough x (suc x / 2) (suc x / 2) (y / 2) (omega arith) half))

no_ones : (fuel x : ℕ) → and_digits fuel x 0 ≡ 0
no_ones zero x = refl
no_ones (suc fuel) zero = refl
no_ones (suc fuel) (suc x) = let rest = no_ones fuel (suc x / 2) in rw rest (omega arith)

-- The low digits of a number, with the lowest one apart.
low_digits : (p a : ℕ) → 0 < p → 2 * (a / 2 % p) + a % 2 ≡ a % (2 * p)
low_digits p a h =
    let split = mod-add-div (a / 2) p in
    let bound = mod-lt (a / 2) h in
    let whole : a ≡ (2 * (a / 2 % p) + a % 2) + (a / 2 / p) * (2 * p) = grind arith in
    sym (
      ap (λ x. x % (2 * p)) whole
      ∙ add-mul-mod_self_right (2 * (a / 2 % p) + a % 2) (a / 2 / p) (2 * p)
      ∙ mod-eq_of_lt (omega arith))

-- `k` ones keep the low `k` digits.
and_ones : (k a : ℕ) → bit_and a (2 ^ k - 1) ≡ a % 2 ^ k
and_ones zero a = simp bit_and-bitwise (no_ones a a ∙ omega arith)
and_ones (suc k) a =
    let odd : (2 ^ suc k - 1) % 2 ≡ 1 = omega (arith, pow-suc 2 k, two-pow-pos k) in
    let half : (2 ^ suc k - 1) / 2 ≡ 2 ^ k - 1 = omega (arith, pow-suc 2 k, two-pow-pos k) in
    let digit : 2 * (a / 2 % 2 ^ k) + min (a % 2) 1 ≡ 2 * (a / 2 % 2 ^ k) + a % 2 = omega arith in
    let twice : 2 * 2 ^ k ≡ 2 ^ suc k = omega (arith, pow-suc 2 k) in
    rw (lowest_digit a (2 ^ suc k - 1), odd, half, and_ones k (a / 2))
      (digit ∙ (low_digits (2 ^ k) a (two-pow-pos k) ∙ ap (λ p. a % p) twice))

pub truncate-eq-mod : (x n : ℕ) → n ≤ 64 → truncate_to_n_bits x n ≡ x % 2 ^ n
unfolding truncate_to_n_bits
truncate-eq-mod x n h = rw (ones_shift n h) (and_ones n x)
