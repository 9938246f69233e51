-- ===== src/Words/Modular.antt =====
-- The arithmetic of klee/include/klee/Internal/Support/IntEvaluation.h and its wrap-around.
use native.Mathlib.Nat.{add-mul-mod_self_right, mod-add-div}
use xklee.Base.{ℕ, ◌+◌, ◌-◌, ◌*◌, ◌/◌, ◌%◌, ◌^◌, ◌<◌, ◌≤◌, ◌≡◌, ap, sym, ◌∙◌, arith}
use xklee.Base.Powers.{two-pow-add}
use xklee.Words.{add, sub, mul, shl}
use xklee.Words.Masks.{truncate-eq-mod}

-- The wrap-around at 64 bits does not show in a narrower result.
mod-twice : (x n : ℕ) → n ≤ 64 → x % 2 ^ 64 % 2 ^ n ≡ x % 2 ^ n
mod-twice x n h =
    let whole : 2 ^ n * 2 ^ (64 - n) ≡ 2 ^ 64 =
      let e : n + (64 - n) ≡ 64 = omega arith in sym (two-pow-add n (64 - n)) ∙ ap (λ k. 2 ^ k) e in
    let split = mod-add-div x (2 ^ 64) in
    let parts : x ≡ x % 2 ^ 64 + (x / 2 ^ 64 * 2 ^ (64 - n)) * 2 ^ n = grind arith in
    sym (
      ap (λ y. y % 2 ^ n) parts
      ∙ add-mul-mod_self_right (x % 2 ^ 64) (x / 2 ^ 64 * 2 ^ (64 - n)) (2 ^ n))

-- For a width from 1 to 64, a subtrahend below `2 ^ 64` and a shift below 64, `add`, `sub`,
-- `mul` and `shl` are exact modulo `2 ^ width`, though they wrap around at 64 bits first.
pub ops_mod :
    (l r shift w : ℕ)
    → 1 ≤ w
    → w ≤ 64
    → r < 2 ^ 64
    → shift < 64
    → (add l r w ≡ (l + r) % 2 ^ w)
      × (sub l r w ≡ (l + (2 ^ 64 - r)) % 2 ^ w)
      × (mul l r w ≡ l * r % 2 ^ w)
      × (shl l shift w ≡ l * 2 ^ shift % 2 ^ w)
unfolding add sub mul shl
ops_mod l r shift w a h b c = (
  truncate-eq-mod ((l + r) % 2 ^ 64) w h ∙ mod-twice (l + r) w h,
  truncate-eq-mod ((l + (2 ^ 64 - r)) % 2 ^ 64) w h ∙ mod-twice (l + (2 ^ 64 - r)) w h,
  truncate-eq-mod (l * r % 2 ^ 64) w h ∙ mod-twice (l * r) w h,
  truncate-eq-mod (l * 2 ^ shift % 2 ^ 64) w h ∙ mod-twice (l * 2 ^ shift) w h,
)
