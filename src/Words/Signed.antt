-- ===== src/Words/Signed.antt =====
-- Sign extension and the signed comparisons of
-- klee/include/klee/Internal/Support/IntEvaluation.h at the numbers that the words stand for.
use native.Mathlib.Nat.{
  pow-suc, mod-eq_of_lt, mul-lt-mul_of_pos_right, lt_of_mul-lt-mul_right, mul-div_cancel,
}
use xklee.Base.{
  ℕ, zero, suc, ◌+◌, ◌-◌, ◌*◌, ◌%◌, ◌^◌, ◌<◌, ◌≤◌, ◌≡◌, refl, ap, ap₂, sym, ◌∙◌, arith, true, false,
  ltb, if◌then◌else◌, Bool-cases, inl, inr, ltb→lt, not-ltb→le,
}
use xklee.Base.Powers.{two-pow-pos, two-pow-add, two-pow_mono}
use xklee.Words.{
  negsuc, lt_int, le_int, to_int, shift_left, shift_right_signed, sext, slt, sle, sgt, sge,
}
use xklee.Words.Masks.{truncate-eq-mod}

-- A width and the bits above it make up the word.
width_split : (w : ℕ) → w ≤ 64 → 2 ^ w * 2 ^ (64 - w) ≡ 2 ^ 64
width_split w h =
    let e : w + (64 - w) ≡ 64 = omega arith in sym (two-pow-add w (64 - w)) ∙ ap (λ k. 2 ^ k) e

half_width : (w : ℕ) → 1 ≤ w → 2 ^ w ≡ 2 * 2 ^ (w - 1)
half_width (suc v) h = let e : suc v - 1 ≡ v = omega arith in rw e (omega (arith, pow-suc 2 v))
half_width zero h = absurd (omega arith)

-- The shift to the left and back again, for a word that fits the width.
shifts_back :
    (x w : ℕ)
    → 1 ≤ w
    → w ≤ 64
    → x < 2 ^ w
    → shift_right_signed (shift_left x (64 - w)) (64 - w)
      ≡ (if ltb x (2 ^ (w - 1)) then x else x + (2 ^ 64 - 2 ^ w))
shifts_back x w a b c =
    let whole = width_split w b in
    let half = half_width w a in
    let positive = two-pow-pos (64 - w) in
    let same : 64 - (64 - w) ≡ w = omega arith in
    let below : x * 2 ^ (64 - w) < 2 ^ w * 2 ^ (64 - w) = mul-lt-mul_of_pos_right c positive in
    let kept : x * 2 ^ (64 - w) % 2 ^ 64 ≡ x * 2 ^ (64 - w) = mod-eq_of_lt (omega arith) in
    let middle : 2 ^ (w - 1) * 2 ^ (64 - w) ≡ 2 ^ 63 =
      let e : (w - 1) + (64 - w) ≡ 63 = omega arith in
      sym (two-pow-add (w - 1) (64 - w)) ∙ ap (λ k. 2 ^ k) e in
    elim (Bool-cases (ltb x (2 ^ (w - 1)))) [
      | inl e ↦
          let low : ltb (x * 2 ^ (64 - w)) (2 ^ 63) ≡ true =
            let under = mul-lt-mul_of_pos_right (ltb→lt x (2 ^ (w - 1)) e) positive in
            ground arith in
          rw (kept, low, e) (mul-div_cancel x positive)
      | inr e ↦
          let high : ltb (x * 2 ^ (64 - w)) (2 ^ 63) ≡ false =
            elim (Bool-cases (ltb (x * 2 ^ (64 - w)) (2 ^ 63))) [
              | inl f ↦
                  let product : x * 2 ^ (64 - w) < 2 ^ (w - 1) * 2 ^ (64 - w) =
                    let l = ltb→lt (x * 2 ^ (64 - w)) (2 ^ 63) f in omega arith in
                  let under = lt_of_mul-lt-mul_right (2 ^ (64 - w)) product in ground arith
              | inr f ↦ f
            ] in
          rw (kept, high, e, mul-div_cancel x positive, same) refl
    ]

-- For a width from 1 to 64 and a word that fits it, sign extension to 64 bits keeps the
-- number that the word stands for.
pub to_int-sext : (x w : ℕ) → 1 ≤ w → w ≤ 64 → x < 2 ^ w → to_int 64 (sext x 64 w) ≡ to_int w x
unfolding sext
to_int-sext x w a b c =
    let half = half_width w a in
    let back = shifts_back x w a b c in
    let word =
      truncate-eq-mod (shift_right_signed (shift_left x (64 - w)) (64 - w)) 64 (omega arith) in
    let small : 2 ^ (w - 1) ≤ 2 ^ 63 = two-pow_mono 63 (w - 1) (omega arith) in
    elim (Bool-cases (ltb x (2 ^ (w - 1)))) [
      | inl e ↦
          let back' : shift_right_signed (shift_left x (64 - w)) (64 - w) ≡ x = back ∙ rw e in
          let low = ltb→lt x (2 ^ (w - 1)) e in
          let kept : x % 2 ^ 64 ≡ x = omega arith in
          let positive : ltb x (2 ^ (64 - 1)) ≡ true = ground arith in
          rw (word, back', kept, positive, e) refl
      | inr e ↦
          let back' : shift_right_signed (shift_left x (64 - w)) (64 - w) ≡ x + (2 ^ 64 - 2 ^ w) =
            back ∙ rw e in
          let high = not-ltb→le x (2 ^ (w - 1)) e in
          let kept : (x + (2 ^ 64 - 2 ^ w)) % 2 ^ 64 ≡ x + (2 ^ 64 - 2 ^ w) = omega arith in
          let negative : ltb (x + (2 ^ 64 - 2 ^ w)) (2 ^ (64 - 1)) ≡ false = ground arith in
          let rest : 2 ^ 64 - 1 - (x + (2 ^ 64 - 2 ^ w)) ≡ 2 ^ w - 1 - x = omega arith in
          rw (word, back', kept, negative, e) (ap negsuc rest)
    ]

-- For a width from 1 to 64 and words that fit it, the signed comparisons compare the numbers
-- that the words stand for in two's complement.
pub comparisons_signed :
    (l r w : ℕ)
    → 1 ≤ w
    → w ≤ 64
    → l < 2 ^ w
    → r < 2 ^ w
    → (slt l r w ≡ lt_int (to_int w l) (to_int w r))
      × (sle l r w ≡ le_int (to_int w l) (to_int w r))
      × (sgt l r w ≡ lt_int (to_int w r) (to_int w l))
      × (sge l r w ≡ le_int (to_int w r) (to_int w l))
unfolding slt sle sgt sge
comparisons_signed l r w a b c d =
    let left = to_int-sext l w a b c in
    let right = to_int-sext r w a b d in
    (ap₂ lt_int left right, ap₂ le_int left right, ap₂ lt_int right left, ap₂ le_int right left)
