-- ===== src/Solver/Search.antt =====
-- The binary search of `Solver::getRange` of klee/lib/Solver/Solver.cpp on a monotone test.
use native.Mathlib.Nat.{pow-suc}
use xklee.Base.{
  ℕ, zero, suc, ◌+◌, ◌-◌, ◌/◌, ◌^◌, ◌≤◌, ◌<◌, ◌≡◌, inl, inr, refl, Bool, true, false, Option, some,
  arith, ltb, ◌∙◌, if◌then◌else◌, Bool-cases, ltb→lt, not-ltb→le, lt→ltb,
}
use xklee.Solver.{search}

-- `r` is the first number from `lo` on that passes, or `hi` if none below `hi` does.
pub record IsFirst (t : ℕ → Bool) (lo hi r : ℕ) : Type 0 where
  pub from_lo : lo ≤ r
  pub to_hi : r ≤ hi
  pub none_before : (n : ℕ) → lo ≤ n → n < r → t n ≡ false
  pub passes : r < hi → t r ≡ true

abbrev pub IsMonotone : (ℕ → Bool) → Type 0
IsMonotone t = (m n : ℕ) → m ≤ n → t m ≡ true → t n ≡ true

module _ (ask : ℕ → Option Bool) (t : ℕ → Bool) (answers : (n : ℕ) → ask n ≡ some (t n)) where
  search-step :
      (fuel lo hi : ℕ)
      → lo < hi
      → search (suc fuel) ask lo hi ≡ (
          if t (lo + (hi - lo) / 2)
          then search fuel ask lo (lo + (hi - lo) / 2)
          else search fuel ask (lo + (hi - lo) / 2 + 1) hi)
  unfolding search
  search-step fuel lo hi h = rw (lt→ltb lo hi h, answers (lo + (hi - lo) / 2))

  search-stop : (fuel lo hi : ℕ) → hi ≤ lo → search fuel ask lo hi ≡ some lo
  unfolding search
  search-stop zero lo hi h = ground arith
  search-stop (suc fuel) lo hi h = ground arith

  abbrev pub Found : ℕ → ℕ → ℕ → Type 0
  Found fuel lo hi = (r : ℕ) × (search fuel ask lo hi ≡ some r) × IsFirst t lo hi r

  -- The round whose midpoint passes.
  Found-below :
      (fuel lo hi mid : ℕ)
      → mid ≡ lo + (hi - lo) / 2
      → lo < hi
      → t mid ≡ true
      → Found fuel lo mid
      → Found (suc fuel) lo hi
  Found-below fuel lo hi mid e h yes' (r, found, first) = (
    r,
    search-step fuel lo hi h ∙ rw (← e, yes') found,
    record {
      from_lo = first.from_lo;
      to_hi = omega (arith, first.to_hi);
      none_before = first.none_before;
      passes = λ p. ground (arith, first.passes, first.to_hi, yes');
    },
  )

  -- The round whose midpoint does not.
  Found-above :
      (fuel lo hi mid : ℕ)
      → IsMonotone t
      → mid ≡ lo + (hi - lo) / 2
      → lo < hi
      → t mid ≡ false
      → Found fuel (mid + 1) hi
      → Found (suc fuel) lo hi
  Found-above fuel lo hi mid mono e h nay (r, found, first) = (
    r,
    search-step fuel lo hi h ∙ rw (← e, nay) found,
    record {
      from_lo = omega (arith, first.from_lo);
      to_hi = first.to_hi;
      none_before = λ n p q. ground (arith, mono n mid, first.none_before n, nay);
      passes = first.passes;
    },
  )

  pub search-IsFirst :
      (fuel lo hi : ℕ) → IsMonotone t → lo ≤ hi → hi < lo + 2 ^ fuel → Found fuel lo hi
  search-IsFirst zero lo hi mono h fuel_left = (
    lo,
    search-stop zero lo hi (omega arith),
    record {
      from_lo = omega arith;
      to_hi = h;
      none_before = λ n p q. absurd (omega arith);
      passes = λ p. absurd (omega arith);
    },
  )
  search-IsFirst (suc fuel) lo hi mono h fuel_left = elim (Bool-cases (ltb lo hi)) [
    | inr stop ↦
        let e = not-ltb→le lo hi stop in
        (
          lo,
          search-stop (suc fuel) lo hi e,
          record {
            from_lo = omega arith;
            to_hi = h;
            none_before = λ n p q. absurd (omega arith);
            passes = λ p. absurd (omega arith);
          },
        )
    | inl go ↦
        let p = ltb→lt lo hi go in
        elim (Bool-cases (t (lo + (hi - lo) / 2))) [
          | inl yes' ↦ Found-below fuel lo hi _ refl p yes' (
              search-IsFirst fuel lo (lo + (hi - lo) / 2) mono (omega arith)
                (omega (arith, pow-suc 2 fuel)))
          | inr nay ↦ Found-above fuel lo hi _ mono refl p nay (
              search-IsFirst fuel (lo + (hi - lo) / 2 + 1) hi mono (omega arith)
                (omega (arith, pow-suc 2 fuel)))
        ]
  ]
