-- ===== src/Solver/Range.antt =====
-- The searches of `Solver::getRange` of klee/lib/Solver/Solver.cpp.
pub mod Exact
use xklee.Base.{
  ℕ, zero, suc, ◌+◌, ◌-◌, ◌/◌, ◌^◌, ◌≤◌, ◌<◌, ◌≡◌, ◌≢◌, refl, ap, sym, ◌∙◌, Bool, true, false, not,
  Option, none, some, List, [], ◌∷◌, arith, All, Any, all, all→All, All→all, not-all→Any, All-map,
  All-Any, Any-map, not-Any, Bool-cases, inl, inr, if◌then◌else◌, ◌==◌, leb, leb→le, not-leb→lt,
  ltb, ==_iff,
}
use xklee.Base.Powers.{two-pow_mono, two-pow-pos, shift_zero→lt, lt→shift_zero, ones_shift}
use xklee.Solver.{
  BoolExpr, test, ValueExpr, value, search, max_value_of_n_bits, must_be_true, may_be_true,
  must_be_false, ask_bits, ask_min, ask_max, get_range, ◌>>=◌,
}
use xklee.Solver.Search.{IsFirst, IsMonotone, search-IsFirst}

pub max_value_lem : (n : ℕ) → n ≤ 64 → max_value_of_n_bits n ≡ 2 ^ n - 1
max_value_lem zero h = refl
max_value_lem (suc n) h = ones_shift (suc n) h

module _ {Env : Type 0} (compute_truth : BoolExpr Env → Option Bool) (first : Env)
    (others : List Env)
    (decides : (p : Env → Bool) → compute_truth (test p) ≡ some (all p (first ∷ others)))
    (e : Env → ℕ) where
  abbrev pub feasible : List Env
  feasible = first ∷ others

  -- The questions as tests of a number.
  abbrev pub bits_enough : ℕ → Bool
  bits_enough n = all (λ env. e env / 2 ^ n == 0) feasible

  abbrev pub reaches_down : ℕ → Bool
  reaches_down n = not (all (λ env. not (leb (e env) n)) feasible)

  abbrev pub stays_below : ℕ → Bool
  stays_below n = all (λ env. leb (e env) n) feasible

  pub ask_bits_lem : (n : ℕ) → ask_bits compute_truth e n ≡ some (bits_enough n)
  unfolding ask_bits must_be_true
  ask_bits_lem n = decides _

  pub ask_min_lem : (n : ℕ) → ask_min compute_truth e n ≡ some (reaches_down n)
  unfolding ask_min may_be_true must_be_false must_be_true
  ask_min_lem n = rw (decides (λ env. not (leb (e env) n)))

  pub ask_max_lem : (n : ℕ) → ask_max compute_truth e n ≡ some (stays_below n)
  unfolding ask_max must_be_true
  ask_max_lem n = decides _

  pub bits_enough→All : (n : ℕ) → bits_enough n ≡ true → All (λ env. e env < 2 ^ n) feasible
  bits_enough→All n h = All-map (λ env p. shift_zero→lt (e env) n p) feasible (all→All _ feasible h)

  pub All→bits_enough : (n : ℕ) → All (λ env. e env < 2 ^ n) feasible → bits_enough n ≡ true
  All→bits_enough n h = All→all _ feasible (All-map (λ env p. lt→shift_zero (e env) n p) feasible h)

  bits_enough-IsMonotone : IsMonotone bits_enough
  bits_enough-IsMonotone m n p h =
      All→bits_enough n
        (All-map (λ env q. omega (arith, two-pow_mono n m p)) feasible (bits_enough→All m h))

  pub stays_below→All : (n : ℕ) → stays_below n ≡ true → All (λ env. e env ≤ n) feasible
  stays_below→All n h = All-map (λ env p. leb→le (e env) n p) feasible (all→All _ feasible h)

  pub All→stays_below : (n : ℕ) → All (λ env. e env ≤ n) feasible → stays_below n ≡ true
  All→stays_below n h =
      All→all (λ env. leb (e env) n) feasible (All-map (λ env p. ground arith) feasible h)

  pub not-stays_below : (n : ℕ) → stays_below n ≡ false → Any (λ env. n < e env) feasible
  not-stays_below n h =
      Any-map (λ env p. not-leb→lt (e env) n p) feasible (not-all→Any _ feasible h)

  stays_below-IsMonotone : IsMonotone stays_below
  stays_below-IsMonotone m n p h =
      All→stays_below n (All-map (λ env q. omega arith) feasible (stays_below→All m h))

  pub reaches_down→Any : (n : ℕ) → reaches_down n ≡ true → Any (λ env. e env ≤ n) feasible
  reaches_down→Any n h =
      Any-map (λ env p. ground arith) feasible
        (not-all→Any (λ env. not (leb (e env) n)) feasible (ground arith))

  pub not-reaches_down : (n : ℕ) → reaches_down n ≡ false → All (λ env. n < e env) feasible
  not-reaches_down n h =
      All-map (λ env p. ground arith) feasible
        (all→All (λ env. not (leb (e env) n)) feasible (ground arith))

  reaches_down-IsMonotone : IsMonotone reaches_down
  reaches_down-IsMonotone m n p h = elim (Bool-cases (reaches_down n)) [
    | inl q ↦ q
    | inr q ↦ absurd (
        not-Any (λ env (r : (n < e env) × (e env ≤ m)). omega arith) feasible
          (All-Any feasible (λ env a b. (a, b)) (not-reaches_down n q) (reaches_down→Any m h)))
  ]
