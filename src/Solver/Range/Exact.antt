-- ===== src/Solver/Range/Exact.antt =====
-- The three stages of `Solver::getRange` of klee/lib/Solver/Solver.cpp together.
use xklee.Base.{
  ℕ, zero, suc, ◌^◌, ◌≤◌, ◌<◌, ◌≡◌, Bool, not, Option, some, List, ◌∷◌, arith, All, Any, all,
  not-all→Any, All-map, All-Any, Any-map, Bool-cases, inl, inr, ◌==◌, ltb, leb, ltb→lt, not-ltb→le,
}
use xklee.Base.Powers.{two-pow_mono, two-pow-pos}
use xklee.Solver.{
  BoolExpr, test, value, search, max_value_of_n_bits, must_be_true, may_be_true, must_be_false,
  ask_bits, ask_min, ask_max, find_min, get_range,
}
use xklee.Solver.Search.{IsFirst, search-IsFirst}
use xklee.Solver.Range.{
  max_value_lem, bits_enough, reaches_down, stays_below, ask_bits_lem, ask_min_lem, ask_max_lem,
  bits_enough→All, bits_enough-IsMonotone, stays_below→All, not-stays_below, stays_below-IsMonotone,
  reaches_down→Any, not-reaches_down, reaches_down-IsMonotone,
}

module _ {Env : Type 0} (compute_truth : BoolExpr Env → Option Bool) (first : Env)
    (others : List Env)
    (decides : (p : Env → Bool) → compute_truth (test p) ≡ some (all p (first ∷ others)))
    (e : Env → ℕ) where
  abbrev feasible : List Env
  feasible = first ∷ others

  bits_stage :
      (width : ℕ)
      → width ≤ 64
      → All (λ env. e env < 2 ^ width) feasible
      → (bits : ℕ) × (search 64 (ask_bits compute_truth e) 0 width ≡ some bits)
        × (bits ≤ 64)
        × All (λ env. e env < 2 ^ bits) feasible
  bits_stage width w h =
      let (bits, found, first_bits) =
        search-IsFirst (ask_bits compute_truth e) (bits_enough compute_truth first others decides e)
          (ask_bits_lem compute_truth first others decides e) 64 0 width
          (bits_enough-IsMonotone compute_truth first others decides e) (omega arith)
          (omega arith) in
      (bits, found, omega (arith, first_bits.to_hi), enough bits first_bits)
    where
      enough :
          (bits : ℕ)
          → IsFirst (bits_enough compute_truth first others decides e) 0 width bits
          → All (λ env. e env < 2 ^ bits) feasible
      enough bits f = elim (Bool-cases (ltb bits width)) [
        | inl p ↦
            bits_enough→All compute_truth first others decides e bits
              (f.passes (ltb→lt bits width p))
        | inr p ↦
            All-map (λ env q. omega (arith, two-pow_mono bits width (not-ltb→le bits width p)))
              feasible h
      ]

  below_top :
      (bits : ℕ)
      → bits ≤ 64
      → All (λ env. e env < 2 ^ bits) feasible
      → All (λ env. e env ≤ max_value_of_n_bits bits) feasible
  below_top bits b h = All-map (λ env q. omega (arith, max_value_lem bits b)) feasible h

  top-lt : (bits : ℕ) → bits ≤ 64 → max_value_of_n_bits bits < 2 ^ 64
  top-lt bits b = omega (arith, max_value_lem bits b, two-pow_mono 64 bits b, two-pow-pos bits)

  abbrev IsLeast : ℕ → Type 0
  IsLeast n = All (λ env. n ≤ e env) feasible × Any (λ env. e env ≡ n) feasible

  abbrev IsGreatest : ℕ → Type 0
  IsGreatest n = All (λ env. e env ≤ n) feasible × Any (λ env. e env ≡ n) feasible

  least_bound :
      (n top : ℕ)
      → All (λ env. e env ≤ top) feasible
      → IsFirst (reaches_down compute_truth first others decides e) 0 top n
      → All (λ env. n ≤ e env) feasible
  least_bound zero top h f = All-map (λ env p. omega arith) feasible h
  least_bound (suc n) top h f =
      not-reaches_down compute_truth first others decides e n
        (f.none_before n (omega arith) (omega arith))

  least_reached :
      (n top : ℕ)
      → All (λ env. e env ≤ top) feasible
      → IsFirst (reaches_down compute_truth first others decides e) 0 top n
      → Any (λ env. e env ≤ n) feasible
  least_reached n top h f = elim (Bool-cases (ltb n top)) [
    | inl p ↦ reaches_down→Any compute_truth first others decides e n (f.passes (ltb→lt n top p))
    | inr p ↦ let q = not-ltb→le n top p in inl (omega (arith, h.0))
  ]

  search-IsLeast :
      (top : ℕ)
      → top < 2 ^ 64
      → All (λ env. e env ≤ top) feasible
      → (least : ℕ) × (search 64 (ask_min compute_truth e) 0 top ≡ some least) × IsLeast least
  search-IsLeast top t h =
      let (least, found, f) =
        search-IsFirst (ask_min compute_truth e) (reaches_down compute_truth first others decides e)
          (ask_min_lem compute_truth first others decides e) 64 0 top
          (reaches_down-IsMonotone compute_truth first others decides e) (omega arith)
          (omega arith) in
      let bound = least_bound least top h f in
      (
        least,
        found,
        (
          bound,
          All-Any feasible (λ env (p : least ≤ e env) (q : e env ≤ least). omega arith) bound
              (least_reached least top h f),
        ),
      )

  -- Zero is asked for first.
  find_min-IsLeast :
      (top : ℕ)
      → top < 2 ^ 64
      → All (λ env. e env ≤ top) feasible
      → (least : ℕ) × (find_min compute_truth e top ≡ some least) × IsLeast least
  unfolding find_min may_be_true must_be_false must_be_true
  find_min-IsLeast top t h = elim (Bool-cases (all (λ env. not (e env == 0)) feasible)) [
    | inl none_zero ↦
        let (least, found, exact) = search-IsLeast top t h in
        (least, rw (decides (λ env. not (e env == 0)), none_zero) found, exact)
    | inr some_zero ↦ (
      0,
      rw (decides (λ env. not (e env == 0)), some_zero),
      (
        All-map (λ env p. omega arith) feasible h,
        Any-map (λ env p. ground arith) feasible
            (not-all→Any (λ env. not (e env == 0)) feasible some_zero),
      ),
    )
  ]

  greatest_bound :
      (least top n : ℕ)
      → All (λ env. e env ≤ top) feasible
      → IsFirst (stays_below compute_truth first others decides e) least top n
      → All (λ env. e env ≤ n) feasible
  greatest_bound least top n h f = elim (Bool-cases (ltb n top)) [
    | inl p ↦ stays_below→All compute_truth first others decides e n (f.passes (ltb→lt n top p))
    | inr p ↦ let q = not-ltb→le n top p in All-map (λ env r. omega arith) feasible h
  ]

  greatest_reached :
      (least top n : ℕ)
      → Any (λ env. e env ≡ least) feasible
      → IsFirst (stays_below compute_truth first others decides e) least top n
      → Any (λ env. n ≤ e env) feasible
  greatest_reached least top zero a f = Any-map (λ env p. omega arith) feasible a
  greatest_reached least top (suc n) a f = elim (Bool-cases (leb least n)) [
    | inl p ↦
        not-stays_below compute_truth first others decides e n
          (f.none_before n (ground arith) (omega arith))
    | inr p ↦
        let q = f.from_lo in
        let r : suc n ≡ least = ground arith in Any-map (λ env s. omega arith) feasible a
  ]

  search-IsGreatest :
      (least top : ℕ)
      → top < 2 ^ 64
      → IsLeast least
      → All (λ env. e env ≤ top) feasible
      → (greatest : ℕ) × (search 64 (ask_max compute_truth e) least top ≡ some greatest)
        × IsGreatest greatest
  search-IsGreatest least top t l h =
      let (greatest, found, f) =
        search-IsFirst (ask_max compute_truth e) (stays_below compute_truth first others decides e)
          (ask_max_lem compute_truth first others decides e) 64 least top
          (stays_below-IsMonotone compute_truth first others decides e) (omega (arith, l.0.0, h.0))
          (omega arith) in
      let bound = greatest_bound least top greatest h f in
      (
        greatest,
        found,
        (
          bound,
          All-Any feasible (λ env (p : e env ≤ greatest) (q : greatest ≤ e env). omega arith) bound
              (greatest_reached least top greatest l.1 f),
        ),
      )

  -- Over a solver that decides every test on the assignments that satisfy the constraints, for
  -- a width up to 64 and an expression whose values fit it, `get_range` ends within its 64
  -- rounds and returns the least and the greatest value of the expression: both are attained
  -- and every value lies between them.
  pub get_range-exact :
      (width : ℕ)
      → width ≤ 64
      → All (λ env. e env < 2 ^ width) feasible
      → (least greatest : ℕ) × (get_range compute_truth width (value e) ≡ some (least, greatest))
        × (All (λ env. least ≤ e env) feasible × Any (λ env. e env ≡ least) feasible)
        × (All (λ env. e env ≤ greatest) feasible × Any (λ env. e env ≡ greatest) feasible)
  unfolding get_range
  get_range-exact width w h =
      let (bits, found_bits, small, fits) = bits_stage width w h in
      let t = top-lt bits small in
      let b = below_top bits small fits in
      let (least, found_least, l) = find_min-IsLeast (max_value_of_n_bits bits) t b in
      let (greatest, found_greatest, g) =
        search-IsGreatest least (max_value_of_n_bits bits) t l b in
      (least, greatest, rw (found_bits, found_least, found_greatest), l, g)
