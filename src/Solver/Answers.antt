-- ===== src/Solver/Answers.antt =====
-- What the answers of the front mean, over a solver that decides each test on the assignments that
-- satisfy the constraints: there is at least one, `first`, as the executor maintains.
use xklee.Base.{
  ◌≡◌, refl, Bool, true, false, not, Option, some, List, [], ◌∷◌, arith, All, Any, all, all→All,
  not-all→Any, All-map, Any-map, Bool-cases, ◌⊎◌, inl, inr,
}
use xklee.Solver.{
  BoolExpr, constant, test, Validity, valid, invalid, unknown, must_be_true, must_be_false,
  may_be_true, compute_validity, evaluate,
}

-- The value of an expression of width 1.
abbrev pub holds : {Env : Type 0} → BoolExpr Env → Env → Bool
holds (constant b) env = b
holds (test p) env = p env

module _ {Env : Type 0} (compute_truth : BoolExpr Env → Option Bool) (first : Env)
    (others : List Env)
    (decides : (p : Env → Bool) → compute_truth (test p) ≡ some (all p (first ∷ others))) where
  abbrev pub Always : (Env → Bool) → Bool → Type 0
  Always p b = All (λ env. p env ≡ b) (first ∷ others)

  abbrev pub Sometimes : (Env → Bool) → Bool → Type 0
  Sometimes p b = Any (λ env. p env ≡ b) (first ∷ others)

  abbrev pub Verdict : (Env → Bool) → Validity → Type 0
  Verdict p valid = Always p true
  Verdict p invalid = Always p false
  Verdict p unknown = Sometimes p true × Sometimes p false

  always_constant : (b : Bool) (xs : List Env) → All (λ env. holds (constant b) env ≡ b) xs
  always_constant b [] = tt
  always_constant b (x ∷ xs) = (refl, always_constant b xs)

  not-true : (b : Bool) → not b ≡ true → b ≡ false
  not-true b h = ground arith

  not-false : (b : Bool) → not b ≡ false → b ≡ true
  not-false b h = ground arith

  -- `must_be_true` says whether the expression holds under every assignment.
  pub must_be_true-Always :
      (q : BoolExpr Env)
      → ((must_be_true compute_truth q ≡ some true) × Always (holds q) true)
        ⊎ ((must_be_true compute_truth q ≡ some false) × Sometimes (holds q) false)
  unfolding must_be_true
  must_be_true-Always (constant true) = inl (refl, always_constant true (first ∷ others))
  must_be_true-Always (constant false) = inr (refl, inl refl)
  must_be_true-Always (test p) = elim (Bool-cases (all p (first ∷ others))) [
    | inl e ↦ inl (rw (decides p, e), all→All p (first ∷ others) e)
    | inr e ↦ inr (rw (decides p, e), not-all→Any p (first ∷ others) e)
  ]

  -- Over a solver that decides every test on the assignments that satisfy the constraints, at
  -- least one, `may_be_true` answers true with an assignment that makes the expression true,
  -- or false when every assignment makes it false.
  pub may_be_true-Sometimes :
      (q : BoolExpr Env)
      → ((may_be_true compute_truth q ≡ some true) × Sometimes (holds q) true)
        ⊎ ((may_be_true compute_truth q ≡ some false) × Always (holds q) false)
  unfolding may_be_true must_be_false must_be_true
  may_be_true-Sometimes (constant true) = inl (refl, inl refl)
  may_be_true-Sometimes (constant false) = inr (refl, always_constant false (first ∷ others))
  may_be_true-Sometimes (test p) = elim (Bool-cases (all (λ env. not (p env)) (first ∷ others))) [
    | inl e ↦ inr (
      rw (decides (λ env. not (p env)), e),
      All-map (λ env h. not-true (p env) h) (first ∷ others)
          (all→All (λ env. not (p env)) (first ∷ others) e),
    )
    | inr e ↦ inl (
      rw (decides (λ env. not (p env)), e),
      Any-map (λ env h. not-false (p env) h) (first ∷ others)
          (not-all→Any (λ env. not (p env)) (first ∷ others) e),
    )
  ]

  -- Over a solver that decides every test on the assignments that satisfy the constraints, at
  -- least one, `evaluate` answers True exactly as the expression holds under all of them,
  -- False as it holds under none, and Unknown as it holds under one and fails under another.
  pub evaluate-Verdict :
      (q : BoolExpr Env)
      → (v : Validity) × (evaluate compute_truth q ≡ some v) × Verdict (holds q) v
  unfolding evaluate compute_validity
  evaluate-Verdict (constant true) = (valid, refl, always_constant true (first ∷ others))
  evaluate-Verdict (constant false) = (invalid, refl, always_constant false (first ∷ others))
  evaluate-Verdict (test p) = elim (Bool-cases (all p (first ∷ others))) [
    | inl e ↦ (valid, rw (decides p, e), all→All p (first ∷ others) e)
    | inr e ↦ elim (Bool-cases (all (λ env. not (p env)) (first ∷ others))) [
      | inl f ↦ (
        invalid,
        rw (decides p, e, decides (λ env. not (p env)), f),
        All-map (λ env h. not-true (p env) h) (first ∷ others) (all→All _ (first ∷ others) f),
      )
      | inr f ↦ (
        unknown,
        rw (decides p, e, decides (λ env. not (p env)), f),
        (
          Any-map (λ env h. not-false (p env) h) (first ∷ others)
              (not-all→Any _ (first ∷ others) f),
          not-all→Any p (first ∷ others) e,
        ),
      )
    ]
  ]
