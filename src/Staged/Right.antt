-- ===== src/Staged/Right.antt =====
-- The answers of the staged solver of klee/lib/Solver/IncompleteSolver.cpp.
use xklee.Base.{◌≡◌, refl, Bool, true, false, Option, none, some, if◌then◌else◌}
use xklee.Solver.{Validity, valid, invalid, unknown, ◌>>=◌}
use xklee.Queries.{
  Language, Query, PartialValidity, must_be_true, must_be_false, may_be_true, may_be_false,
  true_or_false, no_answer, negate_expr,
}
use xklee.Queries.Meaning.{
  Returns, Always, Sometimes, IsTruth, IsVerdict, IsPartial, Always-negated, Sometimes-negated,
}
use xklee.Staged.{combine, partial_validity, compute_truth, finish, compute_validity}

module _ {C E Env : Type 0} (lang : Language C E Env) where
  -- What `IncompleteSolver::computeTruth` may answer: `MustBeTrue`, `MayBeFalse` or `None`.
  abbrev pub IsPartialTruth : Query C E → PartialValidity → Type 0
  IsPartialTruth q must_be_true = Always lang q true
  IsPartialTruth q may_be_false = Sometimes lang q false
  IsPartialTruth q no_answer = Unit
  IsPartialTruth q _ = ⊥

  combine-IsPartial :
      (q : Query C E) (t f : PartialValidity)
      → IsPartialTruth q t
      → IsPartialTruth (negate_expr lang q) f
      → IsPartial lang q (combine t f)
  unfolding combine
  combine-IsPartial q must_be_true f a b = a
  combine-IsPartial q may_be_false must_be_true a b = Always-negated lang q true false refl b
  combine-IsPartial q may_be_false may_be_false a b =
      (Sometimes-negated lang q false true refl b, a)
  combine-IsPartial q may_be_false no_answer a b = a
  combine-IsPartial q no_answer must_be_true a b = Always-negated lang q true false refl b
  combine-IsPartial q no_answer may_be_false a b = Sometimes-negated lang q false true refl b
  combine-IsPartial q no_answer no_answer a b = tt
  combine-IsPartial q must_be_false f a b = elim a [ ]
  combine-IsPartial q may_be_true f a b = elim a [ ]
  combine-IsPartial q may_be_false must_be_false a b = elim b [ ]
  combine-IsPartial q may_be_false may_be_true a b = elim b [ ]
  combine-IsPartial q may_be_false true_or_false a b = elim b [ ]
  combine-IsPartial q true_or_false f a b = elim a [ ]
  combine-IsPartial q no_answer must_be_false a b = elim b [ ]
  combine-IsPartial q no_answer may_be_true a b = elim b [ ]
  combine-IsPartial q no_answer true_or_false a b = elim b [ ]

  module _ (primary : Query C E → PartialValidity)
      (truthful : (q : Query C E) → IsPartialTruth q (primary q)) where
    pub partial_validity-IsPartial :
        (q : Query C E) → IsPartial lang q (partial_validity lang primary q)
    unfolding partial_validity
    partial_validity-IsPartial q =
        combine-IsPartial q (primary q) (primary (negate_expr lang q)) (truthful q)
          (truthful (negate_expr lang q))

    module _ (excuse : Type 0) (secondary_truth : Query C E → Option Bool)
        (secondary_validity : Query C E → Option Validity)
        (truth_right : (q : Query C E) → Returns excuse (IsTruth lang q) (secondary_truth q))
        (validity_right : (q : Query C E)
          → Returns excuse (IsVerdict lang q) (secondary_validity q)) where
      answer-IsTruth :
          (q : Query C E) (pv : PartialValidity)
          → IsPartialTruth q pv
          → primary q ≡ pv
          → Returns excuse
              (IsTruth lang q)
              (compute_truth lang primary secondary_truth secondary_validity q)
      unfolding compute_truth
      answer-IsTruth q must_be_true a e = rw e a
      answer-IsTruth q may_be_false a e = rw e a
      answer-IsTruth q no_answer a e = rw e (truth_right q)
      answer-IsTruth q must_be_false a e = elim a [ ]
      answer-IsTruth q may_be_true a e = elim a [ ]
      answer-IsTruth q true_or_false a e = elim a [ ]

      -- With a first solver that answers MustBeTrue, MayBeFalse or None and is right, and a second
      -- solver whose answers are right or whose failures have an excuse, the staged
      -- `compute_truth` answers right and fails only with that excuse.
      pub compute_truth-Returns :
          (q : Query C E)
          → Returns excuse
              (IsTruth lang q)
              (compute_truth lang primary secondary_truth secondary_validity q)
      compute_truth-Returns q = answer-IsTruth q (primary q) (truthful q) refl

      after_may_be_true :
          (q : Query C E) (o : Option Bool)
          → Sometimes lang q true
          → Returns excuse (IsTruth lang q) o
          → Returns excuse (IsVerdict lang q) (o >>= λ tmp. some (if tmp then valid else unknown))
      after_may_be_true q none s r = r
      after_may_be_true q (some true) s r = r
      after_may_be_true q (some false) s r = (s, r)

      after_may_be_false :
          (q : Query C E) (o : Option Bool)
          → Sometimes lang q false
          → Returns excuse (IsTruth lang (negate_expr lang q)) o
          → Returns excuse (IsVerdict lang q) (o >>= λ tmp. some (if tmp then invalid else unknown))
      after_may_be_false q none s r = r
      after_may_be_false q (some true) s r = Always-negated lang q true false refl r
      after_may_be_false q (some false) s r = (Sometimes-negated lang q false true refl r, s)

      finish-Returns :
          (q : Query C E) (pv : PartialValidity)
          → IsPartial lang q pv
          → Returns excuse
              (IsVerdict lang q)
              (finish lang primary secondary_truth secondary_validity q pv)
      unfolding finish
      finish-Returns q must_be_true a = a
      finish-Returns q must_be_false a = a
      finish-Returns q true_or_false a = a
      finish-Returns q may_be_true a = after_may_be_true q (secondary_truth q) a (truth_right q)
      finish-Returns q may_be_false a =
          after_may_be_false q (secondary_truth (negate_expr lang q)) a
            (truth_right (negate_expr lang q))
      finish-Returns q no_answer a = validity_right q

      -- With a first solver that answers MustBeTrue, MayBeFalse or None and is right, and a second
      -- solver whose answers are right or whose failures have an excuse, the staged
      -- `compute_validity` answers right and fails only with that excuse.
      pub compute_validity-Returns :
          (q : Query C E)
          → Returns excuse
              (IsVerdict lang q)
              (compute_validity lang primary secondary_truth secondary_validity q)
      unfolding compute_validity
      compute_validity-Returns q =
          finish-Returns q (partial_validity lang primary q) (partial_validity-IsPartial q)
