-- ===== src/Staged.antt =====
-- klee/lib/Solver/IncompleteSolver.cpp: an incomplete solver asked first and a complete one behind
-- it. The incomplete solver's `computeTruth` is `primary`; the other solver's calls return `none`
-- where they fail.
pub mod Right
mod Examples
use xklee.Base.{Bool, true, false, Option, none, some, if◌then◌else◌, ◌&&◌, not}
use xklee.Solver.{Validity, valid, invalid, unknown, ◌>>=◌}
use xklee.Queries.{
  Language, Query, PartialValidity, must_be_true, must_be_false, may_be_true, may_be_false,
  true_or_false, no_answer, negate_expr,
}

-- `pv == MustBeTrue` and `pv != None`.
abbrev pub is_must_be_true : PartialValidity → Bool
is_must_be_true must_be_true = true
is_must_be_true _ = false

abbrev pub is_answer : PartialValidity → Bool
is_answer no_answer = false
is_answer _ = true

-- `IncompleteSolver::computeValidity` from the two answers.
unfoldable pub combine : PartialValidity → PartialValidity → PartialValidity
combine true_result false_result =
    if is_must_be_true true_result
    then must_be_true
    else (if is_must_be_true false_result
        then must_be_false
        else (if is_answer true_result && is_answer false_result
            then true_or_false
            else (if is_answer true_result
                then may_be_false
                else (if is_answer false_result then may_be_true else no_answer))))

module _ {C E Env : Type 0} (lang : Language C E Env) (primary : Query C E → PartialValidity) where
  pub partial_validity : Query C E → PartialValidity
  unfolding combine
  partial_validity q = combine (primary q) (primary (negate_expr lang q))

  module _ (secondary_truth : Query C E → Option Bool)
      (secondary_validity : Query C E → Option Validity) where
    -- `StagedSolverImpl::computeTruth`.
    pub compute_truth : Query C E → Option Bool
    compute_truth q =
        if is_answer (primary q) then some (is_must_be_true (primary q)) else secondary_truth q

    -- The `switch` of `computeValidity`.
    pub finish : Query C E → PartialValidity → Option Validity
    finish q must_be_true = some valid
    finish q must_be_false = some invalid
    finish q true_or_false = some unknown
    finish q may_be_true = do tmp ← secondary_truth q; some (if tmp then valid else unknown)
    finish q may_be_false = do
      tmp ← secondary_truth (negate_expr lang q)
      some (if tmp then invalid else unknown)
    finish q no_answer = secondary_validity q

    -- `StagedSolverImpl::computeValidity`.
    pub compute_validity : Query C E → Option Validity
    unfolding finish partial_validity
    compute_validity q = finish q (partial_validity q)

-- `StagedSolverImpl::computeValue` and `computeInitialValues`: the second solver where the first
-- one fails.
abbrev pub compute_value : {Q A : Type 0} → (Q → Option A) → (Q → Option A) → Q → Option A
compute_value primary_value secondary_value q = elim (primary_value q) [
  | none ↦ secondary_value q
  | some result ↦ some result
]

abbrev pub compute_initial_values : {Q A : Type 0} → (Q → Option A) → (Q → Option A) → Q → Option A
compute_initial_values primary_values secondary_values q = elim (primary_values q) [
  | none ↦ secondary_values q
  | some result ↦ some result
]
