-- ===== src/Staged/Examples.antt =====
-- The laws of Staged at a first solver that looks at one byte only.
use xklee.Base.{ℕ, ◌≡◌, refl, Bool, true, false, inl, some}
use xklee.Solver.{unknown}
use xklee.Queries.{Query, PartialValidity, may_be_false, no_answer}
use xklee.Queries.Meaning.{Returns, IsVerdict}
use xklee.Queries.Sample.{Test, below, bytes, holds, truth, validity, truth_right, validity_right}
use xklee.Staged.{partial_validity, compute_validity, combine, finish}
use xklee.Staged.Right.{IsPartialTruth, compute_validity-Returns}

abbrev answer_for : Bool → PartialValidity
answer_for true = no_answer
answer_for false = may_be_false

abbrev primary : Query ℕ Test → PartialValidity
primary q = answer_for (holds q.expr q.constraints)

at_first-IsPartialTruth :
    (c : ℕ) (e : Test) (b : Bool)
    → holds e c ≡ b
    → IsPartialTruth bytes (record { constraints = c; expr = e }) (answer_for b)
at_first-IsPartialTruth c e true h = tt
at_first-IsPartialTruth c e false h = inl h

truthful : (q : Query ℕ Test) → IsPartialTruth bytes q (primary q)
truthful q = at_first-IsPartialTruth q.constraints q.expr (holds q.expr q.constraints) refl

abbrev is_below_7 : Query ℕ Test
is_below_7 = record { constraints = 5; expr = below 7 }

validity-staged : compute_validity bytes primary truth validity is_below_7 ≡ some unknown
unfolding compute_validity partial_validity combine finish
validity-staged = refl

compute_validity-Returns_example :
    Returns ⊥
      (IsVerdict bytes is_below_7)
      (compute_validity bytes primary truth validity is_below_7)
compute_validity-Returns_example =
    compute_validity-Returns bytes primary truthful ⊥ truth validity truth_right validity_right
      is_below_7
