-- ===== src/Solver/Examples.antt =====
-- A solver that decides by going through two assignments, as the witness of the theorems.
use xklee.Base.{ℕ, ◌*◌, ◌≤◌, ◌≡◌, refl, Bool, Option, some, [], ◌∷◌, arith, All, Any, all, ◌==◌}
use xklee.Solver.{
  BoolExpr, test, value, Validity, unknown, search, must_be_true, may_be_true, must_be_false,
  evaluate, compute_validity, find_min, ask_bits, ask_min, ask_max, get_range,
}
use xklee.Solver.Answers.{holds, Verdict, evaluate-Verdict}
use xklee.Solver.Range.Exact.{get_range-exact}

-- The symbolic byte is 5 or 9.
abbrev oracle : BoolExpr ℕ → Option Bool
oracle (BoolExpr.constant b) = some b
oracle (test p) = some (all p (5 ∷ 9 ∷ []))

oracle_decides : (p : ℕ → Bool) → oracle (test p) ≡ some (all p (5 ∷ 9 ∷ []))
oracle_decides p = refl

abbrev is_nine : BoolExpr ℕ
is_nine = test (λ b. b == 9)

evaluate-Verdict_example :
    (v : Validity) × (evaluate oracle is_nine ≡ some v)
    × Verdict oracle 5 (9 ∷ []) oracle_decides (holds is_nine) v
evaluate-Verdict_example = evaluate-Verdict oracle 5 (9 ∷ []) oracle_decides is_nine

get_range-exact_example :
    (least greatest : ℕ) × (get_range oracle 8 (value (λ b. b * 3)) ≡ some (least, greatest))
    × (All (λ b. least ≤ b * 3) (5 ∷ 9 ∷ []) × Any (λ b. b * 3 ≡ least) (5 ∷ 9 ∷ []))
    × (All (λ b. b * 3 ≤ greatest) (5 ∷ 9 ∷ []) × Any (λ b. b * 3 ≡ greatest) (5 ∷ 9 ∷ []))
get_range-exact_example =
    get_range-exact oracle 5 (9 ∷ []) oracle_decides (λ b. b * 3) 8 (omega arith) (omega arith)

range_of_tripled : get_range oracle 8 (value (λ b. b * 3)) ≡ some (15, 27)
unfolding get_range find_min search ask_bits ask_min ask_max must_be_true may_be_true must_be_false
range_of_tripled = refl

nine_is_unknown : evaluate oracle is_nine ≡ some unknown
unfolding evaluate compute_validity
nine_is_unknown = refl
