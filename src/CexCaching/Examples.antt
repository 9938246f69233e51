-- ===== src/CexCaching/Examples.antt =====
-- klee/lib/Solver/CexCachingSolver.cpp on one byte and the expressions "it is 0" and "it is not".
use xklee.Base.{
  ℕ, zero, suc, ◌≡◌, refl, ap, Bool, true, false, not, ◌&&◌, Option, none, some, List, [], ◌∷◌,
  ◌==◌, arith, all, if◌then◌else◌, Bool-cases, inl, inr,
}
use xklee.Solver.{invalid}
use xklee.Queries.{Query}
use xklee.Queries.Meaning.{Returns}
use xklee.MapOfSets
use xklee.MapOfSets.{find_superset, superset_in_any, superset_at, find_subset, find_below}
use xklee.MapOfSets.Ordered.{IsOrdered}
use xklee.Assignments.{Assignment, Bytes, evaluate}
use xklee.CexCaching.{
  BoolExpr, constant, symbolic, Constraints, Theory, CexState, evaluate_expr, get_assignment,
  compute_validity, compute_truth, compute_value, lookup_assignment, lookup_negated,
  search_for_assignment, first_satisfying,
}
use xklee.CexCaching.Search.{IsRight, IsSolution}
use xklee.CexCaching.Right.{IsCounterexample, IsNegating, AreValues, IsKey}
use xklee.CexCaching.Right.Asked.{IsAnswered, get_assignment-IsAnswered}
use xklee.CexCaching.Right.Answers.{
  Ends, IsVerdict, IsTruth, Excuse, compute_validity-Ends, compute_truth-Ends,
}
use xklee.CexCaching.Right.Values.{IsValueOf, compute_value-Ends}

-- Expression 0 is "the byte is 0" and expression 1 is its negation.
abbrev truth : ℕ → Bool → Bool
truth zero b = b
truth (suc zero) b = not b
truth (suc (suc e)) b = false

abbrev negation : BoolExpr → BoolExpr
negation (constant b) = constant (not b)
negation (symbolic zero) = symbolic 1
negation (symbolic (suc zero)) = symbolic 0
negation (symbolic (suc (suc e))) = constant true

abbrev one_byte : Theory
one_byte = record {
  holds = λ e bytes. truth e (bytes 0 0 == 0);
  is_zero = negation;
  find_symbolic_objects = λ key. 0 ∷ [];
}

abbrev is_counterexample : Query Constraints BoolExpr → ℕ → Bool
is_counterexample q byte =
    let bytes = evaluate ((0, byte ∷ []) ∷ []) in
    all (λ e. truth e (bytes 0 0 == 0)) q.constraints && not (evaluate_expr one_byte q.expr bytes)

-- A solver that tries the byte 0 and the byte 1.
abbrev solve : Query Constraints BoolExpr → List ℕ → Option (Option (List (List ℕ)))
solve q objects =
    if is_counterexample q 0
    then some (some ((0 ∷ []) ∷ []))
    else (if is_counterexample q 1 then some (some ((1 ∷ []) ∷ [])) else some none)

negates : IsNegating one_byte
negates (constant b) bytes = refl
negates (symbolic zero) bytes = refl
negates (symbolic (suc zero)) bytes = ground arith
negates (symbolic (suc (suc e))) bytes = refl

abbrev value_of : BoolExpr → Bool → Bool
value_of (constant c) b = c
value_of (symbolic e) b = truth e b

evaluate_expr-value_of :
    (e : BoolExpr) (bytes : Bytes) → evaluate_expr one_byte e bytes ≡ value_of e (bytes 0 0 == 0)
evaluate_expr-value_of (constant c) bytes = refl
evaluate_expr-value_of (symbolic e) bytes = refl

is_counterexample-value_of :
    (q : Query Constraints BoolExpr) (byte : ℕ)
    → is_counterexample q byte
      ≡ (all (λ e. truth e (byte == 0)) q.constraints && not (value_of q.expr (byte == 0)))
is_counterexample-value_of q byte =
    rw (evaluate_expr-value_of q.expr (evaluate ((0, byte ∷ []) ∷ []))) refl

none-IsCounterexample :
    (q : Query Constraints BoolExpr)
    → is_counterexample q 0 ≡ false
    → is_counterexample q 1 ≡ false
    → IsCounterexample one_byte q none
none-IsCounterexample q f g bytes h = elim (Bool-cases (bytes 0 0 == 0)) [
  | inl s ↦
      let here = ap (λ b. all (λ e. truth e b) q.constraints) s in
      let there = ap (λ b. value_of q.expr b) s in
      let v = evaluate_expr-value_of q.expr bytes in
      let c = is_counterexample-value_of q 0 in ground arith
  | inr s ↦
      let here = ap (λ b. all (λ e. truth e b) q.constraints) s in
      let there = ap (λ b. value_of q.expr b) s in
      let v = evaluate_expr-value_of q.expr bytes in
      let c = is_counterexample-value_of q 1 in ground arith
]

solves :
    (q : Query Constraints BoolExpr) (key : List ℕ)
    → IsKey one_byte q key
    → Returns ⊥ (AreValues one_byte q (0 ∷ [])) (solve q (0 ∷ []))
solves q key k = elim (Bool-cases (is_counterexample q 0)) [
  | inl f ↦ rw f (ground arith)
  | inr f ↦ elim (Bool-cases (is_counterexample q 1)) [
    | inl g ↦ rw (f, g) (ground arith)
    | inr g ↦ rw (f, g) (none-IsCounterexample q f g)
  ]
]

abbrev fresh : CexState
fresh = record { cache = MapOfSets.empty; assignments_table = [] }

abbrev same_byte : Assignment → Assignment → Bool
same_byte a b = evaluate a 0 0 == evaluate b 0 0

fresh-solutions :
    (t : List ℕ) (v : Option Assignment)
    → MapOfSets.lookup t fresh.cache ≡ some v
    → IsSolution one_byte t v
unfolding MapOfSets.lookup
fresh-solutions [] v e = cc
fresh-solutions (k ∷ t) v e = cc

fresh-IsRight : IsRight one_byte fresh.cache
unfolding IsOrdered
fresh-IsRight = record { ordered = tt; solutions = fresh-solutions }

-- The byte is not 0, and is it 0?
abbrev refuted : Query Constraints BoolExpr
refuted = record { constraints = 1 ∷ []; expr = symbolic 0 }

abbrev open_query : Query Constraints BoolExpr
open_query = record { constraints = []; expr = symbolic 0 }

-- The state behind a first query.
warm : CexState
warm = (get_assignment one_byte same_byte false solve refuted fresh).1

warm-IsRight : IsRight one_byte warm.cache
unfolding warm
warm-IsRight =
    (get_assignment-IsAnswered one_byte same_byte false solve ⊥ negates solves refuted fresh
      fresh-IsRight).1

get_assignment-IsAnswered_example :
    IsAnswered one_byte ⊥ open_query (get_assignment one_byte same_byte false solve open_query warm)
get_assignment-IsAnswered_example =
    get_assignment-IsAnswered one_byte same_byte false solve ⊥ negates solves open_query warm
      warm-IsRight

compute_validity-Ends_example :
    Ends one_byte ⊥
      (IsVerdict one_byte refuted)
      (compute_validity one_byte same_byte false solve refuted warm)
compute_validity-Ends_example =
    compute_validity-Ends one_byte same_byte false solve ⊥ negates solves refuted warm (λ a i. 1)
      warm-IsRight refl

compute_truth-Ends_example :
    Ends one_byte
      (Excuse one_byte same_byte false solve ⊥ negates solves refuted true)
      (IsTruth one_byte refuted)
      (compute_truth one_byte same_byte false solve true refuted warm)
compute_truth-Ends_example =
    compute_truth-Ends one_byte same_byte false solve ⊥ negates solves refuted true warm
      warm-IsRight

compute_value-Ends_example :
    Ends one_byte ⊥
      (IsValueOf one_byte (1 ∷ []) (λ bytes. bytes 0 0))
      (compute_value one_byte same_byte true solve (1 ∷ []) (λ bytes. bytes 0 0) warm)
compute_value-Ends_example =
    compute_value-Ends one_byte same_byte true solve ⊥ negates solves (1 ∷ []) (λ bytes. bytes 0 0)
      warm (λ a i. 1) warm-IsRight refl

refuted_validity : (compute_validity one_byte same_byte false solve refuted fresh).0 ≡ some invalid
unfolding compute_validity get_assignment lookup_assignment lookup_negated search_for_assignment
    MapOfSets.lookup find_superset superset_in_any superset_at find_subset find_below
    first_satisfying MapOfSets.insert MapOfSets.update_child
refuted_validity = refl

-- With the option the same query is answered, and then not any more.
refuted_truth : (compute_truth one_byte same_byte false solve true refuted fresh).0 ≡ some false
unfolding compute_truth get_assignment lookup_assignment lookup_negated search_for_assignment
    MapOfSets.lookup find_superset superset_in_any superset_at find_subset find_below
    first_satisfying MapOfSets.insert MapOfSets.update_child
refuted_truth = refl
