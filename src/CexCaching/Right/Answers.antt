-- ===== src/CexCaching/Right/Answers.antt =====
-- The four queries of klee/lib/Solver/CexCachingSolver.cpp: validity, truth, a value and the values
-- of objects.
use xklee.Base.{
  ℕ, ◌≡◌, refl, Bool, true, false, Option, none, some, List, arith, Bool-cases, inl, inr, ◌⊎◌, all,
}
use xklee.Solver.{Validity, valid, invalid, unknown}
use xklee.Queries.{Query}
use xklee.Queries.Meaning.{Returns}
use xklee.Assignments.{Assignment, Bytes, evaluate}
use xklee.CexCaching.{
  BoolExpr, Constraints, Theory, CexState, lookup_assignment, evaluate_expr, with_false,
  negate_expr, get_assignment, verdict, validity_from, compute_validity, is_null, is_refuted,
  compute_truth,
}
use xklee.CexCaching.Search.{IsRight}
use xklee.CexCaching.Right.{
  IsCounterexample, IsNegating, AreValues, IsKey, Looked, lookup_assignment-Looked,
}
use xklee.CexCaching.Right.Asked.{IsAnswered, get_assignment-IsAnswered}

module _ (theory : Theory) where
  open theory use {holds, find_symbolic_objects}

  -- The expression has the value wherever the constraints hold, or somewhere where they hold.
  abbrev pub Always : Query Constraints BoolExpr → Bool → Type 0
  Always q b =
      (bytes : Bytes)
      → all (λ e. holds e bytes) q.constraints ≡ true
      → evaluate_expr theory q.expr bytes ≡ b

  abbrev pub Sometimes : Query Constraints BoolExpr → Bool → Type 0
  Sometimes q b =
      (bytes : Bytes) × (all (λ e. holds e bytes) q.constraints ≡ true)
      × (evaluate_expr theory q.expr bytes ≡ b)

  abbrev pub IsVerdict : Query Constraints BoolExpr → Validity → Type 0
  IsVerdict q valid = Always q true
  IsVerdict q invalid = Always q false
  IsVerdict q unknown = Sometimes q true × Sometimes q false

  abbrev pub IsTruth : Query Constraints BoolExpr → Bool → Type 0
  IsTruth q true = Always q true
  IsTruth q false = Sometimes q false

  -- A result and the state behind it.
  abbrev pub Ends : {A : Type 0} → Type 0 → (A → Type 0) → Option A × CexState → Type 0
  Ends excuse P (answer, state) = Returns excuse P answer × IsRight theory state.cache

  Always-false_from :
      (negates : IsNegating theory) (q : Query Constraints BoolExpr)
      → IsCounterexample theory (negate_expr theory q) none
      → Always q false
  Always-false_from negates q c bytes h =
      let n = negates q.expr bytes in let z = c bytes h in ground arith

  module _ (same_bindings : Assignment → Assignment → Bool) (try_all : Bool)
      (compute_initial_values : Query Constraints BoolExpr
        → List ℕ
        → Option (Option (List (List ℕ))))
      (excuse : Type 0) (negates : IsNegating theory)
      (solves : (q : Query Constraints BoolExpr) (key : List ℕ)
        → IsKey theory q key
        → Returns excuse
            (AreValues theory q (find_symbolic_objects key))
            (compute_initial_values q (find_symbolic_objects key)))
      (q : Query Constraints BoolExpr) where
    abbrev ask : Query Constraints BoolExpr → CexState → Option (Option Assignment) × CexState
    ask = get_assignment theory same_bindings try_all compute_initial_values

    answered :
        (p : Query Constraints BoolExpr) (state : CexState)
        → IsRight theory state.cache
        → IsAnswered theory excuse p (ask p state)
    answered =
        get_assignment-IsAnswered theory same_bindings try_all compute_initial_values excuse negates
          solves

    verdict_valid :
        (a : Assignment) (answer : Option (Option Assignment) × CexState)
        → all (λ e. holds e (evaluate a)) q.constraints ≡ true
        → evaluate_expr theory q.expr (evaluate a) ≡ true
        → IsAnswered theory excuse q answer
        → Ends excuse
            (IsVerdict q)
            (verdict theory same_bindings try_all compute_initial_values valid answer)
    verdict_valid a (none, state) h t r = r
    verdict_valid a (some none, state) h t r = r
    verdict_valid a (some (some b), state) h t r =
        (((evaluate a, h, t), (evaluate b, r.0.0, r.0.1)), r.1)

    verdict_invalid :
        (a : Assignment) (answer : Option (Option Assignment) × CexState)
        → all (λ e. holds e (evaluate a)) q.constraints ≡ true
        → evaluate_expr theory q.expr (evaluate a) ≡ false
        → IsAnswered theory excuse (negate_expr theory q) answer
        → Ends excuse
            (IsVerdict q)
            (verdict theory same_bindings try_all compute_initial_values invalid answer)
    verdict_invalid a (none, state) h t r = r
    verdict_invalid a (some none, state) h t r = (Always-false_from negates q r.0, r.1)
    verdict_invalid a (some (some b), state) h t r =
        let n = negates q.expr (evaluate b) in
        (((evaluate b, r.0.0, ground arith), (evaluate a, h, t)), r.1)

    validity_from-Ends :
        (bytes : Bytes) (answer : Option (Option Assignment) × CexState)
        → all (λ e. holds e bytes) q.constraints ≡ true
        → IsAnswered theory excuse (with_false q) answer
        → Ends excuse
            (IsVerdict q)
            (validity_from theory same_bindings try_all compute_initial_values q answer)
    validity_from-Ends bytes (none, state) h r = r
    validity_from-Ends bytes (some none, state) h r = let z = r.0 bytes h in cc
    validity_from-Ends bytes (some (some a), state) h r =
        elim (Bool-cases (evaluate_expr theory q.expr (evaluate a))) [
          | inl f ↦ rw f (verdict_valid a (ask q state) r.0.0 f (answered q state r.1))
          | inr f ↦ rw f (
              verdict_invalid a (ask (negate_expr theory q) state) r.0.0 f
                (answered (negate_expr theory q) state r.1))
        ]

    -- Where the constraints hold under some bytes, the stored results are solutions of their
    -- sets, the solver behind gives counterexamples or says that there are none, or fails for a
    -- reason, and negation is right, `compute_validity` fails for that reason only and its
    -- verdict is that of all bytes that satisfy the constraints: always true, always false, or
    -- true for some and false for others. The cache stays right.
    pub compute_validity-Ends :
        (state : CexState) (bytes : Bytes)
        → IsRight theory state.cache
        → all (λ e. holds e bytes) q.constraints ≡ true
        → Ends excuse
            (IsVerdict q)
            (compute_validity theory same_bindings try_all compute_initial_values q state)
    unfolding compute_validity
    compute_validity-Ends state bytes r h =
        validity_from-Ends bytes (ask (with_false q) state) h (answered (with_false q) state r)

    is_null-Ends :
        (state : CexState) (answer : Option (Option Assignment) × CexState)
        → IsAnswered theory excuse q answer
        → Ends excuse
            (IsTruth q)
            (is_null theory same_bindings try_all compute_initial_values answer)
    is_null-Ends state (none, after) r = r
    is_null-Ends state (some none, after) r = r
    is_null-Ends state (some (some a), after) r = ((evaluate a, r.0.0, r.0.1), r.1)

    -- Why a call may fail: the solver does, or the option is on and the expression is never true.
    abbrev pub Excuse : Bool → Type 0
    Excuse experimental = excuse ⊎ ((experimental ≡ true) × Always q false)

    weaken :
        (experimental : Bool) (answer : Option Bool × CexState)
        → Ends excuse (IsTruth q) answer
        → Ends (Excuse experimental) (IsTruth q) answer
    weaken experimental (none, state) r = (inl r.0, r.1)
    weaken experimental (some b, state) r = r

    refuted-Always :
        (looked : List ℕ × Option (Option Assignment))
        → Looked theory (negate_expr theory q) looked
        → is_refuted theory same_bindings try_all compute_initial_values looked.1 ≡ true
        → Always q false
    refuted-Always (key, none) l e = cc
    refuted-Always (key, some none) l e = Always-false_from negates q l
    refuted-Always (key, some (some a)) l e = cc

    -- Where the stored results are solutions of their sets, the solver behind gives
    -- counterexamples or says that there are none, or fails for a reason, and negation is right,
    -- `compute_truth` tells whether the expression is true under all bytes that satisfy the
    -- constraints, unless the solver behind fails or the experimental option is on and the
    -- expression is false under all of them. The cache stays right.
    pub compute_truth-Ends :
        (experimental : Bool) (state : CexState)
        → IsRight theory state.cache
        → Ends
            (Excuse experimental)
            (IsTruth q)
            (compute_truth theory same_bindings try_all compute_initial_values experimental q state)
    unfolding compute_truth
    compute_truth-Ends false state r =
        weaken false (is_null theory same_bindings try_all compute_initial_values (ask q state))
          (is_null-Ends state (ask q state) (answered q state r))
    compute_truth-Ends true state r =
        let looked = lookup_assignment theory try_all (negate_expr theory q) state in
        elim (Bool-cases
          (is_refuted theory same_bindings try_all compute_initial_values looked.1)) [
            | inl f ↦ rw f (
              inr (
                refl,
                refuted-Always looked
                    (lookup_assignment-Looked theory negates try_all (negate_expr theory q) state r)
                    f,
              ),
              r,
            )
            | inr f ↦ rw f (
                weaken true
                  (is_null theory same_bindings try_all compute_initial_values (ask q state))
                  (is_null-Ends state (ask q state) (answered q state r)))
          ]
