-- ===== src/CexCaching/Right/Values.antt =====
-- `computeValue` and `computeInitialValues` of klee/lib/Solver/CexCachingSolver.cpp.
use xklee.Base.{
  ℕ, ◌≡◌, refl, ap, ◌∙◌, Bool, true, false, Option, none, some, List, [], ◌∷◌, zero, suc,
  Bool-cases, inl, inr, ◌==◌, ==_iff, all, if◌then◌else◌,
}
use xklee.Queries.{Query}
use xklee.Queries.Meaning.{Returns}
use xklee.Assignments.{Assignment, Bytes, assignment, evaluate, byte_at, bytes_of, find_binding}
use xklee.CexCaching.{
  BoolExpr, constant, Constraints, Theory, CexState, get_assignment, value_under, compute_value,
  zeros, value_or, values_or_zeros, values_under, initial_values,
}
use xklee.CexCaching.Search.{IsRight}
use xklee.CexCaching.Right.{IsCounterexample, IsNegating, AreValues, IsKey}
use xklee.CexCaching.Right.Asked.{IsAnswered, get_assignment-IsAnswered}
use xklee.CexCaching.Right.Answers.{Ends}

byte_at-zeros : (n index : ℕ) → byte_at (zeros n) index ≡ 0
byte_at-zeros zero index = refl
byte_at-zeros (suc n) zero = refl
byte_at-zeros (suc n) (suc index) = byte_at-zeros n index

byte_at-value_or :
    (n index : ℕ) (found : Option (List ℕ))
    → byte_at (value_or (zeros n) found) index ≡ bytes_of found index
byte_at-value_or n index none = byte_at-zeros n index
byte_at-value_or n index (some bytes) = refl

-- The array is one of the objects.
abbrev pub member : ℕ → List ℕ → Bool
member array [] = false
member array (object ∷ objects) = if object == array then true else member array objects

-- The values given out agree with the assignment on the objects.
evaluate-values_or_zeros :
    (size : ℕ → ℕ) (a : Assignment) (objects : List ℕ) (array index : ℕ)
    → member array objects ≡ true
    → evaluate (assignment objects (values_or_zeros size a objects)) array index
      ≡ evaluate a array index
evaluate-values_or_zeros size a [] array index m = cc
evaluate-values_or_zeros size a (object ∷ objects) array index m =
    elim (Bool-cases (object == array)) [
      | inl f ↦
          let same : object ≡ array = (==_iff object array).0 f in
          rw f (
            byte_at-value_or (size object) index (find_binding object a)
            ∙ ap (λ x. evaluate a x index) same)
      | inr f ↦ rw f (evaluate-values_or_zeros size a objects array index (rw f at m))
    ]

module _ (theory : Theory) where
  open theory use {holds, find_symbolic_objects}

  -- The value of an expression under bytes that satisfy the constraints.
  abbrev pub IsValueOf : {B : Type 0} → Constraints → (Bytes → B) → B → Type 0
  IsValueOf constraints value b =
      (bytes : Bytes) × (all (λ e. holds e bytes) constraints ≡ true) × (value bytes ≡ b)

  -- No counterexample, or values that agree with one on the objects.
  abbrev pub AreCounterexample :
      Query Constraints BoolExpr → List ℕ → Option (List (List ℕ)) → Type 0
  AreCounterexample q objects none = IsCounterexample theory q none
  AreCounterexample q objects (some values) =
      (a : Assignment) × IsCounterexample theory q (some a)
      × ((array index : ℕ)
          → member array objects ≡ true
          → evaluate (assignment objects values) array index ≡ evaluate a array index)

  module _ (same_bindings : Assignment → Assignment → Bool) (try_all : Bool)
      (compute_initial_values : Query Constraints BoolExpr
        → List ℕ
        → Option (Option (List (List ℕ))))
      (excuse : Type 0) (negates : IsNegating theory)
      (solves : (q : Query Constraints BoolExpr) (key : List ℕ)
        → IsKey theory q key
        → Returns excuse
            (AreValues theory q (find_symbolic_objects key))
            (compute_initial_values q (find_symbolic_objects key))) where
    abbrev ask : Query Constraints BoolExpr → CexState → Option (Option Assignment) × CexState
    ask = get_assignment theory same_bindings try_all compute_initial_values

    answered :
        (p : Query Constraints BoolExpr) (state : CexState)
        → IsRight theory state.cache
        → IsAnswered theory excuse p (ask p state)
    answered =
        get_assignment-IsAnswered theory same_bindings try_all compute_initial_values excuse negates
          solves

    value_under-Ends :
        {B : Type 0} (constraints : Constraints) (value : Bytes → B) (bytes : Bytes)
        (answer : Option (Option Assignment) × CexState)
        → all (λ e. holds e bytes) constraints ≡ true
        → IsAnswered theory excuse
            (record { constraints = constraints; expr = constant false })
            answer
        → Ends theory excuse
            (IsValueOf constraints value)
            (value_under theory same_bindings try_all compute_initial_values value answer)
    value_under-Ends constraints value bytes (none, state) h r = r
    value_under-Ends constraints value bytes (some none, state) h r = let z = r.0 bytes h in cc
    value_under-Ends constraints value bytes (some (some a), state) h r =
        ((evaluate a, r.0.0, refl), r.1)

    pub compute_value-Ends :
        {B : Type 0} (constraints : Constraints) (value : Bytes → B) (state : CexState)
        (bytes : Bytes)
        → IsRight theory state.cache
        → all (λ e. holds e bytes) constraints ≡ true
        → Ends theory excuse (IsValueOf constraints value) (
            compute_value theory same_bindings try_all compute_initial_values constraints value
              state)
    unfolding compute_value
    compute_value-Ends constraints value state bytes r h =
        let q : Query Constraints BoolExpr = record {
          constraints = constraints;
          expr = constant false;
        } in
        value_under-Ends constraints value bytes (ask q state) h (answered q state r)

    values_under-Ends :
        (size : ℕ → ℕ) (objects : List ℕ) (q : Query Constraints BoolExpr)
        (answer : Option (Option Assignment) × CexState)
        → IsAnswered theory excuse q answer
        → Ends theory excuse
            (AreCounterexample q objects)
            (values_under theory same_bindings try_all compute_initial_values size objects answer)
    values_under-Ends size objects q (none, state) r = r
    values_under-Ends size objects q (some none, state) r = r
    values_under-Ends size objects q (some (some a), state) r =
        ((a, r.0, λ array index m. evaluate-values_or_zeros size a objects array index m), r.1)

    -- Where the stored results are solutions of their sets, the solver behind gives
    -- counterexamples or says that there are none, or fails for a reason, and negation is right,
    -- the values that `initial_values` returns for the objects agree on them with an assignment
    -- that satisfies the constraints and not the expression, and the answer that there are none
    -- is true.
    pub initial_values-Ends :
        (size : ℕ → ℕ) (objects : List ℕ) (q : Query Constraints BoolExpr) (state : CexState)
        → IsRight theory state.cache
        → Ends theory excuse (AreCounterexample q objects) (
            initial_values theory same_bindings try_all compute_initial_values size objects q state)
    unfolding initial_values
    initial_values-Ends size objects q state r =
        values_under-Ends size objects q (ask q state) (answered q state r)
