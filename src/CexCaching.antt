-- ===== src/CexCaching.antt =====
-- klee/lib/Solver/CexCachingSolver.cpp: a solver that remembers counterexamples by the set of
-- constraints that they satisfy. A null assignment is `none`: the set has no solution. Each
-- operation takes the state and gives it back; `none` as an answer is the return value false, or a
-- failed assertion. The counters and timers are left out.
pub mod Sets
pub mod Search
pub mod Right
mod Examples
use xklee.Base.{
  ℕ, zero, suc, Bool, true, false, not, ◌&&◌, Option, none, some, List, [], ◌∷◌, ltb, if◌then◌else◌,
}
use xklee.Solver.{Validity, valid, invalid, unknown, ◌>>=◌}
use xklee.Queries.{Query}
use xklee.MapOfSets
use xklee.MapOfSets.{Node, ◌orelse◌, find_superset, find_subset}
use xklee.Assignments.{Assignment, Bytes, evaluate, assignment, satisfies, find_binding}

-- An expression of width 1: a constant, or any other by its place in the order of expressions.
pub data BoolExpr : Type 0 where
  constant : Bool → BoolExpr
  symbolic : ℕ → BoolExpr

-- What the solver uses of expressions: their value, and `Expr::createIsZero`.
pub record Theory : Type 0 where
  pub holds : ℕ → Bytes → Bool
  pub is_zero : BoolExpr → BoolExpr
  pub find_symbolic_objects : List ℕ → List ℕ

abbrev pub Constraints : Type 0
Constraints = List ℕ

-- The members `cache` and `assignmentsTable`.
pub record CexState : Type 0 where
  pub cache : Node (Option Assignment)
  pub assignments_table : List Assignment

-- `insert` of a `std::set<ref<Expr>>`, and the set of a range.
abbrev pub insert_key : ℕ → List ℕ → List ℕ
insert_key e [] = e ∷ []
insert_key e (k ∷ key) =
    let rest = insert_key e key in
    if ltb e k then e ∷ k ∷ key else (if ltb k e then k ∷ rest else k ∷ key)

abbrev pub key_of : List ℕ → List ℕ
key_of [] = []
key_of (e ∷ es) = insert_key e (key_of es)

-- `NullAssignment` and `NonNullAssignment`.
abbrev pub null_assignment : Option Assignment → Bool
null_assignment none = true
null_assignment (some a) = false

abbrev pub non_null_assignment : Option Assignment → Bool
non_null_assignment none = false
non_null_assignment (some a) = true

abbrev pub with_false : Query Constraints BoolExpr → Query Constraints BoolExpr
with_false q = record { constraints = q.constraints; expr = constant false }

abbrev pub zeros : ℕ → List ℕ
zeros zero = []
zeros (suc n) = 0 ∷ zeros n

abbrev pub value_or : List ℕ → Option (List ℕ) → List ℕ
value_or default none = default
value_or default (some bytes) = bytes

-- The loop of `computeInitialValues`: the values of each object, zeros for one without.
abbrev pub values_or_zeros : (ℕ → ℕ) → Assignment → List ℕ → List (List ℕ)
values_or_zeros size a [] = []
values_or_zeros size a (array ∷ objects) =
    value_or (zeros (size array)) (find_binding array a) ∷ values_or_zeros size a objects

module _ (theory : Theory) where
  open theory use {holds, is_zero, find_symbolic_objects}

  -- `Assignment::evaluate` of an expression of width 1.
  abbrev pub evaluate_expr : BoolExpr → Bytes → Bool
  evaluate_expr (constant b) bytes = b
  evaluate_expr (symbolic e) bytes = holds e bytes

  abbrev pub negate_expr : Query Constraints BoolExpr → Query Constraints BoolExpr
  negate_expr q = record { constraints = q.constraints; expr = is_zero q.expr }

  abbrev pub null_or_satisfying_assignment : List ℕ → Option Assignment → Bool
  null_or_satisfying_assignment key none = true
  null_or_satisfying_assignment key (some a) = satisfies holds a key

  -- The loop over the table.
  unfoldable pub first_satisfying : List ℕ → List Assignment → Option (Option Assignment)
  first_satisfying key [] = none
  first_satisfying key (a ∷ table) =
      let rest = first_satisfying key table in if satisfies holds a key then some (some a) else rest

  -- `try_all` is the option `cex-cache-try-all`.
  unfoldable pub search_for_assignment : Bool → List ℕ → CexState → Option (Option Assignment)
  search_for_assignment try_all key state =
      MapOfSets.lookup key state.cache
      orelse (find_superset non_null_assignment key state.cache
          orelse (if try_all
              then (find_subset null_assignment key state.cache
                  orelse first_satisfying key state.assignments_table)
              else find_subset (null_or_satisfying_assignment key) key state.cache))

  -- `lookupAssignment` once `neg` is known, with the key.
  unfoldable pub lookup_negated :
      Bool → List ℕ → BoolExpr → CexState → List ℕ × Option (Option Assignment)
  lookup_negated try_all key (constant false) state = (key, some none)
  lookup_negated try_all key (constant true) state = (key, search_for_assignment try_all key state)
  lookup_negated try_all key (symbolic neg) state =
      (insert_key neg key, search_for_assignment try_all (insert_key neg key) state)

  unfoldable pub lookup_assignment :
      Bool → Query Constraints BoolExpr → CexState → List ℕ × Option (Option Assignment)
  unfolding lookup_negated
  lookup_assignment try_all q state =
      lookup_negated try_all (key_of q.constraints) (is_zero q.expr) state

  -- `assignmentsTable.insert`: an equal assignment that is there is taken instead.
  abbrev pub memoize :
      (Assignment → Assignment → Bool) → Assignment → List Assignment → List Assignment
  memoize same binding [] = binding ∷ []
  memoize same binding (a ∷ table) =
      let rest = memoize same binding table in if same binding a then a ∷ table else a ∷ rest

  -- `solver->impl->computeInitialValues`: failure, no solution, or the values of the objects.
  module _ (same_bindings : Assignment → Assignment → Bool) (try_all : Bool)
      (compute_initial_values : Query Constraints BoolExpr
        → List ℕ
        → Option (Option (List (List ℕ)))) where
    -- The part behind the call.
    abbrev pub remember :
        List ℕ
        → List ℕ
        → CexState
        → Option (Option (List (List ℕ)))
        → Option (Option Assignment) × CexState
    remember key objects state none = (none, state)
    remember key objects state (some none) =
        (some none, record state { cache = MapOfSets.insert key none state.cache })
    remember key objects state (some (some values)) =
        let binding = assignment objects values in
        (
          some (some binding),
          record {
            cache = MapOfSets.insert key (some binding) state.cache;
            assignments_table = memoize same_bindings binding state.assignments_table;
          },
        )

    abbrev pub answer_or_ask :
        Query Constraints BoolExpr
        → CexState
        → List ℕ
        → Option (Option Assignment)
        → Option (Option Assignment) × CexState
    answer_or_ask q state key (some result) = (some result, state)
    answer_or_ask q state key none =
        remember key (find_symbolic_objects key) state
          (compute_initial_values q (find_symbolic_objects key))

    unfoldable pub get_assignment :
        Query Constraints BoolExpr → CexState → Option (Option Assignment) × CexState
    get_assignment q state =
        let (key, found) = lookup_assignment try_all q state in answer_or_ask q state key found

    -- The rest of `computeValidity`, behind each of its two calls.
    abbrev pub verdict :
        Validity → Option (Option Assignment) × CexState → Option Validity × CexState
    verdict when_null (none, state) = (none, state)
    verdict when_null (some none, state) = (some when_null, state)
    verdict when_null (some (some a), state) = (some unknown, state)

    abbrev pub validity_from :
        Query Constraints BoolExpr
        → Option (Option Assignment) × CexState
        → Option Validity × CexState
    validity_from q (none, state) = (none, state)
    validity_from q (some none, state) = (none, state)
    validity_from q (some (some a), state) =
        if evaluate_expr q.expr (evaluate a)
        then verdict valid (get_assignment q state)
        else verdict invalid (get_assignment (negate_expr q) state)

    unfoldable pub compute_validity :
        Query Constraints BoolExpr → CexState → Option Validity × CexState
    compute_validity q state = validity_from q (get_assignment (with_false q) state)

    abbrev pub is_null : Option (Option Assignment) × CexState → Option Bool × CexState
    is_null (none, state) = (none, state)
    is_null (some none, state) = (some true, state)
    is_null (some (some a), state) = (some false, state)

    -- With the option `cex-cache-exp`, a negation that is known to have no solution ends the call.
    abbrev pub is_refuted : Option (Option Assignment) → Bool
    is_refuted (some none) = true
    is_refuted _ = false

    unfoldable pub compute_truth :
        Bool → Query Constraints BoolExpr → CexState → Option Bool × CexState
    compute_truth experimental q state =
        if experimental && is_refuted (lookup_assignment try_all (negate_expr q) state).1
        then (none, state)
        else is_null (get_assignment q state)

    -- `computeValue` of an expression with this value.
    abbrev pub value_under :
        {B : Type 0} → (Bytes → B) → Option (Option Assignment) × CexState → Option B × CexState
    value_under value (none, state) = (none, state)
    value_under value (some none, state) = (none, state)
    value_under value (some (some a), state) = (some (value (evaluate a)), state)

    unfoldable pub compute_value :
        {B : Type 0} → Constraints → (Bytes → B) → CexState → Option B × CexState
    compute_value constraints value state =
        value_under value
          (get_assignment (record { constraints = constraints; expr = constant false }) state)

    abbrev pub values_under :
        (ℕ → ℕ)
        → List ℕ
        → Option (Option Assignment) × CexState
        → Option (Option (List (List ℕ))) × CexState
    values_under size objects (none, state) = (none, state)
    values_under size objects (some none, state) = (some none, state)
    values_under size objects (some (some a), state) =
        (some (some (values_or_zeros size a objects)), state)

    unfoldable pub initial_values :
        (ℕ → ℕ)
        → List ℕ
        → Query Constraints BoolExpr
        → CexState
        → Option (Option (List (List ℕ))) × CexState
    initial_values size objects q state = values_under size objects (get_assignment q state)
