-- ===== src/Queries.antt =====
-- klee/include/klee/Solver.h and klee/include/klee/IncompleteSolver.h: what the layers of the
-- solver chain have in common. `E` are the expressions of width 1, `C` the constraint sets and
-- `Env` the assignments of values to the symbolic bytes.
pub mod Meaning
pub mod Sample
use xklee.Base.{◌≡◌, Bool, true, false, not, List}

-- What the layers use of expressions and constraints (klee/lib/Expr).
pub record Language (C E Env : Type 0) : Type 0 where
  -- `Expr::createIsZero`.
  pub is_zero : E → E
  -- `a.compare(b) < 0`.
  pub precedes : E → E → Bool
  -- Structural equality, of expressions and of constraint sets.
  pub same_expr : E → E → Bool
  pub same_constraints : C → C → Bool
  pub holds : E → Env → Bool
  -- The assignments that satisfy the constraints, at least one, as the executor maintains.
  pub first : C → Env
  pub others : C → List Env
  pub holds-is_zero : (e : E) (env : Env) → holds (is_zero e) env ≡ not (holds e env)
  pub same_expr-eq : (a b : E) → same_expr a b ≡ true → a ≡ b
  pub same_constraints-eq : (a b : C) → same_constraints a b ≡ true → a ≡ b

pub record Query (C E : Type 0) : Type 0 where
  pub constraints : C
  pub expr : E

-- `IncompleteSolver::PartialValidity`; `no_answer` is its `None`.
pub data PartialValidity : Type 0 where
  must_be_true must_be_false may_be_true may_be_false true_or_false no_answer : PartialValidity

-- `IncompleteSolver::negatePartialValidity`.
abbrev pub negate_partial_validity : PartialValidity → PartialValidity
negate_partial_validity must_be_true = must_be_false
negate_partial_validity must_be_false = must_be_true
negate_partial_validity may_be_true = may_be_false
negate_partial_validity may_be_false = may_be_true
negate_partial_validity true_or_false = true_or_false
-- The failed assertion falls through to `MustBeTrue` where assertions are off.
negate_partial_validity no_answer = must_be_false

module _ {C E Env : Type 0} (lang : Language C E Env) where
  open lang use {is_zero}

  -- `Query::negateExpr`.
  abbrev pub negate_expr : Query C E → Query C E
  negate_expr q = record { constraints = q.constraints; expr = is_zero q.expr }
