-- ===== src/Solver.antt =====
-- klee/lib/Solver/Solver.cpp: the front of the solvers. The constraints of a query stay the same
-- throughout; `Env` holds the assignments of values to the symbolic bytes, and an expression is
-- its value under each of them, or a constant, which the code treats apart. The solver behind
-- (`SolverImpl::computeTruth`) ends in a process or a library outside the repository and is a
-- parameter: `none` is its failure.
pub mod Search
pub mod Answers
pub mod Range
mod Examples
use xklee.Base.{
  ℕ, zero, suc, ◌+◌, ◌-◌, ◌/◌, ◌^◌, Bool, true, false, not, Option, none, some, if◌then◌else◌, ◌==◌,
  ltb, leb,
}

infixl 5 ◌>>=◌
abbrev pub ◌>>=◌ : {A B : Type 0} → Option A → (A → Option B) → Option B
none >>= f = none
some a >>= f = f a

-- An expression of width 1.
pub data BoolExpr (Env : Type 0) : Type 0 where
  constant : Bool → BoolExpr Env
  test : (Env → Bool) → BoolExpr Env

-- `Query::negateExpr`, that is `Expr::createIsZero`.
abbrev pub negate_expr : {Env : Type 0} → BoolExpr Env → BoolExpr Env
negate_expr (constant b) = constant (not b)
negate_expr (test p) = test (λ env. not (p env))

-- `Solver::Validity`. Its `True`, `False` and `Unknown`.
pub data Validity : Type 0 where
  valid invalid unknown : Validity

-- An expression of any other width.
pub data ValueExpr (Env : Type 0) : Type 0 where
  constant : ℕ → ValueExpr Env
  value : (Env → ℕ) → ValueExpr Env

-- `while (lo<hi)` with its midpoint: `ask` is the question put to the solver, and 64 rounds of
-- fuel are enough for 64-bit bounds.
unfoldable pub search : ℕ → (ℕ → Option Bool) → ℕ → ℕ → Option ℕ
search zero ask lo hi = if ltb lo hi then none else some lo
search (suc fuel) ask lo hi =
    let mid = lo + (hi - lo) / 2 in
    let below = search fuel ask lo mid in
    let above = search fuel ask (mid + 1) hi in
    let round = ask mid >>= (λ res. if res then below else above) in
    if ltb lo hi then round else some lo

abbrev pub max_value_of_n_bits : ℕ → ℕ
max_value_of_n_bits zero = 0
max_value_of_n_bits (suc n) = (2 ^ 64 - 1) / 2 ^ (64 - suc n)

module _ {Env : Type 0} (compute_truth : BoolExpr Env → Option Bool) where
  pub must_be_true : BoolExpr Env → Option Bool
  must_be_true (constant b) = some b
  must_be_true (test p) = compute_truth (test p)

  pub must_be_false : BoolExpr Env → Option Bool
  must_be_false q = must_be_true (negate_expr q)

  pub may_be_true : BoolExpr Env → Option Bool
  may_be_true q = do res ← must_be_false q; some (not res)

  pub may_be_false : BoolExpr Env → Option Bool
  may_be_false q = do res ← must_be_true q; some (not res)

  -- `SolverImpl::computeValidity`.
  pub compute_validity : BoolExpr Env → Option Validity
  compute_validity q = compute_truth q >>= λ is_true.
      if is_true
      then some valid
      else (compute_truth (negate_expr q) >>= λ is_false.
          some (if is_false then invalid else unknown))

  pub evaluate : BoolExpr Env → Option Validity
  evaluate (constant b) = some (if b then valid else invalid)
  evaluate (test p) = compute_validity (test p)

  -- `getRange` at width 1.
  pub get_range_bool : BoolExpr Env → Option (ℕ × ℕ)
  get_range_bool q = do
    result ← evaluate q
    some (elim result [ valid ↦ (1, 1) | invalid ↦ (0, 0) | unknown ↦ (0, 1) ])

  -- Must `e >> mid` be 0?
  pub ask_bits : (Env → ℕ) → ℕ → Option Bool
  ask_bits e mid = must_be_true (test (λ env. e env / 2 ^ mid == 0))

  -- May `e` be at most `mid`?
  pub ask_min : (Env → ℕ) → ℕ → Option Bool
  ask_min e mid = may_be_true (test (λ env. leb (e env) mid))

  -- Must `e` be at most `mid`?
  pub ask_max : (Env → ℕ) → ℕ → Option Bool
  ask_max e mid = must_be_true (test (λ env. leb (e env) mid))

  -- The least value: 0 is asked for first, as the common case.
  pub find_min : (Env → ℕ) → ℕ → Option ℕ
  find_min e top = may_be_true (test (λ env. e env == 0)) >>= λ res.
      if res then some 0 else search 64 (ask_min e) 0 top

  -- The three binary searches of `getRange`, at widths other than 1; `none` is a failed assertion.
  pub get_range : ℕ → ValueExpr Env → Option (ℕ × ℕ)
  get_range width (constant c) = some (c, c)
  get_range width (value e) = do
    bits ← search 64 (ask_bits e) 0 width
    least ← find_min e (max_value_of_n_bits bits)
    greatest ← search 64 (ask_max e) least (max_value_of_n_bits bits)
    some (least, greatest)
