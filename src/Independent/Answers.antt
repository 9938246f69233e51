-- ===== src/Independent/Answers.antt =====
-- `computeTruth`, `computeValidity` and `computeValue` of klee/lib/Solver/IndependentSolver.cpp.
use xklee.Base.{ℕ, ◌≡◌, ap, ◌∙◌, Bool, true, false, not, ◌==◌, Option, none, some, List}
use xklee.Exprs.{Expr}
use xklee.Solver.{Validity, valid, invalid, unknown}
use xklee.Queries.{Query}
use xklee.Queries.Meaning.{Returns}
use xklee.Independent.{ElementSet, compute}
use xklee.Independent.Values.{value}
use xklee.Independent.Required.{holds, all_hold}
use xklee.Independent.Right.{
  IsIndependent, get_independent_constraints-IsIndependent, completed, required_hold,
}

module _ (is_constant_array : ℕ → Bool) (constant_value : ℕ → ℕ → ℕ)
    (apply : ℕ → List ℕ → List ℕ → ℕ) where
  -- The bytes that satisfy the constraints.
  abbrev pub Satisfies : (ℕ → ℕ → ℕ) → Query (List Expr) Expr → Type 0
  Satisfies bytes q = all_hold is_constant_array constant_value apply bytes q.constraints ≡ true

  abbrev pub Always : Query (List Expr) Expr → Bool → Type 0
  Always q b =
      (bytes : ℕ → ℕ → ℕ)
      → Satisfies bytes q
      → holds is_constant_array constant_value apply bytes q.expr ≡ b

  abbrev pub Sometimes : Query (List Expr) Expr → Bool → Type 0
  Sometimes q b =
      (bytes : ℕ → ℕ → ℕ) × Satisfies bytes q
      × (holds is_constant_array constant_value apply bytes q.expr ≡ b)

  abbrev pub IsTruth : Query (List Expr) Expr → Bool → Type 0
  IsTruth q true = Always q true
  IsTruth q false = Sometimes q false

  abbrev pub IsVerdict : Query (List Expr) Expr → Validity → Type 0
  IsVerdict q valid = Always q true
  IsVerdict q invalid = Always q false
  IsVerdict q unknown = Sometimes q true × Sometimes q false

  abbrev pub IsValue : Query (List Expr) Expr → ℕ → Type 0
  IsValue q v =
      (bytes : ℕ → ℕ → ℕ) × Satisfies bytes q
      × (value is_constant_array constant_value apply bytes q.expr ≡ v)

  -- The query that the solver behind is asked.
  abbrev smaller : Query (List Expr) Expr → List Expr → Query (List Expr) Expr
  smaller q required = record { constraints = required; expr = q.expr }

  module _ (q : Query (List Expr) Expr) (others : ℕ → ℕ → ℕ) (satisfiable : Satisfies others q)
      (closure : ElementSet) (required : List Expr)
      (independent : IsIndependent is_constant_array constant_value apply q closure required) where
    smaller-IsValue : (v : ℕ) → IsValue (smaller q required) v → IsValue q v
    smaller-IsValue v (bytes, s, e) =
        let (whole, w, same) =
          completed is_constant_array constant_value apply q closure required independent bytes
            others satisfiable s in
        (whole, w, same ∙ e)

    smaller-Always : (b : Bool) → Always (smaller q required) b → Always q b
    smaller-Always b a bytes s = a bytes (
        required_hold is_constant_array constant_value apply q closure required independent bytes s)

    smaller-Sometimes : (b : Bool) → Sometimes (smaller q required) b → Sometimes q b
    smaller-Sometimes b (bytes, s, e) =
        let (whole, w, same) =
          completed is_constant_array constant_value apply q closure required independent bytes
            others satisfiable s in
        (whole, w, ap (λ v. not (v == 0)) same ∙ e)

    smaller-IsTruth : (b : Bool) → IsTruth (smaller q required) b → IsTruth q b
    smaller-IsTruth true t = smaller-Always true t
    smaller-IsTruth false t = smaller-Sometimes false t

    smaller-IsVerdict : (v : Validity) → IsVerdict (smaller q required) v → IsVerdict q v
    smaller-IsVerdict valid t = smaller-Always true t
    smaller-IsVerdict invalid t = smaller-Always false t
    smaller-IsVerdict unknown (t, f) = (smaller-Sometimes true t, smaller-Sometimes false f)

  returned :
      {A : Type 0} (P Q : A → Type 0) (excuse : Type 0) (answer : Option A)
      → ((a : A) → P a → Q a)
      → Returns excuse P answer
      → Returns excuse Q answer
  returned P Q excuse none f r = r
  returned P Q excuse (some a) f r = f a r

  module _ (excuse : Type 0) (q : Query (List Expr) Expr) (others : ℕ → ℕ → ℕ)
      (satisfiable : Satisfies others q) where
    pub compute-IsTruth :
        (solver : Query (List Expr) Expr → Option Bool)
        → ((p : Query (List Expr) Expr) → Returns excuse (IsTruth p) (solver p))
        → Returns excuse (IsTruth q) (compute is_constant_array solver q)
    unfolding compute
    compute-IsTruth solver right =
        let (closure, required, e, i) =
          get_independent_constraints-IsIndependent is_constant_array constant_value apply q in
        rw e (
          returned (IsTruth (smaller q required)) (IsTruth q) excuse (solver (smaller q required))
            (smaller-IsTruth q others satisfiable closure required i) (right (smaller q required)))

    -- Where some bytes satisfy all the constraints and the solver behind gives right verdicts or
    -- fails for a reason, the verdict that `compute` returns for the required constraints is the
    -- verdict of all bytes that satisfy all the constraints, and it fails for that reason only.
    pub compute-IsVerdict :
        (solver : Query (List Expr) Expr → Option Validity)
        → ((p : Query (List Expr) Expr) → Returns excuse (IsVerdict p) (solver p))
        → Returns excuse (IsVerdict q) (compute is_constant_array solver q)
    unfolding compute
    compute-IsVerdict solver right =
        let (closure, required, e, i) =
          get_independent_constraints-IsIndependent is_constant_array constant_value apply q in
        rw e (
          returned (IsVerdict (smaller q required)) (IsVerdict q) excuse
            (solver (smaller q required))
            (smaller-IsVerdict q others satisfiable closure required i)
            (right (smaller q required)))

    pub compute-IsValue :
        (solver : Query (List Expr) Expr → Option ℕ)
        → ((p : Query (List Expr) Expr) → Returns excuse (IsValue p) (solver p))
        → Returns excuse (IsValue q) (compute is_constant_array solver q)
    unfolding compute
    compute-IsValue solver right =
        let (closure, required, e, i) =
          get_independent_constraints-IsIndependent is_constant_array constant_value apply q in
        rw e (
          returned (IsValue (smaller q required)) (IsValue q) excuse (solver (smaller q required))
            (smaller-IsValue q others satisfiable closure required i) (right (smaller q required)))
