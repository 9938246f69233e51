-- ===== src/Queries/Meaning.antt =====
-- What the answers of a layer of the solver chain (klee/include/klee/Solver.h) say of a query.
use xklee.Base.{
  ◌≡◌, ◌≢◌, refl, Bool, true, false, not, Option, none, some, ◌∷◌, All, Any, All-map, Any-map,
  arith,
}
use xklee.Solver.{Validity, valid, invalid, unknown}
use xklee.Queries.{
  Language, Query, PartialValidity, must_be_true, must_be_false, may_be_true, may_be_false,
  true_or_false, no_answer, negate_partial_validity, negate_expr,
}

-- `P` of the result, or the reason that excuses a call that returns false. With `⊥` for the
-- excuse, the call has to succeed.
abbrev pub Returns : {A : Type 0} → Type 0 → (A → Type 0) → Option A → Type 0
Returns excuse P none = excuse
Returns excuse P (some a) = P a

module _ {C E Env : Type 0} (lang : Language C E Env) where
  open lang use {is_zero, holds, first, others, holds-is_zero}

  abbrev pub Always : Query C E → Bool → Type 0
  Always q b = All (λ env. holds q.expr env ≡ b) (first q.constraints ∷ others q.constraints)

  abbrev pub Sometimes : Query C E → Bool → Type 0
  Sometimes q b = Any (λ env. holds q.expr env ≡ b) (first q.constraints ∷ others q.constraints)

  -- `isValid` of `computeTruth`.
  abbrev pub IsTruth : Query C E → Bool → Type 0
  IsTruth q true = Always q true
  IsTruth q false = Sometimes q false

  -- `result` of `computeValidity`.
  abbrev pub IsVerdict : Query C E → Validity → Type 0
  IsVerdict q valid = Always q true
  IsVerdict q invalid = Always q false
  IsVerdict q unknown = Sometimes q true × Sometimes q false

  abbrev pub IsPartial : Query C E → PartialValidity → Type 0
  IsPartial q must_be_true = Always q true
  IsPartial q must_be_false = Always q false
  IsPartial q may_be_true = Sometimes q true
  IsPartial q may_be_false = Sometimes q false
  IsPartial q true_or_false = Sometimes q true × Sometimes q false
  IsPartial q no_answer = Unit

  pub Always-negated :
      (q : Query C E) (b c : Bool) → b ≡ not c → Always (negate_expr lang q) b → Always q c
  Always-negated q b c e a =
      All-map (λ env h. ground (arith, holds-is_zero q.expr env))
        (first q.constraints ∷ others q.constraints) a

  pub Sometimes-negated :
      (q : Query C E) (b c : Bool) → b ≡ not c → Sometimes (negate_expr lang q) b → Sometimes q c
  Sometimes-negated q b c e a =
      Any-map (λ env h. ground (arith, holds-is_zero q.expr env))
        (first q.constraints ∷ others q.constraints) a

  Always-negating :
      (q : Query C E) (b c : Bool) → c ≡ not b → Always q b → Always (negate_expr lang q) c
  Always-negating q b c e a =
      All-map (λ env h. ground (arith, holds-is_zero q.expr env))
        (first q.constraints ∷ others q.constraints) a

  Sometimes-negating :
      (q : Query C E) (b c : Bool) → c ≡ not b → Sometimes q b → Sometimes (negate_expr lang q) c
  Sometimes-negating q b c e a =
      Any-map (λ env h. ground (arith, holds-is_zero q.expr env))
        (first q.constraints ∷ others q.constraints) a

  -- Every answer of the negated query is turned into one of the query.
  pub negated-IsPartial :
      (q : Query C E) (pv : PartialValidity)
      → pv ≢ no_answer
      → IsPartial (negate_expr lang q) pv
      → IsPartial q (negate_partial_validity pv)
  negated-IsPartial q must_be_true ne a = Always-negated q true false refl a
  negated-IsPartial q must_be_false ne a = Always-negated q false true refl a
  negated-IsPartial q may_be_true ne a = Sometimes-negated q true false refl a
  negated-IsPartial q may_be_false ne a = Sometimes-negated q false true refl a
  negated-IsPartial q true_or_false ne a =
      (Sometimes-negated q false true refl a.1, Sometimes-negated q true false refl a.0)
  negated-IsPartial q no_answer ne a = absurd (ne refl)

  -- Every answer of the query is turned into one of the negated query.
  pub negating-IsPartial :
      (q : Query C E) (pv : PartialValidity)
      → pv ≢ no_answer
      → IsPartial q pv
      → IsPartial (negate_expr lang q) (negate_partial_validity pv)
  negating-IsPartial q must_be_true ne a = Always-negating q true false refl a
  negating-IsPartial q must_be_false ne a = Always-negating q false true refl a
  negating-IsPartial q may_be_true ne a = Sometimes-negating q true false refl a
  negating-IsPartial q may_be_false ne a = Sometimes-negating q false true refl a
  negating-IsPartial q true_or_false ne a =
      (Sometimes-negating q false true refl a.1, Sometimes-negating q true false refl a.0)
  negating-IsPartial q no_answer ne a = absurd (ne refl)
