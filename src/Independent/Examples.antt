-- ===== src/Independent/Examples.antt =====
-- klee/lib/Solver/IndependentSolver.cpp on two arrays of which a query reads one.
use xklee.Base.{
  ℕ, ◌≡◌, refl, sym, Bool, true, false, Option, none, some, List, [], ◌∷◌, arith, if◌then◌else◌,
  inl, inr, Bool-cases, subst,
}
use xklee.Exprs.{Expr, constant, read, no_updates, member, same_expr, eval}
use xklee.Exprs.Same.{same_expr-eq}
use xklee.FindReads.{find_reads, subterms, loop}
use xklee.Solver.{Validity, valid}
use xklee.Queries.{Query}
use xklee.Queries.Meaning.{Returns}
use xklee.Independent.{ElementSet, get_independent_constraints, compute, close, sweep, element_set}
use xklee.Independent.Values.{value}
use xklee.Independent.Required.{holds, all_hold}
use xklee.Independent.Right.{IsIndependent, get_independent_constraints-IsIndependent}
use xklee.Independent.Answers.{
  IsTruth, IsVerdict, IsValue, compute-IsTruth, compute-IsVerdict, compute-IsValue,
}

-- No constant arrays, and operations that give 1.
abbrev none_constant : ℕ → Bool
none_constant a = false

abbrev no_value : ℕ → ℕ → ℕ
no_value a n = 0

abbrev apply : ℕ → List ℕ → List ℕ → ℕ
apply kind contents values = 1

-- The first byte of an array.
abbrev first_byte : ℕ → Expr
first_byte a = read a no_updates (constant 32 0)

-- Both first bytes are not 0; is that of array 0?
abbrev q : Query (List Expr) Expr
q = record { constraints = first_byte 1 ∷ first_byte 0 ∷ []; expr = first_byte 0 }

abbrev ones : ℕ → ℕ → ℕ
ones a n = 1

member-holds :
    (bytes : ℕ → ℕ → ℕ) (e : Expr) (es : List Expr)
    → member e es ≡ true
    → all_hold none_constant no_value apply bytes es ≡ true
    → holds none_constant no_value apply bytes e ≡ true
member-holds bytes e [] m h = cc
member-holds bytes e (x ∷ es) m h = elim (Bool-cases (same_expr e x)) [
  | inl f ↦
      subst (λ y. holds none_constant no_value apply bytes y ≡ true) (sym (same_expr-eq e x f))
        (ground arith)
  | inr f ↦ member-holds bytes e es (ground arith) (ground arith)
]

-- Solvers that answer only what is one of the constraints.
abbrev assumed : Query (List Expr) Expr → Option Bool
assumed p = if member p.expr p.constraints then some true else none

assumed-right :
    (p : Query (List Expr) Expr) → Returns Unit (IsTruth none_constant no_value apply p) (assumed p)
assumed-right p = elim (Bool-cases (member p.expr p.constraints)) [
  | inl f ↦ rw f (λ bytes h. member-holds bytes p.expr p.constraints f h)
  | inr f ↦ rw f tt
]

abbrev assumed_valid : Query (List Expr) Expr → Option Validity
assumed_valid p = if member p.expr p.constraints then some valid else none

assumed_valid-right :
    (p : Query (List Expr) Expr)
    → Returns Unit (IsVerdict none_constant no_value apply p) (assumed_valid p)
assumed_valid-right p = elim (Bool-cases (member p.expr p.constraints)) [
  | inl f ↦ rw f (λ bytes h. member-holds bytes p.expr p.constraints f h)
  | inr f ↦ rw f tt
]

-- A solver that tries the bytes 1.
abbrev tried : Query (List Expr) Expr → Option ℕ
tried p =
    if all_hold none_constant no_value apply ones p.constraints
    then some (value none_constant no_value apply ones p.expr)
    else none

tried-right :
    (p : Query (List Expr) Expr) → Returns Unit (IsValue none_constant no_value apply p) (tried p)
tried-right p = elim (Bool-cases (all_hold none_constant no_value apply ones p.constraints)) [
  | inl f ↦ rw f (ones, f, refl)
  | inr f ↦ rw f tt
]

ones-satisfies : all_hold none_constant no_value apply ones q.constraints ≡ true
unfolding eval
ones-satisfies = refl

compute-IsTruth_example :
    Returns Unit (IsTruth none_constant no_value apply q) (compute none_constant assumed q)
compute-IsTruth_example =
    compute-IsTruth none_constant no_value apply Unit q ones ones-satisfies assumed assumed-right

compute-IsVerdict_example :
    Returns Unit (IsVerdict none_constant no_value apply q) (compute none_constant assumed_valid q)
compute-IsVerdict_example =
    compute-IsVerdict none_constant no_value apply Unit q ones ones-satisfies assumed_valid
      assumed_valid-right

compute-IsValue_example :
    Returns Unit (IsValue none_constant no_value apply q) (compute none_constant tried q)
compute-IsValue_example =
    compute-IsValue none_constant no_value apply Unit q ones ones-satisfies tried tried-right

get_independent_constraints-IsIndependent_example :
    (closure : ElementSet) × (required : List Expr) × (get_independent_constraints none_constant q
      ≡ some (closure, required))
    × IsIndependent none_constant no_value apply q closure required
get_independent_constraints-IsIndependent_example =
    get_independent_constraints-IsIndependent none_constant no_value apply q

-- Only the constraint on array 0 is required.
q_required :
    get_independent_constraints none_constant q
    ≡ some (record { elements = (0, 0 ∷ []) ∷ []; whole_objects = [] }, first_byte 0 ∷ [])
unfolding get_independent_constraints close sweep element_set find_reads loop subterms same_expr
q_required = refl

q_answered : compute none_constant assumed q ≡ some true
unfolding compute get_independent_constraints close sweep element_set find_reads loop subterms
    same_expr
q_answered = refl
