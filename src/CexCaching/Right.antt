-- ===== src/CexCaching/Right.antt =====
-- The answers of klee/lib/Solver/CexCachingSolver.cpp as counterexamples of the query.
pub mod Asked
pub mod Answers
pub mod Values
use xklee.Base.{
  ℕ, ◌≡◌, refl, ap, sym, ◌∙◌, Bool, true, false, not, ◌&&◌, Option, none, some, List, [], ◌∷◌,
  arith, all, Bool-cases, Option-cases, inl, inr, subst, ◌≢◌, ◌⊎◌, ap₂, ==_iff, ◌==◌,
}
use xklee.Queries.{Query}
use xklee.Queries.Meaning.{Returns}
use xklee.MapOfSets
use xklee.MapOfSets.{Node}
use xklee.MapOfSets.Lookup.{lookup-insert_self, lookup-insert_ne}
use xklee.MapOfSets.Ordered.{IsOrdered, insert-IsOrdered}
use xklee.MapOfSets.FindSubset.{IsAscending}
use xklee.Assignments.{Assignment, Bytes, evaluate, assignment, satisfies}
use xklee.CexCaching.{
  BoolExpr, constant, symbolic, Constraints, Theory, CexState, evaluate_expr, insert_key, key_of,
  lookup_negated, lookup_assignment, search_for_assignment, answer_or_ask, remember, get_assignment,
}
use xklee.CexCaching.Sets.{all-key_of, all-insert_key, key_of-IsAscending, insert_key-IsAscending}
use xklee.CexCaching.Search.{IsSolution, IsRight, search-IsSolution}

module _ (theory : Theory) where
  open theory use {holds, is_zero, find_symbolic_objects}

  -- Constraints that hold with an expression that does not; none says that there is no such case.
  abbrev pub IsCounterexample : Query Constraints BoolExpr → Option Assignment → Type 0
  IsCounterexample q none =
      (bytes : Bytes)
      → all (λ e. holds e bytes) q.constraints ≡ true
      → evaluate_expr theory q.expr bytes ≡ true
  IsCounterexample q (some a) =
      (satisfies holds a q.constraints ≡ true) × (evaluate_expr theory q.expr (evaluate a) ≡ false)

  abbrev pub IsNegating : Type 0
  IsNegating =
      (e : BoolExpr) (bytes : Bytes)
      → evaluate_expr theory (is_zero e) bytes ≡ not (evaluate_expr theory e bytes)

  -- The values of the objects, or none, as the answer to the query.
  abbrev pub AreValues : Query Constraints BoolExpr → List ℕ → Option (List (List ℕ)) → Type 0
  AreValues q objects none = IsCounterexample q none
  AreValues q objects (some values) = IsCounterexample q (some (assignment objects values))

  -- The key stands for the constraints and the negated expression.
  abbrev pub IsKey : Query Constraints BoolExpr → List ℕ → Type 0
  IsKey q key =
      (bytes : Bytes)
      → all (λ e. holds e bytes) key
        ≡ (all (λ e. holds e bytes) q.constraints && not (evaluate_expr theory q.expr bytes))

  module _ (q : Query Constraints BoolExpr) (key : List ℕ) (is_key : IsKey q key) where
    IsSolution-IsCounterexample :
        (v : Option Assignment) → IsSolution theory key v → IsCounterexample q v
    IsSolution-IsCounterexample none s =
        λ bytes h. let k = is_key bytes in let n = s bytes in ground arith
    IsSolution-IsCounterexample (some a) s = let k = is_key (evaluate a) in ground arith

    pub IsCounterexample-IsSolution :
        (v : Option Assignment) → IsCounterexample q v → IsSolution theory key v
    IsCounterexample-IsSolution none s =
        λ bytes. let k = is_key bytes in let n = s bytes in ground arith
    IsCounterexample-IsSolution (some a) s = let k = is_key (evaluate a) in ground arith

  -- What the lookup finds answers the query, and the key of one that finds nothing stands for it.
  abbrev pub Looked : Query Constraints BoolExpr → List ℕ × Option (Option Assignment) → Type 0
  Looked q (key, none) = IsAscending key × IsKey q key
  Looked q (key, some v) = IsCounterexample q v

  module _ (negates : IsNegating) (try_all : Bool) (q : Query Constraints BoolExpr)
      (state : CexState) (right : IsRight theory state.cache) where
    searched :
        (key : List ℕ)
        → IsAscending key
        → IsKey q key
        → Looked q (key, search_for_assignment theory try_all key state)
    searched key a k = elim (Option-cases (search_for_assignment theory try_all key state)) [
      | inl f ↦ rw f (a, k)
      | inr (v, f) ↦ rw f (
          IsSolution-IsCounterexample q key k v
            (search-IsSolution theory key state a right try_all f))
    ]

    looked :
        (neg : BoolExpr)
        → is_zero q.expr ≡ neg
        → Looked q (lookup_negated theory try_all (key_of q.constraints) neg state)
    unfolding lookup_negated
    looked (constant false) e = λ bytes h.
        let n = negates q.expr bytes in
        let z = ap (λ x. evaluate_expr theory x bytes) e in ground arith
    looked (constant true) e =
        searched (key_of q.constraints) (key_of-IsAscending q.constraints) (λ bytes.
          let n = negates q.expr bytes in
          let z = ap (λ x. evaluate_expr theory x bytes) e in
          let k = all-key_of (λ x. holds x bytes) q.constraints in ground arith)
    looked (symbolic neg) e =
        searched (insert_key neg (key_of q.constraints))
          (insert_key-IsAscending neg (key_of q.constraints) (key_of-IsAscending q.constraints))
          (λ bytes.
            let n = negates q.expr bytes in
            let z = ap (λ x. evaluate_expr theory x bytes) e in
            let k = all-key_of (λ x. holds x bytes) q.constraints in
            let i = all-insert_key (λ x. holds x bytes) neg (key_of q.constraints) in ground arith)

    pub lookup_assignment-Looked : Looked q (lookup_assignment theory try_all q state)
    unfolding lookup_assignment
    lookup_assignment-Looked = looked (is_zero q.expr) refl
