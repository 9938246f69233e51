-- ===== src/CexCaching/Right/Asked.antt =====
-- `getAssignment` of klee/lib/Solver/CexCachingSolver.cpp, with what it keeps in the cache.
use xklee.Base.{
  ℕ, ◌≡◌, ◌≢◌, refl, ap₂, sym, ◌∙◌, Bool, Option, none, some, List, [], ◌∷◌, Bool-cases, inl, inr,
  ◌⊎◌, ◌==◌, ==_iff, subst,
}
use xklee.Queries.{Query}
use xklee.Queries.Meaning.{Returns}
use xklee.MapOfSets
use xklee.MapOfSets.{Node}
use xklee.MapOfSets.Lookup.{lookup-insert_self, lookup-insert_ne}
use xklee.MapOfSets.Ordered.{insert-IsOrdered}
use xklee.Assignments.{Assignment, assignment}
use xklee.CexCaching.{
  BoolExpr, Constraints, Theory, CexState, lookup_assignment, remember, answer_or_ask,
  get_assignment,
}
use xklee.CexCaching.Search.{IsSolution, IsRight}
use xklee.CexCaching.Right.{
  IsCounterexample, IsNegating, AreValues, IsKey, Looked, IsCounterexample-IsSolution,
  lookup_assignment-Looked,
}

key_cases : (a b : List ℕ) → (a ≡ b) ⊎ (a ≢ b)
key_cases [] [] = inl refl
key_cases [] (y ∷ b) = inr (λ e. cc)
key_cases (x ∷ a) [] = inr (λ e. cc)
key_cases (x ∷ a) (y ∷ b) = elim (Bool-cases (x == y)) [
  | inl f ↦ elim (key_cases a b) [
    | inl e ↦ inl (ap₂ ◌∷◌ ((==_iff x y).0 f) e)
    | inr n ↦ inr (λ e. n (cc))
  ]
  | inr f ↦ inr (λ e. let same : x ≡ y = cc in let t = (==_iff x y).1 same in cc)
]

module _ (theory : Theory) where
  open theory use {find_symbolic_objects}

  insert-IsRight :
      (key : List ℕ) (v : Option Assignment) (cache : Node (Option Assignment))
      → IsSolution theory key v
      → IsRight theory cache
      → IsRight theory (MapOfSets.insert key v cache)
  insert-IsRight key v cache s r = record {
    ordered = insert-IsOrdered key v cache r.ordered;
    solutions = λ t w e. elim (key_cases key t) [
      | inl same ↦
          let here : v ≡ w = let l = lookup-insert_self key v cache in cc in
          subst (λ x. IsSolution theory x w) same (subst (λ x. IsSolution theory key x) here s)
      | inr ne ↦ r.solutions t w (sym (lookup-insert_ne key t v cache ne) ∙ e)
    ];
  }

  -- An answer that is a counterexample, or says that there is none, and a cache that is right.
  abbrev pub IsAnswered :
      Type 0 → Query Constraints BoolExpr → Option (Option Assignment) × CexState → Type 0
  IsAnswered excuse q (answer, state) =
      Returns excuse (IsCounterexample theory q) answer × IsRight theory state.cache

  module _ (same_bindings : Assignment → Assignment → Bool) (try_all : Bool)
      (compute_initial_values : Query Constraints BoolExpr
        → List ℕ
        → Option (Option (List (List ℕ))))
      (excuse : Type 0) (negates : IsNegating theory)
      (solves : (q : Query Constraints BoolExpr) (key : List ℕ)
        → IsKey theory q key
        → Returns excuse
            (AreValues theory q (find_symbolic_objects key))
            (compute_initial_values q (find_symbolic_objects key))) where
    remember-IsAnswered :
        (q : Query Constraints BoolExpr) (key objects : List ℕ) (state : CexState)
        (answer : Option (Option (List (List ℕ))))
        → IsKey theory q key
        → IsRight theory state.cache
        → Returns excuse (AreValues theory q objects) answer
        → IsAnswered excuse q
            (remember theory same_bindings try_all compute_initial_values key objects state answer)
    remember-IsAnswered q key objects state none k r a = (a, r)
    remember-IsAnswered q key objects state (some none) k r a = (
      a,
      insert-IsRight key none state.cache (IsCounterexample-IsSolution theory q key k none a) r,
    )
    remember-IsAnswered q key objects state (some (some values)) k r a = (
      a,
      insert-IsRight key (some (assignment objects values)) state.cache
          (IsCounterexample-IsSolution theory q key k (some (assignment objects values)) a) r,
    )

    answer_or_ask-IsAnswered :
        (q : Query Constraints BoolExpr) (state : CexState)
        (looked : List ℕ × Option (Option Assignment))
        → IsRight theory state.cache
        → Looked theory q looked
        → IsAnswered excuse q (
            answer_or_ask theory same_bindings try_all compute_initial_values q state looked.0
              looked.1)
    answer_or_ask-IsAnswered q state (key, some v) r l = (l, r)
    answer_or_ask-IsAnswered q state (key, none) r l =
        remember-IsAnswered q key (find_symbolic_objects key) state
          (compute_initial_values q (find_symbolic_objects key)) l.1 r (solves q key l.1)

    -- Where each result stored in the cache is a solution of its set, the solver behind gives
    -- counterexamples or says that there are none, or fails for a reason, and negation is right,
    -- `get_assignment` fails for that reason only, answers with an assignment that satisfies the
    -- constraints and not the expression or with null where the constraints imply the
    -- expression, and leaves a cache with the same property.
    pub get_assignment-IsAnswered :
        (q : Query Constraints BoolExpr) (state : CexState)
        → IsRight theory state.cache
        → IsAnswered excuse q
            (get_assignment theory same_bindings try_all compute_initial_values q state)
    unfolding get_assignment
    get_assignment-IsAnswered q state r =
        answer_or_ask-IsAnswered q state (lookup_assignment theory try_all q state) r
          (lookup_assignment-Looked theory negates try_all q state r)
