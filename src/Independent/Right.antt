-- ===== src/Independent/Right.antt =====
-- Answers about the required constraints as answers about all of them
-- (klee/lib/Solver/IndependentSolver.cpp).
use xklee.Base.{
  ℕ, suc, ◌≡◌, refl, ap, sym, ◌∙◌, Bool, true, false, ◌&&◌, some, List, [], ◌∷◌, arith,
  if◌then◌else◌, All, length, map,
}
use xklee.Exprs.{Expr}
use xklee.Queries.{Query}
use xklee.Independent.{ElementSet, Worklist, intersects, element_set, get_independent_constraints}
use xklee.Independent.Covers.{covers, intersects-covers}
use xklee.Independent.Values.{value, element_set-IsBound}
use xklee.Independent.Required.{
  holds, all_hold, worklist_holds, Fits, AreFit, Fits-Grows, IsSplit, close-IsSplit,
}

module _ (is_constant_array : ℕ → Bool) (constant_value : ℕ → ℕ → ℕ)
    (apply : ℕ → List ℕ → List ℕ → ℕ) where
  abbrev holds_under : (ℕ → ℕ → ℕ) → Expr → Bool
  holds_under = holds is_constant_array constant_value apply

  abbrev all_under : (ℕ → ℕ → ℕ) → List Expr → Bool
  all_under = all_hold is_constant_array constant_value apply

  listed : List Expr → Worklist
  listed cs = map (λ c. (c, element_set is_constant_array c)) cs

  listed-AreFit : (cs : List Expr) → AreFit is_constant_array constant_value apply (listed cs)
  unfolding listed
  listed-AreFit [] = tt
  listed-AreFit (c ∷ cs) =
      (element_set-IsBound is_constant_array constant_value apply c, listed-AreFit cs)

  listed-holds :
      (bytes : ℕ → ℕ → ℕ) (cs : List Expr)
      → worklist_holds is_constant_array constant_value apply bytes (listed cs) ≡ all_under bytes cs
  unfolding listed
  listed-holds bytes [] = refl
  listed-holds bytes (c ∷ cs) = ap (λ b. holds_under bytes c && b) (listed-holds bytes cs)

  length-listed : (cs : List Expr) → length (listed cs) ≡ length cs
  unfolding listed
  length-listed [] = refl
  length-listed (c ∷ cs) = ap suc (length-listed cs)

  -- The closure holds the bytes that the expression depends on, and divides the constraints.
  abbrev pub IsIndependent : Query (List Expr) Expr → ElementSet → List Expr → Type 0
  IsIndependent q closure required =
      Fits is_constant_array constant_value apply closure q.expr
      × IsSplit is_constant_array constant_value apply (λ bytes. all_under bytes q.constraints)
          closure required

  -- With one turn more than there are constraints, `get_independent_constraints` ends with a
  -- closure and required constraints such that the expression and the required constraints
  -- depend on bytes of the closure only, the constraints hold together exactly if the required
  -- ones and those left do, and the bytes of those left do not meet the closure.
  pub get_independent_constraints-IsIndependent :
      (q : Query (List Expr) Expr)
      → (closure : ElementSet) × (required : List Expr) × (get_independent_constraints
            is_constant_array q
          ≡ some (closure, required))
        × IsIndependent q closure required
  unfolding get_independent_constraints listed
  get_independent_constraints-IsIndependent q =
      let count = length-listed q.constraints in
      let (closure, required, e, grows, split) =
        close-IsSplit is_constant_array constant_value apply (suc (length q.constraints))
          (listed q.constraints) (element_set is_constant_array q.expr) []
          (listed-AreFit q.constraints) (omega arith) in
      (
        closure,
        required,
        e,
        (
          Fits-Grows is_constant_array constant_value apply (element_set is_constant_array q.expr)
              closure q.expr grows
              (element_set-IsBound is_constant_array constant_value apply q.expr),
          record {
            left = split.left;
            inside = split.inside;
            bounds = split.bounds;
            apart = split.apart;
            divided = λ bytes. sym (listed-holds bytes q.constraints) ∙ split.divided bytes;
          },
        ),
      )

  -- The bytes of the closure from one assignment, all others from another.
  mix : ElementSet → (ℕ → ℕ → ℕ) → (ℕ → ℕ → ℕ) → ℕ → ℕ → ℕ
  mix closure bytes others a n = if covers closure a n then bytes a n else others a n

  module _ (closure : ElementSet) (bytes others : ℕ → ℕ → ℕ) where
    mixed_inside :
        (e : Expr)
        → Fits is_constant_array constant_value apply closure e
        → value is_constant_array constant_value apply (mix closure bytes others) e
          ≡ value is_constant_array constant_value apply bytes e
    unfolding mix
    mixed_inside e f = f (mix closure bytes others) bytes (λ a n h. rw h refl)

    mixed_required :
        (es : List Expr)
        → All (λ c. Fits is_constant_array constant_value apply closure c) es
        → all_under (mix closure bytes others) es ≡ all_under bytes es
    mixed_required [] f = refl
    mixed_required (e ∷ es) f =
        let here = mixed_inside e f.0 in let rest = mixed_required es f.1 in rw (here, rest) refl

    mixed_left :
        (left : Worklist)
        → All (λ p. Fits is_constant_array constant_value apply p.1 p.0) left
        → All (λ p. intersects p.1 closure ≡ false) left
        → worklist_holds is_constant_array constant_value apply (mix closure bytes others) left
          ≡ worklist_holds is_constant_array constant_value apply others left
    unfolding mix
    mixed_left [] f i = refl
    mixed_left ((c, es) ∷ left) f i =
        let here =
          f.0 (mix closure bytes others) others
            (λ a n h. rw (intersects-covers es closure a n i.0 h) refl) in
        let rest = mixed_left left f.1 i.1 in rw (here, rest) refl

  module _ (q : Query (List Expr) Expr) (closure : ElementSet) (required : List Expr)
      (independent : IsIndependent q closure required) where
    -- Where all the constraints can hold, what satisfies the required ones goes on to all of them.
    pub completed :
        (bytes others : ℕ → ℕ → ℕ)
        → all_under others q.constraints ≡ true
        → all_under bytes required ≡ true
        → (whole : ℕ → ℕ → ℕ) × (all_under whole q.constraints ≡ true)
          × (value is_constant_array constant_value apply whole q.expr
              ≡ value is_constant_array constant_value apply bytes q.expr)
    completed bytes others o b =
        let split = independent.1 in
        let whole = mix closure bytes others in
        let inside = mixed_required closure bytes others required split.inside in
        let outside = mixed_left closure bytes others split.left split.bounds split.apart in
        let from = split.divided others in
        let to = split.divided whole in
        (whole, ground arith, mixed_inside closure bytes others q.expr independent.0)

    pub required_hold :
        (bytes : ℕ → ℕ → ℕ) → all_under bytes q.constraints ≡ true → all_under bytes required ≡ true
    required_hold bytes h = let split = independent.1 in let d = split.divided bytes in ground arith
