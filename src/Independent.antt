-- ===== src/Independent.antt =====
-- klee/lib/Solver/IndependentSolver.cpp: a solver that asks only about the constraints that share
-- bytes with the expression. A `std::set` is a list of its elements and a `std::map` a list of its
-- entries, since only membership is used. The solver behind is a parameter.
pub mod Maps
pub mod Covers
pub mod Add
pub mod Reads
pub mod Values
pub mod Closure
pub mod Required
pub mod Right
pub mod Answers
mod Examples
use mathlib.Core.Option.{get_or}
use xklee.Base.{
  ℕ, zero, suc, Bool, true, false, not, ◌&&◌, ◌||◌, Option, none, some, List, [], ◌∷◌, ◌++◌, ◌==◌,
  ◌%◌, ◌^◌, if◌then◌else◌, contains, length, map,
}
use xklee.Exprs.{Expr, constant, read, operation, Updates, no_updates, update}
use xklee.FindReads.{find_reads}
use xklee.Queries.{Query}
use xklee.Solver.{Validity}

-- `DenseSet`.
abbrev pub dense_add : ℕ → List ℕ → List ℕ
dense_add x s = if contains x s then s else x ∷ s

-- `add` of a set, with `modified` and the set that is changed.
abbrev pub dense_add_all : List ℕ → Bool × List ℕ → Bool × List ℕ
dense_add_all [] (modified, s) = (modified, s)
dense_add_all (x ∷ b) (modified, s) =
    dense_add_all b
      (modified || not (contains x s), if modified || not (contains x s) then dense_add x s else s)

abbrev pub dense_intersects : List ℕ → List ℕ → Bool
dense_intersects [] b = false
dense_intersects (x ∷ s) b = contains x b || dense_intersects s b

-- `elements_ty`.
abbrev pub Elements : Type 0
Elements = List (ℕ × List ℕ)

abbrev pub find_elements : ℕ → Elements → Option (List ℕ)
find_elements a [] = none
find_elements a ((b, d) ∷ es) = let rest = find_elements a es in if a == b then some d else rest

abbrev pub erase_elements : ℕ → Elements → Elements
erase_elements a [] = []
erase_elements a ((b, d) ∷ es) =
    let rest = erase_elements a es in if a == b then rest else (b, d) ∷ rest

abbrev pub set_elements : ℕ → List ℕ → Elements → Elements
set_elements a d [] = (a, d) ∷ []
set_elements a d ((b, d') ∷ es) =
    let rest = set_elements a d es in if a == b then (b, d) ∷ es else (b, d') ∷ rest

abbrev pub is_some : {A : Type 0} → Option A → Bool
is_some none = false
is_some (some a) = true

-- `IndependentElementSet`.
pub record ElementSet : Type 0 where
  pub elements : Elements
  pub whole_objects : List ℕ

abbrev pub no_elements : ElementSet
no_elements = record { elements = []; whole_objects = [] }

abbrev pub no_head : Updates → Bool
no_head no_updates = true
no_head (update i v us) = false

abbrev pub add_index : ℕ → Expr → ElementSet → ElementSet
add_index a (constant w v) s = record s {
  elements =
      set_elements a (dense_add (v % 2 ^ 32) (get_or (find_elements a s.elements) [])) s.elements;
}
add_index a _ s = record s {
  elements = erase_elements a s.elements;
  whole_objects = a ∷ s.whole_objects;
}

-- The loop of the constructor, over the reads of the expression.
abbrev pub add_read : (ℕ → Bool) → Expr → ElementSet → ElementSet
add_read is_constant_array (read a us i) s =
    if is_constant_array a && no_head us
    then s
    else (if contains a s.whole_objects then s else add_index a i s)
add_read is_constant_array _ s = s

abbrev pub add_reads : (ℕ → Bool) → List Expr → ElementSet → ElementSet
add_reads is_constant_array [] s = s
add_reads is_constant_array (r ∷ rs) s =
    add_reads is_constant_array rs (add_read is_constant_array r s)

-- The constructor. The bound on the turns of `find_reads` is never met.
unfoldable pub element_set : (ℕ → Bool) → Expr → ElementSet
element_set is_constant_array e =
    add_reads is_constant_array (get_or (find_reads true e) []) no_elements

abbrev pub whole_intersects : List ℕ → ElementSet → Bool
whole_intersects [] b = false
whole_intersects (a ∷ whole) b =
    contains a b.whole_objects || (is_some (find_elements a b.elements) || whole_intersects whole b)

abbrev pub dense_meets : List ℕ → Option (List ℕ) → Bool
dense_meets d none = false
dense_meets d (some d') = dense_intersects d d'

abbrev pub elements_intersect : Elements → ElementSet → Bool
elements_intersect [] b = false
elements_intersect ((a, d) ∷ es) b =
    contains a b.whole_objects
    || (dense_meets d (find_elements a b.elements) || elements_intersect es b)

-- `intersects`.
abbrev pub intersects : ElementSet → ElementSet → Bool
intersects s b = whole_intersects s.whole_objects b || elements_intersect s.elements b

-- The two loops of `add`, with `modified` and the set that is changed.
abbrev pub add_whole : ℕ → Bool × ElementSet → Bool × ElementSet
add_whole a (modified, s) =
    if is_some (find_elements a s.elements)
    then (
      true,
      record s { elements = erase_elements a s.elements; whole_objects = a ∷ s.whole_objects },
    )
    else (if contains a s.whole_objects
        then (modified, s)
        else (true, record s { whole_objects = a ∷ s.whole_objects }))

abbrev pub add_wholes : List ℕ → Bool × ElementSet → Bool × ElementSet
add_wholes [] m = m
add_wholes (a ∷ whole) m = add_wholes whole (add_whole a m)

abbrev pub add_dense : ℕ → List ℕ → Bool × ElementSet → Option (List ℕ) → Bool × ElementSet
add_dense a d (modified, s) none = (true, record s { elements = set_elements a d s.elements })
add_dense a d (modified, s) (some d') =
    let (changed, d'') = dense_add_all d (false, d') in
    (modified || changed, record s { elements = set_elements a d'' s.elements })

abbrev pub add_element : ℕ → List ℕ → Bool × ElementSet → Bool × ElementSet
add_element a d (modified, s) =
    if contains a s.whole_objects
    then (modified, s)
    else add_dense a d (modified, s) (find_elements a s.elements)

abbrev pub add_elements : Elements → Bool × ElementSet → Bool × ElementSet
add_elements [] m = m
add_elements ((a, d) ∷ es) m = add_elements es (add_element a d m)

-- `add`.
abbrev pub add : ElementSet → ElementSet → Bool × ElementSet
add b s = add_elements b.elements (add_wholes b.whole_objects (false, s))

abbrev pub Worklist : Type 0
Worklist = List (Expr × ElementSet)

-- One turn over the work list: `done`, the closure, what is required and what is left.
pub record Sweep : Type 0 where
  pub done : Bool
  pub closure : ElementSet
  pub required : List Expr
  pub left : Worklist

abbrev pub add_if : Bool → ElementSet → ElementSet → Bool × ElementSet
add_if hit es closure = if hit then add es closure else (false, closure)

abbrev pub place : Bool → Expr → ElementSet → Sweep → Sweep
place hit c es rest =
    if hit
    then record rest { required = c ∷ rest.required }
    else record rest { left = (c, es) ∷ rest.left }

unfoldable pub sweep : Worklist → Bool → ElementSet → Sweep
sweep [] done closure = record { done = done; closure = closure; required = []; left = [] }
sweep ((c, es) ∷ worklist) done closure =
    let next = add_if (intersects es closure) es closure in
    place (intersects es closure) c es (sweep worklist (done && not next.0) next.1)

-- The loop, with a bound on its turns.
unfoldable pub close : ℕ → Worklist → ElementSet → List Expr → Option (ElementSet × List Expr)
unfolding sweep
close zero worklist closure result = none
close (suc fuel) worklist closure result =
    let turn = sweep worklist true closure in
    let rest = close fuel turn.left turn.closure (result ++ turn.required) in
    if turn.done then some (turn.closure, result ++ turn.required) else rest

-- Each turn but the last makes the work list shorter.
unfoldable pub get_independent_constraints :
    (ℕ → Bool) → Query (List Expr) Expr → Option (ElementSet × List Expr)
unfolding close element_set
get_independent_constraints is_constant_array q =
    close (suc (length q.constraints))
      (map (λ c. (c, element_set is_constant_array c)) q.constraints)
      (element_set is_constant_array q.expr) []

-- `computeTruth`, `computeValidity` and `computeValue`, which differ in what the solver answers.
abbrev pub ask_required :
    {A : Type 0}
    → (Query (List Expr) Expr → Option A)
    → Expr
    → Option (ElementSet × List Expr)
    → Option A
ask_required solver e none = none
ask_required solver e (some (closure, required)) =
    solver (record { constraints = required; expr = e })

unfoldable pub compute :
    {A : Type 0}
    → (ℕ → Bool)
    → (Query (List Expr) Expr → Option A)
    → Query (List Expr) Expr
    → Option A
unfolding get_independent_constraints
compute is_constant_array solver q =
    ask_required solver q.expr (get_independent_constraints is_constant_array q)
