-- ===== src/FindReads.antt =====
-- `findReads` of klee/lib/Expr/ExprUtil.cpp: the reads of an expression, found with a stack. The
-- sets of visited expressions and heads are lists, of which only membership is used.
pub mod Subterms
pub mod Visit
pub mod Turns
pub mod Expand
pub mod Ends
pub mod Exact
mod Examples
use xklee.Base.{
  ℕ, zero, suc, Bool, true, false, ◌||◌, Option, none, some, List, [], ◌∷◌, ◌++◌, if◌then◌else◌,
  length,
}
use xklee.Exprs.{
  Expr, constant, read, operation, Updates, no_updates, update, Kids, no_kids, kid, same_updates,
  is_constant, member,
}

-- The variables of the function: `stack`, `visited`, `updates` and `results`.
pub record Walk : Type 0 where
  pub stack : List Expr
  pub visited : List Expr
  pub heads : List Updates
  pub results : List Expr

abbrev pub member_updates : Updates → List Updates → Bool
member_updates us [] = false
member_updates us (h ∷ heads) = same_updates us h || member_updates us heads

-- `if (!isa<ConstantExpr>(e) && visited.insert(e).second) stack.push_back(e)`.
abbrev pub visit : Expr → Walk → Walk
visit e w =
    if is_constant e || member e w.visited
    then w
    else record w { stack = e ∷ w.stack; visited = e ∷ w.visited }

-- The loop over the update nodes.
abbrev pub visit_nodes : Updates → Walk → Walk
visit_nodes no_updates w = w
visit_nodes (update i v us) w = visit_nodes us (visit v (visit i w))

abbrev pub visit_updates : Updates → Walk → Walk
visit_updates us w =
    if member_updates us w.heads then w else visit_nodes us (record w { heads = us ∷ w.heads })

abbrev pub visit_kids : Kids → Walk → Walk
visit_kids no_kids w = w
visit_kids (kid e es) w = visit_kids es (visit e w)

-- The body of the loop behind the pop.
abbrev pub expand : Bool → Expr → Walk → Walk
expand with_updates (constant width value) w = w
expand with_updates (read a us i) w =
    let after = visit i (record w { results = w.results ++ (read a us i ∷ []) }) in
    if with_updates then visit_updates us after else after
expand with_updates (operation k c es) w = visit_kids es w

abbrev pub turn : Bool → List Expr → Walk → (Walk → Option (List Expr)) → Option (List Expr)
turn with_updates [] w next = some w.results
turn with_updates (top ∷ stack) w next = next (expand with_updates top (record w { stack = stack }))

-- The loop, with a bound on its turns.
unfoldable pub loop : Bool → ℕ → Walk → Option (List Expr)
loop with_updates zero w = none
loop with_updates (suc fuel) w = turn with_updates w.stack w (λ after. loop with_updates fuel after)

unfoldable mutual
  -- All subterms, those in update nodes included.
  pub subterms : Expr → List Expr
  subterms (constant width value) = constant width value ∷ []
  subterms (read a us i) = read a us i ∷ (subterms i ++ subterms_of_updates us)
  subterms (operation k c es) = operation k c es ∷ subterms_of_kids es

  pub subterms_of_updates : Updates → List Expr
  subterms_of_updates no_updates = []
  subterms_of_updates (update i v us) = subterms i ++ (subterms v ++ subterms_of_updates us)

  pub subterms_of_kids : Kids → List Expr
  subterms_of_kids no_kids = []
  subterms_of_kids (kid e es) = subterms e ++ subterms_of_kids es

abbrev pub nothing_visited : Walk
nothing_visited = record { stack = []; visited = []; heads = []; results = [] }

-- An expression is on the stack once at most, so that there are no more turns than subterms.
unfoldable pub find_reads : Bool → Expr → Option (List Expr)
unfolding loop
find_reads with_updates e = loop with_updates (suc (length (subterms e))) (visit e nothing_visited)
