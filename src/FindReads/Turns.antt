-- ===== src/FindReads/Turns.antt =====
-- How many turns the loop of `findReads` (klee/lib/Expr/ExprUtil.cpp) takes.
use xklee.Base.{
  ℕ, ◌≡◌, ◌≤◌, ◌<◌, ◌+◌, refl, Bool, true, false, List, [], ◌∷◌, ◌++◌, arith, all, inl, inr,
  Bool-cases, subst, if◌then◌else◌, length,
}
use xklee.Exprs.{Expr, constant, read, operation, Updates, same_expr, member}
use xklee.Exprs.Same.{same_expr_refl, same_expr-eq}
use xklee.FindReads.{Walk, member_updates, visit, visit_updates, expand}
use xklee.FindReads.Subterms.{nodes, operands, parts}
use xklee.FindReads.Visit.{seen, visit_all, visit_nodes-visit_all, visit_kids-visit_all}

abbrev pub unvisited : List Expr → List Expr → ℕ
unvisited visited [] = 0
unvisited visited (u ∷ us) = (if member u visited then 0 else 1) + unvisited visited us

-- The turns left at most: what is on the stack, and what may still come on it.
abbrev pub turns_left : List Expr → Walk → ℕ
turns_left universe w = length w.stack + unvisited w.visited universe

unvisited-le :
    (us visited : List Expr) (e : Expr) → unvisited (e ∷ visited) us ≤ unvisited visited us
unvisited-le [] visited e = omega arith
unvisited-le (u ∷ us) visited e = ground (arith, unvisited-le us visited e)

unvisited-lt :
    (us visited : List Expr) (e : Expr)
    → member e us ≡ true
    → member e visited ≡ false
    → unvisited (e ∷ visited) us < unvisited visited us
unvisited-lt [] visited e m n = cc
unvisited-lt (u ∷ us) visited e m n = elim (Bool-cases (same_expr e u)) [
  | inl f ↦
      let same : e ≡ u = same_expr-eq e u f in
      let back : same_expr u e ≡ true = subst (λ x. same_expr x e ≡ true) same (same_expr_refl e) in
      let out : member u visited ≡ false = subst (λ x. member x visited ≡ false) same n in
      ground (arith, unvisited-le us visited e)
  | inr f ↦ let rest = unvisited-lt us visited e (ground arith) n in ground arith
]

pub unvisited_none : (us : List Expr) → unvisited [] us ≡ length us
unvisited_none [] = refl
unvisited_none (u ∷ us) = ground (arith, unvisited_none us)

module _ (universe : List Expr) where
  pub visit-turns_left :
      (e : Expr) (w : Walk)
      → seen universe e ≡ true
      → turns_left universe (visit e w) ≤ turns_left universe w
  visit-turns_left e w u = elim (Bool-cases (seen w.visited e)) [
    | inl f ↦ rw f (omega arith)
    | inr f ↦
        let less = unvisited-lt universe w.visited e (ground arith) (ground arith) in
        rw f (omega arith)
  ]

  visit_all-turns_left :
      (es : List Expr) (w : Walk)
      → all (seen universe) es ≡ true
      → turns_left universe (visit_all es w) ≤ turns_left universe w
  visit_all-turns_left [] w u = omega arith
  visit_all-turns_left (e ∷ es) w u =
      let first = visit-turns_left e w (ground arith) in
      let rest = visit_all-turns_left es (visit e w) (ground arith) in omega arith

  visit_updates-turns_left :
      (us : Updates) (w : Walk)
      → all (seen universe) (nodes us) ≡ true
      → turns_left universe (visit_updates us w) ≤ turns_left universe w
  visit_updates-turns_left us w u = elim (Bool-cases (member_updates us w.heads)) [
    | inl f ↦ rw f (omega arith)
    | inr f ↦
        let marked = record w { heads = us ∷ w.heads } in
        rw (f, visit_nodes-visit_all us marked) (visit_all-turns_left (nodes us) marked u)
  ]

  pub expand-turns_left :
      (with_updates : Bool) (e : Expr) (w : Walk)
      → all (seen universe) (parts e) ≡ true
      → turns_left universe (expand with_updates e w) ≤ turns_left universe w
  expand-turns_left with_updates (constant width value) w u = omega arith
  expand-turns_left true (read a us i) w u =
      let found = record w { results = w.results ++ (read a us i ∷ []) } in
      let first = visit-turns_left i found (ground arith) in
      let rest = visit_updates-turns_left us (visit i found) (ground arith) in omega arith
  expand-turns_left false (read a us i) w u =
      let found = record w { results = w.results ++ (read a us i ∷ []) } in
      visit-turns_left i found (ground arith)
  expand-turns_left with_updates (operation k c es) w u =
      rw (visit_kids-visit_all es w) (visit_all-turns_left (operands es) w u)
