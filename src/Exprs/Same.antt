-- ===== src/Exprs/Same.antt =====
-- Structural equality of the expressions of klee/include/klee/Expr.h.
use xklee.Base.{
  ◌≡◌, refl, true, ◌||◌, List, [], ◌∷◌, ◌++◌, arith, same_numbers_refl, same_numbers-eq,
}
use xklee.Exprs.{
  Expr, constant, read, operation, Updates, no_updates, update, Kids, no_kids, kid, same_expr,
  same_updates, same_kids, member,
}

mutual
  unfolding same_expr same_updates same_kids

  pub same_expr_refl : (e : Expr) → same_expr e e ≡ true
  same_expr_refl (constant w v) = ground arith
  same_expr_refl (read a us i) = ground (arith, same_updates_refl us, same_expr_refl i)
  same_expr_refl (operation k c es) = ground (arith, same_numbers_refl c, same_kids_refl es)

  same_updates_refl : (us : Updates) → same_updates us us ≡ true
  same_updates_refl no_updates = refl
  same_updates_refl (update i v us) =
      ground (arith, same_expr_refl i, same_expr_refl v, same_updates_refl us)

  same_kids_refl : (es : Kids) → same_kids es es ≡ true
  same_kids_refl no_kids = refl
  same_kids_refl (kid e es) = ground (arith, same_expr_refl e, same_kids_refl es)

mutual
  unfolding same_expr same_updates same_kids

  pub same_expr-eq : (a b : Expr) → same_expr a b ≡ true → a ≡ b
  same_expr-eq (constant w v) (constant w' v') h = ground arith
  same_expr-eq (constant w v) (read a us i) h = cc
  same_expr-eq (constant w v) (operation k c es) h = cc
  same_expr-eq (read a us i) (constant w v) h = cc
  same_expr-eq (read a us i) (read a' us' i') h =
      ground (arith, same_updates-eq us us', same_expr-eq i i')
  same_expr-eq (read a us i) (operation k c es) h = cc
  same_expr-eq (operation k c es) (constant w v) h = cc
  same_expr-eq (operation k c es) (read a us i) h = cc
  same_expr-eq (operation k c es) (operation k' c' es') h =
      ground (arith, same_numbers-eq c c', same_kids-eq es es')

  pub same_updates-eq : (a b : Updates) → same_updates a b ≡ true → a ≡ b
  same_updates-eq no_updates no_updates h = refl
  same_updates-eq no_updates (update i v us) h = cc
  same_updates-eq (update i v us) no_updates h = cc
  same_updates-eq (update i v us) (update i' v' us') h =
      ground (arith, same_expr-eq i i', same_expr-eq v v', same_updates-eq us us')

  same_kids-eq : (a b : Kids) → same_kids a b ≡ true → a ≡ b
  same_kids-eq no_kids no_kids h = refl
  same_kids-eq no_kids (kid e es) h = cc
  same_kids-eq (kid e es) no_kids h = cc
  same_kids-eq (kid e es) (kid e' es') h = ground (arith, same_expr-eq e e', same_kids-eq es es')

pub member-append :
    (e : Expr) (xs ys : List Expr) → member e (xs ++ ys) ≡ (member e xs || member e ys)
member-append e [] ys = refl
member-append e (x ∷ xs) ys = ground (arith, member-append e xs ys)
