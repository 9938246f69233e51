-- ===== src/FindReads/Subterms.antt =====
-- The parts of a subterm are subterms, for the expressions of klee/lib/Expr/ExprUtil.cpp.
use xklee.Base.{
  ◌≡◌, refl, Bool, true, List, [], ◌∷◌, ◌++◌, arith, all, inl, inr, Bool-cases, sym, subst,
}
use xklee.Exprs.{
  Expr, constant, read, operation, Updates, no_updates, update, Kids, no_kids, kid, same_expr,
  member,
}
use xklee.Exprs.Same.{same_expr-eq, same_expr_refl, member-append}
use xklee.FindReads.{subterms, subterms_of_updates, subterms_of_kids}

-- What the walk visits of an expression.
abbrev pub nodes : Updates → List Expr
nodes no_updates = []
nodes (update i v us) = i ∷ v ∷ nodes us

abbrev pub operands : Kids → List Expr
operands no_kids = []
operands (kid e es) = e ∷ operands es

abbrev pub parts : Expr → List Expr
parts (constant width value) = []
parts (read a us i) = i ∷ nodes us
parts (operation k c es) = operands es

abbrev pub all_in : List Expr → List Expr → Bool
all_in universe es = all (λ e. member e universe) es

pub subterms_self : (e : Expr) → member e (subterms e) ≡ true
unfolding subterms
subterms_self (constant width value) = ground (arith, same_expr_refl (constant width value))
subterms_self (read a us i) = ground (arith, same_expr_refl (read a us i))
subterms_self (operation k c es) = ground (arith, same_expr_refl (operation k c es))

all_in-left : (es xs ys : List Expr) → all_in xs es ≡ true → all_in (xs ++ ys) es ≡ true
all_in-left [] xs ys h = refl
all_in-left (e ∷ es) xs ys h = ground (arith, member-append e xs ys, all_in-left es xs ys)

all_in-right : (es xs ys : List Expr) → all_in ys es ≡ true → all_in (xs ++ ys) es ≡ true
all_in-right [] xs ys h = refl
all_in-right (e ∷ es) xs ys h = ground (arith, member-append e xs ys, all_in-right es xs ys)

nodes-subterms : (us : Updates) → all_in (subterms_of_updates us) (nodes us) ≡ true
unfolding subterms_of_updates
nodes-subterms no_updates = refl
nodes-subterms (update i v us) =
    let later =
      all_in-right (nodes us) (subterms i) (subterms v ++ subterms_of_updates us)
        (all_in-right (nodes us) (subterms v) (subterms_of_updates us) (nodes-subterms us)) in
    ground (
      arith,
      later,
      member-append i (subterms i) (subterms v ++ subterms_of_updates us),
      member-append v (subterms i) (subterms v ++ subterms_of_updates us),
      member-append v (subterms v) (subterms_of_updates us),
      subterms_self i,
      subterms_self v,
    )

operands-subterms : (es : Kids) → all_in (subterms_of_kids es) (operands es) ≡ true
unfolding subterms_of_kids
operands-subterms no_kids = refl
operands-subterms (kid e es) =
    let later =
      all_in-right (operands es) (subterms e) (subterms_of_kids es) (operands-subterms es) in
    ground (arith, later, member-append e (subterms e) (subterms_of_kids es), subterms_self e)

all_in-later : (es xs : List Expr) (x : Expr) → all_in xs es ≡ true → all_in (x ∷ xs) es ≡ true
all_in-later [] xs x h = refl
all_in-later (e ∷ es) xs x h = ground (arith, all_in-later es xs x)

-- A member of a concatenation.
pub either :
    (P : Expr → Type 0) (x : Expr) (xs ys : List Expr)
    → member x (xs ++ ys) ≡ true
    → (member x xs ≡ true → P x)
    → (member x ys ≡ true → P x)
    → P x
either P x xs ys h f g = elim (Bool-cases (member x xs)) [
  | inl e ↦ f e
  | inr e ↦ g (let a = member-append x xs ys in ground arith)
]

-- The first element, or a later one.
pub first_or :
    (P : Expr → Type 0) (x e : Expr) (xs : List Expr)
    → member x (e ∷ xs) ≡ true
    → P e
    → (member x xs ≡ true → P x)
    → P x
first_or P x e xs h f g = elim (Bool-cases (same_expr x e)) [
  | inl s ↦ subst P (sym (same_expr-eq x e s)) f
  | inr s ↦ g (ground arith)
]

mutual
  unfolding subterms subterms_of_updates subterms_of_kids

  pub parts-subterms :
      (e x : Expr) → member x (subterms e) ≡ true → all_in (subterms e) (parts x) ≡ true
  parts-subterms (constant width value) x h =
      first_or (λ y. all_in (constant width value ∷ []) (parts y) ≡ true) x (constant width value)
        [] h refl (λ n. cc)
  parts-subterms (read a us i) x h =
      let whole = subterms i ++ subterms_of_updates us in
      first_or (λ y. all_in (read a us i ∷ whole) (parts y) ≡ true) x (read a us i) whole h
        (all_in-later (i ∷ nodes us) whole (read a us i) (
          let later =
            all_in-right (nodes us) (subterms i) (subterms_of_updates us) (nodes-subterms us) in
          ground
            (arith, later, member-append i (subterms i) (subterms_of_updates us), subterms_self i)))
        (λ m. all_in-later (parts x) whole (read a us i) (
          either (λ y. all_in whole (parts y) ≡ true) x (subterms i) (subterms_of_updates us) m
            (λ k.
              all_in-left (parts x) (subterms i) (subterms_of_updates us) (parts-subterms i x k))
            (λ k.
              all_in-right (parts x) (subterms i) (subterms_of_updates us)
                (parts-subterms_of_updates us x k))))
  parts-subterms (operation k c es) x h =
      let whole = subterms_of_kids es in
      first_or (λ y. all_in (operation k c es ∷ whole) (parts y) ≡ true) x (operation k c es) whole
        h (all_in-later (operands es) whole (operation k c es) (operands-subterms es))
        (λ m. all_in-later (parts x) whole (operation k c es) (parts-subterms_of_kids es x m))

  parts-subterms_of_updates :
      (us : Updates) (x : Expr)
      → member x (subterms_of_updates us) ≡ true
      → all_in (subterms_of_updates us) (parts x) ≡ true
  parts-subterms_of_updates no_updates x h = cc
  parts-subterms_of_updates (update i v us) x h =
      let rest = subterms v ++ subterms_of_updates us in
      either (λ y. all_in (subterms i ++ rest) (parts y) ≡ true) x (subterms i) rest h
        (λ m. all_in-left (parts x) (subterms i) rest (parts-subterms i x m))
        (λ m. all_in-right (parts x) (subterms i) rest (
          either (λ y. all_in rest (parts y) ≡ true) x (subterms v) (subterms_of_updates us) m
            (λ k.
              all_in-left (parts x) (subterms v) (subterms_of_updates us) (parts-subterms v x k))
            (λ k.
              all_in-right (parts x) (subterms v) (subterms_of_updates us)
                (parts-subterms_of_updates us x k))))

  parts-subterms_of_kids :
      (es : Kids) (x : Expr)
      → member x (subterms_of_kids es) ≡ true
      → all_in (subterms_of_kids es) (parts x) ≡ true
  parts-subterms_of_kids no_kids x h = cc
  parts-subterms_of_kids (kid e es) x h =
      either (λ y. all_in (subterms e ++ subterms_of_kids es) (parts y) ≡ true) x (subterms e)
        (subterms_of_kids es) h
        (λ m. all_in-left (parts x) (subterms e) (subterms_of_kids es) (parts-subterms e x m))
        (λ m.
          all_in-right (parts x) (subterms e) (subterms_of_kids es) (parts-subterms_of_kids es x m))
