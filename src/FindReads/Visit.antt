-- ===== src/FindReads/Visit.antt =====
-- An invariant of the walk of `findReads` (klee/lib/Expr/ExprUtil.cpp), kept by each visit.
use xklee.Base.{
  ◌≡◌, refl, Bool, true, ◌&&◌, ◌||◌, List, [], ◌∷◌, arith, all, inl, inr, ◌⊎◌, Bool-cases,
}
use xklee.Exprs.{
  Expr, Updates, no_updates, update, Kids, no_kids, kid, same_expr, is_constant, is_read, member,
}
use xklee.Exprs.Same.{same_expr_refl}
use xklee.FindReads.{Walk, member_updates, visit, visit_nodes, visit_kids}
use xklee.FindReads.Subterms.{nodes, operands, parts, first_or}

abbrev pub seen : List Expr → Expr → Bool
seen xs e = is_constant e || member e xs

-- The parts are visited, and a read is found.
abbrev pub IsDone : Walk → Expr → Type 0
IsDone w x =
    (all (seen w.visited) (parts x) ≡ true) × (is_read x ≡ true → member x w.results ≡ true)

-- What is visited is on the stack or done, but for what is excused; the nodes of the heads are
-- visited, but for the heads that are pending.
pub record IsWalk (universe : List Expr) (Excused : Expr → Type 0) (Pending : Updates → Type 0)
    (w : Walk) : Type 0 where
  pub within : (x : Expr) → member x w.visited ≡ true → member x universe ≡ true
  pub stacked : (x : Expr) → member x w.stack ≡ true → member x w.visited ≡ true
  pub heads :
      (us : Updates)
      → member_updates us w.heads ≡ true
      → Pending us ⊎ (all (seen w.visited) (nodes us) ≡ true)
  pub found : (r : Expr) → member r w.results ≡ true → (is_read r && member r universe) ≡ true
  pub closed :
      (x : Expr) → member x w.visited ≡ true → Excused x ⊎ ((member x w.stack ≡ true) ⊎ IsDone w x)

all-seen-later :
    (es xs : List Expr) (x : Expr) → all (seen xs) es ≡ true → all (seen (x ∷ xs)) es ≡ true
all-seen-later [] xs x h = refl
all-seen-later (e ∷ es) xs x h = ground (arith, all-seen-later es xs x)

-- The visits that `visit_nodes` and `visit_kids` are made of.
abbrev pub visit_all : List Expr → Walk → Walk
visit_all [] w = w
visit_all (e ∷ es) w = visit_all es (visit e w)

pub visit_nodes-visit_all : (us : Updates) (w : Walk) → visit_nodes us w ≡ visit_all (nodes us) w
visit_nodes-visit_all no_updates w = refl
visit_nodes-visit_all (update i v us) w = visit_nodes-visit_all us (visit v (visit i w))

pub visit_kids-visit_all : (es : Kids) (w : Walk) → visit_kids es w ≡ visit_all (operands es) w
visit_kids-visit_all no_kids w = refl
visit_kids-visit_all (kid e es) w = visit_kids-visit_all es (visit e w)

pub visit-keeps_seen :
    (e y : Expr) (w : Walk) → seen w.visited y ≡ true → seen (visit e w).visited y ≡ true
visit-keeps_seen e y w h = elim (Bool-cases (seen w.visited e)) [
  | inl f ↦ rw f h
  | inr f ↦ rw f (ground arith)
]

pub visit-seen : (e : Expr) (w : Walk) → seen (visit e w).visited e ≡ true
visit-seen e w = elim (Bool-cases (seen w.visited e)) [
  | inl f ↦ rw f f
  | inr f ↦ rw f (ground (arith, same_expr_refl e))
]

pub visit_all-keeps_seen :
    (es : List Expr) (y : Expr) (w : Walk)
    → seen w.visited y ≡ true
    → seen (visit_all es w).visited y ≡ true
visit_all-keeps_seen [] y w h = h
visit_all-keeps_seen (e ∷ es) y w h =
    visit_all-keeps_seen es y (visit e w) (visit-keeps_seen e y w h)

pub visit_all-seen : (es : List Expr) (w : Walk) → all (seen (visit_all es w).visited) es ≡ true
visit_all-seen [] w = refl
visit_all-seen (e ∷ es) w =
    let first = visit_all-keeps_seen es e (visit e w) (visit-seen e w) in
    let rest = visit_all-seen es (visit e w) in ground arith

pub visit-results : (e : Expr) (w : Walk) → (visit e w).results ≡ w.results
visit-results e w = ground arith

module _ (universe : List Expr) (Excused : Expr → Type 0) (Pending : Updates → Type 0) where
  abbrev pushed : Expr → Walk → Walk
  pushed e w = record w { stack = e ∷ w.stack; visited = e ∷ w.visited }

  pushed-IsWalk :
      (e : Expr) (w : Walk)
      → member e universe ≡ true
      → IsWalk universe Excused Pending w
      → IsWalk universe Excused Pending (pushed e w)
  pushed-IsWalk e w u i = record {
    within = λ x m. first_or (λ y. member y universe ≡ true) x e w.visited m u (i.within x);
    stacked = λ x m. elim (Bool-cases (same_expr x e)) [
      | inl f ↦ ground arith
      | inr f ↦ let s = i.stacked x (ground arith) in ground arith
    ];
    heads = λ us m. elim (i.heads us m) [
      | inl p ↦ inl p
      | inr h ↦ inr (all-seen-later (nodes us) w.visited e h)
    ];
    found = i.found;
    closed = λ x m. elim (Bool-cases (same_expr x e)) [
      | inl f ↦ inr (inl (ground arith))
      | inr f ↦ elim (i.closed x (ground arith)) [
        | inl x ↦ inl x
        | inr (inl s) ↦ inr (inl (ground arith))
        | inr (inr d) ↦ inr (inr (all-seen-later (parts x) w.visited e d.0, d.1))
      ]
    ];
  }

  pub visit-IsWalk :
      (e : Expr) (w : Walk)
      → seen universe e ≡ true
      → IsWalk universe Excused Pending w
      → IsWalk universe Excused Pending (visit e w)
  visit-IsWalk e w u i = elim (Bool-cases (seen w.visited e)) [
    | inl f ↦ rw f i
    | inr f ↦ rw f (pushed-IsWalk e w (ground arith) i)
  ]

  pub visit_all-IsWalk :
      (es : List Expr) (w : Walk)
      → all (seen universe) es ≡ true
      → IsWalk universe Excused Pending w
      → IsWalk universe Excused Pending (visit_all es w)
  visit_all-IsWalk [] w u i = i
  visit_all-IsWalk (e ∷ es) w u i =
      visit_all-IsWalk es (visit e w) (ground arith) (visit-IsWalk e w (ground arith) i)
