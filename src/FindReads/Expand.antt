-- ===== src/FindReads/Expand.antt =====
-- One turn of the walk of `findReads` (klee/lib/Expr/ExprUtil.cpp).
use xklee.Base.{
  ℕ, ◌≡◌, refl, true, ◌&&◌, List, [], ◌∷◌, ◌++◌, arith, all, inl, inr, Bool-cases, sym, subst, ◌∙◌,
}
use xklee.Exprs.{Expr, constant, read, operation, Updates, is_read, member, same_updates}
use xklee.Exprs.Same.{same_expr_refl, same_updates-eq, member-append}
use xklee.FindReads.{Walk, member_updates, visit, visit_updates, expand}
use xklee.FindReads.Subterms.{nodes, operands, parts, either, first_or}
use xklee.FindReads.Visit.{
  seen, IsDone, IsWalk, visit_all, visit_nodes-visit_all, visit_kids-visit_all, visit-keeps_seen,
  visit-seen, visit_all-keeps_seen, visit_all-seen, visit-IsWalk, visit_all-IsWalk, visit-results,
}

visit_all-results : (es : List Expr) (w : Walk) → (visit_all es w).results ≡ w.results
visit_all-results [] w = refl
visit_all-results (e ∷ es) w =
    let rest = visit_all-results es (visit e w) in
    let first : (visit e w).results ≡ w.results = ground arith in rest ∙ first

visit_updates-results : (us : Updates) (w : Walk) → (visit_updates us w).results ≡ w.results
visit_updates-results us w = elim (Bool-cases (member_updates us w.heads)) [
  | inl f ↦ rw f refl
  | inr f ↦
      let marked = record w { heads = us ∷ w.heads } in
      rw (f, visit_nodes-visit_all us marked) (visit_all-results (nodes us) marked)
]

visit_updates-keeps_seen :
    (us : Updates) (y : Expr) (w : Walk)
    → seen w.visited y ≡ true
    → seen (visit_updates us w).visited y ≡ true
visit_updates-keeps_seen us y w h = elim (Bool-cases (member_updates us w.heads)) [
  | inl f ↦ rw f h
  | inr f ↦
      let marked = record w { heads = us ∷ w.heads } in
      rw (f, visit_nodes-visit_all us marked) (visit_all-keeps_seen (nodes us) y marked h)
]

abbrev pub Nothing : {A : Type 0} → A → Type 0
Nothing x = ⊥

module _ (universe : List Expr) (Excused : Expr → Type 0) where
  visit_updates-seen :
      (us : Updates) (w : Walk)
      → IsWalk universe Excused Nothing w
      → all (seen (visit_updates us w).visited) (nodes us) ≡ true
  visit_updates-seen us w i = elim (Bool-cases (member_updates us w.heads)) [
    | inl f ↦ elim (i.heads us f) [ inl p ↦ absurd p | inr h ↦ rw f h ]
    | inr f ↦
        let marked = record w { heads = us ∷ w.heads } in
        rw (f, visit_nodes-visit_all us marked) (visit_all-seen (nodes us) marked)
  ]

  marked-IsWalk :
      (us : Updates) (w : Walk)
      → IsWalk universe Excused Nothing w
      → IsWalk universe Excused (λ h. h ≡ us) (record w { heads = us ∷ w.heads })
  marked-IsWalk us w i = record {
    within = i.within;
    stacked = i.stacked;
    heads = λ h m. elim (Bool-cases (same_updates h us)) [
      | inl f ↦ inl (same_updates-eq h us f)
      | inr f ↦ elim (i.heads h (ground arith)) [ inl p ↦ absurd p | inr s ↦ inr s ]
    ];
    found = i.found;
    closed = i.closed;
  }

  unmarked-IsWalk :
      (us : Updates) (w : Walk)
      → all (seen w.visited) (nodes us) ≡ true
      → IsWalk universe Excused (λ h. h ≡ us) w
      → IsWalk universe Excused Nothing w
  unmarked-IsWalk us w s i = record {
    within = i.within;
    stacked = i.stacked;
    heads = λ h m. elim (i.heads h m) [
      | inl p ↦ inr (subst (λ x. all (seen w.visited) (nodes x) ≡ true) (sym p) s)
      | inr t ↦ inr t
    ];
    found = i.found;
    closed = i.closed;
  }

  visit_updates-IsWalk :
      (us : Updates) (w : Walk)
      → all (seen universe) (nodes us) ≡ true
      → IsWalk universe Excused Nothing w
      → IsWalk universe Excused Nothing (visit_updates us w)
  visit_updates-IsWalk us w u i = elim (Bool-cases (member_updates us w.heads)) [
    | inl f ↦ rw f i
    | inr f ↦
        let marked = record w { heads = us ∷ w.heads } in
        rw (f, visit_nodes-visit_all us marked)
          (unmarked-IsWalk us (visit_all (nodes us) marked) (visit_all-seen (nodes us) marked) (
            visit_all-IsWalk universe Excused (λ h. h ≡ us) (nodes us) marked u
              (marked-IsWalk us w i)))
  ]

  found-IsWalk :
      (a : ℕ) (us : Updates) (x : Expr) (w : Walk)
      → member (read a us x) universe ≡ true
      → IsWalk universe Excused Nothing w
      → IsWalk universe Excused Nothing (record w { results = w.results ++ (read a us x ∷ []) })
  found-IsWalk a us x w u i = record {
    within = i.within;
    stacked = i.stacked;
    heads = i.heads;
    found = λ r m.
        either (λ y. (is_read y && member y universe) ≡ true) r w.results (read a us x ∷ []) m
          (i.found r)
          (λ k.
            first_or (λ y. (is_read y && member y universe) ≡ true) r (read a us x) [] k u
              (λ n. cc));
    closed = λ y m. elim (i.closed y m) [
      | inl e ↦ inl e
      | inr (inl s) ↦ inr (inl s)
      | inr (inr d) ↦ inr (
          inr (
            d.0,
            λ h.
                let k = d.1 h in
                let a = member-append y w.results (read a us x ∷ []) in ground arith,
          ))
    ];
  }

-- The body of the loop: the popped expression is done.
pub expand-IsDone :
    (universe : List Expr) (top : Expr) (w : Walk)
    → member top universe ≡ true
    → all (seen universe) (parts top) ≡ true
    → IsWalk universe (λ x. x ≡ top) Nothing w
    → IsWalk universe (λ x. x ≡ top) Nothing (expand true top w) × IsDone (expand true top w) top
expand-IsDone universe (constant width value) w m u i = (i, (refl, λ h. cc))
expand-IsDone universe (read a us x) w m u i =
    let found = record w { results = w.results ++ (read a us x ∷ []) } in
    let first =
      visit-IsWalk universe (λ y. y ≡ read a us x) Nothing x found (ground arith)
        (found-IsWalk universe (λ y. y ≡ read a us x) a us x w m i) in
    let index = visit_updates-keeps_seen us x (visit x found) (visit-seen x found) in
    let later = visit_updates-seen universe (λ y. y ≡ read a us x) us (visit x found) first in
    (
      visit_updates-IsWalk universe (λ y. y ≡ read a us x) us (visit x found) (ground arith) first,
      (
        ground arith,
        λ h.
            let same = visit_updates-results us (visit x found) in
            let before = visit-results x found in
            let end = member-append (read a us x) w.results (read a us x ∷ []) in
            let self = same_expr_refl (read a us x) in
            let there : member (read a us x) found.results ≡ true = ground arith in
            subst (λ rs. member (read a us x) rs ≡ true) (sym (same ∙ before)) there,
      ),
    )
expand-IsDone universe (operation k c es) w m u i = rw (visit_kids-visit_all es w) (
  visit_all-IsWalk universe (λ y. y ≡ operation k c es) Nothing (operands es) w u i,
  (visit_all-seen (operands es) w, λ h. cc),
)

pub expand-keeps_seen :
    (e y : Expr) (w : Walk) → seen w.visited y ≡ true → seen (expand true e w).visited y ≡ true
expand-keeps_seen (constant width value) y w h = h
expand-keeps_seen (read a us i) y w h =
    let found = record w { results = w.results ++ (read a us i ∷ []) } in
    visit_updates-keeps_seen us y (visit i found) (visit-keeps_seen i y found h)
expand-keeps_seen (operation k c es) y w h =
    rw (visit_kids-visit_all es w) (visit_all-keeps_seen (operands es) y w h)
