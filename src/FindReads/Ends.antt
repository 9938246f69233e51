-- ===== src/FindReads/Ends.antt =====
-- The loop of `findReads` (klee/lib/Expr/ExprUtil.cpp) turn by turn.
use xklee.Base.{
  ℕ, zero, suc, ◌≡◌, ◌<◌, refl, true, some, List, [], ◌∷◌, arith, all, inl, inr, ◌⊎◌, sym, subst,
  ap, length,
}
use xklee.Exprs.{Expr, member}
use xklee.Exprs.Same.{same_expr_refl}
use xklee.FindReads.{Walk, expand, loop, turn}
use xklee.FindReads.Subterms.{parts, first_or, all_in}
use xklee.FindReads.Visit.{seen, IsDone, IsWalk}
use xklee.FindReads.Turns.{turns_left, expand-turns_left}
use xklee.FindReads.Expand.{Nothing, expand-IsDone, expand-keeps_seen}

stack_cases : (es : List Expr) → (es ≡ []) ⊎ ((top : Expr) × (rest : List Expr) × (es ≡ top ∷ rest))
stack_cases [] = inl refl
stack_cases (e ∷ es) = inr (e, es, refl)

pub all_in-seen :
    (universe es : List Expr) → all_in universe es ≡ true → all (seen universe) es ≡ true
all_in-seen universe [] h = refl
all_in-seen universe (e ∷ es) h = ground (arith, all_in-seen universe es)

module _ (universe : List Expr)
    (closed_under : (x : Expr)
      → member x universe ≡ true
      → all (seen universe) (parts x) ≡ true) where
  popped-IsWalk :
      (top : Expr) (rest : List Expr) (w : Walk)
      → w.stack ≡ top ∷ rest
      → IsWalk universe Nothing Nothing w
      → IsWalk universe (λ x. x ≡ top) Nothing (record w { stack = rest })
  popped-IsWalk top rest w e i = record {
    within = i.within;
    stacked = λ x m. i.stacked x (subst (λ s. member x s ≡ true) (sym e) (ground arith));
    heads = i.heads;
    found = i.found;
    closed = λ x m. elim (i.closed x m) [
      | inl p ↦ absurd p
      | inr (inl s) ↦
          first_or (λ y. (y ≡ top) ⊎ ((member y rest ≡ true) ⊎ IsDone w y)) x top rest
            (subst (λ s. member x s ≡ true) e s) (inl refl) (λ n. inr (inl n))
      | inr (inr d) ↦ inr (inr d)
    ];
  }

  settled-IsWalk :
      (top : Expr) (w : Walk)
      → IsDone w top
      → IsWalk universe (λ x. x ≡ top) Nothing w
      → IsWalk universe Nothing Nothing w
  settled-IsWalk top w d i = record {
    within = i.within;
    stacked = i.stacked;
    heads = i.heads;
    found = i.found;
    closed = λ x m. elim (i.closed x m) [
      | inl p ↦ inr (inr (subst (λ y. IsDone w y) (sym p) d))
      | inr r ↦ inr r
    ];
  }

  -- A walk that has ended behind this one.
  abbrev pub IsEnd : Walk → Walk → Type 0
  IsEnd w end =
      IsWalk universe Nothing Nothing end
      × (end.stack ≡ [])
      × ((y : Expr) → seen w.visited y ≡ true → seen end.visited y ≡ true)

  pub loop-ends :
      (fuel : ℕ) (w : Walk)
      → IsWalk universe Nothing Nothing w
      → turns_left universe w < fuel
      → (end : Walk) × IsEnd w end × (loop true fuel w ≡ some end.results)
  unfolding loop
  loop-ends zero w i l = absurd (omega arith)
  loop-ends (suc fuel) w i l = elim (stack_cases w.stack) [
    | inl e ↦ (w, (i, e, λ y h. h), rw e refl)
    | inr (top, rest, e) ↦
        let popped = record w { stack = rest } in
        let m : member top universe ≡ true = i.within top (
          i.stacked top (
            subst (λ s. member top s ≡ true) (sym e)
              (let self = same_expr_refl top in ground arith))) in
        let (after, done) =
          expand-IsDone universe top popped m (closed_under top m) (popped-IsWalk top rest w e i) in
        let fewer = expand-turns_left universe true top popped (closed_under top m) in
        let size : length w.stack ≡ suc (length rest) = ap length e in
        let (end, (j, none_left, keeps), r) =
          loop-ends fuel (expand true top popped)
            (settled-IsWalk top (expand true top popped) done after) (omega arith) in
        (
          end,
          (j, none_left, λ y h. keeps y (expand-keeps_seen top y popped h)),
          subst (λ st. turn true st w (λ after. loop true fuel after) ≡ some end.results) (sym e) r,
        )
  ]
