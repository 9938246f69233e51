-- ===== src/FindReads/Exact.antt =====
-- What `findReads` (klee/lib/Expr/ExprUtil.cpp) finds.
use xklee.Base.{
  suc, ◌≡◌, refl, true, ◌&&◌, some, List, [], ◌++◌, arith, all, inl, inr, Bool-cases, subst, length,
}
use xklee.Exprs.{
  Expr, constant, read, operation, Updates, no_updates, update, Kids, no_kids, kid, is_read, member,
}
use xklee.FindReads.{
  Walk, visit, subterms, subterms_of_updates, subterms_of_kids, nothing_visited, find_reads,
}
use xklee.FindReads.Subterms.{
  nodes, operands, parts, either, first_or, parts-subterms, subterms_self,
}
use xklee.FindReads.Visit.{seen, IsDone, IsWalk, visit-IsWalk, visit-seen}
use xklee.FindReads.Turns.{visit-turns_left, unvisited_none}
use xklee.FindReads.Expand.{Nothing}
use xklee.FindReads.Ends.{all_in-seen, loop-ends}

module _ (visited : List Expr)
    (closed : (x : Expr) → member x visited ≡ true → all (seen visited) (parts x) ≡ true) where
  seen-parts : (x : Expr) → seen visited x ≡ true → all (seen visited) (parts x) ≡ true
  seen-parts (constant width value) h = refl
  seen-parts (read a us i) h = closed (read a us i) h
  seen-parts (operation k c es) h = closed (operation k c es) h

  mutual
    unfolding subterms subterms_of_updates subterms_of_kids

    -- Everything below what is seen is seen.
    seen_below :
        (e y : Expr) → seen visited e ≡ true → member y (subterms e) ≡ true → seen visited y ≡ true
    seen_below (constant width value) y s m =
        first_or (λ z. seen visited z ≡ true) y (constant width value) [] m refl (λ n. cc)
    seen_below (read a us i) y s m =
        let p = seen-parts (read a us i) s in
        first_or (λ z. seen visited z ≡ true) y (read a us i) (subterms i ++ subterms_of_updates us)
          m s
          (λ n.
            either (λ z. seen visited z ≡ true) y (subterms i) (subterms_of_updates us) n
              (seen_below i y (ground arith)) (seen_below_updates us y (ground arith)))
    seen_below (operation k c es) y s m =
        let p = seen-parts (operation k c es) s in
        first_or (λ z. seen visited z ≡ true) y (operation k c es) (subterms_of_kids es) m s
          (seen_below_kids es y p)

    seen_below_updates :
        (us : Updates) (y : Expr)
        → all (seen visited) (nodes us) ≡ true
        → member y (subterms_of_updates us) ≡ true
        → seen visited y ≡ true
    seen_below_updates no_updates y s m = cc
    seen_below_updates (update i v us) y s m =
        either (λ z. seen visited z ≡ true) y (subterms i) (subterms v ++ subterms_of_updates us) m
          (seen_below i y (ground arith))
          (λ n.
            either (λ z. seen visited z ≡ true) y (subterms v) (subterms_of_updates us) n
              (seen_below v y (ground arith)) (seen_below_updates us y (ground arith)))

    seen_below_kids :
        (es : Kids) (y : Expr)
        → all (seen visited) (operands es) ≡ true
        → member y (subterms_of_kids es) ≡ true
        → seen visited y ≡ true
    seen_below_kids no_kids y s m = cc
    seen_below_kids (kid e es) y s m =
        either (λ z. seen visited z ≡ true) y (subterms e) (subterms_of_kids es) m
          (seen_below e y (ground arith)) (seen_below_kids es y (ground arith))

nothing_visited-IsWalk : (universe : List Expr) → IsWalk universe Nothing Nothing nothing_visited
nothing_visited-IsWalk universe = record {
  within = λ x m. cc;
  stacked = λ x m. cc;
  heads = λ us m. cc;
  found = λ r m. cc;
  closed = λ x m. cc;
}

-- Nothing is on the stack any more, so that all is done.
ended :
    (universe : List Expr) (end : Walk)
    → end.stack ≡ []
    → IsWalk universe Nothing Nothing end
    → (x : Expr) → member x end.visited ≡ true
    → IsDone end x
ended universe end e i x m = elim (i.closed x m) [
  | inl p ↦ absurd p
  | inr (inl s) ↦ let n = subst (λ st. member x st ≡ true) e s in cc
  | inr (inr d) ↦ d
]

read_found :
    (e r : Expr) (end : Walk)
    → end.stack ≡ []
    → IsWalk (subterms e) Nothing Nothing end
    → seen end.visited e ≡ true
    → member r end.results ≡ (is_read r && member r (subterms e))
read_found e r end none_left i s = elim (Bool-cases (is_read r && member r (subterms e))) [
  | inl f ↦
      let there =
        seen_below end.visited (λ x m. (ended (subterms e) end none_left i x m).0) e r s
          (ground arith) in
      let visited : member r end.visited ≡ true = read_member r end.visited (ground arith) there in
      let found = (ended (subterms e) end none_left i r visited).1 (ground arith) in ground arith
  | inr f ↦ elim (Bool-cases (member r end.results)) [
    | inl g ↦ let back = i.found r g in cc
    | inr g ↦ ground arith
  ]
]
  where
    read_member :
        (x : Expr) (xs : List Expr) → is_read x ≡ true → seen xs x ≡ true → member x xs ≡ true
    read_member (constant width value) xs h s = cc
    read_member (read a us j) xs h s = s
    read_member (operation k c es) xs h s = cc

-- With as many turns as the expression has subterms and one more, `find_reads` ends, and an
-- expression is in its results exactly if it is a read among the subterms, those in update
-- nodes included.
pub find_reads-exact :
    (e : Expr)
    → (results : List Expr) × (find_reads true e ≡ some results)
      × ((r : Expr) → member r results ≡ (is_read r && member r (subterms e)))
unfolding find_reads
find_reads-exact e =
    let start = visit e nothing_visited in
    let inside : seen (subterms e) e ≡ true = let s = subterms_self e in ground arith in
    let fewer = visit-turns_left (subterms e) e nothing_visited inside in
    let all_of_them = unvisited_none (subterms e) in
    let (end, (i, none_left, keeps), r) =
      loop-ends (subterms e) (λ x m. all_in-seen (subterms e) (parts x) (parts-subterms e x m))
        (suc (length (subterms e))) start
        (visit-IsWalk (subterms e) Nothing Nothing e nothing_visited inside
          (nothing_visited-IsWalk (subterms e)))
        (omega arith) in
    (end.results, r, λ x. read_found e x end none_left i (keeps e (visit-seen e nothing_visited)))
