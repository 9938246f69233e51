-- ===== src/ProcessTree/Remove.antt =====
-- `remove` of klee/lib/Core/PTree.cpp as a whole.
use mathlib.Core.Option.{get_or}
use xklee.Base.{
  ℕ, zero, suc, ◌≡◌, ◌<◌, refl, ap, sym, ◌∙◌, true, false, not, ◌&&◌, Option, none, some, ◌==◌,
  ==_iff, arith, if◌then◌else◌, inl, inr, ◌⊎◌, Bool-cases, Option-cases,
}
use xklee.Solver.{◌>>=◌}
use xklee.ProcessTree.{
  PTreeNode, Heap, set_node, is_null, is_leaf, leaf_or, leaf_at, unlink, delete_and_unlink, goes_on,
  remove_from, remove,
}
use xklee.ProcessTree.Linked.{IsLinked, set_node_other, root-IsLinked}
use xklee.ProcessTree.Unlink.{unlink-IsCleared, after, after-IsLinked, leaf_at-after}

-- The tree without the leaf `n`, and without another change to the leaves.
abbrev pub IsPruned : ℕ → Heap → Heap → Type 0
IsPruned n heap heap' =
    IsLinked heap' × ((j : ℕ) → leaf_at heap' j ≡ (leaf_at heap j && not (j == n)))

parent_not_leaf :
    (n : ℕ) (parent : PTreeNode)
    → (parent.left ≡ some n) ⊎ (parent.right ≡ some n)
    → is_leaf parent ≡ false
parent_not_leaf n parent (inl e) = let x = ap is_null e in ground arith
parent_not_leaf n parent (inr e) = let x = ap is_null e in ground arith

root_leaves :
    (n j : ℕ) (heap : Heap) → leaf_at (set_node n none heap) j ≡ (leaf_at heap j && not (j == n))
root_leaves n j heap = ground arith

leaf_of : (entry : Option PTreeNode) → leaf_or entry ≡ true → (x : PTreeNode) × (entry ≡ some x)
leaf_of none h = cc
leaf_of (some x) h = (x, refl)

-- The turn below a parent.
remove_from_parent :
    (fuel n p : ℕ) (node parent cleared : PTreeNode) (heap : Heap)
    → heap n ≡ some node
    → node.parent ≡ some p
    → set_node n none heap p ≡ some parent
    → unlink n parent ≡ some cleared
    → remove_from (suc fuel) n heap ≡ (
        if leaf_at (set_node p (some cleared) (set_node n none heap)) p
        then remove_from fuel p (set_node p (some cleared) (set_node n none heap))
        else some (set_node p (some cleared) (set_node n none heap)))
unfolding remove_from
remove_from_parent fuel n p node parent cleared heap here u other e =
    let go_on : Heap × Option ℕ → Option Heap =
      λ next. if goes_on next then remove_from fuel (get_or next.1 0) next.0 else some next.0 in
    let relinked : PTreeNode → Option (Heap × Option ℕ) =
      λ c. some (set_node p (some c) (set_node n none heap), some p) in
    ap (λ (o : Option PTreeNode). o >>= (λ x. delete_and_unlink x.parent n heap >>= go_on)) here
    ∙ ap (λ x. delete_and_unlink x n heap >>= go_on) u
    ∙ ap (λ (o : Option PTreeNode). (o >>= (λ x. unlink n x >>= relinked)) >>= go_on) other
    ∙ ap (λ (o : Option PTreeNode). (o >>= relinked) >>= go_on) e

remove_from-IsPruned :
    (fuel n : ℕ) (node : PTreeNode) (heap : Heap)
    → IsLinked heap
    → heap n ≡ some node
    → is_leaf node ≡ true
    → n < fuel
    → (heap' : Heap) × (remove_from fuel n heap ≡ some heap') × IsPruned n heap heap'
unfolding remove_from
remove_from-IsPruned zero n node heap linked here leaf l = absurd (omega arith)
remove_from-IsPruned (suc fuel) n node heap linked here leaf l = elim (Option-cases node.parent) [
  | inl r ↦ (
    set_node n none heap,
    rw (here, r) refl,
    (root-IsLinked n node heap linked here leaf r, λ j. root_leaves n j heap),
  )
  | inr (p, u) ↦
      let (older, parent, there, side) = linked.up n p node here u in
      let (cleared, e, c) =
        unlink-IsCleared n parent side (λ d. linked.distinct p d parent there) in
      let other = set_node_other n p none heap (λ s. omega arith) ∙ there in
      let next = after n p node parent cleared heap linked here leaf u there older c in
      let step = remove_from_parent fuel n p node parent cleared heap here u other e in
      let next_linked =
        after-IsLinked n p node parent cleared heap linked here leaf u there older c in
      let leaves = leaf_at-after n p node parent cleared heap linked here leaf u there older c in
      let not_leaf : leaf_at heap p ≡ false = ap leaf_or there ∙ parent_not_leaf n parent side in
      elim (Bool-cases (leaf_at next p)) [
        | inl f ↦
            let (x, ex) = leaf_of (next p) f in
            let (heap', r, (linked', pruned)) =
              remove_from-IsPruned fuel p x next next_linked ex (ap leaf_or (sym ex) ∙ f)
                (omega arith) in
            (
              heap',
              step ∙ ap (λ b. if b then remove_from fuel p next else some next) f ∙ r,
              (
                linked',
                λ j. elim (Bool-cases (j == p)) [
                  | inl g ↦
                      let was : leaf_at heap j ≡ leaf_at heap p =
                        ap (leaf_at heap) ((==_iff j p).0 g) in
                      let a = pruned j in ground arith
                  | inr g ↦ let a = pruned j in let b = leaves j in ground arith
                ],
              ),
            )
        | inr f ↦ (
          next,
          step ∙ ap (λ b. if b then remove_from fuel p next else some next) f,
          (
            next_linked,
            λ j. elim (Bool-cases (j == p)) [
              | inl g ↦
                  let was : leaf_at heap j ≡ leaf_at heap p =
                    ap (leaf_at heap) ((==_iff j p).0 g) in
                  let now : leaf_at next j ≡ leaf_at next p =
                    ap (leaf_at next) ((==_iff j p).0 g) in
                  ground arith
              | inr g ↦ let b = leaves j in ground arith
            ],
          ),
        )
      ]
]

-- On a heap where nodes and their parents know each other and parents are older, `remove` of
-- a leaf ends without a failed assertion, the links are right afterwards, and the leaves are
-- those from before without the one removed, so that no dead branch stays.
pub remove-IsPruned :
    (n : ℕ) (node : PTreeNode) (heap : Heap)
    → IsLinked heap
    → heap n ≡ some node
    → is_leaf node ≡ true
    → (heap' : Heap) × (remove n heap ≡ some heap') × IsPruned n heap heap'
unfolding remove
remove-IsPruned n node heap linked here leaf =
    let at : leaf_at heap n ≡ true = ap leaf_or here ∙ leaf in
    let (heap', e, p) = remove_from-IsPruned (suc n) n node heap linked here leaf (omega arith) in
    (heap', rw at e, p)
