-- ===== src/ProcessTree/Examples.antt =====
-- klee/lib/Core/PTree.cpp on a fork of a fork.
use xklee.Base.{
  subst, ℕ, ◌≡◌, ◌<◌, refl, ap, ◌∙◌, Option, none, some, arith, inl, inr, ◌⊎◌, zero, suc,
}
use xklee.ProcessTree.{split, PTreeNode, Heap, remove}
use xklee.ProcessTree.Linked.{IsLinked}
use xklee.ProcessTree.Split.{split-IsLinked}
use xklee.ProcessTree.Remove.{IsPruned, remove-IsPruned}

abbrev entry : Option ℕ → Option ℕ → Option ℕ → Option PTreeNode
entry parent left right = some (record { parent = parent; left = left; right = right; content = 7 })

-- Node 0 has the child 1 left, which has the children 2 and 3.
abbrev tree : Heap
tree zero = entry none (some 1) none
tree (suc zero) = entry (some 0) (some 2) (some 3)
tree (suc (suc zero)) = entry (some 1) none none
tree (suc (suc (suc zero))) = entry (some 1) none none
tree _ = none

abbrev parent_of : Option PTreeNode → Option ℕ
parent_of none = none
parent_of (some x) = x.parent

abbrev left_of : Option PTreeNode → Option ℕ
left_of none = none
left_of (some x) = x.left

abbrev right_of : Option PTreeNode → Option ℕ
right_of none = none
right_of (some x) = x.right

abbrev IsUp : ℕ → ℕ → Type 0
IsUp i p =
    (p < i)
    × (parent : PTreeNode) × (tree p ≡ some parent)
    × ((parent.left ≡ some i) ⊎ (parent.right ≡ some i))

abbrev IsDown : ℕ → ℕ → Type 0
IsDown i c = (child : PTreeNode) × (tree c ≡ some child) × (child.parent ≡ some i)

up : (i p : ℕ) → parent_of (tree i) ≡ some p → IsUp i p
up zero p u = cc
up (suc zero) p u = subst (IsUp 1) (let q : 0 ≡ p = cc in q) (omega arith, _, refl, inl refl)
up (suc (suc zero)) p u = subst (IsUp 2) (let q : 1 ≡ p = cc in q) (omega arith, _, refl, inl refl)
up (suc (suc (suc zero))) p u =
    subst (IsUp 3) (let q : 1 ≡ p = cc in q) (omega arith, _, refl, inr refl)
up (suc (suc (suc (suc i)))) p u = cc

left : (i c : ℕ) → left_of (tree i) ≡ some c → IsDown i c
left zero c u = subst (IsDown 0) (let q : 1 ≡ c = cc in q) (_, refl, refl)
left (suc zero) c u = subst (IsDown 1) (let q : 2 ≡ c = cc in q) (_, refl, refl)
left (suc (suc zero)) c u = cc
left (suc (suc (suc zero))) c u = cc
left (suc (suc (suc (suc i)))) c u = cc

right : (i c : ℕ) → right_of (tree i) ≡ some c → IsDown i c
right zero c u = cc
right (suc zero) c u = subst (IsDown 1) (let q : 3 ≡ c = cc in q) (_, refl, refl)
right (suc (suc zero)) c u = cc
right (suc (suc (suc zero))) c u = cc
right (suc (suc (suc (suc i)))) c u = cc

distinct : (i c : ℕ) → left_of (tree i) ≡ some c → right_of (tree i) ≡ some c → ⊥
distinct zero c a b = cc
distinct (suc zero) c a b = let q : 2 ≡ c = cc in let r : 3 ≡ c = cc in omega arith
distinct (suc (suc zero)) c a b = cc
distinct (suc (suc (suc zero))) c a b = cc
distinct (suc (suc (suc (suc i)))) c a b = cc

tree-IsLinked : IsLinked tree
tree-IsLinked = record {
  up = λ i p node e u. up i p (ap parent_of e ∙ u);
  left = λ i c node e u. left i c (ap left_of e ∙ u);
  right = λ i c node e u. right i c (ap right_of e ∙ u);
  distinct = λ i c node e a b. distinct i c (ap left_of e ∙ a) (ap right_of e ∙ b);
}

remove-IsPruned_example : (heap' : Heap) × (remove 3 tree ≡ some heap') × IsPruned 3 tree heap'
remove-IsPruned_example =
    remove-IsPruned 3 (record { parent = some 1; left = none; right = none; content = 7 }) tree
      tree-IsLinked refl refl

split-IsLinked_example :
    (heap' : Heap) × (split 4 5 2 8 9 tree ≡ some heap')
    × IsLinked heap'
    × (heap' 4 ≡ some (record { parent = some 2; left = none; right = none; content = 8 }))
    × (heap' 5 ≡ some (record { parent = some 2; left = none; right = none; content = 9 }))
    × (heap' 2 ≡ some (record { parent = some 1; left = some 4; right = some 5; content = 7 }))
    × ((i : ℕ) → ((i ≡ 5) → ⊥) → ((i ≡ 4) → ⊥) → ((i ≡ 2) → ⊥) → heap' i ≡ tree i)
split-IsLinked_example =
    split-IsLinked 4 5 2 8 9 (record { parent = some 1; left = none; right = none; content = 7 })
      tree tree-IsLinked refl refl (omega arith, omega arith) (refl, refl)
