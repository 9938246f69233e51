-- ===== src/ProcessTree/Linked.antt =====
-- Links between the nodes of klee/lib/Core/PTree.cpp, and one turn of `remove`.
use xklee.Base.{
  ℕ, ◌≡◌, ◌<◌, refl, ap, sym, ◌∙◌, true, Option, none, some, ◌==◌, ==_iff, arith, inl, inr, ◌⊎◌,
  Bool-cases,
}
use xklee.ProcessTree.{PTreeNode, Heap, set_node, is_null, is_leaf}

-- A node and its parent know each other, and the parent is older.
pub record IsLinked (heap : Heap) : Type 0 where
  pub up :
      (i p : ℕ) (node : PTreeNode)
      → heap i ≡ some node
      → node.parent ≡ some p
      → (p < i)
        × (parent : PTreeNode) × (heap p ≡ some parent)
        × ((parent.left ≡ some i) ⊎ (parent.right ≡ some i))
  pub left :
      (i c : ℕ) (node : PTreeNode)
      → heap i ≡ some node
      → node.left ≡ some c
      → (child : PTreeNode) × (heap c ≡ some child) × (child.parent ≡ some i)
  pub right :
      (i c : ℕ) (node : PTreeNode)
      → heap i ≡ some node
      → node.right ≡ some c
      → (child : PTreeNode) × (heap c ≡ some child) × (child.parent ≡ some i)
  pub distinct :
      (i c : ℕ) (node : PTreeNode)
      → heap i ≡ some node
      → node.left ≡ some c
      → node.right ≡ some c
      → ⊥

pub set_node_other :
    (i j : ℕ) (entry : Option PTreeNode) (heap : Heap)
    → ((j ≡ i) → ⊥)
    → set_node i entry heap j ≡ heap j
set_node_other i j entry heap n = elim (Bool-cases (j == i)) [
  | inl e ↦ absurd (n ((==_iff j i).0 e))
  | inr e ↦ rw e refl
]

pub set_node_same :
    (i : ℕ) (entry : Option PTreeNode) (heap : Heap) → set_node i entry heap i ≡ entry
set_node_same i entry heap = ground arith

-- A node that is there in the changed heap is not the deleted one.
pub not_deleted :
    (n i : ℕ) (node : PTreeNode) (heap : Heap)
    → set_node n none heap i ≡ some node
    → ((i ≡ n) → ⊥) × (heap i ≡ some node)
not_deleted n i node heap e = elim (Bool-cases (i == n)) [
  | inl f ↦ let z : none ≡ some node = rw f at e in cc
  | inr f ↦ (λ q. let r = (==_iff i n).1 q in cc, rw f at e)
]

module _ (n : ℕ) (node : PTreeNode) (heap : Heap) (linked : IsLinked heap)
    (here : heap n ≡ some node) (leaf : is_leaf node ≡ true) where
  pub leaf_left : (c : ℕ) → node.left ≡ some c → ⊥
  leaf_left c e = let x = ap is_null e in ground arith

  pub leaf_right : (c : ℕ) → node.right ≡ some c → ⊥
  leaf_right c e = let x = ap is_null e in ground arith

  -- Nothing has the leaf as its parent.
  pub no_child : (i : ℕ) (child : PTreeNode) → heap i ≡ some child → child.parent ≡ some n → ⊥
  no_child i child e p =
      let (l, parent, q, side) = linked.up i n child e p in
      let same : parent ≡ node = cc in
      elim side [
        | inl f ↦ leaf_left i (ap (λ x. x.left) (sym same) ∙ f)
        | inr f ↦ leaf_right i (ap (λ x. x.right) (sym same) ∙ f)
      ]

  pub root-IsLinked : node.parent ≡ none → IsLinked (set_node n none heap)
  root-IsLinked r = record {
    up = λ i p child e q.
        let (ne, e') = not_deleted n i child heap e in
        let (l, parent, h, side) = linked.up i p child e' q in
        let other : (p ≡ n) → ⊥ = λ s. no_child i child e' (q ∙ ap some s) in
        (l, parent, set_node_other n p none heap other ∙ h, side);
    left = λ i c parent e q.
        let (ne, e') = not_deleted n i parent heap e in
        let (child, h, u) = linked.left i c parent e' q in
        let other : (c ≡ n) → ⊥ = λ s.
          let same : child ≡ node = let t = ap heap s in cc in
          let z = ap (λ x. x.parent) same in cc in
        (child, set_node_other n c none heap other ∙ h, u);
    right = λ i c parent e q.
        let (ne, e') = not_deleted n i parent heap e in
        let (child, h, u) = linked.right i c parent e' q in
        let other : (c ≡ n) → ⊥ = λ s.
          let same : child ≡ node = let t = ap heap s in cc in
          let z = ap (λ x. x.parent) same in cc in
        (child, set_node_other n c none heap other ∙ h, u);
    distinct = λ i c parent e q. linked.distinct i c parent (not_deleted n i parent heap e).1 q;
  }
