-- ===== src/ProcessTree/Split.antt =====
-- `split` of klee/lib/Core/PTree.cpp, at addresses that are not in use.
use xklee.Base.{
  ℕ, ◌≡◌, ◌<◌, refl, ap, sym, ◌∙◌, true, none, some, ◌==◌, ==_iff, arith, inl, inr, ◌⊎◌, Bool-cases,
  subst,
}
use xklee.ProcessTree.{PTreeNode, Heap, set_node, is_leaf, split}
use xklee.ProcessTree.Linked.{IsLinked, set_node_other, set_node_same, leaf_left, leaf_right}

module _ (l r n a b : ℕ) (node : PTreeNode) (heap : Heap) (linked : IsLinked heap)
    (here : heap n ≡ some node) (leaf : is_leaf node ≡ true) (younger : (n < l) × (l < r))
    (free : (heap l ≡ none) × (heap r ≡ none)) where
  abbrev new_left : PTreeNode
  new_left = record { parent = some n; left = none; right = none; content = a }

  abbrev new_right : PTreeNode
  new_right = record { parent = some n; left = none; right = none; content = b }

  abbrev forked : PTreeNode
  forked = record node { left = some l; right = some r }

  abbrev grown : Heap
  grown = set_node r (some new_right) (set_node l (some new_left) (set_node n (some forked) heap))

  at_r : grown r ≡ some new_right
  at_r =
      set_node_same r (some new_right) (set_node l (some new_left) (set_node n (some forked) heap))

  at_l : grown l ≡ some new_left
  at_l =
      set_node_other r l (some new_right)
        (set_node l (some new_left) (set_node n (some forked) heap)) (λ e. omega arith)
      ∙ set_node_same l (some new_left) (set_node n (some forked) heap)

  at_n : grown n ≡ some forked
  at_n =
      set_node_other r n (some new_right)
        (set_node l (some new_left) (set_node n (some forked) heap)) (λ e. omega arith)
      ∙ set_node_other l n (some new_left) (set_node n (some forked) heap) (λ e. omega arith)
      ∙ set_node_same n (some forked) heap

  at_other : (i : ℕ) → ((i ≡ r) → ⊥) → ((i ≡ l) → ⊥) → ((i ≡ n) → ⊥) → grown i ≡ heap i
  at_other i x y z =
      set_node_other r i (some new_right)
        (set_node l (some new_left) (set_node n (some forked) heap)) x
      ∙ set_node_other l i (some new_left) (set_node n (some forked) heap) y
      ∙ set_node_other n i (some forked) heap z

  -- An old node is there with its parent and its links, and `n` has two more.
  kept :
      (i : ℕ) (x : PTreeNode)
      → heap i ≡ some x
      → (y : PTreeNode) × (grown i ≡ some y)
        × (y.parent ≡ x.parent)
        × ((c : ℕ) → x.left ≡ some c → y.left ≡ some c)
        × ((c : ℕ) → x.right ≡ some c → y.right ≡ some c)
  kept i x e = elim (Bool-cases (i == n)) [
    | inl f ↦
        let s : i ≡ n = (==_iff i n).0 f in
        let same : node ≡ x = let z = ap heap s in cc in
        (
          forked,
          ap grown s ∙ at_n,
          ap (λ z. z.parent) same,
          (λ c h. absurd (leaf_left n node heap linked here leaf c (ap (λ z. z.left) same ∙ h))),
          λ c h. absurd (leaf_right n node heap linked here leaf c (ap (λ z. z.right) same ∙ h)),
        )
    | inr f ↦ (
      x,
      at_other i (λ s. let z = ap heap s in let w = free.1 in cc)
            (λ s. let z = ap heap s in let w = free.0 in cc) (λ s. let z = (==_iff i n).1 s in cc)
          ∙ e,
      refl,
      (λ c h. h),
      λ c h. h,
    )
  ]

  -- Which node of the grown tree this is.
  which :
      (i : ℕ) (x : PTreeNode)
      → grown i ≡ some x
      → ((i ≡ r) × (x ≡ new_right))
        ⊎ (((i ≡ l) × (x ≡ new_left))
            ⊎ (((i ≡ n) × (x ≡ forked)) ⊎ (((i ≡ n) → ⊥) × (heap i ≡ some x))))
  which i x e = elim (Bool-cases (i == r)) [
    | inl f ↦ let s : i ≡ r = (==_iff i r).0 f in inl (s, (let z = sym e ∙ ap grown s ∙ at_r in cc))
    | inr f ↦ elim (Bool-cases (i == l)) [
      | inl g ↦
          let s : i ≡ l = (==_iff i l).0 g in
          inr (inl (s, (let z = sym e ∙ ap grown s ∙ at_l in cc)))
      | inr g ↦ elim (Bool-cases (i == n)) [
        | inl h ↦
            let s : i ≡ n = (==_iff i n).0 h in
            inr (inr (inl (s, (let z = sym e ∙ ap grown s ∙ at_n in cc))))
        | inr h ↦
            let ne : (i ≡ n) → ⊥ = λ s. let z = (==_iff i n).1 s in cc in
            inr (
              inr (
                inr (
                  ne,
                  sym (
                        at_other i (λ s. let z = (==_iff i r).1 s in cc)
                          (λ s. let z = (==_iff i l).1 s in cc) ne)
                      ∙ e,
                )))
      ]
    ]
  ]

  grown-IsLinked : IsLinked grown
  grown-IsLinked = record {
    up = λ i p x e u. elim (which i x e) [
      | inl (s, t) ↦
          let q : n ≡ p = let z = sym u ∙ ap (λ y. y.parent) t in cc in
          let lt : p < i =
            let z = younger in subst (λ y. p < y) (sym s) (subst (λ y. y < r) q (omega arith)) in
          (lt, forked, ap grown (sym q) ∙ at_n, inr (ap some (sym s)))
      | inr (inl (s, t)) ↦
          let q : n ≡ p = let z = sym u ∙ ap (λ y. y.parent) t in cc in
          let lt : p < i = subst (λ y. p < y) (sym s) (subst (λ y. y < l) q younger.0) in
          (lt, forked, ap grown (sym q) ∙ at_n, inl (ap some (sym s)))
      | inr (inr (inl (s, t))) ↦
          let (lt, parent, h, side) =
            linked.up i p node (ap heap s ∙ here) (sym (ap (λ y. y.parent) t) ∙ u) in
          let (y, g, _, kl, kr) = kept p parent h in
          (lt, y, g, elim side [ inl c ↦ inl (kl i c) | inr c ↦ inr (kr i c) ])
      | inr (inr (inr (ne, e'))) ↦
          let (lt, parent, h, side) = linked.up i p x e' u in
          let (y, g, _, kl, kr) = kept p parent h in
          (lt, y, g, elim side [ inl c ↦ inl (kl i c) | inr c ↦ inr (kr i c) ])
    ];
    left = λ i c x e h. elim (which i x e) [
      | inl (s, t) ↦ let z = sym h ∙ ap (λ y. y.left) t in cc
      | inr (inl (s, t)) ↦ let z = sym h ∙ ap (λ y. y.left) t in cc
      | inr (inr (inl (s, t))) ↦
          let q : l ≡ c = let z = sym h ∙ ap (λ y. y.left) t in cc in
          (new_left, ap grown (sym q) ∙ at_l, ap some (sym s))
      | inr (inr (inr (ne, e'))) ↦
          let (child, g, u) = linked.left i c x e' h in
          let (y, g', pa, _, _) = kept c child g in (y, g', pa ∙ u)
    ];
    right = λ i c x e h. elim (which i x e) [
      | inl (s, t) ↦ let z = sym h ∙ ap (λ y. y.right) t in cc
      | inr (inl (s, t)) ↦ let z = sym h ∙ ap (λ y. y.right) t in cc
      | inr (inr (inl (s, t))) ↦
          let q : r ≡ c = let z = sym h ∙ ap (λ y. y.right) t in cc in
          (new_right, ap grown (sym q) ∙ at_r, ap some (sym s))
      | inr (inr (inr (ne, e'))) ↦
          let (child, g, u) = linked.right i c x e' h in
          let (y, g', pa, _, _) = kept c child g in (y, g', pa ∙ u)
    ];
    distinct = λ i c x e f g. elim (which i x e) [
      | inl (s, t) ↦ let z = sym f ∙ ap (λ y. y.left) t in cc
      | inr (inl (s, t)) ↦ let z = sym f ∙ ap (λ y. y.left) t in cc
      | inr (inr (inl (s, t))) ↦
          let q : l ≡ c = let z = sym f ∙ ap (λ y. y.left) t in cc in
          let q' : r ≡ c = let z = sym g ∙ ap (λ y. y.right) t in cc in
          let apart = younger.1 in omega arith
      | inr (inr (inr (ne, e'))) ↦ linked.distinct i c x e' f g
    ];
  }

  -- On a heap where nodes and their parents know each other and parents are older, `split` of
  -- a leaf at two free addresses, younger than it and in order, does not fail and leaves such
  -- a heap. At the two addresses are leaves with the leaf as parent and with the left and the
  -- right datum, the leaf has them as its children and keeps its parent and datum, and every
  -- other address is as before.
  pub split-IsLinked :
      (heap' : Heap) × (split l r n a b heap ≡ some heap')
      × IsLinked heap'
      × (heap' l ≡ some (record { parent = some n; left = none; right = none; content = a }))
      × (heap' r ≡ some (record { parent = some n; left = none; right = none; content = b }))
      × (heap' n
          ≡ some (record {
            parent = node.parent;
            left = some l;
            right = some r;
            content = node.content;
          }))
      × ((i : ℕ) → ((i ≡ r) → ⊥) → ((i ≡ l) → ⊥) → ((i ≡ n) → ⊥) → heap' i ≡ heap i)
  split-IsLinked = (grown, rw (here, leaf) refl, grown-IsLinked, at_l, at_r, at_n, at_other)
