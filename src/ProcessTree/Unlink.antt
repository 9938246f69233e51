-- ===== src/ProcessTree/Unlink.antt =====
-- One turn of `remove` (klee/lib/Core/PTree.cpp) below a parent.
use xklee.Base.{
  ℕ, ◌≡◌, ◌<◌, refl, ap, sym, ◌∙◌, true, false, Option, none, some, ◌==◌, ==_iff, arith,
  if◌then◌else◌, inl, inr, ◌⊎◌, Bool-cases,
}
use xklee.ProcessTree.{PTreeNode, Heap, set_node, is_link, is_leaf, leaf_at, unlink}
use xklee.ProcessTree.Linked.{IsLinked, set_node_other, set_node_same, not_deleted, no_child}

is_link-some : (n : ℕ) (o : Option ℕ) → o ≡ some n → is_link n o ≡ true
is_link-some n none e = cc
is_link-some n (some a) e = ground arith

is_link_other : (n c : ℕ) (o : Option ℕ) → is_link n o ≡ false → o ≡ some c → (c ≡ n) → ⊥
is_link_other n c none h e s = cc
is_link_other n c (some a) h e s = ground arith

-- The parent without its link to `n`.
pub record IsCleared (n : ℕ) (parent cleared : PTreeNode) : Type 0 where
  pub same_parent : cleared.parent ≡ parent.parent
  pub left : (c : ℕ) → cleared.left ≡ some c → (parent.left ≡ some c) × ((c ≡ n) → ⊥)
  pub right : (c : ℕ) → cleared.right ≡ some c → (parent.right ≡ some c) × ((c ≡ n) → ⊥)
  pub keeps_left : (c : ℕ) → ((c ≡ n) → ⊥) → parent.left ≡ some c → cleared.left ≡ some c
  pub keeps_right : (c : ℕ) → ((c ≡ n) → ⊥) → parent.right ≡ some c → cleared.right ≡ some c

pub unlink-IsCleared :
    (n : ℕ) (parent : PTreeNode)
    → (parent.left ≡ some n) ⊎ (parent.right ≡ some n)
    → ((c : ℕ) → parent.left ≡ some c → parent.right ≡ some c → ⊥)
    → (cleared : PTreeNode) × (unlink n parent ≡ some cleared) × IsCleared n parent cleared
unlink-IsCleared n parent side distinct = elim (Bool-cases (is_link n parent.left)) [
  | inl f ↦
      let at : parent.left ≡ some n = found parent.left f in
      (
        record parent { left = none },
        rw f refl,
        record {
          same_parent = refl;
          left = λ c e. cc;
          right = λ c e. (e, λ s. distinct c (at ∙ ap some (sym s)) e);
          keeps_left = λ c ne e. absurd (ne (let z = sym e ∙ at in cc));
          keeps_right = λ c ne e. e;
        },
      )
  | inr f ↦
      let at : parent.right ≡ some n = elim side [
        | inl l ↦ let z = is_link-some n parent.left l in cc
        | inr r ↦ r
      ] in
      let g = is_link-some n parent.right at in
      (
        record parent { right = none },
        rw (f, g) refl,
        record {
          same_parent = refl;
          left = λ c e. (e, is_link_other n c parent.left f e);
          right = λ c e. cc;
          keeps_left = λ c ne e. e;
          keeps_right = λ c ne e. absurd (ne (let z = sym e ∙ at in cc));
        },
      )
]
  where
    found : (o : Option ℕ) → is_link n o ≡ true → o ≡ some n
    found none h = cc
    found (some a) h = ground arith

module _ (n p : ℕ) (node parent cleared : PTreeNode) (heap : Heap) (linked : IsLinked heap)
    (here : heap n ≡ some node) (leaf : is_leaf node ≡ true) (up : node.parent ≡ some p)
    (there : heap p ≡ some parent) (older : p < n) (c : IsCleared n parent cleared) where
  abbrev pub after : Heap
  after = set_node p (some cleared) (set_node n none heap)

  -- What is in the changed heap: the parent, or a node from before that is neither.
  after_cases :
      (i : ℕ) (x : PTreeNode)
      → after i ≡ some x
      → ((i ≡ p) × (x ≡ cleared)) ⊎ (((i ≡ p) → ⊥) × ((i ≡ n) → ⊥) × (heap i ≡ some x))
  after_cases i x e = elim (Bool-cases (i == p)) [
    | inl f ↦ let z : some cleared ≡ some x = rw f at e in inl ((==_iff i p).0 f, cc)
    | inr f ↦
        let (ne, e') = not_deleted n i x heap (rw f at e) in
        inr (λ q. let r = (==_iff i p).1 q in cc, ne, e')
  ]

  after_parent : after p ≡ some cleared
  after_parent = set_node_same p (some cleared) (set_node n none heap)

  after_other : (i : ℕ) → ((i ≡ p) → ⊥) → ((i ≡ n) → ⊥) → after i ≡ heap i
  after_other i a b =
      set_node_other p i (some cleared) (set_node n none heap) a ∙ set_node_other n i none heap b

  not_n : p ≡ n → ⊥
  not_n e = omega arith

  -- The node in the heap before that this one was.
  before :
      (i : ℕ) (x : PTreeNode)
      → after i ≡ some x
      → (y : PTreeNode) × (heap i ≡ some y)
        × ((i ≡ n) → ⊥)
        × (x.parent ≡ y.parent)
        × ((d : ℕ) → x.left ≡ some d → (y.left ≡ some d) × ((d ≡ n) → ⊥))
        × ((d : ℕ) → x.right ≡ some d → (y.right ≡ some d) × ((d ≡ n) → ⊥))
  before i x e = elim (after_cases i x e) [
    | inl (s, t) ↦ (
      parent,
      ap heap s ∙ there,
      (λ q. not_n (sym s ∙ q)),
      ap (λ z. z.parent) t ∙ c.same_parent,
      (λ d l. c.left d (ap (λ z. z.left) (sym t) ∙ l)),
      λ d r. c.right d (ap (λ z. z.right) (sym t) ∙ r),
    )
    | inr (a, b, e') ↦
        let other =
          λ (d : ℕ) (child : PTreeNode) (h : heap d ≡ some child) (u : child.parent ≡ some i)
              (q : d ≡ n).
            let same : child ≡ node = let t = ap heap q in cc in
            let z : some i ≡ some p = sym u ∙ ap (λ w. w.parent) same ∙ up in a (let w = z in cc) in
        (
          x,
          e',
          b,
          refl,
          (λ d l. let (child, h, u) = linked.left i d x e' l in (l, λ q. other d child h u q)),
          λ d r. let (child, h, u) = linked.right i d x e' r in (r, λ q. other d child h u q),
        )
  ]

  -- A node from before other than `n` is there with its parent.
  kept :
      (i : ℕ) (y : PTreeNode)
      → heap i ≡ some y
      → ((i ≡ n) → ⊥)
      → (x : PTreeNode) × (after i ≡ some x)
        × (x.parent ≡ y.parent)
        × ((d : ℕ) → ((d ≡ n) → ⊥) → y.left ≡ some d → x.left ≡ some d)
        × ((d : ℕ) → ((d ≡ n) → ⊥) → y.right ≡ some d → x.right ≡ some d)
  kept i y e ne = elim (Bool-cases (i == p)) [
    | inl f ↦
        let s : i ≡ p = (==_iff i p).0 f in
        let t : parent ≡ y = let z = ap heap s in cc in
        (
          cleared,
          ap after s ∙ after_parent,
          c.same_parent ∙ ap (λ z. z.parent) t,
          (λ d nd l. c.keeps_left d nd (ap (λ z. z.left) t ∙ l)),
          λ d nd r. c.keeps_right d nd (ap (λ z. z.right) t ∙ r),
        )
    | inr f ↦ (
      y,
      after_other i (λ q. let r = (==_iff i p).1 q in cc) ne ∙ e,
      refl,
      (λ d nd l. l),
      λ d nd r. r,
    )
  ]

  pub after-IsLinked : IsLinked after
  after-IsLinked = record {
    up = λ i q x e u.
        let (y, h, ne, pa, l, r) = before i x e in
        let (less, par, hp, side) = linked.up i q y h (sym pa ∙ u) in
        let nq : (q ≡ n) → ⊥ =
          λ s. no_child n node heap linked here leaf i y h (sym pa ∙ u ∙ ap some s) in
        let (x', e', _, kl, kr) = kept q par hp nq in
        (less, x', e', elim side [ inl s ↦ inl (kl i ne s) | inr s ↦ inr (kr i ne s) ]);
    left = λ i d x e h.
        let (y, hy, ne, pa, l, r) = before i x e in
        let (h', nd) = l d h in
        let (child, hc, u) = linked.left i d y hy h' in
        let (x', e', pc, _, _) = kept d child hc nd in (x', e', pc ∙ u);
    right = λ i d x e h.
        let (y, hy, ne, pa, l, r) = before i x e in
        let (h', nd) = r d h in
        let (child, hc, u) = linked.right i d y hy h' in
        let (x', e', pc, _, _) = kept d child hc nd in (x', e', pc ∙ u);
    distinct = λ i d x e a b.
        let (y, hy, ne, pa, l, r) = before i x e in linked.distinct i d y hy (l d a).0 (r d b).0;
  }

  pub leaf_at-after :
      (j : ℕ)
      → leaf_at after j
        ≡ (if j == n then false else (if j == p then is_leaf cleared else leaf_at heap j))
  leaf_at-after j = elim (Bool-cases (j == p)) [
    | inl f ↦
        let s : j ≡ p = (==_iff j p).0 f in
        let apart : (j == n) ≡ false = ground arith in rw (apart, f) refl
    | inr f ↦ elim (Bool-cases (j == n)) [ inl g ↦ rw (f, g) refl | inr g ↦ rw (f, g) refl ]
  ]
