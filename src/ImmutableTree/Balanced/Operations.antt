-- ===== src/ImmutableTree/Balanced/Operations.antt =====
-- The balance of klee/include/klee/Internal/ADT/ImmutableTree.h under `insert`, `replace`,
-- `popMin` and `remove`.
use xklee.Base.{ℕ, ◌+◌, ◌≤◌, arith, Bool-cases, inl, inr}
use xklee.Base.Order.{KeyOrder}
use xklee.ImmutableTree.{Tree, terminator, node, height, balance, join, pop_min, pop_max}
use xklee.ImmutableTree.{insert, replace, remove}
use xklee.ImmutableTree.Balanced.{IsBalanced, balance-IsBalanced}

module _ {ℓ} {A : Type ℓ} where
  abbrev pub Grows : ℕ → Tree A → Type 0
  Grows h t = IsBalanced t × (h ≤ height t) × (height t ≤ h + 1)

  abbrev pub Shrinks : ℕ → Tree A → Type 0
  Shrinks h t = IsBalanced t × (h ≤ height t + 1) × (height t ≤ h)

  balance_grow_left :
      (l l' r : Tree A) (x : A) (h : ℕ)
      → IsBalanced (node l r x h)
      → Grows (height l) l'
      → Grows h (balance l' x r)
  balance_grow_left l l' r x h b g =
      let w = balance-IsBalanced l' x r g.0 b.4 (omega arith) (omega arith) in
      (w.0, omega arith, omega arith)

  balance_grow_right :
      (l r r' : Tree A) (x : A) (h : ℕ)
      → IsBalanced (node l r x h)
      → Grows (height r) r'
      → Grows h (balance l x r')
  balance_grow_right l r r' x h b g =
      let w = balance-IsBalanced l x r' b.3 g.0 (omega arith) (omega arith) in
      (w.0, omega arith, omega arith)

  balance_shrink_left :
      (l l' r : Tree A) (x : A) (h : ℕ)
      → IsBalanced (node l r x h)
      → Shrinks (height l) l'
      → Shrinks h (balance l' x r)
  balance_shrink_left l l' r x h b g =
      let w = balance-IsBalanced l' x r g.0 b.4 (omega arith) (omega arith) in
      (w.0, omega arith, omega arith)

  balance_shrink_right :
      (l r r' : Tree A) (x y : A) (h : ℕ)
      → IsBalanced (node l r x h)
      → Shrinks (height r) r'
      → Shrinks h (balance l y r')
  balance_shrink_right l r r' x y h b g =
      let w = balance-IsBalanced l y r' b.3 g.0 (omega arith) (omega arith) in
      (w.0, omega arith, omega arith)

  pub pop_min-Shrinks :
      (l r : Tree A) (v : A) (h : ℕ) → IsBalanced (node l r v h) → Shrinks h (pop_min l r v).1
  unfolding pop_min
  pop_min-Shrinks terminator r v h b = (b.4, omega arith, omega arith)
  pop_min-Shrinks (node ll lr lv lh) r v h b =
      balance_shrink_left (node ll lr lv lh) (pop_min ll lr lv).1 r v h b
        (pop_min-Shrinks ll lr lv lh b.3)

  pub pop_max-Shrinks :
      (l r : Tree A) (v : A) (h : ℕ) → IsBalanced (node l r v h) → Shrinks h (pop_max l r v).1
  unfolding pop_max
  pop_max-Shrinks l terminator v h b = (b.3, omega arith, omega arith)
  pop_max-Shrinks l (node rl rr rv rh) v h b =
      balance_shrink_right l (node rl rr rv rh) (pop_max rl rr rv).1 v v h b
        (pop_max-Shrinks rl rr rv rh b.4)

  join-Shrinks : (l r : Tree A) (x : A) (h : ℕ) → IsBalanced (node l r x h) → Shrinks h (join l r)
  unfolding join
  join-Shrinks terminator r x h b = (b.4, omega arith, omega arith)
  join-Shrinks (node ll lr lv lh) terminator x h b = (b.3, omega arith, omega arith)
  join-Shrinks (node ll lr lv lh) (node rl rr rv rh) x h b =
      balance_shrink_right (node ll lr lv lh) (node rl rr rv rh) (pop_min rl rr rv).1 x
        (pop_min rl rr rv).0 h b (pop_min-Shrinks rl rr rv rh b.4)

module _ {ℓ κ} {A : Type ℓ} {K : Type κ} (key : A → K) (o : KeyOrder K) where
  open o use {less}

  -- `insert` into a balanced tree with right cached heights gives such a tree, as high or one
  -- higher.
  pub insert-Grows : (v : A) (t : Tree A) → IsBalanced t → Grows (height t) (insert key o v t)
  unfolding insert
  insert-Grows v terminator b =
      ((omega arith, omega arith, omega arith, tt, tt), omega arith, omega arith)
  insert-Grows v (node l r x h) b = elim (Bool-cases (less (key v) (key x))) [
    | inl e ↦ rw e (balance_grow_left l (insert key o v l) r x h b (insert-Grows v l b.3))
    | inr e ↦ elim (Bool-cases (less (key x) (key v))) [
      | inl f ↦ rw (e, f) (balance_grow_right l r (insert key o v r) x h b (insert-Grows v r b.4))
      | inr f ↦ rw (e, f) (b, omega arith, omega arith)
    ]
  ]

  pub replace-Grows : (v : A) (t : Tree A) → IsBalanced t → Grows (height t) (replace key o v t)
  unfolding replace
  replace-Grows v terminator b =
      ((omega arith, omega arith, omega arith, tt, tt), omega arith, omega arith)
  replace-Grows v (node l r x h) b = elim (Bool-cases (less (key v) (key x))) [
    | inl e ↦ rw e (balance_grow_left l (replace key o v l) r x h b (replace-Grows v l b.3))
    | inr e ↦ elim (Bool-cases (less (key x) (key v))) [
      | inl f ↦ rw (e, f) (balance_grow_right l r (replace key o v r) x h b (replace-Grows v r b.4))
      | inr f ↦ rw (e, f) ((omega arith, b.1, b.2, b.3, b.4), omega arith, omega arith)
    ]
  ]

  -- `remove` from a balanced tree with right cached heights gives such a tree, as high or one
  -- lower.
  pub remove-Shrinks : (k : K) (t : Tree A) → IsBalanced t → Shrinks (height t) (remove key o k t)
  unfolding remove
  remove-Shrinks k terminator b = (b, omega arith, omega arith)
  remove-Shrinks k (node l r x h) b = elim (Bool-cases (less k (key x))) [
    | inl e ↦ rw e (balance_shrink_left l (remove key o k l) r x h b (remove-Shrinks k l b.3))
    | inr e ↦ elim (Bool-cases (less (key x) k)) [
      | inl f ↦
          rw (e, f) (balance_shrink_right l r (remove key o k r) x x h b (remove-Shrinks k r b.4))
      | inr f ↦ rw (e, f) (join-Shrinks l r x h b)
    ]
  ]
