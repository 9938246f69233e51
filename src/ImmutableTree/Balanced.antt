-- ===== src/ImmutableTree/Balanced.antt =====
-- The balance invariant: each cached height is the height, and the heights of two siblings differ
-- by at most 2.
pub mod Operations
pub mod Size
use xklee.Base.{
  ℕ, ◌+◌, ◌-◌, ◌≡◌, ◌≤◌, ◌<◌, refl, ap, sym, ◌∙◌, Bool, true, false, arith, max, Bool-cases, ◌⊎◌,
  inl, inr, ltb, leb, leb→le, not-leb→lt, ltb→lt, not-ltb→le,
}
use xklee.Base.Order.{KeyOrder}
use xklee.ImmutableTree.{Tree, terminator, node, new_node, height, balance, join, pop_min, pop_max}
use xklee.ImmutableTree.{insert, replace, remove}
use xklee.ImmutableTree.{rotate_left_right, balance_left, rotate_right_left, balance_right}

module _ {ℓ} {A : Type ℓ} where
  abbrev pub IsBalanced : Tree A → Type 0
  IsBalanced terminator = Unit
  IsBalanced (node l r v h) =
      (h ≡ max (height l) (height r) + 1)
      × (height l ≤ height r + 2)
      × (height r ≤ height l + 2)
      × IsBalanced l
      × IsBalanced r

  new_node-IsBalanced :
      (l r : Tree A) (v : A)
      → IsBalanced l
      → IsBalanced r
      → height l ≤ height r + 2
      → height r ≤ height l + 2
      → IsBalanced (new_node l r v)
  new_node-IsBalanced l r v bl br p q = (refl, p, q, bl, br)

  -- A balanced tree whose height lies between two bounds.
  abbrev Repaired : Tree A → ℕ → ℕ → Type 0
  Repaired t lo hi = IsBalanced t × (lo ≤ height t) × (height t ≤ hi)

  rotate_left_right-Repaired :
      (ll : Tree A) (lv : A) (lr : Tree A) (v : A) (r : Tree A)
      → IsBalanced ll
      → IsBalanced lr
      → IsBalanced r
      → height lr ≡ height r + 2
      → height ll < height lr
      → height lr ≤ height ll + 2
      → Repaired (rotate_left_right ll lv lr v r) (height r + 3) (height r + 4)
  rotate_left_right-Repaired ll lv terminator v r bll blr br e p q = absurd (omega arith)
  rotate_left_right-Repaired ll lv (node lrl lrr lrv lrh) v r bll blr br e p q = (
    new_node-IsBalanced (new_node ll lrl lv) (new_node lrr r v) lrv
        (new_node-IsBalanced ll lrl lv bll blr.3 (omega arith) (omega arith))
        (new_node-IsBalanced lrr r v blr.4 br (omega arith) (omega arith)) (omega arith)
        (omega arith),
    omega arith,
    omega arith,
  )

  balance_left-Repaired :
      (l : Tree A) (v : A) (r : Tree A)
      → IsBalanced l
      → IsBalanced r
      → height l ≡ height r + 3
      → Repaired (balance_left l v r) (height r + 3) (height r + 4)
  balance_left-Repaired terminator v r bl br e = absurd (omega arith)
  balance_left-Repaired (node ll lr lv lh) v r bl br e =
      elim (Bool-cases (leb (height lr) (height ll))) [
        | inl f ↦
            let p = leb→le (height lr) (height ll) f in
            rw f (
              new_node-IsBalanced ll (new_node lr r v) lv bl.3
                  (new_node-IsBalanced lr r v bl.4 br (omega arith) (omega arith)) (omega arith)
                  (omega arith),
              omega arith,
              omega arith,
            )
        | inr f ↦
            let p = not-leb→lt (height lr) (height ll) f in
            rw f
              (rotate_left_right-Repaired ll lv lr v r bl.3 bl.4 br (omega arith) p (omega arith))
      ]

  rotate_right_left-Repaired :
      (l : Tree A) (v : A) (rl : Tree A) (rv : A) (rr : Tree A)
      → IsBalanced l
      → IsBalanced rl
      → IsBalanced rr
      → height rl ≡ height l + 2
      → height rr < height rl
      → height rl ≤ height rr + 2
      → Repaired (rotate_right_left l v rl rv rr) (height l + 3) (height l + 4)
  rotate_right_left-Repaired l v terminator rv rr bl brl brr e p q = absurd (omega arith)
  rotate_right_left-Repaired l v (node rll rlr rlv rlh) rv rr bl brl brr e p q = (
    new_node-IsBalanced (new_node l rll v) (new_node rlr rr rv) rlv
        (new_node-IsBalanced l rll v bl brl.3 (omega arith) (omega arith))
        (new_node-IsBalanced rlr rr rv brl.4 brr (omega arith) (omega arith)) (omega arith)
        (omega arith),
    omega arith,
    omega arith,
  )

  balance_right-Repaired :
      (l : Tree A) (v : A) (r : Tree A)
      → IsBalanced l
      → IsBalanced r
      → height r ≡ height l + 3
      → Repaired (balance_right l v r) (height l + 3) (height l + 4)
  balance_right-Repaired l v terminator bl br e = absurd (omega arith)
  balance_right-Repaired l v (node rl rr rv rh) bl br e =
      elim (Bool-cases (leb (height rl) (height rr))) [
        | inl f ↦
            let p = leb→le (height rl) (height rr) f in
            rw f (
              new_node-IsBalanced (new_node l rl v) rr rv
                  (new_node-IsBalanced l rl v bl br.3 (omega arith) (omega arith)) br.4
                  (omega arith) (omega arith),
              omega arith,
              omega arith,
            )
        | inr f ↦
            let p = not-leb→lt (height rl) (height rr) f in
            rw f
              (rotate_right_left-Repaired l v rl rv rr bl br.3 br.4 (omega arith) p (omega arith))
      ]

  -- `balance` repairs a difference of up to 3, and keeps a difference of up to 2 as it is.
  abbrev pub Balances : ℕ → ℕ → Tree A → Type 0
  Balances m n t =
      IsBalanced t
      × (max m n ≤ height t)
      × (height t ≤ max m n + 1)
      × ((height t ≡ max m n + 1) ⊎ ((n + 2 < m) ⊎ (m + 2 < n)))

  pub balance-IsBalanced :
      (l : Tree A) (v : A) (r : Tree A)
      → IsBalanced l
      → IsBalanced r
      → height l ≤ height r + 3
      → height r ≤ height l + 3
      → Balances (height l) (height r) (balance l v r)
  unfolding balance
  balance-IsBalanced l v r bl br p q = elim (Bool-cases (ltb (height r + 2) (height l))) [
    | inl e ↦
        let f = ltb→lt (height r + 2) (height l) e in
        let b = balance_left-Repaired l v r bl br (omega arith) in
        rw e (b.0, omega arith, omega arith, inr (inl f))
    | inr e ↦
        let f = not-ltb→le (height r + 2) (height l) e in
        elim (Bool-cases (ltb (height l + 2) (height r))) [
          | inl g ↦
              let k = ltb→lt (height l + 2) (height r) g in
              let b = balance_right-Repaired l v r bl br (omega arith) in
              rw (e, g) (b.0, omega arith, omega arith, inr (inr k))
          | inr g ↦
              let k = not-ltb→le (height l + 2) (height r) g in
              rw (e, g)
                (
                  new_node-IsBalanced l r v bl br (omega arith) (omega arith),
                  omega arith,
                  omega arith,
                  inl refl,
                )
        ]
  ]
