-- ===== src/ImmutableTree/Elements.antt =====
-- The elements of a tree from left to right, and what each operation does to them.
use mathlib.Core.List.{append_assoc}
use xklee.Base.{
  ◌+◌, ◌≡◌, refl, ap, sym, ◌∙◌, List, [], ◌∷◌, ◌++◌, arith, length, length-append, ltb, leb,
  Bool-cases, inl, inr, append-nil,
}
use xklee.ImmutableTree.{Tree, terminator, node, height, balance, size, pop_min, pop_max}
use xklee.ImmutableTree.{rotate_left_right, balance_left, rotate_right_left, balance_right, join}

module _ {ℓ} {A : Type ℓ} where
  abbrev pub elements : Tree A → List A
  elements terminator = []
  elements (node l r v _) = elements l ++ (v ∷ elements r)

  elements-rotate_left_right :
      (ll : Tree A) (lv : A) (lr : Tree A) (v : A) (r : Tree A)
      → elements (rotate_left_right ll lv lr v r)
        ≡ (elements ll ++ (lv ∷ elements lr)) ++ (v ∷ elements r)
  elements-rotate_left_right ll lv terminator v r = refl
  elements-rotate_left_right ll lv (node lrl lrr lrv _) v r = simp append_assoc

  elements-balance_left :
      (l : Tree A) (v : A) (r : Tree A)
      → elements (balance_left l v r) ≡ elements l ++ (v ∷ elements r)
  elements-balance_left terminator v r = refl
  elements-balance_left (node ll lr lv _) v r = elim (Bool-cases (leb (height lr) (height ll))) [
    | inl e ↦ rw e (simp append_assoc)
    | inr e ↦ rw e (elements-rotate_left_right ll lv lr v r)
  ]

  elements-rotate_right_left :
      (l : Tree A) (v : A) (rl : Tree A) (rv : A) (rr : Tree A)
      → elements (rotate_right_left l v rl rv rr)
        ≡ elements l ++ (v ∷ (elements rl ++ (rv ∷ elements rr)))
  elements-rotate_right_left l v terminator rv rr = refl
  elements-rotate_right_left l v (node rll rlr rlv _) rv rr = simp append_assoc

  elements-balance_right :
      (l : Tree A) (v : A) (r : Tree A)
      → elements (balance_right l v r) ≡ elements l ++ (v ∷ elements r)
  elements-balance_right l v terminator = refl
  elements-balance_right l v (node rl rr rv _) = elim (Bool-cases (leb (height rl) (height rr))) [
    | inl e ↦ rw e (simp append_assoc)
    | inr e ↦ rw e (elements-rotate_right_left l v rl rv rr)
  ]

  pub elements-balance :
      (l : Tree A) (v : A) (r : Tree A) → elements (balance l v r) ≡ elements l ++ (v ∷ elements r)
  unfolding balance
  elements-balance l v r = elim (Bool-cases (ltb (height r + 2) (height l))) [
    | inl e ↦ rw e (elements-balance_left l v r)
    | inr e ↦ elim (Bool-cases (ltb (height l + 2) (height r))) [
      | inl f ↦ rw (e, f) (elements-balance_right l v r)
      | inr f ↦ rw (e, f)
    ]
  ]

  pub elements-pop_min :
      (l r : Tree A) (v : A)
      → (pop_min l r v).0 ∷ elements (pop_min l r v).1 ≡ elements l ++ (v ∷ elements r)
  unfolding pop_min
  elements-pop_min terminator r v = refl
  elements-pop_min (node ll lr lv h) r v =
      rw (elements-balance (pop_min ll lr lv).1 v r)
        (ap (λ xs. xs ++ (v ∷ elements r)) (elements-pop_min ll lr lv))

  pub elements-pop_max :
      (l r : Tree A) (v : A)
      → elements (pop_max l r v).1 ++ ((pop_max l r v).0 ∷ []) ≡ elements l ++ (v ∷ elements r)
  unfolding pop_max
  elements-pop_max l terminator v = refl
  elements-pop_max l (node rl rr rv h) v =
      rw (elements-balance l v (pop_max rl rr rv).1, append_assoc)
        (ap (λ xs. elements l ++ (v ∷ xs)) (elements-pop_max rl rr rv))

  pub elements-join : (l r : Tree A) → elements (join l r) ≡ elements l ++ elements r
  unfolding join
  elements-join terminator r = refl
  elements-join (node ll lr lv lh) terminator = sym (append-nil _)
  elements-join (node ll lr lv lh) (node rl rr rv rh) =
      elements-balance (node ll lr lv lh) (pop_min rl rr rv).0 (pop_min rl rr rv).1
      ∙ ap (λ xs. elements (node ll lr lv lh) ++ xs) (elements-pop_min rl rr rv)

  -- `size()` counts the elements.
  pub size-eq-length : (t : Tree A) → size t ≡ length (elements t)
  unfolding size
  size-eq-length terminator = refl
  size-eq-length (node l r v h) =
      omega (arith, size-eq-length l, size-eq-length r, length-append (elements l) (v ∷ elements r))
