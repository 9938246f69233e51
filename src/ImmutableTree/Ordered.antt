-- ===== src/ImmutableTree/Ordered.antt =====
-- The order of the trees of klee/include/klee/Internal/ADT/ImmutableTree.h, and their operations
-- beside those of `Sorted` on the list of elements.
use xklee.Base.{◌≡◌, refl, ap, false, ◌∷◌, ◌++◌, All, Bool-cases, inl, inr}
use xklee.Base.Order.{KeyOrder}
use xklee.ImmutableTree.{Tree, terminator, node, new_node, insert, replace, remove, lookup}
use xklee.ImmutableTree.Elements.{elements, elements-balance, elements-join}
use xklee.ImmutableTree.Sorted.{IsSorted, insert_sorted, replace_sorted, remove_sorted, find}
use xklee.ImmutableTree.Sorted.{
  IsSorted-left, IsSorted-right, IsSorted-Below, All-Below_weaken, Below,
}
use xklee.ImmutableTree.Sorted.Scan.{
  insert_sorted_skip, insert_sorted_stop, replace_sorted_skip, replace_sorted_stop,
  remove_sorted_skip, remove_sorted_stop, find_skip, find_stop,
}
use xklee.ImmutableTree.Sorted.Laws.{
  insert_sorted-IsSorted, replace_sorted-IsSorted, remove_sorted-IsSorted,
}

module _ {ℓ κ} {A : Type ℓ} {K : Type κ} (key : A → K) (o : KeyOrder K) where
  open o use {less, less_trans}

  abbrev pub IsOrdered : Tree A → Type ℓ
  IsOrdered t = IsSorted key o (elements t)

  -- The values left of a node lie below every key that is not before the node's.
  pub left-Below :
      (l r : Tree A) (x : A) (k : K)
      → IsOrdered (new_node l r x)
      → less k (key x) ≡ false
      → All (Below key o k) (elements l)
  left-Below l r x k s e =
      All-Below_weaken key o (key x) k (elements l) e
        (IsSorted-Below key o (elements l) x (elements r) s)

  pub IsOrdered-left : (l r : Tree A) (x : A) → IsOrdered (new_node l r x) → IsOrdered l
  IsOrdered-left l r x s = IsSorted-left key o (elements l) x (elements r) s

  pub IsOrdered-right : (l r : Tree A) (x : A) → IsOrdered (new_node l r x) → IsOrdered r
  IsOrdered-right l r x s = IsSorted-right key o (elements l) x (elements r) s

  -- On an ordered tree, the elements of `insert` in order are those of an insertion into the
  -- sorted list of elements, which keeps a value that is there.
  pub elements-insert :
      (v : A) (t : Tree A)
      → IsOrdered t
      → elements (insert key o v t) ≡ insert_sorted key o v (elements t)
  unfolding insert insert_sorted
  elements-insert v terminator s = refl
  elements-insert v (node l r x h) s = elim (Bool-cases (less (key v) (key x))) [
    | inl e ↦
        rw
          (
            e,
            elements-balance (insert key o v l) x r,
            insert_sorted_stop key o v (elements l) x (elements r) e,
          )
          (ap (λ xs. xs ++ (x ∷ elements r)) (elements-insert v l (IsOrdered-left l r x s)))
    | inr e ↦ elim (Bool-cases (less (key x) (key v))) [
      | inl f ↦
          rw
            (
              e,
              f,
              elements-balance l x (insert key o v r),
              insert_sorted_skip key o v (elements l) (x ∷ elements r)
                  (left-Below l r x (key v) s e),
              e,
              f,
            )
            (ap (λ xs. elements l ++ (x ∷ xs)) (elements-insert v r (IsOrdered-right l r x s)))
      | inr f ↦ rw (
        e,
        f,
        insert_sorted_skip key o v (elements l) (x ∷ elements r) (left-Below l r x (key v) s e),
        e,
        f,
      )
    ]
  ]

  -- On an ordered tree, the elements of `replace` in order are those of a replacement in the
  -- sorted list of elements.
  pub elements-replace :
      (v : A) (t : Tree A)
      → IsOrdered t
      → elements (replace key o v t) ≡ replace_sorted key o v (elements t)
  unfolding replace replace_sorted
  elements-replace v terminator s = refl
  elements-replace v (node l r x h) s = elim (Bool-cases (less (key v) (key x))) [
    | inl e ↦
        rw
          (
            e,
            elements-balance (replace key o v l) x r,
            replace_sorted_stop key o v (elements l) x (elements r) e,
          )
          (ap (λ xs. xs ++ (x ∷ elements r)) (elements-replace v l (IsOrdered-left l r x s)))
    | inr e ↦ elim (Bool-cases (less (key x) (key v))) [
      | inl f ↦
          rw
            (
              e,
              f,
              elements-balance l x (replace key o v r),
              replace_sorted_skip key o v (elements l) (x ∷ elements r)
                  (left-Below l r x (key v) s e),
              e,
              f,
            )
            (ap (λ xs. elements l ++ (x ∷ xs)) (elements-replace v r (IsOrdered-right l r x s)))
      | inr f ↦ rw (
        e,
        f,
        replace_sorted_skip key o v (elements l) (x ∷ elements r) (left-Below l r x (key v) s e),
        e,
        f,
      )
    ]
  ]

  -- On an ordered tree, the elements of `remove` in order are those of a removal from the
  -- sorted list of elements.
  pub elements-remove :
      (k : K) (t : Tree A)
      → IsOrdered t
      → elements (remove key o k t) ≡ remove_sorted key o k (elements t)
  unfolding remove remove_sorted
  elements-remove k terminator s = refl
  elements-remove k (node l r x h) s = elim (Bool-cases (less k (key x))) [
    | inl e ↦
        rw
          (
            e,
            elements-balance (remove key o k l) x r,
            remove_sorted_stop key o k (elements l) x (elements r) e,
          )
          (ap (λ xs. xs ++ (x ∷ elements r)) (elements-remove k l (IsOrdered-left l r x s)))
    | inr e ↦ elim (Bool-cases (less (key x) k)) [
      | inl f ↦
          rw
            (
              e,
              f,
              elements-balance l x (remove key o k r),
              remove_sorted_skip key o k (elements l) (x ∷ elements r) (left-Below l r x k s e),
              e,
              f,
            )
            (ap (λ xs. elements l ++ (x ∷ xs)) (elements-remove k r (IsOrdered-right l r x s)))
      | inr f ↦ rw (
        e,
        f,
        elements-join l r,
        remove_sorted_skip key o k (elements l) (x ∷ elements r) (left-Below l r x k s e),
        e,
        f,
      )
    ]
  ]

  pub lookup-eq-find :
      (k : K) (t : Tree A) → IsOrdered t → lookup key o k t ≡ find key o k (elements t)
  unfolding lookup find
  lookup-eq-find k terminator s = refl
  lookup-eq-find k (node l r x h) s = elim (Bool-cases (less k (key x))) [
    | inl e ↦
        rw (e, find_stop key o k (elements l) x (elements r) e)
          (lookup-eq-find k l (IsOrdered-left l r x s))
    | inr e ↦ elim (Bool-cases (less (key x) k)) [
      | inl f ↦
          rw (e, f, find_skip key o k (elements l) (x ∷ elements r) (left-Below l r x k s e), e, f)
            (lookup-eq-find k r (IsOrdered-right l r x s))
      | inr f ↦
          rw (e, f, find_skip key o k (elements l) (x ∷ elements r) (left-Below l r x k s e), e, f)
    ]
  ]

  -- Insertion keeps the tree ordered.
  pub insert-IsOrdered : (v : A) (t : Tree A) → IsOrdered t → IsOrdered (insert key o v t)
  insert-IsOrdered v t s =
      rw (elements-insert v t s) (insert_sorted-IsSorted key o v (elements t) s)

  pub replace-IsOrdered : (v : A) (t : Tree A) → IsOrdered t → IsOrdered (replace key o v t)
  replace-IsOrdered v t s =
      rw (elements-replace v t s) (replace_sorted-IsSorted key o v (elements t) s)

  pub remove-IsOrdered : (k : K) (t : Tree A) → IsOrdered t → IsOrdered (remove key o k t)
  remove-IsOrdered k t s =
      rw (elements-remove k t s) (remove_sorted-IsSorted key o k (elements t) s)
