-- ===== src/ImmutableTree/Find.antt =====
-- What `lookup`, `count` and `lookup_previous` return on an ordered tree, also after the operations.
use mathlib.Core.Option.{get_or}
use xklee.Base.{◌≡◌, refl, Option, none, some, arith, All-map, Bool-cases, inl, inr, if◌then◌else◌}
use xklee.Base.Order.{KeyOrder, less_trans_left}
use xklee.ImmutableTree.{Tree, terminator, node, insert, replace, remove, lookup, count}
use xklee.ImmutableTree.{lookup_previous, previous_from}
use xklee.ImmutableTree.Elements.{elements}
use xklee.ImmutableTree.Sorted.{IsSorted-Above}
use xklee.ImmutableTree.Sorted.Laws.{find-insert_sorted, find-replace_sorted, find-remove_sorted}
use xklee.ImmutableTree.Sorted.Previous.{
  Scanned, previous_sorted, previous_sorted_stop, previous_sorted_skip, previous_sorted_absent,
  previous_sorted-Scanned,
}
use xklee.ImmutableTree.Ordered.{
  left-Below, IsOrdered-left, IsOrdered-right, IsOrdered, elements-insert, elements-replace,
  elements-remove, lookup-eq-find, insert-IsOrdered, replace-IsOrdered, remove-IsOrdered,
}

module _ {ℓ κ} {A : Type ℓ} {K : Type κ} (key : A → K) (o : KeyOrder K) where
  open o use {less, less_trans}

  pub lookup-replace :
      (k : K) (v : A) (t : Tree A)
      → IsOrdered key o t
      → lookup key o k (replace key o v t) ≡ (
          if less k (key v)
          then lookup key o k t
          else (if less (key v) k then lookup key o k t else some v))
  lookup-replace k v t s =
      rw
        (
          lookup-eq-find key o k (replace key o v t) (replace-IsOrdered key o v t s),
          elements-replace key o v t s,
          lookup-eq-find key o k t s,
        )
        (find-replace_sorted key o k v (elements t) s)

  -- On an ordered tree, a lookup after `insert` finds what it found before for every key not
  -- equivalent to the inserted one, and for an equivalent key the old value if there was one,
  -- else the new value.
  pub lookup-insert :
      (k : K) (v : A) (t : Tree A)
      → IsOrdered key o t
      → lookup key o k (insert key o v t) ≡ (
          if less k (key v)
          then lookup key o k t
          else (if less (key v) k
              then lookup key o k t
              else some (get_or (lookup key o (key v) t) v)))
  lookup-insert k v t s =
      rw
        (
          lookup-eq-find key o k (insert key o v t) (insert-IsOrdered key o v t s),
          elements-insert key o v t s,
          lookup-eq-find key o k t s,
          lookup-eq-find key o (key v) t s,
        )
        (find-insert_sorted key o k v (elements t) s)

  -- On an ordered tree, a lookup after `remove` finds nothing for a key equivalent to the
  -- removed one, and what it found before for every other key.
  pub lookup-remove :
      (k j : K) (t : Tree A)
      → IsOrdered key o t
      → lookup key o k (remove key o j t)
        ≡ (if less k j then lookup key o k t else (if less j k then lookup key o k t else none))
  lookup-remove k j t s =
      rw
        (
          lookup-eq-find key o k (remove key o j t) (remove-IsOrdered key o j t s),
          elements-remove key o j t s,
          lookup-eq-find key o k t s,
        )
        (find-remove_sorted key o k j (elements t) s)

  -- `count` is 1 for a key that `lookup` finds and 0 for any other.
  pub count-lookup :
      (k : K) (t : Tree A) → count key o k t ≡ elim (lookup key o k t) [ none ↦ 0 | some _ ↦ 1 ]
  unfolding count lookup
  count-lookup k terminator = refl
  count-lookup k (node l r x h) = ground (arith, count-lookup k l, count-lookup k r)

  previous_from-eq-sorted :
      (result : Option A) (k : K) (t : Tree A)
      → IsOrdered key o t
      → previous_from key o result k t ≡ previous_sorted key o result k (elements t)
  unfolding previous_from previous_sorted
  previous_from-eq-sorted result k terminator s = refl
  previous_from-eq-sorted result k (node l r x h) s = elim (Bool-cases (less k (key x))) [
    | inl e ↦
        rw (e, previous_sorted_stop key o result k (elements l) x (elements r) e)
          (previous_from-eq-sorted result k l (IsOrdered-left key o l r x s))
    | inr e ↦
        let b = left-Below key o l r x k s e in
        elim (Bool-cases (less (key x) k)) [
          | inl f ↦
              rw (e, f, previous_sorted_skip key o result k (elements l) x (elements r) b e)
                (previous_from-eq-sorted (some x) k r (IsOrdered-right key o l r x s))
          | inr f ↦ rw (
            e,
            f,
            previous_sorted_skip key o result k (elements l) x (elements r) b e,
            previous_sorted_absent key o (some x) k (elements r) (
                All-map (λ y p. less_trans_left o k (key x) (key y) f p) (elements r)
                  (IsSorted-Above key o (elements l) x (elements r) s)),
          )
        ]
  ]

  -- On an ordered tree, `lookup_previous` returns the last element whose key is not after the
  -- given one, with every later element after it, or null when all elements are after it.
  pub lookup_previous-Scanned :
      (k : K) (t : Tree A)
      → IsOrdered key o t
      → Scanned key o k (elements t) none (lookup_previous key o k t)
  unfolding lookup_previous
  lookup_previous-Scanned k t s =
      rw (previous_from-eq-sorted none k t s) (previous_sorted-Scanned key o k (elements t) none s)
