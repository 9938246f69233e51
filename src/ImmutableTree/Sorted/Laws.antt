-- ===== src/ImmutableTree/Sorted/Laws.antt =====
-- Sorted lists as a finite map: order is kept, and what a search finds after each operation.
use xklee.Base.{
  ◌≡◌, refl, true, false, none, some, List, [], ◌∷◌, arith, All, All-map, Bool-cases, inl, inr,
  if◌then◌else◌,
}
use mathlib.Core.Option.{get_or}
use xklee.Base.Order.{KeyOrder, less_asymm, less_trans_left}
use xklee.ImmutableTree.Sorted.{Above, IsSorted, All-Above_trans}
use xklee.ImmutableTree.Sorted.{insert_sorted, replace_sorted, remove_sorted, find}

module _ {ℓ κ} {A : Type ℓ} {K : Type κ} (key : A → K) (o : KeyOrder K) where
  open o use {less, less_trans, less_split, less_irrefl}

  insert_sorted-Above :
      (k : K) (v : A) (xs : List A)
      → less k (key v) ≡ true
      → All (Above key o k) xs
      → All (Above key o k) (insert_sorted key o v xs)
  unfolding insert_sorted
  insert_sorted-Above k v [] h a = (h, tt)
  insert_sorted-Above k v (x ∷ xs) h a = elim (Bool-cases (less (key v) (key x))) [
    | inl e ↦ rw e (h, a)
    | inr e ↦ elim (Bool-cases (less (key x) (key v))) [
      | inl f ↦ rw (e, f) (a.0, insert_sorted-Above k v xs h a.1)
      | inr f ↦ rw (e, f) a
    ]
  ]

  pub insert_sorted-IsSorted :
      (v : A) (xs : List A) → IsSorted key o xs → IsSorted key o (insert_sorted key o v xs)
  unfolding insert_sorted
  insert_sorted-IsSorted v [] s = (tt, tt)
  insert_sorted-IsSorted v (x ∷ xs) s = elim (Bool-cases (less (key v) (key x))) [
    | inl e ↦ rw e ((e, All-Above_trans key o (key x) (key v) xs e s.0), s)
    | inr e ↦ elim (Bool-cases (less (key x) (key v))) [
      | inl f ↦ rw (e, f) (insert_sorted-Above (key x) v xs f s.0, insert_sorted-IsSorted v xs s.1)
      | inr f ↦ rw (e, f) s
    ]
  ]

  replace_sorted-Above :
      (k : K) (v : A) (xs : List A)
      → less k (key v) ≡ true
      → All (Above key o k) xs
      → All (Above key o k) (replace_sorted key o v xs)
  unfolding replace_sorted
  replace_sorted-Above k v [] h a = (h, tt)
  replace_sorted-Above k v (x ∷ xs) h a = elim (Bool-cases (less (key v) (key x))) [
    | inl e ↦ rw e (h, a)
    | inr e ↦ elim (Bool-cases (less (key x) (key v))) [
      | inl f ↦ rw (e, f) (a.0, replace_sorted-Above k v xs h a.1)
      | inr f ↦ rw (e, f) (h, a.1)
    ]
  ]

  pub replace_sorted-IsSorted :
      (v : A) (xs : List A) → IsSorted key o xs → IsSorted key o (replace_sorted key o v xs)
  unfolding replace_sorted
  replace_sorted-IsSorted v [] s = (tt, tt)
  replace_sorted-IsSorted v (x ∷ xs) s = elim (Bool-cases (less (key v) (key x))) [
    | inl e ↦ rw e ((e, All-Above_trans key o (key x) (key v) xs e s.0), s)
    | inr e ↦ elim (Bool-cases (less (key x) (key v))) [
      | inl f ↦
          rw (e, f) (replace_sorted-Above (key x) v xs f s.0, replace_sorted-IsSorted v xs s.1)
      | inr f ↦
          rw (e, f) (All-map (λ y p. less_trans_left o (key v) (key x) (key y) f p) xs s.0, s.1)
    ]
  ]

  remove_sorted-Above :
      (j k : K) (xs : List A)
      → All (Above key o j) xs
      → All (Above key o j) (remove_sorted key o k xs)
  unfolding remove_sorted
  remove_sorted-Above j k [] a = tt
  remove_sorted-Above j k (x ∷ xs) a = elim (Bool-cases (less k (key x))) [
    | inl e ↦ rw e a
    | inr e ↦ elim (Bool-cases (less (key x) k)) [
      | inl f ↦ rw (e, f) (a.0, remove_sorted-Above j k xs a.1)
      | inr f ↦ rw (e, f) a.1
    ]
  ]

  pub remove_sorted-IsSorted :
      (k : K) (xs : List A) → IsSorted key o xs → IsSorted key o (remove_sorted key o k xs)
  unfolding remove_sorted
  remove_sorted-IsSorted k [] s = tt
  remove_sorted-IsSorted k (x ∷ xs) s = elim (Bool-cases (less k (key x))) [
    | inl e ↦ rw e s
    | inr e ↦ elim (Bool-cases (less (key x) k)) [
      | inl f ↦ rw (e, f) (remove_sorted-Above (key x) k xs s.0, remove_sorted-IsSorted k xs s.1)
      | inr f ↦ rw (e, f) s.1
    ]
  ]

  -- A key below every value is not found.
  pub find_absent : (k : K) (xs : List A) → All (Above key o k) xs → find key o k xs ≡ none
  unfolding find
  find_absent k [] a = refl
  find_absent k (x ∷ xs) a = rw a.0

  -- `v` is written: a search by an equivalent key finds it, any other search finds what it found.
  pub find-replace_sorted :
      (k : K) (v : A) (xs : List A)
      → IsSorted key o xs
      → find key o k (replace_sorted key o v xs) ≡ (
          if less k (key v)
          then find key o k xs
          else (if less (key v) k then find key o k xs else some v))
  unfolding find replace_sorted
  find-replace_sorted k v [] s = ground arith
  find-replace_sorted k v (x ∷ xs) s = ground (
    arith,
    find-replace_sorted k v xs s.1,
    less_asymm o k (key x),
    less_asymm o k (key v),
    less_asymm o (key x) (key v),
    less_trans k (key v) (key x),
    less_trans (key x) (key v) k,
    less_split k (key v) (key x),
    less_split (key x) (key v) k,
    less_split (key x) k (key v),
    less_split (key v) (key x) k,
    less_split k (key x) (key v),
    less_split (key v) k (key x),
  )

  -- Insertion keeps a value that is there: only a search that found nothing can change.
  pub find-insert_sorted :
      (k : K) (v : A) (xs : List A)
      → IsSorted key o xs
      → find key o k (insert_sorted key o v xs) ≡ (
          if less k (key v)
          then find key o k xs
          else (if less (key v) k
              then find key o k xs
              else some (get_or (find key o (key v) xs) v)))
  unfolding find insert_sorted
  find-insert_sorted k v [] s = ground arith
  find-insert_sorted k v (x ∷ xs) s = ground (
    arith,
    find-insert_sorted k v xs s.1,
    less_asymm o k (key x),
    less_asymm o k (key v),
    less_asymm o (key x) (key v),
    less_trans k (key v) (key x),
    less_trans (key x) (key v) k,
    less_split k (key v) (key x),
    less_split (key x) (key v) k,
    less_split (key x) k (key v),
    less_split (key v) (key x) k,
    less_split k (key x) (key v),
    less_split (key v) k (key x),
  )

  pub find-remove_sorted :
      (k j : K) (xs : List A)
      → IsSorted key o xs
      → find key o k (remove_sorted key o j xs)
        ≡ (if less k j then find key o k xs else (if less j k then find key o k xs else none))
  unfolding find remove_sorted
  find-remove_sorted k j [] s = ground arith
  find-remove_sorted k j (x ∷ xs) s = ground (
    arith,
    find-remove_sorted k j xs s.1,
    find_absent k xs,
    λ (h : less k (key x) ≡ true). find_absent k xs (All-Above_trans key o (key x) k xs h s.0),
    λ (h : less (key x) k ≡ false).
        find_absent k xs (All-map (λ y p. less_trans_left o k (key x) (key y) h p) xs s.0),
    less_asymm o k (key x),
    less_asymm o k j,
    less_asymm o (key x) j,
    less_trans k j (key x),
    less_trans (key x) j k,
    less_split k j (key x),
    less_split (key x) j k,
    less_split (key x) k j,
    less_split j (key x) k,
    less_split k (key x) j,
    less_split j k (key x),
  )
