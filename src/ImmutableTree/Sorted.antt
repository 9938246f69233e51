-- ===== src/ImmutableTree/Sorted.antt =====
-- The contract of klee/include/klee/Internal/ADT/ImmutableTree.h: a list of values in strictly
-- increasing order of their keys, with insertion, removal and search by a scan from the left.
pub mod Scan
pub mod Laws
pub mod Previous
use xklee.Base.{
  ℕ, ◌+◌, ◌≡◌, refl, ap, sym, ◌∙◌, Bool, true, false, Option, none, some, List, [], ◌∷◌, ◌++◌,
  arith, All, All-append, All-append_left, All-append_right, All-map, Bool-cases, inl, inr,
  if◌then◌else◌,
}
use xklee.Base.Order.{KeyOrder, less_asymm, less_trans_right, less_trans_left, Equivalent}

module _ {ℓ κ} {A : Type ℓ} {K : Type κ} (key : A → K) (o : KeyOrder K) where
  open o use {less, less_trans, less_irrefl}

  abbrev pub Above : K → A → Type 0
  Above k y = less k (key y) ≡ true

  abbrev pub Below : K → A → Type 0
  Below k y = less (key y) k ≡ true

  abbrev pub IsSorted : List A → Type ℓ
  IsSorted [] = Unit
  IsSorted (x ∷ xs) = All (Above (key x)) xs × IsSorted xs

  unfoldable pub insert_sorted : A → List A → List A
  insert_sorted v [] = v ∷ []
  insert_sorted v (x ∷ xs) =
      if less (key v) (key x)
      then v ∷ x ∷ xs
      else (if less (key x) (key v) then x ∷ insert_sorted v xs else x ∷ xs)

  unfoldable pub replace_sorted : A → List A → List A
  replace_sorted v [] = v ∷ []
  replace_sorted v (x ∷ xs) =
      if less (key v) (key x)
      then v ∷ x ∷ xs
      else (if less (key x) (key v) then x ∷ replace_sorted v xs else v ∷ xs)

  unfoldable pub remove_sorted : K → List A → List A
  remove_sorted k [] = []
  remove_sorted k (x ∷ xs) =
      if less k (key x) then x ∷ xs else (if less (key x) k then x ∷ remove_sorted k xs else xs)

  unfoldable pub find : K → List A → Option A
  find k [] = none
  find k (x ∷ xs) =
      let rest = find k xs in
      if less k (key x) then none else (if less (key x) k then rest else some x)

  pub All-Above_trans :
      (k j : K) (xs : List A) → less j k ≡ true → All (Above k) xs → All (Above j) xs
  All-Above_trans k j xs h = All-map (λ y p. less_trans j k (key y) h p) xs

  -- A sorted list splits at any of its values.
  pub IsSorted-append :
      (xs : List A) (v : A) (ys : List A)
      → IsSorted xs
      → All (Below (key v)) xs
      → All (Above (key v)) ys
      → IsSorted ys
      → IsSorted (xs ++ (v ∷ ys))
  IsSorted-append [] v ys sx bx ay sy = (ay, sy)
  IsSorted-append (x ∷ xs) v ys sx bx ay sy = (
    All-append (Above (key x)) xs (v ∷ ys) sx.0 (bx.0, All-Above_trans (key v) (key x) ys bx.0 ay),
    IsSorted-append xs v ys sx.1 bx.1 ay sy,
  )

  pub IsSorted-left : (xs : List A) (v : A) (ys : List A) → IsSorted (xs ++ (v ∷ ys)) → IsSorted xs
  IsSorted-left [] v ys h = tt
  IsSorted-left (x ∷ xs) v ys h =
      (All-append_left (Above (key x)) xs (v ∷ ys) h.0, IsSorted-left xs v ys h.1)

  pub IsSorted-right : (xs : List A) (v : A) (ys : List A) → IsSorted (xs ++ (v ∷ ys)) → IsSorted ys
  IsSorted-right [] v ys h = h.1
  IsSorted-right (x ∷ xs) v ys h = IsSorted-right xs v ys h.1

  pub IsSorted-Below :
      (xs : List A) (v : A) (ys : List A) → IsSorted (xs ++ (v ∷ ys)) → All (Below (key v)) xs
  IsSorted-Below [] v ys h = tt
  IsSorted-Below (x ∷ xs) v ys h =
      ((All-append_right (Above (key x)) xs (v ∷ ys) h.0).0, IsSorted-Below xs v ys h.1)

  pub IsSorted-Above :
      (xs : List A) (v : A) (ys : List A) → IsSorted (xs ++ (v ∷ ys)) → All (Above (key v)) ys
  IsSorted-Above [] v ys h = h.0
  IsSorted-Above (x ∷ xs) v ys h = IsSorted-Above xs v ys h.1

  -- What lies below `w` lies below `v` too, if `v` is not before `w`.
  pub All-Below_weaken :
      (j k : K) (xs : List A) → less k j ≡ false → All (Below j) xs → All (Below k) xs
  All-Below_weaken j k xs e = All-map (λ y p. less_trans_right o (key y) j k p e) xs
