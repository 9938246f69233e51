-- ===== src/ImmutableTree/Sorted/Previous.antt =====
-- The scan that `lookup_previous` amounts to: the last value whose key is not after the given one.
use xklee.Base.{
  ◌≡◌, refl, ap, true, false, Option, some, List, [], ◌∷◌, ◌++◌, All, Bool-cases, inl, inr,
  if◌then◌else◌,
}
use xklee.Base.Order.{KeyOrder, less_asymm}
use xklee.ImmutableTree.Sorted.{Above, Below, IsSorted, All-Above_trans}

module _ {ℓ κ} {A : Type ℓ} {K : Type κ} (key : A → K) (o : KeyOrder K) where
  open o use {less}

  unfoldable pub previous_sorted : Option A → K → List A → Option A
  previous_sorted result k [] = result
  previous_sorted result k (x ∷ xs) =
      let rest = previous_sorted (some x) k xs in if less k (key x) then result else rest

  pub previous_sorted_stop :
      (result : Option A) (k : K) (xs : List A) (x : A) (ys : List A)
      → less k (key x) ≡ true
      → previous_sorted result k (xs ++ (x ∷ ys)) ≡ previous_sorted result k xs
  unfolding previous_sorted
  previous_sorted_stop result k [] x ys h = rw h
  previous_sorted_stop result k (y ∷ xs) x ys h = rw (previous_sorted_stop (some y) k xs x ys h)

  pub previous_sorted_skip :
      (result : Option A) (k : K) (xs : List A) (x : A) (ys : List A)
      → All (Below key o k) xs
      → less k (key x) ≡ false
      → previous_sorted result k (xs ++ (x ∷ ys)) ≡ previous_sorted (some x) k ys
  unfolding previous_sorted
  previous_sorted_skip result k [] x ys b h = rw h
  previous_sorted_skip result k (y ∷ xs) x ys b h =
      rw (less_asymm o (key y) k b.0) (previous_sorted_skip (some y) k xs x ys b.1 h)

  pub previous_sorted_absent :
      (result : Option A) (k : K) (xs : List A)
      → All (Above key o k) xs
      → previous_sorted result k xs ≡ result
  unfolding previous_sorted
  previous_sorted_absent result k [] a = refl
  previous_sorted_absent result k (x ∷ xs) a = rw a.0

  -- `x` stands in `xs` with a key not after `k`, and every value behind it has a key after `k`.
  pub record IsPrevious (k : K) (xs : List A) (x : A) : Type ℓ where
    pub before : List A
    pub behind : List A
    pub splits : xs ≡ before ++ (x ∷ behind)
    pub not_after : less k (key x) ≡ false
    pub all_after : All (Above key o k) behind

  -- Either nothing replaces `result`, or the last such value does.
  pub data Scanned (k : K) (xs : List A) (result : Option A) : Option A → Type ℓ where
    unchanged : All (Above key o k) xs → Scanned k xs result result
    found : (x : A) → IsPrevious k xs x → Scanned k xs result (some x)

  Scanned-cons :
      (k : K) (y : A) (xs : List A) (result : Option A) {r : Option A}
      → less k (key y) ≡ false
      → Scanned k xs (some y) r
      → Scanned k (y ∷ xs) result r
  Scanned-cons k y xs result e (unchanged a) =
      found y (record { before = []; behind = xs; splits = refl; not_after = e; all_after = a })
  Scanned-cons k y xs result e (found x p) = found x (record {
    before = y ∷ p.before;
    behind = p.behind;
    splits = ap (λ t. y ∷ t) p.splits;
    not_after = p.not_after;
    all_after = p.all_after;
  })

  pub previous_sorted-Scanned :
      (k : K) (xs : List A) (result : Option A)
      → IsSorted key o xs
      → Scanned k xs result (previous_sorted result k xs)
  unfolding previous_sorted
  previous_sorted-Scanned k [] result s = unchanged tt
  previous_sorted-Scanned k (x ∷ xs) result s = elim (Bool-cases (less k (key x))) [
    | inl e ↦ rw e (unchanged (e, All-Above_trans key o (key x) k xs e s.0))
    | inr e ↦ rw e (Scanned-cons k x xs result e (previous_sorted-Scanned k xs (some x) s.1))
  ]
