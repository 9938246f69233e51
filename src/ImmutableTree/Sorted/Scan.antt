-- ===== src/ImmutableTree/Sorted/Scan.antt =====
-- How the scans of `Sorted` pass over a list that is split at a value, as a node splits a tree.
use xklee.Base.{◌≡◌, refl, ap, true, List, [], ◌∷◌, ◌++◌, arith, All}
use xklee.Base.Order.{KeyOrder, less_asymm}
use xklee.ImmutableTree.Sorted.{Below, insert_sorted, replace_sorted, remove_sorted, find}

module _ {ℓ κ} {A : Type ℓ} {K : Type κ} (key : A → K) (o : KeyOrder K) where
  open o use {less, less_trans}

  -- All of `xs` lie below the key: the scan goes through them.
  pub insert_sorted_skip :
      (v : A) (xs zs : List A)
      → All (Below key o (key v)) xs
      → insert_sorted key o v (xs ++ zs) ≡ xs ++ insert_sorted key o v zs
  unfolding insert_sorted
  insert_sorted_skip v [] zs b = refl
  insert_sorted_skip v (x ∷ xs) zs b =
      rw (less_asymm o (key x) (key v) b.0, b.0) (ap (λ t. x ∷ t) (insert_sorted_skip v xs zs b.1))

  pub replace_sorted_skip :
      (v : A) (xs zs : List A)
      → All (Below key o (key v)) xs
      → replace_sorted key o v (xs ++ zs) ≡ xs ++ replace_sorted key o v zs
  unfolding replace_sorted
  replace_sorted_skip v [] zs b = refl
  replace_sorted_skip v (x ∷ xs) zs b =
      rw (less_asymm o (key x) (key v) b.0, b.0) (ap (λ t. x ∷ t) (replace_sorted_skip v xs zs b.1))

  pub remove_sorted_skip :
      (k : K) (xs zs : List A)
      → All (Below key o k) xs
      → remove_sorted key o k (xs ++ zs) ≡ xs ++ remove_sorted key o k zs
  unfolding remove_sorted
  remove_sorted_skip k [] zs b = refl
  remove_sorted_skip k (x ∷ xs) zs b =
      rw (less_asymm o (key x) k b.0, b.0) (ap (λ t. x ∷ t) (remove_sorted_skip k xs zs b.1))

  pub find_skip :
      (k : K) (xs zs : List A) → All (Below key o k) xs → find key o k (xs ++ zs) ≡ find key o k zs
  unfolding find
  find_skip k [] zs b = refl
  find_skip k (x ∷ xs) zs b = rw (less_asymm o (key x) k b.0, b.0) (find_skip k xs zs b.1)

  -- The key comes before `x`: the scan ends no later than at `x`.
  pub insert_sorted_stop :
      (v : A) (xs : List A) (x : A) (ys : List A)
      → less (key v) (key x) ≡ true
      → insert_sorted key o v (xs ++ (x ∷ ys)) ≡ insert_sorted key o v xs ++ (x ∷ ys)
  unfolding insert_sorted
  insert_sorted_stop v [] x ys h = rw h
  insert_sorted_stop v (y ∷ xs) x ys h = ground (arith, insert_sorted_stop v xs x ys h)

  pub replace_sorted_stop :
      (v : A) (xs : List A) (x : A) (ys : List A)
      → less (key v) (key x) ≡ true
      → replace_sorted key o v (xs ++ (x ∷ ys)) ≡ replace_sorted key o v xs ++ (x ∷ ys)
  unfolding replace_sorted
  replace_sorted_stop v [] x ys h = rw h
  replace_sorted_stop v (y ∷ xs) x ys h = ground (arith, replace_sorted_stop v xs x ys h)

  pub remove_sorted_stop :
      (k : K) (xs : List A) (x : A) (ys : List A)
      → less k (key x) ≡ true
      → remove_sorted key o k (xs ++ (x ∷ ys)) ≡ remove_sorted key o k xs ++ (x ∷ ys)
  unfolding remove_sorted
  remove_sorted_stop k [] x ys h = rw h
  remove_sorted_stop k (y ∷ xs) x ys h = ground (arith, remove_sorted_stop k xs x ys h)

  pub find_stop :
      (k : K) (xs : List A) (x : A) (ys : List A)
      → less k (key x) ≡ true
      → find key o k (xs ++ (x ∷ ys)) ≡ find key o k xs
  unfolding find
  find_stop k [] x ys h = rw h
  find_stop k (y ∷ xs) x ys h = ground (arith, find_stop k xs x ys h)
