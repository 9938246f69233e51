-- ===== src/Objects/Lazy.antt =====
-- `getUpdates` of klee/lib/Core/Memory.cpp, which creates the constant array under the updates at
-- last, and `ReadExpr::create` of klee/lib/Expr/Expr.cpp.
use xklee.Base.{
  ℕ, ◌≡◌, refl, ap, sym, ◌∙◌, Bool, true, false, Option, none, some, List, [], ◌∷◌, ◌++◌, ◌==◌, ◌%◌,
  ◌^◌, arith, if◌then◌else◌, inl, inr, Option-cases,
}
use xklee.Exprs.{Expr, constant, read, operation, Updates, no_updates, update, extend, eval}
use xklee.Objects.{ObjectState, put}
use xklee.Objects.Meaning.{updated, base_of, stored, eval_updates-updated}

-- `Writes`, the oldest first.
abbrev pub writes : Updates → List (Expr × Expr)
writes no_updates = []
writes (update i v us) = writes us ++ ((i, v) ∷ [])

-- The constant writes at the front go into the contents. An index has 32 bits.
abbrev pub pull : List (Expr × Expr) → (ℕ → ℕ) → (ℕ → ℕ) × List (Expr × Expr)
pull ((constant w i, constant w' v) ∷ ws) contents = pull ws (put (i % 2 ^ 32) v contents)
pull ws contents = (contents, ws)

abbrev pub apply_writes : List (Expr × Expr) → Updates → Updates
apply_writes [] us = us
apply_writes ((i, v) ∷ ws) us = apply_writes ws (extend i v us)

abbrev pub initial_contents : ObjectState → ℕ → ℕ
initial_contents os = (pull (writes os.updates) (λ n. 0)).0

-- `new_array` is the address of the array that is created with these contents.
abbrev pub get_updates_of : ((ℕ → ℕ) → ℕ) → Option ℕ → ObjectState → ObjectState
get_updates_of new_array (some a) os = os
get_updates_of new_array none os = record os {
  root = some (new_array (initial_contents os));
  updates = apply_writes (pull (writes os.updates) (λ n. 0)).1 no_updates;
}

unfoldable pub get_updates : ((ℕ → ℕ) → ℕ) → ObjectState → ObjectState
get_updates new_array os = get_updates_of new_array os.root os

abbrev pub pick_read : Option Bool → Expr → Expr → Expr → Expr
pick_read none whole value older = whole
pick_read (some true) whole value older = value
pick_read (some false) whole value older = older

-- The loop of `ReadExpr::create`. `equal` is `EqExpr::create` where it gives a constant.
abbrev pub rollback : (Expr → Expr → Option Bool) → ℕ → Updates → Expr → Updates → Expr
rollback equal a all i no_updates = read a all i
rollback equal a all i (update j v us) =
    let older = rollback equal a all i us in pick_read (equal i j) (read a all i) v older

abbrev pub create_read : (Expr → Expr → Option Bool) → ℕ → Updates → Expr → Expr
create_read equal a us i = rollback equal a us i us

module _ (apply : ℕ → List ℕ → List ℕ → ℕ) where
  -- A constant answer is right for the indexes, whatever the bytes.
  abbrev pub IsEqual : (Expr → Expr → Option Bool) → Type 0
  IsEqual equal =
      (i j : Expr) (same : Bool)
      → equal i j ≡ some same
      → (bytes : ℕ → ℕ → ℕ) → (eval apply bytes j % 2 ^ 32 == eval apply bytes i % 2 ^ 32) ≡ same

  eval-read :
      (bytes : ℕ → ℕ → ℕ) (a : ℕ) (us : Updates) (i : Expr)
      → eval apply bytes (read a us i)
        ≡ updated apply bytes us
            (bytes a (eval apply bytes i % 2 ^ 32))
            (eval apply bytes i % 2 ^ 32)
  unfolding eval
  eval-read bytes a us i = eval_updates-updated apply bytes us a (eval apply bytes i % 2 ^ 32)

  eval-rollback :
      (equal : Expr → Expr → Option Bool) (right : IsEqual equal) (bytes : ℕ → ℕ → ℕ) (a : ℕ)
      (all us : Updates) (i : Expr)
      → updated apply bytes us (bytes a (eval apply bytes i % 2 ^ 32)) (eval apply bytes i % 2 ^ 32)
        ≡ updated apply bytes all
            (bytes a (eval apply bytes i % 2 ^ 32))
            (eval apply bytes i % 2 ^ 32)
      → eval apply bytes (rollback equal a all i us)
        ≡ updated apply bytes all
            (bytes a (eval apply bytes i % 2 ^ 32))
            (eval apply bytes i % 2 ^ 32)
  unfolding updated
  eval-rollback equal right bytes a all no_updates i e = eval-read bytes a all i
  eval-rollback equal right bytes a all (update j v us) i e =
      let n = eval apply bytes i % 2 ^ 32 in
      let older = rollback equal a all i us in
      let step = λ (o : Option Bool) (f : equal i j ≡ o).
        ap (λ x. eval apply bytes (pick_read x (read a all i) v older)) f in
      elim (Option-cases (equal i j)) [
        | inl f ↦ step none f ∙ eval-read bytes a all i
        | inr (true, f) ↦
            let r = right i j true f bytes in
            let here : updated apply bytes (update j v us) (bytes a n) n ≡ eval apply bytes v =
              rw r refl in
            step (some true) f ∙ sym here ∙ e
        | inr (false, f) ↦
            let r = right i j false f bytes in
            let here : updated apply bytes (update j v us) (bytes a n) n
                ≡ updated apply bytes us (bytes a n) n =
              rw r refl in
            step (some false) f ∙ eval-rollback equal right bytes a all us i (sym here ∙ e)
      ]

  -- A read is worth the byte that the updates leave at the index.
  pub eval-create_read :
      (equal : Expr → Expr → Option Bool) (right : IsEqual equal) (bytes : ℕ → ℕ → ℕ) (a : ℕ)
      (us : Updates) (i : Expr)
      → eval apply bytes (create_read equal a us i)
        ≡ updated apply bytes us
            (bytes a (eval apply bytes i % 2 ^ 32))
            (eval apply bytes i % 2 ^ 32)
  eval-create_read equal right bytes a us i = eval-rollback equal right bytes a us us i refl

  -- The writes in order, the oldest first.
  abbrev folded : (ℕ → ℕ → ℕ) → List (Expr × Expr) → ℕ → ℕ → ℕ
  folded bytes [] base n = base
  folded bytes ((i, v) ∷ ws) base n =
      folded bytes ws (if eval apply bytes i % 2 ^ 32 == n then eval apply bytes v else base) n

  folded-append :
      (bytes : ℕ → ℕ → ℕ) (ws : List (Expr × Expr)) (i v : Expr) (base n : ℕ)
      → folded bytes (ws ++ ((i, v) ∷ [])) base n
        ≡ (if eval apply bytes i % 2 ^ 32 == n then eval apply bytes v else folded bytes ws base n)
  folded-append bytes [] i v base n = refl
  folded-append bytes ((j, w) ∷ ws) i v base n =
      folded-append bytes ws i v
        (if eval apply bytes j % 2 ^ 32 == n then eval apply bytes w else base) n

  updated-folded :
      (bytes : ℕ → ℕ → ℕ) (us : Updates) (base n : ℕ)
      → updated apply bytes us base n ≡ folded bytes (writes us) base n
  unfolding updated
  updated-folded bytes no_updates base n = refl
  updated-folded bytes (update i v us) base n =
      let older = updated-folded bytes us base n in
      ap (λ x. if eval apply bytes i % 2 ^ 32 == n then eval apply bytes v else x) older
      ∙ sym (folded-append bytes (writes us) i v base n)

  updated-apply_writes :
      (bytes : ℕ → ℕ → ℕ) (ws : List (Expr × Expr)) (us : Updates) (base n : ℕ)
      → updated apply bytes (apply_writes ws us) base n
        ≡ folded bytes ws (updated apply bytes us base n) n
  unfolding updated
  updated-apply_writes bytes [] us base n = refl
  updated-apply_writes bytes ((i, v) ∷ ws) us base n =
      updated-apply_writes bytes ws (update i v us) base n

  -- The pulled writes stand in the contents.
  folded-pull :
      (bytes : ℕ → ℕ → ℕ) (ws : List (Expr × Expr)) (contents : ℕ → ℕ) (n : ℕ)
      → folded bytes ws (contents n) n
        ≡ folded bytes (pull ws contents).1 ((pull ws contents).0 n) n
  unfolding eval
  folded-pull bytes [] contents n = refl
  folded-pull bytes ((constant w i, constant w' v) ∷ ws) contents n =
      let same : (if i % 2 ^ 32 % 2 ^ 32 == n then v else contents n)
          ≡ put (i % 2 ^ 32) v contents n =
        ground arith in
      let same' : (if i % 2 ^ 32 == n then v else contents n) ≡ put (i % 2 ^ 32) v contents n =
        ground arith in
      ap (λ x. folded bytes ws x n) same' ∙ folded-pull bytes ws (put (i % 2 ^ 32) v contents) n
  folded-pull bytes ((constant w i, read a us x) ∷ ws) contents n = refl
  folded-pull bytes ((constant w i, operation k o es) ∷ ws) contents n = refl
  folded-pull bytes ((read a us x, v) ∷ ws) contents n = refl
  folded-pull bytes ((operation k o es, v) ∷ ws) contents n = refl

  stored_of :
      (new_array : (ℕ → ℕ) → ℕ) (os : ObjectState) (bytes : ℕ → ℕ → ℕ) (n : ℕ) (root : Option ℕ)
      → os.root ≡ root
      → bytes (new_array (initial_contents os)) n ≡ initial_contents os n
      → stored apply (get_updates_of new_array root os) bytes n ≡ stored apply os bytes n
  unfolding updated
  stored_of new_array os bytes n (some a) f h = refl
  stored_of new_array os bytes n none f h =
      let pulled = pull (writes os.updates) (λ m. 0) in
      let base : base_of apply os.root bytes n ≡ 0 = ap (λ r. base_of apply r bytes n) f in
      updated-apply_writes bytes pulled.1 no_updates (bytes (new_array (initial_contents os)) n) n
      ∙ ap (λ x. folded bytes pulled.1 x n) h
      ∙ sym (folded-pull bytes (writes os.updates) (λ m. 0) n)
      ∙ sym (updated-folded bytes os.updates 0 n)
      ∙ ap (λ x. updated apply bytes os.updates x n) (sym base)

  -- The bytes do not change where the new array has the contents that it is created with.
  pub stored-get_updates :
      (new_array : (ℕ → ℕ) → ℕ) (os : ObjectState) (bytes : ℕ → ℕ → ℕ) (n : ℕ)
      → bytes (new_array (initial_contents os)) n ≡ initial_contents os n
      → stored apply (get_updates new_array os) bytes n ≡ stored apply os bytes n
  unfolding get_updates
  stored-get_updates new_array os bytes n h = stored_of new_array os bytes n os.root refl h
