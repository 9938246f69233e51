-- ===== src/Objects/Access/Right.antt =====
-- What reads and writes at expressions do to the bytes (klee/lib/Core/Memory.cpp).
use xklee.Base.{
  ℕ, ◌≡◌, ◌<◌, ◌≤◌, refl, ap, sym, ◌∙◌, false, Option, none, some, List, ◌==◌, ◌%◌, ◌^◌, arith,
  if◌then◌else◌,
}
use xklee.Exprs.{Expr, eval, is_constant, get_width}
use xklee.Objects.{ObjectState, cached, extend_updates, flush_for_read}
use xklee.Objects.Meaning.{updated, base_of, stored, byte, value_or, IsCoherent}
use xklee.Objects.Flush.{IsFlush, IsFlush-trans, flush_for_read-IsFlush}
use xklee.Objects.Forget.{flush_for_write-IsFlush}
use xklee.Objects.Lazy.{
  get_updates, get_updates_of, create_read, initial_contents, IsEqual, eval-create_read,
  stored-get_updates,
}
use xklee.Objects.Access.{Builder, read_from, read_updates, read8_at, write8_at_expr}

module _ (apply : ℕ → List ℕ → List ℕ → ℕ) (Possible : (ℕ → ℕ → ℕ) → Type 0) (builder : Builder)
    (equal_right : IsEqual apply builder.equal)
    (zext32_value : (e : Expr) (bytes : ℕ → ℕ → ℕ)
      → eval apply bytes (builder.zext32 e) % 2 ^ 32 ≡ eval apply bytes e % 2 ^ 32) where
  open builder use {equal, zext32, new_array}

  -- The array that `getUpdates` creates for this state has its contents.
  abbrev pub IsCreated : (ℕ → ℕ → ℕ) → ObjectState → Type 0
  IsCreated bytes os = (n : ℕ) → bytes (new_array (initial_contents os)) n ≡ initial_contents os n

  get_updates_of-root :
      (root : Option ℕ) (os : ObjectState)
      → os.root ≡ root
      → (a : ℕ) × ((get_updates_of new_array root os).root ≡ some a)
  get_updates_of-root none os f = (new_array (initial_contents os), refl)
  get_updates_of-root (some a) os f = (a, f)

  read_updates-value :
      (i : Expr) (os : ObjectState)
      → (e : Expr) × (read_updates builder i os ≡ some (e, get_updates new_array os))
        × ((bytes : ℕ → ℕ → ℕ)
            → IsCreated bytes os
            → eval apply bytes e ≡ stored apply os bytes (eval apply bytes i % 2 ^ 32))
  unfolding get_updates
  read_updates-value i os =
      let lazy = get_updates new_array os in
      let (a, r) = get_updates_of-root os.root os refl in
      (
        create_read equal a lazy.updates i,
        ap (λ x. read_from builder x i lazy) r,
        λ bytes h.
            let n = eval apply bytes i % 2 ^ 32 in
            let base : base_of apply lazy.root bytes n ≡ bytes a n =
              ap (λ x. base_of apply x bytes n) r in
            eval-create_read apply equal equal_right bytes a lazy.updates i
            ∙ ap (λ x. updated apply bytes lazy.updates x n) (sym base)
            ∙ stored-get_updates apply new_array os bytes n (h n),
      )

  get_updates_of-IsFlush :
      (root : Option ℕ) (os : ObjectState)
      → ((bytes : ℕ → ℕ → ℕ) (n : ℕ)
          → Possible bytes
          → stored apply (get_updates_of new_array root os) bytes n ≡ stored apply os bytes n)
      → IsCoherent apply Possible os
      → IsFlush apply Possible os (get_updates_of new_array root os)
  get_updates_of-IsFlush (some a) os p c = record {
    coherent = c;
    size = refl;
    bytes_same = λ bytes j possible h. refl;
    still_flushed = λ j h. h;
    still_uncached = λ j h. h;
  }
  get_updates_of-IsFlush none os p c = record {
    coherent = λ j h. record {
      wide = (c j h).wide;
      exclusive = (c j h).exclusive;
      unflushed = (c j h).unflushed;
      flushed = λ f bytes possible.
          ap (λ x. value_or apply bytes x (cached os j)) (p bytes j possible)
          ∙ (c j h).flushed f bytes possible
          ∙ sym (p bytes j possible);
    };
    size = refl;
    bytes_same =
        λ bytes j possible h. ap (λ x. value_or apply bytes x (cached os j)) (p bytes j possible);
    still_flushed = λ j h. h;
    still_uncached = λ j h. h;
  }

  -- On a coherent object of at most 2 ^ 32 bytes, where constant results of comparing indexes
  -- and the extension to 32 bits are right, and where the array that is created has its
  -- contents under the possible bytes, `read8_at` at an offset that is not constant gives an
  -- expression that is worth the byte at the value of the offset if that is inside, and a
  -- coherent object with the same bytes.
  pub read8_at-IsFlush :
      (offset : Expr) (os : ObjectState)
      → is_constant offset ≡ false
      → os.size ≤ 2 ^ 32
      → IsCoherent apply Possible os
      → ((flushed : ObjectState)
          → flush_for_read os ≡ some flushed
          → (bytes : ℕ → ℕ → ℕ) → Possible bytes
          → IsCreated bytes flushed)
      → (e : Expr) × (os' : ObjectState) × (read8_at builder offset os ≡ some (e, os'))
        × IsFlush apply Possible os os'
        × ((bytes : ℕ → ℕ → ℕ)
            → Possible bytes
            → eval apply bytes offset % 2 ^ 32 < os.size
            → eval apply bytes e ≡ byte apply os bytes (eval apply bytes offset % 2 ^ 32))
  unfolding read8_at get_updates
  read8_at-IsFlush offset os nc s c created =
      let (flushed, f, is_flush, all_stored) = flush_for_read-IsFlush apply Possible os s c in
      let (e, r, worth) = read_updates-value (zext32 offset) flushed in
      let same = λ (bytes : ℕ → ℕ → ℕ) (n : ℕ) (possible : Possible bytes).
        stored-get_updates apply new_array flushed bytes n (created flushed f bytes possible n) in
      (
        e,
        get_updates new_array flushed,
        rw (nc, f) r,
        IsFlush-trans apply Possible os flushed (get_updates new_array flushed) is_flush
            (get_updates_of-IsFlush flushed.root flushed same is_flush.coherent),
        λ bytes possible l.
            worth bytes (created flushed f bytes possible)
            ∙ ap (stored apply flushed bytes) (zext32_value offset bytes)
            ∙ all_stored bytes (eval apply bytes offset % 2 ^ 32) possible l,
      )

  -- On a coherent object of at most 2 ^ 32 bytes (the invariants of the cache hold, with 8
  -- bits for what is cached, and flushed bytes are those of the updates under the possible
  -- bytes), where the extension to 32 bits is right, `write8_at_expr` of a value of 8 bits at
  -- an offset that is not constant does not fail and gives a coherent object of the same size
  -- in which the byte at the value of the offset is the value written and all others are as
  -- before, under all bytes of the arrays that are taken for possible.
  pub write8_at_expr-IsCoherent :
      (offset value : Expr) (os : ObjectState)
      → is_constant offset ≡ false
      → get_width value ≡ 8
      → os.size ≤ 2 ^ 32
      → IsCoherent apply Possible os
      → (os' : ObjectState) × (write8_at_expr builder offset value os ≡ some os')
        × IsCoherent apply Possible os'
        × (os'.size ≡ os.size)
        × ((bytes : ℕ → ℕ → ℕ) (j : ℕ)
            → Possible bytes
            → j < os.size
            → byte apply os' bytes j ≡ (
                if eval apply bytes offset % 2 ^ 32 == j
                then eval apply bytes value
                else byte apply os bytes j))
  unfolding write8_at_expr updated
  write8_at_expr-IsCoherent offset value os nc wide s c =
      let (flushed, f, is_flush, uncached) = flush_for_write-IsFlush apply Possible os s c in
      let os' = extend_updates (zext32 offset) value flushed in
      let size = is_flush.size in
      let from_updates = λ (bytes : ℕ → ℕ → ℕ) (j : ℕ) (l : j < os.size).
        ap (value_or apply bytes (stored apply os' bytes j)) (uncached j l) in
      (
        os',
        rw (nc, f, wide) refl,
        (λ j h.
            let here = is_flush.coherent j h in
            record {
              wide = here.wide;
              exclusive = here.exclusive;
              unflushed = here.unflushed;
              flushed = λ g bytes possible. from_updates bytes j (omega arith);
            }),
        size,
        λ bytes j possible l.
            let before : stored apply flushed bytes j ≡ byte apply os bytes j =
              sym (ap (value_or apply bytes (stored apply flushed bytes j)) (uncached j l))
              ∙ is_flush.bytes_same bytes j possible l in
            let place = zext32_value offset bytes in
            from_updates bytes j l
            ∙ ap (λ x. if x == j then eval apply bytes value else stored apply flushed bytes j)
                place
            ∙ ap (λ x. if eval apply bytes offset % 2 ^ 32 == j then eval apply bytes value else x)
                before,
      )
