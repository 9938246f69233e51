-- ===== src/Objects/Examples.antt =====
-- An object of two bytes, one concrete and one a read of array 3 (klee/lib/Core/Memory.cpp).
use mathlib.Core.Option.{some-injective}
use xklee.Base.{
  sym, subst, ℕ, ◌≡◌, ◌<◌, refl, ap, ◌∙◌, Bool, true, false, Option, none, some, List, ◌==◌, ◌%◌,
  ◌^◌, arith, if◌then◌else◌, inl, inr, Bool-cases, ltb, ◌+◌, ◌-◌, ◌*◌, ◌/◌,
}
use xklee.Exprs.{Expr, constant, read, operation, no_updates, update, eval, get_width}
use xklee.Objects.{ObjectState, put, cached, flush_for_read, write_bytes}
use xklee.Objects.Meaning.{byte, IsCoherent}
use xklee.Objects.Wide.{place, byte-write_bytes}
use xklee.Objects.Flush.{IsFlush}
use xklee.Objects.Lazy.{get_updates, initial_contents, IsEqual}
use xklee.Objects.Access.{Builder, read8_at, write8_at_expr}
use xklee.Objects.Access.Right.{IsCreated, read8_at-IsFlush, write8_at_expr-IsCoherent}

abbrev apply : ℕ → List ℕ → List ℕ → ℕ
apply kind contents values = 0

abbrev other : Expr
other = read 3 no_updates (constant 32 0)

abbrev pair : ObjectState
pair = record {
  concrete_store = λ i. 5;
  concrete_mask = some (λ i. i == 0);
  flush_mask = none;
  known_symbolics = some (λ i. if i == 0 then none else some other);
  root = none;
  updates = no_updates;
  size = 2;
  read_only = false;
}

-- Constants are compared; nothing is known of the rest.
abbrev equal : Expr → Expr → Option Bool
equal (constant w v) (constant w' v') = some (v' % 2 ^ 32 == v % 2 ^ 32)
equal _ _ = none

abbrev builder : Builder
builder = record { equal = equal; zext32 = λ e. e; new_array = λ contents. 9 }

equal_right : IsEqual apply equal
unfolding eval
equal_right (constant w v) (constant w' v') same e bytes = cc
equal_right (constant w v) (read a us i) same e bytes = cc
equal_right (constant w v) (operation k o es) same e bytes = cc
equal_right (read a us i) j same e bytes = cc
equal_right (operation k o es) j same e bytes = cc

-- Array 9 has the concrete byte in place.
abbrev Possible : (ℕ → ℕ → ℕ) → Type 0
Possible bytes = (n : ℕ) → bytes 9 n ≡ put 0 5 (λ m. 0) n

pair-IsCoherent : IsCoherent apply Possible pair
unfolding get_width
pair-IsCoherent i l = record {
  wide = λ v e. elim (Bool-cases (i == 0)) [
    | inl f ↦
        let here : cached pair i ≡ some (constant 8 5) = rw f refl in
        subst (λ x. get_width x ≡ 8) (some-injective _ _ (sym here ∙ e)) refl
    | inr f ↦
        let here : cached pair i ≡ some other = rw f refl in
        subst (λ x. get_width x ≡ 8) (some-injective _ _ (sym here ∙ e)) refl
  ];
  exclusive = elim (Bool-cases (i == 0)) [ inl e ↦ rw e refl | inr e ↦ rw e refl ];
  unflushed = λ h. elim (Bool-cases (i == 0)) [ inl e ↦ rw e refl | inr e ↦ rw e refl ];
  flushed = λ h bytes possible. cc;
}

abbrev contents_or : Option ObjectState → ℕ → ℕ
contents_or none n = 0
contents_or (some os) n = initial_contents os n

created :
    (flushed : ObjectState)
    → flush_for_read pair ≡ some flushed
    → (bytes : ℕ → ℕ → ℕ) → Possible bytes
    → IsCreated apply Possible builder equal_right (λ e bytes'. refl) bytes flushed
unfolding get_width
created flushed e bytes possible n = possible n ∙ ap (λ o. contents_or o n) e

-- An index read from array 4.
abbrev offset : Expr
offset = read 4 no_updates (constant 32 0)

read8_at-IsFlush_example :
    (e : Expr) × (os' : ObjectState) × (read8_at builder offset pair ≡ some (e, os'))
    × IsFlush apply Possible pair os'
    × ((bytes : ℕ → ℕ → ℕ)
        → Possible bytes
        → eval apply bytes offset % 2 ^ 32 < 2
        → eval apply bytes e ≡ byte apply pair bytes (eval apply bytes offset % 2 ^ 32))
read8_at-IsFlush_example =
    read8_at-IsFlush apply Possible builder equal_right (λ e bytes. refl) offset pair refl
      (omega arith) pair-IsCoherent created

write8_at_expr-IsCoherent_example :
    (os' : ObjectState) × (write8_at_expr builder offset (constant 8 6) pair ≡ some os')
    × IsCoherent apply Possible os'
    × (os'.size ≡ 2)
    × ((bytes : ℕ → ℕ → ℕ) (j : ℕ)
        → Possible bytes
        → j < 2
        → byte apply os' bytes j ≡ (
            if eval apply bytes offset % 2 ^ 32 == j
            then eval apply bytes (constant 8 6)
            else byte apply pair bytes j))
unfolding get_width
write8_at_expr-IsCoherent_example =
    write8_at_expr-IsCoherent apply Possible builder equal_right (λ e bytes. refl) offset
      (constant 8 6) pair refl refl (omega arith) pair-IsCoherent

-- The read has the concrete byte in a constant array and the other as an update.
pair_read :
    read8_at builder offset pair
    ≡ some (
      read 9 (update (constant 32 1) other no_updates) offset,
      (record {
        concrete_store = λ i. 5;
        concrete_mask = some (λ i. i == 0);
        flush_mask = some (put 1 false (put 0 false (λ i. true)));
        known_symbolics = some (λ i. if i == 0 then none else some other);
        root = some 9;
        updates = update (constant 32 1) other no_updates;
        size = 2;
        read_only = false;
      }),
    )
unfolding read8_at get_updates get_width
pair_read = refl

byte-write_bytes_example :
    byte apply (write_bytes false 4 0 4 305419896 pair) (λ a n. 0) (0 + place false 4 1) ≡ (
      if ltb 1 (4 - 4)
      then byte apply pair (λ a n. 0) (0 + place false 4 1)
      else 305419896 / 2 ^ (8 * 1) % 2 ^ 8)
byte-write_bytes_example =
    byte-write_bytes apply false 4 0 4 305419896 1 pair (λ a n. 0) (omega arith) (omega arith)
