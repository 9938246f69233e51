-- ===== src/CexCaching/Sets.antt =====
-- The keys of klee/lib/Solver/CexCachingSolver.cpp, sets of expressions in order.
use xklee.Base.{
  ℕ, ◌<◌, ◌≡◌, refl, ap, Bool, true, ◌&&◌, List, [], ◌∷◌, ltb, ltb→lt, arith, All, all, Bool-cases,
  inl, inr,
}
use xklee.MapOfSets.FindSubset.{IsAscending}
use xklee.MapOfSets.Supersets.{IsWithin, none_left, taken, passed}
use xklee.CexCaching.{insert_key, key_of}

insert_key-above :
    (x e : ℕ) (key : List ℕ) → x < e → All (λ y. x < y) key → All (λ y. x < y) (insert_key e key)
insert_key-above x e [] h a = (h, tt)
insert_key-above x e (k ∷ key) h a = elim (Bool-cases (ltb e k)) [
  | inl f ↦ rw f (h, a)
  | inr f ↦ elim (Bool-cases (ltb k e)) [
    | inl g ↦ rw (f, g) (a.0, insert_key-above x e key h a.1)
    | inr g ↦ rw (f, g) a
  ]
]

All-lt_trans : (k x : ℕ) (set : List ℕ) → k < x → All (λ y. x < y) set → All (λ y. k < y) set
All-lt_trans k x [] h a = tt
All-lt_trans k x (y ∷ set) h a = (omega arith, All-lt_trans k x set h a.1)

pub insert_key-IsAscending :
    (e : ℕ) (key : List ℕ) → IsAscending key → IsAscending (insert_key e key)
insert_key-IsAscending e [] a = (tt, tt)
insert_key-IsAscending e (k ∷ key) a = elim (Bool-cases (ltb e k)) [
  | inl f ↦ let before = ltb→lt e k f in rw f ((before, All-lt_trans e k key before a.0), a)
  | inr f ↦ elim (Bool-cases (ltb k e)) [
    | inl g ↦
        rw (f, g) (insert_key-above k e key (ltb→lt k e g) a.0, insert_key-IsAscending e key a.1)
    | inr g ↦ rw (f, g) a
  ]
]

pub key_of-IsAscending : (es : List ℕ) → IsAscending (key_of es)
key_of-IsAscending [] = tt
key_of-IsAscending (e ∷ es) = insert_key-IsAscending e (key_of es) (key_of-IsAscending es)

-- A test of all elements does not see the order, nor that an element is there twice.
pub all-insert_key :
    (p : ℕ → Bool) (e : ℕ) (key : List ℕ) → all p (insert_key e key) ≡ (p e && all p key)
all-insert_key p e [] = refl
all-insert_key p e (k ∷ key) = elim (Bool-cases (ltb e k)) [
  | inl f ↦ rw f
  | inr f ↦ elim (Bool-cases (ltb k e)) [
    | inl g ↦ let rest = all-insert_key p e key in rw (f, g) (ground arith)
    | inr g ↦
        let same : p e ≡ p k = let s : e ≡ k = ground arith in ap p s in rw (f, g) (ground arith)
  ]
]

pub all-key_of : (p : ℕ → Bool) (es : List ℕ) → all p (key_of es) ≡ all p es
all-key_of p [] = refl
all-key_of p (e ∷ es) =
    let rest = all-key_of p es in let here = all-insert_key p e (key_of es) in ground arith

-- What all of a set passes, all of a part of it passes.
pub all-within :
    (p : ℕ → Bool) (part whole : List ℕ)
    → IsWithin part whole
    → all p whole ≡ true
    → all p part ≡ true
all-within p part whole none_left h = refl
all-within p (k ∷ part) (j ∷ whole) (taken same w) h =
    let here : p k ≡ p j = ap p same in ground (arith, all-within p part whole w)
all-within p part (j ∷ whole) (passed w) h = all-within p part whole w (ground arith)
