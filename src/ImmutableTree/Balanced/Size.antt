-- ===== src/ImmutableTree/Balanced/Size.antt =====
-- Height and size of the balanced trees of klee/include/klee/Internal/ADT/ImmutableTree.h.
use xklee.Base.{ℕ, zero, suc, ◌+◌, ◌*◌, ◌^◌, ◌≡◌, ◌≤◌, ◌⊎◌, inl, inr, arith, max}
use native.Mathlib.Nat.{pow-suc}
use xklee.ImmutableTree.{Tree, terminator, node, height, size}
use xklee.ImmutableTree.Balanced.{IsBalanced}

-- One more than the number of nodes that height `h` needs: a child of height `h - 1` and one of
-- height `h - 3` at least.
fewest : ℕ → ℕ
fewest zero = 1
fewest (suc zero) = 2
fewest (suc (suc zero)) = 3
fewest (suc (suc (suc h))) = fewest (suc (suc h)) + fewest h

fewest-suc-le : (h : ℕ) → fewest h ≤ fewest (suc h)
unfolding fewest
fewest-suc-le zero = omega arith
fewest-suc-le (suc zero) = omega arith
fewest-suc-le (suc (suc h)) = omega arith

fewest-double : (h : ℕ) → 2 * fewest h ≤ fewest (suc (suc (suc h)))
unfolding fewest
fewest-double h = omega (arith, fewest-suc-le h, fewest-suc-le (suc h))

fewest_mono : (n m : ℕ) → m ≤ n → fewest m ≤ fewest n
fewest_mono zero zero h = omega arith
fewest_mono zero (suc m) h = absurd (omega arith)
fewest_mono (suc n) m h = ground (arith, fewest_mono n m, fewest-suc-le n)

one-le-fewest : (h : ℕ) → 1 ≤ fewest h
one-le-fewest h = let m = fewest_mono h zero (omega arith) in unfold fewest in omega arith

fewest-suc : (m n : ℕ) → m ≤ n + 2 → n ≤ m → fewest (suc m) ≤ fewest m + fewest n
unfolding fewest
fewest-suc zero n p q = omega (arith, one-le-fewest n)
fewest-suc (suc zero) n p q = omega (arith, one-le-fewest n)
fewest-suc (suc (suc m)) n p q = omega (arith, fewest_mono n m (omega arith))

fewest-triple : (k : ℕ) → 2 ^ k ≤ fewest (3 * k)
unfolding fewest
fewest-triple zero = omega arith
fewest-triple (suc k) =
    let e : 3 * suc k ≡ suc (suc (suc (3 * k))) = omega arith in
    rw e (omega (arith, pow-suc 2 k, fewest-triple k, fewest-double (3 * k)))

-- What the larger child and the other give together.
fewest-node : (m n h : ℕ) → h ≡ max m n + 1 → m ≤ n + 2 → n ≤ m + 2 → fewest h ≤ fewest m + fewest n
fewest-node m n h e p q = elim sides [
  | inl s ↦ let e' : h ≡ suc m = omega arith in rw e' (fewest-suc m n p s)
  | inr s ↦ let e' : h ≡ suc n = omega arith in rw e' (omega (arith, fewest-suc n m q s))
]
  where
    sides : (n ≤ m) ⊎ (m ≤ n)
    sides = grind arith

fewest-le-size {ℓ} : {A : Type ℓ} (t : Tree A) → IsBalanced t → fewest (height t) ≤ size t + 1
unfolding size fewest
fewest-le-size terminator b = omega arith
fewest-le-size (node l r v h) b = omega (
  arith,
  fewest-node (height l) (height r) h b.0 b.1 b.2,
  fewest-le-size l b.3,
  fewest-le-size r b.4,
)

-- A balanced tree whose cached height is `3 * k` or more has at least `2 ^ k - 1` values.
pub two-pow-le-size {ℓ} :
    {A : Type ℓ} (t : Tree A) (k : ℕ) → IsBalanced t → 3 * k ≤ height t → 2 ^ k ≤ size t + 1
two-pow-le-size t k b h =
    omega (arith, fewest-triple k, fewest_mono (height t) (3 * k) h, fewest-le-size t b)
