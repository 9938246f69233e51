-- ===== src/Queries/Sample.antt =====
-- A small language of queries (klee/include/klee/Solver.h) at which the laws of the solver chain
-- are tried: the tests of one byte against a bound and their negations.
use xklee.Base.{
  ℕ, ◌≡◌, ◌+◌, refl, Bool, true, false, not, ◌&&◌, [], ◌∷◌, ltb, ◌==◌, ==_iff, arith, Option, some,
  all, inl, inr,
}
use xklee.Solver.{Validity, valid, invalid, unknown}
use xklee.Queries.{Language, Query}
use xklee.Queries.Meaning.{Returns, IsTruth, IsVerdict}

pub data Test : Type 0 where
  below not_below : ℕ → Test

abbrev pub negate : Test → Test
negate (below n) = not_below n
negate (not_below n) = below n

abbrev pub precedes : Test → Test → Bool
precedes (below n) (not_below m) = true
precedes _ _ = false

abbrev pub same : Test → Test → Bool
same (below n) (below m) = n == m
same (not_below n) (not_below m) = n == m
same _ _ = false

abbrev pub holds : Test → ℕ → Bool
holds (below n) byte = ltb byte n
holds (not_below n) byte = not (ltb byte n)

pub holds-negate : (t : Test) (byte : ℕ) → holds (negate t) byte ≡ not (holds t byte)
holds-negate (below n) byte = refl
holds-negate (not_below n) byte = ground arith

pub same-eq : (a b : Test) → same a b ≡ true → a ≡ b
same-eq (below n) (below m) h = cc ((==_iff n m).0 h)
same-eq (not_below n) (not_below m) h = cc ((==_iff n m).0 h)
same-eq (below n) (not_below m) h = cc
same-eq (not_below n) (below m) h = cc

pub same_number-eq : (a b : ℕ) → (a == b) ≡ true → a ≡ b
same_number-eq a b h = (==_iff a b).0 h

-- The constraints `c` leave the two bytes `c` and `c + 4`.
abbrev pub bytes : Language ℕ Test ℕ
bytes = record {
  is_zero = negate;
  precedes = precedes;
  same_expr = same;
  same_constraints = ◌==◌;
  holds = holds;
  first = λ c. c;
  others = λ c. (c + 4) ∷ [];
  holds-is_zero = holds-negate;
  same_expr-eq = same-eq;
  same_constraints-eq = same_number-eq;
}

-- A solver that goes through both bytes.
abbrev pub truth : Query ℕ Test → Option Bool
truth q = some (all (holds q.expr) (q.constraints ∷ (q.constraints + 4) ∷ []))

abbrev pub verdict : Bool → Bool → Validity
verdict true true = valid
verdict false false = invalid
verdict _ _ = unknown

abbrev pub validity : Query ℕ Test → Option Validity
validity q = some (verdict (holds q.expr q.constraints) (holds q.expr (q.constraints + 4)))

at_bytes-IsTruth :
    (c : ℕ) (e : Test) (a b : Bool)
    → holds e c ≡ a
    → holds e (c + 4) ≡ b
    → Returns ⊥ (IsTruth bytes (record { constraints = c; expr = e })) (some (a && (b && true)))
at_bytes-IsTruth c e true true p q = (p, (q, tt))
at_bytes-IsTruth c e true false p q = inr (inl q)
at_bytes-IsTruth c e false b p q = inl p

pub truth_right : (q : Query ℕ Test) → Returns ⊥ (IsTruth bytes q) (truth q)
truth_right q =
    at_bytes-IsTruth q.constraints q.expr (holds q.expr q.constraints)
      (holds q.expr (q.constraints + 4)) refl refl

at_bytes-IsVerdict :
    (c : ℕ) (e : Test) (a b : Bool)
    → holds e c ≡ a
    → holds e (c + 4) ≡ b
    → Returns ⊥ (IsVerdict bytes (record { constraints = c; expr = e })) (some (verdict a b))
at_bytes-IsVerdict c e true true p q = (p, (q, tt))
at_bytes-IsVerdict c e false false p q = (p, (q, tt))
at_bytes-IsVerdict c e true false p q = (inl p, inr (inl q))
at_bytes-IsVerdict c e false true p q = (inr (inl q), inl p)

pub validity_right : (q : Query ℕ Test) → Returns ⊥ (IsVerdict bytes q) (validity q)
validity_right q =
    at_bytes-IsVerdict q.constraints q.expr (holds q.expr q.constraints)
      (holds q.expr (q.constraints + 4)) refl refl
