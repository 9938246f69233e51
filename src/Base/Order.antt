-- ===== src/Base/Order.antt =====
-- The key order that the containers are generic in: `std::less` and its like, a strict weak order.
use mathlib.Core.Path.{◌≡◌}
use mathlib.Core.Bool.{Bool, true, false}
use mathlib.Core.Logic.{inl, inr}
use native.Mathlib.Omega.{arith}
use xklee.Base.Tests.{ltb, Bool-cases}
use Prim.Native.Nat.{ℕ}

pub record KeyOrder {κ} (K : Type κ) : Type κ where
  pub less : K → K → Bool
  pub less_irrefl : (a : K) → less a a ≡ false
  pub less_trans : (a b c : K) → less a b ≡ true → less b c ≡ true → less a c ≡ true
  -- Incomparability is transitive, in the form that proofs use.
  pub less_split : (a b c : K) → less a c ≡ true → less b c ≡ false → less a b ≡ true

pub nat_irrefl : (a : ℕ) → ltb a a ≡ false
nat_irrefl a = ground arith

pub nat_trans : (a b c : ℕ) → ltb a b ≡ true → ltb b c ≡ true → ltb a c ≡ true
nat_trans a b c p q = ground arith

pub nat_split : (a b c : ℕ) → ltb a c ≡ true → ltb b c ≡ false → ltb a b ≡ true
nat_split a b c p q = ground arith

-- `std::less<unsigned>`.
abbrev pub nat_order : KeyOrder ℕ
nat_order = record {
  less = ltb;
  less_irrefl = nat_irrefl;
  less_trans = nat_trans;
  less_split = nat_split;
}

module _ {κ} {K : Type κ} (o : KeyOrder K) where
  open o use {less, less_irrefl, less_trans, less_split}

  -- Neither key comes before the other.
  abbrev pub Equivalent : K → K → Type 0
  Equivalent a b = (less a b ≡ false) × (less b a ≡ false)

  pub less_asymm : (a b : K) → less a b ≡ true → less b a ≡ false
  less_asymm a b h = elim (Bool-cases (less b a)) [
    | inl back ↦ cc (less_trans a b a h back, less_irrefl a)
    | inr e ↦ e
  ]

  -- a < b and b no later than c give a < c.
  pub less_trans_right : (a b c : K) → less a b ≡ true → less c b ≡ false → less a c ≡ true
  less_trans_right a b c h e = less_split a c b h e

  -- a no later than b and b < c give a < c.
  pub less_trans_left : (a b c : K) → less b a ≡ false → less b c ≡ true → less a c ≡ true
  less_trans_left a b c e h = elim (Bool-cases (less a c)) [
    | inl p ↦ p
    | inr p ↦ cc (less_split b a c h p)
  ]
