-- ===== src/Memory/Resolve.antt =====
-- `resolveOne` of klee/lib/Core/AddressSpace.cpp at a constant address.
use xklee.Base.{
  ℕ, ◌+◌, ◌-◌, ◌^◌, ◌<◌, ◌≤◌, ◌≡◌, refl, Bool, true, false, ◌&&◌, ◌||◌, Option, none, some, List,
  [], ◌∷◌, ◌++◌, ◌==◌, ltb, leb, if◌then◌else◌, arith, All, Any, All-map, All-append,
  All-append_right, inl, inr, Bool-cases,
}
use xklee.Base.Order.{nat_order}
use xklee.Solver.{◌>>=◌}
use xklee.ImmutableTree.{lookup_previous}
use xklee.ImmutableTree.Elements.{elements}
use xklee.ImmutableTree.Sorted.{IsSorted, IsSorted-Below}
use xklee.ImmutableTree.Sorted.Previous.{Scanned, unchanged, found, IsPrevious}
use xklee.ImmutableTree.Ordered.{IsOrdered}
use xklee.ImmutableTree.Find.{lookup_previous-Scanned}
use xklee.Memory.{MemoryObject, AddressSpace, address_of, sub64, is_hit, resolve_one}

abbrev pub Entry : Type 0
Entry = MemoryObject × ℕ

-- The address lies in the object, or is that of an object without bytes.
abbrev pub covers : ℕ → Entry → Bool
covers address (mo, os) =
    (mo.size == 0 && address == mo.address)
    || (leb mo.address address && ltb address (mo.address + mo.size))

-- Each object ends before the later ones begin.
abbrev pub AreApart : List Entry → Type 0
AreApart [] = Unit
AreApart (x ∷ xs) = All (λ y. (x.0).address + (x.0).size ≤ (y.0).address) xs × AreApart xs

sub64-eq : (a b : ℕ) → a < 2 ^ 64 → b ≤ a → sub64 a b ≡ a - b
sub64-eq a b h l = omega arith

is_hit-eq-covers :
    (address : ℕ) (x : Entry)
    → address < 2 ^ 64
    → (x.0).address ≤ address
    → is_hit address x ≡ covers address x
is_hit-eq-covers address (mo, os) h l =
    let difference = sub64-eq address mo.address h l in ground arith

AreApart-before :
    (before : List Entry) (x : Entry) (behind : List Entry)
    → AreApart (before ++ (x ∷ behind))
    → All (λ y. (y.0).address + (y.0).size ≤ (x.0).address) before
AreApart-before [] x behind a = tt
AreApart-before (y ∷ before) x behind a = (
  (All-append_right (λ z. (y.0).address + (y.0).size ≤ (z.0).address) before (x ∷ behind) a.0).0,
  AreApart-before before x behind a.1,
)

Any-append_right : (P : Entry → Type 0) (xs ys : List Entry) → Any P ys → Any P (xs ++ ys)
Any-append_right P [] ys a = a
Any-append_right P (x ∷ xs) ys a = inr (Any-append_right P xs ys a)

All-both :
    (P Q R : Entry → Type 0) (xs : List Entry)
    → ((x : Entry) → P x → Q x → R x)
    → All P xs
    → All Q xs
    → All R xs
All-both P Q R [] f p q = tt
All-both P Q R (x ∷ xs) f p q = (f x p.0 q.0, All-both P Q R xs f p.1 q.1)

abbrev pub Resolved : ℕ → List Entry → Option Entry → Type 0
Resolved address entries none = All (λ x. covers address x ≡ false) entries
Resolved address entries (some x) = Any (λ y. y ≡ x) entries × (covers address x ≡ true)

above-covers :
    (address : ℕ) (x : Entry) → ltb address (address_of x) ≡ true → covers address x ≡ false
above-covers address x h = ground arith

before-covers :
    (address bound : ℕ) (x : Entry)
    → bound ≤ address
    → (x.0).address + (x.0).size ≤ bound
    → ltb (address_of x) bound ≡ true
    → covers address x ≡ false
before-covers address bound x h e l = ground arith

IsPrevious-Resolved :
    (address : ℕ) (entries : List Entry) (x : Entry)
    → address < 2 ^ 64
    → IsSorted address_of nat_order entries
    → AreApart entries
    → IsPrevious address_of nat_order address entries x
    → Resolved address entries (if is_hit address x then some x else none)
IsPrevious-Resolved address entries x h s a p =
    let before = p.before in
    let behind = p.behind in
    let at_most : (x.0).address ≤ address = let n = p.not_after in ground arith in
    let same = is_hit-eq-covers address x h at_most in
    elim (Bool-cases (covers address x)) [
      | inl e ↦
          rw (same, e)
            (rw p.splits (Any-append_right (λ y. y ≡ x) before (x ∷ behind) (inl refl)), e)
      | inr e ↦
          let s' : IsSorted address_of nat_order (before ++ (x ∷ behind)) = rw p.splits at s in
          let a' : AreApart (before ++ (x ∷ behind)) = rw p.splits at a in
          rw (same, e, p.splits)
            (All-append (λ y. covers address y ≡ false) before (x ∷ behind)
              (All-both (λ y. (y.0).address + (y.0).size ≤ (x.0).address)
                (λ y. ltb (address_of y) (address_of x) ≡ true) (λ y. covers address y ≡ false)
                before (λ y. before-covers address (x.0).address y at_most)
                (AreApart-before before x behind a')
                (IsSorted-Below address_of nat_order before x behind s'))
              (e, All-map (above-covers address) behind p.all_after))
    ]

Scanned-Resolved :
    (address : ℕ) (entries : List Entry) (o : Option Entry)
    → address < 2 ^ 64
    → IsSorted address_of nat_order entries
    → AreApart entries
    → Scanned address_of nat_order address entries none o
    → Resolved address entries (o >>= λ res. if is_hit address res then some res else none)
Scanned-Resolved address entries o h s a (unchanged above) =
    All-map (above-covers address) entries above
Scanned-Resolved address entries o h s a (found x p) = IsPrevious-Resolved address entries x h s a p

-- For a 64-bit address, in an ordered space whose objects each end before the later ones
-- begin, `resolve_one` returns an object of the space that covers the address, or fails when
-- none does.
pub resolve_one-Resolved :
    (address : ℕ) (space : AddressSpace)
    → address < 2 ^ 64
    → IsOrdered address_of nat_order space.objects
    → AreApart (elements space.objects)
    → Resolved address (elements space.objects) (resolve_one address space)
unfolding resolve_one
resolve_one-Resolved address space h s a =
    Scanned-Resolved address (elements space.objects)
      (lookup_previous address_of nat_order address space.objects) h s a
      (lookup_previous-Scanned address_of nat_order address space.objects s)
