-- ===== src/Memory/Examples.antt =====
-- The laws of Memory at a state with two objects.
use xklee.Base.{ℕ, ◌<◌, ◌≡◌, refl, ap, false, some, List, [], ◌∷◌, arith, inl, inr}
use xklee.Base.Order.{nat_order}
use xklee.ImmutableTree.{terminator, node}
use xklee.ImmutableTree.Elements.{elements}
use xklee.ImmutableTree.Ordered.{IsOrdered}
use xklee.Memory.{
  MemoryObject, ObjectState, AddressSpace, address_of, fork, get_writeable, resolve_one,
}
use xklee.Memory.Resolve.{AreApart, Resolved, resolve_one-Resolved}
use xklee.Memory.Isolation.{
  IsValid, AreSeparate, IsIsolated, get_writeable-IsIsolated, fork-AreSeparate,
}

abbrev buffer : MemoryObject
buffer = record { address = 100; size = 8 }

abbrev table : MemoryObject
table = record { address = 200; size = 16 }

abbrev bytes : ObjectState
bytes = record { copy_on_write_owner = 1; read_only = false; concrete_store = 0 ∷ 7 ∷ [] }

abbrev heap : List ObjectState
heap = bytes ∷ bytes ∷ []

abbrev space : AddressSpace
space = record {
  cow_key = 2;
  objects = node (node terminator terminator (buffer, 0) 1) terminator (table, 1) 2;
}

space-IsOrdered : IsOrdered address_of nat_order space.objects
space-IsOrdered = ((refl, tt), (tt, tt))

space-AreApart : AreApart (elements space.objects)
space-AreApart = ((omega arith, tt), (tt, tt))

space-IsValid : IsValid heap space
space-IsValid p (inl e) = rw (← e) (bytes, refl, omega arith)
space-IsValid p (inr (inl e)) = rw (← e) (bytes, refl, omega arith)
space-IsValid p (inr (inr h)) = absurd h

bytes_owner :
    (object : ObjectState)
    → some bytes ≡ some object
    → (object.copy_on_write_owner < 2) × (object.copy_on_write_owner < 2)
bytes_owner object e =
    let same : bytes ≡ object = cc in
    let owner : 1 ≡ object.copy_on_write_owner = ap (λ x. x.copy_on_write_owner) same in
    (omega arith, omega arith)

space-AreSeparate : AreSeparate heap space space
space-AreSeparate p object (inl e) hb f = bytes_owner object (rw (← e) at f)
space-AreSeparate p object (inr (inl e)) hb f = bytes_owner object (rw (← e) at f)
space-AreSeparate p object (inr (inr h)) hb f = absurd h

resolve_one-Resolved_example : Resolved 207 (elements space.objects) (resolve_one 207 space)
resolve_one-Resolved_example =
    resolve_one-Resolved 207 space (omega arith) space-IsOrdered space-AreApart

fork-AreSeparate_example :
    IsValid heap (fork space).0
    × IsValid heap (fork space).1
    × AreSeparate heap (fork space).0 (fork space).1
fork-AreSeparate_example = fork-AreSeparate heap space (omega arith) space-IsValid

get_writeable-IsIsolated_example :
    (p : ℕ) × (heap' : List ObjectState) × (a' : AddressSpace) × (get_writeable table 1
        (heap, space)
      ≡ some (p, heap', a'))
    × IsIsolated heap space space p heap' a'
get_writeable-IsIsolated_example =
    get_writeable-IsIsolated heap space space table 1 bytes space-IsOrdered space-IsValid
      space-IsValid space-AreSeparate (inr (inl refl)) refl refl
