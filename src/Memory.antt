-- ===== src/Memory.antt =====
-- klee/lib/Core/AddressSpace.cpp: the objects of a state, shared between states until one writes.
-- Object states live in a heap and are named by their place in it. `none` is a failed assertion.
pub mod Heap
pub mod Resolve
pub mod Isolation
mod Examples
use xklee.Base.{
  ℕ, zero, suc, ◌+◌, ◌-◌, ◌%◌, ◌^◌, Bool, true, false, ◌&&◌, ◌||◌, Option, none, some, List, [],
  ◌∷◌, ◌++◌, ◌==◌, ltb, if◌then◌else◌, length,
}
use xklee.Base.Order.{nat_order}
use xklee.Solver.{◌>>=◌}
use xklee.ImmutableTree.{Tree, terminator, replace, remove, lookup, lookup_previous}

pub record MemoryObject : Type 0 where
  pub address : ℕ
  pub size : ℕ

-- Of `ObjectState`, what ownership needs, and the contents.
pub record ObjectState : Type 0 where
  pub copy_on_write_owner : ℕ
  pub read_only : Bool
  pub concrete_store : List ℕ

-- `ObjectState(const ObjectState&)`: a copy has no owner and can be written.
abbrev pub copy : ObjectState → ObjectState
copy os = record { copy_on_write_owner = 0; read_only = false; concrete_store = os.concrete_store }

abbrev pub owned_by : ℕ → ObjectState → ObjectState
owned_by key os = record {
  copy_on_write_owner = key;
  read_only = os.read_only;
  concrete_store = os.concrete_store;
}

abbrev pub get_elem? : List ObjectState → ℕ → Option ObjectState
get_elem? [] i = none
get_elem? (os ∷ heap) zero = some os
get_elem? (os ∷ heap) (suc i) = get_elem? heap i

abbrev pub set_elem : List ObjectState → ℕ → ObjectState → List ObjectState
set_elem [] i os = []
set_elem (os' ∷ heap) zero os = os ∷ heap
set_elem (os' ∷ heap) (suc i) os = os' ∷ set_elem heap i os

-- The key order `MemoryObjectLT` compares addresses.
abbrev pub address_of : MemoryObject × ℕ → ℕ
address_of entry = (entry.0).address

pub record AddressSpace : Type 0 where
  pub cow_key : ℕ
  pub objects : Tree (MemoryObject × ℕ)

-- `AddressSpace()`.
abbrev pub new_space : AddressSpace
new_space = record { cow_key = 1; objects = terminator }

-- `AddressSpace(const AddressSpace &b)`, with `b` afterwards and the new space.
unfoldable pub fork : AddressSpace → AddressSpace × AddressSpace
fork b =
    let key = (b.cow_key + 1) % 2 ^ 32 in
    (record { cow_key = key; objects = b.objects }, record { cow_key = key; objects = b.objects })

unfoldable pub bind_object :
    MemoryObject → ℕ → List ObjectState × AddressSpace → Option (List ObjectState × AddressSpace)
bind_object mo os (heap, space) = get_elem? heap os >>= λ object.
    if object.copy_on_write_owner == 0
    then some (
      set_elem heap os (owned_by space.cow_key object),
      record {
        cow_key = space.cow_key;
        objects = replace address_of nat_order (mo, os) space.objects;
      },
    )
    else none

unfoldable pub unbind_object : MemoryObject → AddressSpace → AddressSpace
unbind_object mo space = record {
  cow_key = space.cow_key;
  objects = remove address_of nat_order mo.address space.objects;
}

unfoldable pub find_object : MemoryObject → AddressSpace → Option ℕ
find_object mo space =
    lookup address_of nat_order mo.address space.objects >>= λ entry. some entry.1

-- `getWriteable`, with the object state that is returned.
unfoldable pub get_writeable :
    MemoryObject
    → ℕ
    → List ObjectState × AddressSpace
    → Option (ℕ × List ObjectState × AddressSpace)
get_writeable mo os (heap, space) = get_elem? heap os >>= λ object.
    if object.read_only
    then none
    else (if space.cow_key == object.copy_on_write_owner
        then some (os, heap, space)
        else some (
          length heap,
          heap ++ (owned_by space.cow_key (copy object) ∷ []),
          record {
            cow_key = space.cow_key;
            objects = replace address_of nat_order (mo, length heap) space.objects;
          },
        ))

-- Subtraction of `uint64_t`.
abbrev pub sub64 : ℕ → ℕ → ℕ
sub64 a b = (a + (2 ^ 64 - b)) % 2 ^ 64

-- The test on the object before the address.
abbrev pub is_hit : ℕ → MemoryObject × ℕ → Bool
is_hit address (mo, os) =
    (mo.size == 0 && address == mo.address) || ltb (sub64 address mo.address) mo.size

-- `resolveOne` of a constant address.
unfoldable pub resolve_one : ℕ → AddressSpace → Option (MemoryObject × ℕ)
resolve_one address space = lookup_previous address_of nat_order address space.objects >>= λ res.
    if is_hit address res then some res else none
