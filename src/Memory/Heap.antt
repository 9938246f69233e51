-- ===== src/Memory/Heap.antt =====
-- Reading and writing places of the heap of object states (klee/lib/Core/AddressSpace.cpp).
use xklee.Base.{ℕ, zero, suc, ◌<◌, ◌≡◌, ◌≢◌, refl, ap, some, List, [], ◌∷◌, ◌++◌, arith, length}
use xklee.Memory.{ObjectState, get_elem?, set_elem}

pub get_elem?-lt :
    (heap : List ObjectState) (i : ℕ) {os : ObjectState}
    → get_elem? heap i ≡ some os
    → i < length heap
get_elem?-lt [] i e = cc
get_elem?-lt (x ∷ heap) zero e = omega arith
get_elem?-lt (x ∷ heap) (suc i) e = omega (arith, get_elem?-lt heap i e)

pub get_elem?-set_elem_ne :
    (heap : List ObjectState) (i j : ℕ) (os : ObjectState)
    → i ≢ j
    → get_elem? (set_elem heap i os) j ≡ get_elem? heap j
get_elem?-set_elem_ne [] i j os ne = refl
get_elem?-set_elem_ne (x ∷ heap) zero zero os ne = absurd (ne refl)
get_elem?-set_elem_ne (x ∷ heap) zero (suc j) os ne = refl
get_elem?-set_elem_ne (x ∷ heap) (suc i) zero os ne = refl
get_elem?-set_elem_ne (x ∷ heap) (suc i) (suc j) os ne =
    get_elem?-set_elem_ne heap i j os (λ e. ne (ap suc e))

pub get_elem?-append :
    (heap more : List ObjectState) (i : ℕ)
    → i < length heap
    → get_elem? (heap ++ more) i ≡ get_elem? heap i
get_elem?-append [] more i h = absurd (omega arith)
get_elem?-append (x ∷ heap) more zero h = refl
get_elem?-append (x ∷ heap) more (suc i) h = get_elem?-append heap more i (omega arith)

pub get_elem?-new :
    (heap : List ObjectState) (os : ObjectState)
    → get_elem? (heap ++ (os ∷ [])) (length heap) ≡ some os
get_elem?-new [] os = refl
get_elem?-new (x ∷ heap) os = get_elem?-new heap os
