-- ===== src/Assignments.antt =====
-- klee/include/klee/util/Assignment.h: values for the bytes of the symbolic arrays. An array is its
-- number and an expression of width 1 is its place in the order of `Expr::compare`; what an
-- expression is worth under values for all bytes is a parameter of the modules that use this one.
use xklee.Base.{ℕ, zero, suc, Bool, Option, none, some, List, [], ◌∷◌, ◌==◌, if◌then◌else◌, all}

-- `bindings`, where the assignments have no free values.
abbrev pub Assignment : Type 0
Assignment = List (ℕ × List ℕ)

-- A byte for each index of each array.
abbrev pub Bytes : Type 0
Bytes = ℕ → ℕ → ℕ

abbrev pub byte_at : List ℕ → ℕ → ℕ
byte_at [] index = 0
byte_at (b ∷ bytes) zero = b
byte_at (b ∷ bytes) (suc index) = byte_at bytes index

-- `bindings.find(array)`.
abbrev pub find_binding : ℕ → Assignment → Option (List ℕ)
find_binding array [] = none
find_binding array ((a, bytes) ∷ bindings) =
    let rest = find_binding array bindings in if a == array then some bytes else rest

abbrev pub bytes_of : Option (List ℕ) → ℕ → ℕ
bytes_of none index = 0
bytes_of (some bytes) index = byte_at bytes index

-- `evaluate` of a byte: 0 for an array without values and behind the end of the values.
abbrev pub evaluate : Assignment → Bytes
evaluate bindings array index = bytes_of (find_binding array bindings) index

-- The constructor from two vectors. `insert` keeps the first values of an array.
abbrev pub assignment : List ℕ → List (List ℕ) → Assignment
assignment (array ∷ objects) (bytes ∷ values) = (array, bytes) ∷ assignment objects values
assignment _ _ = []

-- `satisfies`.
abbrev pub satisfies : (ℕ → Bytes → Bool) → Assignment → List ℕ → Bool
satisfies holds a key = all (λ e. holds e (evaluate a)) key
