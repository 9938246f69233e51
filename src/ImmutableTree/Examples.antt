-- ===== src/ImmutableTree/Examples.antt =====
-- A map from numbers to numbers, as the witness of the theorems, and runs of the operations.
use xklee.Base.{ℕ, ◌≡◌, refl, none, some, arith}
use xklee.Base.Order.{nat_order}
use xklee.ImmutableTree.{
  Tree, terminator, node, balance, insert, replace, remove, lookup, lookup_previous, previous_from,
  pop_min, join,
}
use xklee.ImmutableTree.Elements.{elements}
use xklee.ImmutableTree.Sorted.{insert_sorted, remove_sorted, find}
use xklee.ImmutableTree.Sorted.Previous.{Scanned}
use xklee.ImmutableTree.Ordered.{IsOrdered, elements-insert, elements-remove, lookup-eq-find}
use xklee.ImmutableTree.Find.{lookup-replace, lookup_previous-Scanned}
use xklee.ImmutableTree.Balanced.{IsBalanced}
use xklee.ImmutableTree.Balanced.Operations.{
  insert-Grows, replace-Grows, remove-Shrinks, Grows, Shrinks,
}

abbrev key : ℕ × ℕ → ℕ
key p = p.0

abbrev leaf : ℕ → ℕ → Tree (ℕ × ℕ)
leaf k v = node terminator terminator (k, v) 1

abbrev sample : Tree (ℕ × ℕ)
sample = node (leaf 10 1) (node terminator (leaf 40 4) (30, 3) 2) (20, 2) 3

sample-IsOrdered : IsOrdered key nat_order sample
sample-IsOrdered = ground arith

sample-IsBalanced : IsBalanced sample
sample-IsBalanced = omega arith

elements-insert_example :
    elements (insert key nat_order (35, 9) sample)
    ≡ insert_sorted key nat_order (35, 9) (elements sample)
elements-insert_example = elements-insert key nat_order (35, 9) sample sample-IsOrdered

elements-remove_example :
    elements (remove key nat_order 20 sample) ≡ remove_sorted key nat_order 20 (elements sample)
elements-remove_example = elements-remove key nat_order 20 sample sample-IsOrdered

lookup-eq-find_example : lookup key nat_order 30 sample ≡ find key nat_order 30 (elements sample)
lookup-eq-find_example = lookup-eq-find key nat_order 30 sample sample-IsOrdered

lookup-replace_example :
    lookup key nat_order 30 (replace key nat_order (30, 9) sample) ≡ some (30, 9)
lookup-replace_example = lookup-replace key nat_order 30 (30, 9) sample sample-IsOrdered

lookup_previous-Scanned_example :
    Scanned key nat_order 35 (elements sample) none (lookup_previous key nat_order 35 sample)
lookup_previous-Scanned_example = lookup_previous-Scanned key nat_order 35 sample sample-IsOrdered

insert-Grows_example : Grows 3 (insert key nat_order (50, 5) sample)
insert-Grows_example = insert-Grows key nat_order (50, 5) sample sample-IsBalanced

replace-Grows_example : Grows 3 (replace key nat_order (50, 5) sample)
replace-Grows_example = replace-Grows key nat_order (50, 5) sample sample-IsBalanced

remove-Shrinks_example : Shrinks 3 (remove key nat_order 20 sample)
remove-Shrinks_example = remove-Shrinks key nat_order 20 sample sample-IsBalanced

-- Removing the root pulls the least value of the right side up.
remove_root : remove key nat_order 20 sample ≡ node (leaf 10 1) (leaf 40 4) (30, 3) 2
unfolding remove join pop_min balance
remove_root = refl

previous_of_35 : lookup_previous key nat_order 35 sample ≡ some (30, 3)
unfolding lookup_previous previous_from
previous_of_35 = refl
