-- ===== src/ProcessTree.antt =====
-- klee/lib/Core/PTree.cpp: the tree of the states and their forks, as nodes in a heap. The address
-- of a node is the number of its allocation, so that a child has a greater one than its parent.
-- Conditions of forks are for the dump only.
pub mod Linked
pub mod Unlink
pub mod Remove
pub mod Split
mod Examples
use mathlib.Core.Option.{get_or}
use xklee.Base.{ℕ, zero, suc, Bool, true, false, not, ◌&&◌, Option, none, some, ◌==◌, if◌then◌else◌}
use xklee.Solver.{◌>>=◌}

pub record PTreeNode : Type 0 where
  pub parent : Option ℕ
  pub left : Option ℕ
  pub right : Option ℕ
  pub content : ℕ

abbrev pub Heap : Type 0
Heap = ℕ → Option PTreeNode

abbrev pub set_node : ℕ → Option PTreeNode → Heap → Heap
set_node i node heap j = if j == i then node else heap j

abbrev pub is_null : Option ℕ → Bool
is_null none = true
is_null (some a) = false

abbrev pub is_link : ℕ → Option ℕ → Bool
is_link n none = false
is_link n (some a) = a == n

-- `!n->left && !n->right`.
abbrev pub is_leaf : PTreeNode → Bool
is_leaf node = is_null node.left && is_null node.right

abbrev pub leaf_or : Option PTreeNode → Bool
leaf_or none = false
leaf_or (some node) = is_leaf node

abbrev pub leaf_at : Heap → ℕ → Bool
leaf_at heap n = leaf_or (heap n)

-- `split`; `left` and `right` are the addresses of the new nodes.
abbrev pub split : ℕ → ℕ → ℕ → ℕ → ℕ → Heap → Option Heap
split left right n left_data right_data heap = do
  node ← heap n
  if is_leaf node
      then some (
          set_node right
            (some (record { parent = some n; left = none; right = none; content = right_data }))
            (set_node left
              (some (record { parent = some n; left = none; right = none; content = left_data }))
              (set_node n (some (record node { left = some left; right = some right })) heap)))
      else none

-- The link of the parent to `n` is cleared; it has one.
abbrev pub unlink : ℕ → PTreeNode → Option PTreeNode
unlink n p =
    if is_link n p.left
    then some (record p { left = none })
    else (if is_link n p.right then some (record p { right = none }) else none)

-- The body of the loop of `remove`, with the node it goes on to.
abbrev pub delete_and_unlink : Option ℕ → ℕ → Heap → Option (Heap × Option ℕ)
delete_and_unlink none n heap = some (set_node n none heap, none)
delete_and_unlink (some p) n heap = do
  parent ← set_node n none heap p
  cleared ← unlink n parent
  some (set_node p (some cleared) (set_node n none heap), some p)

abbrev pub goes_on : Heap × Option ℕ → Bool
goes_on (heap, none) = false
goes_on (heap, some n) = leaf_at heap n

unfoldable pub remove_from : ℕ → ℕ → Heap → Option Heap
remove_from zero n heap = none
remove_from (suc fuel) n heap = do
  node ← heap n
  next ← delete_and_unlink node.parent n heap
  (let rest = remove_from fuel (get_or next.1 0) next.0 in
      if goes_on next then rest else some next.0)

-- `remove`. Parents are older, which bounds the turns.
unfoldable pub remove : ℕ → Heap → Option Heap
unfolding remove_from
remove n heap = if leaf_at heap n then remove_from (suc n) n heap else none
