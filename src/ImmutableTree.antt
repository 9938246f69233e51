-- ===== src/ImmutableTree.antt =====
-- klee/include/klee/Internal/ADT/ImmutableTree.h: the persistent balanced tree under
-- `ImmutableSet` and `ImmutableMap`. A node keeps its height beside its children, as the source
-- does, so that the height is data that can be wrong. Nodes are shared and counted there
-- (`incref`, `decref`); a value that is never written to needs neither here.
pub mod Elements
pub mod Sorted
pub mod Ordered
pub mod Balanced
pub mod Find
mod Examples
use xklee.Base.{ℕ, ◌+◌, ◌≡◌, Bool, true, false, Option, none, some, if◌then◌else◌, ltb, leb, max}
use xklee.Base.Order.{KeyOrder}

-- `terminator` is the static sentinel; the fields of `node` are `left`, `right`, `value`, `height`.
pub data Tree {ℓ} (A : Type ℓ) : Type ℓ where
  terminator : Tree A
  node : Tree A → Tree A → A → ℕ → Tree A

module _ {ℓ} {A : Type ℓ} where
  -- The cached field, 0 in the terminator.
  abbrev pub height : Tree A → ℕ
  height terminator = 0
  height (node l r v h) = h

  -- `new Node(left, right, value)`.
  abbrev pub new_node : Tree A → Tree A → A → Tree A
  new_node l r v = node l r v (max (height l) (height r) + 1)

  -- Double rotation: `lr->height > ll->height`, so `lr` is no terminator.
  abbrev rotate_left_right : Tree A → A → Tree A → A → Tree A → Tree A
  rotate_left_right ll lv terminator v r = new_node (new_node ll terminator lv) r v
  rotate_left_right ll lv (node lrl lrr lrv _) v r =
      new_node (new_node ll lrl lv) (new_node lrr r v) lrv

  -- `left->height > right->height + 2`, so `left` is no terminator.
  abbrev balance_left : Tree A → A → Tree A → Tree A
  balance_left terminator v r = new_node terminator r v
  balance_left (node ll lr lv _) v r =
      if leb (height lr) (height ll)
      then new_node ll (new_node lr r v) lv
      else rotate_left_right ll lv lr v r

  abbrev rotate_right_left : Tree A → A → Tree A → A → Tree A → Tree A
  rotate_right_left l v terminator rv rr = new_node l (new_node terminator rr rv) v
  rotate_right_left l v (node rll rlr rlv _) rv rr =
      new_node (new_node l rll v) (new_node rlr rr rv) rlv

  abbrev balance_right : Tree A → A → Tree A → Tree A
  balance_right l v terminator = new_node l terminator v
  balance_right l v (node rl rr rv _) =
      if leb (height rl) (height rr)
      then new_node (new_node l rl v) rr rv
      else rotate_right_left l v rl rv rr

  pub balance : Tree A → A → Tree A → Tree A
  balance l v r =
      if ltb (height r + 2) (height l)
      then balance_left l v r
      else (if ltb (height l + 2) (height r) then balance_right l v r else new_node l r v)

  pub size : Tree A → ℕ
  size terminator = 0
  size (node l r v _) = size l + 1 + size r

  -- `popMin` of a node with these fields: the value written to `valueOut`, and the new tree.
  pub pop_min : Tree A → Tree A → A → A × Tree A
  pop_min terminator r v = (v, r)
  pop_min (node ll lr lv _) r v = let rest = pop_min ll lr lv in (rest.0, balance rest.1 v r)

  pub pop_max : Tree A → Tree A → A → A × Tree A
  pop_max l terminator v = (v, l)
  pop_max l (node rl rr rv _) v = let rest = pop_max rl rr rv in (rest.0, balance l v rest.1)

  -- What `remove` puts in the place of a removed node.
  pub join : Tree A → Tree A → Tree A
  join terminator r = r
  join l terminator = l
  join l (node rl rr rv _) = let rest = pop_min rl rr rv in balance l rest.0 rest.1

  -- `min()`; `none` where the source asserts.
  pub tree_min : Tree A → Option A
  tree_min terminator = none
  tree_min (node terminator r v _) = some v
  tree_min (node (node ll lr lv lh) r v _) = tree_min (node ll lr lv lh)

  pub tree_max : Tree A → Option A
  tree_max terminator = none
  tree_max (node l terminator v _) = some v
  tree_max (node l (node rl rr rv rh) v _) = tree_max (node rl rr rv rh)

-- `key` is `key_of_value`, and the order is `key_compare`.
module _ {ℓ κ} {A : Type ℓ} {K : Type κ} (key : A → K) (o : KeyOrder K) where
  open o use {less}

  pub insert : A → Tree A → Tree A
  insert v terminator = new_node terminator terminator v
  insert v (node l r x h) =
      let to_left = balance (insert v l) x r in
      let to_right = balance l x (insert v r) in
      if less (key v) (key x)
      then to_left
      else (if less (key x) (key v) then to_right else node l r x h)

  pub replace : A → Tree A → Tree A
  replace v terminator = new_node terminator terminator v
  replace v (node l r x h) =
      let to_left = balance (replace v l) x r in
      let to_right = balance l x (replace v r) in
      if less (key v) (key x)
      then to_left
      else (if less (key x) (key v) then to_right else new_node l r v)

  pub remove : K → Tree A → Tree A
  remove k terminator = terminator
  remove k (node l r x h) =
      let from_left = balance (remove k l) x r in
      let from_right = balance l x (remove k r) in
      if less k (key x) then from_left else (if less (key x) k then from_right else join l r)

  pub lookup : K → Tree A → Option A
  lookup k terminator = none
  lookup k (node l r x _) =
      let in_left = lookup k l in
      let in_right = lookup k r in
      if less k (key x) then in_left else (if less (key x) k then in_right else some x)

  pub count : K → Tree A → ℕ
  count k terminator = 0
  count k (node l r x _) =
      let in_left = count k l in
      let in_right = count k r in
      if less k (key x) then in_left else (if less (key x) k then in_right else 1)

  -- The loop of `lookup_previous`, with its variable `result`.
  previous_from : Option A → K → Tree A → Option A
  previous_from result k terminator = result
  previous_from result k (node l r x _) =
      let in_left = previous_from result k l in
      let in_right = previous_from (some x) k r in
      if less k (key x) then in_left else (if less (key x) k then in_right else some x)

  pub lookup_previous : K → Tree A → Option A
  unfolding previous_from
  lookup_previous k t = previous_from none k t
