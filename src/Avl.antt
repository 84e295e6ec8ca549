-- ===== src/Avl.antt =====
-- avl.c: AVL trees whose nodes are also threaded on a list in key order.
-- A node is known by its `id` (its address). The tree holds the leaders, the list holds all nodes.
-- A node's parent pointers are the `Way` from it to the root, so a function that climbs by
-- `node->parent` recurs on the path, and returns the whole tree.
pub mod Insert
pub mod Invariant
pub mod Insertion
pub mod Delete
mod Shrink
mod Removal
mod Worker
pub mod Deletion
pub mod Order
pub mod Find
pub mod Lookup
pub mod Update
mod Nearest
mod Balance
mod Tests
use openwrt_libubox.Prelude.{
  ℕ, zero, suc, ◌+◌, ◌-◌, List, [], ◌∷◌, ◌++◌, Option, none, some, Bool, true, false, ◌==◌, ◌&&◌,
  if◌then◌else◌, leb, ltb,
}
use openwrt_libubox.Prelude.Int.{ℤ, pos, negsuc, eq_ℤ, ◌+ℤ◌, ◌-ℤ◌, pos_part, neg_part}
use Prim.Native.Nat.{Ordering}
use Prim.Native.Nat.Ordering.{lt, eq, gt}

-- `struct avl_node` but for its links and balance.
pub record Node {ℓ} (K : Type ℓ) : Type ℓ where
  pub id : ℕ
  pub key : K
  pub leader : Bool

-- The subtree below a node pointer, with each node's balance; `leaf` is NULL.
pub data Tree {ℓ} (K : Type ℓ) : Type ℓ where
  leaf : Tree K
  node : Tree K → Node K → ℤ → Tree K → Tree K

-- The way up from a subtree: it is the left child of a node, or the right child.
pub data Way {ℓ} (K : Type ℓ) : Type ℓ where
  top : Way K
  in_left : Node K → ℤ → Tree K → Way K → Way K
  in_right : Tree K → Node K → ℤ → Way K → Way K

-- `struct avl_tree`; `count`, an unsigned int, is an unbounded number.
pub record AvlTree {ℓ} (K : Type ℓ) : Type ℓ where
  pub root : Tree K
  pub list : List (Node K)
  pub count : ℕ
  pub allow_dups : Bool

-- The sign of an int.
abbrev pub sign : ℤ → Ordering
sign (negsuc n) = lt
sign (pos zero) = eq
sign (pos (suc n)) = gt

abbrev pub avl_max : ℤ → ℤ → ℤ
avl_max x y = elim (sign (x -ℤ y)) [ gt ↦ x | _ ↦ y ]

abbrev pub avl_min : ℤ → ℤ → ℤ
avl_min x y = elim (sign (x -ℤ y)) [ lt ↦ x | _ ↦ y ]

module _ {ℓ} {K : Type ℓ} where
  unfoldable pub avl_init : Bool → AvlTree K
  avl_init allow_dups = record { root = leaf; list = []; count = 0; allow_dups = allow_dups }

  abbrev pub plug : Way K → Tree K → Tree K
  plug top t = t
  plug (in_left x b r up) t = plug up (node t x b r)
  plug (in_right l x b up) t = plug up (node l x b t)

  -- `node->balance`, of a node that is there.
  abbrev pub balance : Tree K → ℤ
  balance leaf = pos 0
  balance (node l x b r) = b

  -- The two rotations, on the subtree at `node`; its left (right) child is there.
  unfoldable pub avl_rotate_right : Tree K → Tree K
  unfolding ◌+ℤ◌ ◌-ℤ◌
  avl_rotate_right (node (node ll left lb lr) x b r) =
      let b' = b +ℤ (pos 1 -ℤ avl_min lb (pos 0)) in
      let lb' = lb +ℤ (pos 1 +ℤ avl_max b' (pos 0)) in node ll left lb' (node lr x b' r)
  avl_rotate_right t = t

  unfoldable pub avl_rotate_left : Tree K → Tree K
  unfolding ◌+ℤ◌ ◌-ℤ◌
  avl_rotate_left (node l x b (node rl right rb rr)) =
      let b' = b -ℤ (pos 1 +ℤ avl_max rb (pos 0)) in
      let rb' = rb -ℤ (pos 1 -ℤ avl_min b' (pos 0)) in node (node l x b' rl) right rb' rr
  avl_rotate_left t = t

  -- `post_insert(tree, node)`: the subtree at `node` has grown.
  unfoldable pub post_insert : Way K → Tree K → Tree K
  unfolding avl_rotate_left avl_rotate_right ◌+ℤ◌ ◌-ℤ◌
  post_insert top t = t
  post_insert (in_left x b r up) t =
      let b' = b -ℤ pos 1 in
      let climbed = post_insert up (node t x b' r) in
      if eq_ℤ b' (pos 0)
      then plug up (node t x b' r)
      else if eq_ℤ b' (negsuc 0)
      then climbed
      else if eq_ℤ (balance t) (negsuc 0)
      then plug up (avl_rotate_right (node t x b' r))
      else plug up (avl_rotate_right (node (avl_rotate_left t) x b' r))
  post_insert (in_right l x b up) t =
      let b' = b +ℤ pos 1 in
      let climbed = post_insert up (node l x b' t) in
      if eq_ℤ b' (pos 0)
      then plug up (node l x b' t)
      else if eq_ℤ b' (pos 1)
      then climbed
      else if eq_ℤ (balance t) (pos 1)
      then plug up (avl_rotate_left (node l x b' t))
      else plug up (avl_rotate_left (node l x b' (avl_rotate_right t)))

-- The thread: `list_add_tail(&node->list, &pos->list)` and `list_add(&node->list, &pos->list)`.
module _ {ℓ} {K : Type ℓ} where
  unfoldable pub insert_before : ℕ → Node K → List (Node K) → List (Node K)
  insert_before p new [] = []
  insert_before p new (x ∷ xs) = if x.id == p then new ∷ x ∷ xs else x ∷ insert_before p new xs

  unfoldable pub insert_after : ℕ → Node K → List (Node K) → List (Node K)
  insert_after p new [] = []
  insert_after p new (x ∷ xs) = if x.id == p then x ∷ new ∷ xs else x ∷ insert_after p new xs

  unfoldable pub list_del : ℕ → List (Node K) → List (Node K)
  list_del p [] = []
  list_del p (x ∷ xs) = if x.id == p then xs else x ∷ list_del p xs

  -- The walk over the nodes of one key that follow their leader.
  run_of : ℕ → List (Node K) → ℕ
  run_of last [] = last
  run_of last (x ∷ xs) = let rest = run_of x.id xs in if x.leader then last else rest

  unfoldable pub last_of : ℕ → List (Node K) → ℕ
  unfolding run_of
  last_of p [] = p
  last_of p (x ∷ xs) = if x.id == p then run_of p xs else last_of p xs

-- What `avl_find_rec` stops at: a node, in its place, and the last comparison.
pub record Focus {ℓ} (K : Type ℓ) : Type ℓ where
  pub left : Tree K
  pub self : Node K
  pub bal : ℤ
  pub right : Tree K
  pub up : Way K
  pub diff : ℤ

abbrev or_here {ℓ} : {A : Type ℓ} → Option A → A → A
or_here none x = x
or_here (some y) x = y

module _ {ℓ} {K : Type ℓ} (comp : K → K → ℤ) where
  -- NULL gives none; the search ends at the node whose child on the key's side is NULL.
  unfoldable pub avl_find_rec : K → Tree K → Way K → Option (Focus K)
  avl_find_rec k leaf up = none
  avl_find_rec k (node l x b r) up =
      let here : Focus K = record {
        left = l;
        self = x;
        bal = b;
        right = r;
        up = up;
        diff = comp k x.key;
      } in
      elim (sign (comp k x.key)) [
        | lt ↦ some (or_here (avl_find_rec k l (in_left x b r up)) here)
        | eq ↦ some here
        | gt ↦ some (or_here (avl_find_rec k r (in_right l x b up)) here)
      ]

  unfoldable pub avl_find : AvlTree K → K → Option (Node K)
  unfolding avl_find_rec
  avl_find t k = elim (avl_find_rec k t.root top) [
    | none ↦ none
    | some f ↦ elim (sign f.diff) [ eq ↦ some f.self | _ ↦ none ]
  ]

  abbrev fresh : Node K → Tree K
  fresh new = node leaf new (pos 0) leaf

  -- `avl_insert` below the node found: the thread, the tree, the count.
  unfoldable pub attach : AvlTree K → Focus K → Node K → ℤ × AvlTree K
  unfolding post_insert insert_before insert_after last_of
  attach t f new =
      let last = last_of f.self.id t.list in
      let before = insert_before f.self.id new t.list in
      let after = insert_after last new t.list in
      elim (sign (comp new.key f.self.key)) [
        | eq ↦
            if t.allow_dups
            then (
              pos 0,
              record t {
                list = insert_after last (record new { leader = false }) t.list;
                count = t.count + 1;
              },
            )
            else (negsuc 0, t)
        | s ↦
            if eq_ℤ f.bal (pos 1)
            then (
              pos 0,
              record t {
                root = plug f.up (node (fresh new) f.self (pos 0) f.right);
                list = before;
                count = t.count + 1;
              },
            )
            else if eq_ℤ f.bal (negsuc 0)
            then (
              pos 0,
              record t {
                root = plug f.up (node f.left f.self (pos 0) (fresh new));
                list = after;
                count = t.count + 1;
              },
            )
            else elim s [
              | lt ↦ (
                pos 0,
                record t {
                  root = post_insert f.up (node (fresh new) f.self (negsuc 0) f.right);
                  list = before;
                  count = t.count + 1;
                },
              )
              | _ ↦ (
                pos 0,
                record t {
                  root = post_insert f.up (node f.left f.self (pos 1) (fresh new));
                  list = after;
                  count = t.count + 1;
                },
              )
            ]
      ]

  unfoldable pub avl_insert : AvlTree K → Node K → ℤ × AvlTree K
  unfolding attach avl_find_rec
  avl_insert t n =
      let new = record n { leader = true } in
      elim (avl_find_rec new.key t.root top) [
        | none ↦ (pos 0, record t { root = fresh new; list = new ∷ t.list; count = 1 })
        | some f ↦ attach t f new
      ]
