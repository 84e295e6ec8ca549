-- ===== src/Avl/Delete.antt =====
-- avl.c: `avl_delete`. A node is given by its address.
use openwrt_libubox.Prelude.{
  ℕ, ◌-◌, List, [], ◌∷◌, Option, none, some, true, ◌==◌, ◌&&◌, not, if◌then◌else◌, ◌>>=◌,
}
use openwrt_libubox.Prelude.Int.{ℤ, pos, negsuc, ◌+ℤ◌, ◌-ℤ◌}
use openwrt_libubox.Avl.{
  AvlTree, Node, Tree, leaf, node, Way, top, in_left, in_right, plug, balance, eq_ℤ,
  avl_rotate_right, avl_rotate_left, list_del,
}

-- A node in its place: its children, its balance and the way up.
pub record Spot {ℓ} (K : Type ℓ) : Type ℓ where
  pub left : Tree K
  pub self : Node K
  pub bal : ℤ
  pub right : Tree K
  pub up : Way K

module _ {ℓ} {K : Type ℓ} where
  -- `avl_post_delete(tree, node)`: the subtree at `node` has become lower.
  unfoldable pub avl_post_delete : Way K → Tree K → Tree K
  unfolding avl_rotate_left avl_rotate_right ◌+ℤ◌ ◌-ℤ◌
  avl_post_delete top t = t
  avl_post_delete (in_left x b r up) t =
      let b' = b +ℤ pos 1 in
      let s = node t x b' r in
      let lower = avl_post_delete up s in
      let rotated = avl_post_delete up (avl_rotate_left s) in
      let rotated_twice = avl_post_delete up (avl_rotate_left (node t x b' (avl_rotate_right r))) in
      if eq_ℤ b' (pos 0)
      then lower
      else if eq_ℤ b' (pos 1)
      then plug up s
      else if eq_ℤ (balance r) (pos 0)
      then plug up (avl_rotate_left s)
      else if eq_ℤ (balance r) (pos 1)
      then rotated
      else rotated_twice
  avl_post_delete (in_right l x b up) t =
      let b' = b -ℤ pos 1 in
      let s = node l x b' t in
      let lower = avl_post_delete up s in
      let rotated = avl_post_delete up (avl_rotate_right s) in
      let rotated_twice = avl_post_delete up (avl_rotate_right (node (avl_rotate_left l) x b' t)) in
      if eq_ℤ b' (pos 0)
      then lower
      else if eq_ℤ b' (negsuc 0)
      then plug up s
      else if eq_ℤ (balance l) (pos 0)
      then plug up (avl_rotate_right s)
      else if eq_ℤ (balance l) (negsuc 0)
      then rotated
      else rotated_twice

  -- `avl_delete_worker` on a node with no children.
  unfoldable pub delete_leaf : Way K → Tree K
  unfolding avl_post_delete avl_rotate_left avl_rotate_right ◌+ℤ◌ ◌-ℤ◌
  delete_leaf top = leaf
  delete_leaf (in_left x b r up) =
      let b' = b +ℤ pos 1 in
      let s = node leaf x b' r in
      if eq_ℤ b' (pos 1)
      then plug up s
      else if eq_ℤ b' (pos 0)
      then avl_post_delete up s
      else if eq_ℤ (balance r) (pos 0)
      then plug up (avl_rotate_left s)
      else if eq_ℤ (balance r) (pos 1)
      then avl_post_delete up (avl_rotate_left s)
      else avl_post_delete up (avl_rotate_left (node leaf x b' (avl_rotate_right r)))
  delete_leaf (in_right l x b up) =
      let b' = b -ℤ pos 1 in
      let s = node l x b' leaf in
      if eq_ℤ b' (negsuc 0)
      then plug up s
      else if eq_ℤ b' (pos 0)
      then avl_post_delete up s
      else if eq_ℤ (balance l) (pos 0)
      then plug up (avl_rotate_right s)
      else if eq_ℤ (balance l) (negsuc 0)
      then avl_post_delete up (avl_rotate_right s)
      else avl_post_delete up (avl_rotate_right (node (avl_rotate_left l) x b' leaf))

  -- ... and on a node with one child: the child takes its place (the root, too).
  unfoldable pub delete_edge : Way K → Tree K → Tree K
  unfolding delete_leaf avl_post_delete
  delete_edge up leaf = delete_leaf up
  delete_edge top (node l x b r) = node l x b r
  delete_edge (in_left y c s up) (node l x b r) = avl_post_delete (in_left y c s up) (node l x b r)
  delete_edge (in_right s y c up) (node l x b r) =
      avl_post_delete (in_right s y c up) (node l x b r)

  -- `min` takes the place, the balance and the children that the node `p` has now.
  unfoldable pub replace_node : ℕ → Node K → Tree K → Tree K
  replace_node p min leaf = leaf
  replace_node p min (node l x b r) =
      if x.id == p
      then node (replace_node p min l) min b (replace_node p min r)
      else node (replace_node p min l) x b (replace_node p min r)

  unfoldable pub avl_local_min : Tree K → Node K → ℤ → Tree K → Way K → Spot K
  avl_local_min leaf x b r up = record { left = leaf; self = x; bal = b; right = r; up = up }
  avl_local_min (node ll y c lr) x b r up = avl_local_min ll y c lr (in_left x b r up)

  unfoldable pub delete_worker : Tree K → Node K → ℤ → Tree K → Way K → Tree K
  unfolding delete_edge replace_node avl_local_min
  delete_worker leaf x b r up = delete_edge up r
  delete_worker (node ll y c lr) x b leaf up = delete_edge up (node ll y c lr)
  delete_worker (node ll y c lr) x b (node rl z d rr) up =
      let min = avl_local_min rl z d rr (in_right (node ll y c lr) x b up) in
      replace_node x.id min.self (delete_edge min.up min.right)

  unfoldable pub avl_delete_worker : Spot K → Tree K
  unfolding delete_worker
  avl_delete_worker s = delete_worker s.left s.self s.bal s.right s.up

  -- Where a node stands in the tree (its links, in the source).
  unfoldable pub locate : ℕ → Tree K → Way K → Option (Spot K)
  locate p leaf up = none
  locate p (node l x b r) up =
      if x.id == p
      then some (record { left = l; self = x; bal = b; right = r; up = up })
      else elim (locate p l (in_left x b r up)) [
        | some s ↦ some s
        | none ↦ locate p r (in_right l x b up)
      ]

  -- The node at an address in the thread, and what follows it.
  unfoldable pub thread_from : ℕ → List (Node K) → Option (Node K × List (Node K))
  thread_from p [] = none
  thread_from p (x ∷ xs) = if x.id == p then some (x, xs) else thread_from p xs

  -- `next->leader = true`
  unfoldable pub promote : ℕ → List (Node K) → List (Node K)
  promote p [] = []
  promote p (x ∷ xs) =
      if x.id == p then record x { leader = true } ∷ promote p xs else x ∷ promote p xs

  -- `avl_remove`
  unfoldable pub avl_remove : AvlTree K → ℕ → AvlTree K
  unfolding list_del
  avl_remove t p = record t { list = list_del p t.list; count = t.count - 1 }

  unfoldable pub delete_leader : AvlTree K → ℕ → List (Node K) → Option (AvlTree K)
  unfolding avl_delete_worker avl_remove promote replace_node locate
  delete_leader t p [] =
      locate p t.root top >>= λ s. some (avl_remove (record t { root = avl_delete_worker s }) p)
  delete_leader t p (next ∷ rest) =
      if t.allow_dups && not next.leader
      then some (
          avl_remove
            (record t {
              root = replace_node p (record next { leader = true }) t.root;
              list = promote next.id t.list;
            })
            p)
      else (locate p t.root top >>= λ s.
          some (avl_remove (record t { root = avl_delete_worker s }) p))

  -- A node that is not in the tree is a fault.
  unfoldable pub avl_delete : AvlTree K → ℕ → Option (AvlTree K)
  avl_delete t p = elim (thread_from p t.list) [
    | none ↦ none
    | some (x, rest) ↦ if x.leader then delete_leader t p rest else some (avl_remove t p)
  ]
