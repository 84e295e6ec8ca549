-- ===== src/Avl/Worker.antt =====
-- `avl_delete_worker`: the tree stays balanced, and loses the one node.
use mathlib.Core.Path.{subst, ap₂}
use mathlib.Core.List.{append_assoc, append-nil, map-append}
use openwrt_libubox.Prelude.{suc, ◌≡◌, refl, sym, ap, ◌∙◌, arith, ◌∷◌, ◌++◌, map}
use openwrt_libubox.Prelude.Int.{ℤ}
use openwrt_libubox.Avl.{Node, Tree, leaf, node, Way, in_right, plug}
use openwrt_libubox.Avl.Balance.{height, IsBalanced, IsBalancedWay}
use openwrt_libubox.Avl.Order.{inorder, lefts, rights, inorder-plug}
use openwrt_libubox.Avl.Insert.{plug-IsBalanced_inv, Lacks}
use openwrt_libubox.Avl.Delete.{delete_edge, avl_local_min, delete_worker}
use openwrt_libubox.Avl.Shrink.{avl_post_delete-IsBalanced}
use openwrt_libubox.Avl.Removal.{
  inorder-avl_post_delete, delete_edge-eq, avl_local_min-plug, swapped, inorder-replace_node,
  replace_node-IsBalanced, map-swapped-Lacks,
}

module _ {ℓ} {K : Type ℓ} where
  -- The place of a node with a NULL child goes to the other child.
  edge-IsBalanced :
      (up : Way K) (t : Tree K)
      → IsBalancedWay up (suc (height t))
      → IsBalanced t
      → IsBalanced (delete_edge up t)
  edge-IsBalanced up t w v =
      rw (delete_edge-eq up t) (avl_post_delete-IsBalanced up t (height t) w v refl)

  inorder-edge :
      (up : Way K) (t : Tree K) → inorder (delete_edge up t) ≡ lefts up ++ (inorder t ++ rights up)
  inorder-edge up t =
      ap inorder (delete_edge-eq up t) ∙ inorder-avl_post_delete up t ∙ inorder-plug up t

  pub delete_worker-IsBalanced :
      (l : Tree K) (x : Node K) (b : ℤ) (r : Tree K) (up : Way K)
      → IsBalanced (plug up (node l x b r))
      → IsBalanced (delete_worker l x b r up)
  unfolding delete_worker
  delete_worker-IsBalanced leaf x b r up v =
      let (a, w) = plug-IsBalanced_inv up (node leaf x b r) v in
      edge-IsBalanced up r (subst (IsBalancedWay up) (omega arith) w) a.1
  delete_worker-IsBalanced (node ll y c lr) x b leaf up v =
      let (a, w) = plug-IsBalanced_inv up (node (node ll y c lr) x b leaf) v in
      edge-IsBalanced up (node ll y c lr) (subst (IsBalancedWay up) (omega arith) w) a.0
  delete_worker-IsBalanced (node ll y c lr) x b (node rl z d rr) up v =
      let s = avl_local_min rl z d rr (in_right (node ll y c lr) x b up) in
      let (p, q, e) = avl_local_min-plug rl z d rr (in_right (node ll y c lr) x b up) in
      let (a, w) = plug-IsBalanced_inv s.up (node leaf s.self s.bal s.right) (rw p v) in
      replace_node-IsBalanced x.id s.self (delete_edge s.up s.right)
        (edge-IsBalanced s.up s.right (subst (IsBalancedWay s.up) (omega arith) w) a.1)

  pub inorder-delete_worker :
      (l : Tree K) (x : Node K) (b : ℤ) (r : Tree K) (up : Way K)
      → Lacks x.id (lefts up ++ inorder l)
      → Lacks x.id (inorder r ++ rights up)
      → inorder (delete_worker l x b r up) ≡ (lefts up ++ inorder l) ++ (inorder r ++ rights up)
  unfolding delete_worker
  inorder-delete_worker leaf x b r up hl hr = inorder-edge up r ∙ rw append-nil
  inorder-delete_worker (node ll y c lr) x b leaf up hl hr =
      inorder-edge up (node ll y c lr)
      ∙ sym (append_assoc (lefts up) (inorder (node ll y c lr)) (rights up))
  inorder-delete_worker (node ll y c lr) x b (node rl z d rr) up hl hr =
      let l = node ll y c lr in
      let r = node rl z d rr in
      let s = avl_local_min rl z d rr (in_right l x b up) in
      let rest = inorder s.right ++ rights s.up in
      let (p, q, e) = avl_local_min-plug rl z d rr (in_right l x b up) in
      let left_part = lefts up ++ inorder l in
      let order : inorder (delete_edge s.up s.right) ≡ left_part ++ (x ∷ rest) =
        inorder-edge s.up s.right ∙ rw q (simp append_assoc) in
      let lacks : Lacks x.id (s.self ∷ rest) = subst (Lacks x.id) (sym e) hr in
      inorder-replace_node x.id s.self (delete_edge s.up s.right)
      ∙ ap (map (swapped x.id s.self)) order
      ∙ map-append (swapped x.id s.self) left_part (x ∷ rest)
      ∙ ap₂ ◌++◌ (map-swapped-Lacks x.id s.self left_part hl)
          (ground (arith, map-swapped-Lacks x.id s.self rest lacks.1, e))
