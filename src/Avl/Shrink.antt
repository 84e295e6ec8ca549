-- ===== src/Avl/Shrink.antt =====
-- Balance and order after `avl_post_delete` and `avl_delete_worker`.
use Prim.Native.Nat.{max}
use mathlib.Core.Path.{subst}
use openwrt_libubox.Prelude.{ℕ, zero, suc, ◌≡◌, sym, arith}
use openwrt_libubox.Prelude.Int.{pos, negsuc}
use openwrt_libubox.Avl.{
  Node, Tree, leaf, node, Way, top, in_left, in_right, avl_rotate_right, avl_rotate_left,
}
use openwrt_libubox.Avl.Balance.{
  height, IsBalanced, IsBalancedWay, plug-IsBalanced, rotate_left-Fixed, rotate_right-Fixed,
  rotate_right_left-Fixed, rotate_left_right-Fixed,
}
use openwrt_libubox.Avl.Delete.{avl_post_delete}

module _ {ℓ} {K : Type ℓ} where
  -- The other side leans neither way: one rotation keeps the height.
  rotate_left_even :
      (l : Tree K) (x : Node K) (rl : Tree K) (right : Node K) (rr : Tree K)
      → IsBalanced l
      → IsBalanced rl
      → IsBalanced rr
      → height rl ≡ height rr
      → height rl ≡ suc (height l)
      → IsBalanced (avl_rotate_left (node l x (pos 2) (node rl right (pos 0) rr)))
        × (height (avl_rotate_left (node l x (pos 2) (node rl right (pos 0) rr)))
            ≡ suc (suc (height rr)))
  unfolding avl_rotate_left
  rotate_left_even l x rl right rr a b c e f = ground arith

  rotate_right_even :
      (ll : Tree K) (left : Node K) (lr : Tree K) (x : Node K) (r : Tree K)
      → IsBalanced ll
      → IsBalanced lr
      → IsBalanced r
      → height lr ≡ height ll
      → height lr ≡ suc (height r)
      → IsBalanced (avl_rotate_right (node (node ll left (pos 0) lr) x (negsuc 1) r))
        × (height (avl_rotate_right (node (node ll left (pos 0) lr) x (negsuc 1) r))
            ≡ suc (suc (height ll)))
  unfolding avl_rotate_right
  rotate_right_even ll left lr x r a b c e f = ground arith

  -- A balanced subtree that is lower by one than its place, put there with `avl_post_delete`, gives
  -- a balanced tree.
  pub avl_post_delete-IsBalanced :
      (up : Way K) (t : Tree K) (h : ℕ)
      → IsBalancedWay up (suc h)
      → IsBalanced t
      → height t ≡ h
      → IsBalanced (avl_post_delete up t)
  unfolding avl_post_delete
  avl_post_delete-IsBalanced top t h w v e = v
  avl_post_delete-IsBalanced (in_left x (pos zero) r up) t h w v e =
      plug-IsBalanced up (node t x (pos 1) r) (suc (max (suc h) (height r))) w.2
        (v, w.0, omega (arith, w.1)) (omega (arith, w.1))
  avl_post_delete-IsBalanced (in_left x (negsuc zero) r up) t h w v e =
      avl_post_delete-IsBalanced up (node t x (pos 0) r) (suc h)
        (subst (IsBalancedWay up) (omega (arith, w.1)) w.2) (v, w.0, omega (arith, w.1))
        (omega (arith, w.1))
  avl_post_delete-IsBalanced (in_left x (pos (suc zero)) leaf up) t h w v e =
      absurd (omega (arith, w.1))
  avl_post_delete-IsBalanced (in_left x (pos (suc zero)) (node rl y (pos zero) rr) up) t h w v e =
      let (f, g) = rotate_left_even t x rl y rr v w.0.0 w.0.1 w.0.2 (omega (arith, w.0.2, w.1)) in
      plug-IsBalanced up _ _ w.2 f (omega (arith, g, w.0.2, w.1))
  avl_post_delete-IsBalanced (in_left x (pos (suc zero)) (node rl y (pos (suc zero)) rr) up) t h w v
        e =
      let (f, g) = rotate_left-Fixed t x rl y rr v w.0.0 w.0.1 w.0.2 (omega (arith, w.0.2, w.1)) in
      avl_post_delete-IsBalanced up _ (suc (suc h))
        (subst (IsBalancedWay up) (omega (arith, w.0.2, w.1)) w.2) f (omega (arith, g, w.0.2, w.1))
  avl_post_delete-IsBalanced (in_left x (pos (suc zero)) (node leaf y (negsuc zero) rr) up) t h w v
        e =
      absurd (omega (arith, w.0.2))
  avl_post_delete-IsBalanced
        (in_left x (pos (suc zero)) (node (node m1 z c m2) y (negsuc zero) rr) up) t h w v e =
      let (f, g) =
        rotate_right_left-Fixed t x m1 z c m2 y rr v w.0.0 w.0.1 w.0.2
          (omega (arith, w.0.2, w.1)) in
      avl_post_delete-IsBalanced up _ (suc (suc h))
        (subst (IsBalancedWay up) (omega (arith, w.0.2, w.1)) w.2) f (omega (arith, g, w.0.2, w.1))
  avl_post_delete-IsBalanced (in_left x (pos (suc zero)) (node rl y (pos (suc (suc k))) rr) up) t h
        w v e =
      absurd w.0.2
  avl_post_delete-IsBalanced (in_left x (pos (suc zero)) (node rl y (negsuc (suc k)) rr) up) t h w v
        e =
      absurd w.0.2
  avl_post_delete-IsBalanced (in_left x (pos (suc (suc k))) r up) t h w v e = absurd w.1
  avl_post_delete-IsBalanced (in_left x (negsuc (suc k)) r up) t h w v e = absurd w.1
  avl_post_delete-IsBalanced (in_right l x (pos zero) up) t h w v e =
      plug-IsBalanced up (node l x (negsuc 0) t) (suc (max (height l) (suc h))) w.2
        (w.0, v, omega (arith, w.1)) (omega (arith, w.1))
  avl_post_delete-IsBalanced (in_right l x (pos (suc zero)) up) t h w v e =
      avl_post_delete-IsBalanced up (node l x (pos 0) t) (suc h)
        (subst (IsBalancedWay up) (omega (arith, w.1)) w.2) (w.0, v, omega (arith, w.1))
        (omega (arith, w.1))
  avl_post_delete-IsBalanced (in_right leaf x (negsuc zero) up) t h w v e =
      absurd (omega (arith, w.1))
  avl_post_delete-IsBalanced (in_right (node ll y (pos zero) lr) x (negsuc zero) up) t h w v e =
      let (f, g) =
        rotate_right_even ll y lr x t w.0.0 w.0.1 v (sym w.0.2) (omega (arith, w.0.2, w.1)) in
      plug-IsBalanced up _ _ w.2 f (omega (arith, g, w.0.2, w.1))
  avl_post_delete-IsBalanced (in_right (node ll y (negsuc zero) lr) x (negsuc zero) up) t h w v e =
      let (f, g) = rotate_right-Fixed ll y lr x t w.0.0 w.0.1 v w.0.2 (omega (arith, w.0.2, w.1)) in
      avl_post_delete-IsBalanced up _ (suc (suc h))
        (subst (IsBalancedWay up) (omega (arith, w.0.2, w.1)) w.2) f (omega (arith, g, w.0.2, w.1))
  avl_post_delete-IsBalanced (in_right (node ll y (pos (suc zero)) leaf) x (negsuc zero) up) t h w v
        e =
      absurd (omega (arith, w.0.2))
  avl_post_delete-IsBalanced
        (in_right (node ll y (pos (suc zero)) (node m1 z c m2)) x (negsuc zero) up) t h w v e =
      let (f, g) =
        rotate_left_right-Fixed ll y m1 z c m2 x t w.0.0 w.0.1 v w.0.2
          (omega (arith, w.0.2, w.1)) in
      avl_post_delete-IsBalanced up _ (suc (suc h))
        (subst (IsBalancedWay up) (omega (arith, w.0.2, w.1)) w.2) f (omega (arith, g, w.0.2, w.1))
  avl_post_delete-IsBalanced (in_right (node ll y (pos (suc (suc k))) lr) x (negsuc zero) up) t h w
        v e =
      absurd w.0.2
  avl_post_delete-IsBalanced (in_right (node ll y (negsuc (suc k)) lr) x (negsuc zero) up) t h w v
        e =
      absurd w.0.2
  avl_post_delete-IsBalanced (in_right l x (pos (suc (suc k))) up) t h w v e = absurd w.1
  avl_post_delete-IsBalanced (in_right l x (negsuc (suc k)) up) t h w v e = absurd w.1
