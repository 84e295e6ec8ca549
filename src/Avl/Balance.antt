-- ===== src/Avl/Balance.antt =====
-- The balance of AVL trees, and that `post_insert` restores it.
use Prim.Native.Nat.{max}
use openwrt_libubox.Prelude.{ℕ, zero, suc, ◌≡◌, refl, ◌≢◌, arith, Bool, true, false, if◌then◌else◌}
use openwrt_libubox.Prelude.Int.{ℤ, pos, negsuc}
use openwrt_libubox.Avl.{
  Node, Tree, leaf, node, Way, top, in_left, in_right, plug, balance, eq_ℤ, avl_rotate_right,
  avl_rotate_left, post_insert,
}

abbrev pub height {ℓ} : {K : Type ℓ} → Tree K → ℕ
height leaf = 0
height (node l x b r) = suc (max (height l) (height r))

-- A balance is the height on the right less that on the left, and is -1, 0 or 1.
abbrev pub Leans : ℤ → ℕ → ℕ → Type 0
Leans (pos zero) hl hr = hl ≡ hr
Leans (pos (suc zero)) hl hr = hr ≡ suc hl
Leans (pos (suc (suc n))) hl hr = ⊥
Leans (negsuc zero) hl hr = hl ≡ suc hr
Leans (negsuc (suc n)) hl hr = ⊥

abbrev pub IsBalanced {ℓ} : {K : Type ℓ} → Tree K → Type 0
IsBalanced leaf = Unit {0}
IsBalanced (node l x b r) = IsBalanced l × IsBalanced r × Leans b (height l) (height r)

-- A way whose tree is balanced with a subtree of height `h` in its place.
abbrev pub IsBalancedWay {ℓ} : {K : Type ℓ} → Way K → ℕ → Type 0
IsBalancedWay top h = Unit {0}
IsBalancedWay (in_left x b r up) h =
    IsBalanced r × Leans b h (height r) × IsBalancedWay up (suc (max h (height r)))
IsBalancedWay (in_right l x b up) h =
    IsBalanced l × Leans b (height l) h × IsBalancedWay up (suc (max (height l) h))

module _ {ℓ} {K : Type ℓ} where
  pub plug-IsBalanced :
      (up : Way K) (t : Tree K) (h : ℕ)
      → IsBalancedWay up h
      → IsBalanced t
      → height t ≡ h
      → IsBalanced (plug up t)
  plug-IsBalanced top t h w v e = v
  plug-IsBalanced (in_left x b r up) t h w v e =
      plug-IsBalanced up (node t x b r) (suc (max h (height r))) w.2 (v, w.0, rw e w.1) (rw e)
  plug-IsBalanced (in_right l x b up) t h w v e =
      plug-IsBalanced up (node l x b t) (suc (max (height l) h)) w.2 (w.0, v, rw e w.1) (rw e)

  -- A node whose left side is too high by two, and its left child leans: what `post_insert` and
  -- `avl_post_delete` build by one or two rotations.
  abbrev Fixed : Tree K → ℕ → Type 0
  Fixed t h = IsBalanced t × (height t ≡ h)

  pub rotate_right-Fixed :
      (ll : Tree K) (left : Node K) (lr : Tree K) (x : Node K) (r : Tree K)
      → IsBalanced ll
      → IsBalanced lr
      → IsBalanced r
      → height ll ≡ suc (height lr)
      → height lr ≡ height r
      → Fixed
          (avl_rotate_right (node (node ll left (negsuc 0) lr) x (negsuc 1) r))
          (suc (height ll))
  unfolding avl_rotate_right
  rotate_right-Fixed ll left lr x r a b c e f = ground arith

  pub rotate_left_right-Fixed :
      (ll : Tree K) (left : Node K) (m1 : Tree K) (mid : Node K) (bm : ℤ) (m2 : Tree K) (x : Node K)
      (r : Tree K)
      → IsBalanced ll
      → IsBalanced (node m1 mid bm m2)
      → IsBalanced r
      → height (node m1 mid bm m2) ≡ suc (height ll)
      → height ll ≡ height r
      → Fixed
          (avl_rotate_right
            (node (avl_rotate_left (node ll left (pos 1) (node m1 mid bm m2))) x (negsuc 1) r))
          (suc (suc (height ll)))
  unfolding avl_rotate_right avl_rotate_left
  rotate_left_right-Fixed ll left m1 mid (pos zero) m2 x r a b c e f = ground arith
  rotate_left_right-Fixed ll left m1 mid (pos (suc zero)) m2 x r a b c e f = ground arith
  rotate_left_right-Fixed ll left m1 mid (pos (suc (suc n))) m2 x r a b c e f = absurd b.2
  rotate_left_right-Fixed ll left m1 mid (negsuc zero) m2 x r a b c e f = ground arith
  rotate_left_right-Fixed ll left m1 mid (negsuc (suc n)) m2 x r a b c e f = absurd b.2

  pub rotate_left-Fixed :
      (l : Tree K) (x : Node K) (rl : Tree K) (right : Node K) (rr : Tree K)
      → IsBalanced l
      → IsBalanced rl
      → IsBalanced rr
      → height rr ≡ suc (height rl)
      → height rl ≡ height l
      → Fixed (avl_rotate_left (node l x (pos 2) (node rl right (pos 1) rr))) (suc (height rr))
  unfolding avl_rotate_left
  rotate_left-Fixed l x rl right rr a b c e f = ground arith

  pub rotate_right_left-Fixed :
      (l : Tree K) (x : Node K) (m1 : Tree K) (mid : Node K) (bm : ℤ) (m2 : Tree K) (right : Node K)
      (rr : Tree K)
      → IsBalanced l
      → IsBalanced (node m1 mid bm m2)
      → IsBalanced rr
      → height (node m1 mid bm m2) ≡ suc (height rr)
      → height rr ≡ height l
      → Fixed
          (avl_rotate_left
            (node l x (pos 2) (avl_rotate_right (node (node m1 mid bm m2) right (negsuc 0) rr))))
          (suc (suc (height rr)))
  unfolding avl_rotate_right avl_rotate_left
  rotate_right_left-Fixed l x m1 mid (pos zero) m2 right rr a b c e f = ground arith
  rotate_right_left-Fixed l x m1 mid (pos (suc zero)) m2 right rr a b c e f = ground arith
  rotate_right_left-Fixed l x m1 mid (pos (suc (suc n))) m2 right rr a b c e f = absurd b.2
  rotate_right_left-Fixed l x m1 mid (negsuc zero) m2 right rr a b c e f = ground arith
  rotate_right_left-Fixed l x m1 mid (negsuc (suc n)) m2 right rr a b c e f = absurd b.2

  -- The left side is too high by two, and its root leans: `post_insert`'s rotations give a subtree
  -- of the height that the node had.
  fix_left :
      (t : Tree K) (x : Node K) (r : Tree K)
      → IsBalanced t
      → IsBalanced r
      → height t ≡ suc (suc (height r))
      → balance t ≢ pos 0
      → Fixed
          (if eq_ℤ (balance t) (negsuc 0)
            then avl_rotate_right (node t x (negsuc 1) r)
            else avl_rotate_right (node (avl_rotate_left t) x (negsuc 1) r))
          (height t)
  fix_left leaf x r a b e n = absurd (omega arith)
  fix_left (node l y (pos zero) m) x r a b e n = absurd (n refl)
  fix_left (node l y (pos (suc (suc k))) m) x r a b e n = absurd a.2
  fix_left (node l y (negsuc (suc k)) m) x r a b e n = absurd a.2
  fix_left (node l y (negsuc zero) m) x r a b e n =
      let (v, h) = rotate_right-Fixed l y m x r a.0 a.1 b a.2 (omega arith) in (v, omega arith)
  fix_left (node l y (pos (suc zero)) leaf) x r a b e n = absurd (omega arith)
  fix_left (node l y (pos (suc zero)) (node m1 mid bm m2)) x r a b e n =
      let (v, h) = rotate_left_right-Fixed l y m1 mid bm m2 x r a.0 a.1 b a.2 (omega arith) in
      (v, omega arith)

  fix_right :
      (t : Tree K) (l : Tree K) (x : Node K)
      → IsBalanced t
      → IsBalanced l
      → height t ≡ suc (suc (height l))
      → balance t ≢ pos 0
      → Fixed
          (if eq_ℤ (balance t) (pos 1)
            then avl_rotate_left (node l x (pos 2) t)
            else avl_rotate_left (node l x (pos 2) (avl_rotate_right t)))
          (height t)
  fix_right leaf l x a b e n = absurd (omega arith)
  fix_right (node m y (pos zero) r) l x a b e n = absurd (n refl)
  fix_right (node m y (pos (suc (suc k))) r) l x a b e n = absurd a.2
  fix_right (node m y (negsuc (suc k)) r) l x a b e n = absurd a.2
  fix_right (node m y (pos (suc zero)) r) l x a b e n =
      let (v, h) = rotate_left-Fixed l x m y r b a.0 a.1 a.2 (omega arith) in (v, omega arith)
  fix_right (node leaf y (negsuc zero) r) l x a b e n = absurd (omega arith)
  fix_right (node (node m1 mid bm m2) y (negsuc zero) r) l x a b e n =
      let (v, h) = rotate_right_left-Fixed l x m1 mid bm m2 y r b a.0 a.1 a.2 (omega arith) in
      (v, omega arith)

  plug_if :
      (c : Bool) (up : Way K) (s t : Tree K)
      → (if c then plug up s else plug up t) ≡ plug up (if c then s else t)
  plug_if true up s t = refl
  plug_if false up s t = refl

  -- A balanced subtree that has grown by one and leans, put in its place with `post_insert`, gives
  -- a balanced tree.
  pub post_insert-IsBalanced :
      (up : Way K) (t : Tree K) (h : ℕ)
      → IsBalancedWay up h
      → IsBalanced t
      → height t ≡ suc h
      → balance t ≢ pos 0
      → IsBalanced (post_insert up t)
  unfolding post_insert
  post_insert-IsBalanced top t h w v e n = v
  post_insert-IsBalanced (in_left x (pos zero) r up) t h w v e n =
      post_insert-IsBalanced up (node t x (negsuc 0) r) (suc (max h (height r))) w.2
        (v, w.0, omega arith) (omega arith) (λ p. cc)
  post_insert-IsBalanced (in_left x (pos (suc zero)) r up) t h w v e n =
      plug-IsBalanced up (node t x (pos 0) r) (suc (max h (height r))) w.2 (v, w.0, omega arith)
        (omega arith)
  post_insert-IsBalanced (in_left x (negsuc zero) r up) t h w v e n =
      let (f, g) = fix_left t x r v w.0 (omega arith) n in
      rw plug_if (plug-IsBalanced up _ (suc (max h (height r))) w.2 f (omega arith))
  post_insert-IsBalanced (in_left x (pos (suc (suc k))) r up) t h w v e n = absurd w.1
  post_insert-IsBalanced (in_left x (negsuc (suc k)) r up) t h w v e n = absurd w.1
  post_insert-IsBalanced (in_right l x (pos zero) up) t h w v e n =
      post_insert-IsBalanced up (node l x (pos 1) t) (suc (max (height l) h)) w.2
        (w.0, v, omega arith) (omega arith) (λ p. cc)
  post_insert-IsBalanced (in_right l x (negsuc zero) up) t h w v e n =
      plug-IsBalanced up (node l x (pos 0) t) (suc (max (height l) h)) w.2 (w.0, v, omega arith)
        (omega arith)
  post_insert-IsBalanced (in_right l x (pos (suc zero)) up) t h w v e n =
      let (f, g) = fix_right t l x v w.0 (omega arith) n in
      rw plug_if (plug-IsBalanced up _ (suc (max (height l) h)) w.2 f (omega arith))
  post_insert-IsBalanced (in_right l x (pos (suc (suc k))) up) t h w v e n = absurd w.1
  post_insert-IsBalanced (in_right l x (negsuc (suc k)) up) t h w v e n = absurd w.1
