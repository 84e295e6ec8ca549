-- ===== src/Avl/Removal.antt =====
-- The order of the nodes after `avl_delete_worker`.
use mathlib.Core.List.{append_assoc, map-append}
use openwrt_libubox.Prelude.{
  ℕ, zero, suc, ◌≡◌, refl, sym, ◌∙◌, arith, Bool, true, false, if◌then◌else◌, ◌==◌, List, [], ◌∷◌,
  ◌++◌, map, Bool-cases, inl, inr,
}
use openwrt_libubox.Prelude.Int.{eq_ℤ, ℤ, pos, negsuc, ◌+ℤ◌, ◌-ℤ◌}
use openwrt_libubox.Avl.{Node, Tree, leaf, node, Way, top, in_left, in_right, plug, balance}
use openwrt_libubox.Avl.Balance.{height, Leans, IsBalanced}
use openwrt_libubox.Avl.Order.{
  inorder, lefts, rights, inorder-plug_cong, inorder-avl_rotate_left, inorder-avl_rotate_right,
  inorder_double_left, inorder_double_right, if_inorder,
}
use openwrt_libubox.Avl.Insert.{Lacks}
use openwrt_libubox.Avl.Delete.{
  avl_post_delete, delete_leaf, delete_edge, replace_node, avl_local_min,
}

-- The two tests of the climb exclude each other, so their order does not matter.
exclusive_one : (z : ℤ) → eq_ℤ z (pos 1) ≡ true → eq_ℤ z (pos 0) ≡ false
exclusive_one (pos zero) h = cc
exclusive_one (pos (suc n)) h = ground arith
exclusive_one (negsuc n) h = refl

exclusive_minus : (z : ℤ) → eq_ℤ z (negsuc 0) ≡ true → eq_ℤ z (pos 0) ≡ false
exclusive_minus (pos n) h = cc
exclusive_minus (negsuc n) h = refl

if_swap {κ} :
    {A : Type κ} (p q : Bool) (x y z : A)
    → (p ≡ true → q ≡ false)
    → (if p then x else (if q then y else z)) ≡ (if q then y else (if p then x else z))
if_swap true true x y z h = cc (h refl)
if_swap true false x y z h = refl
if_swap false q x y z h = refl

module _ {ℓ} {K : Type ℓ} where
  pub inorder-avl_post_delete :
      (up : Way K) (t : Tree K) → inorder (avl_post_delete up t) ≡ inorder (plug up t)
  unfolding avl_post_delete
  inorder-avl_post_delete top t = refl
  inorder-avl_post_delete (in_left x b r up) t =
      let b' = b +ℤ pos 1 in
      let s = node t x b' r in
      let whole = plug (in_left x b r up) t in
      if_inorder (eq_ℤ b' (pos 0)) _ _ whole
        (inorder-avl_post_delete up s ∙ inorder-plug_cong up s (node t x b r) refl)
        (if_inorder (eq_ℤ b' (pos 1)) _ _ whole (inorder-plug_cong up s (node t x b r) refl) (
          if_inorder (eq_ℤ (balance r) (pos 0)) _ _ whole
            (inorder-plug_cong up _ (node t x b r) (inorder-avl_rotate_left s))
            (if_inorder (eq_ℤ (balance r) (pos 1)) _ _ whole
              (inorder-avl_post_delete up _
                ∙ inorder-plug_cong up _ (node t x b r) (inorder-avl_rotate_left s))
              (inorder-avl_post_delete up _
                ∙ inorder-plug_cong up _ (node t x b r) (inorder_double_left t x b' r)))))
  inorder-avl_post_delete (in_right l x b up) t =
      let b' = b -ℤ pos 1 in
      let s = node l x b' t in
      let whole = plug (in_right l x b up) t in
      if_inorder (eq_ℤ b' (pos 0)) _ _ whole
        (inorder-avl_post_delete up s ∙ inorder-plug_cong up s (node l x b t) refl)
        (if_inorder (eq_ℤ b' (negsuc 0)) _ _ whole (inorder-plug_cong up s (node l x b t) refl) (
          if_inorder (eq_ℤ (balance l) (pos 0)) _ _ whole
            (inorder-plug_cong up _ (node l x b t) (inorder-avl_rotate_right s))
            (if_inorder (eq_ℤ (balance l) (negsuc 0)) _ _ whole
              (inorder-avl_post_delete up _
                ∙ inorder-plug_cong up _ (node l x b t) (inorder-avl_rotate_right s))
              (inorder-avl_post_delete up _
                ∙ inorder-plug_cong up _ (node l x b t) (inorder_double_right l x b' t)))))

  delete_leaf-eq : (up : Way K) → delete_leaf up ≡ avl_post_delete up leaf
  unfolding delete_leaf avl_post_delete
  delete_leaf-eq top = refl
  delete_leaf-eq (in_left x b r up) =
      if_swap (eq_ℤ (b +ℤ pos 1) (pos 1)) (eq_ℤ (b +ℤ pos 1) (pos 0)) _ _ _
        (exclusive_one (b +ℤ pos 1))
  delete_leaf-eq (in_right l x b up) =
      if_swap (eq_ℤ (b -ℤ pos 1) (negsuc 0)) (eq_ℤ (b -ℤ pos 1) (pos 0)) _ _ _
        (exclusive_minus (b -ℤ pos 1))

  pub delete_edge-eq : (up : Way K) (t : Tree K) → delete_edge up t ≡ avl_post_delete up t
  unfolding delete_edge
  delete_edge-eq up leaf = delete_leaf-eq up
  delete_edge-eq top (node l x b r) = unfold avl_post_delete in refl
  delete_edge-eq (in_left y c s up) (node l x b r) = refl
  delete_edge-eq (in_right s y c up) (node l x b r) = refl

  -- The least node of a right subtree, and what is around it.
  pub avl_local_min-plug :
      (l : Tree K) (x : Node K) (b : ℤ) (r : Tree K) (up : Way K)
      → let s = avl_local_min l x b r up in
        (plug s.up (node leaf s.self s.bal s.right) ≡ plug up (node l x b r))
        × (lefts s.up ≡ lefts up)
        × (s.self ∷ (inorder s.right ++ rights s.up) ≡ inorder (node l x b r) ++ rights up)
  unfolding avl_local_min
  avl_local_min-plug leaf x b r up = (refl, refl, refl)
  avl_local_min-plug (node ll y c lr) x b r up =
      let (p, q, e) = avl_local_min-plug ll y c lr (in_left x b r up) in
      (p, q, e ∙ sym (append_assoc (inorder (node ll y c lr)) (x ∷ inorder r) (rights up)))

  abbrev pub swapped : ℕ → Node K → Node K → Node K
  swapped p min y = if y.id == p then min else y

  pub inorder-replace_node :
      (p : ℕ) (min : Node K) (t : Tree K)
      → inorder (replace_node p min t) ≡ map (swapped p min) (inorder t)
  unfolding replace_node
  inorder-replace_node p min leaf = refl
  inorder-replace_node p min (node l x b r) = elim (Bool-cases (x.id == p)) [
    | inl e ↦ ground (
      arith,
      e,
      inorder-replace_node p min l,
      inorder-replace_node p min r,
      map-append (swapped p min) (inorder l) (x ∷ inorder r),
    )
    | inr e ↦ ground (
      arith,
      e,
      inorder-replace_node p min l,
      inorder-replace_node p min r,
      map-append (swapped p min) (inorder l) (x ∷ inorder r),
    )
  ]

  height-replace_node :
      (p : ℕ) (min : Node K) (t : Tree K) → height (replace_node p min t) ≡ height t
  unfolding replace_node
  height-replace_node p min leaf = refl
  height-replace_node p min (node l x b r) =
      ground (arith, height-replace_node p min l, height-replace_node p min r)

  pub replace_node-IsBalanced :
      (p : ℕ) (min : Node K) (t : Tree K) → IsBalanced t → IsBalanced (replace_node p min t)
  unfolding replace_node
  replace_node-IsBalanced p min leaf v = tt
  replace_node-IsBalanced p min (node l x b r) v =
      let parts : IsBalanced (replace_node p min l)
          × IsBalanced (replace_node p min r)
          × Leans b (height (replace_node p min l)) (height (replace_node p min r)) =
        (
          replace_node-IsBalanced p min l v.0,
          replace_node-IsBalanced p min r v.1,
          rw (height-replace_node p min l, height-replace_node p min r) v.2,
        ) in
      elim (Bool-cases (x.id == p)) [ inl e ↦ rw e parts | inr e ↦ rw e parts ]

  pub map-swapped-Lacks :
      (p : ℕ) (min : Node K) (xs : List (Node K)) → Lacks p xs → map (swapped p min) xs ≡ xs
  map-swapped-Lacks p min [] h = refl
  map-swapped-Lacks p min (x ∷ xs) h = ground (arith, h.0, map-swapped-Lacks p min xs h.1)
