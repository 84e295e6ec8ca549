-- ===== src/Avl/Insert.antt =====
-- `avl_insert` on a tree without duplicate keys.
use Prim.Native.Nat.{max}
use Prim.Native.Nat.Ordering.{lt, gt}
use openwrt_libubox.Prelude.{
  ℕ, zero, suc, ◌+◌, ◌≡◌, refl, sym, ◌∙◌, ◌≢◌, arith, true, List, [], ◌∷◌, ◌++◌, All, All-append,
}
use openwrt_libubox.Prelude.Int.{ℤ, pos, negsuc}
use openwrt_libubox.Avl.{
  AvlTree, Node, Tree, leaf, node, Way, top, in_left, in_right, plug, sign, Focus, post_insert,
  insert_before, insert_after, last_of, run_of, attach,
}
use openwrt_libubox.Avl.Order.{inorder, lefts, rights, inorder-plug, inorder-post_insert}
use openwrt_libubox.Avl.Balance.{
  height, IsBalanced, IsBalancedWay, plug-IsBalanced, post_insert-IsBalanced,
}
use openwrt_libubox.Avl.Find.{here}

module _ {ℓ} {K : Type ℓ} where
  -- No node of the list is at the address `p`.
  abbrev pub Lacks : ℕ → List (Node K) → Type 0
  Lacks p = All (λ y. y.id ≢ p)

  abbrev pub AllLeaders : List (Node K) → Type 0
  AllLeaders = All (λ y. y.leader ≡ true)

  abbrev pub IsDistinct : List (Node K) → Type 0
  IsDistinct [] = Unit {0}
  IsDistinct (x ∷ xs) = Lacks x.id xs × IsDistinct xs

  pub IsDistinct-split :
      (xs : List (Node K)) (x : Node K) (ys : List (Node K))
      → IsDistinct (xs ++ (x ∷ ys))
      → Lacks x.id xs × Lacks x.id ys
  IsDistinct-split [] x ys d = (tt, d.0)
  IsDistinct-split (w ∷ xs) x ys d =
      let (a, b) = IsDistinct-split xs x ys d.1 in
      ((λ e. (All-append (λ y. y.id ≢ w.id) xs (x ∷ ys) d.0).1.0 (sym e), a), b)

  pub insert_before-split :
      (xs : List (Node K)) (x : Node K) (ys : List (Node K)) (new : Node K)
      → Lacks x.id xs
      → insert_before x.id new (xs ++ (x ∷ ys)) ≡ xs ++ (new ∷ x ∷ ys)
  unfolding insert_before
  insert_before-split [] x ys new h = ground arith
  insert_before-split (w ∷ xs) x ys new h = ground (arith, insert_before-split xs x ys new h.1)

  pub insert_after-split :
      (xs : List (Node K)) (x : Node K) (ys : List (Node K)) (new : Node K)
      → Lacks x.id xs
      → insert_after x.id new (xs ++ (x ∷ ys)) ≡ xs ++ (x ∷ new ∷ ys)
  unfolding insert_after
  insert_after-split [] x ys new h = ground arith
  insert_after-split (w ∷ xs) x ys new h = ground (arith, insert_after-split xs x ys new h.1)

  -- Where every node leads, the run of equal keys is the node itself.
  run_of-leaders : (p : ℕ) (xs : List (Node K)) → AllLeaders xs → run_of p xs ≡ p
  unfolding run_of
  run_of-leaders p [] h = refl
  run_of-leaders p (x ∷ xs) h = ground (arith, h.0)

  pub last_of-leaders : (p : ℕ) (xs : List (Node K)) → AllLeaders xs → last_of p xs ≡ p
  unfolding last_of
  last_of-leaders p [] h = refl
  last_of-leaders p (x ∷ xs) h = ground (arith, run_of-leaders p xs h.1, last_of-leaders p xs h.1)

  -- The parts of a balanced tree around one of its subtrees.
  pub plug-IsBalanced_inv :
      (up : Way K) (t : Tree K)
      → IsBalanced (plug up t)
      → IsBalanced t × IsBalancedWay up (height t)
  plug-IsBalanced_inv top t v = (v, tt)
  plug-IsBalanced_inv (in_left x b r up) t v =
      let (a, w) = plug-IsBalanced_inv up (node t x b r) v in (a.0, (a.1, a.2, w))
  plug-IsBalanced_inv (in_right l x b up) t v =
      let (a, w) = plug-IsBalanced_inv up (node l x b t) v in (a.1, (a.0, a.2, w))

module _ {ℓ} {K : Type ℓ} (comp : K → K → ℤ) where
  -- What `attach` makes of a tree: the new node stands right before (or behind) the focus in the
  -- thread and in the order of the tree, and the tree is balanced.
  abbrev pub Attached : AvlTree K → Focus K → Node K → List (Node K) → List (Node K) → Type ℓ
  Attached t f new thread order =
      (R : Tree K) × (attach comp t f new
        ≡ (pos 0, record t { root = R; list = thread; count = t.count + 1 }))
      × IsBalanced R
      × (inorder R ≡ order)

  pub attach_lt :
      (t : AvlTree K) (self : Node K) (b : ℤ) (r : Tree K) (up : Way K) (d : ℤ) (new : Node K)
      → IsBalanced (plug up (node leaf self b r))
      → sign (comp new.key self.key) ≡ lt
      → Attached t
          (here leaf self b r up d)
          new
          (insert_before self.id new t.list)
          (lefts up ++ (new ∷ self ∷ (inorder r ++ rights up)))
  unfolding attach
  attach_lt t self (pos zero) r up d new v c =
      let (a, w) = plug-IsBalanced_inv up (node leaf self (pos 0) r) v in
      let grown = node (node leaf new (pos 0) leaf) self (negsuc 0) r in
      (
        post_insert up grown,
        ground (arith, c),
        post_insert-IsBalanced up grown (suc (max 0 (height r))) w
            ((tt, tt, refl), a.1, omega (arith, a.2)) (omega (arith, a.2)) (λ e. cc),
        inorder-post_insert up grown ∙ inorder-plug up grown,
      )
  attach_lt t self (pos (suc zero)) r up d new v c =
      let (a, w) = plug-IsBalanced_inv up (node leaf self (pos 1) r) v in
      let full = node (node leaf new (pos 0) leaf) self (pos 0) r in
      (
        plug up full,
        ground (arith, c),
        plug-IsBalanced up full (suc (max 0 (height r))) w ((tt, tt, refl), a.1, omega (arith, a.2))
            (omega (arith, a.2)),
        inorder-plug up full,
      )
  attach_lt t self (pos (suc (suc k))) r up d new v c =
      absurd (plug-IsBalanced_inv up (node leaf self (pos (suc (suc k))) r) v).0.2
  attach_lt t self (negsuc zero) r up d new v c =
      absurd (omega (arith, (plug-IsBalanced_inv up (node leaf self (negsuc 0) r) v).0.2))
  attach_lt t self (negsuc (suc k)) r up d new v c =
      absurd (plug-IsBalanced_inv up (node leaf self (negsuc (suc k)) r) v).0.2

  pub attach_gt :
      (t : AvlTree K) (l : Tree K) (self : Node K) (b : ℤ) (up : Way K) (d : ℤ) (new : Node K)
      → IsBalanced (plug up (node l self b leaf))
      → AllLeaders t.list
      → sign (comp new.key self.key) ≡ gt
      → Attached t
          (here l self b leaf up d)
          new
          (insert_after self.id new t.list)
          (lefts up ++ ((inorder l ++ (self ∷ new ∷ [])) ++ rights up))
  unfolding attach
  attach_gt t l self (pos zero) up d new v h c =
      let (a, w) = plug-IsBalanced_inv up (node l self (pos 0) leaf) v in
      let grown = node l self (pos 1) (node leaf new (pos 0) leaf) in
      (
        post_insert up grown,
        ground (arith, c, last_of-leaders self.id t.list h),
        post_insert-IsBalanced up grown (suc (max (height l) 0)) w
            (a.0, (tt, tt, refl), omega (arith, a.2)) (omega (arith, a.2)) (λ e. cc),
        inorder-post_insert up grown ∙ inorder-plug up grown,
      )
  attach_gt t l self (negsuc zero) up d new v h c =
      let (a, w) = plug-IsBalanced_inv up (node l self (negsuc 0) leaf) v in
      let full = node l self (pos 0) (node leaf new (pos 0) leaf) in
      (
        plug up full,
        ground (arith, c, last_of-leaders self.id t.list h),
        plug-IsBalanced up full (suc (max (height l) 0)) w (a.0, (tt, tt, refl), omega (arith, a.2))
            (omega (arith, a.2)),
        inorder-plug up full,
      )
  attach_gt t l self (pos (suc zero)) up d new v h c =
      absurd (omega (arith, (plug-IsBalanced_inv up (node l self (pos 1) leaf) v).0.2))
  attach_gt t l self (pos (suc (suc k))) up d new v h c =
      absurd (plug-IsBalanced_inv up (node l self (pos (suc (suc k))) leaf) v).0.2
  attach_gt t l self (negsuc (suc k)) up d new v h c =
      absurd (plug-IsBalanced_inv up (node l self (negsuc (suc k)) leaf) v).0.2
