-- ===== src/Avl/Deletion.antt =====
-- `avl_delete` on a tree without duplicate keys.
use mathlib.Core.Path.{subst}
use mathlib.Core.List.{append_assoc}
use Prim.Native.Nat.Ordering.{lt}
use openwrt_libubox.Prelude.{
  ℕ, ◌≡◌, refl, sym, ap, ◌∙◌, ◌≢◌, arith, true, false, ◌==◌, List, [], ◌∷◌, ◌++◌, none, some, ◌⊎◌,
  inl, inr, All, All-append, append-All, length, length-append, Bool-cases,
}
use openwrt_libubox.Prelude.Int.{ℤ}
use openwrt_libubox.Avl.{
  AvlTree, Node, Tree, leaf, node, Way, top, in_left, in_right, plug, sign, list_del,
}
use openwrt_libubox.Avl.Order.{inorder, lefts, rights, inorder-plug}
use openwrt_libubox.Avl.Find.{IsSorted}
use openwrt_libubox.Avl.Insert.{IsDistinct, IsDistinct-split, Lacks, AllLeaders}
use openwrt_libubox.Avl.Invariant.{IsAvl}
use openwrt_libubox.Avl.Delete.{
  Spot, locate, thread_from, delete_leader, avl_delete_worker, avl_remove, avl_delete,
}
use openwrt_libubox.Avl.Worker.{delete_worker-IsBalanced, inorder-delete_worker}

module _ {ℓ} {K : Type ℓ} where
  -- The search for a node's place finds it, or the node is not in the tree.
  locate-finds :
      (p : ℕ) (t : Tree K) (up : Way K)
      → ((s : Spot K) × (locate p t up ≡ some s)
          × (plug s.up (node s.left s.self s.bal s.right) ≡ plug up t)
          × (s.self.id ≡ p))
        ⊎ ((locate p t up ≡ none) × Lacks p (inorder t))
  unfolding locate
  locate-finds p leaf up = inr (refl, tt)
  locate-finds p (node l x b r) up = elim (Bool-cases (x.id == p)) [
    | inl e ↦
        inl (
          record { left = l; self = x; bal = b; right = r; up = up },
          rw e,
          refl,
          ground (arith, e),
        )
    | inr e ↦ elim (locate-finds p l (in_left x b r up)) [
      | inl (s, found, whole, id) ↦ inl (s, rw (e, found), whole, id)
      | inr (missing, lack) ↦ elim (locate-finds p r (in_right l x b up)) [
        | inl (s, found, whole, id) ↦ inl (s, rw (e, missing, found), whole, id)
        | inr (missing_right, lack_right) ↦ inr (
          rw (e, missing, missing_right),
          append-All (λ y. y.id ≢ p) (inorder l) (x ∷ inorder r) lack
              (ground (arith, e), lack_right),
        )
      ]
    ]
  ]

  list_del-split :
      (p : ℕ) (xs : List (Node K)) (x : Node K) (ys : List (Node K))
      → x.id ≡ p
      → Lacks p xs
      → list_del p (xs ++ (x ∷ ys)) ≡ xs ++ ys
  unfolding list_del
  list_del-split p [] x ys e h = ground (arith, e)
  list_del-split p (w ∷ xs) x ys e h = ground (arith, h.0, list_del-split p xs x ys e h.1)

  thread_from-split :
      (p : ℕ) (xs : List (Node K)) (x : Node K) (ys : List (Node K))
      → x.id ≡ p
      → Lacks p xs
      → thread_from p (xs ++ (x ∷ ys)) ≡ some (x, ys)
  unfolding thread_from
  thread_from-split p [] x ys e h = ground (arith, e)
  thread_from-split p (w ∷ xs) x ys e h = ground (arith, h.0, thread_from-split p xs x ys e h.1)

  All-remove :
      (P : Node K → Type 0) (xs : List (Node K)) (x : Node K) (ys : List (Node K))
      → All P (xs ++ (x ∷ ys))
      → All P (xs ++ ys)
  All-remove P [] x ys a = a.1
  All-remove P (w ∷ xs) x ys a = (a.0, All-remove P xs x ys a.1)

  IsDistinct-remove :
      (xs : List (Node K)) (x : Node K) (ys : List (Node K))
      → IsDistinct (xs ++ (x ∷ ys))
      → IsDistinct (xs ++ ys)
  IsDistinct-remove [] x ys d = d.1
  IsDistinct-remove (w ∷ xs) x ys d =
      (All-remove (λ y. y.id ≢ w.id) xs x ys d.0, IsDistinct-remove xs x ys d.1)

  delete_leader_run :
      (t : AvlTree K) (p : ℕ) (rest : List (Node K)) (s : Spot K)
      → t.allow_dups ≡ false
      → locate p t.root top ≡ some s
      → delete_leader t p rest ≡ some (avl_remove (record t { root = avl_delete_worker s }) p)
  unfolding delete_leader
  delete_leader_run t p [] s unique found = rw found
  delete_leader_run t p (next ∷ rest) s unique found = rw (unique, found)

  avl_delete_run :
      (t : AvlTree K) (p : ℕ) (x : Node K) (rest : List (Node K))
      → thread_from p t.list ≡ some (x, rest)
      → x.leader ≡ true
      → avl_delete t p ≡ delete_leader t p rest
  unfolding avl_delete
  avl_delete_run t p x rest taken lead = ground (arith, taken, lead)

  -- The tree after the worker, in key order.
  inorder-worker :
      (t : Tree K) (s : Spot K)
      → plug s.up (node s.left s.self s.bal s.right) ≡ t
      → IsDistinct (inorder t)
      → inorder (avl_delete_worker s) ≡ list_del s.self.id (inorder t)
  unfolding avl_delete_worker
  inorder-worker t s e d =
      let front = lefts s.up ++ inorder s.left in
      let back = inorder s.right ++ rights s.up in
      let split : inorder t ≡ front ++ (s.self ∷ back) =
        rw (← e, inorder-plug s.up (node s.left s.self s.bal s.right)) (simp append_assoc) in
      let (hl, hr) = IsDistinct-split front s.self back (subst IsDistinct split d) in
      inorder-delete_worker s.left s.self s.bal s.right s.up hl hr
      ∙ sym (ap (list_del s.self.id) split ∙ list_del-split s.self.id front s.self back refl hl)

module _ {ℓ} {K : Type ℓ} (comp : K → K → ℤ) where
  IsSorted-remove :
      (xs : List (Node K)) (x : Node K) (ys : List (Node K))
      → IsSorted comp (xs ++ (x ∷ ys))
      → IsSorted comp (xs ++ ys)
  IsSorted-remove [] x ys s = s.1
  IsSorted-remove (w ∷ xs) x ys s =
      (All-remove (λ y. sign (comp w.key y.key) ≡ lt) xs x ys s.0, IsSorted-remove xs x ys s.1)

  -- `avl_delete` of a node of the tree, which allows no duplicates: the thread loses that node and
  -- keeps all others in their order, and the invariant holds of the new state, the balance included.
  pub avl_delete-IsAvl :
      (t : AvlTree K) (x : Node K) (xs ys : List (Node K))
      → IsAvl comp t
      → t.allow_dups ≡ false
      → t.list ≡ xs ++ (x ∷ ys)
      → (u : AvlTree K) × (avl_delete t x.id ≡ some u)
        × (u.list ≡ xs ++ ys)
        × (u.allow_dups ≡ false)
        × IsAvl comp u
  avl_delete-IsAvl t x xs ys v unique split = elim (locate-finds x.id t.root top) [
    | inl (s, found, whole, id) ↦
        let alone = (IsDistinct-split xs x ys (subst IsDistinct split v.distinct)).0 in
        let lead =
          (All-append (λ y. y.leader ≡ true) xs (x ∷ ys) (subst AllLeaders split v.leaders)).1.0 in
        let taken : thread_from x.id t.list ≡ some (x, ys) =
          ap (thread_from x.id) split ∙ thread_from-split x.id xs x ys refl alone in
        let order : inorder (avl_delete_worker s) ≡ list_del x.id (inorder t.root) =
          inorder-worker t.root s whole (subst IsDistinct v.thread v.distinct)
          ∙ ap (λ p. list_del p (inorder t.root)) id in
        let u = avl_remove (record t { root = avl_delete_worker s }) x.id in
        let thread : list_del x.id t.list ≡ xs ++ ys =
          ap (list_del x.id) split ∙ list_del-split x.id xs x ys refl alone in
        (
          u,
          avl_delete_run t x.id x ys taken lead ∙ delete_leader_run t x.id ys s unique found,
          unfold avl_remove in thread,
          unfold avl_remove in unique,
          unfold avl_remove in
              record {
                thread = ap (list_del x.id) v.thread ∙ sym order;
                sorted =
                    rw (order, ← v.thread, thread)
                      (IsSorted-remove xs x ys
                        (subst (IsSorted comp) (sym v.thread ∙ split) v.sorted));
                balanced =
                    unfold avl_delete_worker in
                    delete_worker-IsBalanced s.left s.self s.bal s.right s.up (rw whole v.balanced);
                counted = omega (
                  arith,
                  v.counted,
                  ap length split,
                  ap length thread,
                  length-append xs ys,
                  length-append xs (x ∷ ys),
                );
                distinct =
                    rw thread (IsDistinct-remove xs x ys (subst IsDistinct split v.distinct));
                leaders =
                    rw thread (
                      All-remove (λ y. y.leader ≡ true) xs x ys (subst AllLeaders split v.leaders));
              },
        )
    | inr (missing, lack) ↦ absurd (
        (All-append (λ y. y.id ≢ x.id) xs (x ∷ ys)
            (subst (Lacks x.id) (sym v.thread ∙ split) lack)).1.0
          refl)
  ]
