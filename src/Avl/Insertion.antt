-- ===== src/Avl/Insertion.antt =====
-- `avl_insert` on a tree without duplicate keys: every outcome, and the invariant.
use mathlib.Core.Path.{subst}
use mathlib.Core.List.{append_assoc, append-nil}
use Prim.Native.Nat.Ordering.{lt, gt}
use openwrt_libubox.Prelude.{
  ◌+◌, ◌≡◌, refl, sym, ap, ◌∙◌, arith, true, false, [], ◌∷◌, ◌++◌, ◌⊎◌, inl, inr, length,
}
use openwrt_libubox.Prelude.Int.{ℤ, pos}
use openwrt_libubox.Avl.{
  AvlTree, Node, leaf, node, top, plug, sign, Focus, attach, avl_insert, insert_before,
  insert_after,
}
use openwrt_libubox.Avl.Order.{inorder, lefts, rights}
use openwrt_libubox.Avl.Balance.{IsBalanced}
use openwrt_libubox.Avl.Find.{
  IsOrder, find_rec-Stops, find_rec-leaf, here, Stops, focus-inorder, gap-lt, gap-gt,
  Ordering-cases, leaf_cases,
}
use openwrt_libubox.Avl.Insert.{
  IsDistinct, IsDistinct-split, Lacks, Attached, attach_lt, attach_gt, insert_before-split,
  insert_after-split,
}
use openwrt_libubox.Avl.Invariant.{IsAvl, insert-IsAvl, Inserted, Rejected}

module _ {ℓ} {K : Type ℓ} (comp : K → K → ℤ) (o : IsOrder comp) (t : AvlTree K)
    (v : IsAvl comp t) where
  -- `attach_lt` and `attach_gt` at a focus whose child is known to be NULL.
  at_focus_lt :
      (f : Focus K) (new : Node K)
      → f.left ≡ leaf
      → IsBalanced (plug f.up (node f.left f.self f.bal f.right))
      → sign (comp new.key f.self.key) ≡ lt
      → Attached comp t f new
          (insert_before f.self.id new t.list)
          (lefts f.up ++ (new ∷ f.self ∷ (inorder f.right ++ rights f.up)))
  at_focus_lt f new e bal c =
      subst
        (λ l.
          IsBalanced (plug f.up (node l f.self f.bal f.right))
          → Attached comp t (here l f.self f.bal f.right f.up f.diff) new
              (insert_before f.self.id new t.list)
              (lefts f.up ++ (new ∷ f.self ∷ (inorder f.right ++ rights f.up))))
        (sym e) (λ b. attach_lt comp t f.self f.bal f.right f.up f.diff new b c) bal

  at_focus_gt :
      (f : Focus K) (new : Node K)
      → f.right ≡ leaf
      → IsBalanced (plug f.up (node f.left f.self f.bal f.right))
      → sign (comp new.key f.self.key) ≡ gt
      → Attached comp t f new
          (insert_after f.self.id new t.list)
          (lefts f.up ++ ((inorder f.left ++ (f.self ∷ new ∷ [])) ++ rights f.up))
  at_focus_gt f new e bal c =
      subst
        (λ r.
          IsBalanced (plug f.up (node f.left f.self f.bal r))
          → Attached comp t (here f.left f.self f.bal r f.up f.diff) new
              (insert_after f.self.id new t.list)
              (lefts f.up ++ ((inorder f.left ++ (f.self ∷ new ∷ [])) ++ rights f.up)))
        (sym e) (λ b. attach_gt comp t f.left f.self f.bal f.up f.diff new b v.leaders c) bal

  module _ (new : Node K) (lacks : Lacks new.id t.list) where
    abbrev lead : Node K
    lead = record new { leader = true }

    insert_lt :
        (f : Focus K)
        → Stops comp new.key t.root f
        → sign (comp new.key f.self.key) ≡ lt
        → avl_insert comp t new ≡ attach comp t f lead
        → Inserted comp t new
    insert_lt f w c run =
        let xs = lefts f.up ++ inorder f.left in
        let ys = f.self ∷ (inorder f.right ++ rights f.up) in
        let (R, eq_attach, bal, order) = at_focus_lt f lead (w.2 c) (rw w.0 v.balanced) c in
        let (lo, hi) = gap-lt comp o new.key t.root f w v.sorted c in
        let split : t.list ≡ xs ++ ys = v.thread ∙ focus-inorder comp o t.root f w.0 in
        let alone = (IsDistinct-split xs f.self _ (subst IsDistinct split v.distinct)).0 in
        let thread : insert_before f.self.id lead t.list ≡ xs ++ (lead ∷ ys) =
          ap (insert_before f.self.id lead) split ∙ insert_before-split xs f.self _ lead alone in
        let placed : inorder R ≡ xs ++ (lead ∷ ys) = order ∙ rw (w.2 c, append-nil) in
        (
          record t { root = R; list = insert_before f.self.id lead t.list; count = t.count + 1 },
          xs,
          ys,
          run ∙ eq_attach,
          split,
          thread,
          lo,
          hi,
          refl,
          insert-IsAvl comp o t xs ys _ lead R v split lacks refl lo hi bal placed thread,
        )

    insert_gt :
        (f : Focus K)
        → Stops comp new.key t.root f
        → sign (comp new.key f.self.key) ≡ gt
        → avl_insert comp t new ≡ attach comp t f lead
        → Inserted comp t new
    insert_gt f w c run =
        let front = lefts f.up ++ inorder f.left in
        let xs = front ++ (f.self ∷ []) in
        let ys = inorder f.right ++ rights f.up in
        let (R, eq_attach, bal, order) = at_focus_gt f lead (w.3 c) (rw w.0 v.balanced) c in
        let (lo, hi) = gap-gt comp o new.key t.root f w v.sorted c in
        let whole : t.list ≡ front ++ (f.self ∷ ys) =
          v.thread ∙ focus-inorder comp o t.root f w.0 in
        let split : t.list ≡ xs ++ ys = whole ∙ sym (append_assoc front (f.self ∷ []) ys) in
        let alone = (IsDistinct-split front f.self ys (subst IsDistinct whole v.distinct)).0 in
        let thread : insert_after f.self.id lead t.list ≡ xs ++ (lead ∷ ys) =
          ap (insert_after f.self.id lead) whole
          ∙ insert_after-split front f.self ys lead alone
          ∙ sym (append_assoc front (f.self ∷ []) (lead ∷ ys)) in
        let placed : inorder R ≡ xs ++ (lead ∷ ys) = order ∙ rw (w.3 c) (simp append_assoc) in
        (
          record t { root = R; list = insert_after f.self.id lead t.list; count = t.count + 1 },
          xs,
          ys,
          run ∙ eq_attach,
          split,
          thread,
          lo,
          hi,
          refl,
          insert-IsAvl comp o t xs ys _ lead R v split lacks refl lo hi bal placed thread,
        )

    insert_first : t.root ≡ leaf → Inserted comp t new
    unfolding avl_insert
    insert_first e =
        let empty : t.list ≡ [] = v.thread ∙ ap inorder e in
        let thread : lead ∷ t.list ≡ lead ∷ [] = ap (λ l. lead ∷ l) empty in
        (
          record t { root = node leaf lead (pos 0) leaf; list = lead ∷ t.list; count = 1 },
          [],
          [],
          ground (arith, find_rec-leaf comp new.key t.root top e),
          empty,
          thread,
          tt,
          tt,
          refl,
          subst
              (λ n.
                IsAvl comp (record t {
                  root = node leaf lead (pos 0) leaf;
                  list = lead ∷ t.list;
                  count = n;
                }))
              (omega (arith, v.counted, ap length empty))
              (insert-IsAvl comp o t [] [] (lead ∷ t.list) lead (node leaf lead (pos 0) leaf) v
                empty lacks refl tt tt (tt, tt, refl) refl thread),
        )

    -- `avl_insert` into a tree that allows no duplicates, of a node that is not in it yet: a node of
    -- the same key is there, the call returns -1 and changes nothing; or the call returns 0, and the
    -- new node stands in the thread between the smaller and the greater keys. The invariant holds
    -- of the new state: order, balance, count, thread and distinct nodes.
    pub avl_insert-IsAvl : t.allow_dups ≡ false → Inserted comp t new ⊎ Rejected comp t new
    avl_insert-IsAvl unique = elim (leaf_cases t.root) [
      | inl e ↦ inl (insert_first e)
      | inr ne ↦
          let (f, found, w) = find_rec-Stops comp o new.key t.root top ne v.sorted tt tt in
          let run : avl_insert comp t new ≡ attach comp t f lead =
            unfold avl_insert in ground (arith, found) in
          elim (Ordering-cases (sign (comp new.key f.self.key))) [
            | inl c ↦ inl (insert_lt f w c run)
            | inr (inr c) ↦ inl (insert_gt f w c run)
            | inr (inl c) ↦ inr (
              f.self,
              lefts f.up ++ inorder f.left,
              inorder f.right ++ rights f.up,
              v.thread ∙ focus-inorder comp o t.root f w.0,
              c,
              run ∙ unfold attach in ground (arith, c),
            )
          ]
    ]
