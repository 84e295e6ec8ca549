-- ===== src/Avl/Update.antt =====
-- Deletion and insertion as changes of what a search finds.
use mathlib.Core.Path.{subst}
use Prim.Native.Nat.Ordering.{eq}
use openwrt_libubox.Prelude.{
  ◌≡◌, ◌+◌, arith, length, length-append, refl, sym, ap, ◌∙◌, none, some, true, false, List, ◌∷◌,
  ◌++◌, All, All-append, append-All, inl, inr,
}
use openwrt_libubox.Prelude.Int.{ℤ}
use openwrt_libubox.Avl.{AvlTree, Node, sign, avl_insert}
use openwrt_libubox.Avl.Find.{IsOrder, IsSorted, IsSorted-split, Ordering-cases}
use openwrt_libubox.Avl.Insert.{Lacks}
use openwrt_libubox.Avl.Invariant.{IsAvl}
use openwrt_libubox.Avl.Insertion.{avl_insert-IsAvl}
use openwrt_libubox.Avl.Delete.{avl_delete}
use openwrt_libubox.Avl.Deletion.{avl_delete-IsAvl}
use openwrt_libubox.Avl.Lookup.{IsCongruent, on_eq, find_in, find_in-insert, find_in-remove}

module _ {ℓ} {K : Type ℓ} (comp : K → K → ℤ) (o : IsOrder comp) (cong : IsCongruent comp) where
  -- Keys that compare as equal are alike on the right, too.
  pub alike : (a b c : K) → sign (comp a b) ≡ eq → sign (comp c a) ≡ sign (comp c b)
  alike a b c e =
      let same : sign (comp a c) ≡ sign (comp b c) = cong a b c e in
      elim (Ordering-cases (sign (comp c a))) [
        | inl h ↦ h ∙ sym (o.lt_of_gt b c (sym same ∙ o.gt_of_lt c a h))
        | inr (inr h) ↦ h ∙ sym (o.gt_of_lt b c (sym same ∙ o.lt_of_gt c a h))
        | inr (inl h) ↦ h ∙ sym (cong c a b h ∙ e)
      ]

  -- `avl_delete` of a node: its key is gone, and the search for all others gives what it gave.
  pub delete-find_in :
      (t : AvlTree K) (x : Node K) (xs ys : List (Node K))
      → IsAvl comp t
      → t.allow_dups ≡ false
      → t.list ≡ xs ++ (x ∷ ys)
      → (u : AvlTree K) × (avl_delete t x.id ≡ some u)
        × IsAvl comp u
        × (u.allow_dups ≡ false)
        × ((P : Node K → Type 0) → All P t.list → All P u.list)
        × (length t.list ≡ length u.list + 1)
        × ((k : K)
            → find_in comp k u.list ≡ on_eq (sign (comp k x.key)) none (find_in comp k t.list))
  delete-find_in t x xs ys v unique split =
      let (u, run, left, unique', v') = avl_delete-IsAvl comp t x xs ys v unique split in
      let order : IsSorted comp (xs ++ (x ∷ ys)) =
        subst (IsSorted comp) (sym v.thread ∙ split) v.sorted in
      let (_, _, lo, hi) = IsSorted-split comp o xs x ys order in
      (
        u,
        run,
        v',
        unique',
        (λ P a.
            let (f, b) = All-append P xs (x ∷ ys) (subst (All P) split a) in
            subst (All P) (sym left) (append-All P xs ys f b.1)),
        omega (
          arith,
          ap length left,
          ap length split,
          length-append xs ys,
          length-append xs (x ∷ ys),
        ),
        λ k.
            ap (find_in comp k) left
            ∙ find_in-remove comp o cong k xs x ys lo hi
            ∙ ap (λ l. on_eq (sign (comp k x.key)) none (find_in comp k l)) (sym split),
      )

  -- `avl_insert` of a node of a new key: the search for the key gives the node, and the search for all
  -- others what it gave.
  pub insert-find_in :
      (t : AvlTree K) (new : Node K)
      → IsAvl comp t
      → t.allow_dups ≡ false
      → Lacks new.id t.list
      → find_in comp new.key t.list ≡ none
      → (let u = (avl_insert comp t new).1 in
          IsAvl comp u
          × (u.allow_dups ≡ false)
          × ((P : Node K → Type 0) → All P t.list → P (record new { leader = true }) → All P u.list)
          × (length u.list ≡ length t.list + 1)
          × ((k : K)
              → find_in comp k u.list
                ≡ on_eq
                    (sign (comp k new.key))
                    (some (record new { leader = true }))
                    (find_in comp k t.list)))
  insert-find_in t new v unique lacks free =
      let goal : AvlTree K → Type (1 ⊔ ℓ) = λ u.
        IsAvl comp u
        × (u.allow_dups ≡ false)
        × ((P : Node K → Type 0) → All P t.list → P (record new { leader = true }) → All P u.list)
        × (length u.list ≡ length t.list + 1)
        × ((k : K)
            → find_in comp k u.list
              ≡ on_eq (sign (comp k new.key)) (some (record new { leader = true }))
                  (find_in comp k t.list)) in
      elim (avl_insert-IsAvl comp o t v new lacks unique) [
        | inl (u, xs, ys, run, split, placed, lo, hi, dups, v') ↦
            let at_u : u ≡ (avl_insert comp t new).1 = sym (ap (λ (r : ℤ × AvlTree K). r.1) run) in
            subst goal at_u (
              v',
              dups ∙ unique,
              (λ P a p.
                  let (f, b) = All-append P xs ys (subst (All P) split a) in
                  subst (All P) (sym placed)
                    (append-All P xs (record new { leader = true } ∷ ys) f (p, b))),
              omega (
                arith,
                ap length placed,
                ap length split,
                length-append xs ys,
                length-append xs (record new { leader = true } ∷ ys),
              ),
              λ k.
                  ap (find_in comp k) placed
                  ∙ find_in-insert comp o cong k xs (record new { leader = true }) ys lo
                  ∙ ap
                      (λ l.
                        on_eq (sign (comp k new.key)) (some (record new { leader = true }))
                          (find_in comp k l))
                      (sym split),
            )
        | inr (x, xs, ys, split, c, run) ↦
            let order : IsSorted comp (xs ++ (x ∷ ys)) =
              subst (IsSorted comp) (sym v.thread ∙ split) v.sorted in
            let (_, _, lo, _) = IsSorted-split comp o xs x ys order in
            let there : find_in comp new.key t.list ≡ some x =
              ap (find_in comp new.key) split
              ∙ find_in-insert comp o cong new.key xs x ys lo
              ∙ rw c refl in
            absurd (cc (free, there))
      ]
