-- ===== src/Avl/Lookup.antt =====
-- A tree as a map: `avl_find` against a linear search of the thread, and what insertion and deletion
-- do to that search.
use mathlib.Core.Path.{subst}
use mathlib.Core.List.{append-nil}
use Prim.Native.Nat.{Ordering}
use Prim.Native.Nat.Ordering.{lt, eq, gt}
use openwrt_libubox.Prelude.{
  ◌≡◌, ◌≢◌, refl, sym, ap, ◌∙◌, Option, none, some, List, [], ◌∷◌, ◌++◌, All, inl, inr,
}
use openwrt_libubox.Prelude.Int.{ℤ}
use openwrt_libubox.Avl.{AvlTree, Node, sign, avl_find}
use openwrt_libubox.Avl.Order.{inorder}
use openwrt_libubox.Avl.Find.{
  IsOrder, AllBelow, AllAbove, IsSorted, Ordering-cases, IsSorted-split, avl_find-Answers,
}
use openwrt_libubox.Avl.Invariant.{IsAvl}

-- Keys that compare as equal compare alike with all keys.
abbrev pub IsCongruent {ℓ} : {K : Type ℓ} → (K → K → ℤ) → Type ℓ
IsCongruent {K = K} comp = (a b c : K) → sign (comp a b) ≡ eq → sign (comp a c) ≡ sign (comp b c)

-- `x` where the signs are equal, else `y`.
abbrev pub on_eq {ℓ} : {A : Type ℓ} → Ordering → A → A → A
on_eq lt x y = y
on_eq eq x y = x
on_eq gt x y = y

module _ {ℓ} {K : Type ℓ} (comp : K → K → ℤ) where
  -- The first node of a key, by a linear search.
  abbrev pub find_in : K → List (Node K) → Option (Node K)
  find_in k [] = none
  find_in k (x ∷ xs) = on_eq (sign (comp k x.key)) (some x) (find_in k xs)

  pub find_in-absent :
      (k : K) (xs ys : List (Node K))
      → All (λ y. sign (comp k y.key) ≢ eq) xs
      → find_in k (xs ++ ys) ≡ find_in k ys
  find_in-absent k [] ys a = refl
  find_in-absent k (x ∷ xs) ys a = elim (Ordering-cases (sign (comp k x.key))) [
    | inl c ↦ rw c (find_in-absent k xs ys a.1)
    | inr (inl c) ↦ absurd (a.0 c)
    | inr (inr c) ↦ rw c (find_in-absent k xs ys a.1)
  ]

  module _ (o : IsOrder comp) (cong : IsCongruent comp) where
    -- Keys below `x` differ from those that equal `x`.
    below-differs :
        (k x : K) (xs : List (Node K))
        → sign (comp k x) ≡ eq
        → AllBelow comp x xs
        → All (λ y. sign (comp k y.key) ≢ eq) xs
    below-differs k x [] c a = tt
    below-differs k x (y ∷ ys) c a =
        let above : sign (comp x y.key) ≡ gt = o.gt_of_lt y.key x a.0 in
        ((λ e. cc (cong k x y.key c, above)), below-differs k x ys c a.1)

    pub above-differs :
        (k x : K) (xs : List (Node K))
        → sign (comp k x) ≡ eq
        → AllAbove comp x xs
        → All (λ y. sign (comp k y.key) ≢ eq) xs
    above-differs k x [] c a = tt
    above-differs k x (y ∷ ys) c a = ((λ e. cc (cong k x y.key c, a.0)), above-differs k x ys c a.1)

    -- A node put between smaller and greater keys answers for its key, and for no other.
    pub find_in-insert :
        (k : K) (xs : List (Node K)) (x : Node K) (ys : List (Node K))
        → AllBelow comp x.key xs
        → find_in k (xs ++ (x ∷ ys)) ≡ on_eq (sign (comp k x.key)) (some x) (find_in k (xs ++ ys))
    find_in-insert k [] x ys lo = refl
    find_in-insert k (w ∷ xs) x ys lo = elim (Ordering-cases (sign (comp k x.key))) [
      | inr (inl c) ↦
          find_in-absent k (w ∷ xs) (x ∷ ys) (below-differs k x.key (w ∷ xs) c lo) ∙ rw c refl
      | inl c ↦
          ap (on_eq (sign (comp k w.key)) (some w)) (find_in-insert k xs x ys lo.1) ∙ rw c refl
      | inr (inr c) ↦
          ap (on_eq (sign (comp k w.key)) (some w)) (find_in-insert k xs x ys lo.1) ∙ rw c refl
    ]

    -- A node taken out leaves nothing for its key, and all others as they were.
    pub find_in-remove :
        (k : K) (xs : List (Node K)) (x : Node K) (ys : List (Node K))
        → AllBelow comp x.key xs
        → AllAbove comp x.key ys
        → find_in k (xs ++ ys) ≡ on_eq (sign (comp k x.key)) none (find_in k (xs ++ (x ∷ ys)))
    find_in-remove k xs x ys lo hi = elim (Ordering-cases (sign (comp k x.key))) [
      | inr (inl c) ↦
          find_in-absent k xs ys (below-differs k x.key xs c lo)
          ∙ ap (find_in k) (sym (append-nil ys))
          ∙ find_in-absent k ys [] (above-differs k x.key ys c hi)
          ∙ rw c refl
      | inl c ↦ rw c (sym (find_in-insert k xs x ys lo ∙ rw c refl))
      | inr (inr c) ↦ rw c (sym (find_in-insert k xs x ys lo ∙ rw c refl))
    ]

    -- On a tree that the calls keep, with a comparator that is an order and treats equal keys alike,
    -- `avl_find` gives what a linear search of the thread gives: the first node whose key compares as
    -- equal, or NULL.
    pub avl_find-find_in :
        (t : AvlTree K) (k : K) → IsAvl comp t → avl_find comp t k ≡ find_in k t.list
    avl_find-find_in t k v = elim (avl_find-Answers comp o t k v.sorted) [
      | inl (x, xs, ys, found, split, c) ↦
          let (_, _, lo, _) =
            IsSorted-split comp o xs x ys (subst (IsSorted comp) split v.sorted) in
          found
          ∙ sym (
              ap (find_in k) (v.thread ∙ split)
              ∙ find_in-absent k xs (x ∷ ys) (below-differs k x.key xs c lo)
              ∙ rw c refl)
      | inr (found, absent) ↦
          found
          ∙ sym (
              ap (find_in k) (v.thread ∙ sym (append-nil (inorder t.root)))
              ∙ find_in-absent k (inorder t.root) [] absent)
    ]

  -- What the search finds is a node of the list.
  pub find_in-All :
      (P : Node K → Type 0) (k : K) (x : Node K) (xs : List (Node K))
      → All P xs
      → find_in k xs ≡ some x
      → P x
  find_in-All P k x [] a e = absurd (cc (e))
  find_in-All P k x (y ∷ ys) a e = elim (Ordering-cases (sign (comp k y.key))) [
    | inr (inl c) ↦
        let same : some y ≡ some x = sym (rw c refl) ∙ e in
        let one : y ≡ x = cc (same) in subst P one a.0
    | inl c ↦
        let rest : find_in k ys ≡ some x = sym (rw c refl) ∙ e in find_in-All P k x ys a.1 rest
    | inr (inr c) ↦
        let rest : find_in k ys ≡ some x = sym (rw c refl) ∙ e in find_in-All P k x ys a.1 rest
  ]
