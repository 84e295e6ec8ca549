-- ===== src/Avl/Find.antt =====
-- Where `avl_find_rec` ends, and what `avl_find` answers.
use mathlib.Core.List.{append_assoc}
use Prim.Native.Nat.{Ordering}
use Prim.Native.Nat.Ordering.{lt, eq, gt}
use openwrt_libubox.Prelude.{
  ◌≡◌, refl, ◌≢◌, arith, List, [], ◌∷◌, ◌++◌, All, All-append, append-All, none, some, ◌⊎◌, inl,
  inr,
}
use openwrt_libubox.Prelude.Int.{ℤ}
use openwrt_libubox.Avl.{
  AvlTree, Node, Tree, leaf, node, Way, top, in_left, in_right, plug, sign, Focus, avl_find_rec,
  avl_find,
}
use openwrt_libubox.Avl.Order.{inorder, lefts, rights, inorder-plug}

-- What a comparator of the tree has to be: a strict order of the keys, up to equal keys.
pub record IsOrder {ℓ} {K : Type ℓ} (comp : K → K → ℤ) : Type ℓ where
  pub eq_refl : (a : K) → sign (comp a a) ≡ eq
  pub gt_of_lt : (a b : K) → sign (comp a b) ≡ lt → sign (comp b a) ≡ gt
  pub lt_of_gt : (a b : K) → sign (comp a b) ≡ gt → sign (comp b a) ≡ lt
  pub lt_trans : (a b c : K) → sign (comp a b) ≡ lt → sign (comp b c) ≡ lt → sign (comp a c) ≡ lt

pub Ordering-cases : (c : Ordering) → (c ≡ lt) ⊎ ((c ≡ eq) ⊎ (c ≡ gt))
Ordering-cases lt = inl refl
Ordering-cases eq = inr (inl refl)
Ordering-cases gt = inr (inr refl)

pub leaf_cases {ℓ} : {K : Type ℓ} (t : Tree K) → (t ≡ leaf) ⊎ (t ≢ leaf)
leaf_cases leaf = inl refl
leaf_cases (node l x b r) = inr (λ e. cc)

abbrev pub here {ℓ} : {K : Type ℓ} → Tree K → Node K → ℤ → Tree K → Way K → ℤ → Focus K
here l x b r up d = record { left = l; self = x; bal = b; right = r; up = up; diff = d }

module _ {ℓ} {K : Type ℓ} (comp : K → K → ℤ) where
  pub find_rec-leaf : (k : K) (t : Tree K) (up : Way K) → t ≡ leaf → avl_find_rec comp k t up ≡ none
  unfolding avl_find_rec
  find_rec-leaf k leaf up e = refl
  find_rec-leaf k (node l x b r) up e = cc

  -- All nodes of a list have keys below `k`, or above it.
  abbrev pub AllBelow : K → List (Node K) → Type 0
  AllBelow k = All (λ y. sign (comp y.key k) ≡ lt)

  abbrev pub AllAbove : K → List (Node K) → Type 0
  AllAbove k = All (λ y. sign (comp k y.key) ≡ lt)

  -- Keys rise strictly along the list.
  abbrev pub IsSorted : List (Node K) → Type 0
  IsSorted [] = Unit {0}
  IsSorted (x ∷ xs) = AllAbove x.key xs × IsSorted xs

  -- The focus lies in the tree, the child on the side of `k` is NULL, and `k` lies between what is
  -- left of the way and what is right of it.
  abbrev pub Stops : K → Tree K → Focus K → Type ℓ
  Stops k whole f =
      (plug f.up (node f.left f.self f.bal f.right) ≡ whole)
      × (f.diff ≡ comp k f.self.key)
      × (sign (comp k f.self.key) ≡ lt → f.left ≡ leaf)
      × (sign (comp k f.self.key) ≡ gt → f.right ≡ leaf)
      × AllBelow k (lefts f.up)
      × AllAbove k (rights f.up)

  -- A node of the list whose key equals `k`, or NULL and no node has such a key.
  abbrev pub Answers : AvlTree K → K → Type ℓ
  Answers t k =
      ((x : Node K) × (xs : List (Node K)) × (ys : List (Node K)) × (avl_find comp t k ≡ some x)
        × (inorder t.root ≡ xs ++ (x ∷ ys))
        × (sign (comp k x.key) ≡ eq))
      ⊎ ((avl_find comp t k ≡ none) × All (λ y. sign (comp k y.key) ≢ eq) (inorder t.root))

  module _ (o : IsOrder comp) where
    AllBelow-lt :
        (a b : K) (xs : List (Node K)) → sign (comp a b) ≡ lt → AllBelow a xs → AllBelow b xs
    AllBelow-lt a b [] h v = tt
    AllBelow-lt a b (x ∷ xs) h v = (o.lt_trans x.key a b v.0 h, AllBelow-lt a b xs h v.1)

    AllAbove-lt :
        (a b : K) (xs : List (Node K)) → sign (comp a b) ≡ lt → AllAbove b xs → AllAbove a xs
    AllAbove-lt a b [] h v = tt
    AllAbove-lt a b (x ∷ xs) h v = (o.lt_trans a b x.key h v.0, AllAbove-lt a b xs h v.1)

    -- A sorted list around one of its nodes.
    pub IsSorted-split :
        (xs : List (Node K)) (x : Node K) (ys : List (Node K))
        → IsSorted (xs ++ (x ∷ ys))
        → IsSorted xs × IsSorted ys × AllBelow x.key xs × AllAbove x.key ys
    IsSorted-split [] x ys s = (tt, s.1, tt, s.0)
    IsSorted-split (w ∷ xs) x ys s =
        let (a, b, c, d) = IsSorted-split xs x ys s.1 in
        let (p, q) = All-append (λ y. sign (comp w.key y.key) ≡ lt) xs (x ∷ ys) s.0 in
        ((p, a), b, (q.0, c), d)

    -- The search from a subtree, on the way to which `k` was compared.
    pub find_rec-Stops :
        (k : K) (t : Tree K) (up : Way K)
        → t ≢ leaf
        → IsSorted (inorder t)
        → AllBelow k (lefts up)
        → AllAbove k (rights up)
        → (f : Focus K) × (avl_find_rec comp k t up ≡ some f) × Stops k (plug up t) f
    unfolding avl_find_rec
    find_rec-Stops k leaf up n s lo hi = absurd (n refl)
    find_rec-Stops k (node l x b r) up n s lo hi =
        let (sl, sr, below, above) = IsSorted-split (inorder l) x (inorder r) s in
        elim (Ordering-cases (sign (comp k x.key))) [
          | inl c ↦
              let hi' : AllAbove k (rights (in_left x b r up)) = (
                c,
                append-All (λ y. sign (comp k y.key) ≡ lt) (inorder r) (rights up)
                    (AllAbove-lt k x.key (inorder r) c above) hi,
              ) in
              elim (leaf_cases l) [
                | inl e ↦ (
                  here l x b r up (comp k x.key),
                  ground (arith, c, find_rec-leaf k l (in_left x b r up) e),
                  (refl, refl, λ _. e, λ g. cc (c, g), lo, hi),
                )
                | inr ne ↦
                    let (f, found, w) = find_rec-Stops k l (in_left x b r up) ne sl lo hi' in
                    (f, ground (arith, c, found), w)
              ]
          | inr (inl c) ↦ (
            here l x b r up (comp k x.key),
            ground (arith, c),
            (refl, refl, λ h. cc (c, h), λ h. cc (c, h), lo, hi),
          )
          | inr (inr c) ↦
              let lo' : AllBelow k (lefts (in_right l x b up)) =
                append-All (λ y. sign (comp y.key k) ≡ lt) (lefts up) (inorder l ++ (x ∷ [])) lo
                  (append-All (λ y. sign (comp y.key k) ≡ lt) (inorder l) (x ∷ [])
                    (AllBelow-lt x.key k (inorder l) (o.lt_of_gt k x.key c) below)
                    (o.lt_of_gt k x.key c, tt)) in
              elim (leaf_cases r) [
                | inl e ↦ (
                  here l x b r up (comp k x.key),
                  ground (arith, c, find_rec-leaf k r (in_right l x b up) e),
                  (refl, refl, λ g. cc (c, g), λ _. e, lo, hi),
                )
                | inr ne ↦
                    let (f, found, w) = find_rec-Stops k r (in_right l x b up) ne sr lo' hi in
                    (f, ground (arith, c, found), w)
              ]
        ]

    -- No key in the list equals `k`, where `k` has a place strictly between its nodes.
    differs :
        (k : K) (xs ys : List (Node K))
        → AllBelow k xs
        → AllAbove k ys
        → All (λ y. sign (comp k y.key) ≢ eq) (xs ++ ys)
    differs k [] [] lo hi = tt
    differs k [] (y ∷ ys) lo hi = ((λ e. cc), differs k [] ys tt hi.1)
    differs k (x ∷ xs) ys lo hi = ((λ e. cc (o.gt_of_lt x.key k lo.0)), differs k xs ys lo.1 hi)

    pub focus-inorder :
        (t : Tree K) (f : Focus K)
        → plug f.up (node f.left f.self f.bal f.right) ≡ t
        → inorder t ≡ (lefts f.up ++ inorder f.left) ++ (f.self ∷ (inorder f.right ++ rights f.up))
    focus-inorder t f e =
        rw (← e, inorder-plug f.up (node f.left f.self f.bal f.right)) (simp append_assoc)

    -- What the nodes around the focus are.
    pub Stops-sides :
        (k : K) (t : Tree K) (f : Focus K)
        → Stops k t f
        → IsSorted (inorder t)
        → (AllBelow f.self.key (lefts f.up ++ inorder f.left))
          × (AllAbove f.self.key (inorder f.right ++ rights f.up))
    Stops-sides k t f w s =
        let (a, b, c, d) =
          IsSorted-split (lefts f.up ++ inorder f.left) f.self (inorder f.right ++ rights f.up)
            (rw (focus-inorder t f w.0) at s) in
        (c, d)

    -- A key that differs from the focus's key belongs just before the focus, or just behind it.
    pub gap-lt :
        (k : K) (t : Tree K) (f : Focus K)
        → Stops k t f
        → IsSorted (inorder t)
        → sign (comp k f.self.key) ≡ lt
        → AllBelow k (lefts f.up ++ inorder f.left)
          × AllAbove k (f.self ∷ (inorder f.right ++ rights f.up))
    gap-lt k t f w s c = (
      append-All (λ y. sign (comp y.key k) ≡ lt) (lefts f.up) (inorder f.left) w.4 (rw (w.2 c) tt),
      (c, AllAbove-lt k f.self.key (inorder f.right ++ rights f.up) c (Stops-sides k t f w s).1),
    )

    pub gap-gt :
        (k : K) (t : Tree K) (f : Focus K)
        → Stops k t f
        → IsSorted (inorder t)
        → sign (comp k f.self.key) ≡ gt
        → AllBelow k ((lefts f.up ++ inorder f.left) ++ (f.self ∷ []))
          × AllAbove k (inorder f.right ++ rights f.up)
    gap-gt k t f w s c =
        let above = o.lt_of_gt k f.self.key c in
        (
          append-All (λ y. sign (comp y.key k) ≡ lt) (lefts f.up ++ inorder f.left) (f.self ∷ [])
              (AllBelow-lt f.self.key k (lefts f.up ++ inorder f.left) above
                (Stops-sides k t f w s).0)
              (above, tt),
          append-All (λ y. sign (comp k y.key) ≡ lt) (inorder f.right) (rights f.up) (rw (w.3 c) tt)
              w.5,
        )

    -- `avl_find` answers with a node of the list whose key equals `k`; it answers NULL only where no
    -- node has such a key.
    pub avl_find-Answers : (t : AvlTree K) (k : K) → IsSorted (inorder t.root) → Answers t k
    unfolding avl_find
    avl_find-Answers t k s = elim (leaf_cases t.root) [
      | inl e ↦ inr (ground (arith, find_rec-leaf k t.root top e), rw e tt)
      | inr ne ↦
          let (f, found, w) = find_rec-Stops k t.root top ne s tt tt in
          let split = focus-inorder t.root f w.0 in
          elim (Ordering-cases (sign (comp k f.self.key))) [
            | inr (inl c) ↦ inl (
              f.self,
              lefts f.up ++ inorder f.left,
              inorder f.right ++ rights f.up,
              ground (arith, found, c, w.1),
              split,
              c,
            )
            | inl c ↦
                let (lo, hi) = gap-lt k t.root f w s c in
                inr (
                  ground (arith, found, c, w.1),
                  rw split (differs k (lefts f.up ++ inorder f.left) _ lo hi),
                )
            | inr (inr c) ↦
                let (lo, hi) = gap-gt k t.root f w s c in
                inr (
                  ground (arith, found, c, w.1),
                  rw
                      (
                        split,
                        ← append_assoc (lefts f.up ++ inorder f.left) (f.self ∷ [])
                            (inorder f.right ++ rights f.up),
                      )
                      (differs k ((lefts f.up ++ inorder f.left) ++ (f.self ∷ [])) _ lo hi),
                )
          ]
    ]
