-- ===== src/Avl/Invariant.antt =====
-- The invariant of a tree without duplicate keys, and what a node put in its place does to it.
use mathlib.Core.Path.{subst}
use Prim.Native.Nat.Ordering.{lt, eq}
use openwrt_libubox.Prelude.{
  ◌+◌, ◌≡◌, sym, ap, ◌∙◌, ◌≢◌, arith, true, List, [], ◌∷◌, ◌++◌, All, All-append, append-All,
  length, length-append,
}
use openwrt_libubox.Prelude.Int.{ℤ, pos, negsuc}
use openwrt_libubox.Avl.{AvlTree, Node, Tree, sign, avl_insert}
use openwrt_libubox.Avl.Order.{inorder}
use openwrt_libubox.Avl.Balance.{IsBalanced}
use openwrt_libubox.Avl.Find.{IsOrder, AllBelow, AllAbove, IsSorted}
use openwrt_libubox.Avl.Insert.{IsDistinct, Lacks, AllLeaders}

module _ {ℓ} {K : Type ℓ} (comp : K → K → ℤ) where
  -- A tree that the calls keep: the thread is the tree's nodes in key order, the tree is balanced,
  -- `count` is their number, and no two nodes share an address.
  pub record IsAvl (t : AvlTree K) : Type ℓ where
    pub thread : t.list ≡ inorder t.root
    pub sorted : IsSorted comp (inorder t.root)
    pub balanced : IsBalanced t.root
    pub counted : t.count ≡ length t.list
    pub distinct : IsDistinct t.list
    pub leaders : AllLeaders t.list

  -- The new node has its place in the thread between the keys below it and those above it.
  abbrev pub Inserted : AvlTree K → Node K → Type ℓ
  Inserted t new =
      (u : AvlTree K) × (xs : List (Node K)) × (ys : List (Node K)) × (avl_insert comp t new
        ≡ (pos 0, u))
      × (t.list ≡ xs ++ ys)
      × (u.list ≡ xs ++ (record new { leader = true } ∷ ys))
      × AllBelow comp new.key xs
      × AllAbove comp new.key ys
      × (u.allow_dups ≡ t.allow_dups)
      × IsAvl u

  -- A node of the same key is there, and the tree is left as it was.
  abbrev pub Rejected : AvlTree K → Node K → Type ℓ
  Rejected t new =
      (x : Node K) × (xs : List (Node K)) × (ys : List (Node K)) × (t.list ≡ xs ++ (x ∷ ys))
      × (sign (comp new.key x.key) ≡ eq)
      × (avl_insert comp t new ≡ (negsuc 0, t))

  module _ (o : IsOrder comp) where
    IsSorted-append :
        (xs ys : List (Node K)) → IsSorted comp (xs ++ ys) → IsSorted comp xs × IsSorted comp ys
    IsSorted-append [] ys s = (tt, s)
    IsSorted-append (x ∷ xs) ys s =
        let (a, b) = IsSorted-append xs ys s.1 in
        (((All-append (λ y. sign (comp x.key y.key) ≡ lt) xs ys s.0).0, a), b)

    IsSorted-insert :
        (xs ys : List (Node K)) (new : Node K)
        → IsSorted comp (xs ++ ys)
        → AllBelow comp new.key xs
        → AllAbove comp new.key ys
        → IsSorted comp (xs ++ (new ∷ ys))
    IsSorted-insert [] ys new s lo hi = (hi, s)
    IsSorted-insert (x ∷ xs) ys new s lo hi =
        let P : Node K → Type 0 = λ y. sign (comp x.key y.key) ≡ lt in
        (
          append-All P xs (new ∷ ys) (All-append P xs ys s.0).0 (lo.0, (All-append P xs ys s.0).1),
          IsSorted-insert xs ys new s.1 lo.1 hi,
        )

  All-insert :
      (P : Node K → Type 0) (xs ys : List (Node K)) (new : Node K)
      → All P (xs ++ ys)
      → P new
      → All P (xs ++ (new ∷ ys))
  All-insert P [] ys new a p = (p, a)
  All-insert P (x ∷ xs) ys new a p = (a.0, All-insert P xs ys new a.1 p)

  IsDistinct-insert :
      (xs ys : List (Node K)) (new : Node K)
      → IsDistinct (xs ++ ys)
      → Lacks new.id (xs ++ ys)
      → IsDistinct (xs ++ (new ∷ ys))
  IsDistinct-insert [] ys new d l = (l, d)
  IsDistinct-insert (x ∷ xs) ys new d l = (
    All-insert (λ y. y.id ≢ x.id) xs ys new d.0 (λ e. l.0 (sym e)),
    IsDistinct-insert xs ys new d.1 l.1,
  )

  module _ (o : IsOrder comp) where
    -- The new state's invariant, from where the new node went.
    pub insert-IsAvl :
        (t : AvlTree K) (xs ys thread : List (Node K)) (new : Node K) (R : Tree K)
        → IsAvl t
        → t.list ≡ xs ++ ys
        → Lacks new.id t.list
        → new.leader ≡ true
        → AllBelow comp new.key xs
        → AllAbove comp new.key ys
        → IsBalanced R
        → inorder R ≡ xs ++ (new ∷ ys)
        → thread ≡ xs ++ (new ∷ ys)
        → IsAvl (record t { root = R; list = thread; count = t.count + 1 })
    insert-IsAvl t xs ys thread new R v split lacks lead lo hi bal order at_place = record {
      thread = at_place ∙ sym order;
      sorted = rw order (
          IsSorted-insert o xs ys new (subst (IsSorted comp) (sym v.thread ∙ split) v.sorted) lo
            hi);
      balanced = bal;
      counted = omega (
        arith,
        v.counted,
        ap length split,
        ap length at_place,
        length-append xs ys,
        length-append xs (new ∷ ys),
      );
      distinct = rw at_place (
          IsDistinct-insert xs ys new (subst IsDistinct split v.distinct)
            (subst (Lacks new.id) split lacks));
      leaders =
          rw at_place
            (All-insert (λ y. y.leader ≡ true) xs ys new (subst AllLeaders split v.leaders) lead);
    }
