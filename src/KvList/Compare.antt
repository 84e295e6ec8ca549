-- ===== src/KvList/Compare.antt =====
-- `avl_strcmp` is an order of names that tells all names apart.
use Prim.Native.Nat.Ordering.{lt, eq, gt}
use openwrt_libubox.Prelude.{ℕ, List, [], ◌∷◌, ◌≡◌, refl, arith}
use openwrt_libubox.Avl.{sign}
use openwrt_libubox.Avl.Find.{IsOrder}
use openwrt_libubox.Avl.Lookup.{IsCongruent}
use openwrt_libubox.KvList.{avl_strcmp}

same : (a : List ℕ) → sign (avl_strcmp a a) ≡ eq
unfolding avl_strcmp
same [] = refl
same (x ∷ xs) = ground (arith, same xs)

swap_lt : (a b : List ℕ) → sign (avl_strcmp a b) ≡ lt → sign (avl_strcmp b a) ≡ gt
unfolding avl_strcmp
swap_lt [] [] h = cc
swap_lt [] (y ∷ ys) h = refl
swap_lt (x ∷ xs) [] h = cc
swap_lt (x ∷ xs) (y ∷ ys) h = ground (arith, h, swap_lt xs ys)

swap_gt : (a b : List ℕ) → sign (avl_strcmp a b) ≡ gt → sign (avl_strcmp b a) ≡ lt
unfolding avl_strcmp
swap_gt [] [] h = cc
swap_gt [] (y ∷ ys) h = cc
swap_gt (x ∷ xs) [] h = refl
swap_gt (x ∷ xs) (y ∷ ys) h = ground (arith, h, swap_gt xs ys)

pub avl_strcmp-eq : (a b : List ℕ) → sign (avl_strcmp a b) ≡ eq → a ≡ b
unfolding avl_strcmp
avl_strcmp-eq [] [] h = refl
avl_strcmp-eq [] (y ∷ ys) h = cc
avl_strcmp-eq (x ∷ xs) [] h = cc
avl_strcmp-eq (x ∷ xs) (y ∷ ys) h = ground (arith, h, avl_strcmp-eq xs ys)

chain :
    (a b c : List ℕ)
    → sign (avl_strcmp a b) ≡ lt
    → sign (avl_strcmp b c) ≡ lt
    → sign (avl_strcmp a c) ≡ lt
unfolding avl_strcmp
chain [] [] c h k = cc
chain [] (y ∷ ys) [] h k = cc
chain [] (y ∷ ys) (z ∷ zs) h k = refl
chain (x ∷ xs) [] c h k = cc
chain (x ∷ xs) (y ∷ ys) [] h k = cc
chain (x ∷ xs) (y ∷ ys) (z ∷ zs) h k = ground (arith, h, k, chain xs ys zs)

pub avl_strcmp-IsOrder : IsOrder avl_strcmp
avl_strcmp-IsOrder = record {
  eq_refl = same;
  gt_of_lt = swap_lt;
  lt_of_gt = swap_gt;
  lt_trans = chain;
}

pub avl_strcmp-IsCongruent : IsCongruent avl_strcmp
avl_strcmp-IsCongruent a b c h = rw (avl_strcmp-eq a b h) refl
