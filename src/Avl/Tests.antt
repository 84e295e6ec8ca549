-- ===== src/Avl/Tests.antt =====
-- avl.c at concrete trees, and the theorems at trees that meet their hypotheses.
use openwrt_libubox.Prelude.{ℕ, ◌+◌, ◌≡◌, refl, arith, true, false, [], ◌∷◌, some, ◌⊎◌}
use openwrt_libubox.Prelude.Int.{ℤ, pos, sub_ℕ}
use openwrt_libubox.Avl.{AvlTree, Node, leaf, node, avl_insert}
use openwrt_libubox.Avl.Delete.{avl_delete, delete_leader, thread_from, avl_remove}
use openwrt_libubox.Avl.Find.{IsOrder, Answers, avl_find-Answers}
use openwrt_libubox.Avl.Invariant.{IsAvl, Inserted, Rejected}
use openwrt_libubox.Avl.Insertion.{avl_insert-IsAvl}
use openwrt_libubox.Avl.Deletion.{avl_delete-IsAvl}

abbrev by_number : ℕ → ℕ → ℤ
by_number a b = sub_ℕ a b

by_number-IsOrder : IsOrder by_number
by_number-IsOrder = record {
  eq_refl = λ a. ground arith;
  gt_of_lt = λ a b h. ground arith;
  lt_of_gt = λ a b h. ground arith;
  lt_trans = λ a b c h k. ground arith;
}

abbrev key : ℕ → Node ℕ
key n = record { id = n + 100; key = n; leader = true }

-- 2 with 1 below it on the left and 3 with 4 on the right.
abbrev four : AvlTree ℕ
four = record {
  root =
      node (node leaf (key 1) (pos 0) leaf) (key 2) (pos 1)
        (node leaf (key 3) (pos 1) (node leaf (key 4) (pos 0) leaf));
  list = key 1 ∷ key 2 ∷ key 3 ∷ key 4 ∷ [];
  count = 4;
  allow_dups = false;
}

four-IsAvl : IsAvl by_number four
four-IsAvl = record {
  thread = refl;
  sorted = ground arith;
  balanced = omega arith;
  counted = refl;
  distinct = omega arith;
  leaders = ground arith;
}

insert_rotates :
    (avl_insert by_number four (key 5)).1.root
    ≡ node
        (node leaf (key 1) (pos 0) leaf)
        (key 2)
        (pos 1)
        (node (node leaf (key 3) (pos 0) leaf) (key 4) (pos 0) (node leaf (key 5) (pos 0) leaf))
unfolding avl_insert
insert_rotates = refl

avl_insert-IsAvl_example : Inserted by_number four (key 5) ⊎ Rejected by_number four (key 5)
avl_insert-IsAvl_example =
    avl_insert-IsAvl by_number by_number-IsOrder four four-IsAvl (key 5) (omega arith) refl

avl_delete-IsAvl_example :
    (u : AvlTree ℕ) × (avl_delete four 102 ≡ some u)
    × (u.list ≡ key 1 ∷ key 3 ∷ key 4 ∷ [])
    × (u.allow_dups ≡ false)
    × IsAvl by_number u
avl_delete-IsAvl_example =
    avl_delete-IsAvl by_number four (key 2) (key 1 ∷ []) (key 3 ∷ key 4 ∷ []) four-IsAvl refl refl

delete_rotates :
    avl_delete four 101
    ≡ some (record {
      root = node (node leaf (key 2) (pos 0) leaf) (key 3) (pos 0) (node leaf (key 4) (pos 0) leaf);
      list = key 2 ∷ key 3 ∷ key 4 ∷ [];
      count = 3;
      allow_dups = false;
    })
unfolding avl_delete delete_leader thread_from avl_remove
delete_rotates = refl

avl_find-Answers_example : Answers by_number four 3
avl_find-Answers_example = avl_find-Answers by_number by_number-IsOrder four 3 four-IsAvl.sorted
