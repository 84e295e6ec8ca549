-- ===== src/VList/Tests.antt =====
-- Trees of numbers with versions, and the theorems at them.
use openwrt_libubox.Prelude.{
  ℕ, suc, ◌+◌, ◌==◌, if◌then◌else◌, ◌≡◌, refl, arith, Option, none, some, true, false, List, [],
  ◌∷◌, map,
}
use openwrt_libubox.Prelude.Int.{ℤ, ◌+ℤ◌, pos, negsuc, sub_ℕ}
use openwrt_libubox.Avl.{AvlTree, Node, leaf, node, sign, avl_find}
use openwrt_libubox.Avl.Find.{IsOrder}
use openwrt_libubox.Avl.Lookup.{IsCongruent, on_eq}
use openwrt_libubox.VList.{VlistTree, is_current, vlist_add, vlist_flush, vlist_flush_all}
use openwrt_libubox.VList.Flush.{
  IsVlist, noting, handing, handed, Split, reports, vlist_flush-Flushed, vlist_flush_all-empties,
}
use openwrt_libubox.VList.Add.{added_node, id_of, vlist_add-Reports}
use openwrt_libubox.VList.Adds.{last_added}
use openwrt_libubox.VList.Refresh.{refresh, refresh-Exact}

abbrev by_number : ℕ → ℕ → ℤ
by_number a b = sub_ℕ a b

number-IsOrder : IsOrder by_number
number-IsOrder = record {
  eq_refl = λ a. ground arith;
  gt_of_lt = λ a b h. ground arith;
  lt_of_gt = λ a b h. ground arith;
  lt_trans = λ a b c h k. ground arith;
}

number-IsCongruent : IsCongruent by_number
number-IsCongruent a b c h = ground (arith, h)

abbrev at_number : ℕ → Node ℕ
at_number n = record { id = n + 100; key = n; leader = true }

-- Nodes 1, 2 and 3; the version of node 2 is -1, that of the others 4.
abbrev three : VlistTree ℕ
three = record {
  avl = record {
    root =
        node (node leaf (at_number 1) (pos 0) leaf) (at_number 2) (pos 0)
          (node leaf (at_number 3) (pos 0) leaf);
    list = at_number 1 ∷ at_number 2 ∷ at_number 3 ∷ [];
    count = 3;
    allow_dups = false;
  };
  keep_old = false;
  no_delete = false;
  version = pos 5;
  version_of = λ j. if j == 102 then negsuc 0 else pos 4;
}

three-IsVlist : IsVlist by_number three
three-IsVlist = record {
  tree = record {
    thread = refl;
    sorted = ground arith;
    balanced = omega arith;
    counted = refl;
    distinct = omega arith;
    leaders = ground arith;
  };
  unique = refl;
}

-- The same, with version 4 for all nodes.
abbrev aged : VlistTree ℕ
aged = record three { version = pos 4; version_of = λ j. pos 4 }

aged-IsVlist : IsVlist by_number aged
aged-IsVlist = record { tree = three-IsVlist.tree; unique = refl }

-- The two older nodes are reported, and node 2 stays.
flush_log : reports (is_current three) three.avl.list ≡ (none, some 101) ∷ (none, some 103) ∷ []
flush_log = refl

-- A callback that counts the nodes it gets as old.
abbrev count_old : Option ℕ → Option ℕ → ℕ → ℕ
count_old new none n = n
count_old new (some a) n = suc n

vlist_flush-Flushed_example :
    (t : AvlTree ℕ) × (rs : List (Option ℕ × Option ℕ)) × (vlist_flush by_number
        (handing count_old)
        4
        three
        0
      ≡ some (record three { avl = t }, handed count_old rs 0))
    × IsVlist by_number (record three { avl = t })
    × Split three three.avl.list t.list rs
vlist_flush-Flushed_example =
    vlist_flush-Flushed by_number count_old 4 three 0 three-IsVlist refl (omega arith)

vlist_flush_all-empties_example :
    (v' : VlistTree ℕ) × (vlist_flush_all by_number noting 4 three []
      ≡ some (v', map (λ x. (none, some x.id)) three.avl.list))
    × IsVlist by_number v'
    × (v'.avl.list ≡ [])
vlist_flush_all-empties_example =
    vlist_flush_all-empties by_number 4 three three-IsVlist refl (omega arith)

-- Node 7 replaces node 102 of key 2.
vlist_add-Reports_example :
    (v' : VlistTree ℕ) × (vlist_add by_number noting 7 2 three []
      ≡ some (v', (some 7, id_of (avl_find by_number three.avl 2)) ∷ []))
    × IsVlist by_number v'
    × (v'.version_of 7 ≡ pos 5)
    × ((k : ℕ)
        → avl_find by_number v'.avl k
          ≡ on_eq (sign (by_number k 2)) (some (added_node 7 2)) (avl_find by_number three.avl k))
vlist_add-Reports_example =
    vlist_add-Reports by_number number-IsOrder number-IsCongruent 7 2 three [] three-IsVlist refl
      refl (omega arith)

-- Keys 2 and 5 are added again and anew.
refresh-Exact_example :
    (v' : VlistTree ℕ) × (log : List (Option ℕ × Option ℕ)) × (refresh by_number 6
        ((7, 2) ∷ (8, 5) ∷ [])
        aged
      ≡ some (v', log))
    × IsVlist by_number v'
    × ((k : ℕ) → avl_find by_number v'.avl k ≡ last_added by_number k ((7, 2) ∷ (8, 5) ∷ []) none)
unfolding ◌+ℤ◌
refresh-Exact_example =
    refresh-Exact by_number number-IsOrder number-IsCongruent 6 ((7, 2) ∷ (8, 5) ∷ []) aged
      aged-IsVlist refl refl (ground arith) (ground arith) (omega arith) (omega arith)
