-- ===== src/KvList/Tests.antt =====
-- A `kvlist` of strings, and the theorems at concrete calls.
use mathlib.Core.Path.{subst}
use openwrt_libubox.Prelude.{
  ℕ, suc, ◌+◌, ◌≡◌, ◌≢◌, refl, sym, arith, Option, none, some, true, false, List, [], ◌∷◌, All, map,
}
use openwrt_libubox.Avl.{Node, avl_find}
use openwrt_libubox.Avl.Insert.{Lacks}
use openwrt_libubox.Avl.Lookup.{find_in, avl_find-find_in}
use openwrt_libubox.Blob.Trusted.{read_bytes}
use openwrt_libubox.KvList.{KvList, avl_strcmp, kvlist_strlen, kvlist_init, kvlist_get, kvlist_free}
use openwrt_libubox.KvList.Compare.{avl_strcmp-IsOrder, avl_strcmp-IsCongruent}
use openwrt_libubox.KvList.Refine.{IsKv}
use openwrt_libubox.KvList.Runs.{
  Call, to_set, to_delete, calls, Map, all_on_map, IsValued, IsRoomy, calls-Refines,
}
use openwrt_libubox.KvList.Free.{kvlist_init-IsKv, kvlist_free-frees}

-- An address above all others.
abbrev above : List (Node (List ℕ)) → ℕ
above [] = 0
above (x ∷ xs) = suc (x.id + above xs)

abbrev calloc_a : KvList → ℕ → ℕ → Option ℕ
calloc_a kv m n = some (above kv.avl.list)

above-Lacks : (n : ℕ) (xs : List (Node (List ℕ))) → All (λ y. y.id ≢ (n + above xs)) xs
above-Lacks n [] = tt
above-Lacks n (x ∷ xs) =
    let next : n + above (x ∷ xs) ≡ (n + suc x.id) + above xs = omega arith in
    (
      (λ e. omega arith),
      subst (λ k. All (λ y. y.id ≢ k) xs) (sym next) (above-Lacks (n + suc x.id) xs),
    )

calloc_a-IsRoomy : IsRoomy calloc_a
calloc_a-IsRoomy kv m n =
    let zero_lem : 0 + above kv.avl.list ≡ above kv.avl.list = omega arith in
    (above kv.avl.list, refl, subst (λ k. Lacks k kv.avl.list) zero_lem (above-Lacks 0 kv.avl.list))

abbrev empty : KvList
empty = kvlist_init (λ j. [])

-- A value for "a", one for "b", another for "a", and "b" deleted twice.
abbrev five : List Call
five =
    to_set (97 ∷ []) (120 ∷ 0 ∷ 5 ∷ [])
    ∷ to_set (98 ∷ []) (0 ∷ [])
    ∷ to_set (97 ∷ []) (121 ∷ 122 ∷ 0 ∷ [])
    ∷ to_delete (98 ∷ [])
    ∷ to_delete (98 ∷ [])
    ∷ []

abbrev no_values : Map
no_values k = none

five_returned : (all_on_map kvlist_strlen five no_values).0 ≡ true ∷ true ∷ true ∷ true ∷ false ∷ []
unfolding all_on_map kvlist_strlen read_bytes avl_strcmp
five_returned = refl

five_value : (all_on_map kvlist_strlen five no_values).1 (97 ∷ []) ≡ some (121 ∷ 122 ∷ 0 ∷ [])
unfolding all_on_map kvlist_strlen read_bytes avl_strcmp
five_value = refl

five-IsValued : All (IsValued kvlist_strlen) five
unfolding kvlist_strlen read_bytes
five-IsValued = (
  (2, 120 ∷ 0 ∷ [], refl, refl),
  ((1, 0 ∷ [], refl, refl), ((3, 121 ∷ 122 ∷ 0 ∷ [], refl, refl), (tt, (tt, tt)))),
)

calls-Refines_example :
    (kv' : KvList) × (calls kvlist_strlen calloc_a five empty
      ≡ some ((all_on_map kvlist_strlen five no_values).0, kv'))
    × IsKv kv'
    × ((k : List ℕ) → kvlist_get k kv' ≡ (all_on_map kvlist_strlen five no_values).1 k)
calls-Refines_example =
    calls-Refines kvlist_strlen calloc_a calloc_a-IsRoomy five empty no_values
      (kvlist_init-IsKv (λ j. [])).0 five-IsValued (kvlist_init-IsKv (λ j. [])).1

-- The list that the first call leaves.
one_call :
    (kv' : KvList) × (calls kvlist_strlen calloc_a (to_set (97 ∷ []) (120 ∷ 0 ∷ []) ∷ []) empty
      ≡ some ((all_on_map kvlist_strlen (to_set (97 ∷ []) (120 ∷ 0 ∷ []) ∷ []) no_values).0, kv'))
    × IsKv kv'
    × ((k : List ℕ)
        → kvlist_get k kv'
          ≡ (all_on_map kvlist_strlen (to_set (97 ∷ []) (120 ∷ 0 ∷ []) ∷ []) no_values).1 k)
unfolding kvlist_strlen read_bytes
one_call =
    calls-Refines kvlist_strlen calloc_a calloc_a-IsRoomy (to_set (97 ∷ []) (120 ∷ 0 ∷ []) ∷ [])
      empty no_values (kvlist_init-IsKv (λ j. [])).0 ((2, 120 ∷ 0 ∷ [], refl, refl), tt)
      (kvlist_init-IsKv (λ j. [])).1

abbrev one_value : KvList
one_value = one_call.0

kvlist_free-frees_example :
    (kv' : KvList) × (kvlist_free one_value ≡ some (map (λ x. x.id) one_value.avl.list, kv'))
    × IsKv kv'
    × ((k : List ℕ) → kvlist_get k kv' ≡ none)
kvlist_free-frees_example = kvlist_free-frees one_value one_call.2

avl_find-find_in_example :
    avl_find avl_strcmp one_value.avl (97 ∷ []) ≡ find_in avl_strcmp (97 ∷ []) one_value.avl.list
avl_find-find_in_example =
    avl_find-find_in avl_strcmp avl_strcmp-IsOrder avl_strcmp-IsCongruent one_value.avl (97 ∷ [])
      one_call.2.tree
