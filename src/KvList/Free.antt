-- ===== src/KvList/Free.antt =====
-- `kvlist_init` and `kvlist_free`.
use openwrt_libubox.Prelude.{ℕ, ◌≡◌, refl, some, none, List, [], ◌∷◌, length, map}
use openwrt_libubox.Avl.{Node, leaf, avl_init, avl_find, avl_find_rec}
use openwrt_libubox.KvList.{KvList, kvlist_init, kvlist_get, kvlist_free, remove_all}
use openwrt_libubox.KvList.Refine.{IsKv}

empty-IsKv : (memory : ℕ → List ℕ) → IsKv (kvlist_init memory)
unfolding kvlist_init avl_init
empty-IsKv memory = record {
  tree = record {
    thread = refl;
    sorted = tt;
    balanced = tt;
    counted = refl;
    distinct = tt;
    leaders = tt;
  };
  unique = refl;
}

-- An initialised list is well-formed and has no value for any name.
pub kvlist_init-IsKv :
    (memory : ℕ → List ℕ)
    → IsKv (kvlist_init memory) × ((k : List ℕ) → kvlist_get k (kvlist_init memory) ≡ none)
unfolding kvlist_init avl_init kvlist_get avl_find avl_find_rec
kvlist_init-IsKv memory = (empty-IsKv memory, λ k. refl)

remove_all-whole :
    (xs : List (Node (List ℕ))) (n : ℕ)
    → n ≡ length xs
    → remove_all n xs ≡ some (map (λ x. x.id) xs)
unfolding remove_all
remove_all-whole [] n e = rw e refl
remove_all-whole (x ∷ xs) n e = rw e (rw (remove_all-whole xs (length xs) refl) refl)

-- `kvlist_free` on a well-formed list frees each node of the thread once, in order, steps past no node,
-- and leaves a well-formed list without values.
pub kvlist_free-frees :
    (kv : KvList)
    → IsKv kv
    → (kv' : KvList) × (kvlist_free kv ≡ some (map (λ x. x.id) kv.avl.list, kv'))
      × IsKv kv'
      × ((k : List ℕ) → kvlist_get k kv' ≡ none)
unfolding kvlist_free avl_find avl_find_rec kvlist_get
kvlist_free-frees kv w = (
  record kv { avl = record kv.avl { root = leaf; list = []; count = 0 } },
  rw (remove_all-whole kv.avl.list kv.avl.count w.tree.counted) refl,
  record {
    tree = record {
      thread = refl;
      sorted = tt;
      balanced = tt;
      counted = refl;
      distinct = tt;
      leaders = tt;
    };
    unique = w.unique;
  },
  λ k. refl,
)
