-- ===== src/KvList.antt =====
-- kvlist.c and the string comparator of avl-cmp.c: values by name, on an AVL tree. A name is the list
-- of its bytes before the NUL; a value is the list of the bytes that can be read at it. A node is known
-- by its address, where its `data` stands. The names and values that callers pass lie outside the list.
mod Compare
mod Refine
mod Runs
mod Free
mod Tests
use openwrt_libubox.Prelude.{
  ℕ, zero, suc, ◌+◌, List, [], ◌∷◌, Option, none, some, Bool, true, false, ltb, ◌==◌, if◌then◌else◌,
  ◌>>=◌, length, map,
}
use openwrt_libubox.Prelude.Int.{ℤ, pos, negsuc}
use openwrt_libubox.Avl.{AvlTree, Node, leaf, avl_init, avl_find, avl_insert}
use openwrt_libubox.Avl.Delete.{avl_delete}
use openwrt_libubox.Blob.{blob_pad_len, read_be32}
use openwrt_libubox.Blob.Trusted.{read_bytes}

-- `avl_strcmp`, that is, `strcmp`; C fixes only the sign of the result.
unfoldable pub avl_strcmp : List ℕ → List ℕ → ℤ
avl_strcmp [] [] = pos 0
avl_strcmp [] (b ∷ bs) = negsuc 0
avl_strcmp (a ∷ more) [] = pos 1
avl_strcmp (a ∷ more) (b ∷ bs) =
    let rest = avl_strcmp more bs in if a == b then rest else if ltb a b then negsuc 0 else pos 1

-- `struct kvlist` but for `get_len`, and the values of the nodes.
pub record KvList : Type 0 where
  pub avl : AvlTree (List ℕ)
  pub data_of : ℕ → List ℕ

-- `strlen`; none for bytes without a NUL.
abbrev pub strlen : List ℕ → Option ℕ
strlen [] = none
strlen (zero ∷ bs) = some 0
strlen (suc b ∷ bs) = strlen bs >>= λ n. some (n + 1)

-- The int it returns is an unbounded number.
unfoldable pub kvlist_strlen : List ℕ → Option ℕ
kvlist_strlen value = strlen value >>= λ n. some (n + 1)

unfoldable pub kvlist_blob_len : List ℕ → Option ℕ
kvlist_blob_len value = read_be32 value 0 >>= λ w. some (blob_pad_len w)

unfoldable pub kvlist_init : (ℕ → List ℕ) → KvList
kvlist_init memory = record { avl = avl_init false; data_of = memory }

-- The data of a node that was searched for.
abbrev pub data_at : (ℕ → List ℕ) → Option (Node (List ℕ)) → Option (List ℕ)
data_at memory none = none
data_at memory (some x) = some (memory x.id)

unfoldable pub kvlist_get : List ℕ → KvList → Option (List ℕ)
kvlist_get name kv = data_at kv.data_of (avl_find avl_strcmp kv.avl name)

-- `kvlist_delete`, once the node was searched for.
abbrev pub delete_found : KvList → Option (Node (List ℕ)) → Option (Bool × KvList)
delete_found kv none = some (false, kv)
delete_found kv (some x) = avl_delete kv.avl x.id >>= λ t. some (true, record kv { avl = t })

unfoldable pub kvlist_delete : List ℕ → KvList → Option (Bool × KvList)
kvlist_delete name kv = delete_found kv (avl_find avl_strcmp kv.avl name)

-- The new node, with its value copied to it.
abbrev pub add_node : ℕ → List ℕ → List ℕ → KvList → KvList
add_node a name bytes kv = record kv {
  avl = (avl_insert avl_strcmp kv.avl (record { id = a; key = name; leader = false })).1;
  data_of = λ j. if j == a then bytes else kv.data_of j;
}

-- `kvlist_set`, with what `calloc_a` gives.
abbrev pub set_at : List ℕ → List ℕ → ℕ → Option ℕ → KvList → Option (Bool × KvList)
set_at name value len none kv = some (false, kv)
set_at name value len (some a) kv = kvlist_delete name kv >>= λ r.
    read_bytes value len 0 >>= λ bytes. some (true, add_node a name bytes r.1)

-- `get_len` is that of the list. `calloc_a` gets the sizes of the value and of the name, and gives
-- the address of the node, or none; where nothing is freed, what is allocated follows from the list.
module _ (get_len : List ℕ → Option ℕ) (calloc_a : KvList → ℕ → ℕ → Option ℕ) where
  unfoldable pub kvlist_set : List ℕ → List ℕ → KvList → Option (Bool × KvList)
  kvlist_set name value kv =
      get_len value >>= λ len. set_at name value len (calloc_a kv len (length name + 1)) kv

-- The loop of `avl_remove_all_elements`, with the node at `count` steps from its end: the addresses that
-- `free` gets, in order. None is a step past the last node.
unfoldable pub remove_all : ℕ → List (Node (List ℕ)) → Option (List ℕ)
remove_all zero rest = some []
remove_all (suc count) [] = none
remove_all (suc count) (x ∷ rest) = remove_all count rest >>= λ freed. some (x.id ∷ freed)

unfoldable pub kvlist_free : KvList → Option (List ℕ × KvList)
kvlist_free kv = remove_all kv.avl.count kv.avl.list >>= λ freed.
    some (freed, record kv { avl = record kv.avl { root = leaf; list = []; count = 0 } })
