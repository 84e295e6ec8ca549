-- ===== src/VList.antt =====
-- vlist.c: a list of nodes with versions, on an AVL tree. A node is known by its address.
mod Flush
mod Add
mod Adds
mod Refresh
mod Tests
use openwrt_libubox.Prelude.{
  ℕ, zero, suc, List, [], ◌∷◌, Option, none, some, Bool, true, false, not, ◌==◌, ◌||◌, ◌&&◌,
  if◌then◌else◌, ◌>>=◌,
}
use openwrt_libubox.Prelude.Int.{ℤ, pos, negsuc, eq_ℤ, ◌+ℤ◌}
use openwrt_libubox.Avl.{AvlTree, Node, avl_init, avl_find, avl_insert}
use openwrt_libubox.Avl.Delete.{avl_delete}

-- `struct vlist_tree` but for `update`, and the versions of the nodes by address. A version is
-- an unbounded integer, in the code an int.
pub record VlistTree {ℓ} (K : Type ℓ) : Type ℓ where
  pub avl : AvlTree K
  pub keep_old : Bool
  pub no_delete : Bool
  pub version : ℤ
  pub version_of : ℕ → ℤ

module _ {ℓ} {K : Type ℓ} where
  -- `vlist_init` leaves `keep_old` and `no_delete` as they are.
  unfoldable pub vlist_init : VlistTree K → VlistTree K
  vlist_init v = record v { avl = avl_init false; version = pos 1 }

  unfoldable pub vlist_update : VlistTree K → VlistTree K
  vlist_update v = record v { version = v.version +ℤ pos 1 }

  abbrev pub set_version : ℕ → VlistTree K → VlistTree K
  set_version a v = record v { version_of = λ j. if j == a then v.version else v.version_of j }

  -- The first node of a thread, and the one behind the node at an address.
  abbrev pub first : List (Node K) → Option (Node K)
  first [] = none
  first (x ∷ xs) = some x

  abbrev pub behind : ℕ → List (Node K) → Option (Node K)
  behind p [] = none
  behind p (x ∷ xs) = let rest = behind p xs in if x.id == p then first xs else rest

  abbrev pub holds : ℕ → List (Node K) → Bool
  holds p [] = false
  holds p (x ∷ xs) = x.id == p || holds p xs

  -- Whether `vlist_flush` leaves a node.
  abbrev pub is_current : VlistTree K → Node K → Bool
  is_current v x =
      (eq_ℤ (v.version_of x.id) v.version || eq_ℤ (v.version_of x.id) (negsuc 0))
      && not (eq_ℤ v.version (negsuc 0))

  -- The next node of the loop: none for one that left the tree meanwhile.
  abbrev pub go_on : Option (Node K) → VlistTree K → Option (Option (Node K))
  go_on none v = some none
  go_on (some x) v = if holds x.id v.avl.list then some (some x) else none

-- `update` is the callback, for the new and the old node, with what the program holds.
module _ {ℓ κ} {K : Type ℓ} {C : Type κ} (comp : K → K → ℤ)
    (update : Option ℕ → Option ℕ → VlistTree K → C → VlistTree K × C) where
  unfoldable pub vlist_delete : ℕ → VlistTree K → C → Option (VlistTree K × C)
  vlist_delete a v ctx = (if v.no_delete then some v.avl else avl_delete v.avl a) >>= λ t.
      some (update none (some a) (record v { avl = t }) ctx)

  -- `vlist_add`, once the node was searched for.
  abbrev pub add_found : ℕ → K → Option (Node K) → VlistTree K → C → Option (VlistTree K × C)
  add_found a key none v ctx =
      let t = (avl_insert comp v.avl (record { id = a; key = key; leader = false })).1 in
      some (update (some a) none (record v { avl = t }) ctx)
  add_found a key (some x) v ctx =
      if v.keep_old || v.no_delete
      then some (update (some a) (some x.id) (set_version x.id v) ctx)
      else avl_delete v.avl x.id >>= λ t.
          let t' = (avl_insert comp t (record { id = a; key = key; leader = false })).1 in
          some (update (some a) (some x.id) (record v { avl = t' }) ctx)

  unfoldable pub vlist_add : ℕ → K → VlistTree K → C → Option (VlistTree K × C)
  vlist_add a key v ctx = add_found a key (avl_find comp v.avl key) (set_version a v) ctx

  -- The loop of `vlist_flush` with its body; the outer none is a fault or the end of the fuel.
  unfoldable pub flush_from : ℕ → Option (Node K) → VlistTree K → C → Option (VlistTree K × C)
  flush_from zero cur v ctx = none
  flush_from (suc fuel) none v ctx = some (v, ctx)
  flush_from (suc fuel) (some x) v ctx =
      let next = behind x.id v.avl.list in
      let skipped = flush_from fuel next v ctx in
      let deleted =
        vlist_delete x.id v ctx >>= λ r. go_on next r.0 >>= λ cur. flush_from fuel cur r.0 r.1 in
      if is_current v x then skipped else deleted

  unfoldable pub vlist_flush : ℕ → VlistTree K → C → Option (VlistTree K × C)
  vlist_flush fuel v ctx = flush_from fuel (first v.avl.list) v ctx

  unfoldable pub vlist_flush_all : ℕ → VlistTree K → C → Option (VlistTree K × C)
  vlist_flush_all fuel v ctx = vlist_flush fuel (record v { version = negsuc 0 }) ctx
