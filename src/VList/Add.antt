-- ===== src/VList/Add.antt =====
-- `vlist_add`: what the tree finds from there on, and what is reported.
use Prim.Native.Nat.Ordering.{lt, eq, gt}
use Prim.Native.Nat.{Ordering}
use openwrt_libubox.Prelude.{
  ℕ, ◌+◌, ◌≤◌, length, All, ◌≢◌, ◌≡◌, refl, sym, ap, ◌∙◌, arith, Option, none, some, true, false,
  ◌==◌, ==_iff, List, [], ◌∷◌, ◌++◌, inl, inr,
}
use openwrt_libubox.Prelude.Int.{ℤ}
use openwrt_libubox.Avl.{AvlTree, Node, sign, avl_find, avl_insert}
use openwrt_libubox.Avl.Find.{IsOrder, avl_find-Answers}
use openwrt_libubox.Avl.Insert.{Lacks}
use openwrt_libubox.Avl.Invariant.{IsAvl}
use openwrt_libubox.Avl.Lookup.{IsCongruent, on_eq, find_in, avl_find-find_in}
use openwrt_libubox.Avl.Update.{alike, delete-find_in, insert-find_in}
use openwrt_libubox.VList.{VlistTree, set_version, add_found, vlist_add}
use openwrt_libubox.VList.Flush.{IsVlist, noting}

over {ℓ} : {A : Type ℓ} (c d : Ordering) (x y z : A) → c ≡ d → on_eq c x (on_eq d y z) ≡ on_eq c x z
over lt d x y z e = rw (sym e) refl
over eq d x y z e = refl
over gt d x y z e = rw (sym e) refl

-- The address of the node that a search gives.
abbrev pub id_of {ℓ} : {K : Type ℓ} → Option (Node K) → Option ℕ
id_of none = none
id_of (some x) = some x.id

-- The node that `vlist_add` puts into the tree.
abbrev pub added_node {ℓ} : {K : Type ℓ} → ℕ → K → Node K
added_node a key = record { id = a; key = key; leader = true }

module _ {ℓ} {K : Type ℓ} (comp : K → K → ℤ) (o : IsOrder comp) (cong : IsCongruent comp) where
  -- What `vlist_add` leaves of the tree `v`.
  abbrev pub Added :
      ℕ
      → K
      → VlistTree K
      → List (Option ℕ × Option ℕ)
      → Option (VlistTree K × List (Option ℕ × Option ℕ))
      → Type (1 ⊔ ℓ)
  Added a key v log r =
      (v' : VlistTree K) × (r ≡ some (v', log ++ ((some a, id_of (avl_find comp v.avl key)) ∷ [])))
      × IsVlist comp v'
      × (v'.version_of a ≡ v.version)
      × (v' ≡ record (set_version a v) { avl = v'.avl })
      × ((P : Node K → Type 0) → All P v.avl.list → P (added_node a key) → All P v'.avl.list)
      × (length v'.avl.list ≤ length v.avl.list + 1)
      × ((k : K)
          → avl_find comp v'.avl k
            ≡ on_eq (sign (comp k key)) (some (added_node a key)) (avl_find comp v.avl k))

  pub vlist_add-parts :
      (a : ℕ) (key : K) (v : VlistTree K) (log : List (Option ℕ × Option ℕ))
      → IsVlist comp v
      → v.keep_old ≡ false
      → v.no_delete ≡ false
      → Lacks a v.avl.list
      → Added a key v log (vlist_add comp noting a key v log)
  unfolding vlist_add
  vlist_add-parts a key v log w ko nd lacks =
      let new : Node K = record { id = a; key = key; leader = false } in
      let own : (a == a) ≡ true = (==_iff a a).1 refl in
      let searched : (t : AvlTree K) (k : K)
          → IsAvl comp t
          → avl_find comp t k ≡ find_in comp k t.list =
        λ t k h. avl_find-find_in comp o cong t k h in
      elim (avl_find-Answers comp o v.avl key w.tree.sorted) [
        | inr (found, absent) ↦
            let free : find_in comp key v.avl.list ≡ none =
              sym (searched v.avl key w.tree) ∙ found in
            let (v1, unique, kept, longer, finds) =
              insert-find_in comp o cong v.avl new w.tree w.unique lacks free in
            let t : AvlTree K = (avl_insert comp v.avl new).1 in
            (
              record (set_version a v) { avl = t },
              ap (λ r. add_found comp noting a key r (set_version a v) log) found
                  ∙ ap
                      (λ r.
                        some
                          (record (set_version a v) { avl = t }, log ++ ((some a, id_of r) ∷ [])))
                      (sym found),
              record { tree = v1; unique = unique },
              rw own refl,
              refl,
              kept,
              omega arith,
              λ k.
                  searched t k v1
                  ∙ finds k
                  ∙ ap (on_eq (sign (comp k key)) (some (added_node a key)))
                      (sym (searched v.avl k w.tree)),
            )
        | inl (x, xs, ys, found, order, c) ↦
            let (u, gone, v1, unique, kept, shorter, nodes) =
              delete-find_in comp o cong v.avl x xs ys w.tree w.unique (w.tree.thread ∙ order) in
            let free : find_in comp key u.list ≡ none = nodes key ∙ rw c refl in
            let (v2, unique2, put, longer, finds) =
              insert-find_in comp o cong u new v1 unique (kept (λ y. y.id ≢ a) lacks) free in
            let t : AvlTree K = (avl_insert comp u new).1 in
            let swapped : add_found comp noting a key (some x) (set_version a v) log
                ≡ some (record (set_version a v) { avl = t }, log ++ ((some a, some x.id) ∷ [])) =
              rw (ko, nd, gone) refl in
            (
              record (set_version a v) { avl = t },
              ap (λ r. add_found comp noting a key r (set_version a v) log) found
                  ∙ swapped
                  ∙ ap
                      (λ r.
                        some
                          (record (set_version a v) { avl = t }, log ++ ((some a, id_of r) ∷ [])))
                      (sym found),
              record { tree = v2; unique = unique2 },
              rw own refl,
              refl,
              (λ P h p. put P (kept P h) p),
              omega arith,
              λ k.
                  searched t k v2
                  ∙ finds k
                  ∙ ap (on_eq (sign (comp k key)) (some (added_node a key))) (nodes k)
                  ∙ over (sign (comp k key)) (sign (comp k x.key)) (some (added_node a key)) none
                      (find_in comp k v.avl.list) (alike comp o cong key x.key k c)
                  ∙ ap (on_eq (sign (comp k key)) (some (added_node a key)))
                      (sym (searched v.avl k w.tree)),
            )
      ]

  -- `vlist_add` of a new node, into a well-formed tree that replaces nodes, with a callback that leaves
  -- the tree alone: it reports the node with the one of the same key that it replaces, if there is one;
  -- the node has the current version, the search for its key gives it, and the search for all other
  -- keys what it gave.
  pub vlist_add-Reports :
      (a : ℕ) (key : K) (v : VlistTree K) (log : List (Option ℕ × Option ℕ))
      → IsVlist comp v
      → v.keep_old ≡ false
      → v.no_delete ≡ false
      → Lacks a v.avl.list
      → (v' : VlistTree K) × (vlist_add comp noting a key v log
          ≡ some (v', log ++ ((some a, id_of (avl_find comp v.avl key)) ∷ [])))
        × IsVlist comp v'
        × (v'.version_of a ≡ v.version)
        × ((k : K)
            → avl_find comp v'.avl k
              ≡ on_eq (sign (comp k key)) (some (added_node a key)) (avl_find comp v.avl k))
  vlist_add-Reports a key v log w ko nd lacks =
      let (v', run, w', version, _, _, _, finds) = vlist_add-parts a key v log w ko nd lacks in
      (v', run, w', version, finds)
