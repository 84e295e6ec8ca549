-- ===== src/KvList/Refine.antt =====
-- A `kvlist` as a finite map from names to values.
use Prim.Native.Nat.{Ordering}
use Prim.Native.Nat.Ordering.{lt, eq, gt}
use openwrt_libubox.Prelude.{
  ℕ, ◌+◌, ◌≡◌, ◌≢◌, refl, sym, ap, ◌∙◌, arith, Option, none, some, Bool, true, false, ◌==◌, ==_iff,
  if◌then◌else◌, ◌>>=◌, List, ◌∷◌, ◌++◌, length, All, inl, inr,
}
use openwrt_libubox.Avl.{AvlTree, Node, sign, avl_find}
use openwrt_libubox.Avl.Find.{Ordering-cases, avl_find-Answers}
use openwrt_libubox.Avl.Insert.{Lacks}
use openwrt_libubox.Avl.Invariant.{IsAvl}
use openwrt_libubox.Avl.Update.{delete-find_in, insert-find_in}
use openwrt_libubox.Avl.Lookup.{on_eq, find_in, find_in-All, avl_find-find_in}
use openwrt_libubox.Blob.Trusted.{read_bytes}
use openwrt_libubox.KvList.{
  KvList, avl_strcmp, data_at, delete_found, set_at, kvlist_get, kvlist_delete, kvlist_set,
  add_node,
}
use openwrt_libubox.KvList.Compare.{avl_strcmp-IsOrder, avl_strcmp-IsCongruent, avl_strcmp-eq}

-- The tree's invariant, and no two nodes of one name.
pub record IsKv (kv : KvList) : Type 0 where
  pub tree : IsAvl avl_strcmp kv.avl
  pub unique : kv.avl.allow_dups ≡ false

-- The node of a name, by a search of the thread.
abbrev node_of : List ℕ → List (Node (List ℕ)) → Option (Node (List ℕ))
node_of = find_in avl_strcmp

abbrev pub is_some {ℓ} : {A : Type ℓ} → Option A → Bool
is_some none = false
is_some (some a) = true

-- One comparison decides for a name.
abbrev pub at_name {ℓ} : {A : Type ℓ} → List ℕ → List ℕ → A → A → A
at_name k name x y = on_eq (sign (avl_strcmp k name)) x y

get-node_of :
    (k : List ℕ) (kv : KvList)
    → IsKv kv
    → kvlist_get k kv ≡ data_at kv.data_of (node_of k kv.avl.list)
unfolding kvlist_get
get-node_of k kv w =
    ap (data_at kv.data_of)
      (avl_find-find_in avl_strcmp avl_strcmp-IsOrder avl_strcmp-IsCongruent kv.avl k w.tree)

-- What `kvlist_delete` leaves: the nodes of other names.
abbrev Deleted : List ℕ → KvList → Type (1)
Deleted name kv =
    (kv' : KvList) × (kvlist_delete name kv ≡ some (is_some (avl_find avl_strcmp kv.avl name), kv'))
    × IsKv kv'
    × (kv'.data_of ≡ kv.data_of)
    × ((P : Node (List ℕ) → Type 0) → All P kv.avl.list → All P kv'.avl.list)
    × ((k : List ℕ) → node_of k kv'.avl.list ≡ at_name k name none (node_of k kv.avl.list))

delete-Deleted : (name : List ℕ) (kv : KvList) → IsKv kv → Deleted name kv
unfolding kvlist_delete
delete-Deleted name kv w =
    elim (avl_find-Answers avl_strcmp avl_strcmp-IsOrder kv.avl name w.tree.sorted) [
      | inl (x, xs, ys, found, order, c) ↦
          let split : kv.avl.list ≡ xs ++ (x ∷ ys) = w.tree.thread ∙ order in
          let (u, run, v, unique, kept, _, nodes) =
            delete-find_in avl_strcmp avl_strcmp-IsOrder avl_strcmp-IsCongruent kv.avl x xs ys
              w.tree w.unique split in
          let same : x.key ≡ name = sym (avl_strcmp-eq name x.key c) in
          (
            record kv { avl = u },
            ap (delete_found kv) found
                ∙ ap
                    (λ (r : Option (AvlTree (List ℕ))).
                      r >>= λ t. some (true, record kv { avl = t }))
                    run
                ∙ ap (λ r. some (is_some r, record kv { avl = u })) (sym found),
            record { tree = v; unique = unique },
            refl,
            kept,
            λ k. nodes k ∙ ap (λ n. at_name k n none (node_of k kv.avl.list)) same,
          )
      | inr (found, absent) ↦
          let gone : node_of name kv.avl.list ≡ none =
            sym (
              avl_find-find_in avl_strcmp avl_strcmp-IsOrder avl_strcmp-IsCongruent kv.avl name
                w.tree)
            ∙ found in
          (
            kv,
            ap (delete_found kv) found ∙ ap (λ r. some (is_some r, kv)) (sym found),
            w,
            refl,
            (λ P a. a),
            λ k. elim (Ordering-cases (sign (avl_strcmp k name))) [
              | inl c ↦ rw c refl
              | inr (inl c) ↦ rw c (rw (avl_strcmp-eq k name c) gone)
              | inr (inr c) ↦ rw c refl
            ],
          )
    ]

data_at-at_name :
    (memory : ℕ → List ℕ) (c : Ordering) (r s : Option (Node (List ℕ)))
    → data_at memory (on_eq c r s) ≡ on_eq c (data_at memory r) (data_at memory s)
data_at-at_name memory lt r s = refl
data_at-at_name memory eq r s = refl
data_at-at_name memory gt r s = refl

is_some-data_at :
    (memory : ℕ → List ℕ) (r : Option (Node (List ℕ))) → is_some (data_at memory r) ≡ is_some r
is_some-data_at memory none = refl
is_some-data_at memory (some x) = refl

delete-gets :
    (name k : List ℕ) (kv : KvList) (w : IsKv kv)
    → kvlist_get k (delete-Deleted name kv w).0 ≡ at_name k name none (kvlist_get k kv)
delete-gets name k kv w =
    let (kv', _, w', memory, _, nodes) = delete-Deleted name kv w in
    get-node_of k kv' w'
    ∙ ap (λ m. data_at m (node_of k kv'.avl.list)) memory
    ∙ ap (data_at kv.data_of) (nodes k)
    ∙ data_at-at_name kv.data_of (sign (avl_strcmp k name)) none (node_of k kv.avl.list)
    ∙ ap (at_name k name none) (sym (get-node_of k kv w))

-- `kvlist_delete` on a well-formed list never faults; it returns whether the name had a value, the
-- name has none from there on, and all other names keep theirs.
pub kvlist_delete-Removes :
    (name : List ℕ) (kv : KvList)
    → IsKv kv
    → (kv' : KvList) × (kvlist_delete name kv ≡ some (is_some (kvlist_get name kv), kv'))
      × IsKv kv'
      × ((k : List ℕ) → kvlist_get k kv' ≡ at_name k name none (kvlist_get k kv))
unfolding kvlist_get
kvlist_delete-Removes name kv w =
    let (kv', run, w', _, _, _) = delete-Deleted name kv w in
    let found : is_some (avl_find avl_strcmp kv.avl name) ≡ is_some (kvlist_get name kv) =
      sym (is_some-data_at kv.data_of (avl_find avl_strcmp kv.avl name)) in
    (kv', run ∙ ap (λ b. some (b, kv')) found, w', λ k. delete-gets name k kv w)

-- Data of a node elsewhere.
data_at-elsewhere :
    (memory : ℕ → List ℕ) (a : ℕ) (bytes : List ℕ) (r : Option (Node (List ℕ)))
    → ((x : Node (List ℕ)) → r ≡ some x → x.id ≢ a)
    → data_at (λ j. if j == a then bytes else memory j) r ≡ data_at memory r
data_at-elsewhere memory a bytes none h = refl
data_at-elsewhere memory a bytes (some x) h =
    let apart : x.id ≢ a = h x refl in ground (arith, apart, ==_iff x.id a)

-- A new node of a name that has none.
add_node-Adds :
    (a : ℕ) (name bytes : List ℕ) (kv : KvList)
    → IsKv kv
    → Lacks a kv.avl.list
    → node_of name kv.avl.list ≡ none
    → IsKv (add_node a name bytes kv)
      × ((k : List ℕ)
          → kvlist_get k (add_node a name bytes kv) ≡ at_name k name (some bytes) (kvlist_get k kv))
add_node-Adds a name bytes kv w lacks free =
    let memory : ℕ → List ℕ = λ j. if j == a then bytes else kv.data_of j in
    let new : Node (List ℕ) = record { id = a; key = name; leader = false } in
    let (v, unique, _, _, nodes) =
      insert-find_in avl_strcmp avl_strcmp-IsOrder avl_strcmp-IsCongruent kv.avl new w.tree w.unique
        lacks free in
    let w' : IsKv (add_node a name bytes kv) = record { tree = v; unique = unique } in
    (
      w',
      λ k.
          get-node_of k (add_node a name bytes kv) w'
          ∙ ap (data_at memory) (nodes k)
          ∙ data_at-at_name memory (sign (avl_strcmp k name)) (some (record new { leader = true }))
              (node_of k kv.avl.list)
          ∙ rw ((==_iff a a).1 refl) (
              ap (at_name k name (some bytes)) (
                data_at-elsewhere kv.data_of a bytes (node_of k kv.avl.list)
                  (λ x e. find_in-All avl_strcmp (λ y. y.id ≢ a) k x kv.avl.list lacks e)
                ∙ sym (get-node_of k kv w))),
    )

over {ℓ} : {A : Type ℓ} (c : Ordering) (x y z : A) → on_eq c x (on_eq c y z) ≡ on_eq c x z
over lt x y z = refl
over eq x y z = refl
over gt x y z = refl

-- `kvlist_set` on a well-formed list, of a value whose bytes can be read, where `calloc_a` gives an
-- address that no node has: it returns true, the name has the copied bytes as its value from there on,
-- whether it had one before or not, and all other names keep theirs.
pub kvlist_set-Stores :
    (get_len : List ℕ → Option ℕ) (calloc_a : KvList → ℕ → ℕ → Option ℕ) (name value bytes : List ℕ)
    (len a : ℕ) (kv : KvList)
    → IsKv kv
    → get_len value ≡ some len
    → read_bytes value len 0 ≡ some bytes
    → calloc_a kv len (length name + 1) ≡ some a
    → Lacks a kv.avl.list
    → (kv' : KvList) × (kvlist_set get_len calloc_a name value kv ≡ some (true, kv'))
      × IsKv kv'
      × ((k : List ℕ) → kvlist_get k kv' ≡ at_name k name (some bytes) (kvlist_get k kv))
unfolding kvlist_set
kvlist_set-Stores get_len calloc_a name value bytes len a kv w size copy given lacks =
    let (kv1, run, w1, memory, kept, nodes) = delete-Deleted name kv w in
    let free : node_of name kv1.avl.list ≡ none =
      nodes name ∙ rw (avl_strcmp-IsOrder.eq_refl name) refl in
    let (w', adds) = add_node-Adds a name bytes kv1 w1 (kept (λ y. y.id ≢ a) lacks) free in
    (
      add_node a name bytes kv1,
      ap (λ (r : Option ℕ). r >>= λ n. set_at name value n (calloc_a kv n (length name + 1)) kv)
            size
          ∙ ap (λ r. set_at name value len r kv) given
          ∙ ap
              (λ (r : Option (Bool × KvList)).
                r >>= λ p. read_bytes value len 0 >>= λ b. some (true, add_node a name b p.1))
              run
          ∙ ap (λ (r : Option (List ℕ)). r >>= λ b. some (true, add_node a name b kv1)) copy,
      w',
      λ k.
          adds k
          ∙ ap (at_name k name (some bytes)) (delete-gets name k kv w)
          ∙ over (sign (avl_strcmp k name)) (some bytes) none (kvlist_get k kv),
    )
