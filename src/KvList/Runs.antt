-- ===== src/KvList/Runs.antt =====
-- Sequences of calls on a `kvlist`, against a map from names to values.
use openwrt_libubox.Prelude.{
  ℕ, ◌+◌, ◌≡◌, refl, ap, ◌∙◌, Option, none, some, Bool, true, ◌>>=◌, List, [], ◌∷◌, length, All,
}
use openwrt_libubox.Avl.Insert.{Lacks}
use openwrt_libubox.Blob.Trusted.{read_bytes}
use openwrt_libubox.KvList.{KvList, kvlist_get, kvlist_delete, kvlist_set}
use openwrt_libubox.KvList.Refine.{IsKv, is_some, at_name, kvlist_delete-Removes, kvlist_set-Stores}

-- A call of the interface.
pub data Call : Type 0 where
  to_set : List ℕ → List ℕ → Call
  to_delete : List ℕ → Call

-- What the calls return, and the list that they leave.
module _ (get_len : List ℕ → Option ℕ) (calloc_a : KvList → ℕ → ℕ → Option ℕ) where
  abbrev pub call : Call → KvList → Option (Bool × KvList)
  call (to_set name value) kv = kvlist_set get_len calloc_a name value kv
  call (to_delete name) kv = kvlist_delete name kv

  unfoldable pub calls : List Call → KvList → Option (List Bool × KvList)
  calls [] kv = some ([], kv)
  calls (c ∷ more) kv = call c kv >>= λ r. calls more r.1 >>= λ s. some (r.0 ∷ s.0, s.1)

-- The map that a list stands for.
abbrev pub Map : Type 0
Map = List ℕ → Option (List ℕ)

module _ (get_len : List ℕ → Option ℕ) where
  -- The bytes of a value that are copied.
  abbrev pub copied : List ℕ → Option (List ℕ)
  copied value = get_len value >>= λ len. read_bytes value len 0

  -- What a call does to the map, and what it returns.
  abbrev pub on_map : Call → Map → Bool × Map
  on_map (to_set name value) m = (true, λ k. at_name k name (copied value) (m k))
  on_map (to_delete name) m = (is_some (m name), λ k. at_name k name none (m k))

  unfoldable pub all_on_map : List Call → Map → List Bool × Map
  all_on_map [] m = ([], m)
  all_on_map (c ∷ more) m = let r = on_map c m in let s = all_on_map more r.1 in (r.0 ∷ s.0, s.1)

  -- A value has a length, and so many bytes can be read at it.
  abbrev pub IsValued : Call → Type 0
  IsValued (to_set name value) =
      (len : ℕ) × (bytes : List ℕ) × (get_len value ≡ some len)
      × (read_bytes value len 0 ≡ some bytes)
  IsValued (to_delete name) = Unit {0}

-- Memory that does not run out: an address that no node has.
abbrev pub IsRoomy : (KvList → ℕ → ℕ → Option ℕ) → Type 0
IsRoomy calloc_a =
    (kv : KvList) (m n : ℕ) → (a : ℕ) × (calloc_a kv m n ≡ some a) × Lacks a kv.avl.list

module _ (get_len : List ℕ → Option ℕ) (calloc_a : KvList → ℕ → ℕ → Option ℕ)
    (roomy : IsRoomy calloc_a) where
  call-on_map :
      (c : Call) (kv : KvList) (m : Map)
      → IsKv kv
      → IsValued get_len c
      → ((k : List ℕ) → kvlist_get k kv ≡ m k)
      → (kv' : KvList) × (call get_len calloc_a c kv ≡ some ((on_map get_len c m).0, kv'))
        × IsKv kv'
        × ((k : List ℕ) → kvlist_get k kv' ≡ (on_map get_len c m).1 k)
  call-on_map (to_set name value) kv m w (len, bytes, size, copy) h =
      let (a, given, lacks) = roomy kv len (length name + 1) in
      let (kv', run, w', gets) =
        kvlist_set-Stores get_len calloc_a name value bytes len a kv w size copy given lacks in
      let known : copied get_len value ≡ some bytes =
        ap (λ (r : Option ℕ). r >>= λ n. read_bytes value n 0) size ∙ copy in
      (kv', run, w', λ k. gets k ∙ rw (known, h k) refl)
  call-on_map (to_delete name) kv m w v h =
      let (kv', run, w', gets) = kvlist_delete-Removes name kv w in
      (
        kv',
        run ∙ ap (λ r. some (is_some r, kv')) (h name),
        w',
        λ k. gets k ∙ ap (at_name k name none) (h k),
      )

  -- Any sequence of calls that set and delete values, on a well-formed list that stands for the map m,
  -- where memory does not run out and the values can be read: it never faults, each call returns what
  -- the map says, and the list that is left is well-formed and stands for the map that is left.
  pub calls-Refines :
      (cs : List Call) (kv : KvList) (m : Map)
      → IsKv kv
      → All (IsValued get_len) cs
      → ((k : List ℕ) → kvlist_get k kv ≡ m k)
      → (kv' : KvList) × (calls get_len calloc_a cs kv ≡ some ((all_on_map get_len cs m).0, kv'))
        × IsKv kv'
        × ((k : List ℕ) → kvlist_get k kv' ≡ (all_on_map get_len cs m).1 k)
  unfolding calls all_on_map
  calls-Refines [] kv m w v h = (kv, refl, w, h)
  calls-Refines (c ∷ more) kv m w v h =
      let (kv1, run, w1, h1) = call-on_map c kv m w v.0 h in
      let (kv2, run2, w2, h2) = calls-Refines more kv1 (on_map get_len c m).1 w1 v.1 h1 in
      (
        kv2,
        ap
              (λ (r : Option (Bool × KvList)).
                r >>= λ r. calls get_len calloc_a more r.1 >>= λ s. some (r.0 ∷ s.0, s.1))
              run
            ∙ ap
                (λ (r : Option (List Bool × KvList)).
                  r >>= λ s. some ((on_map get_len c m).0 ∷ s.0, s.1))
                run2,
        w2,
        h2,
      )
