-- ===== src/VList/Adds.antt =====
-- Several calls of `vlist_add`, and what the tree finds after them.
use mathlib.Core.Path.{subst}
use openwrt_libubox.Prelude.{
  ℕ, ◌+◌, ◌≤◌, ◌≡◌, ◌≢◌, refl, sym, ap, ◌∙◌, arith, Option, some, false, ◌==◌, ==_iff,
  if◌then◌else◌, ◌>>=◌, List, [], ◌∷◌, length, All,
}
use openwrt_libubox.Prelude.Int.{ℤ}
use openwrt_libubox.Avl.{Node, sign, avl_find}
use openwrt_libubox.Avl.Find.{IsOrder}
use openwrt_libubox.Avl.Insert.{Lacks}
use openwrt_libubox.Avl.Lookup.{IsCongruent, on_eq}
use openwrt_libubox.VList.{VlistTree, vlist_add}
use openwrt_libubox.VList.Flush.{IsVlist, noting}
use openwrt_libubox.VList.Add.{added_node, vlist_add-parts}

at_other : (a i : ℕ) (x y : ℤ) → a ≢ i → (if i == a then x else y) ≡ y
at_other a i x y h = let apart : i ≢ a = λ e. h (sym e) in ground (arith, apart, ==_iff i a)

module _ {ℓ} {K : Type ℓ} where
  -- Nodes to add: each of a new address.
  abbrev pub IsFresh : List (ℕ × K) → List (Node K) → Type 0
  IsFresh [] l = Unit {0}
  IsFresh ((a, key) ∷ more) l = Lacks a l × All (λ (p : ℕ × K). p.0 ≢ a) more × IsFresh more l

module _ {ℓ} {K : Type ℓ} (comp : K → K → ℤ) where
  -- `vlist_add` for each of the nodes, given by their addresses and keys.
  unfoldable pub add_all :
      List (ℕ × K)
      → VlistTree K
      → List (Option ℕ × Option ℕ)
      → Option (VlistTree K × List (Option ℕ × Option ℕ))
  add_all [] v log = some (v, log)
  add_all ((a, key) ∷ more) v log = vlist_add comp noting a key v log >>= λ r. add_all more r.0 r.1

  -- The node last added of a key, where `r` is found before.
  abbrev pub last_added : K → List (ℕ × K) → Option (Node K) → Option (Node K)
  last_added k [] r = r
  last_added k ((a, key) ∷ more) r =
      last_added k more (on_eq (sign (comp k key)) (some (added_node a key)) r)

  module _ (o : IsOrder comp) (cong : IsCongruent comp) where
    -- What the calls of `vlist_add` leave.
    abbrev pub AllAdded :
        List (ℕ × K) → VlistTree K → Option (VlistTree K × List (Option ℕ × Option ℕ)) → Type ℓ
    AllAdded xs v r =
        (v' : VlistTree K) × (log : List (Option ℕ × Option ℕ)) × (r ≡ some (v', log))
        × IsVlist comp v'
        × (v'.no_delete ≡ false)
        × (v'.version ≡ v.version)
        × (length v'.avl.list ≤ length v.avl.list + length xs)
        × ((i : ℕ) → All (λ (p : ℕ × K). p.0 ≢ i) xs → v'.version_of i ≡ v.version_of i)
        × All (λ (p : ℕ × K). v'.version_of p.0 ≡ v.version) xs
        × ((k : K) → avl_find comp v'.avl k ≡ last_added k xs (avl_find comp v.avl k))

    IsFresh-added :
        (a : ℕ) (key : K) (more : List (ℕ × K)) (l l' : List (Node K))
        → ((P : Node K → Type 0) → All P l → P (added_node a key) → All P l')
        → All (λ (p : ℕ × K). p.0 ≢ a) more
        → IsFresh more l
        → IsFresh more l'
    IsFresh-added a key [] l l' kept h f = tt
    IsFresh-added a key ((b, kb) ∷ more) l l' kept h f = (
      kept (λ y. y.id ≢ b) f.0 (λ e. h.0 (sym e)),
      f.1,
      IsFresh-added a key more l l' kept h.1 f.2,
    )

    pub add_all-AllAdded :
        (xs : List (ℕ × K)) (v : VlistTree K) (log : List (Option ℕ × Option ℕ))
        → IsVlist comp v
        → v.keep_old ≡ false
        → v.no_delete ≡ false
        → IsFresh xs v.avl.list
        → AllAdded xs v (add_all xs v log)
    unfolding add_all
    add_all-AllAdded [] v log w ko nd f =
        (v, log, refl, w, nd, refl, omega arith, (λ i h. refl), tt, λ k. refl)
    add_all-AllAdded ((a, key) ∷ more) v log w ko nd f =
        let (v1, run, w1, version, shape, kept, longer, finds) =
          vlist_add-parts comp o cong a key v log w ko nd f.0 in
        let same_version : v1.version ≡ v.version = ap (λ (x : VlistTree K). x.version) shape in
        let versions : (i : ℕ) → v1.version_of i ≡ (if i == a then v.version else v.version_of i) =
          λ i. ap (λ (x : VlistTree K). x.version_of i) shape in
        let (v2, log2, run2, w2, nd2, version2, longer2, others, own, finds2) =
          add_all-AllAdded more v1 _ w1 (ap (λ (x : VlistTree K). x.keep_old) shape ∙ ko)
            (ap (λ (x : VlistTree K). x.no_delete) shape ∙ nd)
            (IsFresh-added a key more v.avl.list v1.avl.list kept f.1 f.2) in
        (
          v2,
          log2,
          ap
                (λ (r : Option (VlistTree K × List (Option ℕ × Option ℕ))).
                  r >>= λ r. add_all more r.0 r.1)
                run
              ∙ run2,
          w2,
          nd2,
          version2 ∙ same_version,
          omega arith,
          (λ i h. others i h.1 ∙ versions i ∙ at_other a i v.version (v.version_of i) h.0),
          (
            others a f.1 ∙ version,
            subst (λ n. All (λ (p : ℕ × K). v2.version_of p.0 ≡ n) more) same_version own,
          ),
          λ k. finds2 k ∙ ap (last_added k more) (finds k),
        )
