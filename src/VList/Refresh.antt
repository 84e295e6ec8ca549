-- ===== src/VList/Refresh.antt =====
-- The use of a `vlist`: a new version, all nodes that are still wanted added, the others flushed.
use mathlib.Core.Path.{subst}
use mathlib.Core.List.{append-nil}
use Prim.Native.Nat.Ordering.{eq}
use openwrt_libubox.Prelude.{
  ℕ, ◌+◌, ◌<◌, ◌≡◌, ◌≢◌, refl, sym, ap, ◌∙◌, arith, Option, none, some, Bool, true, false, not,
  ◌&&◌, ◌||◌, if◌then◌else◌, ◌>>=◌, List, [], ◌∷◌, length, All, Bool-cases, inl, inr,
}
use openwrt_libubox.Prelude.Int.{ℤ, pos, negsuc, eq_ℤ, ◌+ℤ◌}
use openwrt_libubox.Avl.{Node, sign, avl_find}
use openwrt_libubox.Avl.Find.{IsOrder, IsSorted, Ordering-cases}
use openwrt_libubox.Avl.Lookup.{
  IsCongruent, on_eq, find_in, find_in-absent, find_in-All, above-differs, avl_find-find_in,
}
use openwrt_libubox.VList.{VlistTree, is_current, vlist_update, vlist_flush}
use openwrt_libubox.VList.Flush.{IsVlist, noting, staying, vlist_flush-noting}
use openwrt_libubox.VList.Add.{added_node}
use openwrt_libubox.VList.Adds.{add_all, last_added, IsFresh, add_all-AllAdded}

module _ {ℓ} {A : Type ℓ} where
  All-each : (P : A → Type 0) → ((x : A) → P x) → (l : List A) → All P l
  All-each P h [] = tt
  All-each P h (x ∷ l) = (h x, All-each P h l)

  All-imp : (P Q : A → Type 0) → ((x : A) → P x → Q x) → (l : List A) → All P l → All Q l
  All-imp P Q h [] a = tt
  All-imp P Q h (x ∷ l) a = (h x a.0, All-imp P Q h l a.1)

  All-both : (P Q : A → Type 0) (l : List A) → All P l → All Q l → All (λ x. P x × Q x) l
  All-both P Q [] a b = tt
  All-both P Q (x ∷ l) a b = ((a.0, b.0), All-both P Q l a.1 b.1)

-- `is_current`, by the version of the node and that of the tree.
abbrev current_in : ℤ → ℤ → Bool
current_in n version = (eq_ℤ n version || eq_ℤ n (negsuc 0)) && not (eq_ℤ version (negsuc 0))

older_gone :
    (n version : ℤ) → (eq_ℤ n version || eq_ℤ n (negsuc 0)) ≡ false → current_in n version ≡ false
older_gone n version h = rw h refl

own_stays : (version : ℤ) → eq_ℤ version (negsuc 0) ≡ false → current_in version version ≡ true
own_stays version h = ground (arith, h)

-- What a search gives, where it satisfies a test.
abbrev only_if {ℓ} : {A : Type ℓ} → (A → Bool) → Option A → Option A
only_if p none = none
only_if p (some x) = if p x then some x else none

module _ {ℓ} {K : Type ℓ} (comp : K → K → ℤ) where
  -- `vlist_update`, the nodes added, `vlist_flush`.
  unfoldable pub refresh :
      ℕ → List (ℕ × K) → VlistTree K → Option (VlistTree K × List (Option ℕ × Option ℕ))
  refresh fuel xs v =
      add_all comp xs (vlist_update v) [] >>= λ r. vlist_flush comp noting fuel r.0 r.1

  module _ (o : IsOrder comp) (cong : IsCongruent comp) where
    find_in-staying :
        (p : Node K → Bool) (k : K) (xs : List (Node K))
        → IsSorted comp xs
        → find_in comp k (staying p xs) ≡ only_if p (find_in comp k xs)
    find_in-staying p k [] s = refl
    find_in-staying p k (x ∷ xs) s =
        let rest = find_in-staying p k xs s.1 in
        let gone : sign (comp k x.key) ≡ eq → find_in comp k xs ≡ none = λ c.
          ap (find_in comp k) (sym (append-nil xs))
          ∙ find_in-absent comp k xs [] (above-differs comp o cong k x.key xs c s.0) in
        elim (Ordering-cases (sign (comp k x.key))) [
          | inl c ↦ elim (Bool-cases (p x)) [ inl e ↦ rw (e, c) rest | inr e ↦ rw (e, c) rest ]
          | inr (inr c) ↦ elim (Bool-cases (p x)) [
            | inl e ↦ rw (e, c) rest
            | inr e ↦ rw (e, c) rest
          ]
          | inr (inl c) ↦ elim (Bool-cases (p x)) [
            | inl e ↦ rw (e, c, e) refl
            | inr e ↦ rw (e, c, e) (rest ∙ ap (only_if p) (gone c))
          ]
        ]

    last_added-only_if :
        (p : Node K → Bool) (k : K) (xs : List (ℕ × K)) (r : Option (Node K))
        → All (λ (q : ℕ × K). p (added_node q.0 q.1) ≡ true) xs
        → only_if p (last_added comp k xs r) ≡ last_added comp k xs (only_if p r)
    last_added-only_if p k [] r h = refl
    last_added-only_if p k ((a, key) ∷ more) r h =
        let n : Option (Node K) = some (added_node a key) in
        let first : only_if p (on_eq (sign (comp k key)) n r)
            ≡ on_eq (sign (comp k key)) n (only_if p r) =
          elim (Ordering-cases (sign (comp k key))) [
            | inl c ↦ rw c refl
            | inr (inl c) ↦ rw (c, h.0) refl
            | inr (inr c) ↦ rw c refl
          ] in
        last_added-only_if p k more (on_eq (sign (comp k key)) n r) h.1
        ∙ ap (last_added comp k more) first

    only_if-none :
        (p : Node K → Bool) (r : Option (Node K))
        → ((x : Node K) → r ≡ some x → p x ≡ false)
        → only_if p r ≡ none
    only_if-none p none h = refl
    only_if-none p (some x) h = rw (h x refl) refl

    -- The addresses of the nodes that are there are not among those to add.
    fresh-Apart :
        (xs : List (ℕ × K)) (l : List (Node K))
        → IsFresh xs l
        → All (λ y. All (λ (p : ℕ × K). p.0 ≢ y.id) xs) l
    fresh-Apart [] l f = All-each (λ y. Unit {0}) (λ y. tt) l
    fresh-Apart ((a, key) ∷ more) l f =
        All-both (λ y. a ≢ y.id) (λ y. All (λ (p : ℕ × K). p.0 ≢ y.id) more) l
          (All-imp (λ y. y.id ≢ a) (λ y. a ≢ y.id) (λ y h e. h (sym e)) l f.0)
          (fresh-Apart more l f.2)

    -- A tree of nodes of older versions.
    abbrev pub IsOlder : VlistTree K → Type 0
    IsOlder v =
        All
          (λ y.
            ((eq_ℤ (v.version_of y.id) (v.version +ℤ pos 1) || eq_ℤ (v.version_of y.id) (negsuc 0))
              ≡ false))
          v.avl.list

    -- A well-formed tree that replaces and deletes nodes and whose nodes are of older versions: a new
    -- version that is not -1, any nodes of new addresses added, and a flush, with a callback that leaves
    -- the tree alone, end with fuel for one more step than all these nodes. Then the search for each key
    -- gives the node of that key that was added last, and NULL for all other keys.
    pub refresh-Exact :
        (fuel : ℕ) (xs : List (ℕ × K)) (v : VlistTree K)
        → IsVlist comp v
        → v.keep_old ≡ false
        → v.no_delete ≡ false
        → eq_ℤ (v.version +ℤ pos 1) (negsuc 0) ≡ false
        → IsOlder v
        → IsFresh xs v.avl.list
        → length v.avl.list + length xs < fuel
        → (v' : VlistTree K) × (log : List (Option ℕ × Option ℕ)) × (refresh fuel xs v
            ≡ some (v', log))
          × IsVlist comp v'
          × ((k : K) → avl_find comp v'.avl k ≡ last_added comp k xs none)
    unfolding refresh vlist_update
    refresh-Exact fuel xs v w ko nd ver older f l =
        let v1 : VlistTree K = vlist_update v in
        let w1 : IsVlist comp v1 = record { tree = w.tree; unique = w.unique } in
        let (v2, log, run, w2, nd2, version, longer, others, own, finds) =
          add_all-AllAdded comp o cong xs v1 [] w1 ko nd f in
        let V : ℤ = v.version +ℤ pos 1 in
        let p : Node K → Bool = is_current v2 in
        let (t, flushed, w3, left) = vlist_flush-noting comp fuel v2 log w2 nd2 (omega arith) in
        let news : All (λ (q : ℕ × K). p (added_node q.0 q.1) ≡ true) xs =
          All-imp (λ (q : ℕ × K). v2.version_of q.0 ≡ V)
            (λ (q : ℕ × K). p (added_node q.0 q.1) ≡ true)
            (λ q e.
              ap (λ n. current_in n v2.version) e ∙ ap (current_in V) version ∙ own_stays V ver)
            xs own in
        let olds : All (λ y. p y ≡ false) v.avl.list =
          All-imp
            (λ y.
              All (λ (q : ℕ × K). q.0 ≢ y.id) xs
              × ((eq_ℤ (v.version_of y.id) V || eq_ℤ (v.version_of y.id) (negsuc 0)) ≡ false))
            (λ y. p y ≡ false)
            (λ y h.
              ap (λ n. current_in n v2.version) (others y.id h.0)
              ∙ ap (current_in (v.version_of y.id)) version
              ∙ older_gone (v.version_of y.id) V h.1)
            v.avl.list
            (All-both (λ y. All (λ (q : ℕ × K). q.0 ≢ y.id) xs)
              (λ y. (eq_ℤ (v.version_of y.id) V || eq_ℤ (v.version_of y.id) (negsuc 0)) ≡ false)
              v.avl.list (fresh-Apart xs v.avl.list f) older) in
        let nothing : (k : K) → only_if p (avl_find comp v.avl k) ≡ none = λ k.
          ap (only_if p) (avl_find-find_in comp o cong v.avl k w.tree)
          ∙ only_if-none p (find_in comp k v.avl.list)
              (λ x e. find_in-All comp (λ y. p y ≡ false) k x v.avl.list olds e) in
        let order : IsSorted comp v2.avl.list =
          subst (IsSorted comp) (sym w2.tree.thread) w2.tree.sorted in
        (
          record v2 { avl = t },
          _,
          ap
                (λ (r : Option (VlistTree K × List (Option ℕ × Option ℕ))).
                  r >>= λ r. vlist_flush comp noting fuel r.0 r.1)
                run
              ∙ flushed,
          w3,
          λ k.
              avl_find-find_in comp o cong t k w3.tree
              ∙ ap (find_in comp k) left
              ∙ find_in-staying p k v2.avl.list order
              ∙ ap (only_if p) (sym (avl_find-find_in comp o cong v2.avl k w2.tree) ∙ finds k)
              ∙ last_added-only_if p k xs (avl_find comp v.avl k) news
              ∙ ap (last_added comp k xs) (nothing k),
        )
