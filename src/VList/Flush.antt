-- ===== src/VList/Flush.antt =====
-- `vlist_flush`: which nodes stay, and which are reported.
mod Loop
use mathlib.Core.Path.{subst}
use mathlib.Core.List.{append-nil}
use openwrt_libubox.Prelude.{
  ℕ, ◌<◌, ◌≡◌, ◌≢◌, ◌⊎◌, refl, sym, ap, ◌∙◌, arith, Option, none, some, true, false, List, [], ◌∷◌,
  ◌++◌, length, map, Bool-cases, inl, inr,
}
use openwrt_libubox.Prelude.Int.{ℤ, negsuc}
use openwrt_libubox.Avl.{AvlTree, Node}
use openwrt_libubox.SafeList.ForEach.{append-snoc}
use openwrt_libubox.VList.{VlistTree, is_current, vlist_flush, vlist_flush_all}
pub use openwrt_libubox.VList.Flush.Loop.{IsVlist, handed, handing, noting, staying, reports}
use openwrt_libubox.VList.Flush.Loop.{flush_from-Flushed}

noted :
    (rs log : List (Option ℕ × Option ℕ))
    → handed (λ new old log. log ++ ((new, old) ∷ [])) rs log ≡ log ++ rs
noted [] log = sym (append-nil log)
noted (r ∷ rs) log = noted rs (log ++ (r ∷ [])) ∙ append-snoc log r rs

module _ {ℓ} {K : Type ℓ} where
  -- The nodes that a flush keeps: those of the current version or of version -1, unless that is the
  -- current one.
  abbrev pub Stays : VlistTree K → Node K → Type 0
  Stays v x =
      (v.version ≢ negsuc 0) × ((v.version_of x.id ≡ v.version) ⊎ (v.version_of x.id ≡ negsuc 0))

  -- The nodes `xs` are those that stay, `ys`, and those of which `rs` are the reports, each in order.
  abbrev pub Split :
      VlistTree K → List (Node K) → List (Node K) → List (Option ℕ × Option ℕ) → Type ℓ
  Split v [] ys rs = (ys ≡ []) × (rs ≡ [])
  Split v (x ∷ xs) ys rs =
      ((zs : List (Node K)) × (ys ≡ x ∷ zs) × Stays v x × Split v xs zs rs)
      ⊎ ((ss : List (Option ℕ × Option ℕ)) × (rs ≡ (none, some x.id) ∷ ss)
          × (¬ Stays v x)
          × Split v xs ys ss)

module _ {ℓ κ} {K : Type ℓ} {C : Type κ} (comp : K → K → ℤ) (f : Option ℕ → Option ℕ → C → C) where
  is_current-Stays :
      (v : VlistTree K) (x : Node K)
      → (is_current v x ≡ true → Stays v x) × (is_current v x ≡ false → ¬ Stays v x)
  is_current-Stays v x = (λ h. ground (arith, h), λ h s. ground (arith, h, s))

  flush-Split :
      (v : VlistTree K) (xs : List (Node K))
      → Split v xs (staying (is_current v) xs) (reports (is_current v) xs)
  flush-Split v [] = (refl, refl)
  flush-Split v (x ∷ xs) = elim (Bool-cases (is_current v x)) [
    | inl c ↦
        inl (
          staying (is_current v) xs,
          rw c refl,
          (is_current-Stays v x).0 c,
          rw c (flush-Split v xs),
        )
    | inr c ↦
        inr (
          reports (is_current v) xs,
          rw c refl,
          (is_current-Stays v x).1 c,
          rw c (flush-Split v xs),
        )
  ]

  -- `vlist_flush` of a well-formed tree that deletes nodes, with a callback that leaves the tree alone
  -- and changes what the program holds in any way: the nodes whose version is the current one or -1
  -- stay, in their order, unless the current version is -1; each other node is taken out of the tree
  -- and handed to the callback once as old, in order. Fuel for one more step than there are nodes is
  -- enough.
  pub vlist_flush-Flushed :
      (fuel : ℕ) (v : VlistTree K) (c : C)
      → IsVlist comp v
      → v.no_delete ≡ false
      → length v.avl.list < fuel
      → (t : AvlTree K) × (rs : List (Option ℕ × Option ℕ)) × (vlist_flush comp (handing f) fuel v c
          ≡ some (record v { avl = t }, handed f rs c))
        × IsVlist comp (record v { avl = t })
        × Split v v.avl.list t.list rs
  unfolding vlist_flush
  vlist_flush-Flushed fuel v c w nd l =
      let (t, run, w', left) = flush_from-Flushed comp f v.avl.list fuel v [] c l nd w refl in
      (
        t,
        reports (is_current v) v.avl.list,
        run,
        w',
        subst (λ ys. Split v v.avl.list ys (reports (is_current v) v.avl.list)) (sym left)
            (flush-Split v v.avl.list),
      )

module _ {ℓ} {K : Type ℓ} (comp : K → K → ℤ) where
  -- The same for the callback that notes its nodes, by the test of the code.
  pub vlist_flush-noting :
      (fuel : ℕ) (v : VlistTree K) (log : List (Option ℕ × Option ℕ))
      → IsVlist comp v
      → v.no_delete ≡ false
      → length v.avl.list < fuel
      → (t : AvlTree K) × (vlist_flush comp noting fuel v log
          ≡ some (record v { avl = t }, log ++ reports (is_current v) v.avl.list))
        × IsVlist comp (record v { avl = t })
        × (t.list ≡ staying (is_current v) v.avl.list)
  unfolding vlist_flush
  vlist_flush-noting fuel v log w nd l =
      let (t, run, w', left) =
        flush_from-Flushed comp (λ new old log. log ++ ((new, old) ∷ [])) v.avl.list fuel v [] log l
          nd w refl in
      (
        t,
        run
            ∙ ap (λ c. some (record v { avl = t }, c))
                (noted (reports (is_current v) v.avl.list) log),
        w',
        left,
      )

  none_stays :
      (v : VlistTree K) (xs : List (Node K))
      → v.version ≡ negsuc 0
      → (staying (is_current v) xs ≡ [])
        × (reports (is_current v) xs ≡ map (λ x. (none, some x.id)) xs)
  none_stays v [] e = (refl, refl)
  none_stays v (x ∷ xs) e =
      let gone : is_current v x ≡ false = ground (arith, e) in
      let (a, b) = none_stays v xs e in (rw gone a, rw gone (ap (λ r. (none, some x.id) ∷ r) b))

  -- `vlist_flush_all` of a well-formed tree that deletes nodes, with a callback that leaves the tree
  -- alone, empties the tree and reports each node once as old, in order.
  pub vlist_flush_all-empties :
      (fuel : ℕ) (v : VlistTree K)
      → IsVlist comp v
      → v.no_delete ≡ false
      → length v.avl.list < fuel
      → (v' : VlistTree K) × (vlist_flush_all comp noting fuel v []
          ≡ some (v', map (λ x. (none, some x.id)) v.avl.list))
        × IsVlist comp v'
        × (v'.avl.list ≡ [])
  unfolding vlist_flush_all
  vlist_flush_all-empties fuel v w nd l =
      let v0 : VlistTree K = record v { version = negsuc 0 } in
      let w0 : IsVlist comp v0 = record { tree = w.tree; unique = w.unique } in
      let (t, run, w', left) = vlist_flush-noting fuel v0 [] w0 nd l in
      let (a, b) = none_stays v0 v.avl.list refl in
      (record v0 { avl = t }, run ∙ ap (λ l. some (record v0 { avl = t }, l)) b, w', left ∙ a)
