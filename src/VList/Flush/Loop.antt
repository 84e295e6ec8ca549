-- ===== src/VList/Flush/Loop.antt =====
-- The loop of `vlist_flush`, with a callback that leaves the tree alone.
use mathlib.Core.Path.{subst}
use openwrt_libubox.Prelude.{
  ℕ, zero, suc, ◌<◌, ◌≡◌, ◌≢◌, refl, sym, ap, ◌∙◌, arith, Option, none, some, Bool, true, false,
  ==_iff, if◌then◌else◌, ◌>>=◌, List, [], ◌∷◌, ◌++◌, length, Bool-cases, inl, inr,
}
use openwrt_libubox.Prelude.Int.{ℤ}
use openwrt_libubox.Avl.{AvlTree, Node}
use openwrt_libubox.Avl.Insert.{Lacks, IsDistinct, IsDistinct-split}
use openwrt_libubox.Avl.Invariant.{IsAvl}
use openwrt_libubox.Avl.Delete.{avl_delete}
use openwrt_libubox.Avl.Deletion.{avl_delete-IsAvl}
use openwrt_libubox.SafeList.ForEach.{append-snoc}
use openwrt_libubox.VList.{
  VlistTree, first, behind, holds, is_current, go_on, vlist_delete, flush_from,
}

-- The tree's invariant, without two nodes of one key.
pub record IsVlist {ℓ} {K : Type ℓ} (comp : K → K → ℤ) (v : VlistTree K) : Type ℓ where
  pub tree : IsAvl comp v.avl
  pub unique : v.avl.allow_dups ≡ false

-- What the calls of `f` on some reports, in order, leave.
abbrev pub handed {κ} :
    {C : Type κ} (f : Option ℕ → Option ℕ → C → C) (rs : List (Option ℕ × Option ℕ)) → C → C
handed f [] c = c
handed f (r ∷ rs) c = handed f rs (f r.0 r.1 c)

module _ {ℓ} {K : Type ℓ} where
  -- The callback that leaves the tree alone and changes what the program holds by `f`.
  abbrev pub handing {κ} :
      {C : Type κ} (f : Option ℕ → Option ℕ → C → C)
      → Option ℕ
      → Option ℕ
      → VlistTree K
      → C
      → VlistTree K × C
  handing f new old v c = (v, f new old c)

  -- The callback that notes the nodes it gets, and nothing else.
  abbrev pub noting :
      Option ℕ
      → Option ℕ
      → VlistTree K
      → List (Option ℕ × Option ℕ)
      → VlistTree K × List (Option ℕ × Option ℕ)
  noting new old v log = (v, log ++ ((new, old) ∷ []))

  -- The nodes that stay, and the reports of the others.
  abbrev pub staying : (Node K → Bool) → List (Node K) → List (Node K)
  staying stays [] = []
  staying stays (x ∷ xs) = let rest = staying stays xs in if stays x then x ∷ rest else rest

  abbrev pub reports : (Node K → Bool) → List (Node K) → List (Option ℕ × Option ℕ)
  reports stays [] = []
  reports stays (x ∷ xs) =
      let rest = reports stays xs in if stays x then rest else (none, some x.id) ∷ rest

  behind_front :
      (front : List (Node K)) (x : Node K) (rest : List (Node K))
      → Lacks x.id front
      → behind x.id (front ++ (x ∷ rest)) ≡ first rest
  behind_front [] x rest l = ground (arith, ==_iff x.id x.id)
  behind_front (y ∷ front) x rest l =
      let apart : y.id ≢ x.id = l.0 in
      ground (arith, apart, ==_iff y.id x.id, behind_front front x rest l.1)

  holds_front :
      (front : List (Node K)) (x : Node K) (rest : List (Node K))
      → holds x.id (front ++ (x ∷ rest)) ≡ true
  holds_front [] x rest = ground (arith, ==_iff x.id x.id)
  holds_front (y ∷ front) x rest = ground (arith, holds_front front x rest)

  goes_to_first :
      (front rest : List (Node K)) (v : VlistTree K)
      → v.avl.list ≡ front ++ rest
      → go_on (first rest) v ≡ some (first rest)
  goes_to_first front [] v e = refl
  goes_to_first front (x ∷ rest) v e =
      let held : holds x.id v.avl.list ≡ true = ap (holds x.id) e ∙ holds_front front x rest in
      rw held refl

module _ {ℓ κ} {K : Type ℓ} {C : Type κ} (comp : K → K → ℤ) (f : Option ℕ → Option ℕ → C → C) where
  -- What a run of the loop leaves of the tree `v`, from the nodes `xs` on, with `front` before them.
  abbrev pub Flushed :
      VlistTree K → List (Node K) → List (Node K) → C → Option (VlistTree K × C) → Type (ℓ ⊔ κ)
  Flushed v front xs log r =
      (t : AvlTree K) × (r ≡ some (record v { avl = t }, handed f (reports (is_current v) xs) log))
      × IsVlist comp (record v { avl = t })
      × (t.list ≡ front ++ staying (is_current v) xs)

  one_kept :
      (x : Node K) (fuel : ℕ) (v : VlistTree K) (log : C)
      → is_current v x ≡ true
      → flush_from comp (handing f) (suc fuel) (some x) v log
        ≡ flush_from comp (handing f) fuel (behind x.id v.avl.list) v log
  unfolding flush_from
  one_kept x fuel v log c = rw c refl

  one_gone :
      (x : Node K) (xs front : List (Node K)) (fuel : ℕ) (v : VlistTree K) (u : AvlTree K) (log : C)
      → is_current v x ≡ false
      → v.no_delete ≡ false
      → avl_delete v.avl x.id ≡ some u
      → u.list ≡ front ++ xs
      → behind x.id v.avl.list ≡ first xs
      → flush_from comp (handing f) (suc fuel) (some x) v log
        ≡ flush_from comp
            (handing f)
            fuel
            (first xs)
            (record v { avl = u })
            (f none (some x.id) log)
  unfolding flush_from vlist_delete
  one_gone x xs front fuel v u log c nd run e next =
      let gone : vlist_delete comp (handing f) x.id v log
          ≡ some (record v { avl = u }, f none (some x.id) log) =
        rw (nd, run) refl in
      rw (c, next)
        (ap
            (λ (r : Option (VlistTree K × C)). r >>= λ r.
              go_on (first xs) r.0 >>= λ cur. flush_from comp (handing f) fuel cur r.0 r.1)
            gone
          ∙ ap
              (λ (r : Option (Option (Node K))). r >>= λ cur.
                flush_from comp (handing f) fuel cur (record v { avl = u })
                  (f none (some x.id) log))
              (goes_to_first front xs (record v { avl = u }) e))

  pub flush_from-Flushed :
      (xs : List (Node K)) (fuel : ℕ) (v : VlistTree K) (front : List (Node K)) (log : C)
      → length xs < fuel
      → v.no_delete ≡ false
      → IsVlist comp v
      → v.avl.list ≡ front ++ xs
      → Flushed v front xs log (flush_from comp (handing f) fuel (first xs) v log)
  unfolding flush_from
  flush_from-Flushed xs zero v front log l nd w e = absurd (omega arith)
  flush_from-Flushed [] (suc fuel) v front log l nd w e = (v.avl, refl, w, e)
  flush_from-Flushed (x ∷ xs) (suc fuel) v front log l nd w e =
      let alone = IsDistinct-split front x xs (subst IsDistinct e w.tree.distinct) in
      let next : behind x.id v.avl.list ≡ first xs =
        ap (behind x.id) e ∙ behind_front front x xs alone.0 in
      elim (Bool-cases (is_current v x)) [
        | inl c ↦
            let (t, run, w', left) =
              flush_from-Flushed xs fuel v (front ++ (x ∷ [])) log (omega arith) nd w
                (e ∙ sym (append-snoc front x xs)) in
            (
              t,
              one_kept x fuel v log c
                  ∙ ap (λ cur. flush_from comp (handing f) fuel cur v log) next
                  ∙ run
                  ∙ rw c refl,
              w',
              left ∙ append-snoc front x (staying (is_current v) xs) ∙ rw c refl,
            )
        | inr c ↦
            let (u, gone, shorter, unique, v') =
              avl_delete-IsAvl comp v.avl x front xs w.tree w.unique e in
            let w1 : IsVlist comp (record v { avl = u }) = record { tree = v'; unique = unique } in
            let (t, run, w', left) =
              flush_from-Flushed xs fuel (record v { avl = u }) front (f none (some x.id) log)
                (omega arith) nd w1 shorter in
            (
              t,
              one_gone x xs front fuel v u log c nd gone shorter next ∙ run ∙ rw c refl,
              w',
              left ∙ rw c refl,
            )
      ]
