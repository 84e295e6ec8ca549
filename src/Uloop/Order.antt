-- ===== src/Uloop/Order.antt =====
-- Lists of the event loop that are kept in order by insertion before the first greater element.
use openwrt_libubox.Prelude.{
  ℕ, List, [], ◌∷◌, Bool, true, false, ◌||◌, ◌==◌, ==_iff, if◌then◌else◌, ◌≡◌, refl, sym, arith,
  All, Bool-cases, inl, inr,
}
use mathlib.Core.Path.{subst}
use openwrt_libubox.SafeList.{mem, remove}
use openwrt_libubox.SafeList.Deletion.{IsDistinct}

-- `list_for_each_entry(tmp, ...) if (tmp > new) { h = &tmp->list; break; }`, then
-- `list_add_tail(&new->list, h)`.
abbrev pub insert_before : (ℕ → Bool) → ℕ → List ℕ → List ℕ
insert_before greater i [] = i ∷ []
insert_before greater i (y ∷ ys) =
    let rest = insert_before greater i ys in if greater y then i ∷ y ∷ ys else y ∷ rest

-- No element is greater than one behind it.
abbrev pub InOrder : (ℕ → ℕ → Bool) → List ℕ → Type 0
InOrder gt [] = Unit {0}
InOrder gt (x ∷ xs) = All (λ y. gt x y ≡ false) xs × InOrder gt xs

pub mem-insert_before :
    (greater : ℕ → Bool) (i j : ℕ) (xs : List ℕ)
    → mem j (insert_before greater i xs) ≡ (mem j xs || j == i)
mem-insert_before greater i j [] = ground arith
mem-insert_before greater i j (y ∷ ys) = ground (arith, mem-insert_before greater i j ys)

pub IsDistinct-insert_before :
    (greater : ℕ → Bool) (i : ℕ) (xs : List ℕ)
    → mem i xs ≡ false
    → IsDistinct xs
    → IsDistinct (insert_before greater i xs)
IsDistinct-insert_before greater i [] h d = (refl, tt)
IsDistinct-insert_before greater i (y ∷ ys) h d = ground (
  arith,
  IsDistinct-insert_before greater i ys,
  mem-insert_before greater i y ys,
  ==_iff i y,
  ==_iff y i,
  d.0,
  d.1,
)

-- A predicate of all elements, by membership.
pub All-mem : (P : ℕ → Type 0) (xs : List ℕ) → ((j : ℕ) → mem j xs ≡ true → P j) → All P xs
All-mem P [] h = tt
All-mem P (x ∷ xs) h = (h x (ground arith), All-mem P xs (λ j m. h j (ground (arith, m))))

pub mem_All : (P : ℕ → Type 0) (j : ℕ) (xs : List ℕ) → All P xs → mem j xs ≡ true → P j
mem_All P j [] a m = absurd (cc)
mem_All P j (x ∷ xs) a m = elim (Bool-cases (j == x)) [
  | inl e ↦ subst P (sym ((==_iff j x).0 e)) a.0
  | inr e ↦ mem_All P j xs a.1 (ground (arith, m, e))
]

All-remove : (P : ℕ → Type 0) (i : ℕ) (xs : List ℕ) → All P xs → All P (remove i xs)
All-remove P i [] a = tt
All-remove P i (x ∷ xs) a =
    elim (i == x) as (λ b. All P (if b then remove i xs else x ∷ remove i xs)) [
      | true ↦ All-remove P i xs a.1
      | false ↦ (a.0, All-remove P i xs a.1)
    ]

pub InOrder-remove :
    (gt : ℕ → ℕ → Bool) (i : ℕ) (xs : List ℕ) → InOrder gt xs → InOrder gt (remove i xs)
InOrder-remove gt i [] o = tt
InOrder-remove gt i (x ∷ xs) o =
    elim (i == x) as (λ b. InOrder gt (if b then remove i xs else x ∷ remove i xs)) [
      | true ↦ InOrder-remove gt i xs o.1
      | false ↦ (All-remove (λ y. gt x y ≡ false) i xs o.0, InOrder-remove gt i xs o.1)
    ]

-- Where two orders agree on the elements, so do the lists in order.
All-agree :
    (gt gt' : ℕ → ℕ → Bool) (x : ℕ) (ys : List ℕ)
    → ((j : ℕ) → mem j ys ≡ true → gt' x j ≡ gt x j)
    → All (λ y. gt x y ≡ false) ys
    → All (λ y. gt' x y ≡ false) ys
All-agree gt gt' x [] h a = tt
All-agree gt gt' x (y ∷ ys) h a =
    (ground (arith, h y, a.0), All-agree gt gt' x ys (λ j m. h j (ground (arith, m))) a.1)

pub InOrder-agree :
    (gt gt' : ℕ → ℕ → Bool) (xs : List ℕ)
    → ((i j : ℕ) → mem i xs ≡ true → mem j xs ≡ true → gt' i j ≡ gt i j)
    → InOrder gt xs
    → InOrder gt' xs
InOrder-agree gt gt' [] h o = tt
InOrder-agree gt gt' (x ∷ xs) h o = (
  All-agree gt gt' x xs (λ j m. h x j (ground arith) (ground (arith, m))) o.0,
  InOrder-agree gt gt' xs (λ i j m n. h i j (ground (arith, m)) (ground (arith, n))) o.1,
)

module _ (gt : ℕ → ℕ → Bool) (P : ℕ → Type 0)
    (trans : (x y z : ℕ) → P x → P y → P z → gt x y ≡ true → gt y z ≡ true → gt x z ≡ true)
    (asym : (x y : ℕ) → P x → P y → gt x y ≡ true → gt y x ≡ false) where
  not_before :
      (i y : ℕ) (ys : List ℕ)
      → P i
      → P y
      → All P ys
      → gt y i ≡ true
      → All (λ z. gt y z ≡ false) ys
      → All (λ z. gt i z ≡ false) ys
  not_before i y [] pi py ps g a = tt
  not_before i y (z ∷ ys) pi py ps g a = (
    elim (Bool-cases (gt i z)) [
      | inl e ↦ absurd (cc (a.0, trans y i z py pi ps.0 g e))
      | inr e ↦ e
    ],
    not_before i y ys pi py ps.1 g a.1,
  )

  All-insert_before :
      (x i : ℕ) (ys : List ℕ)
      → gt x i ≡ false
      → All (λ z. gt x z ≡ false) ys
      → All (λ z. gt x z ≡ false) (insert_before (λ j. gt j i) i ys)
  All-insert_before x i [] g a = (g, tt)
  All-insert_before x i (y ∷ ys) g a =
      elim (gt y i)
        as (λ b.
          All (λ z. gt x z ≡ false)
            (if b then i ∷ y ∷ ys else y ∷ insert_before (λ j. gt j i) i ys)) [
              | true ↦ (g, a)
              | false ↦ (a.0, All-insert_before x i ys g a.1)
            ]

  pub InOrder-insert_before :
      (i : ℕ) (xs : List ℕ)
      → P i
      → All P xs
      → InOrder gt xs
      → InOrder gt (insert_before (λ j. gt j i) i xs)
  InOrder-insert_before i [] pi ps o = (tt, tt)
  InOrder-insert_before i (y ∷ ys) pi ps o = elim (Bool-cases (gt y i)) [
    | inl e ↦ rw e ((asym y i ps.0 pi e, not_before i y ys pi ps.0 ps.1 e o.0), o)
    | inr e ↦ rw e (All-insert_before y i ys e o.0, InOrder-insert_before i ys pi ps.1 o.1)
  ]
