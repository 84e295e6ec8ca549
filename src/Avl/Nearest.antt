-- ===== src/Avl/Nearest.antt =====
-- avl.c: the last node at or below a key, and the first at or above it, by walks along the thread.
use Prim.Native.Nat.Ordering.{lt, gt}
use openwrt_libubox.Prelude.{
  ℕ, ◌+◌, List, [], ◌∷◌, Option, none, some, Bool, true, false, ◌==◌, if◌then◌else◌, ◌>>=◌, ◌≡◌,
  refl, map,
}
use openwrt_libubox.Prelude.Int.{ℤ, pos, sub_ℕ}
use openwrt_libubox.Avl.{AvlTree, Node, leaf, node, top, sign, avl_find, avl_find_rec}

-- A node in the thread: those before it, the nearest first, and those behind it.
pub record Place {ℓ} (K : Type ℓ) : Type ℓ where
  pub before : List (Node K)
  pub self : Node K
  pub behind : List (Node K)

module _ {ℓ} {K : Type ℓ} where
  -- The place of the node with an address (none for a node that is not threaded), in a thread whose nodes before `xs` are given.
  abbrev pub place : ℕ → List (Node K) → List (Node K) → Option (Place K)
  place id before [] = none
  place id before (x ∷ xs) =
      let rest = place id (x ∷ before) xs in
      if x.id == id then some (record { before = before; self = x; behind = xs }) else rest

  -- `avl_is_first`, `avl_is_last`, of the node with an address, and `avl_is_empty`.
  abbrev pub avl_is_first : AvlTree K → ℕ → Bool
  avl_is_first t id = elim t.list [ [] ↦ false | x ∷ xs ↦ x.id == id ]

  abbrev pub last_is : ℕ → Node K → List (Node K) → Bool
  last_is id x [] = x.id == id
  last_is id x (y ∷ ys) = last_is id y ys

  abbrev pub avl_is_last : AvlTree K → ℕ → Bool
  avl_is_last t id = elim t.list [ [] ↦ false | x ∷ xs ↦ last_is id x xs ]

  abbrev pub avl_is_empty : AvlTree K → Bool
  avl_is_empty t = t.count == 0

module _ {ℓ} {K : Type ℓ} (comp : K → K → ℤ) where
  -- `while (diff < 0)`: to the left as long as the key is less.
  unfoldable pub left_while_less : K → List (Node K) → Node K → List (Node K) → Option (Place K)
  left_while_less k [] x behind = elim (sign (comp k x.key)) [
    | lt ↦ none
    | _ ↦ some (record { before = []; self = x; behind = behind })
  ]
  left_while_less k (y ∷ before) x behind =
      let rest = left_while_less k before y (x ∷ behind) in
      elim (sign (comp k x.key)) [
        | lt ↦ rest
        | _ ↦ some (record { before = y ∷ before; self = x; behind = behind })
      ]

  -- `while (diff >= 0)`: to the right as long as the next key is not greater.
  unfoldable pub right_while_not_less : K → Node K → List (Node K) → Node K
  right_while_not_less k x [] = x
  right_while_not_less k x (y ∷ behind) =
      let rest = right_while_not_less k y behind in elim (sign (comp k y.key)) [ lt ↦ x | _ ↦ rest ]

  unfoldable pub avl_find_lessequal : AvlTree K → K → Option (Node K)
  unfolding avl_find_rec left_while_less right_while_not_less
  avl_find_lessequal t k = avl_find_rec comp k t.root top >>= λ f.
      place f.self.id [] t.list >>= λ p. left_while_less k p.before p.self p.behind >>= λ q.
      some (right_while_not_less k q.self q.behind)

  -- `while (diff > 0)`: to the right as long as the key is greater.
  unfoldable pub right_while_greater : K → List (Node K) → Node K → List (Node K) → Option (Place K)
  right_while_greater k before x [] = elim (sign (comp k x.key)) [
    | gt ↦ none
    | _ ↦ some (record { before = before; self = x; behind = [] })
  ]
  right_while_greater k before x (y ∷ behind) =
      let rest = right_while_greater k (x ∷ before) y behind in
      elim (sign (comp k x.key)) [
        | gt ↦ rest
        | _ ↦ some (record { before = before; self = x; behind = y ∷ behind })
      ]

  -- `while (diff <= 0)`: to the left as long as the next key is not less.
  unfoldable pub left_while_not_greater : K → Node K → List (Node K) → Node K
  left_while_not_greater k x [] = x
  left_while_not_greater k x (y ∷ before) =
      let rest = left_while_not_greater k y before in
      elim (sign (comp k y.key)) [ gt ↦ x | _ ↦ rest ]

  unfoldable pub avl_find_greaterequal : AvlTree K → K → Option (Node K)
  unfolding avl_find_rec right_while_greater left_while_not_greater
  avl_find_greaterequal t k = avl_find_rec comp k t.root top >>= λ f.
      place f.self.id [] t.list >>= λ p. right_while_greater k p.before p.self p.behind >>= λ q.
      some (left_while_not_greater k q.self q.before)

-- `enum avl_find_mode`
pub data AvlFindMode : Type 0 where
  equal : AvlFindMode
  lessequal : AvlFindMode
  greaterequal : AvlFindMode

-- `__avl_find_element`; the element is known by its node.
unfoldable pub find_element {ℓ} :
    {K : Type ℓ} → (K → K → ℤ) → AvlTree K → K → AvlFindMode → Option (Node K)
unfolding avl_find avl_find_lessequal avl_find_greaterequal
find_element comp t k equal = avl_find comp t k
find_element comp t k lessequal = avl_find_lessequal comp t k
find_element comp t k greaterequal = avl_find_greaterequal comp t k

abbrev key : ℕ → Node ℕ
key n = record { id = n + 100; key = n; leader = true }

-- 2, 4 and two nodes of key 6.
abbrev evens : AvlTree ℕ
evens = record {
  root = node (node leaf (key 2) (pos 0) leaf) (key 4) (pos 0) (node leaf (key 6) (pos 0) leaf);
  list = key 2 ∷ key 4 ∷ key 6 ∷ record (key 6) { id = 999; leader = false } ∷ [];
  count = 4;
  allow_dups = true;
}

abbrev ids : List (Option (Node ℕ)) → List (Option ℕ)
ids [] = []
ids (none ∷ xs) = none ∷ ids xs
ids (some x ∷ xs) = some x.id ∷ ids xs

lessequal_evens :
    ids (map (avl_find_lessequal sub_ℕ evens) (1 ∷ 2 ∷ 5 ∷ 6 ∷ 9 ∷ []))
    ≡ none ∷ some 102 ∷ some 104 ∷ some 999 ∷ some 999 ∷ []
unfolding avl_find_lessequal avl_find_rec left_while_less right_while_not_less
lessequal_evens = refl

greaterequal_evens :
    ids (map (avl_find_greaterequal sub_ℕ evens) (1 ∷ 2 ∷ 5 ∷ 6 ∷ 9 ∷ []))
    ≡ some 102 ∷ some 102 ∷ some 106 ∷ some 106 ∷ none ∷ []
unfolding avl_find_greaterequal avl_find_rec right_while_greater left_while_not_greater
greaterequal_evens = refl
