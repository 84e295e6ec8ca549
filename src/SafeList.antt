-- ===== src/SafeList.antt =====
-- safe_list.c: lists whose elements may be deleted while callbacks iterate over them.
-- An element is known by a number (its address) and stands in the list at most once. The iterators
-- of all running loops are kept in one list, the innermost first, each with the element it visits
-- next (none is the list's head); the chain of iterators at an element is those that name it.
pub mod Deletion
pub mod Members
pub mod ForEach
mod Tests
use openwrt_libubox.Prelude.{
  ℕ, zero, suc, List, [], ◌∷◌, ◌++◌, map, Option, none, some, Bool, true, false, ◌==◌,
  if◌then◌else◌, ◌>>=◌,
}
use openwrt_libubox.Prelude.Int.{ℤ, pos, negsuc}

-- A `struct safe_list` that is the head of a list, with the iterators that its elements carry.
pub record SafeList : Type 0 where
  pub items : List ℕ
  pub iterators : List (Option ℕ)

-- Whether an element is linked.
abbrev pub mem : ℕ → List ℕ → Bool
mem x [] = false
mem x (y ∷ ys) = let rest = mem x ys in if x == y then true else rest

abbrev pub remove : ℕ → List ℕ → List ℕ
remove x [] = []
remove x (y ∷ ys) = let rest = remove x ys in if x == y then rest else y ∷ rest

abbrev pub first_entry : List ℕ → Option ℕ
first_entry [] = none
first_entry (x ∷ xs) = some x

-- `list->list.next` of an element.
abbrev pub successor : ℕ → List ℕ → Option ℕ
successor x [] = none
successor x (y ∷ ys) = let rest = successor x ys in if x == y then first_entry ys else rest

-- `list->list.next` of an element or of the head.
abbrev pub next_of : Option ℕ → List ℕ → Option ℕ
next_of none items = first_entry items
next_of (some x) items = successor x items

abbrev pub safe_list_empty : SafeList → Bool
safe_list_empty s = elim s.items [ [] ↦ true | x ∷ xs ↦ false ]

unfoldable pub safe_list_add : ℕ → SafeList → SafeList
safe_list_add x s = record s { items = s.items ++ x ∷ [] }

unfoldable pub safe_list_add_first : ℕ → SafeList → SafeList
safe_list_add_first x s = record s { items = x ∷ s.items }

-- An iterator at the deleted element goes to the next one.
abbrev pub retarget : ℕ → Option ℕ → Option ℕ → Option ℕ
retarget x next none = none
retarget x next (some y) = if x == y then next else some y

-- `none` for an element that is not linked, whose links the code follows.
unfoldable pub safe_list_del : ℕ → SafeList → Option SafeList
safe_list_del x s =
    if mem x s.items
    then some (record s {
      items = remove x s.items;
      iterators = map (retarget x (successor x s.items)) s.iterators;
    })
    else none

-- `__safe_list_set_iterator(cur, &i)`, of an iterator that is new.
unfoldable pub set_iterator : Option ℕ → SafeList → SafeList
set_iterator cur s = record s { iterators = next_of cur s.items ∷ s.iterators }

-- `__safe_list_del_iterator(&i)`, of the innermost iterator.
abbrev pub tail : List (Option ℕ) → List (Option ℕ)
tail [] = []
tail (i ∷ rest) = rest

unfoldable pub del_iterator : SafeList → SafeList
del_iterator s = record s { iterators = tail s.iterators }

unfoldable pub move_iterator : Option ℕ → SafeList → SafeList
unfolding set_iterator del_iterator
move_iterator cur s = set_iterator cur (del_iterator s)

-- `i.next` of the innermost iterator.
abbrev pub iterator_next : List (Option ℕ) → Option ℕ
iterator_next [] = none
iterator_next (i ∷ rest) = i

-- What a callback returns, with the list and the context as it leaves them.
abbrev pub Visit {ℓ} : Type ℓ → Type ℓ
Visit C = ℤ × (SafeList × C)

module _ {ℓ} {C : Type ℓ} where
  -- The loop, at `cur`. `none` is a fault of the callback, or the end of the fuel.
  unfoldable pub for_each_from :
      (ℕ → SafeList → C → Option (Visit C)) → ℕ → Option ℕ → SafeList → C → Option (Visit C)
  unfolding move_iterator del_iterator
  for_each_from cb zero cur s ctx = none
  for_each_from cb (suc fuel) none s ctx = some (pos 0, (del_iterator s, ctx))
  for_each_from cb (suc fuel) (some x) s ctx = cb x s ctx >>= λ v. elim v.0 [
    | pos zero ↦
        let cur = iterator_next v.1.0.iterators in
        for_each_from cb fuel cur (move_iterator cur v.1.0) v.1.1
    | ret ↦ some (ret, (del_iterator v.1.0, v.1.1))
  ]

  unfoldable pub safe_list_for_each :
      (ℕ → SafeList → C → Option (Visit C)) → ℕ → SafeList → C → Option (Visit C)
  unfolding for_each_from set_iterator
  safe_list_for_each cb fuel s ctx =
      let cur = first_entry s.items in for_each_from cb fuel cur (set_iterator cur s) ctx
