-- ===== src/SafeList/Deletion.antt =====
-- Deletions before and behind an iterator.
use openwrt_libubox.Prelude.{
  ℕ, List, [], ◌∷◌, ◌++◌, map, Option, some, false, ◌||◌, ◌==◌, if◌then◌else◌, ◌≡◌, refl, ap, arith,
  Bool-cases, inl, inr,
}
use openwrt_libubox.SafeList.{
  SafeList, mem, remove, first_entry, successor, retarget, safe_list_del,
}

-- No element stands in the list twice.
abbrev pub IsDistinct : List ℕ → Type 0
IsDistinct [] = Unit
IsDistinct (x ∷ xs) = (mem x xs ≡ false) × IsDistinct xs

pub remove-append : (y : ℕ) (xs ys : List ℕ) → remove y (xs ++ ys) ≡ remove y xs ++ remove y ys
remove-append y [] ys = refl
remove-append y (x ∷ xs) ys = ground (arith, remove-append y xs ys)

mem-remove : (x y : ℕ) (xs : List ℕ) → mem x xs ≡ false → mem x (remove y xs) ≡ false
mem-remove x y [] h = refl
mem-remove x y (z ∷ xs) h = ground (arith, mem-remove x y xs)

pub IsDistinct-remove : (y : ℕ) (xs : List ℕ) → IsDistinct xs → IsDistinct (remove y xs)
IsDistinct-remove y [] d = d
IsDistinct-remove y (x ∷ xs) d = ground (arith, mem-remove x y xs d.0, IsDistinct-remove y xs d.1)

-- The elements before one of a list of distinct elements are others.
pub mem_front : (y : ℕ) (xs ys : List ℕ) → IsDistinct (xs ++ (y ∷ ys)) → mem y xs ≡ false
mem_front y [] ys d = refl
mem_front y (x ∷ xs) ys d = ground (arith, mem_front y xs ys d.1, mem_middle y x xs ys)
  where
    mem_middle : (y x : ℕ) (xs ys : List ℕ) → mem x (xs ++ (y ∷ ys)) ≡ false → (x == y) ≡ false
    mem_middle y x [] ys h = ground arith
    mem_middle y x (w ∷ xs) ys h = ground (arith, mem_middle y x xs ys)

pub remove-absent : (y : ℕ) (xs : List ℕ) → mem y xs ≡ false → remove y xs ≡ xs
remove-absent y [] h = refl
remove-absent y (x ∷ xs) h = ground (arith, remove-absent y xs)

pub successor_behind :
    (y : ℕ) (xs ys : List ℕ) → mem y xs ≡ false → successor y (xs ++ (y ∷ ys)) ≡ first_entry ys
successor_behind y [] ys h = ground arith
successor_behind y (x ∷ xs) ys h = ground (arith, successor_behind y xs ys)

-- The innermost iterator stands at the first element of `suf`, and `pre` is behind it.
pub record Ahead (s : SafeList) (pre suf : List ℕ) : Type 0 where
  pub others : List (Option ℕ)
  pub linked : s.items ≡ pre ++ suf
  pub points : s.iterators ≡ first_entry suf ∷ others

pub IsDistinct-back : (xs ys : List ℕ) → IsDistinct (xs ++ ys) → IsDistinct ys
IsDistinct-back [] ys d = d
IsDistinct-back (x ∷ xs) ys d = IsDistinct-back xs ys d.1

-- Wherever the deleted element stands, the iterator is at the first of what is left ahead.
first-remove :
    (y : ℕ) (pre suf : List ℕ)
    → IsDistinct (pre ++ suf)
    → retarget y (successor y (pre ++ suf)) (first_entry suf) ≡ first_entry (remove y suf)
first-remove y pre [] d = refl
first-remove y pre (x ∷ suf) d = ground (
  arith,
  mem_front x pre suf d,
  successor_behind x pre suf,
  (IsDistinct-back pre (x ∷ suf) d).0,
  remove-absent x suf,
)

-- A callback may delete an element only while it is linked.
unfoldable pub delete_present : ℕ → SafeList → Option SafeList
unfolding safe_list_del
delete_present y s = if mem y s.items then safe_list_del y s else some s

pub mem-append : (y : ℕ) (xs ys : List ℕ) → mem y (xs ++ ys) ≡ (mem y xs || mem y ys)
mem-append y [] ys = refl
mem-append y (x ∷ xs) ys = ground (arith, mem-append y xs ys)

pub delete_present-Ahead :
    (y : ℕ) (s : SafeList) (pre suf : List ℕ)
    → Ahead s pre suf
    → IsDistinct (pre ++ suf)
    → (s' : SafeList) × (delete_present y s ≡ some s') × Ahead s' (remove y pre) (remove y suf)
unfolding delete_present safe_list_del
delete_present-Ahead y s pre suf a d = elim (Bool-cases (mem y s.items)) [
  | inl e ↦
      let moved : Option ℕ → Option ℕ = retarget y (successor y s.items) in
      (
        record { items = remove y s.items; iterators = map moved s.iterators },
        rw e refl,
        record {
          others = map moved a.others;
          linked = rw a.linked (remove-append y pre suf);
          points =
              rw a.points
                (ap (λ i. i ∷ map moved a.others) (rw a.linked (first-remove y pre suf d)));
        },
      )
  | inr e ↦
      let apart : (mem y pre || mem y suf) ≡ false =
        ground (arith, mem-append y pre suf, a.linked) in
      (
        s,
        rw e refl,
        record {
          others = a.others;
          linked = ground (arith, a.linked, remove-absent y pre, remove-absent y suf);
          points = ground (arith, a.points, remove-absent y suf);
        },
      )
]
