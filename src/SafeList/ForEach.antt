-- ===== src/SafeList/ForEach.antt =====
-- `safe_list_for_each` with a callback that deletes elements of the list it is called on.
use mathlib.Core.List.{append-nil}
use openwrt_libubox.Prelude.{
  ℕ, zero, suc, ◌<◌, List, [], ◌∷◌, ◌++◌, Option, none, some, true, false, if◌then◌else◌, ◌>>=◌,
  ◌≡◌, refl, ap, sym, arith, Bool-cases, inl, inr, length,
}
use mathlib.Core.Path.{subst}
use openwrt_libubox.Prelude.Int.{pos}
use openwrt_libubox.SafeList.{
  SafeList, Visit, mem, remove, first_entry, successor, safe_list_for_each, for_each_from,
  move_iterator, del_iterator, set_iterator, iterator_next,
}
use openwrt_libubox.SafeList.Deletion.{
  IsDistinct, Ahead, delete_present, delete_present-Ahead, mem_front, successor_behind,
}

unfoldable pub delete_each : List ℕ → SafeList → Option SafeList
delete_each [] s = some s
delete_each (y ∷ ys) s = delete_present y s >>= delete_each ys

-- The elements in the order of the calls are the context.
unfoldable pub deleting : (ℕ → List ℕ) → ℕ → SafeList → List ℕ → Option (Visit (List ℕ))
deleting gone x s log = delete_each (gone x) s >>= λ s'. some (pos 0, (s', log ++ (x ∷ [])))

-- The calls, by the order of the list alone: an element is passed over when an earlier call deleted
-- it.
abbrev pub mark : List ℕ → List ℕ → List ℕ
mark [] dead = dead
mark (y ∷ ys) dead = mark ys (y ∷ dead)

abbrev pub calls : (ℕ → List ℕ) → List ℕ → List ℕ → List ℕ
calls gone dead [] = []
calls gone dead (x ∷ xs) =
    let rest = calls gone dead xs in
    let more = calls gone (mark (gone x) dead) xs in if mem x dead then rest else x ∷ more

-- Every element that a call deletes.
abbrev pub deleted : (ℕ → List ℕ) → List ℕ → List ℕ → List ℕ
deleted gone dead [] = dead
deleted gone dead (x ∷ xs) =
    let rest = deleted gone dead xs in
    let more = deleted gone (mark (gone x) dead) xs in if mem x dead then rest else more

abbrev pub keep : List ℕ → List ℕ → List ℕ
keep dead [] = []
keep dead (x ∷ xs) = let rest = keep dead xs in if mem x dead then rest else x ∷ rest

keep-cons : (y : ℕ) (dead xs : List ℕ) → remove y (keep dead xs) ≡ keep (y ∷ dead) xs
keep-cons y dead [] = refl
keep-cons y dead (x ∷ xs) = ground (arith, keep-cons y dead xs)

keep-append : (dead xs ys : List ℕ) → keep dead (xs ++ ys) ≡ keep dead xs ++ keep dead ys
keep-append dead [] ys = refl
keep-append dead (x ∷ xs) ys = ground (arith, keep-append dead xs ys)

keep-all : (xs : List ℕ) → keep [] xs ≡ xs
keep-all [] = refl
keep-all (x ∷ xs) = ap (λ l. x ∷ l) (keep-all xs)

pub append-snoc {ℓ} :
    {A : Type ℓ} (xs : List A) (x : A) (ys : List A) → (xs ++ (x ∷ [])) ++ ys ≡ xs ++ (x ∷ ys)
append-snoc [] x ys = refl
append-snoc (z ∷ xs) x ys = ap (λ l. z ∷ l) (append-snoc xs x ys)

mem-keep : (x : ℕ) (dead xs : List ℕ) → mem x xs ≡ false → mem x (keep dead xs) ≡ false
mem-keep x dead [] h = refl
mem-keep x dead (z ∷ xs) h = ground (arith, mem-keep x dead xs)

IsDistinct-keep : (dead xs : List ℕ) → IsDistinct xs → IsDistinct (keep dead xs)
IsDistinct-keep dead [] d = d
IsDistinct-keep dead (x ∷ xs) d =
    ground (arith, mem-keep x dead xs d.0, IsDistinct-keep dead xs d.1)

IsDistinct-parts :
    (dead xs ys : List ℕ) → IsDistinct (xs ++ ys) → IsDistinct (keep dead xs ++ keep dead ys)
IsDistinct-parts dead xs ys d =
    subst IsDistinct (keep-append dead xs ys) (IsDistinct-keep dead (xs ++ ys) d)

delete_each-Ahead :
    (ys dead : List ℕ) (s : SafeList) (front xs : List ℕ)
    → IsDistinct (front ++ xs)
    → Ahead s (keep dead front) (keep dead xs)
    → (s' : SafeList) × (delete_each ys s ≡ some s')
      × Ahead s' (keep (mark ys dead) front) (keep (mark ys dead) xs)
unfolding delete_each
delete_each-Ahead [] dead s front xs d a = (s, refl, a)
delete_each-Ahead (y ∷ ys) dead s front xs d a =
    let (s', e, a') =
      delete_present-Ahead y s (keep dead front) (keep dead xs) a
        (IsDistinct-parts dead front xs d) in
    let b : Ahead s' (keep (y ∷ dead) front) (keep (y ∷ dead) xs) =
      rw (← keep-cons y dead front, ← keep-cons y dead xs) a' in
    let (s'', e', a'') = delete_each-Ahead ys (y ∷ dead) s' front xs d b in (s'', rw e e', a'')

move_iterator-Ahead :
    (x : ℕ) (s : SafeList) (pre suf : List ℕ)
    → IsDistinct (pre ++ (x ∷ suf))
    → Ahead s pre (x ∷ suf)
    → Ahead (move_iterator (some x) s) (pre ++ (x ∷ [])) suf
unfolding move_iterator del_iterator set_iterator
move_iterator-Ahead x s pre suf d a =
    let next : successor x s.items ≡ first_entry suf =
      rw a.linked (successor_behind x pre suf (mem_front x pre suf d)) in
    record {
      others = a.others;
      linked = rw a.linked (sym (append-snoc pre x suf));
      points = rw (next, a.points) refl;
    }

move_iterator-end :
    (cur : Option ℕ) (s : SafeList) → (del_iterator (move_iterator cur s)).items ≡ s.items
unfolding move_iterator del_iterator set_iterator
move_iterator-end cur s = refl

keep_dead :
    (x : ℕ) (dead xs : List ℕ) → mem x dead ≡ true → keep dead (xs ++ (x ∷ [])) ≡ keep dead xs
keep_dead x dead [] e = rw e refl
keep_dead x dead (z ∷ xs) e = ground (arith, keep_dead x dead xs)

keep_alive :
    (x : ℕ) (dead xs : List ℕ)
    → mem x dead ≡ false
    → keep dead (xs ++ (x ∷ [])) ≡ keep dead xs ++ (x ∷ [])
keep_alive x dead [] e = rw e refl
keep_alive x dead (z ∷ xs) e = ground (arith, keep_alive x dead xs)

one_call :
    (gone : ℕ → List ℕ) (x fuel : ℕ) (cur : Option ℕ) (m s : SafeList) (log : List ℕ)
    → delete_each (gone x) m ≡ some s
    → iterator_next s.iterators ≡ cur
    → for_each_from (deleting gone) (suc fuel) (some x) m log
      ≡ for_each_from (deleting gone) fuel cur (move_iterator cur s) (log ++ (x ∷ []))
unfolding for_each_from deleting
one_call gone x fuel cur m s log h c = rw (h, c) refl

-- What the loop computes from `cur`, the first element that is not visited, with the iterator there.
loop_lem :
    (gone : ℕ → List ℕ) (xs : List ℕ) (fuel : ℕ) (s : SafeList) (front dead log : List ℕ)
    → length xs < fuel
    → IsDistinct (front ++ xs)
    → Ahead s (keep dead front) (keep dead xs)
    → (s' : SafeList) × (for_each_from
          (deleting gone)
          fuel
          (first_entry (keep dead xs))
          (move_iterator (first_entry (keep dead xs)) s)
          log
        ≡ some (pos 0, (s', log ++ calls gone dead xs)))
      × (s'.items ≡ keep (deleted gone dead xs) (front ++ xs))
unfolding for_each_from
loop_lem gone xs zero s front dead log l d a = absurd (omega arith)
loop_lem gone [] (suc fuel) s front dead log l d a = (
  del_iterator (move_iterator none s),
  rw (append-nil log) refl,
  rw (append-nil front, move_iterator-end none s, a.linked) (append-nil (keep dead front)),
)
loop_lem gone (x ∷ xs) (suc fuel) s front dead log l d a = elim (Bool-cases (mem x dead)) [
  | inl e ↦
      let d' : IsDistinct ((front ++ (x ∷ [])) ++ xs) = rw (append-snoc front x xs) d in
      let after : Ahead s (keep dead front) (keep dead xs) =
        subst (λ b. Ahead s (keep dead front) (if b then keep dead xs else x ∷ keep dead xs)) e a in
      let after' : Ahead s (keep dead (front ++ (x ∷ []))) (keep dead xs) =
        rw (keep_dead x dead front e) after in
      let (s', run, left) =
        loop_lem gone xs (suc fuel) s (front ++ (x ∷ [])) dead log (omega arith) d' after' in
      (s', rw e run, rw (e, ← append-snoc front x xs) left)
  | inr e ↦
      let d' : IsDistinct ((front ++ (x ∷ [])) ++ xs) = rw (append-snoc front x xs) d in
      let here : Ahead s (keep dead front) (x ∷ keep dead xs) =
        subst (λ b. Ahead s (keep dead front) (if b then keep dead xs else x ∷ keep dead xs)) e a in
      let m : SafeList = move_iterator (some x) s in
      let moved : Ahead m (keep dead (front ++ (x ∷ []))) (keep dead xs) =
        rw (keep_alive x dead front e) (
          move_iterator-Ahead x s (keep dead front) (keep dead xs)
            (subst
              (λ b. IsDistinct (keep dead front ++ (if b then keep dead xs else x ∷ keep dead xs)))
              e (IsDistinct-parts dead front (x ∷ xs) d))
            here) in
      let (s', step, ahead) = delete_each-Ahead (gone x) dead m (front ++ (x ∷ [])) xs d' moved in
      let (s'', run, left) =
        loop_lem gone xs fuel s' (front ++ (x ∷ [])) (mark (gone x) dead) (log ++ (x ∷ []))
          (omega arith) d' ahead in
      (
        s'',
        rw
            (
              e,
              one_call gone x fuel (first_entry (keep (mark (gone x) dead) xs)) m s' log step
                  (ap iterator_next ahead.points),
              ← append-snoc log x (calls gone (mark (gone x) dead) xs),
            )
            run,
        rw (e, ← append-snoc front x xs) left,
      )
]

-- `safe_list_for_each` with a callback that deletes any of the elements still linked, the one it is
-- called on, those before and those after: every element not deleted before its turn is called on
-- once, in the order of the list; none fault, and what is left is what no call deleted. One more
-- step than there are elements is fuel enough, and loops around this one do not matter.
pub safe_list_for_each-calls :
    (gone : ℕ → List ℕ) (s : SafeList) (fuel : ℕ)
    → IsDistinct s.items
    → length s.items < fuel
    → (s' : SafeList) × (safe_list_for_each (deleting gone) fuel s []
        ≡ some (pos 0, (s', calls gone [] s.items)))
      × (s'.items ≡ keep (deleted gone [] s.items) s.items)
unfolding safe_list_for_each move_iterator del_iterator set_iterator
safe_list_for_each-calls gone s fuel d l =
    let i : Option ℕ = first_entry s.items in
    let entered : SafeList = record s { iterators = i ∷ s.iterators } in
    let a : Ahead entered [] (keep [] s.items) = record {
      others = s.iterators;
      linked = sym (keep-all s.items);
      points = rw (keep-all s.items) refl;
    } in
    let (s', run, left) = loop_lem gone s.items fuel entered [] [] [] l d a in
    let from : List ℕ → Type 0 = λ c.
      for_each_from (deleting gone) fuel (first_entry c) (move_iterator (first_entry c) entered) []
      ≡ some (pos 0, (s', calls gone [] s.items)) in
    (s', subst from (keep-all s.items) run, left)
