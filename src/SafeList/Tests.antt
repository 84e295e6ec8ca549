-- ===== src/SafeList/Tests.antt =====
-- Runs of safe lists, and the theorems at concrete inputs.
use openwrt_libubox.Prelude.{ℕ, List, [], ◌∷◌, none, some, ◌≡◌, refl, arith, ◌==◌, if◌then◌else◌}
use openwrt_libubox.Prelude.Int.{pos}
use openwrt_libubox.SafeList.{
  SafeList, safe_list_for_each, safe_list_del, for_each_from, move_iterator, del_iterator,
  set_iterator,
}
use openwrt_libubox.SafeList.Deletion.{delete_present}
use openwrt_libubox.SafeList.ForEach.{deleting, delete_each, safe_list_for_each-calls}

abbrev five : SafeList
five = record { items = 1 ∷ 2 ∷ 3 ∷ 4 ∷ 5 ∷ []; iterators = some 2 ∷ none ∷ [] }

-- The call on 1 deletes 2 (the next one) and 4, the call on 3 deletes 3 and 1.
abbrev some_gone : ℕ → List ℕ
some_gone n = if n == 1 then 2 ∷ 4 ∷ [] else if n == 3 then 3 ∷ 1 ∷ 2 ∷ [] else []

run_five :
    safe_list_for_each (deleting some_gone) 6 five []
    ≡ some (pos 0, (record { items = 5 ∷ []; iterators = some 5 ∷ none ∷ [] }, 1 ∷ 3 ∷ 5 ∷ []))
unfolding safe_list_for_each for_each_from move_iterator del_iterator set_iterator deleting
    delete_each delete_present safe_list_del
run_five = refl

safe_list_for_each-calls_example :
    (s : SafeList) × (safe_list_for_each (deleting some_gone) 6 five []
      ≡ some (pos 0, (s, 1 ∷ 3 ∷ 5 ∷ [])))
    × (s.items ≡ 5 ∷ [])
safe_list_for_each-calls_example =
    safe_list_for_each-calls some_gone five 6 (refl, (refl, (refl, (refl, (refl, tt)))))
      (omega arith)
