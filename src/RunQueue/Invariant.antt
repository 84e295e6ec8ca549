-- ===== src/RunQueue/Invariant.antt =====
-- A task is in the list that its flags say, once, and `running_tasks` counts the active list.
use openwrt_libubox.Prelude.{
  ℕ, suc, some, Bool, true, false, ◌||◌, ◌&&◌, not, ◌==◌, ==_iff, if◌then◌else◌, ◌≡◌, refl, arith,
  length, map, Bool-cases, inl, inr,
}
use mathlib.Core.Path.{subst}
use openwrt_libubox.Prelude.Int.{pos, ◌+ℤ◌}
use openwrt_libubox.SafeList.{
  SafeList, mem, remove, successor, retarget, safe_list_del, safe_list_add, safe_list_add_first,
}
use openwrt_libubox.SafeList.Deletion.{IsDistinct, IsDistinct-remove}
use openwrt_libubox.RunQueue.{
  RunQueue, start_next, task_add, activate, activated, added, add_at, start_next_cb,
}
use openwrt_libubox.SafeList.Members.{
  mem-remove_all, mem-snoc, IsDistinct-snoc, length-snoc, length-remove,
}

pub record IsWf (q : RunQueue) : Type 0 where
  pub active : (i : ℕ) → mem i q.tasks_active.items ≡ ((q.tasks i).queued && (q.tasks i).running)
  pub inactive :
      (i : ℕ) → mem i q.tasks_inactive.items ≡ ((q.tasks i).queued && not (q.tasks i).running)
  pub active_once : IsDistinct q.tasks_active.items
  pub inactive_once : IsDistinct q.tasks_inactive.items
  pub counted : q.running_tasks ≡ pos (length q.tasks_active.items)
  pub runnable : (i : ℕ) → mem i q.tasks_inactive.items ≡ true → (q.tasks i).has_run ≡ true

-- The timer is no part of it.
pub start_next-IsWf : (q : RunQueue) → IsWf q → IsWf (start_next q)
unfolding start_next
start_next-IsWf q w =
    let armed = record q { timer_cb = start_next_cb; timeout = some (pos 1) } in
    let w' : IsWf armed = record {
      active = w.active;
      inactive = w.inactive;
      active_once = w.active_once;
      inactive_once = w.inactive_once;
      counted = w.counted;
      runnable = w.runnable;
    } in
    elim q.is_empty as (λ b. IsWf (if b then q else armed)) [ true ↦ w | false ↦ w' ]

pub activate-IsWf :
    (i : ℕ) (q : RunQueue)
    → IsWf q
    → mem i q.tasks_inactive.items ≡ true
    → (q' : RunQueue) × (activate i q ≡ some q')
      × IsWf q'
      × (suc (length q'.tasks_inactive.items) ≡ length q.tasks_inactive.items)
      × ((q'.tasks i).has_run ≡ (q.tasks i).has_run)
      × (q'.running_tasks ≡ q.running_tasks +ℤ pos 1)
      × (q'.max_running_tasks ≡ q.max_running_tasks)
unfolding activate safe_list_del safe_list_add ◌+ℤ◌
activate-IsWf i q w h = (
  activated i
      (record {
        items = remove i q.tasks_inactive.items;
        iterators =
            map (retarget i (successor i q.tasks_inactive.items)) q.tasks_inactive.iterators;
      })
      q,
  rw h refl,
  record {
    active = λ j. ground (
      arith,
      w.active j,
      w.inactive j,
      w.inactive i,
      ==_iff j i,
      mem-snoc j i q.tasks_active.items,
    );
    inactive = λ j. ground (
      arith,
      w.active j,
      w.inactive j,
      w.inactive i,
      ==_iff j i,
      mem-remove_all j i q.tasks_inactive.items,
    );
    active_once =
        IsDistinct-snoc i q.tasks_active.items (ground (arith, w.active i, w.inactive i))
          w.active_once;
    inactive_once = IsDistinct-remove i q.tasks_inactive.items w.inactive_once;
    counted = ground (arith, w.counted, length-snoc i q.tasks_active.items);
    runnable = λ j m.
        ground (
          arith,
          w.runnable j,
          w.runnable i,
          ==_iff j i,
          mem-remove_all j i q.tasks_inactive.items,
        );
  },
  length-remove i q.tasks_inactive.items h w.inactive_once,
  ground (arith, ==_iff i i),
  refl,
  refl,
)

-- Adding at either end.
add_at-mem :
    (first : Bool) (i j : ℕ) (l : SafeList)
    → mem j (add_at first i l).items ≡ (mem j l.items || j == i)
unfolding safe_list_add safe_list_add_first
add_at-mem true i j l = ground arith
add_at-mem false i j l = mem-snoc j i l.items

add_at-IsDistinct :
    (first : Bool) (i : ℕ) (l : SafeList)
    → mem i l.items ≡ false
    → IsDistinct l.items
    → IsDistinct (add_at first i l).items
unfolding safe_list_add safe_list_add_first
add_at-IsDistinct true i l h d = (h, d)
add_at-IsDistinct false i l h d = IsDistinct-snoc i l.items h d

add_at-length :
    (first : Bool) (i : ℕ) (l : SafeList) → length (add_at first i l).items ≡ suc (length l.items)
unfolding safe_list_add safe_list_add_first
add_at-length true i l = refl
add_at-length false i l = length-snoc i l.items

added-IsWf :
    (i : ℕ) (running first : Bool) (q : RunQueue)
    → IsWf q
    → (q.tasks i).queued ≡ false
    → ((q.tasks i).has_run || running) ≡ true
    → IsWf (added i running first q)
unfolding ◌+ℤ◌
added-IsWf i true first q w u r = record {
  active = λ j. ground (arith, w.active j, ==_iff j i, add_at-mem first i j q.tasks_active);
  inactive = λ j. ground (arith, w.inactive j, w.inactive i, ==_iff j i);
  active_once = add_at-IsDistinct first i q.tasks_active (ground (arith, w.active i)) w.active_once;
  inactive_once = w.inactive_once;
  counted = ground (arith, w.counted, add_at-length first i q.tasks_active);
  runnable = λ j m. ground (arith, w.runnable j, ==_iff j i);
}
added-IsWf i false first q w u r = record {
  active = λ j. ground (arith, w.active j, w.active i, ==_iff j i);
  inactive = λ j. ground (arith, w.inactive j, ==_iff j i, add_at-mem first i j q.tasks_inactive);
  active_once = w.active_once;
  inactive_once =
      add_at-IsDistinct first i q.tasks_inactive (ground (arith, w.inactive i)) w.inactive_once;
  counted = w.counted;
  runnable = λ j m. ground (arith, w.runnable j, ==_iff j i, add_at-mem first i j q.tasks_inactive);
}

pub task_add-IsWf :
    (i : ℕ) (running first : Bool) (q : RunQueue) → IsWf q → IsWf (task_add i running first q)
unfolding task_add
task_add-IsWf i running first q w = elim (Bool-cases (q.tasks i).queued) [
  | inl e ↦ subst IsWf (ground arith) w
  | inr e ↦ elim (Bool-cases ((q.tasks i).has_run || running)) [
    | inl r ↦ subst IsWf (ground arith) (start_next-IsWf _ (added-IsWf i running first q w e r))
    | inr r ↦ subst IsWf (ground arith) w
  ]
]
