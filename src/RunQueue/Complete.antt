-- ===== src/RunQueue/Complete.antt =====
-- A task completed: unlinked, its flags reset, the counter lowered where it ran.
use openwrt_libubox.Prelude.{
  ℕ, suc, Option, some, Bool, true, false, ==_iff, if◌then◌else◌, ◌≡◌, refl, arith, length, map,
  Bool-cases, inl, inr,
}
use openwrt_libubox.Prelude.Int.{pos, ◌-ℤ◌}
use openwrt_libubox.SafeList.{SafeList, mem, remove, successor, retarget, safe_list_del}
use openwrt_libubox.SafeList.Deletion.{IsDistinct-remove}
use openwrt_libubox.RunQueue.{
  RunQueue, Callbacks, start_next, unlink, reset, detach, set_task, runqueue_task_complete,
}
use openwrt_libubox.SafeList.Members.{mem-remove_all, length-remove}
use openwrt_libubox.RunQueue.Invariant.{IsWf, start_next-IsWf}

abbrev without : ℕ → SafeList → SafeList
without i l = record {
  items = remove i l.items;
  iterators = map (retarget i (successor i l.items)) l.iterators;
}

pub detach-IsWf_running :
    (i : ℕ) (q : RunQueue)
    → IsWf q
    → (q.tasks i).queued ≡ true
    → (q.tasks i).running ≡ true
    → (q' : RunQueue) × (detach i q ≡ some q')
      × IsWf q'
      × (suc (length q'.tasks_active.items) ≡ length q.tasks_active.items)
unfolding detach unlink safe_list_del ◌-ℤ◌
detach-IsWf_running i q w u r =
    let linked : mem i q.tasks_active.items ≡ true = ground (arith, w.active i) in
    let n : suc (length (remove i q.tasks_active.items)) ≡ length q.tasks_active.items =
      length-remove i q.tasks_active.items linked w.active_once in
    (
      set_task i (reset (q.tasks i)) (record q {
        tasks_active = without i q.tasks_active;
        running_tasks = q.running_tasks -ℤ pos 1;
      }),
      ground (arith, linked, r),
      record {
        active =
            λ j. ground (arith, w.active j, ==_iff j i, mem-remove_all j i q.tasks_active.items);
        inactive = λ j. ground (arith, w.inactive j, w.inactive i, ==_iff j i);
        active_once = IsDistinct-remove i q.tasks_active.items w.active_once;
        inactive_once = w.inactive_once;
        counted = ground (arith, w.counted, n);
        runnable = λ j m. ground (arith, w.runnable j, w.runnable i, ==_iff j i);
      },
      n,
    )

detach-IsWf_waiting :
    (i : ℕ) (q : RunQueue)
    → IsWf q
    → (q.tasks i).queued ≡ true
    → (q.tasks i).running ≡ false
    → (q' : RunQueue) × (detach i q ≡ some q') × IsWf q'
unfolding detach unlink safe_list_del
detach-IsWf_waiting i q w u r =
    let linked : mem i q.tasks_inactive.items ≡ true = ground (arith, w.inactive i) in
    let apart : mem i q.tasks_active.items ≡ false = ground (arith, w.active i) in
    (
      set_task i (reset (q.tasks i)) (record q { tasks_inactive = without i q.tasks_inactive }),
      ground (arith, linked, apart, r),
      record {
        active = λ j. ground (arith, w.active j, w.active i, ==_iff j i);
        inactive = λ j.
            ground (arith, w.inactive j, ==_iff j i, mem-remove_all j i q.tasks_inactive.items);
        active_once = w.active_once;
        inactive_once = IsDistinct-remove i q.tasks_inactive.items w.inactive_once;
        counted = w.counted;
        runnable = λ j m. ground (
          arith,
          w.runnable j,
          w.runnable i,
          ==_iff j i,
          mem-remove_all j i q.tasks_inactive.items,
        );
      },
    )

detach-IsWf :
    (i : ℕ) (q : RunQueue)
    → IsWf q
    → (q.tasks i).queued ≡ true
    → (q' : RunQueue) × (detach i q ≡ some q') × IsWf q'
detach-IsWf i q w u = elim (Bool-cases (q.tasks i).running) [
  | inl r ↦ let (q', e, w', _) = detach-IsWf_running i q w u r in (q', e, w')
  | inr r ↦ detach-IsWf_waiting i q w u r
]

-- A callback that faults nowhere and leaves flags, lists and counter in agreement.
abbrev pub Keeps : (ℕ → RunQueue → Option RunQueue) → Type 0
Keeps call = (i : ℕ) (q : RunQueue) → IsWf q → (q' : RunQueue) × (call i q ≡ some q') × IsWf q'

complete_lem :
    (calls : Callbacks) (keeps : Keeps calls.complete) (i : ℕ) (q : RunQueue) (b : Bool)
    → IsWf q
    → (q' : RunQueue) × ((if b then calls.complete i q else some q) ≡ some q') × IsWf q'
complete_lem calls keeps i q true w = keeps i q w
complete_lem calls keeps i q false w = (q, refl, w)

pub runqueue_task_complete-IsWf :
    (calls : Callbacks) (keeps : Keeps calls.complete) (i : ℕ) (q : RunQueue)
    → IsWf q
    → (q' : RunQueue) × (runqueue_task_complete calls i q ≡ some q') × IsWf q'
unfolding runqueue_task_complete
runqueue_task_complete-IsWf calls keeps i q w = elim (Bool-cases (q.tasks i).queued) [
  | inl u ↦
      let (q', e, w') = detach-IsWf i q w u in
      let (q'', e', w'') = complete_lem calls keeps i q' (q.tasks i).has_complete w' in
      (start_next q'', ground (arith, u, e, e'), start_next-IsWf q'' w'')
  | inr u ↦ (q, ground (arith, u), w)
]
