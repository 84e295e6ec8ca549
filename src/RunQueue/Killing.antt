-- ===== src/RunQueue/Killing.antt =====
-- The loop of `runqueue_kill` ends with no task active.
use openwrt_libubox.Prelude.{
  ℕ, zero, suc, ◌≤◌, ◌<◌, List, [], ◌∷◌, Option, none, some, Bool, true, false, ◌&&◌, ==_iff,
  if◌then◌else◌, ◌≡◌, refl, ap, ◌∙◌, arith, length, ◌>>=◌,
}
use openwrt_libubox.Prelude.Int.{pos}
use openwrt_libubox.SafeList.{mem, first_entry}
use openwrt_libubox.RunQueue.{
  RunQueue, Callbacks, start_next, start_next_cb, runqueue_task_complete, runqueue_task_kill,
  kill_active,
}
use openwrt_libubox.RunQueue.Invariant.{IsWf, start_next-IsWf}
use openwrt_libubox.RunQueue.Complete.{detach-IsWf_running}

-- Callbacks that keep the queue in agreement: `kill` leaves the active tasks alone, and `complete`
-- makes no more tasks active.
pub record IsCalm (calls : Callbacks) : Type 0 where
  pub killed :
      (i : ℕ) (q : RunQueue)
      → IsWf q
      → (q' : RunQueue) × (calls.kill i q ≡ some q')
        × IsWf q'
        × (q'.tasks_active.items ≡ q.tasks_active.items)
  pub completed :
      (i : ℕ) (q : RunQueue)
      → IsWf q
      → (q' : RunQueue) × (calls.complete i q ≡ some q')
        × IsWf q'
        × (length q'.tasks_active.items ≤ length q.tasks_active.items)

start_next-items : (q : RunQueue) → (start_next q).tasks_active.items ≡ q.tasks_active.items
unfolding start_next
start_next-items q =
    let armed = record q { timer_cb = start_next_cb; timeout = some (pos 1) } in
    elim q.is_empty as (λ b. (if b then q else armed).tasks_active.items ≡ q.tasks_active.items) [
      | true ↦ refl
      | false ↦ refl
    ]

module _ (calls : Callbacks) (calm : IsCalm calls) where
  optional_kill :
      (i : ℕ) (q : RunQueue) (b : Bool)
      → IsWf q
      → (q' : RunQueue) × ((if b then calls.kill i q else some q) ≡ some q')
        × IsWf q'
        × (q'.tasks_active.items ≡ q.tasks_active.items)
  optional_kill i q true w = calm.killed i q w
  optional_kill i q false w = (q, refl, w, refl)

  optional_complete :
      (i : ℕ) (q : RunQueue) (b : Bool)
      → IsWf q
      → (q' : RunQueue) × ((if b then calls.complete i q else some q) ≡ some q')
        × IsWf q'
        × (length q'.tasks_active.items ≤ length q.tasks_active.items)
  optional_complete i q true w = calm.completed i q w
  optional_complete i q false w = (q, refl, w, omega arith)

  complete_lem :
      (i : ℕ) (q : RunQueue)
      → IsWf q
      → mem i q.tasks_active.items ≡ true
      → (q' : RunQueue) × (runqueue_task_complete calls i q ≡ some q')
        × IsWf q'
        × (length q'.tasks_active.items < length q.tasks_active.items)
  unfolding runqueue_task_complete
  complete_lem i q w m =
      let u : (q.tasks i).queued ≡ true = ground (arith, w.active i) in
      let r : (q.tasks i).running ≡ true = ground (arith, w.active i) in
      let (q1, e1, w1, less) = detach-IsWf_running i q w u r in
      let (q2, e2, w2, no_more) = optional_complete i q1 (q.tasks i).has_complete w1 in
      (
        start_next q2,
        ground (arith, u, e1, e2),
        start_next-IsWf q2 w2,
        omega (arith, less, no_more, ap length (start_next-items q2)),
      )

  kill_lem :
      (i : ℕ) (q : RunQueue)
      → IsWf q
      → mem i q.tasks_active.items ≡ true
      → (q' : RunQueue) × (runqueue_task_kill calls i q ≡ some q')
        × IsWf q'
        × (length q'.tasks_active.items < length q.tasks_active.items)
  unfolding runqueue_task_kill
  kill_lem i q w m =
      let u : (q.tasks i).queued ≡ true = ground (arith, w.active i) in
      let (q1, e1, w1, same) = optional_kill i q ((q.tasks i).running && (q.tasks i).has_kill) w in
      let (q2, e2, w2, less) = complete_lem i q1 w1 (ap (mem i) same ∙ m) in
      (q2, ground (arith, u, e1, e2), w2, omega (arith, less, ap length same))

  abbrev next : ℕ → RunQueue → Option ℕ → Option RunQueue
  next fuel q none = some q
  next fuel q (some i) = runqueue_task_kill calls i q >>= λ q'. kill_active calls fuel q'

  kill_from :
      (fuel : ℕ) (q : RunQueue) (items : List ℕ)
      → q.tasks_active.items ≡ items
      → IsWf q
      → length items < fuel
      → (q' : RunQueue) × (kill_active calls fuel q ≡ some q')
        × IsWf q'
        × (q'.tasks_active.items ≡ [])
  unfolding kill_active
  kill_from zero q items e w h = absurd (omega arith)
  kill_from (suc fuel) q [] e w h = (q, ap (λ l. next fuel q (first_entry l)) e, w, e)
  kill_from (suc fuel) q (i ∷ is) e w h =
      let first : mem i q.tasks_active.items ≡ true = ap (mem i) e ∙ ground (arith, ==_iff i i) in
      let (q1, killed, w1, less) = kill_lem i q w first in
      let (q2, run, w2, none_left) =
        kill_from fuel q1 q1.tasks_active.items refl w1 (omega (arith, less, h, ap length e)) in
      (
        q2,
        ap (λ l. next fuel q (first_entry l)) e
            ∙ ap (λ o. o >>= λ q'. kill_active calls fuel q') killed
            ∙ run,
        w2,
        none_left,
      )

  -- With callbacks that make no more tasks active, and fuel for one more step than there are active tasks,
  -- the loop of `runqueue_kill` ends: no task is active any more, and the flags, lists and counter
  -- of the queue agree.
  pub kill_active-IsWf :
      (fuel : ℕ) (q : RunQueue)
      → IsWf q
      → length q.tasks_active.items < fuel
      → (q' : RunQueue) × (kill_active calls fuel q ≡ some q')
        × IsWf q'
        × (q'.tasks_active.items ≡ [])
  kill_active-IsWf fuel q w h = kill_from fuel q q.tasks_active.items refl w h
