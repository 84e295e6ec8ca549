-- ===== src/RunQueue/Calls.antt =====
-- runqueue.h: what a queue's user calls, and what the event loop calls when a timer expires.
use openwrt_libubox.Prelude.{ℕ, List, [], ◌∷◌, Option, some, Bool, ◌>>=◌}
use openwrt_libubox.Prelude.Int.{ℤ}
use openwrt_libubox.RunQueue.{
  RunQueue, Callbacks, start_next_cb, empty_cb, runqueue_task_add, runqueue_task_add_first,
  runqueue_task_complete, runqueue_task_cancel, runqueue_task_kill, task_timeout, runqueue_stop,
  runqueue_resume, runqueue_empty_cb, runqueue_start_next, runqueue_cancel_active,
  runqueue_cancel_pending, runqueue_cancel, runqueue_kill,
}

-- A call without a loop: of one task, of `runqueue_stop` or `runqueue_resume`, or of the event loop
-- when a task's timer expires.
pub data Call : Type 0 where
  add : ℕ → Bool → Call
  add_first : ℕ → Bool → Call
  complete : ℕ → Call
  cancel : ℕ → ℤ → Call
  kill : ℕ → Call
  expire : ℕ → Call
  stop : Call
  resume : Call

-- A call, the expiry of the queue's timer, or a call that loops over the tasks; the number is the
-- fuel of the loops.
pub data Event : Type 0 where
  call : Call → Event
  expire_queue : ℕ → Event
  cancel_active : ℕ → Event
  cancel_pending : ℕ → Event
  cancel_all : ℕ → Event
  kill_all : ℕ → Event

module _ (calls : Callbacks) where
  unfoldable pub run_call : Call → RunQueue → Option RunQueue
  unfolding runqueue_task_add runqueue_task_add_first runqueue_task_complete runqueue_task_cancel
      runqueue_task_kill task_timeout runqueue_stop runqueue_resume
  run_call (add i running) q = some (runqueue_task_add i running q)
  run_call (add_first i running) q = some (runqueue_task_add_first i running q)
  run_call (complete i) q = runqueue_task_complete calls i q
  run_call (cancel i type) q = runqueue_task_cancel calls i type q
  run_call (kill i) q = runqueue_task_kill calls i q
  run_call (expire i) q = task_timeout calls i q
  run_call stop q = some (runqueue_stop q)
  run_call resume q = some (runqueue_resume q)

  -- The callback of the queue's timer.
  unfoldable pub timer_expired : ℕ → RunQueue → Option RunQueue
  unfolding runqueue_start_next runqueue_empty_cb
  timer_expired fuel q = elim q.timer_cb [
    | start_next_cb ↦ runqueue_start_next calls fuel q
    | empty_cb ↦ runqueue_empty_cb calls q
  ]

  unfoldable pub step : Event → RunQueue → Option RunQueue
  unfolding run_call timer_expired runqueue_cancel_active runqueue_cancel_pending runqueue_cancel
      runqueue_kill
  step (call c) q = run_call c q
  step (expire_queue fuel) q = timer_expired fuel q
  step (cancel_active fuel) q = runqueue_cancel_active calls fuel q
  step (cancel_pending fuel) q = runqueue_cancel_pending calls fuel q
  step (cancel_all fuel) q = runqueue_cancel calls fuel q
  step (kill_all fuel) q = runqueue_kill calls fuel q

  unfoldable pub steps : List Event → RunQueue → Option RunQueue
  unfolding step
  steps [] q = some q
  steps (e ∷ es) q = step e q >>= steps es
