-- ===== src/RunQueue.antt =====
-- runqueue.c: a queue of tasks with a limit on those that run.
-- One queue and its tasks, known by numbers (their addresses). A timer is the wait that was set.
mod Invariant
mod Complete
mod Calls
mod CallsKeep
mod Events
mod Loops
mod Start
mod Killing
mod Tests
use openwrt_libubox.Prelude.{
  ℕ, zero, suc, List, [], ◌∷◌, Option, none, some, Bool, true, false, not, ◌&&◌, ◌==◌,
  if◌then◌else◌, ◌>>=◌,
}
use openwrt_libubox.Prelude.Int.{ℤ, pos, ◌+ℤ◌, ◌-ℤ◌, ltb_ℤ, eq_ℤ}
use openwrt_libubox.SafeList.{
  SafeList, Visit, safe_list_for_each, mem, first_entry, safe_list_add, safe_list_add_first,
  safe_list_del,
}

-- `struct runqueue_task`; the first four are whether a callback is there.
pub record Task : Type 0 where
  pub has_run : Bool
  pub has_cancel : Bool
  pub has_kill : Bool
  pub has_complete : Bool
  pub run_timeout : ℤ
  pub cancel_timeout : ℤ
  pub cancel_type : ℤ
  pub timeout : Option ℤ
  pub queued : Bool
  pub running : Bool
  pub cancelled : Bool

-- The callback of the queue's timer.
pub data TimerCallback : Type 0 where
  start_next_cb : TimerCallback
  empty_cb : TimerCallback

-- `struct runqueue`, with the tasks that it refers to.
pub record RunQueue : Type 0 where
  pub tasks : ℕ → Task
  pub tasks_active : SafeList
  pub tasks_inactive : SafeList
  pub timer_cb : TimerCallback
  pub timeout : Option ℤ
  pub running_tasks : ℤ
  pub max_running_tasks : ℤ
  pub stopped : Bool
  pub is_empty : Bool
  pub has_empty_cb : Bool

-- The code of the user behind the callbacks, which may call the queue again; `none` is a fault.
pub record Callbacks : Type 0 where
  pub run : ℕ → RunQueue → Option RunQueue
  pub cancel : ℕ → ℤ → RunQueue → Option RunQueue
  pub kill : ℕ → RunQueue → Option RunQueue
  pub complete : ℕ → RunQueue → Option RunQueue
  pub empty : RunQueue → Option RunQueue

-- `runqueue_init(q)`
unfoldable pub runqueue_init : RunQueue → RunQueue
runqueue_init q = record q {
  tasks_active = record { items = []; iterators = [] };
  tasks_inactive = record { items = []; iterators = [] };
}

abbrev pub list_empty : List ℕ → Bool
list_empty [] = true
list_empty (x ∷ xs) = false

abbrev pub set_task : ℕ → Task → RunQueue → RunQueue
set_task i t q = record q { tasks = λ j. if j == i then t else q.tasks j }

-- `if (wait) uloop_timeout_set(&t->timeout, wait)`
abbrev pub set_wait : ℤ → Option ℤ → Option ℤ
set_wait wait old = if eq_ℤ wait (pos 0) then old else some wait

-- `runqueue_start_next(q)`
unfoldable pub start_next : RunQueue → RunQueue
start_next q =
    if q.is_empty then q else record q { timer_cb = start_next_cb; timeout = some (pos 1) }

-- `safe_list_del(&t->list)`, on the list that the task is linked in.
unfoldable pub unlink : ℕ → RunQueue → Option RunQueue
unlink i q =
    if mem i q.tasks_active.items
    then (safe_list_del i q.tasks_active >>= λ l. some (record q { tasks_active = l }))
    else (safe_list_del i q.tasks_inactive >>= λ l. some (record q { tasks_inactive = l }))

-- `first ? safe_list_add_first(&t->list, head) : safe_list_add(&t->list, head)`
abbrev pub add_at : Bool → ℕ → SafeList → SafeList
add_at first i l = if first then safe_list_add_first i l else safe_list_add i l

-- The task linked and counted.
abbrev pub added : ℕ → Bool → Bool → RunQueue → RunQueue
added i running first q =
    let t = record (q.tasks i) { cancelled = false; queued = true; running = running } in
    let counted =
      if running
      then record q {
        running_tasks = q.running_tasks +ℤ pos 1;
        tasks_active = add_at first i q.tasks_active;
      }
      else record q { tasks_inactive = add_at first i q.tasks_inactive } in
    record (set_task i t counted) { is_empty = false }

-- `_runqueue_task_add(q, t, running, first)`
unfoldable pub task_add : ℕ → Bool → Bool → RunQueue → RunQueue
unfolding start_next
task_add i running first q =
    if (q.tasks i).queued
    then q
    else if not (q.tasks i).has_run && not running
    then q
    else start_next (added i running first q)

-- `runqueue_task_add(q, t, running)` and `runqueue_task_add_first(q, t, running)`
unfoldable pub runqueue_task_add : ℕ → Bool → RunQueue → RunQueue
unfolding task_add
runqueue_task_add i running q = task_add i running false q

unfoldable pub runqueue_task_add_first : ℕ → Bool → RunQueue → RunQueue
unfolding task_add
runqueue_task_add_first i running q = task_add i running true q

-- Whether the limit is reached.
abbrev pub is_full : RunQueue → Bool
is_full q =
    not (eq_ℤ q.max_running_tasks (pos 0)) && not (ltb_ℤ q.running_tasks q.max_running_tasks)

-- The loop's body up to the call of `run`.
abbrev pub activated : ℕ → SafeList → RunQueue → RunQueue
activated i inactive q =
    let t = q.tasks i in
    set_task i (record t { running = true; timeout = set_wait t.run_timeout t.timeout })
      (record q {
        tasks_inactive = inactive;
        tasks_active = safe_list_add i q.tasks_active;
        running_tasks = q.running_tasks +ℤ pos 1;
      })

unfoldable pub activate : ℕ → RunQueue → Option RunQueue
unfolding safe_list_del
activate i q = safe_list_del i q.tasks_inactive >>= λ l. some (activated i l q)

-- `runqueue_task_complete` up to the call of `complete`.
abbrev pub uncounted : ℕ → RunQueue → RunQueue
uncounted i q =
    if (q.tasks i).running then record q { running_tasks = q.running_tasks -ℤ pos 1 } else q

abbrev pub reset : Task → Task
reset t = record t { timeout = none; queued = false; running = false; cancelled = false }

unfoldable pub detach : ℕ → RunQueue → Option RunQueue
unfolding unlink
detach i q = unlink i (uncounted i q) >>= λ q'. some (set_task i (reset (q.tasks i)) q')

-- What follows the loop.
unfoldable pub note_empty : RunQueue → RunQueue
note_empty q =
    if not q.is_empty && list_empty q.tasks_active.items && list_empty q.tasks_inactive.items
    then (if q.has_empty_cb
        then record q { is_empty = true; timer_cb = empty_cb; timeout = some (pos 1) }
        else record q { is_empty = true })
    else q

module _ (calls : Callbacks) where
  -- A call through a NULL `run` faults.
  unfoldable pub call_run : ℕ → RunQueue → Option RunQueue
  call_run i q = if (q.tasks i).has_run then calls.run i q else none

  -- The loop of `__runqueue_start_next`; `none` is a fault, or the end of the fuel.
  unfoldable pub start_loop : ℕ → RunQueue → Option RunQueue
  unfolding activate call_run
  start_loop zero q = none
  start_loop (suc fuel) q =
      if q.stopped then some q else elim (first_entry q.tasks_inactive.items) [
        | none ↦ some q
        | some i ↦
            if is_full q
            then some q
            else (activate i q >>= λ q'. call_run i q' >>= λ q''. start_loop fuel q'')
      ]

  unfoldable pub runqueue_start_next : ℕ → RunQueue → Option RunQueue
  unfolding start_loop note_empty
  runqueue_start_next fuel q = start_loop fuel q >>= λ q'. some (note_empty q')

  unfoldable pub runqueue_task_complete : ℕ → RunQueue → Option RunQueue
  unfolding detach start_next
  runqueue_task_complete i q =
      if (q.tasks i).queued
      then (detach i q >>= λ q'.
          (if (q.tasks i).has_complete then calls.complete i q' else some q') >>= λ q''.
          some (start_next q''))
      else some q

  unfoldable pub runqueue_task_cancel : ℕ → ℤ → RunQueue → Option RunQueue
  unfolding runqueue_task_complete
  runqueue_task_cancel i type q =
      let t = q.tasks i in
      if not t.queued
      then some q
      else if not t.running
      then runqueue_task_complete i q
      else let q' =
          set_task i (record t { cancelled = true; timeout = set_wait t.cancel_timeout t.timeout })
            q in
        if t.has_cancel then calls.cancel i type q' else some q'

  unfoldable pub runqueue_task_kill : ℕ → RunQueue → Option RunQueue
  unfolding runqueue_task_complete
  runqueue_task_kill i q =
      let t = q.tasks i in
      if not t.queued
      then some q
      else ((if t.running && t.has_kill then calls.kill i q else some q) >>= λ q'.
          runqueue_task_complete i q')

  -- `__runqueue_empty_cb`; a call through a NULL `empty_cb` faults.
  unfoldable pub runqueue_empty_cb : RunQueue → Option RunQueue
  runqueue_empty_cb q = if q.has_empty_cb then calls.empty q else none

  -- `__runqueue_task_timeout`
  unfoldable pub task_timeout : ℕ → RunQueue → Option RunQueue
  unfolding runqueue_task_kill runqueue_task_cancel
  task_timeout i q =
      if (q.tasks i).cancelled
      then runqueue_task_kill i q
      else runqueue_task_cancel i (q.tasks i).cancel_type q

unfoldable pub runqueue_stop : RunQueue → RunQueue
runqueue_stop q = record q { stopped = true }

unfoldable pub runqueue_resume : RunQueue → RunQueue
unfolding start_next
runqueue_resume q = start_next (record q { stopped = false })

module _ (calls : Callbacks) where
  -- `__runqueue_cancel` of an element of the waiting tasks, and of the active ones.
  abbrev pub cancel_waiting : ℕ → SafeList → RunQueue → Option (Visit RunQueue)
  cancel_waiting i l q =
      runqueue_task_cancel calls i (pos 0) (record q { tasks_inactive = l }) >>= λ q'.
      some (pos 0, (q'.tasks_inactive, q'))

  abbrev pub cancel_running : ℕ → SafeList → RunQueue → Option (Visit RunQueue)
  cancel_running i l q =
      runqueue_task_cancel calls i (pos 0) (record q { tasks_active = l }) >>= λ q'.
      some (pos 0, (q'.tasks_active, q'))

  unfoldable pub runqueue_cancel_active : ℕ → RunQueue → Option RunQueue
  runqueue_cancel_active fuel q = safe_list_for_each cancel_running fuel q.tasks_active q >>= λ r.
      some (record r.1.1 { tasks_active = r.1.0 })

  unfoldable pub runqueue_cancel_pending : ℕ → RunQueue → Option RunQueue
  runqueue_cancel_pending fuel q =
      safe_list_for_each cancel_waiting fuel q.tasks_inactive q >>= λ r.
      some (record r.1.1 { tasks_inactive = r.1.0 })

  unfoldable pub runqueue_cancel : ℕ → RunQueue → Option RunQueue
  runqueue_cancel fuel q = runqueue_cancel_pending fuel q >>= λ q'. runqueue_cancel_active fuel q'

  -- The loop of `runqueue_kill`.
  unfoldable pub kill_active : ℕ → RunQueue → Option RunQueue
  kill_active zero q = none
  kill_active (suc fuel) q = elim (first_entry q.tasks_active.items) [
    | none ↦ some q
    | some i ↦ (runqueue_task_kill calls i q >>= λ q'. kill_active fuel q')
  ]

  unfoldable pub runqueue_kill : ℕ → RunQueue → Option RunQueue
  runqueue_kill fuel q = kill_active fuel q >>= λ q'.
      runqueue_cancel_pending fuel q' >>= λ q''. some (record q'' { timeout = none })
