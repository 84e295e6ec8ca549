-- ===== src/RunQueue/Tests.antt =====
-- Runs of a queue, and the theorems at concrete inputs.
use openwrt_libubox.Prelude.{
  ℕ, ◌+◌, List, [], ◌∷◌, Option, none, some, true, false, ◌≡◌, refl, arith, length, inr, ◌>>=◌,
}
use openwrt_libubox.Prelude.Int.{pos, ◌+ℤ◌}
use openwrt_libubox.SafeList.{
  safe_list_del, safe_list_add, safe_list_for_each, for_each_from, move_iterator, del_iterator,
  set_iterator,
}
use openwrt_libubox.RunQueue.{
  Task, RunQueue, Callbacks, start_next_cb, runqueue_init, runqueue_start_next, start_loop,
  call_run, activate, note_empty, start_next, runqueue_task_add, task_add, runqueue_task_complete,
  kill_active, runqueue_cancel_pending, runqueue_task_cancel, detach, unlink,
}
use openwrt_libubox.RunQueue.Calls.{
  Event, add, add_first, cancel, kill, expire, stop, call, expire_queue, cancel_active, steps,
}
use openwrt_libubox.RunQueue.Invariant.{IsWf, task_add-IsWf}
use openwrt_libubox.RunQueue.Start.{IsIdle, IsKept, runqueue_start_next-IsIdle}
use openwrt_libubox.RunQueue.Killing.{IsCalm, kill_active-IsWf}

abbrev plain : Task
plain = record {
  has_run = true;
  has_cancel = true;
  has_kill = true;
  has_complete = true;
  run_timeout = pos 500;
  cancel_timeout = pos 0;
  cancel_type = pos 15;
  timeout = none;
  queued = false;
  running = false;
  cancelled = false;
}

abbrev new_queue : RunQueue
new_queue = record {
  tasks = λ i. plain;
  tasks_active = record { items = []; iterators = [] };
  tasks_inactive = record { items = []; iterators = [] };
  timer_cb = start_next_cb;
  timeout = none;
  running_tasks = pos 0;
  max_running_tasks = pos 2;
  stopped = false;
  is_empty = false;
  has_empty_cb = true;
}

-- Work that goes on in the background.
abbrev background : Callbacks
background = record {
  run = λ i q. some q;
  cancel = λ i type q. some q;
  kill = λ i q. some q;
  complete = λ i q. some q;
  empty = λ q. some q;
}

-- A task that is cancelled completes at once; one that completes adds another.
abbrev chained : Callbacks
chained = record {
  run = λ i q. some q;
  cancel = λ i type q. runqueue_task_complete background i q;
  kill = λ i q. some q;
  complete = λ i q. some (runqueue_task_add (i + 10) false q);
  empty = λ q. some q;
}

new_queue-IsWf : IsWf new_queue
new_queue-IsWf = record {
  active = λ i. refl;
  inactive = λ i. refl;
  active_once = tt;
  inactive_once = tt;
  counted = refl;
  runnable = λ i m. absurd (ground arith);
}

-- Three tasks wait and two may run.
unfoldable three : RunQueue
unfolding task_add
three = task_add 3 false false (task_add 2 false false (task_add 1 false false new_queue))

three-IsWf : IsWf three
unfolding three
three-IsWf =
    task_add-IsWf 3 false false _
      (task_add-IsWf 2 false false _ (task_add-IsWf 1 false false new_queue new_queue-IsWf))

abbrev lists : RunQueue → Option (List ℕ × List ℕ)
lists q = some (q.tasks_active.items, q.tasks_inactive.items)

two_started : (runqueue_start_next background 4 three >>= lists) ≡ some (1 ∷ 2 ∷ [], 3 ∷ [])
unfolding three task_add runqueue_start_next start_loop call_run activate note_empty start_next
    safe_list_del safe_list_add ◌+ℤ◌
two_started = refl

runqueue_start_next-IsIdle_example :
    (q : RunQueue) × (runqueue_start_next background 4 three ≡ some q)
    × IsKept (length three.tasks_inactive.items) q
    × IsIdle q
unfolding three task_add start_next safe_list_add ◌+ℤ◌
runqueue_start_next-IsIdle_example =
    runqueue_start_next-IsIdle background (λ i waiting q k. (q, refl, k)) 4 three three-IsWf
      (inr (omega arith)) (omega arith)

background-IsCalm : IsCalm background
background-IsCalm = record {
  killed = λ i q w. (q, refl, w, refl);
  completed = λ i q w. (q, refl, w, omega arith);
}

-- Two tasks run.
unfoldable running : RunQueue
unfolding task_add
running = task_add 5 true false (task_add 4 true false new_queue)

running-IsWf : IsWf running
unfolding running
running-IsWf = task_add-IsWf 5 true false _ (task_add-IsWf 4 true false new_queue new_queue-IsWf)

kill_active-IsWf_example :
    (q : RunQueue) × (kill_active background 3 running ≡ some q)
    × IsWf q
    × (q.tasks_active.items ≡ [])
unfolding running task_add start_next safe_list_add ◌+ℤ◌
kill_active-IsWf_example =
    kill_active-IsWf background background-IsCalm 3 running running-IsWf (omega arith)

all_cancelled : (runqueue_cancel_pending background 4 three >>= lists) ≡ some ([], [])
unfolding three runqueue_cancel_pending safe_list_for_each for_each_from move_iterator del_iterator
    set_iterator runqueue_task_cancel runqueue_task_complete detach unlink task_add start_next
    safe_list_del safe_list_add ◌+ℤ◌
all_cancelled = refl

-- Two tasks are added and started; one is cancelled, the other killed, so that others wait.
abbrev history : List Event
history =
    call (add 1 false)
    ∷ call (add_first 2 true)
    ∷ expire_queue 3
    ∷ call (cancel 2 (pos 9))
    ∷ call (kill 1)
    ∷ call (expire 11)
    ∷ call stop
    ∷ call (add 7 true)
    ∷ cancel_active 5
    ∷ []

unfoldable at_end : RunQueue
unfolding steps runqueue_init
at_end = elim (steps chained history (runqueue_init new_queue)) [ none ↦ new_queue | some q ↦ q ]
