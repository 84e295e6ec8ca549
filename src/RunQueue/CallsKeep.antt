-- ===== src/RunQueue/CallsKeep.antt =====
-- The calls without a loop keep a queue's flags, lists and counter in agreement.
use openwrt_libubox.Prelude.{
  ℕ, Option, some, Bool, true, false, ◌&&◌, ==_iff, if◌then◌else◌, ◌≡◌, refl, arith, Bool-cases,
  inl, inr,
}
use openwrt_libubox.Prelude.Int.{ℤ}
use openwrt_libubox.RunQueue.{
  RunQueue, Callbacks, set_task, set_wait, runqueue_task_cancel, runqueue_task_kill, task_timeout,
  runqueue_task_add, runqueue_task_add_first, runqueue_stop, runqueue_resume,
}
use openwrt_libubox.RunQueue.Calls.{
  Call, add, add_first, complete, cancel, kill, expire, stop, resume, run_call,
}
use openwrt_libubox.RunQueue.Invariant.{IsWf, start_next-IsWf, task_add-IsWf}
use openwrt_libubox.RunQueue.Complete.{Keeps, runqueue_task_complete-IsWf}

-- Callbacks that keep the agreement, as those do that act on the queue by its functions.
pub record AllKeep (calls : Callbacks) : Type 0 where
  pub keep_run : Keeps calls.run
  pub keep_complete : Keeps calls.complete
  pub keep_kill : Keeps calls.kill
  pub keep_cancel : (type : ℤ) → Keeps (λ i. calls.cancel i type)
  pub keep_empty : (q : RunQueue) → IsWf q → (q' : RunQueue) × (calls.empty q ≡ some q') × IsWf q'

set_cancelled-IsWf :
    (i : ℕ) (wait : Option ℤ) (q : RunQueue)
    → IsWf q
    → IsWf (set_task i (record (q.tasks i) { cancelled = true; timeout = wait }) q)
set_cancelled-IsWf i wait q w = record {
  active = λ j. ground (arith, w.active j, w.active i, ==_iff j i);
  inactive = λ j. ground (arith, w.inactive j, w.inactive i, ==_iff j i);
  active_once = w.active_once;
  inactive_once = w.inactive_once;
  counted = w.counted;
  runnable = λ j m. ground (arith, w.runnable j, w.runnable i, ==_iff j i);
}

module _ (calls : Callbacks) (all : AllKeep calls) where
  optional :
      (call : ℕ → RunQueue → Option RunQueue)
      → Keeps call
      → (i : ℕ) (q : RunQueue) (b : Bool) → IsWf q
      → (q' : RunQueue) × ((if b then call i q else some q) ≡ some q') × IsWf q'
  optional call keeps i q true w = keeps i q w
  optional call keeps i q false w = (q, refl, w)

  pub cancel-IsWf :
      (i : ℕ) (type : ℤ) (q : RunQueue)
      → IsWf q
      → (q' : RunQueue) × (runqueue_task_cancel calls i type q ≡ some q') × IsWf q'
  unfolding runqueue_task_cancel
  cancel-IsWf i type q w = elim (Bool-cases (q.tasks i).queued) [
    | inl u ↦ elim (Bool-cases (q.tasks i).running) [
      | inl r ↦
          let t = set_wait (q.tasks i).cancel_timeout (q.tasks i).timeout in
          let w' = set_cancelled-IsWf i t q w in
          let (q', e, done) =
            optional (λ j. calls.cancel j type) (all.keep_cancel type) i _ (q.tasks i).has_cancel
              w' in
          (q', ground (arith, u, r, e), done)
      | inr r ↦
          let (q', e, w') = runqueue_task_complete-IsWf calls all.keep_complete i q w in
          (q', ground (arith, u, r, e), w')
    ]
    | inr u ↦ (q, ground (arith, u), w)
  ]

  pub kill-IsWf :
      (i : ℕ) (q : RunQueue)
      → IsWf q
      → (q' : RunQueue) × (runqueue_task_kill calls i q ≡ some q') × IsWf q'
  unfolding runqueue_task_kill
  kill-IsWf i q w = elim (Bool-cases (q.tasks i).queued) [
    | inl u ↦
        let (q', e, w') =
          optional calls.kill all.keep_kill i q ((q.tasks i).running && (q.tasks i).has_kill) w in
        let (q'', e', w'') = runqueue_task_complete-IsWf calls all.keep_complete i q' w' in
        (q'', ground (arith, u, e, e'), w'')
    | inr u ↦ (q, ground (arith, u), w)
  ]

  expire-IsWf :
      (i : ℕ) (q : RunQueue)
      → IsWf q
      → (q' : RunQueue) × (task_timeout calls i q ≡ some q') × IsWf q'
  unfolding task_timeout
  expire-IsWf i q w = elim (Bool-cases (q.tasks i).cancelled) [
    | inl c ↦ let (q', e, w') = kill-IsWf i q w in (q', ground (arith, c, e), w')
    | inr c ↦
        let (q', e, w') = cancel-IsWf i (q.tasks i).cancel_type q w in
        (q', ground (arith, c, e), w')
  ]

  stopped-IsWf : (b : Bool) (q : RunQueue) → IsWf q → IsWf (record q { stopped = b })
  stopped-IsWf b q w = record {
    active = w.active;
    inactive = w.inactive;
    active_once = w.active_once;
    inactive_once = w.inactive_once;
    counted = w.counted;
    runnable = w.runnable;
  }

  pub run_call-IsWf :
      (c : Call) (q : RunQueue)
      → IsWf q
      → (q' : RunQueue) × (run_call calls c q ≡ some q') × IsWf q'
  unfolding run_call runqueue_task_add runqueue_task_add_first runqueue_stop runqueue_resume
  run_call-IsWf (add i running) q w = (_, refl, task_add-IsWf i running false q w)
  run_call-IsWf (add_first i running) q w = (_, refl, task_add-IsWf i running true q w)
  run_call-IsWf (complete i) q w = runqueue_task_complete-IsWf calls all.keep_complete i q w
  run_call-IsWf (cancel i type) q w = cancel-IsWf i type q w
  run_call-IsWf (kill i) q w = kill-IsWf i q w
  run_call-IsWf (expire i) q w = expire-IsWf i q w
  run_call-IsWf stop q w = (_, refl, stopped-IsWf true q w)
  run_call-IsWf resume q w = (_, refl, start_next-IsWf _ (stopped-IsWf false q w))
