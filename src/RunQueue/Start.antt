-- ===== src/RunQueue/Start.antt =====
-- The timer's callback that starts tasks: it ends, keeps the limit, and stops only for a reason.
use openwrt_libubox.Prelude.{
  ℕ, zero, suc, ◌-◌, ◌∙◌, ◌<◌, ◌≤◌, List, [], ◌∷◌, Option, none, some, Bool, true, false, ◌&&◌, not,
  if◌then◌else◌, ◌≡◌, ◌⊎◌, refl, arith, length, Bool-cases, Option-cases, inl, inr,
}
use mathlib.Core.Path.{subst}
use openwrt_libubox.Prelude.Int.{ℤ, pos, negsuc, ◌+ℤ◌, ◌≤ℤ◌, ltb_ℤ, eq_ℤ}
use openwrt_libubox.SafeList.{mem, first_entry}
use openwrt_libubox.RunQueue.{
  RunQueue, Callbacks, TimerCallback, empty_cb, activate, is_full, list_empty, note_empty, call_run,
  start_loop, runqueue_start_next,
}
use openwrt_libubox.RunQueue.Invariant.{IsWf, activate-IsWf}

-- No more tasks run than the limit, where there is one.
abbrev pub IsWithin : RunQueue → Type 0
IsWithin q = (q.max_running_tasks ≡ pos 0) ⊎ (q.running_tasks ≤ℤ q.max_running_tasks)

-- Nothing more may be started.
abbrev pub IsIdle : RunQueue → Type 0
IsIdle q = (q.stopped ≡ true) ⊎ ((q.tasks_inactive.items ≡ []) ⊎ (is_full q ≡ true))

-- What a call leaves of a queue: its invariant, its limit, and no more tasks that wait.
pub record IsKept (waiting : ℕ) (q : RunQueue) : Type 0 where
  pub wf : IsWf q
  pub within : IsWithin q
  pub waits : length q.tasks_inactive.items ≤ waiting

-- A `run` callback may change the queue, but it neither breaks it nor adds tasks that wait.
abbrev pub RunKeeps : Callbacks → Type 0
RunKeeps calls =
    (i waiting : ℕ) (q : RunQueue)
    → IsKept waiting q
    → (q' : RunQueue) × (calls.run i q ≡ some q') × IsKept waiting q'

pub first_linked : (i : ℕ) (xs : List ℕ) → first_entry xs ≡ some i → mem i xs ≡ true
first_linked i [] h = absurd (ground arith)
first_linked i (x ∷ xs) h = ground arith

limit_step :
    (n : ℕ) (run max : ℤ)
    → (not (eq_ℤ max (pos 0)) && not (ltb_ℤ (pos n) max)) ≡ false
    → run ≡ pos n +ℤ pos 1
    → (max ≡ pos 0) ⊎ (run ≤ℤ max)
unfolding ◌+ℤ◌
limit_step n run (pos zero) f r = inl refl
limit_step n run (pos (suc m)) f r = inr (rw r (ground arith))
limit_step n run (negsuc m) f r = absurd (ground arith)

IsWithin-step :
    (q q' : RunQueue) (n : ℕ)
    → q.running_tasks ≡ pos n
    → is_full q ≡ false
    → q'.running_tasks ≡ q.running_tasks +ℤ pos 1
    → q'.max_running_tasks ≡ q.max_running_tasks
    → IsWithin q'
IsWithin-step q q' n c f r m = rw m (
    limit_step n q'.running_tasks q.max_running_tasks
      (subst
        (λ z. (not (eq_ℤ q.max_running_tasks (pos 0)) && not (ltb_ℤ z q.max_running_tasks)) ≡ false)
        c f)
      (rw (r, c) refl))

activate-IsKept :
    (calls : Callbacks) (i waiting : ℕ) (q : RunQueue)
    → IsKept (suc waiting) q
    → first_entry q.tasks_inactive.items ≡ some i
    → is_full q ≡ false
    → (q' : RunQueue) × (activate i q ≡ some q')
      × IsKept waiting q'
      × (call_run calls i q' ≡ calls.run i q')
unfolding call_run
activate-IsKept calls i waiting q k h f =
    let m : mem i q.tasks_inactive.items ≡ true = first_linked i q.tasks_inactive.items h in
    let (q', e, w, l, r, c, x) = activate-IsWf i q k.wf m in
    (
      q',
      e,
      record { wf = w; within = IsWithin-step q q' _ k.wf.counted f c x; waits = omega arith },
      let runs : (q'.tasks i).has_run ≡ true = r ∙ k.wf.runnable i m in rw runs refl,
    )

waits_some : (i : ℕ) (xs : List ℕ) → first_entry xs ≡ some i → 0 < length xs
waits_some i [] h = absurd (ground arith)
waits_some i (x ∷ xs) h = omega arith

nothing_linked : (xs : List ℕ) → first_entry xs ≡ none → xs ≡ []
nothing_linked [] h = refl
nothing_linked (x ∷ xs) h = absurd (ground arith)

pub one_start :
    (calls : Callbacks) (fuel i : ℕ) (q q' q'' : RunQueue)
    → q.stopped ≡ false
    → first_entry q.tasks_inactive.items ≡ some i
    → is_full q ≡ false
    → activate i q ≡ some q'
    → call_run calls i q' ≡ some q''
    → start_loop calls (suc fuel) q ≡ start_loop calls fuel q''
unfolding start_loop
one_start calls fuel i q q' q'' e n f a c = ground (arith, e, n, f, a, c)

start_loop_lem :
    (calls : Callbacks) (keeps : RunKeeps calls) (fuel : ℕ) (q : RunQueue) (waiting : ℕ)
    → IsKept waiting q
    → waiting < fuel
    → (q' : RunQueue) × (start_loop calls fuel q ≡ some q') × IsKept waiting q' × IsIdle q'
unfolding start_loop
start_loop_lem calls keeps zero q waiting k l = absurd (omega arith)
start_loop_lem calls keeps (suc fuel) q waiting k l = elim (Bool-cases q.stopped) [
  | inl e ↦ (q, ground arith, k, inl e)
  | inr e ↦ elim (Option-cases (first_entry q.tasks_inactive.items)) [
    | inl n ↦ (q, ground (arith, e, n), k, inr (inl (nothing_linked q.tasks_inactive.items n)))
    | inr (i, n) ↦ elim (Bool-cases (is_full q)) [
      | inl f ↦ (q, ground (arith, e, n, f), k, inr (inr f))
      | inr f ↦
          let some_wait = waits_some i q.tasks_inactive.items n in
          let before : IsKept (suc (waiting - 1)) q = record {
            wf = k.wf;
            within = k.within;
            waits = omega (arith, k.waits, some_wait);
          } in
          let (q', a, k', c) = activate-IsKept calls i (waiting - 1) q before n f in
          let (q'', r, k'') = keeps i (waiting - 1) q' k' in
          let (last, run, kept, idle) =
            start_loop_lem calls keeps fuel q'' (waiting - 1) k''
              (omega (arith, k.waits, some_wait)) in
          (
            last,
            one_start calls fuel i q q' q'' e n f a (c ∙ r) ∙ run,
            record { wf = kept.wf; within = kept.within; waits = omega (arith, kept.waits) },
            idle,
          )
    ]
  ]
]

IsKept-timer :
    (waiting : ℕ) (q : RunQueue) (cb : TimerCallback) (wait : Option ℤ) (b : Bool)
    → IsKept waiting q
    → IsKept waiting (record q { is_empty = b; timer_cb = cb; timeout = wait })
IsKept-timer waiting q cb wait b k =
    let w : IsWf (record q { is_empty = b; timer_cb = cb; timeout = wait }) = record {
      active = k.wf.active;
      inactive = k.wf.inactive;
      active_once = k.wf.active_once;
      inactive_once = k.wf.inactive_once;
      counted = k.wf.counted;
      runnable = k.wf.runnable;
    } in
    record { wf = w; within = k.within; waits = k.waits }

note_empty-IsKept :
    (waiting : ℕ) (q : RunQueue)
    → IsKept waiting q
    → IsIdle q
    → IsKept waiting (note_empty q) × IsIdle (note_empty q)
unfolding note_empty
note_empty-IsKept waiting q k idle =
    let left : RunQueue → Type 0 = λ q'. IsKept waiting q' × IsIdle q' in
    let quiet : RunQueue = record q { is_empty = true } in
    let told : RunQueue = record q {
      is_empty = true;
      timer_cb = empty_cb;
      timeout = some (pos 1);
    } in
    let said : RunQueue = if q.has_empty_cb then told else quiet in
    let marked : left said = elim q.has_empty_cb as (λ b. left (if b then told else quiet)) [
      | true ↦ (IsKept-timer waiting q empty_cb (some (pos 1)) true k, idle)
      | false ↦ (IsKept-timer waiting q q.timer_cb q.timeout true k, idle)
    ] in
    elim (not q.is_empty && list_empty q.tasks_active.items && list_empty q.tasks_inactive.items)
      as (λ b. left (if b then said else q)) [ true ↦ marked | false ↦ (k, idle) ]

-- The callback of the timer (`__runqueue_start_next`), on a queue whose flags, lists and counter
-- agree and whose limit holds, where `run` callbacks keep this and add no task that waits: it ends
-- with fuel for one more step than tasks wait, faults nowhere, keeps the agreement and the limit,
-- leaves no more tasks waiting, and has stopped because the queue is stopped, no task waits, or the
-- limit is reached.
pub runqueue_start_next-IsIdle :
    (calls : Callbacks) (keeps : RunKeeps calls) (fuel : ℕ) (q : RunQueue)
    → IsWf q
    → IsWithin q
    → length q.tasks_inactive.items < fuel
    → (q' : RunQueue) × (runqueue_start_next calls fuel q ≡ some q')
      × IsKept (length q.tasks_inactive.items) q'
      × IsIdle q'
unfolding runqueue_start_next
runqueue_start_next-IsIdle calls keeps fuel q w within l =
    let k : IsKept (length q.tasks_inactive.items) q = record {
      wf = w;
      within = within;
      waits = omega arith;
    } in
    let (q', run, kept, idle) =
      start_loop_lem calls keeps fuel q (length q.tasks_inactive.items) k l in
    let (kept', idle') = note_empty-IsKept (length q.tasks_inactive.items) q' kept idle in
    (note_empty q', rw run refl, kept', idle')
