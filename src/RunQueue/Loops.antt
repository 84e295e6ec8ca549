-- ===== src/RunQueue/Loops.antt =====
-- The calls that loop over a queue's tasks: where they end, flags, lists and counter agree.
use mathlib.Core.Path.{subst}
use openwrt_libubox.Prelude.{
  ℕ, zero, suc, List, Option, none, some, Bool, true, false, not, ◌&&◌, if◌then◌else◌, ◌>>=◌, ◌≡◌,
  refl, sym, ◌∙◌, arith, Bool-cases, Option-cases, inl, inr,
}
use openwrt_libubox.Prelude.Int.{ℤ, pos, negsuc}
use openwrt_libubox.SafeList.{
  SafeList, Visit, mem, first_entry, iterator_next, for_each_from, safe_list_for_each,
  move_iterator, del_iterator, set_iterator,
}
use openwrt_libubox.RunQueue.{
  RunQueue, Callbacks, TimerCallback, empty_cb, is_full, list_empty, note_empty, call_run,
  start_loop, runqueue_start_next, kill_active, cancel_waiting, cancel_running,
  runqueue_cancel_active, runqueue_cancel_pending, runqueue_cancel, runqueue_kill,
}
use openwrt_libubox.RunQueue.Invariant.{IsWf, activate-IsWf}
use openwrt_libubox.RunQueue.CallsKeep.{AllKeep, cancel-IsWf, kill-IsWf}
use openwrt_libubox.RunQueue.Start.{first_linked, one_start}

pub bind_some {ℓ κ} :
    {A : Type ℓ} {B : Type κ} (o : Option A) (f : A → Option B) (b : B)
    → (o >>= f) ≡ some b
    → (a : A) × (o ≡ some a) × (f a ≡ some b)
bind_some none f b h = absurd (ground arith)
bind_some (some a) f b h = (a, refl, h)

-- `P` holds of the list and the context, wherever the iterators of the list stand.
module _ {ℓ κ} {C : Type ℓ} (P : SafeList → C → Type κ)
    (anywhere : (its : List (Option ℕ)) (s : SafeList) (c : C)
      → P s c
      → P (record s { iterators = its }) c)
    (cb : ℕ → SafeList → C → Option (Visit C))
    (keeps : (x : ℕ) (s : SafeList) (c : C) (v : Visit C)
      → P s c
      → cb x s c ≡ some v
      → P v.1.0 v.1.1) where
  -- What follows a callback that returned `z`.
  abbrev after : ℕ → ℤ → SafeList → C → Option (Visit C)
  after fuel z s c = elim z [
    | pos zero ↦
        let cur = iterator_next s.iterators in for_each_from cb fuel cur (move_iterator cur s) c
    | ret ↦ some (ret, (del_iterator s, c))
  ]

  left_lem :
      (z : ℤ) (s : SafeList) (c : C) (r : Visit C)
      → P s c
      → some (z, (del_iterator s, c)) ≡ some r
      → P r.1.0 r.1.1
  unfolding del_iterator
  left_lem z s c r p h =
      let e : (z, (del_iterator s, c)) ≡ r = cc (h) in
      subst (λ (r : Visit C). P r.1.0 r.1.1) e (anywhere _ s c p)

  after_lem :
      (fuel : ℕ) (r : Visit C)
      (again : (cur : Option ℕ) (s : SafeList) (c : C) (r : Visit C)
        → P s c
        → for_each_from cb fuel cur s c ≡ some r
        → P r.1.0 r.1.1)
      (z : ℤ) (s : SafeList) (c : C)
      → P s c
      → after fuel z s c ≡ some r
      → P r.1.0 r.1.1
  unfolding move_iterator del_iterator set_iterator
  after_lem fuel r again (pos zero) s c p h = again _ _ c r (anywhere _ s c p) h
  after_lem fuel r again (pos (suc n)) s c p h = left_lem (pos (suc n)) s c r p h
  after_lem fuel r again (negsuc n) s c p h = left_lem (negsuc n) s c r p h

  for_each_from_lem :
      (fuel : ℕ) (cur : Option ℕ) (s : SafeList) (c : C) (r : Visit C)
      → P s c
      → for_each_from cb fuel cur s c ≡ some r
      → P r.1.0 r.1.1
  unfolding for_each_from move_iterator del_iterator set_iterator
  for_each_from_lem zero cur s c r p h = absurd (ground arith)
  for_each_from_lem (suc fuel) none s c r p h = left_lem (pos 0) s c r p h
  for_each_from_lem (suc fuel) (some x) s c r p h =
      let (v, e, rest) = bind_some (cb x s c) _ r h in
      after_lem fuel r (for_each_from_lem fuel) v.0 v.1.0 v.1.1 (keeps x s c v p e) rest

  pub safe_list_for_each_lem :
      (fuel : ℕ) (s : SafeList) (c : C) (r : Visit C)
      → P s c
      → safe_list_for_each cb fuel s c ≡ some r
      → P r.1.0 r.1.1
  unfolding safe_list_for_each set_iterator
  safe_list_for_each_lem fuel s c r p h =
      for_each_from_lem fuel (first_entry s.items) (set_iterator (first_entry s.items) s) c r
        (anywhere _ s c p) h

timer-IsWf :
    (q : RunQueue) (cb : TimerCallback) (wait : Option ℤ) (b : Bool)
    → IsWf q
    → IsWf (record q { is_empty = b; timer_cb = cb; timeout = wait })
timer-IsWf q cb wait b w = record {
  active = w.active;
  inactive = w.inactive;
  active_once = w.active_once;
  inactive_once = w.inactive_once;
  counted = w.counted;
  runnable = w.runnable;
}

note_empty-IsWf : (q : RunQueue) → IsWf q → IsWf (note_empty q)
unfolding note_empty
note_empty-IsWf q w =
    let quiet : RunQueue = record q { is_empty = true } in
    let told : RunQueue = record q {
      is_empty = true;
      timer_cb = empty_cb;
      timeout = some (pos 1);
    } in
    let marked : IsWf (if q.has_empty_cb then told else quiet) =
      elim q.has_empty_cb as (λ b. IsWf (if b then told else quiet)) [
        | true ↦ timer-IsWf q empty_cb (some (pos 1)) true w
        | false ↦ timer-IsWf q q.timer_cb q.timeout true w
      ] in
    elim (not q.is_empty && list_empty q.tasks_active.items && list_empty q.tasks_inactive.items)
      as (λ b. IsWf (if b then (if q.has_empty_cb then told else quiet) else q)) [
        | true ↦ marked
        | false ↦ w
      ]

module _ (calls : Callbacks) (all : AllKeep calls) where
  call_lem :
      (i : ℕ) (q q' : RunQueue)
      → (q.tasks i).has_run ≡ true
      → calls.run i q ≡ some q'
      → call_run calls i q ≡ some q'
  unfolding call_run
  call_lem i q q' h e = rw h e

  start_loop-IsWf : (fuel : ℕ) (q r : RunQueue) → IsWf q → start_loop calls fuel q ≡ some r → IsWf r
  unfolding start_loop
  start_loop-IsWf zero q r w h = absurd (ground arith)
  start_loop-IsWf (suc fuel) q r w h = elim (Bool-cases q.stopped) [
    | inl e ↦ let s : q ≡ r = ground (arith, e, h) in subst IsWf s w
    | inr e ↦ elim (Option-cases (first_entry q.tasks_inactive.items)) [
      | inl n ↦ let s : q ≡ r = ground (arith, e, n, h) in subst IsWf s w
      | inr (i, n) ↦ elim (Bool-cases (is_full q)) [
        | inl f ↦ let s : q ≡ r = ground (arith, e, n, f, h) in subst IsWf s w
        | inr f ↦
            let m : mem i q.tasks_inactive.items ≡ true = first_linked i q.tasks_inactive.items n in
            let (q1, a, w1, l, has, c, x) = activate-IsWf i q w m in
            let (q2, run, w2) = all.keep_run i q1 w1 in
            let runs : (q1.tasks i).has_run ≡ true = has ∙ w.runnable i m in
            start_loop-IsWf fuel q2 r w2
              (sym (one_start calls fuel i q q1 q2 e n f a (call_lem i q1 q2 runs run)) ∙ h)
      ]
    ]
  ]

  pub runqueue_start_next-IsWf :
      (fuel : ℕ) (q r : RunQueue) → IsWf q → runqueue_start_next calls fuel q ≡ some r → IsWf r
  unfolding runqueue_start_next
  runqueue_start_next-IsWf fuel q r w h =
      let (q1, run, e) = bind_some (start_loop calls fuel q) _ r h in
      let s : note_empty q1 ≡ r = cc (e) in
      subst IsWf s (note_empty-IsWf q1 (start_loop-IsWf fuel q q1 w run))

  kill_loop-IsWf : (fuel : ℕ) (q r : RunQueue) → IsWf q → kill_active calls fuel q ≡ some r → IsWf r
  unfolding kill_active
  kill_loop-IsWf zero q r w h = absurd (ground arith)
  kill_loop-IsWf (suc fuel) q r w h = elim (Option-cases (first_entry q.tasks_active.items)) [
    | inl n ↦ let s : q ≡ r = ground (arith, n, h) in subst IsWf s w
    | inr (i, n) ↦
        let (q1, e, w1) = kill-IsWf calls all i q w in
        kill_loop-IsWf fuel q1 r w1 (ground (arith, n, e, h))
  ]

  -- The agreement is that of the fields it names: the iterators of the lists are no part of it.
  IsWf-lists :
      (active inactive : List (Option ℕ)) (q : RunQueue)
      → IsWf q
      → IsWf (record q {
        tasks_active = record q.tasks_active { iterators = active };
        tasks_inactive = record q.tasks_inactive { iterators = inactive };
      })
  IsWf-lists active inactive q w = record {
    active = w.active;
    inactive = w.inactive;
    active_once = w.active_once;
    inactive_once = w.inactive_once;
    counted = w.counted;
    runnable = w.runnable;
  }

  -- The list in hand stands for that of the queue.
  abbrev Waiting : SafeList → RunQueue → Type 0
  Waiting l q = IsWf (record q { tasks_inactive = l })

  abbrev AtWork : SafeList → RunQueue → Type 0
  AtWork l q = IsWf (record q { tasks_active = l })

  cancel_waiting-Waiting :
      (i : ℕ) (l : SafeList) (q : RunQueue) (v : Visit RunQueue)
      → Waiting l q
      → cancel_waiting calls i l q ≡ some v
      → Waiting v.1.0 v.1.1
  cancel_waiting-Waiting i l q v w h =
      let (q1, e, w1) = cancel-IsWf calls all i (pos 0) (record q { tasks_inactive = l }) w in
      let s : (pos 0, (q1.tasks_inactive, q1)) ≡ v = ground (arith, e, h) in
      subst (λ (v : Visit RunQueue). Waiting v.1.0 v.1.1) s
        (IsWf-lists q1.tasks_active.iterators q1.tasks_inactive.iterators q1 w1)

  cancel_running-AtWork :
      (i : ℕ) (l : SafeList) (q : RunQueue) (v : Visit RunQueue)
      → AtWork l q
      → cancel_running calls i l q ≡ some v
      → AtWork v.1.0 v.1.1
  cancel_running-AtWork i l q v w h =
      let (q1, e, w1) = cancel-IsWf calls all i (pos 0) (record q { tasks_active = l }) w in
      let s : (pos 0, (q1.tasks_active, q1)) ≡ v = ground (arith, e, h) in
      subst (λ (v : Visit RunQueue). AtWork v.1.0 v.1.1) s
        (IsWf-lists q1.tasks_active.iterators q1.tasks_inactive.iterators q1 w1)

  pub runqueue_cancel_pending-IsWf :
      (fuel : ℕ) (q r : RunQueue) → IsWf q → runqueue_cancel_pending calls fuel q ≡ some r → IsWf r
  unfolding runqueue_cancel_pending
  runqueue_cancel_pending-IsWf fuel q r w h =
      let (v, run, e) =
        bind_some (safe_list_for_each (cancel_waiting calls) fuel q.tasks_inactive q) _ r h in
      let s : record v.1.1 { tasks_inactive = v.1.0 } ≡ r = cc (e) in
      subst IsWf s (
        safe_list_for_each_lem Waiting
          (λ its l q w. IsWf-lists q.tasks_active.iterators its (record q { tasks_inactive = l }) w)
          (cancel_waiting calls) cancel_waiting-Waiting fuel q.tasks_inactive q v
          (IsWf-lists q.tasks_active.iterators q.tasks_inactive.iterators q w) run)

  pub runqueue_cancel_active-IsWf :
      (fuel : ℕ) (q r : RunQueue) → IsWf q → runqueue_cancel_active calls fuel q ≡ some r → IsWf r
  unfolding runqueue_cancel_active
  runqueue_cancel_active-IsWf fuel q r w h =
      let (v, run, e) =
        bind_some (safe_list_for_each (cancel_running calls) fuel q.tasks_active q) _ r h in
      let s : record v.1.1 { tasks_active = v.1.0 } ≡ r = cc (e) in
      subst IsWf s (
        safe_list_for_each_lem AtWork
          (λ its l q w. IsWf-lists its q.tasks_inactive.iterators (record q { tasks_active = l }) w)
          (cancel_running calls) cancel_running-AtWork fuel q.tasks_active q v
          (IsWf-lists q.tasks_active.iterators q.tasks_inactive.iterators q w) run)

  pub runqueue_cancel-IsWf :
      (fuel : ℕ) (q r : RunQueue) → IsWf q → runqueue_cancel calls fuel q ≡ some r → IsWf r
  unfolding runqueue_cancel
  runqueue_cancel-IsWf fuel q r w h =
      let (q1, e, h') = bind_some (runqueue_cancel_pending calls fuel q) _ r h in
      runqueue_cancel_active-IsWf fuel q1 r (runqueue_cancel_pending-IsWf fuel q q1 w e) h'

  pub runqueue_kill-IsWf :
      (fuel : ℕ) (q r : RunQueue) → IsWf q → runqueue_kill calls fuel q ≡ some r → IsWf r
  unfolding runqueue_kill
  runqueue_kill-IsWf fuel q r w h =
      let (q1, e1, h1) = bind_some (kill_active calls fuel q) _ r h in
      let (q2, e2, h2) = bind_some (runqueue_cancel_pending calls fuel q1) _ r h1 in
      let s : record q2 { timeout = none } ≡ r = cc (h2) in
      let w2 = runqueue_cancel_pending-IsWf fuel q1 q2 (kill_loop-IsWf fuel q q1 w e1) e2 in
      subst IsWf s (timer-IsWf q2 q2.timer_cb none q2.is_empty w2)
