-- ===== src/Uloop/Timers.antt =====
-- uloop.c: timers, in a list in order of their time. A timer is known by a number (its address).
-- What `uloop_gettime` reads is the argument `now`.
mod Invariant
mod Expiry
mod Tests
use openwrt_libubox.Prelude.{
  ℕ, zero, suc, ◌+◌, ◌-◌, ◌^◌, List, [], ◌∷◌, Option, none, some, Bool, true, false, not, ◌==◌,
  if◌then◌else◌,
}
use openwrt_libubox.Prelude.Int.{ℤ, pos, negsuc, ◌+ℤ◌, ◌-ℤ◌, ◌*ℤ◌, ltb_ℤ}
use openwrt_libubox.SafeList.{remove}
use openwrt_libubox.Uloop.Time.{TimeVal, quot, rem, tv_diff, is_later}
use openwrt_libubox.Uloop.Order.{insert_before}

-- `struct uloop_timeout`
pub record Timeout : Type 0 where
  pub time : TimeVal
  pub pending : Bool
  pub has_cb : Bool

-- The list `timeouts`, and the timers that the program holds.
pub record Timers : Type 0 where
  pub timer : ℕ → Timeout
  pub timeouts : List ℕ

abbrev pub set_timer : ℕ → Timeout → Timers → Timers
set_timer i t q = record q { timer = λ j. if j == i then t else q.timer j }

-- Whether one timer is due later than another.
abbrev pub due_later : Timers → ℕ → ℕ → Bool
due_later q i j = is_later (q.timer i).time (q.timer j).time

unfoldable pub uloop_timeout_add : ℕ → Timers → ℤ × Timers
uloop_timeout_add i q = if (q.timer i).pending then (negsuc 0, q) else (
  pos 0,
  record (set_timer i (record (q.timer i) { pending = true }) q) {
    timeouts = insert_before (λ j. due_later q j i) i q.timeouts;
  },
)

-- `uloop_timeout_cancel` of a pending timer.
abbrev pub cancelled : ℕ → Timers → Timers
cancelled i q = record (set_timer i (record (q.timer i) { pending = false }) q) {
  timeouts = remove i q.timeouts;
}

unfoldable pub uloop_timeout_cancel : ℕ → Timers → ℤ × Timers
uloop_timeout_cancel i q = if (q.timer i).pending then (pos 0, cancelled i q) else (negsuc 0, q)

-- `now` and a number of milliseconds, as `uloop_timeout_set` adds them.
abbrev pub carry : ℤ → ℤ → TimeVal
carry sec usec =
    if ltb_ℤ (pos 1000000) usec
    then record { tv_sec = sec +ℤ pos 1; tv_usec = usec -ℤ pos 1000000 }
    else record { tv_sec = sec; tv_usec = usec }

unfoldable pub time_in : TimeVal → ℤ → TimeVal
time_in now msecs =
    carry (now.tv_sec +ℤ quot msecs 1000) (now.tv_usec +ℤ rem msecs 1000 *ℤ pos 1000)

unfoldable pub uloop_timeout_set : TimeVal → ℕ → ℤ → Timers → ℤ × Timers
unfolding uloop_timeout_cancel uloop_timeout_add time_in
uloop_timeout_set now i msecs q =
    let q' = if (q.timer i).pending then (uloop_timeout_cancel i q).1 else q in
    uloop_timeout_add i (set_timer i (record (q'.timer i) { time = time_in now msecs }) q')

abbrev pub int_max : ℕ
int_max = 2 ^ 31 - 1

-- The range of an int.
abbrev pub clamp : ℤ → ℤ
clamp d =
    if ltb_ℤ (pos int_max) d
    then pos int_max
    else if ltb_ℤ d (negsuc int_max)
    then negsuc int_max
    else d

unfoldable pub uloop_timeout_remaining : TimeVal → ℕ → Timers → ℤ
unfolding tv_diff
uloop_timeout_remaining now i q =
    if (q.timer i).pending then clamp (tv_diff (q.timer i).time now) else negsuc 0

unfoldable pub uloop_timeout_remaining64 : TimeVal → ℕ → Timers → ℤ
unfolding tv_diff
uloop_timeout_remaining64 now i q =
    if (q.timer i).pending then tv_diff (q.timer i).time now else negsuc 0

-- What the clock and the first timer give for `uloop_get_next_timeout`.
abbrev pub wait_for : ℤ → ℤ
wait_for diff =
    if ltb_ℤ diff (pos 0) then pos 0 else if ltb_ℤ (pos int_max) diff then pos int_max else diff

unfoldable pub uloop_get_next_timeout : TimeVal → Timers → ℤ
unfolding tv_diff
uloop_get_next_timeout now q = elim q.timeouts [
  | [] ↦ negsuc 0
  | i ∷ rest ↦ wait_for (tv_diff (q.timer i).time now)
]

-- The callbacks of the timers: what the call for a timer makes of the timers.
abbrev pub Callback : Type 0
Callback = ℕ → Timers → Timers

-- The loop of `uloop_process_timeouts`; none is the end of the fuel.
unfoldable pub process_loop : Callback → TimeVal → ℕ → Timers → Option Timers
unfolding uloop_timeout_cancel
process_loop cb now zero q = none
process_loop cb now (suc fuel) q = elim q.timeouts [
  | [] ↦ some q
  | i ∷ rest ↦ elim (is_later (q.timer i).time now) [
    | true ↦ some q
    | false ↦
        let q' = (uloop_timeout_cancel i q).1 in
        process_loop cb now fuel (if (q.timer i).has_cb then cb i q' else q')
  ]
]

unfoldable pub uloop_process_timeouts : Callback → TimeVal → ℕ → Timers → Option Timers
unfolding process_loop
uloop_process_timeouts cb now fuel q = process_loop cb now fuel q

-- `uloop_clear_timeouts`: the list is walked with its next element kept.
unfoldable pub clear_from : List ℕ → Timers → Timers
unfolding uloop_timeout_cancel
clear_from [] q = q
clear_from (i ∷ rest) q = clear_from rest (uloop_timeout_cancel i q).1

unfoldable pub uloop_clear_timeouts : Timers → Timers
unfolding clear_from
uloop_clear_timeouts q = clear_from q.timeouts q
