-- ===== src/Uloop/Timers/Tests.antt =====
-- Runs of the timers, and the theorems at concrete inputs.
use openwrt_libubox.Prelude.{ℕ, [], ◌∷◌, some, true, false, ◌≡◌, refl, arith}
use openwrt_libubox.Prelude.Int.{pos, ◌+ℤ◌, ◌-ℤ◌, ◌*ℤ◌}
use openwrt_libubox.Uloop.Time.{TimeVal, IsClock, tv_diff}
use openwrt_libubox.Uloop.Timers.{
  Timers, time_in, uloop_timeout_add, uloop_timeout_cancel, uloop_timeout_set,
  uloop_get_next_timeout, uloop_process_timeouts,
}
use openwrt_libubox.Uloop.Timers.Invariant.{IsWf, WasSet, uloop_timeout_set-WasSet}
use openwrt_libubox.Uloop.Timers.Expiry.{due_count, NoneDue, uloop_process_timeouts-NoneDue}

abbrev at_time : ℕ → ℕ → TimeVal
at_time s u = record { tv_sec = pos s; tv_usec = pos u }

abbrev idle : Timers
idle = record {
  timer = λ i. record { time = at_time 0 0; pending = false; has_cb = true };
  timeouts = [];
}

idle-IsWf : IsWf idle
idle-IsWf = record { linked = λ i. refl; once = tt; normal = λ i m. absurd (cc); ordered = tt }

-- The carry leaves a full second's microseconds where the sum is exactly one million.
full_second : (time_in (at_time 5 900000) (pos 100)) ≡ at_time 5 1000000
unfolding time_in ◌+ℤ◌ ◌-ℤ◌ ◌*ℤ◌
full_second = refl

uloop_timeout_set-WasSet_example :
    WasSet (at_time 5 900000) 7 100 idle (uloop_timeout_set (at_time 5 900000) 7 (pos 100) idle)
uloop_timeout_set-WasSet_example =
    uloop_timeout_set-WasSet (at_time 5 900000) 7 100 idle idle-IsWf (900000, refl, omega arith)

-- Three timers, set for 30, 10 and 20 milliseconds.
abbrev three : Timers
three =
    (uloop_timeout_set (at_time 5 0) 3 (pos 20)
      (uloop_timeout_set (at_time 5 0) 2 (pos 10)
        (uloop_timeout_set (at_time 5 0) 1 (pos 30) idle).1).1).1

three_order : three.timeouts ≡ 2 ∷ 3 ∷ 1 ∷ []
unfolding uloop_timeout_set uloop_timeout_cancel uloop_timeout_add time_in tv_diff ◌+ℤ◌ ◌-ℤ◌ ◌*ℤ◌
three_order = refl

next_wait : uloop_get_next_timeout (at_time 5 4000) three ≡ pos 6
unfolding uloop_get_next_timeout uloop_timeout_set uloop_timeout_cancel uloop_timeout_add time_in
    tv_diff ◌+ℤ◌ ◌-ℤ◌ ◌*ℤ◌
next_wait = refl

three-IsWf : IsWf three
three-IsWf =
    let c : IsClock (at_time 5 0) = (0, refl, omega arith) in
    let a = uloop_timeout_set-WasSet (at_time 5 0) 1 30 idle idle-IsWf c in
    let b = uloop_timeout_set-WasSet (at_time 5 0) 2 10 _ a.wf c in
    (uloop_timeout_set-WasSet (at_time 5 0) 3 20 _ b.wf c).wf

due_now : due_count (at_time 5 25000) three ≡ 2
unfolding uloop_timeout_set uloop_timeout_cancel uloop_timeout_add time_in tv_diff ◌+ℤ◌ ◌-ℤ◌ ◌*ℤ◌
due_now = refl

uloop_process_timeouts-NoneDue_example :
    (q : Timers) × (uloop_process_timeouts (λ i q. q) (at_time 5 25000) 3 three ≡ some q)
    × IsWf q
    × NoneDue (at_time 5 25000) q
uloop_process_timeouts-NoneDue_example =
    uloop_process_timeouts-NoneDue (λ i q. q) (at_time 5 25000) 3 three (λ i q w. (w, omega arith))
      (25000, refl, omega arith) three-IsWf (omega (arith, due_now))
