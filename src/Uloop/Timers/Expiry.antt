-- ===== src/Uloop/Timers/Expiry.antt =====
-- `uloop_process_timeouts`: it ends, and leaves no timer that is due.
use mathlib.Core.Path.{subst}
use openwrt_libubox.Prelude.{
  ℕ, zero, suc, ◌≤◌, ◌<◌, List, [], ◌∷◌, some, true, false, ==_iff, if◌then◌else◌, ◌≡◌, ◌⊎◌, refl,
  sym, ap, ◌∙◌, arith, Bool-cases, inl, inr,
}
use openwrt_libubox.Prelude.Int.{pos, ◌+ℤ◌, ◌≤ℤ◌}
use openwrt_libubox.SafeList.{mem, remove}
use openwrt_libubox.SafeList.Deletion.{IsDistinct, remove-absent}
use openwrt_libubox.Uloop.Time.{TimeVal, is_later, IsClock, is_later_asym, micros, micros_after}
use openwrt_libubox.Uloop.Order.{InOrder, mem_All}
use openwrt_libubox.Uloop.Timers.{
  Timeout, Timers, Callback, due_later, cancelled, uloop_timeout_cancel, process_loop,
  uloop_process_timeouts,
}
use openwrt_libubox.Uloop.Timers.Invariant.{IsWf, same_time, cancelled-IsWf}

-- How many timers of a list `uloop_process_timeouts` takes for due.
abbrev pub due_in : TimeVal → (ℕ → Timeout) → List ℕ → ℕ
due_in now timer [] = 0
due_in now timer (i ∷ rest) =
    let more = due_in now timer rest in if is_later (timer i).time now then more else suc more

abbrev pub due_count : TimeVal → Timers → ℕ
due_count now q = due_in now q.timer q.timeouts

-- Callbacks that keep the timers well-formed and make no more of them due.
abbrev pub KeepsDue : TimeVal → Callback → Type 0
KeepsDue now cb =
    (i : ℕ) (q : Timers) → IsWf q → IsWf (cb i q) × (due_count now (cb i q) ≤ due_count now q)

-- Every pending timer is due after `now`, to the microsecond.
abbrev pub NoneDue : TimeVal → Timers → Type 0
NoneDue now q =
    (i : ℕ) → (q.timer i).pending ≡ true → micros now +ℤ pos 1 ≤ℤ micros (q.timer i).time

due_in-same :
    (now : TimeVal) (timer timer' : ℕ → Timeout) (xs : List ℕ)
    → ((j : ℕ) → (timer' j).time ≡ (timer j).time)
    → due_in now timer' xs ≡ due_in now timer xs
due_in-same now timer timer' [] h = refl
due_in-same now timer timer' (x ∷ xs) h = rw (h x, due_in-same now timer timer' xs h) refl

due_count-cancelled :
    (now : TimeVal) (i : ℕ) (rest : List ℕ) (q : Timers)
    → IsWf q
    → q.timeouts ≡ i ∷ rest
    → is_later (q.timer i).time now ≡ false
    → suc (due_count now (cancelled i q)) ≡ due_count now q
due_count-cancelled now i rest q w e l =
    let apart : IsDistinct (i ∷ rest) = subst IsDistinct e w.once in
    let left : remove i q.timeouts ≡ rest =
      ap (remove i) e ∙ ground (arith, ==_iff i i, remove-absent i rest apart.0) in
    let same =
      due_in-same now q.timer (cancelled i q).timer rest
        (λ j. same_time q i j (record (q.timer i) { pending = false }) refl) in
    rw (left, e, same, l) refl

none_later :
    (now : TimeVal) (i : ℕ) (rest : List ℕ) (q : Timers)
    → IsWf q
    → IsClock now
    → q.timeouts ≡ i ∷ rest
    → is_later (q.timer i).time now ≡ true
    → NoneDue now q
none_later now i rest q w c e l j p =
    let member : mem j q.timeouts ≡ true = w.linked j ∙ p in
    let first_in : mem i q.timeouts ≡ true = ap (mem i) e ∙ ground (arith, ==_iff i i) in
    let first_normal = w.normal i first_in in
    let own : due_later q i i ≡ false = elim (Bool-cases (due_later q i i)) [
      | inl k ↦ is_later_asym (q.timer i).time (q.timer i).time first_normal first_normal k
      | inr k ↦ k
    ] in
    let order : InOrder (due_later q) (i ∷ rest) = subst (InOrder (due_later q)) e w.ordered in
    let here : mem j (i ∷ rest) ≡ true = ap (mem j) (sym e) ∙ member in
    let before : due_later q i j ≡ false =
      mem_All (λ k. due_later q i k ≡ false) j (i ∷ rest) (own, order.0) here in
    micros_after now (q.timer i).time (q.timer j).time c first_normal (w.normal j member) l before

List-cases : (xs : List ℕ) → (xs ≡ []) ⊎ ((x : ℕ) × (rest : List ℕ) × (xs ≡ x ∷ rest))
List-cases [] = inl refl
List-cases (x ∷ rest) = inr (x, rest, refl)

-- The timers after the first one has been taken out and its callback called.
abbrev expired : Callback → ℕ → Timers → Timers
expired cb i q = if (q.timer i).has_cb then cb i (cancelled i q) else cancelled i q

one_expired :
    (cb : Callback) (now : TimeVal) (fuel i : ℕ) (rest : List ℕ) (q : Timers)
    → q.timeouts ≡ i ∷ rest
    → (q.timer i).pending ≡ true
    → is_later (q.timer i).time now ≡ false
    → process_loop cb now (suc fuel) q ≡ process_loop cb now fuel (expired cb i q)
unfolding process_loop uloop_timeout_cancel
one_expired cb now fuel i rest q e p l = ground (arith, e, p, l)

expired-kept :
    (cb : Callback) (now : TimeVal) (keeps : KeepsDue now cb) (i : ℕ) (q : Timers)
    → IsWf q
    → IsWf (expired cb i q) × (due_count now (expired cb i q) ≤ due_count now (cancelled i q))
expired-kept cb now keeps i q w =
    let c = cancelled-IsWf i q w in
    elim (q.timer i).has_cb
      as (λ b.
        IsWf (if b then cb i (cancelled i q) else cancelled i q)
        × (due_count now (if b then cb i (cancelled i q) else cancelled i q)
            ≤ due_count now (cancelled i q))) [
              | true ↦ keeps i (cancelled i q) c
              | false ↦ (c, omega arith)
            ]

loop_lem :
    (cb : Callback) (now : TimeVal) (keeps : KeepsDue now cb) (clock : IsClock now) (fuel : ℕ)
    (q : Timers)
    → IsWf q
    → due_count now q < fuel
    → (q' : Timers) × (process_loop cb now fuel q ≡ some q') × IsWf q' × NoneDue now q'
unfolding process_loop
loop_lem cb now keeps clock zero q w l = absurd (omega arith)
loop_lem cb now keeps clock (suc fuel) q w l = elim (List-cases q.timeouts) [
  | inl e ↦ (q, ground (arith, e), w, λ j p. absurd (cc (w.linked j, p, ap (mem j) e)))
  | inr (i, rest, e) ↦ elim (Bool-cases (is_later (q.timer i).time now)) [
    | inl k ↦ (q, ground (arith, e, k), w, none_later now i rest q w clock e k)
    | inr k ↦
        let pending : (q.timer i).pending ≡ true =
          sym (w.linked i) ∙ ap (mem i) e ∙ ground (arith, ==_iff i i) in
        let (w', n) = expired-kept cb now keeps i q w in
        let fewer = due_count-cancelled now i rest q w e k in
        let (q', run, last, none_due) =
          loop_lem cb now keeps clock fuel (expired cb i q) w' (omega arith) in
        (q', one_expired cb now fuel i rest q e pending k ∙ run, last, none_due)
  ]
]

-- `uloop_process_timeouts` on well-formed timers, at a time that the clock gives, with callbacks
-- that keep the timers well-formed and make no more of them due: it ends with fuel for one more step
-- than there are due timers, the timers are well-formed, and every timer still pending is due after
-- that time, to the microsecond.
pub uloop_process_timeouts-NoneDue :
    (cb : Callback) (now : TimeVal) (fuel : ℕ) (q : Timers)
    → KeepsDue now cb
    → IsClock now
    → IsWf q
    → due_count now q < fuel
    → (q' : Timers) × (uloop_process_timeouts cb now fuel q ≡ some q') × IsWf q' × NoneDue now q'
unfolding uloop_process_timeouts
uloop_process_timeouts-NoneDue cb now fuel q keeps clock w l =
    loop_lem cb now keeps clock fuel q w l
