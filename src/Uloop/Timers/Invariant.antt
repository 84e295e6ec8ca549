-- ===== src/Uloop/Timers/Invariant.antt =====
-- The timers' list: pending timers, once each, in the order of their times.
use mathlib.Core.Path.{subst}
use openwrt_libubox.Prelude.{
  ℕ, ◌+◌, ◌-◌, ◌*◌, ◌/◌, ◌%◌, ◌<◌, List, true, false, ◌==◌, ==_iff, if◌then◌else◌, ◌≡◌, refl, sym,
  ap, ◌∙◌, arith, Bool-cases, inl, inr, dec_lt,
}
use openwrt_libubox.Prelude.Int.{ℤ, pos, pos_part, neg_part, ◌+ℤ◌, ◌-ℤ◌, ◌*ℤ◌, ltb_ℤ, int_laws}
use openwrt_libubox.SafeList.{mem, remove}
use openwrt_libubox.SafeList.Deletion.{IsDistinct, IsDistinct-remove}
use openwrt_libubox.SafeList.Members.{mem-remove_all}
use openwrt_libubox.Uloop.Time.{TimeVal, IsNormal, IsClock, is_later_trans, is_later_asym, micros}
use openwrt_libubox.Uloop.Order.{
  insert_before, InOrder, mem-insert_before, IsDistinct-insert_before, All-mem, InOrder-remove,
  InOrder-agree, InOrder-insert_before,
}
use openwrt_libubox.Uloop.Timers.{
  Timeout, Timers, set_timer, due_later, uloop_timeout_add, cancelled, uloop_timeout_cancel, carry,
  time_in, uloop_timeout_set,
}

pub record IsWf (q : Timers) : Type 0 where
  pub linked : (i : ℕ) → mem i q.timeouts ≡ (q.timer i).pending
  pub once : IsDistinct q.timeouts
  pub normal : (i : ℕ) → mem i q.timeouts ≡ true → IsNormal (q.timer i).time
  pub ordered : InOrder (due_later q) q.timeouts

-- Timers whose linked timers keep their times keep their order.
same_times :
    (q q' : Timers) (xs : List ℕ)
    → ((j : ℕ) → mem j xs ≡ true → (q'.timer j).time ≡ (q.timer j).time)
    → InOrder (due_later q) xs
    → InOrder (due_later q') xs
same_times q q' xs h o =
    InOrder-agree (due_later q) (due_later q') xs (λ i j m n. rw (h i m, h j n) refl) o

pub same_time :
    (q : Timers) (i j : ℕ) (t : Timeout)
    → t.time ≡ (q.timer i).time
    → ((set_timer i t q).timer j).time ≡ (q.timer j).time
same_time q i j t h = elim (Bool-cases (j == i)) [
  | inl e ↦ rw ((==_iff j i).0 e) (ground (arith, ==_iff i i, h))
  | inr e ↦ rw e refl
]

pub cancelled-IsWf : (i : ℕ) (q : Timers) → IsWf q → IsWf (cancelled i q)
cancelled-IsWf i q w =
    let same : (j : ℕ) → ((cancelled i q).timer j).time ≡ (q.timer j).time =
      λ j. same_time q i j (record (q.timer i) { pending = false }) refl in
    record {
      linked = λ j. ground (arith, w.linked j, ==_iff j i, mem-remove_all j i q.timeouts);
      once = IsDistinct-remove i q.timeouts w.once;
      normal = λ j m.
          subst IsNormal (sym (same j))
            (w.normal j (ground (arith, m, mem-remove_all j i q.timeouts)));
      ordered =
          same_times q (cancelled i q) (remove i q.timeouts) (λ j _. same j)
            (InOrder-remove (due_later q) i q.timeouts w.ordered);
    }

-- A timer that is not linked gets a time.
pub set_time-IsWf :
    (i : ℕ) (t : TimeVal) (q : Timers)
    → IsWf q
    → (q.timer i).pending ≡ false
    → IsWf (set_timer i (record (q.timer i) { time = t }) q)
set_time-IsWf i t q w p =
    let q' : Timers = set_timer i (record (q.timer i) { time = t }) q in
    let same : (j : ℕ) → mem j q.timeouts ≡ true → (q'.timer j).time ≡ (q.timer j).time =
      λ j m. ground (arith, w.linked j, w.linked i, ==_iff j i, m, p) in
    record {
      linked = λ j. ground (arith, w.linked j, ==_iff j i);
      once = w.once;
      normal = λ j m. subst IsNormal (sym (same j m)) (w.normal j m);
      ordered = same_times q q' q.timeouts same w.ordered;
    }

unfoldable added : ℕ → Timers → Timers
added i q = record (set_timer i (record (q.timer i) { pending = true }) q) {
  timeouts = insert_before (λ j. due_later q j i) i q.timeouts;
}

added-IsWf :
    (i : ℕ) (q : Timers)
    → IsWf q
    → IsNormal (q.timer i).time
    → (q.timer i).pending ≡ false
    → IsWf (added i q)
unfolding added
added-IsWf i q w n p =
    let normal_at : ℕ → Type 0 = λ j. IsNormal (q.timer j).time in
    let new : List ℕ = insert_before (λ j. due_later q j i) i q.timeouts in
    let same : (j : ℕ) → ((added i q).timer j).time ≡ (q.timer j).time =
      λ j. same_time q i j (record (q.timer i) { pending = true }) refl in
    let ordered : InOrder (due_later q) new =
      InOrder-insert_before (due_later q) normal_at
        (λ x y z. is_later_trans (q.timer x).time (q.timer y).time (q.timer z).time)
        (λ x y. is_later_asym (q.timer x).time (q.timer y).time) i q.timeouts n
        (All-mem normal_at q.timeouts w.normal) w.ordered in
    record {
      linked = λ j.
          ground (
            arith,
            w.linked j,
            ==_iff j i,
            mem-insert_before (λ j. due_later q j i) i j q.timeouts,
          );
      once = IsDistinct-insert_before (λ j. due_later q j i) i q.timeouts (w.linked i ∙ p) w.once;
      normal = λ j m. elim (Bool-cases (j == i)) [
        | inl e ↦ subst IsNormal (sym (same j)) (subst normal_at (sym ((==_iff j i).0 e)) n)
        | inr e ↦ subst IsNormal (sym (same j)) (
            w.normal j
              (ground (arith, m, e, mem-insert_before (λ j. due_later q j i) i j q.timeouts)))
      ];
      ordered = same_times q (added i q) new (λ j _. same j) ordered;
    }

pub uloop_timeout_add-IsWf :
    (i : ℕ) (q : Timers) → IsWf q → IsNormal (q.timer i).time → IsWf (uloop_timeout_add i q).1
unfolding uloop_timeout_add added
uloop_timeout_add-IsWf i q w n = elim (Bool-cases (q.timer i).pending) [
  | inl e ↦ subst IsWf (ground (arith, e)) w
  | inr e ↦ subst IsWf (ground (arith, e)) (added-IsWf i q w n e)
]

usec_lem : (u x : ℕ) → pos u +ℤ pos x *ℤ pos 1000 ≡ pos (u + x * 1000)
unfolding ◌+ℤ◌ ◌*ℤ◌
usec_lem u x = ground arith

carried : (v : ℕ) → 1000000 < v → pos v -ℤ pos 1000000 ≡ pos (v - 1000000)
unfolding ◌-ℤ◌
carried v h = ground arith

million_parts :
    (a : ℤ)
    → pos_part (a *ℤ pos 1000000) + neg_part a * 1000000
      ≡ neg_part (a *ℤ pos 1000000) + pos_part a * 1000000
unfolding ◌*ℤ◌
million_parts a = ground arith

-- The carry keeps the point in time, of a second's microseconds and a second more.
carry-IsNormal : (sec : ℤ) (v : ℕ) → v < 2000000 → IsNormal (carry sec (pos v))
carry-IsNormal sec v h = elim (dec_lt 1000000 v) [
  | yes l ↦ (v - 1000000, ground (arith, carried v l), omega arith)
  | no l ↦ (v, ground arith, omega arith)
]

micros-carry : (sec : ℤ) (v : ℕ) → micros (carry sec (pos v)) ≡ sec *ℤ pos 1000000 +ℤ pos v
unfolding micros
micros-carry sec v = elim (dec_lt 1000000 v) [
  | yes l ↦
      let over : ltb_ℤ (pos 1000000) (pos v) ≡ true = ground arith in
      let sum : (sec +ℤ pos 1) *ℤ pos 1000000 +ℤ (pos v -ℤ pos 1000000)
          ≡ sec *ℤ pos 1000000 +ℤ pos v =
        omega (int_laws, million_parts (sec +ℤ pos 1), million_parts sec) in
      rw over sum
  | no l ↦ let under : ltb_ℤ (pos 1000000) (pos v) ≡ false = ground arith in rw under refl
]

micros_shift :
    (sec : ℤ) (u m : ℕ)
    → (sec +ℤ pos (m / 1000)) *ℤ pos 1000000 +ℤ pos (u + m % 1000 * 1000)
      ≡ sec *ℤ pos 1000000 +ℤ pos u +ℤ pos (m * 1000)
micros_shift sec u m = omega (int_laws, million_parts (sec +ℤ pos (m / 1000)), million_parts sec)

-- `now` and some milliseconds: a normal point in time, that many milliseconds ahead.
time_in-IsNormal : (now : TimeVal) (m : ℕ) → IsClock now → IsNormal (time_in now (pos m))
unfolding time_in
time_in-IsNormal now m (u, e, h) =
    rw (e, usec_lem u (m % 1000))
      (carry-IsNormal (now.tv_sec +ℤ pos (m / 1000)) (u + m % 1000 * 1000) (omega arith))

micros-time_in :
    (now : TimeVal) (m : ℕ)
    → IsClock now
    → micros (time_in now (pos m)) ≡ micros now +ℤ pos (m * 1000)
unfolding time_in micros
micros-time_in now m (u, e, h) =
    rw (e, usec_lem u (m % 1000))
      (micros-carry (now.tv_sec +ℤ pos (m / 1000)) (u + m % 1000 * 1000)
        ∙ micros_shift now.tv_sec u m)

-- What `uloop_timeout_set` returns and leaves of the timers `q`.
pub record WasSet (now : TimeVal) (i m : ℕ) (q : Timers) (r : ℤ × Timers) : Type 0 where
  pub returned : r.0 ≡ pos 0
  pub wf : IsWf r.1
  pub pending : (r.1.timer i).pending ≡ true
  pub due : micros (r.1.timer i).time ≡ micros now +ℤ pos (m * 1000)
  pub others : (j : ℕ) → (j == i) ≡ false → r.1.timer j ≡ q.timer j

set_unlinked :
    (now : TimeVal) (i m : ℕ) (q q' : Timers)
    → IsClock now
    → IsWf q'
    → (q'.timer i).pending ≡ false
    → ((j : ℕ) → (j == i) ≡ false → q'.timer j ≡ q.timer j)
    → WasSet now i m q
        (uloop_timeout_add i (set_timer i (record (q'.timer i) { time = time_in now (pos m) }) q'))
unfolding uloop_timeout_add added
set_unlinked now i m q q' c w p o =
    let t = time_in now (pos m) in
    let timed : Timers = set_timer i (record (q'.timer i) { time = t }) q' in
    let own : (i == i) ≡ true = (==_iff i i).1 refl in
    let at : (timed.timer i).time ≡ t = rw own refl in
    let free : (timed.timer i).pending ≡ false = rw own p in
    let last : (added i timed).timer i ≡ record (timed.timer i) { pending = true } = rw own refl in
    let w' : IsWf (added i timed) =
      added-IsWf i timed (set_time-IsWf i t q' w p)
        (subst IsNormal (sym at) (time_in-IsNormal now m c)) free in
    let others : (j : ℕ) → (j == i) ≡ false → (added i timed).timer j ≡ q.timer j =
      λ j n. rw (n, o j n) refl in
    let r : WasSet now i m q (pos 0, added i timed) = record {
      returned = refl;
      wf = w';
      pending = ap (λ (x : Timeout). x.pending) last;
      due = ap (λ (x : Timeout). micros x.time) last ∙ ap micros at ∙ micros-time_in now m c;
      others = others;
    } in
    subst (WasSet now i m q) (rw free refl) r

-- `uloop_timeout_set` with a number of milliseconds that is not negative, on well-formed timers and
-- whatever the timer's state: it returns 0, the timer is pending and due that long after `now`, the
-- others are as before, and the list holds the pending timers, once each, in order.
pub uloop_timeout_set-WasSet :
    (now : TimeVal) (i m : ℕ) (q : Timers)
    → IsWf q
    → IsClock now
    → WasSet now i m q (uloop_timeout_set now i (pos m) q)
unfolding uloop_timeout_set uloop_timeout_cancel
uloop_timeout_set-WasSet now i m q w c =
    let free : Timers = if (q.timer i).pending then (uloop_timeout_cancel i q).1 else q in
    let goal : Timers → Type 0 = λ q'.
      WasSet now i m q (
        uloop_timeout_add i
          (set_timer i (record (q'.timer i) { time = time_in now (pos m) }) q')) in
    elim (Bool-cases (q.timer i).pending) [
      | inl e ↦
          let gone : cancelled i q ≡ free = ground (arith, e) in
          subst goal gone (
            set_unlinked now i m q (cancelled i q) c (cancelled-IsWf i q w)
              (ground (arith, ==_iff i i)) (λ j n. rw n refl))
      | inr e ↦
          let same : q ≡ free = ground (arith, e) in
          subst goal same (set_unlinked now i m q q c w e (λ j n. refl))
    ]
