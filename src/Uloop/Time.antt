-- ===== src/Uloop/Time.antt =====
-- uloop.c: points in time, and their difference in milliseconds.
use openwrt_libubox.Prelude.{
  ℕ, suc, ◌+◌, ◌-◌, ◌*◌, ◌/◌, ◌%◌, ◌≤◌, ◌<◌, Bool, true, false, ◌||◌, ◌&&◌, ltb, leb, ◌==◌, ◌≡◌,
  refl, ◌∙◌, sym, Bool-cases, dec_lt, arith, ◌⊎◌, inl, inr,
}
use openwrt_libubox.Prelude.Int.{
  ℤ, pos, negsuc, pos_part, neg_part, sub_ℕ, ◌+ℤ◌, ◌-ℤ◌, ◌*ℤ◌, ◌≤ℤ◌, ltb_ℤ, +ℤ_parts, -ℤ_parts,
}

-- `struct timeval`
pub record TimeVal : Type 0 where
  pub tv_sec : ℤ
  pub tv_usec : ℤ

-- `/` and `%` of C, which cut towards zero.
abbrev pub quot : ℤ → ℕ → ℤ
quot (pos n) k = pos (n / k)
quot (negsuc n) k = sub_ℕ 0 (suc n / k)

abbrev pub rem : ℤ → ℕ → ℤ
rem (pos n) k = pos (n % k)
rem (negsuc n) k = sub_ℕ 0 (suc n % k)

unfoldable pub tv_diff : TimeVal → TimeVal → ℤ
unfolding ◌+ℤ◌ ◌-ℤ◌ ◌*ℤ◌
tv_diff t1 t2 = (t1.tv_sec -ℤ t2.tv_sec) *ℤ pos 1000 +ℤ quot (t1.tv_usec -ℤ t2.tv_usec) 1000

-- `tv_diff(t1, t2) > 0`
abbrev pub is_later : TimeVal → TimeVal → Bool
is_later t1 t2 = ltb_ℤ (pos 0) (tv_diff t1 t2)

-- The microseconds are those of one second, its end included.
abbrev pub IsNormal : TimeVal → Type 0
IsNormal t = (u : ℕ) × (t.tv_usec ≡ pos u) × (u ≤ 1000000)

-- What the clock gives, by nanoseconds below a second.
abbrev pub IsClock : TimeVal → Type 0
IsClock t = (u : ℕ) × (t.tv_usec ≡ pos u) × (u < 1000000)

-- The order that the code compares by: a later second, but for the second's end, or the same second
-- and a millisecond more.
abbrev pub later_parts : ℕ → ℕ → ℕ → ℕ → Bool
later_parts a b ua ub =
    ltb (b + 1) a || ((a == b + 1) && ltb ub (ua + 1000000)) || ((a == b) && leb (ub + 1000) ua)

thousand_parts :
    (a : ℤ)
    → pos_part (a *ℤ pos 1000) + neg_part a * 1000 ≡ neg_part (a *ℤ pos 1000) + pos_part a * 1000
unfolding ◌*ℤ◌
thousand_parts a = ground arith

quot_pos : (a : ℤ) → pos_part (quot a 1000) ≡ pos_part a / 1000
quot_pos a = ground arith

quot_neg : (a : ℤ) → neg_part (quot a 1000) ≡ neg_part a / 1000
quot_neg a = ground arith

sub_pos : (m n : ℕ) → pos_part (pos m -ℤ pos n) ≡ m - n
unfolding ◌-ℤ◌
sub_pos m n = ground arith

sub_neg : (m n : ℕ) → neg_part (pos m -ℤ pos n) ≡ n - m
unfolding ◌-ℤ◌
sub_neg m n = ground arith

diff_lem :
    (a b ua ub p n : ℕ)
    → ua ≤ 1000000
    → ub ≤ 1000000
    → p + (b * 1000 + (ub - ua) / 1000) ≡ n + (a * 1000 + (ua - ub) / 1000)
    → ltb n p ≡ later_parts a b ua ub
diff_lem a b ua ub p n ha hb h = ground arith

parts_lem :
    (sa sb : ℤ) (ua ub : ℕ)
    → (let d : ℤ = (sa -ℤ sb) *ℤ pos 1000 +ℤ quot (pos ua -ℤ pos ub) 1000 in
        pos_part d + ((pos_part sb + neg_part sa) * 1000 + (ub - ua) / 1000)
        ≡ neg_part d + ((pos_part sa + neg_part sb) * 1000 + (ua - ub) / 1000))
parts_lem sa sb ua ub =
    let u : ℤ = pos ua -ℤ pos ub in
    omega (
      arith,
      +ℤ_parts ((sa -ℤ sb) *ℤ pos 1000) (quot u 1000),
      -ℤ_parts sa sb,
      thousand_parts (sa -ℤ sb),
      quot_pos u,
      quot_neg u,
      sub_pos ua ub,
      sub_neg ua ub,
    )

later_lem :
    (t1 t2 : TimeVal) (ua ub : ℕ)
    → t1.tv_usec ≡ pos ua
    → t2.tv_usec ≡ pos ub
    → ua ≤ 1000000
    → ub ≤ 1000000
    → is_later t1 t2
      ≡ later_parts
          (pos_part t1.tv_sec + neg_part t2.tv_sec)
          (pos_part t2.tv_sec + neg_part t1.tv_sec)
          ua
          ub
later_lem t1 t2 ua ub ea eb ha hb =
    let opened : tv_diff t1 t2
        ≡ (t1.tv_sec -ℤ t2.tv_sec) *ℤ pos 1000 +ℤ quot (t1.tv_usec -ℤ t2.tv_usec) 1000 =
      unfold tv_diff in refl in
    let d : ℤ = (t1.tv_sec -ℤ t2.tv_sec) *ℤ pos 1000 +ℤ quot (pos ua -ℤ pos ub) 1000 in
    let known : tv_diff t1 t2 ≡ d = opened ∙ rw (ea, eb) refl in
    let a = pos_part t1.tv_sec + neg_part t2.tv_sec in
    let b = pos_part t2.tv_sec + neg_part t1.tv_sec in
    rw known (
      diff_lem a b ua ub (pos_part d + 0) (0 + neg_part d) ha hb
        (omega (arith, parts_lem t1.tv_sec t2.tv_sec ua ub)))

-- What `later_parts` says, in the form that `omega` reads.
abbrev Later : ℕ → ℕ → ℕ → ℕ → Type 0
Later a b ua ub = (b + 2 ≤ a) ⊎ (((a ≡ b + 1) × (ub < ua + 1000000)) ⊎ ((a ≡ b) × (ub + 1000 ≤ ua)))

of_later_parts : (a b ua ub : ℕ) → later_parts a b ua ub ≡ true → Later a b ua ub
of_later_parts a b ua ub h = elim (dec_lt (b + 1) a) [
  | yes l ↦ inl (omega arith)
  | no n ↦ elim (dec_lt b a) [
    | yes l ↦ inr (inl (omega arith, ground arith))
    | no m ↦ inr (inr (ground arith, ground arith))
  ]
]

of_Later : (a b ua ub : ℕ) → Later a b ua ub → later_parts a b ua ub ≡ true
of_Later a b ua ub (inl h) = ground arith
of_Later a b ua ub (inr (inl h)) = ground arith
of_Later a b ua ub (inr (inr h)) = ground arith

trans-Later :
    (px nx py ny pz nz u v w : ℕ)
    → u ≤ 1000000
    → v ≤ 1000000
    → w ≤ 1000000
    → Later (px + ny) (py + nx) u v
    → Later (py + nz) (pz + ny) v w
    → Later (px + nz) (pz + nx) u w
trans-Later px nx py ny pz nz u v w a b c h k = omega arith

asym-Later : (a b u v : ℕ) → u ≤ 1000000 → v ≤ 1000000 → Later a b u v → ¬ Later b a v u
asym-Later a b u v hu hv h k = omega arith

-- `Later` of two points in time.
abbrev LaterThan : TimeVal → ℕ → TimeVal → ℕ → Type 0
LaterThan x u y v =
    Later (pos_part x.tv_sec + neg_part y.tv_sec) (pos_part y.tv_sec + neg_part x.tv_sec) u v

read_later :
    (x y : TimeVal) (n : IsNormal x) (m : IsNormal y) → is_later x y ≡ true → LaterThan x n.0 y m.0
read_later x y (u, eu, hu) (v, ev, hv) h =
    of_later_parts (pos_part x.tv_sec + neg_part y.tv_sec) (pos_part y.tv_sec + neg_part x.tv_sec) u
      v (sym (later_lem x y u v eu ev hu hv) ∙ h)

write_later :
    (x y : TimeVal) (n : IsNormal x) (m : IsNormal y) → LaterThan x n.0 y m.0 → is_later x y ≡ true
write_later x y (u, eu, hu) (v, ev, hv) h =
    later_lem x y u v eu ev hu hv
    ∙ of_Later (pos_part x.tv_sec + neg_part y.tv_sec) (pos_part y.tv_sec + neg_part x.tv_sec) u v h

pub is_later_trans :
    (x y z : TimeVal)
    → IsNormal x
    → IsNormal y
    → IsNormal z
    → is_later x y ≡ true
    → is_later y z ≡ true
    → is_later x z ≡ true
is_later_trans x y z nx ny nz h k = write_later x z nx nz (
    trans-Later (pos_part x.tv_sec) (neg_part x.tv_sec) (pos_part y.tv_sec) (neg_part y.tv_sec)
      (pos_part z.tv_sec) (neg_part z.tv_sec) nx.0 ny.0 nz.0 nx.2 ny.2 nz.2 (read_later x y nx ny h)
      (read_later y z ny nz k))

pub is_later_asym :
    (x y : TimeVal) → IsNormal x → IsNormal y → is_later x y ≡ true → is_later y x ≡ false
is_later_asym x y nx ny h = elim (Bool-cases (is_later y x)) [
  | inr e ↦ e
  | inl e ↦ absurd (
      asym-Later (pos_part x.tv_sec + neg_part y.tv_sec) (pos_part y.tv_sec + neg_part x.tv_sec)
        nx.0 ny.0 nx.2 ny.2 (read_later x y nx ny h) (read_later y x ny nx e))
]

-- A point in time in microseconds.
unfoldable pub micros : TimeVal → ℤ
micros t = t.tv_sec *ℤ pos 1000000 +ℤ t.tv_usec

micros_parts :
    (t : TimeVal) (n : IsNormal t)
    → pos_part (micros t) + neg_part t.tv_sec * 1000000
      ≡ neg_part (micros t) + pos_part t.tv_sec * 1000000 + n.0
unfolding micros ◌+ℤ◌ ◌*ℤ◌
micros_parts t (u, e, h) = ground arith

gap_lem :
    (pn nn pf nf pt nt u v w mn mnn mt mtn : ℕ)
    → u < 1000000
    → v ≤ 1000000
    → w ≤ 1000000
    → mn + nn * 1000000 ≡ mnn + pn * 1000000 + u
    → mt + nt * 1000000 ≡ mtn + pt * 1000000 + w
    → Later (pf + nn) (pn + nf) v u
    → mt + mnn ≤ mn + mtn
    → Later (pf + nt) (pt + nf) v w
gap_lem pn nn pf nf pt nt u v w mn mnn mt mtn hu hv hw en et a h = omega arith

-- What a point that is later than `now` does not come after in the list lies itself after `now`.
pub micros_after :
    (now first t : TimeVal)
    → IsClock now
    → IsNormal first
    → IsNormal t
    → is_later first now ≡ true
    → is_later first t ≡ false
    → micros now +ℤ pos 1 ≤ℤ micros t
micros_after now first t clock nf nt h k =
    let nn : IsNormal now = (clock.0, clock.1, omega (arith, clock.2)) in
    elim (dec_lt (pos_part (micros now) + neg_part (micros t))
      (pos_part (micros t) + neg_part (micros now))) [
        | yes l ↦ omega (arith, +ℤ_parts (micros now) (pos 1))
        | no l ↦
            let a =
              gap_lem (pos_part now.tv_sec) (neg_part now.tv_sec) (pos_part first.tv_sec)
                (neg_part first.tv_sec) (pos_part t.tv_sec) (neg_part t.tv_sec) nn.0 nf.0 nt.0
                (pos_part (micros now)) (neg_part (micros now)) (pos_part (micros t))
                (neg_part (micros t)) clock.2 nf.2 nt.2 (micros_parts now nn) (micros_parts t nt)
                (read_later first now nf nn h) (omega arith) in
            absurd (cc (k, write_later first t nf nt a))
      ]
