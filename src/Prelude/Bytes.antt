-- ===== src/Prelude/Bytes.antt =====
-- Machine integers of the C code: sizes of 64 bits, int of 32 bits, and tables over small ranges.
use openwrt_libubox.Prelude.{
  ℕ, zero, suc, ◌+◌, ◌-◌, ◌*◌, ◌/◌, ◌%◌, ◌^◌, ◌<◌, ◌≡◌, refl, arith, Bool, true, false, ◌==◌,
  ==_iff, Bool-cases, dec_lt, inl, inr, ltb, if◌then◌else◌, bit_or,
}
use mathlib.Core.Path.{subst}
use openwrt_libubox.Prelude.Int.{ℤ, pos, negsuc}

-- `size_t` addition.
abbrev pub add_size : ℕ → ℕ → ℕ
add_size a b = (a + b) % 2 ^ 64

-- A `size_t` returned as an `int`: the low 32 bits, read as a signed number.
abbrev pub to_int : ℕ → ℤ
to_int n = if ltb (n % 2 ^ 32) (2 ^ 31) then pos (n % 2 ^ 32) else negsuc (2 ^ 32 - n % 2 ^ 32 - 1)

pub to_int_small : (n : ℕ) → n < 2 ^ 31 → to_int n ≡ pos n
to_int_small n h = ground arith

-- Two functions that agree on the numbers from 0 to n - 1, each compared by evaluation.
unfoldable pub agree : ℕ → (ℕ → ℕ) → (ℕ → ℕ) → Bool
agree zero f g = true
agree (suc bound) f g = let rest = agree bound f g in if f bound == g bound then rest else false

pub eq_of_agree : (n : ℕ) (f g : ℕ → ℕ) (x : ℕ) → agree n f g ≡ true → x < n → f x ≡ g x
unfolding agree
eq_of_agree zero f g x same below = absurd (omega arith)
eq_of_agree (suc bound) f g x same below = elim (Bool-cases (f bound == g bound)) [
  | inl e ↦ elim (dec_lt x bound) [
    | yes l ↦ eq_of_agree bound f g x (ground arith) l
    | no l ↦
        let last : bound ≡ x = omega arith in
        subst (λ y. f y ≡ g y) last ((==_iff (f bound) (g bound)).0 e)
  ]
  | inr e ↦ absurd (ground arith)
]

-- Disjoint bits: `a * 4 | b`, `a * 16 | b` and `a * 64 | b` on one byte, through `x = a * k + b`.
or_low2_table : agree 256 (λ x. bit_or (x / 4 * 4) (x % 4)) (λ x. x) ≡ true
unfolding agree
or_low2_table = refl

or_low4_table : agree 256 (λ x. bit_or (x / 16 * 16) (x % 16)) (λ x. x) ≡ true
unfolding agree
or_low4_table = refl

or_low6_table : agree 256 (λ x. bit_or (x / 64 * 64) (x % 64)) (λ x. x) ≡ true
unfolding agree
or_low6_table = refl

pub or_low2 : (x : ℕ) → x < 256 → bit_or (x / 4 * 4) (x % 4) ≡ x
or_low2 x h = eq_of_agree 256 (λ x. bit_or (x / 4 * 4) (x % 4)) (λ x. x) x or_low2_table h

pub or_low4 : (x : ℕ) → x < 256 → bit_or (x / 16 * 16) (x % 16) ≡ x
or_low4 x h = eq_of_agree 256 (λ x. bit_or (x / 16 * 16) (x % 16)) (λ x. x) x or_low4_table h

pub or_low6 : (x : ℕ) → x < 256 → bit_or (x / 64 * 64) (x % 64) ≡ x
or_low6 x h = eq_of_agree 256 (λ x. bit_or (x / 64 * 64) (x % 64)) (λ x. x) x or_low6_table h
