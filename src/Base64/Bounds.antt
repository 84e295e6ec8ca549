-- ===== src/Base64/Bounds.antt =====
-- `b64_decode` on any text: no access outside the target, and the range of what it returns.
use openwrt_libubox.Prelude.{
  ℕ, ◌+◌, ◌*◌, ◌/◌, ◌%◌, ◌^◌, ◌≤◌, ◌<◌, ◌≡◌, refl, ◌∙◌, List, [], ◌∷◌, Option, none, some, inl, inr,
  length, store-bounds, get_elem?-bounds, ◌>>=◌, bit_or, arith, dec_lt, Option-cases,
}
use openwrt_libubox.Prelude.Int.{ℤ, negsuc, pos}
use openwrt_libubox.Prelude.Bytes.{to_int_small}
use openwrt_libubox.Base64.{Result, fail}
use openwrt_libubox.Base64.Decode.{
  index_of, Phase, phase0, phase1, phase2, phase3, Step, go, bad, put_next, decode_step, or_into,
  decode_end, decode_slop, decode_trailer, second_pad, decode_pad, decode_nul, skip_spaces,
  decode_loop, b64_decode,
}

-- -1, or a number of bytes that the target holds.
abbrev pub InRange : ℕ → ℤ → Type 0
InRange size (pos k) = k ≤ size
InRange size (negsuc k) = k ≡ 0

-- The call did not fault, the target kept its size, and the result is in range.
abbrev pub IsSound : ℕ → Option Result → Type 0
IsSound size none = ⊥
IsSound size (some r) = (length r.target ≡ size) × InRange size r.ret

module _ (size : ℕ) (small : size < 2 ^ 31) where
  decode_end-IsSound :
      (i : ℕ) (t : List ℕ) → length t ≡ size → i ≤ size → IsSound size (decode_end size i t)
  unfolding decode_end
  decode_end-IsSound i t h hi = elim (dec_lt i size) [
    | yes p ↦
        let (u, e, l) = store-bounds t i 0 (omega arith) in ground (arith, e, l, to_int_small i)
    | no p ↦ ground (arith, to_int_small i)
  ]

  decode_slop-IsSound :
      (i : ℕ) (t : List ℕ) → length t ≡ size → i ≤ size → IsSound size (decode_slop size i t)
  unfolding decode_slop
  decode_slop-IsSound i t h hi = elim (dec_lt i size) [
    | yes p ↦
        let (x, e) = get_elem?-bounds t i (omega arith) in
        ground (arith, e, decode_end-IsSound i t h hi)
    | no p ↦ ground (arith, decode_end-IsSound i t h hi)
  ]

  decode_trailer-IsSound :
      (cs : List ℕ) (i : ℕ) (t : List ℕ)
      → length t ≡ size
      → i ≤ size
      → IsSound size (decode_trailer cs size i t)
  unfolding decode_trailer
  decode_trailer-IsSound cs i t h hi = ground (arith, decode_slop-IsSound i t h hi)

  second_pad-IsSound :
      (cs : List ℕ) (i : ℕ) (t : List ℕ)
      → length t ≡ size
      → i ≤ size
      → IsSound size (second_pad cs size i t)
  unfolding second_pad
  second_pad-IsSound [] i t h hi = ground arith
  second_pad-IsSound (c ∷ cs) i t h hi = ground (arith, decode_trailer-IsSound cs i t h hi)

  decode_pad-IsSound :
      (cs : List ℕ) (p : Phase) (i : ℕ) (t : List ℕ)
      → length t ≡ size
      → i ≤ size
      → IsSound size (decode_pad cs size p i t)
  unfolding decode_pad
  decode_pad-IsSound cs phase0 i t h hi = ground arith
  decode_pad-IsSound cs phase1 i t h hi = ground arith
  decode_pad-IsSound cs phase2 i t h hi = second_pad-IsSound (skip_spaces cs) i t h hi
  decode_pad-IsSound cs phase3 i t h hi = decode_trailer-IsSound cs i t h hi

  decode_nul-IsSound :
      (p : Phase) (i : ℕ) (t : List ℕ)
      → length t ≡ size
      → i ≤ size
      → IsSound size (decode_nul size p i t)
  unfolding decode_nul
  decode_nul-IsSound phase0 i t h hi = decode_end-IsSound i t h hi
  decode_nul-IsSound phase1 i t h hi = ground arith
  decode_nul-IsSound phase2 i t h hi = ground arith
  decode_nul-IsSound phase3 i t h hi = ground arith

  -- What a step leaves.
  abbrev Kept : Option Step → Type 0
  Kept none = ⊥
  Kept (some (go p i t)) = (length t ≡ size) × (i ≤ size)
  Kept (some (bad t)) = length t ≡ size

  put_next-Kept :
      (i : ℕ) (t : List ℕ) (v : ℕ) (p : Phase)
      → length t ≡ size
      → i < size
      → Kept (put_next size i t v p)
  unfolding put_next
  put_next-Kept i t v p h hi = elim (dec_lt (i + 1) size) [
    | yes q ↦ let (u, e, l) = store-bounds t (i + 1) v (omega arith) in ground (arith, e, l)
    | no q ↦ ground arith
  ]

  or_into-bounds :
      (t : List ℕ) (i v : ℕ)
      → i < length t
      → (u : List ℕ) × (or_into t i v ≡ some u) × (length u ≡ length t)
  unfolding or_into
  or_into-bounds t i v h =
      let (x, e) = get_elem?-bounds t i h in
      let (u, f, l) = store-bounds t i (bit_or x v) h in (u, rw e f, l)

  decode_step-Kept :
      (v : ℕ) (p : Phase) (i : ℕ) (t : List ℕ)
      → length t ≡ size
      → i ≤ size
      → Kept (decode_step size v p i t)
  unfolding decode_step
  decode_step-Kept v phase0 i t h hi = elim (dec_lt i size) [
    | yes q ↦ let (u, e, l) = store-bounds t i (v * 4 % 256) (omega arith) in ground (arith, e, l)
    | no q ↦ ground arith
  ]
  decode_step-Kept v phase1 i t h hi = elim (dec_lt i size) [
    | yes q ↦
        let (u, e, l) = or_into-bounds t i (v / 16) (omega arith) in
        ground (arith, e, put_next-Kept i u (v % 16 * 16) phase2 (l ∙ h) q)
    | no q ↦ ground arith
  ]
  decode_step-Kept v phase2 i t h hi = elim (dec_lt i size) [
    | yes q ↦
        let (u, e, l) = or_into-bounds t i (v / 4) (omega arith) in
        ground (arith, e, put_next-Kept i u (v % 4 * 64) phase3 (l ∙ h) q)
    | no q ↦ ground arith
  ]
  decode_step-Kept v phase3 i t h hi = elim (dec_lt i size) [
    | yes q ↦ let (u, e, l) = or_into-bounds t i v (omega arith) in ground (arith, e, l)
    | no q ↦ ground arith
  ]

  continue-IsSound :
      (cs : List ℕ) (r : Option Step)
      → ((p : Phase) (i : ℕ) (t : List ℕ)
          → length t ≡ size
          → i ≤ size
          → IsSound size (decode_loop cs size p i t))
      → Kept r
      → IsSound size (r >>= λ s. elim s [ go p i t ↦ decode_loop cs size p i t | bad t ↦ fail t ])
  continue-IsSound cs none rest k = k
  continue-IsSound cs (some (go p i t)) rest k = rest p i t k.0 k.1
  continue-IsSound cs (some (bad t)) rest k = (k, refl)

  decode_loop-IsSound :
      (cs : List ℕ) (p : Phase) (i : ℕ) (t : List ℕ)
      → length t ≡ size
      → i ≤ size
      → IsSound size (decode_loop cs size p i t)
  unfolding decode_loop
  decode_loop-IsSound [] p i t h hi = decode_nul-IsSound p i t h hi
  decode_loop-IsSound (c ∷ cs) p i t h hi = elim (Option-cases (index_of c)) [
    | inl e ↦ ground (
      arith,
      e,
      decode_nul-IsSound p i t h hi,
      decode_pad-IsSound cs p i t h hi,
      decode_loop-IsSound cs p i t h hi,
    )
    | inr (v, e) ↦ ground (
      arith,
      e,
      decode_nul-IsSound p i t h hi,
      decode_pad-IsSound cs p i t h hi,
      decode_loop-IsSound cs p i t h hi,
      continue-IsSound cs (decode_step size v p i t) (decode_loop-IsSound cs)
          (decode_step-Kept v p i t h hi),
    )
  ]

-- On any text, `b64_decode` keeps inside a target of at least one byte (and below 2 ^ 31), and
-- returns -1 or a number of bytes that the target holds.
pub b64_decode-IsSound :
    (src dest : List ℕ)
    → 0 < length dest
    → length dest < 2 ^ 31
    → IsSound (length dest) (b64_decode src dest (length dest))
unfolding b64_decode
b64_decode-IsSound src dest h0 h =
    ground (arith, decode_loop-IsSound (length dest) h src phase0 0 dest refl (omega arith))
