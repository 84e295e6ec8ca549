-- ===== src/Base64/Decode.antt =====
-- base64.c: `b64_decode`.
use openwrt_libubox.Prelude.{
  ℕ, ◌+◌, ◌*◌, ◌/◌, ◌%◌, List, [], ◌∷◌, Option, none, some, Bool, true, false, ◌||◌, ◌&&◌, ltb, leb,
  ◌==◌, if◌then◌else◌, get_elem?, store, ◌>>=◌, bit_or,
}
use openwrt_libubox.Prelude.Bytes.{to_int}
use openwrt_libubox.Base64.{Result, fail, base64, pad64}

-- `isspace` in the C locale.
abbrev pub is_space : ℕ → Bool
is_space c = c == 32 || (leb 9 c && leb c 13)

index_from : List ℕ → ℕ → ℕ → Option ℕ
index_from [] i ch = none
index_from (c ∷ cs) i ch = let later = index_from cs (i + 1) ch in if c == ch then some i else later

-- `strchr(Base64, ch)`, as the offset that it finds; `ch` is not 0.
unfoldable pub index_of : ℕ → Option ℕ
unfolding index_from
index_of ch = index_from base64 0 ch

pub data Phase : Type 0 where
  phase0 phase1 phase2 phase3 : Phase

-- What one character does: the loop goes on, or the function returns -1.
pub data Step : Type 0 where
  go : Phase → ℕ → List ℕ → Step
  bad : List ℕ → Step

-- `target[tarindex] |= v`
unfoldable pub or_into : List ℕ → ℕ → ℕ → Option (List ℕ)
or_into t i v = get_elem? t i >>= λ old. store t i (bit_or old v)

-- `if (tarindex + 1 < targsize) target[tarindex+1] = nextbyte; else if (nextbyte) return -1;`
unfoldable pub put_next : ℕ → ℕ → List ℕ → ℕ → Phase → Option Step
put_next size i t v p =
    if ltb (i + 1) size
    then (store t (i + 1) v >>= λ t'. some (go p (i + 1) t'))
    else (if v == 0 then some (go p (i + 1) t) else some (bad t))

-- The switch: `value` is `pos - Base64`, the value of the character.
unfoldable pub decode_step : ℕ → ℕ → Phase → ℕ → List ℕ → Option Step
unfolding or_into put_next
decode_step size value phase0 i t =
    if leb size i
    then some (bad t)
    else (store t i (value * 4 % 256) >>= λ t'. some (go phase1 i t'))
decode_step size value phase1 i t =
    if leb size i
    then some (bad t)
    else (or_into t i (value / 16) >>= λ t'. put_next size i t' (value % 16 * 16) phase2)
decode_step size value phase2 i t =
    if leb size i
    then some (bad t)
    else (or_into t i (value / 4) >>= λ t'. put_next size i t' (value % 4 * 64) phase3)
decode_step size value phase3 i t =
    if leb size i then some (bad t) else (or_into t i value >>= λ t'. some (go phase0 (i + 1) t'))

-- `if (tarindex < targsize) target[tarindex] = 0; return tarindex;`
unfoldable pub decode_end : ℕ → ℕ → List ℕ → Option Result
decode_end size i t =
    if ltb i size
    then (store t i 0 >>= λ t'. some (record { ret = to_int i; target = t' }))
    else some (record { ret = to_int i; target = t })

-- A text is the characters up to the NUL; its end is a NUL, and so is an element 0.
unfoldable pub skip_spaces : List ℕ → List ℕ
skip_spaces [] = []
skip_spaces (c ∷ cs) = let rest = skip_spaces cs in if is_space c then rest else c ∷ cs

only_spaces : List ℕ → Bool
only_spaces [] = true
only_spaces (c ∷ cs) =
    let rest = only_spaces cs in if c == 0 then true else if is_space c then rest else false

-- The check of the bits that slopped past the last full byte.
unfoldable pub decode_slop : ℕ → ℕ → List ℕ → Option Result
unfolding decode_end
decode_slop size i t =
    if ltb i size
    then (get_elem? t i >>= λ last. if last == 0 then decode_end size i t else fail t)
    else decode_end size i t

-- The case of phase 3, which phase 2 falls through to.
unfoldable pub decode_trailer : List ℕ → ℕ → ℕ → List ℕ → Option Result
unfolding only_spaces decode_slop
decode_trailer cs size i t = if only_spaces cs then decode_slop size i t else fail t

unfoldable pub second_pad : List ℕ → ℕ → ℕ → List ℕ → Option Result
unfolding decode_trailer
second_pad [] size i t = fail t
second_pad (c ∷ cs) size i t = if c == pad64 then decode_trailer cs size i t else fail t

-- After a pad character, which is skipped.
unfoldable pub decode_pad : List ℕ → ℕ → Phase → ℕ → List ℕ → Option Result
unfolding second_pad skip_spaces
decode_pad cs size phase0 i t = fail t
decode_pad cs size phase1 i t = fail t
decode_pad cs size phase2 i t = second_pad (skip_spaces cs) size i t
decode_pad cs size phase3 i t = decode_trailer cs size i t

-- At the NUL: no partial byte may be left.
unfoldable pub decode_nul : ℕ → Phase → ℕ → List ℕ → Option Result
unfolding decode_end
decode_nul size phase0 i t = decode_end size i t
decode_nul size p i t = fail t

unfoldable pub decode_loop : List ℕ → ℕ → Phase → ℕ → List ℕ → Option Result
decode_loop [] size p i t = decode_nul size p i t
decode_loop (ch ∷ cs) size p i t =
    let skipped = decode_loop cs size p i t in
    if ch == 0
    then decode_nul size p i t
    else if is_space ch
    then skipped
    else if ch == pad64
    then decode_pad cs size p i t
    else elim (index_of ch) [
      | none ↦ fail t
      | some value ↦
          (decode_step size value p i t >>= λ s. elim s [
            | go p' i' t' ↦ decode_loop cs size p' i' t'
            | bad t' ↦ fail t'
          ])
    ]

unfoldable pub b64_decode : List ℕ → List ℕ → ℕ → Option Result
unfolding decode_loop decode_nul decode_pad decode_step index_of
b64_decode src dest targsize =
    if ltb 0 targsize then decode_loop src targsize phase0 0 dest else none
