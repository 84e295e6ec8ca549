-- ===== src/Base64.antt =====
-- base64.c: `b64_encode`; `b64_decode` stands in the child Decode. `int` results are integers, and
-- memory is the list of the target's bytes; `none` is a failed assertion or an access outside the
-- target. `dest` is not NULL (the assertion on it is the first thing that both functions do).
mod Decode
mod Encoding
mod Steps
mod RoundTrip
mod Bounds
mod Tests
use openwrt_libubox.Prelude.{
  ℕ, ◌+◌, ◌*◌, ◌/◌, ◌%◌, List, [], ◌∷◌, Option, none, some, ltb, leb, if◌then◌else◌, get_or, store,
  ◌>>=◌,
}
use openwrt_libubox.Prelude.Int.{ℤ, negsuc}
use openwrt_libubox.Prelude.Bytes.{add_size, to_int}
use Prim.Native.Char.{code}
use Prim.Native.String
use Prim.Native.String.{String}

abbrev pub codes : String → List ℕ
codes String.[] = []
codes (String.◌∷◌ c s) = code c ∷ codes s

-- The returned int, and the target as the call leaves it.
pub record Result : Type 0 where
  pub ret : ℤ
  pub target : List ℕ

abbrev pub fail : List ℕ → Option Result
fail t = some (record { ret = negsuc 0; target = t })

abbrev pub base64 : List ℕ
base64 = codes "ABCDEFGHIJKLMNOPQRSTUVWXYZabcdefghijklmnopqrstuvwxyz0123456789+/"

abbrev pub pad64 : ℕ
pad64 = b'='

-- `Base64[output[i]]`
unfoldable pub base64_at : ℕ → ℕ
base64_at i = get_or base64 i 0

-- The four sextets of three input bytes.
abbrev pub sextet0 : ℕ → ℕ
sextet0 a = a / 4

abbrev pub sextet1 : ℕ → ℕ → ℕ
sextet1 a b = a % 4 * 16 + b / 16

abbrev pub sextet2 : ℕ → ℕ → ℕ
sextet2 b c = b % 16 * 4 + c / 64

abbrev pub sextet3 : ℕ → ℕ
sextet3 c = c % 64

unfoldable pub put4 : List ℕ → ℕ → ℕ → ℕ → ℕ → ℕ → Option (List ℕ)
put4 t n c0 c1 c2 c3 = do
  t0 ← store t n c0
  t1 ← store t0 (n + 1) c1
  t2 ← store t1 (n + 2) c2
  store t2 (n + 3) c3

-- `if (datalength >= targsize) return -1; target[datalength] = 0; return datalength;`
unfoldable pub encode_end : ℕ → List ℕ → ℕ → Option Result
encode_end size t n =
    if leb size n
    then fail t
    else (store t n 0 >>= λ t'. some (record { ret = to_int n; target = t' }))

-- The loop on three bytes, and the padding of the one or two that are left.
unfoldable pub encode_loop : List ℕ → ℕ → List ℕ → ℕ → Option Result
unfolding encode_end put4 base64_at
encode_loop [] size t n = encode_end size t n
encode_loop (a ∷ []) size t n =
    if ltb size (add_size n 4)
    then fail t
    else (put4 t n (base64_at (sextet0 a)) (base64_at (sextet1 a 0)) pad64 pad64 >>= λ t'.
        encode_end size t' (n + 4))
encode_loop (a ∷ b ∷ []) size t n =
    if ltb size (add_size n 4)
    then fail t
    else (put4 t n (base64_at (sextet0 a)) (base64_at (sextet1 a b)) (base64_at (sextet2 b 0)) pad64
        >>= λ t'. encode_end size t' (n + 4))
encode_loop (a ∷ b ∷ c ∷ rest) size t n =
    if ltb size (add_size n 4)
    then fail t
    else (put4 t n (base64_at (sextet0 a)) (base64_at (sextet1 a b)) (base64_at (sextet2 b c))
          (base64_at (sextet3 c))
        >>= λ t'. encode_loop rest size t' (n + 4))

unfoldable pub b64_encode : List ℕ → List ℕ → ℕ → Option Result
unfolding encode_loop
b64_encode src dest targsize = if ltb 0 targsize then encode_loop src targsize dest 0 else none
