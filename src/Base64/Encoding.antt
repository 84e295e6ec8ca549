-- ===== src/Base64/Encoding.antt =====
-- What `b64_encode` writes and returns, for every size of the target.
use mathlib.Core.List.{append_assoc}
use openwrt_libubox.Prelude.{
  ℕ, suc, ◌+◌, ◌*◌, ◌/◌, ◌^◌, ◌≤◌, ◌<◌, ◌≡◌, refl, ap, ◌∙◌, List, [], ◌∷◌, ◌++◌, Option, some,
  length, length-append, length-drop, drop, drop-suc4, ltb, if◌then◌else◌, store, store-behind,
  dec_lt, ◌>>=◌, arith,
}
use openwrt_libubox.Prelude.Int.{negsuc, pos}
use openwrt_libubox.Prelude.Bytes.{add_size, to_int, to_int_small}
use openwrt_libubox.Base64.{
  Result, fail, base64_at, pad64, sextet0, sextet1, sextet2, sextet3, put4, encode_end, encode_loop,
  b64_encode,
}

-- The text of a list of bytes, three at a time.
unfoldable pub encoding : List ℕ → List ℕ
encoding [] = []
encoding (a ∷ []) = base64_at (sextet0 a) ∷ base64_at (sextet1 a 0) ∷ pad64 ∷ pad64 ∷ []
encoding (a ∷ b ∷ []) =
    base64_at (sextet0 a) ∷ base64_at (sextet1 a b) ∷ base64_at (sextet2 b 0) ∷ pad64 ∷ []
encoding (a ∷ b ∷ c ∷ rest) =
    base64_at (sextet0 a)
    ∷ base64_at (sextet1 a b)
    ∷ base64_at (sextet2 b c)
    ∷ base64_at (sextet3 c)
    ∷ encoding rest

-- `B64_ENCODE_LEN(_len)` of utils.h.
unfoldable pub b64_encode_len : ℕ → ℕ
b64_encode_len n = (n + 2) / 3 * 4 + 1

pub length-encoding : (src : List ℕ) → length (encoding src) + 1 ≡ b64_encode_len (length src)
unfolding encoding b64_encode_len
length-encoding [] = refl
length-encoding (a ∷ []) = refl
length-encoding (a ∷ b ∷ []) = refl
length-encoding (a ∷ b ∷ c ∷ rest) = omega (arith, length-encoding rest)

put4_lem :
    (out m : List ℕ) (n c0 c1 c2 c3 : ℕ)
    → n ≡ length out
    → 4 ≤ length m
    → put4 (out ++ m) n c0 c1 c2 c3 ≡ some ((out ++ (c0 ∷ c1 ∷ c2 ∷ c3 ∷ [])) ++ drop 4 m)
unfolding put4 store
put4_lem out (w ∷ x ∷ y ∷ z ∷ m) n c0 c1 c2 c3 e h = rw (
  store-behind out (w ∷ x ∷ y ∷ z ∷ m) n 0 c0 (omega arith),
  store-behind out (c0 ∷ x ∷ y ∷ z ∷ m) (n + 1) 1 c1 (omega arith),
  store-behind out (c0 ∷ c1 ∷ y ∷ z ∷ m) (n + 2) 2 c2 (omega arith),
  store-behind out (c0 ∷ c1 ∷ c2 ∷ z ∷ m) (n + 3) 3 c3 (omega arith),
  append_assoc,
)
put4_lem out [] n c0 c1 c2 c3 e h = absurd (omega arith)
put4_lem out (w ∷ []) n c0 c1 c2 c3 e h = absurd (omega arith)
put4_lem out (w ∷ x ∷ []) n c0 c1 c2 c3 e h = absurd (omega arith)
put4_lem out (w ∷ x ∷ y ∷ []) n c0 c1 c2 c3 e h = absurd (omega arith)

encode_end_lem :
    (out m : List ℕ) (size n : ℕ)
    → n ≡ length out
    → size ≡ n + length m
    → 0 < length m
    → encode_end size (out ++ m) n
      ≡ some (record { ret = to_int n; target = out ++ (0 ∷ drop 1 m) })
unfolding encode_end store
encode_end_lem out (x ∷ m) size n e es h =
    ground (arith, store-behind out (x ∷ m) n 0 0 (omega arith))
encode_end_lem out [] size n e es h = absurd (omega arith)

-- The target after the text of `src` and its NUL are written over `m`.
abbrev over : List ℕ → List ℕ → List ℕ
over text m = text ++ (0 ∷ drop (suc (length text)) m)

over-quantum :
    (out m rest : List ℕ) (c0 c1 c2 c3 : ℕ)
    → (out ++ (c0 ∷ c1 ∷ c2 ∷ c3 ∷ [])) ++ over rest (drop 4 m)
      ≡ out ++ over (c0 ∷ c1 ∷ c2 ∷ c3 ∷ rest) m
over-quantum out m rest c0 c1 c2 c3 =
    append_assoc out (c0 ∷ c1 ∷ c2 ∷ c3 ∷ []) (over rest (drop 4 m))
    ∙ rw (drop-suc4 (suc (length rest)) m)

encode_loop-fits :
    (src out m : List ℕ) (size n : ℕ)
    → n ≡ length out
    → size ≡ n + length m
    → size < 2 ^ 63
    → length (encoding src) < length m
    → encode_loop src size (out ++ m) n
      ≡ some (record {
        ret = to_int (n + length (encoding src));
        target = out ++ over (encoding src) m;
      })
unfolding encode_loop encoding
encode_loop-fits [] out m size n e es hs h =
    rw (encode_end_lem out m size n e es h)
      (ap (λ k. some (record { ret = to_int k; target = out ++ (0 ∷ drop 1 m) })) (omega arith))
encode_loop-fits (a ∷ []) out m size n e es hs h =
    let c0 = base64_at (sextet0 a) in
    let c1 = base64_at (sextet1 a 0) in
    ground (
      arith,
      put4_lem out m n c0 c1 pad64 pad64,
      encode_end_lem (out ++ (c0 ∷ c1 ∷ pad64 ∷ pad64 ∷ [])) (drop 4 m) size (n + 4),
      over-quantum out m [] c0 c1 pad64 pad64,
      length-drop 4 m,
      length-append out (c0 ∷ c1 ∷ pad64 ∷ pad64 ∷ []),
    )
encode_loop-fits (a ∷ b ∷ []) out m size n e es hs h =
    let c0 = base64_at (sextet0 a) in
    let c1 = base64_at (sextet1 a b) in
    let c2 = base64_at (sextet2 b 0) in
    ground (
      arith,
      put4_lem out m n c0 c1 c2 pad64,
      encode_end_lem (out ++ (c0 ∷ c1 ∷ c2 ∷ pad64 ∷ [])) (drop 4 m) size (n + 4),
      over-quantum out m [] c0 c1 c2 pad64,
      length-drop 4 m,
      length-append out (c0 ∷ c1 ∷ c2 ∷ pad64 ∷ []),
    )
encode_loop-fits (a ∷ b ∷ c ∷ rest) out m size n e es hs h =
    let c0 = base64_at (sextet0 a) in
    let c1 = base64_at (sextet1 a b) in
    let c2 = base64_at (sextet2 b c) in
    let c3 = base64_at (sextet3 c) in
    ground (
      arith,
      put4_lem out m n c0 c1 c2 c3,
      encode_loop-fits rest (out ++ (c0 ∷ c1 ∷ c2 ∷ c3 ∷ [])) (drop 4 m) size (n + 4),
      over-quantum out m (encoding rest) c0 c1 c2 c3,
      length-drop 4 m,
      length-append out (c0 ∷ c1 ∷ c2 ∷ c3 ∷ []),
    )

-- -1, with a target of the same size.
abbrev pub Refused : ℕ → Option Result → Type 0
Refused size r =
    (t : List ℕ) × (length t ≡ size) × (r ≡ some (record { ret = negsuc 0; target = t }))

encode_end-Refused :
    (t : List ℕ) (size n : ℕ) → size ≡ length t → size ≤ n → Refused size (encode_end size t n)
unfolding encode_end
encode_end-Refused t size n e h = (t, omega arith, ground arith)

encode_tail-Refused :
    (out m : List ℕ) (size n c0 c1 c2 c3 : ℕ)
    → n ≡ length out
    → size ≡ n + length m
    → size < 2 ^ 63
    → length m ≤ 4
    → Refused size (
        if ltb size (add_size n 4)
        then fail (out ++ m)
        else (put4 (out ++ m) n c0 c1 c2 c3 >>= λ t'. encode_end size t' (n + 4)))
encode_tail-Refused out m size n c0 c1 c2 c3 e es hs h = elim (dec_lt (length m) 4) [
  | yes short ↦ (out ++ m, ground (arith, length-append out m), ground arith)
  | no exact ↦ (
    (out ++ (c0 ∷ c1 ∷ c2 ∷ c3 ∷ [])) ++ drop 4 m,
    ground (
      arith,
      length-drop 4 m,
      length-append out (c0 ∷ c1 ∷ c2 ∷ c3 ∷ []),
      length-append (out ++ (c0 ∷ c1 ∷ c2 ∷ c3 ∷ [])) (drop 4 m),
    ),
    unfold encode_end in ground (arith, put4_lem out m n c0 c1 c2 c3),
  )
]

encode_loop-Refused :
    (src out m : List ℕ) (size n : ℕ)
    → n ≡ length out
    → size ≡ n + length m
    → size < 2 ^ 63
    → length m ≤ length (encoding src)
    → Refused size (encode_loop src size (out ++ m) n)
unfolding encode_loop encoding
encode_loop-Refused [] out m size n e es hs h =
    encode_end-Refused (out ++ m) size n (omega (arith, length-append out m)) (omega arith)
encode_loop-Refused (a ∷ []) out m size n e es hs h =
    encode_tail-Refused out m size n _ _ pad64 pad64 e es hs h
encode_loop-Refused (a ∷ b ∷ []) out m size n e es hs h =
    encode_tail-Refused out m size n _ _ _ pad64 e es hs h
encode_loop-Refused (a ∷ b ∷ c ∷ rest) out m size n e es hs h = elim (dec_lt (length m) 4) [
  | yes short ↦ (out ++ m, ground (arith, length-append out m), ground arith)
  | no more ↦
      let c0 = base64_at (sextet0 a) in
      let c1 = base64_at (sextet1 a b) in
      let c2 = base64_at (sextet2 b c) in
      let c3 = base64_at (sextet3 c) in
      let (t, len, eq) =
        encode_loop-Refused rest (out ++ (c0 ∷ c1 ∷ c2 ∷ c3 ∷ [])) (drop 4 m) size (n + 4)
          (omega (arith, length-append out (c0 ∷ c1 ∷ c2 ∷ c3 ∷ [])))
          (omega (arith, length-drop 4 m)) hs (omega (arith, length-drop 4 m)) in
      (t, len, ground (arith, put4_lem out m n c0 c1 c2 c3, eq))
]

-- With a target of `targsize` bytes that has room for the text and its NUL (`B64_ENCODE_LEN`),
-- `b64_encode` returns the length of the text, writes the text and a NUL, and leaves the bytes
-- behind them.
pub b64_encode-fits :
    (src dest : List ℕ)
    → length dest < 2 ^ 63
    → length src < 2 ^ 30
    → b64_encode_len (length src) ≤ length dest
    → b64_encode src dest (length dest)
      ≡ some (record {
        ret = pos (length (encoding src));
        target = encoding src ++ (0 ∷ drop (suc (length (encoding src))) dest);
      })
unfolding b64_encode b64_encode_len
b64_encode-fits src dest hd hs h = ground (
  arith,
  length-encoding src,
  encode_loop-fits src [] dest (length dest) 0,
  to_int_small (length (encoding src)),
)

-- With less room, and room for one byte at least, it returns -1 and keeps inside the target.
pub b64_encode-Refused :
    (src dest : List ℕ)
    → length dest < 2 ^ 63
    → 0 < length dest
    → length dest < b64_encode_len (length src)
    → Refused (length dest) (b64_encode src dest (length dest))
unfolding b64_encode b64_encode_len
b64_encode-Refused src dest hd h0 h =
    let (t, len, eq) =
      encode_loop-Refused src [] dest (length dest) 0 (omega arith) (omega arith) hd
        (omega (arith, length-encoding src)) in
    (t, len, ground (arith, eq))
