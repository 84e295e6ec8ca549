-- ===== src/Base64/RoundTrip.antt =====
-- `b64_decode` on what `b64_encode` writes.
use mathlib.Core.Path.{ap₂}
use mathlib.Core.List.{append_assoc}
use openwrt_libubox.Prelude.{
  ℕ, suc, ◌+◌, ◌*◌, ◌/◌, ◌%◌, ◌^◌, ◌≤◌, ◌<◌, ◌≡◌, refl, ap, ◌∙◌, List, [], ◌∷◌, ◌++◌, some, length,
  length-append, drop, store, store-behind, get_elem?-behind, ◌>>=◌, bit_or, arith, All,
}
use openwrt_libubox.Prelude.Int.{pos}
use openwrt_libubox.Prelude.Bytes.{or_low2, or_low4, or_low6, to_int, to_int_small}
use openwrt_libubox.Base64.{base64_at, pad64, sextet0, sextet1, sextet2, sextet3, b64_encode}
use openwrt_libubox.Base64.Decode.{
  phase0, phase1, phase2, phase3, decode_end, decode_slop, decode_pad, decode_nul, decode_loop,
  b64_decode,
}
use openwrt_libubox.Base64.Encoding.{encoding, b64_encode_len, b64_encode-fits}
use openwrt_libubox.Base64.Steps.{decode_round, step0, step1, step2, step3, step1_end, step2_end}

abbrev pub IsByte : ℕ → Type 0
IsByte b = b < 256

-- `text` read as sextets gives the bytes back: the three disjoint unions of bits.
byte0 : (a b : ℕ) → a < 256 → b < 256 → bit_or (sextet0 a * 4 % 256) (sextet1 a b / 16) ≡ a
byte0 a b ha hb =
    ap₂ bit_or {x = sextet0 a * 4 % 256} {y = a / 4 * 4} {u = sextet1 a b / 16} {v = a % 4}
      (omega arith) (omega arith)
    ∙ or_low2 a ha

byte1 : (a b c : ℕ) → b < 256 → c < 256 → bit_or (sextet1 a b % 16 * 16) (sextet2 b c / 4) ≡ b
byte1 a b c hb hc =
    ap₂ bit_or {x = sextet1 a b % 16 * 16} {y = b / 16 * 16} {u = sextet2 b c / 4} {v = b % 16}
      (omega arith) (omega arith)
    ∙ or_low4 b hb

byte2 : (b c : ℕ) → c < 256 → bit_or (sextet2 b c % 4 * 64) (sextet3 c) ≡ c
byte2 b c hc =
    ap (λ x. bit_or x (c % 64)) {x = sextet2 b c % 4 * 64} {y = c / 64 * 64} (omega arith)
    ∙ or_low6 c hc

quantum3 :
    (cs : List ℕ) (size n : ℕ) (out : List ℕ) (a b c x y z : ℕ) (m : List ℕ)
    → a < 256
    → b < 256
    → c < 256
    → n ≡ length out
    → n + 2 < size
    → decode_loop
        (base64_at (sextet0 a)
          ∷ base64_at (sextet1 a b)
          ∷ base64_at (sextet2 b c)
          ∷ base64_at (sextet3 c)
          ∷ cs)
        size
        phase0
        n
        (out ++ (x ∷ y ∷ z ∷ m))
      ≡ decode_loop cs size phase0 (n + 3) (out ++ (a ∷ b ∷ c ∷ m))
quantum3 cs size n out a b c x y z m ha hb hc e h =
    decode_round (sextet0 a) _ size phase0 n (out ++ (x ∷ y ∷ z ∷ m)) (omega arith)
      (step0 size (sextet0 a) n out x (y ∷ z ∷ m) e (omega arith))
    ∙ decode_round (sextet1 a b) _ size phase1 n _ (omega arith)
        (step1 size (sextet1 a b) n out _ y a (z ∷ m) e (omega arith) (byte0 a b ha hb))
    ∙ decode_round (sextet2 b c) _ size phase2 (n + 1) _ (omega arith)
        (step2 size (sextet2 b c) n out a _ z b m e h (byte1 a b c hb hc))
    ∙ decode_round (sextet3 c) cs size phase3 (n + 2) _ (omega arith)
        (step3 size (sextet3 c) n out a b _ c m e h (byte2 b c hc))

-- Behind the data a NUL stands where there is room for it.
abbrev pub ended : List ℕ → List ℕ
ended [] = []
ended (x ∷ m) = 0 ∷ m

decode_end-ended :
    (out m : List ℕ) (size n : ℕ)
    → n ≡ length out
    → size ≡ n + length m
    → decode_end size n (out ++ m) ≡ some (record { ret = to_int n; target = out ++ ended m })
unfolding decode_end store
decode_end-ended out [] size n e es = ground arith
decode_end-ended out (x ∷ m) size n e es = ground (arith, store-behind out (x ∷ m) n 0 0)

-- What the loop does with the pads, where the slopped bits are zero or there is no room for them.
slop-ended :
    (out m : List ℕ) (size n : ℕ)
    → n ≡ length out
    → size ≡ n + length m
    → m ≡ ended m
    → decode_slop size n (out ++ m) ≡ some (record { ret = to_int n; target = out ++ m })
unfolding decode_slop
slop-ended out [] size n e es z = ground (arith, decode_end-ended out [] size n)
slop-ended out (x ∷ m) size n e es z =
    ground (arith, decode_end-ended out (x ∷ m) size n, get_elem?-behind out (x ∷ m) n 0)

pads2 :
    (junk out m : List ℕ) (size n : ℕ)
    → decode_loop (pad64 ∷ pad64 ∷ 0 ∷ junk) size phase2 n (out ++ m)
      ≡ decode_slop size n (out ++ m)
unfolding decode_loop decode_pad
pads2 junk out m size n = refl

pads1 :
    (junk out m : List ℕ) (size n : ℕ)
    → decode_loop (pad64 ∷ 0 ∷ junk) size phase3 n (out ++ m) ≡ decode_slop size n (out ++ m)
unfolding decode_loop decode_pad
pads1 junk out m size n = refl

tail1 :
    (junk : List ℕ) (size n : ℕ) (out : List ℕ) (a x : ℕ) (m : List ℕ)
    → a < 256
    → n ≡ length out
    → size ≡ n + 1 + length m
    → decode_loop
        (base64_at (sextet0 a) ∷ base64_at (sextet1 a 0) ∷ pad64 ∷ pad64 ∷ 0 ∷ junk)
        size
        phase0
        n
        (out ++ (x ∷ m))
      ≡ decode_slop size (n + 1) (out ++ (a ∷ ended m))
tail1 junk size n out a x [] ha e es =
    decode_round (sextet0 a) _ size phase0 n (out ++ (x ∷ [])) (omega arith)
      (step0 size (sextet0 a) n out x [] e (omega arith))
    ∙ decode_round (sextet1 a 0) _ size phase1 n _ (omega arith) (
        step1_end size (sextet1 a 0) n out _ a e (omega arith) (omega arith)
          (byte0 a 0 ha (omega arith)))
    ∙ pads2 junk out (a ∷ []) size (n + 1)
tail1 junk size n out a x (y ∷ m) ha e es =
    decode_round (sextet0 a) _ size phase0 n (out ++ (x ∷ y ∷ m)) (omega arith)
      (step0 size (sextet0 a) n out x (y ∷ m) e (omega arith))
    ∙ decode_round (sextet1 a 0) _ size phase1 n _ (omega arith)
        (step1 size (sextet1 a 0) n out _ y a m e (omega arith) (byte0 a 0 ha (omega arith)))
    ∙ pads2 junk out (a ∷ (sextet1 a 0 % 16 * 16) ∷ m) size (n + 1)
    ∙ ap (λ k. decode_slop size (n + 1) (out ++ (a ∷ k ∷ m))) {x = sextet1 a 0 % 16 * 16} {y = 0}
        (omega arith)

tail2 :
    (junk : List ℕ) (size n : ℕ) (out : List ℕ) (a b x y : ℕ) (m : List ℕ)
    → a < 256
    → b < 256
    → n ≡ length out
    → size ≡ n + 2 + length m
    → decode_loop
        (base64_at (sextet0 a)
          ∷ base64_at (sextet1 a b)
          ∷ base64_at (sextet2 b 0)
          ∷ pad64
          ∷ 0
          ∷ junk)
        size
        phase0
        n
        (out ++ (x ∷ y ∷ m))
      ≡ decode_slop size (n + 2) (out ++ (a ∷ b ∷ ended m))
tail2 junk size n out a b x y [] ha hb e es =
    decode_round (sextet0 a) _ size phase0 n (out ++ (x ∷ y ∷ [])) (omega arith)
      (step0 size (sextet0 a) n out x (y ∷ []) e (omega arith))
    ∙ decode_round (sextet1 a b) _ size phase1 n _ (omega arith)
        (step1 size (sextet1 a b) n out _ y a [] e (omega arith) (byte0 a b ha hb))
    ∙ decode_round (sextet2 b 0) _ size phase2 (n + 1) _ (omega arith) (
        step2_end size (sextet2 b 0) n out a _ b e (omega arith) (omega arith)
          (byte1 a b 0 hb (omega arith)))
    ∙ pads1 junk out (a ∷ b ∷ []) size (n + 2)
tail2 junk size n out a b x y (z ∷ m) ha hb e es =
    decode_round (sextet0 a) _ size phase0 n (out ++ (x ∷ y ∷ z ∷ m)) (omega arith)
      (step0 size (sextet0 a) n out x (y ∷ z ∷ m) e (omega arith))
    ∙ decode_round (sextet1 a b) _ size phase1 n _ (omega arith)
        (step1 size (sextet1 a b) n out _ y a (z ∷ m) e (omega arith) (byte0 a b ha hb))
    ∙ decode_round (sextet2 b 0) _ size phase2 (n + 1) _ (omega arith)
        (step2 size (sextet2 b 0) n out a _ z b m e (omega arith) (byte1 a b 0 hb (omega arith)))
    ∙ pads1 junk out (a ∷ b ∷ (sextet2 b 0 % 4 * 64) ∷ m) size (n + 2)
    ∙ ap (λ k. decode_slop size (n + 2) (out ++ (a ∷ b ∷ k ∷ m))) {x = sextet2 b 0 % 4 * 64} {y = 0}
        (omega arith)

ended-ended : (m : List ℕ) → ended m ≡ ended (ended m)
ended-ended [] = refl
ended-ended (x ∷ m) = refl

length-ended : (m : List ℕ) → length (ended m) ≡ length m
length-ended [] = refl
length-ended (x ∷ m) = refl

-- The slop check passes behind any data, and the function returns.
decoded :
    (out data_bytes m : List ℕ) (size n : ℕ)
    → n ≡ length out + length data_bytes
    → size ≡ n + length m
    → decode_slop size n (out ++ (data_bytes ++ ended m))
      ≡ some (record { ret = to_int n; target = out ++ (data_bytes ++ ended m) })
decoded out data_bytes m size n e es = rw (← append_assoc) (
    slop-ended (out ++ data_bytes) (ended m) size n (omega (arith, length-append out data_bytes))
      (omega (arith, length-ended m)) (ended-ended m))

decode_loop-encoding :
    (src junk out m : List ℕ) (size n : ℕ)
    → All IsByte src
    → n ≡ length out
    → size ≡ n + length m
    → length src ≤ length m
    → decode_loop (encoding src ++ (0 ∷ junk)) size phase0 n (out ++ m)
      ≡ some (record {
        ret = to_int (n + length src);
        target = out ++ (src ++ ended (drop (length src) m));
      })
unfolding encoding
decode_loop-encoding [] junk out m size n hs e es h =
    unfold decode_loop decode_nul in ground (arith, decode_end-ended out m size n)
decode_loop-encoding (a ∷ []) junk out [] size n hs e es h = absurd (omega arith)
decode_loop-encoding (a ∷ []) junk out (x ∷ m) size n hs e es h =
    tail1 junk size n out a x m hs.0 e (omega arith)
    ∙ decoded out (a ∷ []) m size (n + 1) (omega arith) (omega arith)
decode_loop-encoding (a ∷ b ∷ []) junk out [] size n hs e es h = absurd (omega arith)
decode_loop-encoding (a ∷ b ∷ []) junk out (x ∷ []) size n hs e es h = absurd (omega arith)
decode_loop-encoding (a ∷ b ∷ []) junk out (x ∷ y ∷ m) size n hs e es h =
    tail2 junk size n out a b x y m hs.0 hs.1.0 e (omega arith)
    ∙ decoded out (a ∷ b ∷ []) m size (n + 2) (omega arith) (omega arith)
decode_loop-encoding (a ∷ b ∷ c ∷ rest) junk out [] size n hs e es h = absurd (omega arith)
decode_loop-encoding (a ∷ b ∷ c ∷ rest) junk out (x ∷ []) size n hs e es h = absurd (omega arith)
decode_loop-encoding (a ∷ b ∷ c ∷ rest) junk out (x ∷ y ∷ []) size n hs e es h =
    absurd (omega arith)
decode_loop-encoding (a ∷ b ∷ c ∷ rest) junk out (x ∷ y ∷ z ∷ m) size n hs e es h =
    let front = out ++ (a ∷ b ∷ c ∷ []) in
    ground (
      arith,
      quantum3 (encoding rest ++ (0 ∷ junk)) size n out a b c x y z m hs.0 hs.1.0 hs.1.1.0 e
          (omega arith),
      decode_loop-encoding rest junk front m size (n + 3) hs.1.1.1,
      append_assoc out (a ∷ b ∷ c ∷ []) m,
      append_assoc out (a ∷ b ∷ c ∷ []) (rest ++ ended (drop (length rest) m)),
      length-append out (a ∷ b ∷ c ∷ []),
    )

-- `b64_decode` on the text that `b64_encode` writes for `src`, with a NUL and any bytes behind it,
-- returns the length of `src` and stores `src`, if the target has room for it; a byte of the target
-- that is left behind it becomes a NUL, and the others stay.
pub b64_decode-encoding :
    (src junk dest : List ℕ)
    → All IsByte src
    → length dest < 2 ^ 31
    → 0 < length dest
    → length src ≤ length dest
    → b64_decode (encoding src ++ (0 ∷ junk)) dest (length dest)
      ≡ some (record { ret = pos (length src); target = src ++ ended (drop (length src) dest) })
unfolding b64_decode
b64_decode-encoding src junk dest hs hd h0 h =
    ground
      (arith, decode_loop-encoding src junk [] dest (length dest) 0 hs, to_int_small (length src))

-- Encoding into a target with room for the text, then decoding that target, gives the bytes back.
pub b64_decode-b64_encode :
    (src buf dest : List ℕ)
    → All IsByte src
    → length buf < 2 ^ 63
    → length src < 2 ^ 30
    → b64_encode_len (length src) ≤ length buf
    → length dest < 2 ^ 31
    → 0 < length dest
    → length src ≤ length dest
    → (b64_encode src buf (length buf) >>= λ r. b64_decode r.target dest (length dest))
      ≡ some (record { ret = pos (length src); target = src ++ ended (drop (length src) dest) })
b64_decode-b64_encode src buf dest hs hb hl room hd h0 h =
    rw (b64_encode-fits src buf hb hl room)
      (b64_decode-encoding src (drop (suc (length (encoding src))) buf) dest hs hd h0 h)
