-- ===== src/Base64/Tests.antt =====
-- base64.c at concrete inputs, and the theorems at inputs that meet their hypotheses.
use openwrt_libubox.Prelude.{
  ◌≡◌, refl, some, List, [], ◌∷◌, ◌++◌, store, ℕ, suc, length, ◌>>=◌, arith, drop,
}
use openwrt_libubox.Prelude.Int.{pos}
use openwrt_libubox.Base64.{codes, b64_encode}
use openwrt_libubox.Base64.Decode.{b64_decode}
use openwrt_libubox.Base64.Encoding.{
  encoding, b64_encode_len, Refused, b64_encode-fits, b64_encode-Refused,
}
use openwrt_libubox.Base64.RoundTrip.{b64_decode-b64_encode}
use openwrt_libubox.Base64.Bounds.{IsSound, b64_decode-IsSound}

encode_test :
    b64_encode (codes "fooba") (0 ∷ 0 ∷ 0 ∷ 0 ∷ 0 ∷ 0 ∷ 0 ∷ 0 ∷ 9 ∷ []) 9
    ≡ some (record { ret = pos 8; target = 90 ∷ 109 ∷ 57 ∷ 118 ∷ 89 ∷ 109 ∷ 69 ∷ 61 ∷ 0 ∷ [] })
unfolding b64_encode store
encode_test = refl

decode_test :
    b64_decode (codes " Zm9v YmE= ") (7 ∷ 7 ∷ 7 ∷ 7 ∷ 7 ∷ 7 ∷ 7 ∷ []) 7
    ≡ some (record { ret = pos 5; target = 102 ∷ 111 ∷ 111 ∷ 98 ∷ 97 ∷ 0 ∷ 7 ∷ [] })
unfolding b64_decode store
decode_test = refl

abbrev three : List ℕ
three = 102 ∷ 111 ∷ 255 ∷ []

abbrev nine : List ℕ
nine = 7 ∷ 7 ∷ 7 ∷ 7 ∷ 7 ∷ 7 ∷ 7 ∷ 7 ∷ 7 ∷ []

b64_encode-fits_example :
    b64_encode three nine 9
    ≡ some (record {
      ret = pos (length (encoding three));
      target = encoding three ++ (0 ∷ drop (suc (length (encoding three))) nine);
    })
b64_encode-fits_example =
    b64_encode-fits three nine (omega arith) (omega arith) (unfold b64_encode_len in omega arith)

b64_encode-Refused_example : Refused 3 (b64_encode three (1 ∷ 2 ∷ 3 ∷ []) 3)
b64_encode-Refused_example =
    b64_encode-Refused three (1 ∷ 2 ∷ 3 ∷ []) (omega arith) (omega arith)
      (unfold b64_encode_len in omega arith)

b64_decode-b64_encode_example :
    (b64_encode three nine 9 >>= λ r. b64_decode r.target (1 ∷ 2 ∷ 3 ∷ 4 ∷ 5 ∷ []) 5)
    ≡ some (record { ret = pos 3; target = 102 ∷ 111 ∷ 255 ∷ 0 ∷ 5 ∷ [] })
b64_decode-b64_encode_example =
    b64_decode-b64_encode three nine (1 ∷ 2 ∷ 3 ∷ 4 ∷ 5 ∷ []) (omega arith) (omega arith)
      (omega arith) (unfold b64_encode_len in omega arith) (omega arith) (omega arith) (omega arith)

b64_decode-IsSound_example : IsSound 2 (b64_decode (codes "Zm9v!") (1 ∷ 2 ∷ []) 2)
b64_decode-IsSound_example =
    b64_decode-IsSound (codes "Zm9v!") (1 ∷ 2 ∷ []) (omega arith) (omega arith)
