-- ===== src/Blob/Tests.antt =====
-- Buffers parsed, and the theorem at one of them.
use mathlib.Core.Path.{subst}
use openwrt_libubox.Prelude.{
  ℕ, List, [], ◌∷◌, none, some, ◌≡◌, ◌≤◌, ◌<◌, ◌+◌, ◌%◌, ◌^◌, All, refl, arith, length,
}
use openwrt_libubox.Blob.{
  blob_id, blob_raw_len, blob_len, blob_pad_len, BlobAttrInfo, Found, read_be32, blob_check_type,
  check_info, accepts, enter, blob_parse_attr, parse_loop, blob_parse_untrusted,
}
use openwrt_libubox.Blob.Header.{blob_init, blob_set_raw_len, blob_next, blob_set_raw_len-blob_init}
use openwrt_libubox.Blob.Parse.{entries, blob_parse_untrusted-counts}

-- An attribute of id 5 that holds the string "a" as id 1 and a 32-bit number as id 0.
abbrev buffer : List ℕ
buffer = 5 ∷ 0 ∷ 0 ∷ 20 ∷ 1 ∷ 0 ∷ 0 ∷ 6 ∷ 97 ∷ 0 ∷ 0 ∷ 0 ∷ 0 ∷ 0 ∷ 0 ∷ 8 ∷ 1 ∷ 2 ∷ 3 ∷ 4 ∷ []

abbrev policy : List BlobAttrInfo
policy =
    record { type = 6; minlen = 0; maxlen = 0; validate = none }
    ∷ record { type = 3; minlen = 0; maxlen = 100; validate = none }
    ∷ []

parse_buffer :
    blob_parse_untrusted buffer (some policy) 2 21 (some 0) 20 (none ∷ none ∷ [])
    ≡ some (2, some 12 ∷ some 4 ∷ [])
unfolding blob_parse_untrusted parse_loop blob_parse_attr accepts enter check_info blob_check_type
    read_be32
parse_buffer = refl

policy_described :
    (infos : List BlobAttrInfo)
    → some policy ≡ some infos
    → (2 ≤ length infos) × All (λ i. i.type < 2 ^ 31) infos
policy_described infos h =
    let same : policy ≡ infos = cc (h) in
    subst (λ l. (2 ≤ length l) × All (λ i. i.type < 2 ^ 31) l) same
      (omega arith, (omega arith, (omega arith, tt)))

blob_parse_untrusted-counts_example :
    (f : Found) × (blob_parse_untrusted buffer (some policy) 2 21 (some 0) 20 (none ∷ none ∷ [])
      ≡ some f)
    × (length f.1 ≡ 2)
    × (entries f.1 ≡ f.0)
blob_parse_untrusted-counts_example =
    blob_parse_untrusted-counts buffer (some policy) 2 policy_described 21 0 20 (none ∷ none ∷ [])
      (omega arith) (omega arith) refl refl

blob_set_raw_len-blob_init_example :
    (blob_id (blob_set_raw_len (blob_init 5 4) 10) ≡ 5)
    × (blob_raw_len (blob_set_raw_len (blob_init 5 4) 10) ≡ 10)
    × (blob_len (blob_set_raw_len (blob_init 5 4) 10) + 4 ≡ 10)
    × (blob_set_raw_len (blob_init 5 4) 10 < 2 ^ 31)
    × (blob_pad_len (blob_set_raw_len (blob_init 5 4) 10) % 4 ≡ 0)
    × (8 + 10 ≤ blob_next 8 (blob_set_raw_len (blob_init 5 4) 10))
    × (blob_next 8 (blob_set_raw_len (blob_init 5 4) 10) < 8 + 10 + 4)
blob_set_raw_len-blob_init_example =
    blob_set_raw_len-blob_init 5 4 10 8 (omega arith) (omega arith) (omega arith)
