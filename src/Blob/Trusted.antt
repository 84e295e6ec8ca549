-- ===== src/Blob/Trusted.antt =====
-- blob.c, blob.h: attributes that are trusted to be whole: parsed, compared, copied, padded, read.
use openwrt_libubox.Prelude.{
  ℕ, zero, suc, ◌+◌, ◌-◌, ◌^◌, List, [], ◌∷◌, Option, none, some, Bool, true, false, ◌&&◌, ◌==◌,
  leb, ltb, if◌then◌else◌, ◌>>=◌, get_elem?, replicate, store, ◌≡◌, refl,
}
use openwrt_libubox.Prelude.Int.{ℤ, pos, negsuc}
use openwrt_libubox.Blob.{
  blob_len, blob_raw_len, blob_pad_len, read_be32, BlobAttrInfo, Found, blob_parse_attr,
}
use openwrt_libubox.Blob.Header.{blob_get_u8, blob_get_u16, blob_get_u32, blob_get_u64}

module _ (mem : List ℕ) (info : Option (List BlobAttrInfo)) (max : ℕ) where
  -- The loop `blob_for_each_attr` with its body.
  unfoldable pub trusted_loop : ℕ → ℕ → ℕ → ℕ → List (Option ℕ) → Option Found
  unfolding blob_parse_attr read_be32
  trusted_loop zero attr rem found table = none
  trusted_loop (suc fuel) attr rem found table =
      if leb 4 rem
      then (read_be32 mem attr >>= λ w.
          if leb (blob_pad_len w) rem && leb 4 (blob_pad_len w)
          then (blob_parse_attr mem info max attr rem table >>= λ r.
              trusted_loop fuel (attr + blob_pad_len w) (rem - blob_pad_len w) (found + r.0) r.1)
          else some (found, table))
      else some (found, table)

  -- `blob_parse(attr, data, info, max)`
  unfoldable pub blob_parse : ℕ → Option ℕ → Option Found
  unfolding trusted_loop read_be32
  blob_parse fuel none = trusted_loop fuel 0 0 0 (replicate max none)
  blob_parse fuel (some attr) =
      read_be32 mem attr >>= λ w. trusted_loop fuel (attr + 4) (blob_len w) 0 (replicate max none)

-- `!memcmp(p, q, n)`
unfoldable pub same_bytes : List ℕ → ℕ → ℕ → ℕ → Option Bool
same_bytes mem zero p q = some true
same_bytes mem (suc n) p q = get_elem? mem p >>= λ a.
    get_elem? mem q >>= λ b. same_bytes mem n (p + 1) (q + 1) >>= λ rest. some (a == b && rest)

unfoldable pub blob_attr_equal : List ℕ → Option ℕ → Option ℕ → Option Bool
unfolding same_bytes read_be32
blob_attr_equal mem none none = some true
blob_attr_equal mem none (some q) = some false
blob_attr_equal mem (some p) none = some false
blob_attr_equal mem (some p) (some q) = read_be32 mem p >>= λ v. read_be32 mem q >>= λ w.
    if blob_pad_len v == blob_pad_len w then same_bytes mem (blob_pad_len v) p q else some false

-- `memcpy` of n bytes from p.
unfoldable pub read_bytes : List ℕ → ℕ → ℕ → Option (List ℕ)
read_bytes mem zero p = some []
read_bytes mem (suc n) p =
    get_elem? mem p >>= λ a. read_bytes mem n (p + 1) >>= λ rest. some (a ∷ rest)

-- The copy, or NULL where `malloc` gives none.
unfoldable pub blob_memdup : (ℕ → Bool) → List ℕ → ℕ → Option (Option (List ℕ))
unfolding read_bytes read_be32
blob_memdup malloc mem attr = read_be32 mem attr >>= λ w.
    if malloc (blob_pad_len w)
    then (read_bytes mem (blob_pad_len w) attr >>= λ copy. some (some copy))
    else some none

-- `memset(p, 0, n)`
unfoldable pub zero_bytes : ℕ → ℕ → List ℕ → Option (List ℕ)
zero_bytes zero p mem = some mem
zero_bytes (suc n) p mem = store mem p 0 >>= λ mem'. zero_bytes n (p + 1) mem'

unfoldable pub blob_fill_pad : ℕ → List ℕ → Option (List ℕ)
unfolding zero_bytes read_be32
blob_fill_pad attr mem = read_be32 mem attr >>= λ w.
    zero_bytes (blob_pad_len w - blob_raw_len w) (attr + blob_raw_len w) mem

-- A number of some bits read as a signed one.
abbrev pub signed : ℕ → ℕ → ℤ
signed bits n = if ltb n (2 ^ (bits - 1)) then pos n else negsuc (2 ^ bits - n - 1)

unfoldable pub blob_get_int8 : List ℕ → ℕ → Option ℤ
unfolding blob_get_u8
blob_get_int8 mem attr = blob_get_u8 mem attr >>= λ n. some (signed 8 n)

unfoldable pub blob_get_int16 : List ℕ → ℕ → Option ℤ
unfolding blob_get_u16
blob_get_int16 mem attr = blob_get_u16 mem attr >>= λ n. some (signed 16 n)

unfoldable pub blob_get_int32 : List ℕ → ℕ → Option ℤ
unfolding blob_get_u32
blob_get_int32 mem attr = blob_get_u32 mem attr >>= λ n. some (signed 32 n)

unfoldable pub blob_get_int64 : List ℕ → ℕ → Option ℤ
unfolding blob_get_u64
blob_get_int64 mem attr = blob_get_u64 mem attr >>= λ n. some (signed 64 n)

-- Runs: a string of one byte in an attribute of 5 bytes, and the number -2.
abbrev buffer : List ℕ
buffer = 1 ∷ 0 ∷ 0 ∷ 5 ∷ 97 ∷ 9 ∷ 9 ∷ 9 ∷ 0 ∷ 0 ∷ 0 ∷ 8 ∷ 255 ∷ 255 ∷ 255 ∷ 254 ∷ []

pad_buffer :
    blob_fill_pad 0 buffer
    ≡ some (1 ∷ 0 ∷ 0 ∷ 5 ∷ 97 ∷ 0 ∷ 0 ∷ 0 ∷ 0 ∷ 0 ∷ 0 ∷ 8 ∷ 255 ∷ 255 ∷ 255 ∷ 254 ∷ [])
unfolding blob_fill_pad zero_bytes read_be32 store
pad_buffer = refl

read_buffer : blob_get_int32 buffer 8 ≡ some (negsuc 1)
unfolding blob_get_int32 blob_get_u32 read_be32
read_buffer = refl

compare_buffer : blob_attr_equal buffer (some 0) (some 8) ≡ some false
unfolding blob_attr_equal same_bytes read_be32
compare_buffer = refl
