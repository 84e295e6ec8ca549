-- ===== src/Blob/Header.antt =====
-- blob.c, blob.h: the header word of an attribute written, and the numbers of a payload read.
use openwrt_libubox.Prelude.{
  ℕ, ◌+◌, ◌-◌, ◌*◌, ◌/◌, ◌%◌, ◌^◌, ◌<◌, ◌≤◌, ◌≡◌, List, Option, some, Bool, ◌==◌, ◌>>=◌, get_elem?,
  arith,
}
use openwrt_libubox.Blob.{blob_id, blob_len, blob_raw_len, blob_pad_len, read_be32}

-- The header that `blob_init(attr, id, len)` stores; the masked parts share no bit, so `|` is a sum.
unfoldable pub blob_init : ℕ → ℕ → ℕ
blob_init id len = id % 128 * 2 ^ 24 + len % 2 ^ 24

-- `blob_set_raw_len(attr, len)` on a header.
unfoldable pub blob_set_raw_len : ℕ → ℕ → ℕ
blob_set_raw_len w len = w / 2 ^ 24 * 2 ^ 24 + len % 2 ^ 24

abbrev pub blob_is_extended : ℕ → Bool
blob_is_extended w = w / 2 ^ 31 % 2 == 1

-- The payload's numbers, of an attribute at an offset.
unfoldable pub blob_get_u8 : List ℕ → ℕ → Option ℕ
blob_get_u8 mem attr = get_elem? mem (attr + 4)

unfoldable pub blob_get_u16 : List ℕ → ℕ → Option ℕ
blob_get_u16 mem attr =
    get_elem? mem (attr + 4) >>= λ a. get_elem? mem (attr + 5) >>= λ b. some (a * 2 ^ 8 + b)

unfoldable pub blob_get_u32 : List ℕ → ℕ → Option ℕ
unfolding read_be32
blob_get_u32 mem attr = read_be32 mem (attr + 4)

unfoldable pub blob_get_u64 : List ℕ → ℕ → Option ℕ
unfolding read_be32
blob_get_u64 mem attr =
    read_be32 mem (attr + 4) >>= λ a. read_be32 mem (attr + 8) >>= λ b. some (a * 2 ^ 32 + b)

-- The offsets of a payload and of a string's first byte.
abbrev pub blob_data : ℕ → ℕ
blob_data attr = attr + 4

abbrev pub blob_get_string : ℕ → ℕ
blob_get_string attr = blob_data attr

-- `blob_next(attr)`, by the header at `attr`.
abbrev pub blob_next : ℕ → ℕ → ℕ
blob_next attr w = attr + blob_pad_len w

-- A header written by `blob_init` for an id below 128, whose length `blob_set_raw_len` then replaces
-- by one of at least 4 and below 2 ^ 24 - 3: the id is read back, the lengths are those of the second
-- call, the word has 31 bits, the padded length is a multiple of 4, and the next attribute is at the
-- first such distance behind the attribute.
pub blob_set_raw_len-blob_init :
    (id old len attr : ℕ)
    → id < 128
    → 4 ≤ len
    → len < 2 ^ 24 - 3
    → (blob_id (blob_set_raw_len (blob_init id old) len) ≡ id)
      × (blob_raw_len (blob_set_raw_len (blob_init id old) len) ≡ len)
      × (blob_len (blob_set_raw_len (blob_init id old) len) + 4 ≡ len)
      × (blob_set_raw_len (blob_init id old) len < 2 ^ 31)
      × (blob_pad_len (blob_set_raw_len (blob_init id old) len) % 4 ≡ 0)
      × (attr + len ≤ blob_next attr (blob_set_raw_len (blob_init id old) len))
      × (blob_next attr (blob_set_raw_len (blob_init id old) len) < attr + len + 4)
unfolding blob_init blob_set_raw_len
blob_set_raw_len-blob_init id old len attr i l h =
    (omega arith, omega arith, omega arith, omega arith, omega arith, omega arith, omega arith)
