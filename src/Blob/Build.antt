-- ===== src/Blob/Build.antt =====
-- blob.c: attributes built in a buffer that grows. Pointers into the buffer are offsets, which a
-- reallocation keeps; `buflen` is the length of the list. Sizes that are an int are not negative.
mod Stores
mod Put
mod ReadBack
mod Start
mod Growth
mod Tests
use openwrt_libubox.Prelude.{
  ℕ, zero, suc, ◌+◌, ◌-◌, ◌*◌, ◌/◌, ◌%◌, ◌^◌, List, [], ◌∷◌, ◌++◌, length, Option, none, some, Bool,
  true, false, ltb, if◌then◌else◌, ◌>>=◌, store, replicate,
}
use openwrt_libubox.Prelude.Int.{ℤ, pos, ltb_ℤ}
use openwrt_libubox.Blob.{blob_len, blob_pad_len, read_be32}
use openwrt_libubox.Blob.Header.{blob_init, blob_set_raw_len, blob_next, blob_data}
use openwrt_libubox.Blob.Trusted.{read_bytes, blob_fill_pad, signed}

-- `struct blob_buf` but for `grow`.
pub record BlobBuf : Type 0 where
  pub head : ℕ
  pub buf : List ℕ

-- `attr->id_len = cpu_to_be32(w)`
unfoldable pub write_be32 : ℕ → ℕ → List ℕ → Option (List ℕ)
write_be32 p w mem = store mem p (w / 2 ^ 24 % 256) >>= λ a.
    store a (p + 1) (w / 2 ^ 16 % 256) >>= λ b.
    store b (p + 2) (w / 2 ^ 8 % 256) >>= λ c. store c (p + 3) (w % 256)

-- `blob_set_raw_len` of the attribute at an offset.
unfoldable pub set_raw_len_at : ℕ → ℕ → List ℕ → Option (List ℕ)
set_raw_len_at p len mem = read_be32 mem p >>= λ w. write_be32 p (blob_set_raw_len w len) mem

-- `memcpy` to an offset.
unfoldable pub write_bytes : List ℕ → ℕ → List ℕ → Option (List ℕ)
write_bytes [] p mem = some mem
write_bytes (x ∷ xs) p mem = store mem p x >>= λ mem'. write_bytes xs (p + 1) mem'

-- `blob_buffer_grow`, with whether `realloc` gives so many bytes.
abbrev pub delta_for : ℕ → ℕ
delta_for minlen = (minlen / 256 + 1) * 256

unfoldable pub blob_buffer_grow : (ℕ → Bool) → ℕ → List ℕ → Option (List ℕ)
blob_buffer_grow realloc minlen mem =
    if realloc (length mem + delta_for minlen)
    then some (mem ++ replicate (delta_for minlen) 0)
    else none

-- What `blob_add` lacks, an int, of a size_t.
abbrev pub required_for : ℕ → ℕ → ℕ → ℤ
required_for place payload buflen = signed 32 ((place + 4 + payload + (2 ^ 64 - buflen)) % 2 ^ 32)

-- The number of bytes to grow by.
abbrev pub amount : ℤ → ℕ
amount (pos n) = n
amount _ = 0

-- `grow` is that of the buffer: the memory that it leaves, or none for false.
module _ (grow : ℕ → List ℕ → Option (List ℕ)) where
  unfoldable pub blob_buf_grow : ℕ → BlobBuf → Option BlobBuf
  blob_buf_grow required b =
      if ltb (2 ^ 24 - 1) (length b.buf + required)
      then none
      else (grow required b.buf >>= λ mem. some (record b { buf = mem }))

-- The attribute that `blob_add` writes, where there is room.
unfoldable pub add_at : ℕ → ℕ → ℕ → BlobBuf → Option (Option ℕ × BlobBuf)
add_at place id payload b = write_be32 place (blob_init id (payload + 4)) b.buf >>= λ mem.
    blob_fill_pad place mem >>= λ mem'. some (some place, record b { buf = mem' })

-- Where `blob_buf_grow` gives no room, the result is NULL.
abbrev pub add_grown : ℕ → ℕ → ℕ → BlobBuf → Option BlobBuf → Option (Option ℕ × BlobBuf)
add_grown place id payload b none = some (none, b)
add_grown place id payload b (some b') = add_at place id payload b'

-- The end of `blob_new`: the length of the head.
abbrev pub count_in_head : Option ℕ × BlobBuf → Option (Option ℕ × BlobBuf)
count_in_head (none, b) = some (none, b)
count_in_head (some attr, b) = read_be32 b.buf b.head >>= λ h. read_be32 b.buf attr >>= λ w.
    set_raw_len_at b.head (blob_pad_len h + blob_pad_len w) b.buf >>= λ mem.
    some (some attr, record b { buf = mem })

-- The end of `blob_put`: the payload.
abbrev pub fill : Option (List ℕ) → ℕ → Option ℕ × BlobBuf → Option (Option ℕ × BlobBuf)
fill ptr len (none, b) = some (none, b)
fill none len (some attr, b) = some (some attr, b)
fill (some bytes) len (some attr, b) = read_bytes bytes len 0 >>= λ copy.
    write_bytes copy (blob_data attr) b.buf >>= λ mem. some (some attr, record b { buf = mem })

module _ (grow : ℕ → List ℕ → Option (List ℕ)) where
  unfoldable pub blob_add : ℕ → ℕ → ℕ → BlobBuf → Option (Option ℕ × BlobBuf)
  blob_add place id payload b =
      let required = required_for place payload (length b.buf) in
      if ltb_ℤ (pos 0) required
      then add_grown place id payload b (blob_buf_grow grow (amount required) b)
      else add_at place id payload b

  -- `blob_buf_init`, with 0 or -ENOMEM as whether there is an attribute.
  unfoldable pub blob_buf_init : ℕ → BlobBuf → Option (Option ℕ × BlobBuf)
  blob_buf_init id b = blob_add 0 id 0 (record b { head = 0 })

  unfoldable pub blob_new : ℕ → ℕ → BlobBuf → Option (Option ℕ × BlobBuf)
  blob_new id payload b =
      read_be32 b.buf b.head >>= λ h. blob_add (blob_next b.head h) id payload b >>= count_in_head

  -- `blob_put(buf, id, ptr, len)`; the list is the bytes that can be read at `ptr`.
  unfoldable pub blob_put : ℕ → Option (List ℕ) → ℕ → BlobBuf → Option (Option ℕ × BlobBuf)
  blob_put id ptr len b = blob_new id len b >>= fill ptr len

  -- `blob_nest_start`, with the offset that it returns; none where the new attribute is NULL, as the
  -- head is then.
  abbrev pub nested : ℕ → Option ℕ × BlobBuf → Option (ℕ × BlobBuf)
  nested offset (none, b) = none
  nested offset (some attr, b) = some (offset, record b { head = attr })

  unfoldable pub blob_nest_start : ℕ → BlobBuf → Option (Option (ℕ × BlobBuf))
  blob_nest_start id b = blob_new id 0 b >>= λ r. some (nested b.head r)

unfoldable pub blob_nest_end : ℕ → BlobBuf → Option BlobBuf
blob_nest_end offset b = read_be32 b.buf offset >>= λ w. read_be32 b.buf b.head >>= λ h.
    set_raw_len_at offset (blob_pad_len w + blob_len h) b.buf >>= λ mem.
    some (record { head = offset; buf = mem })

-- NULL is a buffer without bytes, at whose start the head stands.
unfoldable pub blob_buf_free : BlobBuf → BlobBuf
blob_buf_free b = record { head = 0; buf = [] }
