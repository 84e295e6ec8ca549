-- ===== src/Blob/Build/Tests.antt =====
-- Attributes in a small buffer, and the theorem at one.
use openwrt_libubox.Prelude.{
  ℕ, ◌≡◌, ◌⊎◌, refl, arith, List, [], ◌∷◌, Option, none, some, true, store,
}
use openwrt_libubox.Blob.{read_be32}
use openwrt_libubox.Blob.Header.{blob_init, blob_set_raw_len}
use openwrt_libubox.Blob.Trusted.{read_bytes, zero_bytes, blob_fill_pad}
use openwrt_libubox.Blob.Build.{
  BlobBuf, write_be32, write_bytes, set_raw_len_at, blob_buffer_grow, add_at, blob_add, blob_new,
  blob_put, blob_buf_init,
}
use openwrt_libubox.Blob.Build.Put.{IsBuf, Refused}
use openwrt_libubox.Blob.Build.ReadBack.{HasPut, blob_put-HasPut}
use openwrt_libubox.Blob.Build.Start.{HasHead, blob_buf_init-HasHead}
use openwrt_libubox.Blob.Build.Growth.{blob_buffer_grow-IsGrow}

-- An empty head of id 1, and room for 8 more bytes.
abbrev small : BlobBuf
small = record { head = 0; buf = 1 ∷ 0 ∷ 0 ∷ 4 ∷ 9 ∷ 9 ∷ 9 ∷ 9 ∷ 9 ∷ 9 ∷ 9 ∷ 9 ∷ [] }

-- `realloc` that always has memory.
abbrev grow : ℕ → List ℕ → Option (List ℕ)
grow = blob_buffer_grow (λ n. true)

three_bytes :
    blob_put grow 2 (some (65 ∷ 66 ∷ 67 ∷ [])) 3 small
    ≡ some
        (some 4, record { head = 0; buf = 1 ∷ 0 ∷ 0 ∷ 12 ∷ 2 ∷ 0 ∷ 0 ∷ 7 ∷ 65 ∷ 66 ∷ 67 ∷ 0 ∷ [] })
unfolding blob_put blob_new blob_add add_at blob_fill_pad zero_bytes write_be32 write_bytes
    set_raw_len_at read_be32 read_bytes store blob_init blob_set_raw_len
three_bytes = refl

small-IsBuf : IsBuf small
small-IsBuf = record { words = refl; small = omega arith; aligned = refl }

blob_put-HasPut_example :
    ((blob_put grow 2 (some (65 ∷ 66 ∷ 67 ∷ [])) 3 small ≡ some (none, small))
      × Refused grow (blob_buffer_grow-IsGrow (λ n. true)) small 4 3)
    ⊎ ((m : List ℕ) × (blob_put grow 2 (some (65 ∷ 66 ∷ 67 ∷ [])) 3 small
          ≡ some (some 4, record small { buf = m }))
        × HasPut small 16777220 2 (65 ∷ 66 ∷ 67 ∷ []) m)
unfolding read_be32
blob_put-HasPut_example =
    blob_put-HasPut grow (blob_buffer_grow-IsGrow (λ n. true)) small 16777220 2 (65 ∷ 66 ∷ 67 ∷ [])
      small-IsBuf refl (omega arith) (omega arith) (omega arith) (omega arith)

-- A buffer without bytes.
abbrev empty : BlobBuf
empty = record { head = 0; buf = [] }

blob_buf_init-HasHead_example :
    ((blob_buf_init grow 1 empty ≡ some (none, empty))
      × Refused grow (blob_buffer_grow-IsGrow (λ n. true)) empty 0 0)
    ⊎ ((h : ℕ) × (m : List ℕ) × (blob_buf_init grow 1 empty
          ≡ some (some 0, record { head = 0; buf = m }))
        × HasHead 1 h m)
blob_buf_init-HasHead_example =
    blob_buf_init-HasHead grow (blob_buffer_grow-IsGrow (λ n. true)) empty 1 refl (omega arith)
      (omega arith)
