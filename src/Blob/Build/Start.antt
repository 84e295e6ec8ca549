-- ===== src/Blob/Build/Start.antt =====
-- The first attribute of a buffer.
use openwrt_libubox.Prelude.{
  ℕ, ◌%◌, ◌^◌, ◌≤◌, ◌<◌, ◌≡◌, ◌⊎◌, inl, inr, refl, arith, List, length, Option, none, some,
}
use openwrt_libubox.Blob.{blob_id, blob_raw_len, read_be32}
use openwrt_libubox.Blob.Header.{blob_init, blob_next}
use openwrt_libubox.Blob.Build.{BlobBuf, blob_buf_init}
use openwrt_libubox.Blob.Build.Put.{IsGrow, IsBuf, Refused, blob_add-Wrote}

-- What `blob_buf_init` leaves: a head without payload, inside the buffer.
pub record HasHead (id h : ℕ) (m : List ℕ) : Type 0 where
  pub header : read_be32 m 0 ≡ some h
  pub ident : blob_id h ≡ id
  pub raw : blob_raw_len h ≡ 4
  pub fits : blob_next 0 h ≤ length m
  pub small : h < 2 ^ 32
  pub words : length m % 4 ≡ 0

first_lens :
    (id : ℕ)
    → id < 128
    → (blob_id (blob_init id 4) ≡ id)
      × (blob_raw_len (blob_init id 4) ≡ 4)
      × (blob_next 0 (blob_init id 4) ≡ 4)
      × (blob_init id 4 < 2 ^ 32)
unfolding blob_init
first_lens id l = (omega arith, omega arith, omega arith, omega arith)

module _ (grow : ℕ → List ℕ → Option (List ℕ)) (g : IsGrow grow) where
  -- `blob_buf_init` with an id below 128, on a buffer of whole words, an empty one included, with a
  -- function that grows buffers. Either the result is -ENOMEM and the buffer lacks room that it cannot
  -- get, or the head is an attribute of that id without payload, inside a buffer of whole words.
  pub blob_buf_init-HasHead :
      (b : BlobBuf) (id : ℕ)
      → length b.buf % 4 ≡ 0
      → length b.buf < 2 ^ 24
      → id < 128
      → ((blob_buf_init grow id b ≡ some (none, record b { head = 0 }))
          × Refused grow g (record b { head = 0 }) 0 0)
        ⊎ ((h : ℕ) × (m : List ℕ) × (blob_buf_init grow id b
              ≡ some (some 0, record { head = 0; buf = m }))
            × HasHead id h m)
  unfolding blob_buf_init
  blob_buf_init-HasHead b id words small l =
      let b0 : BlobBuf = record b { head = 0 } in
      let w : IsBuf b0 = record { words = words; small = small; aligned = refl } in
      let (ident, raw, next, fits) = first_lens id l in
      elim (blob_add-Wrote grow g b0 0 id 0 w (omega arith) refl (omega arith)) [
        | inl (e, refused) ↦ inl (e, refused)
        | inr (m, e, wrote) ↦ inr (
          blob_init id 4,
          m,
          e,
          record {
            header = wrote.header;
            ident = ident;
            raw = raw;
            fits = omega (arith, next, wrote.inside);
            small = fits;
            words = wrote.whole;
          },
        )
      ]
