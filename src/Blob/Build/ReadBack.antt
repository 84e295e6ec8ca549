-- ===== src/Blob/Build/ReadBack.antt =====
-- What is read of an attribute that `blob_put` wrote.
use openwrt_libubox.Prelude.{
  ℕ, ◌+◌, ◌-◌, ◌/◌, ◌%◌, ◌^◌, ◌≤◌, ◌<◌, ◌≡◌, ◌⊎◌, inl, inr, refl, sym, ap, ◌∙◌, arith, List, [],
  ◌∷◌, ◌++◌, length, length-append, Option, none, some, ◌>>=◌, get_elem?, get_elem?-behind,
}
use openwrt_libubox.SafeList.ForEach.{append-snoc}
use openwrt_libubox.Blob.{blob_raw_len, blob_pad_len, read_be32}
use openwrt_libubox.Blob.Header.{blob_init, blob_set_raw_len, blob_next, blob_data}
use openwrt_libubox.Blob.Trusted.{read_bytes}
use openwrt_libubox.Blob.Build.{
  BlobBuf, write_be32, set_raw_len_at, count_in_head, fill, blob_new, blob_put,
}
use openwrt_libubox.Blob.Build.Stores.{
  read_be32-same, read_bytes-same, write_be32-Kept, write_bytes-Kept,
}
use openwrt_libubox.Blob.Build.Put.{
  padded, IsGrow, IsBuf, Wrote, Refused, header_lens, blob_add-Wrote,
}

read_bytes-behind :
    (front xs : List ℕ) (p : ℕ)
    → p ≡ length front
    → read_bytes (front ++ xs) (length xs) p ≡ some xs
unfolding read_bytes
read_bytes-behind front [] p e = refl
read_bytes-behind front (x ∷ xs) p e =
    let first : get_elem? (front ++ (x ∷ xs)) p ≡ some x =
      get_elem?-behind front (x ∷ xs) p 0 (omega (arith, e)) in
    let rest : read_bytes (front ++ (x ∷ xs)) (length xs) (p + 1) ≡ some xs =
      ap (λ l. read_bytes l (length xs) (p + 1)) (sym (append-snoc front x xs))
      ∙ read_bytes-behind (front ++ (x ∷ [])) xs (p + 1)
          (omega (arith, length-append front (x ∷ []))) in
    rw (first, rest) refl

set_small : (h len : ℕ) → h < 2 ^ 32 → blob_set_raw_len h len < 2 ^ 32
unfolding blob_set_raw_len
set_small h len l = omega arith

-- The length is set in 24 bits, and nothing else.
counts :
    (h len : ℕ)
    → h < 2 ^ 32
    → (blob_raw_len (blob_set_raw_len h len) ≡ len % 2 ^ 24)
      × (blob_set_raw_len h len / 2 ^ 24 ≡ h / 2 ^ 24)
unfolding blob_set_raw_len
counts h len l = (omega arith, omega arith)

set_raw_len_run :
    (p len h h' : ℕ) (m m' : List ℕ)
    → read_be32 m p ≡ some h
    → blob_set_raw_len h len ≡ h'
    → write_be32 p h' m ≡ some m'
    → set_raw_len_at p len m ≡ some m'
unfolding set_raw_len_at
set_raw_len_run p len h h' m m' r e run = rw (r, e, run) refl

-- What `blob_put` leaves of the buffer `b`, whose head has the header h.
pub record HasPut (b : BlobBuf) (h id : ℕ) (data_in : List ℕ) (m : List ℕ) : Type 0 where
  pub header : read_be32 m (blob_next b.head h) ≡ some (blob_init id (length data_in + 4))
  pub payload : read_bytes m (length data_in) (blob_data (blob_next b.head h)) ≡ some data_in
  pub head_header : ℕ
  pub head_read : read_be32 m b.head ≡ some head_header
  pub counted : blob_raw_len head_header ≡ (blob_pad_len h + padded (length data_in)) % 2 ^ 24
  pub upper : head_header / 2 ^ 24 ≡ h / 2 ^ 24
  pub before : read_bytes m b.head 0 ≡ read_bytes b.buf b.head 0
  pub between :
      read_bytes m (blob_pad_len h - 4) (b.head + 4)
      ≡ read_bytes b.buf (blob_pad_len h - 4) (b.head + 4)
  pub inside : blob_next b.head h + padded (length data_in) ≤ length m
  pub words : length m % 4 ≡ 0

module _ (b : BlobBuf) (h id : ℕ) (xs m : List ℕ) (head_in : read_be32 b.buf b.head ≡ some h)
    (small : h < 2 ^ 32) (four : 4 ≤ blob_pad_len h) (fits : blob_next b.head h ≤ length b.buf)
    (len : length xs < 2 ^ 24 - 8) (w : Wrote b (blob_next b.head h) id (length xs) m) where
  filled :
      (m' : List ℕ) × ((count_in_head (some (blob_next b.head h), record b { buf = m })
          >>= fill (some xs) (length xs))
        ≡ some (some (blob_next b.head h), record b { buf = m' }))
      × HasPut b h id xs m'
  filled =
      let place : ℕ = blob_next b.head h in
      let (raw, pad, _) = header_lens id (length xs) len in
      let h' : ℕ = blob_set_raw_len h (blob_pad_len h + padded (length xs)) in
      let still : read_be32 m b.head ≡ some h =
        read_be32-same b.buf m b.head (λ i l l'. w.same i (omega arith) (omega arith)) ∙ head_in in
      let (m2, e2, k2, r2) =
        write_be32-Kept m b.head h' (omega (arith, w.inside))
          (set_small h (blob_pad_len h + padded (length xs)) small) in
      let (m3, e3, k3, r3) =
        write_bytes-Kept xs (place + 4) m2 (omega (arith, w.inside, k2.size)) in
      let w0 : ℕ = blob_init id (length xs + 4) in
      let set_head : set_raw_len_at b.head (blob_pad_len h + blob_pad_len w0) m ≡ some m2 =
        set_raw_len_run b.head (blob_pad_len h + blob_pad_len w0) h h' m m2 still
          (ap (λ n. blob_set_raw_len h (blob_pad_len h + n)) pad) e2 in
      let whole : read_bytes xs (length xs) 0 ≡ some xs = read_bytes-behind [] xs 0 refl in
      (
        m3,
        rw (still, w.header, set_head, whole, e3) refl,
        record {
          header =
              read_be32-same m m3 place
                (λ i l l'. k3.before i (omega arith) ∙ k2.after i (omega arith))
              ∙ w.header;
          payload = r3;
          head_header = h';
          head_read = read_be32-same m2 m3 b.head (λ i l l'. k3.before i (omega arith)) ∙ r2;
          counted = (counts h (blob_pad_len h + padded (length xs)) small).0;
          upper = (counts h (blob_pad_len h + padded (length xs)) small).1;
          before = read_bytes-same b.buf m3 b.head 0 (λ i l l'.
              k3.before i (omega arith)
              ∙ k2.before i (omega arith)
              ∙ w.same i (omega arith) (omega arith));
          between = read_bytes-same b.buf m3 (blob_pad_len h - 4) (b.head + 4) (λ i l l'.
              k3.before i (omega arith)
              ∙ k2.after i (omega arith)
              ∙ w.same i (omega arith) (omega arith));
          inside = omega (arith, w.inside, k2.size, k3.size);
          words = ap (λ n. n % 4) (k3.size ∙ k2.size) ∙ w.whole;
        },
      )

module _ (grow : ℕ → List ℕ → Option (List ℕ)) (g : IsGrow grow) where
  -- `blob_put` of all bytes of a list, into a buffer of whole words whose head is an attribute
  -- inside it, with a function that grows buffers, never writes out of the buffer. Either the
  -- result is NULL, the buffer is as it was and lacks room, and a length cannot count it or the
  -- function refuses to grow it; or the result is the attribute behind the head: its header is
  -- that of the id and the length, its payload is the list, the head's length, in its 24 bits, is
  -- what it was with padding and the new attribute with its padding, and wraps around where that
  -- does not fit; the rest of the head's header and all other bytes before the attribute are as
  -- before.
  pub blob_put-HasPut :
      (b : BlobBuf) (h id : ℕ) (xs : List ℕ)
      → IsBuf b
      → read_be32 b.buf b.head ≡ some h
      → h < 2 ^ 32
      → 4 ≤ blob_raw_len h
      → blob_next b.head h ≤ length b.buf
      → length xs < 2 ^ 24 - 8
      → ((blob_put grow id (some xs) (length xs) b ≡ some (none, b))
          × Refused grow g b (blob_next b.head h) (length xs))
        ⊎ ((m : List ℕ) × (blob_put grow id (some xs) (length xs) b
              ≡ some (some (blob_next b.head h), record b { buf = m }))
            × HasPut b h id xs m)
  unfolding blob_put blob_new
  blob_put-HasPut b h id xs w head_in small four fits len =
      let place : ℕ = blob_next b.head h in
      elim (blob_add-Wrote grow g b place id (length xs) w len (omega (arith, w.aligned))
        (omega (arith, w.small))) [
          | inl (e, refused) ↦ inl (rw (head_in, e) refl, refused)
          | inr (m, e, wrote) ↦
              let (m', run, put) = filled b h id xs m head_in small (omega arith) fits len wrote in
              inr (m', rw (head_in, e) run, put)
        ]
