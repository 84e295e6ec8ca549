-- ===== src/Blob/Build/Put.antt =====
-- `blob_put` and the functions it calls: where they write, and what is read back.
use mathlib.Core.Path.{subst}
use openwrt_libubox.Prelude.{
  ℕ, ◌+◌, ◌-◌, ◌*◌, ◌/◌, ◌%◌, ◌^◌, ◌≤◌, ◌<◌, ◌≡◌, ◌⊎◌, inl, inr, refl, sym, ap, ◌∙◌, arith, List,
  length, Option, none, some, true, false, ltb, ◌>>=◌, get_elem?, Bool-cases, dec_lt,
}
use openwrt_libubox.Prelude.Int.{pos, ltb_ℤ}
use openwrt_libubox.Blob.{blob_raw_len, blob_pad_len, read_be32}
use openwrt_libubox.Blob.Header.{blob_init}
use openwrt_libubox.Blob.Trusted.{blob_fill_pad}
use openwrt_libubox.Blob.Build.{BlobBuf, required_for, blob_buf_grow, add_at, add_grown, blob_add}
use openwrt_libubox.Blob.Build.Stores.{
  Kept, Kept-join, read_be32-same, write_be32-Kept, zero_bytes-Kept,
}

-- The bytes that an attribute takes, its padding included.
abbrev pub padded : ℕ → ℕ
padded payload = (payload + 7) / 4 * 4

-- A function that grows buffers: enough new bytes, whole words, the old bytes as they were.
pub record IsGrow (grow : ℕ → List ℕ → Option (List ℕ)) : Type 0 where
  pub enough : (n : ℕ) (mem mem' : List ℕ) → grow n mem ≡ some mem' → length mem + n ≤ length mem'
  pub whole :
      (n : ℕ) (mem mem' : List ℕ)
      → grow n mem ≡ some mem'
      → length mem % 4 ≡ 0
      → length mem' % 4 ≡ 0
  pub same :
      (n : ℕ) (mem mem' : List ℕ)
      → grow n mem ≡ some mem'
      → (i : ℕ) → i < length mem
      → get_elem? mem' i ≡ get_elem? mem i

pub header_lens :
    (id payload : ℕ)
    → payload < 2 ^ 24 - 8
    → (blob_raw_len (blob_init id (payload + 4)) ≡ payload + 4)
      × (blob_pad_len (blob_init id (payload + 4)) ≡ padded payload)
      × (blob_init id (payload + 4) < 2 ^ 32)
unfolding blob_init
header_lens id payload h = (omega arith, omega arith, omega arith)

add_at-Kept :
    (place id payload : ℕ) (b : BlobBuf)
    → payload < 2 ^ 24 - 8
    → place + padded payload ≤ length b.buf
    → (m : List ℕ) × (add_at place id payload b ≡ some (some place, record b { buf = m }))
      × Kept b.buf m place (padded payload)
      × (read_be32 m place ≡ some (blob_init id (payload + 4)))
unfolding add_at blob_fill_pad
add_at-Kept place id payload b h l =
    let w : ℕ = blob_init id (payload + 4) in
    let (raw, pad, small) = header_lens id payload h in
    let (m1, e1, k1, r1) = write_be32-Kept b.buf place w (omega arith) small in
    let (m2, e2, k2) =
      zero_bytes-Kept (blob_pad_len w - blob_raw_len w) (place + blob_raw_len w) m1
        (omega (arith, raw, pad, k1.size)) in
    (
      m2,
      rw (e1, r1, e2) refl,
      Kept-join b.buf m1 m2 place 4 (place + blob_raw_len w) (blob_pad_len w - blob_raw_len w) place
          (padded payload) k1 k2 (omega arith) (omega (arith, raw)) (omega arith)
          (omega (arith, raw, pad)),
      read_be32-same m1 m2 place (λ i g g'. k2.before i (omega (arith, raw))) ∙ r1,
    )

required_fits :
    (place payload n : ℕ)
    → n < 2 ^ 24
    → place + 4 + payload ≤ n
    → ltb_ℤ (pos 0) (required_for place payload n) ≡ false
required_fits place payload n h l = ground arith

required_lacks :
    (place payload n : ℕ)
    → place + 4 + payload < 2 ^ 31
    → n < place + 4 + payload
    → required_for place payload n ≡ pos (place + 4 + payload - n)
required_lacks place payload n h l = ground arith

-- A buffer of whole words that a length can count.
pub record IsBuf (b : BlobBuf) : Type 0 where
  pub words : length b.buf % 4 ≡ 0
  pub small : length b.buf < 2 ^ 24
  pub aligned : b.head % 4 ≡ 0

-- What an attribute written at `place` leaves of the buffer `b`, from the old memory or a grown one.
pub record Wrote (b : BlobBuf) (place id payload : ℕ) (m : List ℕ) : Type 0 where
  pub longer : length b.buf ≤ length m
  pub whole : length m % 4 ≡ 0
  pub inside : place + padded payload ≤ length m
  pub header : read_be32 m place ≡ some (blob_init id (payload + 4))
  pub same : (i : ℕ) → i < length b.buf → i < place → get_elem? m i ≡ get_elem? b.buf i

module _ (grow : ℕ → List ℕ → Option (List ℕ)) (g : IsGrow grow) where
  -- The buffer lacks room, and a length cannot count it or the function that grows it refuses.
  abbrev pub Refused : BlobBuf → ℕ → ℕ → Type 0
  Refused b place payload =
      (length b.buf < place + 4 + payload)
      × ((2 ^ 24 ≤ place + 4 + payload) ⊎ (grow (place + 4 + payload - length b.buf) b.buf ≡ none))

  -- NULL, with the buffer as it was, or the attribute.
  abbrev pub AddResult : BlobBuf → ℕ → ℕ → ℕ → Option (Option ℕ × BlobBuf) → Type 0
  AddResult b place id payload r =
      ((r ≡ some (none, b)) × Refused b place payload)
      ⊎ ((m : List ℕ) × (r ≡ some (some place, record b { buf = m })) × Wrote b place id payload m)

  add_at-Wrote :
      (b : BlobBuf) (place id payload : ℕ) (mem : List ℕ)
      → payload < 2 ^ 24 - 8
      → place % 4 ≡ 0
      → place + 4 + payload ≤ length mem
      → length mem % 4 ≡ 0
      → length b.buf ≤ length mem
      → ((i : ℕ) → i < length b.buf → get_elem? mem i ≡ get_elem? b.buf i)
      → AddResult b place id payload (add_at place id payload (record b { buf = mem }))
  add_at-Wrote b place id payload mem h al l words longer same =
      let (m, e, k, r) = add_at-Kept place id payload (record b { buf = mem }) h (omega arith) in
      inr (
        m,
        e,
        record {
          longer = omega (arith, k.size);
          whole = ap (λ n. n % 4) k.size ∙ words;
          inside = omega (arith, k.size);
          header = r;
          same = λ i il ip. k.before i ip ∙ same i il;
        },
      )

  grown :
      (b : BlobBuf) (place id payload n : ℕ) (r : Option (List ℕ))
      → grow n b.buf ≡ r
      → payload < 2 ^ 24 - 8
      → place % 4 ≡ 0
      → n ≡ place + 4 + payload - length b.buf
      → length b.buf < place + 4 + payload
      → length b.buf % 4 ≡ 0
      → AddResult b place id payload
          (add_grown place id payload b (r >>= λ mem. some (record b { buf = mem })))
  grown b place id payload n none e h al same_n l words =
      inl (refl, (l, inr (ap (λ k. grow k b.buf) (sym same_n) ∙ e)))
  grown b place id payload n (some mem) e h al same_n l words =
      add_at-Wrote b place id payload mem h al (omega (arith, g.enough n b.buf mem e))
        (g.whole n b.buf mem e words) (omega (arith, g.enough n b.buf mem e)) (g.same n b.buf mem e)

  -- Whether `blob_add` grows the buffer.
  blob_add-fits :
      (b : BlobBuf) (place id payload : ℕ)
      → ltb_ℤ (pos 0) (required_for place payload (length b.buf)) ≡ false
      → add_at place id payload b ≡ blob_add grow place id payload b
  unfolding blob_add
  blob_add-fits b place id payload h = rw h refl

  too_long :
      (b : BlobBuf) (place payload : ℕ)
      → ltb (2 ^ 24 - 1) (length b.buf + (place + 4 + payload - length b.buf)) ≡ true
      → length b.buf < place + 4 + payload
      → 2 ^ 24 ≤ place + 4 + payload
  too_long b place payload e l = ground (arith, e)

  blob_add-lacks :
      (b : BlobBuf) (place id payload n : ℕ)
      → required_for place payload (length b.buf) ≡ pos n
      → ltb_ℤ (pos 0) (pos n) ≡ true
      → add_grown place id payload b (blob_buf_grow grow n b) ≡ blob_add grow place id payload b
  unfolding blob_add
  blob_add-lacks b place id payload n h l = rw (h, l) refl

  grow-refused :
      (b : BlobBuf) (n : ℕ)
      → ltb (2 ^ 24 - 1) (length b.buf + n) ≡ true
      → none ≡ blob_buf_grow grow n b
  unfolding blob_buf_grow
  grow-refused b n h = rw h refl

  grow-tried :
      (b : BlobBuf) (n : ℕ)
      → ltb (2 ^ 24 - 1) (length b.buf + n) ≡ false
      → (grow n b.buf >>= λ mem. some (record b { buf = mem })) ≡ blob_buf_grow grow n b
  unfolding blob_buf_grow
  grow-tried b n h = rw h refl

  pub blob_add-Wrote :
      (b : BlobBuf) (place id payload : ℕ)
      → IsBuf b
      → payload < 2 ^ 24 - 8
      → place % 4 ≡ 0
      → place < 2 ^ 25
      → AddResult b place id payload (blob_add grow place id payload b)
  blob_add-Wrote b place id payload w h al small =
      let n : ℕ = place + 4 + payload - length b.buf in
      let goal : Option (Option ℕ × BlobBuf) → Type 0 = AddResult b place id payload in
      elim (dec_lt (length b.buf) (place + 4 + payload)) [
        | no fits ↦
            subst goal
              (blob_add-fits b place id payload
                (required_fits place payload (length b.buf) w.small (omega arith)))
              (add_at-Wrote b place id payload b.buf h al (omega arith) w.words (omega arith)
                (λ i l. refl))
        | yes lacks ↦
            let more : 0 < n = omega arith in
            subst goal
              (blob_add-lacks b place id payload n
                (required_lacks place payload (length b.buf) (omega arith) lacks)
                (ground (arith, more)))
              (elim (Bool-cases (ltb (2 ^ 24 - 1) (length b.buf + n))) [
                | inl e ↦
                    subst (λ r. goal (add_grown place id payload b r)) (grow-refused b n e)
                      (inl (refl, (lacks, inl (too_long b place payload e lacks))))
                | inr e ↦
                    subst (λ r. goal (add_grown place id payload b r)) (grow-tried b n e)
                      (grown b place id payload n (grow n b.buf) refl h al refl lacks w.words)
              ])
      ]
