-- ===== src/Ustream/Heads.antt =====
-- The first buffer of a list: data that is taken from it, and the buffer freed.
use mathlib.Core.Path.{subst}
use mathlib.Core.List.{append-nil}
use openwrt_libubox.Prelude.{
  ℕ, ◌+◌, ◌-◌, ◌<◌, ◌≡◌, inl, inr, refl, sym, ap, ◌∙◌, arith, List, [], ◌∷◌, ◌++◌, length,
  length-append, drop, some, leb, Bool-cases,
}
use openwrt_libubox.Ustream.Buffers.{
  Buf, BufList, slice, advance, advance_at, advance_head, ustream_add_buf, ustream_free_buf,
}
use openwrt_libubox.Ustream.Slices.{IsBuf, slice-advanced, init-IsBuf, length-slice}
use openwrt_libubox.Ustream.Invariant.{
  slices, chain, contents, Full, Chain, IsChain, SameLimits, slice-Empty, slices-Empty,
  Chain-with_last, Chain-without_head,
}

advance-IsBuf :
    (extra n : ℕ) (b : Buf) → IsBuf extra b → b.data_at + n < b.tail_at → Full extra (advance n b)
advance-IsBuf extra n b w h =
    (record { start = omega arith; stop = w.stop; room = w.room; cells_in = w.cells_in }, h)

Chain-advance :
    (extra n : ℕ) (filled rest : List Buf) (b : Buf) (more : List Buf)
    → filled ++ rest ≡ b ∷ more
    → Chain extra filled rest
    → b.data_at + n < b.tail_at
    → (let p = advance_at n filled rest in (p.0 ++ p.1 ≡ advance n b ∷ more) × Chain extra p.0 p.1)
Chain-advance extra n [] [] b more e h less = cc
Chain-advance extra n [] (c ∷ cs) b more e h less =
    let same : b ≡ c = cc (e) in
    let w = advance-IsBuf extra n c h.1 (subst (λ b. b.data_at + n < b.tail_at) same less) in
    let others : cs ≡ more = cc (e) in
    (
      ap (λ c. advance n c ∷ cs) (sym same) ∙ ap (λ l. advance n b ∷ l) others,
      (tt, w.0, inl w.1, h.3),
    )
Chain-advance extra n (c ∷ cs) [] b more e h less = cc
Chain-advance extra n (c ∷ cs) (d ∷ ds) b more e h less =
    let same : b ≡ c = cc (e) in
    let w = advance-IsBuf extra n c h.0.0.0 (subst (λ b. b.data_at + n < b.tail_at) same less) in
    let others : cs ++ (d ∷ ds) ≡ more = cc (e) in
    (
      ap (λ c. advance n c ∷ (cs ++ (d ∷ ds))) (sym same) ∙ ap (λ l. advance n b ∷ l) others,
      ((w, h.0.1), h.1, h.2, h.3),
    )

-- Some of the data of the first buffer is taken.
pub advance_head_lem :
    (extra n : ℕ) (l : BufList) (b : Buf) (more : List Buf)
    → chain l ≡ b ∷ more
    → IsChain extra l
    → n < length (slice b)
    → IsChain extra (advance_head n l)
      × (contents (advance_head n l) ≡ drop n (slice b) ++ slices more)
unfolding advance_head
advance_head_lem extra n l b more e w less =
    let (f, r, without, others, left, wb) =
      Chain-without_head extra l.filled l.rest b more e w.shape in
    let (whole, shape) =
      Chain-advance extra n l.filled l.rest b more e w.shape
        (omega (arith, length-slice extra b wb, wb.start)) in
    (
      record {
        shape = shape;
        number = w.number ∙ ap length e ∙ sym (ap length whole);
        limit = w.limit;
        len = w.len;
      },
      ap slices whole ∙ ap (λ xs. xs ++ slices more) (slice-advanced b n),
    )

-- The first buffer freed or, where there are too few, put behind the others without its data.
pub ustream_free_buf_lem :
    (extra : ℕ) (l : BufList) (b : Buf) (more : List Buf)
    → chain l ≡ b ∷ more
    → IsChain extra l
    → (l' : BufList) × (es : List Buf) × (ustream_free_buf l ≡ some l')
      × IsChain extra l'
      × (chain l' ≡ more ++ es)
      × (slices es ≡ [])
      × (l'.data_bytes ≡ l.data_bytes)
      × SameLimits l l'
unfolding ustream_free_buf ustream_add_buf
ustream_free_buf_lem extra l b more e w =
    let (f, r, without, others, left, wb) =
      Chain-without_head extra l.filled l.rest b more e w.shape in
    let fewer : l.buffers ≡ length more + 1 = w.number ∙ ap length e ∙ omega arith in
    let l' : BufList = record l { filled = f; rest = r; buffers = l.buffers - 1 } in
    let (b', made, wb', at_0, end_0, size) = init-IsBuf extra b.end_at b wb.room wb.cells_in in
    elim (Bool-cases (leb (l.min_buffers + 1) l.buffers)) [
      | inl many ↦ (
        l',
        [],
        rw (without, many) refl,
        record {
          shape = left;
          number = omega (arith, ap length others);
          limit = λ some_limit. omega (arith, w.limit some_limit);
          len = w.len;
        },
        others ∙ sym (append-nil more),
        refl,
        refl,
        record { mins = refl; maxs = refl; lens = refl },
      )
      | inr few ↦
          let (shape, whole) = Chain-with_last extra f r b' left (wb', at_0, end_0) in
          let behind = whole ∙ ap (λ l. l ++ (b' ∷ [])) others in
          (
            ustream_add_buf l' b',
            b' ∷ [],
            rw (without, few, made) refl,
            record {
              shape = shape;
              number = omega (arith, ap length behind, length-append more (b' ∷ []));
              limit = λ some_limit. omega (arith, w.limit some_limit);
              len = w.len;
            },
            behind,
            ap (λ l. l ++ []) (slice-Empty extra b' (wb', at_0, end_0)),
            refl,
            record { mins = refl; maxs = refl; lens = refl },
          )
    ]

-- Where there is data the first buffer has some.
pub head_has_data :
    (extra : ℕ) (filled rest : List Buf) (b : Buf) (more : List Buf)
    → filled ++ rest ≡ b ∷ more
    → Chain extra filled rest
    → 0 < length (slices (b ∷ more))
    → 0 < length (slice b)
head_has_data extra [] [] b more e h some_data = cc
head_has_data extra [] (c ∷ cs) b more e h some_data =
    let others : cs ≡ more = cc (e) in
    let nothing = ap slices (sym others) ∙ slices-Empty extra cs h.3 in
    omega (arith, some_data, length-append (slice b) (slices more), ap length nothing)
head_has_data extra (c ∷ cs) [] b more e h some_data = cc
head_has_data extra (c ∷ cs) (d ∷ ds) b more e h some_data =
    let same : c ≡ b = cc (e) in
    subst (λ x. 0 < length (slice x)) same (omega (arith, length-slice extra c h.0.0.0, h.0.0.1))
