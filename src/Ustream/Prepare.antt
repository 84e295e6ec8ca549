-- ===== src/Ustream/Prepare.antt =====
-- Parts of `ustream_prepare_buf`: a new buffer, and a buffer whose data is moved.
use openwrt_libubox.Prelude.{
  ℕ, ◌+◌, ◌≤◌, ◌<◌, ◌≡◌, ◌⊎◌, inl, inr, refl, ap, ◌∙◌, arith, List, [], ◌∷◌, ◌++◌, length,
  length-append, Option, none, some, Bool, true, false, not, ◌||◌, All, append-All, Bool-cases,
  Option-cases,
}
use openwrt_libubox.Prelude.Int.{ℤ, pos, ltb_ℤ, ◌≤ℤ◌}
use openwrt_libubox.Ustream.Buffers.{
  Buf, BufList, slice, ustream_can_alloc, ustream_alloc_default, ustream_add_buf,
  ustream_should_move, to_last, with_last, prepare_new, tidied,
}
use openwrt_libubox.Ustream.Slices.{IsBuf, init-IsBuf, move_data-kept, fixup-kept}
use openwrt_libubox.Ustream.Invariant.{
  slices, chain, contents, Full, Empty, Chain, IsChain, SameLimits, slices-with_last,
}

-- What `malloc` gives has room for the bytes that were asked for.
abbrev pub IsMalloc : ℕ → (BufList → Option (List ℕ)) → Type 0
IsMalloc extra malloc =
    (l : BufList) (cells : List ℕ) → malloc l ≡ some cells → l.buffer_len + extra ≤ length cells

abbrev pub Started : Buf → Type 0
Started b = (b.data_at < b.tail_at) ⊎ ((b.data_at ≡ 0) × (b.tail_at ≡ 0))

-- Whether the buffer at `data_tail` has room.
abbrev pub HasRoom : List Buf → Type 0
HasRoom [] = ⊥
HasRoom (b ∷ bs) = b.tail_at < b.end_at

-- What is known of a list that was prepared, or was not.
pub record IsPrepared (extra : ℕ) (malloc : BufList → Option (List ℕ)) (l : BufList)
    (r : Bool × BufList) : Type 0 where
  pub buffers_in : IsChain extra r.1
  pub same_contents : contents r.1 ≡ contents l
  pub same_bytes : r.1.data_bytes ≡ l.data_bytes
  pub same_limits : SameLimits l r.1
  pub ready : r.0 ≡ true → HasRoom r.1.rest
  pub refused : r.0 ≡ false → (ustream_can_alloc r.1 ≡ false) ⊎ (malloc r.1 ≡ none)

-- `data_tail` is NULL, or the last buffer and one with data.
abbrev pub AtEnd : List Buf → Type 0
AtEnd rest = (length rest ≤ 1) × All (λ b. b.data_at < b.tail_at) rest

to_last_lem :
    (extra : ℕ) (filled rest : List Buf) (b : Buf)
    → Chain extra filled rest
    → AtEnd rest
    → Empty extra b
    → (let p = with_last filled rest b in
        let q = to_last p.0 p.1 in
        Chain extra q.0 q.1 × (q.0 ++ q.1 ≡ filled ++ rest ++ (b ∷ [])) × (q.1 ≡ b ∷ []))
to_last_lem extra filled [] b h at_end e = rw h ((tt, e.0, inr (e.1, e.2), tt), refl, refl)
to_last_lem extra filled (c ∷ []) b h at_end e = (
  (append-All (Full extra) filled (c ∷ []) h.0 ((h.1, at_end.1.0), tt), e.0, inr (e.1, e.2), tt),
  refl,
  refl,
)
to_last_lem extra filled (c ∷ (d ∷ ds)) b h at_end e = absurd (omega (arith, at_end.0))

pub tidied_lem :
    (malloc : BufList → Option (List ℕ)) (fix : Bool) (extra : ℕ) (l : BufList) (b : Buf)
    (is_last : Bool) (len : ℕ)
    → (fix ≡ true → 1 ≤ extra)
    → IsBuf extra b
    → Started b
    → (b' : Buf) × (tidied malloc fix l b is_last len ≡ some b')
      × IsBuf extra b'
      × Started b'
      × (slice b' ≡ slice b)
unfolding tidied
tidied_lem malloc fix extra l b is_last len marks w s =
    elim (Bool-cases (ustream_should_move l b is_last len)) [
      | inl moves ↦
          let (b1, moved, w1, same1, at_0, till, size) = move_data-kept extra b w in
          let (b2, marked, w2, same2, data2, tail2, size2) = fixup-kept fix extra b1 w1 marks in
          (b2, rw (moves, moved) marked, w2, omega (arith, s), same2 ∙ same1)
      | inr stays ↦ (b, rw stays refl, w, s, refl)
    ]

module _ (malloc : BufList → Option (List ℕ)) (fix : Bool) (extra : ℕ)
    (good : IsMalloc extra malloc) where
  may_grow :
      (n : ℕ) (m : ℤ)
      → ltb_ℤ (pos 0) m ≡ true
      → (not (ltb_ℤ (pos 0) m) || ltb_ℤ (pos n) m) ≡ true
      → pos (n + 1) ≤ℤ m
  may_grow n m limited allowed = ground arith

  pub prepare_new_lem :
      (l : BufList)
      → IsChain extra l
      → AtEnd l.rest
      → (r : Bool × BufList) × (prepare_new malloc fix l ≡ some r) × IsPrepared extra malloc l r
  unfolding prepare_new ustream_alloc_default ustream_add_buf
  prepare_new_lem l w at_end = elim (Bool-cases (ustream_can_alloc l)) [
    | inr full ↦ ((false, l), rw full refl, unchanged (inl full))
    | inl allowed ↦ elim (Option-cases (malloc l)) [
      | inl out ↦ ((false, l), rw (allowed, out) refl, unchanged (inr out))
      | inr (cells, given) ↦
          let fresh : Buf = record { cells = cells; data_at = 0; tail_at = 0; end_at = 0 } in
          let (b, made, wb, at_0, end_0, size) =
            init-IsBuf extra l.buffer_len fresh w.len (good l cells given) in
          let (shape, whole, last) =
            to_last_lem extra l.filled l.rest b w.shape at_end (wb, at_0, end_0) in
          let l1 : BufList = ustream_add_buf l b in
          let q = to_last l1.filled l1.rest in
          (
            (true, record l1 { filled = q.0; rest = q.1 }),
            rw (allowed, given, made) refl,
            record {
              buffers_in = record {
                shape = shape;
                number = omega (arith, w.number, ap length whole, length-append (chain l) (b ∷ []));
                limit = λ limited. may_grow l.buffers l.max_buffers limited allowed;
                len = w.len;
              };
              same_contents =
                  ap slices whole ∙ slices-with_last extra (chain l) b (wb, at_0, end_0);
              same_bytes = refl;
              same_limits = record { mins = refl; maxs = refl; lens = refl };
              ready = λ _. rw last (omega (arith, end_0, size, w.len));
              refused = λ e. cc (e);
            },
          )
    ]
  ]
    where
      unchanged :
          (ustream_can_alloc l ≡ false) ⊎ (malloc l ≡ none) → IsPrepared extra malloc l (false, l)
      unchanged why = record {
        buffers_in = w;
        same_contents = refl;
        same_bytes = refl;
        same_limits = record { mins = refl; maxs = refl; lens = refl };
        ready = λ e. cc (e);
        refused = λ _. why;
      }
