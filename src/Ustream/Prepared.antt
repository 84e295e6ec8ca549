-- ===== src/Ustream/Prepared.antt =====
-- `ustream_prepare_buf`: a place for more bytes, without a change to the bytes that are held.
use mathlib.Core.Path.{subst}
use mathlib.Core.List.{append_assoc}
use openwrt_libubox.Prelude.{
  ℕ, ◌≤◌, ◌<◌, ◌≡◌, inl, inr, refl, sym, ap, ◌∙◌, arith, List, [], ◌∷◌, ◌++◌, length, length-append,
  Option, some, Bool, true, false, ◌==◌, ==_iff, append-All, Bool-cases,
}
use openwrt_libubox.Ustream.Buffers.{Buf, BufList, slice, prepare_at, ustream_prepare_buf}
use openwrt_libubox.Ustream.Slices.{IsBuf}
use openwrt_libubox.Ustream.Invariant.{
  slices, chain, contents, Full, Chain, IsChain, SameLimits, slices-append,
}
use openwrt_libubox.Ustream.Prepare.{IsMalloc, IsPrepared, Started, tidied_lem, prepare_new_lem}

module _ (malloc : BufList → Option (List ℕ)) (fix : Bool) (extra : ℕ)
    (good : IsMalloc extra malloc) where
  has_data :
      (b : Buf) → Started b → IsBuf extra b → (b.tail_at == b.end_at) ≡ true → b.data_at < b.tail_at
  has_data b s w full = omega (arith, s, w.room, (==_iff b.tail_at b.end_at).0 full)

  has_room : (b : Buf) → IsBuf extra b → (b.tail_at == b.end_at) ≡ false → b.tail_at < b.end_at
  has_room b w room = ground (arith, w.stop)

  -- Another buffer in the place of the one at `data_tail`.
  pub in_place :
      (l : BufList) (b b' : Buf) (bs : List Buf)
      → l.rest ≡ b ∷ bs
      → IsChain extra l
      → IsBuf extra b'
      → Started b'
      → slice b' ≡ slice b
      → (let l' = record l { rest = b' ∷ bs } in IsChain extra l' × (contents l' ≡ contents l))
  in_place l b b' bs e w wb s same =
      let h = subst (Chain extra l.filled) e w.shape in
      (
        record {
          shape = (h.0, wb, s, h.3);
          number =
              w.number
              ∙ ap (λ r. length (l.filled ++ r)) e
              ∙ omega (arith, length-append l.filled (b ∷ bs), length-append l.filled (b' ∷ bs));
          limit = w.limit;
          len = w.len;
        },
        slices-append l.filled (b' ∷ bs)
            ∙ ap (λ xs. slices l.filled ++ (xs ++ slices bs)) same
            ∙ sym (slices-append l.filled (b ∷ bs))
            ∙ sym (ap (λ r. slices (l.filled ++ r)) e),
      )

  prepare_at_lem :
      (fix ≡ true → 1 ≤ extra)
      → (rest : List Buf) (l : BufList) (len : ℕ) → l.rest ≡ rest
      → IsChain extra l
      → (r : Bool × BufList) × (prepare_at malloc fix rest l len ≡ some r)
        × IsPrepared extra malloc l r
  prepare_at_lem marks [] l len e w =
      prepare_new_lem malloc fix extra good l w (rw e (omega arith, tt))
  prepare_at_lem marks (b ∷ []) l len e w =
      let h = subst (Chain extra l.filled) e w.shape in
      let (b', tidy, wb, s, same) = tidied_lem malloc fix extra l b true len marks h.1 h.2 in
      let (w', kept) = in_place l b b' [] e w wb s same in
      let l' : BufList = record l { rest = b' ∷ [] } in
      elim (Bool-cases (b'.tail_at == b'.end_at)) [
        | inl full ↦
            let (r, made, p) =
              prepare_new_lem malloc fix extra good l' w'
                (omega arith, (has_data b' s wb full, tt)) in
            (
              r,
              rw (tidy, full) made,
              record {
                buffers_in = p.buffers_in;
                same_contents = p.same_contents ∙ kept;
                same_bytes = p.same_bytes;
                same_limits = record {
                  mins = p.same_limits.mins;
                  maxs = p.same_limits.maxs;
                  lens = p.same_limits.lens;
                };
                ready = p.ready;
                refused = p.refused;
              },
            )
        | inr room ↦ (
          (true, l'),
          rw (tidy, room) refl,
          record {
            buffers_in = w';
            same_contents = kept;
            same_bytes = refl;
            same_limits = record { mins = refl; maxs = refl; lens = refl };
            ready = λ _. has_room b' wb room;
            refused = λ e. cc (e);
          },
        )
      ]
  prepare_at_lem marks (b ∷ (c ∷ cs)) l len e w =
      let h = subst (Chain extra l.filled) e w.shape in
      let (b', tidy, wb, s, same) = tidied_lem malloc fix extra l b false len marks h.1 h.2 in
      let (w', kept) = in_place l b b' (c ∷ cs) e w wb s same in
      let l' : BufList = record l { rest = b' ∷ (c ∷ cs) } in
      let limits : SameLimits l l' = record { mins = refl; maxs = refl; lens = refl } in
      elim (Bool-cases (b'.tail_at == b'.end_at)) [
        | inl full ↦
            let l2 : BufList = record l { filled = l.filled ++ (b' ∷ []); rest = c ∷ cs } in
            let whole : chain l2 ≡ chain l' = append_assoc l.filled (b' ∷ []) (c ∷ cs) in
            (
              (true, l2),
              rw (tidy, full) refl,
              record {
                buffers_in = record {
                  shape = (
                    append-All (Full extra) l.filled (b' ∷ []) h.0
                        ((wb, has_data b' s wb full), tt),
                    h.3.0.0,
                    inr (h.3.0.1, h.3.0.2),
                    h.3.1,
                  );
                  number = w'.number ∙ sym (ap length whole);
                  limit = w.limit;
                  len = w.len;
                };
                same_contents = ap slices whole ∙ kept;
                same_bytes = refl;
                same_limits = record { mins = refl; maxs = refl; lens = refl };
                ready = λ _. omega (arith, h.3.0);
                refused = λ e. cc (e);
              },
            )
        | inr room ↦ (
          (true, l'),
          rw (tidy, room) refl,
          record {
            buffers_in = w';
            same_contents = kept;
            same_bytes = refl;
            same_limits = limits;
            ready = λ _. has_room b' wb room;
            refused = λ e. cc (e);
          },
        )
      ]

  pub ustream_prepare_buf_lem :
      (fix ≡ true → 1 ≤ extra)
      → (l : BufList) (len : ℕ) → IsChain extra l
      → (r : Bool × BufList) × (ustream_prepare_buf malloc fix l len ≡ some r)
        × IsPrepared extra malloc l r
  unfolding ustream_prepare_buf
  ustream_prepare_buf_lem marks l len w = prepare_at_lem marks l.rest l len refl w
