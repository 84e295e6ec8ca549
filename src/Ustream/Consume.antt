-- ===== src/Ustream/Consume.antt =====
-- `ustream_consume` takes bytes off the front of what is held.
use openwrt_libubox.Prelude.{
  ℕ, zero, suc, ◌-◌, ◌≤◌, ◌<◌, ◌≡◌, ◌⊎◌, inl, inr, refl, sym, ap, ◌∙◌, arith, List, [], ◌∷◌, ◌++◌,
  length, length-append, length-drop, drop, none, some, false, ◌==◌, ==_iff, ltb, ltb→lt,
  Bool-cases,
}
use mathlib.Core.List.{append_assoc, append-nil}
use openwrt_libubox.Prelude.Segments.{drop_within, drop_past}
use openwrt_libubox.Ustream.Buffers.{Buf, BufList, slice, advance_head}
use openwrt_libubox.Ustream.Slices.{length-slice}
use openwrt_libubox.Ustream.Invariant.{
  slices, chain, contents, IsChain, SameLimits, slices-spare, then_limits, Chain-without_head,
}
use openwrt_libubox.Ustream.Heads.{advance_head_lem, ustream_free_buf_lem}
use openwrt_libubox.Ustream.Stream.{UStream, Callbacks}
use openwrt_libubox.Ustream.States.{IsStream, set_blocked_lem}
use openwrt_libubox.Ustream.Reader.{consume_from, ustream_consume}

consume_from_lem :
    (extra : ℕ) (bs es : List Buf) (l : BufList) (len : ℕ)
    → chain l ≡ bs ++ es
    → slices es ≡ []
    → IsChain extra l
    → 0 < len
    → len ≤ length (slices bs)
    → (l' : BufList) × (consume_from bs l len ≡ some l')
      × IsChain extra l'
      × (contents l' ≡ drop len (slices bs))
      × (l'.data_bytes ≡ l.data_bytes)
      × SameLimits l l'
unfolding consume_from advance_head
consume_from_lem extra [] es l len e none_left w h enough = absurd (omega arith)
consume_from_lem extra (b ∷ bs) es l len e none_left w h enough =
    let wb = (Chain-without_head extra l.filled l.rest b (bs ++ es) e w.shape).5 in
    let size = length-slice extra b wb in
    let others = slices-spare bs es none_left in
    elim (Bool-cases (ltb len (b.tail_at - b.data_at))) [
      | inl less ↦
          let short : len < length (slice b) =
            omega (arith, size, ltb→lt len (b.tail_at - b.data_at) less) in
          let (w', left) = advance_head_lem extra len l b (bs ++ es) e w short in
          (
            advance_head len l,
            rw less refl,
            w',
            left
                ∙ ap (λ xs. drop len (slice b) ++ xs) others
                ∙ sym (drop_within len (slice b) (slices bs) (omega (arith, short))),
            refl,
            record { mins = refl; maxs = refl; lens = refl },
          )
      | inr more ↦
          let (l1, more_es, freed, w1, e1, none1, bytes1, limits1) =
            ustream_free_buf_lem extra l b (bs ++ es) e w in
          let past : length (slice b) ≤ len = ground (arith, size) in
          let past_b = drop_past len (slice b) (slices bs) past in
          let left = len - (b.tail_at - b.data_at) in
          elim (Bool-cases (left == 0)) [
            | inl all ↦
                let nothing : len - length (slice b) ≡ 0 =
                  omega (arith, size, (==_iff left 0).0 all) in
                (
                  l1,
                  rw (more, freed, all) refl,
                  w1,
                  ap slices e1
                      ∙ slices-spare (bs ++ es) more_es none1
                      ∙ others
                      ∙ sym (past_b ∙ ap (λ k. drop k (slices bs)) nothing),
                  bytes1,
                  limits1,
                )
            | inr some_left ↦
                let spare : slices (es ++ more_es) ≡ [] =
                  slices-spare es more_es none1 ∙ none_left in
                let positive : 0 < left = ground arith in
                let enough_left : left ≤ length (slices bs) =
                  omega (arith, size, length-append (slice b) (slices bs)) in
                let (l2, run, w2, taken, bytes2, limits2) =
                  consume_from_lem extra bs (es ++ more_es) l1 left
                    (e1 ∙ append_assoc bs es more_es) spare w1 positive enough_left in
                (
                  l2,
                  rw (more, freed, some_left) run,
                  w2,
                  taken ∙ ap (λ k. drop k (slices bs)) (ap (λ k. len - k) (sym size)) ∙ sym past_b,
                  bytes2 ∙ bytes1,
                  then_limits l l1 l2 limits1 limits2,
                )
          ]
    ]

module _ {C : Type 0} (cb : Callbacks C) (extra : ℕ) where
  -- Where `set_read_blocked` is set, `ustream_consume` of a well-formed stream aborts for more
  -- bytes than are held. Otherwise it takes the first bytes away, the rest stays in order, what is
  -- held for writing stays, the stream stays well-formed, and it is no more blocked because the
  -- buffers are full, unless no bytes were asked for.
  pub ustream_consume-Drops :
      (call : UStream → C → C) (s : UStream) (c : C) (len : ℕ)
      → cb.set_read_blocked ≡ some call
      → IsStream extra s
      → ((s.r.data_bytes < len) × (ustream_consume cb len (s, c) ≡ none))
        ⊎ ((len ≤ s.r.data_bytes)
            × ((s' : UStream) × (c' : C) × (ustream_consume cb len (s, c) ≡ some (s', c'))
                × IsStream extra s'
                × (contents s'.r ≡ drop len (contents s.r))
                × (s'.w ≡ s.w)
                × ((len ≡ 0) ⊎ (s'.blocked_full ≡ false))))
  unfolding ustream_consume
  ustream_consume-Drops call s c zero set w =
      inr (omega arith, (s, c, refl, w, refl, refl, inl refl))
  ustream_consume-Drops call s c (suc n) set w =
      let asked : (suc n == 0) ≡ false = ground arith in
      elim (Bool-cases (ltb s.r.data_bytes (suc n))) [
        | inl beyond ↦ inl (ltb→lt s.r.data_bytes (suc n) beyond, rw (asked, beyond) refl)
        | inr within ↦
            let enough : suc n ≤ s.r.data_bytes = ground arith in
            let l : BufList = record s.r { data_bytes = s.r.data_bytes - suc n } in
            let v = w.reading.buffers_in in
            let (l', run, w', left, bytes, limits) =
              consume_from_lem extra (chain s.r) [] l (suc n) (sym (append-nil (chain s.r))) refl
                (record { shape = v.shape; number = v.number; limit = v.limit; len = v.len })
                (omega arith) (omega (arith, w.reading.counted)) in
            let (c', told, _) =
              set_blocked_lem cb call s.blocked_user false (record s { r = l' }) c set in
            let size : l'.data_bytes ≡ length (contents l') = omega (
              arith,
              bytes,
              ap length left,
              length-drop (suc n) (contents s.r),
              w.reading.counted,
            ) in
            inr (
              enough,
              (
                record s { r = l'; blocked_full = false },
                c',
                rw (asked, within, run) told,
                record {
                  reading = record { buffers_in = w'; counted = size };
                  writing = w.writing;
                  marks = w.marks;
                },
                left,
                refl,
                inr refl,
              ),
            )
      ]
