-- ===== src/Ustream/Pending.antt =====
-- `ustream_write_pending`: what is held is given to `write`, in order.
use mathlib.Core.List.{append_assoc, append-nil}
use openwrt_libubox.Prelude.{
  ℕ, zero, suc, ◌+◌, ◌-◌, ◌<◌, ◌≡◌, ◌≢◌, ◌⊎◌, inl, inr, refl, sym, ap, ◌∙◌, arith, List, [], ◌∷◌,
  ◌++◌, length, length-append, length-drop, take, drop, Option, none, some, Bool, true, false, ◌==◌,
  ==_iff, ltb, ltb→lt, Bool-cases, if_true, if_false, ◌>>=◌,
}
use openwrt_libubox.Prelude.Int.{ℤ, pos, negsuc}
use openwrt_libubox.Prelude.Segments.{take-drop_lem, drop-all}
use openwrt_libubox.Ustream.Buffers.{Buf, BufList, slice, advance_head}
use openwrt_libubox.Ustream.Slices.{length-slice}
use openwrt_libubox.Ustream.Invariant.{
  slices, chain, contents, IsChain, slices-spare, Chain-without_head,
}
use openwrt_libubox.Ustream.Heads.{advance_head_lem, ustream_free_buf_lem, head_has_data}
use openwrt_libubox.Ustream.Written.{IsWriter, Accepts, bytes_of}
use openwrt_libubox.Ustream.States.{IsStream}
use openwrt_libubox.Ustream.Stream.{UStream, Callbacks, ustream_write_error}
use openwrt_libubox.Ustream.Writer.{has_next, pending_turn, pending_from}

module _ {C : Type 0} (cb : Callbacks C) (accepted : C → List ℕ) (extra : ℕ) where
  -- The bytes stay and so does the read side.
  pub record Keeps (s : UStream) (c : C) (s' : UStream) (c' : C) : Type 0 where
    pub kept : IsStream extra s'
    pub same_bytes : bytes_of cb accepted extra (s', c') ≡ bytes_of cb accepted extra (s, c)
    pub same_read : s'.r ≡ s.r

  -- A turn that ends the loop, where not all that was offered was accepted, or one that goes on with the
  -- buffers behind.
  abbrev IsTurn : Buf → List Buf → UStream → C → ℤ → Option (Bool × (ℕ × (UStream × C))) → Type 0
  IsTurn b more s c q t =
      (n : ℕ) × (s' : UStream) × (c' : C) × Keeps s c s' c'
      × (((t ≡ some (false, (n, (s', c')))) × (q ≢ pos (length (slice b))))
          ⊎ ((t ≡ some (true, (n, (s', c'))))
              × ((es : List Buf) × (chain s'.w ≡ more ++ es) × (slices es ≡ []))))

  -- Bytes at the front of what is held that are accepted.
  moved :
      (c c' : C) (n : ℕ) (front back held : List ℕ)
      → accepted c' ≡ accepted c ++ take n front
      → held ≡ drop n front ++ back
      → accepted c' ++ held ≡ accepted c ++ (front ++ back)
  moved c c' n front back held took left =
      ap (λ ys. ys ++ held) took
      ∙ ap (λ ys. accepted c ++ take n front ++ ys) left
      ∙ append_assoc (accepted c) (take n front) (drop n front ++ back)
      ∙ ap (λ ys. accepted c ++ ys)
          (sym (append_assoc (take n front) (drop n front) back)
            ∙ ap (λ ys. ys ++ back) (take-drop_lem n front))

  count :
      (l : BufList) (xs : List ℕ)
      → contents l ≡ xs
      → l.data_bytes ≡ length xs
      → l.data_bytes ≡ length (contents l)
  count l xs e h = h ∙ ap length (sym e)

  pending_turn_lem :
      (b : Buf) (more : List Buf) (s : UStream) (c : C)
      → IsStream extra s
      → chain s.w ≡ b ∷ more
      → 0 < length (slice b)
      → (q : ℤ × C) → Accepts accepted (slice b) c q
      → IsTurn b more s c q.0 (pending_turn cb b s q)
  unfolding ustream_write_error advance_head
  pending_turn_lem b more s c w e some_data (negsuc n, c') took = (
    0,
    ustream_write_error s,
    c',
    record {
      kept = record { reading = w.reading; writing = w.writing; marks = w.marks };
      same_bytes = ap (λ ys. ys ++ contents s.w) took;
      same_read = refl;
    },
    inl (refl, λ x. cc (x)),
  )
  pending_turn_lem b more s c w e some_data (pos n, c') (within, took) =
      let l : BufList = record s.w { data_bytes = s.w.data_bytes - n } in
      let v = w.writing.buffers_in in
      let vl : IsChain extra l = record {
        shape = v.shape;
        number = v.number;
        limit = v.limit;
        len = v.len;
      } in
      let wb = (Chain-without_head extra s.w.filled s.w.rest b more e v.shape).5 in
      let size = length-slice extra b wb in
      let whole : contents s.w ≡ slice b ++ slices more = ap slices e in
      let total : s.w.data_bytes ≡ length (slice b) + length (slices more) =
        w.writing.counted ∙ ap length whole ∙ length-append (slice b) (slices more) in
      elim (Bool-cases (n == 0)) [
        | inl nothing ↦
            let none_taken = (==_iff n 0).0 nothing in
            (
              0,
              s,
              c',
              record {
                kept = w;
                same_bytes =
                    ap (λ ys. ys ++ contents s.w)
                      (took
                        ∙ ap (λ k. accepted c ++ take k (slice b)) none_taken
                        ∙ append-nil (accepted c));
                same_read = refl;
              },
              inl (rw nothing refl, λ x. let k : n ≡ length (slice b) = cc (x) in omega arith),
            )
        | inr some_taken ↦ elim (Bool-cases (ltb n (b.tail_at - b.data_at))) [
          | inl part ↦
              let short : n < length (slice b) =
                omega (arith, size, ltb→lt n (b.tail_at - b.data_at) part) in
              let (w', left) = advance_head_lem extra n l b more e vl short in
              (
                n,
                record s { w = advance_head n l },
                c',
                record {
                  kept = record {
                    reading = w.reading;
                    writing = record {
                      buffers_in = w';
                      counted = count (advance_head n l) (drop n (slice b) ++ slices more) left (
                          omega (
                            arith,
                            total,
                            size,
                            length-append (drop n (slice b)) (slices more),
                            length-drop n (slice b),
                          ));
                    };
                    marks = w.marks;
                  };
                  same_bytes =
                      moved c c' n (slice b) (slices more) (contents (advance_head n l)) took left
                      ∙ ap (λ ys. accepted c ++ ys) (sym whole);
                  same_read = refl;
                },
                inl (
                  rw (some_taken, part) refl,
                  λ x. let k : n ≡ length (slice b) = cc (x) in omega arith,
                ),
              )
          | inr all ↦
              let (l', es, freed, w', behind, spare, bytes, limits) =
                ustream_free_buf_lem extra l b more e vl in
              let n_all : n ≡ length (slice b) = ground (arith, size) in
              let left : contents l' ≡ slices more =
                ap slices behind ∙ slices-spare more es spare in
              (
                n,
                record s { w = l' },
                c',
                record {
                  kept = record {
                    reading = w.reading;
                    writing = record {
                      buffers_in = w';
                      counted = count l' (slices more) left (bytes ∙ omega (arith, total, n_all));
                    };
                    marks = w.marks;
                  };
                  same_bytes =
                      moved c c' n (slice b) (slices more) (contents l') took (
                        left
                        ∙ sym (ap (λ ys. ys ++ slices more) (drop-all (slice b) n (omega arith))))
                      ∙ ap (λ ys. accepted c ++ ys) (sym whole);
                  same_read = refl;
                },
                inr (rw (some_taken, all, freed) refl, (es, behind, spare)),
              )
        ]
      ]

  -- What `write` gives for the data of a first buffer.
  abbrev pub offered : Buf → UStream → C → ℤ × C
  offered b s c = cb.write s (slice b) (has_next (chain s.w)) c

  -- A number of turns of the loop that each gave all of the first buffer to `write`.
  abbrev pub Drained : ℕ → UStream → C → UStream → C → Type 0
  Drained zero s c s' c' = (s ≡ s') × (c ≡ c')
  Drained (suc k) s c s' c' =
      (b : Buf) × (more : List Buf) × (n : ℕ) × (s1 : UStream) × (c1 : C) × (chain s.w ≡ b ∷ more)
      × (pending_turn cb b s (offered b s c) ≡ some (true, (n, (s1, c1))))
      × Drained k s1 c1 s' c'

  -- Whether, after such turns, the loop ends since `write` does not accept all of the first buffer.
  abbrev pub Declines : UStream → C → Type 0
  Declines s c =
      (k : ℕ) × (s0 : UStream) × (c0 : C) × (b : Buf) × (more : List Buf) × (n : ℕ) × (s1 : UStream)
      × (c1 : C) × Drained k s c s0 c0
      × (chain s0.w ≡ b ∷ more)
      × (pending_turn cb b s0 (offered b s0 c0) ≡ some (false, (n, (s1, c1))))
      × ((offered b s0 c0).0 ≢ pos (length (slice b)))

  later-Declines :
      (b : Buf) (more : List Buf) (s : UStream) (c : C) (n : ℕ) (s1 : UStream) (c1 : C)
      → chain s.w ≡ b ∷ more
      → pending_turn cb b s (offered b s c) ≡ some (true, (n, (s1, c1)))
      → (s' : UStream) → (s'.w.data_bytes ≡ 0) ⊎ Declines s1 c1
      → (s'.w.data_bytes ≡ 0) ⊎ Declines s c
  later-Declines b more s c n s1 c1 e turn s' (inl empty) = inl empty
  later-Declines b more s c n s1 c1 e turn s'
        (inr (k, s0, c0, b0, more0, m, s2, c2, run, e0, stop, less)) =
      inr (suc k, s0, c0, b0, more0, m, s2, c2, (b, more, n, s1, c1, e, turn, run), e0, stop, less)

  module _ (good : IsWriter cb accepted extra) where
    pub pending_from_lem :
        (bs es : List Buf) (s : UStream) (c : C) (wr : ℕ)
        → IsStream extra s
        → chain s.w ≡ bs ++ es
        → slices es ≡ []
        → (n : ℕ) × (s' : UStream) × (c' : C) × (pending_from cb bs (s, c) wr
            ≡ some (wr + n, (s', c')))
          × Keeps s c s' c'
          × ((s'.w.data_bytes ≡ 0) ⊎ Declines s c)
    unfolding pending_from
    pending_from_lem [] es s c wr w e spare =
        let nothing : s.w.data_bytes ≡ 0 = w.writing.counted ∙ ap length (ap slices e ∙ spare) in
        (
          0,
          s,
          c,
          if_true (s.w.data_bytes == 0) (some (wr, (s, c))) none
                ((==_iff s.w.data_bytes 0).1 nothing)
              ∙ ap (λ k. some (k, (s, c))) (omega arith),
          record { kept = w; same_bytes = refl; same_read = refl },
          inl nothing,
        )
    pending_from_lem (b ∷ bs) es s c wr w e spare =
        let more = has_next (s.w.filled ++ s.w.rest) in
        let next : Bool × (ℕ × (UStream × C)) → Option (ℕ × (UStream × C)) = λ t. elim t.0 [
          | true ↦ pending_from cb bs t.1.1 (wr + t.1.0)
          | false ↦ some (wr + t.1.0, t.1.1)
        ] in
        let done : Option (ℕ × (UStream × C)) = some (wr, (s, c)) in
        let first : Option (Bool × (ℕ × (UStream × C))) =
          pending_turn cb b s (cb.write s (slice b) more c) in
        elim (Bool-cases (s.w.data_bytes == 0)) [
          | inl empty ↦ (
            0,
            s,
            c,
            if_true (s.w.data_bytes == 0) done (first >>= next) empty
                ∙ ap (λ k. some (k, (s, c))) (omega arith),
            record { kept = w; same_bytes = refl; same_read = refl },
            inl ((==_iff s.w.data_bytes 0).0 empty),
          )
          | inr holds ↦
              let some_data : 0 < length (slices (b ∷ (bs ++ es))) =
                ground (arith, w.writing.counted, ap length (ap slices e)) in
              let has_data =
                head_has_data extra s.w.filled s.w.rest b (bs ++ es) e w.writing.buffers_in.shape
                  some_data in
              let enter = if_false (s.w.data_bytes == 0) done (first >>= next) holds in
              let (n, s1, c1, k, turn) =
                pending_turn_lem b (bs ++ es) s c w e has_data (cb.write s (slice b) more c)
                  (good.accepts s (slice b) more c) in
              elim turn [
                | inl (stop, declined) ↦ (
                  n,
                  s1,
                  c1,
                  enter ∙ ap (λ o. o >>= next) stop,
                  k,
                  inr (zero, s, c, b, bs ++ es, n, s1, c1, (refl, refl), e, stop, declined),
                )
                | inr (on, (fs, e1, spare1)) ↦
                    let (m, s2, c2, run, k2, end) =
                      pending_from_lem bs (es ++ fs) s1 c1 (wr + n) k.kept
                        (e1 ∙ append_assoc bs es fs) (slices-spare es fs spare1 ∙ spare) in
                    (
                      n + m,
                      s2,
                      c2,
                      enter
                          ∙ ap (λ o. o >>= next) on
                          ∙ run
                          ∙ ap (λ k. some (k, (s2, c2))) (omega arith),
                      record {
                        kept = k2.kept;
                        same_bytes = k2.same_bytes ∙ k.same_bytes;
                        same_read = k2.same_read ∙ k.same_read;
                      },
                      later-Declines b (bs ++ es) s c n s1 c1 e on s2 end,
                    )
              ]
        ]
