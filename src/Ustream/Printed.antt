-- ===== src/Ustream/Printed.antt =====
-- `ustream_vprintf` writes what the format gives as `ustream_write` does.
use mathlib.Core.Path.{subst}
use mathlib.Core.List.{append_assoc, append-nil}
use openwrt_libubox.Prelude.{
  ℕ, ◌+◌, ◌-◌, ◌≤◌, ◌<◌, ◌≡◌, ◌⊎◌, inl, inr, refl, sym, ap, ◌∙◌, arith, List, [], ◌∷◌, ◌++◌, length,
  length-append, length-take, take, drop, Option, some, Bool, true, false, ◌==◌, ==_iff, Bool-cases,
  if◌then◌else◌, if_true, if_false, ltb, ◌>>=◌,
}
use openwrt_libubox.Prelude.Int.{ℤ, pos}
use openwrt_libubox.Ustream.Buffers.{Buf, BufList, slice, copy_to, ustream_prepare_buf}
use openwrt_libubox.Ustream.Slices.{copy_to_lem, length-copied, slice-filled}
use openwrt_libubox.Ustream.Invariant.{contents, Chain, IsBufList, slices-Empty, slices-behind}
use openwrt_libubox.Ustream.Prepare.{IsPrepared, HasRoom}
use openwrt_libubox.Ustream.Prepared.{ustream_prepare_buf_lem}
use openwrt_libubox.Ustream.Buffered.{prepared-IsBufList}
use openwrt_libubox.Ustream.States.{IsStream}
use openwrt_libubox.Ustream.Stream.{UStream, Callbacks}
use openwrt_libubox.Ustream.Writer.{
  write_rest, after_write, ustream_write, print_at, print_prepared, ustream_vprintf,
}
use openwrt_libubox.Ustream.Written.{
  IsWriter, IsWritten, bytes_of, no_bytes, write_rest_lem, after_write_lem, ustream_write-InOrder,
}

-- What `vsnprintf` writes behind the tail of the buffer at `data_tail`, without its NUL, is held.
printed_lem :
    (extra : ℕ) (text : List ℕ) (l : BufList) (b : Buf) (bs : List Buf) (wr : ℕ)
    → IsBufList extra l
    → l.rest ≡ b ∷ bs
    → wr ≤ length text
    → b.tail_at + wr < b.end_at
    → (cells : List ℕ) × (copy_to b.tail_at (take wr text ++ (0 ∷ [])) b.cells ≡ some cells)
      × (let b' = record b { cells = cells; tail_at = b.tail_at + wr } in
          let l' = record l { rest = b' ∷ bs; data_bytes = l.data_bytes + wr } in
          IsBufList extra l' × (contents l' ≡ contents l ++ take wr text))
printed_lem extra text l b bs wr w e within room =
    let v = subst (Chain extra l.filled) e w.buffers_in.shape in
    let part = take wr text in
    let size : length part ≡ wr = length-take wr text ∙ omega (arith, within) in
    let put = part ++ (0 ∷ []) in
    let long : length put ≡ wr + 1 = length-append part (0 ∷ []) ∙ omega (arith, size) in
    let inside : b.tail_at + length put ≤ length b.cells =
      omega (arith, long, room, v.1.cells_in) in
    let back = drop (b.tail_at + length put) b.cells in
    let cells : List ℕ = take b.tail_at b.cells ++ (put ++ back) in
    let b' : Buf = record b { cells = cells; tail_at = b.tail_at + wr } in
    let l' : BufList = record l { rest = b' ∷ bs; data_bytes = l.data_bytes + wr } in
    let grown : slice b' ≡ slice b ++ part =
      ap (λ k. take (b.tail_at + k - b.data_at) (drop b.data_at cells)) (sym size)
      ∙ ap
          (λ ys.
            take (b.tail_at + length part - b.data_at)
              (drop b.data_at (take b.tail_at b.cells ++ ys)))
          (append_assoc part (0 ∷ []) back)
      ∙ slice-filled extra b part ((0 ∷ []) ++ back) v.1 in
    let whole : contents l' ≡ contents l ++ part =
      slices-behind l.filled l.rest b b' bs part e (slices-Empty extra bs v.3) grown in
    let starts : (b.data_at < b.tail_at + wr) ⊎ ((b.data_at ≡ 0) × (b.tail_at + wr ≡ 0)) =
      ground (arith, v.2, v.1.start) in
    (
      cells,
      copy_to_lem b.tail_at put b.cells inside,
      (
        record {
          buffers_in = record {
            shape = (
              v.0,
              record {
                start = omega (arith, v.1.start);
                stop = omega (arith, room);
                room = v.1.room;
                cells_in = omega (arith, length-copied b.tail_at put b.cells inside, v.1.cells_in);
              },
              starts,
              v.3,
            );
            number =
                w.buffers_in.number
                ∙ ap (λ r. length (l.filled ++ r)) e
                ∙ omega (arith, length-append l.filled (b ∷ bs), length-append l.filled (b' ∷ bs));
            limit = w.buffers_in.limit;
            len = w.buffers_in.len;
          };
          counted =
              omega (arith, w.counted, ap length whole, length-append (contents l) part, size);
        },
        whole,
      ),
    )

module _ {C : Type 0} (cb : Callbacks C) (accepted : C → List ℕ) (extra : ℕ) where
  -- As much is written as by `ustream_write`; or there was no memory for the text, and a front of it is.
  abbrev pub IsPrinted : List ℕ → Bool → UStream × C → ℤ × (UStream × C) → Type 0
  IsPrinted text memory (s, c) r =
      IsWritten cb accepted extra text (s, c) r
      ⊎ ((memory ≡ false)
          × (n : ℕ) × (s' : UStream) × (r ≡ (pos n, (s', c)))
          × IsStream extra s'
          × (n ≤ length text)
          × (bytes_of cb accepted extra (s', c) ≡ bytes_of cb accepted extra (s, c) ++ take n text)
          × (s'.r ≡ s.r))

  module _ (good : IsWriter cb accepted extra) where
    print_at_lem :
        (text : List ℕ) (memory : Bool) (s : UStream) (c : C) (l : BufList)
        → IsStream extra s
        → IsBufList extra l
        → contents l ≡ contents s.w
        → (rest : List Buf) → l.rest ≡ rest
        → HasRoom rest
        → (r : ℤ × (UStream × C)) × (print_at cb text memory s c l rest ≡ some r)
          × IsPrinted text memory (s, c) r
    print_at_lem text memory s c l w wl same [] e room = elim room [ ]
    print_at_lem text memory s c l w wl same (b ∷ bs) e room =
        let buflen = b.end_at - b.tail_at in
        let wr = if ltb (length text) buflen then length text else buflen - 1 in
        let within : wr ≤ length text = ground arith in
        let fits : b.tail_at + wr < b.end_at = ground (arith, room) in
        let (cells, put, (w1, whole)) = printed_lem extra text l b bs wr wl e within fits in
        let l1 : BufList = record l {
          rest = record b { cells = cells; tail_at = b.tail_at + wr } ∷ bs;
          data_bytes = l.data_bytes + wr;
        } in
        let s1 : UStream = record s { w = l1 } in
        let v1 : IsStream extra s1 = record {
          reading = w.reading;
          writing = w1;
          marks = w.marks;
        } in
        let bytes : accepted c ++ contents l1 ≡ bytes_of cb accepted extra (s, c) ++ take wr text =
          ap (λ ys. accepted c ++ ys) (whole ∙ ap (λ ys. ys ++ take wr text) same)
          ∙ sym (append_assoc (accepted c) (contents s.w) (take wr text)) in
        let part : Option (ℤ × (UStream × C)) = some (pos wr, (s1, c)) in
        let rest = write_rest cb s1 c (drop wr text) wr in
        let enter =
          ap
            (λ o. o >>= λ cells.
              let s2 = record s {
                w = record l {
                  rest = record b { cells = cells; tail_at = b.tail_at + wr } ∷ bs;
                  data_bytes = l.data_bytes + wr;
                };
              } in
              if ltb (length text) buflen
              then some (pos wr, (s2, c))
              else if memory
              then write_rest cb s2 c (drop wr text) wr
              else some (pos wr, (s2, c)))
            put in
        let more = if memory then rest else part in
        elim (Bool-cases (ltb (length text) buflen)) [
          | inl all ↦
              let n : wr ≡ length text = ground arith in
              (
                (pos wr, (s1, c)),
                enter ∙ if_true (ltb (length text) buflen) part more all,
                inl (v1, within, bytes, refl, inl n),
              )
          | inr short ↦
              let on = enter ∙ if_false (ltb (length text) buflen) part more short in
              elim (Bool-cases memory) [
                | inl given ↦
                    let (r, run, x) =
                      write_rest_lem cb accepted extra good s1 s c c text wr v1 within bytes refl in
                    (r, on ∙ if_true memory rest part given ∙ run, inl x)
                | inr out ↦ (
                  (pos wr, (s1, c)),
                  on ∙ if_false memory rest part out,
                  inr (out, wr, s1, refl, v1, within, bytes, refl),
                )
              ]
        ]

    print_prepared_lem :
        (text : List ℕ) (memory : Bool) (s : UStream) (c : C) (p : Bool × BufList)
        → IsStream extra s
        → IsPrepared extra cb.malloc s.w p
        → (r : ℤ × (UStream × C)) × (print_prepared cb text memory s c p ≡ some r)
          × IsPrinted text memory (s, c) r
    print_prepared_lem text memory s c (false, l) w q = (
      (pos 0, (record s { w = l }, c)),
      refl,
      inl (
        record {
          reading = w.reading;
          writing = prepared-IsBufList extra cb.malloc s.w (false, l) q w.writing;
          marks = w.marks;
        },
        omega arith,
        ap (λ ys. accepted c ++ ys) q.same_contents
            ∙ sym (append-nil (bytes_of cb accepted extra (s, c))),
        refl,
        inr (inr (q.refused refl)),
      ),
    )
    print_prepared_lem text memory s c (true, l) w q =
        print_at_lem text memory s c l w
          (prepared-IsBufList extra cb.malloc s.w (true, l) q w.writing) q.same_contents l.rest refl
          (q.ready refl)

    -- What a format gives is written behind all that was written before, as by `ustream_write`, whether it goes
    -- through the stack, a new piece of memory or the last buffer; where there is no memory for the whole text a front
    -- of it is written, as long as the result tells.
    pub ustream_vprintf-InOrder :
        (text : List ℕ) (memory : Bool) (s : UStream) (c : C)
        → IsStream extra s
        → (r : ℤ × (UStream × C)) × (ustream_vprintf cb text memory (s, c) ≡ some r)
          × IsPrinted text memory (s, c) r
    unfolding ustream_vprintf
    ustream_vprintf-InOrder text memory s c w =
        let refused : Option (ℤ × (UStream × C)) = some (pos 0, (s, c)) in
        let unchanged = sym (append-nil (bytes_of cb accepted extra (s, c))) in
        let stack = after_write cb text s (cb.write s text false c) in
        let heap = if memory then ustream_write cb text false (s, c) else refused in
        let held =
          ustream_prepare_buf cb.malloc false s.w 1 >>= print_prepared cb text memory s c in
        let direct = if ltb (length text) 256 then stack else heap in
        let body = if s.w.data_bytes == 0 then direct else held in
        elim (Bool-cases s.write_error) [
          | inl failed ↦ (
            (pos 0, (s, c)),
            if_true s.write_error refused body failed,
            inl (w, omega arith, unchanged, refl, inr (inl failed)),
          )
          | inr fine ↦
              let enter = if_false s.write_error refused body fine in
              elim (Bool-cases (s.w.data_bytes == 0)) [
                | inr holds ↦
                    let (p, made, q) =
                      ustream_prepare_buf_lem cb.malloc false extra good.mallocs (λ e. cc (e)) s.w 1
                        w.writing.buffers_in in
                    let (r, run, x) = print_prepared_lem text memory s c p w q in
                    (
                      r,
                      enter
                          ∙ if_false (s.w.data_bytes == 0) direct held holds
                          ∙ ap (λ o. o >>= print_prepared cb text memory s c) made
                          ∙ run,
                      x,
                    )
                | inl empty ↦
                    let on = enter ∙ if_true (s.w.data_bytes == 0) direct held empty in
                    let nothing =
                      no_bytes (contents s.w)
                        (sym w.writing.counted ∙ (==_iff s.w.data_bytes 0).0 empty) in
                    elim (Bool-cases (ltb (length text) 256)) [
                      | inl short ↦
                          let (r, run, x) =
                            after_write_lem cb accepted extra good s c text w nothing
                              (cb.write s text false c) (good.accepts s text false c) in
                          (r, on ∙ if_true (ltb (length text) 256) stack heap short ∙ run, inl x)
                      | inr long ↦
                          let behind = on ∙ if_false (ltb (length text) 256) stack heap long in
                          elim (Bool-cases memory) [
                            | inl given ↦
                                let (r, run, x) =
                                  ustream_write-InOrder cb accepted extra good s c text false w in
                                (
                                  r,
                                  behind
                                      ∙ if_true memory (ustream_write cb text false (s, c)) refused
                                          given
                                      ∙ run,
                                  inl x,
                                )
                            | inr out ↦ (
                              (pos 0, (s, c)),
                              behind
                                  ∙ if_false memory (ustream_write cb text false (s, c)) refused
                                      out,
                              inr (out, 0, s, refl, w, omega arith, unchanged, refl),
                            )
                          ]
                    ]
              ]
        ]
