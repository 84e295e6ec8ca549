-- ===== src/Ustream/Written.antt =====
-- `ustream_write`: what was accepted and what is held are the bytes that were written, in order.
use mathlib.Core.List.{append_assoc, append-nil}
use openwrt_libubox.Prelude.{
  ℕ, ◌+◌, ◌≤◌, ◌≡◌, ◌⊎◌, inl, inr, refl, sym, ap, ◌∙◌, arith, List, [], ◌∷◌, ◌++◌, length,
  length-drop, take, drop, Option, some, Bool, true, ◌==◌, ==_iff, Bool-cases, if◌then◌else◌,
  if_true, if_false, dec_lt,
}
use openwrt_libubox.Prelude.Int.{ℤ, pos, negsuc}
use openwrt_libubox.Prelude.Segments.{take_more}
use openwrt_libubox.Ustream.Invariant.{contents}
use openwrt_libubox.Ustream.Prepare.{IsMalloc}
use openwrt_libubox.Ustream.Buffered.{CannotGrow, ustream_write_buffered_lem}
use openwrt_libubox.Ustream.States.{IsStream}
use openwrt_libubox.Ustream.Stream.{UStream, Callbacks, ustream_write_error}
use openwrt_libubox.Ustream.Writer.{write_rest, after_write, ustream_write}

-- What `write` of a kind of stream accepts goes behind what it accepted before; a negative result accepts
-- nothing.
abbrev pub Accepts : {C : Type 0} → (C → List ℕ) → List ℕ → C → ℤ × C → Type 0
Accepts accepted bs c (pos n, c') = (n ≤ length bs) × (accepted c' ≡ accepted c ++ take n bs)
Accepts accepted bs c (negsuc n, c') = accepted c' ≡ accepted c

pub record IsWriter {C : Type 0} (cb : Callbacks C) (accepted : C → List ℕ) (extra : ℕ)
    : Type 0 where
  pub mallocs : IsMalloc extra cb.malloc
  pub accepts :
      (s : UStream) (bs : List ℕ) (more : Bool) (c : C)
      → Accepts accepted bs c (cb.write s bs more c)

pub no_bytes : (xs : List ℕ) → length xs ≡ 0 → xs ≡ []
no_bytes [] e = refl
no_bytes (x ∷ xs) e = absurd (omega arith)

module _ {C : Type 0} (cb : Callbacks C) (accepted : C → List ℕ) (extra : ℕ) where
  -- All bytes of a stream that is written, the accepted ones first.
  abbrev pub bytes_of : UStream × C → List ℕ
  bytes_of (s, c) = accepted c ++ contents s.w

  -- How `ustream_write` may end: some of the bytes are accepted or held, and what is missing could not be held; or the link failed.
  abbrev pub IsWritten : List ℕ → UStream × C → ℤ × (UStream × C) → Type 0
  IsWritten buf (s, c) (pos n, (s', c')) =
      IsStream extra s'
      × (n ≤ length buf)
      × (bytes_of (s', c') ≡ bytes_of (s, c) ++ take n buf)
      × (s'.r ≡ s.r)
      × ((n ≡ length buf) ⊎ ((s.write_error ≡ true) ⊎ CannotGrow cb.malloc s'.w))
  IsWritten buf (s, c) (negsuc n, (s', c')) =
      IsStream extra s'
      × (bytes_of (s', c') ≡ bytes_of (s, c))
      × (s'.r ≡ s.r)
      × (s'.write_error ≡ true)

  module _ (good : IsWriter cb accepted extra) where
    pub write_rest_lem :
        (s s0 : UStream) (c c0 : C) (buf : List ℕ) (wr : ℕ)
        → IsStream extra s
        → wr ≤ length buf
        → accepted c ++ contents s.w ≡ bytes_of (s0, c0) ++ take wr buf
        → s.r ≡ s0.r
        → (r : ℤ × (UStream × C)) × (write_rest cb s c (drop wr buf) wr ≡ some r)
          × IsWritten buf (s0, c0) r
    write_rest_lem s s0 c c0 buf wr w h e same_read =
        let (n, l, run, (p, stuck)) =
          ustream_write_buffered_lem cb.malloc extra good.mallocs s.w (drop wr buf) wr w.writing in
        (
          (pos (wr + n), (record s { w = l }, c)),
          rw run refl,
          (
            record { reading = w.reading; writing = p.kept; marks = w.marks },
            omega (arith, p.within, length-drop wr buf),
            ap (λ ys. accepted c ++ ys) p.behind
                ∙ sym (append_assoc (accepted c) (contents s.w) (take n (drop wr buf)))
                ∙ ap (λ ys. ys ++ take n (drop wr buf)) e
                ∙ append_assoc (bytes_of (s0, c0)) (take wr buf) (take n (drop wr buf))
                ∙ ap (λ ys. bytes_of (s0, c0) ++ ys) (take_more wr n buf),
            same_read,
            elim (dec_lt (wr + n) (length buf)) [
              | yes less ↦ inr (inr (stuck (omega (arith, less, length-drop wr buf))))
              | no all ↦ inl (omega (arith, all, p.within, length-drop wr buf, h))
            ],
          ),
        )

    pub after_write_lem :
        (s : UStream) (c : C) (buf : List ℕ)
        → IsStream extra s
        → contents s.w ≡ []
        → (q : ℤ × C) → Accepts accepted buf c q
        → (r : ℤ × (UStream × C)) × (after_write cb buf s q ≡ some r) × IsWritten buf (s, c) r
    unfolding ustream_write_error
    after_write_lem s c buf w empty (pos n, c') (within, took) =
        let e : accepted c' ++ contents s.w ≡ accepted c ++ contents s.w ++ take n buf = rw empty (
          append-nil (accepted c')
          ∙ took
          ∙ ap (λ ys. ys ++ take n buf) (sym (append-nil (accepted c)))) in
        elim (Bool-cases (n == length buf)) [
          | inl all ↦ (
            (pos n, (s, c')),
            rw all refl,
            (w, within, e, refl, inl ((==_iff n (length buf)).0 all)),
          )
          | inr part ↦
              let (r, run, x) = write_rest_lem s s c' c buf n w within e refl in (r, rw part run, x)
        ]
    after_write_lem s c buf w empty (negsuc n, c') took = (
      (negsuc n, (ustream_write_error s, c')),
      refl,
      (
        record { reading = w.reading; writing = w.writing; marks = w.marks },
        ap (λ ys. ys ++ contents s.w) took,
        refl,
        refl,
      ),
    )

    -- A write puts the bytes behind those that were written before, and loses and repeats none: what the kind of
    -- stream accepted, followed by what is held, grows by the bytes that the result counts, or not at all where the
    -- result is negative. It counts less than all only where an error was noted before or the buffers cannot grow.
    -- The stream stays well-formed and its read side as it is.
    pub ustream_write-InOrder :
        (s : UStream) (c : C) (buf : List ℕ) (more : Bool)
        → IsStream extra s
        → (r : ℤ × (UStream × C)) × (ustream_write cb buf more (s, c) ≡ some r)
          × IsWritten buf (s, c) r
    unfolding ustream_write
    ustream_write-InOrder s c buf more w =
        let body =
          if s.w.data_bytes == 0
          then after_write cb buf s (cb.write s buf more c)
          else write_rest cb s c buf 0 in
        let refused : Option (ℤ × (UStream × C)) = some (pos 0, (s, c)) in
        elim (Bool-cases s.write_error) [
          | inl failed ↦ (
            (pos 0, (s, c)),
            if_true s.write_error refused body failed,
            (w, omega arith, sym (append-nil (bytes_of (s, c))), refl, inr (inl failed)),
          )
          | inr fine ↦ elim (Bool-cases (s.w.data_bytes == 0)) [
            | inl empty ↦
                let nothing =
                  no_bytes (contents s.w)
                    (sym w.writing.counted ∙ (==_iff s.w.data_bytes 0).0 empty) in
                let (r, run, x) =
                  after_write_lem s c buf w nothing (cb.write s buf more c)
                    (good.accepts s buf more c) in
                (
                  r,
                  if_false s.write_error refused body fine
                      ∙ if_true (s.w.data_bytes == 0) (after_write cb buf s (cb.write s buf more c))
                          (write_rest cb s c buf 0) empty
                      ∙ run,
                  x,
                )
            | inr holds ↦
                let (r, run, x) =
                  write_rest_lem s s c c buf 0 w (omega arith) (sym (append-nil (bytes_of (s, c))))
                    refl in
                (
                  r,
                  if_false s.write_error refused body fine
                      ∙ if_false (s.w.data_bytes == 0)
                          (after_write cb buf s (cb.write s buf more c)) (write_rest cb s c buf 0)
                          holds
                      ∙ run,
                  x,
                )
          ]
        ]
