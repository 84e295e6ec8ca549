-- ===== src/Ustream/Receive.antt =====
-- `ustream_reserve` and `ustream_fill_read`: room for bytes that arrive, and the bytes that arrived.
use mathlib.Core.Path.{subst}
use openwrt_libubox.Prelude.{
  ℕ, ◌+◌, ◌-◌, ◌≤◌, ◌<◌, ◌≡◌, ◌⊎◌, inl, inr, refl, sym, ap, ◌∙◌, arith, List, [], ◌∷◌, ◌++◌, length,
  length-append, take, drop, Option, none, some, Bool, true, false, Bool-cases, ◌>>=◌, ◌==◌,
  if◌then◌else◌, if_true, if_false,
}
use openwrt_libubox.Prelude.Segments.{take_more, drop-drop}
use openwrt_libubox.Ustream.Buffers.{Buf, BufList, slice}
use openwrt_libubox.Ustream.Slices.{IsBuf, fixup-kept}
use openwrt_libubox.Ustream.Invariant.{contents, Chain, IsBufList, slices-Empty, slices-behind}
use openwrt_libubox.Ustream.Prepare.{IsMalloc, HasRoom}
use openwrt_libubox.Ustream.Prepared.{ustream_prepare_buf_lem}
use openwrt_libubox.Ustream.Buffered.{CannotGrow, prepared-IsBufList}
use openwrt_libubox.Ustream.States.{IsStream, set_blocked_lem}
use openwrt_libubox.Ustream.Stream.{UStream, Callbacks, smaller, set_blocked}
use openwrt_libubox.Ustream.Reader.{
  fill_from, fill_list, room_at, ustream_reserve, ustream_fill_read,
}

-- Bytes that stand behind the tail of the buffer at `data_tail`, and have room there.
abbrev pub Arrived : List ℕ → List Buf → Type 0
Arrived xs [] = ⊥
Arrived xs (b ∷ bs) =
    (length xs ≤ b.end_at - b.tail_at) × (take (length xs) (drop b.tail_at b.cells) ≡ xs)

slice-grown :
    (extra : ℕ) (b : Buf) (xs : List ℕ)
    → IsBuf extra b
    → take (length xs) (drop b.tail_at b.cells) ≡ xs
    → slice (record b { tail_at = b.tail_at + length xs }) ≡ slice b ++ xs
slice-grown extra b xs w e =
    let tail : b.data_at + (b.tail_at - b.data_at) ≡ b.tail_at = omega (arith, w.start) in
    let len : b.tail_at + length xs - b.data_at ≡ b.tail_at - b.data_at + length xs =
      omega (arith, w.start) in
    ap (λ k. take k (drop b.data_at b.cells)) len
    ∙ sym (take_more (b.tail_at - b.data_at) (length xs) (drop b.data_at b.cells))
    ∙ ap (λ l. slice b ++ take (length xs) l)
        (sym (drop-drop b.data_at (b.tail_at - b.data_at) b.cells) ∙ ap (λ k. drop k b.cells) tail)
    ∙ ap (λ l. slice b ++ l) e

fill_list_lem :
    (string_data : Bool) (extra : ℕ) (l : BufList) (xs : List ℕ)
    → (string_data ≡ true → 1 ≤ extra)
    → IsBufList extra l
    → 0 < length xs
    → (rest : List Buf) → l.rest ≡ rest
    → Arrived xs rest
    → (l' : BufList) × (fill_list string_data l (length xs) ≡ some l')
      × IsBufList extra l'
      × (contents l' ≡ contents l ++ xs)
unfolding fill_list
fill_list_lem string_data extra l xs marks w h [] e arrived = elim arrived [ ]
fill_list_lem string_data extra l xs marks w h (b ∷ bs) e (fits, here) =
    let v = subst (Chain extra l.filled) e w.buffers_in.shape in
    let n = smaller (length xs) (b.end_at - b.tail_at) in
    let all : n ≡ length xs = ground arith in
    let b1 : Buf = record b { tail_at = b.tail_at + n } in
    let wb1 : IsBuf extra b1 = record {
      start = omega (arith, v.1.start);
      stop = omega (arith, all, fits, v.1.stop);
      room = v.1.room;
      cells_in = v.1.cells_in;
    } in
    let (b2, marked, wb2, same, data2, tail2, end2) = fixup-kept string_data extra b1 wb1 marks in
    let l' : BufList = record l { rest = b2 ∷ bs; data_bytes = l.data_bytes + length xs } in
    let nothing = slices-Empty extra bs v.3 in
    let grown : slice b2 ≡ slice b ++ xs =
      same
      ∙ ap (λ k. slice (record b { tail_at = b.tail_at + k })) all
      ∙ slice-grown extra b xs v.1 here in
    let done : (length xs - n == 0) ≡ true = ground (arith, all) in
    let left = length xs - n in
    let last : List Buf × List Buf = (l.filled, b2 ∷ bs) in
    let beyond : Buf → Option (List Buf × List Buf) =
      λ c. fill_from string_data (l.filled ++ (c ∷ [])) bs left in
    let step : Buf → Option (List Buf × List Buf) =
      λ c. if left == 0 then some (l.filled, c ∷ bs) else beyond c in
    let finish : List Buf × List Buf → Option BufList = λ parts.
      some (record l { filled = parts.0; rest = parts.1; data_bytes = l.data_bytes + length xs }) in
    let run : fill_list string_data l (length xs) ≡ some l' =
      ap (λ r. fill_from string_data l.filled r (length xs) >>= finish) e
      ∙ ap (λ o. o >>= step >>= finish) marked
      ∙ ap (λ o. o >>= finish) (if_true (left == 0) (some last) (beyond b2) done) in
    let whole : contents l' ≡ contents l ++ xs =
      slices-behind l.filled l.rest b b2 bs xs e nothing grown in
    (
      l',
      run,
      record {
        buffers_in = record {
          shape = (v.0, wb2, inl (omega (arith, data2, tail2, all, h, v.1.start)), v.3);
          number =
              w.buffers_in.number
              ∙ ap (λ r. length (l.filled ++ r)) e
              ∙ omega (arith, length-append l.filled (b ∷ bs), length-append l.filled (b2 ∷ bs));
          limit = w.buffers_in.limit;
          len = w.buffers_in.len;
        };
        counted = omega (arith, w.counted, ap length whole, length-append (contents l) xs);
      },
      whole,
    )

has_room : (rest : List Buf) → HasRoom rest → 0 < room_at rest
has_room [] h = elim h [ ]
has_room (b ∷ bs) h = omega (arith, h)

module _ {C : Type 0} (cb : Callbacks C) (extra : ℕ) where
  -- Where `set_read_blocked` is set, `ustream_reserve` of a well-formed stream, with a `malloc`
  -- that gives the bytes asked for, keeps what is held and gives some room at `data_tail`; or it
  -- gives NULL, the stream is blocked because it is full, and there may be no more buffers or
  -- there is no memory.
  pub ustream_reserve-MakesRoom :
      (call : UStream → C → C)
      → cb.set_read_blocked ≡ some call
      → IsMalloc extra cb.malloc
      → (len : ℕ) (s : UStream) (c : C) → IsStream extra s
      → (r : Option ℕ) × (s' : UStream) × (c' : C) × (ustream_reserve cb len (s, c)
          ≡ some (r, (s', c')))
        × IsStream extra s'
        × (contents s'.r ≡ contents s.r)
        × (s'.w ≡ s.w)
        × (((n : ℕ) × (r ≡ some n) × (0 < n) × (n ≡ room_at s'.r.rest) × (c' ≡ c))
            ⊎ ((r ≡ none)
                × (s'.blocked_full ≡ true)
                × CannotGrow cb.malloc s'.r
                × ((c' ≡ c) ⊎ (c' ≡ call s' c))))
  unfolding ustream_reserve
  ustream_reserve-MakesRoom call set good len s c w =
      let (p, made, q) =
        ustream_prepare_buf_lem cb.malloc s.string_data extra good w.marks s.r len
          w.reading.buffers_in in
      let s1 : UStream = record s { r = p.1 } in
      let held = prepared-IsBufList extra cb.malloc s.r p q w.reading in
      let room : Option (Option ℕ × (UStream × C)) = some (some (room_at p.1.rest), (s1, c)) in
      let (c', told, why) = set_blocked_lem cb call s.blocked_user true s1 c set in
      let full : Option (Option ℕ × (UStream × C)) =
        set_blocked cb s.blocked_user true (s1, c) >>= λ q. some (none, q) in
      let choose : Bool × BufList → Option (Option ℕ × (UStream × C)) = λ p.
        if p.0
        then some (some (room_at p.1.rest), (record s { r = p.1 }, c))
        else (set_blocked cb s.blocked_user true (record s { r = p.1 }, c) >>= λ q.
            some (none, q)) in
      let enter = ap (λ o. o >>= choose) made in
      elim (Bool-cases p.0) [
        | inl ready ↦ (
          some (room_at p.1.rest),
          s1,
          c,
          enter ∙ if_true p.0 room full ready,
          record { reading = held; writing = w.writing; marks = w.marks },
          q.same_contents,
          refl,
          inl (room_at p.1.rest, refl, has_room p.1.rest (q.ready ready), refl, refl),
        )
        | inr refused ↦ (
          none,
          record s1 { blocked_full = true },
          c',
          enter ∙ if_false p.0 room full refused ∙ ap (λ o. o >>= λ q. some (none, q)) told,
          record { reading = held; writing = w.writing; marks = w.marks },
          q.same_contents,
          refl,
          inr (refl, refl, q.refused refused, why),
        )
      ]

  -- Bytes that arrived where room was reserved go behind all that is held. Then the user is told how many bytes are
  -- held, unless this call comes from that very notice.
  pub ustream_fill_read-Appends :
      (xs : List ℕ) (s : UStream) (c : C)
      → IsStream extra s
      → 0 < length xs
      → Arrived xs s.r.rest
      → (l : BufList) × IsStream extra (record s { r = l })
        × (contents l ≡ contents s.r ++ xs)
        × (((s.pending_read ≡ true)
              × (ustream_fill_read cb (length xs) (s, c) ≡ some (record s { r = l }, c)))
            ⊎ ((s.pending_read ≡ false)
                × (ustream_fill_read cb (length xs) (s, c) ≡ (
                    cb.notify_read
                      (length (contents s.r ++ xs))
                      (record s { r = l; pending_read = true }, c)
                    >>= λ q. some (record q.0 { pending_read = false }, q.1)))))
  unfolding ustream_fill_read
  ustream_fill_read-Appends xs s c w h arrived =
      let (l, run, held, whole) =
        fill_list_lem s.string_data extra s.r xs w.marks w.reading h s.r.rest refl arrived in
      let reset : UStream × C → Option (UStream × C) =
        λ q. some (record q.0 { pending_read = false }, q.1) in
      let tell : BufList → Option (UStream × C) =
        λ l. cb.notify_read l.data_bytes (record s { r = l; pending_read = true }, c) >>= reset in
      let choose : BufList → Option (UStream × C) =
        λ l. if s.pending_read then some (record s { r = l }, c) else tell l in
      let enter = ap (λ o. o >>= choose) run in
      (
        l,
        record { reading = held; writing = w.writing; marks = w.marks },
        whole,
        elim (Bool-cases s.pending_read) [
          | inl pending ↦ inl (
            pending,
            enter ∙ if_true s.pending_read (some (record s { r = l }, c)) (tell l) pending,
          )
          | inr idle ↦ inr (
            idle,
            enter
                ∙ if_false s.pending_read (some (record s { r = l }, c)) (tell l) idle
                ∙ ap (λ n. cb.notify_read n (record s { r = l; pending_read = true }, c) >>= reset)
                    (held.counted ∙ ap length whole),
          )
        ],
      )
