-- ===== src/Ustream/Writer.antt =====
-- ustream.c: the side of a stream that is written. `none` is an abort, a fault or an access outside a
-- buffer.
use openwrt_libubox.Prelude.{
  ℕ, zero, suc, ◌+◌, ◌-◌, List, [], ◌∷◌, ◌++◌, length, take, drop, Option, none, some, Bool, true,
  false, not, ◌==◌, ◌&&◌, ltb, if◌then◌else◌, ◌>>=◌,
}
use openwrt_libubox.Prelude.Int.{ℤ, pos, negsuc}
use openwrt_libubox.Ustream.Buffers.{
  Buf, BufList, slice, copy_to, advance_head, ustream_free_buf, ustream_prepare_buf,
}
use openwrt_libubox.Ustream.Stream.{
  UStream, Callbacks, smaller, ustream_state_change, ustream_write_error,
}

-- The buffer at `data_tail` with more bytes at its tail, and the number of bytes that it takes.
abbrev pub put_at : List ℕ → BufList → List Buf → Option (ℕ × BufList)
put_at xs l [] = none
put_at xs l (b ∷ bs) =
    let n = smaller (length xs) (b.end_at - b.tail_at) in
    copy_to b.tail_at (take n xs) b.cells >>= λ cells. some (
      n,
      record l {
        rest = record b { cells = cells; tail_at = b.tail_at + n } ∷ bs;
        data_bytes = l.data_bytes + n;
      },
    )

-- A turn of the loop of `ustream_write_buffered`; no number of bytes is its `break`.
abbrev pub put_if : Bool → List ℕ → BufList → Option (Option ℕ × BufList)
put_if false xs l = some (none, l)
put_if true xs l = put_at xs l l.rest >>= λ q. some (some q.0, q.1)

unfoldable pub write_turn :
    (BufList → Option (List ℕ)) → BufList → List ℕ → Option (Option ℕ × BufList)
write_turn malloc l buf =
    ustream_prepare_buf malloc false l (length buf) >>= λ r. put_if r.0 buf r.1

-- The loop, with fuel.
unfoldable pub write_buffered :
    (BufList → Option (List ℕ)) → ℕ → BufList → List ℕ → ℕ → Option (ℕ × BufList)
write_buffered malloc zero l buf wr = none
write_buffered malloc (suc fuel) l [] wr = some (wr, l)
write_buffered malloc (suc fuel) l (x ∷ xs) wr = write_turn malloc l (x ∷ xs) >>= λ t. elim t.0 [
  | none ↦ some (wr, t.1)
  | some n ↦ write_buffered malloc fuel t.1 (drop n (x ∷ xs)) (wr + n)
]

-- Each turn takes a byte.
unfoldable pub ustream_write_buffered :
    (BufList → Option (List ℕ)) → BufList → List ℕ → ℕ → Option (ℕ × BufList)
ustream_write_buffered malloc l buf wr = write_buffered malloc (length buf + 1) l buf wr

-- Whether there is a buffer behind the first.
abbrev pub has_next : List Buf → Bool
has_next [] = false
has_next (b ∷ []) = false
has_next (b ∷ (c ∷ cs)) = true

module _ {C : Type 0} (cb : Callbacks C) where
  abbrev pub write_rest : UStream → C → List ℕ → ℕ → Option (ℤ × (UStream × C))
  write_rest s c buf wr =
      ustream_write_buffered cb.malloc s.w buf wr >>= λ r. some (pos r.0, (record s { w = r.1 }, c))

  -- What `ustream_write` does with what `write` gave.
  abbrev pub after_write : List ℕ → UStream → ℤ × C → Option (ℤ × (UStream × C))
  after_write buf s (pos n, c) =
      if n == length buf then some (pos n, (s, c)) else write_rest s c (drop n buf) n
  after_write buf s (negsuc n, c) = some (negsuc n, (ustream_write_error s, c))

  unfoldable pub ustream_write : List ℕ → Bool → UStream × C → Option (ℤ × (UStream × C))
  ustream_write buf more (s, c) =
      if s.write_error
      then some (pos 0, (s, c))
      else if s.w.data_bytes == 0
      then after_write buf s (cb.write s buf more c)
      else write_rest s c buf 0

  -- `ustream_vprintf`, with the bytes that the format gives and whether there is memory for them: behind
  -- `ustream_prepare_buf`, where `vsnprintf` writes what has room with its NUL.
  abbrev pub print_at :
      List ℕ → Bool → UStream → C → BufList → List Buf → Option (ℤ × (UStream × C))
  print_at text memory s c l [] = none
  print_at text memory s c l (b ∷ bs) =
      let buflen = b.end_at - b.tail_at in
      let maxlen = length text in
      let wr = if ltb maxlen buflen then maxlen else buflen - 1 in
      copy_to b.tail_at (take wr text ++ (0 ∷ [])) b.cells >>= λ cells.
      let b' = record b { cells = cells; tail_at = b.tail_at + wr } in
      let s' = record s { w = record l { rest = b' ∷ bs; data_bytes = l.data_bytes + wr } } in
      if ltb maxlen buflen
      then some (pos wr, (s', c))
      else if memory
      then write_rest s' c (drop wr text) wr
      else some (pos wr, (s', c))

  abbrev pub print_prepared :
      List ℕ → Bool → UStream → C → Bool × BufList → Option (ℤ × (UStream × C))
  print_prepared text memory s c (false, l) = some (pos 0, (record s { w = l }, c))
  print_prepared text memory s c (true, l) = print_at text memory s c l l.rest

  unfoldable pub ustream_vprintf : List ℕ → Bool → UStream × C → Option (ℤ × (UStream × C))
  ustream_vprintf text memory (s, c) =
      if s.write_error
      then some (pos 0, (s, c))
      else if s.w.data_bytes == 0
      then (if ltb (length text) 256
          then after_write text s (cb.write s text false c)
          else if memory
          then ustream_write text false (s, c)
          else some (pos 0, (s, c)))
      else (ustream_prepare_buf cb.malloc false s.w 1 >>= print_prepared text memory s c)

  unfoldable pub ustream_printf : List ℕ → Bool → UStream × C → Option (ℤ × (UStream × C))
  ustream_printf text memory (s, c) =
      if s.write_error then some (pos 0, (s, c)) else ustream_vprintf text memory (s, c)

  -- A turn of the loop of `ustream_write_pending`, from what `write` gave: whether it goes on, and how many
  -- bytes were accepted.
  abbrev pub pending_turn : Buf → UStream → ℤ × C → Option (Bool × (ℕ × (UStream × C)))
  pending_turn b s (negsuc n, c) = some (false, (0, (ustream_write_error s, c)))
  pending_turn b s (pos n, c) =
      let l = record s.w { data_bytes = s.w.data_bytes - n } in
      if n == 0
      then some (false, (0, (s, c)))
      else if ltb n (b.tail_at - b.data_at)
      then some (false, (n, (record s { w = advance_head n l }, c)))
      else (ustream_free_buf l >>= λ l'. some (true, (n, (record s { w = l' }, c))))

  -- The loop, by the buffers from `buf` on. `none` also where `data_bytes` counts more than these hold.
  unfoldable pub pending_from : List Buf → UStream × C → ℕ → Option (ℕ × (UStream × C))
  pending_from [] (s, c) wr = if s.w.data_bytes == 0 then some (wr, (s, c)) else none
  pending_from (b ∷ bs) (s, c) wr =
      if s.w.data_bytes == 0
      then some (wr, (s, c))
      else (pending_turn b s (cb.write s (slice b) (has_next (s.w.filled ++ s.w.rest)) c) >>= λ t.
          elim t.0 [ true ↦ pending_from bs t.1.1 (wr + t.1.0) | false ↦ some (wr + t.1.0, t.1.1) ])

  -- What `ustream_write_pending` does behind the loop.
  unfoldable pub pending_done : ℕ → UStream × C → Option (Bool × (UStream × C))
  pending_done wr sc = cb.notify_write wr sc >>= λ q.
      let s = q.0 in
      let s' =
        if s.eof && (not (wr == 0) && s.w.data_bytes == 0) then ustream_state_change s else s in
      some (s'.w.data_bytes == 0, (s', q.1))

  unfoldable pub ustream_write_pending : UStream × C → Option (Bool × (UStream × C))
  ustream_write_pending (s, c) =
      if s.write_error
      then some (false, (s, c))
      else (pending_from (s.w.filled ++ s.w.rest) (s, c) 0 >>= λ r. pending_done r.0 r.1)
