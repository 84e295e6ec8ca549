-- ===== src/Ustream/Reader.antt =====
-- ustream.c: the side of a stream that is read. `none` is an abort, a fault or an access outside a
-- buffer.
use openwrt_libubox.Prelude.{
  ℕ, zero, suc, ◌+◌, ◌-◌, List, [], ◌∷◌, ◌++◌, length, take, Option, none, some, Bool, true, false,
  ◌==◌, ◌&&◌, ltb, if◌then◌else◌, ◌>>=◌,
}
use openwrt_libubox.Prelude.Int.{pos, eq_ℤ}
use openwrt_libubox.Ustream.Buffers.{
  Buf, BufList, slice, copy_to, advance_head, ustream_free_buf, ustream_fixup_string,
  ustream_prepare_buf,
}
use openwrt_libubox.Ustream.Stream.{UStream, Callbacks, smaller, set_blocked}

-- The loop of `ustream_consume`, by the buffers from `buf` on. Behind the last one is NULL or, where no
-- buffer is freed, an endless run over buffers without data.
unfoldable pub consume_from : List Buf → BufList → ℕ → Option BufList
consume_from [] l len = none
consume_from (b ∷ bs) l len =
    let buf_len = b.tail_at - b.data_at in
    if ltb len buf_len
    then some (advance_head len l)
    else (ustream_free_buf l >>= λ l'.
        if len - buf_len == 0 then some l' else consume_from bs l' (len - buf_len))

-- The bytes that a first buffer gives to a reader.
abbrev pub head_data : List Buf → List Buf → List ℕ
head_data [] [] = []
head_data [] (b ∷ bs) = slice b
head_data (b ∷ bs) rest = slice b

-- `ustream_get_read_buf`; no bytes are NULL.
abbrev pub ustream_get_read_buf : UStream → List ℕ
ustream_get_read_buf s = head_data s.r.filled s.r.rest

-- The bytes that were written behind the tail of the buffer at `data_tail` become its data.
abbrev pub fill_from : Bool → List Buf → List Buf → ℕ → Option (List Buf × List Buf)
fill_from string_data filled [] len = none
fill_from string_data filled (b ∷ bs) len =
    let n = smaller len (b.end_at - b.tail_at) in
    let left = len - n in
    ustream_fixup_string string_data (record b { tail_at = b.tail_at + n }) >>= λ b'.
    if left == 0
    then some (filled, b' ∷ bs)
    else fill_from string_data (filled ++ (b' ∷ [])) bs left

unfoldable pub fill_list : Bool → BufList → ℕ → Option BufList
fill_list string_data l len = fill_from string_data l.filled l.rest len >>= λ parts.
    some (record l { filled = parts.0; rest = parts.1; data_bytes = l.data_bytes + len })

-- The room at `data_tail`, where a reserved pointer points.
abbrev pub room_at : List Buf → ℕ
room_at [] = 0
room_at (b ∷ bs) = b.end_at - b.tail_at

-- `ustream_read_buf_full`, by the buffers from `data_tail` on
abbrev pub full_at : List Buf → BufList → Bool
full_at [] l = false
full_at (b ∷ bs) l = b.data_at == 0 && (b.tail_at == b.end_at && eq_ℤ (pos l.buffers) l.max_buffers)

abbrev pub ustream_read_buf_full : UStream → Bool
ustream_read_buf_full s = full_at s.r.rest s.r

module _ {C : Type 0} (cb : Callbacks C) where
  unfoldable pub ustream_consume : ℕ → UStream × C → Option (UStream × C)
  ustream_consume len (s, c) =
      if len == 0
      then some (s, c)
      else if ltb s.r.data_bytes len
      then none
      else (consume_from (s.r.filled ++ s.r.rest) (record s.r { data_bytes = s.r.data_bytes - len })
            len
          >>= λ l. set_blocked cb s.blocked_user false (record s { r = l }, c))

  -- `ustream_reserve`, with the room that it gives; none for NULL.
  unfoldable pub ustream_reserve : ℕ → UStream × C → Option (Option ℕ × (UStream × C))
  ustream_reserve len (s, c) = ustream_prepare_buf cb.malloc s.string_data s.r len >>= λ p.
      if p.0
      then some (some (room_at p.1.rest), (record s { r = p.1 }, c))
      else (set_blocked cb s.blocked_user true (record s { r = p.1 }, c) >>= λ q. some (none, q))

  unfoldable pub ustream_fill_read : ℕ → UStream × C → Option (UStream × C)
  ustream_fill_read len (s, c) = fill_list s.string_data s.r len >>= λ l.
      if s.pending_read
      then some (record s { r = l }, c)
      else (cb.notify_read l.data_bytes (record s { r = l; pending_read = true }, c) >>= λ q.
          some (record q.0 { pending_read = false }, q.1))

  -- A turn of the loop of `ustream_read`, from the chunk that there is: whether it goes on, and the offset
  -- behind the bytes that are read.
  abbrev pub read_turn :
      List ℕ → List ℕ → ℕ → UStream × C → Option (Bool × (ℕ × (List ℕ × (UStream × C))))
  read_turn [] buf len sc = some (false, (len, (buf, sc)))
  read_turn (x ∷ xs) buf len sc =
      let n = smaller (length buf - len) (length (x ∷ xs)) in
      copy_to len (take n (x ∷ xs)) buf >>= λ buf'.
      ustream_consume n sc >>= λ sc'. some (ltb (len + n) (length buf), (len + n, (buf', sc')))

  -- The loop, with fuel.
  unfoldable pub read_from : ℕ → List ℕ → ℕ → UStream × C → Option (ℕ × (List ℕ × (UStream × C)))
  read_from zero buf len sc = none
  read_from (suc fuel) buf len sc = read_turn (ustream_get_read_buf sc.0) buf len sc >>= λ t.
      elim t.0 [ true ↦ read_from fuel t.1.1.0 t.1.0 t.1.1.1 | false ↦ some t.1 ]

  -- Each turn but the last reads a byte.
  unfoldable pub ustream_read : List ℕ → UStream × C → Option (ℕ × (List ℕ × (UStream × C)))
  ustream_read buf sc = read_from (length buf + 1) buf 0 sc
