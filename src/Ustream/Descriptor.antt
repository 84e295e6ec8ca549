-- ===== src/Ustream/Descriptor.antt =====
-- ustream-fd.c: streams of file descriptors. `read` and `write` of the kernel are arguments, on a state
-- of its own. `none` is a loop without fuel, or what it is for the streams.
mod Writing
mod Storing
mod Reading
mod Tests
use openwrt_libubox.Prelude.{
  ℕ, zero, suc, ◌+◌, List, [], ◌∷◌, ◌++◌, length, drop, Option, none, some, Bool, true, false, not,
  ◌==◌, ◌&&◌, ◌||◌, if◌then◌else◌, ◌>>=◌,
}
use openwrt_libubox.Prelude.Int.{ℤ, pos, negsuc}
use openwrt_libubox.Ustream.Buffers.{Buf, BufList, copy_to}
use openwrt_libubox.Ustream.Stream.{UStream, Callbacks, ustream_state_change, ustream_init_defaults}
use openwrt_libubox.Ustream.Writer.{ustream_write_pending}
use openwrt_libubox.Ustream.Reader.{ustream_reserve, ustream_fill_read}

-- What `write` gives: a number of bytes, or an error: EINTR, one to try again after, or another.
pub data WriteResult : Type 0 where
  wrote : ℕ → WriteResult
  write_interrupted : WriteResult
  write_again : WriteResult
  write_failed : WriteResult

-- What `read` gives, alike.
pub data ReadResult : Type 0 where
  got : List ℕ → ReadResult
  read_interrupted : ReadResult
  read_again : ReadResult
  read_failed : ReadResult

pub record Kernel (W : Type 0) : Type 0 where
  pub sys_read : ℕ → W → ReadResult × W
  pub sys_write : List ℕ → W → WriteResult × W

-- The descriptor of `struct ustream_fd`: the flags ULOOP_READ and ULOOP_WRITE that are set, and `error`.
pub record Descriptor (W : Type 0) : Type 0 where
  pub reads : Bool
  pub writes : Bool
  pub error : Bool
  pub world : W

abbrev has_head : List Buf → List Buf → Bool
has_head [] [] = false
has_head filled rest = true

-- How a turn of the loop of `ustream_fd_write` ends: with the bytes that are left, or with -1.
pub data WriteTurn (W : Type 0) : Type 0 where
  turn_on : ℕ → List ℕ → W → WriteTurn W
  turn_break : ℕ → List ℕ → W → WriteTurn W
  turn_failed : W → WriteTurn W

module _ {W : Type 0} where
  unfoldable pub ustream_fd_set_uloop : UStream → Bool → Descriptor W → Descriptor W
  ustream_fd_set_uloop s write fd = record fd {
    reads = not (s.blocked_user || s.blocked_full) && not s.eof;
    writes =
        write || (has_head s.w.filled s.w.rest && (not (s.w.data_bytes == 0) && not s.write_error));
  }

  abbrev pub ustream_fd_set_read_blocked : UStream → Descriptor W → Descriptor W
  ustream_fd_set_read_blocked s fd = ustream_fd_set_uloop s false fd

  abbrev pub fd_write_turn : List ℕ → ℕ → WriteResult × W → WriteTurn W
  fd_write_turn buf ret (wrote n, w) = turn_on (ret + n) (drop n buf) w
  fd_write_turn buf ret (write_interrupted, w) = turn_on ret buf w
  fd_write_turn buf ret (write_again, w) = turn_break ret buf w
  fd_write_turn buf ret (write_failed, w) = turn_failed w

  -- The loop goes on with `next`.
  abbrev pub after_turn :
      (List ℕ → ℕ → W → Option (Option (ℕ × List ℕ) × W))
      → WriteTurn W
      → Option (Option (ℕ × List ℕ) × W)
  after_turn next (turn_on ret buf w) = next buf ret w
  after_turn next (turn_break ret buf w) = some (some (ret, buf), w)
  after_turn next (turn_failed w) = some (none, w)

  -- The end of `ustream_fd_write`.
  abbrev pub fd_write_end : UStream → Descriptor W → Option (ℕ × List ℕ) × W → ℤ × Descriptor W
  fd_write_end s fd (none, w) = (negsuc 0, record fd { world = w })
  fd_write_end s fd (some (ret, []), w) = (pos ret, record fd { world = w })
  fd_write_end s fd (some (ret, x ∷ xs), w) =
      (pos ret, ustream_fd_set_uloop s true (record fd { world = w }))

-- What `read` stores behind the tail of the buffer at `data_tail`.
abbrev pub store_behind : List ℕ → BufList → List Buf → Option BufList
store_behind xs l [] = none
store_behind xs l (b ∷ bs) = copy_to b.tail_at xs b.cells >>= λ cells.
    some (record l { rest = record b { cells = cells } ∷ bs })

-- What `ustream_fd_read_pending` does at the end of the file.
unfoldable pub at_eof : {W : Type 0} → UStream → Descriptor W → UStream × Descriptor W
at_eof s fd =
    let s' = record s {
      eof = true;
      state_changed = if s.eof then s.state_changed else (ustream_state_change s).state_changed;
    } in
    (s', ustream_fd_set_uloop s' false fd)

-- A turn of the loop of `ustream_fd_read_pending`: whether it goes on, and `*more`.
module _ {W : Type 0} (cb : Callbacks (Descriptor W)) where
  -- behind `read`
  abbrev pub after_read :
      Bool
      → UStream
      → Descriptor W
      → ReadResult × W
      → Option (Bool × (Bool × (UStream × Descriptor W)))
  after_read more s fd (got [], w) = some (false, (more, at_eof s (record fd { world = w })))
  after_read more s fd (got (x ∷ xs), w) = store_behind (x ∷ xs) s.r s.r.rest >>= λ l.
      ustream_fill_read cb (length (x ∷ xs)) (record s { r = l }, record fd { world = w }) >>= λ sc.
      some (true, (true, sc))
  after_read more s fd (read_interrupted, w) = some (true, (more, (s, record fd { world = w })))
  after_read more s fd (read_again, w) = some (false, (more, (s, record fd { world = w })))
  after_read more s fd (read_failed, w) = some (false, (more, at_eof s (record fd { world = w })))

  -- behind `ustream_reserve`
  abbrev pub after_reserve :
      Kernel W
      → Bool
      → Option ℕ × (UStream × Descriptor W)
      → Option (Bool × (Bool × (UStream × Descriptor W)))
  after_reserve k more (none, sc) = some (false, (more, sc))
  after_reserve k more (some n, (s, fd)) = after_read more s fd (k.sys_read n fd.world)

  unfoldable pub fd_read_turn :
      Kernel W → Bool → UStream × Descriptor W → Option (Bool × (Bool × (UStream × Descriptor W)))
  fd_read_turn k more (s, fd) =
      if s.blocked_user || s.blocked_full
      then some (false, (more, (s, fd)))
      else (ustream_reserve cb 1 (s, fd) >>= after_reserve k more)

  abbrev pub next_read :
      (Bool → UStream × Descriptor W → Option (Bool × (UStream × Descriptor W)))
      → Bool × (Bool × (UStream × Descriptor W))
      → Option (Bool × (UStream × Descriptor W))
  next_read next (true, (more, sc)) = next more sc
  next_read next (false, r) = some r

  -- The loop, with fuel.
  unfoldable pub ustream_fd_read_pending :
      Kernel W → ℕ → Bool → UStream × Descriptor W → Option (Bool × (UStream × Descriptor W))
  ustream_fd_read_pending k zero more sc = none
  ustream_fd_read_pending k (suc fuel) more sc =
      fd_read_turn k more sc >>= next_read (ustream_fd_read_pending k fuel)

module _ {W : Type 0} (k : Kernel W) where
  -- The loop, with fuel: what is returned but for -1, and the bytes that are left.
  unfoldable pub fd_write_from : ℕ → List ℕ → ℕ → W → Option (Option (ℕ × List ℕ) × W)
  fd_write_from zero buf ret w = none
  fd_write_from (suc fuel) [] ret w = some (some (ret, []), w)
  fd_write_from (suc fuel) (x ∷ xs) ret w =
      after_turn (fd_write_from fuel) (fd_write_turn (x ∷ xs) ret (k.sys_write (x ∷ xs) w))

  unfoldable pub ustream_fd_write :
      ℕ → UStream → List ℕ → Bool → Descriptor W → Option (ℤ × Descriptor W)
  ustream_fd_write fuel s buf more fd =
      fd_write_from fuel buf 0 fd.world >>= λ r. some (fd_write_end s fd r)

module _ {W : Type 0} (cb : Callbacks (Descriptor W)) (k : Kernel W) where
  -- The part of `__ustream_fd_poll` for ULOOP_WRITE, and the part for an error of the descriptor.
  abbrev poll_write : Bool → UStream × Descriptor W → Option (UStream × Descriptor W)
  poll_write false sc = some sc
  poll_write true sc = ustream_write_pending cb sc >>= λ r.
      some (r.1.0, if r.0 then ustream_fd_set_uloop r.1.0 false r.1.1 else r.1.1)

  abbrev poll_error : UStream × Descriptor W → UStream × Descriptor W
  poll_error (s, fd) =
      if fd.error && not s.write_error
      then (let s' = record (ustream_state_change s) { write_error = true } in
          (s', ustream_fd_set_uloop s' false fd))
      else (s, fd)

  -- `__ustream_fd_poll` for the events ULOOP_READ and ULOOP_WRITE
  unfoldable pub fd_poll :
      ℕ → Bool → Bool → UStream × Descriptor W → Option (Bool × (UStream × Descriptor W))
  fd_poll fuel read write sc =
      (if read then ustream_fd_read_pending cb k fuel false sc else some (false, sc)) >>= λ r.
      poll_write write r.1 >>= λ sc'. some (r.0, poll_error sc')

  unfoldable pub ustream_fd_poll :
      ℕ → UStream × Descriptor W → Option (Bool × (UStream × Descriptor W))
  ustream_fd_poll fuel sc = fd_poll fuel true true sc

unfoldable pub ustream_fd_init : {W : Type 0} → UStream × Descriptor W → UStream × Descriptor W
ustream_fd_init (s, fd) = let s' = ustream_init_defaults s in (s', ustream_fd_set_uloop s' false fd)
