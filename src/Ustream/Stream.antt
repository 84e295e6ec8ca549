-- ===== src/Ustream/Stream.antt =====
-- ustream.h: a stream, and ustream.c: what a program reads and writes. `none` is an abort, a fault or an
-- access outside a buffer.
use openwrt_libubox.Prelude.{
  ℕ, List, Option, some, ◌>>=◌, Bool, true, false, not, ◌==◌, ◌||◌, ltb, if◌then◌else◌,
}
use openwrt_libubox.Prelude.Int.{ℤ, pos, negsuc, eq_ℤ}
use openwrt_libubox.Ustream.Buffers.{BufList, ustream_free_buffers}

-- `struct ustream`. `pending_read` is the bit CB_PENDING_READ, `blocked_user` and `blocked_full` are the
-- bits of `read_blocked`; `state_changed` is whether the timer `state_change` is set.
pub record UStream : Type 0 where
  pub r : BufList
  pub w : BufList
  pub string_data : Bool
  pub write_error : Bool
  pub eof : Bool
  pub pending_read : Bool
  pub blocked_user : Bool
  pub blocked_full : Bool
  pub state_changed : Bool

-- What is not ustream.c: `malloc`, and the functions of the kind of stream and of its user, which act on
-- the state `C` of the program. Where `notify_read` or `notify_write` is not set it is one
-- that leaves all as it is.
pub record Callbacks (C : Type 0) : Type 0 where
  pub malloc : BufList → Option (List ℕ)
  pub set_read_blocked : Option (UStream → C → C)
  pub write : UStream → List ℕ → Bool → C → ℤ × C
  pub notify_read : ℕ → UStream × C → Option (UStream × C)
  pub notify_write : ℕ → UStream × C → Option (UStream × C)

-- `min` of C
abbrev pub smaller : ℕ → ℕ → ℕ
smaller m n = if ltb m n then m else n

-- `ustream_state_change`
abbrev pub ustream_state_change : UStream → UStream
ustream_state_change s = record s { state_changed = true }

abbrev pub ustream_read_blocked : UStream → Bool
ustream_read_blocked s = s.blocked_user

abbrev pub ustream_pending_data : UStream → Bool → ℕ
ustream_pending_data s write = if write then s.w.data_bytes else s.r.data_bytes

unfoldable pub ustream_write_error : UStream → UStream
ustream_write_error s = record s {
  state_changed = if s.write_error then s.state_changed else (ustream_state_change s).state_changed;
  write_error = true;
}

module _ {C : Type 0} (cb : Callbacks C) where
  -- `__ustream_set_read_blocked`, with the two bits; a call of a function that is not set faults.
  unfoldable pub set_blocked : Bool → Bool → UStream × C → Option (UStream × C)
  set_blocked user full (s, c) =
      let s' = record s { blocked_user = user; blocked_full = full } in
      let same = if s.blocked_user || s.blocked_full then user || full else not (user || full) in
      if same then some (s', c) else (cb.set_read_blocked >>= λ call. some (s', call s' c))

  unfoldable pub ustream_set_read_blocked : Bool → UStream × C → Option (UStream × C)
  ustream_set_read_blocked set (s, c) = set_blocked set s.blocked_full (s, c)

-- The fields of one direction that are not set, and its counts.
abbrev pub default_list : ℕ → ℤ → ℕ → BufList → BufList
default_list min max len l = record l {
  min_buffers = if l.min_buffers == 0 then min else l.min_buffers;
  max_buffers = if eq_ℤ l.max_buffers (pos 0) then max else l.max_buffers;
  buffer_len = if l.buffer_len == 0 then len else l.buffer_len;
  buffers = 0;
  data_bytes = 0;
}

unfoldable pub ustream_init_defaults : UStream → UStream
ustream_init_defaults s = record s {
  r = default_list 1 (pos 1) 4096 s.r;
  w = default_list 2 (negsuc 0) 256 s.w;
  write_error = false;
  eof = false;
  blocked_user = false;
  blocked_full = false;
}

-- `ustream_free`, behind the function `free` of the kind of stream.
unfoldable pub ustream_free : UStream → UStream
ustream_free s = record s {
  r = ustream_free_buffers s.r;
  w = ustream_free_buffers s.w;
  state_changed = false;
}

-- `ustream_state_change_cb`, when the timer is done, with the user's `notify_state`.
unfoldable pub ustream_state_change_cb :
    {C : Type 0} → (UStream × C → Option (UStream × C)) → UStream × C → Option (UStream × C)
ustream_state_change_cb notify_state (s, c) =
    let s' = record s { state_changed = false } in
    notify_state (if s.write_error then record s' { w = ustream_free_buffers s.w } else s', c)
