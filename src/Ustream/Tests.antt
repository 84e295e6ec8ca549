-- ===== src/Ustream/Tests.antt =====
-- A stream with small buffers, and the theorems at concrete inputs.
use openwrt_libubox.Prelude.{
  ℕ, zero, suc, ◌≤◌, ◌<◌, List, [], ◌∷◌, ◌++◌, length, length-take, take, drop, Option, none, some,
  Bool, true, false, ◌≡◌, ◌⊎◌, inl, refl, sym, ap, arith, ◌>>=◌, store,
}
use openwrt_libubox.Prelude.Int.{ℤ, pos}
use openwrt_libubox.Prelude.Segments.{take-all}
use openwrt_libubox.Ustream.Buffers.{
  BufList, ustream_free_buf, ustream_init_buf, ustream_add_buf, advance_head, copy_to,
  ustream_prepare_buf, prepare_new, ustream_alloc_default, tidied, ustream_should_move,
}
use openwrt_libubox.Ustream.Invariant.{contents, IsBufList}
use openwrt_libubox.Ustream.States.{IsStream, ustream_init_defaults-IsStream}
use openwrt_libubox.Ustream.Stream.{UStream, Callbacks, set_blocked, ustream_init_defaults}
use openwrt_libubox.Ustream.Writer.{
  ustream_vprintf, ustream_write_buffered, write_buffered, write_turn, ustream_write,
  ustream_write_pending,
}
use openwrt_libubox.Ustream.Reader.{
  room_at, ustream_reserve, ustream_fill_read, consume_from, ustream_consume, ustream_read,
}
use openwrt_libubox.Ustream.Prepare.{IsMalloc}
use openwrt_libubox.Ustream.Written.{IsWriter, IsWritten, ustream_write-InOrder, bytes_of}
use openwrt_libubox.Ustream.Pending.{Declines}
use openwrt_libubox.Ustream.Emptied.{
  IsQuiet, ustream_write_pending-InOrder, ustream_write_pending-Empties,
}
use openwrt_libubox.Ustream.Consume.{ustream_consume-Drops}
use openwrt_libubox.Ustream.Buffered.{CannotGrow}
use openwrt_libubox.Ustream.Receive.{ustream_reserve-MakesRoom, ustream_fill_read-Appends}
use openwrt_libubox.Ustream.Printed.{IsPrinted, ustream_vprintf-InOrder}
use openwrt_libubox.Ustream.Read.{ustream_read-Front}

-- A list of buffers without any, of at most three buffers of four bytes.
abbrev new_list : BufList
new_list = record {
  filled = [];
  rest = [];
  data_bytes = 0;
  min_buffers = 1;
  max_buffers = pos 3;
  buffer_len = 4;
  buffers = 0;
}

abbrev new_stream : UStream
new_stream = record {
  r = new_list;
  w = new_list;
  string_data = false;
  write_error = false;
  eof = false;
  pending_read = false;
  blocked_user = false;
  blocked_full = false;
  state_changed = false;
}

abbrev pub zeros : ℕ → List ℕ
zeros zero = []
zeros (suc n) = 0 ∷ zeros n

length-zeros : (n : ℕ) → length (zeros n) ≡ n
length-zeros zero = refl
length-zeros (suc n) = omega (arith, length-zeros n)

-- A kind of stream that accepts all, and a user that is told nothing.
abbrev eager : Callbacks (List ℕ)
eager = record {
  malloc = λ l. some (zeros l.buffer_len);
  set_read_blocked = some (λ s c. c);
  write = λ s bs more c. (pos (length bs), c ++ bs);
  notify_read = λ n q. some q;
  notify_write = λ n q. some q;
}

-- One that accepts two bytes at most.
abbrev slow : Callbacks (List ℕ)
slow = record {
  malloc = λ l. some (zeros l.buffer_len);
  set_read_blocked = some (λ s c. c);
  write = λ s bs more c. (pos (length (take 2 bs)), c ++ take 2 bs);
  notify_read = λ n q. some q;
  notify_write = λ n q. some q;
}

take_taken : (n : ℕ) (xs : List ℕ) → take (length (take n xs)) xs ≡ take n xs
take_taken zero xs = refl
take_taken (suc n) [] = refl
take_taken (suc n) (x ∷ xs) = ap (λ l. x ∷ l) (take_taken n xs)

-- Five bytes in two buffers, one of them read in part.
abbrev two_buffers : BufList
two_buffers = record new_list {
  filled = record { cells = 9 ∷ (8 ∷ (7 ∷ (6 ∷ []))); data_at = 1; tail_at = 4; end_at = 4 } ∷ [];
  rest = record { cells = 5 ∷ (4 ∷ (0 ∷ (0 ∷ []))); data_at = 0; tail_at = 2; end_at = 4 } ∷ [];
  data_bytes = 5;
  buffers = 2;
}

abbrev pub half_read : UStream
half_read = record new_stream { r = two_buffers; w = two_buffers }

new_list-IsBufList : IsBufList 0 new_list
new_list-IsBufList = record {
  buffers_in = record { shape = refl; number = refl; limit = λ h. omega arith; len = omega arith };
  counted = refl;
}

two_buffers-IsBufList : IsBufList 0 two_buffers
two_buffers-IsBufList = record {
  buffers_in = record {
    shape = (
      (
        (
          record {
            start = omega arith;
            stop = omega arith;
            room = omega arith;
            cells_in = omega arith;
          },
          omega arith,
        ),
        tt,
      ),
      record {
        start = omega arith;
        stop = omega arith;
        room = omega arith;
        cells_in = omega arith;
      },
      inl (omega arith),
      tt,
    );
    number = refl;
    limit = λ h. omega arith;
    len = omega arith;
  };
  counted = refl;
}

pub half_read-IsStream : IsStream 0 half_read
half_read-IsStream = record {
  reading = two_buffers-IsBufList;
  writing = two_buffers-IsBufList;
  marks = λ e. cc (e);
}

new_stream-IsStream : IsStream 0 new_stream
new_stream-IsStream = record {
  reading = new_list-IsBufList;
  writing = new_list-IsBufList;
  marks = λ e. cc (e);
}

pub zeros-IsMalloc : IsMalloc 0 (λ l. some (zeros l.buffer_len))
zeros-IsMalloc l cells e =
    let same : zeros l.buffer_len ≡ cells = cc (e) in
    omega (arith, ap length same, length-zeros l.buffer_len)

eager-IsWriter : IsWriter eager (λ c. c) 0
eager-IsWriter = record {
  mallocs = zeros-IsMalloc;
  accepts = λ s bs more c.
      (omega arith, ap (λ ys. c ++ ys) (sym (take-all bs (length bs) (omega arith))));
}

eager-IsQuiet : IsQuiet eager (λ c. c) 0
eager-IsQuiet n s c w = (s, c, refl, w, refl, refl)

slow-IsWriter : IsWriter slow (λ c. c) 0
slow-IsWriter = record {
  mallocs = zeros-IsMalloc;
  accepts =
      λ s bs more c. (omega (arith, length-take 2 bs), ap (λ ys. c ++ ys) (sym (take_taken 2 bs)));
}

slow-IsQuiet : IsQuiet slow (λ c. c) 0
slow-IsQuiet n s c w = (s, c, refl, w, refl, refl)

consumed : (ustream_consume eager 4 (half_read, []) >>= λ q. some (contents q.0.r)) ≡ some (4 ∷ [])
unfolding ustream_consume consume_from ustream_free_buf ustream_init_buf ustream_add_buf
    advance_head store set_blocked
consumed = refl

written :
    (ustream_write slow (1 ∷ (2 ∷ (3 ∷ (4 ∷ (5 ∷ []))))) false (new_stream, []) >>= λ q.
    some (q.1.1 ++ contents q.1.0.w))
    ≡ some (1 ∷ (2 ∷ (3 ∷ (4 ∷ (5 ∷ [])))))
unfolding ustream_write ustream_write_buffered write_buffered write_turn ustream_prepare_buf
    prepare_new ustream_alloc_default ustream_init_buf ustream_add_buf store copy_to tidied
    ustream_should_move
written = refl

ustream_consume-Drops_example :
    ((5 < 4) × (ustream_consume eager 4 (half_read, []) ≡ none))
    ⊎ ((4 ≤ 5)
        × ((s' : UStream) × (c' : List ℕ) × (ustream_consume eager 4 (half_read, [])
              ≡ some (s', c'))
            × IsStream 0 s'
            × (contents s'.r ≡ 4 ∷ [])
            × (s'.w ≡ two_buffers)
            × (◌≡◌ {A = ℕ} 4 0 ⊎ (s'.blocked_full ≡ false))))
ustream_consume-Drops_example =
    ustream_consume-Drops eager 0 (λ s c. c) half_read [] 4 refl half_read-IsStream

ustream_read-Front_example :
    (n : ℕ) × (buf' : List ℕ) × (s' : UStream) × (c' : List ℕ) × (ustream_read eager
        (zeros 4)
        (half_read, [])
      ≡ some (n, (buf', (s', c'))))
    × IsStream 0 s'
    × ((n ≤ 4) × (n ≤ 5))
    × ((n ≡ 4) ⊎ (n ≡ 5))
    × (buf' ≡ take n (contents two_buffers) ++ drop n (zeros 4))
    × (contents s'.r ≡ drop n (contents two_buffers))
    × (s'.w ≡ two_buffers)
ustream_read-Front_example =
    ustream_read-Front eager 0 (λ s c. c) refl (zeros 4) half_read [] half_read-IsStream

ustream_write-InOrder_example :
    (r : ℤ × (UStream × List ℕ)) × (ustream_write slow (zeros 20) false (new_stream, []) ≡ some r)
    × IsWritten slow (λ c. c) 0 (zeros 20) (new_stream, []) r
ustream_write-InOrder_example =
    ustream_write-InOrder slow (λ c. c) 0 slow-IsWriter new_stream [] (zeros 20) false
      new_stream-IsStream

ustream_write_pending-InOrder_example :
    (done : Bool) × (s' : UStream) × (c' : List ℕ) × (ustream_write_pending slow (half_read, 1 ∷ [])
      ≡ some (done, (s', c')))
    × IsStream 0 s'
    × (bytes_of slow (λ c. c) 0 (s', c') ≡ 1 ∷ (8 ∷ (7 ∷ (6 ∷ (5 ∷ (4 ∷ []))))))
    × (((done ≡ true) × (contents s'.w ≡ []))
        ⊎ ((done ≡ false)
            × ((half_read.write_error ≡ true) ⊎ Declines slow (λ c. c) 0 half_read (1 ∷ []))))
ustream_write_pending-InOrder_example =
    ustream_write_pending-InOrder slow (λ c. c) 0 slow-IsQuiet slow-IsWriter half_read (1 ∷ [])
      half_read-IsStream

ustream_write_pending-Empties_example :
    (s' : UStream) × (c' : List ℕ) × (ustream_write_pending eager (half_read, 1 ∷ [])
      ≡ some (true, (s', c')))
    × (contents s'.w ≡ [])
    × (c' ≡ 1 ∷ (8 ∷ (7 ∷ (6 ∷ (5 ∷ (4 ∷ []))))))
ustream_write_pending-Empties_example =
    ustream_write_pending-Empties eager (λ c. c) 0 eager-IsQuiet eager-IsWriter
      (λ s bs more c. refl) half_read (1 ∷ []) half_read-IsStream refl

ustream_reserve-MakesRoom_example :
    (r : Option ℕ) × (s' : UStream) × (c' : List ℕ) × (ustream_reserve eager 9 (half_read, [])
      ≡ some (r, (s', c')))
    × IsStream 0 s'
    × (contents s'.r ≡ contents two_buffers)
    × (s'.w ≡ two_buffers)
    × (((n : ℕ) × (r ≡ some n) × (0 < n) × (n ≡ room_at s'.r.rest) × (c' ≡ []))
        ⊎ ((r ≡ none)
            × (s'.blocked_full ≡ true)
            × CannotGrow eager.malloc s'.r
            × ((c' ≡ []) ⊎ (c' ≡ []))))
ustream_reserve-MakesRoom_example =
    ustream_reserve-MakesRoom eager 0 (λ s c. c) refl zeros-IsMalloc 9 half_read []
      half_read-IsStream

ustream_fill_read-Appends_example :
    (l : BufList) × IsStream 0 (record half_read { r = l })
    × (contents l ≡ contents two_buffers ++ (0 ∷ (0 ∷ [])))
    × (((half_read.pending_read ≡ true)
          × (ustream_fill_read eager 2 (half_read, []) ≡ some (record half_read { r = l }, [])))
        ⊎ ((half_read.pending_read ≡ false)
            × (ustream_fill_read eager 2 (half_read, []) ≡ (
                eager.notify_read 7 (record half_read { r = l; pending_read = true }, []) >>= λ q.
                some (record q.0 { pending_read = false }, q.1)))))
ustream_fill_read-Appends_example =
    ustream_fill_read-Appends eager 0 (0 ∷ (0 ∷ [])) half_read [] half_read-IsStream (omega arith)
      (omega arith, refl)

ustream_vprintf-InOrder_example :
    (r : ℤ × (UStream × List ℕ)) × (ustream_vprintf slow
        (1 ∷ (2 ∷ (3 ∷ (4 ∷ []))))
        true
        (half_read, [])
      ≡ some r)
    × IsPrinted slow (λ c. c) 0 (1 ∷ (2 ∷ (3 ∷ (4 ∷ [])))) true (half_read, []) r
ustream_vprintf-InOrder_example =
    ustream_vprintf-InOrder slow (λ c. c) 0 slow-IsWriter (1 ∷ (2 ∷ (3 ∷ (4 ∷ [])))) true half_read
      [] half_read-IsStream

abbrev zeroed : BufList
zeroed = record new_list { min_buffers = 0; max_buffers = pos 0; buffer_len = 0 }

ustream_init_defaults-IsStream_example :
    IsStream 0 (ustream_init_defaults (record new_stream { r = zeroed; w = zeroed; eof = true }))
    × (contents (ustream_init_defaults (record new_stream { r = zeroed; w = zeroed; eof = true })).r
        ≡ [])
    × (contents (ustream_init_defaults (record new_stream { r = zeroed; w = zeroed; eof = true })).w
        ≡ [])
ustream_init_defaults-IsStream_example =
    ustream_init_defaults-IsStream 0 (record new_stream { r = zeroed; w = zeroed; eof = true }) refl
      refl refl refl (λ e. cc (e))

-- A stream that is blocked as full, whose kind has no `set_read_blocked`: the call of NULL.
unset_call :
    ustream_consume
      (record eager { set_read_blocked = none })
      1
      (record half_read { blocked_full = true }, [])
    ≡ none
unfolding ustream_consume consume_from ustream_free_buf ustream_init_buf ustream_add_buf
    advance_head store set_blocked
unset_call = refl
