-- ===== src/Ustream/Slices.antt =====
-- The data of a buffer under the copies, moves and marks that the buffers' functions make.
use mathlib.Core.List.{append_assoc}
use openwrt_libubox.Prelude.{
  ℕ, ◌+◌, ◌-◌, ◌≤◌, ◌<◌, ◌≡◌, refl, sym, ap, ◌∙◌, arith, List, [], ◌++◌, length, length-append,
  length-take, length-drop, length-set, take, drop, set, some, Bool, true, false, store_lem,
}
use openwrt_libubox.Prelude.Segments.{take-append, drop_front, drop-drop, take_behind, set_behind}
use openwrt_libubox.Ustream.Buffers.{
  Buf, slice, copy_to, move_data, ustream_init_buf, ustream_fixup_string,
}

-- A buffer whose pointers are in order, with some bytes behind its end.
pub record IsBuf (extra : ℕ) (b : Buf) : Type 0 where
  pub start : b.data_at ≤ b.tail_at
  pub stop : b.tail_at ≤ b.end_at
  pub room : 0 < b.end_at
  pub cells_in : b.end_at + extra ≤ length b.cells

pub length-slice : (extra : ℕ) (b : Buf) → IsBuf extra b → length (slice b) ≡ b.tail_at - b.data_at
length-slice extra b w =
    length-take (b.tail_at - b.data_at) (drop b.data_at b.cells)
    ∙ omega (arith, length-drop b.data_at b.cells, w.start, w.stop, w.cells_in)

pub copy_to_lem :
    (p : ℕ) (xs mem : List ℕ)
    → p + length xs ≤ length mem
    → copy_to p xs mem ≡ some (take p mem ++ (xs ++ drop (p + length xs) mem))
unfolding copy_to
copy_to_lem p xs mem h = ground arith

pub length-copied :
    (p : ℕ) (xs mem : List ℕ)
    → p + length xs ≤ length mem
    → length (take p mem ++ (xs ++ drop (p + length xs) mem)) ≡ length mem
length-copied p xs mem h = omega (
  arith,
  length-append (take p mem) (xs ++ drop (p + length xs) mem),
  length-append xs (drop (p + length xs) mem),
  length-take p mem,
  length-drop (p + length xs) mem,
)

-- Bytes put at the tail of a buffer.
pub slice-filled :
    (extra : ℕ) (b : Buf) (xs post : List ℕ)
    → IsBuf extra b
    → take
        (b.tail_at + length xs - b.data_at)
        (drop b.data_at (take b.tail_at b.cells ++ (xs ++ post)))
      ≡ slice b ++ xs
slice-filled extra b xs post w =
    ap (take (b.tail_at + length xs - b.data_at)) (
      drop_front b.data_at b.tail_at b.cells (xs ++ post) w.start
        (omega (arith, w.stop, w.cells_in))
      ∙ sym (append_assoc (slice b) xs post))
    ∙ take-append (slice b ++ xs) post (b.tail_at + length xs - b.data_at)
        (omega (arith, length-append (slice b) xs, length-slice extra b w, w.start))

-- The data of a buffer without its first bytes.
pub slice-advanced :
    (b : Buf) (n : ℕ)
    → take (b.tail_at - (b.data_at + n)) (drop (b.data_at + n) b.cells) ≡ drop n (slice b)
slice-advanced b n =
    ap (take (b.tail_at - (b.data_at + n))) (drop-drop b.data_at n b.cells)
    ∙ ap (λ k. take k (drop n (drop b.data_at b.cells))) (omega arith)
    ∙ take_behind n (b.tail_at - b.data_at) (drop b.data_at b.cells)

-- A buffer whose data was moved to its start.
pub move_data-kept :
    (extra : ℕ) (b : Buf)
    → IsBuf extra b
    → (b' : Buf) × (move_data b ≡ some b')
      × IsBuf extra b'
      × (slice b' ≡ slice b)
      × (b'.data_at ≡ 0)
      × (b'.tail_at ≡ b.tail_at - b.data_at)
      × (b'.end_at ≡ b.end_at)
unfolding move_data
move_data-kept extra b w =
    let len = length-slice extra b w in
    let fits : 0 + length (slice b) ≤ length b.cells = omega (arith, len, w.stop, w.cells_in) in
    let cells : List ℕ = [] ++ (slice b ++ drop (0 + length (slice b)) b.cells) in
    (
      record { cells = cells; data_at = 0; tail_at = b.tail_at - b.data_at; end_at = b.end_at },
      rw (copy_to_lem 0 (slice b) b.cells fits) refl,
      record {
        start = omega arith;
        stop = omega (arith, w.stop);
        room = w.room;
        cells_in = omega (arith, length-copied 0 (slice b) b.cells fits, w.cells_in);
      },
      take-append (slice b) (drop (0 + length (slice b)) b.cells) (b.tail_at - b.data_at - 0)
          (omega (arith, len)),
      refl,
      refl,
      refl,
    )

pub fixup-kept :
    (string_data : Bool) (extra : ℕ) (b : Buf)
    → IsBuf extra b
    → (string_data ≡ true → 1 ≤ extra)
    → (b' : Buf) × (ustream_fixup_string string_data b ≡ some b')
      × IsBuf extra b'
      × (slice b' ≡ slice b)
      × (b'.data_at ≡ b.data_at)
      × (b'.tail_at ≡ b.tail_at)
      × (b'.end_at ≡ b.end_at)
unfolding ustream_fixup_string
fixup-kept false extra b w h = (b, refl, w, refl, refl, refl, refl)
fixup-kept true extra b w h =
    let one : 1 ≤ extra = h refl in
    (
      record b { cells = set b.cells b.tail_at 0 },
      rw (store_lem b.cells b.tail_at 0 (omega (arith, one, w.stop, w.cells_in))) refl,
      record {
        start = w.start;
        stop = w.stop;
        room = w.room;
        cells_in = omega (arith, length-set b.cells b.tail_at 0, w.cells_in);
      },
      set_behind (b.tail_at - b.data_at) b.data_at b.tail_at b.cells 0 (omega (arith, w.start)),
      refl,
      refl,
      refl,
    )

pub init-IsBuf :
    (extra len : ℕ) (b : Buf)
    → 0 < len
    → len + extra ≤ length b.cells
    → (b' : Buf) × (ustream_init_buf b len ≡ some b')
      × IsBuf extra b'
      × (b'.data_at ≡ 0)
      × (b'.tail_at ≡ 0)
      × (b'.end_at ≡ len)
unfolding ustream_init_buf
init-IsBuf extra len b h l = (
  record { cells = set b.cells 0 0; data_at = 0; tail_at = 0; end_at = len },
  ground (arith, store_lem b.cells 0 0 (omega arith)),
  record {
    start = omega arith;
    stop = omega arith;
    room = h;
    cells_in = omega (arith, length-set b.cells 0 0);
  },
  refl,
  refl,
  refl,
)
