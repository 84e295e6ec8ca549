-- ===== src/Ustream/Descriptor/Storing.antt =====
-- Bytes that `read` stores where room was reserved.
use mathlib.Core.Path.{subst}
use openwrt_libubox.Prelude.{
  ℕ, ◌+◌, ◌-◌, ◌≤◌, ◌<◌, ◌≡◌, refl, sym, ap, ◌∙◌, arith, List, [], ◌∷◌, ◌++◌, length, length-take,
  take, drop, Option, some, false, ◌>>=◌,
}
use openwrt_libubox.Prelude.Segments.{take-append, drop-append, drop_front}
use openwrt_libubox.Ustream.Buffers.{Buf, BufList, slice}
use openwrt_libubox.Ustream.Slices.{IsBuf, copy_to_lem, length-copied, length-slice}
use openwrt_libubox.Ustream.Invariant.{contents, Chain, IsBufList}
use openwrt_libubox.Ustream.Prepare.{IsMalloc}
use openwrt_libubox.Ustream.Prepared.{in_place}
use openwrt_libubox.Ustream.Receive.{Arrived}
use openwrt_libubox.Ustream.Reader.{room_at}
use openwrt_libubox.Ustream.Descriptor.{store_behind}

pub store_behind_lem :
    (malloc : BufList → Option (List ℕ)) (extra : ℕ)
    → IsMalloc extra malloc
    → (xs : List ℕ) (l : BufList) → IsBufList extra l
    → (rest : List Buf) → l.rest ≡ rest
    → length xs ≤ room_at rest
    → 0 < length xs
    → (l' : BufList) × (store_behind xs l rest ≡ some l')
      × IsBufList extra l'
      × (contents l' ≡ contents l)
      × Arrived xs l'.rest
store_behind_lem malloc extra good xs l w [] e fits h = absurd (omega arith)
store_behind_lem malloc extra good xs l w (b ∷ bs) e fits h =
    let v = subst (Chain extra l.filled) e w.buffers_in.shape in
    let t = b.tail_at in
    let inside : t + length xs ≤ length b.cells = omega (arith, fits, h, v.1.stop, v.1.cells_in) in
    let front : length (take t b.cells) ≡ t = length-take t b.cells ∙ omega (arith, inside) in
    let back = drop (t + length xs) b.cells in
    let b' : Buf = record b { cells = take t b.cells ++ (xs ++ back) } in
    let wb : IsBuf extra b' = record {
      start = v.1.start;
      stop = v.1.stop;
      room = v.1.room;
      cells_in = omega (arith, length-copied t xs b.cells inside, v.1.cells_in);
    } in
    let same : slice b' ≡ slice b =
      ap (take (t - b.data_at))
        (drop_front b.data_at t b.cells (xs ++ back) v.1.start (omega (arith, inside)))
      ∙ take-append (slice b) (xs ++ back) (t - b.data_at) (sym (length-slice extra b v.1)) in
    let (w', kept) = in_place malloc false extra good l b b' bs e w.buffers_in wb v.2 same in
    (
      record l { rest = b' ∷ bs },
      ap (λ o. o >>= λ cells. some (record l { rest = record b { cells = cells } ∷ bs }))
          (copy_to_lem t xs b.cells inside),
      record { buffers_in = w'; counted = w.counted ∙ ap length (sym kept) },
      kept,
      (
        fits,
        ap (take (length xs)) (drop-append (take t b.cells) (xs ++ back) t (sym front))
            ∙ take-append xs back (length xs) refl,
      ),
    )
