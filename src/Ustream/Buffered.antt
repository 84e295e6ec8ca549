-- ===== src/Ustream/Buffered.antt =====
-- `ustream_write_buffered` puts bytes behind what is held, and all of them where there is memory.
use mathlib.Core.Path.{subst}
use mathlib.Core.List.{append_assoc, append-nil}
use openwrt_libubox.Prelude.{
  ℕ, zero, suc, ◌+◌, ◌-◌, ◌≤◌, ◌<◌, ◌≡◌, ◌⊎◌, inl, inr, refl, sym, ap, ◌∙◌, arith, List, [], ◌∷◌,
  ◌++◌, length, length-append, length-take, length-drop, take, drop, Option, none, some, Bool, true,
  false,
}
use openwrt_libubox.Prelude.Segments.{take_more}
use openwrt_libubox.Ustream.Buffers.{Buf, BufList, slice, ustream_can_alloc}
use openwrt_libubox.Ustream.Slices.{copy_to_lem, length-copied, slice-filled}
use openwrt_libubox.Ustream.Invariant.{
  contents, Chain, IsBufList, SameLimits, slices-Empty, slices-behind, then_limits,
}
use openwrt_libubox.Ustream.Prepare.{IsMalloc, IsPrepared, HasRoom}
use openwrt_libubox.Ustream.Prepared.{ustream_prepare_buf_lem}
use openwrt_libubox.Ustream.Stream.{smaller}
use openwrt_libubox.Ustream.Writer.{
  put_at, put_if, write_turn, write_buffered, ustream_write_buffered,
}

-- Where bytes have room they become the last data of a list.
put_at_lem :
    (extra : ℕ) (xs : List ℕ) (l : BufList)
    → 0 < length xs
    → IsBufList extra l
    → (rest : List Buf) → l.rest ≡ rest
    → HasRoom rest
    → (n : ℕ) × (l' : BufList) × (put_at xs l rest ≡ some (n, l'))
      × (0 < n)
      × (n ≤ length xs)
      × IsBufList extra l'
      × (contents l' ≡ contents l ++ take n xs)
      × SameLimits l l'
put_at_lem extra xs l some_bytes w [] e room = elim room [ ]
put_at_lem extra xs l some_bytes w (b ∷ bs) e room =
    let n = smaller (length xs) (b.end_at - b.tail_at) in
    let part = take n xs in
    let h = subst (Chain extra l.filled) e w.buffers_in.shape in
    let fits : n ≤ b.end_at - b.tail_at = ground arith in
    let within : n ≤ length xs = ground arith in
    let positive : 0 < n = ground (arith, room) in
    let size : length part ≡ n = length-take n xs ∙ omega (arith, within) in
    let inside : b.tail_at + length part ≤ length b.cells =
      omega (arith, size, fits, h.1.cells_in, h.1.stop) in
    let b' : Buf = record b {
      cells = take b.tail_at b.cells ++ (part ++ drop (b.tail_at + length part) b.cells);
      tail_at = b.tail_at + n;
    } in
    let l' : BufList = record l { rest = b' ∷ bs; data_bytes = l.data_bytes + n } in
    let filled_b : slice b' ≡ slice b ++ part =
      ap (λ k. take (b.tail_at + k - b.data_at) (drop b.data_at b'.cells)) (sym size)
      ∙ slice-filled extra b part (drop (b.tail_at + length part) b.cells) h.1 in
    let nothing = slices-Empty extra bs h.3 in
    let whole : contents l' ≡ contents l ++ part =
      slices-behind l.filled l.rest b b' bs part e nothing filled_b in
    (
      n,
      l',
      rw (copy_to_lem b.tail_at part b.cells inside) refl,
      positive,
      within,
      record {
        buffers_in = record {
          shape = (
            h.0,
            record {
              start = omega (arith, h.1.start);
              stop = omega (arith, fits, h.1.stop);
              room = h.1.room;
              cells_in = omega (arith, length-copied b.tail_at part b.cells inside, h.1.cells_in);
            },
            inl (omega (arith, h.1.start, positive)),
            h.3,
          );
          number =
              w.buffers_in.number
              ∙ ap (λ r. length (l.filled ++ r)) e
              ∙ omega (arith, length-append l.filled (b ∷ bs), length-append l.filled (b' ∷ bs));
          limit = w.buffers_in.limit;
          len = w.buffers_in.len;
        };
        counted = omega (arith, w.counted, ap length whole, length-append (contents l) part, size);
      },
      whole,
      record { mins = refl; maxs = refl; lens = refl },
    )

-- The first `n` bytes put behind a list.
pub record IsPut (extra : ℕ) (l : BufList) (buf : List ℕ) (n : ℕ) (l' : BufList) : Type 0 where
  pub kept : IsBufList extra l'
  pub within : n ≤ length buf
  pub behind : contents l' ≡ contents l ++ take n buf
  pub limits : SameLimits l l'

-- A list that gets no more buffers: there are as many as there may be, or there is no memory.
abbrev pub CannotGrow : (BufList → Option (List ℕ)) → BufList → Type 0
CannotGrow malloc l = (ustream_can_alloc l ≡ false) ⊎ (malloc l ≡ none)

pub prepared-IsBufList :
    (extra : ℕ) (malloc : BufList → Option (List ℕ)) (l : BufList) (r : Bool × BufList)
    → IsPrepared extra malloc l r
    → IsBufList extra l
    → IsBufList extra r.1
prepared-IsBufList extra malloc l r p w = record {
  buffers_in = p.buffers_in;
  counted = p.same_bytes ∙ w.counted ∙ ap length (sym p.same_contents);
}

module _ (malloc : BufList → Option (List ℕ)) (extra : ℕ) (good : IsMalloc extra malloc) where
  -- What a turn of the loop may do.
  abbrev IsTurn : BufList → List ℕ → Option (Option ℕ × BufList) → Type 0
  IsTurn l buf t =
      ((l' : BufList) × (t ≡ some (none, l')) × IsPut extra l buf 0 l' × CannotGrow malloc l')
      ⊎ ((n : ℕ) × (l' : BufList) × (t ≡ some (some n, l')) × (0 < n) × IsPut extra l buf n l')

  put_if_lem :
      (l : BufList) (buf : List ℕ) (r : Bool × BufList)
      → IsPrepared extra malloc l r
      → IsBufList extra l
      → 0 < length buf
      → IsTurn l buf (put_if r.0 buf r.1)
  put_if_lem l buf (false, l1) p w h = inl (
    l1,
    refl,
    record {
      kept = prepared-IsBufList extra malloc l (false, l1) p w;
      within = omega arith;
      behind = p.same_contents ∙ sym (append-nil (contents l));
      limits = p.same_limits;
    },
    p.refused refl,
  )
  put_if_lem l buf (true, l1) p w h =
      let (n, l2, put, some_n, in_buf, w2, behind, limits2) =
        put_at_lem extra buf l1 h (prepared-IsBufList extra malloc l (true, l1) p w) l1.rest refl
          (p.ready refl) in
      inr (
        n,
        l2,
        rw put refl,
        some_n,
        record {
          kept = w2;
          within = in_buf;
          behind = behind ∙ ap (λ ys. ys ++ take n buf) p.same_contents;
          limits = then_limits l l1 l2 p.same_limits limits2;
        },
      )

  write_turn_lem :
      (l : BufList) (buf : List ℕ)
      → IsBufList extra l
      → 0 < length buf
      → IsTurn l buf (write_turn malloc l buf)
  unfolding write_turn
  write_turn_lem l buf w h =
      let (r, made, p) =
        ustream_prepare_buf_lem malloc false extra good (λ e. cc (e)) l (length buf) w.buffers_in in
      rw made (put_if_lem l buf r p w h)

  -- Put, and more than is put cannot be.
  abbrev IsFilled : BufList → List ℕ → ℕ → BufList → Type 0
  IsFilled l buf n l' = IsPut extra l buf n l' × (n < length buf → CannotGrow malloc l')

  write_buffered_lem :
      (fuel : ℕ) (l : BufList) (buf : List ℕ) (wr : ℕ)
      → length buf < fuel
      → IsBufList extra l
      → (n : ℕ) × (l' : BufList) × (write_buffered malloc fuel l buf wr ≡ some (wr + n, l'))
        × IsFilled l buf n l'
  unfolding write_buffered
  write_buffered_lem zero l buf wr h w = absurd (omega arith)
  write_buffered_lem (suc fuel) l [] wr h w = (
    0,
    l,
    ap (λ k. some (k, l)) (omega arith),
    (
      record {
        kept = w;
        within = omega arith;
        behind = sym (append-nil (contents l));
        limits = record { mins = refl; maxs = refl; lens = refl };
      },
      λ less. absurd (omega arith),
    ),
  )
  write_buffered_lem (suc fuel) l (x ∷ xs) wr h w =
      elim (write_turn_lem l (x ∷ xs) w (omega arith)) [
        | inl (l1, turn, p, stuck) ↦
            (0, l1, rw turn (ap (λ k. some (k, l1)) (omega arith)), (p, λ _. stuck))
        | inr (n, l1, turn, some_n, p) ↦
            let left = drop n (x ∷ xs) in
            let (m, l2, run, (q, stuck)) =
              write_buffered_lem fuel l1 left (wr + n)
                (omega (arith, p.within, length-drop n (x ∷ xs))) p.kept in
            (
              n + m,
              l2,
              rw turn (run ∙ ap (λ k. some (k, l2)) (omega arith)),
              (
                record {
                  kept = q.kept;
                  within = omega (arith, q.within, p.within, length-drop n (x ∷ xs));
                  behind =
                      q.behind
                      ∙ ap (λ ys. ys ++ take m left) p.behind
                      ∙ append_assoc (contents l) (take n (x ∷ xs)) (take m left)
                      ∙ ap (λ ys. contents l ++ ys) (take_more n m (x ∷ xs));
                  limits = then_limits l l1 l2 p.limits q.limits;
                },
                λ less. stuck (omega (arith, less, length-drop n (x ∷ xs))),
              ),
            )
      ]

  pub ustream_write_buffered_lem :
      (l : BufList) (buf : List ℕ) (wr : ℕ)
      → IsBufList extra l
      → (n : ℕ) × (l' : BufList) × (ustream_write_buffered malloc l buf wr ≡ some (wr + n, l'))
        × IsFilled l buf n l'
  unfolding ustream_write_buffered
  ustream_write_buffered_lem l buf wr w =
      write_buffered_lem (length buf + 1) l buf wr (omega arith) w
