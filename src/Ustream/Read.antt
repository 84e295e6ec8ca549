-- ===== src/Ustream/Read.antt =====
-- `ustream_read` copies bytes off the front of what is held.
use mathlib.Core.List.{append_assoc}
use openwrt_libubox.Prelude.{
  ℕ, zero, suc, ◌+◌, ◌-◌, ◌≤◌, ◌<◌, ◌≡◌, ◌⊎◌, inl, inr, refl, sym, ap, ◌∙◌, arith, List, [], ◌∷◌,
  ◌++◌, length, length-append, length-take, length-drop, take, drop, Option, some, Bool, true,
  false, ltb, ltb→lt, Bool-cases, ◌>>=◌,
}
use openwrt_libubox.Prelude.Segments.{
  take_more, take-append, take_within, drop-append, drop-drop, take-drop_lem,
}
use openwrt_libubox.Ustream.Buffers.{Buf}
use openwrt_libubox.Ustream.Slices.{copy_to_lem, length-copied, length-slice}
use openwrt_libubox.Ustream.Invariant.{slices, contents, Chain, slices-Empty}
use openwrt_libubox.Ustream.Consume.{ustream_consume-Drops}
use openwrt_libubox.Ustream.States.{IsStream}
use openwrt_libubox.Ustream.Stream.{UStream, Callbacks, smaller}
use openwrt_libubox.Ustream.Reader.{
  head_data, ustream_get_read_buf, read_turn, read_from, ustream_read,
}

-- What a reader is given is the front of what is held, and something where something is held.
head_data_lem :
    (extra : ℕ) (filled rest : List Buf)
    → Chain extra filled rest
    → (more : List ℕ) × (slices (filled ++ rest) ≡ head_data filled rest ++ more)
      × ((head_data filled rest ≡ []) → more ≡ [])
head_data_lem extra [] [] h = ([], refl, λ _. refl)
head_data_lem extra [] (b ∷ bs) h = (slices bs, refl, λ _. slices-Empty extra bs h.3)
head_data_lem extra (b ∷ bs) [] h = absurd (omega (arith, ap length h))
head_data_lem extra (b ∷ bs) (c ∷ cs) h = (
  slices (bs ++ (c ∷ cs)),
  refl,
  λ e. absurd (omega (arith, ap length e, length-slice extra b h.0.0.0, h.0.0.1)),
)

-- Bytes that are read into a buffer.
abbrev copied : List ℕ → ℕ → List ℕ → List ℕ
copied buf len xs = take len buf ++ (xs ++ drop (len + length xs) buf)

copied_twice :
    (buf : List ℕ) (len : ℕ) (xs ys : List ℕ)
    → len + length xs + length ys ≤ length buf
    → copied (copied buf len xs) (len + length xs) ys ≡ copied buf len (xs ++ ys)
copied_twice buf len xs ys h =
    let front = take len buf in
    let at = len + length xs in
    let back = drop at buf in
    let here : at ≡ length (front ++ xs) =
      omega (arith, length-append front xs, length-take len buf) in
    let regroup : copied buf len xs ≡ (front ++ xs) ++ back = sym (append_assoc front xs back) in
    let total : at + length ys ≡ len + length (xs ++ ys) = omega (arith, length-append xs ys) in
    let fore : take at (copied buf len xs) ≡ front ++ xs =
      ap (take at) regroup ∙ take-append (front ++ xs) back at here in
    let behind : drop (at + length ys) (copied buf len xs) ≡ drop (len + length (xs ++ ys)) buf =
      drop-drop at (length ys) (copied buf len xs)
      ∙ ap (λ l. drop (length ys) (drop at l)) regroup
      ∙ ap (drop (length ys)) (drop-append (front ++ xs) back at here)
      ∙ sym (drop-drop at (length ys) buf)
      ∙ ap (λ k. drop k buf) total in
    let last = drop (len + length (xs ++ ys)) buf in
    ap (λ l. l ++ (ys ++ drop (at + length ys) (copied buf len xs))) fore
    ∙ ap (λ l. (front ++ xs) ++ (ys ++ l)) behind
    ∙ append_assoc front xs (ys ++ last)
    ∙ ap (λ l. front ++ l) (sym (append_assoc xs ys last))

module _ {C : Type 0} (cb : Callbacks C) (extra : ℕ) (call : UStream → C → C)
    (set : cb.set_read_blocked ≡ some call) where
  -- What is read from the offset `len` on: as much as is held or as has room.
  record IsRead (buf : List ℕ) (len : ℕ) (s : UStream) (n : ℕ) (buf' : List ℕ) (s' : UStream)
      : Type 0 where
    kept : IsStream extra s'
    room : n ≤ length buf - len
    held : n ≤ length (contents s.r)
    out : buf' ≡ copied buf len (take n (contents s.r))
    left : contents s'.r ≡ drop n (contents s.r)
    same_write : s'.w ≡ s.w

  abbrev IsTurn : List ℕ → ℕ → UStream → Option (Bool × (ℕ × (List ℕ × (UStream × C)))) → Type 0
  IsTurn buf len s t =
      (n : ℕ) × (buf' : List ℕ) × (s' : UStream) × (c' : C) × IsRead buf len s n buf' s'
      × (((t ≡ some (false, (len + n, (buf', (s', c')))))
            × ((n ≡ length buf - len) ⊎ (n ≡ length (contents s.r))))
          ⊎ ((t ≡ some (true, (len + n, (buf', (s', c'))))) × (0 < n) × (len + n < length buf)))

  read_turn_lem :
      (chunk more buf : List ℕ) (len : ℕ) (s : UStream) (c : C)
      → IsStream extra s
      → contents s.r ≡ chunk ++ more
      → ((chunk ≡ []) → more ≡ [])
      → len ≤ length buf
      → IsTurn buf len s (read_turn cb chunk buf len (s, c))
  read_turn_lem [] more buf len s c w e h fits =
      let nothing : contents s.r ≡ [] = e ∙ h refl in
      (
        0,
        buf,
        s,
        c,
        record {
          kept = w;
          room = omega arith;
          held = omega arith;
          out = sym (ap (λ k. take len buf ++ drop k buf) (omega arith) ∙ take-drop_lem len buf);
          left = refl;
          same_write = refl;
        },
        inl (
          ap (λ k. some (false, (k, (buf, (s, c))))) (omega arith),
          inr (sym (ap length nothing)),
        ),
      )
  read_turn_lem (x ∷ xs) more buf len s c w e h fits =
      let chunk = x ∷ xs in
      let n = smaller (length buf - len) (length chunk) in
      let in_buf : n ≤ length buf - len = ground arith in
      let in_chunk : n ≤ length chunk = ground arith in
      let total : length (contents s.r) ≡ length chunk + length more =
        ap length e ∙ length-append chunk more in
      let size : length (take n chunk) ≡ n = length-take n chunk ∙ omega (arith, in_chunk) in
      let inside : len + length (take n chunk) ≤ length buf = omega (arith, size, in_buf, fits) in
      let front : take n chunk ≡ take n (contents s.r) =
        sym (ap (take n) e ∙ take_within n chunk more in_chunk) in
      let got = copy_to_lem len (take n chunk) buf inside in
      elim (ustream_consume-Drops cb extra call s c n set w) [
        | inl (beyond, _) ↦ absurd (omega (arith, beyond, w.reading.counted, total, in_chunk))
        | inr (within, (s', c', run, w', left, same, _)) ↦
            let turn : (go : Bool)
                → ltb (len + n) (length buf) ≡ go
                → read_turn cb chunk buf len (s, c)
                  ≡ some (go, (len + n, (copied buf len (take n chunk), (s', c')))) =
              λ go g. rw got (rw run (rw g refl)) in
            (
              n,
              copied buf len (take n chunk),
              s',
              c',
              record {
                kept = w';
                room = in_buf;
                held = omega (arith, total, in_chunk);
                out = ap (copied buf len) front;
                left = left;
                same_write = same;
              },
              elim (Bool-cases (ltb (len + n) (length buf))) [
                | inl more_room ↦
                    inr (turn true more_room, ground arith, ltb→lt (len + n) (length buf) more_room)
                | inr full ↦ inl (turn false full, inl (ground arith))
              ],
            )
      ]

  same_room :
      (buf : List ℕ) (len : ℕ) (s : UStream) (n : ℕ) (buf' : List ℕ) (s' : UStream)
      → IsRead buf len s n buf' s'
      → len ≤ length buf
      → length buf' ≡ length buf
  same_room buf len s n buf' s' p fits =
      let size = length-take n (contents s.r) in
      ap length p.out
      ∙ length-copied len (take n (contents s.r)) buf (omega (arith, size, p.room, p.held, fits))

  both_copies :
      (buf buf1 buf2 : List ℕ) (len n m : ℕ) (s s1 s2 : UStream)
      → len ≤ length buf
      → IsRead buf len s n buf1 s1
      → IsRead buf1 (len + n) s1 m buf2 s2
      → IsRead buf len s (n + m) buf2 s2
  both_copies buf buf1 buf2 len n m s s1 s2 fits p q =
      let xs = take n (contents s.r) in
      let ys = take m (contents s1.r) in
      let same_size = same_room buf len s n buf1 s1 p fits in
      let rest_size : length (contents s1.r) ≡ length (contents s.r) - n =
        ap length p.left ∙ length-drop n (contents s.r) in
      let size_x : length xs ≡ n = length-take n (contents s.r) ∙ omega (arith, p.held) in
      let size_y : length ys ≡ m = length-take m (contents s1.r) ∙ omega (arith, q.held) in
      record {
        kept = q.kept;
        room = omega (arith, p.room, q.room, same_size, fits);
        held = omega (arith, p.held, q.held, rest_size);
        out =
            q.out
            ∙ ap (λ k. copied buf1 (len + k) ys) (sym size_x)
            ∙ ap (λ l. copied l (len + length xs) ys) p.out
            ∙ copied_twice buf len xs ys
                (omega (arith, size_x, size_y, p.room, q.room, same_size, fits))
            ∙ ap (λ l. copied buf len (xs ++ take m l)) p.left
            ∙ ap (copied buf len) (take_more n m (contents s.r));
        left = q.left ∙ ap (drop m) p.left ∙ sym (drop-drop n m (contents s.r));
        same_write = q.same_write ∙ p.same_write;
      }

  read_from_lem :
      (fuel : ℕ) (buf : List ℕ) (len : ℕ) (s : UStream) (c : C)
      → IsStream extra s
      → len ≤ length buf
      → length buf - len < fuel
      → (n : ℕ) × (buf' : List ℕ) × (s' : UStream) × (c' : C) × (read_from cb fuel buf len (s, c)
          ≡ some (len + n, (buf', (s', c'))))
        × IsRead buf len s n buf' s'
        × ((n ≡ length buf - len) ⊎ (n ≡ length (contents s.r)))
  unfolding read_from
  read_from_lem zero buf len s c w fits h = absurd (omega arith)
  read_from_lem (suc fuel) buf len s c w fits h =
      let next : Bool × (ℕ × (List ℕ × (UStream × C))) → Option (ℕ × (List ℕ × (UStream × C))) =
        λ t. elim t.0 [ true ↦ read_from cb fuel t.1.1.0 t.1.0 t.1.1.1 | false ↦ some t.1 ] in
      let (more, e, rest_empty) =
        head_data_lem extra s.r.filled s.r.rest w.reading.buffers_in.shape in
      let (n, buf1, s1, c1, p, turn) =
        read_turn_lem (ustream_get_read_buf s) more buf len s c w e rest_empty fits in
      elim turn [
        | inl (stop, why) ↦ (n, buf1, s1, c1, ap (λ o. o >>= next) stop, p, why)
        | inr (on, some_n, less) ↦
            let same_size = same_room buf len s n buf1 s1 p fits in
            let (m, buf2, s2, c2, run, q, why) =
              read_from_lem fuel buf1 (len + n) s1 c1 p.kept (omega (arith, less, same_size))
                (omega (arith, h, some_n, same_size, less)) in
            let rest_size : length (contents s1.r) ≡ length (contents s.r) - n =
              ap length p.left ∙ length-drop n (contents s.r) in
            (
              n + m,
              buf2,
              s2,
              c2,
              ap (λ o. o >>= next) on ∙ run ∙ ap (λ k. some (k, (buf2, (s2, c2)))) (omega arith),
              both_copies buf buf1 buf2 len n m s s1 s2 fits p q,
              elim why [
                | inl full ↦ inl (omega (arith, full, same_size, less))
                | inr all ↦ inr (omega (arith, all, rest_size, p.held))
              ],
            )
      ]

  -- Where `set_read_blocked` is set, `ustream_read` of a well-formed stream copies the first bytes
  -- held for reading to the start of the target, as many as are held or as it has room for,
  -- whatever buffers they stand in, and takes them away; the rest of the target and what is held
  -- for writing stay.
  pub ustream_read-Front :
      (buf : List ℕ) (s : UStream) (c : C)
      → IsStream extra s
      → (n : ℕ) × (buf' : List ℕ) × (s' : UStream) × (c' : C) × (ustream_read cb buf (s, c)
          ≡ some (n, (buf', (s', c'))))
        × IsStream extra s'
        × ((n ≤ length buf) × (n ≤ length (contents s.r)))
        × ((n ≡ length buf) ⊎ (n ≡ length (contents s.r)))
        × (buf' ≡ take n (contents s.r) ++ drop n buf)
        × (contents s'.r ≡ drop n (contents s.r))
        × (s'.w ≡ s.w)
  unfolding ustream_read
  ustream_read-Front buf s c w =
      let (n, buf', s', c', run, p, why) =
        read_from_lem (length buf + 1) buf 0 s c w (omega arith) (omega arith) in
      let all_of_it : 0 + length (take n (contents s.r)) ≡ n =
        omega (arith, length-take n (contents s.r), p.held) in
      (
        n,
        buf',
        s',
        c',
        run ∙ ap (λ k. some (k, (buf', (s', c')))) (omega arith),
        p.kept,
        (omega (arith, p.room), p.held),
        elim why [ inl full ↦ inl (omega (arith, full)) | inr all ↦ inr all ],
        p.out ∙ ap (λ k. take n (contents s.r) ++ drop k buf) all_of_it,
        p.left,
        p.same_write,
      )
