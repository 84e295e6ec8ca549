-- ===== src/Ustream/Emptied.antt =====
-- `ustream_write_pending`, with what the user's `notify_write` does.
use mathlib.Core.Bool.{false≢true}
use mathlib.Core.List.{append-nil}
use openwrt_libubox.Prelude.{
  ℕ, ◌+◌, ◌≡◌, ◌⊎◌, inl, inr, refl, sym, ap, ◌∙◌, List, [], ◌++◌, length, Option, some, Bool, true,
  false, not, ◌==◌, ==_iff, ◌&&◌, Bool-cases, if_true, if_false, ◌>>=◌,
}
use openwrt_libubox.Prelude.Int.{pos}
use openwrt_libubox.Ustream.Buffers.{slice}
use openwrt_libubox.Ustream.Invariant.{chain, contents}
use openwrt_libubox.Ustream.Written.{IsWriter, bytes_of, no_bytes}
use openwrt_libubox.Ustream.Pending.{Declines, pending_from_lem}
use openwrt_libubox.Ustream.States.{IsStream}
use openwrt_libubox.Ustream.Stream.{UStream, Callbacks, ustream_state_change}
use openwrt_libubox.Ustream.Writer.{has_next, pending_from, pending_done, ustream_write_pending}

-- The user's `notify_write` may change what it likes but not what is written, or was accepted.
abbrev pub IsQuiet : {C : Type 0} → Callbacks C → (C → List ℕ) → ℕ → Type 0
IsQuiet {C} cb accepted extra =
    (n : ℕ) (s : UStream) (c : C)
    → IsStream extra s
    → (s' : UStream) × (c' : C) × (cb.notify_write n (s, c) ≡ some (s', c'))
      × IsStream extra s'
      × (s'.w ≡ s.w)
      × (accepted c' ≡ accepted c)

module _ {C : Type 0} (cb : Callbacks C) (accepted : C → List ℕ) (extra : ℕ)
    (quiet : IsQuiet cb accepted extra) where
  pending_done_lem :
      (wr : ℕ) (s : UStream) (c : C)
      → IsStream extra s
      → (s' : UStream) × (c' : C) × (pending_done cb wr (s, c)
          ≡ some (s.w.data_bytes == 0, (s', c')))
        × IsStream extra s'
        × (s'.w ≡ s.w)
        × (accepted c' ≡ accepted c)
  unfolding pending_done
  pending_done_lem wr s c w =
      let (s1, c1, told, w1, same_w, same_c) = quiet wr s c w in
      elim (Bool-cases (s1.eof && (not (wr == 0) && s1.w.data_bytes == 0))) [
        | inl over ↦ (
          ustream_state_change s1,
          c1,
          rw told (rw over (rw same_w refl)),
          record { reading = w1.reading; writing = w1.writing; marks = w1.marks },
          same_w,
          same_c,
        )
        | inr on ↦ (s1, c1, rw told (rw on (rw same_w refl)), w1, same_w, same_c)
      ]

  -- `ustream_write_pending` of a well-formed stream keeps what was accepted, followed by what is
  -- held, whatever part of it `write` takes. In the end nothing is held, which the result tells,
  -- unless an error was noted before or, after turns that gave whole buffers to `write`, a last
  -- turn offered it a buffer of which it did not accept all.
  pub ustream_write_pending-InOrder :
      IsWriter cb accepted extra
      → (s : UStream) (c : C) → IsStream extra s
      → (done : Bool) × (s' : UStream) × (c' : C) × (ustream_write_pending cb (s, c)
          ≡ some (done, (s', c')))
        × IsStream extra s'
        × (bytes_of cb accepted extra (s', c') ≡ bytes_of cb accepted extra (s, c))
        × (((done ≡ true) × (contents s'.w ≡ []))
            ⊎ ((done ≡ false) × ((s.write_error ≡ true) ⊎ Declines cb accepted extra s c)))
  unfolding ustream_write_pending
  ustream_write_pending-InOrder good s c w =
      let refused : Option (Bool × (UStream × C)) = some (false, (s, c)) in
      let loop = pending_from cb (chain s.w) (s, c) 0 >>= λ r. pending_done cb r.0 r.1 in
      let (n, s1, c1, run, k, end) =
        pending_from_lem cb accepted extra good (chain s.w) [] s c 0 w
          (sym (append-nil (chain s.w))) refl in
      let (s2, c2, told, w2, same_w, same_c) = pending_done_lem (0 + n) s1 c1 k.kept in
      let whole : loop ≡ some (s1.w.data_bytes == 0, (s2, c2)) =
        ap (λ o. o >>= λ r. pending_done cb r.0 r.1) run ∙ told in
      let bytes =
        ap (λ a. a ++ contents s2.w) same_c
        ∙ ap (λ l. accepted c1 ++ contents l) same_w
        ∙ k.same_bytes in
      elim (Bool-cases s.write_error) [
        | inl failed ↦ (
          false,
          s,
          c,
          if_true s.write_error refused loop failed,
          w,
          refl,
          inr (refl, inl failed),
        )
        | inr fine ↦ (
          s1.w.data_bytes == 0,
          s2,
          c2,
          if_false s.write_error refused loop fine ∙ whole,
          w2,
          bytes,
          elim (Bool-cases (s1.w.data_bytes == 0)) [
            | inl empty ↦ inl (
              empty,
              ap contents same_w
                  ∙ no_bytes (contents s1.w)
                      (sym k.kept.writing.counted ∙ (==_iff s1.w.data_bytes 0).0 empty),
            )
            | inr holds ↦ inr (
              holds,
              inr (elim end [
                | inl nothing ↦
                    absurd (false≢true (sym holds ∙ (==_iff s1.w.data_bytes 0).1 nothing))
                | inr declined ↦ declined
              ]),
            )
          ],
        )
      ]

  -- A stream that had no error, and that accepts all it is offered, gets everything that is held, in order, and nothing is held in the end.
  pub ustream_write_pending-Empties :
      IsWriter cb accepted extra
      → ((s : UStream) (bs : List ℕ) (more : Bool) (c : C)
          → (cb.write s bs more c).0 ≡ pos (length bs))
      → (s : UStream) (c : C) → IsStream extra s
      → s.write_error ≡ false
      → (s' : UStream) × (c' : C) × (ustream_write_pending cb (s, c) ≡ some (true, (s', c')))
        × (contents s'.w ≡ [])
        × (accepted c' ≡ accepted c ++ contents s.w)
  ustream_write_pending-Empties good eager s c w fine =
      let (done, s', c', run, w', bytes, end) = ustream_write_pending-InOrder good s c w in
      elim end [
        | inl (all, empty) ↦ (
          s',
          c',
          run ∙ ap (λ d. some (d, (s', c'))) all,
          empty,
          sym (append-nil (accepted c')) ∙ ap (λ ys. accepted c' ++ ys) (sym empty) ∙ bytes,
        )
        | inr (_, inl failed) ↦ absurd (false≢true (sym fine ∙ failed))
        | inr (_, inr (_, s0, c0, b, _, _, _, _, _, _, _, less)) ↦
            absurd (less (eager s0 (slice b) (has_next (chain s0.w)) c0))
      ]
