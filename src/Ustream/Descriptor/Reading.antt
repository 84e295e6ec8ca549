-- ===== src/Ustream/Descriptor/Reading.antt =====
-- `ustream_fd_read_pending`: the bytes that the kernel delivers go behind what is held.
use mathlib.Core.List.{append_assoc, append-nil}
use openwrt_libubox.Prelude.{
  ℕ, zero, suc, ◌≤◌, ◌<◌, ◌≡◌, ◌⊎◌, inl, inr, refl, sym, ap, ◌∙◌, arith, List, [], ◌∷◌, ◌++◌,
  length, Option, some, Bool, true, false, ◌||◌, Bool-cases, if_true, if_false, ◌>>=◌,
}
use openwrt_libubox.Ustream.Invariant.{contents}
use openwrt_libubox.Ustream.Prepare.{IsMalloc}
use openwrt_libubox.Ustream.States.{IsStream}
use openwrt_libubox.Ustream.Receive.{Arrived, ustream_reserve-MakesRoom, ustream_fill_read-Appends}
use openwrt_libubox.Ustream.Stream.{UStream, Callbacks}
use openwrt_libubox.Ustream.Reader.{room_at, ustream_reserve, ustream_fill_read}
use openwrt_libubox.Ustream.Descriptor.Storing.{store_behind_lem}
use openwrt_libubox.Ustream.Descriptor.{
  ReadResult, got, read_interrupted, read_again, read_failed, Kernel, Descriptor, at_eof,
  after_read, after_reserve, fd_read_turn, next_read, ustream_fd_read_pending, ustream_fd_set_uloop,
}

-- A kernel delivers bytes in order, no more than are asked for; `turns` bounds how often it delivers some or
-- is interrupted.
abbrev pub Gives : {W : Type 0} → (W → List ℕ) → (W → ℕ) → ℕ → W → ReadResult × W → Type 0
Gives delivered turns n w (got xs, w') =
    (length xs ≤ n) × (delivered w' ≡ delivered w ++ xs) × (turns w' < turns w)
Gives delivered turns n w (read_interrupted, w') =
    (delivered w' ≡ delivered w) × (turns w' < turns w)
Gives delivered turns n w (read_again, w') = delivered w' ≡ delivered w
Gives delivered turns n w (read_failed, w') = delivered w' ≡ delivered w

-- The user's `notify_read` keeps what is held, and the descriptor's functions leave the kernel alone.
pub record IsReader {W : Type 0} (cb : Callbacks (Descriptor W)) (k : Kernel W)
    (delivered : W → List ℕ) (turns : W → ℕ) (extra : ℕ) : Type 0 where
  pub mallocs : IsMalloc extra cb.malloc
  pub gives : (n : ℕ) (w : W) → Gives delivered turns n w (k.sys_read n w)
  pub call : UStream → Descriptor W → Descriptor W
  pub blocks_by : cb.set_read_blocked ≡ some call
  pub blocks : (s : UStream) (fd : Descriptor W) → (call s fd).world ≡ fd.world
  pub told :
      (n : ℕ) (s : UStream) (fd : Descriptor W)
      → IsStream extra s
      → (s' : UStream) × (fd' : Descriptor W) × (cb.notify_read n (s, fd) ≡ some (s', fd'))
        × IsStream extra s'
        × (s'.r ≡ s.r)
        × (fd'.world ≡ fd.world)

module _ {W : Type 0} (cb : Callbacks (Descriptor W)) (k : Kernel W) (delivered : W → List ℕ)
    (turns : W → ℕ) (extra : ℕ) where
  -- What was delivered is what is held behind what was held, and `more` tells whether there was any.
  abbrev pub IsReceived : Bool → UStream → Descriptor W → Bool × (UStream × Descriptor W) → Type 0
  IsReceived more s fd (more', (s', fd')) =
      (ys : List ℕ) × IsStream extra s'
      × (contents s'.r ≡ contents s.r ++ ys)
      × (delivered fd'.world ≡ delivered fd.world ++ ys)
      × (((ys ≡ []) × (more' ≡ more)) ⊎ (more' ≡ true))

  both_turns :
      (more : Bool) (s : UStream) (fd : Descriptor W) (m1 : Bool) (s1 : UStream)
      (fd1 : Descriptor W) (r : Bool × (UStream × Descriptor W))
      → IsReceived more s fd (m1, (s1, fd1))
      → IsReceived m1 s1 fd1 r
      → IsReceived more s fd r
  both_turns more s fd m1 s1 fd1 (m2, (s2, fd2)) (xs, w1, held1, given1, any1)
        (ys, w2, held2, given2, any2) =
      (
        xs ++ ys,
        w2,
        held2 ∙ ap (λ l. l ++ ys) held1 ∙ append_assoc (contents s.r) xs ys,
        given2 ∙ ap (λ l. l ++ ys) given1 ∙ append_assoc (delivered fd.world) xs ys,
        both any1 any2,
      )
    where
      both :
          (((xs ≡ []) × (m1 ≡ more)) ⊎ (m1 ≡ true))
          → (((ys ≡ []) × (m2 ≡ m1)) ⊎ (m2 ≡ true))
          → ((xs ++ ys ≡ []) × (m2 ≡ more)) ⊎ (m2 ≡ true)
      both (inl (e, f)) (inl (g, h)) = inl (ap (λ l. l ++ ys) e ∙ g, h ∙ f)
      both (inr e) (inl (g, h)) = inr (h ∙ e)
      both a (inr h) = inr h

  -- What a turn may do; where the loop goes on the kernel has less left.
  abbrev IsTurn :
      Bool → UStream → Descriptor W → Option (Bool × (Bool × (UStream × Descriptor W))) → Type 0
  IsTurn more s fd t =
      (m : Bool) × (s' : UStream) × (fd' : Descriptor W) × IsReceived more s fd (m, (s', fd'))
      × ((t ≡ some (false, (m, (s', fd'))))
          ⊎ ((t ≡ some (true, (m, (s', fd')))) × (turns fd'.world < turns fd.world)))

  module _ (good : IsReader cb k delivered turns extra) where
    fill_lem :
        (xs : List ℕ) (s : UStream) (fd : Descriptor W)
        → IsStream extra s
        → 0 < length xs
        → Arrived xs s.r.rest
        → (s' : UStream) × (fd' : Descriptor W) × (ustream_fill_read cb (length xs) (s, fd)
            ≡ some (s', fd'))
          × IsStream extra s'
          × (contents s'.r ≡ contents s.r ++ xs)
          × (fd'.world ≡ fd.world)
    fill_lem xs s fd w h arrived =
        let (l, w1, whole, told) = ustream_fill_read-Appends cb extra xs s fd w h arrived in
        elim told [
          | inl (pending, run) ↦ (record s { r = l }, fd, run, w1, whole, refl)
          | inr (idle, run) ↦
              let s1 : UStream = record s { r = l; pending_read = true } in
              let v1 : IsStream extra s1 = record {
                reading = w1.reading;
                writing = w1.writing;
                marks = w1.marks;
              } in
              let (s2, fd2, notice, w2, same, world) =
                good.told (length (contents s.r ++ xs)) s1 fd v1 in
              (
                record s2 { pending_read = false },
                fd2,
                run ∙ ap (λ o. o >>= λ q. some (record q.0 { pending_read = false }, q.1)) notice,
                record { reading = w2.reading; writing = w2.writing; marks = w2.marks },
                ap contents same ∙ whole,
                world,
              )
        ]

    after_read_lem :
        (more : Bool) (s : UStream) (fd : Descriptor W) (n : ℕ)
        → IsStream extra s
        → n ≡ room_at s.r.rest
        → (q : ReadResult × W) → Gives delivered turns n fd.world q
        → IsTurn more s fd (after_read cb more s fd q)
    unfolding at_eof ustream_fd_set_uloop
    after_read_lem more s fd n w e (got [], v) (fits, given, less) = (
      more,
      (at_eof s (record fd { world = v })).0,
      (at_eof s (record fd { world = v })).1,
      (
        [],
        record { reading = w.reading; writing = w.writing; marks = w.marks },
        sym (append-nil (contents s.r)),
        given,
        inl (refl, refl),
      ),
      inl refl,
    )
    after_read_lem more s fd n w e (got (x ∷ xs), v) (fits, given, less) =
        let (l, stored, wl, same, arrived) =
          store_behind_lem cb.malloc extra good.mallocs (x ∷ xs) s.r w.reading s.r.rest refl
            (omega (arith, fits, e)) (omega arith) in
        let s1 : UStream = record s { r = l } in
        let w1 : IsStream extra s1 = record {
          reading = wl;
          writing = w.writing;
          marks = w.marks;
        } in
        let fd1 : Descriptor W = record fd { world = v } in
        let (s2, fd2, run, w2, whole, world) = fill_lem (x ∷ xs) s1 fd1 w1 (omega arith) arrived in
        let finish : UStream × Descriptor W → Option (Bool × (Bool × (UStream × Descriptor W))) =
          λ sc. some (true, (true, sc)) in
        (
          true,
          s2,
          fd2,
          (
            x ∷ xs,
            w2,
            whole ∙ ap (λ ys. ys ++ (x ∷ xs)) same,
            ap delivered world ∙ given,
            inr refl,
          ),
          inr (
            ap
                  (λ o. o >>= λ l.
                    ustream_fill_read cb (length (x ∷ xs)) (record s { r = l }, fd1) >>= finish)
                  stored
                ∙ ap (λ o. o >>= finish) run,
            omega (arith, less, ap turns world),
          ),
        )
    after_read_lem more s fd n w e (read_interrupted, v) (given, less) = (
      more,
      s,
      record fd { world = v },
      (
        [],
        w,
        sym (append-nil (contents s.r)),
        given ∙ sym (append-nil (delivered fd.world)),
        inl (refl, refl),
      ),
      inr (refl, less),
    )
    after_read_lem more s fd n w e (read_again, v) given = (
      more,
      s,
      record fd { world = v },
      (
        [],
        w,
        sym (append-nil (contents s.r)),
        given ∙ sym (append-nil (delivered fd.world)),
        inl (refl, refl),
      ),
      inl refl,
    )
    after_read_lem more s fd n w e (read_failed, v) given = (
      more,
      (at_eof s (record fd { world = v })).0,
      (at_eof s (record fd { world = v })).1,
      (
        [],
        record { reading = w.reading; writing = w.writing; marks = w.marks },
        sym (append-nil (contents s.r)),
        given ∙ sym (append-nil (delivered fd.world)),
        inl (refl, refl),
      ),
      inl refl,
    )

    fd_read_turn_lem :
        (more : Bool) (s : UStream) (fd : Descriptor W)
        → IsStream extra s
        → IsTurn more s fd (fd_read_turn cb k more (s, fd))
    unfolding fd_read_turn
    fd_read_turn_lem more s fd w =
        let stop : Option (Bool × (Bool × (UStream × Descriptor W))) =
          some (false, (more, (s, fd))) in
        let go = ustream_reserve cb 1 (s, fd) >>= after_reserve cb k more in
        elim (Bool-cases (s.blocked_user || s.blocked_full)) [
          | inl blocked ↦ (
            more,
            s,
            fd,
            (
              [],
              w,
              sym (append-nil (contents s.r)),
              sym (append-nil (delivered fd.world)),
              inl (refl, refl),
            ),
            inl (if_true (s.blocked_user || s.blocked_full) stop go blocked),
          )
          | inr free ↦
              let (r, s1, fd1, run, w1, same, same_w, room) =
                ustream_reserve-MakesRoom cb extra good.call good.blocks_by good.mallocs 1 s fd w in
              let enter =
                if_false (s.blocked_user || s.blocked_full) stop go free
                ∙ ap (λ o. o >>= after_reserve cb k more) run in
              elim room [
                | inl (n, e, some_n, size, same_fd) ↦
                    let (m, s2, fd2, received, turn) =
                      after_read_lem more s1 fd1 n w1 size (k.sys_read n fd1.world)
                        (good.gives n fd1.world) in
                    let reserved =
                      nothing_new more s s1 fd fd1 w1 same (ap (λ f. f.world) same_fd) in
                    let begin = enter ∙ ap (λ r. after_reserve cb k more (r, (s1, fd1))) e in
                    (
                      m,
                      s2,
                      fd2,
                      both_turns more s fd more s1 fd1 (m, (s2, fd2)) reserved received,
                      elim turn [
                        | inl over ↦ inl (begin ∙ over)
                        | inr (on, less) ↦
                            inr (begin ∙ on, omega (arith, less, ap (λ f. turns f.world) same_fd))
                      ],
                    )
                | inr (e, full, stuck, told) ↦ (
                  more,
                  s1,
                  fd1,
                  nothing_new more s s1 fd fd1 w1 same (same_world s1 fd fd1 told),
                  inl (enter ∙ ap (λ r. after_reserve cb k more (r, (s1, fd1))) e),
                )
              ]
        ]
      where
        nothing_new :
            (more : Bool) (s s1 : UStream) (fd fd1 : Descriptor W)
            → IsStream extra s1
            → contents s1.r ≡ contents s.r
            → fd1.world ≡ fd.world
            → IsReceived more s fd (more, (s1, fd1))
        nothing_new more s s1 fd fd1 w1 same world = (
          [],
          w1,
          same ∙ sym (append-nil (contents s.r)),
          ap delivered world ∙ sym (append-nil (delivered fd.world)),
          inl (refl, refl),
        )

        same_world :
            (s1 : UStream) (fd fd1 : Descriptor W)
            → (fd1 ≡ fd) ⊎ (fd1 ≡ good.call s1 fd)
            → fd1.world ≡ fd.world
        same_world s1 fd fd1 (inl f) = ap (λ f. f.world) f
        same_world s1 fd fd1 (inr f) = ap (λ f. f.world) f ∙ good.blocks s1 fd

    -- With fuel for one more step than the kernel has turns `ustream_fd_read_pending` ends. The bytes that the
    -- kernel delivered in the meantime, all of them and in order, stand behind what was held, whatever
    -- room was reserved for them; `*more` is true if there were any, and the stream stays well-formed.
    pub ustream_fd_read_pending-Receives :
        (fuel : ℕ) (more : Bool) (s : UStream) (fd : Descriptor W)
        → turns fd.world < fuel
        → IsStream extra s
        → (r : Bool × (UStream × Descriptor W)) × (ustream_fd_read_pending cb k fuel more (s, fd)
            ≡ some r)
          × IsReceived more s fd r
    unfolding ustream_fd_read_pending
    ustream_fd_read_pending-Receives zero more s fd h w = absurd (omega arith)
    ustream_fd_read_pending-Receives (suc fuel) more s fd h w =
        let next = next_read cb (ustream_fd_read_pending cb k fuel) in
        let (m, s1, fd1, received, turn) = fd_read_turn_lem more s fd w in
        elim turn [
          | inl over ↦ ((m, (s1, fd1)), ap (λ o. o >>= next) over, received)
          | inr (on, less) ↦
              let (r, run, rest) =
                ustream_fd_read_pending-Receives fuel m s1 fd1 (omega (arith, h, less))
                  received.1 in
              (r, ap (λ o. o >>= next) on ∙ run, both_turns more s fd m s1 fd1 r received rest)
        ]
