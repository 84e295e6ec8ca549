-- ===== src/Ustream/Descriptor/Writing.antt =====
-- `ustream_fd_write`: the kernel gets the bytes in order, and the loop waits for it where it does not take all.
use mathlib.Core.List.{append_assoc, append-nil}
use openwrt_libubox.Prelude.{
  ℕ, zero, suc, ◌+◌, ◌≤◌, ◌<◌, ◌≡◌, ◌⊎◌, inl, inr, refl, sym, ap, ◌∙◌, arith, List, [], ◌∷◌, ◌++◌,
  length, length-drop, take, drop, Option, none, some, Bool, true, ◌>>=◌,
}
use openwrt_libubox.Prelude.Int.{ℤ, pos, negsuc}
use openwrt_libubox.Prelude.Segments.{take_more, drop-drop}
use openwrt_libubox.Ustream.Stream.{UStream}
use openwrt_libubox.Ustream.Descriptor.{
  WriteResult, wrote, write_interrupted, write_again, write_failed, Kernel, Descriptor,
  fd_write_turn, after_turn, fd_write_from, fd_write_end, ustream_fd_write, ustream_fd_set_uloop,
}

-- A kernel appends what it takes, at least one byte, and takes nothing with an error; EINTR comes so many
-- times only.
abbrev pub Takes : {W : Type 0} → (W → List ℕ) → (W → ℕ) → List ℕ → W → WriteResult × W → Type 0
Takes accepted interrupts xs w (wrote n, w') =
    (0 < n)
    × (n ≤ length xs)
    × (accepted w' ≡ accepted w ++ take n xs)
    × (interrupts w' ≤ interrupts w)
Takes accepted interrupts xs w (write_interrupted, w') =
    (accepted w' ≡ accepted w) × (interrupts w' < interrupts w)
Takes accepted interrupts xs w (write_again, w') = accepted w' ≡ accepted w
Takes accepted interrupts xs w (write_failed, w') = accepted w' ≡ accepted w

two_takes :
    (buf : List ℕ) (n m : ℕ) (a b c : List ℕ)
    → b ≡ a ++ take n buf
    → c ≡ b ++ take m (drop n buf)
    → c ≡ a ++ take (n + m) buf
two_takes buf n m a b c e f =
    f
    ∙ ap (λ l. l ++ take m (drop n buf)) e
    ∙ append_assoc a (take n buf) (take m (drop n buf))
    ∙ ap (λ l. a ++ l) (take_more n m buf)

module _ {W : Type 0} (k : Kernel W) (accepted : W → List ℕ) (interrupts : W → ℕ) where
  -- How the loop ends, for the bytes of `buf` behind the first `ret`.
  abbrev IsEnd : List ℕ → ℕ → W → Option (ℕ × List ℕ) × W → Type 0
  IsEnd buf ret w (none, w') = (n : ℕ) × (n ≤ length buf) × (accepted w' ≡ accepted w ++ take n buf)
  IsEnd buf ret w (some (ret', left), w') =
      (n : ℕ) × (ret' ≡ ret + n)
      × (n ≤ length buf)
      × (accepted w' ≡ accepted w ++ take n buf)
      × (left ≡ drop n buf)

  IsEnd-later :
      (buf : List ℕ) (ret n : ℕ) (w w1 : W) (r : Option (ℕ × List ℕ) × W)
      → n ≤ length buf
      → accepted w1 ≡ accepted w ++ take n buf
      → IsEnd (drop n buf) (ret + n) w1 r
      → IsEnd buf ret w r
  IsEnd-later buf ret n w w1 (none, w2) h e (m, in_rest, took) = (
    n + m,
    omega (arith, in_rest, h, length-drop n buf),
    two_takes buf n m (accepted w) (accepted w1) (accepted w2) e took,
  )
  IsEnd-later buf ret n w w1 (some (ret2, left), w2) h e (m, sum, in_rest, took, rest) = (
    n + m,
    omega (arith, sum),
    omega (arith, in_rest, h, length-drop n buf),
    two_takes buf n m (accepted w) (accepted w1) (accepted w2) e took,
    rest ∙ sym (drop-drop n m buf),
  )

  module _
      (good : (xs : List ℕ) (w : W)
        → 0 < length xs
        → Takes accepted interrupts xs w (k.sys_write xs w)) where
    turn_lem :
        (next : List ℕ → ℕ → W → Option (Option (ℕ × List ℕ) × W)) (buf : List ℕ) (ret : ℕ) (w : W)
        → ((buf' : List ℕ) (ret' : ℕ) (w' : W)
            → length buf' + interrupts w' < length buf + interrupts w
            → (r : Option (ℕ × List ℕ) × W) × (next buf' ret' w' ≡ some r) × IsEnd buf' ret' w' r)
        → (q : WriteResult × W) → Takes accepted interrupts buf w q
        → (r : Option (ℕ × List ℕ) × W) × (after_turn next (fd_write_turn buf ret q) ≡ some r)
          × IsEnd buf ret w r
    turn_lem next buf ret w later (wrote n, w1) (some_n, within, took, few) =
        let (r, run, x) = later (drop n buf) (ret + n) w1 (omega (arith, length-drop n buf)) in
        (r, run, IsEnd-later buf ret n w w1 r within took x)
    turn_lem next buf ret w later (write_interrupted, w1) (took, few) =
        let (r, run, x) = later buf (ret + 0) w1 (omega arith) in
        (
          r,
          ap (λ n. next buf n w1) (omega arith) ∙ run,
          IsEnd-later buf ret 0 w w1 r (omega arith) (took ∙ sym (append-nil (accepted w))) x,
        )
    turn_lem next buf ret w later (write_again, w1) took = (
      (some (ret, buf), w1),
      refl,
      (0, omega arith, omega arith, took ∙ sym (append-nil (accepted w)), refl),
    )
    turn_lem next buf ret w later (write_failed, w1) took =
        ((none, w1), refl, (0, omega arith, took ∙ sym (append-nil (accepted w))))

    fd_write_from_lem :
        (fuel : ℕ) (buf : List ℕ) (ret : ℕ) (w : W)
        → length buf + interrupts w < fuel
        → (r : Option (ℕ × List ℕ) × W) × (fd_write_from k fuel buf ret w ≡ some r)
          × IsEnd buf ret w r
    unfolding fd_write_from
    fd_write_from_lem zero buf ret w h = absurd (omega arith)
    fd_write_from_lem (suc fuel) [] ret w h = (
      (some (ret, []), w),
      refl,
      (0, omega arith, omega arith, sym (append-nil (accepted w)), refl),
    )
    fd_write_from_lem (suc fuel) (x ∷ xs) ret w h =
        turn_lem (fd_write_from k fuel) (x ∷ xs) ret w
          (λ buf' ret' w' less. fd_write_from_lem fuel buf' ret' w' (omega (arith, less, h)))
          (k.sys_write (x ∷ xs) w) (good (x ∷ xs) w (omega arith))

    -- A result of `ustream_fd_write`: what the kernel took is a front of the bytes, as long as the result
    -- tells unless it is -1, and a loop that waits for the kernel where it did not take all.
    abbrev pub IsFdWritten : List ℕ → Descriptor W → ℤ × Descriptor W → Type 0
    IsFdWritten buf fd (pos n, fd') =
        (n ≤ length buf)
        × (accepted fd'.world ≡ accepted fd.world ++ take n buf)
        × ((n ≡ length buf) ⊎ (fd'.writes ≡ true))
    IsFdWritten buf fd (negsuc e, fd') =
        (n : ℕ) × (n ≤ length buf)
        × (accepted fd'.world ≡ accepted fd.world ++ take n buf)
        × (e ≡ 0)

    end_lem :
        (s : UStream) (buf : List ℕ) (fd : Descriptor W) (r : Option (ℕ × List ℕ) × W)
        → IsEnd buf 0 fd.world r
        → IsFdWritten buf fd (fd_write_end s fd r)
    unfolding ustream_fd_set_uloop
    end_lem s buf fd (none, w) (n, within, took) = (n, within, took, refl)
    end_lem s buf fd (some (ret, []), w) (n, sum, within, took, left) = (
      omega arith,
      took ∙ ap (λ k. accepted fd.world ++ take k buf) (omega arith),
      inl (omega (arith, ap length left, length-drop n buf)),
    )
    end_lem s buf fd (some (ret, x ∷ xs), w) (n, sum, within, took, left) =
        (omega arith, took ∙ ap (λ k. accepted fd.world ++ take k buf) (omega arith), inr refl)

    -- With a kernel that takes bytes in order, and is interrupted so many times only, `ustream_fd_write` ends
    -- with fuel for the bytes and the interruptions, and the kernel got the first bytes: as many as the result
    -- counts, where it is not -1. Where it did not get all the loop waits until it takes more.
    pub ustream_fd_write-Front :
        (fuel : ℕ) (s : UStream) (buf : List ℕ) (more : Bool) (fd : Descriptor W)
        → length buf + interrupts fd.world < fuel
        → (q : ℤ × Descriptor W) × (ustream_fd_write k fuel s buf more fd ≡ some q)
          × IsFdWritten buf fd q
    unfolding ustream_fd_write
    ustream_fd_write-Front fuel s buf more fd h =
        let (r, run, x) = fd_write_from_lem fuel buf 0 fd.world h in
        (
          fd_write_end s fd r,
          ap (λ o. o >>= λ r. some (fd_write_end s fd r)) run,
          end_lem s buf fd r x,
        )
