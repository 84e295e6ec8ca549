-- ===== src/Ustream/Descriptor/Tests.antt =====
-- A kernel that follows a script, and the theorems at concrete inputs.
use openwrt_libubox.Prelude.{
  ℕ, ◌<◌, List, [], ◌∷◌, ◌++◌, length, length-take, take, some, Bool, true, false, ◌≡◌, refl, arith,
}
use openwrt_libubox.Prelude.Int.{ℤ, pos}
use openwrt_libubox.Ustream.Stream.{UStream, Callbacks}
use openwrt_libubox.Ustream.Tests.{zeros, half_read, half_read-IsStream, zeros-IsMalloc}
use openwrt_libubox.Ustream.Descriptor.{
  ReadResult, WriteResult, Kernel, Descriptor, got, read_again, wrote, write_interrupted,
  ustream_fd_set_uloop, ustream_fd_set_read_blocked, ustream_fd_write, ustream_fd_read_pending,
}
use openwrt_libubox.Ustream.Descriptor.Writing.{Takes, IsFdWritten, ustream_fd_write-Front}
use openwrt_libubox.Ustream.Descriptor.Reading.{
  Gives, IsReader, IsReceived, ustream_fd_read_pending-Receives,
}

-- What the kernel will deliver or be interrupted by, and what went through it.
abbrev World : Type 0
World = List (List ℕ) × List ℕ

abbrev next_read : ℕ → World → ReadResult × World
next_read n ([], out) = (read_again, ([], out))
next_read n (x ∷ xs, out) = (got (take n x), (xs, out ++ take n x))

abbrev next_write : List ℕ → World → WriteResult × World
next_write bs ([], out) = (wrote 1, ([], out ++ take 1 bs))
next_write bs (x ∷ xs, out) = (write_interrupted, (xs, out))

abbrev scripted : Kernel World
scripted = record { sys_read = next_read; sys_write = next_write }

abbrev plain : Callbacks (Descriptor World)
plain = record {
  malloc = λ l. some (zeros l.buffer_len);
  set_read_blocked = some (λ s fd. ustream_fd_set_read_blocked s fd);
  write = λ s bs more fd. (pos 0, fd);
  notify_read = λ n q. some q;
  notify_write = λ n q. some q;
}

abbrev ready : Descriptor World
ready = record {
  reads = true;
  writes = false;
  error = false;
  world = ((7 ∷ []) ∷ ((8 ∷ (9 ∷ [])) ∷ []), []);
}

scripted-Gives :
    (n : ℕ) (w : World) → Gives (λ w. w.1) (λ w. length w.0) n w (scripted.sys_read n w)
scripted-Gives n ([], out) = refl
scripted-Gives n (x ∷ xs, out) = (omega (arith, length-take n x), refl, omega arith)

scripted-Takes :
    (bs : List ℕ) (w : World)
    → 0 < length bs
    → Takes (λ w. w.1) (λ w. length w.0) bs w (scripted.sys_write bs w)
scripted-Takes bs ([], out) h = (omega arith, omega arith, refl, omega arith)
scripted-Takes bs (x ∷ xs, out) h = (refl, omega arith)

plain-IsReader : IsReader plain scripted (λ w. w.1) (λ w. length w.0) 0
unfolding ustream_fd_set_uloop
plain-IsReader = record {
  mallocs = zeros-IsMalloc;
  gives = scripted-Gives;
  call = λ s fd. ustream_fd_set_read_blocked s fd;
  blocks_by = refl;
  blocks = λ s fd. refl;
  told = λ n s fd w. (s, fd, refl, w, refl, refl);
}

ustream_fd_write-Front_example :
    (q : ℤ × Descriptor World) × (ustream_fd_write scripted 6 half_read
        (5 ∷ (6 ∷ (4 ∷ [])))
        true
        ready
      ≡ some q)
    × IsFdWritten scripted (λ w. w.1) (λ w. length w.0) scripted-Takes (5 ∷ (6 ∷ (4 ∷ []))) ready q
ustream_fd_write-Front_example =
    ustream_fd_write-Front scripted (λ w. w.1) (λ w. length w.0) scripted-Takes 6 half_read
      (5 ∷ (6 ∷ (4 ∷ []))) true ready (omega arith)

ustream_fd_read_pending-Receives_example :
    (r : Bool × (UStream × Descriptor World)) × (ustream_fd_read_pending plain scripted 3 false
        (half_read, ready)
      ≡ some r)
    × IsReceived plain scripted (λ w. w.1) (λ w. length w.0) 0 false half_read ready r
ustream_fd_read_pending-Receives_example =
    ustream_fd_read_pending-Receives plain scripted (λ w. w.1) (λ w. length w.0) 0 plain-IsReader 3
      false half_read ready (omega arith) half_read-IsStream
