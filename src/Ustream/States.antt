-- ===== src/Ustream/States.antt =====
-- What a stream keeps.
use openwrt_libubox.Prelude.{
  ℕ, ◌≤◌, ◌<◌, ◌≡◌, ◌⊎◌, inl, inr, refl, ap, ◌∙◌, arith, [], ◌++◌, length, Option, some, Bool, true,
  not, ◌||◌, Bool-cases, if◌then◌else◌, if_true, if_false, ◌>>=◌,
}
use openwrt_libubox.Prelude.Int.{ℤ, pos, negsuc}
use openwrt_libubox.Ustream.Buffers.{BufList}
use openwrt_libubox.Ustream.Invariant.{slices, contents, IsBufList}
use openwrt_libubox.Ustream.Stream.{
  UStream, Callbacks, set_blocked, default_list, ustream_init_defaults,
}

-- The bits of `read_blocked` set, where there is a function to tell.
pub set_blocked_lem :
    {C : Type 0} (cb : Callbacks C) (call : UStream → C → C) (user full : Bool) (s : UStream)
    (c : C)
    → cb.set_read_blocked ≡ some call
    → (let s' = record s { blocked_user = user; blocked_full = full } in
        (c' : C) × (set_blocked cb user full (s, c) ≡ some (s', c'))
        × ((c' ≡ c) ⊎ (c' ≡ call s' c)))
unfolding set_blocked
set_blocked_lem {C} cb call user full s c e =
    let s' : UStream = record s { blocked_user = user; blocked_full = full } in
    let same = if s.blocked_user || s.blocked_full then user || full else not (user || full) in
    let kept : Option (UStream × C) = some (s', c) in
    let tell : Option (UStream → C → C) → Option (UStream × C) =
      λ o. o >>= λ call. some (s', call s' c) in
    elim (Bool-cases same) [
      | inl unchanged ↦ (c, if_true same kept (tell cb.set_read_blocked) unchanged, inl refl)
      | inr changed ↦
          (call s' c, if_false same kept (tell cb.set_read_blocked) changed ∙ ap tell e, inr refl)
    ]

-- `extra` is the room behind a buffer's end: a stream of strings has a byte for its mark.
pub record IsStream (extra : ℕ) (s : UStream) : Type 0 where
  pub reading : IsBufList extra s.r
  pub writing : IsBufList extra s.w
  pub marks : s.string_data ≡ true → 1 ≤ extra

default_list-IsBufList :
    (extra min : ℕ) (max : ℤ) (len : ℕ) (l : BufList)
    → 0 < len
    → l.filled ≡ []
    → l.rest ≡ []
    → IsBufList extra (default_list min max len l) × (contents (default_list min max len l) ≡ [])
default_list-IsBufList extra min max len l h e f =
    let none_there : l.filled ++ l.rest ≡ [] = ap (λ xs. xs ++ l.rest) e ∙ f in
    (
      record {
        buffers_in = record {
          shape = rw f e;
          number = omega (arith, ap length none_there);
          limit = λ limited. ground arith;
          len = ground (arith, h);
        };
        counted = omega (arith, ap length (ap slices none_there));
      },
      ap slices none_there,
    )

-- A stream without buffers is well-formed when its defaults are set, whatever its user has set before, and
-- holds nothing.
pub ustream_init_defaults-IsStream :
    (extra : ℕ) (s : UStream)
    → s.r.filled ≡ []
    → s.r.rest ≡ []
    → s.w.filled ≡ []
    → s.w.rest ≡ []
    → (s.string_data ≡ true → 1 ≤ extra)
    → IsStream extra (ustream_init_defaults s)
      × (contents (ustream_init_defaults s).r ≡ [])
      × (contents (ustream_init_defaults s).w ≡ [])
unfolding ustream_init_defaults
ustream_init_defaults-IsStream extra s r_filled r_rest w_filled w_rest marks =
    let (read, no_read) =
      default_list-IsBufList extra 1 (pos 1) 4096 s.r (omega arith) r_filled r_rest in
    let (write, no_write) =
      default_list-IsBufList extra 2 (negsuc 0) 256 s.w (omega arith) w_filled w_rest in
    (record { reading = read; writing = write; marks = marks }, no_read, no_write)
