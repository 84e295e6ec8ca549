-- ===== src/Ustream/Buffers.antt =====
-- ustream.c: the list of buffers of one direction. The pointers into a buffer are offsets from `head`.
-- `none` is an abort, a fault or an access outside a buffer.
use openwrt_libubox.Prelude.{
  ℕ, ◌+◌, ◌-◌, ◌/◌, List, [], ◌∷◌, ◌++◌, length, take, drop, Option, none, some, Bool, true, false,
  not, ◌==◌, ◌&&◌, ◌||◌, ltb, leb, if◌then◌else◌, ◌>>=◌, store,
}
use openwrt_libubox.Prelude.Int.{ℤ, pos, ltb_ℤ}

-- `struct ustream_buf`: the bytes that belong to it from `head` on, and where `data`, `tail` and `end`
-- point.
pub record Buf : Type 0 where
  pub cells : List ℕ
  pub data_at : ℕ
  pub tail_at : ℕ
  pub end_at : ℕ

-- `struct ustream_buf_list`: the buffers from `head` to `tail`, cut before `data_tail`, which is NULL
-- where `rest` is empty. The counts and limits, ints in the code, are unbounded numbers.
pub record BufList : Type 0 where
  pub filled : List Buf
  pub rest : List Buf
  pub data_bytes : ℕ
  pub min_buffers : ℕ
  pub max_buffers : ℤ
  pub buffer_len : ℕ
  pub buffers : ℕ

-- The bytes of a buffer from `data` to `tail`.
abbrev pub slice : Buf → List ℕ
slice b = take (b.tail_at - b.data_at) (drop b.data_at b.cells)

-- `data += n` in the first buffer of a list.
abbrev pub advance : ℕ → Buf → Buf
advance n b = record b { data_at = b.data_at + n }

abbrev pub advance_at : ℕ → List Buf → List Buf → List Buf × List Buf
advance_at n [] [] = ([], [])
advance_at n [] (b ∷ bs) = ([], advance n b ∷ bs)
advance_at n (b ∷ bs) rest = (advance n b ∷ bs, rest)

unfoldable pub advance_head : ℕ → BufList → BufList
advance_head n l =
    let parts = advance_at n l.filled l.rest in record l { filled = parts.0; rest = parts.1 }

-- `memcpy` of a list to an offset.
unfoldable pub copy_to : ℕ → List ℕ → List ℕ → Option (List ℕ)
copy_to p xs mem =
    if leb (p + length xs) (length mem)
    then some (take p mem ++ (xs ++ drop (p + length xs) mem))
    else none

unfoldable pub ustream_init_buf : Buf → ℕ → Option Buf
ustream_init_buf b len =
    if len == 0
    then none
    else (store b.cells 0 0 >>= λ cells.
        some (record { cells = cells; data_at = 0; tail_at = 0; end_at = len }))

-- The two parts of a list with a new last buffer: `data_tail` becomes the head where it is NULL.
abbrev pub with_last : List Buf → List Buf → Buf → List Buf × List Buf
with_last filled [] b = ([], filled ++ (b ∷ []))
with_last filled (c ∷ cs) b = (filled, (c ∷ cs) ++ (b ∷ []))

unfoldable pub ustream_add_buf : BufList → Buf → BufList
ustream_add_buf l b =
    let parts = with_last l.filled l.rest b in
    record l { filled = parts.0; rest = parts.1; buffers = l.buffers + 1 }

abbrev pub ustream_can_alloc : BufList → Bool
ustream_can_alloc l = not (ltb_ℤ (pos 0) l.max_buffers) || ltb_ℤ (pos l.buffers) l.max_buffers

-- `ustream_alloc_default`, with what `malloc` gives for the bytes from `head` on; none for -1.
unfoldable pub ustream_alloc_default :
    (BufList → Option (List ℕ)) → BufList → Option (Option BufList)
ustream_alloc_default malloc l =
    if ustream_can_alloc l
    then elim (malloc l) [
      | none ↦ some none
      | some cells ↦
          ustream_init_buf (record { cells = cells; data_at = 0; tail_at = 0; end_at = 0 })
            l.buffer_len
          >>= λ b. some (some (ustream_add_buf l b))
    ]
    else some none

-- `buffers` and `data_bytes` stay as they are.
unfoldable pub ustream_free_buffers : BufList → BufList
ustream_free_buffers l = record l { filled = []; rest = [] }

-- Whether the data of a buffer, which is the last one or not, is moved to its start.
unfoldable pub ustream_should_move : BufList → Buf → Bool → ℕ → Bool
ustream_should_move l b is_last len =
    if b.data_at == 0
    then false
    else if ltb (b.end_at / 2) b.data_at
    then true
    else if ltb (b.tail_at - b.data_at) 32 && ltb (b.end_at / 4) b.data_at
    then true
    else if not is_last || ustream_can_alloc l
    then false
    else ltb (b.end_at - b.tail_at) len

-- The list without its first buffer, and that buffer.
abbrev pub without_head : List Buf → List Buf → Option (Buf × List Buf × List Buf)
without_head [] [] = none
without_head [] (b ∷ bs) = some (b, [], bs)
without_head (b ∷ bs) rest = some (b, bs, rest)

-- `ustream_free_buf` of the first buffer, the only one that is freed. What it counts down is one more
-- than `--l->buffers`.
unfoldable pub ustream_free_buf : BufList → Option BufList
ustream_free_buf l = without_head l.filled l.rest >>= λ r.
    let l' = record l { filled = r.1; rest = r.2; buffers = l.buffers - 1 } in
    if leb (l.min_buffers + 1) l.buffers
    then some l'
    else (ustream_init_buf r.0 r.0.end_at >>= λ b. some (ustream_add_buf l' b))

-- `ustream_fixup_string`, of a stream of strings or not.
unfoldable pub ustream_fixup_string : Bool → Buf → Option Buf
ustream_fixup_string string_data b =
    if string_data
    then (store b.cells b.tail_at 0 >>= λ cells. some (record b { cells = cells }))
    else some b

-- The data moved to the start of its buffer, by `memmove`.
unfoldable pub move_data : Buf → Option Buf
move_data b = copy_to 0 (slice b) b.cells >>= λ cells.
    some (record b { cells = cells; data_at = 0; tail_at = b.tail_at - b.data_at })

-- `data_tail = tail`
abbrev pub to_last : List Buf → List Buf → List Buf × List Buf
to_last filled [] = (filled, [])
to_last filled (b ∷ []) = (filled, b ∷ [])
to_last filled (b ∷ (c ∷ cs)) = to_last (filled ++ (b ∷ [])) (c ∷ cs)

-- `fix` is whether the list is the one that is read, of a stream of strings.
module _ (malloc : BufList → Option (List ℕ)) (fix : Bool) where
  -- The end of `ustream_prepare_buf`: a new buffer.
  unfoldable pub prepare_new : BufList → Option (Bool × BufList)
  prepare_new l =
      if ustream_can_alloc l
      then (ustream_alloc_default malloc l >>= λ r. elim r [
        | none ↦ some (false, l)
        | some l' ↦
            let parts = to_last l'.filled l'.rest in
            some (true, record l' { filled = parts.0; rest = parts.1 })
      ])
      else some (false, l)

  -- The buffer at `data_tail`, its data moved where it should be.
  unfoldable pub tidied : BufList → Buf → Bool → ℕ → Option Buf
  tidied l b is_last len =
      if ustream_should_move l b is_last len
      then (move_data b >>= ustream_fixup_string fix)
      else some b

  -- `ustream_prepare_buf`, by the buffers from `data_tail` on.
  abbrev pub prepare_at : List Buf → BufList → ℕ → Option (Bool × BufList)
  prepare_at [] l len = prepare_new l
  prepare_at (b ∷ []) l len = tidied l b true len >>= λ b'.
      let l' = record l { rest = b' ∷ [] } in
      if b'.tail_at == b'.end_at then prepare_new l' else some (true, l')
  prepare_at (b ∷ (c ∷ cs)) l len = tidied l b false len >>= λ b'.
      if b'.tail_at == b'.end_at
      then some (true, record l { filled = l.filled ++ (b' ∷ []); rest = c ∷ cs })
      else some (true, record l { rest = b' ∷ (c ∷ cs) })

  unfoldable pub ustream_prepare_buf : BufList → ℕ → Option (Bool × BufList)
  ustream_prepare_buf l len = prepare_at l.rest l len
