-- ===== src/Blob.antt =====
-- blob.c and blob.h: attributes in a byte buffer, read. An attribute is its offset in the buffer.
-- A header is the number that `be32_to_cpu(attr->id_len)` gives; masks of its low 24 bits and of the
-- 7 bits above them are written as remainders and quotients. `none` is an access out of bounds.
mod Header
pub mod Trusted
mod Build
mod Parse
mod Tests
use openwrt_libubox.Prelude.{
  ℕ, zero, suc, ◌+◌, ◌-◌, ◌*◌, ◌/◌, ◌%◌, ◌^◌, List, [], ◌∷◌, Option, none, some, Bool, true, false,
  not, ◌&&◌, ◌||◌, ◌==◌, ltb, leb, if◌then◌else◌, ◌>>=◌, get_elem?, set, replicate,
}

-- `blob_id`, `blob_len`, `blob_raw_len`, `blob_pad_len` of a header.
abbrev pub blob_id : ℕ → ℕ
blob_id w = w / 2 ^ 24 % 128

abbrev pub blob_len : ℕ → ℕ
blob_len w = (w % 2 ^ 24 + (2 ^ 64 - 4)) % 2 ^ 64

abbrev pub blob_raw_len : ℕ → ℕ
blob_raw_len w = (blob_len w + 4) % 2 ^ 64

abbrev pub blob_pad_len : ℕ → ℕ
blob_pad_len w = (blob_raw_len w % 2 ^ 32 + 3) % 2 ^ 32 / 4 * 4

-- `be32_to_cpu` of the four bytes at an offset.
unfoldable pub read_be32 : List ℕ → ℕ → Option ℕ
read_be32 mem p = get_elem? mem p >>= λ a. get_elem? mem (p + 1) >>= λ b.
    get_elem? mem (p + 2) >>= λ c.
    get_elem? mem (p + 3) >>= λ d. some (a * 2 ^ 24 + b * 2 ^ 16 + c * 2 ^ 8 + d)

-- `struct blob_attr_info`; `validate` is code of the user, on an attribute.
pub record BlobAttrInfo : Type 0 where
  pub type : ℕ
  pub minlen : ℕ
  pub maxlen : ℕ
  pub validate : Option (ℕ → Bool)

abbrev pub blob_attr_string : ℕ
blob_attr_string = 3

abbrev pub blob_attr_int8 : ℕ
blob_attr_int8 = 4

abbrev pub blob_attr_int64 : ℕ
blob_attr_int64 = 7

abbrev pub blob_attr_last : ℕ
blob_attr_last = 9

abbrev pub blob_type_minlen : ℕ → ℕ
blob_type_minlen type =
    if type == 3
    then 1
    else if type == 4
    then 1
    else if type == 5
    then 2
    else if type == 6
    then 4
    else if type == 7
    then 8
    else if type == 8
    then 8
    else 0

-- The length is wrong for the type.
abbrev pub refuses_len : ℕ → ℕ → Bool
refuses_len len type =
    if leb blob_attr_int8 type && leb type blob_attr_int64
    then not (len == blob_type_minlen type)
    else ltb len (blob_type_minlen type)

-- `blob_check_type(ptr, len, type)`
unfoldable pub blob_check_type : List ℕ → ℕ → ℕ → ℕ → Option Bool
blob_check_type mem ptr len type =
    if leb blob_attr_last type
    then some false
    else if refuses_len len type
    then some false
    else if type == blob_attr_string
    then (get_elem? mem (ptr + len - 1) >>= λ last. some (last == 0))
    else some true

abbrev pub validated : Option (ℕ → Bool) → ℕ → Bool
validated none attr = true
validated (some validate) attr = validate attr

-- The checks of `info[id]`. The type, an unsigned int, is read as an int: one of 2 ^ 31 or more is
-- negative, and a length is then looked up before the table's start.
unfoldable pub check_info : List ℕ → ℕ → ℕ → BlobAttrInfo → Option Bool
unfolding blob_check_type
check_info mem attr w i =
    (if leb (2 ^ 31) i.type
      then none
      else if ltb i.type blob_attr_last
      then blob_check_type mem (attr + 4) (blob_len w) i.type
      else some true)
    >>= λ typed. some (
        typed
        && not (not (i.minlen == 0) && ltb (blob_raw_len w) i.minlen)
        && not (not (i.maxlen == 0) && ltb i.maxlen (blob_raw_len w))
        && validated i.validate attr)

abbrev pub is_null : Option ℕ → Bool
is_null none = true
is_null (some p) = false

-- `found` and the table `data`, of `max` pointers.
abbrev pub Found : Type 0
Found = ℕ × List (Option ℕ)

module _ (mem : List ℕ) (info : Option (List BlobAttrInfo)) (max : ℕ) where
  unfoldable pub accepts : ℕ → ℕ → Option Bool
  unfolding check_info
  accepts attr w = elim info [
    | none ↦ some true
    | some infos ↦ get_elem? infos (blob_id w) >>= λ i. check_info mem attr w i
  ]

  -- `data[id] = attr`, counted where it was NULL.
  unfoldable pub enter : ℕ → ℕ → List (Option ℕ) → Option Found
  enter id attr table =
      get_elem? table id >>= λ old. some (if is_null old then 1 else 0, set table id (some attr))

  -- `blob_parse_attr(attr, attr_len, data, info, max)`
  unfoldable pub blob_parse_attr : ℕ → ℕ → List (Option ℕ) → Option Found
  unfolding read_be32 accepts enter
  blob_parse_attr attr attr_len table =
      if ltb attr_len 4
      then some (0, table)
      else read_be32 mem attr >>= λ w.
          if leb max (blob_id w)
          then some (0, table)
          else if ltb attr_len (blob_raw_len w) || ltb (blob_raw_len w) 4
          then some (0, table)
          else if ltb (blob_raw_len w) (blob_len w)
          then some (0, table)
          else (accepts attr w >>= λ good.
              if good then enter (blob_id w) attr table else some (0, table))

  -- The loop `blob_for_each_attr_len` with its body.
  unfoldable pub parse_loop : ℕ → ℕ → ℕ → ℕ → ℕ → List (Option ℕ) → Option Found
  unfolding blob_parse_attr read_be32
  parse_loop zero len pos rem found table = none
  parse_loop (suc fuel) len pos rem found table =
      if leb 4 rem && ltb rem len
      then (read_be32 mem pos >>= λ w.
          if leb (blob_pad_len w) rem && leb 4 (blob_pad_len w)
          then (blob_parse_attr pos rem table >>= λ r.
              parse_loop fuel len (pos + blob_pad_len w) (rem - blob_pad_len w) (found + r.0) r.1)
          else some (found, table))
      else some (found, table)

  -- `blob_parse_untrusted(attr, attr_len, data, info, max)`
  unfoldable pub blob_parse_untrusted : ℕ → Option ℕ → ℕ → List (Option ℕ) → Option Found
  unfolding parse_loop read_be32
  blob_parse_untrusted fuel none attr_len table = some (0, table)
  blob_parse_untrusted fuel (some attr) attr_len table =
      if ltb attr_len 4
      then some (0, table)
      else read_be32 mem attr >>= λ w.
          if ltb attr_len (blob_raw_len w)
          then some (0, table)
          else parse_loop fuel (blob_raw_len w) (attr + 4) (blob_len w) 0 (replicate max none)
