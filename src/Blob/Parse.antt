-- ===== src/Blob/Parse.antt =====
-- `blob_parse_untrusted` on any bytes.
use openwrt_libubox.Prelude.{
  ℕ, zero, suc, ◌+◌, ◌-◌, ◌*◌, ◌%◌, ◌^◌, ◌≤◌, ◌<◌, List, [], ◌∷◌, Option, none, some, Bool, true,
  false, ◌&&◌, ◌||◌, ◌==◌, ltb, leb, if◌then◌else◌, ◌>>=◌, get_elem?, set, replicate, length,
  length-set, get_elem?-bounds, ◌≡◌, refl, arith, Bool-cases, Option-cases, dec_lt, ==_iff, inl,
  inr, ap, ◌∙◌, sym, All,
}
use mathlib.Core.Bool.{false≢true}
use mathlib.Core.Path.{subst}
use openwrt_libubox.Blob.{
  blob_id, blob_len, blob_raw_len, blob_pad_len, read_be32, BlobAttrInfo, blob_check_type,
  refuses_len, check_info, is_null, Found, accepts, enter, blob_parse_attr, parse_loop,
  blob_parse_untrusted,
}

-- The entries of the table that are set.
abbrev pub entries : List (Option ℕ) → ℕ
entries [] = 0
entries (none ∷ table) = entries table
entries (some p ∷ table) = suc (entries table)

All-get_elem? :
    {A : Type 0} (P : A → Type 0) (xs : List A) (n : ℕ) (x : A)
    → All P xs
    → get_elem? xs n ≡ some x
    → P x
All-get_elem? P [] n x h e = absurd (cc (e))
All-get_elem? P (y ∷ ys) zero x h e = let same : y ≡ x = cc (e) in subst P same h.0
All-get_elem? P (y ∷ ys) (suc n) x h e = All-get_elem? P ys n x h.1 e

read_be32-bounds :
    (mem : List ℕ) (p : ℕ) → p + 4 ≤ length mem → (w : ℕ) × (read_be32 mem p ≡ some w)
unfolding read_be32
read_be32-bounds mem p h =
    let (a, ea) = get_elem?-bounds mem p (omega arith) in
    let (b, eb) = get_elem?-bounds mem (p + 1) (omega arith) in
    let (c, ec) = get_elem?-bounds mem (p + 2) (omega arith) in
    let (d, ed) = get_elem?-bounds mem (p + 3) (omega arith) in
    (a * 2 ^ 24 + b * 2 ^ 16 + c * 2 ^ 8 + d, rw (ea, eb, ec, ed) refl)

raw_len_lem : (w : ℕ) → blob_raw_len w ≡ w % 2 ^ 24
raw_len_lem w = omega arith

len_lem : (w : ℕ) → 4 ≤ w % 2 ^ 24 → blob_len w + 4 ≡ w % 2 ^ 24
len_lem w h = omega arith

-- A string is read at its last byte, and only where it has one.
blob_check_type-bounds :
    (mem : List ℕ) (ptr len type : ℕ)
    → ptr + len ≤ length mem
    → (b : Bool) × (blob_check_type mem ptr len type ≡ some b)
unfolding blob_check_type
blob_check_type-bounds mem ptr len type h = elim (Bool-cases (leb 9 type || refuses_len len type)) [
  | inl e ↦ (false, ground arith)
  | inr e ↦ elim (Bool-cases (type == 3)) [
    | inl s ↦
        let some_bytes : 1 ≤ len = string_len len type ((==_iff type 3).0 s) (ground arith) in
        let (last, r) = get_elem?-bounds mem (ptr + len - 1) (omega arith) in
        (last == 0, ground (arith, r))
    | inr s ↦ (true, ground arith)
  ]
]
  where
    string_len : (len type : ℕ) → type ≡ 3 → refuses_len len type ≡ false → 1 ≤ len
    string_len len type e r = ground arith

check_info-bounds :
    (mem : List ℕ) (attr w : ℕ) (i : BlobAttrInfo)
    → i.type < 2 ^ 31
    → 4 ≤ w % 2 ^ 24
    → attr + w % 2 ^ 24 ≤ length mem
    → (b : Bool) × (check_info mem attr w i ≡ some b)
unfolding check_info
check_info-bounds mem attr w i small four h =
    let in_range : attr + 4 + blob_len w ≤ length mem = omega (arith, len_lem w four) in
    let (b, e) = blob_check_type-bounds mem (attr + 4) (blob_len w) i.type in_range in
    answered _ _ (typed (leb (2 ^ 31) i.type) (ltb i.type 9) b (ground arith) e)
  where
    typed :
        (a c b : Bool) {o : Option Bool}
        → a ≡ false
        → o ≡ some b
        → (r : Bool) × ((if a then none else if c then o else some true) ≡ some r)
    typed true c b a e = absurd (false≢true (sym a))
    typed false true b a e = (b, e)
    typed false false b a e = (true, refl)

    answered :
        (o : Option Bool) (g : Bool → Bool)
        → (r : Bool) × (o ≡ some r)
        → (r : Bool) × ((o >>= λ t. some (g t)) ≡ some r)
    answered o g known = (g known.0, rw known.1 refl)

module _ (mem : List ℕ) (info : Option (List BlobAttrInfo)) (max : ℕ)
    (described : (infos : List BlobAttrInfo)
      → info ≡ some infos
      → (max ≤ length infos) × All (λ i. i.type < 2 ^ 31) infos) where
  accepts-bounds :
      (attr w : ℕ)
      → 4 ≤ w % 2 ^ 24
      → attr + w % 2 ^ 24 ≤ length mem
      → blob_id w < max
      → (b : Bool) × (accepts mem info max attr w ≡ some b)
  unfolding accepts
  accepts-bounds attr w four h l = elim (Option-cases info) [
    | inl n ↦ (true, rw n refl)
    | inr (infos, n) ↦
        let (i, e) = get_elem?-bounds infos (blob_id w) (omega (arith, (described infos n).0)) in
        let (b, f) =
          check_info-bounds mem attr w i
            (All-get_elem? (λ i. i.type < 2 ^ 31) infos (blob_id w) i (described infos n).1 e) four
            h in
        (b, rw (n, e, f) refl)
  ]

  -- What parsing one attribute leaves: the table's size, and the count of what is set.
  abbrev Entered : List (Option ℕ) → Option Found → Type 0
  Entered table r =
      (f : Found) × (r ≡ some f) × (length f.1 ≡ length table) × (entries f.1 ≡ f.0 + entries table)

  entries-set :
      (table : List (Option ℕ)) (i p : ℕ) (old : Option ℕ)
      → get_elem? table i ≡ some old
      → entries (set table i (some p)) ≡ (if is_null old then 1 else 0) + entries table
  entries-set [] i p old h = absurd (ground arith)
  entries-set (none ∷ table) zero p old h = ground arith
  entries-set (some q ∷ table) zero p old h = ground arith
  entries-set (none ∷ table) (suc i) p old h = entries-set table i p old h
  entries-set (some q ∷ table) (suc i) p old h = omega (arith, entries-set table i p old h)

  enter-Entered :
      (id attr : ℕ) (table : List (Option ℕ))
      → id < length table
      → Entered table (enter mem info max id attr table)
  unfolding enter
  enter-Entered id attr table l =
      let (old, e) = get_elem?-bounds table id l in
      (
        (if is_null old then 1 else 0, set table id (some attr)),
        rw e refl,
        length-set table id (some attr),
        entries-set table id attr old e,
      )

  abbrev rejects : ℕ → ℕ → Bool
  rejects w rem =
      leb max (blob_id w)
      || (ltb rem (blob_raw_len w) || ltb (blob_raw_len w) 4)
      || ltb (blob_raw_len w) (blob_len w)

  blob_parse_attr-Entered :
      (attr rem : ℕ) (table : List (Option ℕ))
      → attr + rem ≤ length mem
      → length table ≡ max
      → Entered table (blob_parse_attr mem info max attr rem table)
  unfolding blob_parse_attr
  blob_parse_attr-Entered attr rem table h t = elim (Bool-cases (ltb rem 4)) [
    | inl e ↦ ((0, table), ground (arith, e), refl, omega arith)
    | inr e ↦
        let (w, r) = read_be32-bounds mem attr (ground arith) in
        elim (Bool-cases (rejects w rem)) [
          | inl x ↦ ((0, table), ground (arith, e, r, x), refl, omega arith)
          | inr x ↦
              let four : 4 ≤ w % 2 ^ 24 = ground (arith, raw_len_lem w) in
              let inside : attr + w % 2 ^ 24 ≤ length mem = ground (arith, raw_len_lem w) in
              let small : blob_id w < max = ground arith in
              let (good, g) = accepts-bounds attr w four inside small in
              elim (Bool-cases good) [
                | inl y ↦
                    let (f, m, l, n) = enter-Entered (blob_id w) attr table (omega (arith, t)) in
                    (f, ground (arith, e, r, x, g, y, m), l, n)
                | inr y ↦ ((0, table), ground (arith, e, r, x, g, y), refl, omega arith)
              ]
        ]
  ]

  parse_loop-counts :
      (fuel len pos rem found : ℕ) (table : List (Option ℕ))
      → rem < fuel
      → rem < len
      → pos + rem ≤ length mem
      → length table ≡ max
      → entries table ≡ found
      → (f : Found) × (parse_loop mem info max fuel len pos rem found table ≡ some f)
        × (length f.1 ≡ max)
        × (entries f.1 ≡ f.0)
  unfolding parse_loop
  parse_loop-counts zero len pos rem found table l b h t n = absurd (omega arith)
  parse_loop-counts (suc fuel) len pos rem found table l b h t n =
      elim (Bool-cases (leb 4 rem && ltb rem len)) [
        | inr e ↦ ((found, table), ground (arith, e), t, n)
        | inl e ↦
            let (w, r) = read_be32-bounds mem pos (ground arith) in
            elim (Bool-cases (leb (blob_pad_len w) rem && leb 4 (blob_pad_len w))) [
              | inr p ↦ ((found, table), ground (arith, e, r, p), t, n)
              | inl p ↦
                  let (f, s, m, c) = blob_parse_attr-Entered pos rem table h t in
                  let small : blob_pad_len w ≤ rem = ground arith in
                  let some_bytes : 4 ≤ blob_pad_len w = ground arith in
                  let (g, run, k, d) =
                    parse_loop-counts fuel len (pos + blob_pad_len w) (rem - blob_pad_len w)
                      (found + f.0) f.1 (omega arith) (omega arith) (omega arith) (m ∙ t)
                      (omega (arith, c, n)) in
                  (g, ground (arith, e, r, p, s, run), k, d)
            ]
      ]

  no_entries : (n : ℕ) → entries (replicate n none) ≡ 0
  no_entries zero = refl
  no_entries (suc n) = no_entries n

  length-replicate : (n : ℕ) (p : Option ℕ) → length (replicate n p) ≡ n
  length-replicate zero p = refl
  length-replicate (suc n) p = ap suc (length-replicate n p)

  -- A header that says less than its own size ends the loop at once.
  short_loop :
      (fuel w pos : ℕ)
      → w % 2 ^ 24 < 4
      → parse_loop mem info max (suc fuel) (blob_raw_len w) pos (blob_len w) 0 (replicate max none)
        ≡ some (0, replicate max none)
  unfolding parse_loop
  short_loop fuel w pos s = ground (arith, raw_len_lem w)

  -- `blob_parse_untrusted` of an attribute at which `attr_len` bytes can be read, whatever they
  -- are, into a table of `max` NULLs, with a description for each of the `max` ids, of types below
  -- 2 ^ 31, or none, and fuel for more steps than bytes: every access is in bounds, the loop ends,
  -- the table keeps its size, and the result is the number of its entries that are set.
  pub blob_parse_untrusted-counts :
      (fuel attr attr_len : ℕ) (table : List (Option ℕ))
      → attr + attr_len ≤ length mem
      → attr_len < fuel
      → entries table ≡ 0
      → length table ≡ max
      → (f : Found) × (blob_parse_untrusted mem info max fuel (some attr) attr_len table ≡ some f)
        × (length f.1 ≡ max)
        × (entries f.1 ≡ f.0)
  unfolding blob_parse_untrusted
  blob_parse_untrusted-counts zero attr attr_len table h l n t = absurd (omega arith)
  blob_parse_untrusted-counts (suc fuel) attr attr_len table h l n t =
      elim (Bool-cases (ltb attr_len 4)) [
        | inl e ↦ ((0, table), ground (arith, e), t, n)
        | inr e ↦
            let (w, r) = read_be32-bounds mem attr (ground arith) in
            elim (Bool-cases (ltb attr_len (blob_raw_len w))) [
              | inl x ↦ ((0, table), ground (arith, e, r, x), t, n)
              | inr x ↦ elim (dec_lt (w % 2 ^ 24) 4) [
                | yes s ↦ (
                  (0, replicate max none),
                  ground (arith, e, r, x, short_loop fuel w (attr + 4) s),
                  length-replicate max none,
                  no_entries max,
                )
                | no s ↦
                    let len : blob_raw_len w ≤ attr_len = ground arith in
                    let (g, run, k, d) =
                      parse_loop-counts (suc fuel) (blob_raw_len w) (attr + 4) (blob_len w) 0
                        (replicate max none) (omega arith) (omega arith)
                        (omega (arith, raw_len_lem w)) (length-replicate max none)
                        (no_entries max) in
                    (g, ground (arith, e, r, x, run), k, d)
              ]
            ]
      ]
