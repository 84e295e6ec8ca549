-- ===== src/Ustream/Invariant.antt =====
-- What a list of buffers keeps: where data may be, and how many buffers there are.
use mathlib.Core.Path.{subst}
use mathlib.Core.List.{append_assoc, append-nil}
use openwrt_libubox.Prelude.{
  ℕ, ◌-◌, ◌<◌, ◌≡◌, ◌⊎◌, inr, refl, sym, ap, ◌∙◌, arith, List, [], ◌∷◌, ◌++◌, length, take, drop,
  some, true, All, append-All,
}
use openwrt_libubox.Prelude.Int.{pos, ltb_ℤ, ◌≤ℤ◌}
use openwrt_libubox.Ustream.Buffers.{Buf, BufList, slice, with_last, without_head}
use openwrt_libubox.Ustream.Slices.{IsBuf}

-- The data of a chain of buffers, in order.
abbrev pub slices : List Buf → List ℕ
slices [] = []
slices (b ∷ bs) = slice b ++ slices bs

abbrev pub chain : BufList → List Buf
chain l = l.filled ++ l.rest

-- The bytes that a list holds.
abbrev pub contents : BufList → List ℕ
contents l = slices (chain l)

abbrev pub Full : ℕ → Buf → Type 0
Full extra b = IsBuf extra b × (b.data_at < b.tail_at)

abbrev pub Empty : ℕ → Buf → Type 0
Empty extra b = IsBuf extra b × (b.data_at ≡ 0) × (b.tail_at ≡ 0)

-- The buffers before `data_tail` hold data, those behind it none; the one there holds data or is as it
-- was made.
abbrev pub Chain : ℕ → List Buf → List Buf → Type 0
Chain extra filled [] = filled ≡ []
Chain extra filled (b ∷ bs) =
    All (Full extra) filled
    × IsBuf extra b
    × ((b.data_at < b.tail_at) ⊎ ((b.data_at ≡ 0) × (b.tail_at ≡ 0)))
    × All (Empty extra) bs

pub record IsChain (extra : ℕ) (l : BufList) : Type 0 where
  pub shape : Chain extra l.filled l.rest
  pub number : l.buffers ≡ length (chain l)
  pub limit : ltb_ℤ (pos 0) l.max_buffers ≡ true → pos l.buffers ≤ℤ l.max_buffers
  pub len : 0 < l.buffer_len

-- The data is counted, too.
pub record IsBufList (extra : ℕ) (l : BufList) : Type 0 where
  pub buffers_in : IsChain extra l
  pub counted : l.data_bytes ≡ length (contents l)

-- The limits that a program sets stay as they are.
pub record SameLimits (l l' : BufList) : Type 0 where
  pub mins : l'.min_buffers ≡ l.min_buffers
  pub maxs : l'.max_buffers ≡ l.max_buffers
  pub lens : l'.buffer_len ≡ l.buffer_len

pub slices-append : (xs ys : List Buf) → slices (xs ++ ys) ≡ slices xs ++ slices ys
slices-append [] ys = refl
slices-append (b ∷ bs) ys =
    ap (λ l. slice b ++ l) (slices-append bs ys)
    ∙ sym (append_assoc (slice b) (slices bs) (slices ys))

pub slice-Empty : (extra : ℕ) (b : Buf) → Empty extra b → slice b ≡ []
slice-Empty extra b (w, d, t) =
    let none_left : b.tail_at - b.data_at ≡ 0 = omega arith in
    ap (λ n. take n (drop b.data_at b.cells)) none_left

pub slices-Empty : (extra : ℕ) (bs : List Buf) → All (Empty extra) bs → slices bs ≡ []
slices-Empty extra [] h = refl
slices-Empty extra (b ∷ bs) h = rw (slice-Empty extra b h.0) (slices-Empty extra bs h.1)

-- A new last buffer, without data.
pub Chain-with_last :
    (extra : ℕ) (filled rest : List Buf) (b : Buf)
    → Chain extra filled rest
    → Empty extra b
    → (let p = with_last filled rest b in
        Chain extra p.0 p.1 × (p.0 ++ p.1 ≡ filled ++ rest ++ (b ∷ [])))
Chain-with_last extra filled [] b h e =
    let whole : filled ++ (b ∷ []) ≡ b ∷ [] = ap (λ l. l ++ (b ∷ [])) h in
    (rw whole (tt, e.0, inr (e.1, e.2), tt), ap (λ l. l ++ (b ∷ [])) (sym (append-nil filled)))
Chain-with_last extra filled (c ∷ cs) b h e = (
  (h.0, h.1, h.2, append-All (Empty extra) cs (b ∷ []) h.3 (e, tt)),
  sym (append_assoc filled (c ∷ cs) (b ∷ [])),
)

pub slices-with_last :
    (extra : ℕ) (bs : List Buf) (b : Buf) → Empty extra b → slices (bs ++ (b ∷ [])) ≡ slices bs
slices-with_last extra bs b e =
    slices-append bs (b ∷ [])
    ∙ ap (λ l. slices bs ++ (l ++ [])) (slice-Empty extra b e)
    ∙ append-nil (slices bs)

-- The first buffer taken away.
pub Chain-without_head :
    (extra : ℕ) (filled rest : List Buf) (b : Buf) (more : List Buf)
    → filled ++ rest ≡ b ∷ more
    → Chain extra filled rest
    → (f : List Buf) × (r : List Buf) × (without_head filled rest ≡ some (b, f, r))
      × (f ++ r ≡ more)
      × Chain extra f r
      × IsBuf extra b
Chain-without_head extra [] [] b more e h = cc
Chain-without_head extra [] (c ∷ []) b more e h =
    let same : c ≡ b = cc (e) in
    let last : [] ≡ more = cc (e) in
    ([], [], rw same refl, last, refl, subst (IsBuf extra) same h.1)
Chain-without_head extra [] (c ∷ (d ∷ ds)) b more e h =
    let same : c ≡ b = cc (e) in
    let others : d ∷ ds ≡ more = cc (e) in
    let first = h.3.0 in
    (
      [],
      d ∷ ds,
      rw same refl,
      others,
      (tt, first.0, inr (first.1, first.2), h.3.1),
      subst (IsBuf extra) same h.1,
    )
Chain-without_head extra (c ∷ cs) [] b more e h = cc
Chain-without_head extra (c ∷ cs) (d ∷ ds) b more e h =
    let same : c ≡ b = cc (e) in
    let others : cs ++ (d ∷ ds) ≡ more = cc (e) in
    (cs, d ∷ ds, rw same refl, others, (h.0.1, h.1, h.2, h.3), subst (IsBuf extra) same h.0.0.0)

pub then_limits : (a b c : BufList) → SameLimits a b → SameLimits b c → SameLimits a c
then_limits a b c s t = record {
  mins = t.mins ∙ s.mins;
  maxs = t.maxs ∙ s.maxs;
  lens = t.lens ∙ s.lens;
}

-- Buffers behind the others, without data.
pub slices-spare : (bs es : List Buf) → slices es ≡ [] → slices (bs ++ es) ≡ slices bs
slices-spare bs es e = slices-append bs es ∙ ap (λ xs. slices bs ++ xs) e ∙ append-nil (slices bs)

-- Data that goes behind all that is held, in the buffer at `data_tail`.
pub slices-behind :
    (filled rest : List Buf) (b b' : Buf) (bs : List Buf) (xs : List ℕ)
    → rest ≡ b ∷ bs
    → slices bs ≡ []
    → slice b' ≡ slice b ++ xs
    → slices (filled ++ (b' ∷ bs)) ≡ slices (filled ++ rest) ++ xs
slices-behind filled rest b b' bs xs e nothing grown =
    slices-append filled (b' ∷ bs)
    ∙ ap (λ ys. slices filled ++ (slice b' ++ ys)) nothing
    ∙ ap (λ ys. slices filled ++ ys) (append-nil (slice b') ∙ grown)
    ∙ sym (append_assoc (slices filled) (slice b) xs)
    ∙ ap (λ ys. slices filled ++ ys ++ xs)
        (sym (append-nil (slice b)) ∙ ap (λ ys. slice b ++ ys) (sym nothing))
    ∙ ap (λ ys. ys ++ xs)
        (sym (slices-append filled (b ∷ bs)) ∙ ap (λ r. slices (filled ++ r)) (sym e))
