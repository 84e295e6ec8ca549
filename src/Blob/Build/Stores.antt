-- ===== src/Blob/Build/Stores.antt =====
-- Writes into a buffer: what they leave alone, and what is read back.
use openwrt_libubox.Prelude.{
  ℕ, zero, suc, ◌+◌, ◌*◌, ◌/◌, ◌%◌, ◌^◌, ◌≤◌, ◌<◌, ◌≡◌, refl, ap, ◌∙◌, arith, List, [], ◌∷◌, length,
  some, store, store_lem, set, get_elem?, length-set, get_elem?-set_self, get_elem?-set_ne,
}
use openwrt_libubox.Blob.{read_be32}
use openwrt_libubox.Blob.Trusted.{read_bytes, zero_bytes}
use openwrt_libubox.Blob.Build.{write_be32, write_bytes}

-- The bytes outside of the n at p are as before.
pub record Kept (mem mem' : List ℕ) (p n : ℕ) : Type 0 where
  pub size : length mem' ≡ length mem
  pub before : (i : ℕ) → i < p → get_elem? mem' i ≡ get_elem? mem i
  pub after : (i : ℕ) → p + n ≤ i → get_elem? mem' i ≡ get_elem? mem i

pub store-Kept :
    (mem : List ℕ) (p v : ℕ)
    → p < length mem
    → (mem' : List ℕ) × (store mem p v ≡ some mem')
      × Kept mem mem' p 1
      × (get_elem? mem' p ≡ some v)
store-Kept mem p v h = (
  set mem p v,
  store_lem mem p v h,
  record {
    size = length-set mem p v;
    before = λ i l. get_elem?-set_ne mem v (λ e. omega arith);
    after = λ i l. get_elem?-set_ne mem v (λ e. omega arith);
  },
  get_elem?-set_self mem p v h,
)

-- Two writes inside one window.
pub Kept-join :
    (m0 m1 m2 : List ℕ) (p n p' n' q k : ℕ)
    → Kept m0 m1 p n
    → Kept m1 m2 p' n'
    → q ≤ p
    → q ≤ p'
    → p + n ≤ q + k
    → p' + n' ≤ q + k
    → Kept m0 m2 q k
Kept-join m0 m1 m2 p n p' n' q k a b l l' h h' = record {
  size = b.size ∙ a.size;
  before = λ i g. b.before i (omega arith) ∙ a.before i (omega arith);
  after = λ i g. b.after i (omega arith) ∙ a.after i (omega arith);
}

pub read_be32-same :
    (m m' : List ℕ) (p : ℕ)
    → ((i : ℕ) → p ≤ i → i < p + 4 → get_elem? m' i ≡ get_elem? m i)
    → read_be32 m' p ≡ read_be32 m p
unfolding read_be32
read_be32-same m m' p h =
    rw
      (
        h p (omega arith) (omega arith),
        h (p + 1) (omega arith) (omega arith),
        h (p + 2) (omega arith) (omega arith),
        h (p + 3) (omega arith) (omega arith),
      )
      refl

pub read_bytes-same :
    (m m' : List ℕ) (n p : ℕ)
    → ((i : ℕ) → p ≤ i → i < p + n → get_elem? m' i ≡ get_elem? m i)
    → read_bytes m' n p ≡ read_bytes m n p
unfolding read_bytes
read_bytes-same m m' zero p h = refl
read_bytes-same m m' (suc n) p h =
    rw
      (
        h p (omega arith) (omega arith),
        read_bytes-same m m' n (p + 1) (λ i a b. h i (omega arith) (omega arith)),
      )
      refl

bytes_lem :
    (w : ℕ)
    → w < 2 ^ 32
    → w / 2 ^ 24 % 256 * 2 ^ 24 + w / 2 ^ 16 % 256 * 2 ^ 16 + w / 2 ^ 8 % 256 * 2 ^ 8 + w % 256 ≡ w
bytes_lem w h = omega arith

read_be32-bytes :
    (m : List ℕ) (p a b c d : ℕ)
    → get_elem? m p ≡ some a
    → get_elem? m (p + 1) ≡ some b
    → get_elem? m (p + 2) ≡ some c
    → get_elem? m (p + 3) ≡ some d
    → read_be32 m p ≡ some (a * 2 ^ 24 + b * 2 ^ 16 + c * 2 ^ 8 + d)
unfolding read_be32
read_be32-bytes m p a b c d ha hb hc hd = rw (ha, hb, hc, hd) refl

pub write_be32-Kept :
    (mem : List ℕ) (p w : ℕ)
    → p + 4 ≤ length mem
    → w < 2 ^ 32
    → (mem' : List ℕ) × (write_be32 p w mem ≡ some mem')
      × Kept mem mem' p 4
      × (read_be32 mem' p ≡ some w)
unfolding write_be32
write_be32-Kept mem p w h l =
    let (m1, e1, k1, g1) = store-Kept mem p (w / 2 ^ 24 % 256) (omega arith) in
    let (m2, e2, k2, g2) = store-Kept m1 (p + 1) (w / 2 ^ 16 % 256) (omega (arith, k1.size)) in
    let (m3, e3, k3, g3) =
      store-Kept m2 (p + 2) (w / 2 ^ 8 % 256) (omega (arith, k1.size, k2.size)) in
    let (m4, e4, k4, g4) =
      store-Kept m3 (p + 3) (w % 256) (omega (arith, k1.size, k2.size, k3.size)) in
    let j2 : Kept mem m2 p 4 =
      Kept-join mem m1 m2 p 1 (p + 1) 1 p 4 k1 k2 (omega arith) (omega arith) (omega arith)
        (omega arith) in
    let j3 : Kept mem m3 p 4 =
      Kept-join mem m2 m3 p 4 (p + 2) 1 p 4 j2 k3 (omega arith) (omega arith) (omega arith)
        (omega arith) in
    let j4 : Kept mem m4 p 4 =
      Kept-join mem m3 m4 p 4 (p + 3) 1 p 4 j3 k4 (omega arith) (omega arith) (omega arith)
        (omega arith) in
    let b0 =
      k4.before p (omega arith) ∙ k3.before p (omega arith) ∙ k2.before p (omega arith) ∙ g1 in
    let b1 = k4.before (p + 1) (omega arith) ∙ k3.before (p + 1) (omega arith) ∙ g2 in
    let b2 = k4.before (p + 2) (omega arith) ∙ g3 in
    (
      m4,
      rw (e1, e2, e3, e4) refl,
      j4,
      read_be32-bytes m4 p _ _ _ _ b0 b1 b2 g4 ∙ ap some (bytes_lem w l),
    )

pub zero_bytes-Kept :
    (n p : ℕ) (mem : List ℕ)
    → p + n ≤ length mem
    → (mem' : List ℕ) × (zero_bytes n p mem ≡ some mem') × Kept mem mem' p n
unfolding zero_bytes
zero_bytes-Kept zero p mem h =
    (mem, refl, record { size = refl; before = λ i l. refl; after = λ i l. refl })
zero_bytes-Kept (suc n) p mem h =
    let (m1, e1, k1, _) = store-Kept mem p 0 (omega arith) in
    let (m2, e2, k2) = zero_bytes-Kept n (p + 1) m1 (omega (arith, k1.size)) in
    (
      m2,
      rw (e1, e2) refl,
      Kept-join mem m1 m2 p 1 (p + 1) n p (suc n) k1 k2 (omega arith) (omega arith) (omega arith)
          (omega arith),
    )

pub write_bytes-Kept :
    (xs : List ℕ) (p : ℕ) (mem : List ℕ)
    → p + length xs ≤ length mem
    → (mem' : List ℕ) × (write_bytes xs p mem ≡ some mem')
      × Kept mem mem' p (length xs)
      × (read_bytes mem' (length xs) p ≡ some xs)
unfolding write_bytes read_bytes
write_bytes-Kept [] p mem h =
    (mem, refl, record { size = refl; before = λ i l. refl; after = λ i l. refl }, refl)
write_bytes-Kept (x ∷ xs) p mem h =
    let (m1, e1, k1, g1) = store-Kept mem p x (omega arith) in
    let (m2, e2, k2, r2) = write_bytes-Kept xs (p + 1) m1 (omega (arith, k1.size)) in
    (
      m2,
      rw (e1, e2) refl,
      Kept-join mem m1 m2 p 1 (p + 1) (length xs) p (suc (length xs)) k1 k2 (omega arith)
          (omega arith) (omega arith) (omega arith),
      rw (k2.before p (omega arith) ∙ g1, r2) refl,
    )
