-- ===== src/Base64/Steps.antt =====
-- The steps of `b64_decode` on characters of the alphabet.
use openwrt_libubox.Prelude.{
  ℕ, ◌+◌, ◌*◌, ◌/◌, ◌%◌, ◌<◌, ◌≡◌, refl, ◌∙◌, List, [], ◌∷◌, ◌++◌, Option, none, some, true, false,
  length, ◌==◌, ◌||◌, if◌then◌else◌, store, store-behind, get_elem?-behind, ◌>>=◌, bit_or, arith,
}
use openwrt_libubox.Prelude.Bytes.{agree, eq_of_agree}
use openwrt_libubox.Base64.{Result, fail, base64_at, pad64}
use openwrt_libubox.Base64.Decode.{
  is_space, index_of, Phase, phase0, phase1, phase2, phase3, Step, go, bad, decode_step,
  decode_loop,
}

-- The sixty-four characters are found at their places, and none is a NUL, a space or a pad.
value_of : ℕ → ℕ
value_of s = elim (index_of (base64_at s)) [ none ↦ 64 | some v ↦ v ]

is_special : ℕ → ℕ
is_special s = let c = base64_at s in if c == 0 || (is_space c || c == pad64) then 1 else 0

value_table : agree 64 value_of (λ s. s) ≡ true
unfolding agree value_of index_of base64_at
value_table = refl

special_table : agree 64 is_special (λ s. 0) ≡ true
unfolding agree is_special base64_at
special_table = refl

base64_at-facts :
    (s : ℕ)
    → s < 64
    → (index_of (base64_at s) ≡ some s)
      × ((base64_at s == 0) ≡ false)
      × (is_space (base64_at s) ≡ false)
      × ((base64_at s == pad64) ≡ false)
base64_at-facts s h =
    let value = eq_of_agree 64 value_of (λ s. s) s value_table h in
    let special = eq_of_agree 64 is_special (λ s. 0) s special_table h in
    (
      unfold value_of in ground (arith, value),
      unfold is_special in ground (arith, special),
      unfold is_special in ground (arith, special),
      unfold is_special in ground (arith, special),
    )

-- How the loop goes on after a step.
after : List ℕ → ℕ → Option Step → Option Result
after cs size none = none
after cs size (some (go p i t)) = decode_loop cs size p i t
after cs size (some (bad t)) = fail t

after-eq :
    (cs : List ℕ) (size : ℕ) (r : Option Step)
    → (r >>= λ s. elim s [ go p i t ↦ decode_loop cs size p i t | bad t ↦ fail t ])
      ≡ after cs size r
unfolding after
after-eq cs size none = refl
after-eq cs size (some (go p i t)) = refl
after-eq cs size (some (bad t)) = refl

decode_char :
    (s : ℕ) (cs : List ℕ) (size : ℕ) (p : Phase) (i : ℕ) (t : List ℕ)
    → s < 64
    → decode_loop (base64_at s ∷ cs) size p i t ≡ after cs size (decode_step size s p i t)
decode_char s cs size p i t h =
    let (found, nul, space, pad) = base64_at-facts s h in
    unfold decode_loop in rw (nul, space, pad, found) (after-eq cs size (decode_step size s p i t))

-- One step in each phase, in memory whose bytes are known from `length out` on.
pub step0 :
    (size v i : ℕ) (out : List ℕ) (x : ℕ) (m : List ℕ)
    → i ≡ length out
    → i < size
    → decode_step size v phase0 i (out ++ (x ∷ m)) ≡ some (go phase1 i (out ++ ((v * 4 % 256) ∷ m)))
unfolding decode_step store
step0 size v i out x m e h = ground (arith, store-behind out (x ∷ m) i 0 (v * 4 % 256))

pub step1 :
    (size v i : ℕ) (out : List ℕ) (x y : ℕ) (r : ℕ) (m : List ℕ)
    → i ≡ length out
    → i + 1 < size
    → bit_or x (v / 16) ≡ r
    → decode_step size v phase1 i (out ++ (x ∷ y ∷ m))
      ≡ some (go phase2 (i + 1) (out ++ (r ∷ (v % 16 * 16) ∷ m)))
unfolding decode_step store
step1 size v i out x y r m e h q = ground (
  arith,
  get_elem?-behind out (x ∷ y ∷ m) i 0,
  store-behind out (x ∷ y ∷ m) i 0 (bit_or x (v / 16)),
  store-behind out (bit_or x (v / 16) ∷ y ∷ m) (i + 1) 1 (v % 16 * 16),
)

pub step2 :
    (size v i : ℕ) (out : List ℕ) (w x y : ℕ) (r : ℕ) (m : List ℕ)
    → i ≡ length out
    → i + 2 < size
    → bit_or x (v / 4) ≡ r
    → decode_step size v phase2 (i + 1) (out ++ (w ∷ x ∷ y ∷ m))
      ≡ some (go phase3 (i + 2) (out ++ (w ∷ r ∷ (v % 4 * 64) ∷ m)))
unfolding decode_step store
step2 size v i out w x y r m e h q = ground (
  arith,
  get_elem?-behind out (w ∷ x ∷ y ∷ m) (i + 1) 1,
  store-behind out (w ∷ x ∷ y ∷ m) (i + 1) 1 (bit_or x (v / 4)),
  store-behind out (w ∷ bit_or x (v / 4) ∷ y ∷ m) (i + 1 + 1) 2 (v % 4 * 64),
)

pub step3 :
    (size v i : ℕ) (out : List ℕ) (w x y : ℕ) (r : ℕ) (m : List ℕ)
    → i ≡ length out
    → i + 2 < size
    → bit_or y v ≡ r
    → decode_step size v phase3 (i + 2) (out ++ (w ∷ x ∷ y ∷ m))
      ≡ some (go phase0 (i + 3) (out ++ (w ∷ x ∷ r ∷ m)))
unfolding decode_step store
step3 size v i out w x y r m e h q = ground (
  arith,
  get_elem?-behind out (w ∷ x ∷ y ∷ m) (i + 2) 2,
  store-behind out (w ∷ x ∷ y ∷ m) (i + 2) 2 (bit_or y v),
)

-- The last steps, where the byte that takes the slopped bits is the end of the target: those bits
-- must be zero.
pub step1_end :
    (size v i : ℕ) (out : List ℕ) (x r : ℕ)
    → i ≡ length out
    → size ≡ i + 1
    → v % 16 ≡ 0
    → bit_or x (v / 16) ≡ r
    → decode_step size v phase1 i (out ++ (x ∷ [])) ≡ some (go phase2 (i + 1) (out ++ (r ∷ [])))
unfolding decode_step store
step1_end size v i out x r e h z q =
    ground
      (arith, get_elem?-behind out (x ∷ []) i 0, store-behind out (x ∷ []) i 0 (bit_or x (v / 16)))

pub step2_end :
    (size v i : ℕ) (out : List ℕ) (w x r : ℕ)
    → i ≡ length out
    → size ≡ i + 2
    → v % 4 ≡ 0
    → bit_or x (v / 4) ≡ r
    → decode_step size v phase2 (i + 1) (out ++ (w ∷ x ∷ []))
      ≡ some (go phase3 (i + 2) (out ++ (w ∷ r ∷ [])))
unfolding decode_step store
step2_end size v i out w x r e h z q = ground (
  arith,
  get_elem?-behind out (w ∷ x ∷ []) (i + 1) 1,
  store-behind out (w ∷ x ∷ []) (i + 1) 1 (bit_or x (v / 4)),
)

pub decode_round :
    (s : ℕ) (cs : List ℕ) (size : ℕ) (p : Phase) (i : ℕ) (t : List ℕ) {q : Phase} {j : ℕ}
    {u : List ℕ}
    → s < 64
    → decode_step size s p i t ≡ some (go q j u)
    → decode_loop (base64_at s ∷ cs) size p i t ≡ decode_loop cs size q j u
decode_round s cs size p i t h e = decode_char s cs size p i t h ∙ rw e (unfold after in refl)
