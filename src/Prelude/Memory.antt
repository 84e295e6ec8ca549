-- ===== src/Prelude/Memory.antt =====
-- Fallible code as options (`none` is a fault: an assertion that fails, or an access outside the
-- object), and an array in memory as a list of its elements.
use Prim.Native.Nat.{ℕ, zero, suc, ◌+◌, ◌<◌}
use mathlib.Core.Path.{◌≡◌, refl, ap, ◌∙◌}
use mathlib.Core.List.{List, [], ◌∷◌, ◌++◌}
use mathlib.Core.Option
use mathlib.Core.Option.{Option, none, some}
use native.Mathlib.Omega.{arith}
use openwrt_libubox.Prelude.Lists.{length, length-set, set, get_elem?}

infixl 5 ◌>>=◌ ◌>>◌
abbrev pub ◌>>=◌ {ℓ κ} : {A : Type ℓ} {B : Type κ} → Option A → (A → Option B) → Option B
none >>= f = none
some a >>= f = f a

abbrev pub ◌>>◌ {ℓ} : {B : Type ℓ} → Option (Unit {0}) → Option B → Option B
m >> k = m >>= λ _. k

module _ {ℓ} {A : Type ℓ} where
  -- A write out of bounds is a fault.
  unfoldable pub store : List A → ℕ → A → Option (List A)
  store [] i v = none
  store (x ∷ xs) zero v = some (v ∷ xs)
  store (x ∷ xs) (suc i) v = Option.map (λ ys. x ∷ ys) (store xs i v)

  pub store_lem : (m : List A) (i : ℕ) (v : A) → i < length m → store m i v ≡ some (set m i v)
  unfolding store
  store_lem [] i v h = elim h [ ]
  store_lem (x ∷ xs) zero v h = refl
  store_lem (x ∷ xs) (suc i) v h = ap (Option.map (λ ys. x ∷ ys)) (store_lem xs i v (omega arith))

map-map-append {ℓ} :
    {A : Type ℓ} (y : A) (out : List A) (r : Option (List A))
    → Option.map (λ ys. y ∷ ys) (Option.map (λ ys. out ++ ys) r)
      ≡ Option.map (λ ys. (y ∷ out) ++ ys) r
map-map-append y out none = refl
map-map-append y out (some ys) = refl

map-nil-append {ℓ} : {A : Type ℓ} (r : Option (List A)) → r ≡ Option.map (λ ys. [] ++ ys) r
map-nil-append none = refl
map-nil-append (some ys) = refl

-- A store at offset `i` behind a front of known length is a store into the rest.
pub store-behind {ℓ} :
    {A : Type ℓ} (out m : List A) (n i : ℕ) (v : A)
    → n ≡ length out + i
    → store (out ++ m) n v ≡ Option.map (λ ys. out ++ ys) (store m i v)
unfolding store
store-behind [] m n i v e = ap (λ k. store m k v) (omega arith) ∙ map-nil-append (store m i v)
store-behind (y ∷ out) m zero i v e = absurd (omega arith)
store-behind (y ∷ out) m (suc n) i v e =
    ap (Option.map (λ ys. y ∷ ys)) (store-behind out m n i v (omega arith))
    ∙ map-map-append y out (store m i v)

pub get_elem?-behind {ℓ} :
    {A : Type ℓ} (out m : List A) (n i : ℕ)
    → n ≡ length out + i
    → get_elem? (out ++ m) n ≡ get_elem? m i
get_elem?-behind [] m n i e = ap (get_elem? m) (omega arith)
get_elem?-behind (y ∷ out) m zero i e = absurd (omega arith)
get_elem?-behind (y ∷ out) m (suc n) i e = get_elem?-behind out m n i (omega arith)

-- A store in bounds succeeds and keeps the size; so does a read.
pub store-bounds {ℓ} :
    {A : Type ℓ} (m : List A) (i : ℕ) (v : A)
    → i < length m
    → (t : List A) × (store m i v ≡ some t) × (length t ≡ length m)
store-bounds m i v h = (set m i v, store_lem m i v h, length-set m i v)

pub get_elem?-bounds {ℓ} :
    {A : Type ℓ} (m : List A) (i : ℕ) → i < length m → (x : A) × (get_elem? m i ≡ some x)
get_elem?-bounds [] i h = elim h [ ]
get_elem?-bounds (x ∷ m) zero h = (x, refl)
get_elem?-bounds (x ∷ m) (suc i) h = get_elem?-bounds m i (omega arith)
