-- ===== src/Prelude/Segments.antt =====
-- The front and the rest of a list, of its parts and behind a write.
use Prim.Native.Nat.{ℕ, zero, suc, ◌+◌, ◌-◌, ◌≤◌}
use mathlib.Core.Path.{◌≡◌, refl, sym, ap, ◌∙◌}
use mathlib.Core.List.{List, [], ◌∷◌, ◌++◌}
use native.Mathlib.Omega.{arith}
use openwrt_libubox.Prelude.Lists.{length, take, drop, set}

module _ {ℓ} {A : Type ℓ} where
  pub take-append : (xs ys : List A) (n : ℕ) → n ≡ length xs → take n (xs ++ ys) ≡ xs
  take-append [] ys n e = rw e refl
  take-append (x ∷ xs) ys zero e = absurd (omega arith)
  take-append (x ∷ xs) ys (suc n) e = ap (λ l. x ∷ l) (take-append xs ys n (omega arith))

  pub drop-append : (xs ys : List A) (n : ℕ) → n ≡ length xs → drop n (xs ++ ys) ≡ ys
  drop-append [] ys n e = rw e refl
  drop-append (x ∷ xs) ys zero e = absurd (omega arith)
  drop-append (x ∷ xs) ys (suc n) e = drop-append xs ys n (omega arith)

  pub take-all : (xs : List A) (n : ℕ) → length xs ≤ n → take n xs ≡ xs
  take-all [] zero h = refl
  take-all [] (suc n) h = refl
  take-all (x ∷ xs) zero h = absurd (omega arith)
  take-all (x ∷ xs) (suc n) h = ap (λ l. x ∷ l) (take-all xs n (omega arith))

  pub drop-all : (xs : List A) (n : ℕ) → length xs ≤ n → drop n xs ≡ []
  drop-all [] zero h = refl
  drop-all [] (suc n) h = refl
  drop-all (x ∷ xs) zero h = absurd (omega arith)
  drop-all (x ∷ xs) (suc n) h = drop-all xs n (omega arith)

  pub drop_front :
      (d t : ℕ) (xs ys : List A)
      → d ≤ t
      → t ≤ length xs
      → drop d (take t xs ++ ys) ≡ take (t - d) (drop d xs) ++ ys
  drop_front zero t xs ys h l = ap (λ n. take n xs ++ ys) (omega arith)
  drop_front (suc d) zero xs ys h l = absurd (omega arith)
  drop_front (suc d) (suc t) [] ys h l = absurd (omega arith)
  drop_front (suc d) (suc t) (x ∷ xs) ys h l =
      drop_front d t xs ys (omega arith) (omega arith)
      ∙ ap (λ n. take n (drop d xs) ++ ys) (omega arith)

  pub drop-drop : (m n : ℕ) (xs : List A) → drop (m + n) xs ≡ drop n (drop m xs)
  drop-drop zero n xs = ap (λ k. drop k xs) (omega arith)
  drop-drop (suc m) zero [] = drop-all [] (suc m + zero) (omega arith)
  drop-drop (suc m) (suc n) [] = drop-all [] (suc m + suc n) (omega arith)
  drop-drop (suc m) n (x ∷ xs) =
      let e : suc m + n ≡ suc (m + n) = omega arith in
      ap (λ k. drop k (x ∷ xs)) e ∙ drop-drop m n xs

  pub take_behind : (m n : ℕ) (xs : List A) → take (n - m) (drop m xs) ≡ drop m (take n xs)
  take_behind zero n xs = ap (λ k. take k xs) (omega arith)
  take_behind (suc m) zero [] = take-all [] (zero - suc m) (omega arith)
  take_behind (suc m) zero (x ∷ xs) =
      let e : zero - suc m ≡ 0 = omega arith in ap (λ k. take k (drop m xs)) e
  take_behind (suc m) (suc n) [] = take-all [] (suc n - suc m) (omega arith)
  take_behind (suc m) (suc n) (x ∷ xs) =
      let e : suc n - suc m ≡ n - m = omega arith in
      ap (λ k. take k (drop m xs)) e ∙ take_behind m n xs

  pub set_behind :
      (n d i : ℕ) (xs : List A) (v : A)
      → d + n ≤ i
      → take n (drop d (set xs i v)) ≡ take n (drop d xs)
  set_behind n d i [] v h = refl
  set_behind zero d i (x ∷ xs) v h = refl
  set_behind (suc n) d zero (x ∷ xs) v h = absurd (omega arith)
  set_behind (suc n) zero (suc i) (x ∷ xs) v h =
      ap (λ l. x ∷ l) (set_behind n zero i xs v (omega arith))
  set_behind (suc n) (suc d) (suc i) (x ∷ xs) v h = set_behind (suc n) d i xs v (omega arith)

  pub take-drop_lem : (n : ℕ) (xs : List A) → take n xs ++ drop n xs ≡ xs
  take-drop_lem zero xs = refl
  take-drop_lem (suc n) [] = refl
  take-drop_lem (suc n) (x ∷ xs) = ap (λ l. x ∷ l) (take-drop_lem n xs)

  pub drop_within : (n : ℕ) (xs ys : List A) → n ≤ length xs → drop n (xs ++ ys) ≡ drop n xs ++ ys
  drop_within zero xs ys h = refl
  drop_within (suc n) [] ys h = absurd (omega arith)
  drop_within (suc n) (x ∷ xs) ys h = drop_within n xs ys (omega arith)

  pub drop_past :
      (n : ℕ) (xs ys : List A) → length xs ≤ n → drop n (xs ++ ys) ≡ drop (n - length xs) ys
  drop_past n [] ys h = ap (λ k. drop k ys) (omega arith)
  drop_past zero (x ∷ xs) ys h = absurd (omega arith)
  drop_past (suc n) (x ∷ xs) ys h =
      drop_past n xs ys (omega arith) ∙ ap (λ k. drop k ys) (omega arith)

  pub take_within : (n : ℕ) (xs ys : List A) → n ≤ length xs → take n (xs ++ ys) ≡ take n xs
  take_within zero xs ys h = refl
  take_within (suc n) [] ys h = absurd (omega arith)
  take_within (suc n) (x ∷ xs) ys h = ap (λ l. x ∷ l) (take_within n xs ys (omega arith))

  pub take_more : (m n : ℕ) (xs : List A) → take m xs ++ take n (drop m xs) ≡ take (m + n) xs
  take_more zero n xs = ap (λ k. take k xs) (omega arith)
  take_more (suc m) zero [] = sym (take-all [] (suc m + zero) (omega arith))
  take_more (suc m) (suc n) [] = sym (take-all [] (suc m + suc n) (omega arith))
  take_more (suc m) n (x ∷ xs) =
      let e : suc m + n ≡ suc (m + n) = omega arith in
      ap (λ l. x ∷ l) (take_more m n xs) ∙ ap (λ k. take k (x ∷ xs)) (sym e)
