-- ===== src/SafeList/Members.antt =====
-- Who is linked in a list, and how many, after an element is added or deleted.
use openwrt_libubox.Prelude.{
  ℕ, suc, List, [], ◌∷◌, ◌++◌, true, false, ◌||◌, ◌&&◌, not, ◌==◌, ◌≡◌, refl, arith, length,
}
use openwrt_libubox.SafeList.{mem, remove}
use openwrt_libubox.SafeList.Deletion.{IsDistinct, remove-absent}

pub mem-remove_all : (x y : ℕ) (xs : List ℕ) → mem x (remove y xs) ≡ (mem x xs && not (x == y))
mem-remove_all x y [] = refl
mem-remove_all x y (z ∷ xs) = ground (arith, mem-remove_all x y xs)

pub mem-snoc : (x y : ℕ) (xs : List ℕ) → mem x (xs ++ (y ∷ [])) ≡ (mem x xs || x == y)
mem-snoc x y [] = ground arith
mem-snoc x y (z ∷ xs) = ground (arith, mem-snoc x y xs)

pub IsDistinct-snoc :
    (y : ℕ) (xs : List ℕ) → mem y xs ≡ false → IsDistinct xs → IsDistinct (xs ++ (y ∷ []))
IsDistinct-snoc y [] h d = (refl, tt)
IsDistinct-snoc y (x ∷ xs) h d = ground (arith, IsDistinct-snoc y xs, mem-snoc x y xs, d.0)

pub length-snoc : (y : ℕ) (xs : List ℕ) → length (xs ++ (y ∷ [])) ≡ suc (length xs)
length-snoc y [] = refl
length-snoc y (x ∷ xs) = omega (arith, length-snoc y xs)

pub length-remove :
    (y : ℕ) (xs : List ℕ) → mem y xs ≡ true → IsDistinct xs → suc (length (remove y xs)) ≡ length xs
length-remove y [] h d = absurd (ground arith)
length-remove y (x ∷ xs) h d = ground (arith, length-remove y xs, d.0, d.1, remove-absent x xs)
