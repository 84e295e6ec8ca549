-- ===== src/Blob/Build/Growth.antt =====
-- `blob_buffer_grow` grows buffers as `blob_put` relies on.
use openwrt_libubox.Prelude.{
  ℕ, zero, suc, ◌+◌, ◌<◌, ◌≡◌, refl, sym, ap, ◌∙◌, arith, List, [], ◌∷◌, ◌++◌, length,
  length-append, length-replicate, replicate, none, some, Bool, get_elem?, Bool-cases, inl, inr,
}
use openwrt_libubox.Blob.Build.{delta_for, blob_buffer_grow}
use openwrt_libubox.Blob.Build.Put.{IsGrow}

get_elem?-front : (xs ys : List ℕ) (i : ℕ) → i < length xs → get_elem? (xs ++ ys) i ≡ get_elem? xs i
get_elem?-front [] ys i h = absurd (omega arith)
get_elem?-front (x ∷ xs) ys zero h = refl
get_elem?-front (x ∷ xs) ys (suc i) h = get_elem?-front xs ys i (omega arith)

module _ (realloc : ℕ → Bool) where
  -- The memory that it gives.
  grown_memory :
      (n : ℕ) (mem mem' : List ℕ)
      → blob_buffer_grow realloc n mem ≡ some mem'
      → mem ++ replicate (delta_for n) 0 ≡ mem'
  unfolding blob_buffer_grow
  grown_memory n mem mem' e = elim (Bool-cases (realloc (length mem + delta_for n))) [
    | inl r ↦
        let given : some (mem ++ replicate (delta_for n) 0) ≡ some mem' = sym (rw r refl) ∙ e in
        cc (given)
    | inr r ↦ let given : none ≡ some mem' = sym (rw r refl) ∙ e in absurd (cc (given))
  ]

  grown_length :
      (n : ℕ) (mem mem' : List ℕ)
      → blob_buffer_grow realloc n mem ≡ some mem'
      → length mem' ≡ length mem + delta_for n
  grown_length n mem mem' e =
      ap length (sym (grown_memory n mem mem' e))
      ∙ length-append mem (replicate (delta_for n) 0)
      ∙ ap (λ k. length mem + k) (length-replicate (delta_for n) 0)

  -- It adds at least as many bytes as are asked for, whole words, behind the old ones.
  pub blob_buffer_grow-IsGrow : IsGrow (blob_buffer_grow realloc)
  blob_buffer_grow-IsGrow = record {
    enough = λ n mem mem' e. omega (arith, grown_length n mem mem' e);
    whole = λ n mem mem' e w. omega (arith, grown_length n mem mem' e);
    same = λ n mem mem' e i l.
        ap (λ m. get_elem? m i) (sym (grown_memory n mem mem' e))
        ∙ get_elem?-front mem (replicate (delta_for n) 0) i l;
  }
