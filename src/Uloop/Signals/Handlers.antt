-- ===== src/Uloop/Signals/Handlers.antt =====
-- The handlers that watchers of signals install and restore.
use openwrt_libubox.Prelude.{
  ℕ, true, false, ◌==◌, ==_iff, ◌≡◌, ◌≢◌, sym, ap, ◌∙◌, arith, Bool-cases, inl, inr,
}
use openwrt_libubox.Uloop.Signals.{
  Signal, Signals, IsSigAction, uloop_signal_add, uloop_signal_delete,
}

module _ {K : Type 0} (handler : K → ℕ → ℕ) (install : K → ℕ → ℕ → K) (wake : ℕ)
    (law : IsSigAction handler install) where
  abbrev add : ℕ → Signals K → Signals K
  add i q = (uloop_signal_add handler install wake i q).1

  abbrev delete : ℕ → Signals K → Signals K
  delete i q = (uloop_signal_delete handler install wake i q).1

  -- The handler of a signal number.
  abbrev handles : Signals K → ℕ → ℕ
  handles q n = handler q.installed n

  -- The watcher after `uloop_signal_add`, and the handlers.
  added_signal :
      (i : ℕ) (q : Signals K)
      → (q.signal i).pending ≡ false
      → (add i q).signal i
        ≡ record (q.signal i) { pending = true; orig = handles q (q.signal i).signo }
  unfolding uloop_signal_add
  added_signal i q p = ground (arith, p, ==_iff i i)

  added_others : (i j : ℕ) (q : Signals K) → (j == i) ≡ false → (add i q).signal j ≡ q.signal j
  unfolding uloop_signal_add
  added_others i j q n = ground (arith, n)

  added_handler :
      (i : ℕ) (q : Signals K)
      → (q.signal i).pending ≡ false
      → handles (add i q) (q.signal i).signo ≡ wake
  unfolding uloop_signal_add
  added_handler i q p =
      let n : ℕ = (q.signal i).signo in
      ground (arith, p, ==_iff (handler q.installed n) wake, law.handler-install q.installed n wake)

  added_others_handler :
      (i m : ℕ) (q : Signals K)
      → (m == (q.signal i).signo) ≡ false
      → handles (add i q) m ≡ handles q m
  unfolding uloop_signal_add
  added_others_handler i m q n =
      ground (arith, n, law.handler-install_ne q.installed (q.signal i).signo m wake)

  deleted_handler :
      (i : ℕ) (q : Signals K)
      → (q.signal i).pending ≡ true
      → ((q.signal i).orig == wake) ≡ false
      → handles (delete i q) (q.signal i).signo ≡ (q.signal i).orig
  unfolding uloop_signal_delete
  deleted_handler i q p o =
      ground (arith, p, o, law.handler-install q.installed (q.signal i).signo (q.signal i).orig)

  deleted_kept :
      (i : ℕ) (q : Signals K)
      → ((q.signal i).orig == wake) ≡ true
      → (delete i q).installed ≡ q.installed
  unfolding uloop_signal_delete
  deleted_kept i q o = ground (arith, o)

  deleted_others_handler :
      (i m : ℕ) (q : Signals K)
      → (m == (q.signal i).signo) ≡ false
      → handles (delete i q) m ≡ handles q m
  unfolding uloop_signal_delete
  deleted_others_handler i m q n =
      ground (arith, n, law.handler-install_ne q.installed (q.signal i).signo m (q.signal i).orig)

  -- The last case of a watcher added and deleted: each signal's handler.
  restored :
      (i m : ℕ) (q : Signals K)
      → (q.signal i).pending ≡ false
      → (add i q).signal i
        ≡ record (q.signal i) { pending = true; orig = handles q (q.signal i).signo }
      → handles (delete i (add i q)) m ≡ handles q m
  restored i m q p s =
      let n : ℕ = (q.signal i).signo in
      let signo : ((add i q).signal i).signo ≡ n = ap (λ (x : Signal). x.signo) s in
      let orig : ((add i q).signal i).orig ≡ handles q n = ap (λ (x : Signal). x.orig) s in
      let on : ((add i q).signal i).pending ≡ true = ap (λ (x : Signal). x.pending) s in
      elim (Bool-cases (m == n)) [
        | inr other ↦
            deleted_others_handler i m (add i q) (ap (λ k. m == k) signo ∙ other)
            ∙ added_others_handler i m q other
        | inl own ↦ elim (Bool-cases (handles q n == wake)) [
          | inl was ↦
              let kept = deleted_kept i (add i q) (ap (λ k. k == wake) orig ∙ was) in
              rw ((==_iff m n).0 own) (
                ap (λ k. handler k n) kept
                ∙ added_handler i q p
                ∙ sym ((==_iff (handles q n) wake).0 was))
          | inr was ↦
              let back = deleted_handler i (add i q) on (ap (λ k. k == wake) orig ∙ was) in
              rw ((==_iff m n).0 own) (ap (handles (delete i (add i q))) (sym signo) ∙ back ∙ orig)
        ]
      ]

  deleted_others : (i j : ℕ) (q : Signals K) → (j == i) ≡ false → (delete i q).signal j ≡ q.signal j
  unfolding uloop_signal_delete
  deleted_others i j q n = ground (arith, n)

  -- A watcher added and then deleted leaves the handler of every signal as it was; in between, that
  -- of its own signal is the event loop's.
  pub uloop_signal_delete-uloop_signal_add :
      (i : ℕ) (q : Signals K)
      → (q.signal i).pending ≡ false
      → (handles (add i q) (q.signal i).signo ≡ wake)
        × ((m : ℕ) → handles (delete i (add i q)) m ≡ handles q m)
  uloop_signal_delete-uloop_signal_add i q p =
      let s : (add i q).signal i
          ≡ record (q.signal i) { pending = true; orig = handles q (q.signal i).signo } =
        added_signal i q p in
      (added_handler i q p, λ m. restored i m q p s)

  -- Two watchers of one signal, added one after the other where another handler was installed: once
  -- the first is deleted, that handler is back, while the second is still pending.
  pub uloop_signal_delete-first :
      (a b : ℕ) (q : Signals K)
      → (b == a) ≡ false
      → (q.signal a).pending ≡ false
      → (q.signal b).pending ≡ false
      → (q.signal b).signo ≡ (q.signal a).signo
      → handles q (q.signal a).signo ≢ wake
      → (((delete a (add b (add a q))).signal b).pending ≡ true)
        × (handles (delete a (add b (add a q))) (q.signal b).signo ≡ handles q (q.signal a).signo)
        × (handles (delete a (add b (add a q))) (q.signal b).signo ≢ wake)
  uloop_signal_delete-first a b q apart pa pb same h =
      let n : ℕ = (q.signal a).signo in
      let ab : (a == b) ≡ false = ground (arith, apart) in
      let sa : (add b (add a q)).signal a
          ≡ record (q.signal a) { pending = true; orig = handles q n } =
        added_others b a (add a q) ab ∙ added_signal a q pa in
      let pending_b : ((add b (add a q)).signal b).pending ≡ true =
        ap (λ (x : Signal). x.pending)
          (added_signal b (add a q)
            (ap (λ (x : Signal). x.pending) (added_others a b q apart) ∙ pb)) in
      let other : (handles q n == wake) ≡ false = elim (Bool-cases (handles q n == wake)) [
        | inl e ↦ absurd (h ((==_iff (handles q n) wake).0 e))
        | inr e ↦ e
      ] in
      let back : handles (delete a (add b (add a q))) ((add b (add a q)).signal a).signo
          ≡ ((add b (add a q)).signal a).orig =
        deleted_handler a (add b (add a q)) (ap (λ (x : Signal). x.pending) sa)
          (ap (λ (x : Signal). x.orig == wake) sa ∙ other) in
      let final : handles (delete a (add b (add a q))) (q.signal b).signo ≡ handles q n =
        ap (handles (delete a (add b (add a q)))) (same ∙ sym (ap (λ (x : Signal). x.signo) sa))
        ∙ back
        ∙ ap (λ (x : Signal). x.orig) sa in
      (
        ap (λ (x : Signal). x.pending) (deleted_others a b (add b (add a q)) apart) ∙ pending_b,
        final,
        λ e. h (sym final ∙ e),
      )
