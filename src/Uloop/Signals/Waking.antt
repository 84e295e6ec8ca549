-- ===== src/Uloop/Signals/Waking.antt =====
-- `signal_consume`: which watchers the bytes from the signal handlers wake.
use mathlib.Core.Path.{subst}
use mathlib.Core.List.{append-nil}
use openwrt_libubox.Prelude.{
  ℕ, zero, suc, ◌-◌, ◌≤◌, ◌<◌, List, [], ◌∷◌, ◌++◌, length, Option, some, Bool, true, false, ◌==◌,
  ◌||◌, ==_iff, if◌then◌else◌, ◌≡◌, ◌⊎◌, refl, sym, ap, ◌∙◌, arith, All, Bool-cases, inl, inr,
}
use openwrt_libubox.SafeList.{mem, first_entry, successor}
use openwrt_libubox.SafeList.Deletion.{IsDistinct, mem-append, mem_front, successor_behind}
use openwrt_libubox.SafeList.ForEach.{append-snoc}
use openwrt_libubox.Uloop.Signals.{
  Signal, Signals, set_signo, get_signo, collect, go_on, call_from, signal_consume,
}

-- A number whose bit `1u << (signo - 1)` is defined.
abbrev pub HasBit : ℕ → Type 0
HasBit n = (1 ≤ n) × (n ≤ 32)

-- A byte that `set_signo` ignores, or whose bit is defined.
abbrev pub IsDefined : ℕ → Type 0
IsDefined n = HasBit n ⊎ ((n ≡ 0) ⊎ (64 < n))

set_signo-bits :
    (signums : ℕ → Bool) (byte : ℕ)
    → IsDefined byte
    → (s : ℕ → Bool) × (set_signo signums byte ≡ some s)
      × ((n : ℕ) → HasBit n → s (n - 1) ≡ (n == byte || signums (n - 1)))
unfolding set_signo
set_signo-bits signums byte (inl (l, h)) =
    ((λ k. if k == (byte - 1) then true else signums k), ground arith, λ n b. ground arith)
set_signo-bits signums byte (inr (inl z)) = (signums, ground arith, λ n b. ground arith)
set_signo-bits signums byte (inr (inr l)) = (signums, ground arith, λ n b. ground arith)

collect-bits :
    (bytes : List ℕ) (signums : ℕ → Bool)
    → All IsDefined bytes
    → (s : ℕ → Bool) × (collect signums bytes ≡ some s)
      × ((n : ℕ) → HasBit n → s (n - 1) ≡ (mem n bytes || signums (n - 1)))
unfolding collect
collect-bits [] signums a = (signums, refl, λ n b. refl)
collect-bits (byte ∷ more) signums a =
    let (s, e, h) = set_signo-bits signums byte a.0 in
    let (s', e', h') = collect-bits more s a.1 in
    (s', rw e e', λ n b. ground (arith, h n b, h' n b))

get_signo-bits :
    (signums : ℕ → Bool) (n : ℕ) → HasBit n → get_signo signums n ≡ some (signums (n - 1))
unfolding get_signo
get_signo-bits signums n b = ground arith

-- The watchers of a list whose number is among the bytes.
abbrev pub woken : (ℕ → Signal) → List ℕ → List ℕ → List ℕ
woken signal bytes [] = []
woken signal bytes (i ∷ rest) =
    let more = woken signal bytes rest in if mem (signal i).signo bytes then i ∷ more else more

module _ {K : Type 0} where
  -- The callback that notes for whom it is called.
  abbrev pub noting : ℕ → Signals K → List ℕ → Signals K × List ℕ
  noting i q log = (q, log ++ (i ∷ []))

  go_on_first :
      (front rest : List ℕ) (q : Signals K)
      → q.signals ≡ front ++ rest
      → go_on noting (first_entry rest) q ≡ some (first_entry rest)
  go_on_first front [] q e = refl
  go_on_first front (y ∷ rest) q e =
      let in_it : mem y q.signals ≡ true =
        ap (mem y) e ∙ mem-append y front (y ∷ rest) ∙ ground (arith, ==_iff y y) in
      rw in_it refl

  one_call :
      (signums : ℕ → Bool) (raised : Bool) (fuel i : ℕ) (next : Option ℕ) (q : Signals K)
      (log : List ℕ)
      → get_signo signums (q.signal i).signo ≡ some raised
      → successor i q.signals ≡ next
      → go_on noting next q ≡ some next
      → call_from noting signums (suc fuel) (some i) q log
        ≡ call_from noting signums fuel next q (if raised then log ++ (i ∷ []) else log)
  unfolding call_from
  one_call signums true fuel i next q log g e o = ground (arith, g, e, o)
  one_call signums false fuel i next q log g e o = ground (arith, g, e, o)

  call_from-woken :
      (bytes : List ℕ) (signums : ℕ → Bool)
      (bits : (n : ℕ) → HasBit n → signums (n - 1) ≡ mem n bytes) (xs : List ℕ) (fuel : ℕ)
      (q : Signals K) (front log : List ℕ)
      → length xs < fuel
      → q.signals ≡ front ++ xs
      → IsDistinct (front ++ xs)
      → All (λ i. HasBit (q.signal i).signo) xs
      → call_from noting signums fuel (first_entry xs) q log
        ≡ some (q, log ++ woken q.signal bytes xs)
  unfolding call_from
  call_from-woken bytes signums bits xs zero q front log l e d h = absurd (omega arith)
  call_from-woken bytes signums bits [] (suc fuel) q front log l e d h = rw (append-nil log) refl
  call_from-woken bytes signums bits (x ∷ xs) (suc fuel) q front log l e d h =
      let next : successor x q.signals ≡ first_entry xs =
        ap (successor x) e ∙ successor_behind x front xs (mem_front x front xs d) in
      let e' : q.signals ≡ (front ++ (x ∷ [])) ++ xs = e ∙ sym (append-snoc front x xs) in
      let d' : IsDistinct ((front ++ (x ∷ [])) ++ xs) =
        subst IsDistinct (sym (append-snoc front x xs)) d in
      let raised : get_signo signums (q.signal x).signo ≡ some (mem (q.signal x).signo bytes) =
        get_signo-bits signums (q.signal x).signo h.0 ∙ ap some (bits (q.signal x).signo h.0) in
      let step =
        one_call signums (mem (q.signal x).signo bytes) fuel x (first_entry xs) q log raised next
          (go_on_first (front ++ (x ∷ [])) xs q e') in
      elim (Bool-cases (mem (q.signal x).signo bytes)) [
        | inl m ↦
            let rest =
              call_from-woken bytes signums bits xs fuel q (front ++ (x ∷ [])) (log ++ (x ∷ []))
                (omega arith) e' d' h.1 in
            step ∙ rw m (rest ∙ ap (λ c. some (q, c)) (append-snoc log x (woken q.signal bytes xs)))
        | inr m ↦
            let rest =
              call_from-woken bytes signums bits xs fuel q (front ++ (x ∷ [])) log (omega arith) e'
                d' h.1 in
            step ∙ rw m rest
      ]

  -- Where all bytes are 0, above 64 or of a defined bit, all watchers wait for a number of a defined
  -- bit, and the callbacks leave the watchers alone, `signal_consume` calls each watcher whose number
  -- is among the bytes once, in the order of the list, and no other; fuel for one more step than
  -- there are watchers is enough.
  pub signal_consume-woken :
      (bytes : List ℕ) (fuel : ℕ) (q : Signals K)
      → All IsDefined bytes
      → All (λ i. HasBit (q.signal i).signo) q.signals
      → IsDistinct q.signals
      → length q.signals < fuel
      → signal_consume noting bytes fuel q [] ≡ some (q, woken q.signal bytes q.signals)
  unfolding signal_consume
  signal_consume-woken bytes fuel q b h d l =
      let (s, e, bits) = collect-bits bytes (λ k. false) b in
      rw e (
        call_from-woken bytes s (λ n hn. bits n hn ∙ ground arith) q.signals fuel q [] [] l refl d
          h)
