-- ===== src/Uloop/Signals/Tests.antt =====
-- Signals with a table of handlers by number, and the theorems at concrete watchers.
use openwrt_libubox.Prelude.{
  ℕ, ◌+◌, [], ◌∷◌, none, some, true, false, ◌==◌, ==_iff, if◌then◌else◌, ◌≡◌, ◌≢◌, refl, arith, inl,
}
use openwrt_libubox.Uloop.Signals.{
  Signals, IsSigAction, set_signo, uloop_signal_add, uloop_signal_delete, signal_consume,
}
use openwrt_libubox.Uloop.Signals.Handlers.{
  uloop_signal_delete-uloop_signal_add, uloop_signal_delete-first,
}
use openwrt_libubox.Uloop.Signals.Waking.{noting, signal_consume-woken}

-- Handlers by number.
abbrev handler : (ℕ → ℕ) → ℕ → ℕ
handler s n = s n

abbrev install : (ℕ → ℕ) → ℕ → ℕ → ℕ → ℕ
install s n h m = if m == n then h else s m

table-IsSigAction : IsSigAction handler install
table-IsSigAction = record {
  handler-install = λ s n h. ground (arith, ==_iff n n);
  handler-install_ne = λ s n m h d. ground (arith, d);
}

-- Watchers 1 and 2 of signal 10, watcher 3 of signal 12; handler 7 stands for all signals.
abbrev idle : Signals (ℕ → ℕ)
idle = record {
  signal = λ i. record { signo = if i == 3 then 12 else 10; pending = false; orig = 0 };
  signals = [];
  installed = λ n. 7;
}

abbrev three : Signals (ℕ → ℕ)
three =
    let one = (uloop_signal_add handler install 99 1 idle).1 in
    let two = (uloop_signal_add handler install 99 2 one).1 in
    (uloop_signal_add handler install 99 3 two).1

three_order : three.signals ≡ 1 ∷ 2 ∷ 3 ∷ []
unfolding uloop_signal_add
three_order = refl

-- The shift of `set_signo` for signal 33 is undefined, though the test lets it pass.
undefined_signo : set_signo (λ k. false) 33 ≡ none
unfolding set_signo
undefined_signo = refl

uloop_signal_delete-uloop_signal_add_example :
    (handler ((uloop_signal_add handler install 99 1 idle).1).installed 10 ≡ 99)
    × ((m : ℕ)
        → handler
            (uloop_signal_delete handler install 99 1
              (uloop_signal_add handler install 99 1 idle).1).1.installed
            m
          ≡ 7)
uloop_signal_delete-uloop_signal_add_example =
    uloop_signal_delete-uloop_signal_add handler install 99 table-IsSigAction 1 idle refl

-- Deleting watcher 1 takes the event loop's handler from watcher 2.
uloop_signal_delete-first_example :
    let q : Signals (ℕ → ℕ) =
      (uloop_signal_delete handler install 99 1
        (uloop_signal_add handler install 99 2
          (uloop_signal_add handler install 99 1 idle).1).1).1 in
    ((q.signal 2).pending ≡ true) × (handler q.installed 10 ≡ 7) × (handler q.installed 10 ≢ 99)
uloop_signal_delete-first_example =
    uloop_signal_delete-first handler install 99 table-IsSigAction 1 2 idle refl refl refl refl
      (λ e. omega arith)

-- Bytes for signals 10 and 17.
signal_consume-woken_example :
    let q : Signals ℕ = record {
      signal = λ i. record { signo = i + 9; pending = true; orig = 0 };
      signals = 1 ∷ 3 ∷ 8 ∷ [];
      installed = 0;
    } in
    signal_consume noting (10 ∷ 17 ∷ []) 4 q [] ≡ some (q, 1 ∷ 8 ∷ [])
signal_consume-woken_example =
    let q : Signals ℕ = record {
      signal = λ i. record { signo = i + 9; pending = true; orig = 0 };
      signals = 1 ∷ 3 ∷ 8 ∷ [];
      installed = 0;
    } in
    signal_consume-woken (10 ∷ 17 ∷ []) 4 q
      (inl (omega arith, omega arith), (inl (omega arith, omega arith), tt))
      ((omega arith, omega arith), ((omega arith, omega arith), ((omega arith, omega arith), tt)))
      (refl, (refl, (refl, tt))) (omega arith)
