-- ===== src/Uloop/Signals.antt =====
-- uloop.c: signals, in a list in order of their number, and the handlers that are installed for them.
-- A signal watcher is known by a number (its address). A `uint64_t` that is used as a set of signal
-- numbers is its bits.
mod Handlers
mod Waking
mod Tests
use openwrt_libubox.Prelude.{
  ℕ, zero, suc, ◌-◌, List, [], ◌∷◌, Option, none, some, Bool, true, false, not, ltb, leb, ◌==◌,
  ◌&&◌, if◌then◌else◌, ◌>>=◌, ◌≡◌,
}
use openwrt_libubox.Prelude.Int.{ℤ, pos, negsuc}
use openwrt_libubox.SafeList.{mem, remove, first_entry, successor}
use openwrt_libubox.Uloop.Order.{insert_before}

-- `1u << (signo - 1)`: a shift of 32 or more is undefined. The bit's place is `signo - 1`.
abbrev pub bit_of : ℕ → Option ℕ
bit_of signo = if leb (signo - 1) 31 then some (signo - 1) else none

-- `set_signo(&signums, signo)`
unfoldable pub set_signo : (ℕ → Bool) → ℕ → Option (ℕ → Bool)
set_signo signums signo =
    if leb 1 signo && leb signo 64
    then (bit_of signo >>= λ b. some (λ k. if k == b then true else signums k))
    else some signums

-- `get_signo(signums, signo)`
unfoldable pub get_signo : (ℕ → Bool) → ℕ → Option Bool
get_signo signums signo =
    if leb 1 signo && leb signo 64 then (bit_of signo >>= λ b. some (signums b)) else some false

-- The bytes that `signal_consume` reads, in the order of the reads.
unfoldable pub collect : (ℕ → Bool) → List ℕ → Option (ℕ → Bool)
unfolding set_signo
collect signums [] = some signums
collect signums (byte ∷ more) = set_signo signums byte >>= λ signums'. collect signums' more

-- `struct uloop_signal`
pub record Signal : Type 0 where
  pub signo : ℕ
  pub pending : Bool
  pub orig : ℕ

-- The list `signals`, the watchers that the program holds, and the state that `sigaction` works on.
pub record Signals (K : Type 0) : Type 0 where
  pub signal : ℕ → Signal
  pub signals : List ℕ
  pub installed : K

-- What the code relies on of `sigaction`: it reads and writes the handler of one signal number.
pub record IsSigAction {K : Type 0} (handler : K → ℕ → ℕ) (install : K → ℕ → ℕ → K) : Type 0 where
  pub handler-install : (s : K) (n h : ℕ) → handler (install s n h) n ≡ h
  pub handler-install_ne :
      (s : K) (n m h : ℕ) → (m == n) ≡ false → handler (install s n h) m ≡ handler s m

module _ {K : Type 0} where
  abbrev pub set_signal : ℕ → Signal → Signals K → Signals K
  set_signal i s q = record q { signal = λ j. if j == i then s else q.signal j }

  -- Whether the signal number of one is greater.
  abbrev pub signo_gt : Signals K → ℕ → ℕ → Bool
  signo_gt q i j = ltb (q.signal j).signo (q.signal i).signo

module _ {K : Type 0} (handler : K → ℕ → ℕ) (install : K → ℕ → ℕ → K) (wake : ℕ) where
  -- `uloop_signal_add(s)`; `wake` is the address of `uloop_signal_wake`.
  unfoldable pub uloop_signal_add : ℕ → Signals K → ℤ × Signals K
  uloop_signal_add i q =
      let s = q.signal i in
      let old = handler q.installed s.signo in
      let listed = record (set_signal i (record s { pending = true; orig = old }) q) {
        signals = insert_before (λ j. signo_gt q j i) i q.signals;
      } in
      if s.pending
      then (negsuc 0, q)
      else if old == wake
      then (pos 0, listed)
      else (pos 0, record listed { installed = install q.installed s.signo wake })

  -- `uloop_signal_delete(s)`
  unfoldable pub uloop_signal_delete : ℕ → Signals K → ℤ × Signals K
  uloop_signal_delete i q =
      let s = q.signal i in
      let unlisted = record (set_signal i (record s { pending = false }) q) {
        signals = remove i q.signals;
      } in
      if not s.pending
      then (negsuc 0, q)
      else if s.orig == wake
      then (pos 0, unlisted)
      else (pos 0, record unlisted { installed = install q.installed s.signo s.orig })

-- The walk of `signal_consume` over the list, with the callbacks on what the program holds. The next
-- watcher is read before the call; none is a watcher that left the list meanwhile, the end of the
-- fuel, or an undefined shift.
module _ {ℓ} {K : Type 0} {C : Type ℓ} (cb : ℕ → Signals K → C → Signals K × C) where
  abbrev pub go_on : Option ℕ → Signals K → Option (Option ℕ)
  go_on none q = some none
  go_on (some j) q = if mem j q.signals then some (some j) else none

  unfoldable pub call_from : (ℕ → Bool) → ℕ → Option ℕ → Signals K → C → Option (Signals K × C)
  unfolding get_signo
  call_from signums zero cur q ctx = none
  call_from signums (suc fuel) none q ctx = some (q, ctx)
  call_from signums (suc fuel) (some i) q ctx =
      let next = successor i q.signals in
      get_signo signums (q.signal i).signo >>= λ raised.
      let r = if raised then cb i q ctx else (q, ctx) in
      go_on next r.0 >>= λ cur. call_from signums fuel cur r.0 r.1

  -- `signal_consume`, with the bytes that it reads.
  unfoldable pub signal_consume : List ℕ → ℕ → Signals K → C → Option (Signals K × C)
  unfolding collect call_from
  signal_consume bytes fuel q ctx =
      collect (λ k. false) bytes >>= λ signums. call_from signums fuel (first_entry q.signals) q ctx
