-- ===== src/Uloop/Processes.antt =====
-- uloop.c: processes that are waited for, in a list in order of their process number. A process is
-- known by a number (its address). What `waitpid` reports is a list of process numbers and states.
mod Reaping
mod Tests
use openwrt_libubox.Prelude.{
  ℕ, zero, suc, List, [], ◌∷◌, Option, none, some, Bool, true, false, not, ltb, ◌==◌, if◌then◌else◌,
  ◌>>=◌,
}
use openwrt_libubox.Prelude.Int.{ℤ, pos, negsuc}
use openwrt_libubox.SafeList.{mem, remove, first_entry, successor}
use openwrt_libubox.Uloop.Order.{insert_before}

-- `struct uloop_process`; the process numbers that are waited for are not negative.
pub record Process : Type 0 where
  pub pid : ℕ
  pub pending : Bool

-- The list `processes`, and the processes that the program holds.
pub record Processes : Type 0 where
  pub process : ℕ → Process
  pub processes : List ℕ

abbrev pub set_process : ℕ → Process → Processes → Processes
set_process i p q = record q { process = λ j. if j == i then p else q.process j }

-- Whether the process number of one is greater.
abbrev pub pid_gt : Processes → ℕ → ℕ → Bool
pid_gt q i j = ltb (q.process j).pid (q.process i).pid

unfoldable pub uloop_process_add : ℕ → Processes → ℤ × Processes
uloop_process_add i q = if (q.process i).pending then (negsuc 0, q) else (
  pos 0,
  record (set_process i (record (q.process i) { pending = true }) q) {
    processes = insert_before (λ j. pid_gt q j i) i q.processes;
  },
)

abbrev pub deleted : ℕ → Processes → Processes
deleted i q = record (set_process i (record (q.process i) { pending = false }) q) {
  processes = remove i q.processes;
}

unfoldable pub uloop_process_delete : ℕ → Processes → ℤ × Processes
uloop_process_delete i q = if (q.process i).pending then (pos 0, deleted i q) else (negsuc 0, q)

-- The element that the loop goes on with: none for one that has left the list, whose links the loop
-- follows.
abbrev pub go_on : Option ℕ → Processes → Option (Option ℕ)
go_on none q = some none
go_on (some j) q = if mem j q.processes then some (some j) else none

module _ {ℓ} {C : Type ℓ} (cb : ℕ → ℤ → Processes → C → Processes × C) where
  -- `list_for_each_entry_safe` with its body, at `cur` (none is the head of the list); the next
  -- element is read before the body runs. `cb` is the callback of a process that ended, with its
  -- state, on what the program holds. The outer none is a fault or the end of the fuel.
  unfoldable pub reap_from : ℕ → ℤ → ℕ → Option ℕ → Processes → C → Option (Processes × C)
  unfolding uloop_process_delete
  reap_from pid ret zero cur q ctx = none
  reap_from pid ret (suc fuel) none q ctx = some (q, ctx)
  reap_from pid ret (suc fuel) (some i) q ctx =
      let next = successor i q.processes in
      let skipped = reap_from pid ret fuel next q ctx in
      let called = cb i ret (uloop_process_delete i q).1 ctx in
      let went_on = go_on next called.0 >>= λ cur. reap_from pid ret fuel cur called.0 called.1 in
      if ltb (q.process i).pid pid
      then skipped
      else if ltb pid (q.process i).pid
      then some (q, ctx)
      else went_on

  -- One process number that `waitpid` gives.
  unfoldable pub reap : ℕ → ℤ → ℕ → Processes → C → Option (Processes × C)
  unfolding reap_from
  reap pid ret fuel q ctx = reap_from pid ret fuel (first_entry q.processes) q ctx

  -- `uloop_handle_processes`: all that `waitpid` gives until it has none; interrupted calls are
  -- repeated and do not show.
  unfoldable pub uloop_handle_processes : ℕ → List (ℕ × ℤ) → Processes → C → Option (Processes × C)
  unfolding reap
  uloop_handle_processes fuel [] q ctx = some (q, ctx)
  uloop_handle_processes fuel ((pid, ret) ∷ more) q ctx =
      reap pid ret fuel q ctx >>= λ r. uloop_handle_processes fuel more r.0 r.1

unfoldable pub clear_from : List ℕ → Processes → Processes
unfolding uloop_process_delete
clear_from [] q = q
clear_from (i ∷ rest) q = clear_from rest (uloop_process_delete i q).1

-- `uloop_clear_processes`
unfoldable pub uloop_clear_processes : Processes → Processes
unfolding clear_from
uloop_clear_processes q = clear_from q.processes q
