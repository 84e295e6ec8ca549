-- ===== src/Uloop/Processes/Tests.antt =====
-- Processes that end, and the theorem at a concrete list.
use openwrt_libubox.Prelude.{
  ℕ, ◌+◌, ◌%◌, List, [], ◌∷◌, Option, none, some, false, ◌≡◌, refl, arith, map,
}
use openwrt_libubox.Prelude.Int.{ℤ, pos, negsuc}
use openwrt_libubox.Uloop.Processes.{
  Processes, uloop_process_add, uloop_process_delete, reap_from, reap, uloop_handle_processes,
}
use openwrt_libubox.Uloop.Processes.Reaping.{
  noting, with_state, matching, others, IsLinked, pid_of, reap-matching, uloop_process_add-IsLinked,
}

abbrev no_processes : Processes
no_processes = record {
  process = λ i. record { pid = i % 10 + 100; pending = false };
  processes = [];
}

-- Processes 3, 1, 11 and 2, of which 1 and 11 have one number.
abbrev four : Processes
four =
    (uloop_process_add 2
      (uloop_process_add 11 (uloop_process_add 1 (uloop_process_add 3 no_processes).1).1).1).1

four_order : four.processes ≡ 1 ∷ 11 ∷ 2 ∷ 3 ∷ []
unfolding uloop_process_add
four_order = refl

abbrev kept : Processes × List (ℕ × ℤ) → Option (List ℕ × List (ℕ × ℤ))
kept (q, log) = some (q.processes, log)

abbrev run_kept : Option (Processes × List (ℕ × ℤ)) → Option (List ℕ × List (ℕ × ℤ))
run_kept none = none
run_kept (some r) = kept r

two_ended :
    run_kept
      (uloop_handle_processes noting 5 ((101, pos 0) ∷ (55, pos 1) ∷ (103, negsuc 0) ∷ []) four [])
    ≡ some (2 ∷ [], (1, pos 0) ∷ (11, pos 0) ∷ (3, negsuc 0) ∷ [])
unfolding uloop_handle_processes reap reap_from uloop_process_delete uloop_process_add
two_ended = refl

reap-matching_example :
    (q : Processes) × (reap noting 101 (pos 0) 5 four []
      ≡ some (q, map (with_state (pos 0)) (matching (pid_of four) 101 four.processes)))
    × IsLinked q
    × (q.processes ≡ others (pid_of four) 101 four.processes)
reap-matching_example =
    let empty : IsLinked no_processes = record { linked = λ i. refl; once = tt; ordered = tt } in
    let a = uloop_process_add-IsLinked 3 no_processes empty in
    let b = uloop_process_add-IsLinked 1 _ a in
    let c = uloop_process_add-IsLinked 11 _ b in
    reap-matching 101 (pos 0) 5 four (uloop_process_add-IsLinked 2 _ c) (ground (arith, four_order))

uloop_process_add-IsLinked_example : IsLinked (uloop_process_add 3 no_processes).1
uloop_process_add-IsLinked_example =
    uloop_process_add-IsLinked 3 no_processes
      (record { linked = λ i. refl; once = tt; ordered = tt })
