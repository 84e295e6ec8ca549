-- ===== src/Uloop/Processes/Reaping.antt =====
-- `uloop_handle_processes`: who is called when a process ends.
use mathlib.Core.Path.{subst}
use mathlib.Core.List.{append-nil}
use openwrt_libubox.Prelude.{
  ℕ, zero, suc, ◌<◌, List, [], ◌∷◌, ◌++◌, map, length, Option, some, Bool, true, false, ◌==◌,
  ==_iff, ltb, if◌then◌else◌, ◌≡◌, refl, sym, ap, ◌∙◌, arith, All, Bool-cases, dec_lt, inl, inr,
}
use openwrt_libubox.Prelude.Int.{ℤ}
use openwrt_libubox.SafeList.{mem, remove, first_entry, successor}
use openwrt_libubox.SafeList.Deletion.{
  IsDistinct, IsDistinct-remove, remove-append, remove-absent, mem_front, successor_behind,
  IsDistinct-back, mem-append,
}
use openwrt_libubox.SafeList.Members.{mem-remove_all}
use openwrt_libubox.SafeList.ForEach.{append-snoc}
use openwrt_libubox.Uloop.Order.{
  InOrder, insert_before, InOrder-remove, InOrder-agree, InOrder-insert_before, mem-insert_before,
  IsDistinct-insert_before, All-mem,
}
use openwrt_libubox.Uloop.Processes.{
  Processes, set_process, pid_gt, deleted, uloop_process_add, uloop_process_delete, go_on,
  reap_from, reap,
}

-- The processes of a list that have a number, and those that do not.
abbrev pub matching : (ℕ → ℕ) → ℕ → List ℕ → List ℕ
matching pids pid [] = []
matching pids pid (i ∷ rest) =
    let more = matching pids pid rest in if pids i == pid then i ∷ more else more

abbrev pub others : (ℕ → ℕ) → ℕ → List ℕ → List ℕ
others pids pid [] = []
others pids pid (i ∷ rest) =
    let more = others pids pid rest in if pids i == pid then more else i ∷ more

-- The list holds the pending processes, once each, in the order of their numbers.
pub record IsLinked (q : Processes) : Type 0 where
  pub linked : (i : ℕ) → mem i q.processes ≡ (q.process i).pending
  pub once : IsDistinct q.processes
  pub ordered : InOrder (pid_gt q) q.processes

abbrev pub pid_of : Processes → ℕ → ℕ
pid_of q i = (q.process i).pid

-- A process keeps its number, so a list keeps its order.
pid_of-set_process :
    (i j : ℕ) (b : Bool) (q : Processes)
    → pid_of (set_process i (record (q.process i) { pending = b }) q) j ≡ pid_of q j
pid_of-set_process i j b q = elim (Bool-cases (j == i)) [
  | inl e ↦ rw ((==_iff j i).0 e) (ground (arith, ==_iff i i))
  | inr e ↦ ground (arith, e)
]

same_order :
    (q q' : Processes) (xs : List ℕ)
    → ((j : ℕ) → pid_of q' j ≡ pid_of q j)
    → InOrder (pid_gt q) xs
    → InOrder (pid_gt q') xs
same_order q q' xs h o = InOrder-agree (pid_gt q) (pid_gt q') xs (λ i j m n. rw (h i, h j) refl) o

deleted-IsLinked : (i : ℕ) (q : Processes) → IsLinked q → IsLinked (deleted i q)
deleted-IsLinked i q w = record {
  linked = λ j. ground (arith, w.linked j, ==_iff j i, mem-remove_all j i q.processes);
  once = IsDistinct-remove i q.processes w.once;
  ordered =
      same_order q (deleted i q) (remove i q.processes) (λ j. pid_of-set_process i j false q)
        (InOrder-remove (pid_gt q) i q.processes w.ordered);
}

pid_of-deleted : (i j : ℕ) (q : Processes) → pid_of (deleted i q) j ≡ pid_of q j
pid_of-deleted i j q = pid_of-set_process i j false q

-- `uloop_process_add` keeps the list of the pending processes in order, once each.
unfoldable added : ℕ → Processes → Processes
added i q = record (set_process i (record (q.process i) { pending = true }) q) {
  processes = insert_before (λ j. pid_gt q j i) i q.processes;
}

added-IsLinked :
    (i : ℕ) (q : Processes) → IsLinked q → (q.process i).pending ≡ false → IsLinked (added i q)
unfolding added
added-IsLinked i q w p =
    let any : ℕ → Type 0 = λ j. Unit {0} in
    let new : List ℕ = insert_before (λ j. pid_gt q j i) i q.processes in
    let ordered : InOrder (pid_gt q) new =
      InOrder-insert_before (pid_gt q) any (λ x y z _ _ _ h k. ground (arith, h, k))
        (λ x y _ _ h. ground (arith, h)) i q.processes tt (All-mem any q.processes (λ j m. tt))
        w.ordered in
    record {
      linked = λ j.
          ground
            (arith, w.linked j, ==_iff j i, mem-insert_before (λ j. pid_gt q j i) i j q.processes);
      once = IsDistinct-insert_before (λ j. pid_gt q j i) i q.processes (w.linked i ∙ p) w.once;
      ordered = same_order q (added i q) new (λ j. pid_of-set_process i j true q) ordered;
    }

-- `uloop_process_add` of any process, pending or not, keeps the list one of the pending processes, once
-- each, in the order of their numbers.
pub uloop_process_add-IsLinked :
    (i : ℕ) (q : Processes) → IsLinked q → IsLinked (uloop_process_add i q).1
unfolding uloop_process_add added
uloop_process_add-IsLinked i q w = elim (Bool-cases (q.process i).pending) [
  | inl e ↦ subst IsLinked (ground (arith, e)) w
  | inr e ↦ subst IsLinked (ground (arith, e)) (added-IsLinked i q w e)
]

-- Numbers above that of the first are met by no process behind it.
no_match :
    (pids : ℕ → ℕ) (pid x : ℕ) (rest : List ℕ)
    → pid < pids x
    → All (λ j. ltb (pids j) (pids x) ≡ false) rest
    → (matching pids pid rest ≡ []) × (others pids pid rest ≡ rest)
no_match pids pid x [] l a = (refl, refl)
no_match pids pid x (y ∷ rest) l a =
    let (m, o) = no_match pids pid x rest l a.1 in (ground (arith, a.0, m), ground (arith, a.0, o))

-- The callback that notes for whom and with what state it is called.
abbrev pub noting : ℕ → ℤ → Processes → List (ℕ × ℤ) → Processes × List (ℕ × ℤ)
noting i ret q log = (q, log ++ ((i, ret) ∷ []))

abbrev pub with_state : ℤ → ℕ → ℕ × ℤ
with_state ret i = (i, ret)

remove_middle :
    (x : ℕ) (front rest : List ℕ)
    → IsDistinct (front ++ (x ∷ rest))
    → remove x (front ++ (x ∷ rest)) ≡ front ++ rest
remove_middle x front rest d =
    let behind : mem x rest ≡ false = (IsDistinct-back front (x ∷ rest) d).0 in
    rw (remove-append x front (x ∷ rest), remove-absent x front (mem_front x front rest d))
      (ground (arith, ==_iff x x, remove-absent x rest))

go_on_first :
    (front rest : List ℕ) (q : Processes)
    → q.processes ≡ front ++ rest
    → go_on (first_entry rest) q ≡ some (first_entry rest)
go_on_first front [] q e = refl
go_on_first front (y ∷ rest) q e =
    let in_it : mem y q.processes ≡ true =
      ap (mem y) e ∙ mem-append y front (y ∷ rest) ∙ ground (arith, ==_iff y y) in
    rw in_it refl

note-snoc :
    (xs : List (ℕ × ℤ)) (x : ℕ × ℤ) (ys : List (ℕ × ℤ)) → (xs ++ (x ∷ [])) ++ ys ≡ xs ++ (x ∷ ys)
note-snoc [] x ys = refl
note-snoc (z ∷ xs) x ys = ap (λ l. z ∷ l) (note-snoc xs x ys)

-- One element of the loop: passed over, the end, or deleted and called.
step_less :
    (pid : ℕ) (ret : ℤ) (fuel i : ℕ) (next : Option ℕ) (q : Processes) (log : List (ℕ × ℤ))
    → pid_of q i < pid
    → successor i q.processes ≡ next
    → reap_from noting pid ret (suc fuel) (some i) q log ≡ reap_from noting pid ret fuel next q log
unfolding reap_from
step_less pid ret fuel i next q log l e = ground (arith, e)

step_greater :
    (pid : ℕ) (ret : ℤ) (fuel i : ℕ) (q : Processes) (log : List (ℕ × ℤ))
    → pid < pid_of q i
    → reap_from noting pid ret (suc fuel) (some i) q log ≡ some (q, log)
unfolding reap_from
step_greater pid ret fuel i q log l = ground arith

step_equal :
    (pid : ℕ) (ret : ℤ) (fuel i : ℕ) (next : Option ℕ) (q : Processes) (log : List (ℕ × ℤ))
    → pid_of q i ≡ pid
    → (q.process i).pending ≡ true
    → successor i q.processes ≡ next
    → go_on next (deleted i q) ≡ some next
    → reap_from noting pid ret (suc fuel) (some i) q log
      ≡ reap_from noting pid ret fuel next (deleted i q) (log ++ ((i, ret) ∷ []))
unfolding reap_from uloop_process_delete
step_equal pid ret fuel i next q log l p e g = ground (arith, e, p, g)

module _ (pids : ℕ → ℕ) (pid : ℕ) (ret : ℤ) where
  abbrev Reaped : List ℕ → List ℕ → List (ℕ × ℤ) → Option (Processes × List (ℕ × ℤ)) → Type 0
  Reaped front xs log r =
      (q' : Processes) × (r ≡ some (q', log ++ map (with_state ret) (matching pids pid xs)))
      × IsLinked q'
      × (q'.processes ≡ front ++ others pids pid xs)

  reap_from-Reaped :
      (xs : List ℕ) (fuel : ℕ) (q : Processes) (front : List ℕ) (log : List (ℕ × ℤ))
      → length xs < fuel
      → IsLinked q
      → q.processes ≡ front ++ xs
      → ((j : ℕ) → pid_of q j ≡ pids j)
      → InOrder (λ i j. ltb (pids j) (pids i)) xs
      → Reaped front xs log (reap_from noting pid ret fuel (first_entry xs) q log)
  unfolding reap_from
  reap_from-Reaped xs zero q front log l w e n o = absurd (omega arith)
  reap_from-Reaped [] (suc fuel) q front log l w e n o = (q, rw (append-nil log) refl, w, e)
  reap_from-Reaped (x ∷ xs) (suc fuel) q front log l w e n o =
      let d : IsDistinct (front ++ (x ∷ xs)) = subst IsDistinct e w.once in
      let next : successor x q.processes ≡ first_entry xs =
        ap (successor x) e ∙ successor_behind x front xs (mem_front x front xs d) in
      elim (dec_lt (pids x) pid) [
        | yes less ↦
            let apart : (pids x == pid) ≡ false = ground arith in
            let e' : q.processes ≡ (front ++ (x ∷ [])) ++ xs = e ∙ sym (append-snoc front x xs) in
            let (q', run, w', left) =
              reap_from-Reaped xs fuel q (front ++ (x ∷ [])) log (omega arith) w e' n o.1 in
            (
              q',
              rw apart
                  (step_less pid ret fuel x (first_entry xs) q log (omega (arith, n x)) next ∙ run),
              w',
              rw apart (left ∙ append-snoc front x (others pids pid xs)),
            )
        | no not_less ↦ elim (dec_lt pid (pids x)) [
          | yes greater ↦
              let apart : (pids x == pid) ≡ false = ground arith in
              let (m, rest) = no_match pids pid x xs greater o.0 in
              (
                q,
                rw (apart, m, append-nil log)
                    (step_greater pid ret fuel x q log (omega (arith, n x))),
                w,
                rw (apart, rest) e,
              )
          | no not_greater ↦
              let same : (pids x == pid) ≡ true = ground arith in
              let left : (deleted x q).processes ≡ front ++ xs =
                ap (remove x) e ∙ remove_middle x front xs d in
              let pending : (q.process x).pending ≡ true =
                sym (w.linked x)
                ∙ ap (mem x) e
                ∙ mem-append x front (x ∷ xs)
                ∙ ground (arith, ==_iff x x) in
              let (q', run, w', rest) =
                reap_from-Reaped xs fuel (deleted x q) front (log ++ ((x, ret) ∷ [])) (omega arith)
                  (deleted-IsLinked x q w) left (λ j. pid_of-deleted x j q ∙ n j) o.1 in
              (
                q',
                rw same (
                    step_equal pid ret fuel x (first_entry xs) q log (omega (arith, n x)) pending
                      next (go_on_first front xs (deleted x q) left)
                    ∙ run
                    ∙ ap (λ notes. some (q', notes))
                        (note-snoc log (x, ret) (map (with_state ret) (matching pids pid xs)))),
                w',
                rw same rest,
              )
        ]
      ]

-- For one process number that `waitpid` reports, on a list of the pending processes in order
-- of their numbers and with fuel for one more step than there are processes, and callbacks that leave
-- the processes alone: each process of that number is taken out of the list and called once with the
-- state, in the order of the list, and all others stay, in their order.
pub reap-matching :
    (pid : ℕ) (ret : ℤ) (fuel : ℕ) (q : Processes)
    → IsLinked q
    → length q.processes < fuel
    → (q' : Processes) × (reap noting pid ret fuel q []
        ≡ some (q', map (with_state ret) (matching (pid_of q) pid q.processes)))
      × IsLinked q'
      × (q'.processes ≡ others (pid_of q) pid q.processes)
unfolding reap
reap-matching pid ret fuel q w l =
    reap_from-Reaped (pid_of q) pid ret q.processes fuel q [] [] l w refl (λ j. refl) w.ordered
