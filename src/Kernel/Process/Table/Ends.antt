-- ===== src/Kernel/Process/Table/Ends.antt =====
-- What `process_exit` leaves.
use os_porting.Base.{
  ℕ, ◌<◌, ◌≡◌, ◌≢◌, ◌∙◌, refl, sym, ap, subst, arith, true, false, none, some, ◌==◌, if◌then◌else◌,
  inl, inr, Bool-cases,
}
use os_porting.Kernel.Process.{ProcState}
use os_porting.Kernel.Process.Table.{
  Table, set_pcb, write_state, get_by_pid, pid_loop, free_pcb, max_count, stack_pages,
}
use os_porting.Kernel.Process.Table.Exit.{
  reparent, leave_parent, free_stack, exit_process, exit_current, exit,
}
use os_porting.Kernel.Process.Table.Lookup.{
  hit, SameIds, same_trans, same_put, reparent-SameIds, leave_parent-SameIds, pid_loop-same,
  pid_loop-none, miss_by_pid,
}
use os_porting.Kernel.Pmm.{Pmm, free_pages}

-- No other process has the PID of `c`.
abbrev pub IsAlone : ℕ → Table → Type 0
IsAlone c t = (j : ℕ) → j < max_count → j ≢ c → hit (t.pcb c).pid t j ≡ false

-- The kernel stack of `c` after `process_exit`.
abbrev pub stack_freed : ℕ → Table → Pmm → Pmm
stack_freed c t p =
    if (t.pcb c).stack_base == 0 then p else free_pages (t.pcb c).stack_base stack_pages p

pub record Ended (c : ℕ) (t : Table) (p : Pmm) (t' : Table) (q : Pmm) : Type 0 where
  pub nobody : t'.procs.current ≡ none
  pub slot_free : t'.procs.state c ≡ ProcState.invalid
  pub states : (j : ℕ) → j ≢ c → t'.procs.state j ≡ t.procs.state j
  pub pids : (j : ℕ) → j ≢ c → (t'.pcb j).pid ≡ (t.pcb j).pid
  pub stack : q ≡ stack_freed c t p

free_stack_lem :
    (c : ℕ) (t : Table) (p : Pmm)
    → let (t', q) = free_stack c t p in
      ((j : ℕ) → t'.procs.state j ≡ t.procs.state j)
      × ((j : ℕ) → (t'.pcb j).pid ≡ (t.pcb j).pid)
      × (q ≡ stack_freed c t p)
unfolding free_stack
free_stack_lem c t p = elim (Bool-cases ((t.pcb c).stack_base == 0)) [
  | inl none_there ↦ rw none_there ((λ j. refl), (λ j. refl), refl)
  | inr there ↦ rw there ((λ j. refl), (λ j. ground arith), refl)
]

-- The last steps, on a table that differs from the first in trees, exit status and the state of `c`.
last_steps :
    (c : ℕ) (t t1 : Table) (p : Pmm)
    → SameIds (write_state c ProcState.terminated t) t1
    → let (bare, q) = free_stack c t1 p in
      let gone = free_pcb c bare in
      Ended c t p (record gone { procs = record (gone.procs) { current = none } }) q
unfolding free_pcb
last_steps c t t1 p same =
    let (states, pids, freed) = free_stack_lem c t1 p in
    let self : (c == c) ≡ true = ground arith in
    record {
      nobody = refl;
      slot_free = rw self refl;
      states = λ j ne.
          let apart : (j == c) ≡ false = ground arith in
          rw apart (states j ∙ same.states j ∙ rw apart refl);
      pids = λ j ne. let apart : (j == c) ≡ false = ground arith in rw apart (pids j ∙ same.pids j);
      stack = freed ∙ ap (λ b. if b == 0 then p else free_pages b stack_pages p) (same.stacks c);
    }

exit_process-Ended :
    (status c : ℕ) (t : Table) (p : Pmm)
    → let (t', q) = exit_process status c t p in Ended c t p t' q
unfolding exit_process
exit_process-Ended status c t p =
    let noted = set_pcb c (record (t.pcb c) { exit_status = status }) t in
    let ended = write_state c ProcState.terminated noted in
    let given = reparent c ended in
    let status_only = same_put c (record (t.pcb c) { exit_status = status }) t refl refl in
    let stopped : SameIds (write_state c ProcState.terminated t) ended = record {
      states = λ j. refl;
      pids = status_only.pids;
      stacks = status_only.stacks;
    } in
    last_steps c t (leave_parent (given.pcb c).parent c given) p (
      same_trans stopped
        (same_trans (reparent-SameIds c ended) (leave_parent-SameIds (given.pcb c).parent c given)))

Ended-get_by_pid :
    {c : ℕ} {t t' : Table} {p q : Pmm}
    → Ended c t p t' q
    → IsAlone c t
    → (pid : ℕ) → get_by_pid pid t' ≡ (if pid == (t.pcb c).pid then none else get_by_pid pid t)
unfolding get_by_pid
Ended-get_by_pid {c} {t} {t'} v alone pid =
    let gone : hit pid t' c ≡ false = rw v.slot_free refl in
    let other : (j : ℕ) → j ≢ c → hit pid t' j ≡ hit pid t j =
      λ j ne. rw (v.states j ne, v.pids j ne) refl in
    elim (Bool-cases (pid == (t.pcb c).pid)) [
      | inl e ↦
          let own : pid ≡ (t.pcb c).pid = ground arith in
          let nowhere : pid_loop max_count 0 pid t' ≡ none =
            pid_loop-none max_count 0 pid t' λ j le lt. elim (Bool-cases (j == c)) [
              | inl at ↦
                  let same : j ≡ c = ground arith in
                  subst (λ k. hit pid t' k ≡ false) (sym same) gone
              | inr at ↦
                  let ne : j ≢ c = λ same. ground arith in
                  other j ne ∙ subst (λ n. hit n t j ≡ false) (sym own) (alone j (omega arith) ne)
            ] in
          rw (e, nowhere) (ground arith)
      | inr e ↦
          let kept : pid_loop max_count 0 pid t' ≡ pid_loop max_count 0 pid t =
            pid_loop-same max_count 0 pid t t' λ j le lt. elim (Bool-cases (j == c)) [
              | inl at ↦
                  let same : j ≡ c = ground arith in
                  let miss : hit pid t c ≡ false = miss_by_pid pid t c (ground arith) in
                  subst (λ k. hit pid t' k ≡ hit pid t k) (sym same) (gone ∙ sym miss)
              | inr at ↦ other j (λ same. ground arith)
            ] in
          rw (e, kept) refl
    ]

-- `process_exit` of the current process, when no other has its PID, frees its slot and its kernel
-- stack, leaves no process current and every other process its state and PID, and takes exactly
-- its PID out of those that `process_get_by_pid` finds.
pub exit-Ended :
    (status c : ℕ) (t : Table) (p : Pmm)
    → t.procs.current ≡ some c
    → IsAlone c t
    → let (t', q) = exit status t p in
      Ended c t p t' q
      × ((pid : ℕ) → get_by_pid pid t' ≡ (if pid == (t.pcb c).pid then none else get_by_pid pid t))
unfolding exit
exit-Ended status c t p now alone =
    let v = exit_process-Ended status c t p in
    subst
      (λ r.
        let (t', q) = exit_current r status t p in
        Ended c t p t' q
        × ((pid : ℕ)
            → get_by_pid pid t' ≡ (if pid == (t.pcb c).pid then none else get_by_pid pid t)))
      (sym now) (v, Ended-get_by_pid v alone)
