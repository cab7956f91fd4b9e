-- ===== src/Kernel/Process/Table/Lookup.antt =====
-- `process_get_by_pid` after a process was created or has ended.
use os_porting.Base.{
  ℕ, zero, suc, ◌+◌, ◌<◌, ◌≤◌, ◌≡◌, ◌≢◌, ◌∙◌, refl, arith, Bool, true, false, not, ◌&&◌, Option,
  none, some, ◌==◌, ltb, inl, inr, Bool-cases, get_or,
}
use os_porting.Kernel.Process.Table.{
  Table, Pcb, set_pcb, is_invalid, get_by_pid, pid_loop, pid_idle, max_children,
}
use os_porting.Kernel.Process.Table.Exit.{
  adopt, reparent_loop, reparent_to, reparent, child_slot, close_gap, leave_parent, drop_slot,
}

-- Slot `j` is in use, by a process of this PID.
abbrev pub hit : ℕ → Table → ℕ → Bool
hit pid t j = not (is_invalid (t.procs.state j)) && (t.pcb j).pid == pid

pub miss_by_pid : (pid : ℕ) (t : Table) (j : ℕ) → (t.pcb j).pid ≢ pid → hit pid t j ≡ false
miss_by_pid pid t j ne =
    let other : ((t.pcb j).pid == pid) ≡ false = ground arith in
    elim (Bool-cases (is_invalid (t.procs.state j))) [
      | inl unused ↦ rw unused refl
      | inr used ↦ rw (used, other) refl
    ]

pub pid_loop-same :
    (n i pid : ℕ) (t t' : Table)
    → ((j : ℕ) → i ≤ j → j < i + n → hit pid t' j ≡ hit pid t j)
    → pid_loop n i pid t' ≡ pid_loop n i pid t
unfolding pid_loop
pid_loop-same zero i pid t t' same = refl
pid_loop-same (suc n) i pid t t' same =
    rw
      (
        same i (omega arith) (omega arith),
        pid_loop-same n (i + 1) pid t t' (λ j le lt. same j (omega arith) (omega arith)),
      )
      refl

pub pid_loop-none :
    (n i pid : ℕ) (t : Table)
    → ((j : ℕ) → i ≤ j → j < i + n → hit pid t j ≡ false)
    → pid_loop n i pid t ≡ none
unfolding pid_loop
pid_loop-none zero i pid t miss = refl
pid_loop-none (suc n) i pid t miss =
    rw
      (
        miss i (omega arith) (omega arith),
        pid_loop-none n (i + 1) pid t (λ j le lt. miss j (omega arith) (omega arith)),
      )
      refl

pub pid_loop-some :
    (n i pid k : ℕ) (t : Table)
    → i ≤ k
    → k < i + n
    → hit pid t k ≡ true
    → ((j : ℕ) → i ≤ j → j < i + n → j ≢ k → hit pid t j ≡ false)
    → pid_loop n i pid t ≡ some k
unfolding pid_loop
pid_loop-some zero i pid k t le lt found miss = absurd (omega arith)
pid_loop-some (suc n) i pid k t le lt found miss = elim (Bool-cases (i == k)) [
  | inl e ↦ let at : i ≡ k = ground arith in rw (at, found) refl
  | inr e ↦
      rw
        (
          miss i (omega arith) (omega arith) (λ same. ground arith),
          pid_loop-some n (i + 1) pid k t (ground arith) (omega arith) found
              (λ j le lt. miss j (omega arith) (omega arith)),
        )
        refl
]

-- The two tables have the same states, PIDs and stacks.
pub record SameIds (t t' : Table) : Type 0 where
  pub states : (j : ℕ) → t'.procs.state j ≡ t.procs.state j
  pub pids : (j : ℕ) → (t'.pcb j).pid ≡ (t.pcb j).pid
  pub stacks : (j : ℕ) → (t'.pcb j).stack_base ≡ (t.pcb j).stack_base

pub same_refl : (t : Table) → SameIds t t
same_refl t = record { states = λ j. refl; pids = λ j. refl; stacks = λ j. refl }

pub same_trans : {t t' t'' : Table} → SameIds t t' → SameIds t' t'' → SameIds t t''
same_trans a b = record {
  states = λ j. b.states j ∙ a.states j;
  pids = λ j. b.pids j ∙ a.pids j;
  stacks = λ j. b.stacks j ∙ a.stacks j;
}

-- A write to the other fields of a PCB.
pub same_put :
    (k : ℕ) (c : Pcb) (t : Table)
    → c.pid ≡ (t.pcb k).pid
    → c.stack_base ≡ (t.pcb k).stack_base
    → SameIds t (set_pcb k c t)
same_put k c t e s = record {
  states = λ j. refl;
  pids = λ j. ground arith;
  stacks = λ j. ground arith;
}

adopt-SameIds : (child : Option ℕ) (idle : ℕ) (t : Table) → SameIds t (adopt child idle t)
unfolding adopt
adopt-SameIds none idle t = same_refl t
adopt-SameIds (some k) idle t = elim (Bool-cases (ltb (t.pcb idle).child_count max_children)) [
  | inl room ↦ rw room (same_trans (same_put k _ t refl refl) (same_put idle _ _ refl refl))
  | inr full ↦ rw full (same_refl t)
]

reparent_loop-SameIds : (fuel i idle c : ℕ) (t : Table) → SameIds t (reparent_loop fuel i idle c t)
unfolding reparent_loop
reparent_loop-SameIds zero i idle c t = same_refl t
reparent_loop-SameIds (suc fuel) i idle c t =
    let child = get_or (t.pcb c).children i none in
    elim (Bool-cases (ltb i (t.pcb c).child_count)) [
      | inl more ↦ rw more (
          same_trans (adopt-SameIds child idle t) (
            same_trans (same_put c _ (adopt child idle t) refl refl)
              (reparent_loop-SameIds fuel (i + 1) idle c (drop_slot c i (adopt child idle t)))))
      | inr done ↦ rw done (same_refl t)
    ]

reparent_to-SameIds : (idle : Option ℕ) (c : ℕ) (t : Table) → SameIds t (reparent_to idle c t)
reparent_to-SameIds none c t = same_refl t
reparent_to-SameIds (some i) c t = reparent_loop-SameIds max_children 0 i c t

pub reparent-SameIds : (c : ℕ) (t : Table) → SameIds t (reparent c t)
unfolding reparent
reparent-SameIds c t = elim (Bool-cases (ltb 0 (t.pcb c).child_count)) [
  | inl some_left ↦
      rw some_left
        (same_trans (reparent_to-SameIds (get_by_pid pid_idle t) c t) (same_put c _ _ refl refl))
  | inr childless ↦ rw childless (same_refl t)
]

close_gap-SameIds : (i : Option ℕ) (p : ℕ) (t : Table) → SameIds t (close_gap i p t)
close_gap-SameIds none p t = same_refl t
close_gap-SameIds (some i) p t = same_put p _ t refl refl

pub leave_parent-SameIds : (p : Option ℕ) (c : ℕ) (t : Table) → SameIds t (leave_parent p c t)
unfolding leave_parent
leave_parent-SameIds none c t = same_refl t
leave_parent-SameIds (some p) c t =
    close_gap-SameIds (child_slot (t.pcb p).child_count 0 c (t.pcb p).children) p t
