-- ===== src/Kernel/Process/Table/Begins.antt =====
-- What `process_create` makes.
use os_porting.Base.{
  ℕ, zero, suc, ◌+◌, ◌<◌, ◌≤◌, ◌≡◌, ◌≢◌, ◌∙◌, ◌⊎◌, refl, sym, subst, arith, true, false, Option,
  none, some, ◌==◌, ltb, if◌then◌else◌, inl, inr, Bool-cases, Option-cases,
}
use os_porting.Kernel.Process.{ProcState}
use os_porting.Kernel.Process.Table.{
  Table, set_pcb, write_state, is_invalid, get_by_pid, pid_loop, slot_loop, alloc_pcb, clear_slot,
  set_up_in, free_pcb, set_up, add_child, create, max_count, stack_pages, max_children, blank,
}
use os_porting.Kernel.Process.Table.Lookup.{
  miss_by_pid, SameIds, same_put, same_refl, hit, pid_loop-same, pid_loop-some,
}
use os_porting.Kernel.Pmm.{Pmm, alloc_pages}

-- The next PID is a PID that no process has.
pub record IsFresh (t : Table) : Type 0 where
  pub nonzero : t.next_pid ≢ 0
  pub unused : (j : ℕ) → j < max_count → hit t.next_pid t j ≡ false

-- `i` is the first free slot from `from` on, or there is none.
abbrev FirstFree : ℕ → ℕ → Table → Option ℕ → Type 0
FirstFree n from t none = (j : ℕ) → from ≤ j → j < from + n → is_invalid (t.procs.state j) ≡ false
FirstFree n from t (some i) = (from ≤ i) × (i < from + n) × (is_invalid (t.procs.state i) ≡ true)

further :
    (n i : ℕ) (t : Table) (r : Option ℕ)
    → is_invalid (t.procs.state i) ≡ false
    → FirstFree n (i + 1) t r
    → FirstFree (suc n) i t r
further n i t none used full = λ j le lt. elim (Bool-cases (j == i)) [
  | inl e ↦
      let same : i ≡ j = ground arith in subst (λ k. is_invalid (t.procs.state k) ≡ false) same used
  | inr e ↦ full j (ground arith) (omega arith)
]
further n i t (some k) used (le, lt, free) = (omega arith, omega arith, free)

slot_loop-FirstFree : (n i : ℕ) (t : Table) → FirstFree n i t (slot_loop n i t)
unfolding slot_loop
slot_loop-FirstFree zero i t = λ j le lt. absurd (omega arith)
slot_loop-FirstFree (suc n) i t = elim (Bool-cases (is_invalid (t.procs.state i))) [
  | inl free ↦ rw free (omega arith, omega arith, free)
  | inr used ↦
      rw used (further n i t (slot_loop n (i + 1) t) used (slot_loop-FirstFree n (i + 1) t))
]

-- The new process is in slot `i`, and the rest of the table says what it said.
record Begun (i pid : ℕ) (t t' : Table) : Type 0 where
  state_at : t'.procs.state i ≡ ProcState.ready
  pid_at : (t'.pcb i).pid ≡ pid
  states : (j : ℕ) → j ≢ i → t'.procs.state j ≡ t.procs.state j
  pids : (j : ℕ) → j ≢ i → (t'.pcb j).pid ≡ (t.pcb j).pid

Begun-get_by_pid :
    {i : ℕ} {t t' : Table}
    → Begun i t.next_pid t t'
    → IsFresh t
    → i < max_count
    → is_invalid (t.procs.state i) ≡ true
    → (pid : ℕ) → get_by_pid pid t' ≡ (if pid == t.next_pid then some i else get_by_pid pid t)
unfolding get_by_pid
Begun-get_by_pid {i} {t} {t'} v fresh lt free pid =
    let other : (j : ℕ) → j ≢ i → hit pid t' j ≡ hit pid t j =
      λ j ne. rw (v.states j ne, v.pids j ne) refl in
    elim (Bool-cases (pid == t.next_pid)) [
      | inl e ↦
          let own : pid ≡ t.next_pid = ground arith in
          let found : hit pid t' i ≡ true = rw (v.state_at, v.pid_at) (ground arith) in
          let there : pid_loop max_count 0 pid t' ≡ some i =
            pid_loop-some max_count 0 pid i t' (omega arith) (omega arith) found λ j le lt ne.
              other j ne
              ∙ subst (λ n. hit n t j ≡ false) (sym own) (fresh.unused j (omega arith)) in
          let nonzero : (pid == 0) ≡ false = ground (arith, fresh.nonzero) in
          rw (e, nonzero, there) refl
      | inr e ↦
          let kept : pid_loop max_count 0 pid t' ≡ pid_loop max_count 0 pid t =
            pid_loop-same max_count 0 pid t t' λ j le lt. elim (Bool-cases (j == i)) [
              | inl at ↦
                  let same : i ≡ j = ground arith in
                  let new_pid : (t'.pcb i).pid ≢ pid = λ is. ground (arith, v.pid_at) in
                  let unused : hit pid t i ≡ false = rw free refl in
                  subst (λ k. hit pid t' k ≡ hit pid t k) same
                    (miss_by_pid pid t' i new_pid ∙ sym unused)
              | inr at ↦ other j (λ same. ground arith)
            ] in
          rw (e, kept) refl
    ]

add_child-SameIds : (c : Option ℕ) (i : ℕ) (t : Table) → SameIds t (add_child c i t)
unfolding add_child
add_child-SameIds none i t = same_refl t
add_child-SameIds (some c) i t = elim (Bool-cases (ltb (t.pcb c).child_count max_children)) [
  | inl room ↦ rw room (same_put c _ t refl refl)
  | inr full ↦ rw full (same_refl t)
]

add_child-Begun :
    (current : Option ℕ) (i pid : ℕ) (t started : Table)
    → Begun i pid t started
    → Begun i pid t (add_child current i started)
add_child-Begun current i pid t started v =
    let same = add_child-SameIds current i started in
    record {
      state_at = same.states i ∙ v.state_at;
      pid_at = same.pids i ∙ v.pid_at;
      states = λ j ne. same.states j ∙ v.states j ne;
      pids = λ j ne. same.pids j ∙ v.pids j ne;
    }

-- A free slot that stays free.
idle_slot-get_by_pid :
    (i : ℕ) (t t' : Table)
    → is_invalid (t.procs.state i) ≡ true
    → t'.procs.state i ≡ ProcState.invalid
    → ((j : ℕ) → j ≢ i → t'.procs.state j ≡ t.procs.state j)
    → ((j : ℕ) → j ≢ i → (t'.pcb j).pid ≡ (t.pcb j).pid)
    → (pid : ℕ) → get_by_pid pid t' ≡ get_by_pid pid t
unfolding get_by_pid
idle_slot-get_by_pid i t t' free still states pids pid =
    let kept : pid_loop max_count 0 pid t' ≡ pid_loop max_count 0 pid t =
      pid_loop-same max_count 0 pid t t' λ j le lt. elim (Bool-cases (j == i)) [
        | inl at ↦
            let same : i ≡ j = ground arith in
            let before : hit pid t i ≡ false = rw free refl in
            let after : hit pid t' i ≡ false = rw still refl in
            subst (λ k. hit pid t' k ≡ hit pid t k) same (after ∙ sym before)
        | inr at ↦ let ne : j ≢ i = λ same. ground arith in rw (states j ne, pids j ne) refl
      ] in
    rw kept refl

-- The outcome of `process_create`.
abbrev pub Created : Table → Pmm → Option ℕ × Table × Pmm → Type 0
Created t p (some i, t', q) =
    (i < max_count)
    × (is_invalid (t.procs.state i) ≡ true)
    × ((pid : ℕ) → get_by_pid pid t' ≡ (if pid == t.next_pid then some i else get_by_pid pid t))
    × ((t'.pcb i).stack_base ≡ (alloc_pages stack_pages p).0)
    × (q ≡ (alloc_pages stack_pages p).1)
Created t p (none, t', q) =
    ((pid : ℕ) → get_by_pid pid t' ≡ get_by_pid pid t)
    × (((j : ℕ) → j < max_count → is_invalid (t.procs.state j) ≡ false)
        ⊎ ((alloc_pages stack_pages p).0 ≡ 0))

abbrev blanked : ℕ → Table → Table
blanked i t = set_pcb i blank (write_state i ProcState.invalid t)

set_up-Created :
    (i : ℕ) (t : Table) (p : Pmm)
    → IsFresh t
    → i < max_count
    → is_invalid (t.procs.state i) ≡ true
    → Created t p (set_up i (blanked i t) p)
unfolding set_up free_pcb
set_up-Created i t p fresh lt free = elim (Bool-cases ((alloc_pages stack_pages p).0 == 0)) [
  | inl no_stack ↦
      let self : (i == i) ≡ true = ground arith in
      rw no_stack (
        idle_slot-get_by_pid i t _ free (rw self refl)
            (λ j ne. let apart : (j == i) ≡ false = ground arith in rw apart refl)
            (λ j ne. let apart : (j == i) ≡ false = ground arith in rw apart refl),
        inr (ground arith),
      )
  | inr stack ↦
      let self : (i == i) ≡ true = ground arith in
      rw stack (
        lt,
        free,
        Begun-get_by_pid
            (add_child-Begun _ i t.next_pid t _ (record {
              state_at = rw self refl;
              pid_at = rw self refl;
              states = λ j ne. let apart : (j == i) ≡ false = ground arith in rw apart refl;
              pids = λ j ne. let apart : (j == i) ≡ false = ground arith in rw apart refl;
            }))
            fresh lt free,
        (add_child-SameIds t.procs.current i _).stacks i ∙ rw self refl,
        refl,
      )
]

-- `process_create` with a PID that no process has, and arguments that are not NULL. Either it
-- gives a slot that was free: the new PID leads to it, every other PID leads where it led, and
-- the stack's four pages came from the memory manager. Or it gives none: every PID leads where it
-- led, and no slot was free or the memory manager had no pages.
pub create-Created : (t : Table) (p : Pmm) → IsFresh t → Created t p (create false t p)
unfolding create alloc_pcb
create-Created t p fresh = elim (Option-cases (slot_loop max_count 0 t)) [
  | inl full ↦
      let all_used = rw full at (slot_loop-FirstFree max_count 0 t) in
      subst (λ r. Created t p (set_up_in (clear_slot r t) p)) (sym full)
        ((λ pid. refl), inl (λ j lt. all_used j (omega arith) (omega arith)))
  | inr (i, e) ↦
      let (le, lt, free) = rw e at (slot_loop-FirstFree max_count 0 t) in
      subst (λ r. Created t p (set_up_in (clear_slot r t) p)) (sym e)
        (set_up-Created i t p fresh (omega arith) free)
]
