-- ===== src/Kernel/Process/Table.antt =====
-- The process table of kernel/proc/process.c. The name, the CPU context, the page table and the
-- top of the stack, which is 16 KB above its base, are left out of a PCB.
pub mod Exit
pub mod Lookup
pub mod Ends
pub mod Begins
mod Tests
use os_porting.Base.{
  put, ℕ, zero, suc, ◌+◌, ◌%◌, ◌^◌, Bool, true, false, Option, none, some, List, ◌==◌, ltb, ◌&&◌,
  not, if◌then◌else◌, set, replicate,
}
use os_porting.Kernel.Process.{Procs, ProcState}
use os_porting.Kernel.Pmm.{Pmm, alloc_pages}

-- `PROCESS_MAX_COUNT`, `PROCESS_MAX_CHILDREN`, `PID_IDLE` and the pages of a kernel stack
abbrev pub max_count : ℕ
max_count = 256

abbrev pub max_children : ℕ
max_children = 32

abbrev pub pid_idle : ℕ
pid_idle = 1

abbrev pub stack_pages : ℕ
stack_pages = 4

-- `process_t`, but for its state.
pub record Pcb : Type 0 where
  pub pid : ℕ
  pub exit_status : ℕ
  pub priority : ℕ
  pub time_slice : ℕ
  pub total_ticks : ℕ
  pub stack_base : ℕ
  pub parent : Option ℕ
  pub children : List (Option ℕ)
  pub child_count : ℕ
  pub flags : ℕ

-- `process_table` with `current_process`, and `next_pid`.
pub record Table : Type 0 where
  pub procs : Procs
  pub pcb : ℕ → Pcb
  pub next_pid : ℕ

abbrev pub set_pcb : ℕ → Pcb → Table → Table
set_pcb p c t = record t { pcb = put t.pcb p c }

-- A write to the state of a PCB.
abbrev pub write_state : ℕ → ProcState → Table → Table
write_state p s t = record t { procs = record (t.procs) { state = put t.procs.state p s } }

abbrev pub is_process : ℕ → Option ℕ → Bool
is_process p none = false
is_process p (some q) = q == p

abbrev pub is_invalid : ProcState → Bool
is_invalid ProcState.invalid = true
is_invalid _ = false

abbrev pub same_state : ProcState → ProcState → Bool
same_state ProcState.invalid ProcState.invalid = true
same_state ProcState.ready ProcState.ready = true
same_state ProcState.running ProcState.running = true
same_state ProcState.blocked ProcState.blocked = true
same_state ProcState.terminated ProcState.terminated = true
same_state _ _ = false

-- The loop of `process_get_by_pid`: the slots left, and `i`.
unfoldable pub pid_loop : ℕ → ℕ → ℕ → Table → Option ℕ
pid_loop zero i pid t = none
pid_loop (suc n) i pid t =
    let rest = pid_loop n (i + 1) pid t in
    if not (is_invalid (t.procs.state i)) && (t.pcb i).pid == pid then some i else rest

-- `process_get_by_pid`
unfoldable pub get_by_pid : ℕ → Table → Option ℕ
get_by_pid pid t = if pid == 0 then none else pid_loop max_count 0 pid t

-- `process_get_count` and `process_count_by_state`
unfoldable pub count_loop : ℕ → ℕ → (ProcState → Bool) → Table → ℕ
count_loop zero i test t = 0
count_loop (suc n) i test t =
    let rest = count_loop n (i + 1) test t in if test (t.procs.state i) then rest + 1 else rest

unfoldable pub get_count : Table → ℕ
get_count t = count_loop max_count 0 (λ s. not (is_invalid s)) t

unfoldable pub count_by_state : ProcState → Table → ℕ
count_by_state s t = count_loop max_count 0 (same_state s) t

abbrev pub blank : Pcb
blank = record {
  pid = 0;
  exit_status = 0;
  priority = 0;
  time_slice = 0;
  total_ticks = 0;
  stack_base = 0;
  parent = none;
  children = replicate max_children none;
  child_count = 0;
  flags = 0;
}

-- The loop of `alloc_pcb`, and the slot set to zero.
unfoldable pub slot_loop : ℕ → ℕ → Table → Option ℕ
slot_loop zero i t = none
slot_loop (suc n) i t =
    let rest = slot_loop n (i + 1) t in if is_invalid (t.procs.state i) then some i else rest

abbrev pub clear_slot : Option ℕ → Table → Option ℕ × Table
clear_slot none t = (none, t)
clear_slot (some i) t = (some i, set_pcb i blank (write_state i ProcState.invalid t))

unfoldable pub alloc_pcb : Table → Option ℕ × Table
alloc_pcb t = clear_slot (slot_loop max_count 0 t) t

-- `free_pcb`
unfoldable pub free_pcb : ℕ → Table → Table
free_pcb i t = set_pcb i (record (t.pcb i) { pid = 0 }) (write_state i ProcState.invalid t)

-- The new process joins its parent's children, if there is room.
unfoldable pub add_child : Option ℕ → ℕ → Table → Table
add_child none i t = t
add_child (some c) i t =
    let parent = t.pcb c in
    if ltb parent.child_count max_children
    then set_pcb c
        (record parent {
          children = set parent.children parent.child_count (some i);
          child_count = parent.child_count + 1;
        })
        t
    else t

-- `process_create` once slot `i` is allocated; the PID is taken before the stack is.
unfoldable pub set_up : ℕ → Table → Pmm → Option ℕ × Table × Pmm
set_up i t p =
    let t' = write_state i ProcState.ready (
      set_pcb i (record (t.pcb i) { pid = t.next_pid; priority = 5 })
        (record t { next_pid = (t.next_pid + 1) % 2 ^ 32 })) in
    let (stack, q) = alloc_pages stack_pages p in
    if stack == 0
    then (none, free_pcb i t', q)
    else let started =
        set_pcb i
          (record (t'.pcb i) {
            stack_base = stack;
            flags = 1;
            parent = t'.procs.current;
            child_count = 0;
          })
          t' in
      (some i, add_child t'.procs.current i started, q)

abbrev pub set_up_in : Option ℕ × Table → Pmm → Option ℕ × Table × Pmm
set_up_in (none, t) p = (none, t, p)
set_up_in (some i, t) p = set_up i t p

-- `process_create`; `null` says that an argument is NULL.
unfoldable pub create : Bool → Table → Pmm → Option ℕ × Table × Pmm
create null t p = if null then (none, t, p) else set_up_in (alloc_pcb t) p
