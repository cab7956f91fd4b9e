-- ===== src/Kernel/Process/Table/Exit.antt =====
-- `process_exit` and `process_init`.
use os_porting.Base.{
  ℕ, zero, suc, ◌+◌, ◌-◌, bit_or, false, Option, none, some, List, ◌==◌, ltb, if◌then◌else◌, get_or,
  set,
}
use os_porting.Kernel.Process.{ProcState, set_state}
use os_porting.Kernel.Process.Table.{
  Table, set_pcb, write_state, is_process, get_by_pid, pid_idle, max_count, max_children,
  stack_pages, free_pcb, create,
}
use os_porting.Kernel.WaitQueue.{shift}
use os_porting.Kernel.Pmm.{Pmm, free_pages}

-- One child goes to the idle process, if that has room.
unfoldable pub adopt : Option ℕ → ℕ → Table → Table
adopt none idle t = t
adopt (some k) idle t =
    let given = set_pcb k (record (t.pcb k) { parent = some idle }) t in
    if ltb (t.pcb idle).child_count max_children
    then set_pcb idle
        (record (given.pcb idle) {
          children = set (given.pcb idle).children (given.pcb idle).child_count (some k);
          child_count = (given.pcb idle).child_count + 1;
        })
        given
    else t

abbrev pub drop_slot : ℕ → ℕ → Table → Table
drop_slot c i t = set_pcb c (record (t.pcb c) { children = set (t.pcb c).children i none }) t

-- The loop over the children of the process `c`, with fuel. A process has at most 32.
unfoldable pub reparent_loop : ℕ → ℕ → ℕ → ℕ → Table → Table
reparent_loop zero i idle c t = t
reparent_loop (suc fuel) i idle c t =
    let rest =
      reparent_loop fuel (i + 1) idle c
        (drop_slot c i (adopt (get_or (t.pcb c).children i none) idle t)) in
    if ltb i (t.pcb c).child_count then rest else t

abbrev pub reparent_to : Option ℕ → ℕ → Table → Table
reparent_to none c t = t
reparent_to (some idle) c t = reparent_loop max_children 0 idle c t

unfoldable pub reparent : ℕ → Table → Table
reparent c t =
    let t' = reparent_to (get_by_pid pid_idle t) c t in
    if ltb 0 (t.pcb c).child_count then set_pcb c (record (t'.pcb c) { child_count = 0 }) t' else t

-- The loop that looks for `c` among a parent's children: the slots left, and `i`.
unfoldable pub child_slot : ℕ → ℕ → ℕ → List (Option ℕ) → Option ℕ
child_slot zero i c children = none
child_slot (suc n) i c children =
    let rest = child_slot n (i + 1) c children in
    if is_process c (get_or children i none) then some i else rest

abbrev pub close_gap : Option ℕ → ℕ → Table → Table
close_gap none p t = t
close_gap (some i) p t =
    let last = (t.pcb p).child_count - 1 in
    set_pcb p
      (record (t.pcb p) {
        children = set (shift (last - i) i (t.pcb p).children) last none;
        child_count = last;
      })
      t

unfoldable pub leave_parent : Option ℕ → ℕ → Table → Table
leave_parent none c t = t
leave_parent (some p) c t = close_gap (child_slot (t.pcb p).child_count 0 c (t.pcb p).children) p t

unfoldable pub free_stack : ℕ → Table → Pmm → Table × Pmm
free_stack c t p = if (t.pcb c).stack_base == 0 then (t, p) else (
  set_pcb c (record (t.pcb c) { stack_base = 0 }) t,
  free_pages (t.pcb c).stack_base stack_pages p,
)

-- `process_exit` of the current process `c`, up to where it halts
unfoldable pub exit_process : ℕ → ℕ → Table → Pmm → Table × Pmm
exit_process status c t p =
    let ended =
      write_state c ProcState.terminated
        (set_pcb c (record (t.pcb c) { exit_status = status }) t) in
    let given = reparent c ended in
    let alone = leave_parent (given.pcb c).parent c given in
    let (bare, q) = free_stack c alone p in
    let gone = free_pcb c bare in
    (record gone { procs = record (gone.procs) { current = none } }, q)

-- `process_exit`; without a current process it only halts.
abbrev pub exit_current : Option ℕ → ℕ → Table → Pmm → Table × Pmm
exit_current none status t p = (t, p)
exit_current (some c) status t p = exit_process status c t p

unfoldable pub exit : ℕ → Table → Pmm → Table × Pmm
exit status t p = exit_current t.procs.current status t p

-- The loop of `process_init`, and the rest with the idle process.
unfoldable pub clear_loop : ℕ → ℕ → Table → Table
clear_loop zero i t = t
clear_loop (suc n) i t = clear_loop n (i + 1) (free_pcb i t)

abbrev start_idle : Option ℕ → Table → Table
start_idle none t = t
start_idle (some i) t =
    let t' = set_pcb i (record (t.pcb i) { priority = 0; flags = bit_or (t.pcb i).flags 1 }) t in
    record t' { procs = set_state (record (t'.procs) { current = some i }) i ProcState.running }

-- `process_init`
unfoldable pub init : Table → Pmm → Table × Pmm
init t p = let (idle, t', q) = create false (clear_loop max_count 0 t) p in (start_idle idle t', q)
