-- ===== src/Kernel/Scheduler.antt =====
-- kernel/sched/scheduler.c: the ready queue and the round-robin scheduler. Each call holds the
-- scheduler's lock, so it is one step. The timer's hardware, the context switch and the messages are
-- left out.
pub mod Fifo
pub mod Remove
pub mod Turns
pub mod Ticks
pub mod Stale
mod Tests
use os_porting.Base.{
  put, ℕ, zero, suc, ◌+◌, ◌-◌, ◌%◌, ◌^◌, Bool, true, false, not, Option, none, some, List, ◌==◌,
  leb, ltb, ◌||◌, ◌&&◌, if◌then◌else◌, get_or, set, replicate,
}
use os_porting.Kernel.Process.{Procs, ProcState, set_state}
use os_porting.Kernel.Process.Table.{
  Table, Pcb, set_pcb, write_state, get_by_pid, same_state, pid_idle, is_process,
}

-- `SCHEDULER_MAX_QUEUE_SIZE` and `SCHEDULER_TIME_SLICE`
abbrev pub max_queue : ℕ
max_queue = 256

abbrev pub slice : ℕ
slice = 10

-- `ready_queue`, `queue_head`, `queue_tail` and `queue_count`
pub record Queue : Type 0 where
  pub slots : List (Option ℕ)
  pub head : ℕ
  pub tail : ℕ
  pub count : ℕ

-- `queue_enqueue`, `queue_dequeue` and `queue_peek`; `none` is NULL.
unfoldable pub enqueue : Option ℕ → Queue → Bool × Queue
enqueue none q = (false, q)
enqueue (some p) q = if leb max_queue q.count then (false, q) else (
  true,
  record q {
    slots = set q.slots q.tail (some p);
    tail = (q.tail + 1) % max_queue;
    count = q.count + 1;
  },
)

unfoldable pub dequeue : Queue → Option ℕ × Queue
dequeue q = if q.count == 0 then (none, q) else (
  get_or q.slots q.head none,
  record q {
    slots = set q.slots q.head none;
    head = (q.head + 1) % max_queue;
    count = q.count - 1;
  },
)

unfoldable pub peek : Queue → Option ℕ
peek q = if q.count == 0 then none else get_or q.slots q.head none

-- The inner loop of `queue_remove`: the rounds left, and `current`; `next` is the slot behind it.
unfoldable pub shift_loop : ℕ → ℕ → List (Option ℕ) → List (Option ℕ)
shift_loop zero at slots = slots
shift_loop (suc n) at slots =
    let next = (at + 1) % max_queue in shift_loop n next (set slots at (get_or slots next none))

-- What `queue_remove` does once the process is found in slot `at`, with `behind` entries behind it.
unfoldable pub take_away : ℕ → ℕ → Queue → Queue
take_away behind at q =
    let tail = (q.tail + max_queue - 1) % max_queue in
    record q {
      slots = set (shift_loop behind at q.slots) tail none;
      tail = tail;
      count = q.count - 1;
    }

-- The outer loop: the entries left, and `idx`.
unfoldable pub remove_loop : ℕ → ℕ → ℕ → Queue → Bool × Queue
remove_loop zero at p q = (false, q)
remove_loop (suc n) at p q =
    let rest = remove_loop n ((at + 1) % max_queue) p q in
    if is_process p (get_or q.slots at none) then (true, take_away n at q) else rest

-- `queue_remove`
unfoldable pub remove : Option ℕ → Queue → Bool × Queue
remove none q = (false, q)
remove (some p) q = if q.count == 0 then (false, q) else remove_loop q.count q.head p q

-- `scheduler_stats_t`
pub record Stats : Type 0 where
  pub total_ticks : ℕ
  pub context_switches : ℕ
  pub idle_ticks : ℕ
  pub processes_scheduled : ℕ

-- The static state, with the process table; `current` is the scheduler's own `current_process`.
pub record Sched : Type 0 where
  pub table : Table
  pub queue : Queue
  pub current : Option ℕ
  pub is_running : Bool
  pub need_reschedule : Bool
  pub stats : Stats

abbrev pub u64 : ℕ → ℕ
u64 n = n % 2 ^ 64

abbrev pub state_of : Sched → ℕ → ProcState
state_of s p = s.table.procs.state p

abbrev pub slice_of : Sched → ℕ → ℕ
slice_of s p = (s.table.pcb p).time_slice

abbrev pub set_slice : ℕ → ℕ → Table → Table
set_slice p n t = set_pcb p (record (t.pcb p) { time_slice = n }) t

-- `scheduler_add`: `none` is a NULL process.
unfoldable pub add : Option ℕ → Sched → Bool × Sched
add none s = (false, s)
add (some p) s =
    if not (same_state (state_of s p) ProcState.ready) || leb max_queue s.queue.count
    then (false, s)
    else let table = if slice_of s p == 0 then set_slice p slice s.table else s.table in
      let (done, q) = enqueue (some p) s.queue in
      (
        done,
        record s {
          table = table;
          queue = q;
          stats =
              if done
              then record (s.stats) { processes_scheduled = u64 (s.stats.processes_scheduled + 1) }
              else s.stats;
        },
      )

-- `scheduler_remove`
unfoldable pub remove_process : Option ℕ → Sched → Bool × Sched
remove_process p s = let (done, q) = remove p s.queue in (done, record s { queue = q })

-- The current process, if it is running, is made ready and queued; a full queue drops it.
abbrev pub put_back_process : ℕ → Sched → Sched
put_back_process p s =
    if same_state (state_of s p) ProcState.running
    then record s {
      table = write_state p ProcState.ready s.table;
      queue = (enqueue (some p) s.queue).1;
    }
    else s

unfoldable pub put_back : Option ℕ → Sched → Sched
put_back none s = s
put_back (some p) s = put_back_process p s

-- The end of `scheduler_schedule`, with the process that runs next.
unfoldable pub switch_to : ℕ → Sched → Sched
switch_to p s =
    let table = set_slice p slice (write_state p ProcState.running s.table) in
    if is_process p s.current then record s { table = table } else record s {
      table = table;
      current = some p;
      stats = record (s.stats) { context_switches = u64 (s.stats.context_switches + 1) };
    }

-- The process at the front, or else the idle process.
abbrev pub choose : Option ℕ → Table → Option ℕ
choose none t = get_by_pid pid_idle t
choose (some p) t = some p

abbrev pub finish : Option ℕ → Sched → Option ℕ × Sched
finish none s = (none, s)
finish (some p) s = (some p, switch_to p s)

-- `scheduler_schedule`; without any process to run it returns `none` and the system halts.
unfoldable pub schedule : Sched → Option ℕ × Sched
schedule s =
    let s' = put_back s.current s in
    let (front, q) = dequeue s'.queue in finish (choose front s'.table) (record s' { queue = q })

-- `scheduler_yield`
abbrev pub clear_slice : Option ℕ → Sched → Sched
clear_slice none s = s
clear_slice (some p) s = record s { table = set_slice p 0 s.table }

unfoldable pub yield : Sched → Sched
yield s = if s.is_running then (schedule (clear_slice s.current s)).1 else s

-- The middle of `scheduler_tick`, for the current process `p`.
unfoldable pub charge : ℕ → Sched → Sched
charge p s =
    let c = s.table.pcb p in
    let left = c.time_slice - 1 in
    let counted = record s {
      table =
          set_pcb p (record c { total_ticks = u64 (c.total_ticks + 1); time_slice = left }) s.table;
      stats =
          if c.pid == pid_idle
          then record (s.stats) { idle_ticks = u64 (s.stats.idle_ticks + 1) }
          else s.stats;
    } in
    if left == 0
    then (if ltb 0 s.queue.count
        then record counted { need_reschedule = true }
        else record counted { table = set_slice p slice counted.table })
    else counted

abbrev pub tick_process : Option ℕ → Sched → Sched
tick_process none s = s
tick_process (some p) s =
    if s.is_running
    then (let t = charge p s in
        if t.need_reschedule then (schedule (record t { need_reschedule = false })).1 else t)
    else s

-- `scheduler_tick`
unfoldable pub tick : Sched → Sched
tick s =
    tick_process s.current
      (record s { stats = record (s.stats) { total_ticks = u64 (s.stats.total_ticks + 1) } })

-- `scheduler_init`, with the handler and the timer left out.
abbrev pub empty_queue : Queue
empty_queue = record { slots = replicate max_queue none; head = 0; tail = 0; count = 0 }

abbrev pub start_idle : Option ℕ → Sched → Sched
start_idle none s = s
start_idle (some idle) s =
    let t = set_slice idle slice s.table in
    record s {
      table = record t { procs = set_state t.procs idle ProcState.running };
      current = some idle;
    }

unfoldable pub init : Sched → Sched
init s =
    let cleared = record s {
      queue = empty_queue;
      stats = record {
        total_ticks = 0;
        context_switches = 0;
        idle_ticks = 0;
        processes_scheduled = 0;
      };
    } in
    record (start_idle (get_by_pid pid_idle s.table) cleared) { is_running = true }

-- `scheduler_get_current` and `scheduler_set_time_slice`; `scheduler_is_running` is a field.
unfoldable pub get_current : Sched → Option ℕ
get_current s = s.current

unfoldable pub set_time_slice : Option ℕ → ℕ → Sched → Sched
set_time_slice none ticks s = s
set_time_slice (some p) ticks s = record s { table = set_slice p ticks s.table }
