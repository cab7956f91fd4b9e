-- ===== src/Kernel/Scheduler/Tests.antt =====
-- Runs: the idle process and two others.
use os_porting.Base.{
  ◌≡◌, refl, ℕ, false, none, some, [], ◌∷◌, if◌then◌else◌, replicate, arith, ltb, ◌+◌,
}
use os_porting.Kernel.Process.{ProcState, set_state}
use os_porting.Kernel.Process.Table.{Table, Pcb, get_by_pid, pid_loop}
use os_porting.Kernel.Scheduler.{Sched, init, add, schedule, enqueue, empty_queue}
use os_porting.Base.Circular.{window}
use os_porting.Kernel.Scheduler.Stale.{schedule-stale}
use os_porting.Kernel.Scheduler.Turns.{Queued, Picks, schedule-Picks}
use os_porting.Kernel.Scheduler.Ticks.{OnCpu, ticks, ticks-OnCpu}

abbrev pcb : ℕ → Pcb
pcb i = record {
  pid = i + 1;
  exit_status = 0;
  priority = 5;
  time_slice = 0;
  total_ticks = 0;
  stack_base = 0;
  parent = none;
  children = replicate 32 none;
  child_count = 0;
  flags = 1;
}

-- Slots 0 to 2 are used, with PIDs 1 to 3.
abbrev three : Table
three = record {
  procs = record {
    state = λ i. if ltb i 3 then ProcState.ready else ProcState.invalid;
    current = none;
  };
  pcb = pcb;
  next_pid = 4;
}

abbrev off : Sched
off = record {
  table = three;
  queue = empty_queue;
  current = none;
  is_running = false;
  need_reschedule = false;
  stats = record { total_ticks = 0; context_switches = 0; idle_ticks = 0; processes_scheduled = 0 };
}

abbrev started : Sched
started = (add (some 2) (add (some 1) (init off)).1).1

idle_runs : started.current ≡ some 0
unfolding init add enqueue get_by_pid pid_loop set_state
idle_runs = refl

started-Queued : Queued started (1 ∷ 2 ∷ [])
unfolding init add enqueue get_by_pid pid_loop set_state window
started-Queued = record {
  valid = record {
    slots_full = refl;
    head_in = ground arith;
    count_in = ground arith;
    tail_at = refl;
  };
  held = refl;
}

started-OnCpu : OnCpu started 0 (1 ∷ 2 ∷ []) 10
unfolding init add enqueue get_by_pid pid_loop set_state
started-OnCpu = record {
  queued = started-Queued;
  now = refl;
  running = refl;
  remaining = refl;
  started = refl;
  calm = refl;
}

-- After 20 ticks process 2 runs.
ticks-OnCpu_example : OnCpu (ticks 20 started) 2 (0 ∷ 1 ∷ []) 10
ticks-OnCpu_example = ticks-OnCpu (1 ∷ []) [] started-OnCpu (ground arith)

schedule-Picks_example : Picks started (1 ∷ 2 ∷ 0 ∷ []) (schedule started)
unfolding init add enqueue get_by_pid pid_loop set_state
schedule-Picks_example = schedule-Picks started started-Queued

schedule-stale_example :
    ((schedule started).1.current ≡ some 1) × ((schedule started).1.table.procs.current ≡ some 0)
unfolding init add enqueue get_by_pid pid_loop set_state
schedule-stale_example = schedule-stale started started-Queued
