-- ===== src/Kernel/Scheduler/Stale.antt =====
-- `current_process` of the scheduler and that of kernel/proc/process.c.
use os_porting.Base.{ℕ, ◌≡◌, ◌∙◌, refl, arith, Option, none, some, List, ◌∷◌}
use os_porting.Kernel.Scheduler.{Sched, dequeue, put_back, switch_to, schedule, finish, choose}
use os_porting.Kernel.Scheduler.Turns.{Queued, schedule-Picks}

put_back-keeps :
    (c : Option ℕ) (s : Sched) → (put_back c s).table.procs.current ≡ s.table.procs.current
unfolding put_back
put_back-keeps none s = refl
put_back-keeps (some c) s = ground arith

finish-keeps :
    (r : Option ℕ) (s : Sched) → (finish r s).1.table.procs.current ≡ s.table.procs.current
unfolding switch_to
finish-keeps none s = refl
finish-keeps (some p) s = ground arith

-- `scheduler_schedule` with a process in the queue gives the CPU to the front one, and
-- `process_get_current` still answers what it answered before.
pub schedule-stale :
    (s : Sched) {p : ℕ} {ps : List ℕ}
    → Queued s (p ∷ ps)
    → ((schedule s).1.current ≡ some p)
      × ((schedule s).1.table.procs.current ≡ s.table.procs.current)
unfolding schedule
schedule-stale s {p} {ps} v =
    let (_, runs) = schedule-Picks s {ps = p ∷ ps} v in
    let s' = put_back s.current s in
    (
      runs.now,
      finish-keeps (choose (dequeue s'.queue).0 s'.table)
            (record s' { queue = (dequeue s'.queue).1 })
          ∙ put_back-keeps s.current s,
    )
