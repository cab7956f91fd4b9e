-- ===== src/Kernel/Scheduler/Ticks.antt =====
-- `scheduler_tick`: the time slice of the running process, and how long the others wait.
use mathlib.Core.List.{map}
use os_porting.Base.{
  ℕ, zero, suc, ◌+◌, ◌-◌, ◌*◌, ◌<◌, ◌≡◌, ◌∙◌, refl, sym, ap, subst, arith, true, false, Option,
  none, some, List, [], ◌∷◌, ◌++◌, ltb, ◌==◌, length, append_assoc, length-append,
}
use os_porting.Kernel.Process.{ProcState}
use os_porting.Kernel.Process.Table.{set_pcb}
use os_porting.Kernel.Scheduler.{
  u64, Sched, max_queue, slice, state_of, slice_of, put_back, switch_to, schedule, finish, choose,
  charge, tick, dequeue,
}
use os_porting.Kernel.Scheduler.Fifo.{length-line}
use os_porting.Kernel.Scheduler.Turns.{Queued, returning, schedule-Picks}

-- Process `c` is running with `left` ticks of its slice left, `ps` are queued, and the scheduler
-- is on.
pub record OnCpu (s : Sched) (c : ℕ) (ps : List ℕ) (left : ℕ) : Type 0 where
  pub queued : Queued s ps
  pub now : s.current ≡ some c
  pub running : state_of s c ≡ ProcState.running
  pub remaining : slice_of s c ≡ left
  pub started : s.is_running ≡ true
  pub calm : s.need_reschedule ≡ false

length-map : (ps : List ℕ) → length (map some ps) ≡ length ps
length-map [] = refl
length-map (p ∷ ps) = ap suc (length-map ps)

length-Queued : (s : Sched) (ps : List ℕ) → Queued s ps → s.queue.count ≡ length ps
length-Queued s ps v = sym (length-line s.queue) ∙ ap length v.held ∙ length-map ps

put_back-flags :
    (c : Option ℕ) (s : Sched)
    → ((put_back c s).is_running ≡ s.is_running)
      × ((put_back c s).need_reschedule ≡ s.need_reschedule)
unfolding put_back
put_back-flags none s = (refl, refl)
put_back-flags (some c) s = ground arith

finish-flags :
    (r : Option ℕ) (s : Sched)
    → ((finish r s).1.is_running ≡ s.is_running)
      × ((finish r s).1.need_reschedule ≡ s.need_reschedule)
unfolding switch_to
finish-flags none s = (refl, refl)
finish-flags (some p) s = ground arith

schedule-flags :
    (s : Sched)
    → ((schedule s).1.is_running ≡ s.is_running)
      × ((schedule s).1.need_reschedule ≡ s.need_reschedule)
unfolding schedule
schedule-flags s =
    let s' = put_back s.current s in
    let rest = record s' { queue = (dequeue s'.queue).1 } in
    let (on, calm) = finish-flags (choose (dequeue s'.queue).0 s'.table) rest in
    let (on', calm') = put_back-flags s.current s in (on ∙ on', calm ∙ calm')

-- A tick before the last of the slice.
tick-stay :
    {s : Sched} {c : ℕ} {ps : List ℕ} (k : ℕ)
    → OnCpu s c ps (suc (suc k))
    → OnCpu (tick s) c ps (suc k)
unfolding tick charge
tick-stay {s} {c} k v =
    let more : (slice_of s c - 1 == 0) ≡ false = ground (arith, v.remaining) in
    rw (v.now, v.started, more, v.calm)
      (record {
        queued = record { valid = v.queued.valid; held = v.queued.held };
        now = refl;
        running = v.running;
        remaining = ground (arith, v.remaining);
        started = refl;
        calm = refl;
      })

-- The state in which the last tick of the slice calls `scheduler_schedule`.
abbrev expired : ℕ → Sched → Sched
expired c s = record s {
  table =
      set_pcb c
        (record (s.table.pcb c) {
          total_ticks = u64 ((s.table.pcb c).total_ticks + 1);
          time_slice = (s.table.pcb c).time_slice - 1;
        })
        s.table;
  need_reschedule = false;
  stats =
      (charge c (record s {
        stats = record (s.stats) { total_ticks = u64 (s.stats.total_ticks + 1) };
      })).stats;
}

tick-expired :
    {s : Sched} {c p : ℕ} {ps : List ℕ} → OnCpu s c (p ∷ ps) 1 → tick s ≡ (schedule (expired c s)).1
unfolding tick charge
tick-expired {s} {c} {p} {ps} v =
    let over : (slice_of s c - 1 == 0) ≡ true = ground (arith, v.remaining) in
    let others : ltb 0 s.queue.count ≡ true = ground (arith, length-Queued s (p ∷ ps) v.queued) in
    rw (v.now, v.started, over, others) refl

expired-Queued : (c : ℕ) {s : Sched} {ps : List ℕ} → Queued s ps → Queued (expired c s) ps
expired-Queued c v = record { valid = v.valid; held = v.held }

-- The process whose slice is over will stand behind the others.
expired-returning :
    {s : Sched} {c p : ℕ} {ps : List ℕ}
    → OnCpu s c (p ∷ ps) 1
    → length (p ∷ ps) < max_queue
    → returning (expired c s) ≡ c ∷ []
expired-returning {s} {c} {p} {ps} v few =
    let room : ltb s.queue.count max_queue ≡ true =
      ground (arith, length-Queued s (p ∷ ps) v.queued) in
    rw (v.now, v.running, room) refl

-- The last tick of the slice, when others wait.
tick-switch :
    {s : Sched} {c p : ℕ} {ps : List ℕ}
    → OnCpu s c (p ∷ ps) 1
    → length (p ∷ ps) < max_queue
    → OnCpu (tick s) p (ps ++ c ∷ []) slice
tick-switch {s} {c} {p} {ps} v few =
    let (_, runs) = schedule-Picks (expired c s) {ps = p ∷ ps} (expired-Queued c v.queued) in
    let (on, calm) = schedule-flags (expired c s) in
    rw (tick-expired v) (record {
      queued =
          subst (λ back. Queued (schedule (expired c s)).1 (ps ++ back)) (expired-returning v few)
            runs.queued;
      now = runs.now;
      running = runs.running;
      remaining = runs.full_slice;
      started = on ∙ v.started;
      calm = calm;
    })

-- `n` timer interrupts.
unfoldable pub ticks : ℕ → Sched → Sched
ticks zero s = s
ticks (suc n) s = ticks n (tick s)

ticks-add : (m n : ℕ) (s : Sched) → ticks (m + n) s ≡ ticks n (ticks m s)
unfolding ticks
ticks-add zero n s = let same : 0 + n ≡ n = omega arith in rw same refl
ticks-add (suc m) n s =
    let same : suc m + n ≡ suc (m + n) = omega arith in rw same (ticks-add m n (tick s))

-- When its slice is over, the running process goes behind all that wait.
ticks-turn :
    (left : ℕ) {s : Sched} {c p : ℕ} {ps : List ℕ}
    → OnCpu s c (p ∷ ps) (suc left)
    → length (p ∷ ps) < max_queue
    → OnCpu (ticks (suc left) s) p (ps ++ c ∷ []) slice
unfolding ticks
ticks-turn zero v few = tick-switch v few
ticks-turn (suc left) v few = ticks-turn left (tick-stay left v) few

-- While the running process has `left + 1` ticks left and fewer than 256 processes wait, the one
-- behind `before` runs with a full time slice after `left + 1` ticks and one slice of 10 for each
-- of `before`, with the queue turned so far.
pub ticks-OnCpu :
    (before after : List ℕ) {p c left : ℕ} {s : Sched}
    → OnCpu s c (before ++ p ∷ after) (suc left)
    → length (before ++ p ∷ after) < max_queue
    → OnCpu (ticks (suc left + slice * length before) s) p (after ++ c ∷ before) slice
ticks-OnCpu [] after {p} {c} {left} {s} v few =
    let one : suc left + slice * 0 ≡ suc left = omega arith in rw one (ticks-turn left v few)
ticks-OnCpu (b ∷ bs) after {p} {c} {left} {s} v few =
    let turned = ticks-turn left v few in
    let again = rw (append_assoc bs (p ∷ after) (c ∷ [])) at turned in
    let sum : suc left + slice * length (b ∷ bs) ≡ suc left + (slice + slice * length bs) =
      omega arith in
    let size : length (bs ++ p ∷ (after ++ c ∷ [])) ≡ length (b ∷ (bs ++ p ∷ after)) = omega (
      arith,
      length-append bs (p ∷ (after ++ c ∷ [])),
      length-append after (c ∷ []),
      length-append bs (p ∷ after),
    ) in
    rw (sum, ticks-add (suc left) (slice + slice * length bs) s)
      (rw (append_assoc after (c ∷ []) (b ∷ bs)) at
        (ticks-OnCpu bs (after ++ c ∷ []) again (omega arith)))
