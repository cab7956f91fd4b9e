-- ===== src/Kernel/Scheduler/Turns.antt =====
-- `scheduler_schedule`: which process runs next, and that everyone gets a turn.
use mathlib.Core.List.{map, map-append}
use os_porting.Base.{
  ◌⊎◌, ℕ, ◌<◌, ◌≡◌, ◌≢◌, ◌∙◌, refl, sym, ap, arith, Bool, true, false, Option, none, some, List, [],
  ◌∷◌, ◌++◌, ltb, ◌==◌, ◌&&◌, length, if◌then◌else◌, Bool-cases, inl, inr, append-nil, Option-cases,
}
use os_porting.Kernel.Process.{ProcState}
use os_porting.Kernel.Process.Table.{same_state, get_by_pid, pid_idle, is_process}
use os_porting.Kernel.Scheduler.{
  Sched, max_queue, slice, dequeue, state_of, slice_of, put_back, switch_to, schedule,
}
use os_porting.Kernel.Scheduler.Fifo.{
  IsValid, line, length-line, enqueue-line, enqueue-full, dequeue-nil, dequeue-line,
}

-- The queue holds the processes `ps` in this order.
pub record Queued (s : Sched) (ps : List ℕ) : Type 0 where
  pub valid : IsValid s.queue
  pub held : line s.queue ≡ map some ps

-- The process that `scheduler_schedule` puts at the end of the queue: the current one, if it is still
-- running and there is room.
abbrev pub returning_from : Option ℕ → Sched → List ℕ
returning_from none s = []
returning_from (some c) s =
    if same_state (state_of s c) ProcState.running
    then (if ltb s.queue.count max_queue then c ∷ [] else [])
    else []

abbrev pub returning : Sched → List ℕ
returning s = returning_from s.current s

-- The current process is running.
abbrev pub is_on : Option ℕ → Sched → ℕ → Bool
is_on none s p = false
is_on (some c) s p = p == c && same_state (state_of s c) ProcState.running

abbrev pub same_process : Option ℕ → ℕ → Bool
same_process c p = is_process p c

-- The first part of `scheduler_schedule`, for any process in place of the current one.
put_back-Queued :
    (c : Option ℕ) (s : Sched) {ps : List ℕ}
    → Queued s ps
    → Queued (put_back c s) (ps ++ returning_from c s)
unfolding put_back
put_back-Queued none s {ps} v = rw (append-nil ps) v
put_back-Queued (some c) s {ps} v =
    elim (Bool-cases (same_state (state_of s c) ProcState.running)) [
      | inl on ↦ elim (Bool-cases (ltb s.queue.count max_queue)) [
        | inl room ↦
            let (done, held, valid) = enqueue-line c v.valid (ground arith) in
            rw (on, room)
              (record {
                valid = valid;
                held = held ∙ ap (λ r. r ++ some c ∷ []) v.held ∙ sym (map-append some ps (c ∷ []));
              })
        | inr full ↦
            rw (on, full, enqueue-full c {q = s.queue} (ground arith), append-nil ps)
              (record { valid = v.valid; held = v.held })
      ]
      | inr off ↦ rw (off, append-nil ps) v
    ]

put_back-states :
    (c : Option ℕ) (s : Sched) (p : ℕ)
    → state_of (put_back c s) p ≡ (if is_on c s p then ProcState.ready else state_of s p)
unfolding put_back
put_back-states none s p = refl
put_back-states (some c) s p = elim (Bool-cases (same_state (state_of s c) ProcState.running)) [
  | inl on ↦ rw on (ground arith)
  | inr off ↦ rw off (ground arith)
]

put_back-current : (c : Option ℕ) (s : Sched) → (put_back c s).current ≡ s.current
unfolding put_back
put_back-current none s = refl
put_back-current (some c) s = ground arith

-- Nobody was queued and nobody returns, so the table is as it was.
put_back-idle :
    (c : Option ℕ) (s : Sched) → returning_from c s ≡ [] → s.queue.count ≡ 0 → put_back c s ≡ s
unfolding put_back
put_back-idle none s gone empty = refl
put_back-idle (some c) s gone empty =
    elim (Bool-cases (same_state (state_of s c) ProcState.running)) [
      | inl on ↦
          let room : ltb s.queue.count max_queue ≡ true = ground arith in
          absurd (ground (arith, rw (on, room) at gone))
      | inr off ↦ rw off refl
    ]

-- The second part takes the front of the queue.
dequeue-Queued :
    (s : Sched) {p : ℕ} {ps : List ℕ}
    → Queued s (p ∷ ps)
    → ((dequeue s.queue).0 ≡ some p) × Queued (record s { queue = (dequeue s.queue).1 }) ps
dequeue-Queued s {p} {ps} v =
    let some_left : 0 < s.queue.count = omega (arith, length-line s.queue, ap length v.held) in
    let (split, valid) = dequeue-line v.valid some_left in
    let same : (dequeue s.queue).0 ∷ line (dequeue s.queue).1 ≡ some p ∷ map some ps =
      sym split ∙ v.held in
    (cc, record { valid = valid; held = cc })

dequeue-empty :
    (s : Sched) → Queued s [] → (s.queue.count ≡ 0) × (dequeue s.queue ≡ (none, s.queue))
dequeue-empty s v =
    let empty : s.queue.count ≡ 0 = omega (arith, length-line s.queue, ap length v.held) in
    (empty, dequeue-nil empty)

-- `p` got the CPU with a full time slice, `ps` are queued, and of the others only the one that ran
-- before changes its state.
pub record Runs (s : Sched) (p : ℕ) (ps : List ℕ) (t : Sched) : Type 0 where
  pub now : t.current ≡ some p
  pub queued : Queued t ps
  pub running : state_of t p ≡ ProcState.running
  pub full_slice : slice_of t p ≡ slice
  pub others :
      (q : ℕ)
      → q ≢ p
      → state_of t q ≡ (if is_on s.current s q then ProcState.ready else state_of s q)

-- The process at the front of the queue runs next; without any, the idle process, if there is one.
abbrev pub Picks : Sched → List ℕ → Option ℕ × Sched → Type 0
Picks s (p ∷ ps) (r, t) = (r ≡ some p) × Runs s p ps t
Picks s [] (r, t) =
    ((r ≡ none) × (get_by_pid pid_idle s.table ≡ none))
    ⊎ ((i : ℕ) × (get_by_pid pid_idle s.table ≡ some i) × (r ≡ some i) × Runs s i [] t)

is_process-eq : (p : ℕ) (c : Option ℕ) → is_process p c ≡ true → c ≡ some p
is_process-eq p none e = cc
is_process-eq p (some q) e = ground arith

switch_to-Runs :
    (p : ℕ) {ps : List ℕ} (s t : Sched)
    → Queued t ps
    → ((q : ℕ) → state_of t q ≡ (if is_on s.current s q then ProcState.ready else state_of s q))
    → Runs s p ps (switch_to p t)
unfolding switch_to
switch_to-Runs p s t v states = elim (Bool-cases (is_process p t.current)) [
  | inl same ↦ rw same (record {
    now = is_process-eq p t.current same;
    queued = record { valid = v.valid; held = v.held };
    running = ground arith;
    full_slice = ground arith;
    others = λ q ne. let apart : (q == p) ≡ false = ground arith in rw apart (states q);
  })
  | inr other ↦ rw other (record {
    now = refl;
    queued = record { valid = v.valid; held = v.held };
    running = ground arith;
    full_slice = ground arith;
    others = λ q ne. let apart : (q == p) ≡ false = ground arith in rw apart (states q);
  })
]

schedule_from :
    (s : Sched) (waiting : List ℕ)
    → Queued (put_back s.current s) waiting
    → (waiting ≡ [] → put_back s.current s ≡ s)
    → Picks s waiting (schedule s)
unfolding schedule
schedule_from s (p ∷ ps) v same =
    let s' = put_back s.current s in
    let (front, rest) = dequeue-Queued s' v in
    rw front (
      refl,
      switch_to-Runs p s (record s' { queue = (dequeue s'.queue).1 }) rest
          (put_back-states s.current s),
    )
schedule_from s [] v same =
    let s' = put_back s.current s in
    let (empty, nothing) = dequeue-empty s' v in
    elim (Option-cases (get_by_pid pid_idle s'.table)) [
      | inl gone ↦
          rw (nothing, gone)
            (inl (refl, ap (λ t. get_by_pid pid_idle t.table) (sym (same refl)) ∙ gone))
      | inr (i, e) ↦
          rw (nothing, e)
            (inr (
              i,
              ap (λ t. get_by_pid pid_idle t.table) (sym (same refl)) ∙ e,
              refl,
              switch_to-Runs i s s' v (put_back-states s.current s),
            ))
    ]

append-eq-nil : (xs ys : List ℕ) → xs ++ ys ≡ [] → (xs ≡ []) × (ys ≡ [])
append-eq-nil [] ys e = (refl, e)
append-eq-nil (x ∷ xs) ys e = cc

-- `scheduler_schedule` with the processes `ps` in the queue runs the first of these, the current
-- process standing behind them if it is still running and there is room. It gets a full time slice,
-- the rest stay queued in order, the process that ran becomes ready, and no other state changes. If
-- there is none, the idle process runs, or without one the system halts.
pub schedule-Picks :
    (s : Sched) {ps : List ℕ} → Queued s ps → Picks s (ps ++ returning s) (schedule s)
schedule-Picks s {ps} v =
    schedule_from s (ps ++ returning s) (put_back-Queued s.current s v) λ none_waits.
      let (nobody, gone) = append-eq-nil ps (returning s) none_waits in
      put_back-idle s.current s gone (dequeue-empty s (rw nobody at v)).0
