-- ===== src/Kernel/WaitQueue.antt =====
-- The array of at most 8 waiting processes and its count, as pipes (kernel/ipc/pipe.c) and message
-- queues (kernel/ipc/message.c) keep it. A slot past the count holds NULL.
pub mod Fifo
use os_porting.Base.{
  ℕ, zero, suc, ◌+◌, ◌-◌, Option, none, some, List, ltb, if◌then◌else◌, get_or, set,
}
use os_porting.Kernel.Process.{Procs, ProcState, set_state}

abbrev pub max_waiters : ℕ
max_waiters = 8

pub record WaitQueue : Type 0 where
  pub slots : List (Option ℕ)
  pub count : ℕ

unfoldable pub enqueue : WaitQueue → ℕ → WaitQueue
enqueue q p = record { slots = set q.slots q.count (some p); count = q.count + 1 }

-- `slots[i] = slots[i + 1]`, for the given number of rounds.
unfoldable pub shift : ℕ → ℕ → List (Option ℕ) → List (Option ℕ)
shift zero i slots = slots
shift (suc n) i slots = shift n (suc i) (set slots i (get_or slots (suc i) none))

-- The first slot, and the array with the others moved up.
unfoldable pub dequeue : WaitQueue → Option ℕ × WaitQueue
dequeue q =
    let left = q.count - 1 in
    (get_or q.slots 0 none, record { slots = set (shift left 0 q.slots) left none; count = left })

-- The current process, if there is one and a slot is left, is queued and marked blocked.
unfoldable pub block : WaitQueue → Procs → WaitQueue × Procs
block q ps = elim ps.current [
  | none ↦ (q, ps)
  | some p ↦
      if ltb q.count max_waiters then (enqueue q p, set_state ps p ProcState.blocked) else (q, ps)
]

abbrev pub make_ready : Procs → Option ℕ → Procs
make_ready ps none = ps
make_ready ps (some p) = set_state ps p ProcState.ready

-- The process that waits longest is taken out and made ready.
unfoldable pub wake : WaitQueue → Procs → WaitQueue × Procs
wake q ps =
    if ltb 0 q.count then (let (p, rest) = dequeue q in (rest, make_ready ps p)) else (q, ps)

-- The loop of the `wake_all` functions, with fuel.
pub wake_loop : ℕ → WaitQueue → Procs → WaitQueue × Procs
wake_loop zero q ps = (q, ps)
wake_loop (suc fuel) q ps =
    let rest = (let (q', ps') = wake q ps in wake_loop fuel q' ps') in
    if ltb 0 q.count then rest else (q, ps)

-- Each round takes one process out, so the count is fuel enough.
unfoldable pub wake_all : WaitQueue → Procs → WaitQueue × Procs
wake_all q ps = wake_loop q.count q ps
