-- ===== src/Kernel/Process.antt =====
-- kernel/proc/process.c: the states of processes. A process is named by its slot in the table.
pub mod Table
use os_porting.Base.{ℕ, Option, none, some, ◌==◌, if◌then◌else◌}

-- `process_state_t`
pub data ProcState : Type 0 where
  invalid ready running blocked terminated : ProcState

pub record Procs : Type 0 where
  pub state : ℕ → ProcState
  pub current : Option ℕ

abbrev pub update : (ℕ → ProcState) → ℕ → ProcState → ℕ → ProcState
update f p v q = if q == p then v else f q

-- The process that loses the CPU when `p` gets it.
preempt : (ℕ → ProcState) → Option ℕ → ℕ → ℕ → ProcState
preempt state none p = state
preempt state (some c) p =
    if c == p
    then state
    else elim (state c) [ ProcState.running ↦ update state c ProcState.ready | _ ↦ state ]

-- `process_set_state` on a process that is not NULL.
unfoldable pub set_state : Procs → ℕ → ProcState → Procs
unfolding preempt
set_state ps p new =
    let state = update ps.state p new in
    elim new [
      | ProcState.running ↦ record { state = preempt state ps.current p; current = some p }
      | _ ↦ record ps { state = state }
    ]
