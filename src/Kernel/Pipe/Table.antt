-- ===== src/Kernel/Pipe/Table.antt =====
-- The pipe table and the calls on file descriptors: `pipe_init`, `pipe_create`, `pipe_get`,
-- `pipe_close` and `pipe_close_fd`. A `pipe_t *` is an index of the table.
use os_porting.Base.{
  ℕ, ◌+◌, ◌-◌, ◌*◌, ◌/◌, ◌%◌, ◌^◌, bit_and, Bool, Option, none, some, List, [], ◌∷◌, ◌==◌, ltb, leb,
  if◌then◌else◌, get_elem?, set, replicate,
}
use os_porting.Kernel.Process.{Procs}
use os_porting.Kernel.WaitQueue.{WaitQueue, max_waiters, wake_all}
use os_porting.Kernel.Pipe.{Pipe, Error, invalid, max_pipes, buffer_size, read_open, write_open}

-- `PIPE_MAX_COUNT`
abbrev pub max_count : ℕ
max_count = 128

pub record Table : Type 0 where
  pub pipes : List Pipe
  pub next_id : ℕ
  pub created : ℕ
  pub procs : Procs

abbrev pub no_waiters : WaitQueue
no_waiters = record { slots = replicate max_waiters none; count = 0 }

-- The cleared buffer.
unfoldable pub blank : List ℕ
blank = replicate buffer_size 0

-- What `pipe_init` leaves of one slot.
abbrev pub reset_slot : Pipe → Pipe
reset_slot p = record p {
  flags = 0;
  id = 0;
  count = 0;
  read_pos = 0;
  write_pos = 0;
  readers = 0;
  writers = 0;
  read_waiters = record (p.read_waiters) { count = 0 };
  write_waiters = record (p.write_waiters) { count = 0 };
}

pub reset_slots : List Pipe → List Pipe
reset_slots [] = []
reset_slots (p ∷ ps) = reset_slot p ∷ reset_slots ps

-- `pipe_init`
unfoldable pub init : Table → Table
init t = record t { pipes = reset_slots t.pipes }

-- `pipe_alloc`: the first slot whose flags are 0, counting from `i`.
unfoldable pub alloc_from : ℕ → List Pipe → Option ℕ
alloc_from i [] = none
alloc_from i (p ∷ ps) = if p.flags == 0 then some i else alloc_from (i + 1) ps

-- The pipe that `pipe_create` sets up in a slot.
unfoldable pub fresh : ℕ → Pipe
fresh id = record {
  buffer = blank;
  read_pos = 0;
  write_pos = 0;
  count = 0;
  flags = 3;
  id = id;
  readers = 1;
  writers = 1;
  read_waiters = no_waiters;
  write_waiters = no_waiters;
}

pub record Created : Type 0 where
  pub read_fd : ℕ
  pub write_fd : ℕ
  pub table : Table

pub data CreateResult : Type 0 where
  ok : Created → CreateResult
  err : Error → CreateResult

-- `pipe_create`, with an array for the descriptors that is not NULL.
unfoldable pub create : Table → CreateResult
create t = elim (alloc_from 0 t.pipes) [
  | none ↦ err max_pipes
  | some i ↦ ok (record {
    read_fd = i * 2;
    write_fd = i * 2 + 1;
    table = record t {
      pipes = set t.pipes i (fresh t.next_id);
      next_id = (t.next_id + 1) % 2 ^ 32;
      created = (t.created + 1) % 2 ^ 64;
    };
  })
]

-- `pipe_get`, on a descriptor that is not negative.
unfoldable pub get : Table → ℕ → Option Pipe
get t fd = if leb max_count (fd / 2) then none else elim (get_elem? t.pipes (fd / 2)) [
  | none ↦ none
  | some p ↦ if p.flags == 0 then none else some p
]

-- `pipe_close`, on a pipe that is not NULL.
unfoldable pub close : Pipe → Procs → Pipe × Procs
close p ps =
    let (rq, ps₁) = wake_all p.read_waiters ps in
    let (wq, ps₂) = wake_all p.write_waiters ps₁ in
    (record p { read_waiters = rq; write_waiters = wq; flags = 0; readers = 0; writers = 0 }, ps₂)

-- `flags &= ~flag` on a `uint32_t`.
abbrev pub clear_flag : ℕ → ℕ → ℕ
clear_flag flags flag = bit_and flags (2 ^ 32 - 1 - flag)

-- The two halves of `pipe_close_fd`: one reference to the read or to the write end is dropped.
unfoldable pub drop_reader : Pipe → Procs → Pipe × Procs
drop_reader p ps =
    let left = if ltb 0 p.readers then p.readers - 1 else p.readers in
    if left == 0
    then (let (q, ps') = wake_all p.write_waiters ps in
        (record p { readers = left; flags = clear_flag p.flags read_open; write_waiters = q }, ps'))
    else (record p { readers = left }, ps)

unfoldable pub drop_writer : Pipe → Procs → Pipe × Procs
drop_writer p ps =
    let left = if ltb 0 p.writers then p.writers - 1 else p.writers in
    if left == 0
    then (let (q, ps') = wake_all p.read_waiters ps in
        (record p { writers = left; flags = clear_flag p.flags write_open; read_waiters = q }, ps'))
    else (record p { writers = left }, ps)

-- With both ends closed the slot is given back.
unfoldable pub release : Pipe → Pipe
release p = if bit_and p.flags 3 == 0 then record p { flags = 0; id = 0 } else p

-- What `pipe_close_fd` does to the pipe of its descriptor.
unfoldable pub close_end : Bool → Pipe → Procs → Pipe × Procs
close_end is_read p ps =
    let (p', ps') = if is_read then drop_reader p ps else drop_writer p ps in (release p', ps')

pub data CloseResult : Type 0 where
  ok : Table → CloseResult
  err : Error → CloseResult

-- `pipe_close_fd`
unfoldable pub close_fd : Table → ℕ → CloseResult
close_fd t fd = elim (get t fd) [
  | none ↦ CloseResult.err invalid
  | some p ↦
      let (p', ps') = close_end (fd % 2 == 0) p t.procs in
      CloseResult.ok (record t { pipes = set t.pipes (fd / 2) p'; procs = ps' })
]
