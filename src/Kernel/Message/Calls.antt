-- ===== src/Kernel/Message/Calls.antt =====
-- The other calls of kernel/ipc/message.c: setting up, looking at a queue, and sending to everyone.
use os_porting.Base.{
  put, ℕ, zero, suc, ◌+◌, ◌-◌, Bool, false, not, Option, none, some, List, ◌==◌, leb, ltb, ◌&&◌,
  ◌||◌, if◌then◌else◌, length, replicate,
}
use os_porting.Kernel.Process.{ProcState}
use os_porting.Kernel.Process.Table.{Table, get_by_pid, same_state, is_invalid}
use os_porting.Kernel.Message.{
  Post, Message, MsgQueue, MsgError, invalid_arg, no_process, queue_empty, max_size, pool_size,
  queue_total, flag_broadcast, empty_message, set_next, current_pid, copied, send_flags,
}

-- The loop of `msg_init` over the pool: the nodes left, the last of them next.
unfoldable pub pool_loop : ℕ → (ℕ → Message) → Option ℕ → (ℕ → Message) × Option ℕ
pool_loop zero pool free = (pool, free)
pool_loop (suc i) pool free = pool_loop i (put pool i (set_next free empty_message)) (some i)

-- The loop of `msg_init` over the queues: those left, and `i`.
unfoldable pub queue_loop : ℕ → ℕ → (ℕ → MsgQueue) → ℕ → MsgQueue
queue_loop zero i queues = queues
queue_loop (suc n) i queues = queue_loop n (i + 1) (
    put queues i (record {
      head = none;
      tail = none;
      count = 0;
      owner_pid = i;
      waiters = record { slots = replicate 8 none; count = 0 };
    }))

-- `msg_init`
unfoldable pub init : Post → Post
init m =
    let (pool, free) = pool_loop pool_size m.pool none in
    record m { pool = pool; free_messages = free; queues = queue_loop queue_total 0 m.queues }

-- `msg_pending`
abbrev pub pending_of : Option ℕ → Post → ℕ
pending_of none m = 0
pending_of (some c) m =
    if leb queue_total (m.table.pcb c).pid then 0 else (m.queues (m.table.pcb c).pid).count

unfoldable pub pending : Post → ℕ
pending m = pending_of m.table.procs.current m

-- What `msg_peek` gives; `fault` is the dereference of a NULL head.
pub data Peeked : Type 0 where
  seen : List ℕ → Peeked
  refused : MsgError → Peeked
  fault : Peeked

abbrev peek_head : Option ℕ → ℕ → Post → Peeked
peek_head none max_len m = fault
peek_head (some i) max_len m = seen (copied max_len (m.pool i))

abbrev pub peek_of : Option ℕ → ℕ → Post → Peeked
peek_of none max_len m = refused no_process
peek_of (some c) max_len m =
    let p = (m.table.pcb c).pid in
    if leb queue_total p
    then refused no_process
    else if (m.queues p).count == 0
    then refused queue_empty
    else peek_head (m.queues p).head max_len m

-- `msg_peek`
unfoldable pub peek : Bool → ℕ → Post → Peeked
peek null max_len m = if null then refused invalid_arg else peek_of m.table.procs.current max_len m

-- A process that `msg_broadcast` sends to.
abbrev pub is_alive : Option ℕ → Table → Bool
is_alive none t = false
is_alive (some c) t =
    not (is_invalid (t.procs.state c)) && not (same_state (t.procs.state c) ProcState.terminated)

abbrev pub count_success : Option MsgError → ℕ → ℕ
count_success none n = n + 1
count_success (some e) n = n

-- The loop of `msg_broadcast`: the PIDs left, `pid`, and the recipients so far.
unfoldable pub broadcast_loop : ℕ → ℕ → ℕ → List ℕ → ℕ → Post → ℕ × Post
broadcast_loop zero pid src payload n m = (n, m)
broadcast_loop (suc k) pid src payload n m =
    let (r, m') = send_flags false pid payload flag_broadcast m in
    let sent = broadcast_loop k (pid + 1) src payload (count_success r n) m' in
    let skipped = broadcast_loop k (pid + 1) src payload n m in
    if pid == src
    then skipped
    else if is_alive (get_by_pid pid m.table) m.table
    then sent
    else skipped

-- `msg_broadcast`: the number of recipients, or `none` for `MSG_ERR_INVALID_ARG`.
unfoldable pub broadcast : Bool → List ℕ → Post → Option ℕ × Post
broadcast null payload m =
    if null || ltb max_size (length payload)
    then (none, m)
    else let (n, m') = broadcast_loop (queue_total - 1) 1 (current_pid m) payload 0 m in
      (some n, m')
