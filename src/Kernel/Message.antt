-- ===== src/Kernel/Message.antt =====
-- kernel/ipc/message.c: message queues over a pool of linked nodes. Each critical section is one
-- step; printing and the counters' dump are left out. A node is named by its index in
-- `message_pool`.
pub mod Calls
pub mod Chain
pub mod Mail
pub mod Holds
pub mod Steps
pub mod Contract
pub mod Receive
pub mod Start
pub mod Look
pub mod Living
pub mod Quiet
pub mod Spread
pub mod Everyone
mod Tests
use os_porting.Base.{
  put, ℕ, zero, suc, ◌+◌, ◌-◌, ◌%◌, ◌^◌, min, Bool, true, false, not, Option, none, some, List, [],
  ◌∷◌, ◌++◌, ◌==◌, leb, ltb, ◌&&◌, ◌||◌, if◌then◌else◌, length, take, drop, replicate,
}
use os_porting.Kernel.Process.{Procs, ProcState}
use os_porting.Kernel.Process.Table.{Table, Pcb, get_by_pid, same_state, is_invalid}
use os_porting.Kernel.WaitQueue.{WaitQueue, block, wake}

-- `MSG_MAX_SIZE`, `MSG_QUEUE_SIZE`, `MSG_POOL_SIZE`, `PROCESS_MAX_COUNT` and `MSG_FLAG_BROADCAST`
abbrev pub max_size : ℕ
max_size = 256

abbrev pub queue_size : ℕ
queue_size = 32

abbrev pub pool_size : ℕ
pool_size = 512

abbrev pub queue_total : ℕ
queue_total = 256

abbrev pub flag_broadcast : ℕ
flag_broadcast = 4

abbrev pub u32 : ℕ → ℕ
u32 n = n % 2 ^ 32

abbrev pub u64 : ℕ → ℕ
u64 n = n % 2 ^ 64

-- `message_t`
pub record Message : Type 0 where
  pub src_pid : ℕ
  pub dest_pid : ℕ
  pub flags : ℕ
  pub msg_id : ℕ
  pub length : ℕ
  pub timestamp : ℕ
  pub payload : List ℕ
  pub next : Option ℕ

-- `msg_queue_t`
pub record MsgQueue : Type 0 where
  pub head : Option ℕ
  pub tail : Option ℕ
  pub count : ℕ
  pub owner_pid : ℕ
  pub waiters : WaitQueue

-- The static state, with the process table.
pub record Post : Type 0 where
  pub pool : ℕ → Message
  pub free_messages : Option ℕ
  pub queues : ℕ → MsgQueue
  pub next_msg_id : ℕ
  pub tick_counter : ℕ
  pub total_sent : ℕ
  pub total_received : ℕ
  pub total_bytes : ℕ
  pub table : Table

-- The error codes, without their numbers.
pub data MsgError : Type 0 where
  no_memory invalid_pid queue_full queue_empty too_large invalid_arg no_process would_block :
      MsgError

abbrev pub set_next : Option ℕ → Message → Message
set_next n x = record x { next = n }

abbrev pub put_queue : ℕ → MsgQueue → Post → Post
put_queue p q m = record m { queues = put m.queues p q }

-- A message after `kmemset(msg, 0, sizeof(message_t))`.
abbrev pub empty_message : Message
empty_message = record {
  src_pid = 0;
  dest_pid = 0;
  flags = 0;
  msg_id = 0;
  length = 0;
  timestamp = 0;
  payload = replicate max_size 0;
  next = none;
}

-- `msg_alloc`
abbrev alloc_first : Option ℕ → Post → Option ℕ × Post
alloc_first none m = (none, m)
alloc_first (some i) m = (
  some i,
  record m { free_messages = (m.pool i).next; pool = put m.pool i (set_next none (m.pool i)) },
)

unfoldable pub alloc_message : Post → Option ℕ × Post
alloc_message m = alloc_first m.free_messages m

-- `msg_free` of a message that is not NULL
unfoldable pub free_message : ℕ → Post → Post
free_message i m = record m {
  pool = put m.pool i (set_next m.free_messages empty_message);
  free_messages = some i;
}

-- `msg_block_receiver` and `msg_wake_receiver` on the queue of a PID
unfoldable pub block_receiver : ℕ → Post → Post
block_receiver p m =
    let (w, ps) = block (m.queues p).waiters m.table.procs in
    record (put_queue p (record (m.queues p) { waiters = w }) m) {
      table = record (m.table) { procs = ps };
    }

unfoldable pub wake_receiver : ℕ → Post → Post
wake_receiver p m =
    let (w, ps) = wake (m.queues p).waiters m.table.procs in
    record (put_queue p (record (m.queues p) { waiters = w }) m) {
      table = record (m.table) { procs = ps };
    }

-- The PID of the process that `process_get_current` answers; 0 for none.
abbrev pid_of : Option ℕ → Table → ℕ
pid_of none t = 0
pid_of (some c) t = (t.pcb c).pid

abbrev pub current_pid : Post → ℕ
current_pid m = pid_of m.table.procs.current m.table

-- The message that `msg_send_flags` writes into a node.
abbrev pub filled : ℕ → List ℕ → ℕ → Post → Message → Message
filled dest payload flags m x = record {
  src_pid = current_pid m;
  dest_pid = dest;
  flags = flags;
  msg_id = m.next_msg_id;
  length = length payload;
  timestamp = m.tick_counter;
  payload = payload ++ drop (length payload) x.payload;
  next = none;
}

-- A node joins the end of a queue.
abbrev pub link_after : Option ℕ → ℕ → (ℕ → Message) → ℕ → Message
link_after none i pool = pool
link_after (some t) i pool = put pool t (set_next (some i) (pool t))

abbrev pub head_after : Option ℕ → Option ℕ → ℕ → Option ℕ
head_after none head i = some i
head_after (some t) head i = head

unfoldable pub join : ℕ → ℕ → Post → Post
join p i m =
    let q = m.queues p in
    put_queue p (record q { head = head_after q.tail q.head i; tail = some i; count = q.count + 1 })
      (record m { pool = link_after q.tail i m.pool })

-- `msg_send_flags` from the node that `msg_alloc` gave.
unfoldable pub deliver : ℕ → List ℕ → ℕ → ℕ → Post → Post
deliver dest payload flags i m =
    let m1 = record m {
      pool = put m.pool i (filled dest payload flags m (m.pool i));
      next_msg_id = u32 (m.next_msg_id + 1);
      tick_counter = u64 (m.tick_counter + 1);
    } in
    let m2 = join dest i m1 in
    wake_receiver dest (record m2 {
      total_sent = u64 (m2.total_sent + 1);
      total_bytes = u64 (m2.total_bytes + length payload);
    })

abbrev pub send_node : ℕ → List ℕ → ℕ → Option ℕ × Post → Option MsgError × Post
send_node dest payload flags (none, m) = (some no_memory, m)
send_node dest payload flags (some i, m) = (none, deliver dest payload flags i m)

abbrev pub is_missing : Option ℕ → Bool
is_missing none = true
is_missing (some i) = false

-- `msg_send_flags`; `none` is `MSG_SUCCESS`, and `null` says that the buffer is NULL.
unfoldable pub send_flags : Bool → ℕ → List ℕ → ℕ → Post → Option MsgError × Post
send_flags null dest payload flags m =
    if null
    then (some invalid_arg, m)
    else if ltb max_size (length payload)
    then (some too_large, m)
    else if is_missing (get_by_pid dest m.table)
    then (some invalid_pid, m)
    else if leb queue_total dest
    then (some invalid_pid, m)
    else if leb queue_size (m.queues dest).count
    then (some queue_full, m)
    else send_node dest payload flags (alloc_message m)

-- `msg_send` and `msg_reply`
unfoldable pub send : Bool → ℕ → List ℕ → Post → Option MsgError × Post
send null dest payload m = send_flags null dest payload 0 m

-- What a receiving call gives: the bytes copied and the sender's PID. `fault` is the dereference of a
-- NULL head.
pub data Received : Type 0 where
  got : List ℕ → ℕ → Post → Received
  refused : MsgError → Post → Received
  asleep : Post → Received
  fault : Received

abbrev pub copied : ℕ → Message → List ℕ
copied max_len x = take (min x.length max_len) x.payload

-- The end of `msg_receive_internal`, from the node at the head.
unfoldable pub unlink : ℕ → ℕ → Post → Post
unlink p i m =
    let q = m.queues p in
    let head = (m.pool i).next in
    let m' = free_message i (
      put_queue p
        (record q {
          head = head;
          tail = if is_missing head then none else q.tail;
          count = q.count - 1;
        })
        m) in
    record m' { total_received = u64 (m'.total_received + 1) }

abbrev take_head : Option ℕ → ℕ → ℕ → Post → Received
take_head none p max_len m = fault
take_head (some i) p max_len m = got (copied max_len (m.pool i)) (m.pool i).src_pid (unlink p i m)

unfoldable pub take_message : ℕ → ℕ → Post → Received
take_message p max_len m = take_head (m.queues p).head p max_len m

-- The waiting loop. What others do meanwhile is a list of functions, one for each round.
unfoldable pub wait_message : List (Post → Post) → Bool → ℕ → ℕ → Post → Received
wait_message [] blocking p max_len m =
    if (m.queues p).count == 0
    then (if blocking then asleep (block_receiver p m) else refused would_block m)
    else take_message p max_len m
wait_message (other ∷ others) blocking p max_len m =
    let waited = wait_message others blocking p max_len (other (block_receiver p m)) in
    if (m.queues p).count == 0
    then (if blocking then waited else refused would_block m)
    else take_message p max_len m

abbrev receive_as : Option ℕ → List (Post → Post) → Bool → ℕ → Post → Received
receive_as none others blocking max_len m = refused no_process m
receive_as (some c) others blocking max_len m =
    if leb queue_total (m.table.pcb c).pid
    then refused no_process m
    else wait_message others blocking (m.table.pcb c).pid max_len m

-- `msg_receive_internal`; the other receiving calls give it their arguments.
unfoldable pub receive_internal : List (Post → Post) → Bool → Bool → ℕ → Post → Received
receive_internal others null blocking max_len m =
    if null
    then refused invalid_arg m
    else receive_as m.table.procs.current others blocking max_len m

unfoldable pub receive : List (Post → Post) → Bool → ℕ → Post → Received
receive others null max_len m = receive_internal others null true max_len m

unfoldable pub try_receive : Bool → ℕ → Post → Received
try_receive null max_len m = receive_internal [] null false max_len m
