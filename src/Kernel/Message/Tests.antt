-- ===== src/Kernel/Message/Tests.antt =====
-- Runs with two processes, of PIDs 1 and 2, the first of which is current.
use os_porting.Base.{
  get_or, put, ◌≡◌, refl, subst, suc, ℕ, false, none, some, List, [], ◌∷◌, if◌then◌else◌, replicate,
  arith, ltb, ◌+◌,
}
use os_porting.Kernel.Process.{ProcState}
use os_porting.Kernel.Process.Table.{Table, Pcb, get_by_pid, pid_loop}
use os_porting.Kernel.WaitQueue.{wake}
use os_porting.Kernel.Message.{
  Post, MsgQueue, empty_message, send_flags, receive, try_receive, alloc_message, deliver, join,
  wake_receiver,
}
use os_porting.Kernel.Message.Calls.{init, pool_loop, queue_loop, broadcast}
use os_porting.Kernel.Message.Mail.{Letter}
use os_porting.Kernel.Message.Holds.{Holds}
use os_porting.Kernel.Message.Contract.{send_flags-Sent, Taken}
use os_porting.Kernel.Message.Receive.{try_receive-Tried, receive-Waited, Waited}
use os_porting.Kernel.Message.Start.{init-Holds}
use os_porting.Kernel.Message.Quiet.{init-WaitersLive}
use os_porting.Kernel.Message.Everyone.{broadcast-Reaches, Reaches}

abbrev pcb : ℕ → Pcb
pcb i = record {
  pid = i + 1;
  exit_status = 0;
  priority = 5;
  time_slice = 0;
  total_ticks = 0;
  stack_base = 0;
  parent = none;
  children = replicate 32 none;
  child_count = 0;
  flags = 1;
}

abbrev two : Table
two = record {
  procs = record {
    state = λ i. if ltb i 2 then ProcState.ready else ProcState.invalid;
    current = some 0;
  };
  pcb = pcb;
  next_pid = 3;
}

abbrev no_queue : MsgQueue
no_queue = record {
  head = none;
  tail = none;
  count = 0;
  owner_pid = 0;
  waiters = record { slots = []; count = 0 };
}

abbrev booting : Post
booting = record {
  pool = λ i. empty_message;
  free_messages = none;
  queues = λ p. no_queue;
  next_msg_id = 1;
  tick_counter = 0;
  total_sent = 0;
  total_received = 0;
  total_bytes = 0;
  table = two;
}

abbrev started : Post
started = init booting

abbrev nothing : ℕ → List Letter
nothing p = []

abbrev hello : List ℕ
hello = 104 ∷ 105 ∷ []

-- Process 1 sends to itself.
abbrev written : Post
written = (send_flags false 1 hello 2 started).1

abbrev note : Letter
note = record { src = 1; dest = 1; flags = 2; id = 1; sent_at = 0; text = hello }

abbrev one_note : ℕ → List Letter
one_note = put nothing 1 (note ∷ [])

send_flags-Sent_example :
    ((send_flags false 1 hello 2 started).0 ≡ none)
    × ((left : ℕ) × (512 ≡ suc left) × Holds written left one_note)
unfolding init get_by_pid pid_loop
send_flags-Sent_example = send_flags-Sent false 1 hello 2 (init-Holds booting)

written-Holds : Holds written 511 one_note
unfolding init get_by_pid pid_loop
written-Holds =
    let (_, (left, e, h)) = send_flags-Sent false 1 hello 2 (init-Holds booting) in
    subst (λ n. Holds written n one_note) (omega (arith, e)) h

-- A buffer of one byte gets the first.
try_receive-Tried_example : Taken 1 1 511 one_note note [] (try_receive false 1 written)
unfolding init send_flags get_by_pid pid_loop alloc_message pool_loop deliver join wake_receiver
    queue_loop wake
try_receive-Tried_example = try_receive-Tried false 1 written-Holds

receive-Waited_example :
    Waited 1 8 ((λ m. m) ∷ []) written (receive ((λ m. m) ∷ []) false 8 written)
unfolding init send_flags get_by_pid pid_loop alloc_message pool_loop deliver join wake_receiver
    queue_loop wake
receive-Waited_example =
    receive-Waited ((λ m. m) ∷ []) 8 0 {m = written} refl (ground arith)
      ((λ m spare mail h. (spare, mail, h)), tt) written-Holds

nobody_waits : (p i : ℕ) → get_or (booting.queues p).waiters.slots i none ≡ none
nobody_waits p i = refl

broadcast-Reaches_example : Reaches false hello 512 nothing started (broadcast false hello started)
broadcast-Reaches_example =
    broadcast-Reaches false hello (init-Holds booting) (init-WaitersLive booting nobody_waits)
