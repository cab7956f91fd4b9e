-- ===== src/Kernel/Pipe/Tests.antt =====
-- Runs of the pipe code, and its theorems at concrete pipes.
use os_porting.Base.{◌+◌, ◌-◌, ◌≡◌, refl, true, false, some, List, [], ◌∷◌, ◌++◌, min, replicate}
use os_porting.Kernel.Process.{ProcState}
use os_porting.Kernel.WaitQueue.{max_waiters}
use os_porting.Kernel.WaitQueue.Fifo.{waiting}
use os_porting.Kernel.Pipe.{Scene, try_read, try_write}
use os_porting.Kernel.Pipe.Blocking.{wait_bytes, ReadWait, read, write}
use os_porting.Kernel.Pipe.Table.{Table, fresh, max_count, create}
use os_porting.Kernel.Pipe.Fifo.{contents}
use os_porting.Kernel.Pipe.Channel.{receive, send}
use os_porting.Kernel.Pipe.Contract.{
  IsValid, view, try_read_refines, try_write_refines, try_write-IsValid,
}
use os_porting.Kernel.Pipe.Stream.{Call, reads, writes, run, run_stream}
use os_porting.Kernel.Pipe.Sleep.{Read, Wrote, read-Read}
use os_porting.Kernel.Pipe.Rounds.{Written, write-Written}
use os_porting.Kernel.Pipe.Crowding.{Waits, wait_bytes_alone}
use os_porting.Kernel.Pipe.Create.{fresh-IsValid, Creates, create-Creates}

-- Process 5 runs, and the pipe is new.
abbrev start : Scene
start = record {
  pipe = fresh 7;
  procs = record { state = λ _. ProcState.running; current = some 5 };
  transferred = 0;
}

start-IsValid : IsValid (fresh 7)
start-IsValid = (fresh-IsValid 7).0

-- Three bytes have been written.
abbrev loaded : Scene
loaded = (try_write false (10 ∷ 20 ∷ 30 ∷ []) start).1

loaded-IsValid : IsValid loaded.pipe
loaded-IsValid = try_write-IsValid false (10 ∷ 20 ∷ 30 ∷ []) start start-IsValid

try_read_refines_example :
    let (r, xs, s) = try_read false 2 loaded in
    (r, xs, view s.pipe) ≡ receive false 2 (view loaded.pipe)
try_read_refines_example = try_read_refines false 2 loaded loaded-IsValid

try_write_refines_example :
    let (r, s) = try_write false (40 ∷ 50 ∷ []) loaded in
    (r, view s.pipe) ≡ send false (40 ∷ 50 ∷ []) (view loaded.pipe)
try_write_refines_example = try_write_refines false (40 ∷ 50 ∷ []) loaded loaded-IsValid

abbrev calls : List Call
calls = writes false (1 ∷ 2 ∷ 3 ∷ []) ∷ reads false 2 ∷ writes true [] ∷ reads false 8 ∷ []

run_stream_example :
    let t = run calls loaded in
    (contents loaded.pipe ++ t.sent ≡ t.got ++ contents t.last.pipe) × IsValid t.last.pipe
run_stream_example = run_stream calls loaded loaded-IsValid

-- While the reader waits, another process writes a byte.
read-Read_example : Read 4 (read ((λ s. (try_write false (9 ∷ []) s).1) ∷ []) false 4 start)
unfolding fresh
read-Read_example =
    read-Read ((λ s. (try_write false (9 ∷ []) s).1) ∷ []) 4 start
      ((λ s v. try_write-IsValid false (9 ∷ []) s v), tt) start-IsValid refl

write-Written_example :
    Wrote 2 (write [] false (7 ∷ 8 ∷ []) start)
    × Written [] (7 ∷ 8 ∷ []) 0 start (write [] false (7 ∷ 8 ∷ []) start)
unfolding fresh
write-Written_example = write-Written [] (7 ∷ 8 ∷ []) start tt start-IsValid refl refl

start-Waits : Waits 5 start
unfolding fresh
start-Waits = record {
  runs = refl;
  empty = refl;
  open_end = refl;
  queue = start-IsValid.readers_queue;
}

wait_bytes_alone_example :
    (t : Scene) × (wait_bytes (replicate 11 (λ u. u)) start ≡ ReadWait.asleep t)
    × (waiting t.pipe.read_waiters
        ≡ waiting (fresh 7).read_waiters
          ++ replicate (min (11 + 1) (max_waiters - (fresh 7).read_waiters.count)) (some 5))
wait_bytes_alone_example = wait_bytes_alone 11 5 start start-Waits

abbrev empty_table : Table
empty_table = record {
  pipes = replicate max_count (record (fresh 0) { flags = 0 });
  next_id = 1;
  created = 0;
  procs = start.procs;
}

create-Creates_example : Creates empty_table (create empty_table)
create-Creates_example = create-Creates empty_table refl
