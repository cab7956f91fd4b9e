-- ===== src/Kernel/Pipe/Blocking.antt =====
-- `pipe_read` and `pipe_write`. Both give up the lock while they wait. What others do to the scene
-- meanwhile is a list of functions, one for each round of waiting; a call that still waits when the
-- list ends is `asleep`.
use os_porting.Base.{
  ℕ, zero, suc, ◌+◌, ◌-◌, min, Bool, List, [], ◌∷◌, ◌==◌, ltb, if◌then◌else◌, length, take, drop,
}
use os_porting.Kernel.WaitQueue.{block}
use os_porting.Kernel.Pipe.{
  Scene, Status, bytes, fail, invalid, closed, buffer_size, read_open, write_open, is_closed,
  wake_reader, add_transferred, put_in, read_available,
}

abbrev pub Others : Type 0
Others = List (Scene → Scene)

-- `pipe_block_reader` and `pipe_block_writer`
unfoldable pub block_reader : Scene → Scene
block_reader s =
    let (q, ps) = block s.pipe.read_waiters s.procs in
    record s { pipe = record (s.pipe) { read_waiters = q }; procs = ps }

unfoldable pub block_writer : Scene → Scene
block_writer s =
    let (q, ps) = block s.pipe.write_waiters s.procs in
    record s { pipe = record (s.pipe) { write_waiters = q }; procs = ps }

pub data ReadWait : Type 0 where
  ready at_end asleep : Scene → ReadWait

-- The loop of `pipe_read` that waits while the pipe is empty.
unfoldable pub wait_bytes : Others → Scene → ReadWait
wait_bytes [] s =
    if s.pipe.count == 0
    then (if is_closed s.pipe write_open then at_end s else asleep (block_reader s))
    else ready s
wait_bytes (other ∷ others) s =
    let waited = wait_bytes others (other (block_reader s)) in
    if s.pipe.count == 0
    then (if is_closed s.pipe write_open then at_end s else waited)
    else ready s

pub data ReadResult : Type 0 where
  returned : Status → List ℕ → Scene → ReadResult
  waiting : Scene → ReadResult

abbrev pub finish_read : ℕ → ReadWait → ReadResult
finish_read n (ready s) = let (r, xs, s') = read_available n s in returned r xs s'
finish_read n (at_end s) = returned (bytes 0) [] s
finish_read n (asleep s) = waiting s

-- `pipe_read`
unfoldable pub read : Others → Bool → ℕ → Scene → ReadResult
read others null n s =
    if null
    then returned (fail invalid) [] s
    else if n == 0
    then returned (bytes 0) [] s
    else if is_closed s.pipe read_open
    then returned (fail closed) [] s
    else finish_read n (wait_bytes others s)

pub data WriteWait : Type 0 where
  room : Others → Scene → WriteWait
  broken asleep : Scene → WriteWait

-- The loop of `pipe_write` that waits while the pipe is full.
unfoldable pub wait_room : Others → Scene → WriteWait
wait_room [] s =
    if s.pipe.count == buffer_size
    then (if is_closed s.pipe read_open then broken s else WriteWait.asleep (block_writer s))
    else room [] s
wait_room (other ∷ others) s =
    let waited = wait_room others (other (block_writer s)) in
    if s.pipe.count == buffer_size
    then (if is_closed s.pipe read_open then broken s else waited)
    else room (other ∷ others) s

pub data WriteResult : Type 0 where
  returned : Status → Scene → WriteResult
  waiting : Scene → WriteResult
  out_of_fuel : WriteResult

-- The bytes that one round of the outer loop copies.
abbrev pub chunk : List ℕ → Scene → ℕ
chunk src s = min (length src) (buffer_size - s.pipe.count)

abbrev pub write_chunk : List ℕ → Scene → Scene
write_chunk src s = wake_reader (record s { pipe = put_in (take (chunk src s) src) s.pipe })

-- How a round of the outer loop goes on from its wait; a write cut off by a closed read end
-- reports the bytes that it had written, if any.
abbrev pub resume : ℕ → WriteWait → (Others → Scene → WriteResult) → WriteResult
resume written (room others s) next = next others s
resume written (broken s) next =
    WriteResult.returned (if ltb 0 written then bytes written else fail closed) s
resume written (WriteWait.asleep s) next = WriteResult.waiting s

-- The outer loop of `pipe_write`: fuel, what the others do, the bytes left and the bytes written.
unfoldable pub write_loop : ℕ → Others → List ℕ → ℕ → Scene → WriteResult
write_loop fuel others [] written s =
    WriteResult.returned (bytes written) (add_transferred s written)
write_loop zero others (x ∷ xs) written s = out_of_fuel
write_loop (suc fuel) others (x ∷ xs) written s = resume written (wait_room others s) λ others' s'.
    write_loop fuel others' (drop (chunk (x ∷ xs) s') (x ∷ xs)) (written + chunk (x ∷ xs) s')
      (write_chunk (x ∷ xs) s')

-- `pipe_write`. Each round copies at least one byte, so the number of bytes is fuel enough.
unfoldable pub write : Others → Bool → List ℕ → Scene → WriteResult
write others null src s =
    if null
    then WriteResult.returned (fail invalid) s
    else if length src == 0
    then WriteResult.returned (bytes 0) s
    else if is_closed s.pipe write_open
    then WriteResult.returned (fail closed) s
    else if is_closed s.pipe read_open
    then WriteResult.returned (fail closed) s
    else write_loop (length src) others src 0 s
