-- ===== src/Kernel/Pipe.antt =====
-- kernel/ipc/pipe.c and pipe.h: one pipe, its copy loops and its non-blocking calls. A call holds
-- the pipe's spinlock from its first look at the pipe to its return, so it is one function here.
-- The messages that are printed are left out.
pub mod Blocking
pub mod Table
pub mod Fifo
pub mod Channel
pub mod Contract
pub mod Stream
pub mod Sleep
pub mod Rounds
pub mod Crowding
pub mod Create
pub mod Close
mod Tests
use os_porting.Base.{
  ℕ, ◌+◌, ◌-◌, ◌%◌, ◌^◌, min, bit_and, Bool, Option, List, [], ltb, ◌==◌, if◌then◌else◌, length,
  take,
}
use os_porting.Base.Circular.{store, fetch}
use os_porting.Kernel.Process.{Procs}
use os_porting.Kernel.WaitQueue.{WaitQueue, wake}

-- `PIPE_BUFFER_SIZE`
abbrev pub buffer_size : ℕ
buffer_size = 4096

-- `PIPE_FLAG_READ_OPEN` and `PIPE_FLAG_WRITE_OPEN`
abbrev pub read_open : ℕ
read_open = 1

abbrev pub write_open : ℕ
write_open = 2

-- `pipe_t`, without the spinlock.
pub record Pipe : Type 0 where
  pub buffer : List ℕ
  pub read_pos : ℕ
  pub write_pos : ℕ
  pub count : ℕ
  pub flags : ℕ
  pub id : ℕ
  pub readers : ℕ
  pub writers : ℕ
  pub read_waiters : WaitQueue
  pub write_waiters : WaitQueue

-- What a call on one pipe can change: the pipe, the process table, `total_bytes_transferred`.
pub record Scene : Type 0 where
  pub pipe : Pipe
  pub procs : Procs
  pub transferred : ℕ

-- `PIPE_ERR_INVALID`, `PIPE_ERR_CLOSED`, `PIPE_ERR_WOULDBLOCK`, `PIPE_ERR_MAX_PIPES`
pub data Error : Type 0 where
  invalid closed would_block max_pipes : Error

-- The `ssize_t` of a call: a number of bytes, or an error code.
pub data Status : Type 0 where
  bytes : ℕ → Status
  fail : Error → Status

abbrev pub is_closed : Pipe → ℕ → Bool
is_closed p flag = bit_and p.flags flag == 0

-- `pipe_wake_reader` and `pipe_wake_writer`
unfoldable pub wake_reader : Scene → Scene
wake_reader s =
    let (q, ps) = wake s.pipe.read_waiters s.procs in
    record s { pipe = record (s.pipe) { read_waiters = q }; procs = ps }

unfoldable pub wake_writer : Scene → Scene
wake_writer s =
    let (q, ps) = wake s.pipe.write_waiters s.procs in
    record s { pipe = record (s.pipe) { write_waiters = q }; procs = ps }

-- The statistics are a `uint64_t`.
abbrev pub add_transferred : Scene → ℕ → Scene
add_transferred s n = record s { transferred = (s.transferred + n) % 2 ^ 64 }

-- The loop that copies `n` bytes out of the buffer, and `count -= n`.
unfoldable pub take_out : ℕ → Pipe → List ℕ × Pipe
take_out n p =
    let (xs, at) = fetch buffer_size 0 n p.buffer p.read_pos in
    (xs, record p { read_pos = at; count = p.count - n })

-- The loop that copies the listed bytes into the buffer, and `count += n`.
unfoldable pub put_in : List ℕ → Pipe → Pipe
put_in xs p =
    let (buffer, at) = store buffer_size 0 xs p.buffer p.write_pos in
    record p { buffer = buffer; write_pos = at; count = p.count + length xs }

-- The end of both reading calls: what is there, up to `n` bytes, is copied out.
unfoldable pub read_available : ℕ → Scene → Status × List ℕ × Scene
read_available n s =
    let k = min n s.pipe.count in
    let (xs, p) = take_out k s.pipe in
    (bytes k, xs, wake_writer (add_transferred (record s { pipe = p }) k))

-- `pipe_try_read`; `null` says that the pipe or the buffer is NULL.
unfoldable pub try_read : Bool → ℕ → Scene → Status × List ℕ × Scene
try_read null n s =
    if null
    then (fail invalid, [], s)
    else if n == 0
    then (bytes 0, [], s)
    else if is_closed s.pipe read_open
    then (fail closed, [], s)
    else if s.pipe.count == 0
    then (if is_closed s.pipe write_open then (bytes 0, [], s) else (fail would_block, [], s))
    else read_available n s

-- What `pipe_try_write` copies: as many of the bytes as there is room for.
unfoldable pub write_available : List ℕ → Scene → Status × Scene
write_available src s =
    let k = min (length src) (buffer_size - s.pipe.count) in
    (bytes k, wake_reader (add_transferred (record s { pipe = put_in (take k src) s.pipe }) k))

-- `pipe_try_write`; `src` is the `count` bytes at the buffer.
unfoldable pub try_write : Bool → List ℕ → Scene → Status × Scene
try_write null src s =
    if null
    then (fail invalid, s)
    else if length src == 0
    then (bytes 0, s)
    else if is_closed s.pipe write_open
    then (fail closed, s)
    else if is_closed s.pipe read_open
    then (fail closed, s)
    else if s.pipe.count == buffer_size
    then (fail would_block, s)
    else write_available src s

-- `pipe_available` and `pipe_free_space`, on a pipe that is not NULL; the latter is a `size_t`.
unfoldable pub available : Pipe → ℕ
available p = p.count

unfoldable pub free_space : Pipe → ℕ
free_space p = (2 ^ 64 + buffer_size - p.count) % 2 ^ 64

-- `pipe_is_empty` and `pipe_is_full`
unfoldable pub is_empty : Pipe → Bool
is_empty p = p.count == 0

unfoldable pub is_full : Pipe → Bool
is_full p = p.count == buffer_size
