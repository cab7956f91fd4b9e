-- ===== src/Kernel/Pipe/Contract.antt =====
-- The non-blocking calls implement the channel, and keep a pipe valid.
use os_porting.Base.{
  ℕ, ◌-◌, ◌<◌, min, ◌≡◌, refl, sym, ap, ◌∙◌, Bool, not, List, ◌++◌, arith, length, take, drop,
  length-take, take-append, drop-append,
}
use os_porting.Kernel.WaitQueue.Fifo as Queue
use os_porting.Kernel.WaitQueue.Fifo.{wake-IsValid}
use os_porting.Kernel.Pipe.{
  Pipe, Scene, bytes, buffer_size, read_open, write_open, is_closed, wake_reader, wake_writer,
  take_out, put_in, read_available, add_transferred, try_read, write_available, try_write,
}
use os_porting.Kernel.Pipe.Fifo.{
  IsRing, contents, length-contents, contents-take_out, contents-put_in,
}
use os_porting.Kernel.Pipe.Channel.{Channel, receive, send}

pub record IsValid (p : Pipe) : Type 0 where
  pub ring : IsRing p
  pub flags_small : p.flags < 4
  pub readers_queue : Queue.IsValid p.read_waiters
  pub writers_queue : Queue.IsValid p.write_waiters

-- The channel that a pipe stands for.
abbrev pub view : Pipe → Channel
view p = record {
  held = contents p;
  can_read = not (is_closed p read_open);
  can_write = not (is_closed p write_open);
}

pub wake_reader-IsValid : (s : Scene) → IsValid s.pipe → IsValid (wake_reader s).pipe
unfolding wake_reader
wake_reader-IsValid s v = record {
  ring = record {
    sized = v.ring.sized;
    read_in = v.ring.read_in;
    write_at = v.ring.write_at;
    bounded = v.ring.bounded;
  };
  flags_small = v.flags_small;
  readers_queue = wake-IsValid s.procs v.readers_queue;
  writers_queue = v.writers_queue;
}

pub wake_writer-IsValid : (s : Scene) → IsValid s.pipe → IsValid (wake_writer s).pipe
unfolding wake_writer
wake_writer-IsValid s v = record {
  ring = record {
    sized = v.ring.sized;
    read_in = v.ring.read_in;
    write_at = v.ring.write_at;
    bounded = v.ring.bounded;
  };
  flags_small = v.flags_small;
  readers_queue = v.readers_queue;
  writers_queue = wake-IsValid s.procs v.writers_queue;
}

-- The bytes that a reading call hands out are the oldest, and the others stay.
pub read_available_lem :
    (n : ℕ) (s : Scene)
    → IsValid s.pipe
    → let (r, xs, s') = read_available n s in
      let k = min n s.pipe.count in
      (r ≡ bytes k)
      × (xs ≡ take k (contents s.pipe))
      × (view s'.pipe ≡ record (view s.pipe) { held = drop k (contents s.pipe) })
      × IsValid s'.pipe
unfolding read_available wake_writer take_out
read_available_lem n s v =
    let k = min n s.pipe.count in
    let (split, long, ring) = contents-take_out k v.ring (omega arith) in
    (
      refl,
      sym (ap (take k) split ∙ take-append k _ _ long),
      ap (λ h. record (view s.pipe) { held = h })
          (sym (ap (drop k) split ∙ drop-append k _ _ long)),
      wake_writer-IsValid (add_transferred (record s { pipe = (take_out k s.pipe).1 }) k) (record {
        ring = ring;
        flags_small = v.flags_small;
        readers_queue = v.readers_queue;
        writers_queue = v.writers_queue;
      }),
    )

-- The bytes that a writing call accepts are put behind the others.
pub write_available_lem :
    (src : List ℕ) (s : Scene)
    → IsValid s.pipe
    → let (r, s') = write_available src s in
      let k = min (length src) (buffer_size - s.pipe.count) in
      (r ≡ bytes k)
      × (view s'.pipe ≡ record (view s.pipe) { held = contents s.pipe ++ take k src })
      × IsValid s'.pipe
unfolding write_available wake_reader put_in
write_available_lem src s v =
    let k = min (length src) (buffer_size - s.pipe.count) in
    let (held, ring) =
      contents-put_in (take k src) v.ring (omega (arith, length-take {0} k src, v.ring.bounded)) in
    (
      refl,
      ap (λ h. record (view s.pipe) { held = h }) held,
      wake_reader-IsValid (add_transferred (record s { pipe = put_in (take k src) s.pipe }) k)
          (record {
            ring = ring;
            flags_small = v.flags_small;
            readers_queue = v.readers_queue;
            writers_queue = v.writers_queue;
          }),
    )

-- `pipe_try_read` returns the status and the bytes of `receive`, and leaves its channel.
pub try_read_refines :
    (null : Bool) (n : ℕ) (s : Scene)
    → IsValid s.pipe
    → let (r, xs, s') = try_read null n s in (r, xs, view s'.pipe) ≡ receive null n (view s.pipe)
unfolding try_read receive
try_read_refines null n s v = ground (arith, length-contents s.pipe, read_available_lem n s v)

-- `pipe_try_write` returns the status of `send`, and leaves its channel.
pub try_write_refines :
    (null : Bool) (src : List ℕ) (s : Scene)
    → IsValid s.pipe
    → let (r, s') = try_write null src s in (r, view s'.pipe) ≡ send null src (view s.pipe)
unfolding try_write send
try_write_refines null src s v = ground (arith, length-contents s.pipe, write_available_lem src s v)

pub try_read-IsValid :
    (null : Bool) (n : ℕ) (s : Scene) → IsValid s.pipe → IsValid (try_read null n s).2.pipe
unfolding try_read
try_read-IsValid null n s v = ground (arith, (read_available_lem n s v).3)

pub try_write-IsValid :
    (null : Bool) (src : List ℕ) (s : Scene)
    → IsValid s.pipe
    → IsValid (try_write null src s).1.pipe
unfolding try_write
try_write-IsValid null src s v = ground (arith, (write_available_lem src s v).2)
