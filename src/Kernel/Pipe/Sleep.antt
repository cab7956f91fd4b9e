-- ===== src/Kernel/Pipe/Sleep.antt =====
-- The blocking calls: what they return, under any interference that keeps the pipe valid.
use os_porting.Base.{
  ℕ, zero, suc, ◌+◌, ◌≤◌, ◌<◌, min, ◌≡◌, ◌≢◌, ◌⊎◌, inl, inr, refl, ap, true, false, List, [], ◌∷◌,
  arith, ltb, ◌==◌, Bool-cases, length, take, drop, length-take, length-drop,
}
use os_porting.Kernel.WaitQueue.Fifo.{block-IsValid}
use os_porting.Kernel.Pipe.{
  Scene, bytes, fail, closed, buffer_size, read_open, write_open, is_closed, put_in,
}
use os_porting.Kernel.Pipe.Blocking.{
  Others, block_reader, block_writer, ReadWait, wait_bytes, ReadResult, finish_read, read,
  WriteWait, room, broken, resume, wait_room, WriteResult, out_of_fuel, chunk, write_chunk,
  write_loop, write,
}
use os_porting.Kernel.Pipe.Fifo.{contents, length-contents, contents-put_in}
use os_porting.Kernel.Pipe.Contract.{IsValid, wake_reader-IsValid, read_available_lem}

-- What others do while the call waits leaves the pipe valid.
abbrev pub Keeps : (Scene → Scene) → Type 0
Keeps f = (s : Scene) → IsValid s.pipe → IsValid (f s).pipe

abbrev pub AllKeep : Others → Type 0
AllKeep [] = Unit
AllKeep (f ∷ fs) = Keeps f × AllKeep fs

block_reader-IsValid : (s : Scene) → IsValid s.pipe → IsValid (block_reader s).pipe
unfolding block_reader
block_reader-IsValid s v = record {
  ring = record {
    sized = v.ring.sized;
    read_in = v.ring.read_in;
    write_at = v.ring.write_at;
    bounded = v.ring.bounded;
  };
  flags_small = v.flags_small;
  readers_queue = block-IsValid s.procs v.readers_queue;
  writers_queue = v.writers_queue;
}

block_writer-IsValid : (s : Scene) → IsValid s.pipe → IsValid (block_writer s).pipe
unfolding block_writer
block_writer-IsValid s v = record {
  ring = record {
    sized = v.ring.sized;
    read_in = v.ring.read_in;
    write_at = v.ring.write_at;
    bounded = v.ring.bounded;
  };
  flags_small = v.flags_small;
  readers_queue = v.readers_queue;
  writers_queue = block-IsValid s.procs v.writers_queue;
}

-- Where the waiting loop of a reader can stop.
abbrev Waited : ReadWait → Type 0
Waited (ReadWait.ready s) = IsValid s.pipe × (s.pipe.count ≢ 0)
Waited (ReadWait.at_end s) =
    IsValid s.pipe × (s.pipe.count ≡ 0) × (is_closed s.pipe write_open ≡ true)
Waited (ReadWait.asleep s) = IsValid s.pipe

wait_bytes-Waited :
    (others : Others) (s : Scene) → AllKeep others → IsValid s.pipe → Waited (wait_bytes others s)
unfolding wait_bytes
wait_bytes-Waited [] s k v = ground (arith, block_reader-IsValid s v)
wait_bytes-Waited (f ∷ fs) s k v =
    let rest = wait_bytes-Waited fs (f (block_reader s)) k.1 (k.0 _ (block_reader-IsValid s v)) in
    ground (arith, rest)

-- What a blocking read returns.
abbrev pub Read : ℕ → ReadResult → Type 0
Read n (ReadResult.returned (bytes k) xs s) =
    IsValid s.pipe
    × (length xs ≡ k)
    × (k ≤ n)
    × (k ≡ 0 → (n ≡ 0) ⊎ ((s.pipe.count ≡ 0) × (is_closed s.pipe write_open ≡ true)))
Read n (ReadResult.returned (fail e) xs s) = (e ≡ closed) × (xs ≡ [])
Read n (ReadResult.waiting s) = IsValid s.pipe

finish_read-Read : (n : ℕ) (w : ReadWait) → n ≢ 0 → Waited w → Read n (finish_read n w)
finish_read-Read n (ReadWait.ready s) h (v, more) =
    let k = min n s.pipe.count in
    let (result, copied, after, valid) = read_available_lem n s v in
    rw result (
      valid,
      omega (arith, ap length copied, length-take {0} k (contents s.pipe), length-contents s.pipe),
      omega arith,
      λ z. absurd (omega arith),
    )
finish_read-Read n (ReadWait.at_end s) h (v, none_left, shut) =
    (v, refl, omega arith, λ _. inr (none_left, shut))
finish_read-Read n (ReadWait.asleep s) h v = v

-- A blocking `pipe_read` of `n` bytes on a pipe whose read end is open, whatever others do to the
-- pipe while it waits: it still waits, or it returns at most `n` bytes, and the pipe is valid. It
-- returns 0 only if 0 bytes were asked for, or if the pipe is empty with its write end closed.
pub read-Read :
    (others : Others) (n : ℕ) (s : Scene)
    → AllKeep others
    → IsValid s.pipe
    → is_closed s.pipe read_open ≡ false
    → Read n (read others false n s)
unfolding read
read-Read others n s k v open_end = elim (Bool-cases (n == 0)) [
  | inl nothing ↦ rw nothing (v, refl, omega arith, λ _. inl (ground arith))
  | inr some_bytes ↦
      rw (some_bytes, open_end)
        (finish_read-Read n (wait_bytes others s) (ground arith) (wait_bytes-Waited others s k v))
]

-- The remaining interference is a part of the given one.
abbrev pub Roomy : WriteWait → Type 0
Roomy (room others s) = AllKeep others × IsValid s.pipe × (s.pipe.count < buffer_size)
Roomy (broken s) = IsValid s.pipe × (is_closed s.pipe read_open ≡ true)
Roomy (WriteWait.asleep s) = IsValid s.pipe

pub wait_room-Roomy :
    (others : Others) (s : Scene) → AllKeep others → IsValid s.pipe → Roomy (wait_room others s)
unfolding wait_room
wait_room-Roomy [] s k v = ground (arith, block_writer-IsValid s v)
wait_room-Roomy (f ∷ fs) s k v =
    let rest = wait_room-Roomy fs (f (block_writer s)) k.1 (k.0 _ (block_writer-IsValid s v)) in
    ground (arith, rest)

pub write_chunk-IsValid :
    (src : List ℕ) (s : Scene) → IsValid s.pipe → IsValid (write_chunk src s).pipe
unfolding put_in
write_chunk-IsValid src s v =
    let k = chunk src s in
    let (held, ring) =
      contents-put_in (take k src) v.ring (omega (arith, length-take {0} k src, v.ring.bounded)) in
    wake_reader-IsValid (record s { pipe = put_in (take k src) s.pipe })
      (record {
        ring = ring;
        flags_small = v.flags_small;
        readers_queue = v.readers_queue;
        writers_queue = v.writers_queue;
      })

-- What a blocking write of `n` bytes returns.
abbrev pub Wrote : ℕ → WriteResult → Type 0
Wrote n (WriteResult.returned (bytes k) s) =
    IsValid s.pipe × ((k ≡ n) ⊎ ((0 < k) × (k < n) × (is_closed s.pipe read_open ≡ true)))
Wrote n (WriteResult.returned (fail e) s) =
    IsValid s.pipe × (e ≡ closed) × (is_closed s.pipe read_open ≡ true)
Wrote n (WriteResult.waiting s) = IsValid s.pipe
Wrote n out_of_fuel = ⊥

resume-Wrote :
    (written n : ℕ) (w : WriteWait) (next : Others → Scene → WriteResult)
    → Roomy w
    → written < n
    → ((others : Others) (s : Scene)
        → AllKeep others
        → IsValid s.pipe
        → s.pipe.count < buffer_size
        → Wrote n (next others s))
    → Wrote n (resume written w next)
resume-Wrote written n (room others s) next (k, v, fits) more goes_on = goes_on others s k v fits
resume-Wrote written n (broken s) next (v, shut) more goes_on = elim (Bool-cases (ltb 0 written)) [
  | inl some_bytes ↦ rw some_bytes (v, inr (ground arith, more, shut))
  | inr no_bytes ↦ rw no_bytes (v, refl, shut)
]
resume-Wrote written n (WriteWait.asleep s) next v more goes_on = v

write_loop-Wrote :
    (fuel : ℕ) (others : Others) (src : List ℕ) (written n : ℕ) (s : Scene)
    → AllKeep others
    → IsValid s.pipe
    → length src ≤ fuel
    → written + length src ≡ n
    → Wrote n (write_loop fuel others src written s)
unfolding write_loop
write_loop-Wrote fuel others [] written n s k v enough total = (v, inl (omega arith))
write_loop-Wrote zero others (x ∷ xs) written n s k v enough total = absurd (omega arith)
write_loop-Wrote (suc fuel) others (x ∷ xs) written n s k v enough total =
    resume-Wrote written n (wait_room others s) _ (wait_room-Roomy others s k v) (omega arith)
      λ others' s' k' v' fits.
        write_loop-Wrote fuel others' (drop (chunk (x ∷ xs) s') (x ∷ xs))
          (written + chunk (x ∷ xs) s') n (write_chunk (x ∷ xs) s') k'
          (write_chunk-IsValid (x ∷ xs) s' v')
          (omega (arith, length-drop {0} (chunk (x ∷ xs) s') (x ∷ xs)))
          (omega (arith, length-drop {0} (chunk (x ∷ xs) s') (x ∷ xs)))

-- A blocking `pipe_write` on a pipe whose two ends are open, whatever others do to the pipe while it
-- waits, ends within its fuel: it still waits, or it has written all bytes, or the read end was
-- closed meanwhile, and then it reports the bytes written before, or an error if there are none.
-- The pipe is valid after it.
pub write-Wrote :
    (others : Others) (src : List ℕ) (s : Scene)
    → AllKeep others
    → IsValid s.pipe
    → is_closed s.pipe read_open ≡ false
    → is_closed s.pipe write_open ≡ false
    → Wrote (length src) (write others false src s)
unfolding write
write-Wrote others [] s k v can_read can_write = (v, inl refl)
write-Wrote others (x ∷ xs) s k v can_read can_write =
    let some_bytes : (length (x ∷ xs) == 0) ≡ false = ground arith in
    rw (some_bytes, can_write, can_read)
      (write_loop-Wrote (length (x ∷ xs)) others (x ∷ xs) 0 (length (x ∷ xs)) s k v (omega arith)
        (omega arith))
