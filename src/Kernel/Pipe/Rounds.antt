-- ===== src/Kernel/Pipe/Rounds.antt =====
-- What a blocking `pipe_write` puts into the pipe, round by round.
use os_porting.Base.{
  ℕ, zero, suc, ◌+◌, ◌≤◌, ◌<◌, ◌≡◌, ◌∙◌, ◌++◌, refl, true, false, List, [], ◌∷◌, arith, ltb, ◌==◌,
  Bool-cases, inl, inr, length, take, drop, length-take, length-drop,
}
use os_porting.Kernel.Pipe.{
  Scene, bytes, fail, closed, buffer_size, read_open, write_open, is_closed, put_in, wake_reader,
}
use os_porting.Kernel.Pipe.Blocking.{
  Others, block_writer, WriteWait, room, broken, resume, wait_room, WriteResult, chunk, write_chunk,
  write_loop, write,
}
use os_porting.Kernel.Pipe.Fifo.{contents, contents-put_in}
use os_porting.Kernel.Pipe.Contract.{IsValid}
use os_porting.Kernel.Pipe.Sleep.{
  AllKeep, Roomy, wait_room-Roomy, write_chunk-IsValid, Wrote, write-Wrote,
}

-- The scenes that a waiting writer goes through: as long as the pipe is full and its read end
-- open, it blocks, and others act. The two lists are what the others still do, before and after.
pub data WaitsForRoom : Others → Others → Scene → Scene → Type 0 where
  here : {others : Others} {s : Scene} → WaitsForRoom others others s s
  blocked :
      {other : Scene → Scene} {others rest : Others} {s s₀ : Scene}
      → s.pipe.count ≡ buffer_size
      → is_closed s.pipe read_open ≡ false
      → WaitsForRoom others rest (other (block_writer s)) s₀
      → WaitsForRoom (other ∷ others) rest s s₀

-- How a write goes on with the bytes left and the number of bytes written so far.
pub data Written : Others → List ℕ → ℕ → Scene → WriteResult → Type 0 where
  -- No byte is left, and the call returns with the pipe's bytes as they are.
  all :
      {others : Others} {k : ℕ} {s s' : Scene}
      → contents s'.pipe ≡ contents s.pipe
      → Written others [] k s (WriteResult.returned (bytes k) s')
  -- As many of the bytes left as there is room for stand behind the pipe's bytes.
  round :
      {others rest : Others} {src : List ℕ} {k : ℕ} {s s₀ s₁ : Scene} {r : WriteResult}
      → WaitsForRoom others rest s s₀
      → s₀.pipe.count < buffer_size
      → 0 < chunk src s₀
      → contents s₁.pipe ≡ contents s₀.pipe ++ take (chunk src s₀) src
      → Written rest (drop (chunk src s₀) src) (k + chunk src s₀) s₁ r
      → Written others src k s r
  -- The read end is closed and the pipe full.
  cut_short :
      {others rest : Others} {x : ℕ} {xs : List ℕ} {k : ℕ} {s s₀ : Scene}
      → WaitsForRoom others rest s s₀
      → s₀.pipe.count ≡ buffer_size
      → is_closed s₀.pipe read_open ≡ true
      → 0 < k
      → Written others (x ∷ xs) k s (WriteResult.returned (bytes k) s₀)
  fails :
      {others rest : Others} {x : ℕ} {xs : List ℕ} {s s₀ : Scene}
      → WaitsForRoom others rest s s₀
      → s₀.pipe.count ≡ buffer_size
      → is_closed s₀.pipe read_open ≡ true
      → Written others (x ∷ xs) 0 s (WriteResult.returned (fail closed) s₀)
  -- What the others do has ended, and the pipe is full.
  sleeps :
      {others : Others} {x : ℕ} {xs : List ℕ} {k : ℕ} {s s₀ : Scene}
      → WaitsForRoom others [] s s₀
      → s₀.pipe.count ≡ buffer_size
      → Written others (x ∷ xs) k s (WriteResult.waiting (block_writer s₀))

-- How the waiting loop stops.
abbrev Stops : Others → Scene → WriteWait → Type 0
Stops others s (room rest s₀) = WaitsForRoom others rest s s₀
Stops others s (broken s₀) =
    (rest : Others) × WaitsForRoom others rest s s₀
    × (s₀.pipe.count ≡ buffer_size)
    × (is_closed s₀.pipe read_open ≡ true)
Stops others s (WriteWait.asleep s') =
    (s₀ : Scene) × WaitsForRoom others [] s s₀
    × (s₀.pipe.count ≡ buffer_size)
    × (s' ≡ block_writer s₀)

Stops-blocked :
    (other : Scene → Scene) (others : Others) (s : Scene) (w : WriteWait)
    → s.pipe.count ≡ buffer_size
    → is_closed s.pipe read_open ≡ false
    → Stops others (other (block_writer s)) w
    → Stops (other ∷ others) s w
Stops-blocked other others s (room rest s₀) full can_read waits = blocked full can_read waits
Stops-blocked other others s (broken s₀) full can_read (rest, waits, still, shut) =
    (rest, blocked full can_read waits, still, shut)
Stops-blocked other others s (WriteWait.asleep s') full can_read (s₀, waits, still, same) =
    (s₀, blocked full can_read waits, still, same)

wait_room-Stops : (others : Others) (s : Scene) → Stops others s (wait_room others s)
unfolding wait_room
wait_room-Stops [] s = elim (Bool-cases (s.pipe.count == buffer_size)) [
  | inr some_room ↦ rw some_room here
  | inl full ↦ elim (Bool-cases (is_closed s.pipe read_open)) [
    | inl shut ↦ rw (full, shut) ([], here, ground arith, shut)
    | inr can_read ↦ rw (full, can_read) (s, here, ground arith, refl)
  ]
]
wait_room-Stops (other ∷ others) s = elim (Bool-cases (s.pipe.count == buffer_size)) [
  | inr some_room ↦ rw some_room here
  | inl full ↦ elim (Bool-cases (is_closed s.pipe read_open)) [
    | inl shut ↦ rw (full, shut) (other ∷ others, here, ground arith, shut)
    | inr can_read ↦
        rw (full, can_read)
          (Stops-blocked other others s (wait_room others (other (block_writer s))) (ground arith)
            can_read (wait_room-Stops others (other (block_writer s))))
  ]
]

contents-wake_reader : (s : Scene) → contents (wake_reader s).pipe ≡ contents s.pipe
unfolding wake_reader
contents-wake_reader s = refl

contents-write_chunk :
    (src : List ℕ) (s : Scene)
    → IsValid s.pipe
    → contents (write_chunk src s).pipe ≡ contents s.pipe ++ take (chunk src s) src
contents-write_chunk src s v =
    let k = chunk src s in
    let (held, ring) =
      contents-put_in (take k src) v.ring (omega (arith, length-take {0} k src, v.ring.bounded)) in
    contents-wake_reader (record s { pipe = put_in (take k src) s.pipe }) ∙ held

resume-Written :
    (others : Others) (x : ℕ) (xs : List ℕ) (k : ℕ) (s : Scene) (w : WriteWait)
    (next : Others → Scene → WriteResult)
    → Stops others s w
    → Roomy w
    → ((rest : Others) (s₀ : Scene)
        → AllKeep rest
        → IsValid s₀.pipe
        → s₀.pipe.count < buffer_size
        → Written rest
            (drop (chunk (x ∷ xs) s₀) (x ∷ xs))
            (k + chunk (x ∷ xs) s₀)
            (write_chunk (x ∷ xs) s₀)
            (next rest s₀))
    → Written others (x ∷ xs) k s (resume k w next)
resume-Written others x xs k s (room rest s₀) next waits (keep, v, fits) goes_on =
    round waits fits (omega arith) (contents-write_chunk (x ∷ xs) s₀ v)
      (goes_on rest s₀ keep v fits)
resume-Written others x xs zero s (broken s₀) next (rest, waits, full, shut) valid goes_on =
    fails waits full shut
resume-Written others x xs (suc k) s (broken s₀) next (rest, waits, full, shut) valid goes_on =
    let some_bytes : ltb 0 (suc k) ≡ true = ground arith in
    rw some_bytes (cut_short waits full shut (omega arith))
resume-Written others x xs k s (WriteWait.asleep s') next (s₀, waits, full, same) valid goes_on =
    rw same (sleeps waits full)

write_loop-Written :
    (fuel : ℕ) (others : Others) (src : List ℕ) (k : ℕ) (s : Scene)
    → AllKeep others
    → IsValid s.pipe
    → length src ≤ fuel
    → Written others src k s (write_loop fuel others src k s)
unfolding write_loop
write_loop-Written fuel others [] k s keep v enough = all refl
write_loop-Written zero others (x ∷ xs) k s keep v enough = absurd (omega arith)
write_loop-Written (suc fuel) others (x ∷ xs) k s keep v enough =
    resume-Written others x xs k s (wait_room others s) _ (wait_room-Stops others s)
      (wait_room-Roomy others s keep v)
      λ rest s₀ keep' v' fits.
        write_loop-Written fuel rest (drop (chunk (x ∷ xs) s₀) (x ∷ xs)) (k + chunk (x ∷ xs) s₀)
          (write_chunk (x ∷ xs) s₀) keep' (write_chunk-IsValid (x ∷ xs) s₀ v')
          (omega (arith, length-drop {0} (chunk (x ∷ xs) s₀) (x ∷ xs)))

-- A blocking `pipe_write` on a pipe whose two ends are open, whatever others do to the pipe while
-- it waits, ends within its fuel. It goes on in rounds: it blocks, and others act, as long as the
-- pipe is full and its read end open, and then as many of the bytes left as there is room for
-- stand behind the pipe's bytes of that moment. It returns the number of all bytes when none is
-- left; or, when the read end is closed and the pipe full, the number of bytes written before, or
-- an error if there are none; or it sleeps on a full pipe when the others' steps end. The pipe is
-- valid after it.
pub write-Written :
    (others : Others) (src : List ℕ) (s : Scene)
    → AllKeep others
    → IsValid s.pipe
    → is_closed s.pipe read_open ≡ false
    → is_closed s.pipe write_open ≡ false
    → Wrote (length src) (write others false src s)
      × Written others src 0 s (write others false src s)
unfolding write
write-Written others src s keep v can_read can_write =
    (write-Wrote others src s keep v can_read can_write, rounds src)
  where
    rounds : (src : List ℕ) → Written others src 0 s (write others false src s)
    rounds [] = all refl
    rounds (x ∷ xs) =
        let some_bytes : (length (x ∷ xs) == 0) ≡ false = ground arith in
        rw (some_bytes, can_write, can_read)
          (write_loop-Written (length (x ∷ xs)) others (x ∷ xs) 0 s keep v (omega arith))
