-- ===== src/Kernel/Pipe/Crowding.antt =====
-- A reader that waits in `pipe_read` queues itself again in every round.
use os_porting.Base.{
  ℕ, zero, suc, ◌+◌, ◌-◌, ◌≤◌, ◌<◌, min, ◌≡◌, sym, ap, ◌∙◌, inl, inr, false, Option, some, ◌∷◌,
  ◌++◌, append-nil, append_assoc, arith, ltb, Bool-cases, replicate,
}
use os_porting.Kernel.Process.{Procs, set_state}
use os_porting.Kernel.WaitQueue.{WaitQueue, max_waiters, enqueue, block}
use os_porting.Kernel.WaitQueue.Fifo.{waiting, waiting-enqueue, block-IsValid}
use os_porting.Kernel.WaitQueue.Fifo as Queue
use os_porting.Kernel.Pipe.{Scene, write_open, is_closed}
use os_porting.Kernel.Pipe.Blocking.{block_reader, ReadWait, wait_bytes}

-- Process `p` runs, and waits for bytes of an empty pipe that can still be written.
pub record Waits (p : ℕ) (s : Scene) : Type 0 where
  pub runs : s.procs.current ≡ some p
  pub empty : s.pipe.count ≡ 0
  pub open_end : is_closed s.pipe write_open ≡ false
  pub queue : Queue.IsValid s.pipe.read_waiters

current-block : (q : WaitQueue) (ps : Procs) → (block q ps).1.current ≡ ps.current
unfolding block set_state
current-block q ps = ground arith

block_reader-Waits : {p : ℕ} {s : Scene} → Waits p s → Waits p (block_reader s)
unfolding block_reader
block_reader-Waits {s} w = record {
  runs = current-block s.pipe.read_waiters s.procs ∙ w.runs;
  empty = w.empty;
  open_end = w.open_end;
  queue = block-IsValid s.procs w.queue;
}

module _ (p : ℕ) (q : WaitQueue) (ps : Procs) (e : ps.current ≡ some p) where
  block_room : q.count < max_waiters → (block q ps).0 ≡ enqueue q p
  unfolding block
  block_room h = ground arith

  block_full : max_waiters ≤ q.count → (block q ps).0 ≡ q
  unfolding block
  block_full h = ground arith

  count-block :
      Queue.IsValid q
      → max_waiters - q.count ≡ min 1 (max_waiters - q.count) + (max_waiters - (block q ps).0.count)
  unfolding block enqueue
  count-block v = ground arith

  -- A round of waiting puts the process behind the others while a slot is left.
  waiting-block :
      Queue.IsValid q
      → waiting (block q ps).0 ≡ waiting q ++ replicate (min 1 (max_waiters - q.count)) (some p)
  waiting-block v = elim (Bool-cases (ltb q.count max_waiters)) [
    | inl room ↦
        let lt : q.count < max_waiters = ground arith in
        let one : min 1 (max_waiters - q.count) ≡ suc zero = omega arith in
        rw (block_room lt, one) (waiting-enqueue p v lt)
    | inr full ↦
        let le : max_waiters ≤ q.count = ground arith in
        let none_left : min 1 (max_waiters - q.count) ≡ zero = omega arith in
        rw (block_full le, none_left) (sym (append-nil (waiting q)))
  ]

replicate-add : (m n : ℕ) (v : Option ℕ) → replicate m v ++ replicate n v ≡ replicate (m + n) v
replicate-add zero n v = ap (λ k. replicate k v) (omega arith)
replicate-add (suc m) n v =
    let shape : suc (m + n) ≡ suc m + n = omega arith in
    ap (λ r. v ∷ r) (replicate-add m n v) ∙ ap (λ k. replicate k v) shape

-- A process that waits alone in `pipe_read` for `n + 1` rounds is still asleep then, and stands in
-- the queue of waiting readers `n + 1` times behind those that waited before, or as often as there
-- were free slots.
pub wait_bytes_alone :
    (n p : ℕ) (s : Scene)
    → Waits p s
    → (t : Scene) × (wait_bytes (replicate n (λ u. u)) s ≡ ReadWait.asleep t)
      × (waiting t.pipe.read_waiters
          ≡ waiting s.pipe.read_waiters
            ++ replicate (min (n + 1) (max_waiters - s.pipe.read_waiters.count)) (some p))
unfolding wait_bytes block_reader
wait_bytes_alone zero p s w =
    (block_reader s, ground (arith, w), waiting-block p s.pipe.read_waiters s.procs w.runs w.queue)
wait_bytes_alone (suc n) p s w =
    let q = s.pipe.read_waiters in
    let q' = (block q s.procs).0 in
    let m = min 1 (max_waiters - q.count) in
    let k = min (n + 1) (max_waiters - q'.count) in
    let total : m + k ≡ min (suc n + 1) (max_waiters - q.count) =
      omega (arith, count-block p q s.procs w.runs w.queue) in
    let joined =
      ap (λ x. x ++ replicate k (some p)) (waiting-block p q s.procs w.runs w.queue)
      ∙ append_assoc (waiting q) (replicate m (some p)) (replicate k (some p))
      ∙ ap (λ x. waiting q ++ x)
          (replicate-add m k (some p) ∙ ap (λ i. replicate i (some p)) total) in
    let (t, sleeps, stands) = wait_bytes_alone n p (block_reader s) (block_reader-Waits w) in
    (t, ground (arith, w, sleeps), stands ∙ joined)
