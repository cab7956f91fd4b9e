-- ===== src/Kernel/Pipe/Close.antt =====
-- `pipe_close_fd`: reference counts, flags, waiting processes and the slot.
use os_porting.Base.{
  ℕ, ◌-◌, ◌≤◌, ◌<◌, ◌≡◌, ◌≢◌, inl, inr, refl, bit_and, Bool, true, false, ◌&&◌, arith, ltb, ◌==◌,
  Bool-cases, holds_below, holds_below-at, ==_iff,
}
use os_porting.Kernel.Process.{Procs}
use os_porting.Kernel.WaitQueue.Fifo.{waiting, ready_all, wake_all-Woken}
use os_porting.Kernel.Pipe.{Pipe, read_open, write_open, is_closed}
use os_porting.Kernel.Pipe.Table.{clear_flag, drop_reader, drop_writer, release, close_end}
use os_porting.Kernel.Pipe.Contract.{IsValid}

-- What clearing one of the two flags does to flags below 4.
clear_table :
    holds_below 4 (λ f.
      (bit_and (clear_flag f 1) 1 == 0)
      && ((bit_and (clear_flag f 1) 2 == bit_and f 2)
          && (ltb (clear_flag f 1) 4
              && ((bit_and (clear_flag f 2) 2 == 0)
                  && ((bit_and (clear_flag f 2) 1 == bit_and f 1) && ltb (clear_flag f 2) 4)))))
    ≡ true
unfolding holds_below
clear_table = refl

pub clear_flag_lem :
    (f : ℕ)
    → f < 4
    → (bit_and (clear_flag f 1) 1 ≡ 0)
      × (bit_and (clear_flag f 1) 2 ≡ bit_and f 2)
      × (clear_flag f 1 < 4)
      × (bit_and (clear_flag f 2) 2 ≡ 0)
      × (bit_and (clear_flag f 2) 1 ≡ bit_and f 1)
      × (clear_flag f 2 < 4)
clear_flag_lem f h = ground (arith, holds_below-at 4 _ f h clear_table)

keep_table : holds_below 4 (λ f. bit_and f 3 == f) ≡ true
unfolding holds_below
keep_table = refl

keep_flags : (f : ℕ) → f < 4 → bit_and f 3 ≡ f
keep_flags f h = (==_iff _ f).0 (holds_below-at 4 _ f h keep_table)

-- Giving a slot back changes its id at most: its flags are 0 then already.
release-flags : (p : Pipe) → p.flags < 4 → (release p).flags ≡ p.flags
unfolding release
release-flags p h = ground (arith, keep_flags p.flags h)

release-IsValid : {p : Pipe} → IsValid p → IsValid (release p)
unfolding release
release-IsValid {p} v = elim (Bool-cases (bit_and p.flags 3 == 0)) [
  | inl both ↦ rw both (record {
    ring = record {
      sized = v.ring.sized;
      read_in = v.ring.read_in;
      write_at = v.ring.write_at;
      bounded = v.ring.bounded;
    };
    flags_small = omega arith;
    readers_queue = v.readers_queue;
    writers_queue = v.writers_queue;
  })
  | inr open_end ↦ rw open_end v
]

module _ {p : Pipe} (ps : Procs) (v : IsValid p) where
  drop_reader-IsValid : IsValid (drop_reader p ps).0
  unfolding drop_reader
  drop_reader-IsValid =
      ground (arith, (wake_all-Woken ps v.writers_queue).2, clear_flag_lem p.flags v.flags_small)

  drop_writer-IsValid : IsValid (drop_writer p ps).0
  unfolding drop_writer
  drop_writer-IsValid =
      ground (arith, (wake_all-Woken ps v.readers_queue).2, clear_flag_lem p.flags v.flags_small)

  -- `pipe_close_fd` keeps the pipe valid.
  pub close_end-IsValid : (is_read : Bool) → IsValid (close_end is_read p ps).0
  unfolding close_end
  close_end-IsValid true = release-IsValid drop_reader-IsValid
  close_end-IsValid false = release-IsValid drop_writer-IsValid

  -- The end `shut` is closed, and the other one is as it was.
  abbrev Shut : ℕ → ℕ → Pipe × Procs → Type 0
  Shut shut other (p', ps') = (is_closed p' shut ≡ true) × (is_closed p' other ≡ is_closed p other)

  closes_reader :
      p.readers ≤ 1
      → Shut read_open write_open (drop_reader p ps)
        × ((drop_reader p ps).0.flags < 4)
        × ((drop_reader p ps).0.readers ≡ 0)
        × ((drop_reader p ps).0.write_waiters.count ≡ 0)
        × ((drop_reader p ps).1 ≡ ready_all ps (waiting p.write_waiters))
  unfolding drop_reader
  closes_reader h =
      ground (arith, wake_all-Woken ps v.writers_queue, clear_flag_lem p.flags v.flags_small)

  closes_writer :
      p.writers ≤ 1
      → Shut write_open read_open (drop_writer p ps)
        × ((drop_writer p ps).0.flags < 4)
        × ((drop_writer p ps).0.writers ≡ 0)
        × ((drop_writer p ps).0.read_waiters.count ≡ 0)
        × ((drop_writer p ps).1 ≡ ready_all ps (waiting p.read_waiters))
  unfolding drop_writer
  closes_writer h =
      ground (arith, wake_all-Woken ps v.readers_queue, clear_flag_lem p.flags v.flags_small)

  -- Closing the last reference to the read end of a valid pipe closes that end alone, makes every
  -- waiting writer ready in the order of waiting, leaves no writer in the queue, and keeps the pipe
  -- valid.
  pub close_end-last_reader :
      p.readers ≤ 1
      → let (p', ps') = close_end true p ps in
        (is_closed p' read_open ≡ true)
        × (is_closed p' write_open ≡ is_closed p write_open)
        × (p'.write_waiters.count ≡ 0)
        × (ps' ≡ ready_all ps (waiting p.write_waiters))
        × IsValid p'
  unfolding close_end release
  close_end-last_reader h =
      ground (arith, closes_reader h, close_end-IsValid true, keep_flags (drop_reader p ps).0.flags)

  -- Closing the last reference to the write end closes that end alone, makes every waiting reader
  -- ready in the order of waiting, leaves no reader in the queue, and keeps the pipe valid.
  pub close_end-last_writer :
      p.writers ≤ 1
      → let (p', ps') = close_end false p ps in
        (is_closed p' write_open ≡ true)
        × (is_closed p' read_open ≡ is_closed p read_open)
        × (p'.read_waiters.count ≡ 0)
        × (ps' ≡ ready_all ps (waiting p.read_waiters))
        × IsValid p'
  unfolding close_end release
  close_end-last_writer h =
      ground
        (arith, closes_writer h, close_end-IsValid false, keep_flags (drop_writer p ps).0.flags)

  -- While other references are left, a close only counts one down.
  pub close_end-more :
      1 < p.readers → p.flags ≢ 0 → close_end true p ps ≡ (record p { readers = p.readers - 1 }, ps)
  unfolding close_end release drop_reader
  close_end-more more used = ground (arith, keep_flags p.flags v.flags_small)
