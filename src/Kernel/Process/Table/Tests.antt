-- ===== src/Kernel/Process/Table/Tests.antt =====
-- Runs with the idle process alone, and 15 pages of memory free.
use os_porting.Base.{◌≡◌, ◌==◌, refl, ℕ, false, none, some, [], ◌∷◌, if◌then◌else◌, arith}
use os_porting.Kernel.Process.{ProcState}
use os_porting.Kernel.Pmm.{
  test_bit, Pmm, alloc_pages, find_free_pages, find_loop, mark_loop, bitmap_test, bitmap_set,
}
use os_porting.Kernel.Process.Table.{Table, create, alloc_pcb, slot_loop, set_up, get_by_pid, blank}
use os_porting.Kernel.Process.Table.Exit.{exit}
use os_porting.Kernel.Process.Table.Ends.{Ended, IsAlone, exit-Ended}
use os_porting.Kernel.Process.Table.Begins.{IsFresh, Created, create-Created}

abbrev one : Table
one = record {
  procs = record {
    state = λ i. if i == 0 then ProcState.running else ProcState.invalid;
    current = some 0;
  };
  pcb = λ i. if i == 0 then record blank { pid = 1; stack_base = 0x1000 } else blank;
  next_pid = 2;
}

abbrev memory : Pmm
memory = record { bitmap = 1 ∷ 0 ∷ []; total = 16; used = 1 }

new_slot : (create false one memory).0 ≡ some 1
unfolding create alloc_pcb slot_loop set_up alloc_pages find_free_pages find_loop mark_loop
    bitmap_test bitmap_set test_bit
new_slot = refl

one-IsFresh : IsFresh one
one-IsFresh = record { nonzero = λ e. ground arith; unused = λ j lt. ground arith }

create-Created_example : Created one memory (create false one memory)
create-Created_example = create-Created one memory one-IsFresh

one-IsAlone : IsAlone 0 one
one-IsAlone = λ j lt ne. let apart : (j == 0) ≡ false = ground arith in rw apart refl

exit-Ended_example :
    let (t, q) = exit 7 one memory in
    Ended 0 one memory t q
    × ((pid : ℕ) → get_by_pid pid t ≡ (if pid == 1 then none else get_by_pid pid one))
exit-Ended_example = exit-Ended 7 0 one memory refl one-IsAlone
