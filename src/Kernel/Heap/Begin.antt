-- ===== src/Kernel/Heap/Begin.antt =====
-- `heap_init` establishes the invariant.
use os_porting.Base.{
  ℕ, ◌+◌, ◌/◌, ◌%◌, ◌^◌, ◌≤◌, ◌<◌, ◌≡◌, ◌⊎◌, refl, arith, Bool, true, false, max, none, [], ◌∷◌,
  put_self,
}
use os_porting.Kernel.Pmm.{Pmm, align_up, page_size}
use os_porting.Kernel.Pmm.Search.{FreeRun}
use os_porting.Kernel.Pmm.Inv.{Inv as PmmInv}
use os_porting.Kernel.Heap.{Heap, heap_max_size}
use os_porting.Kernel.Heap.Calls.{set_up, cleared_to}
use os_porting.Kernel.Heap.Frees.{u64}
use os_porting.Kernel.Heap.Frees.Chain.{Chain}
use os_porting.Kernel.Heap.Tiles.{free, done, tile, frees}
use os_porting.Kernel.Heap.Edits.{Header-new}
use os_porting.Kernel.Heap.Apart.{IsApart}
use os_porting.Kernel.Heap.Inv.{Inv}

-- What `heap_init` makes of a heap that is not initialized: nothing on failure, and then no run of
-- that many pages is free; on success one free block over the whole heap, whose payload behind the
-- header is zero.
abbrev pub asked_for : ℕ → ℕ
asked_for initial_size = max (align_up initial_size) page_size

abbrev pub Begins : Heap → ℕ → Bool × Heap → Type 0
Begins h size (ok, h') =
    ((ok ≡ false)
      × (h' ≡ h)
      × ((s : ℕ)
          → s + size / page_size ≤ h.pmm.total
          → ¬ FreeRun h.pmm.bitmap s (size / page_size)))
    ⊎ ((ok ≡ true)
        × Inv h' (free size ∷ [])
        × (h'.end ≡ h'.start + size)
        × ((a : ℕ) → h'.start + 32 ≤ a → a < h'.end → h'.bytes a ≡ 0))

pub set_up-Inv :
    (h : Heap) (q : Pmm) (start size : ℕ)
    → start % 4096 ≡ 0
    → 0 < start
    → start < 2 ^ 32
    → size % 4096 ≡ 0
    → 64 ≤ size
    → size ≤ 2 ^ 24
    → Inv (set_up start size (record h { pmm = q })) (free size ∷ [])
unfolding frees Chain IsApart
set_up-Inv h q start size round low small whole some_room limit =
    let end : u64 (start + size) ≡ start + size = omega arith in
    let top : u64 (start + heap_max_size) ≡ start + heap_max_size = omega arith in
    rw (end, top)
      (record {
        ready = refl;
        row = tile (Header-new _ none start size (omega arith) some_room) (done refl);
        list = record {
          chain = (refl, put_self (cleared_to start size none h.free.next) start none);
          counted = refl;
        };
        apart = (refl, tt);
        round = omega arith;
        low = low;
        some_room = omega arith;
        limit = omega arith;
        physical = omega arith;
      })
