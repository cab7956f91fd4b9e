-- ===== src/Kernel/Heap/Tests.antt =====
-- Runs of the allocator's code, and its theorems on a heap of 16 pages.
use os_porting.Base.{
  ◌≤◌, ℕ, ◌+◌, ◌-◌, ◌^◌, ◌≡◌, refl, arith, false, Option, none, some, [], ◌∷◌, ◌>>=◌, Yields,
}
use os_porting.Kernel.Pmm.{Pmm}
use os_porting.Kernel.Pmm.Init.{init}
use os_porting.Kernel.Pmm.Inv.{Inv as PmmInv}
use os_porting.Kernel.Pmm.BootMap.{init-Inv}
use os_porting.Kernel.Heap.{
  Heap, Stats, block_get_size, block_is_used, block_set_used, block_set_free, align_size,
  block_get_next_physical, relink, free_list_add, free_list_remove, coalesce_blocks,
  find_free_block, split_block, cut,
}
use os_porting.Kernel.Heap.Frees.{add, remove, insertion_point, find_before}
use os_porting.Kernel.Heap.Calls.{set_up, kmalloc, kfree, hand_out, give_back}
use os_porting.Kernel.Heap.More.{heap_validate, magic_fits, krealloc}
use os_porting.Kernel.Heap.Frees.Chain.{Chain}
use os_porting.Kernel.Heap.Apart.{IsApart}
use os_porting.Kernel.Heap.Rows.{used-Becomes, cut-Becomes}
use os_porting.Kernel.Heap.Split.{cut_tile}
use os_porting.Kernel.Heap.Resize.{krealloc-InPlace}
use os_porting.Kernel.Heap.Tiles.{used, free, frees, total}
use os_porting.Kernel.Heap.Search.{TooSmall}
use os_porting.Kernel.Heap.Inv.{Inv}
use os_porting.Kernel.Heap.Begin.{set_up-Inv}
use os_porting.Kernel.Heap.Malloc.{Allocated, block_for, kmalloc-Allocated}
use os_porting.Kernel.Heap.Release.{kfree-Freed}
use os_porting.Kernel.Heap.Trip.{Is, kfree-kmalloc}
use os_porting.Kernel.Heap.Validate.{heap_validate-false}
use os_porting.Kernel.Heap.Twice.{kfree-kfree}

abbrev no_pages : Pmm
no_pages = record { bitmap = []; total = 0; used = 0 }

abbrev booted : Pmm
booted = (init none no_pages).1

booted-Inv : PmmInv booted
booted-Inv = init-Inv none no_pages

abbrev no_stats : Stats
no_stats = record {
  total_size = 0;
  used_size = 0;
  free_size = 0;
  block_count = 0;
  alloc_count = 0;
  free_count = 0;
  expand_count = 0;
}

-- The heap before `heap_init`; all of memory is zero.
abbrev unset : Heap
unset = record {
  start = 0;
  end = 0;
  max = 0;
  initialized = false;
  blocks = record { size = λ a. 0; prev = λ a. none; magic = λ a. 0; flags = λ a. 0 };
  free = record { head = none; next = λ a. none; count = 0 };
  stats = no_stats;
  bytes = λ a. 0;
  pmm = booted;
}

-- 16 pages from the first megabyte on, and one page.
abbrev sample : Heap
sample = set_up (2 ^ 20) 65536 unset

abbrev one_page : Heap
one_page = set_up (2 ^ 20) 4096 unset

sample-Inv : Inv sample (free 65536 ∷ [])
sample-Inv =
    set_up-Inv unset booted (2 ^ 20) 65536 refl (omega arith) (omega arith) refl (omega arith)
      (omega arith)

kmalloc-Allocated_example :
    Yields (Allocated sample (free 65536 ∷ []) (block_for 100)) (kmalloc 100 sample)
kmalloc-Allocated_example =
    kmalloc-Allocated 100 sample (free 65536 ∷ []) sample-Inv booted-Inv (omega arith) (omega arith)

enough : ¬ TooSmall (block_for 100) (free 65536 ∷ [])
unfolding TooSmall align_size
enough (h, t) = omega arith

kfree-kmalloc_example :
    Yields (Is sample (free 65536 ∷ [])) (kmalloc 100 sample >>= λ r. kfree (r.0) (r.1))
kfree-kmalloc_example =
    kfree-kmalloc 100 sample (free 65536 ∷ []) sample-Inv booted-Inv (omega arith) (omega arith)
      enough

nothing_at_null : magic_fits 0 sample.blocks ≡ false
unfolding block_is_used block_set_free
nothing_at_null = refl

heap_validate-false_example : heap_validate sample ≡ false
heap_validate-false_example =
    heap_validate-false sample (free 65536 ∷ []) sample-Inv nothing_at_null

abbrev answer : Option (Option ℕ × Heap) → Option ℕ
answer none = none
answer (some (p, h)) = p

abbrev heap_of : Heap → Option (Option ℕ × Heap) → Heap
heap_of d none = d
heap_of d (some (p, h)) = h

abbrev or_else : Heap → Option Heap → Heap
or_else d none = d
or_else d (some h) = h

-- The first block is cut off the front.
first_runs : answer (kmalloc 100 sample) ≡ some (2 ^ 20 + 32)
unfolding kmalloc align_size find_free_block block_get_size hand_out free_list_remove remove
    split_block relink block_get_next_physical free_list_add add insertion_point block_set_free
    block_set_used
first_runs = refl

-- All of a page: the free bytes wrap below zero.
counter_runs : (heap_of one_page (kmalloc 4064 one_page)).stats.free_size ≡ 2 ^ 64 - 32
unfolding kmalloc align_size find_free_block block_get_size hand_out free_list_remove remove
    split_block relink block_get_next_physical free_list_add add insertion_point block_set_free
    block_set_used
counter_runs = refl

-- Two blocks merged into one are still counted as two.
block_count_runs :
    (or_else sample (kmalloc 100 sample >>= λ r. kfree (r.0) (r.1))).stats.block_count ≡ 2
unfolding kmalloc kfree give_back coalesce_blocks align_size find_free_block block_get_size hand_out
    free_list_remove remove split_block relink block_get_next_physical free_list_add add
    insertion_point find_before block_set_free block_set_used block_is_used
block_count_runs = refl

-- One block in use over the whole heap.
abbrev full : Heap
full = record sample {
  blocks = block_set_used (2 ^ 20) sample.blocks;
  free = record (sample.free) { head = none; count = 0 };
}

full-Inv : Inv full (used 65536 ∷ [])
unfolding frees Chain IsApart
full-Inv = record {
  ready = refl;
  row = (used-Becomes (2 ^ 20) (free 65536) sample-Inv.row).row;
  list = record { chain = refl; counted = refl };
  apart = tt;
  round = refl;
  low = omega arith;
  some_room = omega arith;
  limit = omega arith;
  physical = omega arith;
}

kfree-Freed_example : Yields (Is full (free 65536 ∷ [])) (kfree (some (2 ^ 20 + 32)) full)
unfolding total
kfree-Freed_example = kfree-Freed full [] [] 65536 full-Inv

kfree-kfree_example :
    Yields
      (λ h'. Inv h' (free 65536 ∷ []) × (kfree (some (2 ^ 20 + 32)) h' ≡ some h'))
      (kfree (some (2 ^ 20 + 32)) full)
unfolding total
kfree-kfree_example = kfree-kfree full [] [] 65536 full-Inv

-- A block of 64 bytes in use, and the rest free.
abbrev parted : Heap
parted = record sample {
  blocks =
      block_set_used (2 ^ 20) (cut (2 ^ 20 + 65536) (2 ^ 20 + 64) (2 ^ 20) 64 65472 sample.blocks);
  free = record { head = some (2 ^ 20 + 64); next = λ a. none; count = 1 };
}

parted-Inv : Inv parted (used 64 ∷ free 65472 ∷ [])
unfolding frees Chain IsApart
parted-Inv =
    let halves =
      cut-Becomes (2 ^ 20) 64 65472 (free 65536) (omega arith) refl refl (omega arith) (omega arith)
        sample-Inv.row in
    record {
      ready = refl;
      row = (used-Becomes (2 ^ 20) (free 64) halves.row).row;
      list = record { chain = (refl, refl); counted = refl };
      apart = (refl, tt);
      round = refl;
      low = omega arith;
      some_room = omega arith;
      limit = omega arith;
      physical = omega arith;
    }

block_fits : block_for 100 ≤ 65536
unfolding align_size
block_fits = omega arith

krealloc-InPlace_example :
    Yields
      (λ r. (r.0 ≡ some (2 ^ 20 + 32)) × Is parted (cut_tile (used 65536) (block_for 100) []) (r.1))
      (krealloc (some (2 ^ 20 + 32)) 100 parted)
unfolding total
krealloc-InPlace_example =
    krealloc-InPlace parted [] [] 64 65472 100 parted-Inv (omega arith) (omega arith) block_fits
