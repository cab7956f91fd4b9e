-- ===== src/Kernel/Pmm/Tests.antt =====
-- Runs of the memory manager's code, and its theorems after a boot without a memory map.
use os_porting.Base.{
  ℕ, ◌+◌, ◌*◌, ◌/◌, ◌≡◌, ◌≢◌, ◌↔◌, refl, inl, inr, not, none, some, [], ◌∷◌, arith,
}
use os_porting.Kernel.Pmm.{
  Pmm, max_pages, page_size, bitmap_test, bitmap_set, set_bit, test_bit, find_loop, alloc_pages,
  free_pages, reserve_range, get_free_pages,
}
use os_porting.Kernel.Pmm.Inv.{Inv}
use os_porting.Kernel.Pmm.Alloc.{Allocates, alloc_pages-Allocates}
use os_porting.Kernel.Pmm.Free.{Freed, free_pages-Freed, free_pages-alloc_pages}
use os_porting.Kernel.Pmm.Reserve.{Reserved, reserve_range-Reserved}
use os_porting.Kernel.Pmm.Init.{BootInfo, boot_info_valid, init}
use os_porting.Kernel.Pmm.BootMap.{is_usable, init-Inv, init-is_usable, init-none, init-none_total}
use os_porting.Kernel.Pmm.Counts.{count_free, get_free_pages_iff}

abbrev before : Pmm
before = record { bitmap = []; total = 0; used = 0 }

-- 16 MB, the first of them reserved.
abbrev booted : Pmm
booted = (init none before).1

booted-Inv : Inv booted
booted-Inv = init-Inv none before

-- Bits 1, 2 and 4 to 7 are free: the first run of three starts at 4.
find_runs : find_loop 3 (0x09 ∷ 0x00 ∷ []) 16 0 0 0 ≡ some 4
unfolding find_loop bitmap_test test_bit
find_runs = refl

set_runs : bitmap_set (0 ∷ 0x81 ∷ []) 12 ≡ 0 ∷ 0x91 ∷ []
unfolding bitmap_set set_bit
set_runs = refl

alloc_pages-Allocates_example : Allocates 3 booted (alloc_pages 3 booted)
alloc_pages-Allocates_example = alloc_pages-Allocates 3 booted-Inv (omega arith)

one_page : (alloc_pages 1 booted).0 ≢ 0
one_page = elim (alloc_pages-Allocates 1 booted-Inv (omega arith)) [
  | inl (z, same, never) ↦ absurd (
      never 256 (omega (arith, init-none_total before))
        (λ page low high. init-none before page low (omega arith)))
  | inr (start, at, low, fits, free, first, marked) ↦ omega arith
]

free_pages-alloc_pages_example :
    let (addr, q) = alloc_pages 1 booted in
    let p' = free_pages addr 1 q in
    ((page : ℕ) → bitmap_test p'.bitmap page ≡ bitmap_test booted.bitmap page)
    × (p'.used ≡ booted.used)
    × (p'.total ≡ booted.total)
free_pages-alloc_pages_example = free_pages-alloc_pages 1 booted-Inv (omega arith) one_page

free_pages-Freed_example : Freed 300 4 booted (free_pages (300 * 4096) 4 booted)
free_pages-Freed_example = free_pages-Freed 4 300 booted-Inv (omega arith) (omega arith)

reserve_range-Reserved_example :
    Reserved
      (0x200100 / page_size)
      ((0x200100 + 0x2000 + 4095) / page_size)
      booted
      (reserve_range 0x200100 0x2000 booted)
reserve_range-Reserved_example =
    reserve_range-Reserved 0x200100 0x2000 booted-Inv (omega arith) (omega arith)

init-Inv_example : Inv (init none before).1
init-Inv_example = init-Inv none before

abbrev two_entries : BootInfo
two_entries = record {
  magic = 0xAAAB007;
  mem_map =
      record { base = 0; size = 0x9fc00; kind = 1 }
      ∷ record { base = 0x100000; size = 0x7f00800; kind = 1 }
      ∷ [];
}

init-is_usable_example :
    bitmap_test (init (some two_entries) before).1.bitmap 700
    ≡ not (is_usable two_entries.mem_map 700)
unfolding boot_info_valid
init-is_usable_example =
    init-is_usable two_entries before refl (omega arith) (omega arith) 700 (omega arith)

get_free_pages_iff_example :
    (get_free_pages booted ≡ count_free booted.bitmap) ↔ (booted.total ≡ max_pages)
get_free_pages_iff_example = get_free_pages_iff booted-Inv
