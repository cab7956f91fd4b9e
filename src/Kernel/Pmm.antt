-- ===== src/Kernel/Pmm.antt =====
-- kernel/mm/pmm.c: the page bitmap, its counters, and every call of the physical memory manager.
-- A call runs under `pmm_lock`, so it is one function. The messages that are printed are left out.
pub mod Bits
pub mod Inv
pub mod Search
pub mod Alloc
pub mod Free
pub mod Reserve
pub mod Init
pub mod Boot
pub mod BootMap
pub mod Counts
mod Tests
use os_porting.Base.{
  ℕ, zero, suc, ◌+◌, ◌-◌, ◌*◌, ◌/◌, ◌%◌, ◌^◌, min, bit_and, bit_or, Bool, true, false, not, Option,
  none, some, List, [], ◌∷◌, ltb, leb, ◌==◌, if◌then◌else◌, get_or, set, replicate,
}

abbrev pub page_size : ℕ
page_size = 4096

-- `PMM_MAX_MEMORY`, `PMM_MAX_PAGES` and `PMM_BITMAP_SIZE`
abbrev pub max_memory : ℕ
max_memory = 2 ^ 32

abbrev pub max_pages : ℕ
max_pages = 2 ^ 20

abbrev pub bitmap_size : ℕ
bitmap_size = 2 ^ 17

abbrev pub u64 : ℕ → ℕ
u64 n = n % 2 ^ 64

-- The static state: the bitmap's bytes and the two counters.
pub record Pmm : Type 0 where
  pub bitmap : List ℕ
  pub total : ℕ
  pub used : ℕ

-- One byte of the bitmap, at bit `k`: `|= 1 << k`, `&= ~(1 << k)` and the test.
unfoldable pub set_bit : ℕ → ℕ → ℕ
set_bit b k = bit_or b (2 ^ k) % 2 ^ 8

unfoldable pub clear_bit : ℕ → ℕ → ℕ
clear_bit b k = bit_and b (2 ^ 32 - 1 - 2 ^ k) % 2 ^ 8

unfoldable pub test_bit : ℕ → ℕ → Bool
test_bit b k = not (bit_and b (2 ^ k) == 0)

unfoldable pub bitmap_set : List ℕ → ℕ → List ℕ
bitmap_set bitmap bit = set bitmap (bit / 8) (set_bit (get_or bitmap (bit / 8) 0) (bit % 8))

unfoldable pub bitmap_clear : List ℕ → ℕ → List ℕ
bitmap_clear bitmap bit = set bitmap (bit / 8) (clear_bit (get_or bitmap (bit / 8) 0) (bit % 8))

unfoldable pub bitmap_test : List ℕ → ℕ → Bool
bitmap_test bitmap bit = test_bit (get_or bitmap (bit / 8) 0) (bit % 8)

-- The loop of `find_free_pages`: the rounds left, `i`, `consecutive` and `start`.
module _ (count : ℕ) (bitmap : List ℕ) where
  unfoldable pub find_loop : ℕ → ℕ → ℕ → ℕ → Option ℕ
  find_loop zero i run start = none
  find_loop (suc n) i run start =
      let first = if run == 0 then i else start in
      let skip = find_loop n (i + 1) 0 start in
      let next = find_loop n (i + 1) (run + 1) first in
      if bitmap_test bitmap i then skip else if leb count (run + 1) then some first else next

-- `none` is `SIZE_MAX`.
unfoldable pub find_free_pages : ℕ → Pmm → Option ℕ
find_free_pages count p = find_loop count p.bitmap p.total 0 0 0

-- The loop that marks `n` pages from `page` on as used.
unfoldable pub mark_loop : ℕ → ℕ → Pmm → Pmm
mark_loop zero page p = p
mark_loop (suc n) page p =
    mark_loop n (page + 1) (record p { bitmap = bitmap_set p.bitmap page; used = u64 (p.used + 1) })

-- `pmm_alloc_pages`: the address and the new state; 0 is failure.
unfoldable pub alloc_pages : ℕ → Pmm → ℕ × Pmm
alloc_pages count p = if count == 0 then (0, p) else elim (find_free_pages count p) [
  | none ↦ (0, p)
  | some start ↦ (u64 (start * 2 ^ 12), mark_loop count start p)
]

-- A used page becomes free; `used` is a `size_t`.
abbrev pub release_page : ℕ → Pmm → Pmm
release_page page p = record p {
  bitmap = bitmap_clear p.bitmap page;
  used = u64 (p.used + 2 ^ 64 - 1);
}

-- The loop of `pmm_free_pages`: it stops at the end of memory, and passes over pages that are free.
unfoldable pub free_loop : ℕ → ℕ → Pmm → Pmm
free_loop zero page p = p
free_loop (suc n) page p =
    let skip = free_loop n (page + 1) p in
    let rest = free_loop n (page + 1) (release_page page p) in
    if leb p.total page then p else if bitmap_test p.bitmap page then rest else skip

abbrev pub is_aligned : ℕ → Bool
is_aligned addr = addr % page_size == 0

-- `pmm_free_pages`
unfoldable pub free_pages : ℕ → ℕ → Pmm → Pmm
free_pages addr count p =
    if addr == 0
    then p
    else if count == 0
    then p
    else if is_aligned addr
    then free_loop count (addr / 2 ^ 12) p
    else p

-- `pmm_get_total_pages`, `pmm_get_used_pages` and `pmm_get_free_pages`
unfoldable pub get_total_pages : Pmm → ℕ
get_total_pages p = p.total

unfoldable pub get_used_pages : Pmm → ℕ
get_used_pages p = p.used

unfoldable pub get_free_pages : Pmm → ℕ
get_free_pages p = u64 (p.total + 2 ^ 64 - p.used)

-- `pmm_is_page_free`
unfoldable pub is_page_free : ℕ → Pmm → Bool
is_page_free addr p =
    if is_aligned addr
    then (if leb p.total (addr / 2 ^ 12) then false else not (bitmap_test p.bitmap (addr / 2 ^ 12)))
    else false

-- `ALIGN_DOWN` and `ALIGN_UP` to a page, on 64 bits.
abbrev pub align_down : ℕ → ℕ
align_down x = x / page_size * page_size

abbrev pub align_up : ℕ → ℕ
align_up x = align_down (u64 (x + (page_size - 1)))

-- The loop of `pmm_reserve_range`, with fuel: `addr` goes up to `end` page by page, and the loop
-- stops at the end of memory.
unfoldable pub reserve_loop : ℕ → ℕ → ℕ → Pmm → Option Pmm
reserve_loop zero addr end p = none
reserve_loop (suc fuel) addr end p =
    let page = addr / 2 ^ 12 in
    let next = u64 (addr + page_size) in
    let skip = reserve_loop fuel next end p in
    let rest =
      reserve_loop fuel next end
        (record p { bitmap = bitmap_set p.bitmap page; used = u64 (p.used + 1) }) in
    if ltb addr end
    then (if leb p.total page then some p else if bitmap_test p.bitmap page then skip else rest)
    else some p

-- `pmm_reserve_range`. A round moves on by a page and ends with memory.
unfoldable pub reserve_range : ℕ → ℕ → Pmm → Option Pmm
reserve_range addr size p =
    if size == 0
    then some p
    else reserve_loop (p.total + 1) (align_down addr) (align_up (u64 (addr + size))) p
