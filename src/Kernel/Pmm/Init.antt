-- ===== src/Kernel/Pmm/Init.antt =====
-- `pmm_init`: the memory map of the boot loader (kernel/include/boot.h) becomes the bitmap.
use os_porting.Base.{
  ℕ, zero, suc, ◌+◌, ◌-◌, ◌/◌, ◌^◌, min, Bool, false, not, ◌||◌, Option, none, some, List, [], ◌∷◌,
  ltb, leb, ◌==◌, if◌then◌else◌, length, replicate,
}
use os_porting.Kernel.Pmm.{
  Pmm, max_memory, max_pages, bitmap_size, u64, bitmap_test, release_page, align_up, align_down,
  get_free_pages,
}

-- `memory_map_entry_t`, less the attributes that nothing reads.
pub record Entry : Type 0 where
  pub base : ℕ
  pub size : ℕ
  pub kind : ℕ

-- `boot_info_t`: the magic number, and the array at `mem_map_addr` of `mem_map_count` entries.
pub record BootInfo : Type 0 where
  pub magic : ℕ
  pub mem_map : List Entry

-- `BOOT_MAGIC` and `MEMORY_TYPE_USABLE`
abbrev pub boot_magic : ℕ
boot_magic = 0xAAAB007

abbrev pub usable : ℕ
usable = 1

-- `boot_info_valid`
unfoldable pub boot_info_valid : Option BootInfo → Bool
boot_info_valid none = false
boot_info_valid (some info) = info.magic == boot_magic

-- All memory is marked as used.
unfoldable pub all_used : List ℕ
all_used = replicate bitmap_size 0xFF

-- The loop without a memory map, over `n` pages from `page` on.
unfoldable pub default_loop : ℕ → ℕ → Pmm → Pmm
default_loop zero page p = p
default_loop (suc n) page p =
    let rest = default_loop n (page + 1) (release_page page p) in
    if ltb page max_pages then rest else p

-- The loop over the `n` pages of an entry from `page` on.
unfoldable pub entry_loop : ℕ → ℕ → Pmm → Pmm
entry_loop zero page p = p
entry_loop (suc n) page p =
    let rest = entry_loop n (page + 1) (release_page page p) in
    let skip = entry_loop n (page + 1) p in if bitmap_test p.bitmap page then rest else skip

abbrev pub low_memory : ℕ
low_memory = 0x100000

-- The addresses of a usable entry, rounded inwards to pages, become free: the first megabyte and
-- what lies past the supported memory are left out.
unfoldable pub open_range : ℕ → ℕ → Pmm → Pmm
open_range start end p =
    let start' = if ltb start low_memory then low_memory else start in
    let end' = if ltb max_memory end then max_memory else end in
    if leb end start
    then p
    else if leb end start'
    then p
    else entry_loop (end' / 2 ^ 12 - start' / 2 ^ 12) (start' / 2 ^ 12) p

unfoldable pub add_usable : Entry → Pmm → Pmm
add_usable e p = open_range (align_up e.base) (align_down (u64 (e.base + e.size))) p

abbrev pub add_entry : Entry → Pmm → Pmm
add_entry e p = if e.kind == usable then add_usable e p else p

-- The loop over the memory map, which also keeps the highest end of an entry.
unfoldable pub map_loop : List Entry → ℕ → Pmm → ℕ × Pmm
map_loop [] highest p = (highest, p)
map_loop (e ∷ es) highest p =
    let end = u64 (e.base + e.size) in
    map_loop es (if ltb highest end then end else highest) (add_entry e p)

-- The state before the map is read; `total` is what it was.
abbrev pub cleared : Pmm → Pmm
cleared p = record p { bitmap = all_used; used = max_pages }

unfoldable pub init_default : Pmm → Pmm
init_default p =
    record (default_loop (0x1000000 / 2 ^ 12 - 0x100000 / 2 ^ 12) (0x100000 / 2 ^ 12) (cleared p)) {
      total = 0x1000000 / 2 ^ 12;
    }

unfoldable pub init_map : List Entry → Pmm → Pmm
init_map es p =
    let (highest, q) = map_loop es 0 (cleared p) in
    record q { total = min highest max_memory / 2 ^ 12 }

abbrev pub entries_of : Option BootInfo → List Entry
entries_of none = []
entries_of (some info) = info.mem_map

-- `pmm_init`: the number that it returns, and the state.
unfoldable pub init : Option BootInfo → Pmm → ℕ × Pmm
init boot p =
    let q =
      if not (boot_info_valid boot) || length (entries_of boot) == 0
      then init_default p
      else init_map (entries_of boot) p in
    (get_free_pages q, q)
