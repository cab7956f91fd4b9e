-- ===== src/Kernel/Pmm/Counts.antt =====
-- `pmm_get_free_pages` against the number of free pages.
use os_porting.Base.{ℕ, ◌-◌, ◌≡◌, ◌↔◌, List, arith}
use os_porting.Kernel.Pmm.{Pmm, max_pages, get_free_pages}
use os_porting.Kernel.Pmm.Inv.{Inv, count_used, count_used-le}

-- How many pages the bitmap shows as free.
abbrev pub count_free : List ℕ → ℕ
count_free bitmap = max_pages - count_used max_pages bitmap

-- `used` counts the used pages of all 4 GB, also those past the end of memory. So
-- `pmm_get_free_pages` returns the number of free pages exactly when memory fills the 4 GB.
pub get_free_pages_iff :
    {p : Pmm} → Inv p → (get_free_pages p ≡ count_free p.bitmap) ↔ (p.total ≡ max_pages)
unfolding get_free_pages
get_free_pages_iff {p} v =
    let small = count_used-le max_pages p.bitmap in
    (λ e. omega (arith, v.counted, v.total_small), λ e. omega (arith, v.counted))
