-- ===== src/Kernel/Pmm/Inv.antt =====
-- The invariant of the physical memory manager, and what marking and releasing pages does to it.
use os_porting.Base.{
  ℕ, zero, suc, ◌+◌, ◌≤◌, ◌<◌, ◌≡◌, ◌∙◌, true, false, not, ◌&&◌, ◌||◌, List, arith, ltb, ◌==◌,
  if◌then◌else◌, length,
}
use os_porting.Kernel.Pmm.{
  Pmm, max_pages, bitmap_size, u64, bitmap_set, bitmap_clear, bitmap_test, release_page,
}
use os_porting.Kernel.Pmm.Bits.{
  AreBytes, test-set, test-clear, bitmap_set-AreBytes, bitmap_clear-AreBytes, length-bitmap_set,
  length-bitmap_clear,
}

-- How many of the first `n` pages are used.
unfoldable pub count_used : ℕ → List ℕ → ℕ
count_used zero bitmap = 0
count_used (suc n) bitmap = (if bitmap_test bitmap n then 1 else 0) + count_used n bitmap

pub count_used-le : (n : ℕ) (bitmap : List ℕ) → count_used n bitmap ≤ n
unfolding count_used
count_used-le zero bitmap = omega arith
count_used-le (suc n) bitmap = ground (arith, count_used-le n bitmap)

-- The bitmap has a bit for each of the 2^20 pages.
pub record IsBitmap (bitmap : List ℕ) : Type 0 where
  pub sized : length bitmap ≡ bitmap_size
  pub bytes : AreBytes bitmap

pub test-bitmap_set :
    {bitmap : List ℕ} (i j : ℕ)
    → IsBitmap bitmap
    → i < max_pages
    → bitmap_test (bitmap_set bitmap i) j ≡ (i == j || bitmap_test bitmap j)
test-bitmap_set {bitmap} i j v h = test-set bitmap i j (omega (arith, v.sized)) v.bytes

pub test-bitmap_clear :
    {bitmap : List ℕ} (i j : ℕ)
    → IsBitmap bitmap
    → i < max_pages
    → bitmap_test (bitmap_clear bitmap i) j ≡ (not (i == j) && bitmap_test bitmap j)
test-bitmap_clear {bitmap} i j v h = test-clear bitmap i j (omega (arith, v.sized)) v.bytes

pub bitmap_set-IsBitmap :
    {bitmap : List ℕ} (i : ℕ) → IsBitmap bitmap → IsBitmap (bitmap_set bitmap i)
bitmap_set-IsBitmap {bitmap} i v = record {
  sized = length-bitmap_set bitmap i ∙ v.sized;
  bytes = bitmap_set-AreBytes bitmap i v.bytes;
}

pub bitmap_clear-IsBitmap :
    {bitmap : List ℕ} (i : ℕ) → IsBitmap bitmap → IsBitmap (bitmap_clear bitmap i)
bitmap_clear-IsBitmap {bitmap} i v = record {
  sized = length-bitmap_clear bitmap i ∙ v.sized;
  bytes = bitmap_clear-AreBytes bitmap i v.bytes;
}

-- Setting the bit of a free page counts one up, clearing that of a used page one down.
pub count_used-set :
    (n : ℕ) {bitmap : List ℕ} (i : ℕ)
    → IsBitmap bitmap
    → i < max_pages
    → bitmap_test bitmap i ≡ false
    → count_used n (bitmap_set bitmap i) ≡ count_used n bitmap + (if ltb i n then 1 else 0)
unfolding count_used
count_used-set zero i v h free = ground arith
count_used-set (suc n) i v h free =
    ground (arith, count_used-set n i v h free, test-bitmap_set i n v h)

pub count_used-clear :
    (n : ℕ) {bitmap : List ℕ} (i : ℕ)
    → IsBitmap bitmap
    → i < max_pages
    → bitmap_test bitmap i ≡ true
    → count_used n bitmap ≡ count_used n (bitmap_clear bitmap i) + (if ltb i n then 1 else 0)
unfolding count_used
count_used-clear zero i v h busy = ground arith
count_used-clear (suc n) i v h busy =
    ground (arith, count_used-clear n i v h busy, test-bitmap_clear i n v h)

-- The counter agrees with the bitmap, and no page is free but those of memory from page 256 (the
-- first megabyte's end) on.
pub record Inv (p : Pmm) : Type 0 where
  pub bitmap_ok : IsBitmap p.bitmap
  pub counted : p.used ≡ count_used max_pages p.bitmap
  pub total_small : p.total ≤ max_pages
  pub free_in :
      (page : ℕ)
      → page < max_pages
      → bitmap_test p.bitmap page ≡ false
      → (256 ≤ page) × (page < p.total)

abbrev pub mark_page : ℕ → Pmm → Pmm
mark_page page p = record p { bitmap = bitmap_set p.bitmap page; used = u64 (p.used + 1) }

pub mark_page-Inv :
    {p : Pmm} (page : ℕ)
    → Inv p
    → page < max_pages
    → bitmap_test p.bitmap page ≡ false
    → Inv (mark_page page p) × ((mark_page page p).used ≡ p.used + 1)
mark_page-Inv {p} page v h free =
    let counts : count_used max_pages (bitmap_set p.bitmap page)
        ≡ count_used max_pages p.bitmap + 1 =
      ground (arith, count_used-set max_pages page v.bitmap_ok h free) in
    let small = count_used-le max_pages (bitmap_set p.bitmap page) in
    (
      record {
        bitmap_ok = bitmap_set-IsBitmap page v.bitmap_ok;
        counted = omega (arith, v.counted);
        total_small = v.total_small;
        free_in = λ q hq f. v.free_in q hq (ground (arith, test-bitmap_set page q v.bitmap_ok h));
      },
      omega (arith, v.counted),
    )

pub release_page-Inv :
    {p : Pmm} (page : ℕ)
    → Inv p
    → 256 ≤ page
    → page < p.total
    → bitmap_test p.bitmap page ≡ true
    → Inv (release_page page p) × ((release_page page p).used + 1 ≡ p.used)
release_page-Inv {p} page v low high busy =
    let h : page < max_pages = omega (arith, v.total_small) in
    let counts : count_used max_pages p.bitmap
        ≡ count_used max_pages (bitmap_clear p.bitmap page) + 1 =
      ground (arith, count_used-clear max_pages page v.bitmap_ok h busy) in
    let small = count_used-le max_pages p.bitmap in
    (
      record {
        bitmap_ok = bitmap_clear-IsBitmap page v.bitmap_ok;
        counted = omega (arith, v.counted);
        total_small = v.total_small;
        free_in = λ q hq f. ground (arith, v.free_in q hq, test-bitmap_clear page q v.bitmap_ok h);
      },
      omega (arith, v.counted),
    )
