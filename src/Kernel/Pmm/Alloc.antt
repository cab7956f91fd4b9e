-- ===== src/Kernel/Pmm/Alloc.antt =====
-- `pmm_alloc_pages`: which pages it hands out, and that it fails only when it must.
use os_porting.Base.{
  ℕ, zero, suc, ◌+◌, ◌*◌, ◌≤◌, ◌<◌, ◌≡◌, ◌⊎◌, refl, inl, inr, Bool, false, ◌&&◌, ◌||◌, Option, none,
  some, arith, ltb, leb, ◌==◌,
}
use os_porting.Kernel.Pmm.{Pmm, max_pages, bitmap_test, find_free_pages, mark_loop, alloc_pages}
use os_porting.Kernel.Pmm.Inv.{Inv, mark_page-Inv, test-bitmap_set}
use os_porting.Kernel.Pmm.Search.{FreeRun, Found, find_free_pages-Found}

abbrev pub in_run : ℕ → ℕ → ℕ → Bool
in_run start n page = leb start page && ltb page (start + n)

-- The pages of the run are used, every other page is as it was, the counter goes up by their
-- number, and the invariant holds.
pub record Marked (start n : ℕ) (p q : Pmm) : Type 0 where
  pub inv : Inv q
  pub tests :
      (page : ℕ) → bitmap_test q.bitmap page ≡ (in_run start n page || bitmap_test p.bitmap page)
  pub counter : q.used ≡ p.used + n
  pub memory : q.total ≡ p.total

mark_loop-Marked :
    (n start : ℕ) {p : Pmm}
    → Inv p
    → start + n ≤ p.total
    → FreeRun p.bitmap start n
    → Marked start n p (mark_loop n start p)
unfolding mark_loop
mark_loop-Marked zero start v fits free = record {
  inv = v;
  tests = λ page. ground arith;
  counter = omega arith;
  memory = refl;
}
mark_loop-Marked (suc n) start {p} v fits free =
    let h : start < max_pages = omega (arith, v.total_small) in
    let (inv, used) = mark_page-Inv start v h (free start (omega arith) (omega arith)) in
    let rest =
      mark_loop-Marked n (start + 1) inv (omega arith)
        (λ page low high. ground (arith, test-bitmap_set start page v.bitmap_ok h, free page)) in
    record {
      inv = rest.inv;
      tests = λ page. ground (arith, rest.tests page, test-bitmap_set start page v.bitmap_ok h);
      counter = omega (arith, rest.counter, used);
      memory = rest.memory;
    }

-- What `pmm_alloc_pages` of `count` pages promises.
abbrev pub Allocates : ℕ → Pmm → ℕ × Pmm → Type 0
Allocates count p (addr, q) =
    ((addr ≡ 0) × (q ≡ p) × ((s : ℕ) → s + count ≤ p.total → ¬ FreeRun p.bitmap s count))
    ⊎ ((start : ℕ) × (addr ≡ start * 4096)
        × (256 ≤ start)
        × (start + count ≤ p.total)
        × FreeRun p.bitmap start count
        × ((t : ℕ) → t < start → ¬ FreeRun p.bitmap t count)
        × Marked start count p q)

alloc_cases :
    (count : ℕ) {p : Pmm} (r : Option ℕ)
    → find_free_pages count p ≡ r
    → Inv p
    → 0 < count
    → Found count p.bitmap p.total r
    → Allocates count p (alloc_pages count p)
unfolding alloc_pages
alloc_cases count none e v pos never =
    let some_page : (count == 0) ≡ false = ground arith in
    rw (some_page, e, alloc_pages) (inl (refl, refl, never))
alloc_cases count {p} (some start) e v pos (free, fits, first) =
    let some_page : (count == 0) ≡ false = ground arith in
    let low =
      (v.free_in start (omega (arith, v.total_small)) (free start (omega arith) (omega arith))).0 in
    rw (some_page, e, alloc_pages)
      (inr (
        start,
        omega (arith, v.total_small),
        low,
        fits,
        free,
        first,
        mark_loop-Marked count start v fits free,
      ))

-- A request for at least one page either fails with address 0, changes nothing, and then no run of
-- that many free pages exists in memory; or it returns the address of the first such run, at or
-- above the first megabyte, and marks exactly its pages as used.
pub alloc_pages-Allocates :
    (count : ℕ) {p : Pmm} → Inv p → 0 < count → Allocates count p (alloc_pages count p)
alloc_pages-Allocates count {p} v pos =
    alloc_cases count (find_free_pages count p) refl v pos (find_free_pages-Found count p pos)
