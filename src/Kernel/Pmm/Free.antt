-- ===== src/Kernel/Pmm/Free.antt =====
-- `pmm_free_pages`: which pages it gives back, and that it undoes an allocation.
use os_porting.Base.{
  ℕ, zero, suc, ◌+◌, ◌*◌, ◌/◌, ◌%◌, ◌^◌, ◌≤◌, ◌<◌, ◌≡◌, ◌≢◌, refl, sym, ◌∙◌, inl, inr, true, false,
  not, ◌&&◌, List, arith, ltb, leb, ◌==◌, Bool-cases,
}
use os_porting.Kernel.Pmm.{Pmm, max_pages, bitmap_test, free_loop, free_pages, alloc_pages}
use os_porting.Kernel.Pmm.Inv.{Inv, count_used, release_page-Inv, test-bitmap_clear}
use os_porting.Kernel.Pmm.Alloc.{in_run, Allocates, alloc_pages-Allocates}

-- The pages of the run that lie in memory are free, every other page is as it was.
pub record Freed (start n : ℕ) (p q : Pmm) : Type 0 where
  pub inv : Inv q
  pub tests :
      (page : ℕ)
      → bitmap_test q.bitmap page
        ≡ (not (in_run start n page && ltb page p.total) && bitmap_test p.bitmap page)
  pub memory : q.total ≡ p.total

free_loop-Freed :
    (n start : ℕ) {p : Pmm} → Inv p → 256 ≤ start → Freed start n p (free_loop n start p)
unfolding free_loop
free_loop-Freed zero start v low = record { inv = v; tests = λ page. ground arith; memory = refl }
free_loop-Freed (suc n) start {p} v low = elim (Bool-cases (leb p.total start)) [
  | inl past ↦ rw past (record { inv = v; tests = λ page. ground arith; memory = refl })
  | inr inside ↦ elim (Bool-cases (bitmap_test p.bitmap start)) [
    | inl busy ↦
        let lt : start < p.total = ground arith in
        let (inv, used) = release_page-Inv start v low lt busy in
        let rest = free_loop-Freed n (start + 1) inv (omega arith) in
        rw (inside, busy)
          (record {
            inv = rest.inv;
            tests = λ page. ground (
              arith,
              rest.tests page,
              test-bitmap_clear start page v.bitmap_ok (omega (arith, v.total_small)),
            );
            memory = rest.memory;
          })
    | inr free ↦
        let rest = free_loop-Freed n (start + 1) v (omega arith) in
        rw (inside, free)
          (record {
            inv = rest.inv;
            tests = λ page. ground (arith, rest.tests page, free);
            memory = rest.memory;
          })
  ]
]

-- Freeing `count` pages from the address of page `start`, at or above the first megabyte, keeps the
-- invariant, makes exactly those of the pages free that lie in memory, also where some were free
-- before, and leaves every other page as it was.
pub free_pages-Freed :
    (count start : ℕ) {p : Pmm}
    → Inv p
    → 256 ≤ start
    → 0 < count
    → Freed start count p (free_pages (start * 4096) count p)
unfolding free_pages
free_pages-Freed count start {p} v low pos =
    let not_null : (start * 4096 == 0) ≡ false = ground arith in
    let some_page : (count == 0) ≡ false = ground arith in
    let aligned : (start * 4096 % 4096 == 0) ≡ true = ground arith in
    let here : start * 4096 / 2 ^ 12 ≡ start = omega arith in
    rw (not_null, some_page, aligned, here) (free_loop-Freed count start v low)

count_used-ext :
    (n : ℕ) (a b : List ℕ)
    → ((page : ℕ) → bitmap_test a page ≡ bitmap_test b page)
    → count_used n a ≡ count_used n b
unfolding count_used
count_used-ext zero a b h = refl
count_used-ext (suc n) a b h = ground (arith, h n, count_used-ext n a b h)

undoes :
    (count : ℕ) {p : Pmm} (r : ℕ × Pmm)
    → Inv p
    → 0 < count
    → Allocates count p r
    → r.0 ≢ 0
    → let p' = free_pages r.0 count r.1 in
      ((page : ℕ) → bitmap_test p'.bitmap page ≡ bitmap_test p.bitmap page)
      × (p'.used ≡ p.used)
      × (p'.total ≡ p.total)
undoes count (addr, q) v pos (inl (failed, kept, never)) got = absurd (got failed)
undoes count {p} (addr, q) v pos (inr (start, e, low, fits, free, first, m)) got =
    let freed = free_pages-Freed count start m.inv low pos in
    let tests : (page : ℕ)
        → bitmap_test (free_pages (start * 4096) count q).bitmap page ≡ bitmap_test p.bitmap page =
      λ page. ground (arith, freed.tests page, m.tests page, m.memory, free page) in
    rw e (
      tests,
      freed.inv.counted ∙ count_used-ext max_pages _ _ tests ∙ sym v.counted,
      freed.memory ∙ m.memory,
    )

-- Freeing what `pmm_alloc_pages` returned restores every page's state and both counters.
pub free_pages-alloc_pages :
    (count : ℕ) {p : Pmm}
    → Inv p
    → 0 < count
    → (alloc_pages count p).0 ≢ 0
    → let (addr, q) = alloc_pages count p in
      let p' = free_pages addr count q in
      ((page : ℕ) → bitmap_test p'.bitmap page ≡ bitmap_test p.bitmap page)
      × (p'.used ≡ p.used)
      × (p'.total ≡ p.total)
free_pages-alloc_pages count {p} v pos got =
    undoes count (alloc_pages count p) v pos (alloc_pages-Allocates count v pos) got
