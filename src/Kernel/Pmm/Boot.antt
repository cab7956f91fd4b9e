-- ===== src/Kernel/Pmm/Boot.antt =====
-- `pmm_init` establishes the invariant, and frees exactly the pages of usable memory.
use os_porting.Base.{
  ℕ, zero, suc, ◌+◌, ◌-◌, ◌*◌, ◌/◌, ◌%◌, ◌^◌, ◌≤◌, ◌<◌, ◌≡◌, ◌≢◌, refl, sym, ap, ◌∙◌, inl, inr, min,
  Bool, true, not, ◌&&◌, arith, ltb, leb, if◌then◌else◌, Bool-cases, get_or, replicate,
  length-replicate, holds_below, holds_below-at,
}
use os_porting.Kernel.Pmm.{
  Pmm, page_size, max_memory, max_pages, bitmap_size, bitmap_test, test_bit, release_page,
}
use os_porting.Kernel.Pmm.Inv.{IsBitmap, Inv, count_used, release_page-Inv, test-bitmap_clear}
use os_porting.Kernel.Pmm.Alloc.{in_run}
use os_porting.Kernel.Pmm.Init.{low_memory, all_used, default_loop, entry_loop, open_range, cleared}

get_or-replicate : (n i v d : ℕ) → i < n → get_or (replicate n v) i d ≡ v
get_or-replicate zero i v d h = absurd (omega arith)
get_or-replicate (suc n) zero v d h = refl
get_or-replicate (suc n) (suc i) v d h = get_or-replicate n i v d (omega arith)

replicate-bytes : (n v i : ℕ) → v < 256 → get_or (replicate n v) i 0 < 256
replicate-bytes zero v i h = omega arith
replicate-bytes (suc n) v zero h = h
replicate-bytes (suc n) v (suc i) h = replicate-bytes n v i h

full_byte : holds_below 8 (test_bit 0xFF) ≡ true
unfolding holds_below test_bit
full_byte = refl

pub test-all_used : (page : ℕ) → page < max_pages → bitmap_test all_used page ≡ true
unfolding bitmap_test all_used
test-all_used page h =
    ap (λ b. test_bit b (page % 8)) (get_or-replicate bitmap_size (page / 8) 0xFF 0 (omega arith))
    ∙ holds_below-at 8 (test_bit 0xFF) (page % 8) (omega arith) full_byte

all_used-IsBitmap : IsBitmap all_used
unfolding all_used
all_used-IsBitmap = record {
  sized = length-replicate {A = ℕ} bitmap_size 0xFF;
  bytes = λ i. replicate-bytes bitmap_size 0xFF i (omega arith);
}

count_used-all_used : (n : ℕ) → n ≤ max_pages → count_used n all_used ≡ n
unfolding count_used
count_used-all_used zero h = refl
count_used-all_used (suc n) h =
    ground (arith, test-all_used n (omega arith), count_used-all_used n (omega arith))

-- The invariant for memory that ends at page `end`, whatever `total` holds yet.
abbrev pub InvTo : ℕ → Pmm → Type 0
InvTo end p = Inv (record p { total = end })

pub cleared-InvTo : (p : Pmm) → InvTo 0 (cleared p)
cleared-InvTo p = record {
  bitmap_ok = all_used-IsBitmap;
  counted = sym (count_used-all_used max_pages (omega arith));
  total_small = omega arith;
  free_in = λ page h f. cc (test-all_used page h);
}

pub InvTo-mono : {a b : ℕ} (p : Pmm) → InvTo a p → a ≤ b → b ≤ max_pages → InvTo b p
InvTo-mono p v le small = record {
  bitmap_ok = v.bitmap_ok;
  counted = v.counted;
  total_small = small;
  free_in = λ page h f. omega (arith, v.free_in page h f);
}

-- The pages of the run are free, every other page is as it was.
pub record Opened (end start n : ℕ) (p q : Pmm) : Type 0 where
  pub inv : InvTo end q
  pub tests :
      (page : ℕ)
      → page < max_pages
      → bitmap_test q.bitmap page ≡ (not (in_run start n page) && bitmap_test p.bitmap page)

entry_loop-Opened :
    (n start end : ℕ) (p : Pmm)
    → InvTo end p
    → 256 ≤ start
    → (n ≢ 0 → start + n ≤ end)
    → Opened end start n p (entry_loop n start p)
unfolding entry_loop
entry_loop-Opened zero start end p v low fits = record { inv = v; tests = λ page h. ground arith }
entry_loop-Opened (suc n) start end p v low fits =
    let inside : start + suc n ≤ end = fits (omega arith) in
    elim (Bool-cases (bitmap_test p.bitmap start)) [
      | inl busy ↦
          let inv = (release_page-Inv start v low (omega arith) busy).0 in
          let rest =
            entry_loop-Opened n (start + 1) end (release_page start p) inv (omega arith)
              (λ ne. omega arith) in
          rw busy (record {
            inv = rest.inv;
            tests = λ page h. ground (
              arith,
              rest.tests page h,
              test-bitmap_clear start page v.bitmap_ok (omega (arith, v.total_small)),
            );
          })
      | inr free ↦
          let rest = entry_loop-Opened n (start + 1) end p v (omega arith) (λ ne. omega arith) in
          rw free
            (record { inv = rest.inv; tests = λ page h. ground (arith, rest.tests page h, free) })
    ]

pub default_loop-Opened :
    (n start end : ℕ) (p : Pmm)
    → InvTo end p
    → 256 ≤ start
    → start + n ≤ end
    → ((page : ℕ) → start ≤ page → page < max_pages → bitmap_test p.bitmap page ≡ true)
    → Opened end start n p (default_loop n start p)
unfolding default_loop
default_loop-Opened zero start end p v low fits busy = record {
  inv = v;
  tests = λ page h. ground arith;
}
default_loop-Opened (suc n) start end p v low fits busy =
    let inside : start < max_pages = omega (arith, v.total_small) in
    let clear = λ (page : ℕ). test-bitmap_clear start page v.bitmap_ok inside in
    let inv = (release_page-Inv start v low (omega arith) (busy start (omega arith) inside)).0 in
    let rest =
      default_loop-Opened n (start + 1) end (release_page start p) inv (omega arith) (omega arith)
        (λ page le lt. ground (arith, clear page, busy page)) in
    let here : ltb start max_pages ≡ true = ground arith in
    rw here
      (record { inv = rest.inv; tests = λ page h. ground (arith, rest.tests page h, clear page) })

-- A page that lies wholly in the range, above the first megabyte.
abbrev pub lies_in : ℕ → ℕ → ℕ → Bool
lies_in start end page =
    leb start (page * page_size) && (leb ((page + 1) * page_size) end && leb 256 page)

-- The pages up to which an entry's end reaches, within the supported memory.
abbrev pub reach : ℕ → ℕ
reach end = min end max_memory / 2 ^ 12

module _ (start end limit : ℕ) (p : Pmm) (v : InvTo limit p) (far : reach end ≤ limit) where
  -- The first page and the end, as the code clips them.
  abbrev low_end : ℕ
  low_end = if ltb start low_memory then low_memory else start

  abbrev high_end : ℕ
  high_end = if ltb max_memory end then max_memory else end

  low_end-bounds : (low_memory ≤ low_end) × (start ≤ low_end)
  low_end-bounds = ground arith

  high_end-le : high_end ≡ min end max_memory
  high_end-le = ground arith

  range-Opened :
      low_end < end
      → Opened limit
          (low_end / 2 ^ 12)
          (high_end / 2 ^ 12 - low_end / 2 ^ 12)
          p
          (entry_loop (high_end / 2 ^ 12 - low_end / 2 ^ 12) (low_end / 2 ^ 12) p)
  range-Opened lt =
      entry_loop-Opened (high_end / 2 ^ 12 - low_end / 2 ^ 12) (low_end / 2 ^ 12) limit p v
        (omega (arith, low_end-bounds)) (λ some_page. omega (arith, high_end-le))

  pub open_range-Inv : InvTo limit (open_range start end p)
  unfolding open_range
  open_range-Inv = elim (Bool-cases (leb end start)) [
    | inl empty ↦ rw empty v
    | inr more ↦ elim (Bool-cases (leb end low_end)) [
      | inl low ↦ rw (more, low) v
      | inr above ↦ rw (more, above) (range-Opened (ground arith)).inv
    ]
  ]

  pub open_range-tests :
      start % page_size ≡ 0
      → (page : ℕ) → page < max_pages
      → bitmap_test (open_range start end p).bitmap page
        ≡ (not (lies_in start end page) && bitmap_test p.bitmap page)
  unfolding open_range
  open_range-tests aligned page h = elim (Bool-cases (leb end start)) [
    | inl empty ↦ rw empty (ground arith)
    | inr more ↦ elim (Bool-cases (leb end low_end)) [
      | inl low ↦ rw (more, low) (ground arith)
      | inr above ↦
          rw (more, above)
            ((range-Opened (ground arith)).tests page h
              ∙ ap (λ b. not b && bitmap_test p.bitmap page) same_pages)
    ]
  ]
    where
      same_pages :
          in_run (low_end / 2 ^ 12) (high_end / 2 ^ 12 - low_end / 2 ^ 12) page
          ≡ lies_in start end page
      same_pages = ground arith
