-- ===== src/Kernel/Pmm/Search.antt =====
-- `find_free_pages` finds the first run of free pages that is long enough.
use os_porting.Base.{
  ℕ, zero, suc, ◌+◌, ◌-◌, ◌≤◌, ◌<◌, ◌≡◌, ◌≢◌, refl, sym, ap, ◌∙◌, inl, inr, true, false, Option,
  none, some, List, arith, leb, ◌==◌, if◌then◌else◌, Bool-cases,
}
use native.Mathlib.Decide.{dec_le, dec_lt}
use os_porting.Kernel.Pmm.{Pmm, bitmap_test, find_loop, find_free_pages}

-- The `n` pages from `start` on are free.
abbrev pub FreeRun : List ℕ → ℕ → ℕ → Type 0
FreeRun bitmap start n =
    (page : ℕ) → start ≤ page → page < start + n → bitmap_test bitmap page ≡ false

module _ (count : ℕ) (bitmap : List ℕ) where
  -- What the search knows at page `i`, with `run` free pages behind it.
  record Seen (i run start : ℕ) : Type 0 where
    short : run < count
    back : run ≤ i
    at : run ≢ 0 → start + run ≡ i
    free : (page : ℕ) → i - run ≤ page → page < i → bitmap_test bitmap page ≡ false
    -- The run cannot be extended to the left.
    tight : i - run ≢ 0 → bitmap_test bitmap (i - run - 1) ≡ true
    -- No run of the wanted length ends at `i` or before.
    missed : (s : ℕ) → s + count ≤ i → ¬ FreeRun bitmap s count

  -- The search ends with the first run in range, or there is none.
  abbrev pub Found : ℕ → Option ℕ → Type 0
  Found end (some s) =
      FreeRun bitmap s count × (s + count ≤ end) × ((t : ℕ) → t < s → ¬ FreeRun bitmap t count)
  Found end none = (s : ℕ) → s + count ≤ end → ¬ FreeRun bitmap s count

  Seen-used :
      (i run start : ℕ)
      → 0 < count
      → Seen i run start
      → bitmap_test bitmap i ≡ true
      → Seen (i + 1) 0 start
  Seen-used i run start pos v busy = record {
    short = pos;
    back = omega arith;
    at = λ ne. absurd (ne refl);
    free = λ page low high. absurd (omega arith);
    tight = λ ne.
        (let here : i ≡ i + 1 - 0 - 1 = omega arith in ap (bitmap_test bitmap) (sym here) ∙ busy);
    missed = λ s fits run. elim (dec_le (s + count) i) [
      | yes le ↦ v.missed s le run
      | no gt ↦ cc (run i (omega arith) (omega arith))
    ];
  }

  -- One more free page: the run grows, and its start is kept.
  module _ {i run start : ℕ} (v : Seen i run start) (free : bitmap_test bitmap i ≡ false) where
    abbrev first : ℕ
    first = if run == 0 then i else start

    first-eq : first + run ≡ i
    first-eq = elim (Bool-cases (run == 0)) [
      | inl none_yet ↦ rw none_yet (ground arith)
      | inr more ↦ rw more (v.at (ground arith))
    ]

    grown : (page : ℕ) → i - run ≤ page → page < i + 1 → bitmap_test bitmap page ≡ false
    grown page low high = elim (dec_lt page i) [
      | yes lt ↦ v.free page low lt
      | no ge ↦ let here : page ≡ i = omega arith in ap (bitmap_test bitmap) here ∙ free
    ]

    -- A long enough run that ends behind page `i` is the run itself.
    only : (s : ℕ) → s + count ≤ i + 1 → FreeRun bitmap s count → i - run ≤ s
    only s fits r = elim (dec_le (s + count) i) [
      | yes le ↦ absurd (v.missed s le r)
      | no gt ↦ elim (dec_le (i - run) s) [
        | yes in_run ↦ in_run
        | no before ↦
            let busy = v.tight (omega arith) in
            let clear = r (i - run - 1) (omega arith) (omega (arith, v.back)) in cc
      ]
    ]

    Seen-free : run + 1 < count → Seen (i + 1) (run + 1) first
    Seen-free more = record {
      short = more;
      back = omega (arith, v.back);
      at = λ ne. omega (arith, first-eq);
      free = λ page low high. grown page (omega arith) high;
      tight = λ ne.
          let here : i - run ≡ i + 1 - (run + 1) = omega arith in
          ap (λ k. bitmap_test bitmap (k - 1)) (sym here) ∙ v.tight (omega arith);
      missed = λ s fits r. let late = only s fits r in absurd (omega (arith, v.back));
    }

    Found-free : (end : ℕ) → count ≤ run + 1 → i < end → Found end (some first)
    Found-free end long inside = (
      λ page low high. grown page (omega (arith, first-eq)) (omega (arith, first-eq, v.short)),
      omega (arith, first-eq, v.short),
      λ t before r.
          let late = only t (omega (arith, first-eq, v.short)) r in
          absurd (omega (arith, first-eq)),
    )

  find_loop-Found :
      (n i run start end : ℕ)
      → 0 < count
      → i + n ≡ end
      → Seen i run start
      → Found end (find_loop count bitmap n i run start)
  unfolding find_loop
  find_loop-Found zero i run start end pos e v = λ s fits r. v.missed s (omega arith) r
  find_loop-Found (suc n) i run start end pos e v = elim (Bool-cases (bitmap_test bitmap i)) [
    | inl busy ↦
        rw busy (
          find_loop-Found n (i + 1) 0 start end pos (omega arith)
            (Seen-used i run start pos v busy))
    | inr free ↦ elim (Bool-cases (leb count (run + 1))) [
      | inl long ↦ rw (free, long) (Found-free v free end (ground arith) (omega arith))
      | inr more ↦
          rw (free, more)
            (find_loop-Found n (i + 1) (run + 1) (first v free) end pos (omega arith)
              (Seen-free v free (ground arith)))
    ]
  ]

-- `find_free_pages` of at least one page returns the start of the first run of that many free pages
-- that ends in memory, and it fails only if there is no such run.
pub find_free_pages-Found :
    (count : ℕ) (p : Pmm) → 0 < count → Found count p.bitmap p.total (find_free_pages count p)
unfolding find_free_pages
find_free_pages-Found count p pos =
    find_loop-Found count p.bitmap p.total 0 0 0 p.total pos (omega arith) (record {
      short = pos;
      back = omega arith;
      at = λ ne. absurd (ne refl);
      free = λ page low high. absurd (omega arith);
      tight = λ ne. absurd (omega arith);
      missed = λ s fits r. absurd (omega arith);
    })
