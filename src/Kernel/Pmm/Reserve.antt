-- ===== src/Kernel/Pmm/Reserve.antt =====
-- `pmm_reserve_range`: which pages it takes out of use for good.
use os_porting.Base.{
  ℕ, zero, suc, ◌+◌, ◌-◌, ◌*◌, ◌/◌, ◌^◌, ◌<◌, ◌≡◌, refl, inl, inr, true, false, ◌&&◌, ◌||◌, Option,
  none, some, arith, ltb, leb, ◌==◌, Bool-cases,
}
use os_porting.Kernel.Pmm.{
  Pmm, page_size, u64, align_up, bitmap_set, bitmap_test, reserve_loop, reserve_range,
}
use os_porting.Kernel.Pmm.Inv.{Inv, mark_page-Inv, test-bitmap_set}

-- The loop ends within its fuel; pages `first` to `last - 1` that lie in memory are used, every
-- other page is as it was.
abbrev pub Reserved : ℕ → ℕ → Pmm → Option Pmm → Type 0
Reserved first last p none = ⊥
Reserved first last p (some q) =
    Inv q
    × ((page : ℕ)
        → bitmap_test q.bitmap page
          ≡ ((leb first page && (ltb page last && ltb page p.total)) || bitmap_test p.bitmap page))
    × (q.total ≡ p.total)

Reserved-skip :
    (first last : ℕ) (p : Pmm) (r : Option Pmm)
    → bitmap_test p.bitmap first ≡ true
    → Reserved (first + 1) last p r
    → Reserved first last p r
Reserved-skip first last p none busy h = h
Reserved-skip first last p (some q) busy (inv, tests, memory) =
    (inv, λ page. ground (arith, tests page, busy), memory)

Reserved-mark :
    (first last : ℕ) {p : Pmm} (r : Option Pmm)
    → Inv p
    → first < last
    → first < p.total
    → Reserved
        (first + 1)
        last
        (record p { bitmap = bitmap_set p.bitmap first; used = u64 (p.used + 1) })
        r
    → Reserved first last p r
Reserved-mark first last none v lt inside h = h
Reserved-mark first last {p} (some q) v lt inside (inv, tests, memory) = (
  inv,
  λ page.
      ground
        (arith, tests page, test-bitmap_set first page v.bitmap_ok (omega (arith, v.total_small))),
  memory,
)

reserve_loop-Reserved :
    (fuel first last : ℕ) {p : Pmm}
    → Inv p
    → p.total - first < fuel
    → last * page_size < 2 ^ 64
    → Reserved first last p (reserve_loop fuel (first * page_size) (last * page_size) p)
unfolding reserve_loop
reserve_loop-Reserved zero first last v enough fits = absurd (omega arith)
reserve_loop-Reserved (suc fuel) first last {p} v enough fits =
    let here : first * page_size / 2 ^ 12 ≡ first = omega arith in
    elim (Bool-cases (ltb (first * page_size) (last * page_size))) [
      | inr ended ↦ rw ended (v, λ page. ground arith, refl)
      | inl goes_on ↦ elim (Bool-cases (leb p.total first)) [
        | inl past ↦ rw (goes_on, here, past) (v, λ page. ground arith, refl)
        | inr inside ↦
            let next : u64 (first * page_size + page_size) ≡ (first + 1) * page_size =
              ground arith in
            let below : first < p.total = ground arith in
            elim (Bool-cases (bitmap_test p.bitmap first)) [
              | inl busy ↦
                  rw (goes_on, here, inside, busy, next)
                    (Reserved-skip first last p _ busy
                      (reserve_loop-Reserved fuel (first + 1) last v (omega (arith, below)) fits))
              | inr free ↦
                  rw (goes_on, here, inside, free, next)
                    (Reserved-mark first last _ v (ground arith) (ground arith) (
                      reserve_loop-Reserved fuel (first + 1) last
                        (mark_page-Inv first v (ground (arith, v.total_small)) free).0
                        (omega (arith, below)) fits))
            ]
      ]
    ]

-- Reserving `size` bytes from `addr` on, where `addr + size` rounded up to a page fits in 64 bits,
-- ends, keeps the invariant, and makes used exactly the pages of memory that the range touches.
pub reserve_range-Reserved :
    (addr size : ℕ) {p : Pmm}
    → Inv p
    → 0 < size
    → addr + size + 4095 < 2 ^ 64
    → Reserved (addr / page_size) ((addr + size + 4095) / page_size) p (reserve_range addr size p)
unfolding reserve_range
reserve_range-Reserved addr size {p} v pos fits =
    let some_bytes : (size == 0) ≡ false = ground arith in
    let no_wrap : align_up (u64 (addr + size)) ≡ (addr + size + 4095) / page_size * page_size =
      omega arith in
    rw (some_bytes, no_wrap)
      (reserve_loop-Reserved (p.total + 1) (addr / page_size) ((addr + size + 4095) / page_size) v
        (omega arith) (omega arith))
