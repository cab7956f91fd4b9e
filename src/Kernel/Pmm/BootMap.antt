-- ===== src/Kernel/Pmm/BootMap.antt =====
-- The whole of `pmm_init`: its invariant, and which pages are free after it.
use os_porting.Base.{none}
use os_porting.Base.{
  ℕ, ◌+◌, ◌*◌, ◌^◌, ◌≤◌, ◌<◌, ◌≡◌, ◌≢◌, refl, ap₂, ◌∙◌, inl, inr, Bool, true, false, not, ◌&&◌,
  ◌||◌, Option, some, List, [], ◌∷◌, arith, ltb, leb, ◌==◌, if◌then◌else◌, Bool-cases, length,
}
use os_porting.Kernel.Pmm.{Pmm, page_size, max_pages, u64, bitmap_test, align_up, align_down}
use os_porting.Kernel.Pmm.Inv.{Inv}
use os_porting.Kernel.Pmm.Init.{
  Entry, BootInfo, usable, boot_info_valid, default_loop, add_usable, add_entry, map_loop, cleared,
  init_default, init_map, entries_of, init,
}
use os_porting.Kernel.Pmm.Boot.{
  InvTo, InvTo-mono, Opened, cleared-InvTo, test-all_used, default_loop-Opened, lies_in, reach,
  open_range-Inv, open_range-tests,
}

abbrev end_of : Entry → ℕ
end_of e = u64 (e.base + e.size)

abbrev higher : ℕ → ℕ → ℕ
higher highest end = if ltb highest end then end else highest

reach-higher :
    (highest end : ℕ)
    → (reach highest ≤ reach (higher highest end))
      × (reach end ≤ reach (higher highest end))
      × (reach (higher highest end) ≤ max_pages)
reach-higher highest end = ground arith

reach_down : (end : ℕ) → reach (align_down end) ≤ reach end
reach_down end = omega arith

-- The page lies wholly in a usable entry, from the first megabyte on.
abbrev pub is_usable : List Entry → ℕ → Bool
is_usable [] page = false
is_usable (e ∷ es) page =
    (e.kind == usable && lies_in e.base (e.base + e.size) page) || is_usable es page

-- No entry ends so near to 2^64 that rounding it up to a page wraps.
abbrev pub NoWrap : List Entry → Type 0
NoWrap [] = Unit
NoWrap (e ∷ es) = (e.base + e.size + 4095 < 2 ^ 64) × NoWrap es

align_up_page :
    (base page : ℕ)
    → base + 4095 < 2 ^ 64
    → leb (align_up base) (page * page_size) ≡ leb base (page * page_size)
align_up_page base page h = ground arith

align_down_page :
    (end page : ℕ)
    → end < 2 ^ 64
    → leb ((page + 1) * page_size) (align_down (u64 end)) ≡ leb ((page + 1) * page_size) end
align_down_page end page h = ground arith

-- One entry of the map, while memory is known to reach page `limit`.
module _ (e : Entry) (limit : ℕ) (p : Pmm) (v : InvTo limit p)
    (far : reach (end_of e) ≤ limit) where
  add_entry-Inv : InvTo limit (add_entry e p)
  unfolding add_usable
  add_entry-Inv = elim (Bool-cases (e.kind == usable)) [
    | inl yes_usable ↦ rw yes_usable (
        open_range-Inv (align_up e.base) (align_down (end_of e)) limit p v
          (omega (arith, reach_down (end_of e))))
    | inr other ↦ rw other v
  ]

  add_entry-tests :
      e.base + e.size + 4095 < 2 ^ 64
      → (page : ℕ) → page < max_pages
      → bitmap_test (add_entry e p).bitmap page ≡ (
          not (e.kind == usable && lies_in e.base (e.base + e.size) page)
          && bitmap_test p.bitmap page)
  unfolding add_usable
  add_entry-tests fits page h = elim (Bool-cases (e.kind == usable)) [
    | inl yes_usable ↦ rw yes_usable (
        open_range-tests (align_up e.base) (align_down (end_of e)) limit p v
          (omega (arith, reach_down (end_of e))) (omega arith) page h
        ∙ ap₂ (λ x y. not (x && (y && leb 256 page)) && bitmap_test p.bitmap page)
            (align_up_page e.base page (omega arith))
            (align_down_page (e.base + e.size) page (omega arith)))
    | inr other ↦ rw other
  ]

module _ (e : Entry) (highest : ℕ) (p : Pmm) (v : InvTo (reach highest) p) where
  abbrev further : ℕ
  further = reach (higher highest (end_of e))

  wider : InvTo further p
  wider = InvTo-mono p v (reach-higher highest (end_of e)).0 (reach-higher highest (end_of e)).2

  step-Inv : InvTo further (add_entry e p)
  step-Inv = add_entry-Inv e further p wider (reach-higher highest (end_of e)).1

map_loop-Inv :
    (es : List Entry) (highest : ℕ) (p : Pmm)
    → InvTo (reach highest) p
    → let (highest', q) = map_loop es highest p in InvTo (reach highest') q
unfolding map_loop
map_loop-Inv [] highest p v = v
map_loop-Inv (e ∷ es) highest p v =
    map_loop-Inv es (higher highest (end_of e)) (add_entry e p) (step-Inv e highest p v)

join_usable : (a b c t u : Bool) → t ≡ (not b && u) → u ≡ (not a && c) → t ≡ (not (a || b) && c)
join_usable a b c t u h k = ground arith

map_loop-tests :
    (es : List Entry) (highest : ℕ) (p : Pmm)
    → InvTo (reach highest) p
    → NoWrap es
    → (page : ℕ) → page < max_pages
    → bitmap_test (map_loop es highest p).1.bitmap page
      ≡ (not (is_usable es page) && bitmap_test p.bitmap page)
unfolding map_loop
map_loop-tests [] highest p v fits page h = refl
map_loop-tests (e ∷ es) highest p v fits page h =
    join_usable _ _ _ _ _
      (map_loop-tests es (higher highest (end_of e)) (add_entry e p) (step-Inv e highest p v) fits.1
        page h)
      (add_entry-tests e (further e highest p v) p (wider e highest p v)
        (reach-higher highest (end_of e)).1 fits.0 page h)

-- Reading a memory map, whatever its entries are, establishes the invariant.
init_map-Inv : (es : List Entry) (p : Pmm) → Inv (init_map es p)
unfolding init_map
init_map-Inv es p = map_loop-Inv es 0 (cleared p) (cleared-InvTo p)

default-Opened : (p : Pmm) → Opened 4096 256 3840 (cleared p) (default_loop 3840 256 (cleared p))
default-Opened p =
    default_loop-Opened 3840 256 4096 (cleared p)
      (InvTo-mono (cleared p) (cleared-InvTo p) (omega arith) (omega arith)) (omega arith)
      (omega arith) (λ page low h. test-all_used page h)

-- `pmm_init` establishes the invariant, for every boot information, valid or not, and whatever the
-- state before it was.
pub init-Inv : (boot : Option BootInfo) (p : Pmm) → Inv (init boot p).1
unfolding init init_default
init-Inv boot p = elim (Bool-cases (not (boot_info_valid boot) || length (entries_of boot) == 0)) [
  | inl no_map ↦ rw no_map (default-Opened p).inv
  | inr map ↦ rw map (init_map-Inv (entries_of boot) p)
]

-- After `pmm_init` with a valid, non-empty memory map whose entries do not wrap, a page is free
-- exactly when it lies wholly in a usable entry, from the first megabyte on.
pub init-is_usable :
    (info : BootInfo) (p : Pmm)
    → boot_info_valid (some info) ≡ true
    → length info.mem_map ≢ 0
    → NoWrap info.mem_map
    → (page : ℕ) → page < max_pages
    → bitmap_test (init (some info) p).1.bitmap page ≡ not (is_usable info.mem_map page)
unfolding init init_map
init-is_usable info p valid entries fits page h =
    let some_entries : (length info.mem_map == 0) ≡ false = ground arith in
    rw (valid, some_entries)
      (map_loop-tests info.mem_map 0 (cleared p) (cleared-InvTo p) fits page h
        ∙ ground (arith, test-all_used page h))

-- Without boot information the pages from the first to the sixteenth megabyte are free.
pub init-none :
    (p : Pmm) (page : ℕ)
    → 256 ≤ page
    → page < 4096
    → bitmap_test (init none p).1.bitmap page ≡ false
unfolding init init_default boot_info_valid
init-none p page low high = ground (arith, (default-Opened p).tests page)

pub init-none_total : (p : Pmm) → (init none p).1.total ≡ 4096
unfolding init init_default boot_info_valid
init-none_total p = refl
