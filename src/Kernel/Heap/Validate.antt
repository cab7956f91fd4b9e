-- ===== src/Kernel/Heap/Validate.antt =====
-- `heap_validate` goes on behind the last block, at address 0.
use os_porting.Base.{
  ℕ, zero, suc, ◌+◌, ◌^◌, ◌<◌, ◌≡◌, refl, subst, arith, Bool, true, false, Option, none, some, List,
  [], ◌∷◌, ltb, ◌&&◌, if◌then◌else◌,
}
use os_porting.Kernel.Heap.{Heap, Blocks, block_get_size, block_get_next_physical}
use os_porting.Kernel.Heap.More.{
  magic_fits, same_block, address, size_fits, validate_loop, heap_validate,
}
use os_porting.Kernel.Heap.Frees.{u64}
use os_porting.Kernel.Heap.Grow.{some_tile}
use os_porting.Kernel.Heap.Tiles.{Tile, size_of, Tiles, done, tile, Tiles-low}
use os_porting.Kernel.Heap.Edits.{get_size}
use os_porting.Kernel.Heap.Rows.{next_physical, next_physical_end}
use os_porting.Kernel.Heap.Inv.{Inv, Inv-small}

sized_false :
    (fits : Bool) (on : ℕ × Bool) (total : ℕ)
    → on.1 ≡ false
    → (if fits then on else (total, false)).1 ≡ false
sized_false true on total e = e
sized_false false on total e = refl

inside_false :
    (inside : Bool) (x y : ℕ × Bool)
    → x.1 ≡ false
    → y.1 ≡ false
    → (if inside then x else y).1 ≡ false
inside_false true x y e f = e
inside_false false x y e f = f

bad_magic : (valid fits same : Bool) → fits ≡ false → (valid && fits && same) ≡ false
bad_magic valid fits same e = ground arith

module _ (s : Blocks) (end : ℕ) where
  -- A verdict of false is final.
  stays_false :
      (left b : ℕ) (prev : Option ℕ) (total : ℕ)
      → (validate_loop s end left b prev total false).1 ≡ false
  unfolding validate_loop
  stays_false zero b prev total = refl
  stays_false (suc left) b prev total =
      let sum = u64 (total + block_get_size b s) in
      let next = address (block_get_next_physical b s end) in
      let on = validate_loop s end left next (some b) sum false in
      inside_false (ltb b end) _ _
        (sized_false (size_fits s end b) on total (stays_false left next (some b) sum)) refl

  module _ (some_room : 0 < end) (nothing_there : magic_fits 0 s ≡ false) where
    at_null :
        (left : ℕ) (prev : Option ℕ) (total : ℕ) (valid : Bool)
        → (validate_loop s end left 0 prev total valid).1 ≡ false
    unfolding validate_loop
    at_null zero prev total valid = refl
    at_null (suc left) prev total valid =
        let low : ltb 0 end ≡ true = ground arith in
        let sum = u64 (total + block_get_size 0 s) in
        let next = address (block_get_next_physical 0 s end) in
        let sound : (valid && magic_fits 0 s && same_block (s.prev 0) prev) ≡ false =
          bad_magic valid (magic_fits 0 s) _ nothing_there in
        let on =
          validate_loop s end left next (some 0) sum
            (valid && magic_fits 0 s && same_block (s.prev 0) prev) in
        rw low
          (sized_false (size_fits s end 0) on total (rw sound (stays_false left next (some 0) sum)))

    through_row :
        (t : Tile) (ts : List Tile) (left b : ℕ) (prev : Option ℕ) (total : ℕ) (valid : Bool)
        {p : Option ℕ}
        → end < 2 ^ 64
        → Tiles s end p b (t ∷ ts)
        → (validate_loop s end left b prev total valid).1 ≡ false
    unfolding validate_loop
    through_row t ts zero b prev total valid small row = refl
    through_row t [] (suc left) b prev total valid small (tile h (done e)) =
        let inside : ltb b end ≡ true = ground (arith, h.enough) in
        let last : block_get_next_physical b s end ≡ none =
          subst (λ c. block_get_next_physical b s c ≡ none) e
            (next_physical_end s b (get_size h) (omega arith)) in
        rw (inside, last) (sized_false (size_fits s end b) _ total (at_null left (some b) _ _))
    through_row t (u ∷ ts) (suc left) b prev total valid small (tile h (tile k r)) =
        let behind : b + size_of t < end = omega (arith, k.enough, Tiles-low r) in
        let inside : ltb b end ≡ true = ground arith in
        let next = next_physical s {end = end} b (get_size h) behind (omega arith) in
        rw (inside, next)
          (sized_false (size_fits s end b) _ total
            (through_row u ts left (b + size_of t) (some b) _ _ small (tile k r)))

-- On a heap in order, `heap_validate` answers false, unless what lies at address 0 carries one of the
-- magic numbers of a block: behind the last block the walk goes on at NULL.
pub heap_validate-false :
    (h : Heap) (ts : List Tile) → Inv h ts → magic_fits 0 h.blocks ≡ false → heap_validate h ≡ false
unfolding heap_validate
heap_validate-false h ts v nothing_there =
    let (t, us, e) = some_tile ts v in
    let row = subst (Tiles h.blocks h.end none h.start) e v.row in
    let found =
      through_row h.blocks h.end (omega (arith, v.some_room)) nothing_there t us 10001 h.start none
        0 true (Inv-small v) row in
    rw (v.ready, found) refl
