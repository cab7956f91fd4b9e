-- ===== src/Kernel/Heap/Rows.antt =====
-- Cutting a block, merging two, and marking one, on the row of tiles.
use os_porting.Base.{
  ℕ, ◌+◌, ◌%◌, ◌^◌, ◌≤◌, ◌<◌, ◌≡◌, ◌≢◌, refl, sym, subst, arith, true, false, Option, none, some,
  List, ◌∷◌, ◌++◌, leb, ◌∙◌,
}
use os_porting.Kernel.Heap.{
  Blocks, set_size, block_get_size, block_set_used, block_set_free, block_get_next_physical, relink,
  new_header, cut,
}
use os_porting.Kernel.Heap.Frees.{u64}
use os_porting.Kernel.Heap.Tiles.{
  Tile, used, free, size_of, Header, Tiles, done, tile, SameAt, Header-same, Tiles-frame, Tiles-low,
  past, back, Tiles-left, Tiles-append,
}
use os_porting.Kernel.Heap.Edits.{
  same_here, Header-prev, same-set_prev, Header-used, same-set_used, Header-free, same-set_free,
  resized, size_of-resized, Header-resize, Header-new, same-set_size, same-new_header, same_trans,
  get_size,
}

-- A row that begins at `b` became another one, and nothing before it changed.
pub record Becomes (s s' : Blocks) (end : ℕ) (p : Option ℕ) (b : ℕ) (ts : List Tile) : Type 0 where
  pub row : Tiles s' end p b ts
  pub before : (a : ℕ) → a < b → SameAt s s' a

pub next_physical :
    (s : Blocks) {end n : ℕ} (b : ℕ)
    → block_get_size b s ≡ n
    → b + n < end
    → end ≤ 2 ^ 64
    → block_get_next_physical b s end ≡ some (b + n)
unfolding block_get_next_physical
next_physical s {end} {n} b e h small =
    let fits : u64 (b + n) ≡ b + n = omega arith in
    let inside : leb end (b + n) ≡ false = ground arith in rw (e, fits, inside) refl

pub next_physical_end :
    (s : Blocks) {n : ℕ} (b : ℕ)
    → block_get_size b s ≡ n
    → b + n < 2 ^ 64
    → block_get_next_physical b s (b + n) ≡ none
unfolding block_get_next_physical
next_physical_end s {n} b e small =
    let fits : u64 (b + n) ≡ b + n = omega arith in
    let last : leb (b + n) (b + n) ≡ true = ground arith in rw (e, fits, last) refl

-- The row behind `b` after its first header points back to `b`.
pub relink-Becomes :
    {s : Blocks} {end : ℕ} {p : Option ℕ} {n : ℕ} (b : ℕ) {rs : List Tile}
    → block_get_size b s ≡ n
    → end < 2 ^ 64
    → Tiles s end p (b + n) rs
    → Becomes s (relink end b s) end (some b) (b + n) rs
unfolding relink
relink-Becomes {s} {end} {p} {n} b e small (done h) =
    let last : block_get_next_physical b s end ≡ none =
      rw⁻¹ h (next_physical_end s b e (omega arith)) in
    rw last (record { row = done h; before = λ a u. same_here a })
relink-Becomes {s} {end} {p} {n} b e small (tile h r) =
    let low = Tiles-low r in
    rw (next_physical s {end = end} b e (omega (arith, h.enough)) (omega arith)) (record {
      row =
          tile (Header-prev (some b) h)
            (Tiles-frame (λ a u v. same-set_prev (omega (arith, h.enough)) (some b)) r);
      before = λ a u. same-set_prev (omega arith) (some b);
    })

-- Marking a block.
pub used-Becomes :
    {s : Blocks} {end : ℕ} {p : Option ℕ} (b : ℕ) (t : Tile) {rs : List Tile}
    → Tiles s end p b (t ∷ rs)
    → Becomes s (block_set_used b s) end p b (used (size_of t) ∷ rs)
used-Becomes b t (tile h r) = record {
  row = tile (Header-used t h) (Tiles-frame (λ a u v. same-set_used (omega (arith, h.enough))) r);
  before = λ a u. same-set_used (omega arith);
}

pub free-Becomes :
    {s : Blocks} {end : ℕ} {p : Option ℕ} (b : ℕ) (t : Tile) {rs : List Tile}
    → Tiles s end p b (t ∷ rs)
    → Becomes s (block_set_free b s) end p b (free (size_of t) ∷ rs)
free-Becomes b t (tile h r) = record {
  row = tile (Header-free t h) (Tiles-frame (λ a u v. same-set_free (omega (arith, h.enough))) r);
  before = λ a u. same-set_free (omega arith);
}

-- A block takes in the free one behind it.
pub merge-Becomes :
    {s : Blocks} {end : ℕ} {p : Option ℕ} (b m : ℕ) (t : Tile) {rs : List Tile}
    → end < 2 ^ 64
    → Tiles s end p b (t ∷ free m ∷ rs)
    → Becomes s
        (relink end b (set_size b (size_of t + m) s))
        end
        p
        b
        (resized t (size_of t + m) ∷ rs)
merge-Becomes {s} {end} {p} b m t {rs} small (tile h (tile k r)) =
    let n = size_of t + m in
    let grown =
      Header-resize t n h (omega (arith, h.aligned, k.aligned)) (omega (arith, h.enough)) in
    let behind : Tiles (set_size b n s) end (some (b + size_of t)) (b + n) rs =
      Tiles-frame (λ a u v. same-set_size (omega (arith, h.enough)) n)
        (subst (λ c. Tiles s end (some (b + size_of t)) c rs) (omega arith) r) in
    let linked = relink-Becomes b (get_size grown ∙ size_of-resized t n) small behind in
    record {
      row = tile (Header-same (linked.before b (omega (arith, h.enough))) grown) (
          subst (λ k. Tiles (relink end b (set_size b n s)) end (some b) (b + k) rs)
            (sym (size_of-resized t n)) linked.row);
      before = λ a u. same_trans (same-set_size (omega arith) n) (linked.before a (omega arith));
    }

-- A block is cut after `n` bytes, and the rest is free.
pub cut-Becomes :
    {s : Blocks} {end : ℕ} {p : Option ℕ} (b n m : ℕ) (t : Tile) {rs : List Tile}
    → end < 2 ^ 64
    → size_of t ≡ n + m
    → n % 16 ≡ 0
    → 64 ≤ n
    → 64 ≤ m
    → Tiles s end p b (t ∷ rs)
    → Becomes s (cut end (b + n) b n m s) end p b (resized t n ∷ free m ∷ rs)
cut-Becomes {s} {end} {p} b n m t {rs} small split aligned enough room (tile h r) =
    let s2 = set_size b n (new_header (b + n) (some b) m s) in
    let far : b ≢ b + n = omega arith in
    let far' : b + n ≢ b = omega arith in
    let low : Header s2 p b (resized t n) =
      Header-resize t n (Header-same (same-new_header far (some b) m) h) aligned enough in
    let round : m % 16 ≡ 0 = omega (arith, h.aligned) in
    let high : Header s2 (some b) (b + n) (free m) =
      Header-same (same-set_size far' n) (Header-new s (some b) (b + n) m round room) in
    let clear : (a : ℕ) → a ≢ b → a ≢ b + n → SameAt s s2 a =
      λ a u v. same_trans (same-new_header v (some b) m) (same-set_size u n) in
    let behind : Tiles s2 end (some b) (b + n + m) rs =
      Tiles-frame (λ a u v. clear a (omega arith) (omega arith))
        (subst (λ c. Tiles s end (some b) c rs) (omega arith) r) in
    let linked : Becomes s2 (relink end (b + n) s2) end (some (b + n)) (b + n + m) rs =
      relink-Becomes (b + n) (get_size high) small behind in
    let tail : Tiles (relink end (b + n) s2) end (some b) (b + n) (free m ∷ rs) =
      tile (Header-same (linked.before (b + n) (omega arith)) high) linked.row in
    record {
      row = tile (Header-same (linked.before b (omega arith)) low) (
          subst (λ k. Tiles (relink end (b + n) s2) end (some b) (b + k) (free m ∷ rs))
            (sym (size_of-resized t n)) tail);
      before =
          λ a u. same_trans (clear a (omega arith) (omega arith)) (linked.before a (omega arith));
    }

-- A row changed from a place on.
pub splice :
    {s s' : Blocks} {end end' : ℕ} {p : Option ℕ} (b : ℕ) (ls rs rs' : List Tile)
    → Tiles s end p b (ls ++ rs)
    → Becomes s s' end' (back p b ls) (past b ls) rs'
    → Tiles s' end' p b (ls ++ rs')
splice b ls rs rs' whole part =
    Tiles-append b ls rs' (Tiles-frame (λ a u v. part.before a v) (Tiles-left b ls rs whole))
      part.row
