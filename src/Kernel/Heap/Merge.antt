-- ===== src/Kernel/Heap/Merge.antt =====
-- `coalesce_blocks` on the row of tiles.
use os_porting.Base.{
  ℕ, ◌+◌, ◌^◌, ◌<◌, ◌≡◌, subst, arith, Option, none, some, List, [], ◌∷◌, ◌++◌, append_assoc,
  Yields, yields, Yields-bind,
}
use os_porting.Kernel.Heap.{
  Heap, Blocks, block_is_used, block_get_next_physical, merge_next, merge_prev, coalesce_blocks,
}
use os_porting.Kernel.Heap.Frees.Laws.{Lists}
use os_porting.Kernel.Heap.Tiles.{
  Tile, used, free, Tiles, done, tile, past, past-snoc, back, back-append, Tiles-right, frees,
  Tiles-low,
}
use os_porting.Kernel.Heap.Edits.{get_size, is_used-Header, is_used}
use os_porting.Kernel.Heap.Rows.{next_physical, next_physical_end}
use os_porting.Kernel.Heap.Settle.{
  left_of, put_free, Snoc, empty, snoc, last_of, left_of-used, left_of-free,
}
use os_porting.Kernel.Heap.Absorb.{Tidy, absorb-Tidy}
use os_porting.Kernel.Heap.Steps.{after, Yields-over, over}

-- The first merge.
abbrev settled : ℕ → List Tile → List Tile
settled n [] = free n ∷ []
settled n (used m ∷ rs) = free n ∷ used m ∷ rs
settled n (free m ∷ rs) = free (n + m) ∷ rs

-- The block behind the one at `b`.
next_used :
    {s : Blocks} {end n : ℕ} {p : Option ℕ} {b : ℕ} (u : Tile) {rs : List Tile}
    → end < 2 ^ 64
    → Tiles s end p b (free n ∷ u ∷ rs)
    → (block_get_next_physical b s end ≡ some (b + n)) × (block_is_used (b + n) s ≡ is_used u)
next_used {s} {end} {n} {p} {b} u small (tile h (tile k r)) = (
  next_physical s {end = end} b (get_size h) (omega (arith, k.enough, Tiles-low r)) (omega arith),
  is_used-Header u k,
)

next_none :
    {s : Blocks} {end n : ℕ} {p : Option ℕ} {b : ℕ}
    → end < 2 ^ 64
    → Tiles s end p b (free n ∷ [])
    → block_get_next_physical b s end ≡ none
next_none {s} {end} {n} {p} {b} small (tile h (done e)) =
    subst (λ c. block_get_next_physical b s c ≡ none) e
      (next_physical_end s b (get_size h) (omega arith))

merge_next-Tidy :
    (h : Heap) (ls rs : List Tile) (n : ℕ)
    → h.end < 2 ^ 64
    → 0 < h.start
    → Tiles h.blocks h.end none h.start (ls ++ free n ∷ rs)
    → Lists (frees h.start (ls ++ free n ∷ rs)) h.free
    → Yields
        (Tidy h (ls ++ settled n rs))
        (merge_next (block_get_next_physical (past h.start ls) h.blocks h.end) (past h.start ls) h)
merge_next-Tidy h ls [] n small low row list =
    rw (next_none small (Tiles-right h.start ls (free n ∷ []) row)) (yields (after row list))
merge_next-Tidy h ls (used m ∷ rs) n small low row list =
    let next = next_used (used m) small (Tiles-right h.start ls (free n ∷ used m ∷ rs) row) in
    rw (next.0, next.1) (yields (after row list))
merge_next-Tidy h ls (free m ∷ rs) n small low row list =
    let next = next_used (free m) small (Tiles-right h.start ls (free n ∷ free m ∷ rs) row) in
    rw (next.0, next.1) (absorb-Tidy h ls rs n m small low row list)

-- The second merge, for the block behind the row `ls`.
head_prev :
    {s : Blocks} {end : ℕ} {p : Option ℕ} {b : ℕ} {t : Tile} {rs : List Tile}
    → Tiles s end p b (t ∷ rs)
    → s.prev b ≡ p
head_prev (tile h r) = h.prev

head_used :
    {s : Blocks} {end : ℕ} {p : Option ℕ} {b : ℕ} (t : Tile) {rs : List Tile}
    → Tiles s end p b (t ∷ rs)
    → block_is_used b s ≡ is_used t
head_used t (tile h r) = is_used-Header t h

merge_prev-Tidy :
    (h : Heap) (ls rs : List Tile) (n : ℕ)
    → Snoc ls
    → h.end < 2 ^ 64
    → 0 < h.start
    → Tiles h.blocks h.end none h.start (ls ++ free n ∷ rs)
    → Lists (frees h.start (ls ++ free n ∷ rs)) h.free
    → Yields (Tidy h (left_of ls n rs)) (merge_prev (back none h.start ls) (past h.start ls) h)
unfolding back
merge_prev-Tidy h _ rs n empty small low row list = yields (after row list)
merge_prev-Tidy h _ rs n (snoc ls (used m)) small low row list =
    let whole : (ls ++ used m ∷ []) ++ free n ∷ rs ≡ ls ++ used m ∷ free n ∷ rs =
      append_assoc ls (used m ∷ []) (free n ∷ rs) in
    let row' = subst (Tiles h.blocks h.end none h.start) whole row in
    let taken = head_used (used m) (Tiles-right h.start ls (used m ∷ free n ∷ rs) row') in
    rw (back-append none ls h.start (used m), taken, left_of-used ls m n rs)
      (yields (after row list))
merge_prev-Tidy h _ rs n (snoc ls (free m)) small low row list =
    let whole : (ls ++ free m ∷ []) ++ free n ∷ rs ≡ ls ++ free m ∷ free n ∷ rs =
      append_assoc ls (free m ∷ []) (free n ∷ rs) in
    let row' = subst (Tiles h.blocks h.end none h.start) whole row in
    let open_left = head_used (free m) (Tiles-right h.start ls (free m ∷ free n ∷ rs) row') in
    rw
      (
        back-append none ls h.start (free m),
        open_left,
        left_of-free ls m n rs,
        past-snoc h.start ls (free m),
      )
      (absorb-Tidy h ls rs m n small low row'
        (subst (λ ts. Lists (frees h.start ts) h.free) whole list))

-- The row after the first merge has the same tiles on the left.
merge_rest :
    (h h' : Heap) (ls rs : List Tile) (n : ℕ)
    → h.end < 2 ^ 64
    → 0 < h.start
    → Tidy h (ls ++ free n ∷ rs) h'
    → Yields
        (Tidy h (left_of ls n rs))
        (merge_prev (h'.blocks.prev (past h.start ls)) (past h.start ls) h')
merge_rest h _ ls rs n small low (after {s} {l} {c} row list) =
    rw (head_prev (Tiles-right h.start ls (free n ∷ rs) row))
      (Yields-over h (merge_prev-Tidy (over h s l c) ls rs n (last_of ls) small low row list))

merge_both :
    (h h' : Heap) (ls rs : List Tile) (n : ℕ)
    → h.end < 2 ^ 64
    → 0 < h.start
    → Tidy h (ls ++ settled n rs) h'
    → Yields
        (Tidy h (put_free ls n rs))
        (merge_prev (h'.blocks.prev (past h.start ls)) (past h.start ls) h')
merge_both h h' ls [] n small low tidy = merge_rest h h' ls [] n small low tidy
merge_both h h' ls (used m ∷ rs) n small low tidy =
    merge_rest h h' ls (used m ∷ rs) n small low tidy
merge_both h h' ls (free m ∷ rs) n small low tidy = merge_rest h h' ls rs (n + m) small low tidy

pub coalesce_blocks-Tidy :
    (h : Heap) (ls rs : List Tile) (n : ℕ)
    → h.end < 2 ^ 64
    → 0 < h.start
    → Tiles h.blocks h.end none h.start (ls ++ free n ∷ rs)
    → Lists (frees h.start (ls ++ free n ∷ rs)) h.free
    → Yields (Tidy h (put_free ls n rs)) (coalesce_blocks (past h.start ls) h)
unfolding coalesce_blocks
coalesce_blocks-Tidy h ls rs n small low row list =
    rw (head_used (free n) (Tiles-right h.start ls (free n ∷ rs) row)) (
      Yields-bind (merge_next-Tidy h ls rs n small low row list)
        (λ h' tidy. merge_both h h' ls rs n small low tidy))
