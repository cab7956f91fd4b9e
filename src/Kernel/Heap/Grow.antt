-- ===== src/Kernel/Heap/Grow.antt =====
-- `heap_expand`: a free block behind the last one.
use os_porting.Base.{
  ℕ, zero, suc, ◌+◌, ◌%◌, ◌^◌, ◌≤◌, ◌<◌, ◌≡◌, refl, sym, subst, ap, arith, Bool, true, false,
  Option, none, some, List, [], ◌∷◌, ◌++◌, append-nil, leb, ◌∙◌, ◌>>=◌, Yields, yields, Yields-bind,
  length, length-append,
}
use os_porting.Kernel.Heap.{
  Heap, Blocks, fuel, new_header, free_list_add, coalesce_blocks, block_get_next_physical,
}
use os_porting.Kernel.Heap.Calls.{last_block, grown, extend}
use os_porting.Kernel.Heap.Frees.{u64}
use os_porting.Kernel.Heap.Frees.Chain.{Chain, Below, Rising, Chain-put_between, Rising-weaken}
use os_porting.Kernel.Heap.Frees.Laws.{Lists, Between}
use os_porting.Kernel.Heap.Tiles.{
  Tile, free, size_of, Tiles, done, tile, past, total, back, Tiles-frame, Tiles-append, Tiles-end,
  frees, frees-append, frees-Rising, frees-Below, length-frees, Tiles-low,
}
use os_porting.Kernel.Heap.Edits.{get_size, Header-new, same-new_header}
use os_porting.Kernel.Heap.Rows.{next_physical, next_physical_end}
use os_porting.Kernel.Heap.Steps.{After, after, After_over, Yields-over, over, free_list_add-After}
use os_porting.Kernel.Heap.Settle.{put_free}
use os_porting.Kernel.Heap.Merge.{coalesce_blocks-Tidy}
use os_porting.Kernel.Heap.Apart.{put_free-end}
use os_porting.Kernel.Heap.Inv.{Inv, Inv-small}

row_length :
    {s : Blocks} {end : ℕ} (ts : List Tile) {p : Option ℕ} {b : ℕ}
    → Tiles s end p b ts
    → length ts + b ≤ end
row_length [] (done e) = omega arith
row_length (t ∷ ts) (tile h r) = omega (arith, h.enough, row_length ts r)

-- The walk from the first block ends at the last.
last_block_lem :
    {s : Blocks} {end : ℕ} (t : Tile) (ts : List Tile) (fuel : ℕ) {p : Option ℕ} (b : ℕ)
    → end < 2 ^ 64
    → Tiles s end p b (t ∷ ts)
    → length (t ∷ ts) ≤ fuel
    → Yields (λ q. back p b (t ∷ ts) ≡ some q) (last_block s end fuel b)
unfolding last_block back
last_block_lem t ts zero b small row room = absurd (omega arith)
last_block_lem {s} {end} t [] (suc fuel) {p} b small (tile h (done e)) room =
    let last : block_get_next_physical b s end ≡ none =
      subst (λ c. block_get_next_physical b s c ≡ none) e
        (next_physical_end s b (get_size h) (omega arith)) in
    rw last (yields refl)
last_block_lem {s} {end} t (u ∷ ts) (suc fuel) {p} b small (tile h (tile k r)) room =
    let inside : b + size_of t < end = omega (arith, k.enough, Tiles-low r) in
    let next = next_physical s {end = end} b (get_size h) inside (omega arith) in
    let go : leb end (b + size_of t) ≡ false = ground arith in
    rw (next, go) (last_block_lem u ts fuel (b + size_of t) small (tile k r) (omega arith))

-- The heap with its end moved up.
abbrev pub raised : ℕ → Heap → Heap
raised size h = record h { end = h.end + size }

-- The row with the new block.
longer_row :
    (h : Heap) (ts : List Tile) (q size : ℕ)
    → Tiles h.blocks h.end none h.start ts
    → back none h.start ts ≡ some q
    → size % 16 ≡ 0
    → 64 ≤ size
    → Tiles
        (new_header h.end (some q) size h.blocks)
        (h.end + size)
        none
        h.start
        (ts ++ free size ∷ [])
longer_row h ts q size row e round enough =
    let s = new_header h.end (some q) size h.blocks in
    let ends = Tiles-end row in
    let old : Tiles s (past h.start ts) none h.start ts =
      subst (λ c. Tiles s c none h.start ts) (sym ends)
        (Tiles-frame (λ a u v. same-new_header (omega arith) (some q) size) row) in
    let new : Tiles s (h.end + size) (some q) h.end (free size ∷ []) =
      tile (Header-new h.blocks (some q) h.end size round enough) (done refl) in
    Tiles-append h.start ts (free size ∷ []) old (
      subst (λ p. Tiles s (h.end + size) p (past h.start ts) (free size ∷ [])) (sym e)
        (subst (λ c. Tiles s (h.end + size) (some q) c (free size ∷ [])) (sym ends) new))

-- What is left of the call once the last block is known.
pub data Grown (h : Heap) (ts : List Tile) (size : ℕ) : Bool × Heap → Type 0 where
  longer :
      {h' : Heap}
      → After (raised size h) (put_free ts size []) (frees h.start (put_free ts size [])) h'
      → Grown h ts size (true, h')

-- The new block joins the list, and merges with the block before.
join_list :
    (h : Heap) (ts : List Tile) (q size : ℕ)
    → Inv h ts
    → back none h.start ts ≡ some q
    → size % 16 ≡ 0
    → 64 ≤ size
    → h.end + size < 2 ^ 64
    → Yields
        (After (raised size h) (ts ++ free size ∷ []) (frees h.start (ts ++ free size ∷ [])))
        (free_list_add h.end (grown size q h))
unfolding frees Rising
join_list h ts q size v e round enough fits =
    let xs = frees h.start ts in
    let few = length-frees ts v.row in
    let no_wrap : u64 (h.end + size) ≡ h.end + size = omega arith in
    let ends = Tiles-end v.row in
    let base = raised size h in
    let h1 : Heap = record (grown size q h) { end = h.end + size } in
    let row = longer_row h ts q size v.row e round enough in
    let below : Below h.end (frees h.start ts) = frees-Below ts v.row in
    let list : Lists (xs ++ []) h1.free = record {
      chain =
          Chain-put_between xs [] h.free.next h.free.head h.end none below tt
            (subst (Chain h.free.next h.free.head) (sym (append-nil xs)) v.list.chain);
      counted = v.list.counted ∙ ap length (sym (append-nil xs));
    } in
    let between : Between xs (past h.start ts) [] = record {
      rising = Rising-weaken xs h.start 0 (omega arith) (frees-Rising ts v.row);
      below = subst (λ c. Below c xs) (sym ends) below;
      above = tt;
    } in
    let added =
      free_list_add-After h1 ts [] (free size) xs [] row list between (omega arith)
        (omega (arith, length-append xs [])) in
    let row_list = frees-append ts (free size ∷ []) h.start in
    let at_end =
      subst
        (λ c.
          Yields (After base (ts ++ free size ∷ []) (xs ++ past h.start ts ∷ []))
            (free_list_add c h1))
        ends (Yields-over base added) in
    rw (no_wrap, row_list) at_end

merge_last :
    (h : Heap) (ts : List Tile) (size : ℕ) (h' : Heap)
    → past h.start ts ≡ h.end
    → h.end + size < 2 ^ 64
    → 0 < h.start
    → After (raised size h) (ts ++ free size ∷ []) (frees h.start (ts ++ free size ∷ [])) h'
    → Yields (Grown h ts size) (coalesce_blocks h.end h' >>= λ h''. some (true, h''))
merge_last h ts size _ ends fits low (after {s} {l} {c} row list) =
    let h1 = over (raised size h) s l c in
    let merged =
      subst
        (λ b.
          Yields (After h1 (put_free ts size []) (frees h.start (put_free ts size [])))
            (coalesce_blocks b h1))
        ends (coalesce_blocks-Tidy h1 ts [] size fits low row list) in
    Yields-bind merged (λ h'' tidy. yields (longer (After_over tidy)))

pub some_tile :
    {h : Heap} (ts : List Tile) → Inv h ts → (t : Tile) × (us : List Tile) × (ts ≡ t ∷ us)
unfolding total
some_tile [] v = absurd (omega (arith, v.some_room, Tiles-end v.row))
some_tile (t ∷ us) v = (t, us, refl)

walk_to_end :
    (h : Heap) (ts : List Tile)
    → Inv h ts
    → Yields (λ q. back none h.start ts ≡ some q) (last_block h.blocks h.end (fuel h + 1) h.start)
walk_to_end h ts v =
    let (t, us, e) = some_tile ts v in
    let row = subst (Tiles h.blocks h.end none h.start) e v.row in
    let many = row_length (t ∷ us) row in
    let found =
      last_block_lem t us (fuel h + 1) h.start (Inv-small v) row (omega (arith, v.some_room)) in
    subst
      (λ us.
        Yields (λ q. back none h.start us ≡ some q)
          (last_block h.blocks h.end (fuel h + 1) h.start))
      (sym e) found

pub extend-Grown :
    (h : Heap) (ts : List Tile) (size : ℕ)
    → Inv h ts
    → size % 16 ≡ 0
    → 64 ≤ size
    → h.end + size < 2 ^ 64
    → Yields (Grown h ts size) (extend size h)
extend-Grown h ts size v round enough fits = Yields-bind (walk_to_end h ts v) (λ q e.
    Yields-bind (join_list h ts q size v e round enough fits)
      (λ h' a. merge_last h ts size h' (Tiles-end v.row) fits v.low a))

-- The heap stays in order where it does not pass its limit.
pub Grown-Inv :
    (h : Heap) (ts : List Tile) (size : ℕ) (h' : Heap)
    → Inv h ts
    → h.end + size ≤ h.max
    → After (raised size h) (put_free ts size []) (frees h.start (put_free ts size [])) h'
    → Inv h' (put_free ts size [])
Grown-Inv h ts size _ v limit (after row list) = record {
  ready = v.ready;
  row = row;
  list = list;
  apart = put_free-end ts size v.apart;
  round = v.round;
  low = v.low;
  some_room = omega (arith, v.some_room);
  limit = limit;
  physical = v.physical;
}
