-- ===== src/Kernel/Heap/Release.antt =====
-- `kfree` of a pointer that `kmalloc` gave.
use os_porting.Base.{
  ℕ, ◌+◌, ◌^◌, ◌<◌, ◌≡◌, refl, sym, subst, ap, arith, true, false, not, Option, none, some, List,
  ◌∷◌, ◌++◌, leb, ltb, ◌==◌, Yields, Yields-bind, Yields-mono,
}
use os_porting.Kernel.Heap.{
  Heap, Blocks, block_set_free, block_magic, free_list_add, coalesce_blocks,
}
use os_porting.Kernel.Heap.Calls.{kfree, give_back, uncharge, data_to_block}
use os_porting.Kernel.Heap.Frees.Laws.{Lists, Between}
use os_porting.Kernel.Heap.Tiles.{
  Tile, used, free, Header, Tiles, tile, past, Tiles-right, frees, frees-append,
}
use os_porting.Kernel.Heap.Edits.{is_used-Header}
use os_porting.Kernel.Heap.Rows.{splice, free-Becomes}
use os_porting.Kernel.Heap.Steps.{After, after, Yields-over, over, gap, free_list_add-After}
use os_porting.Kernel.Heap.Settle.{put_free}
use os_porting.Kernel.Heap.Merge.{coalesce_blocks-Tidy}
use os_porting.Kernel.Heap.Apart.{put_free-IsApart}
use os_porting.Kernel.Heap.Inv.{Inv, Inv-small, After-Inv}

-- The block joins the list, and then its free neighbours.
rejoin :
    (h h' : Heap) (ls rs : List Tile) (n m : ℕ)
    → h.end < 2 ^ 64
    → 0 < h.start
    → After h (ls ++ free n ∷ rs) (frees h.start (ls ++ free n ∷ rs)) h'
    → Yields
        (After h (put_free ls n rs) (frees h.start (put_free ls n rs)))
        (coalesce_blocks (past h.start ls) (uncharge m h'))
rejoin h _ ls rs n m small low (after {s} {l} {c} row list) =
    let h1 = uncharge m (over h s l c) in
    Yields-over h (coalesce_blocks-Tidy h1 ls rs n small low row list)

give_back-Freed :
    (h : Heap) (ls rs : List Tile) (n : ℕ)
    → Inv h (ls ++ used n ∷ rs)
    → Yields
        (After h (put_free ls n rs) (frees h.start (put_free ls n rs)))
        (give_back (past h.start ls) h)
unfolding give_back frees
give_back-Freed h ls rs n v =
    let small = Inv-small v in
    let b = past h.start ls in
    let g = gap h ls rs (used n) small v.low v.row in
    let here : b + 0 ≡ b = omega arith in
    let xs = frees h.start ls in
    let ys = frees (b + n) rs in
    let marked = free-Becomes b (used n) (Tiles-right h.start ls (used n ∷ rs) v.row) in
    let h1 : Heap = record h { blocks = block_set_free b h.blocks } in
    let row1 : Tiles h1.blocks h.end none h.start (ls ++ free n ∷ rs) =
      splice h.start ls (used n ∷ rs) (free n ∷ rs) v.row marked in
    let list1 = subst (λ bs. Lists bs h.free) (frees-append ls (used n ∷ rs) h.start) v.list in
    let between = subst (λ c. Between xs c ys) here (g.between 0 (omega (arith, g.enough))) in
    let added =
      Yields-over h (free_list_add-After h1 ls rs (free n) xs ys row1 list1 between g.few g.room) in
    let all =
      subst (λ bs. Yields (After h (ls ++ free n ∷ rs) bs) (free_list_add b h1))
        (sym (frees-append ls (free n ∷ rs) h.start)) added in
    Yields-bind all (λ h' a. rejoin h h' ls rs n _ small v.low a)

pub tile_head :
    {s : Blocks} {end : ℕ} {p : Option ℕ} {b : ℕ} {t : Tile} {rs : List Tile}
    → Tiles s end p b (t ∷ rs)
    → Header s p b t
tile_head (tile h r) = h

-- `kfree` of the pointer behind the header of a block in use: the block becomes free, and one with
-- its free neighbours; the heap is in order again, and only headers, the list and counters changed.
pub kfree-Freed :
    (h : Heap) (ls rs : List Tile) (n : ℕ)
    → Inv h (ls ++ used n ∷ rs)
    → Yields
        (λ h'.
          After h (put_free ls n rs) (frees h.start (put_free ls n rs)) h'
          × Inv h' (put_free ls n rs))
        (kfree (some (past h.start ls + 32)) h)
unfolding kfree
kfree-Freed h ls rs n v =
    let b = past h.start ls in
    let g = gap h ls rs (used n) (Inv-small v) v.low v.row in
    let head = tile_head (Tiles-right h.start ls (used n ∷ rs) v.row) in
    let place : data_to_block (b + 32) ≡ b = omega (arith, g.inside, Inv-small v) in
    let usable : not h.initialized ≡ false = ap not v.ready in
    let known : (h.blocks.magic b == block_magic) ≡ true = rw head.magic refl in
    let below : ltb b h.start ≡ false = ground arith in
    let inside : leb h.end b ≡ false = ground (arith, g.enough, g.inside) in
    rw (place, usable, known, is_used-Header (used n) head, below, inside)
      (Yields-mono (give_back-Freed h ls rs n v)
        (λ h' a. (a, After-Inv h h' v (put_free-IsApart ls rs n n v.apart) a)))
