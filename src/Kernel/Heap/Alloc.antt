-- ===== src/Kernel/Heap/Alloc.antt =====
-- `kmalloc` from a block of the list.
use os_porting.Base.{
  if◌then◌else◌, ℕ, ◌+◌, ◌-◌, ◌%◌, ◌^◌, ◌≤◌, ◌<◌, ◌≡◌, arith, Bool, true, false, Option, some, List,
  ◌∷◌, ◌++◌, ltb, Yields, yields, Yields-bind,
}
use os_porting.Kernel.Heap.{Heap, Blocks, block_set_used, split_block}
use os_porting.Kernel.Heap.Calls.{hand_out, charge, block_to_data}
use os_porting.Kernel.Heap.Tiles.{Tile, used, free, Tiles, past, Tiles-right, frees, frees-append}
use os_porting.Kernel.Heap.Rows.{Becomes, used-Becomes, splice}
use os_porting.Kernel.Heap.Steps.{After, after, Yields-over, over, gap, free_list_remove-After}
use os_porting.Kernel.Heap.Split.{cut_tile, split_block-After}
use os_porting.Kernel.Heap.Inv.{Inv, Inv-small}

-- A pointer and the heap's tiles.
pub data Handed (h : Heap) (p : ℕ) (ts : List Tile) : Option ℕ × Heap → Type 0 where
  handed : {h' : Heap} → After h ts (frees h.start ts) h' → Handed h p ts (some p, h')

cut_by :
    {s : Blocks} {end : ℕ} {p : Option ℕ} (b m n : ℕ) (rs : List Tile) (whole : Bool)
    → Tiles s end p b (if whole then free m ∷ rs else free n ∷ free (m - n) ∷ rs)
    → Becomes s
        (block_set_used b s)
        end
        p
        b
        (if whole then used m ∷ rs else used n ∷ free (m - n) ∷ rs)
cut_by b m n rs true row = used-Becomes b (free m) row
cut_by b m n rs false row = used-Becomes b (free n) row

charge-After :
    (h h' : Heap) (ls rs : List Tile) (m n : ℕ)
    → After h
        (ls ++ cut_tile (free m) n rs)
        (frees h.start ls ++ frees (past h.start ls) (cut_tile (used m) n rs))
        h'
    → After h
        (ls ++ cut_tile (used m) n rs)
        (frees h.start (ls ++ cut_tile (used m) n rs))
        (charge (past h.start ls) h')
charge-After h _ ls rs m n (after row list) =
    let b = past h.start ls in
    let marked =
      cut_by b m n rs (ltb (m - n) 64) (Tiles-right h.start ls (cut_tile (free m) n rs) row) in
    rw (frees-append ls (cut_tile (used m) n rs) h.start)
      (after (splice h.start ls (cut_tile (free m) n rs) (cut_tile (used m) n rs) row marked) list)

split_after :
    (h h1 : Heap) (ls rs : List Tile) (m n : ℕ)
    → h.end < 2 ^ 64
    → 0 < h.start
    → n % 16 ≡ 0
    → 64 ≤ n
    → n ≤ m
    → After h (ls ++ free m ∷ rs) (frees h.start ls ++ frees (past h.start ls + m) rs) h1
    → Yields
        (After h
          (ls ++ cut_tile (free m) n rs)
          (frees h.start ls ++ frees (past h.start ls) (cut_tile (used m) n rs)))
        (split_block (past h.start ls) n h1)
split_after h _ ls rs m n small low round enough fits (after {s} {l} {c} row list) =
    Yields-over h
      (split_block-After (over h s l c) ls rs (free m) n small low row list round enough fits)

pub hand_out-Handed :
    (h : Heap) (ls rs : List Tile) (m n : ℕ)
    → Inv h (ls ++ free m ∷ rs)
    → n % 16 ≡ 0
    → 64 ≤ n
    → n ≤ m
    → Yields
        (Handed h (past h.start ls + 32) (ls ++ cut_tile (used m) n rs))
        (hand_out n (past h.start ls) h)
unfolding hand_out
hand_out-Handed h ls rs m n v round enough fits =
    let small = Inv-small v in
    let g = gap h ls rs (free m) small v.low v.row in
    let data_at : block_to_data (past h.start ls) ≡ past h.start ls + 32 =
      omega (arith, g.enough, g.inside) in
    Yields-bind (free_list_remove-After h ls rs m small v.low v.row v.list) (λ h1 a1.
      Yields-bind (split_after h h1 ls rs m n small v.low round enough fits a1)
        (λ h2 a2. rw data_at (yields (handed (charge-After h h2 ls rs m n a2)))))
