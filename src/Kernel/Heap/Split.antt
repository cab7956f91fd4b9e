-- ===== src/Kernel/Heap/Split.antt =====
-- `split_block` on the row of tiles.
use os_porting.Base.{
  ℕ, ◌+◌, ◌-◌, ◌%◌, ◌^◌, ◌≤◌, ◌<◌, ◌≡◌, sym, subst, arith, inl, inr, Option, none, List, [], ◌∷◌,
  ◌++◌, length, append_assoc, put, ltb, if◌then◌else◌, Bool-cases, Yields, yields, Yields-bind,
}
use os_porting.Kernel.Heap.{
  Heap, Blocks, block_get_size, fuel, count_block, cut, free_list_add, split_block,
}
use os_porting.Kernel.Heap.Frees.{u64}
use os_porting.Kernel.Heap.Frees.Chain.{Chain-put_between}
use os_porting.Kernel.Heap.Frees.Laws.{Lists, Between}
use os_porting.Kernel.Heap.Tiles.{
  Tile, used, free, size_of, Tiles, tile, past, past-snoc, Tiles-right, frees,
}
use os_porting.Kernel.Heap.Edits.{get_size, resized, size_of-resized}
use os_porting.Kernel.Heap.Rows.{splice, cut-Becomes}
use os_porting.Kernel.Heap.Steps.{After, after, Yields-over, gap, free_list_add-After}

-- What `split_block` makes of a tile.
abbrev pub cut_tile : Tile → ℕ → List Tile → List Tile
cut_tile t n rs = if ltb (size_of t - n) 64 then t ∷ rs else resized t n ∷ free (size_of t - n) ∷ rs

pub size_at :
    {s : Blocks} {end : ℕ} {p : Option ℕ} {b : ℕ} {t : Tile} {rs : List Tile}
    → Tiles s end p b (t ∷ rs)
    → block_get_size b s ≡ size_of t
size_at (tile h r) = get_size h

add_behind :
    (h : Heap) (ls rs : List Tile) (t u : Tile) (xs ys : List ℕ)
    → Tiles h.blocks h.end none h.start (ls ++ t ∷ u ∷ rs)
    → Lists (xs ++ ys) h.free
    → Between xs (past h.start ls + size_of t) ys
    → length xs ≤ fuel h
    → length (xs ++ ys) + 1 < 2 ^ 64
    → Yields
        (After h (ls ++ t ∷ free (size_of u) ∷ rs) (xs ++ (past h.start ls + size_of t) ∷ ys))
        (free_list_add (past h.start ls + size_of t) h)
add_behind h ls rs t u xs ys row list between few room =
    let at = past-snoc h.start ls t in
    let whole : (us : List Tile) → (ls ++ t ∷ []) ++ us ≡ ls ++ t ∷ us =
      λ us. append_assoc ls (t ∷ []) us in
    let row' = subst (Tiles h.blocks h.end none h.start) (sym (whole (u ∷ rs))) row in
    let added =
      free_list_add-After h (ls ++ t ∷ []) rs u xs ys row' list
        (subst (λ c. Between xs c ys) (sym at) between) few room in
    let there =
      subst
        (λ c.
          Yields (After h ((ls ++ t ∷ []) ++ free (size_of u) ∷ rs) (xs ++ c ∷ ys))
            (free_list_add c h))
        at added in
    subst
      (λ ts.
        Yields (After h ts (xs ++ (past h.start ls + size_of t) ∷ ys))
          (free_list_add (past h.start ls + size_of t) h))
      (whole (free (size_of u) ∷ rs)) there

After-count_block :
    {h h' : Heap} {ts : List Tile} {bs : List ℕ} → After h ts bs h' → After h ts bs (count_block h')
After-count_block (after row list) = after row list

split_on-After :
    (h : Heap) (ls rs : List Tile) (t : Tile) (n m : ℕ)
    → h.end < 2 ^ 64
    → 0 < h.start
    → Tiles h.blocks h.end none h.start (ls ++ t ∷ rs)
    → Lists (frees h.start ls ++ frees (past h.start ls + size_of t) rs) h.free
    → n % 16 ≡ 0
    → 64 ≤ n
    → 64 ≤ m
    → size_of t ≡ n + m
    → Yields
        (After h
          (ls ++ resized t n ∷ free m ∷ rs)
          (frees h.start ls ++ frees (past h.start ls) (used n ∷ free m ∷ rs)))
        (free_list_add (past h.start ls + n) (record h {
          blocks = cut h.end (past h.start ls + n) (past h.start ls) n m h.blocks;
          free = record (h.free) { next = put h.free.next (past h.start ls + n) none };
        }))
unfolding frees
split_on-After h ls rs t n m small low row list round enough room split =
    let b = past h.start ls in
    let g = gap h ls rs t small low row in
    let size = size_of-resized t n in
    let tail : b + size_of t ≡ b + n + m = omega arith in
    let between = g.between n (omega arith) in
    let h' : Heap = record h {
      blocks = cut h.end (b + n) b n m h.blocks;
      free = record (h.free) { next = put h.free.next (b + n) none };
    } in
    let row' : Tiles h'.blocks h.end none h.start (ls ++ resized t n ∷ free m ∷ rs) =
      splice h.start ls (t ∷ rs) (resized t n ∷ free m ∷ rs) row
        (cut-Becomes b n m t small split round enough room (Tiles-right h.start ls (t ∷ rs) row)) in
    let list' : Lists (frees h.start ls ++ frees (b + size_of t) rs) h'.free = record {
      chain =
          Chain-put_between (frees h.start ls) (frees (b + size_of t) rs) h.free.next h.free.head
            (b + n) none between.below between.above list.chain;
      counted = list.counted;
    } in
    let xs = frees h.start ls in
    let ys = frees (b + size_of t) rs in
    let added = Yields-over h (
      add_behind h' ls rs (resized t n) (free m) xs ys row' list'
        (subst (λ k. Between xs (b + k) ys) (sym size) between) g.few g.room) in
    let there =
      subst
        (λ k.
          Yields (After h (ls ++ resized t n ∷ free m ∷ rs) (xs ++ (b + k) ∷ ys))
            (free_list_add (b + k) h'))
        size added in
    rw (← tail) there

pub split_block-After :
    (h : Heap) (ls rs : List Tile) (t : Tile) (n : ℕ)
    → h.end < 2 ^ 64
    → 0 < h.start
    → Tiles h.blocks h.end none h.start (ls ++ t ∷ rs)
    → Lists (frees h.start ls ++ frees (past h.start ls + size_of t) rs) h.free
    → n % 16 ≡ 0
    → 64 ≤ n
    → n ≤ size_of t
    → Yields
        (After h
          (ls ++ cut_tile t n rs)
          (frees h.start ls ++ frees (past h.start ls) (cut_tile (used (size_of t)) n rs)))
        (split_block (past h.start ls) n h)
unfolding split_block frees
split_block-After h ls rs t n small low row list round enough fits =
    let b = past h.start ls in
    let g = gap h ls rs t small low row in
    let right = Tiles-right h.start ls (t ∷ rs) row in
    let size : block_get_size b h.blocks ≡ size_of t = size_at right in
    let rest : u64 (size_of t + 2 ^ 64 - n) ≡ size_of t - n = omega (arith, g.inside) in
    let place : u64 (b + n) ≡ b + n = omega (arith, g.inside) in
    rw (size, rest, place)
      (elim (Bool-cases (ltb (size_of t - n) 64)) [
        | inl e ↦ rw e (yields (after row list))
        | inr e ↦
            let room : 64 ≤ size_of t - n = ground arith in
            let split : size_of t ≡ n + (size_of t - n) = omega arith in
            rw e (
              Yields-bind
                (split_on-After h ls rs t n (size_of t - n) small low row list round enough room
                  split)
                (λ h' a. yields (After-count_block a)))
      ])
