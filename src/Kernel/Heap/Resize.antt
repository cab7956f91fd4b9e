-- ===== src/Kernel/Heap/Resize.antt =====
-- `krealloc` where the block stays in its place.
use os_porting.Base.{
  ℕ, ◌+◌, ◌-◌, ◌%◌, ◌^◌, ◌≤◌, ◌<◌, ◌≡◌, inl, inr, refl, sym, subst, ap, arith, true, false, not,
  max, Option, none, some, List, [], ◌∷◌, ◌++◌, append_assoc, leb, ltb, ◌==◌, Bool-cases, ◌∙◌,
  Yields, yields, Yields-bind,
}
use os_porting.Kernel.Heap.{
  Heap, Blocks, block_get_size, block_is_used, block_get_next_physical, block_magic,
  free_list_remove, split_block, align_size, header_size, min_block_size,
}
use os_porting.Kernel.Heap.Calls.{data_to_block}
use os_porting.Kernel.Heap.More.{krealloc, grow_in_place, joined_with}
use os_porting.Kernel.Heap.Frees.{u64}
use os_porting.Kernel.Heap.Frees.Laws.{Lists}
use os_porting.Kernel.Heap.Tiles.{
  Tile, used, free, Tiles, tile, past, total, past-snoc, Tiles-right, frees, frees-append,
  Tiles-low,
}
use os_porting.Kernel.Heap.Edits.{get_size, is_used-Header}
use os_porting.Kernel.Heap.Rows.{splice, merge-Becomes, next_physical}
use os_porting.Kernel.Heap.Steps.{After, after, Yields-over, over, free_list_remove-After}
use os_porting.Kernel.Heap.Split.{cut_tile, split_block-After}
use os_porting.Kernel.Heap.Apart.{IsApart, starts_free, IsApart-stay, IsApart-right}
use os_porting.Kernel.Heap.Inv.{Inv, Inv-small, After-Inv}
use os_porting.Kernel.Heap.Malloc.{block_for}
use os_porting.Kernel.Heap.Trip.{Is}

-- A block in use and the free one behind it.
record Pair (s : Blocks) (end b n m : ℕ) : Type 0 where
  first : block_get_size b s ≡ n
  in_use : block_is_used b s ≡ true
  magic : s.magic b ≡ block_magic
  next : block_get_next_physical b s end ≡ some (b + n)
  second : block_get_size (b + n) s ≡ m
  available : block_is_used (b + n) s ≡ false
  enough : 64 ≤ n
  inside : b + n + m ≤ end

neighbours :
    {s : Blocks} {end : ℕ} {p : Option ℕ} {b n m : ℕ} {rs : List Tile}
    → end < 2 ^ 64
    → Tiles s end p b (used n ∷ free m ∷ rs)
    → Pair s end b n m
neighbours {s} {end} {p} {b} {n} {m} small (tile h (tile k r)) = record {
  first = get_size h;
  in_use = is_used-Header (used n) h;
  magic = h.magic;
  next =
      next_physical s {end = end} b (get_size h) (omega (arith, k.enough, Tiles-low r))
        (omega arith);
  second = get_size k;
  available = is_used-Header (free m) k;
  enough = h.enough;
  inside = Tiles-low r;
}

frees_skip :
    (a n m : ℕ) (ls rs : List Tile)
    → frees a (ls ++ used n ∷ []) ++ frees (past a (ls ++ used n ∷ []) + m) rs
      ≡ frees a ls ++ frees (past a ls + (n + m)) rs
unfolding frees total
frees_skip a n m [] rs = ap (λ c. frees c rs) (omega arith)
frees_skip a n m (used k ∷ ls) rs =
    ap (λ c. frees (a + k) (ls ++ used n ∷ []) ++ frees c rs) (omega arith)
    ∙ frees_skip (a + k) n m ls rs
    ∙ ap (λ c. frees (a + k) ls ++ frees c rs) (omega arith)
frees_skip a n m (free k ∷ ls) rs =
    ap (λ c. a ∷ frees (a + k) (ls ++ used n ∷ []) ++ frees c rs) (omega arith)
    ∙ ap (λ bs. a ∷ bs) (frees_skip (a + k) n m ls rs)
    ∙ ap (λ c. a ∷ frees (a + k) ls ++ frees c rs) (omega arith)

-- The two blocks become one, which is cut.
join_and_cut :
    (h h' : Heap) (ls rs : List Tile) (n m k : ℕ)
    → h.end < 2 ^ 64
    → 0 < h.start
    → k % 16 ≡ 0
    → 64 ≤ k
    → k ≤ n + m
    → After h
        (ls ++ used n ∷ free m ∷ rs)
        (frees h.start ls ++ frees (past h.start ls + (n + m)) rs)
        h'
    → Yields
        (After h
          (ls ++ cut_tile (used (n + m)) k rs)
          (frees h.start (ls ++ cut_tile (used (n + m)) k rs)))
        (split_block (past h.start ls) k (joined_with (past h.start ls) (past h.start ls + n) h'))
join_and_cut h _ ls rs n m k small low round enough fits (after {s} {l} {c} row list) =
    let b = past h.start ls in
    let two = Tiles-right h.start ls (used n ∷ free m ∷ rs) row in
    let pair = neighbours small two in
    let sum : u64 (n + m) ≡ n + m = omega (arith, pair.inside) in
    let row' =
      splice h.start ls (used n ∷ free m ∷ rs) (used (n + m) ∷ rs) row
        (merge-Becomes b m (used n) small two) in
    rw (pair.first, pair.second, sum, frees-append ls (cut_tile (used (n + m)) k rs) h.start)
      (Yields-over h (
        split_block-After (over h _ l _) ls rs (used (n + m)) k small low row' list round enough
          fits))

grow_in_place-After :
    (h : Heap) (ls rs : List Tile) (n m k : ℕ)
    → Inv h (ls ++ used n ∷ free m ∷ rs)
    → k % 16 ≡ 0
    → 64 ≤ k
    → k ≤ n + m
    → Yields
        (After h
          (ls ++ cut_tile (used (n + m)) k rs)
          (frees h.start (ls ++ cut_tile (used (n + m)) k rs)))
        (grow_in_place (past h.start ls) (past h.start ls + n) k h)
unfolding grow_in_place
grow_in_place-After h ls rs n m k v round enough fits =
    let small = Inv-small v in
    let whole : (ls ++ used n ∷ []) ++ free m ∷ rs ≡ ls ++ used n ∷ free m ∷ rs =
      append_assoc ls (used n ∷ []) (free m ∷ rs) in
    let at = past-snoc h.start ls (used n) in
    let rest = frees_skip h.start n m ls rs in
    let removed =
      free_list_remove-After h (ls ++ used n ∷ []) rs m small v.low
        (subst (Tiles h.blocks h.end none h.start) (sym whole) v.row)
        (subst (λ ts. Lists (frees h.start ts) h.free) (sym whole) v.list) in
    let removed' =
      subst
        (λ ts.
          Yields
            (After h ts (
              frees h.start (ls ++ used n ∷ []) ++ frees (past h.start (ls ++ used n ∷ []) + m) rs))
            (free_list_remove (past h.start (ls ++ used n ∷ [])) h))
        whole removed in
    let listed =
      subst
        (λ bs.
          Yields (After h (ls ++ used n ∷ free m ∷ rs) bs)
            (free_list_remove (past h.start (ls ++ used n ∷ [])) h))
        rest removed' in
    let placed =
      subst
        (λ c.
          Yields
            (After h (ls ++ used n ∷ free m ∷ rs)
              (frees h.start ls ++ frees (past h.start ls + (n + m)) rs))
            (free_list_remove c h))
        at listed in
    Yields-bind placed (λ h' a. join_and_cut h h' ls rs n m k small v.low round enough fits a)

cut_used-IsApart :
    (rs : List Tile) (n k : ℕ)
    → starts_free rs ≡ false
    → IsApart rs
    → IsApart (cut_tile (used n) k rs) × (starts_free (cut_tile (used n) k rs) ≡ false)
unfolding IsApart
cut_used-IsApart rs n k first a = elim (Bool-cases (ltb (n - k) 64)) [
  | inl e ↦ rw e (a, refl)
  | inr e ↦ rw e ((first, a), refl)
]

grown-IsApart :
    (ls rs : List Tile) (n m k : ℕ)
    → IsApart (ls ++ used n ∷ free m ∷ rs)
    → IsApart (ls ++ cut_tile (used (n + m)) k rs)
unfolding IsApart
grown-IsApart ls rs n m k a =
    let right = IsApart-right ls (used n ∷ free m ∷ rs) a in
    let (apart, first) = cut_used-IsApart rs (n + m) k right.0 right.1 in
    IsApart-stay ls (used n ∷ free m ∷ rs) (cut_tile (used (n + m)) k rs) first apart a

-- `krealloc` of a block in use to more bytes than it has, where the block behind it is free and the
-- two together are large enough: the pointer stays, the block takes in the free one and is cut where
-- at least 64 bytes are left over, and the heap is in order. No byte of a payload changes.
pub krealloc-InPlace :
    (h : Heap) (ls rs : List Tile) (n m new_size : ℕ)
    → Inv h (ls ++ used n ∷ free m ∷ rs)
    → n < new_size + 32
    → new_size ≤ 2 ^ 63
    → block_for new_size ≤ n + m
    → Yields
        (λ r.
          (r.0 ≡ some (past h.start ls + 32))
          × Is h (ls ++ cut_tile (used (n + m)) (block_for new_size) rs) (r.1))
        (krealloc (some (past h.start ls + 32)) new_size h)
unfolding krealloc align_size
krealloc-InPlace h ls rs n m new_size v more bound fits =
    let b = past h.start ls in
    let k = block_for new_size in
    let pair = neighbours (Inv-small v) (Tiles-right h.start ls (used n ∷ free m ∷ rs) v.row) in
    let place : data_to_block (b + 32) ≡ b = omega (arith, pair.inside, pair.enough, Inv-small v) in
    let some_bytes : (new_size == 0) ≡ false = ground (arith, pair.enough) in
    let usable : not h.initialized ≡ false = ap not v.ready in
    let known : (h.blocks.magic b == block_magic) ≡ true = rw pair.magic refl in
    let payload : u64 (n + 2 ^ 64 - header_size) ≡ n - 32 =
      omega (arith, pair.enough, pair.inside, Inv-small v) in
    let grows : leb new_size (n - 32) ≡ false = ground (arith, pair.enough) in
    let no_wrap : u64 (header_size + max new_size min_block_size)
        ≡ header_size + max new_size min_block_size =
      omega arith in
    let sum : u64 (n + m) ≡ n + m = omega (arith, pair.inside, Inv-small v) in
    let large : leb k (n + m) ≡ true = ground arith in
    rw
      (
        place, some_bytes, usable, known, pair.in_use, pair.first, payload, grows, pair.next,
        pair.available, no_wrap, pair.second, place, pair.first, sum, large,
      )
      (Yields-bind (grow_in_place-After h ls rs n m k v (omega arith) (omega arith) fits)
        (λ h' a. yields (refl, (a, After-Inv h h' v (grown-IsApart ls rs n m k v.apart) a))))
