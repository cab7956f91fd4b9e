-- ===== src/Kernel/Heap/Absorb.antt =====
-- A free block that takes in the free one behind it.
use os_porting.Base.{
  ℕ, ◌+◌, ◌^◌, ◌≤◌, ◌<◌, ◌≡◌, sym, subst, ap, arith, Option, none, some, List, [], ◌∷◌, ◌++◌,
  append_assoc, ◌∙◌, ◌>>=◌, Yields, yields, Yields-bind,
}
use os_porting.Kernel.Heap.{Heap, Blocks, block_get_size, take_in, free_list_remove}
use os_porting.Kernel.Heap.Frees.{u64}
use os_porting.Kernel.Heap.Frees.Laws.{Lists}
use os_porting.Kernel.Heap.Tiles.{
  Tile, used, free, Tiles, tile, past, total, past-snoc, Tiles-right, frees, Tiles-low,
}
use os_porting.Kernel.Heap.Rows.{splice, merge-Becomes}
use os_porting.Kernel.Heap.Steps.{After, after, free_list_remove-After}
use os_porting.Kernel.Heap.Split.{size_at}

-- What holds of the heap when its list is that of its free tiles.
abbrev pub Tidy : Heap → List Tile → Heap → Type 0
Tidy h ts = After h ts (frees h.start ts)

second_size :
    {s : Blocks} {end : ℕ} {p : Option ℕ} {b n m : ℕ} {rs : List Tile}
    → Tiles s end p b (free n ∷ free m ∷ rs)
    → block_get_size (b + n) s ≡ m
second_size (tile h r) = size_at r

two_end :
    {s : Blocks} {end : ℕ} {p : Option ℕ} {b n m : ℕ} {rs : List Tile}
    → Tiles s end p b (free n ∷ free m ∷ rs)
    → b + n + m ≤ end
two_end (tile h (tile k r)) = Tiles-low r

frees-two :
    (a n m : ℕ) (ls rs : List Tile)
    → frees a (ls ++ free n ∷ []) ++ frees (past a (ls ++ free n ∷ []) + m) rs
      ≡ frees a (ls ++ free (n + m) ∷ rs)
unfolding frees total
frees-two a n m [] rs = ap (λ c. a ∷ frees c rs) (omega arith)
frees-two a n m (used k ∷ ls) rs =
    ap (λ c. frees (a + k) (ls ++ free n ∷ []) ++ frees c rs) (omega arith)
    ∙ frees-two (a + k) n m ls rs
frees-two a n m (free k ∷ ls) rs =
    ap (λ c. a ∷ frees (a + k) (ls ++ free n ∷ []) ++ frees c rs) (omega arith)
    ∙ ap (λ bs. a ∷ bs) (frees-two (a + k) n m ls rs)

take_in-Tidy :
    (h h' : Heap) (ls rs : List Tile) (n m : ℕ) (bs : List ℕ)
    → h.end < 2 ^ 64
    → After h (ls ++ free n ∷ free m ∷ rs) bs h'
    → After h (ls ++ free (n + m) ∷ rs) bs (take_in (past h.start ls) (past h.start ls + n) h')
take_in-Tidy h _ ls rs n m bs small (after {s} {l} {c} row list) =
    let b = past h.start ls in
    let two = Tiles-right h.start ls (free n ∷ free m ∷ rs) row in
    let first : block_get_size b s ≡ n = size_at two in
    let second : block_get_size (b + n) s ≡ m = second_size two in
    let sum : u64 (n + m) ≡ n + m = omega (arith, two_end two) in
    rw (first, second, sum)
      (after
        (splice h.start ls (free n ∷ free m ∷ rs) (free (n + m) ∷ rs) row
          (merge-Becomes b m (free n) small two))
        list)

-- A free block takes in the free one behind it.
pub absorb-Tidy :
    (h : Heap) (ls rs : List Tile) (n m : ℕ)
    → h.end < 2 ^ 64
    → 0 < h.start
    → Tiles h.blocks h.end none h.start (ls ++ free n ∷ free m ∷ rs)
    → Lists (frees h.start (ls ++ free n ∷ free m ∷ rs)) h.free
    → Yields (Tidy h (ls ++ free (n + m) ∷ rs)) (
        free_list_remove (past h.start ls + n) h >>= λ h'.
        some (take_in (past h.start ls) (past h.start ls + n) h'))
absorb-Tidy h ls rs n m small low row list =
    let whole : (ls ++ free n ∷ []) ++ free m ∷ rs ≡ ls ++ free n ∷ free m ∷ rs =
      append_assoc ls (free n ∷ []) (free m ∷ rs) in
    let at = past-snoc h.start ls (free n) in
    let removed =
      free_list_remove-After h (ls ++ free n ∷ []) rs m small low
        (subst (Tiles h.blocks h.end none h.start) (sym whole) row)
        (subst (λ ts. Lists (frees h.start ts) h.free) (sym whole) list) in
    let removed' =
      subst
        (λ ts.
          Yields
            (After h ts (
              frees h.start (ls ++ free n ∷ []) ++ frees (past h.start (ls ++ free n ∷ []) + m) rs))
            (free_list_remove (past h.start (ls ++ free n ∷ [])) h))
        whole removed in
    let removed'' =
      subst
        (λ c.
          Yields
            (After h (ls ++ free n ∷ free m ∷ rs) (
              frees h.start (ls ++ free n ∷ []) ++ frees (past h.start (ls ++ free n ∷ []) + m) rs))
            (free_list_remove c h))
        at removed' in
    Yields-bind removed'' (λ h' a. yields (
      subst
        (λ bs.
          After h (ls ++ free (n + m) ∷ rs) bs (take_in (past h.start ls) (past h.start ls + n) h'))
        (frees-two h.start n m ls rs) (take_in-Tidy h h' ls rs n m _ small a)))
