-- ===== src/Kernel/Heap/Steps.antt =====
-- Changes of the free list, on the row of tiles and the list of free blocks.
use os_porting.Base.{
  ℕ, ◌+◌, ◌%◌, ◌^◌, ◌≤◌, ◌<◌, ◌≡◌, subst, arith, Option, none, List, ◌∷◌, ◌++◌, length,
  length-append, Yields, yields, Yields-bind, Yields-mono,
}
use os_porting.Kernel.Heap.{Heap, Blocks, Stats, fuel, free_list_add, free_list_remove}
use os_porting.Kernel.Heap.Frees.{FreeList}
use os_porting.Kernel.Heap.Frees.Chain.{Rising-weaken, Below-weaken}
use os_porting.Kernel.Heap.Frees.Laws.{Lists, Between, add-Lists}
use os_porting.Kernel.Heap.Frees.Removal.{remove-Lists}
use os_porting.Kernel.Heap.Tiles.{
  Tile, free, size_of, Tiles, tile, Tiles-low, past, back, Tiles-left, Tiles-right, frees,
  frees-append, frees-Rising, frees-Below, length-frees,
}
use os_porting.Kernel.Heap.Rows.{splice, free-Becomes}

-- The headers, the list and the counters of a heap changed, and nothing else of it.
abbrev pub over : Heap → Blocks → FreeList → Stats → Heap
over h s l c = record h { blocks = s; free = l; stats = c }

-- The heap's tiles, and the blocks in its list.
pub data After (h : Heap) (ts : List Tile) (bs : List ℕ) : Heap → Type 0 where
  after :
      {s : Blocks} {l : FreeList} {c : Stats}
      → Tiles s h.end none h.start ts
      → Lists bs l
      → After h ts bs (over h s l c)

-- A step from a heap that changed so already.
pub After_over :
    {h h' : Heap} {s : Blocks} {l : FreeList} {c : Stats} {ts : List Tile} {bs : List ℕ}
    → After (over h s l c) ts bs h'
    → After h ts bs h'
After_over (after row list) = after row list

pub Yields-over :
    (h : Heap) {s : Blocks} {l : FreeList} {c : Stats} {ts : List Tile} {bs : List ℕ}
    {o : Option Heap}
    → Yields (After (over h s l c) ts bs) o
    → Yields (After h ts bs) o
Yields-over h y = Yields-mono y (λ h' a. After_over a)

-- The free blocks on both sides of a tile.
pub record Gap (h : Heap) (ls : List Tile) (t : Tile) (rs : List Tile) : Type 0 where
  pub between :
      (k : ℕ)
      → k < size_of t
      → Between (frees h.start ls) (past h.start ls + k) (frees (past h.start ls + size_of t) rs)
  pub few : length (frees h.start ls) ≤ fuel h
  pub room : length (frees h.start ls ++ frees (past h.start ls + size_of t) rs) + 1 < 2 ^ 64
  pub aligned : size_of t % 16 ≡ 0
  pub enough : 64 ≤ size_of t
  pub inside : past h.start ls + size_of t ≤ h.end

gap_at :
    (h : Heap) (ls rs : List Tile) (t : Tile)
    → h.end < 2 ^ 64
    → 0 < h.start
    → Tiles h.blocks (past h.start ls) none h.start ls
    → Tiles h.blocks h.end (back none h.start ls) (past h.start ls) (t ∷ rs)
    → Gap h ls t rs
gap_at h ls rs t small low left (tile k right) =
    let b = past h.start ls in
    let few = length-frees ls left in
    let many = length-frees rs right in
    let ends = Tiles-low right in
    record {
      between = λ j u. record {
        rising = Rising-weaken (frees h.start ls) h.start 0 (omega arith) (frees-Rising ls left);
        below = Below-weaken (frees h.start ls) b (b + j) (omega arith) (frees-Below ls left);
        above =
            Rising-weaken (frees (b + size_of t) rs) (b + size_of t) (b + j + 1) (omega arith)
              (frees-Rising rs right);
      };
      few = omega arith;
      room = omega (arith, length-append (frees h.start ls) (frees (b + size_of t) rs));
      aligned = k.aligned;
      enough = k.enough;
      inside = ends;
    }

pub gap :
    (h : Heap) (ls rs : List Tile) (t : Tile)
    → h.end < 2 ^ 64
    → 0 < h.start
    → Tiles h.blocks h.end none h.start (ls ++ t ∷ rs)
    → Gap h ls t rs
gap h ls rs t small low row =
    gap_at h ls rs t small low (Tiles-left h.start ls (t ∷ rs) row)
      (Tiles-right h.start ls (t ∷ rs) row)

pub free_list_remove-After :
    (h : Heap) (ls rs : List Tile) (n : ℕ)
    → h.end < 2 ^ 64
    → 0 < h.start
    → Tiles h.blocks h.end none h.start (ls ++ free n ∷ rs)
    → Lists (frees h.start (ls ++ free n ∷ rs)) h.free
    → Yields
        (After h (ls ++ free n ∷ rs) (frees h.start ls ++ frees (past h.start ls + n) rs))
        (free_list_remove (past h.start ls) h)
unfolding free_list_remove frees
free_list_remove-After h ls rs n small low row list =
    let g = gap h ls rs (free n) small low row in
    let b = past h.start ls in
    let here : b + 0 ≡ b = omega arith in
    let between =
      subst (λ c. Between (frees h.start ls) c (frees (b + n) rs)) here
        (g.between 0 (omega (arith, g.enough))) in
    let whole = subst (λ bs. Lists bs h.free) (frees-append ls (free n ∷ rs) h.start) list in
    Yields-bind
      (remove-Lists (frees h.start ls) (frees (b + n) rs) b (fuel h) h.free whole between g.few
        g.room)
      (λ l j. yields (after row j))

pub free_list_add-After :
    (h : Heap) (ls rs : List Tile) (t : Tile) (xs ys : List ℕ)
    → Tiles h.blocks h.end none h.start (ls ++ t ∷ rs)
    → Lists (xs ++ ys) h.free
    → Between xs (past h.start ls) ys
    → length xs ≤ fuel h
    → length (xs ++ ys) + 1 < 2 ^ 64
    → Yields
        (After h (ls ++ free (size_of t) ∷ rs) (xs ++ past h.start ls ∷ ys))
        (free_list_add (past h.start ls) h)
unfolding free_list_add
free_list_add-After h ls rs t xs ys row list between few room =
    let b = past h.start ls in
    let marked = free-Becomes b t (Tiles-right h.start ls (t ∷ rs) row) in
    Yields-bind (add-Lists xs ys b (fuel h) h.free list between few room)
      (λ l j. yields (after (splice h.start ls (t ∷ rs) (free (size_of t) ∷ rs) row marked) j))
