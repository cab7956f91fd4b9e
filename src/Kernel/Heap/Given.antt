-- ===== src/Kernel/Heap/Given.antt =====
-- A block that the search finds, handed out.
use os_porting.Base.{
  ℕ, ◌+◌, ◌%◌, ◌≤◌, ◌≡◌, subst, arith, Option, some, List, [], ◌∷◌, ◌++◌, ◌>>=◌, Yields,
  Yields-bind, Yields-mono,
}
use os_porting.Kernel.Heap.{Heap, fuel}
use os_porting.Kernel.Heap.Calls.{hand_out, find, again_from}
use os_porting.Kernel.Heap.Tiles.{Tile, used, free, past, frees, length-frees}
use os_porting.Kernel.Heap.Steps.{After}
use os_porting.Kernel.Heap.Split.{cut_tile}
use os_porting.Kernel.Heap.Search.{TooSmall, FirstFit, hit, miss, find_free_block-FirstFit}
use os_porting.Kernel.Heap.Settle.{left_of}
use os_porting.Kernel.Heap.Apart.{IsApart, IsApart-cut_tile}
use os_porting.Kernel.Heap.Inv.{Inv, After-Inv}
use os_porting.Kernel.Heap.Alloc.{Handed, handed, hand_out-Handed}

pub find-FirstFit :
    (h : Heap) (ts : List Tile) (n : ℕ) → Inv h ts → Yields (FirstFit n h.start ts) (find n h)
find-FirstFit h ts n v =
    let few = length-frees ts v.row in
    find_free_block-FirstFit h.blocks h.free n ts (fuel h + 1) h.free.head v.row v.list.chain
      (omega (arith, v.some_room))

-- A block from the list of a heap in order.
pub data Given (h : Heap) (ts : List Tile) (n : ℕ) : Option ℕ × Heap → Type 0 where
  given :
      {h' : Heap} (ls rs : List Tile) (m : ℕ)
      → ts ≡ ls ++ free m ∷ rs
      → TooSmall n ls
      → n ≤ m
      → After h (ls ++ cut_tile (used m) n rs) (frees h.start (ls ++ cut_tile (used m) n rs)) h'
      → Inv h' (ls ++ cut_tile (used m) n rs)
      → Given h ts n (some (past h.start ls + 32), h')

Handed-Given :
    (h : Heap) (ts ls rs : List Tile) (n m : ℕ)
    → Inv h ts
    → ts ≡ ls ++ free m ∷ rs
    → TooSmall n ls
    → n ≤ m
    → (r : Option ℕ × Heap) → Handed h (past h.start ls + 32) (ls ++ cut_tile (used m) n rs) r
    → Given h ts n r
Handed-Given h ts ls rs n m v e small fits _ (handed {h'} a) =
    given ls rs m e small fits a
      (After-Inv h h' v (IsApart-cut_tile ls rs m n (subst IsApart e v.apart)) a)

pub hit-Given :
    (h : Heap) (ts ls rs : List Tile) (n m : ℕ)
    → Inv h ts
    → n % 16 ≡ 0
    → 64 ≤ n
    → ts ≡ ls ++ free m ∷ rs
    → n ≤ m
    → TooSmall n ls
    → Yields (Given h ts n) (hand_out n (past h.start ls) h)
hit-Given h ts ls rs n m v round enough e fits small =
    Yields-mono (hand_out-Handed h ls rs m n (subst (Inv h) e v) round enough fits)
      (λ r d. Handed-Given h ts ls rs n m v e small fits r d)

-- A tile as long as the request is not too small, wherever it is put.
pub fits_last : (ts : List Tile) (n size : ℕ) → n ≤ size → ¬ TooSmall n (left_of ts size [])
unfolding TooSmall
fits_last [] n size h t = omega (arith, t.0)
fits_last (used m ∷ ts) n size h t = fits_last ts n size h t
fits_last (free m ∷ []) n size h t = omega (arith, t.0)
fits_last (free m ∷ u ∷ ts) n size h t = fits_last (u ∷ ts) n size h t.1

-- The second search, after the heap has grown.
pub second_search :
    (h : Heap) (ts : List Tile) (n size : ℕ)
    → Inv h ts
    → n % 16 ≡ 0
    → 64 ≤ n
    → ¬ TooSmall n ts
    → Yields (Given h ts n) (find n h >>= λ o. again_from o n h)
second_search h ts n size v round enough fits = Yields-bind (find-FirstFit h ts n v) (λ o f.
    elim f [
      | hit ls rs m e p le small ↦ rw p (hit-Given h ts ls rs n m v round enough e le small)
      | miss p small ↦ absurd (fits small)
    ])
