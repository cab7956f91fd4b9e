-- ===== src/Kernel/Heap/Trip.antt =====
-- `kmalloc` and then `kfree`, and `kcalloc`.
use os_porting.Base.{
  ℕ, ◌+◌, ◌-◌, ◌^◌, ◌≤◌, ◌<◌, ◌≡◌, sym, subst, Bool, true, false, Option, some, List, ◌∷◌, ◌++◌,
  ltb, if◌then◌else◌, ◌∙◌, ◌>>=◌, Yields, Yields-bind, Yields-mono,
}
use os_porting.Kernel.Pmm.Inv.{Inv as PmmInv}
use os_porting.Kernel.Heap.{Heap, Blocks, Stats}
use os_porting.Kernel.Heap.Calls.{kmalloc, kfree}
use os_porting.Kernel.Heap.Frees.{FreeList}
use os_porting.Kernel.Heap.Tiles.{Tile, used, free, past, frees}
use os_porting.Kernel.Heap.Steps.{After, after, After_over, over}
use os_porting.Kernel.Heap.Split.{cut_tile}
use os_porting.Kernel.Heap.Settle.{put_free}
use os_porting.Kernel.Heap.Apart.{IsApart, put_back, put_back-cut_tile}
use os_porting.Kernel.Heap.Search.{TooSmall}
use os_porting.Kernel.Heap.Inv.{Inv}
use os_porting.Kernel.Heap.Malloc.{
  Allocated, refused, from_list, from_growth, block_for, kmalloc-Allocated,
}
use os_porting.Kernel.Heap.Release.{kfree-Freed}

-- The heap's tiles are these, it is in order, and only headers, the list and counters changed.
abbrev pub Is : Heap → List Tile → Heap → Type 0
Is h ts h' = After h ts (frees h.start ts) h' × Inv h' ts

free_cut :
    (h : Heap) (ls rs : List Tile) (m n : ℕ) (whole : Bool)
    → Inv h (ls ++ (if whole then used m ∷ rs else used n ∷ free (m - n) ∷ rs))
    → Yields
        (Is h (if whole then put_free ls m rs else put_free ls n (free (m - n) ∷ rs)))
        (kfree (some (past h.start ls + 32)) h)
free_cut h ls rs m n true v = kfree-Freed h ls rs m v
free_cut h ls rs m n false v = kfree-Freed h ls (free (m - n) ∷ rs) n v

Is-over :
    (h : Heap) (s : Blocks) (l : FreeList) (c : Stats) (ts us : List Tile)
    → us ≡ ts
    → (h' : Heap) → Is (over h s l c) us h'
    → Is h ts h'
Is-over h s l c ts us e h' (a, v) = subst (λ ts. Is h ts h') e (After_over a, v)

undo :
    (h : Heap) (ts ls rs : List Tile) (m n : ℕ) (h' : Heap)
    → Inv h ts
    → ts ≡ ls ++ free m ∷ rs
    → n ≤ m
    → After h (ls ++ cut_tile (used m) n rs) (frees h.start (ls ++ cut_tile (used m) n rs)) h'
    → Inv h' (ls ++ cut_tile (used m) n rs)
    → Yields (Is h ts) (kfree (some (past h.start ls + 32)) h')
undo h ts ls rs m n _ v e fits (after {s} {l} {c} row list) v' =
    let restored = put_back-cut_tile ls rs m n (subst (λ ts. IsApart ts) e v.apart) fits ∙ sym e in
    Yields-mono (free_cut (over h s l c) ls rs m n (ltb (m - n) 64) v')
      (λ h'' is. Is-over h s l c ts (put_back ls m n rs) restored h'' is)

undo_answer :
    (h : Heap) (ts : List Tile) (n : ℕ) (r : Option ℕ × Heap)
    → Inv h ts
    → ¬ TooSmall n ts
    → Allocated h ts n r
    → Yields (Is h ts) (kfree (r.0) (r.1))
undo_answer h ts n _ v fits (refused small stuck) = absurd (fits small)
undo_answer h ts n _ v fits
      (from_growth size start q ls rs m ask run taken small limit e few le a w) =
    absurd (fits small)
undo_answer h ts n _ v fits (from_list {h'} ls rs m e few le a w) =
    undo h ts ls rs m n h' v e le a w

-- On a heap in order that has a free block large enough for the request, `kfree` of the pointer that
-- `kmalloc` has just given restores the row of blocks, and the heap is in order.
pub kfree-kmalloc :
    (size : ℕ) (h : Heap) (ts : List Tile)
    → Inv h ts
    → PmmInv h.pmm
    → 0 < size
    → size ≤ 2 ^ 63
    → ¬ TooSmall (block_for size) ts
    → Yields (Is h ts) (kmalloc size h >>= λ r. kfree (r.0) (r.1))
kfree-kmalloc size h ts v pages pos bound fits =
    Yields-bind (kmalloc-Allocated size h ts v pages pos bound)
      (λ r a. undo_answer h ts (block_for size) r v fits a)
