-- ===== src/Kernel/Heap/Search.antt =====
-- `find_free_block`: the first free block that is large enough.
use os_porting.Base.{
  ℕ, zero, suc, ◌+◌, ◌≤◌, ◌<◌, ◌≡◌, refl, ap, arith, inl, inr, Option, none, some, List, [], ◌∷◌,
  ◌++◌, length, leb, Bool-cases, ◌∙◌, Yields, yields, Yields-mono,
}
use os_porting.Kernel.Heap.{Blocks, block_get_size, find_free_block}
use os_porting.Kernel.Heap.Frees.{FreeList}
use os_porting.Kernel.Heap.Frees.Chain.{Chain}
use os_porting.Kernel.Heap.Tiles.{Tile, used, free, Tiles, tile, past, total, frees}
use os_porting.Kernel.Heap.Edits.{get_size}

-- Every free tile has less than `n` bytes.
unfoldable pub TooSmall : ℕ → List Tile → Type 0
TooSmall n [] = Unit
TooSmall n (used m ∷ ts) = TooSmall n ts
TooSmall n (free m ∷ ts) = (m < n) × TooSmall n ts

-- The search answers the address of the first free tile with `n` bytes, or NULL when there is none.
pub data FirstFit (n b : ℕ) (ts : List Tile) (o : Option ℕ) : Type 0 where
  hit :
      (ls rs : List Tile) (m : ℕ)
      → ts ≡ ls ++ free m ∷ rs
      → o ≡ some (past b ls)
      → n ≤ m
      → TooSmall n ls
      → FirstFit n b ts o
  miss : o ≡ none → TooSmall n ts → FirstFit n b ts o

skip_used :
    (n b m : ℕ) {ts : List Tile} {o : Option ℕ}
    → FirstFit n (b + m) ts o
    → FirstFit n b (used m ∷ ts) o
unfolding total TooSmall
skip_used n b m (hit ls rs k e p fits small) =
    hit (used m ∷ ls) rs k (ap (λ ts. used m ∷ ts) e) (p ∙ ap some (omega arith)) fits small
skip_used n b m (miss e small) = miss e small

skip_free :
    (n b m : ℕ) {ts : List Tile} {o : Option ℕ}
    → m < n
    → FirstFit n (b + m) ts o
    → FirstFit n b (free m ∷ ts) o
unfolding total TooSmall
skip_free n b m h (hit ls rs k e p fits small) =
    hit (free m ∷ ls) rs k (ap (λ ts. free m ∷ ts) e) (p ∙ ap some (omega arith)) fits (h, small)
skip_free n b m h (miss e small) = miss e (h, small)

module _ (s : Blocks) (l : FreeList) (n : ℕ) where
  pub find_free_block-FirstFit :
      (ts : List Tile) (fuel : ℕ) (from : Option ℕ) {end b : ℕ} {p : Option ℕ}
      → Tiles s end p b ts
      → Chain l.next from (frees b ts)
      → length (frees b ts) < fuel
      → Yields (FirstFit n b ts) (find_free_block s l n fuel from)
  unfolding find_free_block frees Chain TooSmall total
  find_free_block-FirstFit ts zero from row c room = absurd (omega arith)
  find_free_block-FirstFit [] (suc fuel) from row c room = rw c (yields (miss refl tt))
  find_free_block-FirstFit (used m ∷ ts) (suc fuel) from {end} {b} {p} (tile h r) c room =
      Yields-mono (find_free_block-FirstFit ts (suc fuel) from r c room) (λ o f. skip_used n b m f)
  find_free_block-FirstFit (free m ∷ ts) (suc fuel) from {end} {b} {p} (tile h r) (e, c) room =
      let size : block_get_size b s ≡ m = get_size h in
      let rest = find_free_block-FirstFit ts fuel (l.next b) r c (omega arith) in
      rw (e, size)
        (elim (Bool-cases (leb n m)) [
          | inl fits ↦ rw fits (yields (hit [] ts m refl (ap some (omega arith)) (ground arith) tt))
          | inr short ↦ rw short (Yields-mono rest (λ o f. skip_free n b m (ground arith) f))
        ])
