-- ===== src/Kernel/Heap/Settle.antt =====
-- A free tile between two rows takes in its free neighbours: what `coalesce_blocks` is to make.
use os_porting.Base.{ℕ, ◌+◌, ◌≡◌, refl, ap, List, [], ◌∷◌, ◌++◌}
use os_porting.Kernel.Heap.Tiles.{Tile, used, free}

-- A free tile of `n` bytes between two rows takes in its free neighbours.
abbrev pub left_of : List Tile → ℕ → List Tile → List Tile
left_of [] n rs = free n ∷ rs
left_of (used m ∷ ls) n rs = used m ∷ left_of ls n rs
left_of (free m ∷ []) n rs = free (m + n) ∷ rs
left_of (free m ∷ t ∷ ls) n rs = free m ∷ left_of (t ∷ ls) n rs

abbrev pub put_free : List Tile → ℕ → List Tile → List Tile
put_free ls n [] = left_of ls n []
put_free ls n (used m ∷ rs) = left_of ls n (used m ∷ rs)
put_free ls n (free m ∷ rs) = left_of ls (n + m) rs

-- A row is empty, or has a last tile.
pub data Snoc : List Tile → Type 0 where
  empty : Snoc []
  snoc : (ls : List Tile) (t : Tile) → Snoc (ls ++ t ∷ [])

cons-Snoc : (t : Tile) {ls : List Tile} → Snoc ls → Snoc (t ∷ ls)
cons-Snoc t empty = snoc [] t
cons-Snoc t (snoc ls u) = snoc (t ∷ ls) u

pub last_of : (ls : List Tile) → Snoc ls
last_of [] = empty
last_of (t ∷ ls) = cons-Snoc t (last_of ls)

pub left_of-used :
    (ls : List Tile) (m n : ℕ) (rs : List Tile)
    → left_of (ls ++ used m ∷ []) n rs ≡ (ls ++ used m ∷ []) ++ free n ∷ rs
left_of-used [] m n rs = refl
left_of-used (used k ∷ ls) m n rs = ap (λ ts. used k ∷ ts) (left_of-used ls m n rs)
left_of-used (free k ∷ []) m n rs = refl
left_of-used (free k ∷ t ∷ ls) m n rs = ap (λ ts. free k ∷ ts) (left_of-used (t ∷ ls) m n rs)

pub left_of-free :
    (ls : List Tile) (m n : ℕ) (rs : List Tile)
    → left_of (ls ++ free m ∷ []) n rs ≡ ls ++ free (m + n) ∷ rs
left_of-free [] m n rs = refl
left_of-free (used k ∷ ls) m n rs = ap (λ ts. used k ∷ ts) (left_of-free ls m n rs)
left_of-free (free k ∷ []) m n rs = refl
left_of-free (free k ∷ t ∷ ls) m n rs = ap (λ ts. free k ∷ ts) (left_of-free (t ∷ ls) m n rs)
