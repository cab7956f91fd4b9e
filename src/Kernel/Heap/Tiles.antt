-- ===== src/Kernel/Heap/Tiles.antt =====
-- The heap as a row of tiles, the view of it that forgets addresses and pointers.
use os_porting.Base.{
  ℕ, ◌+◌, ◌%◌, ◌≤◌, ◌<◌, ◌≡◌, sym, subst, ap, arith, Option, some, List, [], ◌∷◌, ◌++◌, length, ◌∙◌,
}
use os_porting.Kernel.Heap.{Blocks, block_magic, free_magic}
use os_porting.Kernel.Heap.Frees.Chain.{Rising, Below, Rising-weaken}

-- A block by its size, the header included.
pub data Tile : Type 0 where
  used : ℕ → Tile
  free : ℕ → Tile

abbrev pub size_of : Tile → ℕ
size_of (used n) = n
size_of (free n) = n

abbrev pub flags_of : Tile → ℕ
flags_of (used n) = 1
flags_of (free n) = 0

abbrev pub magic_of : Tile → ℕ
magic_of (used n) = block_magic
magic_of (free n) = free_magic

-- The header at `b` is that of a tile, behind the block `p`.
pub record Header (s : Blocks) (p : Option ℕ) (b : ℕ) (t : Tile) : Type 0 where
  pub size : s.size b ≡ size_of t
  pub prev : s.prev b ≡ p
  pub flags : s.flags b ≡ flags_of t
  pub magic : s.magic b ≡ magic_of t
  pub aligned : size_of t % 16 ≡ 0
  pub enough : 64 ≤ size_of t

-- From `b` on, behind the block `p`, the headers are those of the tiles, and the last one ends at
-- `end`.
pub data Tiles (s : Blocks) (end : ℕ) : Option ℕ → ℕ → List Tile → Type 0 where
  done : {p : Option ℕ} {b : ℕ} → b ≡ end → Tiles s end p b []
  tile :
      {p : Option ℕ} {b : ℕ} {t : Tile} {ts : List Tile}
      → Header s p b t
      → Tiles s end (some b) (b + size_of t) ts
      → Tiles s end p b (t ∷ ts)

unfoldable pub total : List Tile → ℕ
total [] = 0
total (t ∷ ts) = size_of t + total ts

-- The last block of a row at `b`, or the one before the row.
unfoldable pub back : Option ℕ → ℕ → List Tile → Option ℕ
back p b [] = p
back p b (t ∷ ts) = back (some b) (b + size_of t) ts

-- The addresses of the free tiles.
abbrev pub cons_free : Tile → ℕ → List ℕ → List ℕ
cons_free (used n) b bs = bs
cons_free (free n) b bs = b ∷ bs

unfoldable pub frees : ℕ → List Tile → List ℕ
frees b [] = []
frees b (t ∷ ts) = cons_free t b (frees (b + size_of t) ts)

-- Two stores have the same headers from `low` up to `high`.
pub record SameAt (s s' : Blocks) (a : ℕ) : Type 0 where
  pub size : s'.size a ≡ s.size a
  pub prev : s'.prev a ≡ s.prev a
  pub flags : s'.flags a ≡ s.flags a
  pub magic : s'.magic a ≡ s.magic a

-- The end of a row.
abbrev pub past : ℕ → List Tile → ℕ
past b ts = b + total ts

pub past-cons : (b : ℕ) (t : Tile) (ts : List Tile) → past (b + size_of t) ts ≡ past b (t ∷ ts)
unfolding total
past-cons b t ts = omega arith

pub Header-same :
    {s s' : Blocks} {p : Option ℕ} {b : ℕ} {t : Tile}
    → SameAt s s' b
    → Header s p b t
    → Header s' p b t
Header-same here h = record {
  size = here.size ∙ h.size;
  prev = here.prev ∙ h.prev;
  flags = here.flags ∙ h.flags;
  magic = here.magic ∙ h.magic;
  aligned = h.aligned;
  enough = h.enough;
}

module _ {s : Blocks} {end : ℕ} where
  pub Tiles-end : {p : Option ℕ} {b : ℕ} {ts : List Tile} → Tiles s end p b ts → past b ts ≡ end
  unfolding total
  Tiles-end (done e) = omega arith
  Tiles-end (tile h r) = omega (arith, Tiles-end r)

  pub Tiles-low : {p : Option ℕ} {b : ℕ} {ts : List Tile} → Tiles s end p b ts → b ≤ end
  Tiles-low t = omega (arith, Tiles-end t)

  pub Tiles-frame :
      {s' : Blocks} {p : Option ℕ} {b : ℕ} {ts : List Tile}
      → ((a : ℕ) → b ≤ a → a < end → SameAt s s' a)
      → Tiles s end p b ts
      → Tiles s' end p b ts
  Tiles-frame {s'} {p} {b} same (done e) = done e
  Tiles-frame {s'} {p} {b} same (tile h r) =
      let here = same b (omega arith) (omega (arith, h.enough, Tiles-low r)) in
      tile (Header-same here h) (Tiles-frame (λ a u v. same a (omega (arith, h.enough)) v) r)

pub Tiles-append :
    {s : Blocks} {end : ℕ} {p : Option ℕ} (b : ℕ) (ls rs : List Tile)
    → Tiles s (past b ls) p b ls
    → Tiles s end (back p b ls) (past b ls) rs
    → Tiles s end p b (ls ++ rs)
unfolding back total
Tiles-append {s} {end} {p} b [] rs h r = subst (λ c. Tiles s end p c rs) (omega arith) r
Tiles-append {s} {end} {p} b (t ∷ ls) rs (tile h l) r =
    let same = sym (past-cons b t ls) in
    tile h (
      Tiles-append (b + size_of t) ls rs (subst (λ c. Tiles s c (some b) (b + size_of t) ls) same l)
        (subst (λ c. Tiles s end (back (some b) (b + size_of t) ls) c rs) same r))

pub Tiles-left :
    {s : Blocks} {end : ℕ} {p : Option ℕ} (b : ℕ) (ls rs : List Tile)
    → Tiles s end p b (ls ++ rs)
    → Tiles s (past b ls) p b ls
unfolding total
Tiles-left b [] rs h = done (omega arith)
Tiles-left {s} {end} {p} b (t ∷ ls) rs (tile h l) = tile h (
    subst (λ c. Tiles s c (some b) (b + size_of t) ls) (past-cons b t ls)
      (Tiles-left (b + size_of t) ls rs l))

pub Tiles-right :
    {s : Blocks} {end : ℕ} {p : Option ℕ} (b : ℕ) (ls rs : List Tile)
    → Tiles s end p b (ls ++ rs)
    → Tiles s end (back p b ls) (past b ls) rs
unfolding total back
Tiles-right {s} {end} {p} b [] rs h = subst (λ c. Tiles s end p c rs) (omega arith) h
Tiles-right {s} {end} {p} b (t ∷ ls) rs (tile h l) =
    subst (λ c. Tiles s end (back (some b) (b + size_of t) ls) c rs) (past-cons b t ls)
      (Tiles-right (b + size_of t) ls rs l)

pub total-append : (ls rs : List Tile) → total (ls ++ rs) ≡ total ls + total rs
unfolding total
total-append [] rs = omega arith
total-append (t ∷ ls) rs = omega (arith, total-append ls rs)

pub past-snoc : (b : ℕ) (ls : List Tile) (t : Tile) → past b (ls ++ t ∷ []) ≡ past b ls + size_of t
unfolding total
past-snoc b ls t = omega (arith, total-append ls (t ∷ []))

pub frees-append :
    (ls rs : List Tile) (b : ℕ) → frees b (ls ++ rs) ≡ frees b ls ++ frees (past b ls) rs
unfolding frees total
frees-append [] rs b = ap (λ c. frees c rs) (omega arith)
frees-append (used n ∷ ls) rs b =
    frees-append ls rs (b + n) ∙ ap (λ c. frees (b + n) ls ++ frees c rs) (omega arith)
frees-append (free n ∷ ls) rs b =
    ap (λ bs. b ∷ bs)
      (frees-append ls rs (b + n) ∙ ap (λ c. frees (b + n) ls ++ frees c rs) (omega arith))

pub back-append :
    (p : Option ℕ) (ls : List Tile) (b : ℕ) (t : Tile) → back p b (ls ++ t ∷ []) ≡ some (past b ls)
unfolding back total
back-append p [] b t = ap some (omega arith)
back-append p (u ∷ ls) b t = back-append (some b) ls (b + size_of u) t ∙ ap some (omega arith)

-- The free tiles go up in memory, and lie in the row.
module _ {s : Blocks} {end : ℕ} where
  pub frees-Rising :
      (ts : List Tile) {p : Option ℕ} {b : ℕ} → Tiles s end p b ts → Rising b (frees b ts)
  unfolding frees Rising
  frees-Rising [] h = tt
  frees-Rising (used n ∷ ts) {p} {b} (tile h r) =
      Rising-weaken (frees (b + n) ts) (b + n) b (omega arith) (frees-Rising ts r)
  frees-Rising (free n ∷ ts) {p} {b} (tile h r) = (
    omega arith,
    Rising-weaken (frees (b + n) ts) (b + n) (b + 1) (omega (arith, h.enough)) (frees-Rising ts r),
  )

  pub frees-Below :
      (ts : List Tile) {p : Option ℕ} {b : ℕ} → Tiles s end p b ts → Below end (frees b ts)
  unfolding frees Below
  frees-Below [] h = tt
  frees-Below (used n ∷ ts) (tile h r) = frees-Below ts r
  frees-Below (free n ∷ ts) (tile h r) = (omega (arith, h.enough, Tiles-low r), frees-Below ts r)

  pub length-frees :
      (ts : List Tile) {p : Option ℕ} {b : ℕ} → Tiles s end p b ts → length (frees b ts) + b ≤ end
  unfolding frees
  length-frees [] (done e) = omega arith
  length-frees (used n ∷ ts) (tile h r) = omega (arith, h.enough, length-frees ts r)
  length-frees (free n ∷ ts) (tile h r) = omega (arith, h.enough, length-frees ts r)
