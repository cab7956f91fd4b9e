-- ===== src/Kernel/Heap/Malloc.antt =====
-- `kmalloc`: the first free block that is large enough, of the heap as it is or of the longer one.
use os_porting.Base.{
  refl, ◌⊎◌, ℕ, ◌+◌, ◌/◌, ◌%◌, ◌^◌, ◌≤◌, ◌<◌, ◌≡◌, subst, ap, arith, inl, inr, Bool, true, false,
  not, max, Option, none, some, List, [], ◌∷◌, ◌++◌, ltb, ◌==◌, Bool-cases, ◌>>=◌, Yields, yields,
  Yields-bind, Yields-mono,
}
use os_porting.Kernel.Pmm.{Pmm, align_up, page_size, alloc_pages}
use os_porting.Kernel.Pmm.Alloc.{Marked, Allocates, alloc_pages-Allocates}
use os_porting.Kernel.Pmm.Inv.{Inv as PmmInv}
use os_porting.Kernel.Heap.{Heap, align_size, header_size, min_block_size, expand_size}
use os_porting.Kernel.Heap.Calls.{heap_expand, with_pages, first_from, again, kmalloc}
use os_porting.Kernel.Heap.Frees.{u64}
use os_porting.Kernel.Heap.Tiles.{Tile, used, free, past, frees}
use os_porting.Kernel.Heap.Steps.{After, after, After_over}
use os_porting.Kernel.Heap.Split.{cut_tile}
use os_porting.Kernel.Heap.Search.{TooSmall, hit, miss}
use os_porting.Kernel.Heap.Settle.{put_free}
use os_porting.Kernel.Heap.Inv.{Inv}
use os_porting.Kernel.Pmm.Search.{FreeRun}
use os_porting.Kernel.Heap.Given.{Given, given, find-FirstFit, hit-Given, fits_last, second_search}
use os_porting.Kernel.Heap.Grow.{raised, Grown, longer, extend-Grown, Grown-Inv}

-- The heap whose end is moved up, after pages were taken.
abbrev pub longer_heap : ℕ → Pmm → Heap → Heap
longer_heap size q h = raised size (record h { pmm = q })

-- The size that `heap_expand` asks for, where `n` bytes are wanted.
abbrev pub asked : ℕ → ℕ
asked n = align_up (max n expand_size)

-- The heap cannot grow by `size` bytes: it would pass its limit, or no run of pages is free.
abbrev pub CannotGrow : Heap → ℕ → Type 0
CannotGrow h size =
    (h.max < h.end + size)
    ⊎ ((s : ℕ) → s + size / page_size ≤ h.pmm.total → ¬ FreeRun h.pmm.bitmap s (size / page_size))

-- What `kmalloc` does for a block of `n` bytes.
pub data Allocated (h : Heap) (ts : List Tile) (n : ℕ) : Option ℕ × Heap → Type 0 where
  refused : TooSmall n ts → CannotGrow h (asked n) → Allocated h ts n (none, h)
  from_list :
      {h' : Heap} (ls rs : List Tile) (m : ℕ)
      → ts ≡ ls ++ free m ∷ rs
      → TooSmall n ls
      → n ≤ m
      → After h (ls ++ cut_tile (used m) n rs) (frees h.start (ls ++ cut_tile (used m) n rs)) h'
      → Inv h' (ls ++ cut_tile (used m) n rs)
      → Allocated h ts n (some (past h.start ls + 32), h')
  from_growth :
      {h' : Heap} (size start : ℕ) (q : Pmm) (ls rs : List Tile) (m : ℕ)
      → size ≡ asked n
      → FreeRun h.pmm.bitmap start (size / page_size)
      → Marked start (size / page_size) h.pmm q
      → TooSmall n ts
      → h.end + size ≤ h.max
      → put_free ts size [] ≡ ls ++ free m ∷ rs
      → TooSmall n ls
      → n ≤ m
      → After
          (longer_heap size q h)
          (ls ++ cut_tile (used m) n rs)
          (frees h.start (ls ++ cut_tile (used m) n rs))
          h'
      → Inv h' (ls ++ cut_tile (used m) n rs)
      → Allocated h ts n (some (past h.start ls + 32), h')

pages_Inv : (h : Heap) (ts : List Tile) (q : Pmm) → Inv h ts → Inv (record h { pmm = q }) ts
pages_Inv h ts q v = record {
  ready = v.ready;
  row = v.row;
  list = v.list;
  apart = v.apart;
  round = v.round;
  low = v.low;
  some_room = v.some_room;
  limit = v.limit;
  physical = v.physical;
}

-- A block of the longer heap is one of the heap that was asked.
Given-Allocated :
    (h : Heap) (ts : List Tile) (n size start : ℕ) (q : Pmm) (h' : Heap)
    → size ≡ asked n
    → FreeRun h.pmm.bitmap start (size / page_size)
    → Marked start (size / page_size) h.pmm q
    → TooSmall n ts
    → h.end + size ≤ h.max
    → After (longer_heap size q h) (put_free ts size []) (frees h.start (put_free ts size [])) h'
    → (r : Option ℕ × Heap) → Given h' (put_free ts size []) n r
    → Allocated h ts n r
Given-Allocated h ts n size start q _ ask run taken small limit (after row list) _
      (given ls rs m e few fits a v) =
    from_growth size start q ls rs m ask run taken small limit e few fits (After_over a) v

search_again :
    (h : Heap) (ts : List Tile) (n size start : ℕ) (q : Pmm) (r : Bool × Heap)
    → size ≡ asked n
    → FreeRun h.pmm.bitmap start (size / page_size)
    → Marked start (size / page_size) h.pmm q
    → Inv h ts
    → n % 16 ≡ 0
    → 64 ≤ n
    → n ≤ size
    → TooSmall n ts
    → h.end + size ≤ h.max
    → Grown (record h { pmm = q }) ts size r
    → Yields (Allocated h ts n) (again r n)
search_again h ts n size start q _ ask run taken v round enough le small limit (longer {h'} a) =
    let v' = Grown-Inv (record h { pmm = q }) ts size h' (pages_Inv h ts q v) limit a in
    Yields-mono
      (second_search h' (put_free ts size []) n size v' round enough (fits_last ts n size le))
      (λ r g. Given-Allocated h ts n size start q h' ask run taken small limit a r g)

from_now :
    (h : Heap) (ts : List Tile) (n : ℕ) (r : Option ℕ × Heap) → Given h ts n r → Allocated h ts n r
from_now h ts n _ (given ls rs m e small fits a v) = from_list ls rs m e small fits a v

stuck : (h : Heap) (n size : ℕ) → size ≡ asked n → CannotGrow h size → CannotGrow h (asked n)
stuck h n size e c = subst (CannotGrow h) e c

after_pages :
    (h : Heap) (ts : List Tile) (n size : ℕ) (r : ℕ × Pmm)
    → size ≡ asked n
    → Inv h ts
    → Allocates (size / page_size) h.pmm r
    → n % 16 ≡ 0
    → 64 ≤ n
    → n ≤ size
    → size % 16 ≡ 0
    → TooSmall n ts
    → h.end + size ≤ h.max
    → Yields (Allocated h ts n) (with_pages (r.0) size (record h { pmm = r.1 }) >>= λ x. again x n)
after_pages h ts n size (addr, q) ask v (inl (none_left, same, never)) round enough le whole small
      limit =
    let failed : (addr == 0) ≡ true = ground arith in
    rw (failed, same) (yields (refused small (stuck h n size ask (inr never))))
after_pages h ts n size (addr, q) ask v (inr (start, at, low, fits, run, first, marked)) round
      enough le whole small limit =
    let got : (addr == 0) ≡ false = ground arith in
    let room : h.end + size < 2 ^ 64 = omega (arith, v.physical) in
    rw got (
      Yields-bind
        (extend-Grown (record h { pmm = q }) ts size (pages_Inv h ts q v) whole (omega arith) room)
        (λ x g. search_again h ts n size start q x ask run marked v round enough le small limit g))

grow_or_fail :
    (h : Heap) (ts : List Tile) (n : ℕ)
    → Inv h ts
    → PmmInv h.pmm
    → n % 16 ≡ 0
    → 64 ≤ n
    → n ≤ 2 ^ 63 + 2 ^ 16
    → TooSmall n ts
    → Yields (Allocated h ts n) (first_from none n h)
unfolding heap_expand
grow_or_fail h ts n v pages round enough bound small =
    let size = asked n in
    let no_wrap : u64 (h.end + size) ≡ h.end + size = omega (arith, v.limit, v.physical) in
    let allocates = alloc_pages-Allocates (size / page_size) pages (omega arith) in
    elim (Bool-cases (ltb h.max (u64 (h.end + size)))) [
      | inl e ↦ rw e (yields (refused small (inl (ground (arith, no_wrap)))))
      | inr e ↦
          let limit : h.end + size ≤ h.max = ground (arith, no_wrap) in
          rw e (
            after_pages h ts n size (alloc_pages (size / page_size) h.pmm) refl v allocates round
              enough (omega arith) (omega arith) small limit)
    ]

-- The size of the block that a request is given: its header and at least 32 bytes, in units of 16.
abbrev pub block_for : ℕ → ℕ
block_for size = align_size (header_size + max size min_block_size)

-- A request of 1 to 2^63 bytes to a heap in order, over a memory manager in order. It is given
-- the first free block that is large enough, behind its header, cut where at least 64 bytes are
-- left over. When there is none, the heap takes free pages, for at least 64 kilobytes, and grows
-- by as many bytes, and the block is the first one of the longer heap. It fails only when no block
-- is large enough and the heap cannot grow, and then changes nothing. After an allocation the heap
-- is in order with these blocks, and no byte of a payload changed.
pub kmalloc-Allocated :
    (size : ℕ) (h : Heap) (ts : List Tile)
    → Inv h ts
    → PmmInv h.pmm
    → 0 < size
    → size ≤ 2 ^ 63
    → Yields (Allocated h ts (block_for size)) (kmalloc size h)
unfolding kmalloc align_size
kmalloc-Allocated size h ts v pages pos bound =
    let n = block_for size in
    let some_bytes : (size == 0) ≡ false = ground arith in
    let no_wrap : u64 (header_size + max size min_block_size)
        ≡ header_size + max size min_block_size =
      omega arith in
    let round : n % 16 ≡ 0 = omega arith in
    let enough : 64 ≤ n = omega arith in
    let usable : not h.initialized ≡ false = ap not v.ready in
    rw (usable, some_bytes, no_wrap)
      (Yields-bind (find-FirstFit h ts n v) (λ o f. elim f [
        | hit ls rs m e p le small ↦ rw p (
            Yields-mono (hit-Given h ts ls rs n m v round enough e le small)
              (λ r g. from_now h ts n r g))
        | miss p small ↦ rw p (grow_or_fail h ts n v pages round enough (omega arith) small)
      ]))
