-- ===== src/Kernel/Heap.antt =====
-- kernel/mm/heap.c: the blocks that tile the heap, the list of the free ones, and every call of
-- the allocator. The part of a call under `heap_lock` is one step; what is printed is left out. A
-- field of the headers is a function of the block's address, and the payload's bytes are a store of
-- their own, which says nothing at the addresses of headers. This stands for the memory of the source
-- as long as headers lie apart from each other and from the payloads in use, as in a heap in order; a
-- write that reaches from one into another is outside the model. A loop has fuel, the size of the
-- heap, and a call gives `none` only where a loop runs out of it.
pub mod Frees
pub mod Calls
pub mod More
pub mod Tiles
pub mod Edits
pub mod Rows
pub mod Steps
pub mod Split
pub mod Absorb
pub mod Settle
pub mod Merge
pub mod Search
pub mod Apart
pub mod Inv
pub mod Alloc
pub mod Grow
pub mod Given
pub mod Malloc
pub mod Release
pub mod Begin
pub mod Trip
pub mod Validate
pub mod Twice
pub mod Resize
mod Tests
use os_porting.Base.{
  ℕ, zero, suc, ◌+◌, ◌-◌, ◌*◌, ◌/◌, ◌%◌, ◌^◌, max, bit_and, bit_or, Bool, true, false, not, Option,
  none, some, ltb, leb, ◌==◌, ◌&&◌, ◌||◌, if◌then◌else◌, put, ◌>>=◌,
}
use os_porting.Kernel.Pmm.{Pmm, page_size, align_up, alloc_pages}
use os_porting.Kernel.Heap.Frees.{FreeList, u64, add, remove}

-- `HEAP_MIN_BLOCK_SIZE`, `HEAP_EXPAND_SIZE`, `HEAP_MAX_SIZE`, `sizeof(heap_block_t)`, and the magic
-- numbers
abbrev pub min_block_size : ℕ
min_block_size = 32

abbrev pub expand_size : ℕ
expand_size = 2 ^ 16

abbrev pub heap_max_size : ℕ
heap_max_size = 2 ^ 24

abbrev pub header_size : ℕ
header_size = 32

abbrev pub block_magic : ℕ
block_magic = 3735928559

abbrev pub free_magic : ℕ
free_magic = 4277009102

-- The headers, without `next`.
pub record Blocks : Type 0 where
  pub size : ℕ → ℕ
  pub prev : ℕ → Option ℕ
  pub magic : ℕ → ℕ
  pub flags : ℕ → ℕ

-- `heap_stats`, without `free_block_count`
pub record Stats : Type 0 where
  pub total_size : ℕ
  pub used_size : ℕ
  pub free_size : ℕ
  pub block_count : ℕ
  pub alloc_count : ℕ
  pub free_count : ℕ
  pub expand_count : ℕ

-- The static state, the memory that it manages, and the physical memory manager.
pub record Heap : Type 0 where
  pub start : ℕ
  pub end : ℕ
  pub max : ℕ
  pub initialized : Bool
  pub blocks : Blocks
  pub free : FreeList
  pub stats : Stats
  pub bytes : ℕ → ℕ
  pub pmm : Pmm

abbrev pub set_size : ℕ → ℕ → Blocks → Blocks
set_size b n s = record s { size = put s.size b n }

abbrev pub set_prev : ℕ → Option ℕ → Blocks → Blocks
set_prev b p s = record s { prev = put s.prev b p }

-- `block_get_size`, `block_is_used`, `block_set_used` and `block_set_free`
abbrev pub align_down_16 : ℕ → ℕ
align_down_16 n = n / 16 * 16

unfoldable pub block_get_size : ℕ → Blocks → ℕ
block_get_size b s = align_down_16 (s.size b)

unfoldable pub block_is_used : ℕ → Blocks → Bool
block_is_used b s = not (bit_and (s.flags b) 1 == 0)

unfoldable pub block_set_used : ℕ → Blocks → Blocks
block_set_used b s = record s {
  flags = put s.flags b (bit_or (s.flags b) 1);
  magic = put s.magic b block_magic;
}

unfoldable pub block_set_free : ℕ → Blocks → Blocks
block_set_free b s = record s {
  flags = put s.flags b (bit_and (s.flags b) (2 ^ 32 - 2));
  magic = put s.magic b free_magic;
}

-- `align_size`
unfoldable pub align_size : ℕ → ℕ
align_size n = align_down_16 (u64 (n + 15))

-- `block_get_next_physical`, in a heap that ends at `end`
unfoldable pub block_get_next_physical : ℕ → Blocks → ℕ → Option ℕ
block_get_next_physical b s end =
    let next = u64 (b + block_get_size b s) in if leb end next then none else some next

-- `after->prev = block` for the block after `b`, if there is one
abbrev pub set_prev_of : Option ℕ → ℕ → Blocks → Blocks
set_prev_of none b s = s
set_prev_of (some a) b s = set_prev a (some b) s

unfoldable pub relink : ℕ → ℕ → Blocks → Blocks
relink end b s = set_prev_of (block_get_next_physical b s end) b s

abbrev pub fuel : Heap → ℕ
fuel h = h.end - h.start

-- `free_list_add` and `free_list_remove`
unfoldable pub free_list_add : ℕ → Heap → Option Heap
free_list_add b h =
    add (fuel h) b h.free >>= λ l. some (record h { free = l; blocks = block_set_free b h.blocks })

unfoldable pub free_list_remove : ℕ → Heap → Option Heap
free_list_remove b h = remove (fuel h) b h.free >>= λ l. some (record h { free = l })

-- The two merges of `coalesce_blocks`: `b` takes in the block `n` that follows it.
abbrev pub take_in : ℕ → ℕ → Heap → Heap
take_in b n h =
    let s = set_size b (u64 (block_get_size b h.blocks + block_get_size n h.blocks)) h.blocks in
    record h { blocks = relink h.end b s }

abbrev pub merge_next : Option ℕ → ℕ → Heap → Option Heap
merge_next none b h = some h
merge_next (some n) b h =
    if block_is_used n h.blocks
    then some h
    else free_list_remove n h >>= λ h'. some (take_in b n h')

abbrev pub merge_prev : Option ℕ → ℕ → Heap → Option Heap
merge_prev none b h = some h
merge_prev (some p) b h =
    if block_is_used p h.blocks
    then some h
    else free_list_remove b h >>= λ h'. some (take_in p b h')

-- `coalesce_blocks`
unfoldable pub coalesce_blocks : ℕ → Heap → Option Heap
coalesce_blocks b h =
    if block_is_used b h.blocks
    then some h
    else merge_next (block_get_next_physical b h.blocks h.end) b h >>= λ h'.
        merge_prev (h'.blocks.prev b) b h'

-- `find_free_block`; the outer `none` is lack of fuel
module _ (s : Blocks) (l : FreeList) (n : ℕ) where
  abbrev try_fit : (Option ℕ → Option (Option ℕ)) → Option ℕ → Option (Option ℕ)
  try_fit rest none = some none
  try_fit rest (some c) = if leb n (block_get_size c s) then some (some c) else rest (l.next c)

  unfoldable pub find_free_block : ℕ → Option ℕ → Option (Option ℕ)
  find_free_block zero current = none
  find_free_block (suc k) current = try_fit (find_free_block k) current

-- The headers of the new block `new` that `split_block` makes, and of the block `b` before it.
abbrev pub new_header : ℕ → Option ℕ → ℕ → Blocks → Blocks
new_header b p n s =
    block_set_free b
      (record s { size = put s.size b n; prev = put s.prev b p; flags = put s.flags b 0 })

abbrev pub cut : ℕ → ℕ → ℕ → ℕ → ℕ → Blocks → Blocks
cut end new b n remaining s = relink end new (set_size b n (new_header new (some b) remaining s))

abbrev pub count_block : Heap → Heap
count_block h = record h {
  stats = record (h.stats) { block_count = u64 (h.stats.block_count + 1) };
}

-- `split_block`
unfoldable pub split_block : ℕ → ℕ → Heap → Option Heap
split_block b n h =
    let remaining = u64 (block_get_size b h.blocks + 2 ^ 64 - n) in
    let new = u64 (b + n) in
    if ltb remaining (header_size + min_block_size)
    then some h
    else free_list_add new (record h {
      blocks = cut h.end new b n remaining h.blocks;
      free = record (h.free) { next = put h.free.next new none };
    })
      >>= λ h'. some (count_block h')
