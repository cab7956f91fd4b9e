-- ===== src/Kernel/Heap/Calls.antt =====
-- kernel/mm/heap.c: the calls of the allocator.
use os_porting.Base.{
  ℕ, zero, suc, ◌+◌, ◌-◌, ◌/◌, ◌^◌, max, Bool, true, false, not, Option, none, some, ltb, leb, ◌==◌,
  ◌&&◌, ◌||◌, if◌then◌else◌, put, ◌>>=◌,
}
use os_porting.Kernel.Pmm.{page_size, align_up, alloc_pages}
use os_porting.Kernel.Heap.Frees.{u64}
use os_porting.Kernel.Heap.{
  Heap, Blocks, Stats, min_block_size, expand_size, heap_max_size, header_size, block_magic,
  block_get_size, block_is_used, block_set_used, block_set_free, align_size,
  block_get_next_physical, fuel, free_list_add, free_list_remove, coalesce_blocks, find_free_block,
  new_header, split_block,
}

-- `heap_expand`: the walk to the last block
module _ (s : Blocks) (end : ℕ) where
  abbrev step_to : (ℕ → Option ℕ) → ℕ → Option ℕ → Option ℕ
  step_to rest b none = some b
  step_to rest b (some n) = if leb end n then some b else rest n

  unfoldable pub last_block : ℕ → ℕ → Option ℕ
  last_block zero b = none
  last_block (suc k) b = step_to (last_block k) b (block_get_next_physical b s end)

-- `heap_expand` once the pages are allocated and `p` is the last block
abbrev pub grown : ℕ → ℕ → Heap → Heap
grown size p h = record h {
  blocks = new_header h.end (some p) size h.blocks;
  free = record (h.free) { next = put h.free.next h.end none };
  end = u64 (h.end + size);
  stats = record (h.stats) {
    total_size = u64 (h.stats.total_size + size);
    free_size = u64 (h.stats.free_size + size);
    block_count = u64 (h.stats.block_count + 1);
    expand_count = u64 (h.stats.expand_count + 1);
  };
}

abbrev pub extend : ℕ → Heap → Option (Bool × Heap)
extend size h = last_block h.blocks h.end (fuel h + 1) h.start >>= λ p.
    free_list_add h.end (grown size p h) >>= λ h'.
    coalesce_blocks h.end h' >>= λ h''. some (true, h'')

abbrev pub with_pages : ℕ → ℕ → Heap → Option (Bool × Heap)
with_pages phys size h = if phys == 0 then some (false, h) else extend size h

unfoldable pub heap_expand : ℕ → Heap → Option (Bool × Heap)
heap_expand min_size h =
    let size = align_up (max min_size expand_size) in
    let (phys, pmm) = alloc_pages (size / page_size) h.pmm in
    if ltb h.max (u64 (h.end + size))
    then some (false, h)
    else with_pages phys size (record h { pmm = pmm })

-- `heap_init` from the address of the pages; `memset` clears the headers and the payload.
abbrev pub cleared_to {ℓ} : {A : Type ℓ} → ℕ → ℕ → A → (ℕ → A) → ℕ → A
cleared_to start size v f a = if leb start a && ltb a (start + size) then v else f a

abbrev pub first_stats : ℕ → Stats
first_stats size = record {
  total_size = size;
  used_size = 0;
  free_size = size - header_size;
  block_count = 1;
  alloc_count = 0;
  free_count = 0;
  expand_count = 0;
}

abbrev pub zeroed : ℕ → ℕ → Blocks → Blocks
zeroed start size s = record {
  size = cleared_to start size 0 s.size;
  prev = cleared_to start size none s.prev;
  magic = cleared_to start size 0 s.magic;
  flags = cleared_to start size 0 s.flags;
}

abbrev pub set_up : ℕ → ℕ → Heap → Heap
set_up start size h = record h {
  start = start;
  end = u64 (start + size);
  max = u64 (start + heap_max_size);
  initialized = true;
  blocks = new_header start none size (zeroed start size h.blocks);
  free = record {
    head = some start;
    next = put (cleared_to start size none h.free.next) start none;
    count = 1;
  };
  stats = first_stats size;
  bytes = cleared_to start size 0 h.bytes;
}

-- `heap_init`; the address it is given is not used
unfoldable pub heap_init : ℕ → Heap → Bool × Heap
heap_init initial_size h =
    let size = max (align_up initial_size) page_size in
    let (phys, pmm) = alloc_pages (size / page_size) h.pmm in
    if h.initialized
    then (false, h)
    else if phys == 0
    then (false, record h { pmm = pmm })
    else (true, set_up phys size (record h { pmm = pmm }))

-- `kmalloc` from the block that was found
abbrev pub charge : ℕ → Heap → Heap
charge b h = record h {
  blocks = block_set_used b h.blocks;
  stats = record (h.stats) {
    used_size = u64 (h.stats.used_size + block_get_size b h.blocks);
    free_size = u64 (h.stats.free_size + 2 ^ 64 - block_get_size b h.blocks);
    alloc_count = u64 (h.stats.alloc_count + 1);
  };
}

abbrev pub block_to_data : ℕ → ℕ
block_to_data b = u64 (b + header_size)

abbrev pub data_to_block : ℕ → ℕ
data_to_block p = u64 (p + 2 ^ 64 - header_size)

unfoldable pub hand_out : ℕ → ℕ → Heap → Option (Option ℕ × Heap)
hand_out n b h = free_list_remove b h >>= λ h'.
    split_block b n h' >>= λ h''. some (some (block_to_data b), charge b h'')

abbrev pub find : ℕ → Heap → Option (Option ℕ)
find n h = find_free_block h.blocks h.free n (fuel h + 1) h.free.head

-- The second search, after the heap was expanded, or was not.
abbrev pub again_from : Option ℕ → ℕ → Heap → Option (Option ℕ × Heap)
again_from none n h = some (none, h)
again_from (some b) n h = hand_out n b h

abbrev pub again : Bool × Heap → ℕ → Option (Option ℕ × Heap)
again (false, h) n = some (none, h)
again (true, h) n = find n h >>= λ o. again_from o n h

abbrev pub first_from : Option ℕ → ℕ → Heap → Option (Option ℕ × Heap)
first_from none n h = heap_expand n h >>= λ r. again r n
first_from (some b) n h = hand_out n b h

-- `kmalloc`; the answer NULL is `none`
unfoldable pub kmalloc : ℕ → Heap → Option (Option ℕ × Heap)
kmalloc size h =
    let n = align_size (u64 (header_size + max size min_block_size)) in
    if not h.initialized
    then some (none, h)
    else if size == 0
    then some (none, h)
    else find n h >>= λ o. first_from o n h

-- `kfree` of a pointer that is not NULL
abbrev pub uncharge : ℕ → Heap → Heap
uncharge n h = record h {
  stats = record (h.stats) {
    used_size = u64 (h.stats.used_size + 2 ^ 64 - n);
    free_size = u64 (h.stats.free_size + n);
    free_count = u64 (h.stats.free_count + 1);
  };
}

unfoldable pub give_back : ℕ → Heap → Option Heap
give_back b h = free_list_add b (record h { blocks = block_set_free b h.blocks }) >>= λ h'.
    coalesce_blocks b (uncharge (block_get_size b h.blocks) h')

unfoldable pub kfree : Option ℕ → Heap → Option Heap
kfree none h = some h
kfree (some p) h =
    let b = data_to_block p in
    if not h.initialized
    then some h
    else if not (h.blocks.magic b == block_magic)
    then some h
    else if not (block_is_used b h.blocks)
    then some h
    else if ltb b h.start || leb h.end b
    then some h
    else give_back b h
