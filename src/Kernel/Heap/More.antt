-- ===== src/Kernel/Heap/More.antt =====
-- kernel/mm/heap.c: the calls that are made of others, and the check of the heap.
use os_porting.Base.{
  ℕ, zero, suc, ◌+◌, ◌-◌, ◌*◌, ◌/◌, ◌%◌, ◌^◌, max, bit_and, Bool, true, false, not, Option, none,
  some, ltb, leb, ◌==◌, ◌&&◌, ◌||◌, if◌then◌else◌, ◌>>=◌,
}
use os_porting.Kernel.Heap.{
  Heap, Blocks, Stats, min_block_size, header_size, block_magic, free_magic, set_size,
  block_get_size, block_is_used, align_size, block_get_next_physical, relink, free_list_remove,
  split_block,
}
use os_porting.Kernel.Heap.Frees.{u64}
use os_porting.Kernel.Heap.Calls.{kmalloc, kfree, cleared_to, data_to_block}

-- `kcalloc`, with `heap_memset` on the payload
abbrev pub clear_at : ℕ → Option ℕ × Heap → Option ℕ × Heap
clear_at n (none, h) = (none, h)
clear_at n (some p, h) = (some p, record h { bytes = cleared_to p n 0 h.bytes })

unfoldable pub kcalloc : ℕ → ℕ → Heap → Option (Option ℕ × Heap)
kcalloc count size h =
    if not (count == 0) && ltb ((2 ^ 64 - 1) / count) size
    then some (none, h)
    else kmalloc (u64 (count * size)) h >>= λ r. some (clear_at (u64 (count * size)) r)

-- `heap_memcpy` of `n` bytes from `q` to `p`, blocks that do not overlap
abbrev pub copy_to : ℕ → ℕ → ℕ → (ℕ → ℕ) → ℕ → ℕ
copy_to p q n f a = if leb p a && ltb a (p + n) then f (q + (a - p)) else f a

-- The bytes behind a header.
abbrev pub payload_size : ℕ → Blocks → ℕ
payload_size b s = u64 (block_get_size b s + 2 ^ 64 - header_size)

-- `krealloc` in place, where the block `next` is free and large enough. `heap_stats.free_size` goes
-- down by the size in the header of `next`.
abbrev pub joined_with : ℕ → ℕ → Heap → Heap
joined_with b next h =
    let combined = u64 (block_get_size b h.blocks + block_get_size next h.blocks) in
    record h {
      blocks = relink h.end b (set_size b combined h.blocks);
      stats = record (h.stats) {
        free_size = u64 (h.stats.free_size + 2 ^ 64 - block_get_size next h.blocks);
        block_count = u64 (h.stats.block_count + 2 ^ 64 - 1);
      };
    }

unfoldable pub grow_in_place : ℕ → ℕ → ℕ → Heap → Option Heap
grow_in_place b next n h = free_list_remove next h >>= λ h'. split_block b n (joined_with b next h')

-- `krealloc` to a new block
abbrev pub moved_to : ℕ → ℕ → Option ℕ × Heap → Option (Option ℕ × Heap)
moved_to p n (none, h) = some (none, h)
moved_to p n (some q, h) =
    kfree (some p) (record h { bytes = copy_to q p n h.bytes }) >>= λ h'. some (some q, h')

unfoldable pub move_block : ℕ → ℕ → ℕ → Heap → Option (Option ℕ × Heap)
move_block p size new_size h = kmalloc new_size h >>= λ r. moved_to p size r

abbrev pub grow_or_move : Option ℕ → ℕ → ℕ → Heap → Option (Option ℕ × Heap)
grow_or_move none p new_size h = move_block p (payload_size (data_to_block p) h.blocks) new_size h
grow_or_move (some next) p new_size h =
    let b = data_to_block p in
    let n = align_size (u64 (header_size + max new_size min_block_size)) in
    if block_is_used next h.blocks
    then move_block p (payload_size b h.blocks) new_size h
    else if leb n (u64 (block_get_size b h.blocks + block_get_size next h.blocks))
    then (grow_in_place b next n h >>= λ h'. some (some p, h'))
    else move_block p (payload_size b h.blocks) new_size h

-- `krealloc`; the checks come before the lock is taken, and the parts are calls of their own
unfoldable pub krealloc : Option ℕ → ℕ → Heap → Option (Option ℕ × Heap)
krealloc none new_size h = kmalloc new_size h
krealloc (some p) new_size h =
    let b = data_to_block p in
    if new_size == 0
    then (kfree (some p) h >>= λ h'. some (none, h'))
    else if not h.initialized
    then some (none, h)
    else if not (h.blocks.magic b == block_magic) || not (block_is_used b h.blocks)
    then some (none, h)
    else if leb new_size (payload_size b h.blocks)
    then some (some p, h)
    else grow_or_move (block_get_next_physical b h.blocks h.end) p new_size h

-- The loop of `heap_validate`: the rounds left, the block, the one before it, the size so far, and
-- whether all is well. It allows 10000 blocks, and goes on at address 0 where the next block is NULL.
abbrev pub magic_fits : ℕ → Blocks → Bool
magic_fits b s = if block_is_used b s then s.magic b == block_magic else s.magic b == free_magic

abbrev pub same_block : Option ℕ → Option ℕ → Bool
same_block none none = true
same_block none (some c) = false
same_block (some b) none = false
same_block (some b) (some c) = b == c

abbrev pub address : Option ℕ → ℕ
address none = 0
address (some b) = b

module _ (s : Blocks) (end : ℕ) where
  abbrev pub size_fits : ℕ → Bool
  size_fits b = not (ltb (block_get_size b s) header_size || ltb (end - b) (block_get_size b s))

  unfoldable pub validate_loop : ℕ → ℕ → Option ℕ → ℕ → Bool → ℕ × Bool
  validate_loop zero b prev total valid = (total, false)
  validate_loop (suc left) b prev total valid =
      let sum = u64 (total + block_get_size b s) in
      let sound = valid && magic_fits b s && same_block (s.prev b) prev in
      let next = address (block_get_next_physical b s end) in
      let on = validate_loop left next (some b) sum sound in
      if ltb b end then (if size_fits b then on else (total, false)) else (total, valid)

-- `heap_validate`
unfoldable pub heap_validate : Heap → Bool
heap_validate h =
    let (total, valid) = validate_loop h.blocks h.end 10001 h.start none 0 true in
    if h.initialized then valid && (total == h.end - h.start) else false

-- `kmalloc_aligned`: the pointer that `kmalloc` gave is stored in the 8 bytes before the aligned one.
abbrev pub byte_at : ℕ → ℕ → ℕ
byte_at i p = p / 256 ^ i % 256

abbrev pub store_u64 : ℕ → ℕ → (ℕ → ℕ) → ℕ → ℕ
store_u64 at p f a = if leb at a && ltb a (at + 8) then byte_at (a - at) p else f a

abbrev pub load_u64 : ℕ → (ℕ → ℕ) → ℕ
load_u64 at f =
    f at
    + f (at + 1) * 256 ^ 1
    + f (at + 2) * 256 ^ 2
    + f (at + 3) * 256 ^ 3
    + f (at + 4) * 256 ^ 4
    + f (at + 5) * 256 ^ 5
    + f (at + 6) * 256 ^ 6
    + f (at + 7) * 256 ^ 7

abbrev pub not_mask : ℕ → ℕ
not_mask alignment = 2 ^ 64 - 1 - u64 (alignment + 2 ^ 64 - 1)

abbrev pub align_up_to : ℕ → ℕ → ℕ
align_up_to x alignment = bit_and (u64 (x + u64 (alignment + 2 ^ 64 - 1))) (not_mask alignment)

abbrev pub aligned_from : ℕ → Option ℕ × Heap → Option ℕ × Heap
aligned_from alignment (none, h) = (none, h)
aligned_from alignment (some p, h) =
    let aligned = align_up_to (u64 (p + 8)) alignment in
    (some aligned, record h { bytes = store_u64 (u64 (aligned + 2 ^ 64 - 8)) p h.bytes })

unfoldable pub kmalloc_aligned : ℕ → ℕ → Heap → Option (Option ℕ × Heap)
kmalloc_aligned size alignment h =
    if not h.initialized || size == 0
    then some (none, h)
    else if not (bit_and alignment (u64 (alignment + 2 ^ 64 - 1)) == 0)
    then some (none, h)
    else (kmalloc (u64 (size + u64 (alignment + 8))) h >>= λ r. some (aligned_from alignment r))

-- `kfree_aligned`; a stored pointer of 0 is NULL
abbrev pub pointer : ℕ → Option ℕ
pointer p = if p == 0 then none else some p

unfoldable pub kfree_aligned : Option ℕ → Heap → Option Heap
kfree_aligned none h = some h
kfree_aligned (some p) h = kfree (pointer (load_u64 (u64 (p + 2 ^ 64 - 8)) h.bytes)) h

-- `heap_get_stats` of a structure that is not NULL
unfoldable pub heap_get_stats : Heap → Stats × ℕ
heap_get_stats h = (h.stats, h.free.count)
