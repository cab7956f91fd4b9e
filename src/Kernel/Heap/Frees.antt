-- ===== src/Kernel/Heap/Frees.antt =====
-- kernel/mm/heap.c: the list of free blocks. A block is named by its address; `next` is a field
-- of the block's header, NULL is `none`.
pub mod Chain
pub mod Laws
pub mod Removal
use os_porting.Base.{
  ℕ, zero, suc, ◌+◌, ◌-◌, ◌%◌, ◌^◌, Bool, false, Option, none, some, ltb, ◌==◌, if◌then◌else◌, put,
  ◌>>=◌,
}

abbrev pub u64 : ℕ → ℕ
u64 n = n % 2 ^ 64

-- `free_list`, the field `next` of every header, and `heap_stats.free_block_count`.
pub record FreeList : Type 0 where
  pub head : Option ℕ
  pub next : ℕ → Option ℕ
  pub count : ℕ

abbrev pub at_front : ℕ → FreeList → FreeList
at_front b l = record { head = some b; next = put l.next b l.head; count = u64 (l.count + 1) }

abbrev pub after : ℕ → ℕ → FreeList → FreeList
after c b l = record l {
  next = put (put l.next b (l.next c)) c (some b);
  count = u64 (l.count + 1);
}

module _ (next : ℕ → Option ℕ) (b : ℕ) where
  -- The loop of `free_list_add`: the last element before `b`, from `current` on.
  abbrev step_past : (ℕ → Option ℕ) → ℕ → Option ℕ → Option ℕ
  step_past rest current none = some current
  step_past rest current (some c) = if ltb c b then rest c else some current

  unfoldable pub insertion_point : ℕ → ℕ → Option ℕ
  insertion_point zero current = none
  insertion_point (suc fuel) current = step_past (insertion_point fuel) current (next current)

  -- The loop of `free_list_remove`: the element before `b`, or the last.
  abbrev step_until : (ℕ → Option ℕ) → ℕ → Option ℕ → Option ℕ
  step_until rest current none = some current
  step_until rest current (some c) = if c == b then some current else rest c

  unfoldable pub find_before : ℕ → ℕ → Option ℕ
  find_before zero current = none
  find_before (suc fuel) current = step_until (find_before fuel) current (next current)

-- `free_list_add` from the point where the block is marked free.
abbrev add_from : Option ℕ → ℕ → ℕ → FreeList → Option FreeList
add_from none fuel b l = some (at_front b l)
add_from (some f) fuel b l =
    if ltb b f
    then some (at_front b l)
    else insertion_point l.next b fuel f >>= λ c. some (after c b l)

unfoldable pub add : ℕ → ℕ → FreeList → Option FreeList
add fuel b l = add_from l.head fuel b l

-- `free_list_remove`
abbrev points_to : Option ℕ → ℕ → Bool
points_to none b = false
points_to (some c) b = c == b

abbrev pub unlink_after : ℕ → ℕ → FreeList → FreeList
unlink_after c b l = record l {
  next = put (put l.next c (l.next b)) b none;
  count = u64 (l.count + 2 ^ 64 - 1);
}

abbrev remove_from : Option ℕ → ℕ → ℕ → FreeList → Option FreeList
remove_from none fuel b l = some l
remove_from (some f) fuel b l =
    if f == b
    then some
        (record { head = l.next b; next = put l.next b none; count = u64 (l.count + 2 ^ 64 - 1) })
    else find_before l.next b fuel f >>= λ c.
        some (if points_to (l.next c) b then unlink_after c b l else l)

unfoldable pub remove : ℕ → ℕ → FreeList → Option FreeList
remove fuel b l = remove_from l.head fuel b l
