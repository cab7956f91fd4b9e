-- ===== src/Kernel/Heap/Inv.antt =====
-- The invariant of the heap.
use os_porting.Base.{◌%◌, ◌^◌, ◌≤◌, ◌<◌, ◌≡◌, arith, true, none, List}
use os_porting.Kernel.Heap.{Heap}
use os_porting.Kernel.Heap.Frees.Laws.{Lists}
use os_porting.Kernel.Heap.Tiles.{Tile, Tiles, frees}
use os_porting.Kernel.Heap.Steps.{After, after}
use os_porting.Kernel.Heap.Apart.{IsApart}

-- The blocks tile the heap from `start` to `end` with sizes in units of 16 bytes, each header has the
-- magic number of its use and points back to the block before; the list holds the free blocks from
-- low to high addresses; and no two of them are neighbours.
pub record Inv (h : Heap) (ts : List Tile) : Type 0 where
  pub ready : h.initialized ≡ true
  pub row : Tiles h.blocks h.end none h.start ts
  pub list : Lists (frees h.start ts) h.free
  pub apart : IsApart ts
  pub round : h.start % 16 ≡ 0
  pub low : 0 < h.start
  pub some_room : h.start < h.end
  pub limit : h.end ≤ h.max
  pub physical : h.max ≤ 2 ^ 33

pub Inv-small : {h : Heap} {ts : List Tile} → Inv h ts → h.end < 2 ^ 64
Inv-small v = omega (arith, v.limit, v.physical)

-- A change of the headers and the list alone.
pub After-Inv :
    (h h' : Heap) {ts us : List Tile}
    → Inv h ts
    → IsApart us
    → After h us (frees h.start us) h'
    → Inv h' us
After-Inv h _ v apart (after row list) = record {
  ready = v.ready;
  row = row;
  list = list;
  apart = apart;
  round = v.round;
  low = v.low;
  some_room = v.some_room;
  limit = v.limit;
  physical = v.physical;
}
