-- ===== src/Net/Netbuf.antt =====
-- net/core/netbuf.c and netbuf.h: buffers with room in front for headers, in pages of the memory
-- manager. The structure's fields are a record, and its page is allocated, cleared and freed as in
-- the source; what the fields hold in memory at the structure's address is not followed further.
-- The first argument of a call says whether the netbuf pointer is NULL.
pub mod Valid
pub mod Contents
pub mod Pages
pub mod Clone
mod Tests
use os_porting.Base.{
  ℕ, ◌+◌, ◌-◌, ◌/◌, ◌%◌, ◌^◌, Bool, true, false, Option, none, some, List, ltb, leb, ◌==◌, ◌||◌,
  if◌then◌else◌, replicate,
}
use os_porting.Kernel.Pmm.{Pmm, u64, alloc_pages, free_pages}
use os_porting.Libc.{Memory, memcpy}
use os_porting.Libc.Move.{memset}

-- `NETBUF_DEFAULT_HEADROOM`, `NETBUF_MAX_SIZE` and `sizeof(netbuf_t)`
abbrev pub default_headroom : ℕ
default_headroom = 64

abbrev pub max_size : ℕ
max_size = 65536

abbrev pub struct_size : ℕ
struct_size = 72

-- `netbuf_t`; the pointers are addresses, and the two MAC addresses their six bytes.
pub record Netbuf : Type 0 where
  pub buffer_start : ℕ
  pub data_ptr : ℕ
  pub len : ℕ
  pub capacity : ℕ
  pub protocol : ℕ
  pub flags : ℕ
  pub src_mac : List ℕ
  pub dst_mac : List ℕ
  pub src_ip : ℕ
  pub dst_ip : ℕ
  pub next : ℕ

-- Subtraction of a `size_t`.
abbrev pub sub64 : ℕ → ℕ → ℕ
sub64 a b = u64 (a + 2 ^ 64 - b)

abbrev pub pages_of : ℕ → ℕ
pages_of size = u64 (size + 4095) / 4096

-- `net_malloc` and `net_free`; `none` is NULL.
unfoldable pub net_malloc : ℕ → Pmm → Option ℕ × Pmm
net_malloc size p =
    let (addr, q) = alloc_pages (pages_of size) p in (if addr == 0 then none else some addr, q)

unfoldable pub net_free : ℕ → ℕ → Pmm → Pmm
net_free addr size p = if addr == 0 then p else free_pages addr (pages_of size) p

-- What `netbuf_alloc` leaves in the structure.
abbrev pub fresh : ℕ → ℕ → ℕ → Netbuf
fresh start size headroom = record {
  buffer_start = start;
  data_ptr = start + headroom;
  len = 0;
  capacity = size;
  protocol = 0;
  flags = 0;
  src_mac = replicate 6 0;
  dst_mac = replicate 6 0;
  src_ip = 0;
  dst_ip = 0;
  next = 0;
}

-- The second half of `netbuf_alloc`, once `net_malloc` was asked for the buffer of the structure at
-- `addr`.
unfoldable pub alloc_data : ℕ → ℕ → ℕ → Option ℕ × Pmm → Memory → Option (ℕ × Netbuf) × Pmm × Memory
alloc_data size headroom addr (none, p) m = (none, net_free addr struct_size p, m)
alloc_data size headroom addr (some start, p) m = (some (addr, fresh start size headroom), p, m)

-- `netbuf_alloc`: the address of the structure with its fields.
unfoldable pub alloc : ℕ → ℕ → Pmm → Memory → Option (ℕ × Netbuf) × Pmm × Memory
alloc size headroom p m =
    if size == 0 || ltb max_size size
    then (none, p, m)
    else if leb size headroom
    then (none, p, m)
    else let (addr?, q) = net_malloc struct_size p in
      elim addr? [
        | none ↦ (none, q, m)
        | some addr ↦
            alloc_data size headroom addr (net_malloc size q) (memset struct_size addr 0 m)
      ]

-- `netbuf_free`; `addr` is the structure's address, 0 for NULL.
unfoldable pub free : ℕ → Netbuf → Pmm → Pmm
free addr b p =
    if addr == 0
    then p
    else net_free addr struct_size
        (if b.buffer_start == 0 then p else net_free b.buffer_start b.capacity p)

-- `netbuf_headroom`, `netbuf_tailroom` and `netbuf_data_at`
unfoldable pub headroom : Netbuf → ℕ
headroom b = sub64 b.data_ptr b.buffer_start

unfoldable pub tailroom : Netbuf → ℕ
tailroom b = sub64 (sub64 b.capacity (headroom b)) b.len

unfoldable pub data_at : Netbuf → ℕ → Option ℕ
data_at b offset = if leb b.len offset then none else some (b.data_ptr + offset)

-- `netbuf_push`, `netbuf_pull` and `netbuf_put`: the pointer returned, and the buffer.
unfoldable pub push : Bool → ℕ → Netbuf → Option ℕ × Netbuf
push null n b = if null then (none, b) else if ltb (headroom b) n then (none, b) else (
  some (sub64 b.data_ptr n),
  record b { data_ptr = sub64 b.data_ptr n; len = u64 (b.len + n) },
)

unfoldable pub pull : Bool → ℕ → Netbuf → Option ℕ × Netbuf
pull null n b = if null then (none, b) else if ltb b.len n then (none, b) else (
  some (u64 (b.data_ptr + n)),
  record b { data_ptr = u64 (b.data_ptr + n); len = sub64 b.len n },
)

unfoldable pub put : Bool → ℕ → Netbuf → Option ℕ × Netbuf
put null n b =
    if null
    then (none, b)
    else if ltb (tailroom b) n
    then (none, b)
    else (some (b.data_ptr + b.len), record b { len = u64 (b.len + n) })

-- `netbuf_trim`; `false` is -1.
unfoldable pub trim : Bool → ℕ → Netbuf → Bool × Netbuf
trim null n b =
    if null
    then (false, b)
    else if ltb b.len n
    then (false, b)
    else (true, record b { len = sub64 b.len n })

-- `netbuf_reset`
unfoldable pub reset : Bool → ℕ → Netbuf → Netbuf
reset null room b =
    if null
    then b
    else fresh b.buffer_start b.capacity (if leb b.capacity room then default_headroom else room)

-- `netbuf_copy_in` of `n` bytes at `src`; `null` says that one of the pointers is NULL.
unfoldable pub copy_in : Bool → ℕ → ℕ → Netbuf → Memory → Bool × Netbuf × Memory
copy_in null src n b m =
    if null
    then (false, b, m)
    else if ltb (tailroom b) n
    then (false, b, m)
    else (true, record b { len = u64 (b.len + n) }, memcpy n (b.data_ptr + b.len) src m)

-- What `netbuf_clone` makes of a new buffer: the bytes in memory, and the fields.
abbrev pub clone_fields : Netbuf → Netbuf → Netbuf
clone_fields b c = record c {
  len = b.len;
  protocol = b.protocol;
  flags = b.flags;
  src_mac = b.src_mac;
  dst_mac = b.dst_mac;
  src_ip = b.src_ip;
  dst_ip = b.dst_ip;
}

-- `netbuf_clone`
unfoldable pub clone : Bool → Netbuf → Pmm → Memory → Option (ℕ × Netbuf) × Pmm × Memory
clone null b p m =
    if null
    then (none, p, m)
    else let (made, q, w) = alloc b.capacity (headroom b) p m in
      elim made [
        | none ↦ (none, q, w)
        | some (addr, c) ↦ (some (addr, clone_fields b c), q, memcpy b.len c.data_ptr b.data_ptr w)
      ]
