-- ===== src/Net/Netbuf/Pages.antt =====
-- The pages of a netbuf: `netbuf_alloc` and `netbuf_free` against the physical memory manager.
use os_porting.Base.{
  ℕ, ◌+◌, ◌*◌, ◌/◌, ◌≤◌, ◌<◌, ◌≡◌, ◌∙◌, ◌⊎◌, inl, inr, refl, arith, false, none, some, ◌==◌,
}
use os_porting.Base.{Option, leb, ltb, ◌||◌, true, Bool-cases, ap}
use os_porting.Net.Netbuf.{Netbuf, struct_size, fresh, alloc_data, alloc}
use os_porting.Libc.{Memory}
use os_porting.Libc.Move.{memset, memset_lem}
use os_porting.Net.Netbuf.Valid.{IsValid}
use os_porting.Kernel.Pmm.{Pmm, bitmap_test}
use os_porting.Kernel.Pmm.Inv.{Inv}
use os_porting.Kernel.Pmm.Search.{FreeRun}
use os_porting.Kernel.Pmm.Alloc.{alloc_pages-Allocates, Marked}
use os_porting.Kernel.Pmm.Free.{free_pages-Freed}
use os_porting.Net.Netbuf.{max_size, pages_of, net_malloc, net_free, free}

-- Every page is as it was, and the invariant holds.
pub record Restored (p q : Pmm) : Type 0 where
  pub inv : Inv q
  pub tests : (page : ℕ) → bitmap_test q.bitmap page ≡ bitmap_test p.bitmap page
  pub memory : q.total ≡ p.total

unchanged : {p : Pmm} → Inv p → Restored p p
unchanged v = record { inv = v; tests = λ page. refl; memory = refl }

-- No `count` pages in a row are free.
abbrev pub IsFull : ℕ → Pmm → Type 0
IsFull count p = (s : ℕ) → s + count ≤ p.total → ¬ FreeRun p.bitmap s count

-- `count` pages from `start` on, which were free, are used.
pub record Taken (start count : ℕ) (p q : Pmm) : Type 0 where
  pub low : 256 ≤ start
  pub fits : start + count ≤ p.total
  pub free : FreeRun p.bitmap start count
  pub marked : Marked start count p q

-- The outcome of `net_malloc`.
abbrev pub Malloced : ℕ → Pmm → Option ℕ × Pmm → Type 0
Malloced size p (start?, q) =
    ((start? ≡ none) × (q ≡ p) × IsFull (pages_of size) p)
    ⊎ ((start : ℕ) × (start? ≡ some (start * 4096)) × Taken start (pages_of size) p q)

net_malloc-Malloced :
    (size : ℕ) {p : Pmm} → Inv p → 0 < size → size ≤ max_size → Malloced size p (net_malloc size p)
unfolding net_malloc
net_malloc-Malloced size {p} v pos small =
    elim (alloc_pages-Allocates (pages_of size) v (omega arith)) [
      | inl (z, same, never) ↦ inl (rw z refl, same, never)
      | inr (start, e, low, fits, free, first, marked) ↦
          let some_page : (start * 4096 == 0) ≡ false = ground arith in
          inr (
            start,
            rw (e, some_page) refl,
            record { low = low; fits = fits; free = free; marked = marked },
          )
    ]

-- Freeing what was taken restores the pages, also after others were taken and restored.
net_free-Restored :
    (size start : ℕ) {p q r : Pmm}
    → 0 < size
    → size ≤ max_size
    → Taken start (pages_of size) p q
    → Restored q r
    → Restored p (net_free (start * 4096) size r)
unfolding net_free
net_free-Restored size start {p} {q} {r} pos small t same =
    let some_page : (start * 4096 == 0) ≡ false = ground (arith, t.low) in
    let freed = free_pages-Freed (pages_of size) start same.inv t.low (omega arith) in
    rw some_page (record {
      inv = freed.inv;
      tests = λ page. ground (
        arith,
        freed.tests page,
        same.tests page,
        same.memory,
        t.marked.tests page,
        t.marked.memory,
        t.fits,
        t.free page,
      );
      memory = freed.memory ∙ same.memory ∙ t.marked.memory;
    })

-- Every byte of the pages that are in use is as it was.
abbrev pub Kept : Pmm → Memory → Memory → Type 0
Kept p m w = (a : ℕ) → bitmap_test p.bitmap (a / 4096) ≡ true → w a ≡ m a

-- The bytes that are cleared lie in a page that was free.
memset-Kept :
    (s : ℕ) {p q : Pmm} (m : Memory) → Taken s 1 p q → Kept p m (memset struct_size (s * 4096) 0 m)
memset-Kept s m taken a used =
    ground (arith, memset_lem struct_size (s * 4096) 0 a m, taken.free (a / 4096))

-- Why `netbuf_alloc` fails: its arguments, or no page left for the structure, or then no run of free
-- pages that is long enough for the buffer.
abbrev pub IsRefused : ℕ → ℕ → Pmm → Type 0
IsRefused size room p =
    ((size ≡ 0) ⊎ ((max_size < size) ⊎ (size ≤ room)))
    ⊎ (IsFull 1 p ⊎ ((s : ℕ) × (p₁ : Pmm) × Taken s 1 p p₁ × IsFull (pages_of size) p₁))

-- The outcome of `netbuf_alloc`: refused with the pages as they were, for one of these reasons; or
-- an empty netbuf with the headroom asked for, in pages that were free, one for the structure and
-- others for the buffer. The bytes of the pages in use are kept either way.
abbrev pub Outcome : ℕ → ℕ → Pmm → Memory → Option (ℕ × Netbuf) × Pmm × Memory → Type 0
Outcome size room p m (made, q, w) =
    ((made ≡ none) × Restored p q × IsRefused size room p × Kept p m w)
    ⊎ ((s t : ℕ) × (p₁ : Pmm) × (made ≡ some (s * 4096, fresh (t * 4096) size room))
        × (room < size)
        × Taken s 1 p p₁
        × Taken t (pages_of size) p₁ q
        × IsValid (fresh (t * 4096) size room)
        × Kept p m w)

fresh-IsValid :
    (size room t : ℕ) {p q : Pmm}
    → Inv p
    → size ≤ max_size
    → room < size
    → Taken t (pages_of size) p q
    → IsValid (fresh (t * 4096) size room)
fresh-IsValid size room t v small lt taken = record {
  front = omega arith;
  back = omega arith;
  small = small;
  addressable = omega (arith, v.total_small, taken.fits);
}

alloc_data-Outcome :
    (size room s : ℕ) {p p₁ : Pmm} (r : Option ℕ × Pmm)
    → 0 < size
    → size ≤ max_size
    → room < size
    → Taken s 1 p p₁
    → Malloced size p₁ r
    → (m w : Memory) → Kept p m w
    → Outcome size room p m (alloc_data size room (s * 4096) r w)
unfolding alloc_data
alloc_data-Outcome size room s {p} {p₁} (start?, q) pos small lt taken (inl (z, same, never)) m w
      kept =
    let back =
      net_free-Restored struct_size s (omega arith) (omega arith) taken
        (unchanged taken.marked.inv) in
    rw (z, same) (inl (refl, back, inr (inr (s, p₁, taken, never)), kept))
alloc_data-Outcome size room s {p} {p₁} (start?, q) pos small lt taken (inr (t, e, more)) m w kept =
    rw e (
      inr (
        s,
        t,
        p₁,
        refl,
        lt,
        taken,
        more,
        fresh-IsValid size room t taken.marked.inv small lt more,
        kept,
      ))

bad_cases :
    {size room : ℕ}
    → (size == 0 || ltb max_size size) ≡ true
    → (size ≡ 0) ⊎ ((max_size < size) ⊎ (size ≤ room))
bad_cases {size} bad = elim (Bool-cases (size == 0)) [
  | inl zero ↦ inl (ground arith)
  | inr more ↦ inr (inl (ground arith))
]

-- `netbuf_alloc`, for any size and headroom, is refused only for a size of 0 or above 64 KB, a
-- headroom not below the size, no free page for the structure, or no run of free pages that is long
-- enough for the buffer, and then every page is as it was; or it gives an empty valid netbuf with the
-- headroom asked for, in pages that were free. Every byte of the pages in use is as it was.
pub alloc-Outcome :
    (size room : ℕ) {p : Pmm} (m : Memory) → Inv p → Outcome size room p m (alloc size room p m)
unfolding alloc
alloc-Outcome size room {p} m v = elim (Bool-cases (size == 0 || ltb max_size size)) [
  | inl bad ↦ rw bad (inl (refl, unchanged v, inl (bad_cases bad), λ a used. refl))
  | inr good ↦ elim (Bool-cases (leb size room)) [
    | inl crowded ↦
        rw (good, crowded) (inl (refl, unchanged v, inl (inr (inr (ground arith))), λ a used. refl))
    | inr fits ↦ elim (net_malloc-Malloced struct_size v (omega arith) (omega arith)) [
      | inl (z, same, never) ↦
          rw (good, fits, z, same) (inl (refl, unchanged v, inr (inl never), λ a used. refl))
      | inr (s, e, taken) ↦
          let pos : 0 < size = ground arith in
          let small : size ≤ max_size = ground arith in
          rw (good, fits, e)
            (alloc_data-Outcome size room s (net_malloc size _) pos small (ground arith) taken
              (net_malloc-Malloced size taken.marked.inv pos small) m _ (memset-Kept s m taken))
    ]
  ]
]

-- `netbuf_free` of a netbuf as `netbuf_alloc` made it, whatever was done to it since that kept its
-- buffer and capacity, restores every page.
pub free-alloc :
    (size room addr : ℕ) (b c : Netbuf) (m : Memory) {p : Pmm}
    → Inv p
    → (alloc size room p m).0 ≡ some (addr, b)
    → c.buffer_start ≡ b.buffer_start
    → c.capacity ≡ b.capacity
    → Restored p (free addr c (alloc size room p m).1)
unfolding free
free-alloc size room addr b c m v made start size_kept = elim (alloc-Outcome size room m v) [
  | inl (failed, rest, why, kept) ↦ absurd (ground (arith, failed, made))
  | inr (s, t, p₁, e, lt, one, more, valid, kept) ↦
      let here : addr ≡ s * 4096 = cc in
      let fields : b ≡ fresh (t * 4096) size room = cc in
      let buffer : c.buffer_start ≡ t * 4096 = start ∙ ap (λ n. n.buffer_start) fields in
      let extent : c.capacity ≡ size = size_kept ∙ ap (λ n. n.capacity) fields in
      let not_null : (s * 4096 == 0) ≡ false = ground (arith, one.low) in
      let not_null' : (t * 4096 == 0) ≡ false = ground (arith, more.low) in
      rw (here, not_null, buffer, not_null', extent)
        (net_free-Restored struct_size s (omega arith) (omega arith) one
          (net_free-Restored size t (omega arith) valid.small more (unchanged more.marked.inv)))
]
