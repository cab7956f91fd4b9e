-- ===== src/Net/Netbuf/Clone.antt =====
-- `netbuf_clone`: a copy in pages of its own.
use os_porting.Base.{
  ℕ, ◌+◌, ◌*◌, ◌/◌, ◌^◌, ◌≤◌, ◌<◌, ◌≡◌, ◌∙◌, ◌⊎◌, inl, inr, refl, arith, Option, none, some, true,
  false, List, ltb, Bool-cases,
}
use os_porting.Libc.{
  Memory, memcpy, bytes_at, AreDisjoint, bytes_at-memcpy, bytes_at-ext, memcpy-outside,
}
use os_porting.Kernel.Pmm.{Pmm, bitmap_test}
use os_porting.Kernel.Pmm.Inv.{Inv}
use os_porting.Net.Netbuf.{Netbuf, headroom, pages_of, fresh, alloc, clone, clone_fields}
use os_porting.Net.Netbuf.Valid.{IsValid, headroom_lem}
use os_porting.Net.Netbuf.Contents.{View, view}
use os_porting.Net.Netbuf.Pages.{Restored, Taken, Kept, alloc-Outcome, IsRefused}

-- The pages of the `n` bytes from an address on are used.
abbrev pub AreUsed : ℕ → ℕ → Pmm → Type 0
AreUsed at n p = (a : ℕ) → at ≤ a → a < at + n → bitmap_test p.bitmap (a / 4096) ≡ true

Taken-AreDisjoint :
    (s t size at n : ℕ) {p p₁ q : Pmm}
    → 0 < size
    → size ≤ 65536
    → 0 < n
    → AreUsed at n p
    → Taken s 1 p p₁
    → Taken t (pages_of size) p₁ q
    → AreDisjoint (t * 4096) size at n
Taken-AreDisjoint s t size at n {p} {p₁} pos small some_byte used one more =
    let clash : (a : ℕ) → at ≤ a → a < at + n → t * 4096 ≤ a → ¬ (a < t * 4096 + size) =
      λ a low high in_low in_high. ground (
        arith,
        used a low high,
        one.marked.tests (a / 4096),
        more.free (a / 4096) (omega arith) (omega arith),
      ) in
    elim (Bool-cases (ltb at (t * 4096))) [
      | inl before ↦ ground (arith, clash (t * 4096))
      | inr after ↦ ground (arith, clash at)
    ]

-- What `netbuf_clone` promises: no netbuf, because `netbuf_alloc` of the same capacity and headroom
-- is refused, and every page as it was; or a valid netbuf with the same room on both sides and the
-- same bytes, in a buffer that shares no byte with the source's. Every byte of the pages that were in
-- use, so each of the source's, is as it was.
abbrev pub Cloned : Netbuf → Pmm → Memory → Option (ℕ × Netbuf) × Pmm × Memory → Type 0
Cloned b p m (made, q, w) =
    ((made ≡ none) × IsRefused b.capacity (headroom b) p × Restored p q × Kept p m w)
    ⊎ ((s : ℕ) × (c : Netbuf) × (made ≡ some (s * 4096, c))
        × IsValid c
        × (view w c ≡ view m b)
        × AreDisjoint c.buffer_start c.capacity b.buffer_start b.capacity
        × Kept p m w
        × (bytes_at w b.buffer_start b.capacity ≡ bytes_at m b.buffer_start b.capacity))

view-eq :
    {f f' k k' : ℕ} {xs xs' : List ℕ}
    → f ≡ f'
    → xs ≡ xs'
    → k ≡ k'
    → ◌≡◌ {A = View}
        (record { front = f; bytes = xs; back = k })
        (record { front = f'; bytes = xs'; back = k' })
view-eq e x k = rw (e, x, k) refl

module _ (t : ℕ) {b : Netbuf} (m : Memory) (ok : IsValid b) where
  abbrev copy : Netbuf
  copy = clone_fields b (fresh (t * 4096) b.capacity (headroom b))

  copy-IsValid : t * 4096 + b.capacity < 2 ^ 64 → IsValid copy
  copy-IsValid fits = record {
    front = omega arith;
    back = omega (arith, headroom_lem ok, ok.front, ok.back);
    small = ok.small;
    addressable = fits;
  }

  module _ (apart : AreDisjoint (t * 4096) b.capacity b.buffer_start b.capacity) where
    abbrev copied : Memory
    copied = memcpy b.len (t * 4096 + headroom b) b.data_ptr m

    view-copy : view copied copy ≡ view m b
    view-copy =
        let apart' : AreDisjoint (t * 4096 + headroom b) b.len b.data_ptr b.len =
          ground (arith, headroom_lem ok, ok.front, ok.back) in
        view-eq (omega (arith, headroom_lem ok))
          (bytes_at-memcpy b.len (t * 4096 + headroom b) b.data_ptr m apart')
          (omega (arith, headroom_lem ok, ok.front, ok.back))

-- The bytes of used pages survive the copy as well.
copied-Kept :
    (s t : ℕ) {b : Netbuf} {p p₁ q : Pmm} (m w : Memory) (ok : IsValid b)
    → Taken s 1 p p₁
    → Taken t (pages_of b.capacity) p₁ q
    → Kept p m w
    → Kept p m (memcpy b.len (t * 4096 + headroom b) b.data_ptr w)
copied-Kept s t {b} m w ok one more kept a used =
    memcpy-outside b.len (t * 4096 + headroom b) b.data_ptr a w (
      ground (
        arith,
        headroom_lem ok,
        ok.front,
        ok.back,
        ok.small,
        used,
        one.marked.tests (a / 4096),
        more.free (a / 4096),
      ))
    ∙ kept a used

-- The bytes of a range in used pages.
bytes_at-Kept :
    (p : Pmm) (at n : ℕ) {m w : Memory}
    → AreUsed at n p
    → Kept p m w
    → bytes_at w at n ≡ bytes_at m at n
bytes_at-Kept p at n {m = m} {w = w} used kept =
    bytes_at-ext n at at w m (λ i lt. kept (at + i) (used (at + i) (omega arith) (omega arith)))

-- `netbuf_clone` of a valid netbuf whose buffer lies in used pages keeps that promise.
pub clone-Cloned :
    {b : Netbuf} {p : Pmm} (m : Memory)
    → Inv p
    → IsValid b
    → AreUsed b.buffer_start b.capacity p
    → Cloned b p m (clone false b p m)
unfolding clone
clone-Cloned {b} {p} m v ok used = elim (alloc-Outcome b.capacity (headroom b) m v) [
  | inl (failed, rest, why, kept) ↦ rw failed (inl (refl, why, rest, kept))
  | inr (s, t, p₁, e, lt, one, more, valid, kept) ↦
      let w = (alloc b.capacity (headroom b) p m).2 in
      let apart =
        Taken-AreDisjoint s t b.capacity b.buffer_start b.capacity (omega arith) ok.small
          (omega arith) used one more in
      let all_kept = copied-Kept s t m w ok one more kept in
      let same : bytes_at w b.data_ptr b.len ≡ bytes_at m b.data_ptr b.len =
        bytes_at-Kept p b.data_ptr b.len
          (λ a low high. used a (omega (arith, ok.front)) (omega (arith, ok.back))) kept in
      rw e (
        inr (
          s,
          copy t {b = b} w ok,
          refl,
          copy-IsValid t w ok valid.addressable,
          view-copy t w ok apart ∙ view-eq refl same refl,
          apart,
          all_kept,
          bytes_at-Kept p b.buffer_start b.capacity used all_kept,
        ))
]
