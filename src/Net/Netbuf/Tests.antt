-- ===== src/Net/Netbuf/Tests.antt =====
-- Runs of the netbuf calls, and their theorems on a small buffer.
use os_porting.Base.{
  ℕ, ◌/◌, ◌%◌, ◌==◌, Bool-cases, ◌≡◌, ◌↔◌, ◌⊎◌, ◌<◌, ◌≤◌, inl, inr, refl, some, none, false,
  replicate, arith, [], ◌∷◌,
}
use os_porting.Libc.{Memory, memcpy, bytes_at}
use os_porting.Kernel.Pmm.{Pmm, bitmap_test}
use os_porting.Kernel.Pmm.Inv.{Inv}
use os_porting.Kernel.Pmm.Init.{init}
use os_porting.Kernel.Pmm.BootMap.{init-Inv, init-none, init-none_total}
use os_porting.Net.Netbuf.{Netbuf, default_headroom, push, trim, copy_in, reset, alloc, clone, free}
use os_porting.Net.Netbuf.Valid.{IsValid, reset-IsValid_iff}
use os_porting.Net.Netbuf.Pages.{Outcome, Restored, Taken, IsFull, alloc-Outcome, free-alloc}
use os_porting.Net.Netbuf.Clone.{Cloned, AreUsed, clone-Cloned}

-- 32 bytes at 4096 with 14 of headroom and 4 of data.
abbrev small : Netbuf
small = record {
  buffer_start = 4096;
  data_ptr = 4110;
  len = 4;
  capacity = 32;
  protocol = 0x0800;
  flags = 0;
  src_mac = replicate 6 0;
  dst_mac = replicate 6 0;
  src_ip = 0;
  dst_ip = 0;
  next = 0;
}

small-IsValid : IsValid small
small-IsValid = record {
  front = omega arith;
  back = omega arith;
  small = omega arith;
  addressable = omega arith;
}

-- A memory that holds the low byte of each address.
abbrev ramp : Memory
ramp a = a % 256

push_run :
    bytes_at (memcpy 2 4108 0 ramp) 4108 (push false 2 small).1.len ≡ 0 ∷ 1 ∷ 14 ∷ 15 ∷ 16 ∷ 17 ∷ []
unfolding memcpy push os_porting.Net.Netbuf.headroom
push_run = refl

reset-IsValid_iff_example :
    IsValid (reset false 40 small) ↔ ((40 < small.capacity) ⊎ (default_headroom ≤ small.capacity))
reset-IsValid_iff_example = reset-IsValid_iff 40 small-IsValid

-- The pages after a boot without a memory map.
abbrev before : Pmm
before = record { bitmap = []; total = 0; used = 0 }

abbrev booted : Pmm
booted = (init none before).1

booted-Inv : Inv booted
booted-Inv = init-Inv none before

booted-AreUsed : AreUsed 4096 32 booted
booted-AreUsed a low high = elim (Bool-cases (bitmap_test booted.bitmap (a / 4096))) [
  | inl used ↦ used
  | inr free ↦ absurd (omega (arith, (booted-Inv.free_in (a / 4096) (omega arith) free).0))
]

clone-Cloned_example : Cloned small booted ramp (clone false small booted ramp)
clone-Cloned_example = clone-Cloned ramp booted-Inv small-IsValid booted-AreUsed

alloc-Outcome_example : Outcome 2048 64 booted ramp (alloc 2048 64 booted ramp)
alloc-Outcome_example = alloc-Outcome 2048 64 ramp booted-Inv

booted_free : (page : ℕ) → 256 ≤ page → page < 4096 → bitmap_test booted.bitmap page ≡ false
booted_free page low high = init-none before page low high

another_page : (s : ℕ) {p : Pmm} → Taken s 1 booted p → ¬ IsFull 1 p
another_page s {p} taken never = elim (Bool-cases (s == 300)) [
  | inl here ↦
      never 301 (omega (arith, taken.marked.memory, init-none_total before))
        λ page low high. ground (arith, taken.marked.tests page, booted_free page)
  | inr there ↦
      never 300 (omega (arith, taken.marked.memory, init-none_total before))
        λ page low high. ground (arith, taken.marked.tests page, booted_free page)
]

made : (x : ℕ × Netbuf) × ((alloc 2048 64 booted ramp).0 ≡ some x)
made = elim (alloc-Outcome 2048 64 ramp booted-Inv) [
  | inl (failed, rest, inl bad, kept) ↦ absurd (ground arith)
  | inl (failed, rest, inr (inl never), kept) ↦ absurd (
      never 300 (omega (arith, init-none_total before))
        (λ page low high. booted_free page (omega arith) (omega arith)))
  | inl (failed, rest, inr (inr (s, p, taken, never)), kept) ↦ absurd (another_page s taken never)
  | inr (s, t, p, e, lt, one, more, valid, kept) ↦ (_, e)
]

free-alloc_example : Restored booted (free made.0.0 made.0.1 (alloc 2048 64 booted ramp).1)
free-alloc_example = free-alloc 2048 64 made.0.0 made.0.1 made.0.1 ramp booted-Inv made.1 refl refl
