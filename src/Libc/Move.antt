-- ===== src/Libc/Move.antt =====
-- `memset` and `memmove` of lib/libc/string.c.
use os_porting.Base.{
  ℕ, zero, suc, ◌+◌, ◌-◌, ◌&&◌, ◌%◌, ◌≤◌, ◌<◌, ◌≡◌, ◌∙◌, ◌⊎◌, inl, inr, refl, ap, arith, leb, ltb,
  ◌==◌, ◌||◌, if◌then◌else◌, Bool-cases,
}
use os_porting.Libc.{Memory, poke, memcpy, memcpy-outside, bytes_at, bytes_at-ext}

-- `memset`: `c` is an `int`, cut to a byte.
unfoldable pub memset : ℕ → ℕ → ℕ → Memory → Memory
memset zero dest c m = m
memset (suc n) dest c m = memset n (dest + 1) c (poke dest (c % 256) m)

-- The loop of `memmove` that goes backward; the two addresses are the ends of what is left.
unfoldable pub copy_back : ℕ → ℕ → ℕ → Memory → Memory
copy_back zero dest src m = m
copy_back (suc n) dest src m = copy_back n dest src (poke (dest + n) (m (src + n)) m)

-- `memmove`; the loop that goes forward is that of `memcpy`.
unfoldable pub memmove : ℕ → ℕ → ℕ → Memory → Memory
memmove n dest src m =
    if n == 0 || dest == src
    then m
    else if ltb dest src || leb (src + n) dest
    then memcpy n dest src m
    else copy_back n dest src m

memset-outside :
    (n dest c a : ℕ) (m : Memory) → (a < dest) ⊎ (dest + n ≤ a) → memset n dest c m a ≡ m a
unfolding memset
memset-outside zero dest c a m out = refl
memset-outside (suc n) dest c a m out =
    ground (arith, memset-outside n (dest + 1) c a (poke dest (c % 256) m))

memset-inside : (n dest c i : ℕ) (m : Memory) → i < n → memset n dest c m (dest + i) ≡ c % 256
unfolding memset
memset-inside zero dest c i m lt = absurd (omega arith)
memset-inside (suc n) dest c zero m lt =
    ground (arith, memset-outside n (dest + 1) c dest (poke dest (c % 256) m))
memset-inside (suc n) dest c (suc i) m lt =
    let m' = poke dest (c % 256) m in
    let there : dest + suc i ≡ dest + 1 + i = omega arith in
    ap (memset n (dest + 1) c m') there ∙ memset-inside n (dest + 1) c i m' (omega arith)

-- `memset` sets each byte of its range to the lowest byte of `c` and keeps every other byte.
pub memset_lem :
    (n dest c a : ℕ) (m : Memory)
    → memset n dest c m a ≡ (if leb dest a && ltb a (dest + n) then c % 256 else m a)
memset_lem n dest c a m = elim (Bool-cases (leb dest a && ltb a (dest + n))) [
  | inl inside ↦
      let there : a ≡ dest + (a - dest) = ground arith in
      rw inside (ap (memset n dest c m) there ∙ memset-inside n dest c (a - dest) m (ground arith))
  | inr outside ↦ rw outside (memset-outside n dest c a m (ground arith))
]

copy_back-outside :
    (n dest src a : ℕ) (m : Memory) → (a < dest) ⊎ (dest + n ≤ a) → copy_back n dest src m a ≡ m a
unfolding copy_back
copy_back-outside zero dest src a m out = refl
copy_back-outside (suc n) dest src a m out =
    ground (arith, copy_back-outside n dest src a (poke (dest + n) (m (src + n)) m))

-- Going backward is right when the target does not start before the source.
copy_back-inside :
    (n dest src i : ℕ) (m : Memory)
    → src ≤ dest
    → i < n
    → copy_back n dest src m (dest + i) ≡ m (src + i)
unfolding copy_back
copy_back-inside zero dest src i m le lt = absurd (omega arith)
copy_back-inside (suc n) dest src i m le lt =
    let m' = poke (dest + n) (m (src + n)) m in
    elim (Bool-cases (i == n)) [
      | inl last ↦ ground (arith, copy_back-outside n dest src (dest + i) m')
      | inr before ↦ ground (arith, copy_back-inside n dest src i m' le)
    ]

-- Going forward is right when the target does not start inside the source.
memcpy-forward :
    (n dest src i : ℕ) (m : Memory)
    → (dest ≤ src) ⊎ (src + n ≤ dest)
    → i < n
    → memcpy n dest src m (dest + i) ≡ m (src + i)
unfolding memcpy
memcpy-forward zero dest src i m way lt = absurd (omega arith)
memcpy-forward (suc n) dest src zero m way lt =
    ground (arith, memcpy-outside n (dest + 1) (src + 1) dest (poke dest (m src) m))
memcpy-forward (suc n) dest src (suc i) m way lt =
    let m' = poke dest (m src) m in
    let kept : m' (src + 1 + i) ≡ m (src + 1 + i) = ground arith in
    let there : dest + suc i ≡ dest + 1 + i = omega arith in
    let here : src + 1 + i ≡ src + suc i = omega arith in
    ap (memcpy n (dest + 1) (src + 1) m') there
    ∙ memcpy-forward n (dest + 1) (src + 1) i m' (ground arith) (omega arith)
    ∙ kept
    ∙ ap m here

module _ (n dest src : ℕ) (m : Memory) where
  moved : (i : ℕ) → i < n → memmove n dest src m (dest + i) ≡ m (src + i)
  unfolding memmove
  moved i lt = elim (Bool-cases (dest == src)) [
    | inl same ↦ ground arith
    | inr apart ↦ elim (Bool-cases (ltb dest src || leb (src + n) dest)) [
      | inl forward ↦ ground (arith, memcpy-forward n dest src i m)
      | inr backward ↦ ground (arith, copy_back-inside n dest src i m)
    ]
  ]

  kept : (a : ℕ) → (a < dest) ⊎ (dest + n ≤ a) → memmove n dest src m a ≡ m a
  unfolding memmove
  kept a out = ground (arith, memcpy-outside n dest src a m, copy_back-outside n dest src a m)

-- `memmove` makes the target hold the bytes that the source held, whether or not the two ranges
-- overlap, and keeps every byte outside the target.
pub memmove-Moves :
    (n dest src : ℕ) (m : Memory)
    → (bytes_at (memmove n dest src m) dest n ≡ bytes_at m src n)
      × ((a : ℕ) → (a < dest) ⊎ (dest + n ≤ a) → memmove n dest src m a ≡ m a)
memmove-Moves n dest src m =
    (bytes_at-ext n dest src (memmove n dest src m) m (moved n dest src m), kept n dest src m)
