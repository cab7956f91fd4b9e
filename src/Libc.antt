-- ===== src/Libc.antt =====
-- lib/libc/string.c: `memcpy` over a store of bytes, and ranges of bytes.
pub mod Move
pub mod Compare
mod Tests
use os_porting.Base.{length, ◌-◌, take, drop, take-append, drop-append}
use os_porting.Base.{
  ℕ, zero, suc, ◌+◌, ◌≤◌, ◌<◌, ◌≡◌, ◌⊎◌, refl, ap, ap₂, ◌∙◌, List, [], ◌∷◌, ◌++◌, arith, ◌==◌,
  if◌then◌else◌,
}

-- A byte for every address.
abbrev pub Memory : Type 0
Memory = ℕ → ℕ

abbrev pub poke : ℕ → ℕ → Memory → Memory
poke at byte m = λ a. if a == at then byte else m a

-- `memcpy`: the loop, with the bytes left, the target, and the source.
unfoldable pub memcpy : ℕ → ℕ → ℕ → Memory → Memory
memcpy zero dest src m = m
memcpy (suc n) dest src m = memcpy n (dest + 1) (src + 1) (poke dest (m src) m)

-- The `n` bytes from an address on.
abbrev pub bytes_at : Memory → ℕ → ℕ → List ℕ
bytes_at m at zero = []
bytes_at m at (suc n) = m at ∷ bytes_at m (at + 1) n

-- Two ranges of `n` and `k` bytes with no common byte.
abbrev pub AreDisjoint : ℕ → ℕ → ℕ → ℕ → Type 0
AreDisjoint a n b k = (a + n ≤ b) ⊎ (b + k ≤ a)

pub memcpy-outside :
    (n dest src a : ℕ) (m : Memory) → (a < dest) ⊎ (dest + n ≤ a) → memcpy n dest src m a ≡ m a
unfolding memcpy
memcpy-outside zero dest src a m out = refl
memcpy-outside (suc n) dest src a m out =
    ground (arith, memcpy-outside n (dest + 1) (src + 1) a (poke dest (m src) m))

pub memcpy-inside :
    (n dest src i : ℕ) (m : Memory)
    → AreDisjoint dest n src n
    → i < n
    → memcpy n dest src m (dest + i) ≡ m (src + i)
unfolding memcpy
memcpy-inside zero dest src i m apart lt = absurd (omega arith)
memcpy-inside (suc n) dest src zero m apart lt =
    ground (arith, memcpy-outside n (dest + 1) (src + 1) dest (poke dest (m src) m))
memcpy-inside (suc n) dest src (suc i) m apart lt =
    let m' = poke dest (m src) m in
    let kept : m' (src + 1 + i) ≡ m (src + 1 + i) = ground arith in
    let there : dest + suc i ≡ dest + 1 + i = omega arith in
    let here : src + 1 + i ≡ src + suc i = omega arith in
    ap (memcpy n (dest + 1) (src + 1) m') there
    ∙ memcpy-inside n (dest + 1) (src + 1) i m' (ground arith) (omega arith)
    ∙ kept
    ∙ ap m here

pub bytes_at-ext :
    (n a b : ℕ) (m w : Memory)
    → ((i : ℕ) → i < n → m (a + i) ≡ w (b + i))
    → bytes_at m a n ≡ bytes_at w b n
bytes_at-ext zero a b m w same = refl
bytes_at-ext (suc n) a b m w same =
    ap₂ (λ x r. x ∷ r) (ap m (omega arith) ∙ same 0 (omega arith) ∙ ap w (omega arith))
      (bytes_at-ext n (a + 1) (b + 1) m w
        λ i lt. ap m (omega arith) ∙ same (suc i) (omega arith) ∙ ap w (omega arith))

-- Copying between ranges that share no byte makes the target hold the bytes of the source.
pub bytes_at-memcpy :
    (n dest src : ℕ) (m : Memory)
    → AreDisjoint dest n src n
    → bytes_at (memcpy n dest src m) dest n ≡ bytes_at m src n
bytes_at-memcpy n dest src m apart =
    bytes_at-ext n dest src (memcpy n dest src m) m (λ i lt. memcpy-inside n dest src i m apart lt)

-- Copying changes no range that shares no byte with the target.
pub bytes_at-memcpy_apart :
    (n dest src a k : ℕ) (m : Memory)
    → AreDisjoint dest n a k
    → bytes_at (memcpy n dest src m) a k ≡ bytes_at m a k
bytes_at-memcpy_apart n dest src a k m apart =
    bytes_at-ext k a a (memcpy n dest src m) m
      (λ i lt. memcpy-outside n dest src (a + i) m (ground arith))

pub bytes_at-append :
    (m : Memory) (at n k : ℕ) → bytes_at m at (n + k) ≡ bytes_at m at n ++ bytes_at m (at + n) k
bytes_at-append m at zero k = ap₂ (bytes_at m) (omega arith) (omega arith)
bytes_at-append m at (suc n) k =
    let more : suc n + k ≡ suc (n + k) = omega arith in
    let next : at + 1 + n ≡ at + suc n = omega arith in
    rw more (
      ap (λ r. m at ∷ r)
        (bytes_at-append m (at + 1) n k ∙ ap (λ a. bytes_at m (at + 1) n ++ bytes_at m a k) next))

pub length-bytes_at : (m : Memory) (at n : ℕ) → length (bytes_at m at n) ≡ n
length-bytes_at m at zero = refl
length-bytes_at m at (suc n) = ap suc (length-bytes_at m (at + 1) n)

pub take-bytes_at : (m : Memory) (at n k : ℕ) → k ≤ n → take k (bytes_at m at n) ≡ bytes_at m at k
take-bytes_at m at n k le =
    let split : n ≡ k + (n - k) = omega arith in
    ap (λ j. take k (bytes_at m at j)) split
    ∙ ap (take k) (bytes_at-append m at k (n - k))
    ∙ take-append k (bytes_at m at k) (bytes_at m (at + k) (n - k)) (length-bytes_at m at k)

pub drop-bytes_at :
    (m : Memory) (at n k : ℕ) → k ≤ n → drop k (bytes_at m at n) ≡ bytes_at m (at + k) (n - k)
drop-bytes_at m at n k le =
    let split : n ≡ k + (n - k) = omega arith in
    ap (λ j. drop k (bytes_at m at j)) split
    ∙ ap (drop k) (bytes_at-append m at k (n - k))
    ∙ drop-append k (bytes_at m at k) (bytes_at m (at + k) (n - k)) (length-bytes_at m at k)
