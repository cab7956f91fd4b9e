-- ===== src/Security/Sha256/Compress.antt =====
-- The reference for hashing: the blocks of a message, one after the other.
use os_porting.Base.{
  ℕ, zero, suc, ◌+◌, ◌-◌, ◌*◌, ◌/◌, ◌≤◌, ◌<◌, ◌≡◌, ◌∙◌, refl, sym, ap, ap₂, arith, List, [], ◌∷◌,
  ◌++◌, leb, Bool-cases, inl, inr, length, take, drop, length-drop,
}
use os_porting.Security.Sha256.{transform, whole_blocks}

-- The state after the first `n` blocks of 64 bytes.
unfoldable pub compress : ℕ → List ℕ → List ℕ → List ℕ
compress zero s xs = s
compress (suc n) s xs = compress n (transform s (take 64 xs)) (drop 64 xs)

pub take-append_le : (n : ℕ) (xs ys : List ℕ) → n ≤ length xs → take n (xs ++ ys) ≡ take n xs
take-append_le zero xs ys h = refl
take-append_le (suc n) [] ys h = absurd (omega arith)
take-append_le (suc n) (x ∷ xs) ys h = ap (λ r. x ∷ r) (take-append_le n xs ys (omega arith))

pub drop-append_le : (n : ℕ) (xs ys : List ℕ) → n ≤ length xs → drop n (xs ++ ys) ≡ drop n xs ++ ys
drop-append_le zero xs ys h = refl
drop-append_le (suc n) [] ys h = absurd (omega arith)
drop-append_le (suc n) (x ∷ xs) ys h = drop-append_le n xs ys (omega arith)

drop-nil : (n : ℕ) → drop {A = ℕ} n [] ≡ []
drop-nil zero = refl
drop-nil (suc n) = refl

pub drop-drop : (n m : ℕ) (xs : List ℕ) → drop n (drop m xs) ≡ drop (m + n) xs
drop-drop n zero xs = let none : 0 + n ≡ n = omega arith in rw none refl
drop-drop n (suc m) [] = let more : suc m + n ≡ suc (m + n) = omega arith in rw more (drop-nil n)
drop-drop n (suc m) (x ∷ xs) =
    let more : suc m + n ≡ suc (m + n) = omega arith in rw more (drop-drop n m xs)

-- Blocks of a first part of whole blocks come first.
pub compress-append :
    (n k : ℕ) (s xs ys : List ℕ)
    → length xs ≡ 64 * n
    → compress (n + k) s (xs ++ ys) ≡ compress k (compress n s xs) ys
unfolding compress
compress-append zero k s [] ys h = let all : 0 + k ≡ k = omega arith in rw all refl
compress-append zero k s (x ∷ xs) ys h = absurd (omega arith)
compress-append (suc n) k s xs ys h =
    let more : suc n + k ≡ suc (n + k) = omega arith in
    rw more (
      ap₂ (λ block rest. compress (n + k) (transform s block) rest)
        (take-append_le 64 xs ys (omega arith)) (drop-append_le 64 xs ys (omega arith))
      ∙ compress-append n k (transform s (take 64 xs)) (drop 64 xs) ys
          (omega (arith, length-drop {0} 64 xs)))

-- With fuel for its blocks the loop of `sha256_update` compresses all whole blocks.
pub whole_blocks-compress :
    (fuel : ℕ) (s p : List ℕ)
    → length p < 64 * suc fuel
    → whole_blocks fuel s p ≡ (compress (length p / 64) s p, drop (64 * (length p / 64)) p)
unfolding whole_blocks compress
whole_blocks-compress zero s p h =
    let none_left : length p / 64 ≡ 0 = omega arith in rw none_left refl
whole_blocks-compress (suc fuel) s p h = elim (Bool-cases (leb 64 (length p))) [
  | inl more ↦
      let enough : 64 ≤ length p = ground arith in
      let tail_length = length-drop 64 p in
      let rest = whole_blocks-compress fuel (transform s (take 64 p)) (drop 64 p) (omega arith) in
      let left : length (drop 64 p) / 64 ≡ length p / 64 - 1 = omega arith in
      let blocks : length p / 64 ≡ suc (length p / 64 - 1) = omega arith in
      let bytes : 64 + 64 * (length p / 64 - 1) ≡ 64 * (length p / 64) = omega arith in
      rw more (
        rest
        ∙ ap (λ n. (compress n (transform s (take 64 p)) (drop 64 p), drop (64 * n) (drop 64 p)))
            left
        ∙ ap₂ (λ t r. (t, r)) (ap (λ n. compress n s p) (sym blocks))
            (drop-drop (64 * (length p / 64 - 1)) 64 p ∙ ap (λ n. drop n p) bytes))
  | inr short ↦ let none_left : length p / 64 ≡ 0 = ground arith in rw (short, none_left) refl
]

-- What stands behind the first `n` blocks does not matter to them.
pub compress-prefix :
    (n : ℕ) (s xs ys : List ℕ) → 64 * n ≤ length xs → compress n s (xs ++ ys) ≡ compress n s xs
unfolding compress
compress-prefix zero s xs ys h = refl
compress-prefix (suc n) s xs ys h =
    ap₂ (λ block rest. compress n (transform s block) rest) (take-append_le 64 xs ys (omega arith))
      (drop-append_le 64 xs ys (omega arith))
    ∙ compress-prefix n (transform s (take 64 xs)) (drop 64 xs) ys
        (omega (arith, length-drop {0} 64 xs))

-- One block more.
pub compress-suc :
    (n : ℕ) (s xs : List ℕ)
    → compress (suc n) s xs ≡ transform (compress n s xs) (take 64 (drop (64 * n) xs))
unfolding compress
compress-suc zero s xs = refl
compress-suc (suc n) s xs =
    let bytes : 64 + 64 * n ≡ 64 * suc n = omega arith in
    compress-suc n (transform s (take 64 xs)) (drop 64 xs)
    ∙ ap (λ r. transform (compress n (transform s (take 64 xs)) (drop 64 xs)) (take 64 r))
        (drop-drop (64 * n) 64 xs ∙ ap (λ k. drop k xs) bytes)
