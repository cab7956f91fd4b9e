-- ===== src/Kernel/Pmm/Bits.antt =====
-- One page's bit among the others of the bitmap.
use os_porting.Base.{
  ℕ, zero, suc, ◌/◌, ◌%◌, ◌≤◌, ◌<◌, ◌≡◌, refl, sym, ap, ap₂, ◌∙◌, Bool, true, false, not, ◌&&◌,
  ◌||◌, List, [], ◌∷◌, arith, ◌==◌, and-eq-true, holds_below, holds_below-at, length, get_or, set,
  length-set, get_or-set_self, get_or-set_ne,
}
use native.Mathlib.Decide.{ℕ_discrete, dec_lt}
use os_porting.Kernel.Pmm.{set_bit, clear_bit, test_bit, bitmap_set, bitmap_clear, bitmap_test}

same : Bool → Bool → Bool
same true b = b
same false b = not b

-- What writing bit `j` of a byte does to its bit `k`, checked at every byte and every pair of bits.
bit_laws : ℕ → ℕ → ℕ → Bool
bit_laws b j k =
    same (test_bit (set_bit b j) k) (j == k || test_bit b k)
    && same (test_bit (clear_bit b j) k) (not (j == k) && test_bit b k)

bit_table : holds_below 256 (λ b. holds_below 8 (λ j. holds_below 8 (bit_laws b j))) ≡ true
unfolding holds_below bit_laws same set_bit clear_bit test_bit
bit_table = refl

same-eq : (a b : Bool) → same a b ≡ true → a ≡ b
unfolding same
same-eq true b h = sym h
same-eq false true h = cc
same-eq false false h = refl

module _ (b j k : ℕ) (hb : b < 256) (hj : j < 8) (hk : k < 8) where
  laws_hold : bit_laws b j k ≡ true
  laws_hold = holds_below-at 8 (bit_laws b j) k hk (
      holds_below-at 8 (λ i. holds_below 8 (bit_laws b i)) j hj
        (holds_below-at 256 (λ c. holds_below 8 (λ i. holds_below 8 (bit_laws c i))) b hb
          bit_table))

  test-set_bit : test_bit (set_bit b j) k ≡ (j == k || test_bit b k)
  unfolding bit_laws
  test-set_bit = same-eq _ _ ((and-eq-true _ _ laws_hold).0)

  test-clear_bit : test_bit (clear_bit b j) k ≡ (not (j == k) && test_bit b k)
  unfolding bit_laws
  test-clear_bit = same-eq _ _ ((and-eq-true _ _ laws_hold).1)

-- Every entry of the bitmap is a byte.
abbrev pub AreBytes : List ℕ → Type 0
AreBytes bitmap = (i : ℕ) → get_or bitmap i 0 < 256

set_past : (xs : List ℕ) (i v : ℕ) → length xs ≤ i → set xs i v ≡ xs
set_past [] i v h = refl
set_past (x ∷ xs) zero v h = absurd (omega arith)
set_past (x ∷ xs) (suc i) v h = ap (λ r. x ∷ r) (set_past xs i v (omega arith))

set-AreBytes : (bitmap : List ℕ) (at v : ℕ) → v < 256 → AreBytes bitmap → AreBytes (set bitmap at v)
set-AreBytes bitmap at v h all i = elim (ℕ_discrete at i) [
  | yes e ↦ elim (dec_lt at (length bitmap)) [
    | yes room ↦ rw (← e, get_or-set_self bitmap at v 0 room) h
    | no out ↦ rw (set_past bitmap at v (omega arith)) (all i)
  ]
  | no ne ↦ rw (get_or-set_ne bitmap at i v 0 ne) (all i)
]

same_page : (i j : ℕ) → i / 8 ≡ j / 8 → (i % 8 == j % 8) ≡ (i == j)
same_page i j h = ground arith

module _ (bitmap : List ℕ) (i j : ℕ) (room : i / 8 < length bitmap) where
  get-same : (v : ℕ) → i / 8 ≡ j / 8 → get_or (set bitmap (i / 8) v) (j / 8) 0 ≡ v
  get-same v e =
      ap (λ d. get_or (set bitmap (i / 8) v) d 0) (sym e) ∙ get_or-set_self bitmap (i / 8) v 0 room

  module _ (all : AreBytes bitmap) where
    -- Setting a page's bit changes the test of that page alone.
    pub test-set : bitmap_test (bitmap_set bitmap i) j ≡ (i == j || bitmap_test bitmap j)
    unfolding bitmap_test bitmap_set
    test-set = elim (ℕ_discrete (i / 8) (j / 8)) [
      | yes e ↦
          ap (λ c. test_bit c (j % 8)) (get-same (set_bit (get_or bitmap (i / 8) 0) (i % 8)) e)
          ∙ test-set_bit (get_or bitmap (i / 8) 0) (i % 8) (j % 8) (all (i / 8)) (omega arith)
              (omega arith)
          ∙ ap₂ (λ x y. x || test_bit (get_or bitmap y 0) (j % 8)) (same_page i j e) e
      | no ne ↦
          let apart : (i == j) ≡ false = ground arith in
          rw (apart, get_or-set_ne bitmap (i / 8) (j / 8) _ 0 ne)
    ]

    -- Clearing it too.
    pub test-clear : bitmap_test (bitmap_clear bitmap i) j ≡ (not (i == j) && bitmap_test bitmap j)
    unfolding bitmap_test bitmap_clear
    test-clear = elim (ℕ_discrete (i / 8) (j / 8)) [
      | yes e ↦
          ap (λ c. test_bit c (j % 8)) (get-same (clear_bit (get_or bitmap (i / 8) 0) (i % 8)) e)
          ∙ test-clear_bit (get_or bitmap (i / 8) 0) (i % 8) (j % 8) (all (i / 8)) (omega arith)
              (omega arith)
          ∙ ap₂ (λ x y. not x && test_bit (get_or bitmap y 0) (j % 8)) (same_page i j e) e
      | no ne ↦
          let apart : (i == j) ≡ false = ground arith in
          rw (apart, get_or-set_ne bitmap (i / 8) (j / 8) _ 0 ne)
    ]

pub bitmap_set-AreBytes :
    (bitmap : List ℕ) (i : ℕ) → AreBytes bitmap → AreBytes (bitmap_set bitmap i)
unfolding bitmap_set set_bit
bitmap_set-AreBytes bitmap i all = set-AreBytes bitmap (i / 8) _ (omega arith) all

pub bitmap_clear-AreBytes :
    (bitmap : List ℕ) (i : ℕ) → AreBytes bitmap → AreBytes (bitmap_clear bitmap i)
unfolding bitmap_clear clear_bit
bitmap_clear-AreBytes bitmap i all = set-AreBytes bitmap (i / 8) _ (omega arith) all

pub length-bitmap_set : (bitmap : List ℕ) (i : ℕ) → length (bitmap_set bitmap i) ≡ length bitmap
unfolding bitmap_set
length-bitmap_set bitmap i = length-set bitmap (i / 8) _

pub length-bitmap_clear : (bitmap : List ℕ) (i : ℕ) → length (bitmap_clear bitmap i) ≡ length bitmap
unfolding bitmap_clear
length-bitmap_clear bitmap i = length-set bitmap (i / 8) _
