-- ===== src/Base/Bits.antt =====
-- `&`, `|` and `~` of C at variables. The native operations are opened to a recursion on binary
-- digits once; masks then cut an operand down to a width where a table decides.
use Prim.Native.Nat.{
  ℕ, zero, suc, ◌+◌, ◌-◌, ◌*◌, ◌/◌, ◌%◌, ◌^◌, ◌≤◌, ◌<◌, min, max, bit_and, bit_or, digits,
  bit_and-bitwise, bit_or-bitwise, bit_xor, bit_xor-bitwise, differ,
}
use mathlib.Core.Path.{◌≡◌, refl, ap, ap₂, sym, ◌∙◌}
use native.Mathlib.Nat.{
  div-div-eq-div-mul, pow-suc, one-le-pow, mul-add-mod_self_left, mod-eq_of_lt, mod-lt, div-add-mod,
}
use native.Mathlib.Omega.{arith}

-- Any two fuels that reach the left operand give the same digits.
module _ (z : ℕ → ℕ) (f : ℕ → ℕ → ℕ) where
  enough_fuel :
      (left fuel spare right : ℕ)
      → left ≤ fuel
      → left ≤ spare
      → digits z f spare left right ≡ digits z f fuel left right
  enough_fuel (suc left) (suc fuel) (suc spare) right u v =
      let next = enough_fuel (suc left / 2) fuel spare (right / 2) (omega arith) (omega arith) in
      omega (arith, next)
  enough_fuel (suc left) zero spare right u v = absurd (omega arith)
  enough_fuel (suc left) (suc fuel) zero right u v = absurd (omega arith)
  enough_fuel zero (suc fuel) zero right u v = refl
  enough_fuel zero (suc fuel) (suc spare) right u v = refl
  enough_fuel zero zero zero right u v = refl
  enough_fuel zero zero (suc spare) right u v = refl

-- The lowest binary digit of `a & b`.
pub and_digit : (a b : ℕ) → bit_and a b ≡ bit_and (a / 2) (b / 2) * 2 + min (a % 2) (b % 2)
and_digit zero b = omega (arith, bit_and-bitwise 0 b, bit_and-bitwise 0 (b / 2))
and_digit (suc a) b =
    let half = suc a / 2 in
    let cut = enough_fuel (λ y. zero) min half half a (b / 2) (omega arith) (omega arith) in
    omega (arith, bit_and-bitwise half (b / 2), cut, bit_and-bitwise (suc a) b)

-- The lowest binary digit of `a | b`.
or_digit : (a b : ℕ) → bit_or a b ≡ bit_or (a / 2) (b / 2) * 2 + max (a % 2) (b % 2)
or_digit zero b = omega (arith, bit_or-bitwise 0 b, bit_or-bitwise 0 (b / 2))
or_digit (suc a) b =
    let half = suc a / 2 in
    let cut = enough_fuel (λ y. y) max half half a (b / 2) (omega arith) (omega arith) in
    omega (arith, bit_or-bitwise half (b / 2), cut, bit_or-bitwise (suc a) b)

-- Bit `i` of a number.
unfoldable pub bit_at : ℕ → ℕ → ℕ
bit_at zero a = a % 2
bit_at (suc i) a = bit_at i (a / 2)

pub bit_at-and : (i a b : ℕ) → bit_at i (bit_and a b) ≡ min (bit_at i a) (bit_at i b)
unfolding bit_at
bit_at-and zero a b = omega (arith, and_digit a b)
bit_at-and (suc i) a b = ap (bit_at i) (omega (arith, and_digit a b)) ∙ bit_at-and i (a / 2) (b / 2)

pub bit_at-or : (i a b : ℕ) → bit_at i (bit_or a b) ≡ max (bit_at i a) (bit_at i b)
unfolding bit_at
bit_at-or zero a b = omega (arith, or_digit a b)
bit_at-or (suc i) a b = ap (bit_at i) (omega (arith, or_digit a b)) ∙ bit_at-or i (a / 2) (b / 2)

pub bit_at-le : (i a : ℕ) → bit_at i a ≤ 1
unfolding bit_at
bit_at-le zero a = omega arith
bit_at-le (suc i) a = bit_at-le i (a / 2)

masked_out : (fuel left : ℕ) → digits (λ y. zero) min fuel left 0 ≡ 0
masked_out zero zero = refl
masked_out zero (suc left) = refl
masked_out (suc fuel) zero = refl
masked_out (suc fuel) (suc left) = omega (arith, masked_out fuel (suc left / 2))

pub and-zero : (a : ℕ) → bit_and a 0 ≡ 0
and-zero a = omega (arith, bit_and-bitwise a 0, masked_out a a)

-- Halving commutes with cutting off high bits; `t` stands for a power of two.
half-mod : (t a : ℕ) → 0 < t → a % (2 * t) / 2 ≡ a / 2 % t
half-mod t a h = omega (
  arith,
  ap (λ n. n % t) split,
  mul-add-mod_self_left t (a / (2 * t)) (a % (2 * t) / 2),
  mod-eq_of_lt {n = a % (2 * t) / 2} {m = t} (omega (arith, mod-lt a {m = 2 * t} (omega arith))),
)
  where
    split : a / 2 ≡ t * (a / (2 * t)) + a % (2 * t) / 2
    split = omega (arith, div-add-mod a (2 * t))

mod_mod_two : (t a : ℕ) → a % (2 * t) % 2 ≡ a % 2
mod_mod_two t a = omega (arith, div-add-mod a (2 * t))

-- Bits of `a` above the mask do not show.
pub and-mod : (k a m : ℕ) → m < 2 ^ k → bit_and a m ≡ bit_and (a % 2 ^ k) m
and-mod zero a zero h = omega (arith, and-zero a, and-zero (a % 2 ^ 0))
and-mod zero a (suc m) h = absurd (omega arith)
and-mod (suc k) a m h =
    let cut : 2 ^ suc k ≡ 2 * 2 ^ k = omega (arith, pow-suc 2 k) in
    rw cut (
      and_digit a m
      ∙ ap₂ (λ x y. x * 2 + min y (m % 2))
          (and-mod k (a / 2) (m / 2) (omega arith)
            ∙ ap (λ x. bit_and x (m / 2)) (sym (half-mod (2 ^ k) a (one-le-pow k 2 (omega arith)))))
          (sym (mod_mod_two (2 ^ k) a))
      ∙ sym (and_digit (a % (2 * 2 ^ k)) m))

-- Masking with `k` ones is the remainder.
pub and_ones : (k a : ℕ) → bit_and a (2 ^ k - 1) ≡ a % 2 ^ k
and_ones zero a = omega (arith, and-zero a)
and_ones (suc k) a =
    let t = 2 ^ k in
    let pos : 1 ≤ t = one-le-pow k 2 (omega arith) in
    let half : (2 * t - 1) / 2 ≡ t - 1 = omega arith in
    let odd : (2 * t - 1) % 2 ≡ 1 = omega arith in
    let rest : bit_and (a / 2) ((2 * t - 1) / 2) ≡ a / 2 % t = rw half (and_ones k (a / 2)) in
    let cut : 2 ^ suc k ≡ 2 * t = omega (arith, pow-suc 2 k) in
    rw cut (omega (arith, and_digit a (2 * t - 1), rest, odd, half-mod t a pos, mod_mod_two t a))

pub bit_at-shift : (s i a : ℕ) → bit_at i (a / 2 ^ s) ≡ bit_at (i + s) a
unfolding bit_at
bit_at-shift zero i a =
    let same : a / 2 ^ 0 ≡ a = omega arith in
    let here : i + 0 ≡ i = omega arith in rw (same, here) refl
bit_at-shift (suc s) i a =
    let power : 2 ^ suc s ≡ 2 * 2 ^ s = omega (arith, pow-suc 2 s) in
    let more : i + suc s ≡ suc (i + s) = omega arith in
    rw (power, more)
      (ap (bit_at i) (sym (div-div-eq-div-mul a 2 (2 ^ s))) ∙ bit_at-shift s i (a / 2))

-- The lowest binary digit of `a ^ b`.
xor_digit : (a b : ℕ) → bit_xor a b ≡ bit_xor (a / 2) (b / 2) * 2 + differ (a % 2) (b % 2)
xor_digit zero b = omega (arith, bit_xor-bitwise 0 b, bit_xor-bitwise 0 (b / 2))
xor_digit (suc a) b =
    let half = suc a / 2 in
    let cut = enough_fuel (λ y. y) differ half half a (b / 2) (omega arith) (omega arith) in
    omega (arith, bit_xor-bitwise half (b / 2), cut, bit_xor-bitwise (suc a) b)

differ_zero : (x y : ℕ) → differ x y ≡ 0 → x ≡ y
differ_zero zero y e = sym e
differ_zero (suc x) zero e = absurd (omega (arith, e))
differ_zero (suc x) (suc y) e = ap suc (differ_zero x y e)

xor_zero : (n a b : ℕ) → a ≤ n → b ≤ n → bit_xor a b ≡ 0 → a ≡ b
xor_zero zero a b le le' e = omega arith
xor_zero (suc n) a b le le' e =
    let split = xor_digit a b in
    let halves = xor_zero n (a / 2) (b / 2) (omega arith) (omega arith) (omega (arith, split, e)) in
    let units = differ_zero (a % 2) (b % 2) (omega (arith, split, e)) in
    omega (arith, halves, units)

-- Only equal numbers have no different bit.
pub bit_xor-zero : (a b : ℕ) → bit_xor a b ≡ 0 → a ≡ b
bit_xor-zero a b = xor_zero (a + b) a b (omega arith) (omega arith)
