-- ===== src/Security/Random/State.antt =====
-- The generator never reaches the state of zeros, which it could not leave.
use os_porting.Base.{
  ℕ, zero, suc, ◌+◌, ◌/◌, ◌<◌, ◌≡◌, sym, subst, arith, ◌==◌, inl, inr, Bool-cases, ◌^◌, bit_xor,
}
use os_porting.Base.Bits.{bit_xor-zero}
use os_porting.Security.Random.{Prng, next_s1, xorshift128plus, warm_up, seeded, init}

-- One of the two words has a bit.
pub IsAlive : Prng → Type 0
IsAlive p = 0 < p.s0 + p.s1

next_s1-nonzero : (s0 : ℕ) → next_s1 s0 0 ≡ 0 → s0 ≡ 0
unfolding next_s1
next_s1-nonzero s0 e =
    let shifted : 0 ≡ bit_xor s0 (s0 / 2 ^ 26) = bit_xor-zero 0 (bit_xor s0 (s0 / 2 ^ 26)) e in
    let same = bit_xor-zero s0 (s0 / 2 ^ 26) (sym shifted) in omega (arith, same)

pub xorshift128plus-IsAlive : (p : Prng) → IsAlive p → IsAlive (xorshift128plus p).1
unfolding IsAlive xorshift128plus
xorshift128plus-IsAlive p alive = elim (Bool-cases (next_s1 p.s0 p.s1 == 0)) [
  | inl gone ↦ elim (Bool-cases (p.s1 == 0)) [
    | inl e ↦
        let none_left : p.s1 ≡ 0 = ground arith in
        let dead : next_s1 p.s0 0 ≡ 0 = subst (λ x. next_s1 p.s0 x ≡ 0) none_left (ground arith) in
        absurd (omega (arith, alive, none_left, next_s1-nonzero p.s0 dead))
    | inr e ↦ ground arith
  ]
  | inr kept ↦ ground arith
]

warm_up-IsAlive : (n : ℕ) (p : Prng) → IsAlive p → IsAlive (warm_up n p)
unfolding warm_up
warm_up-IsAlive zero p alive = alive
warm_up-IsAlive (suc n) p alive =
    warm_up-IsAlive n (xorshift128plus p).1 (xorshift128plus-IsAlive p alive)

seeded-IsAlive : (a b : ℕ) → IsAlive (seeded a b)
unfolding IsAlive seeded
seeded-IsAlive a b = ground arith

-- After `random_init` with any seed and any number `n` of draws, the state is not zero.
pub init-IsAlive : (seed n : ℕ) → IsAlive (warm_up n (init seed))
unfolding init
init-IsAlive seed n =
    warm_up-IsAlive n (init seed) (warm_up-IsAlive 16 (seeded _ _) (seeded-IsAlive _ _))
