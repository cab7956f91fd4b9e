-- ===== src/Security/Random/Tests.antt =====
-- A seed, and a die.
use os_porting.Base.{true, some, ◌≡◌, refl}
use os_porting.Security.Random.{Prng, uint32, range_loop, xorshift128plus, limit_of, splitmix64}

-- The first value of splitmix64 from 0, as its authors print it.
splitmix64_zero : (splitmix64 0).0 ≡ 0xe220a8397b1dcdaf
unfolding splitmix64
splitmix64_zero = refl

-- A die, numbered from 1.
abbrev seed : Prng
seed = record { s0 = 1; s1 = 2; initialized = true }

-- The first draw is 3, so the die shows 4.
die : ((uint32 seed).0 ≡ 3) × (range_loop 1 1 6 seed ≡ some (4, (uint32 seed).1))
unfolding range_loop uint32 xorshift128plus limit_of
die = (refl, refl)
