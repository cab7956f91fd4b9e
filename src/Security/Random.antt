-- ===== src/Security/Random.antt =====
-- security/crypto/random.c: xorshift128+ and what is drawn from it. The timer's two values are
-- arguments; printing is left out.
pub mod Range
pub mod State
mod Tests
use os_porting.Base.{
  ℕ, zero, suc, ◌+◌, ◌-◌, ◌*◌, ◌/◌, ◌%◌, ◌^◌, bit_xor, Bool, true, false, Option, none, some, List,
  [], ◌∷◌, ◌++◌, ◌==◌, leb, ltb, ◌&&◌, ◌||◌, if◌then◌else◌,
}

-- `prng_state` and `prng_initialized`
pub record Prng : Type 0 where
  pub s0 : ℕ
  pub s1 : ℕ
  pub initialized : Bool

abbrev pub u64 : ℕ → ℕ
u64 n = n % 2 ^ 64

-- The new `s[1]` of `xorshift128plus`
unfoldable pub next_s1 : ℕ → ℕ → ℕ
next_s1 s0 s1 =
    let a = bit_xor s1 (u64 (s1 * 2 ^ 23)) in
    let b = bit_xor a (a / 2 ^ 17) in bit_xor b (bit_xor s0 (s0 / 2 ^ 26))

-- `xorshift128plus`
unfoldable pub xorshift128plus : Prng → ℕ × Prng
xorshift128plus p = (u64 (p.s0 + p.s1), record p { s0 = p.s1; s1 = next_s1 p.s0 p.s1 })

-- `splitmix64`: the value, and the new `*x`.
unfoldable pub splitmix64 : ℕ → ℕ × ℕ
splitmix64 x =
    let x' = u64 (x + 0x9e3779b97f4a7c15) in
    let y = u64 (bit_xor x' (x' / 2 ^ 30) * 0xbf58476d1ce4e5b9) in
    let z = u64 (bit_xor y (y / 2 ^ 27) * 0x94d049bb133111eb) in (bit_xor z (z / 2 ^ 31), x')

-- The discarded draws of `random_init`
unfoldable pub warm_up : ℕ → Prng → Prng
warm_up zero p = p
warm_up (suc n) p = warm_up n (xorshift128plus p).1

-- The state that `random_init` begins with; a state of zeros is replaced.
unfoldable pub seeded : ℕ → ℕ → Prng
seeded a b =
    if a == 0 && b == 0
    then record { s0 = 0x0123456789abcdef; s1 = 0xfedcba9876543210; initialized = true }
    else record { s0 = a; s1 = b; initialized = true }

-- `random_init`
unfoldable pub init : ℕ → Prng
init seed =
    let (a, seed') = splitmix64 seed in
    let (b, seed'') = splitmix64 seed' in warm_up 16 (seeded a b)

-- The seed of `random_seed_from_time`
unfoldable pub time_seed : ℕ → ℕ → ℕ
time_seed ticks uptime =
    let a = bit_xor ticks (u64 (uptime * 2 ^ 17)) in
    let b = bit_xor a (ticks / 2 ^ 7) in
    let c = bit_xor b (u64 (uptime * 2 ^ 43)) in
    let d = u64 (bit_xor c (c / 2 ^ 33) * 0xff51afd7ed558ccd) in
    let e = u64 (bit_xor d (d / 2 ^ 33) * 0xc4ceb9fe1a85ec53) in bit_xor e (e / 2 ^ 33)

unfoldable pub seed_from_time : ℕ → ℕ → Prng
seed_from_time ticks uptime = init (time_seed ticks uptime)

-- The lowest `n` bytes of a value, the lowest first.
unfoldable pub value_bytes : ℕ → ℕ → List ℕ
value_bytes zero value = []
value_bytes (suc n) value = value % 256 ∷ value_bytes n (value / 256)

-- `random_get_bytes`, with the number of whole values and the bytes that are left.
unfoldable pub get_values : ℕ → ℕ → Prng → List ℕ × Prng
get_values zero rest p =
    if rest == 0
    then ([], p)
    else let (value, p') = xorshift128plus p in (value_bytes rest value, p')
get_values (suc n) rest p =
    let (value, p') = xorshift128plus p in
    let (more, p'') = get_values n rest p' in (value_bytes 8 value ++ more, p'')

unfoldable pub get_bytes : Bool → ℕ → Prng → List ℕ × Prng
get_bytes null len p = if null || len == 0 then ([], p) else get_values (len / 8) (len % 8) p

-- `random_uint32` and `random_uint64`
unfoldable pub uint32 : Prng → ℕ × Prng
uint32 p = let (value, p') = xorshift128plus p in (value % 2 ^ 32, p')

unfoldable pub uint64 : Prng → ℕ × Prng
uint64 p = xorshift128plus p

-- `limit`
unfoldable pub limit_of : ℕ → ℕ
limit_of range = 2 ^ 32 - 1 - (2 ^ 32 - 1) % range

-- The loop of `random_range`, with fuel.
unfoldable pub range_loop : ℕ → ℕ → ℕ → Prng → Option (ℕ × Prng)
range_loop zero min range p = none
range_loop (suc fuel) min range p =
    let (value, p') = uint32 p in
    let again = range_loop fuel min range p' in
    if leb (limit_of range) value then again else some ((min + value % range) % 2 ^ 32, p')

-- `random_range`
unfoldable pub random_range : ℕ → ℕ → ℕ → Prng → Option (ℕ × Prng)
random_range fuel min max p =
    if leb max min
    then some (min, p)
    else let range = (max - min + 1) % 2 ^ 32 in
      if range == 0 then some (uint32 p) else range_loop fuel min range p
