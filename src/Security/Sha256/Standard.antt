-- ===== src/Security/Sha256/Standard.antt =====
-- FIPS 180-4: the hash of a message as the standard defines it, apart from the code. The constants
-- are computed from the prime numbers as the standard derives them.
use os_porting.Base.{
  ℕ, zero, suc, ◌+◌, ◌-◌, ◌*◌, ◌/◌, ◌%◌, ◌^◌, bit_and, bit_or, bit_xor, List, [], ◌∷◌, ◌++◌, ltb,
  leb, if◌then◌else◌, length, get_or, take, drop, replicate,
}

-- The root of `x`, rounded down, for the exponent `e`: `bits` more bits of it, from the highest.
abbrev root : ℕ → ℕ → ℕ → ℕ → ℕ
root zero e x r = r
root (suc bits) e x r = root bits e x (if leb ((r + 2 ^ bits) ^ e) x then r + 2 ^ bits else r)

-- The first 32 bits of the fractional parts of the square and the cube root of a number.
abbrev square_root_bits : ℕ → ℕ
square_root_bits p = root 37 2 (p * 2 ^ 64) 0 % 2 ^ 32

abbrev cube_root_bits : ℕ → ℕ
cube_root_bits p = root 35 3 (p * 2 ^ 96) 0 % 2 ^ 32

abbrev first_8_primes : List ℕ
first_8_primes = 2 ∷ 3 ∷ 5 ∷ 7 ∷ 11 ∷ 13 ∷ 17 ∷ 19 ∷ []

abbrev first_64_primes : List ℕ
first_64_primes =
    first_8_primes
    ++ (23 ∷ 29 ∷ 31 ∷ 37 ∷ 41 ∷ 43 ∷ 47 ∷ 53 ∷ 59 ∷ 61 ∷ 67 ∷ 71 ∷ 73 ∷ 79 ∷ 83 ∷ 89 ∷ 97 ∷ 101
        ∷ 103 ∷ 107 ∷ 109 ∷ 113 ∷ 127 ∷ 131 ∷ 137 ∷ 139 ∷ 149 ∷ 151 ∷ 157 ∷ 163 ∷ 167 ∷ 173 ∷ 179
        ∷ 181 ∷ 191 ∷ 193 ∷ 197 ∷ 199 ∷ 211 ∷ 223 ∷ 227 ∷ 229 ∷ 233 ∷ 239 ∷ 241 ∷ 251 ∷ 257 ∷ 263
        ∷ 269 ∷ 271 ∷ 277 ∷ 281 ∷ 283 ∷ 293 ∷ 307 ∷ 311 ∷ [])

abbrev map_list : (ℕ → ℕ) → List ℕ → List ℕ
map_list f [] = []
map_list f (x ∷ xs) = f x ∷ map_list f xs

unfoldable pub initial_hash : List ℕ
initial_hash = map_list square_root_bits first_8_primes

unfoldable pub constants : List ℕ
constants = map_list cube_root_bits first_64_primes

-- Sums are modulo 2 ^ 32; a rotation to the right by `n` bits; the functions of section 4.1.2.
abbrev pub plus : ℕ → ℕ → ℕ
plus x y = (x + y) % 2 ^ 32

abbrev pub rotated : ℕ → ℕ → ℕ
rotated n x = bit_or (x / 2 ^ n) (x * 2 ^ (32 - n) % 2 ^ 32)

abbrev pub chosen : ℕ → ℕ → ℕ → ℕ
chosen x y z = bit_xor (bit_and x y) (bit_and (2 ^ 32 - 1 - x) z)

abbrev pub majority : ℕ → ℕ → ℕ → ℕ
majority x y z = bit_xor (bit_xor (bit_and x y) (bit_and x z)) (bit_and y z)

abbrev pub sum_0 : ℕ → ℕ
sum_0 x = bit_xor (bit_xor (rotated 2 x) (rotated 13 x)) (rotated 22 x)

abbrev pub sum_1 : ℕ → ℕ
sum_1 x = bit_xor (bit_xor (rotated 6 x) (rotated 11 x)) (rotated 25 x)

abbrev pub sigma_0 : ℕ → ℕ
sigma_0 x = bit_xor (bit_xor (rotated 7 x) (rotated 18 x)) (x / 2 ^ 3)

abbrev pub sigma_1 : ℕ → ℕ
sigma_1 x = bit_xor (bit_xor (rotated 17 x) (rotated 19 x)) (x / 2 ^ 10)

-- Word `t` of a block, its four bytes with the highest first, and word `t` of the schedule from the
-- words before it.
abbrev pub block_word : List ℕ → ℕ → ℕ
block_word block t =
    bit_or
      (bit_or (bit_or (get_or block (4 * t) 0 * 2 ^ 24) (get_or block (4 * t + 1) 0 * 2 ^ 16))
        (get_or block (4 * t + 2) 0 * 2 ^ 8))
      (get_or block (4 * t + 3) 0)

abbrev pub next_word : List ℕ → ℕ → ℕ
next_word ws t =
    (sigma_1 (get_or ws (t - 2) 0)
      + get_or ws (t - 7) 0
      + sigma_0 (get_or ws (t - 15) 0)
      + get_or ws (t - 16) 0)
    % 2 ^ 32

-- The first `n` words of the message schedule.
unfoldable pub message_schedule : List ℕ → ℕ → List ℕ
message_schedule block zero = []
message_schedule block (suc t) =
    let ws = message_schedule block t in
    ws ++ (if ltb t 16 then block_word block t else next_word ws t) ∷ []

-- The eight working variables, and one round with a constant and a word.
pub record Working : Type 0 where
  pub a : ℕ
  pub b : ℕ
  pub c : ℕ
  pub d : ℕ
  pub e : ℕ
  pub f : ℕ
  pub g : ℕ
  pub h : ℕ

abbrev pub round : ℕ → ℕ → Working → Working
round k w v =
    let t1 = (v.h + sum_1 v.e + chosen v.e v.f v.g + k + w) % 2 ^ 32 in
    let t2 = plus (sum_0 v.a) (majority v.a v.b v.c) in
    record { a = plus t1 t2; b = v.a; c = v.b; d = v.c; e = plus v.d t1; f = v.e; g = v.f; h = v.g }

-- `n` rounds from round `t` on.
unfoldable pub rounds : ℕ → ℕ → List ℕ → List ℕ → Working → Working
rounds zero t ks ws v = v
rounds (suc n) t ks ws v = rounds n (suc t) ks ws (round (get_or ks t 0) (get_or ws t 0) v)

-- The hash value after one more block.
unfoldable pub next_hash : List ℕ → List ℕ → List ℕ
next_hash s block =
    let v = rounds 64 0 constants (message_schedule block 64) (record {
      a = get_or s 0 0;
      b = get_or s 1 0;
      c = get_or s 2 0;
      d = get_or s 3 0;
      e = get_or s 4 0;
      f = get_or s 5 0;
      g = get_or s 6 0;
      h = get_or s 7 0;
    }) in
    plus (get_or s 0 0) v.a
    ∷ plus (get_or s 1 0) v.b
    ∷ plus (get_or s 2 0) v.c
    ∷ plus (get_or s 3 0) v.d
    ∷ plus (get_or s 4 0) v.e
    ∷ plus (get_or s 5 0) v.f
    ∷ plus (get_or s 6 0) v.g
    ∷ plus (get_or s 7 0) v.h
    ∷ []

unfoldable pub hash_value : ℕ → List ℕ → List ℕ → List ℕ
hash_value zero s xs = s
hash_value (suc n) s xs = hash_value n (next_hash s (take 64 xs)) (drop 64 xs)

-- A number in `n` bytes, the highest first, and `n` words from word `t` on in their bytes.
abbrev pub in_bytes : ℕ → ℕ → List ℕ
in_bytes zero x = []
in_bytes (suc n) x = in_bytes n (x / 256) ++ x % 256 ∷ []

unfoldable pub words_in_bytes : ℕ → ℕ → List ℕ → List ℕ
words_in_bytes zero t s = []
words_in_bytes (suc n) t s = in_bytes 4 (get_or s t 0) ++ words_in_bytes n (suc t) s

-- The message with a 1 bit, the fewest zero bytes that fill the last block, and its length in bits.
abbrev pub padded : List ℕ → List ℕ
padded msg =
    msg
    ++ (0x80 ∷ (replicate ((119 - length msg % 64) % 64) 0 ++ in_bytes 8 (8 * length msg % 2 ^ 64)))

-- The 32 bytes of the digest.
abbrev pub digest : List ℕ → List ℕ
digest msg = words_in_bytes 8 0 (hash_value (length (padded msg) / 64) initial_hash (padded msg))
