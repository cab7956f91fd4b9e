-- ===== src/Security/Sha256.antt =====
-- security/crypto/sha256.c: the compression function, and hashing in pieces. Printing is left out.
pub mod Standard
pub mod Compress
pub mod Block
pub mod Update
pub mod Stream
mod Tests
use os_porting.Base.{
  ℕ, zero, suc, ◌+◌, ◌-◌, ◌*◌, ◌/◌, ◌%◌, ◌^◌, bit_and, bit_or, bit_xor, Bool, false, List, [], ◌∷◌,
  ◌++◌, ltb, leb, ◌==◌, ◌&&◌, ◌||◌, if◌then◌else◌, length, get_or, take, drop, replicate,
}

-- `sha256_h0` and `sha256_k`
unfoldable pub h0 : List ℕ
h0 =
    0x6a09e667 ∷ 0xbb67ae85 ∷ 0x3c6ef372 ∷ 0xa54ff53a ∷ 0x510e527f ∷ 0x9b05688c ∷ 0x1f83d9ab
    ∷ 0x5be0cd19 ∷ []

unfoldable pub round_constants : List ℕ
round_constants =
    0x428a2f98 ∷ 0x71374491 ∷ 0xb5c0fbcf ∷ 0xe9b5dba5 ∷ 0x3956c25b ∷ 0x59f111f1 ∷ 0x923f82a4
    ∷ 0xab1c5ed5 ∷ 0xd807aa98 ∷ 0x12835b01 ∷ 0x243185be ∷ 0x550c7dc3 ∷ 0x72be5d74 ∷ 0x80deb1fe
    ∷ 0x9bdc06a7 ∷ 0xc19bf174 ∷ 0xe49b69c1 ∷ 0xefbe4786 ∷ 0x0fc19dc6 ∷ 0x240ca1cc ∷ 0x2de92c6f
    ∷ 0x4a7484aa ∷ 0x5cb0a9dc ∷ 0x76f988da ∷ 0x983e5152 ∷ 0xa831c66d ∷ 0xb00327c8 ∷ 0xbf597fc7
    ∷ 0xc6e00bf3 ∷ 0xd5a79147 ∷ 0x06ca6351 ∷ 0x14292967 ∷ 0x27b70a85 ∷ 0x2e1b2138 ∷ 0x4d2c6dfc
    ∷ 0x53380d13 ∷ 0x650a7354 ∷ 0x766a0abb ∷ 0x81c2c92e ∷ 0x92722c85 ∷ 0xa2bfe8a1 ∷ 0xa81a664b
    ∷ 0xc24b8b70 ∷ 0xc76c51a3 ∷ 0xd192e819 ∷ 0xd6990624 ∷ 0xf40e3585 ∷ 0x106aa070 ∷ 0x19a4c116
    ∷ 0x1e376c08 ∷ 0x2748774c ∷ 0x34b0bcb5 ∷ 0x391c0cb3 ∷ 0x4ed8aa4a ∷ 0x5b9cca4f ∷ 0x682e6ff3
    ∷ 0x748f82ee ∷ 0x78a5636f ∷ 0x84c87814 ∷ 0x8cc70208 ∷ 0x90befffa ∷ 0xa4506ceb ∷ 0xbef9a3f7
    ∷ 0xc67178f2 ∷ []

-- A `uint32_t` sum.
abbrev pub u32 : ℕ → ℕ
u32 x = x % 2 ^ 32

-- `ROTR` and `SHR`
abbrev pub rotr : ℕ → ℕ → ℕ
rotr x n = bit_or (x / 2 ^ n) (u32 (x * 2 ^ (32 - n)))

-- `CH` and `MAJ`
abbrev pub ch : ℕ → ℕ → ℕ → ℕ
ch x y z = bit_xor (bit_and x y) (bit_and (2 ^ 32 - 1 - x) z)

abbrev pub maj : ℕ → ℕ → ℕ → ℕ
maj x y z = bit_xor (bit_xor (bit_and x y) (bit_and x z)) (bit_and y z)

-- `SIGMA0`, `SIGMA1`, `sigma0` and `sigma1`
abbrev pub big_sigma0 : ℕ → ℕ
big_sigma0 x = bit_xor (bit_xor (rotr x 2) (rotr x 13)) (rotr x 22)

abbrev pub big_sigma1 : ℕ → ℕ
big_sigma1 x = bit_xor (bit_xor (rotr x 6) (rotr x 11)) (rotr x 25)

abbrev pub small_sigma0 : ℕ → ℕ
small_sigma0 x = bit_xor (bit_xor (rotr x 7) (rotr x 18)) (x / 2 ^ 3)

abbrev pub small_sigma1 : ℕ → ℕ
small_sigma1 x = bit_xor (bit_xor (rotr x 17) (rotr x 19)) (x / 2 ^ 10)

-- The first loop of `sha256_transform`: `n` words of four bytes, the highest first.
unfoldable pub load_words : ℕ → List ℕ → List ℕ
load_words zero block = []
load_words (suc n) block =
    bit_or
      (bit_or (bit_or (get_or block 0 0 * 2 ^ 24) (get_or block 1 0 * 2 ^ 16))
        (get_or block 2 0 * 2 ^ 8))
      (get_or block 3 0)
    ∷ load_words n (drop 4 block)

-- The second loop: `n` more words, the next one `w[i]`.
unfoldable pub extend_words : ℕ → ℕ → List ℕ → List ℕ
extend_words zero i w = w
extend_words (suc n) i w = extend_words n (i + 1) (
    w
    ++ u32 (
        small_sigma1 (get_or w (i - 2) 0)
        + get_or w (i - 7) 0
        + small_sigma0 (get_or w (i - 15) 0)
        + get_or w (i - 16) 0)
      ∷ [])

-- The working variables.
pub record Vars : Type 0 where
  pub a : ℕ
  pub b : ℕ
  pub c : ℕ
  pub d : ℕ
  pub e : ℕ
  pub f : ℕ
  pub g : ℕ
  pub h : ℕ

-- One round, with the round's constant and word.
unfoldable pub compress_round : ℕ → ℕ → Vars → Vars
compress_round k w v =
    let t1 = u32 (v.h + big_sigma1 v.e + ch v.e v.f v.g + k + w) in
    let t2 = u32 (big_sigma0 v.a + maj v.a v.b v.c) in
    record {
      a = u32 (t1 + t2);
      b = v.a;
      c = v.b;
      d = v.c;
      e = u32 (v.d + t1);
      f = v.e;
      g = v.f;
      h = v.g;
    }

unfoldable pub compress_rounds : List ℕ → List ℕ → Vars → Vars
compress_rounds [] ws v = v
compress_rounds (k ∷ ks) [] v = v
compress_rounds (k ∷ ks) (w ∷ ws) v = compress_rounds ks ws (compress_round k w v)

-- `sha256_transform` of the eight words of state and a block of 64 bytes.
unfoldable pub transform : List ℕ → List ℕ → List ℕ
transform s block =
    let w = extend_words 48 16 (load_words 16 block) in
    let v = compress_rounds round_constants w (record {
      a = get_or s 0 0;
      b = get_or s 1 0;
      c = get_or s 2 0;
      d = get_or s 3 0;
      e = get_or s 4 0;
      f = get_or s 5 0;
      g = get_or s 6 0;
      h = get_or s 7 0;
    }) in
    u32 (get_or s 0 0 + v.a)
    ∷ u32 (get_or s 1 0 + v.b)
    ∷ u32 (get_or s 2 0 + v.c)
    ∷ u32 (get_or s 3 0 + v.d)
    ∷ u32 (get_or s 4 0 + v.e)
    ∷ u32 (get_or s 5 0 + v.f)
    ∷ u32 (get_or s 6 0 + v.g)
    ∷ u32 (get_or s 7 0 + v.h)
    ∷ []

-- `sha256_ctx_t`
pub record Context : Type 0 where
  pub state : List ℕ
  pub count : ℕ
  pub buffer : List ℕ

-- `sha256_init`
unfoldable pub init : Context
init = record { state = h0; count = 0; buffer = replicate 64 0 }

-- `memcpy` of all of `xs` into the array `buffer` at an index.
abbrev pub write_at : List ℕ → ℕ → List ℕ → List ℕ
write_at buffer at xs = take at buffer ++ (xs ++ drop (at + length xs) buffer)

-- The loop of `sha256_update` over complete blocks, with fuel: the state, and the bytes left.
unfoldable pub whole_blocks : ℕ → List ℕ → List ℕ → List ℕ × List ℕ
whole_blocks zero s p = (s, p)
whole_blocks (suc fuel) s p =
    let rest = whole_blocks fuel (transform s (take 64 p)) (drop 64 p) in
    if leb 64 (length p) then rest else (s, p)

-- The end of `sha256_update`, with `buffer_used` bytes in the buffer. Each block takes 64 bytes, so
-- the number of bytes is fuel enough.
unfoldable pub absorb : ℕ → List ℕ → Context → Context
absorb used p ctx =
    let (s, rest) = whole_blocks (length p) ctx.state p in
    let buffer = if ltb 0 (length rest) then write_at ctx.buffer used rest else ctx.buffer in
    record ctx { state = s; buffer = buffer }

-- `sha256_update`; `null` says that one of the pointers is NULL.
unfoldable pub update : Bool → List ℕ → Context → Context
update null p ctx =
    if null || length p == 0
    then ctx
    else let used = ctx.count % 64 in
      let free = 64 - used in
      let counted = record ctx { count = (ctx.count + length p) % 2 ^ 64 } in
      let filled = write_at ctx.buffer used (take free p) in
      if ltb 0 used && leb free (length p)
      then absorb 0 (drop free p)
          (record counted { state = transform ctx.state filled; buffer = filled })
      else absorb used p counted

-- The eight bytes of a `uint64_t`, and the four of a `uint32_t`, the highest first.
abbrev pub bytes64 : ℕ → List ℕ
bytes64 x =
    x / 2 ^ 56 % 256
    ∷ x / 2 ^ 48 % 256
    ∷ x / 2 ^ 40 % 256
    ∷ x / 2 ^ 32 % 256
    ∷ x / 2 ^ 24 % 256
    ∷ x / 2 ^ 16 % 256
    ∷ x / 2 ^ 8 % 256
    ∷ x % 256
    ∷ []

abbrev pub bytes32 : ℕ → List ℕ
bytes32 x = x / 2 ^ 24 % 256 ∷ x / 2 ^ 16 % 256 ∷ x / 2 ^ 8 % 256 ∷ x % 256 ∷ []

-- The part of the array `padding` that `sha256_final` hashes, for a byte count.
unfoldable pub padding : ℕ → List ℕ
padding count =
    let used = count % 64 in
    let padding_len = if ltb used 56 then 56 - used else 120 - used in
    0x80 ∷ (replicate (padding_len - 1) 0 ++ bytes64 (count * 8 % 2 ^ 64))

unfoldable pub output : ℕ → List ℕ → List ℕ
output zero s = []
output (suc n) s = bytes32 (get_or s 0 0) ++ output n (drop 1 s)

-- `sha256_final`: the 32 bytes of the hash, and the cleared context.
unfoldable pub final : Context → List ℕ × Context
final ctx = (
  output 8 (update false (padding ctx.count) ctx).state,
  record { state = replicate 8 0; count = 0; buffer = replicate 64 0 },
)

-- `sha256_hash`
unfoldable pub hash : List ℕ → List ℕ
hash msg = (final (update false msg init)).0
