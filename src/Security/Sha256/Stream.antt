-- ===== src/Security/Sha256/Stream.antt =====
-- Hashing a message in pieces against the standard's digest of it.
use os_porting.Base.{
  ℕ, ◌-◌, ◌*◌, ◌/◌, ◌%◌, ◌^◌, ◌≡◌, ◌∙◌, refl, ap, arith, List, [], ◌∷◌, ◌++◌, false, ltb,
  if◌then◌else◌, length, replicate, append_assoc, append-nil,
}
use os_porting.Security.Sha256.{update, final, init, padding, hash, Context, output}
use os_porting.Security.Sha256.Standard.{padded, digest, initial_hash, hash_value, in_bytes}
use os_porting.Security.Sha256.Block.{
  h0-initial_hash, compress-hash_value, bytes64-in_bytes, output_lem,
}
use os_porting.Security.Sha256.Update.{Holds, update-Holds}
use os_porting.Security.Sha256.Compress.{compress}

-- `sha256_update` of each piece in turn.
abbrev pub feed : List (List ℕ) → Context → Context
feed [] ctx = ctx
feed (p ∷ ps) ctx = feed ps (update false p ctx)

abbrev pub joined : List (List ℕ) → List ℕ
joined [] = []
joined (p ∷ ps) = p ++ joined ps

feed-Holds :
    (ps : List (List ℕ)) {ctx : Context} {msg : List ℕ}
    → Holds ctx msg
    → Holds (feed ps ctx) (msg ++ joined ps)
feed-Holds [] {msg = msg} v = rw (append-nil msg) v
feed-Holds (p ∷ ps) {msg = msg} v =
    rw (← append_assoc msg p (joined ps)) (feed-Holds ps (update-Holds p v))

init-Holds : Holds init []
unfolding init compress
init-Holds = record { counted = refl; hashed = refl; kept = refl; sized = refl }

padding_lem :
    {ctx : Context} {msg : List ℕ}
    → Holds ctx msg
    → padding ctx.count
      ≡ 0x80 ∷ (replicate ((119 - length msg % 64) % 64) 0 ++ in_bytes 8 (8 * length msg % 2 ^ 64))
unfolding padding
padding_lem {ctx} {msg} v =
    let bits : ctx.count * 8 % 2 ^ 64 ≡ 8 * length msg % 2 ^ 64 = omega (arith, v.counted) in
    let used : ctx.count % 64 ≡ length msg % 64 = omega (arith, v.counted) in
    let zeros : (if ltb (length msg % 64) 56 then 56 - length msg % 64 else 120 - length msg % 64)
          - 1
        ≡ (119 - length msg % 64) % 64 =
      ground arith in
    rw (bits, used, zeros)
      (ap (λ r. 0x80 ∷ (replicate ((119 - length msg % 64) % 64) 0 ++ r))
        (bytes64-in_bytes (8 * length msg % 2 ^ 64)))

final-digest : {ctx : Context} {msg : List ℕ} → Holds ctx msg → (final ctx).0 ≡ digest msg
unfolding final
final-digest {ctx} {msg} v =
    let n = length (padded msg) / 64 in
    rw (padding_lem v) (
      ap (output 8) (
        (update-Holds _ v).hashed
        ∙ ap (λ s. compress n s (padded msg)) h0-initial_hash
        ∙ compress-hash_value n initial_hash (padded msg))
      ∙ output_lem (hash_value n initial_hash (padded msg)))

-- However a message is cut into pieces, `sha256_init`, `sha256_update` of each piece in turn and
-- `sha256_final` give the digest of the whole message as FIPS 180-4 defines it, written out apart
-- from the code: its padding, message schedule, rounds and functions, with the constants computed
-- from the roots of the first primes.
pub final-feed : (ps : List (List ℕ)) → (final (feed ps init)).0 ≡ digest (joined ps)
final-feed ps = final-digest (feed-Holds ps init-Holds)

-- `sha256_hash` is the digest of any message.
pub hash-digest : (msg : List ℕ) → hash msg ≡ digest msg
unfolding hash
hash-digest msg = final-digest (update-Holds msg init-Holds)
