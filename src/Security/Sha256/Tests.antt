-- ===== src/Security/Sha256/Tests.antt =====
-- Known answers.
use os_porting.Base.{◌≡◌, refl, take, List, [], ◌∷◌, ℕ}
use os_porting.Security.Sha256.{
  hash, final, update, init, padding, output, absorb, whole_blocks, transform, compress_rounds,
  compress_round, extend_words, load_words, round_constants, h0,
}
use os_porting.Security.Sha256.Stream.{feed, joined, final-feed}
use os_porting.Security.Sha256.Standard.{digest}

-- The hash of "abc" in FIPS 180-4 begins with ba7816bf 8f01cfea.
abc_hash :
    take 8 (hash (0x61 ∷ 0x62 ∷ 0x63 ∷ []))
    ≡ 0xba ∷ 0x78 ∷ 0x16 ∷ 0xbf ∷ 0x8f ∷ 0x01 ∷ 0xcf ∷ 0xea ∷ []
unfolding hash final update init padding output absorb whole_blocks transform compress_rounds
    compress_round extend_words load_words round_constants h0
abc_hash = refl

-- "a", nothing, and "bc".
abbrev pieces : List (List ℕ)
pieces = (0x61 ∷ []) ∷ [] ∷ (0x62 ∷ 0x63 ∷ []) ∷ []

final-feed_example : (final (feed pieces init)).0 ≡ digest (joined pieces)
final-feed_example = final-feed pieces
