-- ===== src/Security/Sha256/Block.antt =====
-- The code's compression of a block is the standard's.
use os_porting.Base.{
  ℕ, zero, suc, ◌+◌, ◌*◌, ◌/◌, ◌%◌, ◌^◌, ◌≤◌, ◌≡◌, ◌∙◌, refl, sym, ap, ap₂, arith, List, [], ◌∷◌,
  ◌++◌, ltb, false, true, get_or, length, take, drop, append_assoc, append-nil, length-append,
}
use os_porting.Security.Sha256.{
  h0, round_constants, load_words, extend_words, Vars, compress_round, compress_rounds, transform,
  bytes64, bytes32, output,
}
use os_porting.Security.Sha256.Standard.{
  initial_hash, constants, block_word, next_word, message_schedule, Working, round, rounds,
  next_hash, hash_value, in_bytes, words_in_bytes,
}
use os_porting.Security.Sha256.Compress.{compress, drop-drop}

pub h0-initial_hash : h0 ≡ initial_hash
unfolding h0 initial_hash
h0-initial_hash = refl

round_constants-constants : round_constants ≡ constants
unfolding round_constants constants
round_constants-constants = refl

get_or-drop : (k i : ℕ) (xs : List ℕ) → get_or (drop k xs) i 0 ≡ get_or xs (k + i) 0
get_or-drop zero i xs = ap (λ j. get_or xs j 0) (omega arith)
get_or-drop (suc k) i [] = refl
get_or-drop (suc k) i (x ∷ xs) =
    get_or-drop k i xs
    ∙ ap (λ j. get_or (x ∷ xs) j 0) {x = suc (k + i)} {y = suc k + i} (omega arith)

-- The word that the first loop loads.
first_word : (t : ℕ) (block : List ℕ) → load_words 1 (drop (4 * t) block) ≡ block_word block t ∷ []
unfolding load_words
first_word t block =
    let zero_on : 4 * t + 0 ≡ 4 * t = omega arith in
    rw
      (
        get_or-drop (4 * t) 0 block,
        get_or-drop (4 * t) 1 block,
        get_or-drop (4 * t) 2 block,
        get_or-drop (4 * t) 3 block,
        zero_on,
      )
      refl

load_words-suc :
    (n : ℕ) (block : List ℕ)
    → load_words (suc n) block ≡ load_words 1 block ++ load_words n (drop 4 block)
unfolding load_words
load_words-suc n block = refl

load_words-message_schedule :
    (n t : ℕ) (block : List ℕ)
    → t + n ≤ 16
    → message_schedule block t ++ load_words n (drop (4 * t) block) ≡ message_schedule block (t + n)
unfolding message_schedule load_words
load_words-message_schedule zero t block fits =
    let here : t ≡ t + 0 = omega arith in
    append-nil (message_schedule block t) ∙ ap (message_schedule block) here
load_words-message_schedule (suc n) t block fits =
    let total : suc t + n ≡ t + suc n = omega arith in
    let early : ltb t 16 ≡ true = ground arith in
    let next : message_schedule block (suc t)
        ≡ message_schedule block t ++ block_word block t ∷ [] =
      rw early refl in
    let on : 4 * t + 4 ≡ 4 * suc t = omega arith in
    ap (λ r. message_schedule block t ++ r)
      (load_words-suc n (drop (4 * t) block)
        ∙ ap₂ ◌++◌ (first_word t block)
            (ap (load_words n) (drop-drop 4 (4 * t) block ∙ ap (λ k. drop k block) on)))
    ∙ sym (append_assoc (message_schedule block t) (block_word block t ∷ []) _)
    ∙ ap (λ ws. ws ++ load_words n (drop (4 * suc t) block)) (sym next)
    ∙ load_words-message_schedule n (suc t) block (omega arith)
    ∙ ap (message_schedule block) total

extend_words-message_schedule :
    (n t : ℕ) (block : List ℕ)
    → 16 ≤ t
    → extend_words n t (message_schedule block t) ≡ message_schedule block (t + n)
unfolding message_schedule extend_words
extend_words-message_schedule zero t block late =
    let here : t ≡ t + 0 = omega arith in ap (message_schedule block) here
extend_words-message_schedule (suc n) t block late =
    let total : suc t + n ≡ t + suc n = omega arith in
    let index : t + 1 ≡ suc t = omega arith in
    let after : ltb t 16 ≡ false = ground arith in
    let next : message_schedule block (suc t)
        ≡ message_schedule block t ++ next_word (message_schedule block t) t ∷ [] =
      rw after refl in
    ap (extend_words n (t + 1)) (sym next)
    ∙ ap (λ k. extend_words n k (message_schedule block (suc t))) index
    ∙ extend_words-message_schedule n (suc t) block (omega arith)
    ∙ ap (message_schedule block) total

words-message_schedule :
    (block : List ℕ) → extend_words 48 16 (load_words 16 block) ≡ message_schedule block 64
unfolding message_schedule
words-message_schedule block =
    ap (extend_words 48 16) (load_words-message_schedule 16 0 block (omega arith))
    ∙ extend_words-message_schedule 48 16 block (omega arith)

length-message_schedule : (t : ℕ) (block : List ℕ) → length (message_schedule block t) ≡ t
unfolding message_schedule
length-message_schedule zero block = refl
length-message_schedule (suc t) block =
    length-append (message_schedule block t) _ ∙ omega (arith, length-message_schedule t block)

-- The working variables under the standard's names.
abbrev working : Vars → Working
working v = record { a = v.a; b = v.b; c = v.c; d = v.d; e = v.e; f = v.f; g = v.g; h = v.h }

compress_round-round : (k w : ℕ) (v : Vars) → working (compress_round k w v) ≡ round k w (working v)
unfolding compress_round
compress_round-round k w v = refl

rounds-suc :
    (n t k w : ℕ) (ks ws : List ℕ) (v : Working)
    → rounds n (suc t) (k ∷ ks) (w ∷ ws) v ≡ rounds n t ks ws v
unfolding rounds
rounds-suc zero t k w ks ws v = refl
rounds-suc (suc n) t k w ks ws v = rounds-suc n (suc t) k w ks ws _

compress_rounds-rounds :
    (n : ℕ) (ks ws : List ℕ) (v : Vars)
    → length ks ≡ n
    → length ws ≡ n
    → working (compress_rounds ks ws v) ≡ rounds n 0 ks ws (working v)
unfolding compress_rounds rounds
compress_rounds-rounds zero [] ws v same enough = refl
compress_rounds-rounds (suc n) [] ws v same enough = absurd (omega arith)
compress_rounds-rounds zero (k ∷ ks) ws v same enough = absurd (omega arith)
compress_rounds-rounds (suc n) (k ∷ ks) [] v same enough = absurd (omega arith)
compress_rounds-rounds (suc n) (k ∷ ks) (w ∷ ws) v same enough =
    compress_rounds-rounds n ks ws (compress_round k w v) (omega arith) (omega arith)
    ∙ ap (rounds n 0 ks ws) (compress_round-round k w v)
    ∙ sym (rounds-suc n 0 k w ks ws (round k w (working v)))

-- The sums that both make of the working variables.
abbrev summed : List ℕ → Working → List ℕ
summed s v =
    (get_or s 0 0 + v.a) % 2 ^ 32
    ∷ (get_or s 1 0 + v.b) % 2 ^ 32
    ∷ (get_or s 2 0 + v.c) % 2 ^ 32
    ∷ (get_or s 3 0 + v.d) % 2 ^ 32
    ∷ (get_or s 4 0 + v.e) % 2 ^ 32
    ∷ (get_or s 5 0 + v.f) % 2 ^ 32
    ∷ (get_or s 6 0 + v.g) % 2 ^ 32
    ∷ (get_or s 7 0 + v.h) % 2 ^ 32
    ∷ []

length-round_constants : length round_constants ≡ 64
unfolding round_constants
length-round_constants = refl

-- `sha256_transform` is the standard's computation of the next hash value.
pub transform-next_hash : (s block : List ℕ) → transform s block ≡ next_hash s block
unfolding transform next_hash
transform-next_hash s block =
    let v : Vars = record {
      a = get_or s 0 0;
      b = get_or s 1 0;
      c = get_or s 2 0;
      d = get_or s 3 0;
      e = get_or s 4 0;
      f = get_or s 5 0;
      g = get_or s 6 0;
      h = get_or s 7 0;
    } in
    ap (summed s) (
      compress_rounds-rounds 64 round_constants (extend_words 48 16 (load_words 16 block)) v
        length-round_constants
        (ap length (words-message_schedule block) ∙ length-message_schedule 64 block)
      ∙ ap₂ (λ ks ws. rounds 64 0 ks ws (working v)) round_constants-constants
          (words-message_schedule block))

pub compress-hash_value : (n : ℕ) (s xs : List ℕ) → compress n s xs ≡ hash_value n s xs
unfolding compress hash_value
compress-hash_value zero s xs = refl
compress-hash_value (suc n) s xs =
    ap (λ r. compress n r (drop 64 xs)) (transform-next_hash s (take 64 xs))
    ∙ compress-hash_value n (next_hash s (take 64 xs)) (drop 64 xs)

bytes32-in_bytes : (x : ℕ) → bytes32 x ≡ in_bytes 4 x
bytes32-in_bytes x =
    let two : x / 256 / 256 ≡ x / 2 ^ 16 = omega arith in
    let three : x / 256 / 256 / 256 ≡ x / 2 ^ 24 = omega arith in rw (three, two) refl

pub bytes64-in_bytes : (x : ℕ) → bytes64 x ≡ in_bytes 8 x
bytes64-in_bytes x =
    let two : x / 256 / 256 ≡ x / 2 ^ 16 = omega arith in
    let three : x / 2 ^ 16 / 256 ≡ x / 2 ^ 24 = omega arith in
    let four : x / 2 ^ 24 / 256 ≡ x / 2 ^ 32 = omega arith in
    let five : x / 2 ^ 32 / 256 ≡ x / 2 ^ 40 = omega arith in
    let six : x / 2 ^ 40 / 256 ≡ x / 2 ^ 48 = omega arith in
    let seven : x / 2 ^ 48 / 256 ≡ x / 2 ^ 56 = omega arith in
    rw (two, three, four, five, six, seven) refl

output-words_in_bytes : (n t : ℕ) (s : List ℕ) → output n (drop t s) ≡ words_in_bytes n t s
unfolding output words_in_bytes
output-words_in_bytes zero t s = refl
output-words_in_bytes (suc n) t s =
    let here : t + 0 ≡ t = omega arith in
    let next : t + 1 ≡ suc t = omega arith in
    ap₂ ◌++◌
      (ap bytes32 (get_or-drop t 0 s ∙ ap (λ j. get_or s j 0) here)
        ∙ bytes32-in_bytes (get_or s t 0))
      (ap (output n) (drop-drop 1 t s ∙ ap (λ k. drop k s) next)
        ∙ output-words_in_bytes n (suc t) s)

-- `sha256_final` writes the words as the standard does.
pub output_lem : (s : List ℕ) → output 8 s ≡ words_in_bytes 8 0 s
output_lem s = output-words_in_bytes 8 0 s
