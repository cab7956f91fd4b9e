-- ===== src/Security/Sha256/Update.antt =====
-- What a context holds after `sha256_update`.
use os_porting.Base.{
  ℕ, suc, ◌+◌, ◌-◌, ◌*◌, ◌/◌, ◌%◌, ◌^◌, ◌≤◌, ◌<◌, ◌≡◌, ◌∙◌, refl, sym, subst, ap, ap₂, arith, List,
  [], ◌∷◌, ◌++◌, false, leb, ltb, ◌==◌, ◌&&◌, Bool-cases, inl, inr, length, take, drop,
  length-append, length-take, length-drop, take-append, drop-append, append_assoc, append-nil,
  take-append-drop, take_all,
}
use os_porting.Security.Sha256.{transform, update, Context, absorb, h0, write_at}
use os_porting.Security.Sha256.Compress.{
  compress-append, compress-prefix, compress-suc, drop-append_le, drop-drop, compress,
  whole_blocks-compress,
}

-- A context that was given `msg` so far.
pub record Holds (ctx : Context) (msg : List ℕ) : Type 0 where
  pub counted : ctx.count ≡ length msg % 2 ^ 64
  pub hashed : ctx.state ≡ compress (length msg / 64) h0 msg
  pub kept : take (length msg % 64) ctx.buffer ≡ drop (64 * (length msg / 64)) msg
  pub sized : length ctx.buffer ≡ 64

length-write_at :
    (buffer : List ℕ) (at : ℕ) (xs : List ℕ)
    → at + length xs ≤ length buffer
    → length (write_at buffer at xs) ≡ length buffer
length-write_at buffer at xs fits = omega (
  arith,
  length-append {0} (take at buffer) (xs ++ drop (at + length xs) buffer),
  length-append {0} xs (drop (at + length xs) buffer),
  length-take {0} at buffer,
  length-drop {0} (at + length xs) buffer,
)

take-write_at :
    (buffer : List ℕ) (at : ℕ) (xs : List ℕ)
    → at + length xs ≤ length buffer
    → take (at + length xs) (write_at buffer at xs) ≡ take at buffer ++ xs
take-write_at buffer at xs fits =
    ap (take (at + length xs))
      (sym (append_assoc (take at buffer) xs (drop (at + length xs) buffer)))
    ∙ take-append (at + length xs) (take at buffer ++ xs) (drop (at + length xs) buffer)
        (omega (arith, length-append {0} (take at buffer) xs, length-take {0} at buffer))

length-zero : (xs : List ℕ) → length xs ≡ 0 → xs ≡ []
length-zero [] h = refl
length-zero (x ∷ xs) h = absurd (omega arith)

write_at-nil : (buffer : List ℕ) (at : ℕ) → write_at buffer at [] ≡ buffer
write_at-nil buffer at =
    let here : at + 0 ≡ at = omega arith in rw here (take-append-drop at buffer)

-- Writing nothing is as good as not writing.
absorb_lem :
    (used : ℕ) (p : List ℕ) (ctx : Context)
    → absorb used p ctx ≡ record ctx {
      state = compress (length p / 64) ctx.state p;
      buffer = write_at ctx.buffer used (drop (64 * (length p / 64)) p);
    }
unfolding absorb
absorb_lem used p ctx =
    let rest = drop (64 * (length p / 64)) p in
    rw (whole_blocks-compress (length p) ctx.state p (omega arith))
      (elim (Bool-cases (ltb 0 (length rest))) [
        | inl some_left ↦ rw some_left refl
        | inr none_left ↦
            let none : rest ≡ [] = length-zero rest (ground arith) in
            rw (none_left, none, write_at-nil ctx.buffer used) refl
      ])

-- More of the message, when the buffer is empty.
whole-Holds :
    (p : List ℕ) (ctx : Context) (front : List ℕ)
    → length front % 64 ≡ 0
    → ctx.count ≡ (length front + length p) % 2 ^ 64
    → ctx.state ≡ compress (length front / 64) h0 front
    → length ctx.buffer ≡ 64
    → Holds (absorb 0 p ctx) (front ++ p)
whole-Holds p ctx front whole counted hashed sized =
    let q = length front / 64 in
    let k = length p / 64 in
    let rest = drop (64 * k) p in
    let total = length-append front p in
    let blocks : length (front ++ p) / 64 ≡ q + k = omega arith in
    let rest_length = length-drop (64 * k) p in
    let left : length (front ++ p) % 64 ≡ 0 + length rest = omega arith in
    let start : 64 * (q + k) ≡ 64 * q + 64 * k = omega arith in
    let fits : 0 + length rest ≤ length ctx.buffer = omega arith in
    let whole' : length front ≡ 64 * q = omega arith in
    rw (absorb_lem 0 p ctx) (record {
      counted = omega arith;
      hashed =
          ap (λ s. compress k s p) hashed
          ∙ sym (compress-append q k h0 front p whole')
          ∙ ap (λ n. compress n h0 (front ++ p)) (sym blocks);
      kept =
          ap (λ n. take n (write_at ctx.buffer 0 rest)) left
          ∙ take-write_at ctx.buffer 0 rest fits
          ∙ ap (drop (64 * k)) (sym (drop-append (64 * q) front p whole'))
          ∙ drop-drop (64 * k) (64 * q) (front ++ p)
          ∙ ap (λ n. drop n (front ++ p)) (sym start)
          ∙ ap (λ n. drop (64 * n) (front ++ p)) (sym blocks);
      sized = length-write_at ctx.buffer 0 rest fits ∙ sized;
    })

module _ (p : List ℕ) {ctx : Context} {msg : List ℕ} (v : Holds ctx msg) where
  abbrev counted_on : Context
  counted_on = record ctx { count = (ctx.count + length p) % 2 ^ 64 }

  used_lem : ctx.count % 64 ≡ length msg % 64
  used_lem = omega (arith, v.counted)

  -- A piece that does not fill the buffer.
  short-Holds :
      length msg % 64 + length p < 64 → Holds (absorb (length msg % 64) p counted_on) (msg ++ p)
  unfolding compress
  short-Holds fits =
      let used = length msg % 64 in
      let q = length msg / 64 in
      let total = length-append msg p in
      let blocks : length (msg ++ p) / 64 ≡ q = omega arith in
      let none : length p / 64 ≡ 0 = omega arith in
      let left : length (msg ++ p) % 64 ≡ used + length p = omega arith in
      let in_buffer : used + length p ≤ length ctx.buffer = omega (arith, v.sized) in
      rw (absorb_lem used p counted_on, none)
        (record {
          counted = omega (arith, v.counted);
          hashed =
              v.hashed
              ∙ sym (compress-prefix q h0 msg p (omega arith))
              ∙ ap (λ n. compress n h0 (msg ++ p)) (sym blocks);
          kept =
              ap (λ n. take n (write_at ctx.buffer used p)) left
              ∙ take-write_at ctx.buffer used p in_buffer
              ∙ ap (λ r. r ++ p) v.kept
              ∙ sym (drop-append_le (64 * q) msg p (omega arith))
              ∙ ap (λ n. drop (64 * n) (msg ++ p)) (sym blocks);
          sized = length-write_at ctx.buffer used p in_buffer ∙ v.sized;
        })

  -- A piece that fills the buffer.
  module _ (busy : 0 < length msg % 64) (fills : 64 - length msg % 64 ≤ length p) where
    abbrev gap : ℕ
    gap = 64 - length msg % 64

    abbrev filled : List ℕ
    filled = write_at ctx.buffer (length msg % 64) (take gap p)

    gap-length : length (take gap p) ≡ gap
    gap-length = omega (arith, length-take {0} gap p)

    length-filled : length filled ≡ 64
    length-filled =
        length-write_at ctx.buffer (length msg % 64) (take gap p)
          (omega (arith, gap-length, v.sized))
        ∙ v.sized

    filled_lem : filled ≡ drop (64 * (length msg / 64)) msg ++ take gap p
    filled_lem =
        let used = length msg % 64 in
        let bytes : 64 ≡ used + length (take gap p) = omega (arith, gap-length) in
        sym (take_all 64 filled (omega (arith, length-filled)))
        ∙ ap (λ n. take n filled) bytes
        ∙ take-write_at ctx.buffer used (take gap p) (omega (arith, gap-length, v.sized))
        ∙ ap (λ r. r ++ take gap p) v.kept

    transform-filled :
        transform ctx.state filled
        ≡ compress (length (msg ++ take gap p) / 64) h0 (msg ++ take gap p)
    transform-filled =
        let q = length msg / 64 in
        let front = msg ++ take gap p in
        let blocks : length front / 64 ≡ suc q =
          omega (arith, length-append msg (take gap p), gap-length) in
        let last : drop (64 * q) front ≡ filled =
          drop-append_le (64 * q) msg (take gap p) (omega arith) ∙ sym filled_lem in
        ap₂ transform (v.hashed ∙ sym (compress-prefix q h0 msg (take gap p) (omega arith)))
          (sym (take_all 64 filled (omega (arith, length-filled))) ∙ ap (take 64) (sym last))
        ∙ sym (compress-suc q h0 front)
        ∙ ap (λ n. compress n h0 front) (sym blocks)

    abbrev refilled : Context
    refilled = record counted_on { state = transform ctx.state filled; buffer = filled }

    filled-Holds : Holds (absorb 0 (drop gap p) refilled) (msg ++ p)
    filled-Holds =
        let front = msg ++ take gap p in
        let front_length = length-append msg (take gap p) in
        let all : front ++ drop gap p ≡ msg ++ p =
          append_assoc msg (take gap p) (drop gap p)
          ∙ ap (λ r. msg ++ r) (take-append-drop gap p) in
        subst (Holds (absorb 0 (drop gap p) refilled)) all (
          whole-Holds (drop gap p) refilled front (omega (arith, front_length, gap-length))
            (omega (arith, front_length, gap-length, length-drop gap p, v.counted)) transform-filled
            length-filled)

-- `sha256_update` of a context that was given `msg` makes one that was given `msg ++ p`.
pub update-Holds :
    (p : List ℕ) {ctx : Context} {msg : List ℕ}
    → Holds ctx msg
    → Holds (update false p ctx) (msg ++ p)
unfolding update
update-Holds p {ctx} {msg} v =
    let used = used_lem p v in
    elim (Bool-cases (length p == 0)) [
      | inl empty ↦
          let none : p ≡ [] = length-zero p (ground arith) in rw (empty, none, append-nil msg) v
      | inr more ↦
          elim (Bool-cases (ltb 0 (length msg % 64) && leb (64 - length msg % 64) (length p))) [
            | inl fills ↦ rw (more, used, fills) (filled-Holds p v (ground arith) (ground arith))
            | inr fits ↦
                rw (more, used, fits)
                  (elim (Bool-cases (length msg % 64 == 0)) [
                    | inl start ↦
                        let none : length msg % 64 ≡ 0 = ground arith in
                        rw none (
                          whole-Holds p (counted_on p v) msg none (omega (arith, v.counted))
                            v.hashed v.sized)
                    | inr busy ↦ short-Holds p v (ground arith)
                  ])
          ]
    ]
