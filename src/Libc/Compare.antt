-- ===== src/Libc/Compare.antt =====
-- `memcmp`, `strlen`, `strchr` and `strcmp` of lib/libc/string.c. An `int` is its 32 bits. The
-- string loops stop at a NUL, so they have fuel, and `none` says that it ran out.
use os_porting.Base.{
  ℕ, zero, suc, ◌+◌, ◌-◌, ◌%◌, ◌≤◌, ◌<◌, ◌^◌, ◌≡◌, ◌≢◌, ◌∙◌, ◌⊎◌, ◌↔◌, inl, inr, refl, ap, sym,
  arith, ◌==◌, not, ◌&&◌, if◌then◌else◌, false, Bool-cases, Option, none, some,
}
use os_porting.Libc.{Memory}

-- The difference of two bytes as an `int`.
abbrev pub difference : ℕ → ℕ → ℕ
difference x y = (2 ^ 32 + x - y) % 2 ^ 32

unfoldable pub memcmp : ℕ → ℕ → ℕ → Memory → ℕ
memcmp zero a b m = 0
memcmp (suc n) a b m =
    let rest = memcmp n (a + 1) (b + 1) m in
    if not (m a == m b) then difference (m a) (m b) else rest

-- The loop of `strlen`: the address of the NUL.
unfoldable pub string_end : ℕ → ℕ → Memory → Option ℕ
string_end zero s m = none
string_end (suc fuel) s m =
    let rest = string_end fuel (s + 1) m in if m s == 0 then some s else rest

unfoldable pub strlen : ℕ → ℕ → Memory → Option ℕ
strlen fuel str m = elim (string_end fuel str m) [ none ↦ none | some s ↦ some (s - str) ]

-- `strchr`; the inner `none` is NULL.
unfoldable pub strchr : ℕ → ℕ → ℕ → Memory → Option (Option ℕ)
strchr zero str c m = none
strchr (suc fuel) str c m =
    let rest = strchr fuel (str + 1) c m in
    if m str == 0
    then (if c % 256 == 0 then some (some str) else some none)
    else if m str == c % 256
    then some (some str)
    else rest

unfoldable pub strcmp : ℕ → ℕ → ℕ → Memory → Option ℕ
strcmp zero a b m = none
strcmp (suc fuel) a b m =
    let rest = strcmp fuel (a + 1) (b + 1) m in
    if not (m a == 0) && m a == m b then rest else some (difference (m a) (m b))

-- Every address holds a byte.
abbrev pub HoldsBytes : Memory → Type 0
HoldsBytes m = (a : ℕ) → m a < 256

-- `n` bytes that are not 0, and then a 0.
abbrev pub IsString : Memory → ℕ → ℕ → Type 0
IsString m s n = ((i : ℕ) → s ≤ i → i < s + n → m i ≢ 0) × (m (s + n) ≡ 0)

-- Two ranges that agree on their first byte and on the others, and back.
extend :
    {n : ℕ} (a b : ℕ) (m : Memory)
    → m a ≡ m b
    → ((i : ℕ) → i < n → m (a + 1 + i) ≡ m (b + 1 + i))
    → (i : ℕ) → i < suc n
    → m (a + i) ≡ m (b + i)
extend a b m first others zero lt =
    let left : a + 0 ≡ a = omega arith in
    let right : b + 0 ≡ b = omega arith in rw (left, right) first
extend a b m first others (suc i) lt =
    let left : a + suc i ≡ a + 1 + i = omega arith in
    let right : b + suc i ≡ b + 1 + i = omega arith in rw (left, right) (others i (omega arith))

restrict :
    {n : ℕ} (a b : ℕ) (m : Memory)
    → ((i : ℕ) → i < suc n → m (a + i) ≡ m (b + i))
    → (i : ℕ) → i < n
    → m (a + 1 + i) ≡ m (b + 1 + i)
restrict a b m same i lt =
    let left : a + 1 + i ≡ a + suc i = omega arith in
    let right : b + 1 + i ≡ b + suc i = omega arith in rw (left, right) (same (suc i) (omega arith))

-- `memcmp` of bytes returns 0 exactly when the two ranges hold the same.
pub memcmp_iff :
    (n a b : ℕ) {m : Memory}
    → HoldsBytes m
    → (memcmp n a b m ≡ 0) ↔ ((i : ℕ) → i < n → m (a + i) ≡ m (b + i))
unfolding memcmp
memcmp_iff zero a b byte = ((λ e i lt. absurd (omega arith)), (λ same. refl))
memcmp_iff (suc n) a b {m} byte = elim (Bool-cases (m a == m b)) [
  | inl e ↦
      let others = memcmp_iff n (a + 1) (b + 1) byte in
      rw e
        ((λ z. extend a b m (ground arith) (others.0 z)), (λ same. others.1 (restrict a b m same)))
  | inr differ ↦
      let left : a + 0 ≡ a = omega arith in
      let right : b + 0 ≡ b = omega arith in
      rw differ (
        (λ z. absurd (ground (arith, byte a, byte b))),
        (λ same. absurd (ground (arith, sym (ap m left) ∙ same 0 (omega arith) ∙ ap m right))),
      )
]

string_end_lem :
    (fuel n s : ℕ) {m : Memory} → IsString m s n → n < fuel → string_end fuel s m ≡ some (s + n)
unfolding string_end
string_end_lem zero n s text enough = absurd (omega arith)
string_end_lem (suc fuel) zero s {m} (body, stop) enough =
    let here : s + 0 ≡ s = omega arith in
    let nul : m s ≡ 0 = sym (ap m here) ∙ stop in rw (nul, here) refl
string_end_lem (suc fuel) (suc n) s {m} (body, stop) enough =
    let more : (m s == 0) ≡ false = ground (arith, body s (omega arith) (omega arith)) in
    let next : s + 1 + n ≡ s + suc n = omega arith in
    let rest =
      string_end_lem fuel n (s + 1)
        ((λ i low high. body i (omega arith) (omega arith)), ap m next ∙ stop) (omega arith) in
    rw more (rest ∙ ap some next)

-- With fuel above its length `strlen` ends and returns the length of the string.
pub strlen_lem : (fuel n s : ℕ) {m : Memory} → IsString m s n → n < fuel → strlen fuel s m ≡ some n
unfolding strlen
strlen_lem fuel n s {m} text enough =
    rw (string_end_lem fuel n s text enough, strlen) (ap some (omega arith))

tail-IsString : (n s : ℕ) (m : Memory) → IsString m s (suc n) → IsString m (s + 1) n
tail-IsString n s m (body, stop) =
    let next : s + 1 + n ≡ s + suc n = omega arith in
    ((λ i low high. body i (omega arith) (omega arith)), ap m next ∙ stop)

later :
    (bound s c : ℕ) (m : Memory)
    → m s ≢ c
    → ((i : ℕ) → s + 1 ≤ i → i < bound → m i ≢ c)
    → (i : ℕ) → s ≤ i
    → i < bound
    → m i ≢ c
later bound s c m first others i low high = elim (Bool-cases (i == s)) [
  | inl same ↦ λ e. let here : s ≡ i = ground arith in first (ap m here ∙ e)
  | inr after ↦ others i (ground arith) high
]

-- The first byte of the string or its NUL that is `c`, or that there is none.
abbrev pub Finds : Memory → ℕ → ℕ → ℕ → Option (Option ℕ) → Type 0
Finds m s n c r =
    ((at : ℕ) × (r ≡ some (some at))
      × (s ≤ at)
      × (at ≤ s + n)
      × (m at ≡ c)
      × ((i : ℕ) → s ≤ i → i < at → m i ≢ c))
    ⊎ ((r ≡ some none) × ((i : ℕ) → s ≤ i → i ≤ s + n → m i ≢ c))

-- With fuel above the string's length `strchr` ends and returns the address of the first byte of the
-- string, its NUL included, that is the lowest byte of `c`, or NULL if there is none.
pub strchr-Finds :
    (fuel n s c : ℕ) {m : Memory}
    → IsString m s n
    → n < fuel
    → Finds m s n (c % 256) (strchr fuel s c m)
unfolding strchr
strchr-Finds zero n s c text enough = absurd (omega arith)
strchr-Finds (suc fuel) zero s c {m} (body, stop) enough =
    let here : s + 0 ≡ s = omega arith in
    let nul : m s ≡ 0 = sym (ap m here) ∙ stop in
    elim (Bool-cases (c % 256 == 0)) [
      | inl z ↦
          rw (nul, z)
            (inl (
              s,
              refl,
              omega arith,
              omega arith,
              ground (arith, nul),
              λ i low high. absurd (omega arith),
            ))
      | inr z ↦
          rw (nul, z)
            (inr (
              refl,
              λ i low high e.
                  let only : i ≡ s = omega arith in
                  absurd (ground (arith, sym e ∙ ap m only ∙ nul)),
            ))
    ]
strchr-Finds (suc fuel) (suc n) s c {m} text enough =
    let more : (m s == 0) ≡ false = ground (arith, text.0 s (omega arith) (omega arith)) in
    elim (Bool-cases (m s == c % 256)) [
      | inl hit ↦
          rw (more, hit)
            (inl
              (s, refl, omega arith, omega arith, ground arith, λ i low high. absurd (omega arith)))
      | inr miss ↦
          rw (more, miss)
            (elim (strchr-Finds fuel n (s + 1) c (tail-IsString n s m text) (omega arith)) [
              | inl (at, found, low, high, is, first) ↦ inl (
                at,
                found,
                omega arith,
                omega arith,
                is,
                later at s (c % 256) m (ground arith) first,
              )
              | inr (gone, none_here) ↦ inr (
                gone,
                λ i low high.
                    later (s + suc n + 1) s (c % 256) m (ground arith)
                      (λ j l h. none_here j l (omega arith)) i low (omega arith),
              )
            ])
    ]
