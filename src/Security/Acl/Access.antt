-- ===== src/Security/Acl/Access.antt =====
-- `acl_check_access` decides whether the bits of the applicable class hold the bits asked for.
use os_porting.Base.{
  zero, suc, ◌+◌, ◌^◌, ◌≤◌, ◌≢◌, ◌∙◌, sym, ◌↔◌, ◌⊎◌, inl, inr, Bool-cases, some, bit_and, ℕ, ◌*◌,
  ◌/◌, ◌%◌, ◌<◌, ◌≡◌, refl, Bool, true, not, ◌&&◌, ◌||◌, ◌==◌, if◌then◌else◌, arith, holds_below,
  holds_below-at,
}
use os_porting.Base.Bits.{bit_at-shift, bit_at-and, bit_at-le, and_digit, and_ones, bit_at}
use os_porting.Security.Acl.{
  Node, ok, denied, inval, extract_perms, class_perms, check_access, perms_allow,
}

-- The bits above the lowest three.
and_high : (a : ℕ) → a < 2 ^ 32 → bit_and a 0xFFFFFFF8 ≡ a / 8 * 8
and_high a lt =
    let ones : bit_and (a / 2 / 2 / 2) 0x1FFFFFFF ≡ a / 2 / 2 / 2 % 2 ^ 29 =
      and_ones 29 (a / 2 / 2 / 2) in
    omega (
      arith,
      and_digit a 0xFFFFFFF8,
      and_digit (a / 2) 0x7FFFFFFC,
      and_digit (a / 2 / 2) 0x3FFFFFFE,
      ones,
    )

-- Every bit of a request below 8 is among those of the permissions.
abbrev pub AreGranted : ℕ → ℕ → Type 0
AreGranted perms access = (i : ℕ) → i < 3 → bit_at i access ≡ 1 → bit_at i perms ≡ 1

-- The number of the lowest bit of the class that applies: owner, group, other.
abbrev pub class_shift : Node → ℕ → ℕ → ℕ
class_shift node uid gid = if uid == node.uid then 6 else if gid == node.gid then 3 else 0

implied : ℕ → ℕ → Bool
implied p a = not (a == 1) || p == 1

allow_table :
    holds_below 8 (λ a. holds_below 8 (λ p.
      (not (perms_allow p a)
        || (implied (bit_at 0 p) (bit_at 0 a)
            && (implied (bit_at 1 p) (bit_at 1 a) && implied (bit_at 2 p) (bit_at 2 a))))
      && (perms_allow p a
          || not (
              implied (bit_at 0 p) (bit_at 0 a)
              && (implied (bit_at 1 p) (bit_at 1 a) && implied (bit_at 2 p) (bit_at 2 a))))))
    ≡ true
unfolding holds_below perms_allow bit_at implied
allow_table = refl

below_three : (P : ℕ → Type 0) → P 0 → P 1 → P 2 → (i : ℕ) → i < 3 → P i
below_three P p q r zero lt = p
below_three P p q r (suc zero) lt = q
below_three P p q r (suc (suc zero)) lt = r
below_three P p q r (suc (suc (suc i))) lt = absurd (omega arith)

allow_iff : (p a : ℕ) → p < 8 → a < 8 → (perms_allow p a ≡ true) ↔ AreGranted p a
unfolding implied
allow_iff p a hp ha =
    let table = holds_below-at 8 _ p hp (holds_below-at 8 _ a ha allow_table) in
    (
      (λ grant.
          below_three (λ i. bit_at i a ≡ 1 → bit_at i p ≡ 1) (λ set. ground (arith, table))
            (λ set. ground (arith, table)) (λ set. ground (arith, table))),
      (λ granted. ground (
        arith,
        table,
        granted 0 (omega arith),
        granted 1 (omega arith),
        granted 2 (omega arith),
      )),
    )

bits_of_seven : (i : ℕ) → i < 3 → bit_at i 7 ≡ 1
unfolding bit_at
bits_of_seven i lt = below_three (λ i. bit_at i 7 ≡ 1) refl refl refl i lt

extract_perms_lem :
    (i mode shift : ℕ) → i < 3 → bit_at i (extract_perms mode shift) ≡ bit_at (i + shift) mode
unfolding extract_perms
extract_perms_lem i mode shift lt = omega (
  arith,
  bit_at-and i (mode / 2 ^ shift) 7,
  bit_at-shift shift i mode,
  bits_of_seven i lt,
  bit_at-le i (mode / 2 ^ shift),
)

extract_perms-small : (mode shift : ℕ) → extract_perms mode shift < 8
unfolding extract_perms
extract_perms-small mode shift = omega (arith, and_ones 3 (mode / 2 ^ shift))

class_perms_lem :
    (node : Node) (uid gid : ℕ)
    → class_perms node uid gid ≡ extract_perms node.permissions (class_shift node uid gid)
unfolding class_perms
class_perms_lem node uid gid = ground arith

-- Every bit that a request asks for is set in the class that applies to the user.
abbrev pub IsGranted : Node → ℕ → ℕ → ℕ → Type 0
IsGranted node uid gid access =
    (i : ℕ)
    → i < 3
    → bit_at i access ≡ 1
    → bit_at (i + class_shift node uid gid) node.permissions ≡ 1

class_iff :
    (node : Node) (uid gid access : ℕ)
    → access < 8
    → (perms_allow (class_perms node uid gid) access ≡ true) ↔ IsGranted node uid gid access
class_iff node uid gid access lt =
    let shift = class_shift node uid gid in
    let mode = node.permissions in
    let iff = allow_iff (extract_perms mode shift) access (extract_perms-small mode shift) lt in
    rw (class_perms_lem node uid gid) (
      (λ grant i low set. sym (extract_perms_lem i mode shift low) ∙ iff.0 grant i low set),
      (λ granted. iff.1 (λ i low set. extract_perms_lem i mode shift low ∙ granted i low set)),
    )

-- For every node, user and 32-bit request `acl_check_access` gives exactly one of: an error, when
-- the request has a bit above the lowest three; success, when the user is root or each bit asked for
-- is set in the class that applies, which is the owner's, else the group's, else the others'; and
-- denial otherwise.
pub check_access-Decides :
    (node : Node) (uid gid access : ℕ)
    → access < 2 ^ 32
    → let r = check_access (some node) uid gid access in
      ((r ≡ inval) × (8 ≤ access))
      ⊎ (((r ≡ ok) × (access < 8) × ((uid ≡ 0) ⊎ IsGranted node uid gid access))
          ⊎ ((r ≡ denied) × (access < 8) × (uid ≢ 0) × ¬ IsGranted node uid gid access))
unfolding check_access
check_access-Decides node uid gid access lt =
    let high = and_high access lt in
    elim (Bool-cases (bit_and access 0xFFFFFFF8 == 0)) [
      | inr bad ↦ rw bad (inl (refl, ground arith))
      | inl good ↦
          let small : access < 8 = ground arith in
          let iff = class_iff node uid gid access small in
          elim (Bool-cases (uid == 0)) [
            | inl root ↦ rw (good, root) (inr (inl (refl, small, inl (ground arith))))
            | inr user ↦ elim (Bool-cases (perms_allow (class_perms node uid gid) access)) [
              | inl grant ↦ rw (good, user, grant) (inr (inl (refl, small, inr (iff.0 grant))))
              | inr refusal ↦
                  rw (good, user, refusal)
                    (inr (
                      inr (
                        refl,
                        small,
                        (λ e. ground arith),
                        λ granted. ground (arith, iff.1 granted),
                      )))
            ]
          ]
    ]
