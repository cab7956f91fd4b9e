-- ===== src/Security/Acl/Mode.antt =====
-- A mode as a `file_perm_t` and as a string: both keep its twelve bits.
use os_porting.Base.{
  ℕ, ◌+◌, ◌%◌, ◌<◌, ◌^◌, ◌≡◌, ◌∙◌, refl, ap, true, ◌||◌, ◌==◌, not, ==_iff, if◌then◌else◌, some,
  List, [], ◌∷◌, arith, holds_below, holds_below-at, Option,
}
use os_porting.Base.Bits.{and-mod}
use os_porting.Security.Acl.{mode_to_perm, perm_to_mode, has, FilePerm, exec_letter}

has-mod : (mode flag : ℕ) → flag < 4096 → has mode flag ≡ has (mode % 4096) flag
has-mod mode flag lt = ap (λ b. not (b == 0)) (and-mod 12 mode flag lt)

mode_to_perm-mod : (mode : ℕ) → mode_to_perm mode ≡ mode_to_perm (mode % 4096)
unfolding mode_to_perm
mode_to_perm-mod mode =
    rw
      (
        has-mod mode 0x100 (omega arith),
        has-mod mode 0x80 (omega arith),
        has-mod mode 0x40 (omega arith),
        has-mod mode 0x20 (omega arith),
        has-mod mode 0x10 (omega arith),
        has-mod mode 0x8 (omega arith),
        has-mod mode 0x4 (omega arith),
        has-mod mode 0x2 (omega arith),
        has-mod mode 0x1 (omega arith),
        has-mod mode 0x800 (omega arith),
        has-mod mode 0x400 (omega arith),
        has-mod mode 0x200 (omega arith),
      )
      refl

perm_table : holds_below 4096 (λ mode. perm_to_mode (mode_to_perm mode) == mode) ≡ true
unfolding holds_below perm_to_mode mode_to_perm
perm_table = refl

-- `acl_perm_to_mode` after `acl_mode_to_perm` gives the lowest twelve bits of any mode.
pub perm_to_mode-mode_to_perm : (mode : ℕ) → perm_to_mode (mode_to_perm mode) ≡ mode % 2 ^ 12
perm_to_mode-mode_to_perm mode =
    ap perm_to_mode (mode_to_perm-mod mode)
    ∙ (==_iff _ _).0 (holds_below-at 4096 _ (mode % 4096) (omega arith) perm_table)

-- The letters for permission bits, and the bits that `ls` means by them.
letters : FilePerm → List ℕ
letters p =
    (if p.owner_r then 114 else 45)
    ∷ (if p.owner_w then 119 else 45)
    ∷ exec_letter p.setuid p.owner_x 115 83
    ∷ (if p.group_r then 114 else 45)
    ∷ (if p.group_w then 119 else 45)
    ∷ exec_letter p.setgid p.group_x 115 83
    ∷ (if p.other_r then 114 else 45)
    ∷ (if p.other_w then 119 else 45)
    ∷ exec_letter p.sticky p.other_x 116 84
    ∷ 0
    ∷ []

abbrev letter_bit : ℕ → ℕ → ℕ → ℕ
letter_bit c letter flag = if c == letter then flag else 0

-- `x`, `s` and `t` stand for the execute bit; `s`, `S`, `t` and `T` for the special bit.
abbrev exec_bits : ℕ → ℕ → ℕ → ℕ
exec_bits c exec special =
    if c == 120
    then exec
    else if c == 115 || c == 116
    then exec + special
    else if c == 83 || c == 84
    then special
    else 0

unfoldable pub read_mode : Option (List ℕ) → ℕ
read_mode (some (a ∷ b ∷ c ∷ d ∷ e ∷ f ∷ g ∷ h ∷ i ∷ z ∷ [])) =
    letter_bit a 114 0x100
    + letter_bit b 119 0x80
    + exec_bits c 0x40 0x800
    + letter_bit d 114 0x20
    + letter_bit e 119 0x10
    + exec_bits f 0x8 0x400
    + letter_bit g 114 0x4
    + letter_bit h 119 0x2
    + exec_bits i 0x1 0x200
read_mode text = 0
