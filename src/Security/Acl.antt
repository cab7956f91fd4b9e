-- ===== src/Security/Acl.antt =====
-- security/acl/acl.c and acl.h: permission bits of files. Printing is left out, and `none` is a NULL
-- node.
pub mod Access
pub mod Change
pub mod Mode
mod Tests
use os_porting.Base.{
  ℕ, ◌/◌, ◌^◌, bit_and, bit_or, Bool, true, false, not, Option, none, some, List, [], ◌∷◌, ◌==◌,
  if◌then◌else◌,
}

-- The fields of `vfs_node_t` that the calls read or write.
pub record Node : Type 0 where
  pub permissions : ℕ
  pub uid : ℕ
  pub gid : ℕ
  pub dirty : Bool

-- `ACL_OK`, `ACL_ERR_DENIED` and `ACL_ERR_INVAL`
pub data Result : Type 0 where
  ok denied inval : Result

-- `ACL_SETUID`, `ACL_SETGID`, `ACL_STICKY`
abbrev pub setuid_bit : ℕ
setuid_bit = 0x800

abbrev pub setgid_bit : ℕ
setgid_bit = 0x400

abbrev pub sticky_bit : ℕ
sticky_bit = 0x200

-- `acl_init`: the flag `acl_initialized` and the result.
unfoldable pub init : Bool → Result × Bool
init initialized = if initialized then (ok, initialized) else (ok, true)

-- `acl_extract_perms` and `acl_perms_allow`
unfoldable pub extract_perms : ℕ → ℕ → ℕ
extract_perms mode shift = bit_and (mode / 2 ^ shift) 7

unfoldable pub perms_allow : ℕ → ℕ → Bool
perms_allow perms access = bit_and perms access == access

-- The permissions of the class that applies to a user who is not root.
unfoldable pub class_perms : Node → ℕ → ℕ → ℕ
class_perms node uid gid =
    if uid == node.uid
    then extract_perms node.permissions 6
    else if gid == node.gid
    then extract_perms node.permissions 3
    else extract_perms node.permissions 0

-- `acl_check_access`; `access` is an `int`, here its 32 bits.
unfoldable pub check_access : Option Node → ℕ → ℕ → ℕ → Result
check_access none uid gid access = inval
check_access (some node) uid gid access =
    if not (bit_and access 0xFFFFFFF8 == 0)
    then inval
    else if uid == 0
    then ok
    else if perms_allow (class_perms node uid gid) access
    then ok
    else denied

-- `acl_can_read`, `acl_can_write` and `acl_can_exec`
abbrev pub is_ok : Result → Bool
is_ok ok = true
is_ok denied = false
is_ok inval = false

unfoldable pub can_read : Option Node → ℕ → ℕ → Bool
can_read node uid gid = is_ok (check_access node uid gid 4)

unfoldable pub can_write : Option Node → ℕ → ℕ → Bool
can_write node uid gid = is_ok (check_access node uid gid 2)

unfoldable pub can_exec : Option Node → ℕ → ℕ → Bool
can_exec node uid gid = is_ok (check_access node uid gid 1)

-- `acl_get_permissions`
unfoldable pub get_permissions : Option Node → ℕ
get_permissions none = 0
get_permissions (some node) = bit_and node.permissions 0xFFF

-- `acl_set_permissions`
unfoldable pub set_permissions : Option Node → ℕ → Result × Option Node
set_permissions none mode = (inval, none)
set_permissions (some node) mode = (
  ok,
  some (record node {
    permissions = bit_or (bit_and node.permissions 0xFFFFF000) (bit_and mode 0xFFF);
    dirty = true;
  }),
)

-- `acl_set_owner`
unfoldable pub set_owner : Option Node → ℕ → ℕ → Result × Option Node
set_owner none uid gid = (inval, none)
set_owner (some node) uid gid = (
  ok,
  some (record {
    permissions = bit_and node.permissions 0xFFFFF3FF;
    uid = uid;
    gid = gid;
    dirty = true;
  }),
)

-- `acl_has_setuid`, `acl_has_setgid` and `acl_has_sticky`
abbrev pub has : ℕ → ℕ → Bool
has mode flag = not (bit_and mode flag == 0)

unfoldable pub has_setuid : Option Node → Bool
has_setuid none = false
has_setuid (some node) = has node.permissions setuid_bit

unfoldable pub has_setgid : Option Node → Bool
has_setgid none = false
has_setgid (some node) = has node.permissions setgid_bit

unfoldable pub has_sticky : Option Node → Bool
has_sticky none = false
has_sticky (some node) = has node.permissions sticky_bit

-- `file_perm_t`: the fields of one bit are Booleans.
pub record FilePerm : Type 0 where
  pub owner_r : Bool
  pub owner_w : Bool
  pub owner_x : Bool
  pub group_r : Bool
  pub group_w : Bool
  pub group_x : Bool
  pub other_r : Bool
  pub other_w : Bool
  pub other_x : Bool
  pub setuid : Bool
  pub setgid : Bool
  pub sticky : Bool
  pub reserved : ℕ

-- `acl_mode_to_perm`
unfoldable pub mode_to_perm : ℕ → FilePerm
mode_to_perm mode = record {
  owner_r = has mode 0x100;
  owner_w = has mode 0x80;
  owner_x = has mode 0x40;
  group_r = has mode 0x20;
  group_w = has mode 0x10;
  group_x = has mode 0x8;
  other_r = has mode 0x4;
  other_w = has mode 0x2;
  other_x = has mode 0x1;
  setuid = has mode setuid_bit;
  setgid = has mode setgid_bit;
  sticky = has mode sticky_bit;
  reserved = 0;
}

-- `if (bit) mode |= flag;`
abbrev pub or_if : Bool → ℕ → ℕ → ℕ
or_if bit flag mode = if bit then bit_or mode flag else mode

-- `acl_perm_to_mode`
unfoldable pub perm_to_mode : FilePerm → ℕ
perm_to_mode perm =
    let m1 = or_if perm.owner_r 0x100 0 in
    let m2 = or_if perm.owner_w 0x80 m1 in
    let m3 = or_if perm.owner_x 0x40 m2 in
    let m4 = or_if perm.group_r 0x20 m3 in
    let m5 = or_if perm.group_w 0x10 m4 in
    let m6 = or_if perm.group_x 0x8 m5 in
    let m7 = or_if perm.other_r 0x4 m6 in
    let m8 = or_if perm.other_w 0x2 m7 in
    let m9 = or_if perm.other_x 0x1 m8 in
    let m10 = or_if perm.setuid setuid_bit m9 in
    let m11 = or_if perm.setgid setgid_bit m10 in or_if perm.sticky sticky_bit m11

-- `file_acl_t` and `acl_create`
pub record FileAcl : Type 0 where
  pub owner_uid : ℕ
  pub owner_gid : ℕ
  pub permissions : FilePerm

unfoldable pub create : ℕ → ℕ → ℕ → FileAcl
create uid gid mode = record { owner_uid = uid; owner_gid = gid; permissions = mode_to_perm mode }

-- The letter at an execute bit, for its special bit and itself.
abbrev pub exec_letter : Bool → Bool → ℕ → ℕ → ℕ
exec_letter special exec lower upper =
    if special then (if exec then lower else upper) else (if exec then 120 else 45)

-- `acl_mode_to_string`: the ten characters as ASCII codes, `none` for a NULL buffer.
unfoldable pub mode_to_string : Bool → ℕ → Option (List ℕ)
mode_to_string null mode =
    if null
    then none
    else some (
        (if has mode 0x100 then 114 else 45)
        ∷ (if has mode 0x80 then 119 else 45)
        ∷ exec_letter (has mode setuid_bit) (has mode 0x40) 115 83
        ∷ (if has mode 0x20 then 114 else 45)
        ∷ (if has mode 0x10 then 119 else 45)
        ∷ exec_letter (has mode setgid_bit) (has mode 0x8) 115 83
        ∷ (if has mode 0x4 then 114 else 45)
        ∷ (if has mode 0x2 then 119 else 45)
        ∷ exec_letter (has mode sticky_bit) (has mode 0x1) 116 84
        ∷ 0
        ∷ [])
