-- ===== src/Security/Acl/Tests.antt =====
-- Runs of the access checks, and their theorems on a file.
use os_porting.Base.{ℕ, ◌<◌, ◌≤◌, ◌≡◌, ◌≢◌, ◌⊎◌, refl, some, true, false, arith, [], ◌∷◌}
use os_porting.Security.Acl.{
  Node, ok, denied, inval, check_access, extract_perms, perms_allow, class_perms, can_read,
  can_write, mode_to_string,
}
use os_porting.Security.Acl.Access.{IsGranted, check_access-Decides}

-- A set-user-ID program of user 7 and group 8, mode 4750.
abbrev file : Node
file = record { permissions = 0x9E8; uid = 7; gid = 8; dirty = false }

group_reads : can_read (some file) 9 8 ≡ true
unfolding can_read check_access extract_perms perms_allow class_perms
group_reads = refl

group_writes : can_write (some file) 9 8 ≡ false
unfolding can_write check_access extract_perms perms_allow class_perms
group_writes = refl

-- "rwsr-x---"
file_string :
    mode_to_string false file.permissions
    ≡ some (114 ∷ 119 ∷ 115 ∷ 114 ∷ 45 ∷ 120 ∷ 45 ∷ 45 ∷ 45 ∷ 0 ∷ [])
unfolding mode_to_string
file_string = refl

abbrev visitor : ℕ
visitor = 9

check_access-Decides_example :
    let r = check_access (some file) visitor 8 6 in
    ((r ≡ inval) × (8 ≤ 6))
    ⊎ (((r ≡ ok) × (6 < 8) × ((visitor ≡ 0) ⊎ IsGranted file visitor 8 6))
        ⊎ ((r ≡ denied) × (6 < 8) × (visitor ≢ 0) × ¬ IsGranted file visitor 8 6))
check_access-Decides_example = check_access-Decides file visitor 8 6 (omega arith)
