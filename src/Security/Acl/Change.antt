-- ===== src/Security/Acl/Change.antt =====
-- `acl_set_permissions` and `acl_set_owner`, bit by bit.
use os_porting.Base.{
  ℕ, ◌<◌, ◌≡◌, refl, true, ◌&&◌, ◌||◌, ◌==◌, ltb, if◌then◌else◌, some, arith, holds_below,
  holds_below-at, bit_and,
}
use os_porting.Base.Bits.{bit_at, bit_at-and, bit_at-or, bit_at-le}
use os_porting.Security.Acl.{Node, ok, set_permissions, set_owner}

mask_table :
    holds_below 32 (λ i.
      (bit_at i 0xFFF == (if ltb i 12 then 1 else 0))
      && ((bit_at i 0xFFFFF000 == (if ltb i 12 then 0 else 1))
          && (bit_at i 0xFFFFF3FF == (if i == 10 || i == 11 then 0 else 1))))
    ≡ true
unfolding holds_below bit_at
mask_table = refl

-- After `acl_set_permissions` of any mode, the lowest twelve bits are the mode's, each other bit of
-- the 32 is as it was, the owner and group are kept and the node is dirty.
pub set_permissions_lem :
    (node : Node) (mode : ℕ)
    → (new : Node) × (set_permissions (some node) mode ≡ (ok, some new))
      × ((i : ℕ)
          → i < 32
          → bit_at i new.permissions
            ≡ (if ltb i 12 then bit_at i mode else bit_at i node.permissions))
      × (new.uid ≡ node.uid)
      × (new.gid ≡ node.gid)
      × (new.dirty ≡ true)
unfolding set_permissions
set_permissions_lem node mode = (
  _,
  refl,
  (λ i lt. ground (
    arith,
    holds_below-at 32 _ i lt mask_table,
    bit_at-or i (bit_and node.permissions 0xFFFFF000) (bit_and mode 0xFFF),
    bit_at-and i node.permissions 0xFFFFF000,
    bit_at-and i mode 0xFFF,
    bit_at-le i mode,
    bit_at-le i node.permissions,
  )),
  refl,
  refl,
  refl,
)

-- After `acl_set_owner`, the owner and group are the new ones, bits 10 and 11 (set-group-ID and
-- set-user-ID) are clear, each other permission bit of the 32 is as it was, and the node is dirty.
pub set_owner_lem :
    (node : Node) (uid gid : ℕ)
    → (new : Node) × (set_owner (some node) uid gid ≡ (ok, some new))
      × ((i : ℕ)
          → i < 32
          → bit_at i new.permissions
            ≡ (if i == 10 || i == 11 then 0 else bit_at i node.permissions))
      × (new.uid ≡ uid)
      × (new.gid ≡ gid)
      × (new.dirty ≡ true)
unfolding set_owner
set_owner_lem node uid gid = (
  _,
  refl,
  (λ i lt. ground (
    arith,
    holds_below-at 32 _ i lt mask_table,
    bit_at-and i node.permissions 0xFFFFF3FF,
    bit_at-le i node.permissions,
  )),
  refl,
  refl,
  refl,
)
