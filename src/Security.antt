-- ===== src/Security.antt =====
-- security: the access checks on files, the hash function, and random numbers.
pub mod Acl
pub mod Sha256
pub mod Random
