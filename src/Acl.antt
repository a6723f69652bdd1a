-- ===== src/Acl.antt =====
-- The access check of src/fs/acl.c, with the masks of include/fs/acl.h and framework/nanos.h.
mod Rights
mod Tests
use nsos.Prelude.{ℕ, Bool, true, false, not, bit_and, ◌==◌, if◌then◌else◌}

abbrev pub r_ok : ℕ
r_ok = 4

abbrev pub w_ok : ℕ
w_ok = 2

abbrev pub acl_owner_r : ℕ
acl_owner_r = 0x0400

abbrev pub acl_owner_w : ℕ
acl_owner_w = 0x0200

abbrev pub acl_group_r : ℕ
acl_group_r = 0x0040

abbrev pub acl_group_w : ℕ
acl_group_w = 0x0020

abbrev pub acl_other_r : ℕ
acl_other_r = 0x0004

abbrev pub acl_other_w : ℕ
acl_other_w = 0x0002

abbrev pub acl_default : ℕ
acl_default = 0x0664

-- `x & mask`, as a test.
abbrev pub has : ℕ → ℕ → Bool
has x mask = not (bit_and x mask == 0)

-- The first `if` of `check_acl`: 1 if the read is refused.
unfoldable pub refuses_read : (uid gid i_uid i_gid i_acl : ℕ) → Bool
refuses_read uid gid i_uid i_gid i_acl =
    if uid == i_uid
    then not (has i_acl acl_owner_r)
    else if gid == i_gid
    then not (has i_acl acl_group_r)
    else not (has i_acl acl_other_r)

unfoldable pub refuses_write : (uid gid i_uid i_gid i_acl : ℕ) → Bool
refuses_write uid gid i_uid i_gid i_acl =
    if uid == i_uid
    then not (has i_acl acl_owner_w)
    else if gid == i_gid
    then not (has i_acl acl_group_w)
    else not (has i_acl acl_other_w)

-- The owner, group and mode are those of the inode `ip`; the result is 0 or 1.
unfoldable pub check_acl : (uid gid i_uid i_gid i_acl flags : ℕ) → ℕ
unfolding refuses_read refuses_write
check_acl uid gid i_uid i_gid i_acl flags =
    if has flags r_ok then if refuses_read uid gid i_uid i_gid i_acl then 1 else rest else rest
  where
    rest : ℕ
    rest = if has flags w_ok then if refuses_write uid gid i_uid i_gid i_acl then 1 else 0 else 0
