-- ===== src/Acl/Rights.antt =====
-- The access check of src/fs/acl.c against the rights of the caller's class.
use nsos.Prelude.{ℕ, ◌*◌, ◌^◌, ◌≡◌, ◌↔◌, Bool, true, arith, ◌==◌, if◌then◌else◌}
use nsos.Acl.{r_ok, w_ok, has, check_acl}

-- Whom the caller is to the file. The owner counts as owner only, also where its group fits.
pub data Class : Type 0 where
  owner group other : Class

unfoldable pub class_of : (uid gid i_uid i_gid : ℕ) → Class
class_of uid gid i_uid i_gid = if uid == i_uid then owner else if gid == i_gid then group else other

-- Each class has one hexadecimal digit of the mode, the owner's highest.
abbrev pub digit : Class → ℕ
digit owner = 8
digit group = 4
digit other = 0

-- In a class's digit bit 2 is the right to read and bit 1 the right to write.
abbrev pub may_read : Class → ℕ → Bool
may_read c acl = has acl (4 * 2 ^ digit c)

abbrev pub may_write : Class → ℕ → Bool
may_write c acl = has acl (2 * 2 ^ digit c)

-- The check passes exactly when the caller's class has every right that is asked for.
pub check_acl_iff :
    (uid gid i_uid i_gid i_acl flags : ℕ)
    → let c = class_of uid gid i_uid i_gid in
      (check_acl uid gid i_uid i_gid i_acl flags ≡ 0) ↔ (
        (has flags r_ok ≡ true → may_read c i_acl ≡ true)
        × (has flags w_ok ≡ true → may_write c i_acl ≡ true))
unfolding check_acl class_of
check_acl_iff uid gid i_uid i_gid i_acl flags = ground arith
