-- ===== src/Acl/Tests.antt =====
-- Tests of the access check of src/fs/acl.c.
use nsos.Prelude.{◌≡◌, ◌↔◌, true}
use nsos.Acl.{has, check_acl, r_ok, w_ok}
use nsos.Acl.Rights.{class_of, may_read, may_write, check_acl_iff}

-- A member of the file's group asks to write a file of mode 0x640.
check_acl_iff_example : (check_acl 7 5 1 5 0x640 w_ok ≡ 0) ↔ (
    (has w_ok r_ok ≡ true → may_read (class_of 7 5 1 5) 0x640 ≡ true)
    × (has w_ok w_ok ≡ true → may_write (class_of 7 5 1 5) 0x640 ≡ true))
check_acl_iff_example = check_acl_iff 7 5 1 5 0x640 w_ok
