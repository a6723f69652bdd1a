-- ===== src/Fs/Tables/Devices.antt =====
-- The tables of src/fs/devfs.c, and the entries that only answer.
use nsos.Prelude.{ℕ, ◌-◌, ◌^◌, none, some, List, [], ◌∷◌}
use nsos.Machine.{Ptr, null, Env, Run, pure, modify, gets, ◌>>◌}
use nsos.Fs.State.{Kernel, devfs, pmm_free}
use nsos.Fs.Driver.{alloc_inode}
use nsos.Fs.Devfs.{
  udev, devfs_lookup, devfs_create, devfs_mkdir, devfs_open, devfs_llseek, devfs_read, devfs_write,
  devfs_mount,
}
use nsos.Fs.Tables.{
  SuperOperations, DentryOperations, InodeOperations, FileOperations, FileSystemType, set_op,
}

unfoldable pub devfs_alloc_inode : Env → Run Kernel Ptr
unfolding alloc_inode
devfs_alloc_inode env = alloc_inode env devfs

unfoldable pub devfs_destroy_inode : (ip : Ptr) → Run Kernel (Unit {0})
unfolding pmm_free
devfs_destroy_inode ip = pmm_free ip

-- 0: a dentry is always valid.
unfoldable pub devfs_d_revalidate : (dentry : Ptr) → Run Kernel ℕ
devfs_d_revalidate dentry = pure 0

unfoldable pub devfs_d_init : (dentry : Ptr) → Run Kernel ℕ
devfs_d_init dentry = modify (set_op devfs dentry) >> pure 0

unfoldable pub devfs_rmdir : (ip dp : Ptr) → Run Kernel ℕ
devfs_rmdir ip dp = pure (2 ^ 32 - 1)

unfoldable pub devfs_truncate : (ip : Ptr) → Run Kernel (Unit {0})
devfs_truncate ip = pure tt

unfoldable pub devfs_truncate_range : (ip : Ptr) (start end : ℕ) → Run Kernel (Unit {0})
devfs_truncate_range ip start end = pure tt

abbrev pub devfs_super_operations_obj : Env → SuperOperations
devfs_super_operations_obj env = record {
  alloc_inode = devfs_alloc_inode env;
  destroy_inode = devfs_destroy_inode;
  umount_begin = none;
}

abbrev pub devfs_dentry_operations_obj : DentryOperations
devfs_dentry_operations_obj = record {
  d_revalidate = some devfs_d_revalidate;
  d_init = devfs_d_init;
}

abbrev pub devfs_inode_operations_obj : Env → InodeOperations
devfs_inode_operations_obj env = record {
  lookup = devfs_lookup;
  create = λ ip dp. devfs_create;
  mkdir = λ ip dp. devfs_mkdir;
  rmdir = devfs_rmdir;
  rename = none;
  truncate = devfs_truncate;
  truncate_range = devfs_truncate_range;
}

abbrev pub devfs_file_operations_obj : Env → FileOperations
devfs_file_operations_obj env = record {
  open_file = λ ip fp. gets (devfs_open ip);
  llseek = devfs_llseek;
  read = devfs_read env;
  write = devfs_write;
}

abbrev pub devfs_name : List ℕ
devfs_name = 100 ∷ 101 ∷ 118 ∷ 102 ∷ 115 ∷ []

abbrev pub devfs_obj : Env → FileSystemType
devfs_obj env = record {
  name = devfs_name;
  next = null;
  dev = udev;
  mount = devfs_mount env;
  sop = devfs_super_operations_obj env;
  dop = devfs_dentry_operations_obj;
  iop = devfs_inode_operations_obj env;
  fop = devfs_file_operations_obj env;
}
