-- ===== src/Fs/Tables/Ram.antt =====
-- The tables of src/fs/kvfs.c, and the entries that only answer.
use nsos.Prelude.{ℕ, none, some, List, [], ◌∷◌}
use nsos.Machine.{Ptr, null, Env, Run, pure, modify, gets, ◌>>◌}
use nsos.Fs.State.{Kernel, kvfs, pmm_free}
use nsos.Fs.Driver.{alloc_inode}
use nsos.Fs.Kvfs.{
  kvfs_create, kvfs_mkdir, kvfs_open, kvfs_truncate, kvfs_truncate_range, kvfs_llseek, kvfs_read,
  kvfs_write, kvfs_mount,
}
use nsos.Vfs.Calls.{ramdisk0}
use nsos.Fs.Tables.{
  SuperOperations, DentryOperations, InodeOperations, FileOperations, FileSystemType, set_op,
}

unfoldable pub kvfs_alloc_inode : Env → Run Kernel Ptr
unfolding alloc_inode
kvfs_alloc_inode env = alloc_inode env kvfs

unfoldable pub kvfs_destroy_inode : (ip : Ptr) → Run Kernel (Unit {0})
unfolding pmm_free
kvfs_destroy_inode ip = pmm_free ip

-- 0: a dentry is always valid.
unfoldable pub kvfs_d_revalidate : (dentry : Ptr) → Run Kernel ℕ
kvfs_d_revalidate dentry = pure 0

unfoldable pub kvfs_d_init : (dentry : Ptr) → Run Kernel ℕ
kvfs_d_init dentry = modify (set_op kvfs dentry) >> pure 0

-- NULL: the dentries of this file system are never dropped.
unfoldable pub kvfs_lookup : (ip dp : Ptr) → Run Kernel Ptr
kvfs_lookup ip dp = pure null

unfoldable pub kvfs_rmdir : (ip dp : Ptr) → Run Kernel ℕ
kvfs_rmdir ip dp = pure 0

abbrev pub kvfs_super_operations_obj : Env → SuperOperations
kvfs_super_operations_obj env = record {
  alloc_inode = kvfs_alloc_inode env;
  destroy_inode = kvfs_destroy_inode;
  umount_begin = none;
}

abbrev pub kvfs_dentry_operations_obj : DentryOperations
kvfs_dentry_operations_obj = record { d_revalidate = some kvfs_d_revalidate; d_init = kvfs_d_init }

abbrev pub kvfs_inode_operations_obj : Env → InodeOperations
kvfs_inode_operations_obj env = record {
  lookup = kvfs_lookup;
  create = kvfs_create;
  mkdir = kvfs_mkdir;
  rmdir = kvfs_rmdir;
  rename = none;
  truncate = kvfs_truncate;
  truncate_range = kvfs_truncate_range env;
}

abbrev pub kvfs_file_operations_obj : Env → FileOperations
kvfs_file_operations_obj env = record {
  open_file = λ ip fp. gets (kvfs_open ip);
  llseek = kvfs_llseek;
  read = kvfs_read;
  write = kvfs_write env;
}

abbrev pub kvfs_name : List ℕ
kvfs_name = 107 ∷ 118 ∷ 102 ∷ 115 ∷ []

abbrev pub kvfs_obj : Env → FileSystemType
kvfs_obj env = record {
  name = kvfs_name;
  next = null;
  dev = ramdisk0;
  mount = kvfs_mount env;
  sop = kvfs_super_operations_obj env;
  dop = kvfs_dentry_operations_obj;
  iop = kvfs_inode_operations_obj env;
  fop = kvfs_file_operations_obj env;
}
