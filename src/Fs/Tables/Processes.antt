-- ===== src/Fs/Tables/Processes.antt =====
-- The tables of src/fs/procfs.c, and the entries that only answer.
use nsos.Prelude.{ℕ, ◌-◌, ◌^◌, none, some}
use nsos.Machine.{Ptr, null, Env, Run, pure, modify, gets, ◌>>◌}
use nsos.Fs.State.{Kernel, procfs, pmm_free}
use nsos.Fs.Driver.{alloc_inode}
use nsos.Fs.Procfs.{Report, proc_name, proc_lookup, proc_open, proc_llseek, proc_read, proc_mount}
use nsos.Fs.Tables.{
  SuperOperations, DentryOperations, InodeOperations, FileOperations, FileSystemType, set_op,
}

unfoldable pub proc_alloc_inode : Env → Run Kernel Ptr
unfolding alloc_inode
proc_alloc_inode env = alloc_inode env procfs

unfoldable pub proc_destroy_inode : (ip : Ptr) → Run Kernel (Unit {0})
unfolding pmm_free
proc_destroy_inode ip = pmm_free ip

-- 1: a dentry is never valid.
unfoldable pub proc_d_revalidate : (dentry : Ptr) → Run Kernel ℕ
proc_d_revalidate dentry = pure 1

unfoldable pub proc_d_init : (dentry : Ptr) → Run Kernel ℕ
proc_d_init dentry = modify (set_op procfs dentry) >> pure 0

-- The file system is read-only.
unfoldable pub proc_create : (ip dp : Ptr) → Run Kernel ℕ
proc_create ip dp = pure (2 ^ 32 - 1)

unfoldable pub proc_mkdir : (ip dp : Ptr) → Run Kernel ℕ
proc_mkdir ip dp = pure (2 ^ 32 - 1)

unfoldable pub proc_rmdir : (ip dp : Ptr) → Run Kernel ℕ
proc_rmdir ip dp = pure (2 ^ 32 - 1)

unfoldable pub proc_truncate : (ip : Ptr) → Run Kernel (Unit {0})
proc_truncate ip = pure tt

unfoldable pub proc_truncate_range : (ip : Ptr) (start end : ℕ) → Run Kernel (Unit {0})
proc_truncate_range ip start end = pure tt

unfoldable pub proc_write : (fp buf count : ℕ) → Run Kernel ℕ
proc_write fp buf count = pure (2 ^ 32 - 1)

abbrev pub proc_super_operations_obj : Env → SuperOperations
proc_super_operations_obj env = record {
  alloc_inode = proc_alloc_inode env;
  destroy_inode = proc_destroy_inode;
  umount_begin = none;
}

abbrev pub proc_dentry_operations_obj : DentryOperations
proc_dentry_operations_obj = record { d_revalidate = some proc_d_revalidate; d_init = proc_d_init }

abbrev pub proc_inode_operations_obj : Env → InodeOperations
proc_inode_operations_obj env = record {
  lookup = proc_lookup env;
  create = proc_create;
  mkdir = proc_mkdir;
  rmdir = proc_rmdir;
  rename = none;
  truncate = proc_truncate;
  truncate_range = proc_truncate_range;
}

abbrev pub proc_file_operations_obj : Env → Report → FileOperations
proc_file_operations_obj env report = record {
  open_file = λ ip fp. gets (proc_open ip);
  llseek = proc_llseek;
  read = proc_read report env;
  write = proc_write;
}

abbrev pub procfs_obj : Env → Report → FileSystemType
procfs_obj env report = record {
  name = proc_name;
  next = null;
  dev = proc_name;
  mount = proc_mount env;
  sop = proc_super_operations_obj env;
  dop = proc_dentry_operations_obj;
  iop = proc_inode_operations_obj env;
  fop = proc_file_operations_obj env report;
}
