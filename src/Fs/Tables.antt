-- ===== src/Fs/Tables.antt =====
-- The tables of function pointers of include/fs/fs.h and include/fs/dentry.h.
--
-- A field that the kernel compares with NULL, or that every table leaves NULL, is an option. The
-- tables of src/fs/kvfs.c, devfs.c and procfs.c are in Ram, Devices and Processes.
pub mod Ram
pub mod Devices
pub mod Processes
pub mod Dispatch
use nsos.Prelude.{ℕ, Option, List}
use nsos.Machine.{Ptr, Run}
use nsos.Fs.State.{Driver, Kernel, put_dentry}

-- `struct super_operations`
pub record SuperOperations : Type 0 where
  pub alloc_inode : Run Kernel Ptr
  pub destroy_inode : (ip : Ptr) → Run Kernel (Unit {0})
  pub umount_begin : Option (Run Kernel (Unit {0}))

-- `struct dentry_operations`
pub record DentryOperations : Type 0 where
  pub d_revalidate : Option ((dentry : Ptr) → Run Kernel ℕ)
  pub d_init : (dentry : Ptr) → Run Kernel ℕ

-- `struct inode_operations`
pub record InodeOperations : Type 0 where
  pub lookup : (ip dp : Ptr) → Run Kernel Ptr
  pub create : (ip dp : Ptr) → Run Kernel ℕ
  pub mkdir : (ip dp : Ptr) → Run Kernel ℕ
  pub rmdir : (ip dp : Ptr) → Run Kernel ℕ
  pub rename : Option ((old_ip old_dp new_ip new_dp : Ptr) → Run Kernel ℕ)
  pub truncate : (ip : Ptr) → Run Kernel (Unit {0})
  pub truncate_range : (ip : Ptr) (start end : ℕ) → Run Kernel (Unit {0})

-- `struct file_operations`
pub record FileOperations : Type 0 where
  pub open_file : (ip fp : Ptr) → Run Kernel ℕ
  pub llseek : (fp offset whence : ℕ) → Run Kernel ℕ
  pub read : (fp buf count : ℕ) → Run Kernel ℕ
  pub write : (fp buf count : ℕ) → Run Kernel ℕ

-- `struct file_system_type`
pub record FileSystemType : Type 0 where
  pub name : List ℕ
  pub next : Ptr
  pub dev : List ℕ
  pub mount : (source : List ℕ) → Run Kernel Ptr
  pub sop : SuperOperations
  pub dop : DentryOperations
  pub iop : InodeOperations
  pub fop : FileOperations

-- `dentry->d_op = ...`
abbrev pub set_op : Driver → Ptr → Kernel → Kernel
set_op drv p s = put_dentry p (record (s.dentries p) { op = drv }) s
