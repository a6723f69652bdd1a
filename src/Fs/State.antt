-- ===== src/Fs/State.antt =====
-- The objects of the file system layer: include/fs/fs.h, include/fs/dentry.h and include/vfs.h.
--
-- Memory is typed: each kind of object has a store by address, which gives what lies at any
-- address, NULL included; a fresh object holds what lay there. `kmt.bytes` is the memory of the
-- files' contents and of the callers' buffers. An `int` and an `off_t` is its 32-bit pattern. The
-- tables of function pointers are the three drivers' and constant: an object names its driver.
use nsos.Prelude.{ℕ, Bool, true, false, Option, List}
use nsos.Machine.{Ptr, Env, Run, done}
use nsos.Kmt.State.{Thread, Kmt, update, record_alloc, record_free}

-- A driver's `struct file_system_type`, with its tables of operations.
pub data Driver : Type 0 where
  kvfs devfs procfs : Driver

abbrev pub driver_eq : Driver → Driver → Bool
driver_eq kvfs kvfs = true
driver_eq devfs devfs = true
driver_eq procfs procfs = true
driver_eq _ _ = false

-- `struct dentry`; `iname_at` is the address of the characters `iname`.
pub record Dentry : Type 0 where
  pub iname : List ℕ
  pub iname_at : Ptr
  pub inode : Ptr
  pub parent : Ptr
  pub child : Ptr
  pub subdirs : Ptr
  pub mounted : ℕ
  pub isdir : Bool
  pub op : Driver

-- `struct inode`; `fop` is NULL for a directory.
pub record Inode : Type 0 where
  pub uid : ℕ
  pub gid : ℕ
  pub acl : ℕ
  pub ino : ℕ
  pub size : ℕ
  pub rwsem : ℕ
  pub op : Driver
  pub fop : Option Driver

-- `struct vfsmount`
pub record Mount : Type 0 where
  pub count : ℕ
  pub root : Ptr
  pub mountpoint : Ptr
  pub parent : Ptr
  pub next : Ptr
  pub fs : Driver

-- `struct file`
pub record File : Type 0 where
  pub lock : ℕ
  pub dentry : Ptr
  pub inode : Ptr
  pub pos : ℕ
  pub mode : ℕ
  pub count : ℕ
  pub op : Option Driver

-- `struct kvfs_file_node`
pub record FileNode : Type 0 where
  pub inuse : Bool
  pub start : Ptr
  pub end : Ptr

-- The kernel: threads and semaphores, the objects, and the globals of vfs.h and kvfs.c. `dev` is
-- the `dev` field of each driver's `struct file_system_type` and `fs_at` its address, `root_mnt` the
-- address of the mount of the root, `clock_reads` the number of readings of the timer, and `printed` what went to the console, last first.
pub record Kernel : Type 0 where
  pub kmt : Kmt
  pub dentries : Ptr → Dentry
  pub inodes : Ptr → Inode
  pub mounts : Ptr → Mount
  pub files : Ptr → File
  pub kvfs_files : ℕ → FileNode
  pub kvfs_inited : Bool
  pub dev : Driver → List ℕ
  pub root_dentry : Ptr
  pub root_mnt : Ptr
  pub fs_at : Driver → Ptr
  pub mnt_head : Ptr
  pub randseed : ℕ
  pub clock_reads : ℕ
  pub printed : List ℕ

-- `struct nameidata`
pub record NameiData : Type 0 where
  pub dentry : Ptr
  pub mnt : Ptr

abbrev pub sizeof_dentry : ℕ
sizeof_dentry = 32

abbrev pub sizeof_inode : ℕ
sizeof_inode = 132

abbrev pub sizeof_file : ℕ
sizeof_file = 128

abbrev pub sizeof_vfsmount : ℕ
sizeof_vfsmount = 28

-- The thread that runs: `*current`.
abbrev pub current_thread : Kernel → Thread
current_thread s = s.kmt.threads s.kmt.current

abbrev pub put_dentry : Ptr → Dentry → Kernel → Kernel
put_dentry p d s = record s { dentries = update s.dentries p d }

abbrev pub put_inode : Ptr → Inode → Kernel → Kernel
put_inode p i s = record s { inodes = update s.inodes p i }

abbrev pub put_mount : Ptr → Mount → Kernel → Kernel
put_mount p m s = record s { mounts = update s.mounts p m }

abbrev pub put_file : Ptr → File → Kernel → Kernel
put_file p f s = record s { files = update s.files p f }

abbrev pub put_bytes : (ℕ → ℕ) → Kernel → Kernel
put_bytes m s = record s { kmt = record s.kmt { bytes = m } }

-- `pmm->alloc(n)` and `pmm->free(p)`.
unfoldable pub pmm_alloc : Env → ℕ → Run Kernel Ptr
pmm_alloc env n s = done (env.alloc s.kmt.heap n) (record s { kmt = record_alloc n s.kmt })

unfoldable pub pmm_free : Ptr → Run Kernel (Unit {0})
pmm_free p s = done tt (record s { kmt = record_free p s.kmt })
