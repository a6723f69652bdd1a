-- ===== src/Fs/Driver.antt =====
-- Calls through the tables of function pointers of src/fs/kvfs.c, devfs.c and procfs.c: each table
-- entry goes to its driver's function. No table has NULL for `d_revalidate`, `lookup`,
-- `alloc_inode` or `mount`; every table has NULL for `umount_begin`.
use nsos.Prelude.{ℕ, ◌-◌, ◌^◌, Bool, true, none, some, Option, List}
use nsos.Machine.{Ptr, Env, Run, done, stop, fault, pure, modify, ◌>>=◌, ◌>>◌}
use nsos.Fs.State.{
  Driver, kvfs, devfs, procfs, Kernel, put_inode, pmm_alloc, pmm_free, sizeof_inode,
}
use nsos.Fs.Kvfs.{kvfs_create, kvfs_mkdir, kvfs_write, kvfs_llseek, kvfs_read, kvfs_mount}
use nsos.Fs.Devfs.{
  devfs_lookup, devfs_create, devfs_mkdir, devfs_llseek, devfs_read, devfs_write, devfs_mount,
}
use nsos.Fs.Procfs.{Report, proc_read, proc_lookup, proc_llseek, proc_mount}

-- `dop->d_revalidate`: 0 means that the dentry is valid.
abbrev pub d_revalidate : Driver → ℕ
d_revalidate kvfs = 0
d_revalidate devfs = 0
d_revalidate procfs = 1

-- `dop->d_revalidate != NULL`
abbrev pub has_d_revalidate : Driver → Bool
has_d_revalidate kvfs = true
has_d_revalidate devfs = true
has_d_revalidate procfs = true

-- The memory of the new inode keeps what lay there, but for the two tables.
unfoldable pub alloc_inode : Env → Driver → Run Kernel Ptr
alloc_inode env drv = do
  ip ← pmm_alloc env sizeof_inode
  modify (λ k. put_inode ip (record (k.inodes ip) { op = drv; fop = some drv }) k)
  pure ip

unfoldable pub destroy_inode : Ptr → Run Kernel (Unit {0})
destroy_inode ip = pmm_free ip

-- `kvfs_lookup` answers NULL.
unfoldable pub lookup : Env → Driver → (ip dp : Ptr) → Run Kernel Ptr
unfolding devfs_lookup proc_lookup
lookup env kvfs ip dp s = done 0 s
lookup env devfs ip dp s = devfs_lookup ip dp s
lookup env procfs ip dp s = proc_lookup env ip dp s

unfoldable pub create : Driver → (ip dp : Ptr) → Run Kernel ℕ
unfolding kvfs_create devfs_create
create kvfs ip dp s = kvfs_create ip dp s
create devfs ip dp s = devfs_create s
create procfs ip dp s = done (2 ^ 32 - 1) s

unfoldable pub mkdir : Driver → (ip dp : Ptr) → Run Kernel ℕ
unfolding kvfs_mkdir devfs_mkdir
mkdir kvfs ip dp s = kvfs_mkdir ip dp s
mkdir devfs ip dp s = devfs_mkdir s
mkdir procfs ip dp s = done (2 ^ 32 - 1) s

unfoldable pub mount : Env → Driver → List ℕ → Run Kernel Ptr
unfolding kvfs_mount devfs_mount proc_mount
mount env kvfs source = kvfs_mount env source
mount env devfs source = devfs_mount env source
mount env procfs source = proc_mount env source

-- Through a file's `f_op`; a NULL table is a fault.
unfoldable pub read : Env → Report → Option Driver → (fp buf count : ℕ) → Run Kernel ℕ
unfolding kvfs_read devfs_read proc_read
read env report none fp buf count s = stop fault s
read env report (some kvfs) fp buf count s = kvfs_read fp buf count s
read env report (some devfs) fp buf count s = devfs_read env fp buf count s
read env report (some procfs) fp buf count s = proc_read report env fp buf count s

unfoldable pub write : Env → Option Driver → (fp buf count : ℕ) → Run Kernel ℕ
unfolding kvfs_write devfs_write
write env none fp buf count s = stop fault s
write env (some kvfs) fp buf count s = kvfs_write env fp buf count s
write env (some devfs) fp buf count s = devfs_write fp buf count s
write env (some procfs) fp buf count s = done (2 ^ 32 - 1) s

unfoldable pub llseek : Option Driver → (fp offset whence : ℕ) → Run Kernel ℕ
unfolding kvfs_llseek devfs_llseek proc_llseek
llseek none fp offset whence s = stop fault s
llseek (some kvfs) fp offset whence s = kvfs_llseek fp offset whence s
llseek (some devfs) fp offset whence s = devfs_llseek fp offset whence s
llseek (some procfs) fp offset whence s = proc_llseek fp offset whence s
