-- ===== src/Fs/Root.antt =====
-- The root inode and dentry that the `mount` of kvfs.c, devfs.c and procfs.c builds alike.
use nsos.Prelude.{ℕ, ◌+◌, true, none, List, [], if◌then◌else◌}
use nsos.Machine.{Ptr, null, Env, Run, pure, modify, ◌>>=◌, ◌>>◌}
use nsos.CString.{strlen}
use nsos.Fs.State.{
  Driver, driver_eq, Dentry, Inode, Kernel, put_dentry, put_inode, pmm_alloc, sizeof_inode,
  sizeof_dentry,
}

-- The tables of a file system's root, which every driver builds alike.
abbrev pub root_inode : (ino acl : ℕ) → Driver → Inode → Inode
root_inode ino acl drv old = record old {
  uid = 0;
  gid = 0;
  acl = acl;
  ino = ino;
  op = drv;
  fop = none;
}

abbrev pub root_dentry_at : (p ip : Ptr) → Driver → Dentry → Dentry
root_dentry_at p ip drv old = record old {
  iname = [];
  inode = ip;
  parent = p;
  subdirs = null;
  mounted = 0;
  isdir = true;
  op = drv;
}

abbrev pub set_dev : Driver → List ℕ → (Driver → List ℕ) → Driver → List ℕ
set_dev drv source old d = if driver_eq drv d then source else old d

-- The part of every driver's `mount` behind the check of the source.
unfoldable pub build_root : Env → (ino acl : ℕ) → Driver → List ℕ → Run Kernel Ptr
build_root env ino acl drv source = do
  ip ← pmm_alloc env sizeof_inode
  p ← pmm_alloc env sizeof_dentry
  modify (λ k. put_inode ip (root_inode ino acl drv (k.inodes ip)) k)
  modify (λ k. put_dentry p (root_dentry_at p ip drv (k.dentries p)) k)
  dev ← pmm_alloc env (strlen source + 1)
  modify (λ k. record k { dev = set_dev drv source k.dev })
  pure p
