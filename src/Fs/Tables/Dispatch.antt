-- ===== src/Fs/Tables/Dispatch.antt =====
-- The calls of Fs.Driver go to the tables.
use nsos.Prelude.{Bool, true, false, ◌≡◌, refl, some, none, Option}
use nsos.Machine.{Env, pure}
use nsos.Fs.State.{Driver, kvfs, devfs, procfs}
use nsos.Fs.Procfs.{Report}
use nsos.Fs.Driver.{
  d_revalidate, has_d_revalidate, alloc_inode, destroy_inode, lookup, create, mkdir, mount, read,
  write, llseek,
}
use nsos.Fs.Tables.{FileSystemType}
use nsos.Fs.Tables.Ram.{
  kvfs_obj, kvfs_alloc_inode, kvfs_destroy_inode, kvfs_lookup, kvfs_d_revalidate,
}
use nsos.Fs.Tables.Devices.{devfs_obj, devfs_alloc_inode, devfs_destroy_inode, devfs_d_revalidate}
use nsos.Fs.Tables.Processes.{
  procfs_obj, proc_alloc_inode, proc_destroy_inode, proc_create, proc_mkdir, proc_write,
  proc_d_revalidate,
}

module _ (env : Env) (report : Report) where
  -- The object that a driver stands for.
  abbrev pub object : Driver → FileSystemType
  object kvfs = kvfs_obj env
  object devfs = devfs_obj env
  object procfs = procfs_obj env report

  abbrev is_some {ℓ} : {A : Type ℓ} → Option A → Bool
  is_some none = false
  is_some (some a) = true

  super-object :
      (drv : Driver)
      → (alloc_inode env drv ≡ (object drv).sop.alloc_inode)
        × (destroy_inode ≡ (object drv).sop.destroy_inode)
  unfolding kvfs_alloc_inode devfs_alloc_inode proc_alloc_inode kvfs_destroy_inode
      devfs_destroy_inode proc_destroy_inode destroy_inode
  super-object kvfs = (refl, refl)
  super-object devfs = (refl, refl)
  super-object procfs = (refl, refl)

  dentry-object :
      (drv : Driver)
      → (has_d_revalidate drv ≡ is_some (object drv).dop.d_revalidate)
        × ((object drv).dop.d_revalidate ≡ some (λ p. pure (d_revalidate drv)))
  unfolding kvfs_d_revalidate devfs_d_revalidate proc_d_revalidate
  dentry-object kvfs = (refl, refl)
  dentry-object devfs = (refl, refl)
  dentry-object procfs = (refl, refl)

  inode-object :
      (drv : Driver)
      → (lookup env drv ≡ (object drv).iop.lookup)
        × (create drv ≡ (object drv).iop.create)
        × (mkdir drv ≡ (object drv).iop.mkdir)
        × (mount env drv ≡ (object drv).mount)
  unfolding lookup create mkdir mount kvfs_lookup proc_create proc_mkdir
  inode-object kvfs = (refl, refl, refl, refl)
  inode-object devfs = (refl, refl, refl, refl)
  inode-object procfs = (refl, refl, refl, refl)

  file-object :
      (drv : Driver)
      → (read env report (some drv) ≡ (object drv).fop.read)
        × (write env (some drv) ≡ (object drv).fop.write)
        × (llseek (some drv) ≡ (object drv).fop.llseek)
  unfolding read write llseek proc_write
  file-object kvfs = (refl, refl, refl)
  file-object devfs = (refl, refl, refl)
  file-object procfs = (refl, refl, refl)
