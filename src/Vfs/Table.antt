-- ===== src/Vfs/Table.antt =====
-- The module table of src/vfs.c, and calls through it one after another.
use nsos.Prelude.{ℕ, List, [], ◌∷◌}
use nsos.Machine.{Env, Run, pure, ◌>>=◌}
use nsos.Fs.State.{Kernel, Driver}
use nsos.Fs.Procfs.{Report}
use nsos.Vfs.Calls.{vfs_access, vfs_mount, vfs_unmount, vfs_mkdir, vfs_open}
use nsos.Vfs.Descriptors.{vfs_read, vfs_write, vfs_lseek, vfs_close}

-- The entries of the module table `vfs`, but for `init`.
pub data Call : Type 0 where
  access_call : (path : List ℕ) (mode : ℕ) → Call
  mount_call : (path : List ℕ) → Driver → Call
  unmount_call : (path : List ℕ) → Call
  open_call : (path : List ℕ) (flags : ℕ) → Call
  mkdir_call : (path : List ℕ) (mode : ℕ) → Call
  read_call : (fd buf nbyte : ℕ) → Call
  write_call : (fd buf nbyte : ℕ) → Call
  lseek_call : (fd offset whence : ℕ) → Call
  close_call : (fd : ℕ) → Call

module _ (env : Env) (report : Report) (fuel : ℕ) where
  unfoldable pub vfs_call : Call → Run Kernel ℕ
  vfs_call (access_call path mode) = vfs_access env fuel path mode
  vfs_call (mount_call path fs) = vfs_mount env fuel path fs
  vfs_call (unmount_call path) = vfs_unmount env fuel path
  vfs_call (open_call path flags) = vfs_open env fuel path flags
  vfs_call (mkdir_call path mode) = vfs_mkdir env fuel path mode
  vfs_call (read_call fd buf nbyte) = vfs_read env report fd buf nbyte
  vfs_call (write_call fd buf nbyte) = vfs_write env fd buf nbyte
  vfs_call (lseek_call fd offset whence) = vfs_lseek env fd offset whence
  vfs_call (close_call fd) = vfs_close fd

  -- Calls one after another.
  unfoldable pub vfs_calls : List Call → Run Kernel (List ℕ)
  unfolding vfs_call
  vfs_calls [] = pure []
  vfs_calls (c ∷ cs) = do r ← vfs_call c; rs ← vfs_calls cs; pure (r ∷ rs)
