-- ===== src/Vfs/Descriptors.antt =====
-- The calls of src/vfs.c that take a file descriptor.
use nsos.Prelude.{ℕ, zero, suc, ◌+◌, Bool, ◌||◌, List, ◌∷◌, ◌==◌, ltb, if◌then◌else◌}
use nsos.Machine.{Ptr, null, Env, Run, pure, modify, gets, ◌>>=◌, ◌>>◌}
use nsos.CString.{Memory}
use nsos.Kmt.State.{minus_one}
use nsos.Fs.State.{Kernel, current_thread, pmm_free}
use nsos.Fs.Procfs.{Report}
use nsos.Fs.Driver.{read, write, llseek}
use nsos.Vfs.Calls.{sem_wait, sem_signal, set_descriptor}

-- stdin, stdout or stderr
abbrev pub is_standard : ℕ → Bool
is_standard fd = ltb fd 3

abbrev pub descriptor : ℕ → Kernel → Ptr
descriptor fd s = (current_thread s).file_descriptors fd

-- `while (nbyte-- != 0) printf("%c", *(char *)(buf++));`
unfoldable pub print_bytes : ℕ → (buf : Ptr) → Memory → List ℕ → List ℕ
print_bytes zero buf m out = out
print_bytes (suc n) buf m out = print_bytes n (buf + 1) m (m buf ∷ out)

module _ (env : Env) where
  unfoldable pub vfs_read : Report → (fd buf nbyte : ℕ) → Run Kernel ℕ
  vfs_read report fd buf nbyte = do
    sem_wait env
    fp ← gets (descriptor fd)
    op ← gets (λ s. (s.files fp).op)
    n ← (if is_standard fd then pure 0 else read env report op fp buf nbyte)
    sem_signal env
    pure n

  unfoldable pub vfs_write : (fd buf nbyte : ℕ) → Run Kernel ℕ
  unfolding print_bytes
  vfs_write fd buf nbyte = do
    sem_wait env
    fp ← gets (descriptor fd)
    op ← gets (λ s. (s.files fp).op)
    let print = modify (λ s. record s { printed = print_bytes nbyte buf s.kmt.bytes s.printed })
    n ←
        (if fd == 1 || fd == 2
          then print >> pure nbyte
          else if fd == 0
          then pure 0
          else write env op fp buf nbyte)
    sem_signal env
    pure n

  unfoldable pub vfs_lseek : (fd offset whence : ℕ) → Run Kernel ℕ
  vfs_lseek fd offset whence = do
    sem_wait env
    fp ← gets (descriptor fd)
    op ← gets (λ s. (s.files fp).op)
    pos ← (if is_standard fd then pure 0 else llseek op fp offset whence)
    sem_signal env
    pure pos

-- This call takes no semaphore.
unfoldable pub vfs_close : (fd : ℕ) → Run Kernel ℕ
vfs_close fd = do
  p ← gets (descriptor fd)
  let close = pmm_free p >> (modify (set_descriptor fd null) >> pure 0)
  if is_standard fd then pure minus_one else if p == null then pure minus_one else close
