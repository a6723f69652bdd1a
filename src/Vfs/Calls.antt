-- ===== src/Vfs/Calls.antt =====
-- `vfs_init` and the calls of src/vfs.c that take a path.
--
-- Results are 32-bit patterns. Messages to the system log are left out.
use nsos.Prelude.{ℕ, zero, suc, Bool, not, ◌&&◌, List, [], ◌∷◌, ◌==◌, if◌then◌else◌}
use nsos.Machine.{
  Ptr, null, Env, Run, done, stop, panic, hang, pure, halt, modify, gets, ◌>>=◌, ◌>>◌,
}
use nsos.Acl.{has, check_acl, r_ok, w_ok, acl_default}
use nsos.CString.{add32}
use nsos.Kmt.State.{Kmt, update, minus_one, pred32, scan, max_file_per_thread}
use nsos.Kmt.Semaphore.{kmt_sem_init, kmt_sem_wait, kmt_sem_signal}
use nsos.Fs.State.{
  Driver, kvfs, File, Kernel, NameiData, current_thread, put_dentry, put_mount, put_file, pmm_alloc,
  pmm_free, sizeof_vfsmount, sizeof_file,
}
use nsos.Fs.Driver.{mount}
use nsos.Fs.Path.{path_lookup, make_path, lookup_directory}

-- A number that stands for the address of the static `vfs_sem`.
abbrev pub vfs_sem : Ptr
vfs_sem = 1

abbrev pub with_kmt : Kernel → Kmt → Kernel
with_kmt s k = record s { kmt = k }

unfoldable pub sem_wait : Env → Run Kernel (Unit {0})
sem_wait env s = elim (kmt_sem_wait env vfs_sem s.kmt) [
  | done u k ↦ done tt (with_kmt s k)
  | stop why k ↦ stop why (with_kmt s k)
]

unfoldable pub sem_signal : Env → Run Kernel (Unit {0})
sem_signal env s = done tt (with_kmt s (kmt_sem_signal env vfs_sem s.kmt))

-- "ramdisk0"
abbrev pub ramdisk0 : List ℕ
ramdisk0 = 114 ∷ 97 ∷ 109 ∷ 100 ∷ 105 ∷ 115 ∷ 107 ∷ 48 ∷ []

unfoldable pub vfs_init : Env → Run Kernel (Unit {0})
vfs_init env = do
  modify (λ s. with_kmt s (kmt_sem_init vfs_sem 1 s.kmt))
  root ← mount env kvfs ramdisk0
  modify (λ s. record s { root_dentry = root })
  let build = modify (λ s.
      record (put_mount s.root_mnt
        (record {
          count = 1;
          root = root;
          mountpoint = root;
          parent = null;
          next = null;
          fs = kvfs;
        })
        s) { mnt_head = s.root_mnt })
  if root == null then halt panic else build

-- The mount whose root is `d`, from `mntit` on; NULL if there is none.
unfoldable pub find_root : ℕ → (mntit d : Ptr) → Run Kernel Ptr
find_root zero mntit d s = stop hang s
find_root (suc fuel) mntit d s =
    let rest = find_root fuel (s.mounts mntit).next d s in
    if mntit == null then done null s else if (s.mounts mntit).root == d then done mntit s else rest

-- The mount before `mntit` in the chain from `m` on.
unfoldable pub find_before : ℕ → (m mntit : Ptr) → Run Kernel Ptr
find_before zero m mntit s = stop hang s
find_before (suc fuel) m mntit s =
    let rest = find_before fuel (s.mounts m).next mntit s in
    if (s.mounts m).next == mntit then done m s else rest

-- Neither the user nor the group is root's.
abbrev pub is_stranger : Kernel → Bool
is_stranger s = let t = current_thread s in not (t.uid == 0) && not (t.gid == 0)

abbrev pub refuses : Ptr → (flags : ℕ) → Kernel → Bool
refuses d flags s =
    let t = current_thread s in
    let i = s.inodes (s.dentries d).inode in
    not (check_acl t.uid t.gid i.uid i.gid i.acl flags == 0)

abbrev pub new_file : (d : Ptr) → (flags : ℕ) → Kernel → File
new_file d flags s =
    let ip = (s.dentries d).inode in
    record {
      lock = 0;
      dentry = d;
      inode = ip;
      pos = 0;
      mode = flags;
      count = 0;
      op = (s.inodes ip).fop;
    }

abbrev pub set_descriptor : (i p : Ptr) → Kernel → Kernel
set_descriptor i p s =
    let t = current_thread s in
    record s {
      kmt = record s.kmt {
        threads =
            update s.kmt.threads s.kmt.current
              (record t { file_descriptors = update t.file_descriptors i p });
      };
    }

-- The first free descriptor, or 256.
abbrev pub free_descriptor : Kernel → ℕ
free_descriptor s = scan (λ i. (current_thread s).file_descriptors i == null) max_file_per_thread 0

-- `kmt->sem_signal(&vfs_sem); return r;`
abbrev pub leave : Env → ℕ → Run Kernel ℕ
leave env r = sem_signal env >> pure r

module _ (env : Env) (fuel : ℕ) where
  unfoldable pub vfs_access : List ℕ → (mode : ℕ) → Run Kernel ℕ
  vfs_access path mode = do
    sem_wait env
    (d, nd) ← path_lookup env fuel path 0
    no_read ← gets (λ s. has mode r_ok && refuses d r_ok s)
    no_write ← gets (λ s. has mode w_ok && refuses d w_ok s)
    if d == null
        then leave env minus_one
        else if mode == 0
        then leave env 0
        else if no_read
        then leave env minus_one
        else if no_write
        then leave env minus_one
        else leave env 0

  -- The part of `vfs_mount` behind its checks, with `d` the mount point.
  unfoldable pub do_mount : Driver → (d : Ptr) → NameiData → Run Kernel ℕ
  do_mount fs d nd = do
    source ← gets (λ s. s.dev fs)
    root ← mount env fs source
    let attach = (do
      m ← pmm_alloc env sizeof_vfsmount
      modify (λ s.
          record (put_mount m
            (record {
              count = 1;
              root = root;
              mountpoint = d;
              parent = nd.mnt;
              next = s.mnt_head;
              fs = fs;
            })
            s) { mnt_head = m })
      modify
          (λ s. put_dentry d (record (s.dentries d) { mounted = add32 (s.dentries d).mounted 1 }) s)
      leave env 0)
    if root == null then leave env minus_one else attach

  unfoldable pub vfs_mount : List ℕ → Driver → Run Kernel ℕ
  unfolding do_mount
  vfs_mount path fs = do
    sem_wait env
    stranger ← gets is_stranger
    let go = (do
      (d, nd) ← path_lookup env fuel path 0
      isdir ← gets (λ s. (s.dentries d).isdir)
      if d == null
          then leave env minus_one
          else if isdir
          then do_mount fs d nd
          else leave env minus_one)
    if stranger then leave env minus_one else go

  -- Take the mount `m` out of the chain.
  unfoldable pub drop_mount : Ptr → Run Kernel (Unit {0})
  unfolding find_before
  drop_mount m = do
    head ← gets (λ s. s.mnt_head)
    after ← gets (λ s. (s.mounts m).next)
    let relink = (do
      b ← find_before fuel head m
      modify (λ s. put_mount b (record (s.mounts b) { next = after }) s))
    if m == head then modify (λ s. record s { mnt_head = after }) else relink

  -- Failures answer 1 here.
  unfoldable pub vfs_unmount : List ℕ → Run Kernel ℕ
  unfolding find_root drop_mount
  vfs_unmount path = do
    sem_wait env
    stranger ← gets is_stranger
    let detach = λ (m : Ptr). (do
      p ← gets (λ s. (s.mounts m).mountpoint)
      modify
          (λ s. put_dentry p (record (s.dentries p) { mounted = pred32 (s.dentries p).mounted }) s)
      drop_mount m
      obj ← gets (λ s. s.fs_at (s.mounts m).fs)
      pmm_free obj
      pmm_free m
      leave env 0)
    let go = (do
      (d, nd) ← path_lookup env fuel path 0
      head ← gets (λ s. s.mnt_head)
      let search = (do m ← find_root fuel head d; if m == null then leave env 1 else detach m)
      if d == null then leave env 1 else search)
    if stranger then leave env 1 else go

  unfoldable pub vfs_mkdir : List ℕ → (mode : ℕ) → Run Kernel ℕ
  vfs_mkdir path mode = do
    sem_wait env
    (d, nd) ← path_lookup env fuel path 0
    let make = (do
      (d', nd') ← make_path env fuel path lookup_directory mode
      if d' == null then leave env minus_one else leave env 0)
    if d == null then make else leave env minus_one

  -- With no descriptor free the new file is not given back.
  unfoldable pub vfs_open : List ℕ → (flags : ℕ) → Run Kernel ℕ
  vfs_open path flags = do
    sem_wait env
    (d, nd) ← make_path env fuel path 0 acl_default
    let go = (do
      p ← pmm_alloc env sizeof_file
      modify (λ s. put_file p (new_file d flags s) s)
      i ← gets free_descriptor
      if i == max_file_per_thread
          then leave env minus_one
          else (modify (set_descriptor i p) >> leave env i))
    if d == null then leave env minus_one else go
