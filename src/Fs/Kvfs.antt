-- ===== src/Fs/Kvfs.antt =====
-- The ram file system, src/fs/kvfs.c.
--
-- `kvfs_d_revalidate`, `kvfs_d_init`, `kvfs_lookup` and `kvfs_rmdir` do nothing but answer.
pub mod Write
pub mod Contents
pub mod Read
pub mod Back
pub mod Create
mod Tests
use nsos.Prelude.{
  ℕ, zero, suc, ◌+◌, ◌-◌, ◌*◌, ◌%◌, ◌^◌, ◌<◌, Bool, true, false, not, ◌&&◌, ◌||◌, none, some, List,
  [], ◌∷◌, ◌==◌, ltb, leb, if◌then◌else◌, get_or,
}
use nsos.Machine.{Ptr, null, Env, Run, Outcome, done, pure, modify, gets, ◌>>=◌, ◌>>◌}
use nsos.CString.{add32, sub32, strlen, strncmp, Memory, poke, is_negative, memset, memcpy}
use nsos.Acl.{has}
use nsos.Kmt.State.{update, scan}
use nsos.Fs.Root.{build_root}
use nsos.Fs.File.{llseek, copy_out, end_line}
use nsos.Fs.State.{
  Driver, driver_eq, kvfs, Dentry, Inode, File, FileNode, Kernel, put_dentry, put_inode, put_file,
  put_bytes, pmm_alloc, pmm_free, sizeof_inode, sizeof_dentry,
}

abbrev pub kvfs_max_file : ℕ
kvfs_max_file = 1024

-- `(int)-1`, the inode number of a directory
abbrev pub no_ino : ℕ
no_ino = 2 ^ 32 - 1

abbrev pub o_wronly : ℕ
o_wronly = 2

abbrev pub o_append : ℕ
o_append = 0x10

abbrev pub put_node : ℕ → FileNode → Kernel → Kernel
put_node i n s = record s { kvfs_files = update s.kvfs_files i n }

-- The first entry of `kvfs_files` that is not in use, or 1024.
abbrev pub free_node : Kernel → ℕ
free_node s = scan (λ i. not (s.kvfs_files i).inuse) kvfs_max_file 0

unfoldable pub kvfs_create : (ip dp : Ptr) → Run Kernel ℕ
kvfs_create ip dp s =
    let i = free_node s in
    if leb kvfs_max_file i
    then done 1 s
    else done 0 (
        put_dentry dp (record (s.dentries dp) { inode = ip; isdir = false })
          (put_inode ip
            (record (s.inodes ip) { ino = i; size = 0; rwsem = 1; op = kvfs; fop = some kvfs })
            (put_node i (record { inuse = true; start = null; end = null }) s)))

unfoldable pub kvfs_mkdir : (ip dp : Ptr) → Run Kernel ℕ
kvfs_mkdir ip dp s = done 0 (
    put_dentry dp (record (s.dentries dp) { inode = ip; isdir = true })
      (put_inode ip
        (record (s.inodes ip) { ino = no_ino; size = 0; rwsem = 1; op = kvfs; fop = none }) s))

-- 1 for a directory.
unfoldable pub kvfs_open : Ptr → Kernel → ℕ
kvfs_open ip s = if (s.inodes ip).ino == no_ino then 1 else 0

unfoldable pub kvfs_truncate : Ptr → Run Kernel (Unit {0})
kvfs_truncate ip s =
    let node = s.kvfs_files (s.inodes ip).ino in
    let cut = λ (k : Kernel). put_inode ip (record (k.inodes ip) { size = 0 }) k in
    if node.start == null then done tt (cut s) else (pmm_free node.start >> modify cut) s

-- The signed comparison of two patterns.
abbrev pub lt_signed : ℕ → ℕ → Bool
lt_signed a b = ltb (add32 a (2 ^ 31)) (add32 b (2 ^ 31))

-- From the second `memcpy` of `kvfs_write` on.
unfoldable pub put_data : (fp buf count newstart newend : ℕ) → Run Kernel ℕ
put_data fp buf count newstart newend s =
    let file = s.files fp in
    let inode = s.inodes file.inode in
    let length = add32 file.pos count in
    let s₁ = put_bytes (memcpy (add32 newstart file.pos) buf count s.kmt.bytes) s in
    let s₂ =
      put_inode file.inode
        (record inode { size = if ltb inode.size length then length else inode.size }) s₁ in
    let s₃ =
      put_node inode.ino (record (s.kvfs_files inode.ino) { start = newstart; end = newend }) s₂ in
    done count (put_file fp (record file { pos = length }) s₃)

-- The position of a write: `O_APPEND` moves it to the end.
abbrev pub write_pos : Ptr → Kernel → ℕ
write_pos fp s =
    let file = s.files fp in if has file.mode o_append then (s.inodes file.inode).size else file.pos

module _ (env : Env) where
  unfoldable pub kvfs_truncate_range : (ip : Ptr) (start end : ℕ) → Run Kernel (Unit {0})
  kvfs_truncate_range ip start end s =
      let inode = s.inodes ip in
      let node = s.kvfs_files inode.ino in
      let size = sub32 inode.size (sub32 end start) in
      let cut : Run Kernel (Unit {0}) = do
        modify (put_inode ip (record inode { size = size }))
        newstart ← pmm_alloc env size
        modify (λ k. put_bytes (memcpy newstart node.start start k.kmt.bytes) k)
        modify (λ k.
            put_bytes
              (memcpy (add32 newstart start) (add32 node.start end)
                (sub32 (sub32 (sub32 node.end node.start) end) 1) k.kmt.bytes)
              k)
        pmm_free node.start
        modify (λ k.
            put_node inode.ino
              (record (k.kvfs_files inode.ino) { start = newstart; end = add32 newstart size }) k)
      in if lt_signed end start || not (lt_signed end inode.size) then done tt s else cut s

  -- The file's contents are copied to a new place of `length` bytes, zero behind the old end.
  unfoldable pub enlarge : (size length : ℕ) → FileNode → Run Kernel Ptr
  enlarge size length old = do
    newstart ← pmm_alloc env length
    modify (λ k. put_bytes (memset newstart 0 length k.kmt.bytes) k)
    let move = (do
      modify (λ k. put_bytes (memcpy newstart old.start size k.kmt.bytes) k)
      pmm_free old.start
      pure newstart)
    if old.start == null then pure newstart else move

  unfoldable pub kvfs_write : (fp buf count : ℕ) → Run Kernel ℕ
  unfolding enlarge put_data
  kvfs_write fp buf count s₀ =
      let s = put_file fp (record (s₀.files fp) { pos = write_pos fp s₀ }) s₀ in
      let size = (s₀.inodes (s₀.files fp).inode).size in
      let node = s₀.kvfs_files (s₀.inodes (s₀.files fp).inode).ino in
      let length = add32 (write_pos fp s₀) count in
      let longer : Run Kernel ℕ = enlarge size length node >>= λ newstart.
      put_data fp buf count newstart (add32 newstart length) in
      if not (has (s₀.files fp).mode o_wronly)
      then done 0 s
      else if ltb size length
      then longer s
      else put_data fp buf count node.start node.end s

unfoldable pub kvfs_llseek : (fp offset whence : ℕ) → Run Kernel ℕ
unfolding llseek
kvfs_llseek = llseek

unfoldable pub kvfs_read : (fp buf count : ℕ) → Run Kernel ℕ
unfolding copy_out
kvfs_read fp buf count s =
    let file = s.files fp in
    let node = s.kvfs_files (s.inodes file.inode).ino in
    let (n, m) =
      end_line buf count (copy_out count buf (add32 node.start file.pos) node.end 0 s.kmt.bytes) in
    done n (put_bytes m s)

-- "ramdisk" and a digit. What stands behind the digit is not looked at.
abbrev pub ramdisk : List ℕ
ramdisk = 114 ∷ 97 ∷ 109 ∷ 100 ∷ 105 ∷ 115 ∷ 107 ∷ []

unfoldable pub is_ramdisk : List ℕ → Bool
unfolding strncmp
is_ramdisk source =
    let c = get_or source 7 0 in
    if strncmp source ramdisk (strlen ramdisk) == 0 then leb 48 c && leb c 57 else false

abbrev pub forget_nodes : Kernel → Kernel
forget_nodes s = if s.kvfs_inited then s else record s {
  kvfs_inited = true;
  kvfs_files = λ i.
      if ltb i kvfs_max_file
      then record { inuse = false; start = null; end = null }
      else s.kvfs_files i;
}

unfoldable pub kvfs_mount : Env → List ℕ → Run Kernel Ptr
unfolding build_root is_ramdisk
kvfs_mount env source =
    if is_ramdisk source
    then (build_root env no_ino 0x755 kvfs source >>= λ p. modify forget_nodes >> pure p)
    else pure null
