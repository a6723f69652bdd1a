-- ===== src/Fs/Devfs.antt =====
-- The device file system, src/fs/devfs.c: /dev/null, /dev/random and /dev/zero.
--
-- `devfs_create`, `devfs_mkdir` and `devfs_rmdir` answer -1, and the two truncations do nothing.
use nsos.Prelude.{
  ℕ, zero, suc, ◌+◌, ◌-◌, ◌*◌, ◌%◌, ◌^◌, false, ◌&&◌, ◌||◌, List, [], ◌∷◌, ◌==◌, if◌then◌else◌,
}
use nsos.Machine.{Ptr, null, Env, Run, done, pure}
use nsos.CString.{strlen, strcmp, strncmp, Memory, poke}
use nsos.Prelude.{bit_and}
use nsos.Fs.Root.{build_root}
use nsos.Fs.File.{llseek}
use nsos.Fs.State.{devfs, Inode, Kernel, put_dentry, put_inode, put_bytes}

abbrev pub null_ino : ℕ
null_ino = 0

abbrev pub random_ino : ℕ
random_ino = 1

abbrev pub zero_ino : ℕ
zero_ino = 2

-- `ACL_OWNER_R | ACL_GROUP_R | ACL_OTHER_R`
abbrev pub read_only : ℕ
read_only = 0x0444

-- "null", "random", "zero" and "udev"
abbrev pub null_name : List ℕ
null_name = 110 ∷ 117 ∷ 108 ∷ 108 ∷ []

abbrev pub random_name : List ℕ
random_name = 114 ∷ 97 ∷ 110 ∷ 100 ∷ 111 ∷ 109 ∷ []

abbrev pub zero_name : List ℕ
zero_name = 122 ∷ 101 ∷ 114 ∷ 111 ∷ []

abbrev pub udev : List ℕ
udev = 117 ∷ 100 ∷ 101 ∷ 118 ∷ []

-- `ip` becomes the inode of the file `dp`.
abbrev pub attach : (ip dp : Ptr) → Inode → Kernel → Kernel
attach ip dp inode s =
    put_dentry dp (record (s.dentries dp) { inode = ip; isdir = false }) (put_inode ip inode s)

-- NULL if the name is none of the three, or `dp` does not stand in the root.
unfoldable pub devfs_lookup : (ip dp : Ptr) → Run Kernel Ptr
unfolding strcmp
devfs_lookup ip dp s =
    let d = s.dentries dp in
    let inode = s.inodes ip in
    if (s.dentries d.parent).parent == d.parent
    then if strcmp d.iname null_name == 0
      then done dp (attach ip dp (record inode { ino = null_ino }) s)
      else if strcmp d.iname random_name == 0
      then done dp (attach ip dp (record inode { ino = random_ino; acl = read_only }) s)
      else if strcmp d.iname zero_name == 0
      then done dp (attach ip dp (record inode { ino = zero_ino; acl = read_only }) s)
      else done null s
    else done null s

unfoldable pub devfs_create : Run Kernel ℕ
devfs_create s = done (2 ^ 32 - 1) s

unfoldable pub devfs_mkdir : Run Kernel ℕ
devfs_mkdir s = done (2 ^ 32 - 1) s

unfoldable pub devfs_open : Ptr → Kernel → ℕ
devfs_open ip s =
    let ino = (s.inodes ip).ino in
    if ino == null_ino || ino == random_ino || ino == zero_ino then 0 else 2 ^ 32 - 1

unfoldable pub devfs_llseek : (fp offset whence : ℕ) → Run Kernel ℕ
unfolding llseek
devfs_llseek = llseek

-- src/nslibc/stdlib.c: the next value of the generator, which is also its new state.
unfoldable pub rand : ℕ → ℕ
rand seed = bit_and ((seed * 1103515245 + 12345) % 2 ^ 32) 0x7fffffff

-- The rounds of the `while` of `/dev/random`: the seed and the memory after them.
unfoldable pub fill_random : ℕ → (buf readcount seed : ℕ) → Memory → ℕ × Memory
unfolding rand
fill_random zero buf readcount seed m = (seed, m)
fill_random (suc n) buf readcount seed m =
    fill_random n buf (readcount + 1) (rand seed) (poke m (buf + readcount) (rand seed % 256))

unfoldable pub fill_zero : ℕ → (buf readcount : ℕ) → Memory → Memory
fill_zero zero buf readcount m = m
fill_zero (suc n) buf readcount m = fill_zero n buf (readcount + 1) (poke m (buf + readcount) 0)

-- `f_dentry->d_inode->i_ino`
abbrev pub device_of : Ptr → Kernel → ℕ
device_of fp s = (s.inodes (s.dentries (s.files fp).dentry).inode).ino

unfoldable pub devfs_read : Env → (fp buf count : ℕ) → Run Kernel ℕ
unfolding fill_random fill_zero
devfs_read env fp buf count s =
    let (seed, m) = fill_random count buf 0 (env.uptime s.clock_reads) s.kmt.bytes in
    if device_of fp s == null_ino
    then done 0 s
    else if device_of fp s == random_ino
    then done count (put_bytes m (record s { randseed = seed; clock_reads = s.clock_reads + 1 }))
    else if device_of fp s == zero_ino
    then done count (put_bytes (fill_zero count buf 0 s.kmt.bytes) s)
    else done (2 ^ 32 - 1) s

unfoldable pub devfs_write : (fp buf count : ℕ) → Run Kernel ℕ
devfs_write fp buf count s =
    if device_of fp s == null_ino || device_of fp s == random_ino || device_of fp s == zero_ino
    then done count s
    else done (2 ^ 32 - 1) s

unfoldable pub devfs_mount : Env → List ℕ → Run Kernel Ptr
unfolding strncmp build_root
devfs_mount env source =
    if strlen source == strlen udev && strncmp source udev (strlen udev) == 0
    then build_root env (2 ^ 32 - 1) 0x0666 devfs source
    else pure null
