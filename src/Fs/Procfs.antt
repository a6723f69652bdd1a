-- ===== src/Fs/Procfs.antt =====
-- The process file system, src/fs/procfs.c.
--
-- `proc_create`, `proc_mkdir`, `proc_rmdir` and `proc_write` answer -1, and the two truncations do
-- nothing.
pub mod Pid
mod Tests
use nsos.Prelude.{
  ℕ, zero, suc, ◌+◌, ◌-◌, ◌*◌, ◌%◌, ◌^◌, ◌<◌, Bool, true, false, not, ◌&&◌, ◌||◌, Option, none,
  some, List, [], ◌∷◌, ◌==◌, ltb, leb, if◌then◌else◌, get_or, ◌++◌,
}
use nsos.Machine.{
  Ptr, null, HeapCall, Env, Run, Outcome, done, stop, pure, modify, gets, ◌>>=◌, ◌>>◌,
}
use nsos.CString.{add32, sub32, strlen, strcmp, strncmp, Memory, poke, is_negative, memset, memcpy}
use nsos.Lock.{thread_lock}
use nsos.Kmt.State.{kernel_max_thread, kmt_spin_lock, kmt_spin_unlock}
use nsos.Fs.Root.{build_root}
use nsos.Fs.File.{llseek, copy_out, end_line}
use nsos.Fs.Devfs.{attach, read_only}
use nsos.Fs.State.{
  Driver, driver_eq, kvfs, devfs, procfs, Dentry, Inode, File, FileNode, Kernel, put_dentry,
  put_inode, put_file, put_bytes, pmm_alloc, pmm_free, sizeof_inode, sizeof_dentry,
}

-- -1 and -2
abbrev pub cpuinfo_ino : ℕ
cpuinfo_ino = 2 ^ 32 - 1

abbrev pub meminfo_ino : ℕ
meminfo_ino = 2 ^ 32 - 2

-- "cpuinfo", "meminfo" and "proc"
abbrev pub cpuinfo_name : List ℕ
cpuinfo_name = 99 ∷ 112 ∷ 117 ∷ 105 ∷ 110 ∷ 102 ∷ 111 ∷ []

abbrev pub meminfo_name : List ℕ
meminfo_name = 109 ∷ 101 ∷ 109 ∷ 105 ∷ 110 ∷ 102 ∷ 111 ∷ []

abbrev pub proc_name : List ℕ
proc_name = 112 ∷ 114 ∷ 111 ∷ 99 ∷ []

-- The loop over the digits of a pid: `none` at a character that is no digit. A NUL ends it.
unfoldable pub parse_digits : List ℕ → ℕ → Option ℕ
parse_digits [] pid = some pid
parse_digits (c ∷ s) pid =
    let rest = parse_digits s (sub32 (add32 (pid * 10) c) 48) in
    if leb c 57 && leb 48 c then rest else none

-- What the name of a process says: `none` if it is empty, begins with 0 or is no number.
unfoldable pub parse_pid : List ℕ → Option ℕ
unfolding parse_digits
parse_pid [] = none
parse_pid (c ∷ s) = if c == 48 then none else parse_digits (c ∷ s) 0

-- `pid <= KERNEL_MAX_THREAD && pid > 0 && thread_pool[pid] != NULL`, with `pid` an `int`
abbrev pub is_live : ℕ → Kernel → Bool
is_live pid s =
    (is_negative pid || leb pid kernel_max_thread)
    && not (is_negative pid)
    && ltb 0 pid
    && not (s.kmt.thread_pool pid == null)

-- The entry of the process that the name says, if there is one.
abbrev pub process_entry : (ip dp : Ptr) → Option ℕ → Kernel → Ptr × Kernel
process_entry ip dp none s = (null, s)
process_entry ip dp (some pid) s =
    if is_live pid s
    then (dp, attach ip dp (record (s.inodes ip) { ino = pid; acl = read_only }) s)
    else (null, s)

-- The body of `proc_lookup`, under the lock.
unfoldable pub find_entry : (ip dp : Ptr) → Kernel → Ptr × Kernel
unfolding strcmp parse_pid
find_entry ip dp s =
    let d = s.dentries dp in
    let inode = s.inodes ip in
    if (s.dentries d.parent).parent == d.parent
    then if strcmp d.iname cpuinfo_name == 0
      then (dp, attach ip dp (record inode { ino = cpuinfo_ino }) s)
      else if strcmp d.iname meminfo_name == 0
      then (dp, attach ip dp (record inode { ino = meminfo_ino; acl = read_only }) s)
      else process_entry ip dp (parse_pid d.iname) s
    else (null, s)

abbrev pub lock_threads : Env → Kernel → Kernel
lock_threads env s = record s { kmt = kmt_spin_lock env thread_lock s.kmt }

abbrev pub unlock_threads : Kernel → Kernel
unlock_threads s = record s { kmt = kmt_spin_unlock thread_lock s.kmt }

unfoldable pub proc_lookup : Env → (ip dp : Ptr) → Run Kernel Ptr
unfolding find_entry
proc_lookup env ip dp s =
    let (found, s') = find_entry ip dp (lock_threads env s) in done found (unlock_threads s')

unfoldable pub proc_open : Ptr → Kernel → ℕ
proc_open ip s =
    let ino = (s.inodes ip).ino in
    if ino == cpuinfo_ino || ino == meminfo_ino || not (s.kmt.thread_pool ino == null)
    then 0
    else 2 ^ 32 - 1

unfoldable pub proc_llseek : (fp offset whence : ℕ) → Run Kernel ℕ
unfolding llseek
proc_llseek = llseek

-- A line of `MEMINFO_INO`: a block's header, with the block's address.
pub record BlockLine : Type 0 where
  pub at : Ptr
  pub front : Ptr
  pub next : Ptr
  pub inuse : Bool

-- The four formats of `proc_read`.
pub data Format : Type 0 where
  cpuinfo_format meminfo_head block_line process_format : Format

pub data Arg : Type 0 where
  number : ℕ → Arg
  chars : List ℕ → Arg

-- What `proc_read` uses: `sprintf`, the blocks from `memory_head` on after the calls of the
-- allocator, and the address of `filebuf`.
pub record Report : Type 0 where
  pub sprintf : Format → List Arg → List ℕ
  pub blocks : List HeapCall → List BlockLine
  pub filebuf : Ptr

-- "yes" or "no", "true" or "false"
abbrev pub yes_no : Bool → List ℕ
yes_no true = 121 ∷ 101 ∷ 115 ∷ []
yes_no false = 110 ∷ 111 ∷ []

abbrev pub true_false : Bool → List ℕ
true_false true = 116 ∷ 114 ∷ 117 ∷ 101 ∷ []
true_false false = 102 ∷ 97 ∷ 108 ∷ 115 ∷ 101 ∷ []

-- The characters of a text and the NUL behind them, from `p` on.
unfoldable pub put_text : (p : Ptr) → List ℕ → Memory → Memory
put_text p [] m = poke m p 0
put_text p (c ∷ s) m = put_text (p + 1) s (poke m p c)

module _ (report : Report) where
  -- The lines of at most `n` blocks, the first of which is number `memcount`.
  unfoldable pub block_lines : (n memcount : ℕ) → List BlockLine → List ℕ
  block_lines zero memcount bs = []
  block_lines (suc n) memcount [] = []
  block_lines (suc n) memcount (b ∷ bs) =
      report.sprintf block_line (
        number memcount
        ∷ number b.at
        ∷ number b.front
        ∷ number b.next
        ∷ chars (yes_no b.inuse)
        ∷ [])
      ++ block_lines n (memcount + 1) bs

  -- What is in `filebuf` after the formatting. The names of threads are left out.
  unfoldable pub proc_text : (pid : ℕ) → Kernel → List ℕ
  proc_text pid s =
      let t = s.kmt.threads (s.kmt.thread_pool pid) in
      if pid == cpuinfo_ino
      then report.sprintf cpuinfo_format []
      else if pid == meminfo_ino
      then report.sprintf meminfo_head [] ++ block_lines 50 0 (report.blocks s.kmt.heap)
      else report.sprintf process_format (
          number pid
          ∷ number t.uid
          ∷ number t.gid
          ∷ chars (true_false (not (t.sleep == 0)))
          ∷ number t.stack_start
          ∷ number t.stack_end
          ∷ [])

  -- The body of `proc_read`, under the lock.
  unfoldable pub read_text : (fp buf count : ℕ) → Kernel → ℕ × Kernel
  read_text fp buf count s =
      let file = s.files fp in
      let pid = (s.inodes file.inode).ino in
      let text = proc_text pid s in
      let m = put_text report.filebuf text s.kmt.bytes in
      let (n, m') = end_line buf count (
        copy_out count buf (add32 report.filebuf file.pos) (add32 report.filebuf (strlen text)) 0
          m) in
      if not (pid == cpuinfo_ino) && not (pid == meminfo_ino) && s.kmt.thread_pool pid == null
      then (2 ^ 32 - 1, s)
      else (n, put_bytes m' s)

  unfoldable pub proc_read : Env → (fp buf count : ℕ) → Run Kernel ℕ
  proc_read env fp buf count s =
      let (n, s') = read_text fp buf count (lock_threads env s) in done n (unlock_threads s')

unfoldable pub proc_mount : Env → List ℕ → Run Kernel Ptr
unfolding strncmp build_root
proc_mount env source =
    if strlen source == strlen proc_name && strncmp source proc_name (strlen proc_name) == 0
    then build_root env (2 ^ 32 - 3) read_only procfs source
    else pure null
