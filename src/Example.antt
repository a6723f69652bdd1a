-- ===== src/Example.antt =====
-- A small machine and states of it, for the tests of the other modules.
use nsos.Prelude.{
  ℕ, ◌+◌, ◌*◌, Bool, true, false, List, [], ◌∷◌, some, ◌==◌, if◌then◌else◌, length, refl,
}
use nsos.Machine.{Ptr, null, Env, ReadsBack}
use nsos.Lock.{Locks}
use nsos.Kmt.State.{kernel_max_thread, thread_pool_magic, Thread, Kmt}
use nsos.Fs.State.{kvfs, Kernel}

-- The last write to the interrupt flag, on at first.
abbrev last_or_on : List Bool → Bool
last_or_on [] = true
last_or_on (b ∷ log) = b

-- An allocator that never gives an address twice.
abbrev pub env : Env
env = record {
  intr_read = last_or_on;
  alloc = λ calls n. 4096 + 8192 * length calls;
  make = λ start end entry arg. start;
  uptime = λ n. n;
}

pub env-ReadsBack : ReadsBack env
env-ReadsBack b log = refl

abbrev pub locks : Locks
locks = record { intr_log = []; lockcount = 0; release_intr = false; status = λ lk. 0 }

-- A thread with its stack from 64 to 128; the thread at 900 sleeps.
abbrev pub thread : Ptr → Thread
thread p = record {
  id = 0;
  status = null;
  sleep = if p == 900 then 1 else 0;
  current_waiting = null;
  uid = 0;
  gid = 0;
  stack_start = 64;
  stack_end = 128;
  root = 10;
  pwd = null;
  altroot = null;
  rootmnt = 40;
  pwdmnt = null;
  altrootmnt = null;
  file_descriptors = λ i. null;
}

-- The pool: a sleeping thread in slot 1, and threads that can run in slots 3 and 5, of which the
-- one in slot 3 runs.
abbrev pub pool : ℕ → Ptr
pool i =
    if i == 0
    then thread_pool_magic
    else if i == 1
    then 900
    else if i == 3
    then 500
    else if i == 5
    then 700
    else if i == kernel_max_thread + 1
    then thread_pool_magic
    else null

abbrev pub kmt : Kmt
kmt = record {
  locks = locks;
  heap = [];
  thread_pool = pool;
  threads = thread;
  current_thread_index = 3;
  current = 500;
  bytes = λ p. 0xcc;
  sems = λ p. 1;
}

-- A file of 4 bytes at address 200, open for writing at position 2; the bytes in memory tell
-- their address.
abbrev pub kernel : Kernel
kernel = record {
  kmt = record kmt { bytes = λ p. p };
  dentries = λ p. record {
    iname = [];
    iname_at = null;
    inode = 20;
    parent = null;
    child = null;
    subdirs = null;
    mounted = 0;
    isdir = false;
    op = kvfs;
  };
  inodes = λ p. record {
    uid = 0;
    gid = 0;
    acl = 0x755;
    ino = 3;
    size = 4;
    rwsem = 0;
    op = kvfs;
    fop = some kvfs;
  };
  mounts =
      λ p. record { count = 1; root = 10; mountpoint = 10; parent = null; next = null; fs = kvfs };
  files = λ p. record {
    lock = 0;
    dentry = 10;
    inode = 20;
    pos = 2;
    mode = 2;
    count = 0;
    op = some kvfs;
  };
  kvfs_files = λ i. record { inuse = true; start = 200; end = 204 };
  kvfs_inited = true;
  dev = λ d. [];
  root_dentry = 10;
  root_mnt = 40;
  fs_at = λ d. 60;
  mnt_head = 40;
  randseed = 1;
  clock_reads = 0;
  printed = [];
}
