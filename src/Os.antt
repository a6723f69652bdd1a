-- ===== src/Os.antt =====
-- The entry of the kernel: framework/main.c, src/os.c and src/launchd.c.
--
-- The devices and the addresses of the static objects are parameters. The console and the memory
-- manager have states of their own; the locks, which they share with the threads, are passed to
-- them and taken back. The allocator behind the threads and the file systems is that of Env.
-- Messages to the system log are left out. The endless loop of `os_run` is the end of its run, and
-- that of `launchd` stands where it begins to wait for a key.
pub mod Resume
pub mod Launch
mod Tests
use nsos.Prelude.{
  ℕ, zero, suc, ◌+◌, ◌^◌, Bool, true, false, not, ◌&&◌, Option, none, some, List, [], ◌∷◌, ◌==◌,
  ltb, if◌then◌else◌,
}
use nsos.Machine.{
  Ptr, null, Env, Run, Outcome, done, stop, panic, fault, pure, halt, modify, gets, ◌>>=◌, ◌>>◌,
}
use nsos.Lock.{Locks, console_lock, simple_lock_init}
use nsos.Console.{Console, initconsole}
use nsos.Pmm.Block.{Area, Pmm, pmm_init}
use nsos.Kmt.State.{Thread, Kmt, stack_size, stack_magic, max_file_per_thread, update, pred32}
use nsos.Kmt.Threads.{kmt_init, kmt_schedule, fresh_descriptors}
use nsos.Fs.State.{Kernel, procfs, devfs}
use nsos.Vfs.Calls.{with_kmt, vfs_init, vfs_mkdir, vfs_mount}

-- What the hardware layer has: the ids of the devices, the first of which is number 1, the size of
-- the screen and the n-th reading of the keyboard, `keydown` and `keycode`; the heap; and the
-- addresses of `launchd`, `launchd_thread` and `launchd_stack`.
pub record Board : Type 0 where
  pub devices : List ℕ
  pub width : ℕ
  pub height : ℕ
  pub key : ℕ → ℕ × ℕ
  pub font : ℕ → ℕ → ℕ
  pub heap : Area
  pub launchd : Ptr
  pub launchd_thread : Ptr
  pub launchd_stack : Ptr

pub record System : Type 0 where
  pub kernel : Kernel
  pub console : Console
  pub pmm : Pmm
  pub key_action : ℕ
  pub keys_read : ℕ

abbrev pub dev_input : ℕ
dev_input = 0xac02

abbrev pub dev_video : ℕ
dev_video = 0xac04

abbrev pub key_none : ℕ
key_none = 0

abbrev pub key_return : ℕ
key_return = 54

pub data Event : Type 0 where
  event_null irq_timer irq_iodev pagefault error yield syscall : Event

-- The number of the first device of that id, from `deviceit` on; `none` for NULL.
unfoldable pub find_device : (id deviceit : ℕ) → List ℕ → Option ℕ
find_device id deviceit [] = none
find_device id deviceit (d ∷ ds) =
    let rest = find_device id (deviceit + 1) ds in if d == id then some deviceit else rest

-- A part of the system runs on its own state.
abbrev pub set_kmt : Kmt → System → System
set_kmt k s = record s { kernel = with_kmt s.kernel k }

abbrev pub with_kernel : {A : Type 0} → System → Outcome Kernel A → Outcome System A
with_kernel s (done a k) = done a (record s { kernel = k })
with_kernel s (stop why k) = stop why (record s { kernel = k })

unfoldable pub on_kernel : {A : Type 0} → Run Kernel A → Run System A
on_kernel m s = with_kernel s (m s.kernel)

abbrev pub set_locks : Locks → System → System
set_locks locks s = set_kmt (record s.kernel.kmt { locks = locks }) s

-- `initconsole` with the locks of the kernel, and `current = NULL`.
unfoldable pub init_console : Env → Board → System → System
init_console env board s =
    let before = record s.console { locks = s.kernel.kmt.locks } in
    let console = initconsole env board.font board.width board.height before in
    let t = set_locks console.locks (record s { console = console }) in
    set_kmt (record t.kernel.kmt { current = null }) t

-- `_device(deviceit)` is NULL where there is no screen.
unfoldable pub os_init : Env → Board → Run System (Unit {0})
unfolding init_console
os_init env board s = elim (find_device dev_video 1 board.devices) [
  | none ↦ stop fault (set_locks (simple_lock_init console_lock s.kernel.kmt.locks) s)
  | some deviceit ↦ done tt (init_console env board s)
]

unfoldable pub init_pmm : Board → System → System
init_pmm board s =
    let pmm = pmm_init board.heap (record s.pmm { locks = s.kernel.kmt.locks }) in
    set_locks pmm.locks (record s { pmm = pmm })

-- `launchd_thread` as `os_run` fills it, in the slot 1.
abbrev pub first_thread : Env → Board → Kernel → Thread → Thread
first_thread env board k old =
    let start = board.launchd_stack + 1 in
    record old {
      stack_start = start;
      stack_end = start + stack_size;
      sleep = 0;
      current_waiting = null;
      status = env.make start (start + stack_size) board.launchd null;
      root = k.root_dentry;
      pwd = k.root_dentry;
      altroot = k.root_dentry;
      rootmnt = k.root_mnt;
      pwdmnt = k.root_mnt;
      altrootmnt = k.root_mnt;
      file_descriptors = fresh_descriptors old.file_descriptors;
    }

-- The last step is `_intr_write(1)`.
unfoldable pub os_run : Env → Board → System → System
os_run env board s =
    let k = s.kernel.kmt in
    let p = board.launchd_thread in
    let start = board.launchd_stack + 1 in
    set_kmt
      (record k {
        thread_pool = update k.thread_pool 1 p;
        threads = update k.threads p (first_thread env board s.kernel (k.threads p));
        bytes = update (update k.bytes (pred32 start) stack_magic) (start + stack_size) stack_magic;
        locks = record k.locks { intr_log = true ∷ k.locks.intr_log };
      })
      s

-- Up to the endless loop of `os_run`.
unfoldable pub main : Env → Board → Run System (Unit {0})
unfolding init_pmm
main env board = do
  os_init env board
  modify (init_pmm board)
  modify (λ s. set_kmt (kmt_init s.kernel.kmt) s)
  on_kernel (vfs_init env)
  modify (os_run env board)

-- `if (current != NULL) current->status = regs;`
abbrev pub save_status : Ptr → Kmt → Kmt
save_status regs k = if k.current == null then k else record k {
  threads = update k.threads k.current (record (k.threads k.current) { status = regs });
}

-- The thread that the scheduler has picked runs. The answer is its register set.
abbrev pub run_next : System → Outcome Kmt Ptr → Outcome System Ptr
run_next s (done next k) = done (k.threads next).status (set_kmt (record k { current = next }) s)
run_next s (stop why k) = stop why (set_kmt k s)

unfoldable pub switch : (fuel : ℕ) → (regs : Ptr) → Run System Ptr
switch fuel regs s = run_next s (kmt_schedule fuel (save_status regs s.kernel.kmt))

-- A key that is let go of, if it is the return key, is noted.
abbrev pub take_key : ℕ × ℕ → System → System
take_key (keydown, keycode) s =
    let t = record s { keys_read = s.keys_read + 1 } in
    if not (keycode == key_none) && keydown == 0 && keycode == key_return
    then record t { key_action = 1 }
    else t

unfoldable pub read_key : Board → Run System Ptr
read_key board s = elim (find_device dev_input 1 board.devices) [
  | none ↦ stop fault s
  | some deviceit ↦ done null (take_key (board.key s.keys_read) s)
]

-- The answer NULL leaves the registers as they are. `_halt` is a stop.
unfoldable pub os_interrupt : (fuel : ℕ) → Board → Event → (regs : Ptr) → Run System Ptr
unfolding switch read_key
os_interrupt fuel board irq_timer regs s = switch fuel regs s
os_interrupt fuel board yield regs s = switch fuel regs s
os_interrupt fuel board irq_iodev regs s = read_key board s
os_interrupt fuel board error regs s = stop panic s
os_interrupt fuel board event_null regs s = done null s
os_interrupt fuel board pagefault regs s = done null s
os_interrupt fuel board syscall regs s = done null s

-- "/proc" and "/dev"
abbrev pub proc_path : List ℕ
proc_path = 47 ∷ 112 ∷ 114 ∷ 111 ∷ 99 ∷ []

abbrev pub dev_path : List ℕ
dev_path = 47 ∷ 100 ∷ 101 ∷ 118 ∷ []

-- The first thread, up to its wait for a key.
unfoldable pub launchd : Env → (fuel : ℕ) → Run System (Unit {0})
unfolding on_kernel
launchd env fuel = do
  _ ← on_kernel (vfs_mkdir env fuel proc_path 0x0664)
  proc_failed ← on_kernel (vfs_mount env fuel proc_path procfs)
  let rest = (do
    _ ← on_kernel (vfs_mkdir env fuel dev_path 0x0666)
    dev_failed ← on_kernel (vfs_mount env fuel dev_path devfs)
    if dev_failed == 0 then modify (λ s. record s { key_action = 0 }) else halt panic)
  if proc_failed == 0 then rest else halt panic
