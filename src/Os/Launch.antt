-- ===== src/Os/Launch.antt =====
-- The boot of src/os.c and framework/main.c, and src/launchd.c.
use nsos.Prelude.{
  ℕ, suc, ◌+◌, ◌≡◌, ◌≢◌, refl, ap, ◌∙◌, arith, true, false, ◌==◌, some, ◌∷◌, ==_ne, ==_refl,
}
use nsos.Machine.{Ptr, null, Env, Run, done, alloc_call, state_of, modify, and_then, ◌>>◌}
use nsos.Kmt.State.{Kmt, minus_one, stack_size, kmt_spin_init, kernel_max_thread}
use nsos.Kmt.Semaphore.{kmt_sem_init}
use nsos.Kmt.Threads.{kmt_init, kmt_schedule, pick, is_runnable, is_intact}
use nsos.CString.{strncmp}
use nsos.Fs.State.{Kernel, kvfs, pmm_alloc, sizeof_inode, sizeof_dentry}
use nsos.Fs.Root.{build_root}
use nsos.Fs.Kvfs.{no_ino, kvfs_mount, is_ramdisk, forget_nodes}
use nsos.Fs.Driver.{mount}
use nsos.Vfs.Calls.{vfs_sem, ramdisk0, vfs_init, with_kmt}
use nsos.Os.{
  save_status, run_next, set_kmt, init_console, with_kernel, Board, System, find_device, dev_video,
  irq_timer, os_init, init_pmm, on_kernel, os_run, main, switch, os_interrupt,
}
use nsos.Os.Resume.{running}

-- The address of the dentry of the root, after the calls of the allocator so far.
abbrev root_of : Env → Kernel → Ptr
root_of env s = env.alloc (alloc_call sizeof_inode ∷ s.kmt.heap) sizeof_dentry

-- The root is mounted, and `vfs_sem` is free.
record Mounted (s s' : Kernel) : Type 0 where
  pool : s'.kmt.thread_pool ≡ s.kmt.thread_pool
  index : s'.kmt.current_thread_index ≡ s.kmt.current_thread_index
  current : s'.kmt.current ≡ s.kmt.current
  sems : s'.kmt.sems vfs_sem ≡ 1

forget_nodes-kmt : (s : Kernel) → (forget_nodes s).kmt ≡ s.kmt
forget_nodes-kmt s = ground arith

-- What `kvfs_mount` of the root leaves.
ready-Mounted :
    (s s' s'' : Kernel)
    → s''.kmt ≡ (forget_nodes s').kmt
    → s'.kmt.thread_pool ≡ s.kmt.thread_pool
    → s'.kmt.current_thread_index ≡ s.kmt.current_thread_index
    → s'.kmt.current ≡ s.kmt.current
    → s'.kmt.sems vfs_sem ≡ 1
    → Mounted s s''
ready-Mounted s s' s'' h pool index current sems =
    let e : s''.kmt ≡ s'.kmt = h ∙ forget_nodes-kmt s' in
    record {
      pool = ap (λ k. k.thread_pool) e ∙ pool;
      index = ap (λ k. k.current_thread_index) e ∙ index;
      current = ap (λ k. k.current) e ∙ current;
      sems = ap (λ k. k.sems vfs_sem) e ∙ sems;
    }

vfs_init-Mounted :
    (env : Env) (s : Kernel)
    → root_of env s ≢ null
    → (s' : Kernel) × (vfs_init env s ≡ done tt s') × Mounted s s'
unfolding vfs_init mount kvfs_mount is_ramdisk strncmp build_root pmm_alloc kmt_sem_init
vfs_init-Mounted env s ne =
    let root : (root_of env s == null) ≡ false = ==_ne _ _ ne in
    let start = with_kmt s (kmt_sem_init vfs_sem 1 s.kmt) in
    let built = state_of (build_root env no_ino 0x755 kvfs ramdisk0 start) in
    (
      state_of (vfs_init env s),
      rw root refl,
      rw root (ready-Mounted s built _ refl refl refl refl refl),
    )

-- What `main` leaves: the pool holds the first thread, and no thread runs.
record Booted (env : Env) (board : Board) (s : System) : Type 0 where
  first : s.kernel.kmt.thread_pool 1 ≡ board.launchd_thread
  last : s.kernel.kmt.thread_pool kernel_max_thread ≡ null
  index : s.kernel.kmt.current_thread_index ≡ minus_one
  current : running s ≡ null
  awake : (s.kernel.kmt.threads board.launchd_thread).sleep ≡ 0
  status :
      (s.kernel.kmt.threads board.launchd_thread).status
      ≡ env.make (board.launchd_stack + 1) (board.launchd_stack + 1 + stack_size) board.launchd null
  sems : s.kernel.kmt.sems vfs_sem ≡ 1

os_run-Booted :
    (env : Env) (board : Board) (s : System) (k : Kernel)
    → Mounted (with_kmt s.kernel (kmt_init s.kernel.kmt)) k
    → running s ≡ null
    → Booted env board (os_run env board (record s { kernel = k }))
unfolding os_run kmt_init kmt_spin_init
os_run-Booted env board s k m e = record {
  first = refl;
  last = ap (λ f. f kernel_max_thread) m.pool;
  index = m.index;
  current = m.current ∙ e;
  awake = rw (==_refl board.launchd_thread) refl;
  status = rw (==_refl board.launchd_thread) refl;
  sems = m.sems;
}

boot_rest :
    (env : Env) (board : Board) (s : System) (k : Kernel)
    → vfs_init env s.kernel ≡ done tt k
    → (on_kernel (vfs_init env) >> modify (os_run env board)) s
      ≡ done tt (os_run env board (record s { kernel = k }))
unfolding on_kernel
boot_rest env board s k e = ap (λ o. and_then (with_kernel s o) (λ _. modify (os_run env board))) e

-- The part of `main` behind `os_init`.
abbrev boot : Env → Board → Run System (Unit {0})
boot env board =
    modify (init_pmm board)
    >> (modify (λ s. set_kmt (kmt_init s.kernel.kmt) s)
        >> (on_kernel (vfs_init env) >> modify (os_run env board)))

with_screen :
    (env : Env) (board : Board) (s : System) (n : ℕ)
    → find_device dev_video 1 board.devices ≡ some n
    → os_init env board s ≡ done tt (init_console env board s)
unfolding os_init
with_screen env board s n e = rw (os_init, e) refl

main-Booted :
    (env : Env) (board : Board) (s : System) (n : ℕ)
    → find_device dev_video 1 board.devices ≡ some n
    → root_of env s.kernel ≢ null
    → (s' : System) × (main env board s ≡ done tt s') × Booted env board s'
unfolding main init_console init_pmm kmt_init kmt_spin_init
main-Booted env board s n screen ne =
    let ready = init_pmm board (init_console env board s) in
    let s₃ = set_kmt (kmt_init ready.kernel.kmt) ready in
    let (k, e, m) = vfs_init-Mounted env s₃.kernel ne in
    (
      os_run env board (record s₃ { kernel = k }),
      ap (λ o. and_then o (λ _. boot env board)) (with_screen env board s n screen)
          ∙ boot_rest env board s₃ k e,
      os_run-Booted env board ready k m refl,
    )

idle_slot : (i : ℕ) (k : Kmt) → k.thread_pool i ≡ null → is_runnable k i ≡ false
unfolding is_runnable
idle_slot i k e = rw e refl

live_slot :
    (i : ℕ) (p : Ptr) (k : Kmt)
    → p ≢ null
    → k.thread_pool i ≡ p
    → (k.threads p).sleep ≡ 0
    → is_runnable k i ≡ true
unfolding is_runnable
live_slot i p k ne e awake = rw (e, ==_ne p null ne, awake) refl

pick_first :
    (fuel : ℕ) (p : Ptr) (k : Kmt)
    → p ≢ null
    → k.thread_pool 1 ≡ p
    → k.thread_pool kernel_max_thread ≡ null
    → (k.threads p).sleep ≡ 0
    → pick (suc (suc fuel)) minus_one k ≡ done 1 k
unfolding pick
pick_first fuel p k ne first last awake =
    let idle : is_runnable k kernel_max_thread ≡ false = idle_slot kernel_max_thread k last in
    let runs : is_runnable k 1 ≡ true = live_slot 1 p k ne first awake in rw (idle, runs) refl

-- Before the first switch nothing is checked.
unchecked : (k : Kmt) → k.current_thread_index ≡ minus_one → is_intact k ≡ true
unfolding is_intact
unchecked k e =
    let test : (k.current_thread_index == minus_one) ≡ true = ground arith in rw test refl

nobody_saved : (regs : Ptr) (k : Kmt) → k.current ≡ null → save_status regs k ≡ k
nobody_saved regs k e = let test : (k.current == null) ≡ true = ground arith in rw test refl

-- The scheduler of a system that has booted.
first_picked :
    (fuel : ℕ) (p : Ptr) (k : Kmt)
    → p ≢ null
    → k.thread_pool 1 ≡ p
    → k.thread_pool kernel_max_thread ≡ null
    → k.current_thread_index ≡ minus_one
    → (k.threads p).sleep ≡ 0
    → kmt_schedule (suc (suc fuel)) k ≡ done p (record k { current_thread_index = 1 })
unfolding kmt_schedule
first_picked fuel p k ne first last index awake =
    let found : pick (suc (suc fuel)) k.current_thread_index k ≡ done 1 k =
      ap (λ i. pick (suc (suc fuel)) i k) index ∙ pick_first fuel p k ne first last awake in
    rw (unchecked k index, found, first) refl

-- The thread that the first timer interrupt runs.
abbrev launched : Board → System → System
launched board s =
    set_kmt (record s.kernel.kmt { current_thread_index = 1; current = board.launchd_thread }) s

switch_first :
    (env : Env) (board : Board) (s : System) (fuel : ℕ) (regs : Ptr)
    → board.launchd_thread ≢ null
    → Booted env board s
    → switch (suc (suc fuel)) regs s
      ≡ done (s.kernel.kmt.threads board.launchd_thread).status (launched board s)
unfolding switch
switch_first env board s fuel regs alive b =
    let next =
      first_picked fuel board.launchd_thread s.kernel.kmt alive b.first b.last b.index b.awake in
    ap (λ k. run_next s (kmt_schedule (suc (suc fuel)) k))
      (nobody_saved regs s.kernel.kmt b.current)
    ∙ ap (run_next s) next

module _ (env : Env) (board : Board) where
  -- With a screen among the devices, an allocator whose second block is not at NULL and launchd_thread
  -- at an address other than NULL, main comes to the endless loop of os_run, and the first timer
  -- interrupt, with two rounds of the scheduler or more, runs launchd: it answers with the register
  -- set that _make has built on the stack of launchd.
  pub main-os_interrupt :
      (s : System) (n fuel : ℕ) (regs : Ptr)
      → find_device dev_video 1 board.devices ≡ some n
      → root_of env s.kernel ≢ null
      → board.launchd_thread ≢ null
      → (s' : System) × (s'' : System) × (main env board s ≡ done tt s')
        × (os_interrupt (suc (suc fuel)) board irq_timer regs s'
            ≡ done
                (env.make
                  (board.launchd_stack + 1)
                  (board.launchd_stack + 1 + stack_size)
                  board.launchd
                  null)
                s'')
        × (running s'' ≡ board.launchd_thread)
  unfolding os_interrupt
  main-os_interrupt s n fuel regs screen ne alive =
      let (s', e, b) = main-Booted env board s n screen ne in
      (
        s',
        launched board s',
        e,
        switch_first env board s' fuel regs alive b ∙ ap (λ r. done r (launched board s')) b.status,
        refl,
      )
