-- ===== src/Fs/Calm/Drivers.antt =====
-- The drivers of src/fs use no semaphore and change no thread.
use nsos.Prelude.{arith, ℕ, ◌≡◌, refl, Bool, true, false, if◌then◌else◌, List, Option, none, some}
use nsos.Machine.{Ptr, Env}
use nsos.Fs.State.{Kernel, Driver, kvfs, devfs, procfs, FileNode, put_file, pmm_alloc, pmm_free}
use nsos.Kmt.State.{Thread, kmt_spin_lock, kmt_spin_unlock}
use nsos.Fs.Root.{build_root}
use nsos.CString.{add32}
use nsos.Fs.Kvfs.{
  kvfs_create, kvfs_mkdir, put_data, enlarge, write_pos, kvfs_write, kvfs_llseek, kvfs_read,
  kvfs_mount, forget_nodes,
}
use nsos.Fs.Devfs.{
  devfs_lookup, devfs_create, devfs_mkdir, devfs_llseek, devfs_read, devfs_write, devfs_mount,
}
use nsos.Fs.Procfs.{
  Report, proc_read, proc_lookup, proc_llseek, proc_mount, process_entry, is_live, find_entry,
  read_text, lock_threads,
}
use nsos.Fs.Driver.{alloc_inode, destroy_inode, lookup, create, mkdir, mount, read, write, llseek}
use nsos.Fs.Calm.{
  quiet, IsCalm, Undisturbed, ended, later, bind-IsCalm, if-Undisturbed, calm_rules, calm_runs,
}

pub pmm_alloc-IsCalm : (env : Env) (n : ℕ) → IsCalm (pmm_alloc env n)
unfolding pmm_alloc
pmm_alloc-IsCalm env n = search calm_runs

pub pmm_free-IsCalm : (p : Ptr) → IsCalm (pmm_free p)
unfolding pmm_free
pmm_free-IsCalm p = search calm_runs

pub ruleset heap_rules = (calm_rules, pmm_alloc-IsCalm, pmm_free-IsCalm)

build_root-IsCalm :
    (env : Env) (ino acl : ℕ) (drv : Driver) (source : List ℕ)
    → IsCalm (build_root env ino acl drv source)
unfolding build_root
build_root-IsCalm env ino acl drv source = search heap_rules depth 20

pub alloc_inode-IsCalm : (env : Env) (drv : Driver) → IsCalm (alloc_inode env drv)
unfolding alloc_inode
alloc_inode-IsCalm env drv = search heap_rules depth 20

pub destroy_inode-IsCalm : (p : Ptr) → IsCalm (destroy_inode p)
unfolding destroy_inode
destroy_inode-IsCalm p = pmm_free-IsCalm p

pub create-IsCalm : (drv : Driver) (ip dp : Ptr) → IsCalm (create drv ip dp)
unfolding create kvfs_create devfs_create
create-IsCalm kvfs ip dp = search calm_runs
create-IsCalm devfs ip dp = search calm_runs
create-IsCalm procfs ip dp = search calm_runs

pub mkdir-IsCalm : (drv : Driver) (ip dp : Ptr) → IsCalm (mkdir drv ip dp)
unfolding mkdir kvfs_mkdir devfs_mkdir
mkdir-IsCalm kvfs ip dp = search calm_runs
mkdir-IsCalm devfs ip dp = search calm_runs
mkdir-IsCalm procfs ip dp = search calm_runs

-- An answer with a state whose semaphores and threads are `q`.
record IsKept {A : Type 0} (q : (Ptr → ℕ) × (Ptr → Thread) × Ptr) (x : A × Kernel) : Type 0 where
  same : quiet x.1 ≡ q

if-IsKept :
    {A : Type 0} {q : (Ptr → ℕ) × (Ptr → Thread) × Ptr} (b : Bool) (x y : A × Kernel)
    → IsKept q x
    → IsKept q y
    → IsKept q (if b then x else y)
if-IsKept true x y hx hy = hx
if-IsKept false x y hx hy = hy

process_entry-IsKept :
    (ip dp : Ptr) (pid : Option ℕ) (s : Kernel) → IsKept (quiet s) (process_entry ip dp pid s)
process_entry-IsKept ip dp none s = record { same = refl }
process_entry-IsKept ip dp (some pid) s =
    if-IsKept (is_live pid s) _ _ (record { same = refl }) (record { same = refl })

find_entry-IsKept : (ip dp : Ptr) (s : Kernel) → IsKept (quiet s) (find_entry ip dp s)
unfolding find_entry
find_entry-IsKept ip dp s = search (if-IsKept, process_entry-IsKept)

read_text-IsKept :
    (report : Report) (fp buf count : ℕ) (s : Kernel)
    → IsKept (quiet s) (read_text report fp buf count s)
unfolding read_text
read_text-IsKept report fp buf count s = search if-IsKept

forget_nodes-quiet : (s : Kernel) → quiet (forget_nodes s) ≡ quiet s
forget_nodes-quiet s = ground arith

pub lookup-IsCalm : (env : Env) (drv : Driver) (ip dp : Ptr) → IsCalm (lookup env drv ip dp)
unfolding lookup devfs_lookup proc_lookup kmt_spin_lock kmt_spin_unlock
lookup-IsCalm env kvfs ip dp = search calm_runs
lookup-IsCalm env devfs ip dp = search calm_runs depth 10
lookup-IsCalm env procfs ip dp = record {
  at = λ s. ended (find_entry-IsKept ip dp (lock_threads env s)).same;
}

pub mount-IsCalm : (env : Env) (drv : Driver) (source : List ℕ) → IsCalm (mount env drv source)
unfolding mount kvfs_mount devfs_mount proc_mount
mount-IsCalm env kvfs source = search (heap_rules, build_root-IsCalm, forget_nodes-quiet) depth 10
mount-IsCalm env devfs source = search (heap_rules, build_root-IsCalm) depth 10
mount-IsCalm env procfs source = search (heap_rules, build_root-IsCalm) depth 10

enlarge-IsCalm :
    (env : Env) (size length : ℕ) (old : FileNode) → IsCalm (enlarge env size length old)
unfolding enlarge
enlarge-IsCalm env size length old = search heap_rules depth 20

put_data-IsCalm :
    (fp buf count newstart newend : ℕ) → IsCalm (put_data fp buf count newstart newend)
unfolding put_data
put_data-IsCalm fp buf count newstart newend = search calm_runs

kvfs_write-IsCalm : (env : Env) (fp buf count : ℕ) → IsCalm (kvfs_write env fp buf count)
unfolding kvfs_write
kvfs_write-IsCalm env fp buf count = record {
  at = λ s₀.
      let s = put_file fp (record (s₀.files fp) { pos = write_pos fp s₀ }) s₀ in
      let size = (s₀.inodes (s₀.files fp).inode).size in
      let node = s₀.kvfs_files (s₀.inodes (s₀.files fp).inode).ino in
      let length = add32 (write_pos fp s₀) count in
      let longer =
        bind-IsCalm (enlarge env size length node) _ (enlarge-IsCalm env size length node)
          (λ newstart. put_data-IsCalm fp buf count newstart (add32 newstart length)) in
      let same = put_data-IsCalm fp buf count node.start node.end in
      if-Undisturbed s₀ _ _ _ (ended refl)
        (if-Undisturbed s₀ _ _ _ (later refl (longer.at s)) (later refl (same.at s)));
}

pub write-IsCalm :
    (env : Env) (op : Option Driver) (fp buf count : ℕ) → IsCalm (write env op fp buf count)
unfolding write devfs_write
write-IsCalm env none fp buf count = search calm_runs
write-IsCalm env (some kvfs) fp buf count = kvfs_write-IsCalm env fp buf count
write-IsCalm env (some devfs) fp buf count = search calm_runs
write-IsCalm env (some procfs) fp buf count = search calm_runs

pub read-IsCalm :
    (env : Env) (report : Report) (op : Option Driver) (fp buf count : ℕ)
    → IsCalm (read env report op fp buf count)
unfolding read kvfs_read devfs_read proc_read kmt_spin_lock kmt_spin_unlock
read-IsCalm env report none fp buf count = search calm_runs
read-IsCalm env report (some kvfs) fp buf count = search calm_runs
read-IsCalm env report (some devfs) fp buf count = search calm_runs
read-IsCalm env report (some procfs) fp buf count = record {
  at = λ s. ended (read_text-IsKept report fp buf count (lock_threads env s)).same;
}

pub llseek-IsCalm :
    (op : Option Driver) (fp offset whence : ℕ) → IsCalm (llseek op fp offset whence)
unfolding llseek kvfs_llseek devfs_llseek proc_llseek nsos.Fs.File.llseek
llseek-IsCalm none fp offset whence = search calm_runs
llseek-IsCalm (some kvfs) fp offset whence = search calm_runs
llseek-IsCalm (some devfs) fp offset whence = search calm_runs
llseek-IsCalm (some procfs) fp offset whence = search calm_runs

pub ruleset driver_rules = (
  heap_rules, alloc_inode-IsCalm, destroy_inode-IsCalm, create-IsCalm, mkdir-IsCalm, lookup-IsCalm,
  mount-IsCalm, read-IsCalm, write-IsCalm, llseek-IsCalm,
)
