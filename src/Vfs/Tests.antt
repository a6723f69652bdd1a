-- ===== src/Vfs/Tests.antt =====
-- Tests of src/vfs.c.
use nsos.Prelude.{ℕ, List, [], ◌∷◌, false, arith, ltb, ◌≡◌, refl, if◌then◌else◌}
use nsos.Machine.{done, state_of}
use nsos.Acl.{check_acl, refuses_read, refuses_write}
use nsos.Kmt.State.{scan, kmt_spin_lock, kmt_spin_unlock}
use nsos.Kmt.Semaphore.{kmt_sem_wait}
use nsos.Fs.Path.{make_path, skip_slashes, after_part, part, do_lookup}
use nsos.Fs.Driver.{alloc_inode, lookup, destroy_inode, create}
use nsos.Fs.Kvfs.{kvfs_create}
use nsos.Fs.State.{Kernel, procfs, pmm_alloc, pmm_free}
use nsos.Fs.Procfs.{Report}
use nsos.Vfs.Table.{
  Call, open_call, mount_call, write_call, read_call, close_call, vfs_call, vfs_calls,
}
use nsos.Vfs.Release.{Balanced}
use nsos.Vfs.Calls.{sem_wait, sem_signal, vfs_open}
use nsos.Vfs.Descriptors.{vfs_close}
use nsos.Vfs.Open.{table, vfs_close-vfs_open}
use nsos.Vfs.Balance.{Awake, vfs_call-Balanced, vfs_calls-Awake}
use nsos.Example.{env, kernel}

-- Every text is "x", and one block lies at 4096.
abbrev report : Report
report = record {
  sprintf = λ format args. 120 ∷ [];
  blocks = λ calls. record { at = 4096; front = 0; next = 8192; inuse = false } ∷ [];
  filebuf = 100000;
}

-- "/a"
abbrev path : List ℕ
path = 47 ∷ 97 ∷ []

vfs_call-Balanced_example : Balanced kernel (vfs_call env report 4 (mount_call path procfs) kernel)
vfs_call-Balanced_example =
    vfs_call-Balanced env report 4 (mount_call path procfs) kernel (omega arith)

abbrev calls : List Call
calls = open_call path 2 ∷ write_call 3 500 8 ∷ read_call 3 600 8 ∷ close_call 3 ∷ []

vfs_calls-Awake_example : Awake kernel (vfs_calls env report 4 calls kernel)
vfs_calls-Awake_example = vfs_calls-Awake env report 4 calls kernel (omega arith) (omega arith)

-- The running thread has its standard descriptors, and no entry of `kvfs_files` is in use.
abbrev fresh : Kernel
fresh = record kernel {
  kmt = record kernel.kmt {
    threads =
        λ p. record (kernel.kmt.threads p) { file_descriptors = λ i. if ltb i 3 then 1 else 0 };
  };
  kvfs_files = λ i. record { inuse = false; start = 0; end = 0 };
}

abbrev after_open : Kernel
after_open = state_of (vfs_open env 4 path 2 fresh)

opens : vfs_open env 4 path 2 fresh ≡ done 3 after_open
unfolding vfs_open sem_wait kmt_sem_wait kmt_spin_lock make_path skip_slashes after_part part
    do_lookup pmm_alloc kmt_spin_unlock alloc_inode lookup destroy_inode pmm_free check_acl create
    scan refuses_read refuses_write kvfs_create sem_signal
opens = refl

vfs_close-vfs_open_example :
    (s'' : Kernel) × (vfs_close 3 after_open ≡ done 0 s'') × ((j : ℕ) → table s'' j ≡ table fresh j)
vfs_close-vfs_open_example =
    vfs_close-vfs_open env 4 path 2 3 fresh after_open (λ calls n. omega arith)
      (λ j lt. ground arith) opens (omega arith)
