-- ===== src/Vfs/Balance.antt =====
-- The system calls of src/vfs.c and the counts of the semaphores.
use nsos.Prelude.{
  Bool, true, false, ◌==◌, if◌then◌else◌, ℕ, ◌^◌, ◌<◌, ◌≡◌, ◌≢◌, refl, sym, ◌∙◌, List, [], ◌∷◌,
}
use nsos.Machine.{
  pure, ◌>>◌, Ptr, null, modify, Env, Run, Outcome, done, stop, Stop, asleep, and_then,
}
use nsos.Fs.State.{Kernel, pmm_free}
use nsos.Kmt.State.{minus_one}
use nsos.Fs.Procfs.{Report}
use nsos.Vfs.Calls.{
  set_descriptor, vfs_sem, vfs_access, vfs_mount, vfs_unmount, vfs_mkdir, vfs_open,
}
use nsos.Vfs.Descriptors.{is_standard, descriptor, vfs_read, vfs_write, vfs_lseek, vfs_close}
use nsos.Vfs.Table.{
  Call, access_call, mount_call, unmount_call, open_call, mkdir_call, read_call, write_call,
  lseek_call, close_call, vfs_call, vfs_calls,
}
use nsos.Vfs.Release.{Balanced, returned, halted, slept, guarded-Balanced, call_rules}

-- How a sequence of calls from `s` comes out when nobody else has the semaphore.
pub data Awake {A : Type 0} (s : Kernel) : Outcome Kernel A → Type 0 where
  through : {a : A} {s' : Kernel} → ((p : Ptr) → s'.kmt.sems p ≡ s.kmt.sems p) → Awake s (done a s')
  broken : {why : Stop} {s' : Kernel} → why ≢ asleep → Awake s (stop why s')

stay_first :
    {A : Type 0} (s : Kernel) (o : Outcome Kernel A)
    → s.kmt.sems vfs_sem ≢ 0
    → Balanced s o
    → Awake s o
stay_first s (done a s') ne (returned h) = through h
stay_first s (stop why s') ne (slept z) = absurd (ne z)
stay_first s (stop why s') ne (halted n) = broken n

stay_later :
    {A : Type 0} {s s' : Kernel} {o : Outcome Kernel A}
    → ((p : Ptr) → s'.kmt.sems p ≡ s.kmt.sems p)
    → Awake s' o
    → Awake s o
stay_later h (through k) = through (λ p. k p ∙ h p)
stay_later h (broken n) = broken n

stay_then :
    {A B : Type 0} (s : Kernel) (o : Outcome Kernel A) (k : A → Run Kernel B)
    → Awake s o
    → ((a : A) (s' : Kernel) → ((p : Ptr) → s'.kmt.sems p ≡ s.kmt.sems p) → Awake s' (k a s'))
    → Awake s (and_then o k)
stay_then s (done a s') k (through h) hk = stay_later h (hk a s' h)
stay_then s (stop why s') k (broken n) hk = broken n

-- The three ends of `vfs_close`.
close_end :
    (standard empty : Bool) (fd p : ℕ) (s : Kernel)
    → Balanced s (
        (if standard
            then pure minus_one
            else if empty
            then pure minus_one
            else pmm_free p >> (modify (set_descriptor fd null) >> pure 0))
          s)
unfolding pmm_free
close_end true empty fd p s = returned (λ p. refl)
close_end false true fd p s = returned (λ p. refl)
close_end false false fd p s = returned (λ p. refl)

vfs_close-Balanced : (fd : ℕ) (s : Kernel) → Balanced s (vfs_close fd s)
unfolding vfs_close
vfs_close-Balanced fd s =
    close_end (is_standard fd) (descriptor fd s == null) fd (descriptor fd s) s

module _ (env : Env) (report : Report) (fuel : ℕ) where
  -- A call of the virtual file system that returns leaves the count of every semaphore as it was, but
  -- for the semaphores that stand in inodes, on every branch; the thread is put to sleep only where
  -- the count of vfs_sem was 0. The count is below 2 ^ 32.
  pub vfs_call-Balanced :
      (c : Call) (s : Kernel)
      → s.kmt.sems vfs_sem < 2 ^ 32
      → Balanced s (vfs_call env report fuel c s)
  unfolding vfs_call vfs_access vfs_mount vfs_unmount vfs_mkdir vfs_open vfs_read vfs_write
      vfs_lseek
  vfs_call-Balanced (access_call path mode) s lt =
      guarded-Balanced env _ s lt (search call_rules depth 40 fits 4000)
  vfs_call-Balanced (mount_call path fs) s lt =
      guarded-Balanced env _ s lt (search call_rules depth 40 fits 4000)
  vfs_call-Balanced (unmount_call path) s lt =
      guarded-Balanced env _ s lt (search call_rules depth 40 fits 4000)
  vfs_call-Balanced (open_call path flags) s lt =
      guarded-Balanced env _ s lt (search call_rules depth 40 fits 4000)
  vfs_call-Balanced (mkdir_call path mode) s lt =
      guarded-Balanced env _ s lt (search call_rules depth 40 fits 4000)
  vfs_call-Balanced (read_call fd buf nbyte) s lt =
      guarded-Balanced env _ s lt (search call_rules depth 40 fits 4000)
  vfs_call-Balanced (write_call fd buf nbyte) s lt =
      guarded-Balanced env _ s lt (search call_rules depth 40 fits 4000)
  vfs_call-Balanced (lseek_call fd offset whence) s lt =
      guarded-Balanced env _ s lt (search call_rules depth 40 fits 4000)
  vfs_call-Balanced (close_call fd) s lt = vfs_close-Balanced fd s

  -- Calls one after another, with the count of vfs_sem not 0 and below 2 ^ 32 before the first, never
  -- put the thread to sleep, and if all of them return the counts of all semaphores but those
  -- in inodes are as before.
  pub vfs_calls-Awake :
      (cs : List Call) (s : Kernel)
      → s.kmt.sems vfs_sem ≢ 0
      → s.kmt.sems vfs_sem < 2 ^ 32
      → Awake s (vfs_calls env report fuel cs s)
  unfolding vfs_calls
  vfs_calls-Awake [] s ne lt = through (λ p. refl)
  vfs_calls-Awake (c ∷ cs) s ne lt =
      stay_then s (vfs_call env report fuel c s) _ (stay_first s _ ne (vfs_call-Balanced c s lt))
        (λ r s' h.
          stay_then s' (vfs_calls env report fuel cs s') _
            (vfs_calls-Awake cs s' (λ z. ne (sym (h vfs_sem) ∙ z)) (rw h lt))
            (λ rs s'' k. through (λ p. refl)))
