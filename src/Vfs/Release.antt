-- ===== src/Vfs/Release.antt =====
-- Every system call of src/vfs.c gives back the semaphore that it has taken.
use nsos.Prelude.{
  ℕ, zero, suc, ◌+◌, ◌%◌, ◌^◌, ◌<◌, ◌≡◌, ◌≢◌, refl, ap, ◌∙◌, arith, leb, Bool, true, false, ◌==◌,
  if◌then◌else◌,
}
use nsos.Machine.{modify, Ptr, Env, Run, Outcome, done, stop, Stop, asleep, and_then, ◌>>=◌, ◌>>◌}
use nsos.Lock.{semaphore_lock}
use nsos.Kmt.State.{Kmt, kernel_max_thread, update, pred32, kmt_spin_lock, kmt_spin_unlock}
use nsos.Kmt.Semaphore.{wake, waiter, kmt_sem_wait, kmt_sem_signal}
use nsos.Fs.State.{Kernel, Driver, NameiData}
use nsos.Fs.Calm.{IsCalm, Undisturbed, ended, stopped, calm_rules, calm_runs}
use nsos.Fs.Calm.Drivers.{driver_rules}
use nsos.Fs.Calm.Walk.{path_lookup-IsCalm, make_path-IsCalm}
use nsos.Vfs.Calls.{
  set_descriptor, vfs_sem, with_kmt, sem_wait, sem_signal, leave, find_root, find_before,
  drop_mount, do_mount,
}

-- The counts after a signal of `vfs_sem`.
abbrev pub signalled : (Ptr → ℕ) → Ptr → ℕ
signalled f = update f vfs_sem ((f vfs_sem + 1) % 2 ^ 32)

-- A run from `s` that does not sleep, and that has signalled `vfs_sem` once if it ends.
pub data Released {A : Type 0} (s : Kernel) : Outcome Kernel A → Type 0 where
  given : {a : A} {s' : Kernel} → s'.kmt.sems ≡ signalled s.kmt.sems → Released s (done a s')
  ceased : {why : Stop} {s' : Kernel} → why ≢ asleep → Released s (stop why s')

pub record Releases {A : Type 0} (m : Run Kernel A) : Type 0 where
  at : (s : Kernel) → Released s (m s)

woken-sems : (b : Bool) (t : Ptr) (k : Kmt) → (if b then wake t k else k).sems ≡ k.sems
woken-sems true t k = refl
woken-sems false t k = refl

sem_signal-sems : (env : Env) (k : Kmt) → (kmt_sem_signal env vfs_sem k).sems ≡ signalled k.sems
unfolding kmt_sem_signal kmt_spin_lock kmt_spin_unlock
sem_signal-sems env k₀ =
    let k₁ = kmt_spin_lock env semaphore_lock k₀ in
    let k = record k₁ { sems = signalled k₁.sems } in
    woken-sems (leb (waiter vfs_sem k) kernel_max_thread) (k.thread_pool (waiter vfs_sem k)) k

pub leave-Releases : (env : Env) (r : ℕ) → Releases (leave env r)
unfolding sem_signal
leave-Releases env r = record { at = λ s. given (sem_signal-sems env s.kmt) }

pub if-Releases :
    {A : Type 0} (b : Bool) (m n : Run Kernel A)
    → Releases m
    → Releases n
    → Releases (if b then m else n)
if-Releases true m n hm hn = hm
if-Releases false m n hm hn = hn

released_later :
    {B : Type 0} {s s' : Kernel} {o : Outcome Kernel B}
    → s'.kmt.sems ≡ s.kmt.sems
    → Released s' o
    → Released s o
released_later h (given e) = given (e ∙ ap signalled h)
released_later h (ceased n) = ceased n

module _ {A B : Type 0} where
  then_Released :
      (s : Kernel) (o : Outcome Kernel A) (k : A → Run Kernel B)
      → Undisturbed s o
      → ((a : A) → Releases (k a))
      → Released s (and_then o k)
  then_Released s (done a s') k (ended h) hk = released_later (ap (λ q. q.0) h) ((hk a).at s')
  then_Released s (stop why s') k (stopped n) hk = ceased n

  pub bind-Releases :
      (m : Run Kernel A) (k : A → Run Kernel B)
      → IsCalm m
      → ((a : A) → Releases (k a))
      → Releases (m >>= k)
  bind-Releases m k hm hk = record { at = λ s. then_Released s (m s) k (hm.at s) hk }

  pub next-Releases :
      (m : Run Kernel A) (k : Run Kernel B) → IsCalm m → Releases k → Releases (m >> k)
  next-Releases m k hm hk = record { at = λ s. then_Released s (m s) (λ _. k) (hm.at s) (λ _. hk) }

-- A new descriptor changes the running thread only.
pub descriptor-Releases :
    {A : Type 0} (i p : Ptr) (m : Run Kernel A)
    → Releases m
    → Releases (modify (set_descriptor i p) >> m)
descriptor-Releases i p m h = record { at = λ s. released_later refl (h.at (set_descriptor i p s)) }

pub ruleset release_rules = (
  leave-Releases, if-Releases, bind-Releases, descriptor-Releases, next-Releases, driver_rules,
  path_lookup-IsCalm, make_path-IsCalm,
)

pub find_root-IsCalm : (fuel mntit d : ℕ) → IsCalm (find_root fuel mntit d)
unfolding find_root
find_root-IsCalm zero mntit d = search calm_runs
find_root-IsCalm (suc fuel) mntit d = record {
  at = λ s. let more = (find_root-IsCalm fuel (s.mounts mntit).next d).at s in search calm_runs;
}

find_before-IsCalm : (fuel m mntit : ℕ) → IsCalm (find_before fuel m mntit)
unfolding find_before
find_before-IsCalm zero m mntit = search calm_runs
find_before-IsCalm (suc fuel) m mntit = record {
  at = λ s. let more = (find_before-IsCalm fuel (s.mounts m).next mntit).at s in search calm_runs;
}

pub drop_mount-IsCalm : (env : Env) (fuel : ℕ) (m : Ptr) → IsCalm (drop_mount env fuel m)
unfolding drop_mount
drop_mount-IsCalm env fuel m = search (calm_rules, find_before-IsCalm) depth 20

pub do_mount-Releases :
    (env : Env) (fuel : ℕ) (fs : Driver) (d : Ptr) (nd : NameiData)
    → Releases (do_mount env fuel fs d nd)
unfolding do_mount
do_mount-Releases env fuel fs d nd = search release_rules depth 40 fits 4000

-- What a call leaves of the counts of the semaphores.
pub data Balanced {A : Type 0} (s : Kernel) : Outcome Kernel A → Type 0 where
  returned :
      {a : A} {s' : Kernel} → ((p : Ptr) → s'.kmt.sems p ≡ s.kmt.sems p) → Balanced s (done a s')
  slept : {s' : Kernel} → s.kmt.sems vfs_sem ≡ 0 → Balanced s (stop asleep s')
  halted : {why : Stop} {s' : Kernel} → why ≢ asleep → Balanced s (stop why s')

-- How a wait comes out.
pub data Waited (s : Kernel) : Outcome Kernel (Unit {0}) → Type 0 where
  entered :
      {s' : Kernel}
      → s.kmt.sems vfs_sem ≢ 0
      → s'.kmt.sems ≡ update s.kmt.sems vfs_sem (pred32 (s.kmt.sems vfs_sem))
      → Waited s (done tt s')
  refused : {s' : Kernel} → s.kmt.sems vfs_sem ≡ 0 → Waited s (stop asleep s')

waited :
    (s : Kernel) (none_left : Bool) (k k' : Kmt)
    → (none_left ≡ true → s.kmt.sems vfs_sem ≡ 0)
    → (none_left ≡ false → s.kmt.sems vfs_sem ≢ 0)
    → k'.sems ≡ update s.kmt.sems vfs_sem (pred32 (s.kmt.sems vfs_sem))
    → Waited s
        (elim (if none_left then stop asleep k else done tt k')
          as (λ x. Outcome Kernel (Unit {0})) [
            | done u k ↦ done tt (with_kmt s k)
            | stop why k ↦ stop why (with_kmt s k)
          ])
waited s true k k' h h' e = refused (h refl)
waited s false k k' h h' e = entered (h' refl) e

sem_wait-Waited : (env : Env) (s : Kernel) → Waited s (sem_wait env s)
unfolding sem_wait kmt_sem_wait kmt_spin_lock kmt_spin_unlock
sem_wait-Waited env s =
    waited s (s.kmt.sems vfs_sem == 0) _ _ (λ e. ground arith) (λ e. ground arith) refl

taken_and_given :
    (f : Ptr → ℕ) (p : Ptr)
    → f vfs_sem ≢ 0
    → f vfs_sem < 2 ^ 32
    → signalled (update f vfs_sem (pred32 (f vfs_sem))) p ≡ f p
taken_and_given f p ne lt =
    let count : (pred32 (f vfs_sem) + 1) % 2 ^ 32 ≡ f vfs_sem = omega arith in ground (arith, count)

-- A count that is taken and given back is as before.
restored :
    (f g h : Ptr → ℕ)
    → f vfs_sem ≢ 0
    → f vfs_sem < 2 ^ 32
    → g ≡ update f vfs_sem (pred32 (f vfs_sem))
    → h ≡ signalled g
    → (p : Ptr) → h p ≡ f p
restored f g h ne lt eg eh p = rw (eh, eg) (taken_and_given f p ne lt)

finished :
    {A : Type 0} (s s' : Kernel) (o : Outcome Kernel A)
    → s.kmt.sems vfs_sem ≢ 0
    → s.kmt.sems vfs_sem < 2 ^ 32
    → s'.kmt.sems ≡ update s.kmt.sems vfs_sem (pred32 (s.kmt.sems vfs_sem))
    → Released s' o
    → Balanced s o
finished s s' (done a s'') ne lt e (given h) =
    returned (restored s.kmt.sems s'.kmt.sems s''.kmt.sems ne lt e h)
finished s s' (stop why s'') ne lt e (ceased n) = halted n

section-Balanced :
    {A : Type 0} (env : Env) (m : Run Kernel A) (s : Kernel) (o : Outcome Kernel (Unit {0}))
    → s.kmt.sems vfs_sem < 2 ^ 32
    → Releases m
    → Waited s o
    → Balanced s (and_then o (λ _. m))
section-Balanced env m s (done u s') lt h (entered ne e) = finished s s' (m s') ne lt e (h.at s')
section-Balanced env m s (stop why s') lt h (refused z) = slept z

-- A call takes the semaphore first.
pub guarded-Balanced :
    {A : Type 0} (env : Env) (m : Run Kernel A) (s : Kernel)
    → s.kmt.sems vfs_sem < 2 ^ 32
    → Releases m
    → Balanced s ((sem_wait env >> m) s)
guarded-Balanced env m s lt h = section-Balanced env m s _ lt h (sem_wait-Waited env s)

pub ruleset call_rules = (release_rules, do_mount-Releases, drop_mount-IsCalm, find_root-IsCalm)
