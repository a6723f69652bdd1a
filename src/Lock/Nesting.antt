-- ===== src/Lock/Nesting.antt =====
-- Well-nested use of the spinlocks of src/libos/simple_lock.c.
use nsos.Prelude.{ℕ, ◌+◌, ◌^◌, ◌<◌, ◌≡◌, refl, fun_ext, ap, ◌∙◌, true, false, ◌≢◌, arith}
use nsos.Machine.{Env, ReadsBack}
use nsos.Lock.{
  Lock, kernel_memory_lock, thread_lock, semaphore_lock, console_lock, lock_eq, Locks, set_status,
  simple_lock_try, simple_lock_unlock,
}

-- Code that takes and releases locks in pairs.
pub data Region : Type 0 where
  idle : Region
  both : Region → Region → Region
  holding : Lock → Region → Region

-- No lock is taken while it is held.
abbrev pub IsFree : Region → (Lock → ℕ) → Type 0
IsFree idle st = Unit
IsFree (both a b) st = IsFree a st × IsFree b st
IsFree (holding lk r) st = (st lk ≡ 0) × IsFree r (set_status st lk 1)

abbrev pub depth : Region → ℕ
depth idle = 0
depth (both a b) = depth a + depth b
depth (holding lk r) = depth r + 1

lock_eq_refl : (lk : Lock) → lock_eq lk lk ≡ true
lock_eq_refl kernel_memory_lock = refl
lock_eq_refl thread_lock = refl
lock_eq_refl semaphore_lock = refl
lock_eq_refl console_lock = refl

lock_eq_sound : (a b : Lock) → lock_eq a b ≡ true → a ≡ b
lock_eq_sound a b h = ground arith

module _ (env : Env) where
  unfoldable pub run_region : Region → Locks → Locks
  run_region idle s = s
  run_region (both a b) s = run_region b (run_region a s)
  run_region (holding lk r) s = simple_lock_unlock lk (run_region r (simple_lock_try env lk s))

  -- Interrupts are off while a lock is held.
  abbrev pub IsMasked : Locks → Type 0
  IsMasked s = s.lockcount ≢ 0 → env.intr_read s.intr_log ≡ false

  pub record Restored (s s' : Locks) : Type 0 where
    pub count : s'.lockcount ≡ s.lockcount
    pub status : s'.status ≡ s.status
    pub flag : env.intr_read s'.intr_log ≡ env.intr_read s.intr_log
    pub release : s.lockcount ≢ 0 → s'.release_intr ≡ s.release_intr

  record Taken (lk : Lock) (s s' : Locks) : Type 0 where
    count : s'.lockcount ≡ s.lockcount + 1
    status : s'.status ≡ set_status s.status lk 1
    flag : env.intr_read s'.intr_log ≡ false
    first : s.lockcount ≡ 0 → s'.release_intr ≡ env.intr_read s.intr_log
    later : s.lockcount ≢ 0 → s'.release_intr ≡ s.release_intr

  simple_lock_try-Taken :
      ReadsBack env
      → (lk : Lock) (s : Locks) → s.status lk ≡ 0
      → s.lockcount + 1 < 2 ^ 32
      → Taken lk s (simple_lock_try env lk s)
  unfolding simple_lock_try
  simple_lock_try-Taken back lk s free small = ground (arith, back false s.intr_log)

  status_restored :
      (lk : Lock) (st : Lock → ℕ) → st lk ≡ 0 → set_status (set_status st lk 1) lk 0 ≡ st
  status_restored lk st free = fun_ext λ x. ground (arith, lock_eq_sound lk x)

  -- Release after a section that restored what the taking of the lock had left.
  simple_lock_unlock-Restored :
      ReadsBack env
      → (lk : Lock) (s s₁ s₂ : Locks) → s.status lk ≡ 0
      → s.lockcount + 1 < 2 ^ 32
      → IsMasked s
      → Taken lk s s₁
      → Restored s₁ s₂
      → Restored s (simple_lock_unlock lk s₂)
  unfolding simple_lock_unlock
  simple_lock_unlock-Restored back lk s s₁ s₂ free small masked t r =
      let held : s₂.status lk ≡ 1 = ground (
        arith,
        ap (λ (f : Lock → ℕ). f lk) r.status,
        ap (λ (f : Lock → ℕ). f lk) t.status,
        lock_eq_refl lk,
      ) in
      let freed : set_status s₂.status lk 0 ≡ s.status =
        rw (r.status, t.status) (status_restored lk s.status free) in
      let base : s₁.lockcount ≢ 0 = omega arith in
      ground (arith, freed, base, back true s₂.intr_log)

  -- Code that takes and releases free locks in pairs, however nested, gives back the lock count,
  -- the status of every lock and the interrupt flag, and inside an outer lock also the flag that
  -- was saved for its release. The flag reads back, it is off where a lock is held, and the count
  -- does not reach 2 ^ 32.
  pub run_region-Restored :
      ReadsBack env
      → (r : Region) (s : Locks) → IsFree r s.status
      → s.lockcount + depth r < 2 ^ 32
      → IsMasked s
      → Restored s (run_region r s)
  unfolding run_region
  run_region-Restored back idle s free small masked = record {
    count = refl;
    status = refl;
    flag = refl;
    release = λ _. refl;
  }
  run_region-Restored back (both a b) s free small masked =
      let first = run_region-Restored back a s free.0 (omega arith) masked in
      let second =
        run_region-Restored back b (run_region a s) (rw first.status free.1) (omega arith)
          (λ h. rw first.flag (masked (omega arith))) in
      record {
        count = second.count ∙ first.count;
        status = second.status ∙ first.status;
        flag = second.flag ∙ first.flag;
        release = λ h. second.release (omega arith) ∙ first.release h;
      }
  run_region-Restored back (holding lk r) s free small masked =
      let taken = simple_lock_try-Taken back lk s free.0 (omega arith) in
      let inner =
        run_region-Restored back r (simple_lock_try env lk s) (rw taken.status free.1) (omega arith)
          (λ _. taken.flag) in
      simple_lock_unlock-Restored back lk s _ _ free.0 (omega arith) masked taken inner
