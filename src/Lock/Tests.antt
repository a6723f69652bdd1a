-- ===== src/Lock/Tests.antt =====
-- Tests of the spinlocks of src/libos/simple_lock.c.
use nsos.Prelude.{◌≡◌, refl, arith}
use nsos.Lock.{thread_lock, kernel_memory_lock, semaphore_lock, simple_lock_try}
use nsos.Lock.Nesting.{Region, idle, both, holding, Restored, run_region, run_region-Restored}
use nsos.Example.{env, env-ReadsBack, locks}

-- The allocator is called with the lock of the threads held; then a semaphore is used.
abbrev create_and_signal : Region
create_and_signal =
    both (holding thread_lock (holding kernel_memory_lock idle)) (holding semaphore_lock idle)

run_region-Restored_example : Restored env locks (run_region env create_and_signal locks)
run_region-Restored_example =
    run_region-Restored env env-ReadsBack create_and_signal locks ((refl, (refl, tt)), (refl, tt))
      (omega arith) (λ h. absurd (h refl))

-- Taking a lock that is taken returns as well, with the interrupts off.
taken_twice :
    (simple_lock_try env thread_lock (simple_lock_try env thread_lock locks)).lockcount ≡ 1
unfolding simple_lock_try
taken_twice = refl
