-- ===== src/Kmt/Tests.antt =====
-- Tests of src/kmt.c.
use nsos.Prelude.{
  ℕ, zero, suc, ◌+◌, ◌≤◌, ◌<◌, ◌≡◌, ◌≢◌, ◌↔◌, ◌⊎◌, inr, refl, false, true, arith, ◌==◌,
  if◌then◌else◌, leb,
}
use nsos.Machine.{done, stop, hang, state_of}
use nsos.Lock.{thread_lock}
use nsos.Kmt.State.{kernel_max_thread, minus_one, Kmt, scan, kmt_spin_lock, kmt_spin_unlock}
use nsos.Kmt.Threads.{is_runnable, is_intact, pick, kmt_schedule, kmt_create, kmt_teardown}
use nsos.Kmt.Semaphore.{kmt_sem_init, kmt_sem_wait}
use nsos.Kmt.Schedule.{nth_slot, Picked, kmt_schedule-Picked, kmt_schedule-hang}
use nsos.Kmt.Fair.{Follows, kmt_schedule-fair}
use nsos.Kmt.Mutex.{Reach, begin, enter, block, Reach-count}
use nsos.Kmt.Life.{Created, Full, kmt_create-Created}
use nsos.Kmt.Teardown.{InPool, Undone, kmt_teardown-InPool, kmt_teardown-kmt_create}
use nsos.Example.{env, kmt, pool}

kmt_schedule-Picked_example :
    (k : ℕ) × (k < kernel_max_thread)
    × Picked kmt 3 k
    × (let i = nth_slot 3 k in
        kmt_schedule 1024 kmt ≡ done (pool i) (record kmt { current_thread_index = i }))
unfolding is_runnable is_intact
kmt_schedule-Picked_example =
    kmt_schedule-Picked kmt 1024 5 refl (omega arith) (omega arith) (omega arith) refl

-- The thread that runs has gone to sleep, and no other is there.
abbrev idle_kmt : Kmt
idle_kmt = record kmt {
  thread_pool = λ i. if leb 1 i then (if leb i 1024 then 900 else pool i) else pool i;
}

idle_lem : (t : ℕ) → 1 ≤ t → t ≤ kernel_max_thread → is_runnable idle_kmt t ≡ false
unfolding is_runnable
idle_lem t lo hi = ground arith

kmt_schedule-hang_example : kmt_schedule 2000 idle_kmt ≡ stop hang idle_kmt
unfolding is_intact
kmt_schedule-hang_example = kmt_schedule-hang idle_kmt 2000 refl idle_lem

-- The thread in slot 3 enters through a semaphore of value 1, and the one in slot 5 goes to sleep.
abbrev after_enter : Kmt
after_enter =
    state_of (kmt_sem_wait env 77 (record (kmt_sem_init 77 1 kmt) { current_thread_index = 3 }))

abbrev after_block : Kmt
after_block = state_of (kmt_sem_wait env 77 (record after_enter { current_thread_index = 5 }))

after_block-Reach : Reach env 77 1 after_block 1
unfolding kmt_sem_init kmt_sem_wait kmt_spin_lock kmt_spin_unlock
after_block-Reach =
    block after_enter after_block 5 1
      (enter (kmt_sem_init 77 1 kmt) after_enter 3 0 (begin kmt) refl) refl

Reach-count_example : after_block.sems 77 + 1 ≡ 1
Reach-count_example = Reach-count env 77 1 after_block 1 (omega arith) after_block-Reach

kmt_create-Created_example :
    let r = kmt_create env 300 400 0 kmt in
    ((r.0 ≡ 0) × ((k : ℕ) × Created 300 kmt r.1 k)) ⊎ ((r.0 ≡ minus_one) × Full kmt r.1)
kmt_create-Created_example = kmt_create-Created env 300 400 0 kmt (λ e. absurd (omega (arith, e)))

pool_lem : (m : ℕ) → 1 ≤ m → m ≤ kernel_max_thread → pool m ≢ 300
pool_lem m lo hi = ground arith

kmt_teardown-kmt_create_example :
    (s' : Kmt) × (kmt_teardown env 300 (kmt_create env 300 400 0 kmt).1 ≡ done tt s')
    × Undone env 300 kmt s'
unfolding kmt_create scan kmt_spin_lock
kmt_teardown-kmt_create_example =
    kmt_teardown-kmt_create env 300 400 0 kmt pool_lem refl (inr (λ e. absurd (omega (arith, e))))
      (omega arith)

-- The thread at 300 is in no slot.
kmt_teardown-InPool_example :
    ((kmt_spin_lock env thread_lock kmt).locks.status thread_lock ≡ 0) ↔ InPool env 300 kmt
unfolding kmt_teardown scan kmt_spin_lock
kmt_teardown-InPool_example =
    kmt_teardown-InPool env 300 kmt (kmt_spin_lock env thread_lock kmt) refl

-- The thread that ran goes to sleep, and only the one in slot 5 can run from then on.
abbrev lone : ℕ → Kmt
lone zero = record kmt { thread_pool = λ i. if i == 3 then 900 else pool i }
lone (suc n) = record kmt {
  thread_pool = λ i. if i == 3 then 900 else pool i;
  current_thread_index = 5;
}

lone-Follows : Follows 1024 lone
unfolding kmt_schedule is_intact pick is_runnable
lone-Follows zero = refl
lone-Follows (suc n) = refl

lone_intact : (n : ℕ) → is_intact (lone n) ≡ true
unfolding is_intact
lone_intact zero = refl
lone_intact (suc n) = refl

lone_runs : (n : ℕ) → is_runnable (lone n) 5 ≡ true
unfolding is_runnable
lone_runs zero = refl
lone_runs (suc n) = refl

kmt_schedule-fair_example :
    (n : ℕ) × (n < kernel_max_thread)
    × (kmt_schedule 1024 (lone n)
        ≡ done ((lone n).thread_pool 5) (record (lone n) { current_thread_index = 5 }))
kmt_schedule-fair_example =
    kmt_schedule-fair 1024 5 lone (omega arith) (omega arith) (omega arith) lone-Follows lone_intact
      lone_runs
