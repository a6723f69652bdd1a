-- ===== src/Kmt/Semaphore.antt =====
-- The semaphores of src/kmt.c.
use nsos.Prelude.{ℕ, ◌+◌, ◌%◌, ◌^◌, Bool, false, leb, ◌==◌, if◌then◌else◌}
use nsos.Machine.{Ptr, null, Env, Run, done, stop, asleep}
use nsos.Lock.{semaphore_lock}
use nsos.Kmt.State.{kernel_max_thread, Kmt, update, scan, pred32, kmt_spin_lock, kmt_spin_unlock}

unfoldable pub kmt_sem_init : Ptr → ℕ → Kmt → Kmt
kmt_sem_init sem value s = record s { sems = update s.sems sem value }

-- The thread at `t` goes to sleep on `sem`.
abbrev pub put_to_sleep : Ptr → Ptr → Kmt → Kmt
put_to_sleep t sem s = record s {
  threads = update s.threads t (record (s.threads t) { current_waiting = sem; sleep = 1 });
}

abbrev pub wake : Ptr → Kmt → Kmt
wake t s = record s {
  threads = update s.threads t (record (s.threads t) { sleep = 0; current_waiting = null });
}

abbrev pub is_waiting : Ptr → Kmt → ℕ → Bool
is_waiting sem s i =
    let t = s.threads (s.thread_pool i) in if t.sleep == 0 then false else t.current_waiting == sem

-- The slot of the first thread that sleeps on `sem`.
abbrev pub waiter : Ptr → Kmt → ℕ
waiter sem s = scan (is_waiting sem s) kernel_max_thread 1

module _ (env : Env) where
  -- One pass of `kmt_sem_wait`, from the taking of `semaphore_lock`. A thread that finds the count
  -- at 0 ends its pass asleep, with the lock released; once woken it makes the same pass again.
  unfoldable pub kmt_sem_wait : Ptr → Run Kmt (Unit {0})
  kmt_sem_wait sem s₀ =
      let s = kmt_spin_lock env semaphore_lock s₀ in
      let me = s.thread_pool s.current_thread_index in
      if s.sems sem == 0
      then stop asleep (kmt_spin_unlock semaphore_lock (put_to_sleep me sem s))
      else done tt (
          kmt_spin_unlock semaphore_lock
            (record s { sems = update s.sems sem (pred32 (s.sems sem)) }))

  unfoldable pub kmt_sem_signal : Ptr → Kmt → Kmt
  kmt_sem_signal sem s₀ =
      let s₁ = kmt_spin_lock env semaphore_lock s₀ in
      let s = record s₁ { sems = update s₁.sems sem ((s₁.sems sem + 1) % 2 ^ 32) } in
      let i = waiter sem s in
      kmt_spin_unlock semaphore_lock
        (if leb i kernel_max_thread then wake (s.thread_pool i) s else s)
