-- ===== src/Kmt/Mutex.antt =====
-- Threads that use the waits and signals of src/kmt.c in pairs.
use nsos.Prelude.{
  ℕ, suc, ◌+◌, ◌%◌, ◌^◌, ◌<◌, ◌≡◌, ◌≢◌, refl, arith, ◌==◌, ==_refl, Bool-cases, inl, inr,
}
use nsos.Machine.{Ptr, Env, Outcome, done, stop, asleep}
use nsos.Kmt.State.{Kmt, pred32, kmt_spin_lock, kmt_spin_unlock}
use nsos.Kmt.Semaphore.{kmt_sem_init, kmt_sem_wait, kmt_sem_signal}

-- The states that are reached from the initialisation of `sem` with `value`, and how many threads
-- are then between their wait and their signal. A step is one pass of a wait by the thread in
-- some slot, a signal by a thread that is inside, or any step that leaves the count as it is.
pub data Reach (env : Env) (sem : Ptr) (value : ℕ) : Kmt → ℕ → Type 0 where
  begin : (s : Kmt) → Reach env sem value (kmt_sem_init sem value s) 0
  enter :
      (s s' : Kmt) (i n : ℕ)
      → Reach env sem value s n
      → kmt_sem_wait env sem (record s { current_thread_index = i }) ≡ done tt s'
      → Reach env sem value s' (suc n)
  block :
      (s s' : Kmt) (i n : ℕ)
      → Reach env sem value s n
      → kmt_sem_wait env sem (record s { current_thread_index = i }) ≡ stop asleep s'
      → Reach env sem value s' n
  leave :
      (s : Kmt) (n : ℕ)
      → Reach env sem value s (suc n)
      → Reach env sem value (kmt_sem_signal env sem s) n
  other :
      (s s' : Kmt) (n : ℕ)
      → Reach env sem value s n
      → s'.sems sem ≡ s.sems sem
      → Reach env sem value s' n

-- The count of a semaphore after one pass of a wait.
abbrev Passed : Ptr → Kmt → Outcome Kmt (Unit {0}) → Type 0
Passed sem s (done u s') = (s.sems sem ≢ 0) × (s'.sems sem ≡ pred32 (s.sems sem))
Passed sem s (stop why s') = s'.sems sem ≡ s.sems sem

module _ (env : Env) (sem : Ptr) where
  kmt_sem_wait-Passed : (s : Kmt) → Passed sem s (kmt_sem_wait env sem s)
  unfolding kmt_sem_wait kmt_spin_lock kmt_spin_unlock
  kmt_sem_wait-Passed s = elim (Bool-cases (s.sems sem == 0)) [
    | inl zero' ↦ rw (zero', kmt_sem_wait) refl
    | inr more ↦ rw (more, kmt_sem_wait) (ground arith, rw (==_refl sem) refl)
  ]

  kmt_sem_signal-count : (s : Kmt) → (kmt_sem_signal env sem s).sems sem ≡ (s.sems sem + 1) % 2 ^ 32
  unfolding kmt_sem_signal kmt_spin_lock kmt_spin_unlock
  kmt_sem_signal-count s = ground (arith, ==_refl sem)

  -- In every state that is reached, the count and the threads inside make up the initial value: a
  -- semaphore that begins with `value` lets at most `value` threads in, and the count neither
  -- drops below 0 nor wraps round.
  pub Reach-count :
      (value : ℕ) (s : Kmt) (n : ℕ)
      → value < 2 ^ 32
      → Reach env sem value s n
      → s.sems sem + n ≡ value
  unfolding kmt_sem_init
  Reach-count value s n small (begin s₀) = rw (==_refl sem) (omega arith)
  Reach-count value s n small (enter s₀ s' i m r e) =
      let ih = Reach-count value s₀ m small r in
      let p = kmt_sem_wait-Passed (record s₀ { current_thread_index = i }) in
      let q : Passed sem (record s₀ { current_thread_index = i }) (done tt s') = rw e at p in
      omega (arith, ih, q.1, q.0)
  Reach-count value s n small (block s₀ s' i m r e) =
      let ih = Reach-count value s₀ m small r in
      let p = kmt_sem_wait-Passed (record s₀ { current_thread_index = i }) in
      let q : Passed sem (record s₀ { current_thread_index = i }) (stop asleep s') = rw e at p in
      omega (arith, ih, q)
  Reach-count value s n small (leave s₀ m r) =
      omega (arith, Reach-count value s₀ (suc m) small r, kmt_sem_signal-count s₀)
  Reach-count value s n small (other s₀ s' m r e) = omega (arith, Reach-count value s₀ m small r, e)
