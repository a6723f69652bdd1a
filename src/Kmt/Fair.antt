-- ===== src/Kmt/Fair.antt =====
-- Sequences of calls of `kmt_schedule` of src/kmt.c.
use nsos.Prelude.{ℕ, zero, suc, ◌+◌, ◌≤◌, ◌<◌, ◌≡◌, inl, inr, true, arith, ap, ◌∙◌}
use nsos.Machine.{Outcome, done, state_of}
use nsos.Kmt.State.{kernel_max_thread, Kmt}
use nsos.Kmt.Threads.{is_runnable, is_intact, kmt_schedule}
use nsos.Kmt.Schedule.{distance, kmt_schedule-distance}

-- Whatever happens between two calls of the scheduler: the second finds the current index as the
-- first left it.
abbrev pub Follows : ℕ → (ℕ → Kmt) → Type 0
Follows fuel states =
    (n : ℕ)
    → (states (suc n)).current_thread_index
      ≡ (state_of (kmt_schedule fuel (states n))).current_thread_index

module _ (fuel t : ℕ) (states : ℕ → Kmt) (enough : kernel_max_thread ≤ fuel) (low : 1 ≤ t)
    (high : t ≤ kernel_max_thread) (follows : Follows fuel states)
    (intact : (n : ℕ) → is_intact (states n) ≡ true)
    (runs : (n : ℕ) → is_runnable (states n) t ≡ true) where
  abbrev PickedAt : ℕ → Type 0
  PickedAt n =
      kmt_schedule fuel (states n)
      ≡ done ((states n).thread_pool t) (record (states n) { current_thread_index = t })

  picked-within :
      (d m : ℕ)
      → distance (states m).current_thread_index t < d
      → (n : ℕ) × (n < m + d) × PickedAt n
  picked-within zero m near = absurd (omega arith)
  picked-within (suc d) m near =
      let (i, e, way, small) =
        kmt_schedule-distance (states m) fuel t (intact m) enough low high (runs m) in
      elim way [
        | inl here ↦ (m, omega arith, rw here at e)
        | inr nearer ↦
            let next : (states (suc m)).current_thread_index ≡ i =
              follows m ∙ ap (λ (o : Outcome Kmt ℕ). (state_of o).current_thread_index) e in
            let (n, le, p) = picked-within d (suc m) (rw next (omega arith)) in (n, omega arith, p)
      ]

  -- If the thread in slot `t` can run, and the pool and the current stack are intact, at every
  -- call of the scheduler, then one of the first 1024 calls picks slot `t`, whatever else happens
  -- between the calls.
  pub kmt_schedule-fair : (n : ℕ) × (n < kernel_max_thread) × PickedAt n
  kmt_schedule-fair =
      let (i, e, way, small) =
        kmt_schedule-distance (states 0) fuel t (intact 0) enough low high (runs 0) in
      let (n, le, p) = picked-within 1024 0 (omega arith) in (n, omega arith, p)
