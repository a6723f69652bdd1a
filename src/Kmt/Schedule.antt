-- ===== src/Kmt/Schedule.antt =====
-- The choice of the next thread in `kmt_schedule` of src/kmt.c.
use nsos.Prelude.{
  ℕ, zero, suc, ◌+◌, ◌-◌, ◌*◌, ◌%◌, ◌≤◌, ◌<◌, ◌≡◌, ◌⊎◌, inl, inr, refl, true, false, arith,
  Bool-cases, ◌∙◌, ap,
}
use native.Mathlib.Decide.{dec_lt}
use nsos.Machine.{done, stop, hang}
use nsos.Kmt.State.{kernel_max_thread, Kmt}
use nsos.Kmt.Threads.{is_runnable, next_slot, pick, is_intact, kmt_schedule}

-- The slot that the search from `i` looks at after `k` others.
abbrev pub nth_slot : ℕ → ℕ → ℕ
nth_slot i k = (i + k) % kernel_max_thread + 1

nth_slot-suc : (i k : ℕ) → nth_slot (next_slot i) k ≡ nth_slot i (suc k)
nth_slot-suc i k = omega arith

-- How many slots the search from `i` passes over before it comes to slot `t`.
abbrev pub distance : ℕ → ℕ → ℕ
distance i t = (t + 2 * kernel_max_thread - 1 - i % kernel_max_thread) % kernel_max_thread

nth_slot-distance : (i t : ℕ) → 1 ≤ t → t ≤ kernel_max_thread → nth_slot i (distance i t) ≡ t
nth_slot-distance i t lo hi = omega arith

distance-nth_slot : (i k t : ℕ) → k < distance i t → distance (nth_slot i k) t < distance i t
distance-nth_slot i k t h = omega arith

nearer :
    (i k t : ℕ)
    → 1 ≤ t
    → t ≤ kernel_max_thread
    → k ≤ distance i t
    → (nth_slot i k ≡ t) ⊎ (distance (nth_slot i k) t < distance i t)
nearer i k t lo hi le = elim (dec_lt k (distance i t)) [
  | yes lt ↦ inr (distance-nth_slot i k t lt)
  | no ge ↦
      inl
        (let e : k ≡ distance i t = omega arith in ap (nth_slot i) e ∙ nth_slot-distance i t lo hi)
]

-- What the search from `i` has found: the `k`-th slot, the first that can run.
pub record Picked (s : Kmt) (i k : ℕ) : Type 0 where
  pub runs : is_runnable s (nth_slot i k) ≡ true
  pub first : (m : ℕ) → m < k → is_runnable s (nth_slot i m) ≡ false

module _ (s : Kmt) where
  Picked-suc :
      {i j : ℕ}
      → is_runnable s (next_slot i) ≡ false
      → Picked s (next_slot i) j
      → Picked s i (suc j)
  Picked-suc {i} {j} skip p = record {
    runs = rw (← nth_slot-suc i j) p.runs;
    first = λ m h. below m h;
  }
    where
      below : (m : ℕ) → m < suc j → is_runnable s (nth_slot i m) ≡ false
      below zero h = let e : nth_slot i 0 ≡ next_slot i = omega arith in rw e skip
      below (suc m) h = rw (← nth_slot-suc i m) (p.first m (omega arith))

  pick-Picked :
      (fuel i k : ℕ)
      → k < fuel
      → is_runnable s (nth_slot i k) ≡ true
      → (j : ℕ) × (j ≤ k) × Picked s i j × (pick fuel i s ≡ done (nth_slot i j) s)
  unfolding pick
  pick-Picked zero i k lt runs = absurd (omega arith)
  pick-Picked (suc fuel) i zero lt runs =
      let e : nth_slot i 0 ≡ next_slot i = omega arith in
      let here : is_runnable s (next_slot i) ≡ true = rw (← e) runs in
      (0, omega arith, record { runs = runs; first = λ m h. absurd (omega arith) }, rw (here, e))
  pick-Picked (suc fuel) i (suc k) lt runs = elim (Bool-cases (is_runnable s (next_slot i))) [
    | inl here ↦
        let e : nth_slot i 0 ≡ next_slot i = omega arith in
        (
          0,
          omega arith,
          record { runs = rw e here; first = λ m h. absurd (omega arith) },
          rw (here, e),
        )
    | inr skip ↦
        let (j, le, p, e) =
          pick-Picked fuel (next_slot i) k (omega arith) (rw (nth_slot-suc i k) runs) in
        (suc j, omega arith, Picked-suc skip p, rw (skip, ← nth_slot-suc i j) e)
  ]

  pick-hang :
      ((t : ℕ) → 1 ≤ t → t ≤ kernel_max_thread → is_runnable s t ≡ false)
      → (fuel i : ℕ) → pick fuel i s ≡ stop hang s
  unfolding pick
  pick-hang none' zero i = refl
  pick-hang none' (suc fuel) i =
      rw (none' (next_slot i) (omega arith) (omega arith)) (pick-hang none' fuel (next_slot i))

-- If the pool and the current stack are intact and the thread in slot `t` can run, 1024 rounds of
-- the loop are enough, and the scheduler picks the first slot behind the current one, going round
-- the pool, whose thread can run; it changes nothing but the current index.
pub kmt_schedule-Picked :
    (s : Kmt) (fuel t : ℕ)
    → is_intact s ≡ true
    → kernel_max_thread ≤ fuel
    → 1 ≤ t
    → t ≤ kernel_max_thread
    → is_runnable s t ≡ true
    → (k : ℕ) × (k < kernel_max_thread)
      × Picked s s.current_thread_index k
      × (let i = nth_slot s.current_thread_index k in
          kmt_schedule fuel s ≡ done (s.thread_pool i) (record s { current_thread_index = i }))
unfolding kmt_schedule
kmt_schedule-Picked s fuel t intact enough lo hi runs =
    let cur = s.current_thread_index in
    let (k, le, p, e) =
      pick-Picked s fuel cur (distance cur t) (omega arith)
        (rw (nth_slot-distance cur t lo hi) runs) in
    (k, omega arith, p, rw (intact, e))

-- A call of the scheduler either picks slot `t`, whose thread can run, or comes nearer to it.
pub kmt_schedule-distance :
    (s : Kmt) (fuel t : ℕ)
    → is_intact s ≡ true
    → kernel_max_thread ≤ fuel
    → 1 ≤ t
    → t ≤ kernel_max_thread
    → is_runnable s t ≡ true
    → (i : ℕ) × (kmt_schedule fuel s
        ≡ done (s.thread_pool i) (record s { current_thread_index = i }))
      × ((i ≡ t) ⊎ (distance i t < distance s.current_thread_index t))
      × (distance s.current_thread_index t < kernel_max_thread)
unfolding kmt_schedule
kmt_schedule-distance s fuel t intact enough lo hi runs =
    let cur = s.current_thread_index in
    let at = nth_slot-distance cur t lo hi in
    let (k, le, p, e) = pick-Picked s fuel cur (distance cur t) (omega arith) (rw at runs) in
    (nth_slot cur k, rw (intact, e), nearer cur k t lo hi le, omega arith)

-- With the pool and the current stack intact and no thread that can run, the loop does not end, whatever its fuel.
pub kmt_schedule-hang :
    (s : Kmt) (fuel : ℕ)
    → is_intact s ≡ true
    → ((t : ℕ) → 1 ≤ t → t ≤ kernel_max_thread → is_runnable s t ≡ false)
    → kmt_schedule fuel s ≡ stop hang s
unfolding kmt_schedule
kmt_schedule-hang s fuel intact none' = rw (intact, pick-hang s none' fuel s.current_thread_index)
