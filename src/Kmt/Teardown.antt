-- ===== src/Kmt/Teardown.antt =====
-- `kmt_teardown` of src/kmt.c, alone and after `kmt_create`.
use nsos.Prelude.{
  ℕ, ◌+◌, ◌^◌, ◌≤◌, ◌<◌, ◌≡◌, ◌≢◌, ◌↔◌, ◌⊎◌, refl, sym, fun_ext, ap, ◌∙◌, ◌∷◌, arith, true, false,
  ◌==◌, ltb, ==_refl, ==_ne, ==_iff, Bool-cases, inl, inr,
}
use nsos.Machine.{Ptr, null, Env, alloc_call, free_call, Outcome, done, stop, state_of}
use nsos.Lock.{Locks, thread_lock, simple_lock_try}
use nsos.Kmt.State.{
  kernel_max_thread, minus_one, stack_size, Kmt, pred32, update, fences_intact, allocated,
  kmt_spin_lock, kmt_spin_unlock, record_free,
}
use nsos.Kmt.Threads.{slot_of, fill_slot, kmt_create, kmt_teardown}
use nsos.Kmt.Life.{Found-unique, scan-Found, unlocked, locked, kmt_create-full, kmt_create-fill}

module _ (env : Env) (thread : Ptr) where
  -- Some slot of the pool holds the thread.
  abbrev pub InPool : Kmt → Type 0
  InPool s = (k : ℕ) × (1 ≤ k) × (k ≤ kernel_max_thread) × (s.thread_pool k ≡ thread)

  taken : (s : Locks) → (simple_lock_try env thread_lock s).status thread_lock ≡ 1
  unfolding simple_lock_try
  taken s = ground arith

  slot_of-InPool : (s : Kmt) → (ltb kernel_max_thread (slot_of thread s) ≡ false) ↔ InPool s
  slot_of-InPool s =
      let f = scan-Found (λ i. s.thread_pool i == thread) kernel_max_thread 1 in
      (
        λ room. (slot_of thread s, f.low, ground arith, (==_iff _ thread).0 (f.hit (ground arith))),
        λ h. elim (Bool-cases (ltb kernel_max_thread (slot_of thread s))) [
          | inl full ↦ absurd (ground (arith, f.first h.0 h.1, ==_refl thread))
          | inr room ↦ room
        ],
      )

  kmt_teardown-missing :
      (s : Kmt)
      → ltb kernel_max_thread (slot_of thread s) ≡ true
      → kmt_teardown env thread s ≡ done tt (locked env s)
  unfolding kmt_teardown kmt_spin_lock
  kmt_teardown-missing s full = rw full refl

  kmt_teardown-present :
      (s : Kmt) (k : ℕ)
      → slot_of thread s ≡ k
      → k ≤ kernel_max_thread
      → (k == s.current_thread_index) ≡ false
      → fences_intact s.bytes (s.threads (s.thread_pool k)) ≡ true
      → kmt_teardown env thread s
        ≡ done tt (
            kmt_spin_unlock thread_lock
              (record (record_free
                (pred32 (s.threads (s.thread_pool k)).stack_start)
                (locked env s)) { thread_pool = update s.thread_pool k null }))
  unfolding kmt_teardown kmt_spin_lock
  kmt_teardown-present s k at room other intact =
      let in_range : ltb kernel_max_thread k ≡ false = ground arith in
      rw (at, in_range, other, intact) refl

  -- A run that returns leaves the lock of the threads free.
  abbrev Unlocks : Outcome Kmt (Unit {0}) → Type 0
  Unlocks (done u s) = s.locks.status thread_lock ≡ 0
  Unlocks (stop why s) = Unit

  kmt_teardown-Unlocks :
      (s : Kmt)
      → ltb kernel_max_thread (slot_of thread s) ≡ false
      → Unlocks (kmt_teardown env thread s)
  unfolding kmt_teardown kmt_spin_lock kmt_spin_unlock
  kmt_teardown-Unlocks s room =
      let slot = slot_of thread s in
      elim (Bool-cases (slot == s.current_thread_index)) [
        | inl me ↦ rw (room, me, kmt_teardown) tt
        | inr ne ↦ elim (Bool-cases (fences_intact s.bytes (s.threads (s.thread_pool slot)))) [
          | inl ok ↦ rw (room, ne, ok, kmt_teardown) (unlocked _)
          | inr bad ↦ rw (room, ne, bad, kmt_teardown) tt
        ]
      ]

  -- A teardown that returns leaves the lock of the threads free exactly when the thread was in
  -- the pool. For another thread it returns with the lock taken.
  pub kmt_teardown-InPool :
      (s s' : Kmt)
      → kmt_teardown env thread s ≡ done tt s'
      → (s'.locks.status thread_lock ≡ 0) ↔ InPool s
  unfolding kmt_spin_lock
  kmt_teardown-InPool s s' e = elim (Bool-cases (ltb kernel_max_thread (slot_of thread s))) [
    | inl full ↦
        let same =
          ap (λ (o : Outcome Kmt (Unit {0})). (state_of o).locks.status thread_lock)
            (sym (kmt_teardown-missing s full) ∙ e) in
        (
          λ free. absurd (omega (arith, same, taken s.locks, free)),
          λ h. absurd (ground (arith, (slot_of-InPool s).1 h, full)),
        )
    | inr room ↦ (λ _. (slot_of-InPool s).0 room, λ _. rw e at (kmt_teardown-Unlocks s room))
  ]

-- The index of the running thread is -1, or its slot is not empty.
abbrev pub IsRunning : Kmt → Type 0
IsRunning s = (s.current_thread_index ≡ minus_one) ⊎ (s.thread_pool s.current_thread_index ≢ null)

-- Creating a thread and tearing it down gives back the pool, the other threads and the one block
-- that was allocated, and leaves the lock of the threads free.
pub record Undone (env : Env) (thread : Ptr) (s s' : Kmt) : Type 0 where
  pub pool : s'.thread_pool ≡ s.thread_pool
  pub heap :
      s'.heap ≡ free_call (allocated env (stack_size + 2) s) ∷ alloc_call (stack_size + 2) ∷ s.heap
  pub others : (p : Ptr) → p ≢ thread → s'.threads p ≡ s.threads p
  pub lock : s'.locks.status thread_lock ≡ 0

module _ (env : Env) (thread entry arg : Ptr) (s : Kmt) where
  abbrev slot : ℕ
  slot = slot_of null s

  abbrev filled : Kmt
  filled = kmt_spin_unlock thread_lock (fill_slot env slot thread entry arg (locked env s))

  pool_restored :
      (pool : ℕ → Ptr) (k : ℕ) → pool k ≡ null → update (update pool k thread) k null ≡ pool
  pool_restored pool k free = fun_ext λ x. ground (arith, free)

  slot_of-filled :
      ((m : ℕ) → 1 ≤ m → m ≤ kernel_max_thread → s.thread_pool m ≢ thread)
      → (1 ≤ slot) × (slot ≤ kernel_max_thread)
      → slot_of thread filled ≡ slot
  unfolding fill_slot kmt_spin_unlock kmt_spin_lock
  slot_of-filled absent room =
      Found-unique (λ i. filled.thread_pool i == thread) kernel_max_thread 1 (slot_of thread filled)
        slot (scan-Found _ kernel_max_thread 1) room.0 (omega arith)
        (rw (==_refl slot, ==_refl thread) refl)
        (λ m lo lt.
          let e : (slot == m) ≡ false = ground arith in
          rw e (==_ne (s.thread_pool m) thread (absent m lo (omega arith))))

  filled-teardown :
      slot_of thread filled ≡ slot
      → (slot == s.current_thread_index) ≡ false
      → slot ≤ kernel_max_thread
      → s.thread_pool slot ≡ null
      → allocated env (stack_size + 2) s + 1 < 2 ^ 32
      → (s' : Kmt) × (kmt_teardown env thread filled ≡ done tt s') × Undone env thread s s'
  unfolding fill_slot kmt_spin_unlock kmt_spin_lock
  filled-teardown at other room free small =
      let e =
        kmt_teardown-present env thread filled slot at room other
          (rw (==_refl slot, ==_refl thread) (ground arith)) in
      let back : pred32 (allocated env (stack_size + 2) s + 1) ≡ allocated env (stack_size + 2) s =
        omega arith in
      (
        _,
        e,
        record {
          pool = pool_restored s.thread_pool slot free;
          heap = rw (==_refl slot, ==_refl thread, back) refl;
          others = λ p h. rw (==_ne thread p (λ q. h (sym q))) refl;
          lock = unlocked _;
        },
      )

  -- A thread that is not in the pool is created, and then torn down by another thread: both calls
  -- succeed. Afterwards the pool and every other thread are as before, the lock of the threads is
  -- free, and the one block that was allocated has been given back. The index of the running thread
  -- is -1 or its slot is not empty, and the block's address is at most 2 ^ 32 - 2.
  pub kmt_teardown-kmt_create :
      ((m : ℕ) → 1 ≤ m → m ≤ kernel_max_thread → s.thread_pool m ≢ thread)
      → (kmt_create env thread entry arg s).0 ≡ 0
      → IsRunning s
      → allocated env (stack_size + 2) s + 1 < 2 ^ 32
      → (s' : Kmt) × (kmt_teardown env thread (kmt_create env thread entry arg s).1 ≡ done tt s')
        × Undone env thread s s'
  kmt_teardown-kmt_create absent zero' running small =
      let f = scan-Found (λ i. s.thread_pool i == null) kernel_max_thread 1 in
      elim (Bool-cases (ltb kernel_max_thread slot)) [
        | inl full ↦
            absurd (omega (arith, rw (kmt_create-full env thread entry arg s full) at zero'))
        | inr room ↦
            let le : slot ≤ kernel_max_thread = ground arith in
            let free = (==_iff _ null).0 (f.hit (omega arith)) in
            let other : (slot == s.current_thread_index) ≡ false =
              elim (Bool-cases (slot == s.current_thread_index)) [
                | inr ne' ↦ ne'
                | inl me ↦
                    let same : slot ≡ s.current_thread_index = ground arith in
                    absurd
                      (elim running [ inl none' ↦ omega arith | inr used ↦ used (rw same at free) ])
              ] in
            rw (kmt_create-fill env thread entry arg s room)
              (filled-teardown (slot_of-filled absent (f.low, le)) other le free small)
      ]
