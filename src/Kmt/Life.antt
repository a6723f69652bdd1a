-- ===== src/Kmt/Life.antt =====
-- The pool through `kmt_create` and `kmt_teardown` of src/kmt.c.
use nsos.Prelude.{
  ℕ, zero, suc, ◌+◌, ◌≤◌, ◌<◌, ◌≡◌, ◌≢◌, ◌⊎◌, refl, sym, arith, Bool, true, false, ◌==◌, ltb,
  ==_refl, ==_ne, ==_iff, Bool-cases, inl, inr,
}
use nsos.Machine.{Ptr, null, Env}
use nsos.Lock.{Locks, thread_lock, simple_lock_unlock}
use nsos.Kmt.State.{
  kernel_max_thread, minus_one, Kmt, update, scan, fences_intact, kmt_spin_lock, kmt_spin_unlock,
}
use nsos.Kmt.Threads.{slot_of, fill_slot, is_runnable, kmt_create}

-- What a search has found: the first index from `i` on, or none below `i + n`.
pub record Found (test : ℕ → Bool) (n i j : ℕ) : Type 0 where
  pub low : i ≤ j
  pub high : j ≤ i + n
  pub hit : j < i + n → test j ≡ true
  pub first : (m : ℕ) → i ≤ m → m < j → test m ≡ false

pub scan-Found : (test : ℕ → Bool) (n i : ℕ) → Found test n i (scan test n i)
unfolding scan
scan-Found test zero i = record {
  low = omega arith;
  high = omega arith;
  hit = λ h. absurd (omega arith);
  first = λ m h k. absurd (omega arith);
}
scan-Found test (suc n) i = elim (Bool-cases (test i)) [
  | inl here ↦ rw here (record {
    low = omega arith;
    high = omega arith;
    hit = λ _. here;
    first = λ m h k. absurd (omega arith);
  })
  | inr skip ↦
      let f = scan-Found test n (i + 1) in
      rw skip (record {
        low = omega (arith, f.low);
        high = omega (arith, f.high);
        hit = λ h. f.hit (omega arith);
        first = λ m h k. elim (Bool-cases (m == i)) [
          | inl same ↦ let e : m ≡ i = ground arith in rw e skip
          | inr more ↦ f.first m (ground arith) k
        ];
      })
]

pub Found-unique :
    (test : ℕ → Bool) (n i j k : ℕ)
    → Found test n i j
    → i ≤ k
    → k < i + n
    → test k ≡ true
    → ((m : ℕ) → i ≤ m → m < k → test m ≡ false)
    → j ≡ k
Found-unique test n i j k f lo hi hit first = elim (Bool-cases (ltb j k)) [
  | inl before ↦ absurd (ground (arith, f.hit, first j f.low))
  | inr later ↦ elim (Bool-cases (ltb k j)) [
    | inl past ↦ absurd (ground (arith, f.first k lo))
    | inr same ↦ ground arith
  ]
]

pub unlocked : (s : Locks) → (simple_lock_unlock thread_lock s).status thread_lock ≡ 0
unfolding simple_lock_unlock
unlocked s = ground arith

-- The thread at `thread` has been put into slot `k` of the pool.
pub record Created (thread : Ptr) (s s' : Kmt) (k : ℕ) : Type 0 where
  pub slot : (1 ≤ k) × (k ≤ kernel_max_thread)
  pub free : s.thread_pool k ≡ null
  pub first : (m : ℕ) → 1 ≤ m → m < k → s.thread_pool m ≢ null
  pub pool : s'.thread_pool ≡ update s.thread_pool k thread
  pub runs : is_runnable s' k ≡ true
  pub fences : fences_intact s'.bytes (s'.threads thread) ≡ true
  pub others : (p : Ptr) → p ≢ thread → s'.threads p ≡ s.threads p
  pub lock : s'.locks.status thread_lock ≡ 0

-- No slot was free.
pub record Full (s s' : Kmt) : Type 0 where
  pub used : (m : ℕ) → 1 ≤ m → m ≤ kernel_max_thread → s.thread_pool m ≢ null
  pub pool : s'.thread_pool ≡ s.thread_pool
  pub threads : s'.threads ≡ s.threads
  pub heap : s'.heap ≡ s.heap
  pub bytes : s'.bytes ≡ s.bytes
  pub lock : s'.locks.status thread_lock ≡ 0

abbrev pub locked : Env → Kmt → Kmt
locked env s = kmt_spin_lock env thread_lock s

module _ (env : Env) (thread entry arg : Ptr) (s : Kmt) where
  pub kmt_create-full :
      ltb kernel_max_thread (slot_of null s) ≡ true
      → kmt_create env thread entry arg s ≡ (minus_one, kmt_spin_unlock thread_lock (locked env s))
  unfolding kmt_create kmt_spin_lock
  kmt_create-full full = rw full refl

  pub kmt_create-fill :
      ltb kernel_max_thread (slot_of null s) ≡ false
      → kmt_create env thread entry arg s ≡ (
        0,
        kmt_spin_unlock thread_lock
            (fill_slot env (slot_of null s) thread entry arg (locked env s)),
      )
  unfolding kmt_create kmt_spin_lock
  kmt_create-fill room = rw room refl

  slot_of-Found : Found (λ i. s.thread_pool i == null) kernel_max_thread 1 (slot_of null s)
  slot_of-Found = scan-Found (λ i. s.thread_pool i == null) kernel_max_thread 1

  fill_slot-Created :
      (k : ℕ)
      → thread ≢ null
      → (1 ≤ k) × (k ≤ kernel_max_thread)
      → s.thread_pool k ≡ null
      → ((m : ℕ) → 1 ≤ m → m < k → s.thread_pool m ≢ null)
      → Created thread s
          (kmt_spin_unlock thread_lock (fill_slot env k thread entry arg (locked env s)))
          k
  unfolding fill_slot kmt_spin_unlock kmt_spin_lock is_runnable
  fill_slot-Created k ne slot free first = record {
    slot = slot;
    free = free;
    first = first;
    pool = refl;
    runs = rw (==_refl k, ==_ne thread null ne, ==_refl thread) refl;
    fences = ground (arith, ==_refl thread);
    others = λ p h. rw (==_ne thread p (λ e. h (sym e))) refl;
    lock = unlocked _;
  }

  -- Creating a thread, at an address other than NULL, succeeds exactly when a slot of the pool is free. It then answers 0; the
  -- thread is in the first free slot and can run, the bytes round its stack are in place, and
  -- every other thread is as it was. Otherwise it answers -1 and changes neither the pool, nor a
  -- thread, nor the memory. In both cases the lock of the threads is free afterwards.
  pub kmt_create-Created :
      thread ≢ null
      → let r = kmt_create env thread entry arg s in
        ((r.0 ≡ 0) × ((k : ℕ) × Created thread s r.1 k)) ⊎ ((r.0 ≡ minus_one) × Full s r.1)
  unfolding kmt_spin_unlock kmt_spin_lock
  kmt_create-Created ne =
      let f = slot_of-Found in
      elim (Bool-cases (ltb kernel_max_thread (slot_of null s))) [
        | inl full ↦ rw (kmt_create-full full) (
            inr (
              refl,
              record {
                used = λ m lo hi. ground (arith, f.first m lo);
                pool = refl;
                threads = refl;
                heap = refl;
                bytes = refl;
                lock = unlocked _;
              },
            ))
        | inr room ↦ rw (kmt_create-fill room) (
            inl (
              refl,
              (
                slot_of null s,
                fill_slot-Created (slot_of null s) ne (f.low, ground arith)
                    ((==_iff _ null).0 (f.hit (ground arith)))
                    (λ m lo lt. ground (arith, f.first m lo lt)),
              ),
            ))
      ]
