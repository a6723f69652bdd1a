-- ===== src/Kmt/State.antt =====
-- The state of src/kmt.c: `struct thread` and the globals of include/kmt.h.
--
-- Memory is typed: `threads` gives the `struct thread` at an address, NULL included, since the
-- kernel runs without paging and a read through NULL reads what lies there. `bytes` is the memory
-- of the stacks. `heap` are the calls of the allocator made so far. A `struct semaphore` is its
-- count as a 32-bit pattern. The names of threads and semaphores are left out.
use nsos.Prelude.{ℕ, suc, ◌+◌, ◌-◌, ◌%◌, ◌^◌, zero, Bool, false, List, ◌∷◌, ◌==◌, if◌then◌else◌}
use nsos.Machine.{Ptr, HeapCall, alloc_call, free_call, Env}
use nsos.Lock.{Lock, Locks, simple_lock_init, simple_lock_try, simple_lock_unlock}

abbrev pub max_file_per_thread : ℕ
max_file_per_thread = 256

abbrev pub kernel_max_thread : ℕ
kernel_max_thread = 1024

abbrev pub stack_size : ℕ
stack_size = 2 ^ 22

abbrev pub stack_magic : ℕ
stack_magic = 0xcc

abbrev pub thread_pool_magic : ℕ
thread_pool_magic = 0xcccccccc

-- `(uint32_t)-1`
abbrev pub minus_one : ℕ
minus_one = 2 ^ 32 - 1

-- `struct thread` with its `struct fs_struct` laid flat; `_Area stack` is its two ends.
pub record Thread : Type 0 where
  pub id : ℕ
  pub status : Ptr
  pub sleep : ℕ
  pub current_waiting : Ptr
  pub uid : ℕ
  pub gid : ℕ
  pub stack_start : ℕ
  pub stack_end : ℕ
  pub root : Ptr
  pub pwd : Ptr
  pub altroot : Ptr
  pub rootmnt : Ptr
  pub pwdmnt : Ptr
  pub altrootmnt : Ptr
  pub file_descriptors : ℕ → Ptr

pub record Kmt : Type 0 where
  pub locks : Locks
  pub heap : List HeapCall
  pub thread_pool : ℕ → Ptr
  pub threads : Ptr → Thread
  pub current_thread_index : ℕ
  pub current : Ptr
  pub bytes : Ptr → ℕ
  pub sems : Ptr → ℕ

-- A function with its value at `p` replaced.
abbrev pub update {ℓ} : {A : Type ℓ} → (ℕ → A) → ℕ → A → ℕ → A
update f p v q = if p == q then v else f q

-- The first index from `i` on that passes the test, or `i + n` if none of the next `n` does.
unfoldable pub scan : (ℕ → Bool) → ℕ → ℕ → ℕ
scan test zero i = i
scan test (suc n) i = let rest = scan test n (i + 1) in if test i then i else rest

-- Subtraction of one from a `uint32_t`.
abbrev pub pred32 : ℕ → ℕ
pred32 n = (n + 2 ^ 32 - 1) % 2 ^ 32

-- The two checks of the fence bytes round a stack.
abbrev pub fences_intact : (ℕ → ℕ) → Thread → Bool
fences_intact bytes t =
    if bytes (pred32 t.stack_start) == stack_magic then bytes t.stack_end == stack_magic else false

unfoldable pub kmt_spin_init : Lock → Kmt → Kmt
kmt_spin_init lk s = record s { locks = simple_lock_init lk s.locks }

unfoldable pub kmt_spin_unlock : Lock → Kmt → Kmt
kmt_spin_unlock lk s = record s { locks = simple_lock_unlock lk s.locks }

module _ (env : Env) where
  unfoldable pub kmt_spin_lock : Lock → Kmt → Kmt
  kmt_spin_lock lk s = record s { locks = simple_lock_try env lk s.locks }

  -- `pmm->alloc`: the call is recorded; the address is what the allocator answers.
  abbrev pub allocated : ℕ → Kmt → Ptr
  allocated n s = env.alloc s.heap n

abbrev pub record_alloc : ℕ → Kmt → Kmt
record_alloc n s = record s { heap = alloc_call n ∷ s.heap }

-- `pmm->free`
abbrev pub record_free : Ptr → Kmt → Kmt
record_free p s = record s { heap = free_call p ∷ s.heap }
