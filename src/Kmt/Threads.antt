-- ===== src/Kmt/Threads.antt =====
-- Creation, teardown and scheduling of threads in src/kmt.c.
use nsos.Prelude.{ℕ, zero, suc, ◌+◌, ◌%◌, Bool, true, false, ◌||◌, ◌==◌, ltb, leb, if◌then◌else◌}
use nsos.Machine.{Ptr, null, Env, Run, Outcome, done, stop, panic, hang}
use nsos.Lock.{thread_lock, semaphore_lock}
use nsos.Kmt.State.{
  max_file_per_thread, kernel_max_thread, stack_size, stack_magic, thread_pool_magic, minus_one,
  Thread, Kmt, update, scan, pred32, fences_intact, kmt_spin_init, kmt_spin_lock, kmt_spin_unlock,
  allocated, record_alloc, record_free,
}

unfoldable pub kmt_init : Kmt → Kmt
kmt_init s = kmt_spin_init semaphore_lock (
    kmt_spin_init thread_lock (record s {
      thread_pool = λ i.
          if i == 0 || i == kernel_max_thread + 1
          then thread_pool_magic
          else if leb i kernel_max_thread
          then null
          else s.thread_pool i;
      current_thread_index = minus_one;
    }))

-- The descriptors of a new thread: the three standard ones are taken, the others NULL.
abbrev pub fresh_descriptors : (ℕ → Ptr) → ℕ → Ptr
fresh_descriptors old i =
    if ltb i 3 then null + 1 else if ltb i max_file_per_thread then null else old i

-- The first slot from 1 on that holds `p`; `kernel_max_thread + 1` if there is none.
abbrev pub slot_of : Ptr → Kmt → ℕ
slot_of p s = scan (λ i. s.thread_pool i == p) kernel_max_thread 1

-- The slot of `thread_pool` at which the scheduler looks next.
abbrev pub next_slot : ℕ → ℕ
next_slot i = i % kernel_max_thread + 1

unfoldable pub is_runnable : Kmt → ℕ → Bool
is_runnable s i =
    if s.thread_pool i == null then false else (s.threads (s.thread_pool i)).sleep == 0

-- The `do`-`while` of `kmt_schedule`, on fuel.
unfoldable pub pick : ℕ → ℕ → Kmt → Outcome Kmt ℕ
pick zero i s = stop hang s
pick (suc fuel) i s =
    let rest = pick fuel (next_slot i) s in
    if is_runnable s (next_slot i) then done (next_slot i) s else rest

module _ (env : Env) where
  -- The new contents of `*thread`, with the stack at `start`.
  abbrev pub new_thread : (slot start : ℕ) (entry arg : Ptr) → Thread → Thread → Thread
  new_thread slot start entry arg parent old = record {
    id = slot;
    status = env.make start (start + stack_size) entry arg;
    sleep = 0;
    current_waiting = null;
    uid = 0;
    gid = 0;
    stack_start = start;
    stack_end = start + stack_size;
    root = parent.root;
    pwd = parent.pwd;
    altroot = parent.altroot;
    rootmnt = parent.rootmnt;
    pwdmnt = parent.pwdmnt;
    altrootmnt = parent.altrootmnt;
    file_descriptors = fresh_descriptors old.file_descriptors;
  }

  -- The part of `kmt_create` behind the search for a slot, under the lock.
  unfoldable pub fill_slot : (slot : ℕ) (thread entry arg : Ptr) → Kmt → Kmt
  fill_slot slot thread entry arg s =
      let start = allocated env (stack_size + 2) s + 1 in
      let fenced =
        update (update s.bytes (pred32 start) stack_magic) (start + stack_size) stack_magic in
      record (record_alloc (stack_size + 2) s) {
        thread_pool = update s.thread_pool slot thread;
        bytes = fenced;
        threads =
            update s.threads thread
              (new_thread slot start entry arg (s.threads s.current) (s.threads thread));
      }

  -- The result is 0, or `minus_one` when the pool is full.
  unfoldable pub kmt_create : (thread entry arg : Ptr) → Kmt → ℕ × Kmt
  unfolding fill_slot
  kmt_create thread entry arg s₀ =
      let s = kmt_spin_lock env thread_lock s₀ in
      let slot = slot_of null s in
      if ltb kernel_max_thread slot
      then (minus_one, kmt_spin_unlock thread_lock s)
      else (0, kmt_spin_unlock thread_lock (fill_slot slot thread entry arg s))

  -- A thread that is not in the pool: the function returns with the lock taken.
  unfoldable pub kmt_teardown : Ptr → Run Kmt (Unit {0})
  kmt_teardown thread s₀ =
      let s = kmt_spin_lock env thread_lock s₀ in
      let slot = slot_of thread s in
      let victim = s.threads (s.thread_pool slot) in
      if ltb kernel_max_thread slot
      then done tt s
      else if slot == s.current_thread_index
      then stop panic s
      else if fences_intact s.bytes victim
      then done tt (
          kmt_spin_unlock thread_lock (record (record_free (pred32 victim.stack_start) s) {
            thread_pool = update s.thread_pool slot null;
          }))
      else stop panic s

-- The checks at the head of `kmt_schedule`.
unfoldable pub is_intact : Kmt → Bool
is_intact s =
    if s.current_thread_index == minus_one
    then true
    else if s.thread_pool 0 == thread_pool_magic
    then if s.thread_pool (kernel_max_thread + 1) == thread_pool_magic
      then fences_intact s.bytes (s.threads (s.thread_pool s.current_thread_index))
      else false
    else false

-- The result is the thread that runs next.
unfoldable pub kmt_schedule : ℕ → Run Kmt Ptr
unfolding is_intact
kmt_schedule fuel s =
    if is_intact s
    then elim (pick fuel s.current_thread_index s) [
      | done i s' ↦ done (s'.thread_pool i) (record s' { current_thread_index = i })
      | stop why s' ↦ stop why s'
    ]
    else stop panic s
