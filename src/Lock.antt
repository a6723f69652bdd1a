-- ===== src/Lock.antt =====
-- The spinlocks of src/libos/simple_lock.c.
--
-- `lockcount` and `release_intr` are the file's two static variables. The interrupt flag of the
-- CPU is behind `_intr_read` and `_intr_write`: the state keeps the writes, latest first.
-- The names of the locks and the messages to the system log are left out.
pub mod Nesting
mod Tests
use nsos.Prelude.{ℕ, ◌+◌, ◌-◌, ◌%◌, ◌^◌, Bool, true, false, List, ◌∷◌, ◌==◌, if◌then◌else◌}
use nsos.Machine.{Env}

-- The locks that are static variables of the kernel.
pub data Lock : Type 0 where
  kernel_memory_lock thread_lock semaphore_lock console_lock : Lock

abbrev pub lock_eq : Lock → Lock → Bool
lock_eq kernel_memory_lock kernel_memory_lock = true
lock_eq thread_lock thread_lock = true
lock_eq semaphore_lock semaphore_lock = true
lock_eq console_lock console_lock = true
lock_eq _ _ = false

pub record Locks : Type 0 where
  pub intr_log : List Bool
  pub lockcount : ℕ
  pub release_intr : Bool
  pub status : Lock → ℕ

abbrev pub set_status : (Lock → ℕ) → Lock → ℕ → Lock → ℕ
set_status st lk v x = if lock_eq lk x then v else st x

unfoldable pub simple_lock_init : Lock → Locks → Locks
simple_lock_init lk s = record s { status = set_status s.status lk 0 }

module _ (env : Env) where
  -- The flag is read, then cleared; a lock that is taken already is left as it is.
  unfoldable pub simple_lock_try : Lock → Locks → Locks
  simple_lock_try lk s =
      let intr = env.intr_read s.intr_log in
      let s' = record s { intr_log = false ∷ s.intr_log } in
      if s.status lk == 1 then s' else record s' {
        release_intr = if s.lockcount == 0 then intr else s.release_intr;
        status = set_status s.status lk 1;
        lockcount = (s.lockcount + 1) % 2 ^ 32;
      }

unfoldable pub simple_lock_unlock : Lock → Locks → Locks
simple_lock_unlock lk s =
    if s.status lk == 0
    then s
    else let count = (s.lockcount + 2 ^ 32 - 1) % 2 ^ 32 in
      record s {
        lockcount = count;
        status = set_status s.status lk 0;
        intr_log =
            if count == 0
            then (if s.release_intr then true ∷ s.intr_log else s.intr_log)
            else s.intr_log;
      }
