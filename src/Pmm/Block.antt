-- ===== src/Pmm/Block.antt =====
-- `struct memory_block` of include/pmm.h in the kernel's memory, and the state of src/pmm.c.
--
-- Memory is bytes. On i386 a block header takes 12 bytes: `front` at 0, the byte `inuse` at 4 and
-- `next` at 8. The words are little-endian.
use nsos.Prelude.{ℕ, ◌+◌, ◌*◌, ◌/◌, ◌%◌, ◌^◌, ◌==◌, if◌then◌else◌}
use nsos.Machine.{Ptr, null, Env}
use nsos.CString.{Memory, poke}
use nsos.Lock.{Locks, kernel_memory_lock, simple_lock_init, simple_lock_try, simple_lock_unlock}

abbrev pub sizeof_block : ℕ
sizeof_block = 12

unfoldable pub load32 : Memory → ℕ → ℕ
load32 m p = m p + 2 ^ 8 * m (p + 1) + 2 ^ 16 * m (p + 2) + 2 ^ 24 * m (p + 3)

-- The `i`-th byte of the word `v`.
abbrev pub byte_of : ℕ → ℕ → ℕ
byte_of v i = v / 2 ^ (8 * i) % 2 ^ 8

unfoldable pub store32 : Memory → ℕ → ℕ → Memory
store32 m p v q =
    if q == p
    then byte_of v 0
    else if q == p + 1
    then byte_of v 1
    else if q == p + 2
    then byte_of v 2
    else if q == p + 3
    then byte_of v 3
    else m q

abbrev pub front : Memory → Ptr → Ptr
front m b = load32 m b

abbrev pub inuse : Memory → Ptr → ℕ
inuse m b = m (b + 4)

abbrev pub next : Memory → Ptr → Ptr
next m b = load32 m (b + 8)

abbrev pub set_front : Ptr → Ptr → Memory → Memory
set_front b v m = store32 m b v

abbrev pub set_inuse : Ptr → ℕ → Memory → Memory
set_inuse b v m = poke m (b + 4) v

abbrev pub set_next : Ptr → Ptr → Memory → Memory
set_next b v m = store32 m (b + 8) v

-- `_heap`
pub record Area : Type 0 where
  pub start : Ptr
  pub end : Ptr

pub record Pmm : Type 0 where
  pub memory : Memory
  pub memory_head : Ptr
  pub locks : Locks

unfoldable pub pmm_init : Area → Pmm → Pmm
pmm_init heap s = record {
  memory =
      set_next heap.start heap.end (set_inuse heap.start 0 (set_front heap.start null s.memory));
  memory_head = heap.start;
  locks = simple_lock_init kernel_memory_lock s.locks;
}

abbrev pub take_lock : Env → Pmm → Pmm
take_lock env s = record s { locks = simple_lock_try env kernel_memory_lock s.locks }

abbrev pub drop_lock : Pmm → Pmm
drop_lock s = record s { locks = simple_lock_unlock kernel_memory_lock s.locks }
