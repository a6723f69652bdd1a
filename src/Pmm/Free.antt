-- ===== src/Pmm/Free.antt =====
-- `pmm_free` of src/pmm.c.
use nsos.Prelude.{ℕ, zero, suc, ◌==◌, if◌then◌else◌}
use nsos.Machine.{Ptr, null, Env, Run, done, stop, hang}
use nsos.CString.{Memory, sub32}
use nsos.Pmm.Block.{
  sizeof_block, front, inuse, next, set_front, set_inuse, set_next, Area, Pmm, take_lock, drop_lock,
}

abbrev pub with_memory : Pmm → Memory → Pmm
with_memory s m = record s { memory = m }

-- The first `while`: the block at `b` joins the free blocks before it. The answer is where the
-- joined block begins.
unfoldable pub join_front : ℕ → Ptr → Run Pmm Ptr
join_front zero b s = stop hang s
join_front (suc fuel) b s =
    let m = s.memory in
    let m₁ = set_next (front m b) (next m b) m in
    let m₂ = set_front (next m₁ b) (front m₁ b) m₁ in
    let rest = join_front fuel (front m₂ b) (with_memory s m₂) in
    if front m b == null then done b s else if inuse m (front m b) == 0 then rest else done b s

-- The block at `b` is the first: the head goes back to the start of the heap.
unfoldable pub reset_head : Area → Ptr → Pmm → Pmm
reset_head heap b s =
    let h = heap.start in
    let m₁ = set_front h null (set_next h (next s.memory b) s.memory) in
    let m₂ = set_inuse h 0 (set_front (next m₁ h) h m₁) in record s { memory = m₂; memory_head = h }

-- The last `while`: the block at `b` takes in the free blocks behind it.
unfoldable pub join_next : ℕ → Area → Ptr → Run Pmm (Unit {0})
join_next zero heap b s = stop hang s
join_next (suc fuel) heap b s =
    let m₁ = set_front (next s.memory b) b s.memory in
    let m₂ = set_next b (next m₁ (next m₁ b)) m₁ in
    let rest = join_next fuel heap b (with_memory s m₂) in
    if next s.memory b == heap.end
    then done tt s
    else if inuse s.memory (next s.memory b) == 0
    then rest
    else done tt s

unfoldable pub pmm_free : Env → ℕ → Area → (ptr : Ptr) → Run Pmm (Unit {0})
pmm_free env fuel heap ptr s₀ =
    let current = sub32 ptr sizeof_block in
    let s₁ = take_lock env s₀ in
    elim (join_front fuel current (with_memory s₁ (set_inuse current 0 s₁.memory))) [
      | stop why s ↦ stop why s
      | done b s ↦
          let first = front s.memory b == null in
          let s' = if first then reset_head heap b s else s in
          elim (join_next fuel heap (if first then heap.start else b) s') [
            | stop why s'' ↦ stop why s''
            | done u s'' ↦ done tt (drop_lock s'')
          ]
    ]
