-- ===== src/Pmm/Alloc.antt =====
-- `pmm_alloc` of src/pmm.c.
use nsos.Prelude.{
  ℕ, zero, suc, ◌+◌, ◌*◌, ◌/◌, ◌%◌, ◌^◌, Bool, not, ◌&&◌, ◌||◌, ◌==◌, ltb, if◌then◌else◌,
}
use nsos.Machine.{Ptr, null, Env, Run, done, stop, hang}
use nsos.CString.{Memory, add32, sub32, is_negative}
use nsos.Pmm.Block.{
  sizeof_block, front, inuse, next, set_front, set_inuse, set_next, Area, Pmm, take_lock, drop_lock,
}

-- `(int)n > 0`
abbrev pub is_positive : ℕ → Bool
is_positive n = ltb 0 n && not (is_negative n)

-- `while (realallocsize < size)`: the pair of `realallocsize` and `k`.
unfoldable pub grow : ℕ → (size realallocsize k : ℕ) → Run Pmm (ℕ × ℕ)
grow zero size realallocsize k s = stop hang s
grow (suc fuel) size realallocsize k s =
    let rest = grow fuel size (realallocsize * 2 % 2 ^ 32) (k + 1) s in
    if ltb realallocsize size then rest else done (realallocsize, k) s

abbrev pub start_in : Ptr → Ptr
start_in b = add32 b sizeof_block

-- The address that the block at `b` would give.
unfoldable pub alloc_addr : (r k : ℕ) → Ptr → Ptr
alloc_addr r k b = if start_in b % r == 0 then start_in b else add32 (start_in b / 2 ^ k * 2 ^ k) r

-- The test that passes over a block: in use, or not large enough.
unfoldable pub passes_over : Memory → (size r k : ℕ) → Ptr → Bool
passes_over m size r k b =
    inuse m b == 1 || is_negative (sub32 (sub32 (next m b) (alloc_addr r k b)) size)

-- The `while` that looks for a block.
unfoldable pub find_block : ℕ → Area → (size r k : ℕ) → Ptr → Run Pmm Ptr
find_block zero heap size r k b s = stop hang s
find_block (suc fuel) heap size r k b s =
    let rest = find_block fuel heap size r k (next s.memory b) s in
    if b == null || b == heap.end
    then done b s
    else if passes_over s.memory size r k b
    then rest
    else done b s

-- `next != _heap.end`, then `next->front = v`
abbrev pub back_link : Area → (b v : Ptr) → Memory → Memory
back_link heap b v m = if next m b == heap.end then m else set_front (next m b) v m

-- A free block at `after`, behind the block at `h` and before what follows the block at `b`.
abbrev pub new_block : (after h b : Ptr) → Memory → Memory
new_block after h b m =
    let m₁ = set_inuse after 0 (set_front after h m) in set_next after (next m₁ b) m₁

-- There is room for a header before the address `a`: the block at `b` is split there.
unfoldable pub place_far : Area → (size : ℕ) → (a b : Ptr) → Memory → Memory
place_far heap size a b m₀ =
    let h = sub32 a sizeof_block in
    let m₁ = set_inuse h 1 (set_front h b m₀) in
    let after = add32 a size in
    let m₂ = new_block after h b m₁ in
    let m₃ = back_link heap b after (set_next h after m₂) in
    let m₄ = back_link heap b h (set_next h (next m₁ b) m₁) in
    if is_positive (sub32 (sub32 (sub32 (next m₁ b) a) size) sizeof_block)
    then set_next b h m₃
    else set_next b h m₄

-- Before the header moves: the rest of the block at `b` becomes a block, if there is room.
unfoldable pub split_near : Area → (size : ℕ) → (a b : Ptr) → Memory → Memory
split_near heap size a b m =
    let h = sub32 a sizeof_block in
    let after = add32 a size in
    let m₁ = new_block after h b m in
    if is_positive (sub32 (sub32 (sub32 (next m b) a) size) sizeof_block)
    then set_next b after (back_link heap b after m₁)
    else m

-- The header of the block at `b` moves to `h`, just before the address. The pair is the memory
-- and `memory_head`.
unfoldable pub move_header : (h b head : Ptr) → Memory → Memory × Ptr
move_header h b head m =
    let current_next = next m b in
    let current_front = front m b in
    let m₁ = set_front current_next h (set_next current_front h m) in
    if front m b == null
    then (set_inuse h 1 (set_next h current_next m), h)
    else (set_inuse h 1 (set_front h current_front (set_next h current_next m₁)), head)

-- What is done with the block at `b` and the address `a`.
unfoldable pub place : Area → (size : ℕ) → (a b : Ptr) → Pmm → Pmm
place heap size a b s =
    let far = record s { memory = place_far heap size a b s.memory } in
    let near =
      move_header (sub32 a sizeof_block) b s.memory_head (split_near heap size a b s.memory) in
    if is_positive (sub32 (sub32 a (start_in b)) sizeof_block)
    then far
    else record s { memory = near.0; memory_head = near.1 }

-- The address, or NULL.
unfoldable pub pmm_alloc : Env → ℕ → Area → (size : ℕ) → Run Pmm Ptr
pmm_alloc env fuel heap size s₀ = elim (grow fuel size 1 0 (take_lock env s₀)) [
  | stop why s ↦ stop why s
  | done (r, k) s ↦ elim (find_block fuel heap size r k s.memory_head s) [
    | stop why s' ↦ stop why s'
    | done b s' ↦
        let a = alloc_addr r k b in
        if b == null then done null (drop_lock s') else done a (drop_lock (place heap size a b s'))
  ]
]
