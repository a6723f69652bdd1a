-- ===== src/Pmm/Init.antt =====
-- The heap that `pmm_init` of src/pmm.c leaves.
use nsos.Prelude.{ℕ, ◌+◌, ◌^◌, ◌≤◌, ◌<◌, ◌≡◌, refl, ◌∙◌, arith, ◌∷◌, []}
use nsos.Machine.{null}
use nsos.CString.{Memory, poke}
use nsos.Pmm.Block.{sizeof_block, store32, inuse, set_inuse, set_front, Area, Pmm, pmm_init}
use nsos.Pmm.Bytes.{load32-store32}
use nsos.Pmm.Search.{Chain}

-- The word at `p + 8` does not reach the byte at `p + 4`.
store32_before : (m : Memory) (p v : ℕ) → store32 m (p + 8) v (p + 4) ≡ m (p + 4)
unfolding store32
store32_before m p v = ground arith

poke_here : (m : Memory) (p : ℕ) → poke m (p + 4) 0 (p + 4) ≡ 0
poke_here m p = ground arith

-- After the initialisation of a heap that does not begin at NULL, holds a block header and ends
-- below 2 ^ 32, the blocks form a chain of one block, which is free.
pub pmm_init-Chain :
    (heap : Area) (s : Pmm)
    → 0 < heap.start
    → heap.start + sizeof_block ≤ heap.end
    → heap.end < 2 ^ 32
    → let s' = pmm_init heap s in
      Chain s'.memory heap.end s'.memory_head (heap.start ∷ []) × (inuse s'.memory heap.start ≡ 0)
unfolding pmm_init
pmm_init-Chain heap s low room high =
    let m = set_inuse heap.start 0 (set_front heap.start null s.memory) in
    let last = load32-store32 m (heap.start + 8) heap.end high in
    (
      (refl, low, rw last room, last),
      store32_before m heap.start heap.end
          ∙ poke_here (set_front heap.start null s.memory) heap.start,
    )
