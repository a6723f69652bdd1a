-- ===== src/Pmm/Tests.antt =====
-- Tests of the allocator of src/pmm.c.
use nsos.Prelude.{All, ℕ, ◌+◌, ◌≤◌, ◌<◌, ◌≡◌, ◌⊎◌, refl, arith, [], ◌∷◌}
use nsos.Machine.{Ptr, done}
use nsos.CString.{Memory}
use nsos.Pmm.Block.{
  Area, Pmm, load32, pmm_init, store32, take_lock, drop_lock, set_inuse, inuse, set_front, set_next,
  next,
}
use nsos.Pmm.Alloc.{alloc_addr, place, pmm_alloc}
use nsos.Pmm.Search.{Chain, IsRounded}
use nsos.Pmm.Init.{pmm_init-Chain}
use nsos.Pmm.Address.{IsExhausted, FirstServes, Fails, pmm_alloc_lem, pmm_alloc-exhausted}
use nsos.Pmm.Free.{pmm_free}
use nsos.Pmm.Links.{Linked, Keeps}
use nsos.Pmm.Keep.{Allocated, pmm_alloc-Allocated}
use nsos.Pmm.Live.{pmm_alloc-Spared}
use nsos.Pmm.Release.{Freed, pmm_free-Freed}
use nsos.Example.{env, locks}

abbrev heap : Area
heap = record { start = 4096; end = 65536 }

-- The heap after `pmm_init`: one free block.
abbrev fresh : Pmm
fresh = pmm_init heap (record { memory = λ p. 0; memory_head = 0; locks = locks })

fresh-Chain : Chain fresh.memory 65536 fresh.memory_head (4096 ∷ [])
unfolding pmm_init load32 store32
fresh-Chain = (refl, omega arith, omega arith, refl)

pmm_alloc_lem_example :
    (r : ℕ) × (k : ℕ) × (b : ℕ) × IsRounded 100 r k
    × (pmm_alloc env 64 heap 100 fresh
        ≡ done
            (alloc_addr r k b)
            (drop_lock (place heap 100 (alloc_addr r k b) b (take_lock env fresh))))
    × (FirstServes fresh.memory 65536 100 r k b (4096 ∷ [])
        ⊎ ((b ≡ 65536)
            × All (λ b'. Fails fresh.memory 100 r k b') (4096 ∷ [])
            × (65536 < alloc_addr r k b)))
pmm_alloc_lem_example =
    pmm_alloc_lem env 64 heap 100 fresh (4096 ∷ []) fresh-Chain (omega arith) (omega arith)
      (omega arith) (omega arith)

-- The same heap with its block in use.
abbrev used : Pmm
used = record fresh { memory = set_inuse 4096 1 fresh.memory }

used-Chain : Chain used.memory 65536 used.memory_head (4096 ∷ [])
unfolding pmm_init load32 store32
used-Chain = (refl, omega arith, omega arith, refl)

pmm_alloc-exhausted_example :
    (a : ℕ) × (s' : Pmm) × (pmm_alloc env 64 heap 100 used ≡ done a s') × (65536 < a)
unfolding pmm_init store32
pmm_alloc-exhausted_example =
    pmm_alloc-exhausted env 64 heap 100 used (4096 ∷ []) used-Chain (omega arith) (omega arith)
      (omega arith) (omega arith) (refl, tt)

pmm_init-Chain_example :
    Chain fresh.memory 65536 fresh.memory_head (4096 ∷ []) × (inuse fresh.memory 4096 ≡ 0)
pmm_init-Chain_example =
    pmm_init-Chain heap (record { memory = λ p. 0; memory_head = 0; locks = locks }) (omega arith)
      (omega arith) (omega arith)

fresh-Linked : Linked fresh.memory 65536 0 fresh.memory_head (4096 ∷ [])
unfolding pmm_init load32 store32
fresh-Linked = (refl, omega arith, omega arith, refl, refl)

pmm_alloc-Allocated_example :
    (a : Ptr) × (s' : Pmm) × (pmm_alloc env 64 heap 100 fresh ≡ done a s')
    × (Allocated heap 100 (4096 ∷ []) fresh s' a ⊎ IsExhausted fresh.memory 65536 100 (4096 ∷ []) a)
pmm_alloc-Allocated_example =
    pmm_alloc-Allocated env 64 heap 100 fresh (4096 ∷ []) fresh-Linked (omega arith) (omega arith)
      (omega arith) (omega arith)

-- Three blocks, of which the last is free.
abbrev block_at : (b prev used next' : ℕ) → Memory → Memory
block_at b prev used next' m = set_next b next' (set_inuse b used (set_front b prev m))

abbrev three : Pmm
three = record fresh {
  memory =
      block_at 4096 0 1 8192 (block_at 8192 4096 1 16384 (block_at 16384 8192 0 65536 (λ p. 0)));
  memory_head = 4096;
}

three-Linked : Linked three.memory 65536 0 4096 (4096 ∷ 8192 ∷ 16384 ∷ [])
unfolding load32 store32
three-Linked = (
  refl,
  omega arith,
  omega arith,
  refl,
  (refl, omega arith, omega arith, refl, (refl, omega arith, omega arith, refl, refl)),
)

pmm_alloc-Spared_example :
    (a : Ptr) × (s' : Pmm) × (pmm_alloc env 64 heap 100 three ≡ done a s')
    × ((Keeps three.memory s'.memory 8192 × ((next three.memory 8192 ≤ a) ⊎ (a + 100 ≤ 8192)))
        ⊎ IsExhausted three.memory 65536 100 (4096 ∷ 8192 ∷ 16384 ∷ []) a)
unfolding store32
pmm_alloc-Spared_example =
    pmm_alloc-Spared env 64 heap 100 three (4096 ∷ []) (16384 ∷ []) 8192 three-Linked (omega arith)
      (omega arith) (omega arith) (omega arith) refl

pmm_free-Freed_example :
    (s' : Pmm) × (pmm_free env 64 heap (8192 + 12) three ≡ done tt s')
    × Freed heap three.memory (4096 ∷ []) (16384 ∷ []) 8192 s'.memory s'.memory_head
pmm_free-Freed_example =
    pmm_free-Freed env 64 heap three (4096 ∷ []) (16384 ∷ []) 8192 three-Linked (omega arith)
      (omega arith) (omega arith) (omega arith) (omega arith)
