-- ===== src/Pmm/Live.antt =====
-- What `pmm_alloc` of src/pmm.c leaves of the blocks that are in use.
use nsos.Prelude.{
  ℕ, ◌+◌, ◌*◌, ◌^◌, ◌≤◌, ◌<◌, ◌≡◌, ◌≢◌, ◌⊎◌, inl, inr, List, [], ◌∷◌, ◌++◌, arith, All, length,
}
use nsos.Machine.{Ptr, null, Env, done}
use nsos.CString.{Memory}
use nsos.Pmm.Block.{inuse, next, Area, Pmm}
use nsos.Pmm.Alloc.{pmm_alloc}
use nsos.Pmm.Search.{Chain}
use nsos.Pmm.Links.{Linked, Linked-Chain, Keeps}
use nsos.Pmm.Address.{IsExhausted}
use nsos.Pmm.Keep.{pmm_alloc-Allocated}

-- The blocks of a list lie behind where it begins.
Chain-All :
    (m : Memory) (end p : Ptr) (bs : List Ptr)
    → Chain m end p bs
    → (q : ℕ) → q ≤ p
    → All (λ c. q ≤ c) bs
Chain-All m end p [] c q le = tt
Chain-All m end p (b ∷ bs) c q le =
    (omega (arith, c.0), Chain-All m end (next m b) bs c.3 q (omega (arith, c.0, c.2)))

Chain-to : (m : Memory) (end p b : Ptr) (xs ys : List Ptr) → Chain m end p (xs ++ b ∷ ys) → p ≤ b
Chain-to m end p b [] ys c = omega (arith, c.0)
Chain-to m end p b (x ∷ xs) ys c = omega (arith, c.0, c.2, Chain-to m end (next m x) b xs ys c.3)

-- The block at `c` is kept and lies apart from the block at `b`.
abbrev Spared : Memory → Memory → (b c : Ptr) → Type 0
Spared m m' b c = Keeps m m' c × ((next m c ≤ b) ⊎ (next m b ≤ c))

abbrev IsFreeOrSpared : Memory → Memory → (b c : Ptr) → Type 0
IsFreeOrSpared m m' b c = (inuse m c ≢ 1) ⊎ Spared m m' b c

behind-Spared :
    (m m' : Memory) (b : Ptr) (ys : List Ptr)
    → All (Keeps m m') ys
    → All (λ c. next m b ≤ c) ys
    → All (IsFreeOrSpared m m' b) ys
behind-Spared m m' b [] keep le = tt
behind-Spared m m' b (y ∷ ys) keep le =
    (inr (keep.0, inr le.0), behind-Spared m m' b ys keep.1 le.1)

-- Where only the block at `b` is not kept, and it is free.
all-Spared :
    (m m' : Memory) (end p b : Ptr) (xs ys : List Ptr)
    → Chain m end p (xs ++ b ∷ ys)
    → All (Keeps m m') xs
    → All (Keeps m m') ys
    → inuse m b ≢ 1
    → All (IsFreeOrSpared m m' b) (xs ++ b ∷ ys)
all-Spared m m' end p b [] ys chain before behind free = (
  inl free,
  behind-Spared m m' b ys behind (Chain-All m end (next m b) ys chain.3 (next m b) (omega arith)),
)
all-Spared m m' end p b (x ∷ xs) ys chain before behind free = (
  inr (before.0, inl (Chain-to m end (next m x) b xs ys chain.3)),
  all-Spared m m' end (next m x) b xs ys chain.3 before.1 behind free,
)

All-at {ℓ} : (P : Ptr → Type ℓ) (us vs : List Ptr) (c : Ptr) → All P (us ++ c ∷ vs) → P c
All-at P [] vs c all = all.0
All-at P (u ∷ us) vs c all = All-at P us vs c all.1

module _ (env : Env) (fuel : ℕ) (heap : Area) (size : ℕ) (s : Pmm) (us vs : List Ptr) (c : Ptr)
    (linked : Linked s.memory heap.end null s.memory_head (us ++ c ∷ vs)) (steps : 32 < fuel)
    (long : length (us ++ c ∷ vs) < fuel) (head : 0 < heap.end)
    (small : heap.end + 4 * size + 2 ≤ 2 ^ 31) (used : inuse s.memory c ≡ 1) where
  -- Under the same conditions an allocation keeps the flag and the bytes of every block in use, and
  -- the bytes that it gives out lie outside that block. Or every block is in use, or ends before the
  -- bytes would that it would give, and the answer lies behind the end of the heap.
  pub pmm_alloc-Spared :
      (a : Ptr) × (s' : Pmm) × (pmm_alloc env fuel heap size s ≡ done a s')
      × ((Keeps s.memory s'.memory c × ((next s.memory c ≤ a) ⊎ (a + size ≤ c)))
          ⊎ IsExhausted s.memory heap.end size (us ++ c ∷ vs) a)
  pmm_alloc-Spared =
      let (a, s', e, r) =
        pmm_alloc-Allocated env fuel heap size s (us ++ c ∷ vs) linked steps long head small in
      (
        a,
        s',
        e,
        elim r [
          | inl w ↦
              let chain = Linked-Chain s.memory heap.end null s.memory_head (us ++ c ∷ vs) linked in
              let placed = w.placed in
              let inside = w.inside in
              let at = w.header_at in
              let all =
                all-Spared s.memory s'.memory heap.end s.memory_head w.block w.before w.behind
                  (rw w.blocks at chain) placed.before placed.behind w.was_free in
              elim (All-at (IsFreeOrSpared s.memory s'.memory w.block) us vs c
                (rw (← w.blocks) at all)) [
                  | inl free ↦ absurd (free used)
                  | inr (keeps, inl lo) ↦ inl (keeps, inl (omega arith))
                  | inr (keeps, inr hi) ↦ inl (keeps, inr (omega arith))
                ]
          | inr past ↦ inr past
        ],
      )
