-- ===== src/Pmm/Address.antt =====
-- What `pmm_alloc` of src/pmm.c answers, on a heap whose blocks form a chain.
use nsos.Prelude.{
  ℕ, ◌+◌, ◌*◌, ◌%◌, ◌^◌, ◌≤◌, ◌<◌, ◌≡◌, ◌≢◌, ◌⊎◌, inl, inr, refl, ap, true, false, List, [], ◌∷◌,
  ◌++◌, arith, ◌==◌, ==_iff, length, Bool-cases, ==_ne, All,
}
use native.Mathlib.Nat.{ne_of_gt, one-le-pow}
use nsos.Machine.{Ptr, null, Env, done}
use nsos.CString.{Memory}
use nsos.Pmm.Block.{sizeof_block, inuse, next, Area, Pmm, take_lock, drop_lock}
use nsos.Pmm.Alloc.{grow, find_block, alloc_addr, passes_over, place, pmm_alloc}
use nsos.Pmm.Search.{
  IsRounded, grow_lem, alloc_addr_lem, Chain, Chain-le, first_fit, find_block-first_fit,
}

-- A block that the search does not pass over is free and holds `size` bytes at the address.
pub record Serves (m : Memory) (end : Ptr) (size r k b : ℕ) : Type 0 where
  pub positive : 0 < b
  pub free : inuse m b ≢ 1
  pub behind : b + sizeof_block ≤ alloc_addr r k b
  pub before : alloc_addr r k b + size ≤ next m b
  pub inside : next m b ≤ end
  pub aligned : alloc_addr r k b % r ≡ 0

-- A block that does not serve: it is in use, or ends before the `size` bytes at its address do.
abbrev pub Fails : Memory → (size r k b : ℕ) → Type 0
Fails m size r k b = (inuse m b ≡ 1) ⊎ (next m b < alloc_addr r k b + size)

-- The block `b` of the list serves, and no block before it does.
pub record FirstServes (m : Memory) (end : Ptr) (size r k b : ℕ) (bs : List Ptr) : Type 0 where
  pub before : List Ptr
  pub after : List Ptr
  pub listed : bs ≡ before ++ b ∷ after
  pub fail : All (λ b'. Fails m size r k b') before
  pub serves : Serves m end size r k b

-- No block of the list serves, and the answer `a` lies behind the heap.
pub record IsExhausted (m : Memory) (end : Ptr) (size : ℕ) (bs : List Ptr) (a : Ptr) : Type 0 where
  pub r : ℕ
  pub k : ℕ
  pub rounded : IsRounded size r k
  pub fail : All (λ b. Fails m size r k b) bs
  pub past : end < a

module _ (m : Memory) (end : Ptr) (size r k : ℕ) (ok : IsRounded size r k) (pos : 0 < r)
    (small : end + 2 * r ≤ 2 ^ 31) where
  block-Serves :
      (b : ℕ)
      → 0 < b
      → b + sizeof_block ≤ next m b
      → next m b ≤ end
      → passes_over m size r k b ≡ false
      → Serves m end size r k b
  unfolding passes_over
  block-Serves b positive room inside fits =
      let bounds = alloc_addr_lem r k b ok.power pos (omega arith) in
      let holds = ok.holds in
      record {
        positive = positive;
        free = ground arith;
        behind = bounds.1;
        before = ground (arith, bounds, holds);
        inside = inside;
        aligned = bounds.0;
      }

  block-Fails :
      (b : ℕ)
      → b + sizeof_block ≤ next m b
      → next m b ≤ end
      → passes_over m size r k b ≡ true
      → Fails m size r k b
  unfolding passes_over
  block-Fails b room inside over =
      let bounds = alloc_addr_lem r k b ok.power pos (omega arith) in
      let holds = ok.holds in
      elim (Bool-cases (inuse m b == 1)) [
        | inl used ↦ inl ((==_iff (inuse m b) 1).0 used)
        | inr unused ↦ inr (ground (arith, bounds, holds, rw unused at over))
      ]

  -- The search passes over blocks that fail, up to the first that serves or to the end.
  pub first_fit-FirstServes :
      (p : Ptr) (bs : List Ptr)
      → Chain m end p bs
      → FirstServes m end size r k (first_fit m size r k end bs) bs
        ⊎ ((first_fit m size r k end bs ≡ end) × All (λ b. Fails m size r k b) bs)
  unfolding first_fit
  first_fit-FirstServes p [] c = inr (refl, tt)
  first_fit-FirstServes p (b ∷ bs) c =
      let inside = Chain-le m end (next m b) bs c.3 in
      elim (Bool-cases (passes_over m size r k b)) [
        | inl over ↦
            let fails = block-Fails b c.2 inside over in
            rw over (elim (first_fit-FirstServes (next m b) bs c.3) [
              | inl h ↦ inl (record {
                before = b ∷ h.before;
                after = h.after;
                listed = ap (λ l. b ∷ l) h.listed;
                fail = (fails, h.fail);
                serves = h.serves;
              })
              | inr h ↦ inr (h.0, (fails, h.1))
            ])
        | inr fits ↦ rw fits (
            inl (record {
              before = [];
              after = bs;
              listed = refl;
              fail = tt;
              serves = block-Serves b c.1 c.2 inside fits;
            }))
      ]

pmm_alloc-run :
    (env : Env) (fuel : ℕ) (heap : Area) (size r k b : ℕ) (s s₁ s₂ : Pmm)
    → grow fuel size 1 0 (take_lock env s) ≡ done (r, k) s₁
    → find_block fuel heap size r k s₁.memory_head s₁ ≡ done b s₂
    → b ≢ null
    → pmm_alloc env fuel heap size s
      ≡ done (alloc_addr r k b) (drop_lock (place heap size (alloc_addr r k b) b s₂))
unfolding pmm_alloc
pmm_alloc-run env fuel heap size r k b s s₁ s₂ e f ne =
    rw (e, pmm_alloc) (rw (f, pmm_alloc) (rw (==_ne b null ne, pmm_alloc)))

pub IsRounded-pos : {size r k : ℕ} → IsRounded size r k → 0 < r
IsRounded-pos {k} ok = let p = one-le-pow k 2 (omega arith) in rw ok.power p

pub double_bound :
    {size r k : ℕ} (end : ℕ)
    → IsRounded size r k
    → end + 4 * size + 2 ≤ 2 ^ 31
    → end + 2 * r ≤ 2 ^ 31
double_bound end ok small = omega arith

first_fit-pos :
    (m : Memory) (end size r k p : ℕ) (bs : List Ptr)
    → Chain m end p bs
    → 0 < end
    → 0 < first_fit m size r k end bs
unfolding first_fit
first_fit-pos m end size r k p [] c pos = pos
first_fit-pos m end size r k p (b ∷ bs) c pos = elim (Bool-cases (passes_over m size r k b)) [
  | inl over ↦ rw over (first_fit-pos m end size r k (next m b) bs c.3 pos)
  | inr fits ↦ rw fits c.1
]

first_fit-in_use :
    (m : Memory) (end size r k : ℕ) (bs : List Ptr)
    → All (λ b. inuse m b ≡ 1) bs
    → first_fit m size r k end bs ≡ end
unfolding first_fit passes_over
first_fit-in_use m end size r k [] used = refl
first_fit-in_use m end size r k (b ∷ bs) used =
    rw used.0 (first_fit-in_use m end size r k bs used.1)

module _ (env : Env) (fuel : ℕ) (heap : Area) (size : ℕ) (s : Pmm) (bs : List Ptr)
    (chain : Chain s.memory heap.end s.memory_head bs) (steps : 32 < fuel) (long : length bs < fuel)
    (head : 0 < heap.end) (small : heap.end + 4 * size + 2 ≤ 2 ^ 31) where
  -- The allocator answers with the address in the first block that it does not pass over; where
  -- there is none, it takes the end of the heap for a block.
  pub pmm_alloc-first_fit :
      (r : ℕ) × (k : ℕ) × IsRounded size r k
      × (let b = first_fit s.memory size r k heap.end bs in
          pmm_alloc env fuel heap size s
          ≡ done
              (alloc_addr r k b)
              (drop_lock (place heap size (alloc_addr r k b) b (take_lock env s))))
  unfolding pmm_alloc
  pmm_alloc-first_fit =
      let (r, k, ok, e) = grow_lem fuel size (take_lock env s) (omega arith) steps in
      let b = first_fit s.memory size r k heap.end bs in
      let found =
        find_block-first_fit fuel heap size r k s.memory_head bs (take_lock env s) chain long in
      (
        r,
        k,
        ok,
        pmm_alloc-run env fuel heap size r k b s (take_lock env s) (take_lock env s) e found
            (ne_of_gt (first_fit-pos s.memory heap.end size r k s.memory_head bs chain head)),
      )

  -- On a heap whose blocks form a chain that ends, with four times the size and 2 added, at most at
  -- 2 ^ 31, and with fuel for 33 rounds and for every block, the allocator ends, and its answer `a` lies
  -- in the first block of the list that serves. That block is free, its header ends before `a`, the
  -- `size` bytes at `a` end before the next block, and `a` is a multiple of `r`, the least power of
  -- two that holds `size`; each block before it is in use, or ends before the bytes would that it
  -- would give. Or every block of the list is so, and `a` lies behind the end of the heap: it is
  -- never NULL.
  pub pmm_alloc_lem :
      (r : ℕ) × (k : ℕ) × (b : ℕ) × IsRounded size r k
      × (pmm_alloc env fuel heap size s
          ≡ done
              (alloc_addr r k b)
              (drop_lock (place heap size (alloc_addr r k b) b (take_lock env s))))
      × (FirstServes s.memory heap.end size r k b bs
          ⊎ ((b ≡ heap.end)
              × All (λ b'. Fails s.memory size r k b') bs
              × (heap.end < alloc_addr r k b)))
  pmm_alloc_lem =
      let (r, k, ok, e) = pmm_alloc-first_fit in
      let b = first_fit s.memory size r k heap.end bs in
      let pos = IsRounded-pos ok in
      let fits : heap.end + 2 * r ≤ 2 ^ 31 = double_bound heap.end ok small in
      let past = alloc_addr_lem r k heap.end ok.power pos (omega arith) in
      (
        r,
        k,
        b,
        ok,
        e,
        elim (first_fit-FirstServes s.memory heap.end size r k ok pos fits s.memory_head bs chain) [
          | inl first ↦ inl first
          | inr h ↦ inr (h.0, h.1, rw h.0 (omega (arith, past)))
        ],
      )

  -- Under the same conditions and with every block in use the allocator does not answer NULL: its answer lies behind the heap.
  pub pmm_alloc-exhausted :
      All (λ b. inuse s.memory b ≡ 1) bs
      → (a : ℕ) × (s' : Pmm) × (pmm_alloc env fuel heap size s ≡ done a s') × (heap.end < a)
  pmm_alloc-exhausted used =
      let (r, k, ok, e) = pmm_alloc-first_fit in
      let at_end = first_fit-in_use s.memory heap.end size r k bs used in
      let fits : heap.end + 2 * r ≤ 2 ^ 31 = double_bound heap.end ok small in
      let past = alloc_addr_lem r k heap.end ok.power (IsRounded-pos ok) (omega arith) in
      (_, _, e, rw at_end (omega (arith, past)))
