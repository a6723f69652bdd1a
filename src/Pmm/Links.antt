-- ===== src/Pmm/Links.antt =====
-- The blocks of src/pmm.c as a list that is linked both ways, and what keeps it so.
use nsos.Prelude.{ℕ, ◌+◌, ◌≤◌, ◌<◌, ◌≡◌, ◌≢◌, ◌⊎◌, inl, inr, ◌∙◌, List, [], ◌∷◌, ◌++◌, arith, All}
use nsos.Machine.{Ptr}
use nsos.CString.{Memory}
use nsos.Pmm.Block.{sizeof_block, inuse, front, next}
use nsos.Pmm.Bytes.{Agree, load32-Agree}
use nsos.Pmm.Search.{Chain}

-- From `p` on the `next` fields lead through the blocks at the addresses `bs` to the heap's end,
-- and each `front` field leads back, that of the first block to `prev`.
abbrev pub Linked : Memory → (end prev p : Ptr) → List Ptr → Type 0
Linked m end prev p [] = p ≡ end
Linked m end prev p (b ∷ bs) =
    (p ≡ b)
    × (0 < b)
    × (b + sizeof_block ≤ next m b)
    × (front m b ≡ prev)
    × Linked m end b (next m b) bs

-- The same up to the block at `q`, with `last` before it.
abbrev pub Leads : Memory → (prev p : Ptr) → List Ptr → (last q : Ptr) → Type 0
Leads m prev p [] last q = (p ≡ q) × (prev ≡ last)
Leads m prev p (b ∷ bs) last q =
    (p ≡ b)
    × (0 < b)
    × (b + sizeof_block ≤ next m b)
    × (front m b ≡ prev)
    × Leads m b (next m b) bs last q

pub Linked-Chain :
    (m : Memory) (end prev p : Ptr) (bs : List Ptr) → Linked m end prev p bs → Chain m end p bs
Linked-Chain m end prev p [] l = l
Linked-Chain m end prev p (b ∷ bs) l = (l.0, l.1, l.2, Linked-Chain m end b (next m b) bs l.4)

pub Linked-le : (m : Memory) (end prev p : Ptr) (bs : List Ptr) → Linked m end prev p bs → p ≤ end
Linked-le m end prev p [] l = omega arith
Linked-le m end prev p (b ∷ bs) l = omega (arith, Linked-le m end b (next m b) bs l.4)

pub Leads-le :
    (m : Memory) (prev p : Ptr) (bs : List Ptr) (last q : Ptr) → Leads m prev p bs last q → p ≤ q
Leads-le m prev p [] last q l = omega arith
Leads-le m prev p (b ∷ bs) last q l = omega (arith, Leads-le m b (next m b) bs last q l.4)

-- The last block ends before what follows.
pub Leads-last :
    (m : Memory) (prev p : Ptr) (b : Ptr) (bs : List Ptr) (last q : Ptr)
    → Leads m prev p (b ∷ bs) last q
    → (b ≤ last) × (last + sizeof_block ≤ q) × (next m last ≡ q)
Leads-last m prev p b [] last q l = ground arith
Leads-last m prev p b (c ∷ bs) last q l =
    let r = Leads-last m b (next m b) c bs last q l.4 in let at = l.4.0 in (omega arith, r.1, r.2)

module _ (m m' : Memory) where
  -- The fields of a block where the memory agrees.
  pub fields :
      (b lo hi : ℕ)
      → Agree m m' lo hi
      → lo ≤ b
      → b + sizeof_block ≤ hi
      → (next m' b ≡ next m b) × (front m' b ≡ front m b) × (inuse m' b ≡ inuse m b)
  fields b lo hi same above below =
      let at = λ (x : ℕ) (h : lo ≤ x) (k : x < hi). same x h k in
      (
        load32-Agree m m' (b + 8) (at (b + 8) (omega arith) (omega arith))
            (at (b + 8 + 1) (omega arith) (omega arith))
            (at (b + 8 + 2) (omega arith) (omega arith))
            (at (b + 8 + 3) (omega arith) (omega arith)),
        load32-Agree m m' b (at b (omega arith) (omega arith))
            (at (b + 1) (omega arith) (omega arith)) (at (b + 2) (omega arith) (omega arith))
            (at (b + 3) (omega arith) (omega arith)),
        at (b + 4) (omega arith) (omega arith),
      )

  pub Leads-frame :
      (prev p : Ptr) (bs : List Ptr) (last q : Ptr)
      → Leads m prev p bs last q
      → Agree m m' 0 q
      → Leads m' prev p bs last q
  Leads-frame prev p [] last q l same = l
  Leads-frame prev p (b ∷ bs) last q l same =
      let up = Leads-le m b (next m b) bs last q l.4 in
      let f = fields b 0 q same (omega arith) (omega arith) in
      let rest = Leads-frame b (next m b) bs last q l.4 same in
      (l.0, l.1, rw f.0 l.2, f.1 ∙ l.3, rw f.0 rest)

  pub Linked-frame :
      (end prev p : Ptr) (bs : List Ptr)
      → Linked m end prev p bs
      → Agree m m' p end
      → Linked m' end prev p bs
  Linked-frame end prev p [] l same = l
  Linked-frame end prev p (b ∷ bs) l same =
      let up = Linked-le m end b (next m b) bs l.4 in
      let at = l.0 in
      let room = l.2 in
      let f = fields b p end same (omega arith) (omega arith) in
      let rest = Linked-frame end b (next m b) bs l.4 (λ x h k. same x (omega arith) k) in
      (l.0, l.1, rw f.0 l.2, f.1 ∙ l.3, rw f.0 rest)

  -- Another block comes before, and the `front` field says so.
  pub Linked-refront :
      (end prev prev' p : Ptr) (bs : List Ptr)
      → Linked m end prev p bs
      → Agree m m' (p + 4) end
      → (p ≢ end → front m' p ≡ prev')
      → Linked m' end prev' p bs
  Linked-refront end prev prev' p [] l same back = l
  Linked-refront end prev prev' p (b ∷ bs) l same back =
      let up = Linked-le m end b (next m b) bs l.4 in
      let at : p ≡ b = l.0 in
      let room = l.2 in
      let e : next m' b ≡ next m b =
        load32-Agree m m' (b + 8) (same (b + 8) (omega arith) (omega arith))
          (same (b + 8 + 1) (omega arith) (omega arith))
          (same (b + 8 + 2) (omega arith) (omega arith))
          (same (b + 8 + 3) (omega arith) (omega arith)) in
      let rest = Linked-frame end b (next m b) bs l.4 (λ x h k. same x (omega arith) k) in
      (l.0, l.1, rw e l.2, rw at at back (λ (h : b ≡ end). omega arith), rw e rest)

  -- The `next` field of the last block leads further on, to `q'`.
  pub Leads-redirect :
      (prev p b : Ptr) (bs : List Ptr) (last q q' : Ptr)
      → Leads m prev p (b ∷ bs) last q
      → Agree m m' 0 (last + 8)
      → Agree m m' (last + sizeof_block) q
      → next m' last ≡ q'
      → q ≤ q'
      → Leads m' prev p (b ∷ bs) last q'
  Leads-redirect prev p b [] last q q' l below above e up =
      let at : b ≡ last = l.4.1 in
      let f : front m' b ≡ front m b =
        load32-Agree m m' b (below b (omega arith) (omega arith))
          (below (b + 1) (omega arith) (omega arith)) (below (b + 2) (omega arith) (omega arith))
          (below (b + 3) (omega arith) (omega arith)) in
      let e' : next m' b ≡ q' = rw at e in
      let room = l.2 in let here = l.4.0 in (l.0, l.1, omega arith, f ∙ l.3, (e', at))
  Leads-redirect prev p b (c ∷ bs) last q q' l below above e up =
      let at : next m b ≡ c = l.4.0 in
      let bounds = Leads-last m b (next m b) c bs last q l.4 in
      let room = l.2 in
      let f = fields b 0 (last + 8) below (omega arith) (omega arith) in
      let rest = Leads-redirect b (next m b) c bs last q q' l.4 below above e up in
      (l.0, l.1, rw f.0 l.2, f.1 ∙ l.3, rw f.0 rest)

pub append :
    (m : Memory) (end prev p : Ptr) (xs ys : List Ptr) (last q : Ptr)
    → Leads m prev p xs last q
    → Linked m end last q ys
    → Linked m end prev p (xs ++ ys)
append m end prev p [] ys last q l k = rw (l.0, l.1) k
append m end prev p (x ∷ xs) ys last q l k =
    (l.0, l.1, l.2, l.3, append m end x (next m x) xs ys last q l.4 k)

-- What another operation on the heap leaves of a block: the flag and the bytes behind the header.
abbrev pub Keeps : Memory → Memory → Ptr → Type 0
Keeps m m' b = (inuse m' b ≡ inuse m b) × Agree m m' (b + sizeof_block) (next m b)

module _ (m m' : Memory) where
  pub Leads-Keeps :
      (prev p : Ptr) (bs : List Ptr) (last q : Ptr)
      → Leads m prev p bs last q
      → ((x : ℕ) → x < q → (x < last + 8) ⊎ (last + sizeof_block ≤ x) → m' x ≡ m x)
      → All (Keeps m m') bs
  Leads-Keeps prev p [] last q l same = tt
  Leads-Keeps prev p (b ∷ []) last q l same =
      let at : b ≡ last = l.4.1 in
      let to = l.4.0 in
      let room = l.2 in
      (
        (
          same (b + 4) (omega arith) (inl (omega arith)),
          λ x h k. same x (omega arith) (inr (omega arith)),
        ),
        tt,
      )
  Leads-Keeps prev p (b ∷ c ∷ bs) last q l same =
      let at : next m b ≡ c = l.4.0 in
      let room = l.2 in
      let bounds = Leads-last m b (next m b) c bs last q l.4 in
      (
        (
          same (b + 4) (omega arith) (inl (omega arith)),
          λ x h k. same x (omega arith) (inl (omega arith)),
        ),
        Leads-Keeps b (next m b) (c ∷ bs) last q l.4 same,
      )

  pub Linked-Keeps :
      (end prev p : Ptr) (bs : List Ptr)
      → Linked m end prev p bs
      → Agree m m' (p + 4) end
      → All (Keeps m m') bs
  Linked-Keeps end prev p [] l same = tt
  Linked-Keeps end prev p (b ∷ bs) l same =
      let at : p ≡ b = l.0 in
      let room = l.2 in
      let up = Linked-le m end b (next m b) bs l.4 in
      (
        (same (b + 4) (omega arith) (omega arith), λ x h k. same x (omega arith) (omega arith)),
        Linked-Keeps end b (next m b) bs l.4 (λ x h k. same x (omega arith) k),
      )

pub append-Chain :
    (m : Memory) (end prev p : Ptr) (xs ys : List Ptr) (last q : Ptr)
    → Leads m prev p xs last q
    → Chain m end q ys
    → Chain m end p (xs ++ ys)
append-Chain m end prev p [] ys last q l k = rw l.0 k
append-Chain m end prev p (x ∷ xs) ys last q l k =
    (l.0, l.1, l.2, append-Chain m end x (next m x) xs ys last q l.4 k)
