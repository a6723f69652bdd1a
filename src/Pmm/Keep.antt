-- ===== src/Pmm/Keep.antt =====
-- `pmm_alloc` of src/pmm.c keeps the blocks of the heap a list.
use nsos.Prelude.{
  ℕ, ◌+◌, ◌-◌, ◌*◌, ◌^◌, ◌≤◌, ◌<◌, ◌≡◌, ◌≢◌, ◌⊎◌, inl, inr, refl, ap, List, [], ◌∷◌, ◌++◌, arith,
  Bool-cases, length,
}
use nsos.Machine.{Ptr, null, Env, done}
use nsos.CString.{Memory, sub32}
use nsos.Pmm.Block.{sizeof_block, inuse, front, next, Area, Pmm, take_lock, drop_lock}
use nsos.Pmm.Alloc.{alloc_addr, passes_over, place, pmm_alloc}
use nsos.Pmm.Search.{first_fit, alloc_addr_lem}
use nsos.Pmm.Address.{
  Serves, IsExhausted, pmm_alloc-first_fit, first_fit-FirstServes, IsRounded-pos, double_bound,
}
use nsos.Pmm.Links.{Linked, Leads, Linked-Chain, Linked-le}
use nsos.Pmm.Split
use nsos.Pmm.Place.{Placed, place_far-Placed}
use nsos.Pmm.Move.{split_near-Cut, move_header-Placed}

module _ (s : Pmm) (heap : Area) (size h b n l : ℕ) (xs ys : List Ptr)
    (left : Leads s.memory null s.memory_head xs l b) (pos : 0 < b) (from : front s.memory b ≡ l)
    (to : next s.memory b ≡ n) (right : Linked s.memory heap.end b n ys)
    (free : inuse s.memory b ≢ 1) (low : b ≤ h) (fits : h + 12 + size ≤ n)
    (small : heap.end ≤ 2 ^ 31) where
  place-Placed :
      let s' = place heap size (h + 12) b s in
      Placed s.memory heap size h xs ys s.memory_head s'.memory s'.memory_head
  unfolding place
  place-Placed =
      let le = Linked-le s.memory heap.end b n ys right in
      let e₁ : sub32 (h + 12) sizeof_block ≡ h = omega arith in
      elim (Bool-cases (Split.is_far (h + 12) b)) [
        | inl e ↦ rw e (
            place_far-Placed s.memory heap size h b n s.memory_head l xs ys left pos from to right
              free fits small
              (omega (arith, Split.far-pos (h + 12) b (omega arith) (omega arith) e)))
        | inr e ↦
            rw (e, e₁)
              (move_header-Placed s.memory heap size h b n s.memory_head l xs ys low pos left from
                right small (split_near-Cut s.memory heap size h b n ys low to right fits small))
      ]

-- The block that serves, the blocks before it and the blocks behind it.
record Found (m : Memory) (end prev p : Ptr) (bs : List Ptr) (b : Ptr) : Type 0 where
  before : List Ptr
  behind : List Ptr
  last : Ptr
  blocks : bs ≡ before ++ b ∷ behind
  left : Leads m prev p before last b
  front_field : front m b ≡ last
  right : Linked m end b (next m b) behind

first_fit-Found :
    (m : Memory) (size r k end prev p : ℕ) (bs : List Ptr)
    → Linked m end prev p bs
    → first_fit m size r k end bs ≢ end
    → Found m end prev p bs (first_fit m size r k end bs)
unfolding first_fit
first_fit-Found m size r k end prev p [] l found = absurd (found refl)
first_fit-Found m size r k end prev p (b ∷ bs) l found =
    elim (Bool-cases (passes_over m size r k b)) [
      | inl over ↦
          let f = first_fit-Found m size r k end b (next m b) bs l.4 (rw over at found) in
          rw over (record {
            before = b ∷ f.before;
            behind = f.behind;
            last = f.last;
            blocks = ap (λ t. b ∷ t) f.blocks;
            left = (l.0, l.1, l.2, l.3, f.left);
            front_field = f.front_field;
            right = f.right;
          })
      | inr fits ↦ rw fits (record {
        before = [];
        behind = bs;
        last = prev;
        blocks = refl;
        left = (l.0, refl);
        front_field = l.3;
        right = l.4;
      })
    ]

-- The blocks after an allocation: a free block of the list has given way to a block in use, whose
-- bytes begin at the answer `a` and hold the size.
pub record Allocated (heap : Area) (size : ℕ) (bs : List Ptr) (s s' : Pmm) (a : Ptr) : Type 0 where
  pub before : List Ptr
  pub block : Ptr
  pub behind : List Ptr
  pub blocks : bs ≡ before ++ block ∷ behind
  pub was_free : inuse s.memory block ≢ 1
  pub header : Ptr
  pub header_at : header + sizeof_block ≡ a
  pub inside : (block ≤ header) × (a + size ≤ next s.memory block)
  pub placed : Placed s.memory heap size header before behind s.memory_head s'.memory s'.memory_head

-- An address behind the header of a block, by the header that goes before it.
behind_header : (b a : ℕ) → b + sizeof_block ≤ a → (h : ℕ) × (h + 12 ≡ a) × (b ≤ h)
behind_header b a le = (a - 12, omega arith, omega arith)

module _ (env : Env) (fuel : ℕ) (heap : Area) (size : ℕ) (s : Pmm) (bs : List Ptr)
    (linked : Linked s.memory heap.end null s.memory_head bs) (steps : 32 < fuel)
    (long : length bs < fuel) (head : 0 < heap.end) (small : heap.end + 4 * size + 2 ≤ 2 ^ 31) where
  serving-Allocated :
      (r k b h : ℕ)
      → Serves s.memory heap.end size r k b
      → Found s.memory heap.end null s.memory_head bs b
      → h + 12 ≡ alloc_addr r k b
      → b ≤ h
      → Allocated heap size bs s (drop_lock (place heap size (h + 12) b (take_lock env s))) (h + 12)
  serving-Allocated r k b h serves f at low =
      let fits = serves.before in
      record {
        before = f.before;
        block = b;
        behind = f.behind;
        blocks = f.blocks;
        was_free = serves.free;
        header = h;
        header_at = refl;
        inside = (low, omega arith);
        placed =
            place-Placed (take_lock env s) heap size h b (next s.memory b) f.last f.before f.behind
              f.left serves.positive f.front_field refl f.right serves.free low (omega arith)
              (omega arith);
      }

  -- On a heap whose blocks are linked both ways, with room for the size and fuel for 33 rounds and for
  -- every block, the allocator ends, and its blocks are the old ones but for a free block, which has
  -- given way to a block in use that holds the size from the answer on, and to free blocks, at most
  -- one before and one behind it. All other blocks keep their flags and bytes. The links are whole
  -- both ways, unless the first block has moved: then the next fields still lead through all
  -- blocks. Or every block is in use, or ends before the bytes would that it would give, and the
  -- answer lies behind the end of the heap.
  pub pmm_alloc-Allocated :
      (a : Ptr) × (s' : Pmm) × (pmm_alloc env fuel heap size s ≡ done a s')
      × (Allocated heap size bs s s' a ⊎ IsExhausted s.memory heap.end size bs a)
  pmm_alloc-Allocated =
      let chain = Linked-Chain s.memory heap.end null s.memory_head bs linked in
      let (r, k, ok, e) = pmm_alloc-first_fit env fuel heap size s bs chain steps long head small in
      let b = first_fit s.memory size r k heap.end bs in
      let pos = IsRounded-pos ok in
      let fits : heap.end + 2 * r ≤ 2 ^ 31 = double_bound heap.end ok small in
      let past = alloc_addr_lem r k heap.end ok.power pos (omega arith) in
      (
        _,
        _,
        e,
        elim (first_fit-FirstServes s.memory heap.end size r k ok pos fits s.memory_head bs chain) [
          | inr none_left ↦ inr (record {
            r = r;
            k = k;
            rounded = ok;
            fail = none_left.1;
            past = rw none_left.0 (omega (arith, past));
          })
          | inl first ↦
              let serves = first.serves in
              let found : b ≢ heap.end =
                λ z. absurd (omega (arith, z, serves.behind, serves.before, serves.inside)) in
              let (h, at, low) = behind_header b (alloc_addr r k b) serves.behind in
              let f =
                first_fit-Found s.memory size r k heap.end null s.memory_head bs linked found in
              inl (rw at at (serving-Allocated r k b h serves f at low))
        ],
      )
