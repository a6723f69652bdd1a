-- ===== src/Pmm/Move.antt =====
-- `pmm_alloc` of src/pmm.c where the address leaves no room for a header of its own: the header of
-- the block moves.
use nsos.Prelude.{
  ℕ, ◌+◌, ◌^◌, ◌≤◌, ◌<◌, ◌≡◌, ◌≢◌, inl, inr, refl, sym, ◌∙◌, false, List, [], ◌∷◌, ◌++◌, arith,
  ◌==◌, Bool-cases, All, ==_ne,
}
use native.Mathlib.Decide.{ℕ_discrete}
use nsos.Machine.{Ptr, null}
use nsos.CString.{Memory, sub32, add32}
use nsos.Pmm.Block.{sizeof_block, inuse, front, next, Area}
use nsos.Pmm.Alloc.{split_near, move_header}
use nsos.Pmm.Bytes.{Agree}
use nsos.Pmm.Links.{
  Linked, Leads, Linked-Chain, Linked-le, Leads-last, Leads-frame, Linked-frame, Linked-refront,
  Leads-redirect, append, Keeps, Leads-Keeps, Linked-Keeps,
}
use nsos.Pmm.Split
use nsos.Pmm.Place.{Placed, cons-Linked}

-- The block at `b` before its header moves to `h`: what is left behind it is a free block.
pub record Cut (m : Memory) (heap : Area) (size h b n : ℕ) (ys : List Ptr) (m' : Memory)
    : Type 0 where
  upper : List Ptr
  next' : Ptr
  prev : Ptr
  next_field : next m' b ≡ next'
  front_field : front m' b ≡ front m b
  links : Linked m' heap.end prev next' (upper ++ ys)
  prev_of : h ≡ b → prev ≡ h
  room : h + sizeof_block + size ≤ next'
  above : next' ≤ n
  upper_free : All (λ c. inuse m' c ≢ 1) upper
  below_same : Agree m m' 0 (b + 8)
  above_same : Agree m m' (n + 4) heap.end

module _ (m : Memory) (heap : Area) (size h b n : ℕ) (ys : List Ptr) (low : b ≤ h)
    (to : next m b ≡ n) (right : Linked m heap.end b n ys) (fits : h + 12 + size ≤ n)
    (small : heap.end ≤ 2 ^ 31) where
  whole-Cut : Cut m heap size h b n ys m
  whole-Cut = record {
    upper = [];
    next' = n;
    prev = b;
    next_field = to;
    front_field = refl;
    links = right;
    prev_of = sym;
    room = fits;
    above = omega arith;
    upper_free = tt;
    below_same = λ x _ _. refl;
    above_same = λ x _ _. refl;
  }

  cut-Cut : h + 12 + size + 12 ≤ n → Cut m heap size h b n ys (Split.cut heap h (h + 12 + size) b m)
  cut-Cut more =
      let m' = Split.cut heap h (h + 12 + size) b m in
      let le = Linked-le m heap.end b n ys right in
      let q : h + 12 ≤ h + 12 + size = omega arith in
      let above = Split.cut_above m heap h (h + 12 + size) b n to low q more le (omega arith) in
      let at_b = Split.cut_b m heap h (h + 12 + size) b n to low q more le (omega arith) in
      let at_rest = Split.cut_rest m heap h (h + 12 + size) b n to low q more le (omega arith) in
      let back = Split.cut_back m heap h (h + 12 + size) b n to low q more le (omega arith) in
      record {
        upper = (h + 12 + size) ∷ [];
        next' = h + 12 + size;
        prev = h;
        next_field = at_b.next_field;
        front_field = at_b.front_field;
        links =
            cons-Linked m' heap.end (h + 12 + size) h n 0 ys at_rest (omega arith) more
              (Linked-refront m m' heap.end b (h + 12 + size) n ys right above back);
        prev_of = λ _. refl;
        room = omega arith;
        above = omega arith;
        upper_free = (rw at_rest.inuse_field (omega arith), tt);
        below_same = Split.cut_below m heap h (h + 12 + size) b n to low q more le (omega arith);
        above_same = above;
      }

free-Keeps :
    (m m' : Memory) (us ys : List Ptr)
    → All (Keeps m m') (us ++ ys)
    → All (λ c. inuse m c ≢ 1) us
    → All (λ c. inuse m' c ≢ 1) us
free-Keeps m m' [] ys keep free = tt
free-Keeps m m' (u ∷ us) ys keep free = (rw keep.0.0 free.0, free-Keeps m m' us ys keep.1 free.1)

module _ (m : Memory) (heap : Area) (size h b n : ℕ) (ys : List Ptr) (low : b ≤ h) (pos : 0 < b)
    (right : Linked m heap.end b n ys) (small : heap.end ≤ 2 ^ 31) (ms : Memory)
    (c : Cut m heap size h b n ys ms) where
  open c use {upper, next', prev, links, above, below_same, above_same}

  -- The header of a block behind another moves.
  moved-Placed :
      (head x l : ℕ) (xs : List Ptr)
      → Leads m null head (x ∷ xs) l b
      → Placed m heap size h (x ∷ xs) ys head (Split.moved h l next' ms) head
  moved-Placed head x l xs left =
      let m' = Split.moved h l next' ms in
      let room = c.room in
      let bounds = Leads-last m null head x xs l b left in
      let o : l + 12 ≤ b = bounds.1 in
      let q : h + 12 ≤ next' = omega arith in
      let s = Linked-le ms heap.end prev next' (upper ++ ys) links in
      let at_h = Split.moved_h ms h l b next' heap.end o low q s (omega arith) in
      let back = Split.moved_back ms h l b next' heap.end o low q s (omega arith) in
      let below = Split.moved_below ms h l b next' heap.end o low q s (omega arith) in
      let between = Split.moved_between ms h l b next' heap.end o low q s (omega arith) in
      let behind' = Split.moved_above ms h l b next' heap.end o low q s (omega arith) in
      let last = Split.moved_last ms h l b next' heap.end o low q s (omega arith) in
      let left' =
        Leads-frame m ms null head (x ∷ xs) l b left (λ y lo hi. below_same y lo (omega arith)) in
      let tail =
        cons-Linked m' heap.end h l next' 1 (upper ++ ys) at_h (omega arith) q
          (Linked-refront ms m' heap.end prev h next' (upper ++ ys) links behind' (λ _. back)) in
      record {
        lower = [];
        upper = upper;
        links = inl (
          refl,
          append m' heap.end null head (x ∷ xs) (h ∷ (upper ++ ys)) l h
              (Leads-redirect ms m' null head x xs l b h left' below between last low) tail,
        );
        used = at_h.inuse_field;
        room = rw at_h.next_field room;
        lower_free = tt;
        upper_free =
            free-Keeps ms m' upper ys
              (Linked-Keeps ms m' heap.end prev next' (upper ++ ys) links behind') c.upper_free;
        before = Leads-Keeps m m' null head (x ∷ xs) l b left (λ y lt out. elim out [
          | inl lo ↦ below y (omega arith) lo ∙ below_same y (omega arith) (omega arith)
          | inr hi ↦ between y hi lt ∙ below_same y (omega arith) (omega arith)
        ]);
        behind =
            Linked-Keeps m m' heap.end b n ys right
              (λ y lo hi. behind' y (omega arith) hi ∙ above_same y lo hi);
      }

  -- The header of the first block moves, or is where it was already.
  moved_head-Placed :
      front m b ≡ null → Placed m heap size h [] ys b (Split.moved_head h next' ms) h
  moved_head-Placed from =
      let m' = Split.moved_head h next' ms in
      let room = c.room in
      let q : h + 12 ≤ next' = omega arith in
      let s = Linked-le ms heap.end prev next' (upper ++ ys) links in
      let at_h = Split.moved_head_h ms h next' heap.end q s (omega arith) in
      let behind' = Split.moved_head_above ms h next' heap.end q s (omega arith) in
      let tail = Linked-frame ms m' heap.end prev next' (upper ++ ys) links behind' in
      let same_front : h ≡ b → front ms h ≡ null = λ (e : h ≡ b). rw e (c.front_field ∙ from) in
      record {
        lower = [];
        upper = upper;
        links = elim (ℕ_discrete h b) [
          | yes same ↦ inl (
            same,
            rw (← same) (
                cons-Linked m' heap.end h null next' 1 (upper ++ ys) (rw (same_front same) at at_h)
                  (omega arith) q (rw (c.prev_of same) at tail)),
          )
          | no other ↦ inr (
            other,
            (
              refl,
              omega arith,
              rw at_h.next_field q,
              rw at_h.next_field (Linked-Chain m' heap.end prev next' (upper ++ ys) tail),
            ),
          )
        ];
        used = at_h.inuse_field;
        room = rw at_h.next_field room;
        lower_free = tt;
        upper_free =
            free-Keeps ms m' upper ys
              (Linked-Keeps ms m' heap.end prev next' (upper ++ ys) links
                (λ y lo hi. behind' y (omega arith) hi))
              c.upper_free;
        before = tt;
        behind =
            Linked-Keeps m m' heap.end b n ys right
              (λ y lo hi. behind' y (omega arith) hi ∙ above_same y lo hi);
      }

-- What the split of the block leaves before its header moves.
pub split_near-Cut :
    (m : Memory) (heap : Area) (size h b n : ℕ) (ys : List Ptr)
    → b ≤ h
    → next m b ≡ n
    → Linked m heap.end b n ys
    → h + 12 + size ≤ n
    → heap.end ≤ 2 ^ 31
    → Cut m heap size h b n ys (split_near heap size (h + 12) b m)
unfolding split_near
split_near-Cut m heap size h b n ys low to right fits small =
    let le = Linked-le m heap.end b n ys right in
    let e₁ : sub32 (h + 12) sizeof_block ≡ h = omega arith in
    let e₂ : add32 (h + 12) size ≡ h + 12 + size = omega arith in
    rw (e₁, e₂)
      (elim (Bool-cases (Split.has_room n (h + 12) size)) [
        | inl e ↦
            let more = Split.room-pos n (h + 12) size (omega arith) (omega arith) e in
            rw (rw (← to) at e)
              (cut-Cut m heap size h b n ys low to right fits small (omega (arith, more)))
        | inr e ↦ rw (rw (← to) at e) (whole-Cut m heap size h b n ys low to right fits small)
      ])

-- The new header, whichever block of the list gives the room.
abbrev pub Near : Memory → Area → (size h b n : ℕ) → (xs ys : List Ptr) → (head : Ptr) → Type 0
Near m heap size h b n xs ys head =
    let r = move_header h b head (split_near heap size (h + 12) b m) in
    Placed m heap size h xs ys head r.0 r.1

pub move_header-Placed :
    (m : Memory) (heap : Area) (size h b n head l : ℕ) (xs ys : List Ptr)
    → b ≤ h
    → 0 < b
    → Leads m null head xs l b
    → front m b ≡ l
    → Linked m heap.end b n ys
    → heap.end ≤ 2 ^ 31
    → Cut m heap size h b n ys (split_near heap size (h + 12) b m)
    → Near m heap size h b n xs ys head
unfolding move_header
move_header-Placed m heap size h b n head l [] ys low pos left from right small c =
    let e : front m b ≡ null = from ∙ sym left.1 in
    rw (c.front_field ∙ e, c.next_field, left.0)
      (moved_head-Placed m heap size h b n ys low pos right small _ c e)
move_header-Placed m heap size h b n head l (x ∷ xs) ys low pos left from right small c =
    let up = Leads-last m null head x xs l b left in
    let first = left.1 in
    let at = left.0 in
    let some_last : (l == null) ≡ false = ==_ne l null (omega arith) in
    rw (c.front_field ∙ from, c.next_field, some_last)
      (moved-Placed m heap size h b n ys low pos right small _ c head x l xs left)
