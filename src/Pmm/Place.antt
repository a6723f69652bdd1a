-- ===== src/Pmm/Place.antt =====
-- `pmm_alloc` of src/pmm.c, once it has found a block: the list of blocks that it leaves.
use nsos.Prelude.{
  ℕ, ◌+◌, ◌^◌, ◌≤◌, ◌<◌, ◌≡◌, ◌≢◌, ◌⊎◌, inl, inr, refl, ◌∙◌, List, [], ◌∷◌, ◌++◌, arith, Bool-cases,
  All,
}
use nsos.Machine.{Ptr, null}
use nsos.CString.{Memory, sub32, add32}
use nsos.Pmm.Block.{sizeof_block, inuse, front, next, Area}
use nsos.Pmm.Alloc.{place_far}
use nsos.Pmm.Search.{Chain}
use nsos.Pmm.Links.{
  Linked, Leads, Linked-le, Leads-frame, Linked-refront, append, Keeps, Leads-Keeps, Linked-Keeps,
}
use nsos.Pmm.Split

-- In memory `m'`, where `head'` is the first block, there is a block in use at `h` in place of the
-- free block at `b`, between the blocks `xs` and `ys`, which are as in `m`. What is left of `b`
-- is free. The links are whole both ways, unless the first block of all has moved.
pub record Placed (m : Memory) (heap : Area) (size h : ℕ) (xs ys : List Ptr) (head : Ptr)
    (m' : Memory) (head' : Ptr) : Type 0 where
  pub lower : List Ptr
  pub upper : List Ptr
  pub links :
      ((head' ≡ head) × Linked m' heap.end null head (xs ++ (lower ++ (h ∷ (upper ++ ys)))))
      ⊎ ((head' ≢ head) × Chain m' heap.end head' (xs ++ (lower ++ (h ∷ (upper ++ ys)))))
  pub used : inuse m' h ≡ 1
  pub room : h + sizeof_block + size ≤ next m' h
  pub lower_free : All (λ c. inuse m' c ≢ 1) lower
  pub upper_free : All (λ c. inuse m' c ≢ 1) upper
  pub before : All (Keeps m m') xs
  pub behind : All (Keeps m m') ys

-- One block more at the front of a list.
pub cons-Linked :
    (m : Memory) (end b prev next' used : ℕ) (bs : List Ptr)
    → Split.Header m b prev used next'
    → 0 < b
    → b + sizeof_block ≤ next'
    → Linked m end b next' bs
    → Linked m end prev b (b ∷ bs)
cons-Linked m end b prev next' used bs hd pos room l =
    (refl, pos, rw hd.next_field room, hd.front_field, rw hd.next_field l)

module _ (m : Memory) (heap : Area) (size h b n head l : ℕ) (xs ys : List Ptr)
    (left : Leads m null head xs l b) (pos : 0 < b) (from : front m b ≡ l) (to : next m b ≡ n)
    (right : Linked m heap.end b n ys) (free : inuse m b ≢ 1) (fits : h + 12 + size ≤ n)
    (small : heap.end ≤ 2 ^ 31) where
  end-le : n ≤ heap.end
  end-le = Linked-le m heap.end b n ys right

  -- The block at `b` stays, and there is a rest.
  far_room-Placed :
      b + 12 ≤ h
      → h + 12 + size + 12 ≤ n
      → Placed m heap size h xs ys head (Split.far_room heap h (h + 12 + size) b m) head
  far_room-Placed far more =
      let m' = Split.far_room heap h (h + 12 + size) b m in
      let le = end-le in
      let q : h + 12 ≤ h + 12 + size = omega arith in
      let below = Split.far_below m heap h (h + 12 + size) b n to far q more le (omega arith) in
      let above = Split.far_above m heap h (h + 12 + size) b n to far q more le (omega arith) in
      let at_b = Split.far_b m heap h (h + 12 + size) b n to far q more le (omega arith) in
      let at_h = Split.far_h m heap h (h + 12 + size) b n to far q more le (omega arith) in
      let at_rest = Split.far_after m heap h (h + 12 + size) b n to far q more le (omega arith) in
      let back = Split.far_back m heap h (h + 12 + size) b n to far q more le (omega arith) in
      let rest_links =
        cons-Linked m' heap.end (h + 12 + size) h n 0 ys at_rest (omega arith) more
          (Linked-refront m m' heap.end b (h + 12 + size) n ys right above back) in
      let h_links =
        cons-Linked m' heap.end h b (h + 12 + size) 1 ((h + 12 + size) ∷ ys) at_h (omega arith) q
          rest_links in
      let b_links =
        cons-Linked m' heap.end b l h (inuse m b) (h ∷ (h + 12 + size) ∷ ys) (rw from at at_b) pos
          far h_links in
      record {
        lower = b ∷ [];
        upper = (h + 12 + size) ∷ [];
        links = inl (
          refl,
          append m' heap.end null head xs (b ∷ h ∷ (h + 12 + size) ∷ ys) l b
              (Leads-frame m m' null head xs l b left below) b_links,
        );
        used = at_h.inuse_field;
        room = rw at_h.next_field (omega arith);
        lower_free = (rw at_b.inuse_field free, tt);
        upper_free = (rw at_rest.inuse_field (omega arith), tt);
        before = Leads-Keeps m m' null head xs l b left (λ x lt _. below x (omega arith) lt);
        behind = Linked-Keeps m m' heap.end b n ys right above;
      }

  -- The block at `b` stays, and the new block takes all the rest.
  far_full-Placed : b + 12 ≤ h → Placed m heap size h xs ys head (Split.far_full heap h b m) head
  far_full-Placed far =
      let m' = Split.far_full heap h b m in
      let le = end-le in
      let r : h + 12 ≤ n = omega arith in
      let below = Split.full_below m heap h b n to far r le (omega arith) in
      let above = Split.full_above m heap h b n to far r le (omega arith) in
      let at_b = Split.full_b m heap h b n to far r le (omega arith) in
      let at_h = Split.full_h m heap h b n to far r le (omega arith) in
      let back = Split.full_back m heap h b n to far r le (omega arith) in
      let h_links =
        cons-Linked m' heap.end h b n 1 ys at_h (omega arith) r
          (Linked-refront m m' heap.end b h n ys right above back) in
      let b_links =
        cons-Linked m' heap.end b l h (inuse m b) (h ∷ ys) (rw from at at_b) pos far h_links in
      record {
        lower = b ∷ [];
        upper = [];
        links = inl (
          refl,
          append m' heap.end null head xs (b ∷ h ∷ ys) l b
              (Leads-frame m m' null head xs l b left below) b_links,
        );
        used = at_h.inuse_field;
        room = rw at_h.next_field fits;
        lower_free = (rw at_b.inuse_field free, tt);
        upper_free = tt;
        before = Leads-Keeps m m' null head xs l b left (λ x lt _. below x (omega arith) lt);
        behind = Linked-Keeps m m' heap.end b n ys right above;
      }

  pub place_far-Placed :
      b + 12 ≤ h → Placed m heap size h xs ys head (place_far heap size (h + 12) b m) head
  unfolding place_far
  place_far-Placed far =
      let le = end-le in
      let e₁ : sub32 (h + 12) sizeof_block ≡ h = omega arith in
      let e₂ : add32 (h + 12) size ≡ h + 12 + size = omega arith in
      let e₃ : next (Split.head_at h b m) b ≡ n = Split.head_at-next m h b far ∙ to in
      rw (e₁, e₂)
        (elim (Bool-cases (Split.has_room n (h + 12) size)) [
          | inl e ↦ rw (rw (← e₃) at e) (
              far_room-Placed far
                (omega (arith, Split.room-pos n (h + 12) size (omega arith) (omega arith) e)))
          | inr e ↦ rw (rw (← e₃) at e) (far_full-Placed far)
        ])
