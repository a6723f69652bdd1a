-- ===== src/Pmm/Split.antt =====
-- What `pmm_alloc` of src/pmm.c writes when it splits a block.
use nsos.Prelude.{
  ℕ, ◌+◌, ◌*◌, ◌^◌, ◌≤◌, ◌<◌, ◌≡◌, ◌≢◌, ◌⊎◌, inl, inr, refl, ◌∙◌, Bool, true, false, arith, ◌==◌,
  Bool-cases,
}
use nsos.Machine.{Ptr}
use nsos.CString.{Memory, sub32}
use nsos.Pmm.Block.{sizeof_block, inuse, front, next, set_next, set_inuse, set_front, Area}
use nsos.Pmm.Alloc.{is_positive, start_in, new_block, back_link}
use nsos.Pmm.Bytes.{Agree, load32-store32, load32-apart, load32-poke, store32-apart, poke-apart}

pub back_link-apart :
    (heap : Area) (b v : ℕ) (m : Memory) (x : ℕ)
    → (x < next m b) ⊎ (next m b + 4 ≤ x)
    → back_link heap b v m x ≡ m x
back_link-apart heap b v m x apart = elim (Bool-cases (next m b == heap.end)) [
  | inl last ↦ rw last
  | inr more ↦ rw more (store32-apart m (next m b) v x apart)
]

pub ruleset writes =
    (arith, load32-store32, load32-apart, load32-poke, back_link-apart, store32-apart, poke-apart)

-- A block header.
pub record Header (m : Memory) (b prev : Ptr) (used : ℕ) (after : Ptr) : Type 0 where
  pub front_field : front m b ≡ prev
  pub inuse_field : inuse m b ≡ used
  pub next_field : next m b ≡ after

abbrev pub has_room : (n a size : ℕ) → Bool
has_room n a size = is_positive (sub32 (sub32 (sub32 n a) size) sizeof_block)

-- There is room for another block.
pub room-pos :
    (n a size : ℕ)
    → a + size ≤ n
    → n ≤ 2 ^ 31
    → has_room n a size ≡ true
    → a + size + sizeof_block < n
room-pos n a size le small e = ground arith

abbrev pub is_far : (a b : ℕ) → Bool
is_far a b = is_positive (sub32 (sub32 a (start_in b)) sizeof_block)

-- There is room for a block header.
pub far-pos :
    (a b : ℕ) → b + sizeof_block ≤ a → a ≤ 2 ^ 31 → is_far a b ≡ true → b + 2 * sizeof_block < a
far-pos a b le small e = ground arith

abbrev pub head_at : (h prev : Ptr) → Memory → Memory
head_at h prev m = set_inuse h 1 (set_front h prev m)

abbrev pub far_room : Area → (h after b : Ptr) → Memory → Memory
far_room heap h after b m =
    set_next b h (back_link heap b after (set_next h after (new_block after h b (head_at h b m))))

abbrev pub far_full : Area → (h b : Ptr) → Memory → Memory
far_full heap h b m =
    set_next b h (back_link heap b h (set_next h (next (head_at h b m) b) (head_at h b m)))

module _ (m : Memory) (heap : Area) (h b n : ℕ) (e : next m b ≡ n) (p : b + 12 ≤ h) (r : h + 12 ≤ n)
    (s : n ≤ heap.end) (t : heap.end < 2 ^ 32) where
  pub full_b : Header (far_full heap h b m) b (front m b) (inuse m b) h
  full_b = record {
    front_field = grind writes;
    inuse_field = grind writes;
    next_field = grind writes;
  }

  pub full_h : Header (far_full heap h b m) h b 1 n
  full_h = record {
    front_field = grind writes;
    inuse_field = grind writes;
    next_field = grind writes;
  }

  pub full_back : n ≢ heap.end → front (far_full heap h b m) n ≡ h
  full_back ne = grind writes

  pub full_below : Agree m (far_full heap h b m) 0 b
  full_below x lo hi = grind writes

  pub full_above : Agree m (far_full heap h b m) (n + 4) heap.end
  full_above x lo hi = grind writes

module _ (m : Memory) (heap : Area) (h after b n : ℕ) (e : next m b ≡ n) (p : b + 12 ≤ h)
    (q : h + 12 ≤ after) (r : after + 12 ≤ n) (s : n ≤ heap.end) (t : heap.end < 2 ^ 32) where
  pub far_b : Header (far_room heap h after b m) b (front m b) (inuse m b) h
  far_b = record {
    front_field = grind writes;
    inuse_field = grind writes;
    next_field = grind writes;
  }

  pub far_h : Header (far_room heap h after b m) h b 1 after
  far_h = record {
    front_field = grind writes;
    inuse_field = grind writes;
    next_field = grind writes;
  }

  pub far_after : Header (far_room heap h after b m) after h 0 n
  far_after = record {
    front_field = grind writes;
    inuse_field = grind writes;
    next_field = grind writes;
  }

  pub far_back : n ≢ heap.end → front (far_room heap h after b m) n ≡ after
  far_back ne = grind writes

  pub far_below : Agree m (far_room heap h after b m) 0 b
  far_below x lo hi = grind writes

  pub far_above : Agree m (far_room heap h after b m) (n + 4) heap.end
  far_above x lo hi = grind writes

-- The rest of the block at `b` becomes a block, and the header of `b` stays.
abbrev pub cut : Area → (h after b : Ptr) → Memory → Memory
cut heap h after b m = set_next b after (back_link heap b after (new_block after h b m))

module _ (m : Memory) (heap : Area) (h after b n : ℕ) (e : next m b ≡ n) (p : b ≤ h)
    (q : h + 12 ≤ after) (r : after + 12 ≤ n) (s : n ≤ heap.end) (t : heap.end < 2 ^ 32) where
  pub cut_b : Header (cut heap h after b m) b (front m b) (inuse m b) after
  cut_b = record {
    front_field = grind writes;
    inuse_field = grind writes;
    next_field = grind writes;
  }

  pub cut_rest : Header (cut heap h after b m) after h 0 n
  cut_rest = record {
    front_field = grind writes;
    inuse_field = grind writes;
    next_field = grind writes;
  }

  pub cut_back : n ≢ heap.end → front (cut heap h after b m) n ≡ after
  cut_back ne = grind writes

  pub cut_below : Agree m (cut heap h after b m) 0 (b + 8)
  cut_below x lo hi = grind writes

  pub cut_above : Agree m (cut heap h after b m) (n + 4) heap.end
  cut_above x lo hi = grind writes

-- The header of a block behind another moves from `b` to `h`.
abbrev pub moved : (h l n : Ptr) → Memory → Memory
moved h l n m = set_inuse h 1 (set_front h l (set_next h n (set_front n h (set_next l h m))))

module _ (m : Memory) (h l b n end : ℕ) (o : l + 12 ≤ b) (p : b ≤ h) (q : h + 12 ≤ n) (s : n ≤ end)
    (t : end < 2 ^ 32) where
  pub moved_h : Header (moved h l n m) h l 1 n
  moved_h = record {
    front_field = grind writes;
    inuse_field = grind writes;
    next_field = grind writes;
  }

  pub moved_last : next (moved h l n m) l ≡ h
  moved_last = grind writes

  pub moved_back : front (moved h l n m) n ≡ h
  moved_back = grind writes

  pub moved_below : Agree m (moved h l n m) 0 (l + 8)
  moved_below x lo hi = grind writes

  pub moved_between : Agree m (moved h l n m) (l + 12) b
  moved_between x lo hi = grind writes

  pub moved_above : Agree m (moved h l n m) (n + 4) end
  moved_above x lo hi = grind writes

-- The header of the first block moves to `h`.
abbrev pub moved_head : (h n : Ptr) → Memory → Memory
moved_head h n m = set_inuse h 1 (set_next h n m)

module _ (m : Memory) (h n end : ℕ) (q : h + 12 ≤ n) (s : n ≤ end) (t : end < 2 ^ 32) where
  pub moved_head_h : Header (moved_head h n m) h (front m h) 1 n
  moved_head_h = record {
    front_field = grind writes;
    inuse_field = grind writes;
    next_field = grind writes;
  }

  pub moved_head_above : Agree m (moved_head h n m) n end
  moved_head_above x lo hi = grind writes

pub head_at-next : (m : Memory) (h b : ℕ) → b + 12 ≤ h → next (head_at h b m) b ≡ next m b
head_at-next m h b p = grind writes
