-- ===== src/Pmm/Ready.antt =====
-- `pmm_free` of src/pmm.c before its last loop: the list of blocks.
use nsos.Prelude.{
  ◌+◌, ◌^◌, ◌≤◌, ◌<◌, ◌≡◌, ◌≢◌, ◌⊎◌, inl, inr, refl, sym, ap, ◌∙◌, List, [], ◌∷◌, ◌++◌, arith, All,
}
use nsos.Machine.{Ptr, null}
use nsos.CString.{Memory}
use nsos.Pmm.Block.{sizeof_block, inuse, front, next, set_inuse, Area}
use nsos.Pmm.Bytes.{Agree, load32-poke, poke-apart}
use nsos.Pmm.Links.{Linked, Leads, Linked-le, Leads-last, Leads-frame, Linked-frame}
use nsos.Pmm.Join.{Between, Joined}
use nsos.Pmm.Head.{head_reset, head_reset_h, head_reset-Between, head_reset_below, head_reset_above}

-- The block at `c` in a list, with its flag cleared.
Linked-at :
    (m : Memory) (end head prev p c : Ptr) (us vs : List Ptr)
    → Linked m end prev p (us ++ c ∷ vs)
    → (last : Ptr) × Leads m prev p us last c
      × (0 < c)
      × (c + sizeof_block ≤ next m c)
      × (front m c ≡ last)
      × Linked m end c (next m c) vs
Linked-at m end head prev p c [] vs l = (prev, (l.0, refl), l.1, l.2, l.3, l.4)
Linked-at m end head prev p c (u ∷ us) vs l =
    let (last, left, pos, room, from, right) = Linked-at m end head u (next m u) c us vs l.4 in
    (last, (l.0, l.1, l.2, l.3, left), pos, room, from, right)

abbrev pub cleared : Ptr → Memory → Memory
cleared c m = set_inuse c 0 m

pub cleared_lem :
    (m : Memory) (end head c : Ptr) (us vs : List Ptr)
    → Linked m end null head (us ++ c ∷ vs)
    → Between (cleared c m) end head us vs c
      × (next (cleared c m) c ≡ next m c)
      × Agree m (cleared c m) 0 c
      × Agree m (cleared c m) (c + 5) end
cleared_lem m end head c us vs l =
    let (last, left, pos, room, from, right) = Linked-at m end head null head c us vs l in
    let m' = cleared c m in
    let same : next m' c ≡ next m c = load32-poke m (c + 4) 0 (c + 8) (inr (omega arith)) in
    let same' : front m' c ≡ front m c = load32-poke m (c + 4) 0 c (inl (omega arith)) in
    let below : Agree m m' 0 c = λ x lo hi. poke-apart m (c + 4) 0 x (inl (omega arith)) in
    let above : Agree m m' (c + 5) end = λ x lo hi. poke-apart m (c + 4) 0 x (inr (omega arith)) in
    (
      record {
        last = last;
        left = Leads-frame m m' null head us last c left below;
        positive = pos;
        free = ground arith;
        front_field = same' ∙ from;
        room = rw same room;
        right =
            rw same
              (Linked-frame m m' end c (next m c) vs right (λ x lo hi. above x (omega arith) hi));
      },
      same,
      below,
      above,
    )

-- The list before the last loop.
pub record Ready (m : Memory) (end : Ptr) (us vs : List Ptr) (c : Ptr) (m' : Memory) (head' b : Ptr)
    : Type 0 where
  pub before : List Ptr
  pub joined : List Ptr
  pub blocks : us ≡ before ++ joined
  pub were_free : All (λ c'. (inuse m c' ≡ 0) × (c' + sizeof_block ≤ c)) joined
  pub between : Between m' end head' before vs b
  pub stops : (before ≡ []) ⊎ (inuse m' (front m' b) ≢ 0)
  pub begins : b ≤ c
  pub ends : next m' b ≡ next m c
  pub below : Agree m m' 0 b
  pub above : Agree m m' (next m c + 4) end

nil-of_null :
    (m : Memory) (end head : Ptr) (us vs : List Ptr) (b : Ptr)
    → Between m end head us vs b
    → front m b ≡ null
    → us ≡ []
nil-of_null m end head [] vs b w e = refl
nil-of_null m end head (u ∷ us) vs b w e =
    let up = Leads-last m null head u us w.last b w.left in
    let l : w.last ≡ null = sym w.front_field ∙ e in
    let at = w.left.0 in let pos = w.left.1 in absurd (omega arith)

pub reset-Ready :
    (m m' : Memory) (heap : Area) (head : Ptr) (us vs : List Ptr) (c b : Ptr)
    → Joined m m' heap.end head us vs c b
    → front m' b ≡ null
    → 0 < heap.start
    → heap.start ≤ b
    → heap.end < 2 ^ 32
    → Ready m heap.end us vs c (head_reset heap.start b m') heap.start heap.start
reset-Ready m m' heap head us vs c b r e pos le small =
    let none' = nil-of_null m' heap.end head r.before vs b r.between e in
    let w = r.between in
    let room = w.room in
    let begins = r.begins in
    let n = next m' b in
    let s = Linked-le m' heap.end b n vs w.right in
    let w' = head_reset-Between m' heap.end head heap.start b r.before vs w pos le small in
    let below = head_reset_below m' heap.start b n heap.end refl (omega arith) s small in
    let above = head_reset_above m' heap.start b n heap.end refl (omega arith) s small in
    record {
      before = [];
      joined = r.joined;
      blocks = r.blocks ∙ ap (λ t. t ++ r.joined) none';
      were_free = r.were_free;
      between = w';
      stops = inl refl;
      begins = omega arith;
      ends =
          (head_reset_h m' heap.start b n heap.end refl (omega arith) s small).next_field ∙ r.ends;
      below = λ x lo hi. below x lo hi ∙ r.below x lo (omega arith);
      above = λ x lo hi. above x (rw r.ends lo) hi ∙ r.above x lo hi;
    }

pub kept-Ready :
    (m m' : Memory) (end head : Ptr) (us vs : List Ptr) (c b : Ptr)
    → Joined m m' end head us vs c b
    → front m' b ≢ null
    → Ready m end us vs c m' head b
kept-Ready m m' end head us vs c b r ne = record {
  before = r.before;
  joined = r.joined;
  blocks = r.blocks;
  were_free = r.were_free;
  between = r.between;
  stops = elim r.stops [ inl e ↦ absurd (ne e) | inr used ↦ inr used ];
  begins = r.begins;
  ends = r.ends;
  below = λ x lo hi. r.below x lo (omega arith);
  above = r.above;
}
