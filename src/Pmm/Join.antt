-- ===== src/Pmm/Join.antt =====
-- The first loop of `pmm_free` of src/pmm.c: the freed block joins the free blocks before it.
use nsos.Prelude.{
  ℕ, zero, suc, ◌+◌, ◌^◌, ◌≤◌, ◌<◌, ◌≡◌, ◌≢◌, ◌⊎◌, inl, inr, refl, sym, ap, ◌∙◌, false, List, [],
  ◌∷◌, ◌++◌, append-nil, append_assoc, arith, ◌==◌, Bool-cases, ==_ne, ==_iff, All, length,
}
use nsos.Machine.{Ptr, null, done}
use nsos.CString.{Memory}
use nsos.Pmm.Block.{sizeof_block, inuse, front, next, set_front, set_next, Pmm}
use nsos.Pmm.Free.{with_memory, join_front}
use nsos.Pmm.Bytes.{Agree}
use nsos.Pmm.Links.{Linked, Leads, Linked-le, Leads-frame, Linked-refront}
use nsos.Pmm.Split.{Header, writes}

abbrev joined : (l b : Ptr) → Memory → Memory
joined l b m = let m₁ = set_next l (next m b) m in set_front (next m₁ b) (front m₁ b) m₁

module _ (m : Memory) (l b n end : ℕ) (from : front m b ≡ l) (to : next m b ≡ n) (p : l + 12 ≤ b)
    (q : b + 12 ≤ n) (s : n ≤ end) (t : end < 2 ^ 32) where
  joined_l : Header (joined l b m) l (front m l) (inuse m l) n
  joined_l = record {
    front_field = grind writes;
    inuse_field = grind writes;
    next_field = grind writes;
  }

  joined_back : front (joined l b m) n ≡ l
  joined_back = grind writes

  joined_b : front (joined l b m) b ≡ l
  joined_b = grind writes

  joined_below : Agree m (joined l b m) 0 (l + 8)
  joined_below x lo hi = grind writes

  joined_above : Agree m (joined l b m) (n + 4) end
  joined_above x lo hi = grind writes

-- The block at `b` is free, and stands between the blocks `us` and `vs` of a list that is linked
-- both ways.
pub record Between (m : Memory) (end head : Ptr) (us vs : List Ptr) (b : Ptr) : Type 0 where
  pub last : Ptr
  pub left : Leads m null head us last b
  pub positive : 0 < b
  pub free : inuse m b ≡ 0
  pub front_field : front m b ≡ last
  pub room : b + sizeof_block ≤ next m b
  pub right : Linked m end b (next m b) vs

-- A list of blocks taken apart at its end.
record Last (m : Memory) (prev p : Ptr) (us : List Ptr) (last q : Ptr) : Type 0 where
  before : List Ptr
  blocks : us ≡ before ++ last ∷ []
  left : Leads m prev p before (front m last) last
  positive : 0 < last
  room : last + sizeof_block ≤ q
  next_field : next m last ≡ q

Last-of :
    (m : Memory) (prev p u : Ptr) (us : List Ptr) (last q : Ptr)
    → Leads m prev p (u ∷ us) last q
    → Last m prev p (u ∷ us) last q
Last-of m prev p u [] last q l = record {
  before = [];
  blocks = rw l.4.1;
  left = (l.0 ∙ l.4.1, sym l.3 ∙ ap (front m) l.4.1);
  positive = rw l.4.1 at l.1;
  room = rw (l.4.0, l.4.1) at l.2;
  next_field = ap (next m) (sym l.4.1) ∙ l.4.0;
}
Last-of m prev p u (v ∷ us) last q l =
    let r = Last-of m u (next m u) v us last q l.4 in
    record {
      before = u ∷ r.before;
      blocks = ap (λ t. u ∷ t) r.blocks;
      left = (l.0, l.1, l.2, l.3, r.left);
      positive = r.positive;
      room = r.room;
      next_field = r.next_field;
    }

-- What the loop has joined: the blocks `joined` before `b`, and where the joined block begins.
pub record Joined (m m' : Memory) (end head : Ptr) (us vs : List Ptr) (b b' : Ptr) : Type 0 where
  pub before : List Ptr
  pub joined : List Ptr
  pub blocks : us ≡ before ++ joined
  pub were_free : All (λ c. (inuse m c ≡ 0) × (c + sizeof_block ≤ b)) joined
  pub between : Between m' end head before vs b'
  pub stops : (front m' b' ≡ null) ⊎ (inuse m' (front m' b') ≢ 0)
  pub begins : b' ≤ b
  pub ends : next m' b' ≡ next m b
  pub below : Agree m m' 0 (b' + 8)
  pub above : Agree m m' (next m b + 4) end

-- One round: the free block at `l` takes in the one at `b`.
joined-Between :
    (m : Memory) (end head : Ptr) (vs : List Ptr) (b : Ptr) (u : Ptr) (us : List Ptr)
    (w : Between m end head (u ∷ us) vs b)
    → inuse m w.last ≡ 0
    → end < 2 ^ 32
    → (l : Last m null head (u ∷ us) w.last b)
    → Between (joined w.last b m) end head l.before vs w.last
joined-Between m end head vs b u us w free small l =
    let n = next m b in
    let le = Linked-le m end b n vs w.right in
    let m' = joined w.last b m in
    let room = w.room in
    let p : w.last + 12 ≤ b = l.room in
    let at = joined_l m w.last b n end w.front_field refl p room le small in
    let above = joined_above m w.last b n end w.front_field refl p room le small in
    let below = joined_below m w.last b n end w.front_field refl p room le small in
    let back = joined_back m w.last b n end w.front_field refl p room le small in
    record {
      last = front m w.last;
      left =
          Leads-frame m m' null head l.before (front m w.last) w.last l.left
            (λ x lo hi. below x lo (omega arith));
      positive = l.positive;
      free = at.inuse_field ∙ free;
      front_field = at.front_field;
      room = rw at.next_field (omega arith);
      right = rw at.next_field (Linked-refront m m' end b w.last n vs w.right above (λ _. back));
    }

length-snoc : (us : List Ptr) (u : Ptr) → length (us ++ u ∷ []) ≡ suc (length us)
length-snoc [] u = refl
length-snoc (x ∷ us) u = ap suc (length-snoc us u)

-- The blocks that a shorter run has joined, and one more.
snoc-free :
    (m m₁ : Memory) (l b : Ptr) (js : List Ptr)
    → Agree m m₁ 0 (l + 8)
    → l + sizeof_block ≤ b
    → inuse m l ≡ 0
    → All (λ c. (inuse m₁ c ≡ 0) × (c + sizeof_block ≤ l)) js
    → All (λ c. (inuse m c ≡ 0) × (c + sizeof_block ≤ b)) (js ++ l ∷ [])
snoc-free m m₁ l b [] same le free all = ((free, le), tt)
snoc-free m m₁ l b (j ∷ js) same le free all =
    let inside = all.0.1 in
    (
      (sym (same (j + 4) (omega arith) (omega arith)) ∙ all.0.0, omega arith),
      snoc-free m m₁ l b js same le free all.1,
    )

-- With fuel for the blocks before it the loop ends.
pub join_front-Joined :
    (fuel : ℕ) (end head : Ptr) (us vs : List Ptr) (b : Ptr) (s : Pmm)
    → end < 2 ^ 32
    → length us < fuel
    → Between s.memory end head us vs b
    → (b' : Ptr) × (m' : Memory) × (join_front fuel b s ≡ done b' (with_memory s m'))
      × Joined s.memory m' end head us vs b b'
unfolding join_front
join_front-Joined zero end head us vs b s small enough w = absurd (omega arith)
join_front-Joined (suc fuel) end head [] vs b s small enough w =
    let from : front s.memory b ≡ null = w.front_field ∙ sym w.left.1 in
    (
      b,
      s.memory,
      rw from,
      record {
        before = [];
        joined = [];
        blocks = refl;
        were_free = tt;
        between = w;
        stops = inl from;
        begins = omega arith;
        ends = refl;
        below = λ x _ _. refl;
        above = λ x _ _. refl;
      },
    )
join_front-Joined (suc fuel) end head (u ∷ us) vs b s small enough w =
    let m = s.memory in
    let l = Last-of m null head u us w.last b w.left in
    let m₁ = joined w.last b m in
    let n = next m b in
    let le = Linked-le m end b n vs w.right in
    let room = w.room in
    let pos = l.positive in
    let p : w.last + 12 ≤ b = l.room in
    let not_null : (w.last == null) ≡ false = ==_ne w.last null (omega arith) in
    elim (Bool-cases (inuse m w.last == 0)) [
      | inl zero' ↦
          let free : inuse m w.last ≡ 0 = (==_iff _ _).0 zero' in
          let shorter : length l.before < fuel =
            omega (arith, ap length l.blocks, length-snoc l.before w.last) in
          let (b', m', e, r) =
            join_front-Joined fuel end head l.before vs w.last (with_memory s m₁) small shorter
              (joined-Between m end head vs b u us w free small l) in
          let at = joined_l m w.last b n end w.front_field refl p room le small in
          let below = joined_below m w.last b n end w.front_field refl p room le small in
          let above = joined_above m w.last b n end w.front_field refl p room le small in
          let here = joined_b m w.last b n end w.front_field refl p room le small in
          let begins = r.begins in
          let same : next m₁ w.last ≡ n = at.next_field in
          (
            b',
            m',
            rw (w.front_field, not_null, zero', here) e,
            record {
              before = r.before;
              joined = r.joined ++ w.last ∷ [];
              blocks =
                  l.blocks
                  ∙ ap (λ t. t ++ w.last ∷ []) r.blocks
                  ∙ append_assoc r.before r.joined (w.last ∷ []);
              were_free = snoc-free m m₁ w.last b r.joined below p free r.were_free;
              between = r.between;
              stops = r.stops;
              begins = omega arith;
              ends = r.ends ∙ same;
              below = λ x lo hi. r.below x lo hi ∙ below x lo (omega arith);
              above = λ x lo hi. r.above x (rw same lo) hi ∙ above x lo hi;
            },
          )
      | inr used ↦ (
        b,
        m,
        rw (w.front_field, not_null, used),
        record {
          before = u ∷ us;
          joined = [];
          blocks = sym (append-nil (u ∷ us));
          were_free = tt;
          between = w;
          stops = inr (rw w.front_field (λ (z : inuse m w.last ≡ 0). ground arith));
          begins = omega arith;
          ends = refl;
          below = λ x _ _. refl;
          above = λ x _ _. refl;
        },
      )
    ]
