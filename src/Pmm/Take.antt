-- ===== src/Pmm/Take.antt =====
-- The last loop of `pmm_free` of src/pmm.c: the freed block takes in the free blocks behind it.
use nsos.Prelude.{
  ℕ, zero, suc, ◌+◌, ◌^◌, ◌≤◌, ◌<◌, ◌≡◌, ◌≢◌, ◌⊎◌, inl, inr, refl, sym, ap, ◌∙◌, true, false, List,
  [], ◌∷◌, ◌++◌, arith, ◌==◌, Bool-cases, ==_ne, ==_iff, ==_refl, All, length,
}
use nsos.Machine.{Ptr, done}
use nsos.CString.{Memory}
use nsos.Pmm.Block.{sizeof_block, inuse, front, next, set_front, set_next, Area, Pmm}
use nsos.Pmm.Free.{with_memory, join_next}
use nsos.Pmm.Bytes.{Agree}
use nsos.Pmm.Links.{Linked, Linked-le, Linked-frame}
use nsos.Pmm.Split.{Header, writes}

abbrev taken : (b : Ptr) → Memory → Memory
taken b m = let m₁ = set_front (next m b) b m in set_next b (next m₁ (next m₁ b)) m₁

module _ (m : Memory) (b v n end : ℕ) (to : next m b ≡ v) (to' : next m v ≡ n) (p : b + 12 ≤ v)
    (q : v + 12 ≤ n) (s : n ≤ end) (t : end < 2 ^ 32) where
  taken_b : Header (taken b m) b (front m b) (inuse m b) n
  taken_b = record {
    front_field = grind writes;
    inuse_field = grind writes;
    next_field = grind writes;
  }

  taken_below : Agree m (taken b m) 0 (b + 8)
  taken_below x lo hi = grind writes

  taken_above : Agree m (taken b m) (v + 4) end
  taken_above x lo hi = grind writes

-- What the last loop has taken in: the blocks `joined` of those behind `b`.
pub record Taken (m m' : Memory) (end from : Ptr) (vs : List Ptr) (b : Ptr) : Type 0 where
  pub joined : List Ptr
  pub behind : List Ptr
  pub prev : Ptr
  pub blocks : vs ≡ joined ++ behind
  pub were_free : All (λ c. (inuse m c ≡ 0) × (next m b ≤ c) × (c + sizeof_block ≤ end)) joined
  pub right : Linked m' end prev (next m' b) behind
  pub prev_or : (prev ≡ from) ⊎ (joined ≢ [])
  pub ends : next m b ≤ next m' b
  pub stops : (behind ≡ []) ⊎ (inuse m' (next m' b) ≢ 0)
  pub front_field : front m' b ≡ front m b
  pub inuse_field : inuse m' b ≡ inuse m b
  pub below : Agree m m' 0 (b + 8)
  pub above : Agree m m' (next m' b) end

taken-free :
    (m m₁ : Memory) (end p q : ℕ) (js : List Ptr)
    → Agree m m₁ (p + 4) end
    → p ≤ q
    → All (λ c. (inuse m₁ c ≡ 0) × (q ≤ c) × (c + sizeof_block ≤ end)) js
    → All (λ c. (inuse m c ≡ 0) × (p ≤ c) × (c + sizeof_block ≤ end)) js
taken-free m m₁ end p q [] same le all = tt
taken-free m m₁ end p q (j ∷ js) same le all =
    let lo = all.0.1 in
    let hi = all.0.2 in
    (
      (sym (same (j + 4) (omega arith) (omega arith)) ∙ all.0.0, omega arith, hi),
      taken-free m m₁ end p q js same le all.1,
    )

none-Taken :
    (m : Memory) (end from b : Ptr) (vs : List Ptr)
    → Linked m end from (next m b) vs
    → (vs ≡ []) ⊎ (inuse m (next m b) ≢ 0)
    → Taken m m end from vs b
none-Taken m end from b vs right stops = record {
  joined = [];
  behind = vs;
  prev = from;
  blocks = refl;
  were_free = tt;
  right = right;
  prev_or = inl refl;
  ends = omega arith;
  stops = stops;
  front_field = refl;
  inuse_field = refl;
  below = λ x _ _. refl;
  above = λ x _ _. refl;
}

module _ (m : Memory) (b v n end from : ℕ) (vs : List Ptr) (to : next m b ≡ v) (p : b + 12 ≤ v)
    (q : v + 12 ≤ n) (to' : next m v ≡ n) (le : n ≤ end) (small : end < 2 ^ 32) where
  -- One round more: the block at `v` is taken in before the others.
  one_more :
      (m' : Memory)
      → inuse m v ≡ 0
      → Taken (taken b m) m' end v vs b
      → Taken m m' end from (v ∷ vs) b
  one_more m' free r =
      let at = taken_b m b v n end to to' p q le small in
      let below = taken_below m b v n end to to' p q le small in
      let above = taken_above m b v n end to to' p q le small in
      let n₁ : next (taken b m) b ≡ n = at.next_field in
      let ends = r.ends in
      record {
        joined = v ∷ r.joined;
        behind = r.behind;
        prev = r.prev;
        blocks = ap (λ t. v ∷ t) r.blocks;
        were_free = (
          (free, omega arith, omega arith),
          taken-free m (taken b m) end (next m b) (next (taken b m) b) r.joined
              (λ x lo hi. above x (omega arith) hi) (omega arith) r.were_free,
        );
        right = r.right;
        prev_or = inr (λ e'. cc);
        ends = omega arith;
        stops = r.stops;
        front_field = r.front_field ∙ at.front_field;
        inuse_field = r.inuse_field ∙ at.inuse_field;
        below = λ x lo hi. r.below x lo hi ∙ below x lo hi;
        above = λ x lo hi. r.above x lo hi ∙ above x (omega arith) hi;
      }

  taken-Linked :
      Linked m end v n vs
      → (b + sizeof_block ≤ next (taken b m) b) × Linked (taken b m) end v (next (taken b m) b) vs
  taken-Linked right =
      let at = taken_b m b v n end to to' p q le small in
      let above = taken_above m b v n end to to' p q le small in
      rw at.next_field (
        omega arith,
        Linked-frame m (taken b m) end v n vs right (λ x lo hi. above x (omega arith) hi),
      )

module _ (fuel : ℕ) (heap : Area) (b v : Ptr) (s : Pmm) (to : next s.memory b ≡ v)
    (more : v ≢ heap.end) where
  join_next-round :
      (inuse s.memory v == 0) ≡ true
      → join_next (suc fuel) heap b s ≡ join_next fuel heap b (with_memory s (taken b s.memory))
  unfolding join_next
  join_next-round free = rw (
    ap (λ t. t == heap.end) to ∙ ==_ne v heap.end more,
    ap (λ t. inuse s.memory t == 0) to ∙ free,
  )

  join_next-stop : (inuse s.memory v == 0) ≡ false → join_next (suc fuel) heap b s ≡ done tt s
  unfolding join_next
  join_next-stop used = rw (
    ap (λ t. t == heap.end) to ∙ ==_ne v heap.end more,
    ap (λ t. inuse s.memory t == 0) to ∙ used,
  )

-- With fuel for the blocks behind it the loop ends.
pub join_next-Taken :
    (fuel : ℕ) (heap : Area) (from : Ptr) (vs : List Ptr) (b : Ptr) (s : Pmm)
    → heap.end < 2 ^ 32
    → length vs < fuel
    → b + sizeof_block ≤ next s.memory b
    → Linked s.memory heap.end from (next s.memory b) vs
    → (m' : Memory) × (join_next fuel heap b s ≡ done tt (with_memory s m'))
      × Taken s.memory m' heap.end from vs b
unfolding join_next
join_next-Taken zero heap from vs b s small enough room right = absurd (omega arith)
join_next-Taken (suc fuel) heap from [] b s small enough room right = (
  s.memory,
  rw (right, ==_refl heap.end),
  none-Taken s.memory heap.end from b [] right (inl refl),
)
join_next-Taken (suc fuel) heap from (v ∷ vs) b s small enough room right =
    let m = s.memory in
    let n = next m v in
    let le = Linked-le m heap.end v n vs right.4 in
    let to : next m b ≡ v = right.0 in
    let p : b + 12 ≤ v = omega arith in
    let q : v + 12 ≤ n = right.2 in
    let more : v ≢ heap.end = ground arith in
    elim (Bool-cases (inuse m v == 0)) [
      | inl zero' ↦
          let free : inuse m v ≡ 0 = (==_iff _ _).0 zero' in
          let (room', right') =
            taken-Linked m b v n heap.end from vs to p q refl le small right.4 in
          let (m', e, r) =
            join_next-Taken fuel heap v vs b (with_memory s (taken b m)) small (omega arith) room'
              right' in
          (
            m',
            join_next-round fuel heap b v s to more zero' ∙ e,
            one_more m b v n heap.end from vs to p q refl le small m' free r,
          )
      | inr used ↦ (
        m,
        join_next-stop fuel heap b v s to more used,
        none-Taken m heap.end from b (v ∷ vs) right
            (inr (rw to (λ (z : inuse m v ≡ 0). ground arith))),
      )
    ]
