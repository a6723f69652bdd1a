-- ===== src/Pmm/Release.antt =====
-- `pmm_free` of src/pmm.c: the list of blocks that it leaves.
use nsos.Prelude.{
  ℕ, ◌+◌, ◌^◌, ◌≤◌, ◌<◌, ◌≡◌, ◌≢◌, ◌⊎◌, inl, inr, refl, sym, ◌∙◌, List, [], ◌∷◌, ◌++◌, arith, ◌==◌,
  Bool-cases, ==_iff, All, length, if◌then◌else◌,
}
use nsos.Machine.{Ptr, null, Env, done}
use nsos.CString.{Memory, sub32}
use nsos.Pmm.Block.{sizeof_block, inuse, front, next, Area, Pmm, take_lock, drop_lock}
use nsos.Pmm.Free.{with_memory, join_front, reset_head, join_next, pmm_free}
use nsos.Pmm.Bytes.{Agree}
use nsos.Pmm.Search.{Chain}
use nsos.Pmm.Links.{
  Linked, Linked-le, Leads-le, Leads-last, Leads-frame, Linked-Chain, append, append-Chain,
}
use nsos.Pmm.Join.{Between, join_front-Joined}
use nsos.Pmm.Head.{head_reset}
use nsos.Pmm.Take.{Taken, join_next-Taken}
use nsos.Pmm.Ready.{cleared, cleared_lem, Ready, reset-Ready, kept-Ready}

-- The blocks after the block at `c`, between the blocks `us` and `vs`, has been freed: it has
-- become one free block with the free blocks `joined_front` before it and `joined_next` behind it,
-- and no free block is next to that.
pub record Freed (heap : Area) (m : Memory) (us vs : List Ptr) (c : Ptr) (m' : Memory) (head' : Ptr)
    : Type 0 where
  pub before : List Ptr
  pub joined_front : List Ptr
  pub joined_next : List Ptr
  pub behind : List Ptr
  pub blocks_before : us ≡ before ++ joined_front
  pub blocks_behind : vs ≡ joined_next ++ behind
  pub front_free : All (λ b. inuse m b ≡ 0) joined_front
  pub next_free : All (λ b. inuse m b ≡ 0) joined_next
  pub block : Ptr
  pub covers : (block ≤ c) × (next m c ≤ next m' block)
  pub free : inuse m' block ≡ 0
  pub links :
      Linked m' heap.end null head' (before ++ block ∷ behind)
      ⊎ ((joined_next ≢ []) × Chain m' heap.end head' (before ++ block ∷ behind))
  pub used_before : (before ≡ []) ⊎ (inuse m' (front m' block) ≢ 0)
  pub used_behind : (behind ≡ []) ⊎ (inuse m' (next m' block) ≢ 0)
  pub below : Agree m m' 0 block
  pub above : Agree m m' (next m' block + 4) heap.end

All-below :
    (m m₁ : Memory) (c : Ptr) (js : List Ptr)
    → Agree m m₁ 0 c
    → All (λ b. (inuse m₁ b ≡ 0) × (b + sizeof_block ≤ c)) js
    → All (λ b. inuse m b ≡ 0) js
All-below m m₁ c [] same all = tt
All-below m m₁ c (j ∷ js) same all =
    let room = all.0.1 in
    (sym (same (j + 4) (omega arith) (omega arith)) ∙ all.0.0, All-below m m₁ c js same all.1)

All-above :
    (m m₁ : Memory) (n end : Ptr) (js : List Ptr)
    → Agree m m₁ (n + 4) end
    → All (λ b. (inuse m₁ b ≡ 0) × (n ≤ b) × (b + sizeof_block ≤ end)) js
    → All (λ b. inuse m b ≡ 0) js
All-above m m₁ n end [] same all = tt
All-above m m₁ n end (j ∷ js) same all =
    let low = all.0.1 in
    let high = all.0.2 in
    (sym (same (j + 4) (omega arith) (omega arith)) ∙ all.0.0, All-above m m₁ n end js same all.1)

-- The flag of the block before does not change behind it.
used-before :
    (m m' : Memory) (end head : Ptr) (us vs : List Ptr) (b : Ptr) (w : Between m end head us vs b)
    → Agree m m' 0 (b + 8)
    → (us ≡ []) ⊎ (inuse m (front m b) ≢ 0)
    → front m' b ≡ front m b
    → (us ≡ []) ⊎ (inuse m' (front m' b) ≢ 0)
used-before m m' end head [] vs b w same stops e = inl refl
used-before m m' end head (u ∷ us) vs b w same stops e = elim stops [
  | inl none' ↦ inl none'
  | inr used ↦
      let up = Leads-last m null head u us w.last b w.left in
      let from : front m b ≡ w.last = w.front_field in
      let room : w.last + sizeof_block ≤ b = up.1 in
      let kept : inuse m' (front m b) ≡ inuse m (front m b) =
        same (front m b + 4) (omega arith) (omega arith) in
      inr (rw (e, kept) used)
]

module _ (heap : Area) (m : Memory) (us vs : List Ptr) (c : Ptr) (m₁ m₂ m₃ : Memory) (head' b : Ptr)
    (same : Agree m m₁ 0 c) (same' : Agree m m₁ (c + 5) heap.end) (ends : next m₁ c ≡ next m c)
    (long : c + sizeof_block ≤ next m c) (r : Ready m₁ heap.end us vs c m₂ head' b)
    (t : Taken m₂ m₃ heap.end b vs b) where
  taken-links :
      Linked m₃ heap.end null head' (r.before ++ b ∷ t.behind)
      ⊎ ((t.joined ≢ []) × Chain m₃ heap.end head' (r.before ++ b ∷ t.behind))
  taken-links =
      let w = r.between in
      let left =
        Leads-frame m₂ m₃ null head' r.before w.last b w.left
          (λ x lo hi. t.below x lo (omega arith)) in
      let far = t.ends in
      let room = w.room in
      elim t.prev_or [
        | inl same_prev ↦ inl (
            append m₃ heap.end null head' r.before (b ∷ t.behind) w.last b left (
              refl,
              w.positive,
              omega arith,
              t.front_field ∙ w.front_field,
              rw same_prev at t.right,
            ))
        | inr some_joined ↦ inr (
          some_joined,
          append-Chain m₃ heap.end null head' r.before (b ∷ t.behind) w.last b left (
            refl,
            w.positive,
            omega arith,
            Linked-Chain m₃ heap.end t.prev (next m₃ b) t.behind t.right,
          ),
        )
      ]

  taken-Freed : Freed heap m us vs c m₃ head'
  taken-Freed =
      let w = r.between in
      let far = t.ends in
      let begins = r.begins in
      let up : next m₂ b ≡ next m c = r.ends ∙ ends in
      let above : Agree m m₂ (next m₂ b + 4) heap.end =
        λ x lo hi. r.above x (omega arith) hi ∙ same' x (omega arith) hi in
      record {
        before = r.before;
        joined_front = r.joined;
        joined_next = t.joined;
        behind = t.behind;
        blocks_before = r.blocks;
        blocks_behind = t.blocks;
        front_free = All-below m m₁ c r.joined same r.were_free;
        next_free = All-above m m₂ (next m₂ b) heap.end t.joined above t.were_free;
        block = b;
        covers = (begins, omega arith);
        free = t.inuse_field ∙ w.free;
        links = taken-links;
        used_before =
            used-before m₂ m₃ heap.end head' r.before vs b w t.below r.stops t.front_field;
        used_behind = t.stops;
        below = λ x lo hi. t.below x lo (omega arith) ∙ r.below x lo hi ∙ same x lo (omega arith);
        above = λ x lo hi. t.above x (omega arith) hi ∙ above x (omega arith) hi;
      }

pmm_free-run :
    (env : Env) (fuel : ℕ) (heap : Area) (c b b' : Ptr) (s s₂ s₂' s₃ : Pmm)
    → c + sizeof_block < 2 ^ 32
    → join_front fuel c (with_memory (take_lock env s) (cleared c s.memory)) ≡ done b s₂
    → (if front s₂.memory b == null then heap.start else b) ≡ b'
    → (if front s₂.memory b == null then reset_head heap b s₂ else s₂) ≡ s₂'
    → join_next fuel heap b' s₂' ≡ done tt s₃
    → pmm_free env fuel heap (c + sizeof_block) s ≡ done tt (drop_lock s₃)
unfolding pmm_free
pmm_free-run env fuel heap c b b' s s₂ s₂' s₃ small e₁ e₂ e₃ e₄ =
    let at : sub32 (c + sizeof_block) sizeof_block ≡ c = omega arith in
    rw (at, pmm_free) (rw (e₁, pmm_free) (rw (e₂, e₃, pmm_free) (rw (e₄, pmm_free))))

module _ (env : Env) (fuel : ℕ) (heap : Area) (s : Pmm) (us vs : List Ptr) (c : Ptr)
    (linked : Linked s.memory heap.end null s.memory_head (us ++ c ∷ vs)) (long : length us < fuel)
    (long' : length vs < fuel) (low : 0 < heap.start) (start : heap.start ≤ s.memory_head)
    (small : heap.end < 2 ^ 32) where
  -- With fuel for the blocks before it and for those behind it, a block of a list that is linked both
  -- ways is freed: with the free blocks next to it, on either side, it becomes one free block, whose
  -- neighbours are then in use. No byte before that block changes, and none behind it in the heap but
  -- the front field of the block behind. The links are whole both ways, unless blocks behind it have joined:
  -- then the next fields still lead through all blocks. The first block does not begin before the
  -- heap, and the heap ends below 2 ^ 32.
  pub pmm_free-Freed :
      (s' : Pmm) × (pmm_free env fuel heap (c + sizeof_block) s ≡ done tt s')
      × Freed heap s.memory us vs c s'.memory s'.memory_head
  unfolding reset_head
  pmm_free-Freed =
      let m = s.memory in
      let head = s.memory_head in
      let (w, same, below, above) = cleared_lem m heap.end head c us vs linked in
      let s₁ = with_memory (take_lock env s) (cleared c m) in
      let (b, m₂, e, r) = join_front-Joined fuel heap.end head us vs c s₁ small long w in
      let w' = r.between in
      let le = Leads-le m₂ null head r.before w'.last b w'.left in
      let room = w.room in
      let end' = Linked-le (cleared c m) heap.end c (next (cleared c m) c) vs w.right in
      elim (Bool-cases (front m₂ b == null)) [
        | inl first ↦
            let q =
              reset-Ready (cleared c m) m₂ heap head us vs c b r ((==_iff _ _).0 first) low
                (omega arith) small in
            let s₂ = record s₁ { memory = head_reset heap.start b m₂; memory_head = heap.start } in
            let v = q.between in
            let (m₃, e', t) =
              join_next-Taken fuel heap heap.start vs heap.start s₂ small long' v.room v.right in
            (
              _,
              pmm_free-run env fuel heap c b heap.start s (with_memory s₁ m₂) s₂ _ (omega arith) e
                  (rw first) (rw first) e',
              taken-Freed heap m us vs c (cleared c m) (head_reset heap.start b m₂) m₃ heap.start
                  heap.start below above same (omega arith) q t,
            )
        | inr other ↦
            let q = kept-Ready (cleared c m) m₂ heap.end head us vs c b r (λ z. ground arith) in
            let v = q.between in
            let (m₃, e', t) =
              join_next-Taken fuel heap b vs b (with_memory s₁ m₂) small long' v.room v.right in
            (
              _,
              pmm_free-run env fuel heap c b b s (with_memory s₁ m₂) (with_memory s₁ m₂) _
                  (omega arith) e (rw other) (rw other) e',
              taken-Freed heap m us vs c (cleared c m) m₂ m₃ head b below above same (omega arith) q
                  t,
            )
      ]
