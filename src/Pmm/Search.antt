-- ===== src/Pmm/Search.antt =====
-- The search of `pmm_alloc` of src/pmm.c: the rounded size, the aligned address and the block.
use nsos.Prelude.{
  ℕ, zero, suc, ◌+◌, ◌-◌, ◌*◌, ◌/◌, ◌%◌, ◌^◌, ◌≤◌, ◌<◌, ◌≡◌, ◌≢◌, ◌⊎◌, inl, inr, refl, ap, ◌∙◌,
  false, List, [], ◌∷◌, arith, ◌==◌, ltb, if◌then◌else◌, length, Bool-cases, ==_iff, ltb→lt, lt→ltb,
}
use native.Mathlib.Nat.{pow-suc, div-add-mod', mod-lt, add-mod_right, mul-mod_left}
use nsos.Machine.{Ptr, null, done}
use nsos.CString.{Memory, add32}
use nsos.Pmm.Block.{sizeof_block, next, Area, Pmm}
use nsos.Pmm.Alloc.{grow, start_in, alloc_addr, passes_over, find_block}

pow_le : (k n : ℕ) → k ≤ n → 2 ^ k ≤ 2 ^ n
pow_le k zero h = let e : k ≡ 0 = omega arith in rw e (omega arith)
pow_le k (suc n) h = elim (Bool-cases (k == suc n)) [
  | inl same ↦ let e : k ≡ suc n = ground arith in rw e (omega arith)
  | inr less ↦ omega (arith, pow-suc 2 n, pow_le k n (ground arith))
]

-- A power of two that holds `size` and is not twice too large.
pub record IsRounded (size r k : ℕ) : Type 0 where
  pub power : r ≡ 2 ^ k
  pub small : k ≤ 31
  pub holds : size ≤ r
  pub least : (r ≡ 1) ⊎ (r < 2 * size)

top_bit : (k size : ℕ) → 2 ^ k < size → size ≤ 2 ^ 31 → k ≤ 31 → k ≤ 30
top_bit k size lt small le = elim (Bool-cases (k == 31)) [
  | inl same ↦ let e : k ≡ 31 = ground arith in absurd (omega (arith, ap (λ n. 2 ^ n) e))
  | inr less ↦ ground arith
]

-- One round of the loop.
grow-suc :
    (fuel size k : ℕ) (s : Pmm)
    → 2 ^ k < size
    → k ≤ 30
    → grow (suc fuel) size (2 ^ k) k s ≡ grow fuel size (2 ^ suc k) (suc k) s
unfolding grow
grow-suc fuel size k s lt room =
    let double : 2 ^ k * 2 % 2 ^ 32 ≡ 2 ^ suc k = omega (arith, pow-suc 2 k, pow_le k 30 room) in
    let step : k + 1 ≡ suc k = omega arith in rw (lt→ltb (2 ^ k) size lt, double, step)

grow-IsRounded :
    (fuel size k : ℕ) (s : Pmm)
    → size ≤ 2 ^ 31
    → k ≤ 31
    → 31 - k < fuel
    → (2 ^ k ≡ 1) ⊎ (2 ^ k < 2 * size)
    → (r : ℕ) × (j : ℕ) × IsRounded size r j × (grow fuel size (2 ^ k) k s ≡ done (r, j) s)
unfolding grow
grow-IsRounded zero size k s small le enough least = absurd (omega arith)
grow-IsRounded (suc fuel) size k s small le enough least = elim (Bool-cases (ltb (2 ^ k) size)) [
  | inl more ↦
      let lt : 2 ^ k < size = ltb→lt (2 ^ k) size more in
      let room : k ≤ 30 = top_bit k size lt small le in
      let (r, j, ok, e) =
        grow-IsRounded fuel size (suc k) s small (omega arith) (omega arith)
          (inr (omega (arith, pow-suc 2 k))) in
      (r, j, ok, grow-suc fuel size k s lt room ∙ e)
  | inr enough' ↦ (
    2 ^ k,
    k,
    record { power = refl; small = le; holds = ground arith; least = least },
    rw enough',
  )
]

pub grow_lem :
    (fuel size : ℕ) (s : Pmm)
    → size ≤ 2 ^ 31
    → 32 < fuel
    → (r : ℕ) × (j : ℕ) × IsRounded size r j × (grow fuel size 1 0 s ≡ done (r, j) s)
grow_lem fuel size s small enough =
    grow-IsRounded fuel size 0 s small (omega arith) (omega arith) (inl refl)

-- Rounding up to a multiple of `r` a number that is none.
round_up :
    (r n : ℕ) {m : ℕ}
    → 0 < r
    → n + r < 2 ^ 32
    → (n % r == 0) ≡ false
    → m ≡ n
    → (add32 (n / r * r) r % r ≡ 0) × (m ≤ add32 (n / r * r) r) × (add32 (n / r * r) r < m + r)
round_up r n pos small odd same =
    let parts = div-add-mod' n r in
    let under = mod-lt n pos in
    let plain : add32 (n / r * r) r ≡ n / r * r + r = omega arith in
    let none' : n % r ≢ 0 = ground arith in
    (rw (plain, add-mod_right, mul-mod_left), omega arith, omega arith)

pub alloc_addr_lem :
    (r k b : ℕ)
    → r ≡ 2 ^ k
    → 0 < r
    → b + sizeof_block + r < 2 ^ 32
    → let a = alloc_addr r k b in (a % r ≡ 0) × (b + sizeof_block ≤ a) × (a < b + sizeof_block + r)
unfolding alloc_addr
alloc_addr_lem r k b power pos small =
    let plain : start_in b ≡ b + sizeof_block = omega arith in
    let plain' : b + sizeof_block ≡ start_in b = omega arith in
    elim (Bool-cases (start_in b % r == 0)) [
      | inl even ↦ rw even (omega (arith, (==_iff (start_in b % r) 0).0 even))
      | inr odd ↦ rw (odd, ← power) (round_up r (start_in b) pos (omega arith) odd plain')
    ]

-- From `p` on the `next` fields lead through the blocks at the addresses `bs` to the heap's end.
abbrev pub Chain : Memory → Ptr → Ptr → List Ptr → Type 0
Chain m end p [] = p ≡ end
Chain m end p (b ∷ bs) =
    (p ≡ b) × (0 < b) × (b + sizeof_block ≤ next m b) × Chain m end (next m b) bs

pub Chain-le : (m : Memory) (end p : Ptr) (bs : List Ptr) → Chain m end p bs → p ≤ end
Chain-le m end p [] c = omega arith
Chain-le m end p (b ∷ bs) c = omega (arith, Chain-le m end (next m b) bs c.3)

-- The first of the blocks that serves, or the heap's end.
unfoldable pub first_fit : Memory → (size r k : ℕ) → Ptr → List Ptr → Ptr
first_fit m size r k end [] = end
first_fit m size r k end (b ∷ bs) =
    if passes_over m size r k b then first_fit m size r k end bs else b

pub find_block-first_fit :
    (fuel : ℕ) (heap : Area) (size r k p : ℕ) (bs : List Ptr) (s : Pmm)
    → Chain s.memory heap.end p bs
    → length bs < fuel
    → find_block fuel heap size r k p s ≡ done (first_fit s.memory size r k heap.end bs) s
unfolding find_block first_fit
find_block-first_fit zero heap size r k p bs s c enough = absurd (omega arith)
find_block-first_fit (suc fuel) heap size r k p [] s c enough = ground arith
find_block-first_fit (suc fuel) heap size r k p (b ∷ bs) s c enough =
    let below : b < heap.end = omega (arith, Chain-le s.memory heap.end (next s.memory b) bs c.3) in
    let rest = find_block-first_fit fuel heap size r k (next s.memory b) bs s c.3 (omega arith) in
    let not_null : (b == null) ≡ false = ground arith in
    let not_end : (b == heap.end) ≡ false = ground arith in
    rw (c.0, not_null, not_end)
      (elim (Bool-cases (passes_over s.memory size r k b)) [
        | inl over ↦ rw (over, rest)
        | inr fits ↦ rw fits
      ])
