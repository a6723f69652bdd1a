-- ===== src/Pmm/Bytes.antt =====
-- What a write of src/pmm.c to a block header changes in the bytes of memory.
use nsos.Prelude.{ℕ, ◌+◌, ◌*◌, ◌^◌, ◌≤◌, ◌<◌, ◌≡◌, ◌⊎◌, arith}
use nsos.CString.{Memory, poke}
use nsos.Pmm.Block.{load32, byte_of, store32}

-- `m'` has the bytes of `m` from `lo` to before `hi`.
abbrev pub Agree : Memory → Memory → ℕ → ℕ → Type 0
Agree m m' lo hi = (x : ℕ) → lo ≤ x → x < hi → m' x ≡ m x

bytes_lem :
    (v : ℕ)
    → v < 2 ^ 32
    → byte_of v 0 + 2 ^ 8 * byte_of v 1 + 2 ^ 16 * byte_of v 2 + 2 ^ 24 * byte_of v 3 ≡ v
bytes_lem v small = omega arith

pub load32-store32 : (m : Memory) (p v : ℕ) → v < 2 ^ 32 → load32 (store32 m p v) p ≡ v
unfolding load32 store32
load32-store32 m p v small = ground (arith, bytes_lem v small)

pub store32-apart : (m : Memory) (p v x : ℕ) → (x < p) ⊎ (p + 4 ≤ x) → store32 m p v x ≡ m x
unfolding store32
store32-apart m p v x apart = ground arith

pub poke-apart : (m : Memory) (p v x : ℕ) → (x < p) ⊎ (p < x) → poke m p v x ≡ m x
poke-apart m p v x apart = ground arith

pub load32-Agree :
    (m m' : Memory) (p : ℕ)
    → m' p ≡ m p
    → m' (p + 1) ≡ m (p + 1)
    → m' (p + 2) ≡ m (p + 2)
    → m' (p + 3) ≡ m (p + 3)
    → load32 m' p ≡ load32 m p
unfolding load32
load32-Agree m m' p e₀ e₁ e₂ e₃ = rw (e₀, e₁, e₂, e₃)

pub load32-apart :
    (m : Memory) (p v q : ℕ) → (q + 4 ≤ p) ⊎ (p + 4 ≤ q) → load32 (store32 m p v) q ≡ load32 m q
load32-apart m p v q apart =
    load32-Agree m (store32 m p v) q (store32-apart m p v q (ground arith))
      (store32-apart m p v (q + 1) (ground arith)) (store32-apart m p v (q + 2) (ground arith))
      (store32-apart m p v (q + 3) (ground arith))

pub load32-poke :
    (m : Memory) (p v q : ℕ) → (q + 4 ≤ p) ⊎ (p < q) → load32 (poke m p v) q ≡ load32 m q
load32-poke m p v q apart =
    load32-Agree m (poke m p v) q (poke-apart m p v q (ground arith))
      (poke-apart m p v (q + 1) (ground arith)) (poke-apart m p v (q + 2) (ground arith))
      (poke-apart m p v (q + 3) (ground arith))
