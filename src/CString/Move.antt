-- ===== src/CString/Move.antt =====
-- What `memset` and `memcpy` of src/nslibc/string.c leave in memory.
use nsos.Prelude.{
  ℕ, zero, suc, ◌+◌, ◌%◌, ◌^◌, ◌≤◌, ◌<◌, ◌≡◌, ◌⊎◌, refl, ◌≢◌, ◌∙◌, ==_refl, ==_ne, lt→ltb, Bool,
  ◌&&◌, arith, leb, ltb, if◌then◌else◌,
}
use native.Mathlib.Decide.{ℕ_discrete}
use nsos.CString.{Memory, poke, memset_loop, memset, memcpy_loop, memcpy}

-- `q` is one of the `n` addresses from `p` on.
abbrev pub within : ℕ → ℕ → ℕ → Bool
within p n q = leb p q && ltb q (p + n)

-- Copying from the last byte down is right where the target does not begin before the source, or
-- ends before it.
abbrev pub CopiesDown : (dest src n : ℕ) → Type 0
CopiesDown dest src n = (src ≤ dest) ⊎ (dest + n ≤ src)

memset_loop_lem :
    (b c n : ℕ) (m : Memory) (q : ℕ)
    → memset_loop b c n m q ≡ (if within b n q then c % 256 else m q)
unfolding memset_loop
memset_loop_lem b c zero m q = ground arith
memset_loop_lem b c (suc n) m q = ground (arith, memset_loop_lem b c n (poke m (b + n) (c % 256)) q)

-- For `n` below 2 ^ 31 `memset` writes the low byte of `c` to the `n` addresses from `b` on, and
-- nowhere else.
pub memset_lem :
    (b c n : ℕ) (m : Memory) (q : ℕ)
    → n < 2 ^ 31
    → memset b c n m q ≡ (if within b n q then c % 256 else m q)
unfolding memset
memset_lem b c n m q small = ground (arith, memset_loop_lem b c n m q)

poke_self : (m : Memory) (p v : ℕ) → poke m p v p ≡ v
poke_self m p v = rw (==_refl p)

poke_ne : (m : Memory) (p v q : ℕ) → p ≢ q → poke m p v q ≡ m q
poke_ne m p v q h = rw (==_ne p q h)

memcpy_loop-outside :
    (dest src n : ℕ) (m : Memory) (q : ℕ)
    → (q < dest) ⊎ (dest + n ≤ q)
    → memcpy_loop dest src n m q ≡ m q
unfolding memcpy_loop
memcpy_loop-outside dest src zero m q out = refl
memcpy_loop-outside dest src (suc n) m q out =
    memcpy_loop-outside dest src n (poke m (dest + n) (m (src + n))) q (omega arith)
    ∙ poke_ne m (dest + n) (m (src + n)) q (omega arith)

memcpy_loop-inside :
    (dest src n : ℕ) (m : Memory) (i : ℕ)
    → i < n
    → CopiesDown dest src n
    → memcpy_loop dest src n m (dest + i) ≡ m (src + i)
unfolding memcpy_loop
memcpy_loop-inside dest src zero m i lt ok = absurd (omega arith)
memcpy_loop-inside dest src (suc n) m i lt ok = elim (ℕ_discrete i n) [
  | yes last ↦ rw last (
      memcpy_loop-outside dest src n (poke m (dest + n) (m (src + n))) (dest + n) (omega arith)
      ∙ poke_self m (dest + n) (m (src + n)))
  | no before ↦
      memcpy_loop-inside dest src n (poke m (dest + n) (m (src + n))) i (omega arith) (omega arith)
      ∙ poke_ne m (dest + n) (m (src + n)) (src + i) (omega arith)
]

-- For `n` below 2 ^ 31 `memcpy` puts at the `n` addresses from `dest` on what stood at those from `src` on, if the
-- target does not begin before the source, or ends before it.
pub memcpy-inside :
    (dest src n : ℕ) (m : Memory) (i : ℕ)
    → n < 2 ^ 31
    → i < n
    → CopiesDown dest src n
    → memcpy dest src n m (dest + i) ≡ m (src + i)
unfolding memcpy
memcpy-inside dest src n m i small lt ok =
    rw (lt→ltb n (2 ^ 31) small) (memcpy_loop-inside dest src n m i lt ok)

-- `memcpy` writes nowhere else.
pub memcpy-outside :
    (dest src n : ℕ) (m : Memory) (q : ℕ)
    → n < 2 ^ 31
    → (q < dest) ⊎ (dest + n ≤ q)
    → memcpy dest src n m q ≡ m q
unfolding memcpy
memcpy-outside dest src n m q small out =
    rw (lt→ltb n (2 ^ 31) small) (memcpy_loop-outside dest src n m q out)
