-- ===== src/CString.antt =====
-- The routines of src/nslibc/string.c.
--
-- A C string is the list of its characters before the NUL; behind its end it reads as NUL. The
-- routines on memory work on bytes at addresses. An `int` is its 32-bit pattern.
mod Tests
pub mod Compare
pub mod Move
pub mod Copy
use nsos.Prelude.{
  ℕ, zero, suc, ◌+◌, ◌-◌, ◌%◌, ◌^◌, Bool, true, false, List, [], ◌∷◌, ◌==◌, ltb, if◌then◌else◌,
  length,
}

-- A 32-bit pattern as an `int` is negative from 2 ^ 31 on.
abbrev pub is_negative : ℕ → Bool
is_negative n = if ltb n (2 ^ 31) then false else true

abbrev pub add32 : ℕ → ℕ → ℕ
add32 a b = (a + b) % 2 ^ 32

abbrev pub sub32 : ℕ → ℕ → ℕ
sub32 a b = (a + 2 ^ 32 - b) % 2 ^ 32

abbrev pub head_or_nul : List ℕ → ℕ
head_or_nul [] = 0
head_or_nul (c ∷ s) = c

abbrev pub rest_of : List ℕ → List ℕ
rest_of [] = []
rest_of (c ∷ s) = s

abbrev pub strlen : List ℕ → ℕ
strlen s = length s

-- -1, 0 or 1. A NUL in both ends the loop.
unfoldable pub strcmp : List ℕ → List ℕ → ℕ
strcmp [] ct = if 0 == head_or_nul ct then 0 else if ltb 0 (head_or_nul ct) then 2 ^ 32 - 1 else 1
strcmp (c ∷ cs) ct =
    let rest = strcmp cs (rest_of ct) in
    if c == head_or_nul ct
    then if c == 0 then 0 else rest
    else if ltb c (head_or_nul ct)
    then 2 ^ 32 - 1
    else 1

-- The difference of the first characters that differ among the first `n`, or 0. A NUL does not
-- end the loop.
unfoldable pub strncmp : List ℕ → List ℕ → ℕ → ℕ
strncmp s₁ s₂ zero = 0
strncmp s₁ s₂ (suc n) =
    let rest = strncmp (rest_of s₁) (rest_of s₂) n in
    if head_or_nul s₁ == head_or_nul s₂
    then rest
    else (head_or_nul s₁ + 2 ^ 32 - head_or_nul s₂) % 2 ^ 32

abbrev pub Memory : Type 0
Memory = ℕ → ℕ

abbrev pub poke : Memory → ℕ → ℕ → Memory
poke m p v q = if p == q then v else m q

-- `while (--n >= 0) B[n] = realc;`
unfoldable pub memset_loop : ℕ → ℕ → ℕ → Memory → Memory
memset_loop b c zero m = m
memset_loop b c (suc n) m = memset_loop b c n (poke m (b + n) (c % 256))

-- `n` is an `int`: from 2 ^ 31 on it is negative and nothing is written.
unfoldable pub memset : ℕ → ℕ → ℕ → Memory → Memory
unfolding memset_loop
memset b c n m = if is_negative n then m else memset_loop b c n m

-- `while (--n >= 0) DEST[n] = SRC[n];`, from the last byte down.
unfoldable pub memcpy_loop : ℕ → ℕ → ℕ → Memory → Memory
memcpy_loop dest src zero m = m
memcpy_loop dest src (suc n) m = memcpy_loop dest src n (poke m (dest + n) (m (src + n)))

unfoldable pub memcpy : ℕ → ℕ → ℕ → Memory → Memory
unfolding memcpy_loop
memcpy dest src n m = if is_negative n then m else memcpy_loop dest src n m

-- The characters of `src` without its NUL. The two places do not overlap.
unfoldable pub strcpy : (dest : ℕ) → List ℕ → Memory → Memory
strcpy dest [] m = m
strcpy dest (c ∷ src) m = strcpy (dest + 1) src (poke m dest c)

-- The first `n` characters of `src`, with NULs behind its end.
unfoldable pub strncpy : (dest : ℕ) → List ℕ → (n : ℕ) → Memory → Memory
strncpy dest src zero m = m
strncpy dest [] (suc n) m = strncpy (dest + 1) [] n (poke m dest 0)
strncpy dest (c ∷ src) (suc n) m = strncpy (dest + 1) src n (poke m dest c)
