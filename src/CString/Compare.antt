-- ===== src/CString/Compare.antt =====
-- The comparisons `strcmp` and `strncmp` of src/nslibc/string.c and equality of strings.
use nsos.Prelude.{
  ℕ, zero, suc, ◌<◌, ◌≡◌, ◌↔◌, ◌≢◌, refl, true, ◌&&◌, List, [], ◌∷◌, arith, ◌==◌, All,
}
use nsos.CString.{rest_of, strlen, strcmp, strncmp}

-- A character of a C string is a byte other than NUL.
abbrev pub IsText : List ℕ → Type 0
IsText = All (λ c. (c ≢ 0) × (c < 256))

strcmp-eq : (s t : List ℕ) → IsText s → IsText t → strcmp s t ≡ 0 → s ≡ t
unfolding strcmp
strcmp-eq [] [] hs ht e = refl
strcmp-eq [] (d ∷ t) hs ht e = ground arith
strcmp-eq (c ∷ s) [] hs ht e = ground arith
strcmp-eq (c ∷ s) (d ∷ t) hs ht e = ground (arith, strcmp-eq s t hs.1 ht.1)

strcmp_refl : (s : List ℕ) → strcmp s s ≡ 0
unfolding strcmp
strcmp_refl [] = refl
strcmp_refl (c ∷ s) = ground (arith, strcmp_refl s)

-- `strcmp` of two strings of bytes other than NUL answers 0 exactly where they are equal.
pub strcmp_iff : (s t : List ℕ) → IsText s → IsText t → (strcmp s t ≡ 0) ↔ (s ≡ t)
strcmp_iff s t hs ht = (strcmp-eq s t hs ht, λ e. rw e (strcmp_refl t))

strncmp-eq :
    (s t : List ℕ) → IsText s → IsText t → strlen s ≡ strlen t → strncmp s t (strlen t) ≡ 0 → s ≡ t
unfolding strncmp
strncmp-eq [] [] hs ht len e = refl
strncmp-eq [] (d ∷ t) hs ht len e = absurd (omega arith)
strncmp-eq (c ∷ s) [] hs ht len e = absurd (omega arith)
strncmp-eq (c ∷ s) (d ∷ t) hs ht len e = ground (arith, strncmp-eq s t hs.1 ht.1 (omega arith))

pub strncmp_refl : (s : List ℕ) (n : ℕ) → strncmp s s n ≡ 0
unfolding strncmp
strncmp_refl s zero = refl
strncmp_refl s (suc n) = ground (arith, strncmp_refl (rest_of s) n)

-- The pair of tests by which the file system compares a name of `strlen t` characters, equal
-- lengths and no difference in them, passes exactly for equal strings of bytes other than NUL.
pub strncmp_iff :
    (s t : List ℕ)
    → IsText s
    → IsText t
    → ((strlen s == strlen t && strncmp s t (strlen t) == 0) ≡ true) ↔ (s ≡ t)
strncmp_iff s t hs ht = (
  λ e. strncmp-eq s t hs ht (ground arith) (ground arith),
  λ e. rw e (ground (arith, strncmp_refl t (strlen t))),
)
