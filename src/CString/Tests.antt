-- ===== src/CString/Tests.antt =====
-- Tests of the routines of src/nslibc/string.c.
use nsos.Prelude.{ℕ, ◌+◌, ◌≡◌, ◌↔◌, inl, true, arith, List, [], ◌∷◌, ◌&&◌, ◌==◌, if◌then◌else◌}
use nsos.CString.{strlen, strcmp, strncmp, memset, memcpy, strcpy, strncpy}
use nsos.CString.Compare.{IsText, strcmp_iff, strncmp_iff}
use nsos.CString.Copy.{text_at, text_at-strncpy, text_at-strcpy}
use nsos.CString.Move.{within, memset_lem, memcpy-inside}

-- "dev" and "dot"
abbrev dev : List ℕ
dev = 100 ∷ 101 ∷ 118 ∷ []

abbrev dot : List ℕ
dot = 100 ∷ 111 ∷ 116 ∷ []

dev-IsText : IsText dev
dev-IsText =
    ((omega arith, omega arith), ((omega arith, omega arith), ((omega arith, omega arith), tt)))

dot-IsText : IsText dot
dot-IsText =
    ((omega arith, omega arith), ((omega arith, omega arith), ((omega arith, omega arith), tt)))

strcmp_iff_example : (strcmp dev dot ≡ 0) ↔ (dev ≡ dot)
strcmp_iff_example = strcmp_iff dev dot dev-IsText dot-IsText

strncmp_iff_example :
    ((strlen dev == strlen dot && strncmp dev dot (strlen dot) == 0) ≡ true) ↔ (dev ≡ dot)
strncmp_iff_example = strncmp_iff dev dot dev-IsText dot-IsText

memset_lem_example : memset 100 300 8 (λ p. p) 103 ≡ (if within 100 8 103 then 44 else 103)
memset_lem_example = memset_lem 100 300 8 (λ p. p) 103 (omega arith)

-- The two places overlap, with the target behind the source.
memcpy-inside_example : memcpy 102 100 8 (λ p. p) (102 + 5) ≡ 105
memcpy-inside_example =
    memcpy-inside 102 100 8 (λ p. p) 5 (omega arith) (omega arith) (inl (omega arith))

text_at-strncpy_example : text_at 8 100 (strncpy 100 dev 8 (λ p. p)) ≡ dev
text_at-strncpy_example = text_at-strncpy 100 8 dev (λ p. p) dev-IsText (omega arith)

text_at-strcpy_example :
    (text_at 8 100 (strcpy 100 dev (λ p. p)) ≡ dev) ↔ ((λ (p : ℕ). p) (100 + 3) ≡ 0)
text_at-strcpy_example = text_at-strcpy 100 8 dev (λ p. p) dev-IsText (omega arith)
