-- ===== src/CString/Copy.antt =====
-- What `strcpy` and `strncpy` of src/nslibc/string.c leave in memory.
use nsos.Prelude.{
  ℕ, zero, suc, ◌+◌, ◌<◌, ◌≡◌, ◌↔◌, refl, sym, ap, ◌∙◌, arith, false, ◌==◌, if◌then◌else◌, List, [],
  ◌∷◌, length, ==_ne, ◌≢◌, Bool-cases, inl, inr,
}
use nsos.CString.{Memory, rest_of, poke, strcpy, strncpy}
use nsos.CString.Compare.{IsText}

-- The string of at most `n` characters at `p`.
unfoldable pub text_at : (n p : ℕ) → Memory → List ℕ
text_at zero p m = []
text_at (suc n) p m = let rest = text_at n (p + 1) m in if m p == 0 then [] else m p ∷ rest

strncpy-below :
    (dest n : ℕ) (src : List ℕ) (m : Memory) (q : ℕ) → q < dest → strncpy dest src n m q ≡ m q
unfolding strncpy
strncpy-below dest zero src m q lt = refl
strncpy-below dest (suc n) [] m q lt =
    ground (arith, strncpy-below (dest + 1) n [] (poke m dest 0) q)
strncpy-below dest (suc n) (c ∷ src) m q lt =
    ground (arith, strncpy-below (dest + 1) n src (poke m dest c) q)

strcpy-below : (dest : ℕ) (src : List ℕ) (m : Memory) (q : ℕ) → q < dest → strcpy dest src m q ≡ m q
unfolding strcpy
strcpy-below dest [] m q lt = refl
strcpy-below dest (c ∷ src) m q lt = ground (arith, strcpy-below (dest + 1) src (poke m dest c) q)

-- A string of bytes other than NUL that strncpy copies reads back at the target, where the number of
-- characters leaves room for its NUL.
pub text_at-strncpy :
    (dest n : ℕ) (src : List ℕ) (m : Memory)
    → IsText src
    → length src < n
    → text_at n dest (strncpy dest src n m) ≡ src
unfolding text_at strncpy
text_at-strncpy dest zero src m ok lt = absurd (omega arith)
text_at-strncpy dest (suc n) [] m ok lt =
    let end : strncpy (dest + 1) [] n (poke m dest 0) dest ≡ 0 =
      strncpy-below (dest + 1) n [] (poke m dest 0) dest (omega arith) ∙ ground arith in
    rw end refl
text_at-strncpy dest (suc n) (c ∷ src) m ok lt =
    let first : strncpy (dest + 1) src n (poke m dest c) dest ≡ c =
      strncpy-below (dest + 1) n src (poke m dest c) dest (omega arith) ∙ ground arith in
    let full : (c == 0) ≡ false = ==_ne c 0 ok.0.0 in
    rw (first, full, text_at-strncpy (dest + 1) n src (poke m dest c) ok.1 (omega arith)) refl

-- A string whose first character stands at `p`.
text_at-cons :
    (n p c : ℕ) (m : Memory) → m p ≡ c → c ≢ 0 → text_at (suc n) p m ≡ c ∷ text_at n (p + 1) m
unfolding text_at
text_at-cons n p c m e ne = let full : (c == 0) ≡ false = ==_ne c 0 ne in rw (e, full) refl

text_at-nil : (n p : ℕ) (m : Memory) → (text_at (suc n) p m ≡ []) ↔ (m p ≡ 0)
unfolding text_at
text_at-nil n p m = elim (Bool-cases (m p == 0)) [
  | inl z ↦ (λ e. ground (arith, z), λ e. rw z refl)
  | inr nz ↦ (
    λ e. let f = text_at-cons n p (m p) m refl (λ z. ground (arith, nz, z)) in cc,
    λ e. ground (arith, nz, e),
  )
]

behind : (dest k c : ℕ) (m : Memory) → m (dest + suc k) ≡ poke m dest c (dest + 1 + k)
behind dest k c m =
    let step : dest + 1 + k ≡ dest + suc k = omega arith in
    let other : (dest == dest + suc k) ≡ false = ground arith in rw (step, other) refl

-- A string of bytes other than NUL that strcpy copies reads back at the target exactly if the byte
-- behind the copy was NUL before: strcpy copies no NUL.
pub text_at-strcpy :
    (dest n : ℕ) (src : List ℕ) (m : Memory)
    → IsText src
    → length src < n
    → (text_at n dest (strcpy dest src m) ≡ src) ↔ (m (dest + length src) ≡ 0)
unfolding strcpy
text_at-strcpy dest zero src m ok lt = absurd (omega arith)
text_at-strcpy dest (suc n) [] m ok lt =
    let end : dest + length {A = ℕ} [] ≡ dest = omega arith in rw end (text_at-nil n dest m)
text_at-strcpy dest (suc n) (c ∷ src) m ok lt =
    let first : strcpy (dest + 1) src (poke m dest c) dest ≡ c =
      strcpy-below (dest + 1) src (poke m dest c) dest (omega arith) ∙ ground arith in
    let front = text_at-cons n dest c (strcpy (dest + 1) src (poke m dest c)) first ok.0.0 in
    let (to, from) = text_at-strcpy (dest + 1) n src (poke m dest c) ok.1 (omega arith) in
    let next = behind dest (length src) c m in
    (
      λ e. next ∙ to (ap rest_of (sym front ∙ e)),
      λ z. front ∙ ap (λ t. c ∷ t) (from (sym next ∙ z)),
    )
