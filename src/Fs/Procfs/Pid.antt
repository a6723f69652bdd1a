-- ===== src/Fs/Procfs/Pid.antt =====
-- The numbers that `proc_lookup` of src/fs/procfs.c takes for process names.
use nsos.Prelude.{
  ℕ, ◌+◌, ◌-◌, ◌*◌, ◌%◌, ◌^◌, ◌≤◌, ◌≡◌, ◌≢◌, ◌↔◌, refl, arith, true, ◌&&◌, leb, ◌==◌, Bool-cases,
  inl, inr, List, [], ◌∷◌, some, All,
}
use nsos.CString.{add32, sub32}
use nsos.Fs.Procfs.{parse_digits, parse_pid}

-- A decimal digit in ASCII.
abbrev pub IsDigit : ℕ → Type 0
IsDigit c = (48 ≤ c) × (c ≤ 57)

-- The number that the digits `s` give behind a number `n`.
abbrev pub value_from : ℕ → List ℕ → ℕ
value_from n [] = n
value_from n (c ∷ s) = value_from (n * 10 + (c - 48)) s

-- A numeral: digits, the first of them not 0.
abbrev pub IsNumeral : List ℕ → Type 0
IsNumeral [] = ⊥
IsNumeral (c ∷ s) = (c ≢ 48) × All IsDigit (c ∷ s)

parse_digits_lem :
    (s : List ℕ) (n : ℕ)
    → All IsDigit s
    → parse_digits s (n % 2 ^ 32) ≡ some (value_from n s % 2 ^ 32)
unfolding parse_digits
parse_digits_lem [] n h = refl
parse_digits_lem (c ∷ s) n h =
    let step : sub32 (add32 (n % 2 ^ 32 * 10) c) 48 ≡ (n * 10 + (c - 48)) % 2 ^ 32 =
      omega (arith, h.0.0, h.0.1) in
    let digit : (leb c 57 && leb 48 c) ≡ true = ground (arith, h.0.0, h.0.1) in
    rw (digit, step) (parse_digits_lem s (n * 10 + (c - 48)) h.1)

parse_digits-digits : (s : List ℕ) (p n : ℕ) → parse_digits s p ≡ some n → All IsDigit s
unfolding parse_digits
parse_digits-digits [] p n e = tt
parse_digits-digits (c ∷ s) p n e = elim (Bool-cases (leb c 57 && leb 48 c)) [
  | inl digit ↦ (ground arith, parse_digits-digits s _ n (rw digit at e))
  | inr other ↦ absurd (ground (arith, rw other at e))
]

-- A name is taken for the process `n` exactly when it is a numeral and `n` is its value modulo
-- 2 ^ 32.
pub parse_pid_iff :
    (s : List ℕ) (n : ℕ) → (parse_pid s ≡ some n) ↔ (IsNumeral s × (value_from 0 s % 2 ^ 32 ≡ n))
unfolding parse_pid
parse_pid_iff [] n = (λ e. absurd (ground arith), λ h. absurd h.0)
parse_pid_iff (c ∷ s) n = elim (Bool-cases (c == 48)) [
  | inl lead ↦ (λ e. absurd (ground (arith, rw lead at e)), λ h. absurd (h.0.0 (ground arith)))
  | inr other ↦ (
    λ e.
        let parsed : parse_digits (c ∷ s) 0 ≡ some n = rw other at e in
        let digits = parse_digits-digits (c ∷ s) 0 n parsed in
        ((ground arith, digits), ground (arith, parse_digits_lem (c ∷ s) 0 digits, parsed)),
    λ h. rw (other, ← h.1) (parse_digits_lem (c ∷ s) 0 h.0.1),
  )
]
