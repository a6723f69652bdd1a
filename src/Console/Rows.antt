-- ===== src/Console/Rows.antt =====
-- The rows of the ring `screenbuf` of src/console/console.c, from the line `start` on.
use nsos.Prelude.{ℕ, ◌+◌, ◌-◌, ◌%◌, ◌≤◌, ◌<◌, ◌≡◌, false, arith, ltb, ◌==◌, if◌then◌else◌}
use native.Mathlib.Nat.{mod-eq_of_lt, mod-eq-sub-mod, mod-lt}

-- The row of the buffer that the `r`-th row on the screen stands in.
abbrev pub row_of : (start rows r : ℕ) → ℕ
row_of start rows r = (start + r) % rows

pub row_of-if :
    (start rows r : ℕ)
    → start < rows
    → r ≤ rows
    → row_of start rows r ≡ (if ltb (start + r) rows then start + r else start + r - rows)
row_of-if start rows r ls le = grind (arith, mod-eq_of_lt, mod-eq-sub-mod)

-- Different rows on the screen stand in different rows of the buffer.
pub row_of-injective :
    (start rows r r' : ℕ)
    → start < rows
    → r < rows
    → r' < rows
    → row_of start rows r ≡ row_of start rows r'
    → r ≡ r'
row_of-injective start rows r r' ls lr lr' e =
    ground (arith, row_of-if start rows r ls, row_of-if start rows r' ls, e)

-- One line further on, the rows move up by one, and the old first row is the last.
pub row_of-suc :
    (start rows r : ℕ)
    → start < rows
    → r + 1 < rows
    → row_of (row_of start rows 1) rows r ≡ row_of start rows (r + 1)
row_of-suc start rows r ls lr =
    let next = row_of start rows 1 in
    let first = row_of-if start rows 1 ls (omega arith) in
    let low : next < rows = mod-lt (start + 1) (omega arith) in
    ground (arith, first, row_of-if next rows r low, row_of-if start rows (r + 1) ls)

pub row_of-last :
    (start rows : ℕ) → start < rows → row_of (row_of start rows 1) rows (rows - 1) ≡ start
row_of-last start rows ls =
    let next = row_of start rows 1 in
    let first = row_of-if start rows 1 ls (omega arith) in
    let low : next < rows = mod-lt (start + 1) (omega arith) in
    ground (arith, first, row_of-if next rows (rows - 1) low)

-- The index that `printchar` computes meets the row on the screen that it is for, and no other.
pub row_of-== :
    (start rows r r' : ℕ)
    → start < rows
    → r < rows
    → r' < rows
    → (row_of start rows r == (r' + start) % rows) ≡ (r == r')
row_of-== start rows r r' ls lr lr' =
    ground (arith, row_of-if start rows r ls, row_of-if start rows r' ls)

-- The row behind the last is the first.
pub row_of-round : (start rows y : ℕ) → start < rows → y + 1 ≡ rows → (start + y + 1) % rows ≡ start
row_of-round start rows y ls e = ground (arith, row_of-if start rows rows ls)

pub row_of-low : (start rows r : ℕ) → start < rows → row_of start rows r < rows
row_of-low start rows r ls = mod-lt (start + r) (omega arith)

-- Of the rows on the screen only the first stands at the line that the screen begins with.
pub row_of-start :
    (start rows r : ℕ) → start < rows → r + 1 < rows → (row_of start rows (r + 1) == start) ≡ false
row_of-start start rows r ls lr = ground (arith, row_of-if start rows (r + 1) ls)
