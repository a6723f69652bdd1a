-- ===== src/Console/Refresh.antt =====
-- What `refreshscreen` of src/console/console.c leaves in the pixels.
use nsos.Prelude.{
  ℕ, zero, suc, ◌+◌, ◌%◌, ◌<◌, ◌≡◌, refl, true, false, ◌&&◌, arith, leb, ltb, some, ◌==◌,
  if◌then◌else◌, Bool-cases, inl, inr,
}
use nsos.Console.{Console, each, printcharpos, refreshscreen}
use nsos.Console.Cells.{Redrawn, Redrawn-trans, each-Redrawn, switch-Redrawn, printcharpos-Redrawn}
use nsos.Console.Pixels.{dot_in, glyph, printcharpos_lem}

module _ (font : ℕ → ℕ → ℕ) where
  -- The cell in column `j` and row `i`, and `n` cells of that row from column `k` on.
  abbrev refresh_cell : (i j : ℕ) → Console → Console
  refresh_cell i j t =
      record (printcharpos font (t.screenbuf ((t.linestart + i) % t.cursorymax) j) j i
        (record t { cursoron = false })) { cursoron = true }

  abbrev refresh_row : (n k i : ℕ) → Console → Console
  refresh_row n k i = each n k (refresh_cell i)

  abbrev refresh_rows : (n k cols : ℕ) → Console → Console
  refresh_rows n k cols = each n k (λ i. refresh_row cols 0 i)

  refresh_cell-Redrawn : (i j : ℕ) (s : Console) → Redrawn s (refresh_cell i j s)
  refresh_cell-Redrawn i j s = Redrawn-trans (switch-Redrawn false s) (
      Redrawn-trans (printcharpos-Redrawn font _ j i (record s { cursoron = false }))
        (switch-Redrawn true _))

  refresh_row-Redrawn : (n k i : ℕ) (s : Console) → Redrawn s (refresh_row n k i s)
  refresh_row-Redrawn n k i s = each-Redrawn n k _ s (λ j t. refresh_cell-Redrawn i j t)

  -- What the buffer has for a cell of the screen.
  abbrev pub buffered : Console → (r c : ℕ) → ℕ
  buffered s r c = s.screenbuf ((s.linestart + r) % s.cursorymax) c

  pub buffered-Redrawn : (s t : Console) (r c : ℕ) → Redrawn s t → buffered t r c ≡ buffered s r c
  buffered-Redrawn s t r c h = rw (h.screenbuf, h.linestart, h.cursorymax) refl

  refresh_row_lem :
      (n k y : ℕ) (s : Console) (r c i j : ℕ)
      → i < 8
      → j < 16
      → dot_in (refresh_row n k y s) r c i j ≡ (
          if y == r && (leb k c && ltb c (k + n))
          then some (glyph font (buffered s r c) i j)
          else dot_in s r c i j)
  unfolding each
  refresh_row_lem zero k y s r c i j li lj = ground arith
  refresh_row_lem (suc n) k y s r c i j li lj =
      let s' = refresh_cell y k s in
      let h = refresh_cell-Redrawn y k s in
      let rest = refresh_row_lem n (k + 1) y s' r c i j li lj in
      let same = buffered-Redrawn s s' r c h in
      let cell =
        printcharpos_lem font (buffered s y k) k y (record s { cursoron = false }) r c i j li lj in
      elim (Bool-cases (y == r && k == c)) [
        | inl here ↦
            let e : y ≡ r = ground arith in
            let e' : k ≡ c = ground arith in rw (rest, same, cell, e, e') (ground arith)
        | inr other ↦ rw (rest, same, cell, other) (ground (arith, other))
      ]

  refresh_rows_lem :
      (n k cols : ℕ) (s : Console) (r c i j : ℕ)
      → i < 8
      → j < 16
      → c < cols
      → dot_in (refresh_rows n k cols s) r c i j ≡ (
          if leb k r && ltb r (k + n)
          then some (glyph font (buffered s r c) i j)
          else dot_in s r c i j)
  unfolding each
  refresh_rows_lem zero k cols s r c i j li lj lc = ground arith
  refresh_rows_lem (suc n) k cols s r c i j li lj lc =
      let s' = refresh_row cols 0 k s in
      let h = refresh_row-Redrawn cols 0 k s in
      let rest = refresh_rows_lem n (k + 1) cols s' r c i j li lj lc in
      let same = buffered-Redrawn s s' r c h in
      let row = refresh_row_lem cols 0 k s r c i j li lj in rw (rest, same, row) (ground arith)

  -- Every cell of the screen shows the glyph of what the buffer has for it.
  pub refreshscreen_lem :
      (s : Console) (r c i j : ℕ)
      → r < s.cursorymax
      → c < s.cursorxmax
      → i < 8
      → j < 16
      → dot_in (refreshscreen font s) r c i j ≡ some (glyph font (buffered s r c) i j)
  unfolding refreshscreen
  refreshscreen_lem s r c i j lr lc li lj =
      let h = refresh_rows_lem s.cursorymax 0 s.cursorxmax s r c i j li lj lc in
      let inside : (leb 0 r && ltb r (0 + s.cursorymax)) ≡ true = ground arith in
      rw (h, inside) refl

  row-cursoron : (n k i : ℕ) (s : Console) → 0 < n → (refresh_row n k i s).cursoron ≡ true
  unfolding each
  row-cursoron zero k i s some_cell = absurd (omega arith)
  row-cursoron (suc zero) k i s some_cell = refl
  row-cursoron (suc (suc n)) k i s some_cell =
      row-cursoron (suc n) (k + 1) i (refresh_cell i k s) (omega arith)

  rows-cursoron :
      (n k cols : ℕ) (s : Console) → 0 < n → 0 < cols → (refresh_rows n k cols s).cursoron ≡ true
  unfolding each
  rows-cursoron zero k cols s some_row some_cell = absurd (omega arith)
  rows-cursoron (suc zero) k cols s some_row some_cell = row-cursoron cols 0 k s some_cell
  rows-cursoron (suc (suc n)) k cols s some_row some_cell =
      rows-cursoron (suc n) (k + 1) cols (refresh_row cols 0 k s) (omega arith) some_cell

  pub refreshscreen-cursoron :
      (s : Console) → 0 < s.cursorymax → 0 < s.cursorxmax → (refreshscreen font s).cursoron ≡ true
  unfolding refreshscreen
  refreshscreen-cursoron s some_row some_cell =
      rows-cursoron s.cursorymax 0 s.cursorxmax s some_row some_cell
