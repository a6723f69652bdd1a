-- ===== src/Console/Cells.antt =====
-- What the loops of src/console/console.c change of the console.
use nsos.Prelude.{
  ℕ, zero, suc, ◌+◌, ◌≡◌, refl, ◌∙◌, Bool, true, false, ◌&&◌, arith, leb, ltb, ◌==◌, if◌then◌else◌,
}
use nsos.Console.{
  Console, each, put_cell, draw, clear_row, printcursor, printcharpos, refreshscreen, blank,
}

-- Only the picture and the switch of the cursor differ.
pub record Redrawn (s t : Console) : Type 0 where
  pub cursorx : t.cursorx ≡ s.cursorx
  pub cursory : t.cursory ≡ s.cursory
  pub cursorxmax : t.cursorxmax ≡ s.cursorxmax
  pub cursorymax : t.cursorymax ≡ s.cursorymax
  pub linefull : t.linefull ≡ s.linefull
  pub screenbuf : t.screenbuf ≡ s.screenbuf
  pub linestart : t.linestart ≡ s.linestart
  pub locks : t.locks ≡ s.locks

pub Redrawn-refl : (s : Console) → Redrawn s s
Redrawn-refl s = record {
  cursorx = refl;
  cursory = refl;
  cursorxmax = refl;
  cursorymax = refl;
  linefull = refl;
  screenbuf = refl;
  linestart = refl;
  locks = refl;
}

pub Redrawn-trans : {s t u : Console} → Redrawn s t → Redrawn t u → Redrawn s u
Redrawn-trans p q = record {
  cursorx = q.cursorx ∙ p.cursorx;
  cursory = q.cursory ∙ p.cursory;
  cursorxmax = q.cursorxmax ∙ p.cursorxmax;
  cursorymax = q.cursorymax ∙ p.cursorymax;
  linefull = q.linefull ∙ p.linefull;
  screenbuf = q.screenbuf ∙ p.screenbuf;
  linestart = q.linestart ∙ p.linestart;
  locks = q.locks ∙ p.locks;
}

-- A loop redraws if every round does.
pub each-Redrawn :
    (n i : ℕ) (body : ℕ → Console → Console) (s : Console)
    → ((k : ℕ) (t : Console) → Redrawn t (body k t))
    → Redrawn s (each n i body s)
unfolding each
each-Redrawn zero i body s h = Redrawn-refl s
each-Redrawn (suc n) i body s h = Redrawn-trans (h i s) (each-Redrawn n (i + 1) body (body i s) h)

pub draw-Redrawn : (x y pixel : ℕ) (s : Console) → Redrawn s (draw x y pixel s)
unfolding draw
draw-Redrawn x y pixel s = record {
  cursorx = refl;
  cursory = refl;
  cursorxmax = refl;
  cursorymax = refl;
  linefull = refl;
  screenbuf = refl;
  linestart = refl;
  locks = refl;
}

pub switch-Redrawn : (on : Bool) (s : Console) → Redrawn s (record s { cursoron = on })
switch-Redrawn on s = record {
  cursorx = refl;
  cursory = refl;
  cursorxmax = refl;
  cursorymax = refl;
  linefull = refl;
  screenbuf = refl;
  linestart = refl;
  locks = refl;
}

pub printcursor-Redrawn : (x y : ℕ) (s : Console) → Redrawn s (printcursor x y s)
unfolding printcursor
printcursor-Redrawn x y s =
    each-Redrawn 16 0 _ s (λ j t. each-Redrawn 8 0 _ t (λ i u. draw-Redrawn _ _ _ u))

module _ (font : ℕ → ℕ → ℕ) where
  pub printcharpos-Redrawn : (ch x y : ℕ) (s : Console) → Redrawn s (printcharpos font ch x y s)
  unfolding printcharpos
  printcharpos-Redrawn ch x y s =
      each-Redrawn 16 0 _ s (λ j t. each-Redrawn 8 0 _ t (λ i u. draw-Redrawn _ _ _ u))

  pub refreshscreen-Redrawn : (s : Console) → Redrawn s (refreshscreen font s)
  unfolding refreshscreen
  refreshscreen-Redrawn s = each-Redrawn _ 0 _ s (λ i t. each-Redrawn _ 0 _ t (λ j u.
      Redrawn-trans (switch-Redrawn false u) (
        Redrawn-trans (printcharpos-Redrawn _ j i (record u { cursoron = false }))
          (switch-Redrawn true _))))

-- The cells of a row from `i` on, after `n` rounds of its clearing.
cleared_cells :
    (n i row : ℕ) (s : Console) (r c : ℕ)
    → (each n i (λ k t. put_cell row k blank t) s).screenbuf r c
      ≡ (if r == row && (leb i c && ltb c (i + n)) then blank else s.screenbuf r c)
unfolding each put_cell
cleared_cells zero i row s r c = ground arith
cleared_cells (suc n) i row s r c =
    ground (arith, cleared_cells n (i + 1) row (put_cell row i blank s) r c)

-- What is not a cell stays through the clearing of a row.
pub record OtherCells (s t : Console) : Type 0 where
  pub cursorx : t.cursorx ≡ s.cursorx
  pub cursory : t.cursory ≡ s.cursory
  pub cursorxmax : t.cursorxmax ≡ s.cursorxmax
  pub cursorymax : t.cursorymax ≡ s.cursorymax
  pub linefull : t.linefull ≡ s.linefull
  pub linestart : t.linestart ≡ s.linestart

pub OtherCells-refl : (s : Console) → OtherCells s s
OtherCells-refl s = record {
  cursorx = refl;
  cursory = refl;
  cursorxmax = refl;
  cursorymax = refl;
  linefull = refl;
  linestart = refl;
}

pub OtherCells-trans : {s t u : Console} → OtherCells s t → OtherCells t u → OtherCells s u
OtherCells-trans p q = record {
  cursorx = q.cursorx ∙ p.cursorx;
  cursory = q.cursory ∙ p.cursory;
  cursorxmax = q.cursorxmax ∙ p.cursorxmax;
  cursorymax = q.cursorymax ∙ p.cursorymax;
  linefull = q.linefull ∙ p.linefull;
  linestart = q.linestart ∙ p.linestart;
}

cleared_rest :
    (n i row : ℕ) (s : Console) → OtherCells s (each n i (λ k t. put_cell row k blank t) s)
unfolding each put_cell
cleared_rest zero i row s = record {
  cursorx = refl;
  cursory = refl;
  cursorxmax = refl;
  cursorymax = refl;
  linefull = refl;
  linestart = refl;
}
cleared_rest (suc n) i row s =
    let h = cleared_rest n (i + 1) row (put_cell row i blank s) in
    record {
      cursorx = h.cursorx;
      cursory = h.cursory;
      cursorxmax = h.cursorxmax;
      cursorymax = h.cursorymax;
      linefull = h.linefull;
      linestart = h.linestart;
    }

pub clear_row-cells :
    (row : ℕ) (s : Console) (r c : ℕ)
    → (clear_row row s).screenbuf r c
      ≡ (if r == row && ltb c s.cursorxmax then blank else s.screenbuf r c)
unfolding clear_row
clear_row-cells row s r c = ground (arith, cleared_cells s.cursorxmax 0 row s r c)

pub clear_row-OtherCells : (row : ℕ) (s : Console) → OtherCells s (clear_row row s)
unfolding clear_row
clear_row-OtherCells row s = cleared_rest s.cursorxmax 0 row s
