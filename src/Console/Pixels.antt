-- ===== src/Console/Pixels.antt =====
-- What the drawing of src/console/console.c leaves in the pixels.
use nsos.Prelude.{
  ℕ, zero, suc, ◌+◌, ◌*◌, ◌^◌, ◌≤◌, ◌<◌, ◌≡◌, refl, ◌∙◌, Bool, ◌&&◌, bit_and, arith, leb, ltb,
  Option, none, some, List, [], ◌∷◌, ◌==◌, if◌then◌else◌, Bool-cases, inl, inr,
}
use nsos.Console.{Dot, Console, each, draw, printcursor, printcharpos}

-- The last colour written to the pixel at `x` and `y`, if any was.
abbrev pub pixel_at : (x y : ℕ) → List Dot → Option ℕ
pixel_at x y [] = none
pixel_at x y (d ∷ ds) = if d.x == x && d.y == y then some d.pixel else pixel_at x y ds

-- The pixel of a console in column `i` and row `j` of the cell at row `r` and column `c`: a cell is
-- 8 pixels by 16, and 3 are left free at the edges.
abbrev pub dot_in : Console → (r c i j : ℕ) → Option ℕ
dot_in s r c i j = pixel_at (8 * c + i + 3) (16 * r + j + 3) s.frame

abbrev pub white : ℕ
white = 0x00FFFFFF

-- The glyph of a character: white on black.
abbrev pub glyph : (font : ℕ → ℕ → ℕ) → (ch i j : ℕ) → ℕ
glyph font ch i j = if bit_and (font ch j) (2 ^ i) == 0 then 0x00000000 else white

-- One row of pixels of a cell, and all of them.
abbrev paint_row : (n k x y : ℕ) → (ℕ → ℕ) → Console → Console
paint_row n k x y f = each n k (λ i. draw (8 * x + i + 3) y (f i))

abbrev paint : (n k x y : ℕ) → (ℕ → ℕ → ℕ) → Console → Console
paint n k x y f = each n k (λ j. paint_row 8 0 x (16 * y + j + 3) (λ i. f i j))

same_column : (x c k i : ℕ) → k < 8 → i < 8 → (8 * x + k + 3 == 8 * c + i + 3) ≡ (x == c && k == i)
same_column x c k i lk li = ground arith

same_row : (y r k j : ℕ) → k < 16 → j < 16 → (16 * y + k + 3 == 16 * r + j + 3) ≡ (y == r && k == j)
same_row y r k j lk lj = ground arith

paint_row_lem :
    (n k x y : ℕ) (f : ℕ → ℕ) (s : Console) (c i y' : ℕ)
    → k + n ≤ 8
    → i < 8
    → pixel_at (8 * c + i + 3) y' (paint_row n k x y f s).frame ≡ (
        if y == y' && (x == c && (leb k i && ltb i (k + n)))
        then some (f i)
        else pixel_at (8 * c + i + 3) y' s.frame)
unfolding each draw
paint_row_lem zero k x y f s c i y' h li = ground arith
paint_row_lem (suc n) k x y f s c i y' h li =
    let s' = draw (8 * x + k + 3) y (f k) s in
    let rest = paint_row_lem n (k + 1) x y f s' c i y' (omega arith) li in
    let column = same_column x c k i (omega arith) li in
    elim (Bool-cases (k == i)) [
      | inl here ↦ let e : k ≡ i = ground arith in rw (rest, column, e) (ground arith)
      | inr other ↦ rw (rest, column, other) (ground (arith, other))
    ]

inside_row : (b : Bool) (i : ℕ) → i < 8 → (b && (leb 0 i && ltb i (0 + 8))) ≡ b
inside_row b i li = ground arith

paint_lem :
    (n k x y : ℕ) (f : ℕ → ℕ → ℕ) (s : Console) (r c i j : ℕ)
    → k + n ≤ 16
    → i < 8
    → j < 16
    → dot_in (paint n k x y f s) r c i j ≡ (
        if y == r && (x == c && (leb k j && ltb j (k + n))) then some (f i j) else dot_in s r c i j)
unfolding each
paint_lem zero k x y f s r c i j h li lj = ground arith
paint_lem (suc n) k x y f s r c i j h li lj =
    let s' = paint_row 8 0 x (16 * y + k + 3) (λ i. f i k) s in
    let rest = paint_lem n (k + 1) x y f s' r c i j (omega arith) li lj in
    let line =
      paint_row_lem 8 0 x (16 * y + k + 3) (λ i. f i k) s c i (16 * r + j + 3) (omega arith) li in
    let row = same_row y r k j (omega arith) lj in
    elim (Bool-cases (k == j)) [
      | inl here ↦
          let e : k ≡ j = ground arith in
          rw (rest, line, inside_row (x == c) i li, row, e) (ground arith)
      | inr other ↦ rw (rest, line, inside_row (x == c) i li, row, other) (ground (arith, other))
    ]

inside_cell : (b : Bool) (j : ℕ) → j < 16 → (b && (leb 0 j && ltb j (0 + 16))) ≡ b
inside_cell b j lj = ground arith

pub printcursor_lem :
    (x y : ℕ) (s : Console) (r c i j : ℕ)
    → i < 8
    → j < 16
    → dot_in (printcursor x y s) r c i j
      ≡ (if y == r && x == c then some white else dot_in s r c i j)
unfolding printcursor
printcursor_lem x y s r c i j li lj =
    rw (paint_lem 16 0 x y (λ i j. white) s r c i j (omega arith) li lj, inside_cell (x == c) j lj)
      refl

-- A loop leaves alone what every round does.
each-keeps :
    {A : Type 0} (g : Console → A) (body : ℕ → Console → Console) (n k : ℕ) (s : Console)
    → ((k : ℕ) (t : Console) → g (body k t) ≡ g t)
    → g (each n k body s) ≡ g s
unfolding each
each-keeps g body zero k s h = refl
each-keeps g body (suc n) k s h = each-keeps g body n (k + 1) (body k s) h ∙ h k s

draw-cursoron : (x y pixel : ℕ) (s : Console) → (draw x y pixel s).cursoron ≡ s.cursoron
unfolding draw
draw-cursoron x y pixel s = refl

pub printcursor-cursoron : (x y : ℕ) (s : Console) → (printcursor x y s).cursoron ≡ s.cursoron
unfolding printcursor
printcursor-cursoron x y s =
    each-keeps (λ t. t.cursoron) _ 16 0 s
      (λ j t. each-keeps (λ t. t.cursoron) _ 8 0 t (λ i u. draw-cursoron _ _ _ u))

module _ (font : ℕ → ℕ → ℕ) where
  pub printcharpos-cursoron :
      (ch x y : ℕ) (s : Console) → (printcharpos font ch x y s).cursoron ≡ s.cursoron
  unfolding printcharpos
  printcharpos-cursoron ch x y s =
      each-keeps (λ t. t.cursoron) _ 16 0 s
        (λ j t. each-keeps (λ t. t.cursoron) _ 8 0 t (λ i u. draw-cursoron _ _ _ u))

  pub printcharpos_lem :
      (ch x y : ℕ) (s : Console) (r c i j : ℕ)
      → i < 8
      → j < 16
      → dot_in (printcharpos font ch x y s) r c i j
        ≡ (if y == r && x == c then some (glyph font ch i j) else dot_in s r c i j)
  unfolding printcharpos
  printcharpos_lem ch x y s r c i j li lj =
      rw
        (
          paint_lem 16 0 x y (λ i j. glyph font ch i j) s r c i j (omega arith) li lj,
          inside_cell (x == c) j lj,
        )
        refl
