-- ===== src/Console/Drawn.antt =====
-- What src/console/console.c has drawn before the cursor, and the drawing of it.
use nsos.Prelude.{
  ℕ, ◌+◌, ◌%◌, ◌<◌, ◌≡◌, refl, sym, ap, ◌∙◌, Bool, true, false, ◌&&◌, ◌||◌, arith, some, ◌==◌,
  if◌then◌else◌, Bool-cases, inl, inr,
}
use nsos.Console.{Console, printcursor, printcharpos, refreshscreen, scroll, next_line}
use nsos.Console.Cells.{Redrawn, refreshscreen-Redrawn}
use nsos.Console.Pixels.{
  dot_in, white, glyph, printcursor_lem, printcursor-cursoron, printcharpos_lem,
}
use nsos.Console.Refresh.{buffered, buffered-Redrawn, refreshscreen_lem, refreshscreen-cursoron}
use nsos.Console.Terminal.{Terminal, Shows, Displays}
use nsos.Console.Screen.{Screen, colour, Lights}

unlit_at : (b b' : Bool) → b' ≡ false → (b && b') ≡ false
unlit_at true b' e = e
unlit_at false b' e = refl

module _ (rows cols : ℕ) (font : ℕ → ℕ → ℕ) where
  -- The pixels of every cell are those of a glyph.
  abbrev pub Drawn : Console → (ℕ → ℕ → ℕ) → Type 0
  Drawn s d =
      (r c i j : ℕ)
      → r < rows
      → c < cols
      → i < 8
      → j < 16
      → dot_in s r c i j ≡ some (glyph font (d r c) i j)

  -- What may lack the cursor.
  pub record Outlined (s : Console) (v : Screen) : Type 0 where
    pub switch : s.cursoron ≡ v.lit
    pub dots :
        (r c i j : ℕ)
        → r < rows
        → c < cols
        → i < 8
        → j < 16
        → (v.lit && (v.text.row == r && v.text.col == c)) ≡ false
        → dot_in s r c i j ≡ some (glyph font (v.drawn r c) i j)

  pub Drawn-Outlined :
      (s : Console) (v : Screen) → Drawn s v.drawn → s.cursoron ≡ v.lit → Outlined s v
  Drawn-Outlined s v h e = record {
    switch = e;
    dots = λ r c i j lr lc li lj _. h r c i j lr lc li lj;
  }

  lit_dot :
      (s : Console) (v : Screen) (r c i j : ℕ)
      → s.cursory ≡ v.text.row
      → s.cursorx ≡ v.text.col
      → v.lit ≡ true
      → ((v.lit && (v.text.row == r && v.text.col == c)) ≡ false
          → dot_in s r c i j ≡ some (glyph font (v.drawn r c) i j))
      → (if s.cursory == r && s.cursorx == c then some white else dot_in s r c i j)
        ≡ some (colour font v r c i j)
  lit_dot s v r c i j er ec lit h = elim (Bool-cases (v.text.row == r && v.text.col == c)) [
    | inl here ↦ rw (er, ec, lit, here) refl
    | inr other ↦
        let at : (s.cursory == r && s.cursorx == c) ≡ false = rw (er, ec) other in
        let off = unlit_at v.lit _ other in
        ap (λ b. if b then some white else dot_in s r c i j) at
        ∙ h off
        ∙ ap (λ b. some (if b then white else glyph font (v.drawn r c) i j)) (sym off)
  ]

  -- The cursor completes the picture.
  pub Outlined-Lights :
      (b : Bool) (s : Console) (v : Screen)
      → s.cursoron ≡ b
      → s.cursory ≡ v.text.row
      → s.cursorx ≡ v.text.col
      → Outlined s v
      → Lights rows cols font (if b then printcursor s.cursorx s.cursory s else s) v
  Outlined-Lights true s v on er ec h =
      let lit : v.lit ≡ true = sym h.switch ∙ on in
      record {
        switch = printcursor-cursoron s.cursorx s.cursory s ∙ h.switch;
        dots = λ r c i j lr lc li lj.
            printcursor_lem s.cursorx s.cursory s r c i j li lj
            ∙ lit_dot s v r c i j er ec lit (h.dots r c i j lr lc li lj);
      }
  Outlined-Lights false s v off er ec h =
      let unlit : v.lit ≡ false = sym h.switch ∙ off in
      record {
        switch = h.switch;
        dots = λ r c i j lr lc li lj. h.dots r c i j lr lc li lj (rw unlit refl) ∙ rw unlit refl;
      }

  -- A glyph at the cursor.
  pub at_cursor :
      (s : Console) (v : Screen) (ch : ℕ)
      → Displays rows cols s v.text
      → Lights rows cols font s v
      → Drawn
          (printcharpos font ch s.cursorx s.cursory s)
          (λ r c. if v.text.row == r && v.text.col == c then ch else v.drawn r c)
  at_cursor s v ch (valid, w) h r c i j lr lc li lj =
      let at : (s.cursory == r && s.cursorx == c) ≡ (v.text.row == r && v.text.col == c) =
        rw (w.row, w.col) refl in
      printcharpos_lem font ch s.cursorx s.cursory s r c i j li lj
      ∙ ap (λ b. if b then some (glyph font ch i j) else dot_in s r c i j) at
      ∙ elim (Bool-cases (v.text.row == r && v.text.col == c)) [
        | inl here ↦ rw here refl
        | inr other ↦
            let off = unlit_at v.lit _ other in
            ap (λ b. if b then some (glyph font ch i j) else dot_in s r c i j) other
            ∙ h.dots r c i j lr lc li lj
            ∙ ap (λ b. some (if b then white else glyph font (v.drawn r c) i j)) off
            ∙ ap (λ b. some (glyph font (if b then ch else v.drawn r c) i j)) (sym other)
      ]

  shown_cell :
      (s s' : Console) (t : Terminal) (r c : ℕ)
      → Redrawn s s'
      → Shows rows cols s' t
      → r < rows
      → c < cols
      → buffered font s r c ≡ t.cell r c
  shown_cell s s' t r c h w lr lc =
      sym (buffered-Redrawn font s s' r c h)
      ∙ ap (λ n. s'.screenbuf ((s'.linestart + r) % n) c) w.rows_eq
      ∙ w.cell r c lr lc

  refreshed :
      (s : Console) (t : Terminal)
      → Displays rows cols (refreshscreen font s) t
      → Drawn (refreshscreen font s) t.cell × ((refreshscreen font s).cursoron ≡ true)
  refreshed s t (v, w) =
      let h = refreshscreen-Redrawn font s in
      let er : s.cursorymax ≡ rows = sym h.cursorymax ∙ w.rows_eq in
      let ec : s.cursorxmax ≡ cols = sym h.cursorxmax ∙ w.cols_eq in
      let some_row : 0 < s.cursorymax = omega (arith, h.cursorymax, v.row) in
      let some_cell : 0 < s.cursorxmax = omega (arith, h.cursorxmax, v.col) in
      (
        λ r c i j lr lc li lj.
            refreshscreen_lem font s r c i j (omega arith) (omega arith) li lj
            ∙ ap (λ ch. some (glyph font ch i j)) (shown_cell s _ t r c h w lr lc),
        refreshscreen-cursoron font s some_row some_cell,
      )

  -- A line that ends: nothing is drawn, or all cells are drawn again.
  pub next_line-Drawn :
      (b : Bool) (s : Console) (t : Terminal) (d : ℕ → ℕ → ℕ) (on : Bool)
      → (s.cursory + 1 == s.cursorymax) ≡ b
      → Drawn s d
      → s.cursoron ≡ on
      → Displays rows cols (next_line font s) t
      → Drawn (next_line font s) (if b then t.cell else d)
        × ((next_line font s).cursoron ≡ (b || on))
  unfolding next_line scroll
  next_line-Drawn true s t d on e h eo w = rw e (refreshed _ t (rw e at w))
  next_line-Drawn false s t d on e h eo w = rw e (h, eo)
