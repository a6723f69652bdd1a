-- ===== src/Console/Typed.antt =====
-- What a character typed on the console of src/console/console.c leaves to be seen.
use nsos.Prelude.{
  ℕ, ◌+◌, ◌%◌, ◌≡◌, refl, sym, ap, ◌∙◌, Bool, true, false, not, ◌&&◌, arith, some, ◌==◌,
  if◌then◌else◌,
}
use nsos.Console.{Console, put_cell, printcharpos, next_line, end_line, put_char, newline}
use nsos.Console.Cells.{printcharpos-Redrawn}
use nsos.Console.Pixels.{white, glyph, printcharpos-cursoron}
use nsos.Console.Terminal.{Displays, type_char, type_glyph, feed_line}
use nsos.Console.Refines.{end_line-Displays, put_char-Displays}
use nsos.Console.Screen.{Screen, see_as, see_char, Lights}
use nsos.Console.Drawn.{Drawn, Outlined, Drawn-Outlined, at_cursor, next_line-Drawn}

module _ (rows cols : ℕ) (font : ℕ → ℕ → ℕ) where
  end_line-if :
      (b : Bool) (s : Console)
      → s.linefull ≡ b
      → end_line font s ≡ (
          if b
          then record s { linefull = false }
          else next_line font
              (record (printcharpos font newline s.cursorx s.cursory s) { cursorx = 0 }))
  unfolding end_line
  end_line-if b s e =
      ap
        (λ f.
          if f
          then record s { linefull = false }
          else next_line font
              (record (printcharpos font newline s.cursorx s.cursory s) { cursorx = 0 }))
        e

  see_char-if :
      (b : Bool) (v : Screen)
      → v.text.full ≡ b
      → see_as (not b && (v.text.row + 1 == rows)) b newline (feed_line rows cols v.text) v
        ≡ see_char rows cols newline v
  see_char-if b v e =
      ap (λ f. see_as (not f && (v.text.row + 1 == rows)) f newline (feed_line rows cols v.text) v)
        (sym e)

  -- What a line feed leaves, before the cursor is drawn.
  fed :
      (b : Bool) (s : Console) (v : Screen)
      → v.text.full ≡ b
      → Displays rows cols s v.text
      → Lights rows cols font s v
      → Displays rows cols (end_line font s) (feed_line rows cols v.text)
      → Outlined rows cols font
          (end_line font s)
          (see_as (not b && (v.text.row + 1 == rows)) b newline (feed_line rows cols v.text) v)
  fed true s v full (valid, w) h d = rw (end_line-if true s (w.full ∙ full)) (record {
    switch = h.switch;
    dots = λ r c i j lr lc li lj off.
        h.dots r c i j lr lc li lj
        ∙ ap (λ b. some (if b then white else glyph font (v.drawn r c) i j)) (rw full at off);
  })
  fed false s v full (valid, w) h d =
      let same = end_line-if false s (w.full ∙ full) in
      let u = printcharpos font newline s.cursorx s.cursory s in
      let k = printcharpos-Redrawn font newline s.cursorx s.cursory s in
      let drawn = at_cursor rows cols font s v newline (valid, w) h in
      let last : (u.cursory + 1 == u.cursorymax) ≡ (v.text.row + 1 == rows) =
        rw (k.cursory, k.cursorymax, w.row, w.rows_eq) refl in
      let n =
        next_line-Drawn rows cols font (v.text.row + 1 == rows) (record u { cursorx = 0 }) _ _ v.lit
          last drawn (printcharpos-cursoron font newline s.cursorx s.cursory s ∙ h.switch)
          (rw same at d) in
      rw same (Drawn-Outlined rows cols font _ _ n.0 n.1)

  abbrev stored : ℕ → Console → Console
  stored ch s =
      put_cell ((s.cursory + s.linestart) % s.cursorymax) s.cursorx ch
        (printcharpos font ch s.cursorx s.cursory s)

  stored-Drawn :
      (s : Console) (v : Screen) (ch : ℕ)
      → Displays rows cols s v.text
      → Lights rows cols font s v
      → Drawn rows cols font
          (stored ch s)
          (λ r c. if v.text.row == r && v.text.col == c then ch else v.drawn r c)
        × ((stored ch s).cursoron ≡ v.lit)
        × (((stored ch s).cursory + 1 == (stored ch s).cursorymax) ≡ (v.text.row + 1 == rows))
  unfolding put_cell
  stored-Drawn s v ch (valid, w) h =
      let k = printcharpos-Redrawn font ch s.cursorx s.cursory s in
      (
        at_cursor rows cols font s v ch (valid, w) h,
        printcharpos-cursoron font ch s.cursorx s.cursory s ∙ h.switch,
        rw (k.cursory, k.cursorymax, w.row, w.rows_eq) refl,
      )

  put_char-if :
      (b : Bool) (ch : ℕ) (s : Console)
      → (s.cursorx + 1 == s.cursorxmax) ≡ b
      → put_char font ch s ≡ (
          if b
          then next_line font (record (stored ch s) { linefull = true; cursorx = 0 })
          else record (stored ch s) { linefull = false; cursorx = s.cursorx + 1 })
  unfolding put_char
  put_char-if b ch s e =
      ap
        (λ f.
          if f
          then next_line font (record (stored ch s) { linefull = true; cursorx = 0 })
          else record (stored ch s) { linefull = false; cursorx = s.cursorx + 1 })
        e

  -- What another character leaves.
  glyphed :
      (b : Bool) (s : Console) (v : Screen) (ch : ℕ)
      → (s.cursorx + 1 == s.cursorxmax) ≡ b
      → Displays rows cols s v.text
      → Lights rows cols font s v
      → Displays rows cols (put_char font ch s) (type_glyph rows cols ch v.text)
      → Outlined rows cols font
          (put_char font ch s)
          (see_as (b && (v.text.row + 1 == rows)) false ch (type_glyph rows cols ch v.text) v)
  glyphed true s v ch full d h e =
      let same = put_char-if true ch s full in
      let (drawn, on, last) = stored-Drawn s v ch d h in
      let n =
        next_line-Drawn rows cols font (v.text.row + 1 == rows)
          (record (stored ch s) { linefull = true; cursorx = 0 }) _ _ v.lit last drawn on
          (rw same at e) in
      rw same (Drawn-Outlined rows cols font _ _ n.0 n.1)
  glyphed false s v ch full d h e =
      let (drawn, on, _) = stored-Drawn s v ch d h in
      rw (put_char-if false ch s full) (Drawn-Outlined rows cols font _ _ drawn on)

  pub typed :
      (b : Bool) (s : Console) (v : Screen) (ch : ℕ)
      → (ch == newline) ≡ b
      → Displays rows cols s v.text
      → Lights rows cols font s v
      → Displays rows cols
          (if b then end_line font s else put_char font ch s)
          (type_char rows cols ch v.text)
        × Outlined rows cols font
            (if b then end_line font s else put_char font ch s)
            (see_char rows cols ch v)
  typed true s v ch e d h =
      let same : ch ≡ newline = ground arith in
      let d' = end_line-Displays rows cols font s v.text d in
      rw same (d', rw (← see_char-if v.text.full v refl) (fed v.text.full s v refl d h d'))
  typed false s v ch e d h =
      let d' = put_char-Displays rows cols font s v.text ch d in
      let last : (s.cursorx + 1 == s.cursorxmax) ≡ (v.text.col + 1 == cols) =
        rw (d.1.col, d.1.cols_eq) refl in
      rw e (d', glyphed (v.text.col + 1 == cols) s v ch last d h d')
