-- ===== src/Console/Refines.antt =====
-- `printchar` and `printstring` of src/console/console.c against the terminal.
use nsos.Prelude.{
  ℕ, ◌+◌, ◌%◌, ◌<◌, ◌≡◌, refl, sym, ap, ◌∙◌, Bool, true, false, arith, ◌==◌, if◌then◌else◌,
}
use nsos.Machine.{Env}
use nsos.Lock.{Locks, console_lock, simple_lock_try}
use nsos.Console.{
  Console, put_cell, clear_row, printcursor, printcharpos, scroll, next_line, end_line, put_char,
  printchar, newline,
}
use nsos.Console.Cells.{
  Redrawn, Redrawn-refl, OtherCells, printcursor-Redrawn, printcharpos-Redrawn,
  refreshscreen-Redrawn, clear_row-cells, clear_row-OtherCells,
}
use nsos.Console.Rows.{row_of, row_of-low, row_of-round}
use nsos.Console.Terminal.{
  Terminal, Displays, IsValid, Shows, Displays-Redrawn, move_up, new_line, type_at, feed_line,
  type_glyph, type_char, put_cell-Displays, scroll_cell, scrolled_line,
}

pub with_cursor-Redrawn :
    (on : Bool) (s : Console) → Redrawn s (if on then printcursor s.cursorx s.cursory s else s)
with_cursor-Redrawn true s = printcursor-Redrawn s.cursorx s.cursory s
with_cursor-Redrawn false s = Redrawn-refl s

module _ (rows cols : ℕ) where
  ==→eq : (a b : ℕ) → (a == b) ≡ true → a ≡ b
  ==→eq a b h = ground arith

  -- A move of the cursor on the screen.
  moved :
      (s : Console) (t : Terminal) (x y x' y' : ℕ) (b b' : Bool)
      → Displays rows cols s t
      → x < s.cursorxmax
      → y < s.cursorymax
      → x ≡ x'
      → y ≡ y'
      → b ≡ b'
      → Displays rows cols
          (record s { cursorx = x; cursory = y; linefull = b })
          (record t { col = x'; row = y'; full = b' })
  moved s t x y x' y' b b' (v, w) lx ly ex ey eb = (
    record { col = lx; row = ly; start = v.start; high = v.high; wide = v.wide },
    record {
      rows_eq = w.rows_eq;
      cols_eq = w.cols_eq;
      row = ey;
      col = ex;
      full = eb;
      cell = w.cell;
    },
  )

  -- The cursor at the beginning of its line.
  returned :
      (s : Console) (t : Terminal)
      → Displays rows cols s t
      → Displays rows cols (record s { cursorx = 0 }) (record t { col = 0 })
  returned s t d =
      let (v, w) = d in
      moved s t 0 s.cursory 0 t.row s.linefull t.full d (omega (arith, v.col)) v.row refl w.row
        w.full

  -- Two tests that agree lead to what is shown if their branches do.
  if-Displays :
      (b b' : Bool)
      → b ≡ b'
      → {s s' : Console} {t t' : Terminal} → (b ≡ true → Displays rows cols s t)
      → (b ≡ false → Displays rows cols s' t')
      → Displays rows cols (if b then s else s') (if b' then t else t')
  if-Displays true true e h h' = h refl
  if-Displays false false e h h' = h' refl
  if-Displays true false e h h' = cc
  if-Displays false true e h h' = cc

  -- A character is stored where it was drawn.
  stored :
      (s u : Console) (t : Terminal) (ch : ℕ)
      → Redrawn s u
      → Displays rows cols s t
      → Displays rows cols
          (put_cell ((s.cursory + s.linestart) % s.cursorymax) s.cursorx ch u)
          (type_at ch t)
  stored s u t ch h d =
      rw (sym h.cursory, sym h.linestart, sym h.cursorymax, sym h.cursorx)
        (put_cell-Displays rows cols u t ch (Displays-Redrawn rows cols s u t h d))

  pub relocked :
      (s : Console) (t : Terminal) (locks : Locks)
      → Displays rows cols s t
      → Displays rows cols (record s { locks = locks }) t
  relocked s t locks (v, w) = (
    record { col = v.col; row = v.row; start = v.start; high = v.high; wide = v.wide },
    record {
      rows_eq = w.rows_eq;
      cols_eq = w.cols_eq;
      row = w.row;
      col = w.col;
      full = w.full;
      cell = w.cell;
    },
  )

  turned_cell :
      (s s' : Console) (t : Terminal) (r c : ℕ)
      → IsValid s
      → Shows rows cols s t
      → s.cursory + 1 ≡ rows
      → (s'.linestart + 1) % s'.cursorymax % 256 ≡ row_of s.linestart rows 1
      → s'.screenbuf ≡ (clear_row ((s.linestart + s.cursory + 1) % s.cursorymax) s).screenbuf
      → r < rows
      → c < cols
      → s'.screenbuf (row_of ((s'.linestart + 1) % s'.cursorymax % 256) rows r) c
        ≡ (move_up rows t).cell r c
  turned_cell s s' t r c v w last line buf lr lc =
      let round : (s.linestart + s.cursory + 1) % s.cursorymax ≡ s.linestart =
        rw w.rows_eq (row_of-round s.linestart rows s.cursory (omega arith) last) in
      rw (line, buf, clear_row-cells ((s.linestart + s.cursory + 1) % s.cursorymax) s, round)
        (scroll_cell rows cols s t r c v w lr lc)

  -- The cleared buffer that begins one line later.
  turned :
      (s s' : Console) (t : Terminal)
      → Displays rows cols s t
      → s.cursory + 1 ≡ rows
      → OtherCells s s'
      → s'.screenbuf ≡ (clear_row ((s.linestart + s.cursory + 1) % s.cursorymax) s).screenbuf
      → Displays rows cols
          (record s' { linestart = (s'.linestart + 1) % s'.cursorymax % 256 })
          (move_up rows t)
  turned s s' t (v, w) last o buf =
      let line : (s'.linestart + 1) % s'.cursorymax % 256 ≡ row_of s.linestart rows 1 =
        rw (o.linestart, o.cursorymax, sym w.rows_eq)
          (scrolled_line rows cols s.linestart s.cursorymax v.high v.start) in
      (
        record {
          col = rw (o.cursorx, o.cursorxmax) v.col;
          row = rw (o.cursory, o.cursorymax) v.row;
          start = rw (line, o.cursorymax, w.rows_eq) (row_of-low s.linestart rows 1 (omega arith));
          high = rw o.cursorymax v.high;
          wide = rw o.cursorxmax v.wide;
        },
        record {
          rows_eq = o.cursorymax ∙ w.rows_eq;
          cols_eq = o.cursorxmax ∙ w.cols_eq;
          row = o.cursory ∙ w.row;
          col = o.cursorx ∙ w.col;
          full = o.linefull ∙ w.full;
          cell = λ r c lr lc. turned_cell s s' t r c v w last line buf lr lc;
        },
      )

  module _ (font : ℕ → ℕ → ℕ) where
    scroll-Displays :
        (s : Console) (t : Terminal)
        → Displays rows cols s t
        → s.cursory + 1 ≡ rows
        → Displays rows cols (scroll font s) (move_up rows t)
    unfolding scroll
    scroll-Displays s t d last =
        let s' = clear_row ((s.linestart + s.cursory + 1) % s.cursorymax) s in
        let d' = turned s s' t d last (clear_row-OtherCells _ s) refl in
        Displays-Redrawn rows cols _ _ _ (refreshscreen-Redrawn font _) d'

    next_line-Displays :
        (s : Console) (t : Terminal)
        → Displays rows cols s t
        → Displays rows cols (next_line font s) (new_line rows t)
    unfolding next_line
    next_line-Displays s t (v, w) =
        if-Displays (s.cursory + 1 == s.cursorymax) (t.row + 1 == rows) (rw (w.row, w.rows_eq) refl)
          (λ last. scroll-Displays s t (v, w) (==→eq _ rows (rw (sym w.rows_eq) last)))
          (λ above.
            moved s t s.cursorx (s.cursory + 1) t.col (t.row + 1) s.linefull t.full (v, w) v.col
              (ground (arith, v.row, above)) w.col (ap (λ n. n + 1) w.row) w.full)

    pub end_line-Displays :
        (s : Console) (t : Terminal)
        → Displays rows cols s t
        → Displays rows cols (end_line font s) (feed_line rows cols t)
    unfolding end_line
    end_line-Displays s t d =
        let (v, w) = d in
        if-Displays s.linefull t.full w.full
          (λ f.
            moved s t s.cursorx s.cursory t.col t.row false false d v.col v.row w.col w.row refl)
          (λ f. next_line-Displays _ _ (
            returned _ t
              (Displays-Redrawn rows cols s _ t (printcharpos-Redrawn font newline _ _ s) d)))

    pub put_char-Displays :
        (s : Console) (t : Terminal) (ch : ℕ)
        → Displays rows cols s t
        → Displays rows cols (put_char font ch s) (type_glyph rows cols ch t)
    unfolding put_char
    put_char-Displays s t ch d =
        let u = printcharpos font ch s.cursorx s.cursory s in
        let h = printcharpos-Redrawn font ch s.cursorx s.cursory s in
        let u' = put_cell ((s.cursory + s.linestart) % s.cursorymax) s.cursorx ch u in
        let d' = stored s u t ch h d in
        let (v, w) = d in
        let (v', w') = d' in
        if-Displays (s.cursorx + 1 == s.cursorxmax) (t.col + 1 == cols) (rw (w.col, w.cols_eq) refl)
          (λ last. next_line-Displays _ _ (
            moved u' (type_at ch t) 0 u'.cursory 0 t.row true true d' (omega (arith, v'.col)) v'.row
              refl w'.row refl))
          (λ inside.
            moved u' (type_at ch t) (s.cursorx + 1) u'.cursory (t.col + 1) t.row false false d'
              (ground (arith, v.col, w.cols_eq, w'.cols_eq, inside)) v'.row (ap (λ n. n + 1) w.col)
              w'.row refl)

    -- The buffer and the cursor of a valid console that hold the text of a terminal hold, after
    -- printchar of a character, the text after it was typed, and the console is valid.
    pub printchar-Displays :
        (env : Env) (s : Console) (t : Terminal) (ch : ℕ)
        → Displays rows cols s t
        → Displays rows cols (printchar font env ch s) (type_char rows cols ch t)
    unfolding printchar
    printchar-Displays env s t ch d =
        let locked = record s { locks = simple_lock_try env console_lock s.locks } in
        let d' : Displays rows cols locked t = relocked s t _ d in
        let typed =
          if-Displays (ch == newline) (ch == newline) refl (λ _. end_line-Displays locked t d')
            (λ _. put_char-Displays locked t ch d') in
        relocked _ _ _ (Displays-Redrawn rows cols _ _ _ (with_cursor-Redrawn _ _) typed)
