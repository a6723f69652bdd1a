-- ===== src/Console/Terminal.antt =====
-- The console of src/console/console.c as a terminal: rows of characters that scroll.
use nsos.Prelude.{
  ℕ, ◌+◌, ◌-◌, ◌%◌, ◌≤◌, ◌<◌, ◌≡◌, refl, sym, ◌∙◌, Bool, true, false, ◌&&◌, arith, ltb, List, [],
  ◌∷◌, ◌==◌, if◌then◌else◌, ==_refl,
}
use native.Mathlib.Decide.{dec_lt}
use native.Mathlib.Nat.{mod-eq_of_lt}
use nsos.Console.{Console, put_cell, newline, blank}
use nsos.Console.Cells.{Redrawn}
use nsos.Console.Rows.{row_of, row_of-==, row_of-suc, row_of-last, row_of-low, row_of-start}

-- The text on a console: the character at a row and a column, and where the next goes.
-- `full` says that the last character filled a line.
pub record Terminal : Type 0 where
  pub cell : ℕ → ℕ → ℕ
  pub row : ℕ
  pub col : ℕ
  pub full : Bool

abbrev pub type_at : ℕ → Terminal → Terminal
type_at ch t = record t {
  cell = λ r c. if r == t.row then (if c == t.col then ch else t.cell r c) else t.cell r c;
}

module _ (rows : ℕ) where
  -- The rows move up by one, and the last is blank.
  abbrev pub move_up : Terminal → Terminal
  move_up t = record t { cell = λ r c. if r + 1 == rows then blank else t.cell (r + 1) c }

  abbrev pub new_line : Terminal → Terminal
  new_line t = if t.row + 1 == rows then move_up t else record t { row = t.row + 1 }

module _ (rows cols : ℕ) where
  -- A line feed behind a line that is full goes to no further line.
  abbrev pub feed_line : Terminal → Terminal
  feed_line t = if t.full then record t { full = false } else new_line rows (record t { col = 0 })

  abbrev pub type_glyph : ℕ → Terminal → Terminal
  type_glyph ch t =
      if t.col + 1 == cols
      then new_line rows (record (type_at ch t) { full = true; col = 0 })
      else record (type_at ch t) { full = false; col = t.col + 1 }

  abbrev pub type_char : ℕ → Terminal → Terminal
  type_char ch t = if ch == newline then feed_line t else type_glyph ch t

  abbrev pub type_string : List ℕ → Terminal → Terminal
  type_string [] t = t
  type_string (ch ∷ text) t = type_string text (type_char ch t)

-- The cursor is on the screen, the ring begins at one of its rows, and the screen fits the buffer.
pub record IsValid (s : Console) : Type 0 where
  pub col : s.cursorx < s.cursorxmax
  pub row : s.cursory < s.cursorymax
  pub start : s.linestart < s.cursorymax
  pub high : s.cursorymax ≤ 200
  pub wide : s.cursorxmax < 200

-- The buffer and the cursor of the console with `rows` rows and `cols` columns hold the text.
pub record Shows (rows cols : ℕ) (s : Console) (t : Terminal) : Type 0 where
  pub rows_eq : s.cursorymax ≡ rows
  pub cols_eq : s.cursorxmax ≡ cols
  pub row : s.cursory ≡ t.row
  pub col : s.cursorx ≡ t.col
  pub full : s.linefull ≡ t.full
  pub cell :
      (r c : ℕ) → r < rows → c < cols → s.screenbuf (row_of s.linestart rows r) c ≡ t.cell r c

-- Both at once.
abbrev pub Displays : (rows cols : ℕ) → Console → Terminal → Type 0
Displays rows cols s t = IsValid s × Shows rows cols s t

module _ (rows cols : ℕ) where
  pub Displays-Redrawn :
      (s s' : Console) (t : Terminal)
      → Redrawn s s'
      → Displays rows cols s t
      → Displays rows cols s' t
  Displays-Redrawn s s' t h d =
      let (v, w) = d in
      (
        record {
          col = rw (h.cursorx, h.cursorxmax) v.col;
          row = rw (h.cursory, h.cursorymax) v.row;
          start = rw (h.linestart, h.cursorymax) v.start;
          high = rw h.cursorymax v.high;
          wide = rw h.cursorxmax v.wide;
        },
        record {
          rows_eq = h.cursorymax ∙ w.rows_eq;
          cols_eq = h.cursorxmax ∙ w.cols_eq;
          row = h.cursory ∙ w.row;
          col = h.cursorx ∙ w.col;
          full = h.linefull ∙ w.full;
          cell = λ r c lr lc. rw (h.screenbuf, h.linestart) (w.cell r c lr lc);
        },
      )

  -- The cell of the buffer that a character is stored in is the one that the terminal shows.
  typed_cell :
      (s : Console) (t : Terminal) (ch r c : ℕ)
      → IsValid s
      → Shows rows cols s t
      → r < rows
      → c < cols
      → (put_cell ((s.cursory + s.linestart) % s.cursorymax) s.cursorx ch s).screenbuf
          (row_of s.linestart rows r)
          c
        ≡ (type_at ch t).cell r c
  unfolding put_cell
  typed_cell s t ch r c v w lr lc =
      let same : (row_of s.linestart rows r == (s.cursory + s.linestart) % s.cursorymax)
          ≡ (r == t.row) =
        rw (w.rows_eq, sym w.row)
          (row_of-== s.linestart rows r s.cursory (omega arith) lr (omega arith)) in
      rw (same, w.col, w.cell r c lr lc) refl

  -- A character is stored where the terminal shows it.
  pub put_cell-Displays :
      (s : Console) (t : Terminal) (ch : ℕ)
      → Displays rows cols s t
      → Displays rows cols
          (put_cell ((s.cursory + s.linestart) % s.cursorymax) s.cursorx ch s)
          (type_at ch t)
  unfolding put_cell
  put_cell-Displays s t ch (v, w) = (
    record { col = v.col; row = v.row; start = v.start; high = v.high; wide = v.wide },
    record {
      rows_eq = w.rows_eq;
      cols_eq = w.cols_eq;
      row = w.row;
      col = w.col;
      full = w.full;
      cell = λ r c lr lc. typed_cell s t ch r c v w lr lc;
    },
  )

  -- `linestart` is a byte, which holds every row of the buffer.
  pub scrolled_line :
      (start ymax : ℕ) → ymax ≤ 200 → start < ymax → (start + 1) % ymax % 256 ≡ row_of start ymax 1
  scrolled_line start ymax h l = mod-eq_of_lt (omega (arith, row_of-low start ymax 1 l))

  -- The scrolling of the buffer is the moving up of the terminal.
  pub scroll_cell :
      (s : Console) (t : Terminal) (r c : ℕ)
      → IsValid s
      → Shows rows cols s t
      → r < rows
      → c < cols
      → (if row_of (row_of s.linestart rows 1) rows r == s.linestart && ltb c s.cursorxmax
          then blank
          else s.screenbuf (row_of (row_of s.linestart rows 1) rows r) c)
        ≡ (move_up rows t).cell r c
  scroll_cell s t r c v w lr lc = elim (dec_lt (r + 1) rows) [
    | yes up ↦
        let moved = row_of-suc s.linestart rows r (omega arith) up in
        let behind = row_of-start s.linestart rows r (omega arith) up in
        let inside : (r + 1 == rows) ≡ false = ground arith in
        rw (moved, behind, inside) (w.cell (r + 1) c up lc)
    | no last ↦
        let bottom : r ≡ rows - 1 = omega arith in
        let first : row_of (row_of s.linestart rows 1) rows r ≡ s.linestart =
          rw bottom (row_of-last s.linestart rows (omega arith)) in
        let full : (r + 1 == rows) ≡ true = ground arith in
        let wide : ltb c s.cursorxmax ≡ true = ground arith in
        rw (first, ==_refl s.linestart, full, wide) refl
  ]
