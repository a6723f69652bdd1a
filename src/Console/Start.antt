-- ===== src/Console/Start.antt =====
-- `initconsole` and `clearscreen` of src/console/console.c against the terminal.
use nsos.Prelude.{
  ℕ, zero, suc, ◌+◌, ◌-◌, ◌/◌, ◌≤◌, ◌<◌, ◌≡◌, refl, ◌∙◌, true, false, ◌&&◌, arith, leb, ltb, ◌==◌,
  if◌then◌else◌,
}
use nsos.Machine.{Env}
use nsos.Lock.{console_lock, simple_lock_init, simple_lock_try}
use nsos.Console.{
  Console, each, put_cell, draw, clear_line, refreshscreen, clearscreen, initconsole, blank,
}
use nsos.Console.Cells.{
  Redrawn, OtherCells, OtherCells-refl, OtherCells-trans, each-Redrawn, draw-Redrawn,
  printcursor-Redrawn, refreshscreen-Redrawn, clear_row-cells, clear_row-OtherCells,
}
use nsos.Console.Rows.{row_of, row_of-low}
use nsos.Console.Terminal.{Terminal, Displays, Displays-Redrawn}

abbrev pub blank_terminal : Terminal
blank_terminal = record { cell = λ r c. blank; row = 0; col = 0; full = false }

clear_line-OtherCells : (i : ℕ) (s : Console) → OtherCells s (clear_line i s)
unfolding clear_line put_cell
clear_line-OtherCells i s =
    let h = clear_row-OtherCells i s in
    record {
      cursorx = h.cursorx;
      cursory = h.cursory;
      cursorxmax = h.cursorxmax;
      cursorymax = h.cursorymax;
      linefull = h.linefull;
      linestart = h.linestart;
    }

-- The NUL of a line stands behind its cells.
clear_line-cells :
    (i : ℕ) (s : Console) (r c : ℕ)
    → c < s.cursorxmax
    → (clear_line i s).screenbuf r c ≡ (if r == i then blank else s.screenbuf r c)
unfolding clear_line put_cell
clear_line-cells i s r c lc = ground (arith, clear_row-cells i s r c)

-- What the lines of `clearscreen` leave, after the rounds from `i` on.
lines_rest : (n i : ℕ) (s : Console) → OtherCells s (each n i clear_line s)
unfolding each
lines_rest zero i s = OtherCells-refl s
lines_rest (suc n) i s =
    OtherCells-trans (clear_line-OtherCells i s) (lines_rest n (i + 1) (clear_line i s))

lines_cells :
    (n i : ℕ) (s : Console) (r c : ℕ)
    → c < s.cursorxmax
    → (each n i clear_line s).screenbuf r c
      ≡ (if leb i r && ltb r (i + n) then blank else s.screenbuf r c)
unfolding each
lines_cells zero i s r c lc = ground arith
lines_cells (suc n) i s r c lc =
    let h = clear_line-OtherCells i s in
    ground (
      arith,
      lines_cells n (i + 1) (clear_line i s) r c (rw h.cursorxmax lc),
      clear_line-cells i s r c lc,
    )

-- The painting of the whole screen in black.
blacken-Redrawn :
    (width height : ℕ) (s : Console)
    → Redrawn s (each width 0 (λ i. each height 0 (λ j. draw i j 0)) s)
blacken-Redrawn width height s =
    each-Redrawn width 0 _ s (λ i t. each-Redrawn height 0 _ t (λ j u. draw-Redrawn i j 0 u))

pub clearscreen-OtherCells : (env : Env) (s : Console) → OtherCells s (clearscreen env s)
unfolding clearscreen
clearscreen-OtherCells env s =
    let h =
      lines_rest s.cursorymax 0 (record s { locks = simple_lock_try env console_lock s.locks }) in
    let k = blacken-Redrawn s.screenwidth s.screenheight (
      each s.cursorymax 0 clear_line
        (record s { locks = simple_lock_try env console_lock s.locks })) in
    record {
      cursorx = k.cursorx ∙ h.cursorx;
      cursory = k.cursory ∙ h.cursory;
      cursorxmax = k.cursorxmax ∙ h.cursorxmax;
      cursorymax = k.cursorymax ∙ h.cursorymax;
      linefull = k.linefull ∙ h.linefull;
      linestart = k.linestart ∙ h.linestart;
    }

all_rows : (r n ch : ℕ) → r < n → (if leb 0 r && ltb r (0 + n) then blank else ch) ≡ blank
all_rows r n ch l = ground arith

pub clearscreen-cells :
    (env : Env) (s : Console) (r c : ℕ)
    → r < s.cursorymax
    → c < s.cursorxmax
    → (clearscreen env s).screenbuf r c ≡ blank
unfolding clearscreen
clearscreen-cells env s r c lr lc =
    let locked = record s { locks = simple_lock_try env console_lock s.locks } in
    let h = lines_cells s.cursorymax 0 locked r c lc in
    let k = blacken-Redrawn s.screenwidth s.screenheight (each s.cursorymax 0 clear_line locked) in
    rw k.screenbuf (h ∙ all_rows r s.cursorymax (s.screenbuf r c) lr)

-- A console of the size that the device answers shows a blank terminal.
started :
    (rows cols : ℕ) (s s' : Console)
    → 0 < rows
    → 0 < cols
    → rows ≤ 200
    → cols < 200
    → s.cursorymax ≡ rows
    → s.cursorxmax ≡ cols
    → s.linestart ≡ 0
    → OtherCells s s'
    → ((r c : ℕ) → r < rows → c < cols → s'.screenbuf r c ≡ blank)
    → Displays rows cols
        (record s' { cursorx = 0; cursory = 0; cursoron = true; linefull = false })
        blank_terminal
started rows cols s s' pr pc lr lc er ec es o cells = (
  record {
    col = rw (o.cursorxmax, ec) pc;
    row = rw (o.cursorymax, er) pr;
    start = rw (o.linestart, o.cursorymax, es, er) pr;
    high = rw (o.cursorymax, er) lr;
    wide = rw (o.cursorxmax, ec) lc;
  },
  record {
    rows_eq = o.cursorymax ∙ er;
    cols_eq = o.cursorxmax ∙ ec;
    row = refl;
    col = refl;
    full = refl;
    cell = λ r c hr hc.
        cells (row_of s'.linestart rows r) c
          (row_of-low s'.linestart rows r (rw (o.linestart, es) pr)) hc;
  },
)

Redrawn-OtherCells : {s t u : Console} → OtherCells s t → Redrawn t u → OtherCells s u
Redrawn-OtherCells h k = record {
  cursorx = k.cursorx ∙ h.cursorx;
  cursory = k.cursory ∙ h.cursory;
  cursorxmax = k.cursorxmax ∙ h.cursorxmax;
  cursorymax = k.cursorymax ∙ h.cursorymax;
  linefull = k.linefull ∙ h.linefull;
  linestart = k.linestart ∙ h.linestart;
}

pub initconsole-Displays :
    (env : Env) (font : ℕ → ℕ → ℕ) (width height : ℕ) (s : Console)
    → 14 ≤ width
    → width < 1606
    → 22 ≤ height
    → height < 3222
    → Displays
        ((height - 6) / 16)
        ((width - 6) / 8)
        (initconsole env font width height s)
        blank_terminal
unfolding initconsole
initconsole-Displays env font width height s w1 w2 h1 h2 =
    let sized = record s {
      locks = simple_lock_init console_lock s.locks;
      screenwidth = width;
      screenheight = height;
      cursorx = 0;
      cursory = 0;
      cursorxmax = (width - 6) / 8;
      cursorymax = (height - 6) / 16;
      linestart = 0;
    } in
    let clean = clearscreen env sized in
    let shown = refreshscreen-Redrawn font clean in
    let d =
      started ((height - 6) / 16) ((width - 6) / 8) sized (refreshscreen font clean) (omega arith)
        (omega arith) (omega arith) (omega arith) refl refl refl
        (Redrawn-OtherCells (clearscreen-OtherCells env sized) shown)
        (λ r c lr lc. rw shown.screenbuf (clearscreen-cells env sized r c lr lc)) in
    Displays-Redrawn _ _ _ _ _ (printcursor-Redrawn 0 0 _) d
