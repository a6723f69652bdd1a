-- ===== src/Console/Inside.antt =====
-- The cells of `screenbuf` that `printchar` of src/console/console.c writes.
use native.Mathlib.Nat.{mod-lt}
use nsos.Prelude.{
  ℕ, ◌+◌, ◌%◌, ◌≤◌, ◌<◌, ◌≡◌, ◌⊎◌, inl, inr, refl, ap, ◌∙◌, Bool, true, false, arith, ◌==◌,
  if◌then◌else◌,
}
use nsos.Machine.{Env}
use nsos.Lock.{console_lock, simple_lock_try}
use nsos.Console.{
  Console, put_cell, clear_row, printcharpos, scroll, next_line, end_line, put_char, printchar,
  newline,
}
use nsos.Console.Cells.{printcharpos-Redrawn, refreshscreen-Redrawn, clear_row-cells}
use nsos.Console.Rows.{row_of}
use nsos.Console.Terminal.{Terminal, IsValid, Displays}
use nsos.Console.Refines.{printchar-Displays, with_cursor-Redrawn}

-- Nothing outside the array differs.
abbrev pub Inside : Console → Console → Type 0
Inside s s' = (r c : ℕ) → (200 ≤ r) ⊎ (200 ≤ c) → s'.screenbuf r c ≡ s.screenbuf r c

put_cell-Inside :
    (row col ch : ℕ) (s : Console) → row < 200 → col < 200 → Inside s (put_cell row col ch s)
unfolding put_cell
put_cell-Inside row col ch s lr lc r c (inl out) = ground arith
put_cell-Inside row col ch s lr lc r c (inr out) = ground arith

clear_row-Inside :
    (row : ℕ) (s : Console) → row < 200 → s.cursorxmax < 200 → Inside s (clear_row row s)
clear_row-Inside row s lr lc r c (inl out) = ground (arith, clear_row-cells row s r c)
clear_row-Inside row s lr lc r c (inr out) = ground (arith, clear_row-cells row s r c)

module _ (font : ℕ → ℕ → ℕ) where
  scroll-Inside :
      (s : Console)
      → s.cursorymax ≤ 200
      → s.cursory < s.cursorymax
      → s.cursorxmax < 200
      → Inside s (scroll font s)
  unfolding scroll
  scroll-Inside s high low wide r c out =
      let row = (s.linestart + s.cursory + 1) % s.cursorymax in
      let fits : row < s.cursorymax = mod-lt (s.linestart + s.cursory + 1) (omega arith) in
      let t = clear_row row s in
      let h =
        refreshscreen-Redrawn font
          (record t { linestart = (t.linestart + 1) % t.cursorymax % 256 }) in
      rw h.screenbuf (clear_row-Inside row s (omega arith) wide r c out)

  next_line-Inside :
      (s : Console)
      → s.cursorymax ≤ 200
      → s.cursory < s.cursorymax
      → s.cursorxmax < 200
      → Inside s (next_line font s)
  unfolding next_line
  next_line-Inside s high low wide =
      elim (s.cursory + 1 == s.cursorymax)
        as (λ b. Inside s (if b then scroll font s else record s { cursory = s.cursory + 1 })) [
          | true ↦ scroll-Inside s high low wide
          | false ↦ λ r c out. refl
        ]

  end_line-Inside : (s : Console) → IsValid s → Inside s (end_line font s)
  unfolding end_line
  end_line-Inside s v =
      let u = printcharpos font newline s.cursorx s.cursory s in
      let h = printcharpos-Redrawn font newline s.cursorx s.cursory s in
      elim s.linefull
        as (λ b. Inside s (
          if b then record s { linefull = false } else next_line font (record u { cursorx = 0 }))) [
            | true ↦ λ r c out. refl
            | false ↦ λ r c out.
                next_line-Inside (record u { cursorx = 0 }) (rw h.cursorymax v.high)
                  (rw (h.cursory, h.cursorymax) v.row) (rw h.cursorxmax v.wide) r c out
                ∙ ap (λ b. b r c) h.screenbuf
          ]

  put_char-Inside : (s : Console) (ch : ℕ) → IsValid s → Inside s (put_char font ch s)
  unfolding put_char put_cell
  put_char-Inside s ch v =
      let u = printcharpos font ch s.cursorx s.cursory s in
      let h = printcharpos-Redrawn font ch s.cursorx s.cursory s in
      let row = (s.cursory + s.linestart) % s.cursorymax in
      let t = put_cell row s.cursorx ch u in
      let fits : row < s.cursorymax = mod-lt (s.cursory + s.linestart) (omega (arith, v.row)) in
      let stored : Inside s t = λ r c out.
        put_cell-Inside row s.cursorx ch u (omega (arith, v.high)) (omega (arith, v.col, v.wide)) r
          c out
        ∙ ap (λ b. b r c) h.screenbuf in
      elim (s.cursorx + 1 == s.cursorxmax)
        as (λ b. Inside s (
          if b
          then next_line font (record t { linefull = true; cursorx = 0 })
          else record t { linefull = false; cursorx = s.cursorx + 1 })) [
            | true ↦ λ r c out.
                next_line-Inside (record t { linefull = true; cursorx = 0 })
                  (rw h.cursorymax v.high) (rw (h.cursory, h.cursorymax) v.row)
                  (rw h.cursorxmax v.wide) r c out
                ∙ stored r c out
            | false ↦ stored
          ]

  typed-Inside :
      (s : Console) (ch : ℕ) (b : Bool)
      → IsValid s
      → Inside s (if b then end_line font s else put_char font ch s)
  typed-Inside s ch true v = end_line-Inside s v
  typed-Inside s ch false v = put_char-Inside s ch v

  abbrev view : Console → Terminal
  view s = record {
    cell = λ r c. s.screenbuf (row_of s.linestart s.cursorymax r) c;
    row = s.cursory;
    col = s.cursorx;
    full = s.linefull;
  }

  view_lem : (s : Console) → IsValid s → Displays s.cursorymax s.cursorxmax s (view s)
  view_lem s v = (
    v,
    record {
      rows_eq = refl;
      cols_eq = refl;
      row = refl;
      col = refl;
      full = refl;
      cell = λ r c lr lc. refl;
    },
  )

  -- On a valid console printchar of any character leaves a valid console, with the cursor on the
  -- screen and the first line one of its rows, and changes nothing outside the 200 by 200 cells.
  pub printchar-Inside :
      (env : Env) (s : Console) (ch : ℕ)
      → IsValid s
      → IsValid (printchar font env ch s) × Inside s (printchar font env ch s)
  unfolding printchar
  printchar-Inside env s ch v =
      let (v', w') =
        printchar-Displays s.cursorymax s.cursorxmax font env s (view s) ch (view_lem s v) in
      let locked = record s { locks = simple_lock_try env console_lock s.locks } in
      let v_locked : IsValid locked = record {
        col = v.col;
        row = v.row;
        start = v.start;
        high = v.high;
        wide = v.wide;
      } in
      let typed = if ch == newline then end_line font locked else put_char font ch locked in
      let drawn = with_cursor-Redrawn typed.cursoron typed in
      (
        v',
        λ r c out.
            ap (λ b. b r c) drawn.screenbuf
            ∙ typed-Inside locked ch (ch == newline) v_locked r c out,
      )
