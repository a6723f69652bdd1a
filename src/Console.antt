-- ===== src/Console.antt =====
-- The text console, src/console/console.c.
--
-- `char`s are bytes. `frame` are the one-pixel writes to the video device, latest first. The glyphs
-- of src/console/iso_font.c are a parameter: `font ch j` is row `j` of the glyph of `ch`.
pub mod Cells
pub mod Pixels
pub mod Refresh
pub mod Screen
pub mod Drawn
pub mod Typed
pub mod Seen
pub mod Refines
pub mod Rows
pub mod Terminal
pub mod Start
pub mod Inside
mod Tests
use nsos.Prelude.{
  ℕ, zero, suc, ◌+◌, ◌-◌, ◌*◌, ◌/◌, ◌%◌, ◌^◌, Bool, true, false, bit_and, List, [], ◌∷◌, ◌==◌,
  if◌then◌else◌,
}
use nsos.Machine.{Env}
use nsos.Lock.{Locks, console_lock, simple_lock_init, simple_lock_try, simple_lock_unlock}

pub record Dot : Type 0 where
  pub x : ℕ
  pub y : ℕ
  pub pixel : ℕ

pub record Console : Type 0 where
  pub screenwidth : ℕ
  pub screenheight : ℕ
  pub cursorx : ℕ
  pub cursory : ℕ
  pub cursorxmax : ℕ
  pub cursorymax : ℕ
  pub cursoron : Bool
  pub linefull : Bool
  pub screenbuf : ℕ → ℕ → ℕ
  pub linestart : ℕ
  pub locks : Locks
  pub frame : List Dot

abbrev pub newline : ℕ
newline = 10

abbrev pub blank : ℕ
blank = 32

-- `for (k = i; k < i + n; k++) body(k)`
unfoldable pub each {ℓ} : {S : Type ℓ} → (n i : ℕ) → (ℕ → S → S) → S → S
each zero i body s = s
each (suc n) i body s = each n (i + 1) body (body i s)

-- `screenbuf[row][col] = ch`
unfoldable pub put_cell : (row col ch : ℕ) → Console → Console
put_cell row col ch s = record s {
  screenbuf =
      λ r c. if r == row then (if c == col then ch else s.screenbuf r c) else s.screenbuf r c;
}

-- A write of one pixel to the device.
unfoldable pub draw : (x y pixel : ℕ) → Console → Console
draw x y pixel s = record s { frame = record { x = x; y = y; pixel = pixel } ∷ s.frame }

-- `screenbuf[row][i] = ' '` for all `i` below `cursorxmax`.
unfoldable pub clear_row : ℕ → Console → Console
clear_row row s = each s.cursorxmax 0 (λ i t. put_cell row i blank t) s

unfoldable pub printcursor : (x y : ℕ) → Console → Console
printcursor x y = each 16 0 (λ j. each 8 0 (λ i. draw (8 * x + i + 3) (16 * y + j + 3) 0x00FFFFFF))

unfoldable pub setcursor : (x y : ℕ) (on : Bool) → Console → Console
setcursor x y on s = record s { cursorx = x; cursory = y; cursoron = on }

module _ (font : ℕ → ℕ → ℕ) where
  unfoldable pub printcharpos : (ch x y : ℕ) → Console → Console
  printcharpos ch x y = each 16 0 (λ j. each 8 0 (λ i.
      draw (8 * x + i + 3) (16 * y + j + 3)
        (if bit_and (font ch j) (2 ^ i) == 0 then 0x00000000 else 0x00FFFFFF)))

  -- The cursor is on afterwards, if there is any cell.
  unfoldable pub refreshscreen : Console → Console
  refreshscreen s =
      each s.cursorymax 0
        (λ i. each s.cursorxmax 0 (λ j t.
          record (printcharpos (t.screenbuf ((t.linestart + i) % t.cursorymax) j) j i
            (record t { cursoron = false })) { cursoron = true }))
        s

  -- The end of a line at the bottom: the top line is cleared and becomes the last.
  unfoldable pub scroll : Console → Console
  scroll s =
      let t = clear_row ((s.linestart + s.cursory + 1) % s.cursorymax) s in
      refreshscreen (record t { linestart = (t.linestart + 1) % t.cursorymax % 256 })

  -- `if (cursory == cursorymax - 1) ... else cursory += 1`
  unfoldable pub next_line : Console → Console
  next_line s =
      if s.cursory + 1 == s.cursorymax then scroll s else record s { cursory = s.cursory + 1 }

  -- `printchar` of a line feed, and of any other character, under the lock.
  unfoldable pub end_line : Console → Console
  end_line s =
      if s.linefull
      then record s { linefull = false }
      else next_line (record (printcharpos newline s.cursorx s.cursory s) { cursorx = 0 })

  unfoldable pub put_char : ℕ → Console → Console
  put_char ch s =
      let t =
        put_cell ((s.cursory + s.linestart) % s.cursorymax) s.cursorx ch
          (printcharpos ch s.cursorx s.cursory s) in
      if s.cursorx + 1 == s.cursorxmax
      then next_line (record t { linefull = true; cursorx = 0 })
      else record t { linefull = false; cursorx = s.cursorx + 1 }

  unfoldable pub printchar : Env → ℕ → Console → Console
  printchar env ch s =
      let locked = record s { locks = simple_lock_try env console_lock s.locks } in
      let t = if ch == newline then end_line locked else put_char ch locked in
      let u = if t.cursoron then printcursor t.cursorx t.cursory t else t in
      record u { locks = simple_lock_unlock console_lock u.locks }

  unfoldable pub printstring : Env → List ℕ → Console → Console
  printstring env [] s = s
  printstring env (ch ∷ buf) s = printstring env buf (printchar env ch s)

-- One line of `clearscreen`, with its NUL.
unfoldable pub clear_line : ℕ → Console → Console
clear_line i t = put_cell i t.cursorxmax 0 (clear_row i t)

unfoldable pub clearscreen : Env → Console → Console
clearscreen env s =
    let locked = record s { locks = simple_lock_try env console_lock s.locks } in
    let cleared = each s.cursorymax 0 clear_line locked in
    let black = each s.screenwidth 0 (λ i. each s.screenheight 0 (λ j. draw i j 0)) cleared in
    record black { locks = simple_lock_unlock console_lock black.locks }

-- `width` and `height` are what the device answers.
unfoldable pub initconsole : Env → (font : ℕ → ℕ → ℕ) → (width height : ℕ) → Console → Console
initconsole env font width height s =
    let sized = record s {
      locks = simple_lock_init console_lock s.locks;
      screenwidth = width;
      screenheight = height;
      cursorx = 0;
      cursory = 0;
      cursorxmax = (width - 6) / 8;
      cursorymax = (height - 6) / 16;
      linestart = 0;
    } in
    let shown = refreshscreen font (clearscreen env sized) in
    printcursor 0 0 (record shown { cursorx = 0; cursory = 0; cursoron = true; linefull = false })
