-- ===== src/Console/Seen.antt =====
-- `initconsole`, `printchar` and `printstring` of src/console/console.c against the screen.
use native.Mathlib.Nat.{mod-lt}
use nsos.Prelude.{
  ℕ, ◌-◌, ◌/◌, ◌≤◌, ◌+◌, ◌%◌, ◌<◌, ◌≡◌, refl, ap, ◌∙◌, true, false, arith, List, [], ◌∷◌, some,
  ◌==◌, if◌then◌else◌,
}
use nsos.Machine.{Env}
use nsos.Lock.{Locks, console_lock, simple_lock_try}
use nsos.Console.{Console, refreshscreen, end_line, put_char, printchar, printstring, newline}
use nsos.Console.Pixels.{glyph}
use nsos.Console.Refresh.{refreshscreen_lem, refreshscreen-cursoron}
use nsos.Console.Refines.{printchar-Displays, relocked}
use nsos.Console.Screen.{Screen, see_char, see_string, Lights, Seen}
use nsos.Console.Drawn.{Drawn, Drawn-Outlined, Outlined-Lights}
use nsos.Console.Typed.{typed}
use nsos.Console.Start.{
  blank_terminal, clearscreen-OtherCells, clearscreen-cells, initconsole-Displays,
}
use nsos.Console.{clearscreen, initconsole, blank}
use nsos.Lock.{simple_lock_init}

module _ (rows cols : ℕ) (font : ℕ → ℕ → ℕ) where
  -- A lock is not seen.
  unlocked :
      (s : Console) (v : Screen) (locks : Locks)
      → Lights rows cols font s v
      → Lights rows cols font (record s { locks = locks }) v
  unlocked s v locks h = record { switch = h.switch; dots = h.dots }

  -- If a valid console shows a screen, in its buffer, its cursor and the pixels of its cells, then
  -- after printchar of a character it is valid and shows the screen on which the character was
  -- typed. The ring buffer, its first line and the clearing of the line that scrolls out refine
  -- rows that move up; the glyph is drawn where the cursor was, all cells are drawn again when the
  -- rows move up, and the cursor, if it is on, is a white block at its new place.
  pub printchar-Seen :
      (env : Env) (s : Console) (v : Screen) (ch : ℕ)
      → Seen rows cols font s v
      → Seen rows cols font (printchar font env ch s) (see_char rows cols ch v)
  unfolding printchar
  printchar-Seen env s v ch (d, h) =
      let locked = record s { locks = simple_lock_try env console_lock s.locks } in
      let u = if ch == newline then end_line font locked else put_char font ch locked in
      let (d', o) =
        typed rows cols font (ch == newline) locked v ch refl (relocked rows cols s v.text _ d)
          (unlocked s v _ h) in
      (
        printchar-Displays rows cols font env s v.text ch d,
        unlocked _ _ _ (
            Outlined-Lights rows cols font u.cursoron u (see_char rows cols ch v) refl d'.1.row
              d'.1.col o),
      )

  pub printstring-Seen :
      (env : Env) (s : Console) (v : Screen) (text : List ℕ)
      → Seen rows cols font s v
      → Seen rows cols font (printstring font env text s) (see_string rows cols text v)
  unfolding printstring
  printstring-Seen env s v [] h = h
  printstring-Seen env s v (ch ∷ text) h =
      printstring-Seen env (printchar font env ch s) (see_char rows cols ch v) text
        (printchar-Seen env s v ch h)

-- A blank screen with the cursor in its corner.
abbrev pub blank_screen : Screen
blank_screen = record { text = blank_terminal; drawn = λ r c. blank; lit = true }

-- The cells of a console that has been cleared and drawn again.
cleaned :
    (env : Env) (font : ℕ → ℕ → ℕ) (rows cols : ℕ) (s : Console)
    → s.cursorymax ≡ rows
    → s.cursorxmax ≡ cols
    → 0 < rows
    → 0 < cols
    → let t = refreshscreen font (clearscreen env s) in
      Drawn rows cols font t (λ r c. blank) × (t.cursoron ≡ true)
cleaned env font rows cols s er ec some_row some_cell =
    let t = clearscreen env s in
    let o = clearscreen-OtherCells env s in
    let er' : t.cursorymax ≡ rows = o.cursorymax ∙ er in
    let ec' : t.cursorxmax ≡ cols = o.cursorxmax ∙ ec in
    (
      λ r c i j lr lc li lj.
          let some_row' : 0 < t.cursorymax = omega arith in
          let low : (t.linestart + r) % t.cursorymax < s.cursorymax =
            omega (arith, mod-lt (t.linestart + r) some_row') in
          refreshscreen_lem font t r c i j (omega arith) (omega arith) li lj
          ∙ ap (λ ch. some (glyph font ch i j))
              (clearscreen-cells env s ((t.linestart + r) % t.cursorymax) c low (omega arith)),
      refreshscreen-cursoron font t (omega arith) (omega arith),
    )

pub initconsole-Seen :
    (env : Env) (font : ℕ → ℕ → ℕ) (width height : ℕ) (s : Console)
    → 14 ≤ width
    → width < 1606
    → 22 ≤ height
    → height < 3222
    → Seen
        ((height - 6) / 16)
        ((width - 6) / 8)
        font
        (initconsole env font width height s)
        blank_screen
unfolding initconsole
initconsole-Seen env font width height s w1 w2 h1 h2 =
    let rows = (height - 6) / 16 in
    let cols = (width - 6) / 8 in
    let sized = record s {
      locks = simple_lock_init console_lock s.locks;
      screenwidth = width;
      screenheight = height;
      cursorx = 0;
      cursory = 0;
      cursorxmax = cols;
      cursorymax = rows;
      linestart = 0;
    } in
    let (drawn, on) = cleaned env font rows cols sized refl refl (omega arith) (omega arith) in
    let shown = refreshscreen font (clearscreen env sized) in
    let start = record shown { cursorx = 0; cursory = 0; cursoron = true; linefull = false } in
    (
      initconsole-Displays env font width height s w1 w2 h1 h2,
      Outlined-Lights rows cols font true start blank_screen refl refl refl
          (Drawn-Outlined rows cols font start blank_screen drawn refl),
    )

-- From initconsole on, on a device of 14 to 1605 by 22 to 3221 pixels, a text that printstring prints
-- shows, in the buffer, the cursor and the pixels of the cells, as on a blank screen of (height - 6)
-- / 16 rows and (width - 6) / 8 columns in which it was typed.
pub printstring-shown :
    (env : Env) (font : ℕ → ℕ → ℕ) (width height : ℕ) (s : Console) (text : List ℕ)
    → 14 ≤ width
    → width < 1606
    → 22 ≤ height
    → height < 3222
    → Seen
        ((height - 6) / 16)
        ((width - 6) / 8)
        font
        (printstring font env text (initconsole env font width height s))
        (see_string ((height - 6) / 16) ((width - 6) / 8) text blank_screen)
printstring-shown env font width height s text w1 w2 h1 h2 =
    printstring-Seen _ _ font env _ _ text (initconsole-Seen env font width height s w1 w2 h1 h2)
