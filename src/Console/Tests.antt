-- ===== src/Console/Tests.antt =====
-- Tests of the console of src/console/console.c: a screen of two rows of two characters.
use nsos.Prelude.{ℕ, ◌*◌, ◌%◌, ◌≡◌, refl, false, List, [], ◌∷◌, arith}
use nsos.Example.{env, locks}
use nsos.Console.{Console, initconsole, printchar, printstring, newline, blank}
use nsos.Console.Terminal.{IsValid, type_string}
use nsos.Console.Screen.{Seen, see_char, see_string}
use nsos.Console.Start.{blank_terminal}
use nsos.Console.Seen.{blank_screen, printchar-Seen, initconsole-Seen, printstring-shown}
use nsos.Console.Inside.{Inside, printchar-Inside}

abbrev font : ℕ → ℕ → ℕ
font ch j = (ch * j) % 256

-- Before `initconsole` the static data are zero.
abbrev zeroed : Console
zeroed = record {
  screenwidth = 0;
  screenheight = 0;
  cursorx = 0;
  cursory = 0;
  cursorxmax = 0;
  cursorymax = 0;
  cursoron = false;
  linefull = false;
  screenbuf = λ r c. 0;
  linestart = 0;
  locks = locks;
  frame = [];
}

abbrev booted : Console
booted = initconsole env font 22 38 zeroed

booted-Seen : Seen 2 2 font booted blank_screen
booted-Seen =
    initconsole-Seen env font 22 38 zeroed (omega arith) (omega arith) (omega arith) (omega arith)

-- Three lines on two rows, the first of which fills its line.
abbrev text : List ℕ
text = 65 ∷ 66 ∷ newline ∷ 67 ∷ newline ∷ 68 ∷ []

printstring-shown_example :
    Seen 2 2 font (printstring font env text booted) (see_string 2 2 text blank_screen)
printstring-shown_example =
    printstring-shown env font 22 38 zeroed text (omega arith) (omega arith) (omega arith)
      (omega arith)

printchar-Seen_example : Seen 2 2 font (printchar font env 65 booted) (see_char 2 2 65 blank_screen)
printchar-Seen_example = printchar-Seen 2 2 font env booted blank_screen 65 booted-Seen

printchar-Inside_example :
    IsValid (printchar font env newline booted) × Inside booted (printchar font env newline booted)
printchar-Inside_example = printchar-Inside font env booted newline booted-Seen.0.0

-- What the terminal shows of the text: C above D.
typed_first : (type_string 2 2 text blank_terminal).cell 0 0 ≡ 67
typed_first = refl

typed_second : (type_string 2 2 text blank_terminal).cell 1 0 ≡ 68
typed_second = refl

typed_blank : (type_string 2 2 text blank_terminal).cell 1 1 ≡ blank
typed_blank = refl
