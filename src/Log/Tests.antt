-- ===== src/Log/Tests.antt =====
-- Tests of the system log.
use nsos.Prelude.{◌+◌, ◌≡◌, refl, true, false, some, [], ◌∷◌, ◌++◌, arith}
use mathlib.Core.List.{reverse}
use nsos.Machine.{done}
use nsos.Console.{Console, initconsole}
use nsos.Console.Screen.{Seen, see_string}
use nsos.Console.Seen.{blank_screen, initconsole-Seen}
use nsos.Fs.Procfs.{number, chars}
use nsos.Os.{Board, find_device, dev_input, dev_video}
use nsos.Log.{Log, Vsprintf, dev_timer, syslog}
use nsos.Log.Shown.{line_of, syslog-Seen}
use nsos.Example.{env, locks}

-- A format stands for its arguments one after another, each number as one character.
abbrev strung : Vsprintf
strung fmt [] = []
strung fmt (number n ∷ args) = (n + 48) ∷ strung fmt args
strung fmt (chars text ∷ args) = text ++ strung fmt args

abbrev board : Board
board = record {
  devices = dev_input ∷ dev_timer ∷ dev_video ∷ [];
  width = 22;
  height = 38;
  key = λ n. (0, 54);
  font = λ ch j. 255;
  heap = record { start = 4096; end = 8192 };
  launchd = 2000;
  launchd_thread = 600;
  launchd_stack = 10000;
}

-- Before `initconsole` the static data are zero.
abbrev zeroed : Console
zeroed = record {
  screenwidth = 0;
  screenheight = 0;
  cursorx = 0;
  cursory = 0;
  cursorxmax = 0;
  cursorymax = 0;
  cursoron = false;
  linefull = false;
  screenbuf = λ r c. 0;
  linestart = 0;
  locks = locks;
  frame = [];
}

abbrev log : Log
log = record { console = initconsole env board.font 22 38 zeroed; serial = []; clock_reads = 3 }

syslog-Seen_example :
    (s' : Log) × (syslog env board strung true (some (75 ∷ [])) (65 ∷ []) [] log ≡ done tt s')
    × (let line = line_of env strung 3 true (some (75 ∷ [])) (65 ∷ []) [] in
        Seen 2 2 board.font s'.console (see_string 2 2 line blank_screen)
        × (s'.serial ≡ reverse line ++ [])
        × (s'.clock_reads ≡ 3 + 2))
unfolding find_device
syslog-Seen_example =
    syslog-Seen env board strung 2 2 2 true (some (75 ∷ [])) (65 ∷ []) [] log blank_screen refl
      (omega arith) (omega arith)
      (initconsole-Seen env board.font 22 38 zeroed (omega arith) (omega arith) (omega arith)
        (omega arith))
