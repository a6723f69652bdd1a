-- ===== src/Log/Shown.antt =====
-- What the system log shows on the screen.
use nsos.Prelude.{
  ℕ, ◌+◌, ◌/◌, ◌%◌, ◌<◌, Bool, true, false, if◌then◌else◌, length, lt→ltb, ◌≡◌, refl, sym, ap, ◌∙◌,
  Option, none, some, List, [], ◌∷◌, ◌++◌, append_assoc, arith,
}
use mathlib.Core.List.{reverse, reverse-append}
use nsos.Machine.{Env, done}
use nsos.Console.{printstring}
use nsos.Console.Screen.{Screen, Seen, see_string}
use nsos.Console.Seen.{printstring-Seen}
use nsos.Fs.Procfs.{Arg, number, chars}
use nsos.Log.{
  Log, Vsprintf, dev_timer, named_format, plain_format, getuptime32, print_text, printf, print_line,
  syslog, ringbuf_size, printbuf_size,
}
use nsos.Os.{Board, find_device}

-- The loop of `printf` prints on the console as `printstring` does.
print_text-printstring :
    (env : Env) (board : Board) (text : List ℕ) (s : Log)
    → (print_text env board text s).console ≡ printstring board.font env text s.console
unfolding print_text printstring
print_text-printstring env board [] s = refl
print_text-printstring env board (c ∷ cs) s = print_text-printstring env board cs _

print_text-serial :
    (env : Env) (board : Board) (text : List ℕ) (s : Log)
    → (print_text env board text s).serial ≡ reverse text ++ s.serial
unfolding print_text
print_text-serial env board [] s = refl
print_text-serial env board (c ∷ cs) s =
    print_text-serial env board cs _
    ∙ sym (
        ap (λ t. t ++ s.serial) (reverse-append (c ∷ []) cs)
        ∙ append_assoc (reverse cs) (c ∷ []) s.serial)

print_text-clock_reads :
    (env : Env) (board : Board) (text : List ℕ) (s : Log)
    → (print_text env board text s).clock_reads ≡ s.clock_reads
unfolding print_text
print_text-clock_reads env board [] s = refl
print_text-clock_reads env board (c ∷ cs) s = print_text-clock_reads env board cs _

two_reads : (n : ℕ) → n + 1 + 1 ≡ n + 2
two_reads n = omega arith

-- The line of a message: the seconds of one reading of the timer and the milliseconds of the other,
-- who, and the message.
abbrev pub line_of :
    Env → Vsprintf → ℕ → (seconds_first : Bool) → Option (List ℕ) → List ℕ → List Arg → List ℕ
line_of env vsprintf n seconds_first who fmt args =
    let secs = env.uptime (if seconds_first then n else n + 1) / 1000 in
    let millis = env.uptime (if seconds_first then n + 1 else n) % 1000 in
    let message = vsprintf fmt args in
    elim who [
      | some name ↦
          vsprintf named_format (number secs ∷ number millis ∷ chars name ∷ chars message ∷ [])
      | none ↦ vsprintf plain_format (number secs ∷ number millis ∷ chars message ∷ [])
    ]

module _ (env : Env) (board : Board) (vsprintf : Vsprintf) where
  getuptime32-run :
      (d : ℕ) (s : Log)
      → find_device dev_timer 1 board.devices ≡ some d
      → getuptime32 env board s
        ≡ done (env.uptime s.clock_reads) (record s { clock_reads = s.clock_reads + 1 })
  unfolding getuptime32
  getuptime32-run d s e = rw (e, getuptime32) refl

  syslog-run :
      (d : ℕ) (first : Bool) (who : Option (List ℕ)) (fmt : List ℕ) (args : List Arg) (s : Log)
      → find_device dev_timer 1 board.devices ≡ some d
      → length (vsprintf fmt args) < ringbuf_size
      → length (line_of env vsprintf s.clock_reads first who fmt args) < printbuf_size
      → syslog env board vsprintf first who fmt args s
        ≡ done tt (
            print_text env board
              (line_of env vsprintf s.clock_reads first who fmt args)
              (record s { clock_reads = s.clock_reads + 1 + 1 }))
  unfolding syslog print_line printf
  syslog-run d true (some who) fmt args s e fits room =
      rw (lt→ltb _ _ fits, getuptime32-run d s e, getuptime32-run d _ e, lt→ltb _ _ room) refl
  syslog-run d false (some who) fmt args s e fits room =
      rw (lt→ltb _ _ fits, getuptime32-run d s e, getuptime32-run d _ e, lt→ltb _ _ room) refl
  syslog-run d true none fmt args s e fits room =
      rw (lt→ltb _ _ fits, getuptime32-run d s e, getuptime32-run d _ e, lt→ltb _ _ room) refl
  syslog-run d false none fmt args s e fits room =
      rw (lt→ltb _ _ fits, getuptime32-run d s e, getuptime32-run d _ e, lt→ltb _ _ room) refl

  -- With a timer among the devices, a message of fewer than 1024 characters whose line has fewer than
  -- 5024 is logged, whichever of the two readings of the timer is made first; on a valid console that
  -- shows a screen, in its buffer, its cursor and its pixels, it leaves a valid console that shows the
  -- screen after the line of the message was typed: the seconds of one reading, the milliseconds of
  -- the other, who sent it if that is told, and the message. The same characters have gone to the
  -- serial port, and the timer has been read twice.
  pub syslog-Seen :
      (rows cols d : ℕ) (first : Bool) (who : Option (List ℕ)) (fmt : List ℕ) (args : List Arg)
      (s : Log) (v : Screen)
      → find_device dev_timer 1 board.devices ≡ some d
      → length (vsprintf fmt args) < ringbuf_size
      → length (line_of env vsprintf s.clock_reads first who fmt args) < printbuf_size
      → Seen rows cols board.font s.console v
      → (s' : Log) × (syslog env board vsprintf first who fmt args s ≡ done tt s')
        × (let line = line_of env vsprintf s.clock_reads first who fmt args in
            Seen rows cols board.font s'.console (see_string rows cols line v)
            × (s'.serial ≡ reverse line ++ s.serial)
            × (s'.clock_reads ≡ s.clock_reads + 2))
  syslog-Seen rows cols d first who fmt args s v e fits room shown =
      let line = line_of env vsprintf s.clock_reads first who fmt args in
      let s₁ = record s { clock_reads = s.clock_reads + 1 + 1 } in
      let s' = print_text env board line s₁ in
      (
        s',
        syslog-run d first who fmt args s e fits room,
        (
          rw (print_text-printstring env board line s₁)
              (printstring-Seen rows cols board.font env s.console v line shown),
          print_text-serial env board line s₁,
          print_text-clock_reads env board line s₁ ∙ two_reads s.clock_reads,
        ),
      )
