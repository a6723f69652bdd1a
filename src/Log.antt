-- ===== src/Log.antt =====
-- The system log: src/libos/syslog.c, src/libos/timer.c and the printf of src/nslibc/stdio.c.
--
-- `vsprintf` is a parameter: from a format and its arguments it makes the text. The n-th reading of
-- the timer is that of Env. A text that does not fit its buffer on the stack, with its NUL, is a
-- fault.
pub mod Shown
mod Tests
use nsos.Prelude.{
  ℕ, zero, suc, ◌+◌, ◌/◌, ◌%◌, Bool, ltb, if◌then◌else◌, Option, none, some, List, [], ◌∷◌, length,
}
use nsos.Machine.{Env, Run, done, stop, fault, pure, ◌>>=◌, ◌>>◌}
use nsos.Console.{Console, printchar}
use nsos.Fs.Procfs.{Arg, number, chars}
use nsos.Os.{Board, find_device}

abbrev pub dev_timer : ℕ
dev_timer = 0xac03

-- The console, what went to the serial port by `_putc`, last first, and the number of readings of
-- the timer.
pub record Log : Type 0 where
  pub console : Console
  pub serial : List ℕ
  pub clock_reads : ℕ

-- The sizes of `ringbuf` and `printbuf`.
abbrev pub ringbuf_size : ℕ
ringbuf_size = 1024

abbrev pub printbuf_size : ℕ
printbuf_size = 5024

abbrev pub Vsprintf : Type 0
Vsprintf = (fmt : List ℕ) → List Arg → List ℕ

-- "[%5d.%03d] %s: %s\n"
abbrev pub named_format : List ℕ
named_format =
    91 ∷ 37 ∷ 53 ∷ 100 ∷ 46 ∷ 37 ∷ 48 ∷ 51 ∷ 100 ∷ 93 ∷ 32 ∷ 37 ∷ 115 ∷ 58 ∷ 32 ∷ 37 ∷ 115 ∷ 10 ∷ []

-- "[%5d.%03d] %s\n"
abbrev pub plain_format : List ℕ
plain_format = 91 ∷ 37 ∷ 53 ∷ 100 ∷ 46 ∷ 37 ∷ 48 ∷ 51 ∷ 100 ∷ 93 ∷ 32 ∷ 37 ∷ 115 ∷ 10 ∷ []

module _ (env : Env) (board : Board) where
  -- The low word of the first timer. Without a timer `dev` is NULL.
  unfoldable pub getuptime32 : Run Log ℕ
  getuptime32 s = elim (find_device dev_timer 1 board.devices) [
    | none ↦ stop fault s
    | some deviceit ↦ done (env.uptime s.clock_reads) (record s { clock_reads = s.clock_reads + 1 })
  ]

  -- The `for` of `printf`.
  unfoldable pub print_text : List ℕ → Log → Log
  print_text [] s = s
  print_text (c ∷ cs) s =
      print_text cs
        (record s { serial = c ∷ s.serial; console = printchar board.font env c s.console })

module _ (env : Env) (board : Board) (vsprintf : Vsprintf) where
  unfoldable pub printf : (fmt : List ℕ) → List Arg → Run Log ℕ
  unfolding print_text
  printf fmt args s =
      let printbuf = vsprintf fmt args in
      if ltb (length printbuf) printbuf_size
      then done (length printbuf) (print_text env board printbuf s)
      else stop fault s

  -- The `printf` of `syslog`. Of its arguments the two readings of the timer are evaluated in an
  -- order that C leaves open: `seconds_first` says which is made first.
  unfoldable pub print_line :
      (seconds_first : Bool) → (who : Option (List ℕ)) → (ringbuf : List ℕ) → Run Log ℕ
  unfolding getuptime32 printf
  print_line seconds_first who ringbuf = do
    t₀ ← getuptime32 env board
    t₁ ← getuptime32 env board
    let secs = (if seconds_first then t₀ else t₁) / 1000
    let millis = (if seconds_first then t₁ else t₀) % 1000
    elim who [
      | some name ↦
          printf named_format (number secs ∷ number millis ∷ chars name ∷ chars ringbuf ∷ [])
      | none ↦ printf plain_format (number secs ∷ number millis ∷ chars ringbuf ∷ [])
    ]

  -- `who` may be NULL.
  unfoldable pub syslog :
      (seconds_first : Bool)
      → (who : Option (List ℕ)) → (fmt : List ℕ) → List Arg
      → Run Log (Unit {0})
  unfolding print_line
  syslog seconds_first who fmt args s =
      let ringbuf = vsprintf fmt args in
      if ltb (length ringbuf) ringbuf_size
      then (print_line seconds_first who ringbuf >> pure tt) s
      else stop fault s
