-- ===== src/Os/Tests.antt =====
-- Tests of src/os.c and src/launchd.c.
use nsos.Prelude.{◌+◌, ◌≡◌, refl, [], ◌∷◌, arith, false}
use nsos.Machine.{Ptr, null, Outcome, done, stop, state_of}
use nsos.Kmt.Threads.{kmt_schedule, pick, is_runnable}
use nsos.Os.{
  Board, System, irq_timer, irq_iodev, yield, main, find_device, read_key, os_interrupt, dev_input,
  dev_video,
}
use nsos.Os.Resume.{running, Away, again, os_interrupt-Away}
use nsos.Kmt.State.{stack_size}
use nsos.Os.Launch.{main-os_interrupt}
use nsos.Example.{env, kernel, kmt, locks}

abbrev board : Board
board = record {
  devices = 0xac03 ∷ dev_input ∷ dev_video ∷ [];
  width = 22;
  height = 38;
  key = λ n. (0, 54);
  font = λ ch j. 255;
  heap = record { start = 4096; end = 8192 };
  launchd = 2000;
  launchd_thread = 600;
  launchd_stack = 10000;
}

abbrev system : System
system = record {
  kernel = record kernel { kmt = kmt };
  console = record {
    screenwidth = 0;
    screenheight = 0;
    cursorx = 0;
    cursory = 0;
    cursorxmax = 0;
    cursorymax = 0;
    cursoron = false;
    linefull = false;
    screenbuf = λ r c. 0;
    linestart = 0;
    locks = locks;
    frame = [];
  };
  pmm = record { memory = λ p. 0; memory_head = 0; locks = locks };
  key_action = 0;
  keys_read = 0;
}

abbrev saved_regs : Ptr
saved_regs = 77

abbrev answer_of : Outcome System Ptr → Ptr
answer_of (done a s) = a
answer_of (stop why s) = null

-- The thread at 500 is interrupted, the one at 700 runs, and then the one at 500 again.
abbrev first : System
first = state_of (os_interrupt 1024 board irq_timer saved_regs system)

abbrev second : System
second = state_of (os_interrupt 1024 board yield 88 first)

second-again : Away 1024 board 500 first saved_regs second
unfolding os_interrupt kmt_schedule pick is_runnable
second-again = again yield 88 (omega arith) refl refl

os_interrupt-Away_example : answer_of (os_interrupt 1024 board yield 88 first) ≡ saved_regs
unfolding os_interrupt kmt_schedule pick is_runnable
os_interrupt-Away_example =
    os_interrupt-Away 1024 board 500 irq_timer saved_regs 0 saved_regs system first second
      (omega arith) refl refl (omega arith) second-again

main-os_interrupt_example :
    (s' : System) × (s'' : System) × (main env board system ≡ done tt s')
    × (os_interrupt 2 board irq_timer 5 s'
        ≡ done (env.make 10001 (10001 + stack_size) 2000 null) s'')
    × (running s'' ≡ 600)
unfolding find_device
main-os_interrupt_example =
    main-os_interrupt env board system 3 0 5 refl (omega arith) (omega arith)

-- The return key, let go of.
key_taken : (state_of (os_interrupt 1 board irq_iodev 5 system)).key_action ≡ 1
unfolding os_interrupt read_key find_device
key_taken = refl
