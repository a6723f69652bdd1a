-- ===== src/Os/Resume.antt =====
-- The interrupt handler of src/os.c as the switch between threads.
use nsos.Prelude.{
  ℕ, zero, suc, ◌≡◌, ◌≢◌, refl, sym, ap, ◌∙◌, arith, Bool, true, false, if◌then◌else◌, Option, none,
  some,
}
use nsos.Machine.{Ptr, null, Outcome, done, stop, Stop, panic, fault}
use nsos.Kmt.State.{Kmt}
use nsos.Kmt.Threads.{pick, next_slot, is_runnable, is_intact, kmt_schedule}
use nsos.Os.{
  Board, System, Event, event_null, irq_timer, irq_iodev, pagefault, error, yield, syscall,
  save_status, run_next, switch, find_device, dev_input, take_key, read_key, os_interrupt,
}

abbrev pub running : System → Ptr
running s = s.kernel.kmt.current

-- The registers that are saved of the thread at `t`.
abbrev pub saved : Ptr → System → Ptr
saved t s = (s.kernel.kmt.threads t).status

-- The scheduler changes no thread.
data Scheduled (k : Kmt) : Outcome Kmt Ptr → Type 0 where
  picked : {p : Ptr} {k' : Kmt} → k'.threads ≡ k.threads → Scheduled k (done p k')
  never : {why : Stop} {k' : Kmt} → Scheduled k (stop why k')

data Searched (k : Kmt) : Outcome Kmt ℕ → Type 0 where
  found : {i : ℕ} {k' : Kmt} → k'.threads ≡ k.threads → Searched k (done i k')
  lost : {why : Stop} {k' : Kmt} → Searched k (stop why k')

if-Searched :
    (k : Kmt) (b : Bool) (o o' : Outcome Kmt ℕ)
    → Searched k o
    → Searched k o'
    → Searched k (if b then o else o')
if-Searched k true o o' h h' = h
if-Searched k false o o' h h' = h'

pick-Searched : (fuel i : ℕ) (k : Kmt) → Searched k (pick fuel i k)
unfolding pick
pick-Searched zero i k = lost
pick-Searched (suc fuel) i k =
    if-Searched k (is_runnable k (next_slot i)) _ _ (found refl)
      (pick-Searched fuel (next_slot i) k)

search-Scheduled :
    (k : Kmt) (intact : Bool) (o : Outcome Kmt ℕ)
    → Searched k o
    → Scheduled k (
        if intact
        then elim o [
          | done i k' ↦ done (k'.thread_pool i) (record k' { current_thread_index = i })
          | stop why k' ↦ stop why k'
        ]
        else stop panic k)
search-Scheduled k true (done i k') (found h) = picked h
search-Scheduled k true (stop why k') lost = never
search-Scheduled k false o h = never

kmt_schedule-Scheduled : (fuel : ℕ) (k : Kmt) → Scheduled k (kmt_schedule fuel k)
unfolding kmt_schedule
kmt_schedule-Scheduled fuel k =
    search-Scheduled k (is_intact k) (pick fuel k.current_thread_index k)
      (pick-Searched fuel k.current_thread_index k)

-- What an interrupt does to the saved registers: the running thread's become `regs` if it gives way,
-- the others stay, and who runs then gets what is saved.
data Handled (t regs : Ptr) (s : System) : Outcome System Ptr → Type 0 where
  handled :
      {a : Ptr} {s' : System}
      → (running s ≢ t → saved t s' ≡ saved t s)
      → (running s ≢ t → running s' ≡ t → a ≡ saved t s')
      → (running s ≡ t → t ≢ null → running s' ≢ t → saved t s' ≡ regs)
      → Handled t regs s (done a s')
  ceased : {why : Stop} {s' : System} → Handled t regs s (stop why s')

save_status-other :
    (t regs : Ptr) (k : Kmt)
    → k.current ≢ t
    → ((save_status regs k).threads t).status ≡ (k.threads t).status
save_status-other t regs k ne = ground arith

save_status-own :
    (t regs : Ptr) (k : Kmt)
    → k.current ≡ t
    → t ≢ null
    → ((save_status regs k).threads t).status ≡ regs
save_status-own t regs k e n = ground arith

switched :
    (t regs : Ptr) (s : System) (o : Outcome Kmt Ptr)
    → Scheduled (save_status regs s.kernel.kmt) o
    → Handled t regs s (run_next s o)
switched t regs s (done next k) (picked h) =
    handled (λ ne. ap (λ f. (f t).status) h ∙ save_status-other t regs s.kernel.kmt ne)
      (λ ne e. ap (λ p. (k.threads p).status) e)
      (λ e n ne. ap (λ f. (f t).status) h ∙ save_status-own t regs s.kernel.kmt e n)
switched t regs s (stop why k) never = ceased

still :
    (t regs a : Ptr) (s s' : System) → s'.kernel.kmt ≡ s.kernel.kmt → Handled t regs s (done a s')
still t regs a s s' h =
    handled (λ ne. ap (λ k. (k.threads t).status) h)
      (λ ne e. absurd (ne (sym (ap (λ k. k.current) h) ∙ e)))
      (λ e n ne. absurd (ne (ap (λ k. k.current) h ∙ e)))

take_key-kmt : (key : ℕ × ℕ) (s : System) → (take_key key s).kernel.kmt ≡ s.kernel.kmt
take_key-kmt (keydown, keycode) s = ground arith

keyboard :
    (t regs : Ptr) (board : Board) (s : System) (device : Option ℕ)
    → Handled t regs s (elim device as (λ x. Outcome System Ptr) [
      | none ↦ stop fault s
      | some deviceit ↦ done null (take_key (board.key s.keys_read) s)
    ])
keyboard t regs board s none = ceased
keyboard t regs board s (some deviceit) =
    still t regs null s _ (take_key-kmt (board.key s.keys_read) s)

os_interrupt-Handled :
    (fuel : ℕ) (board : Board) (ev : Event) (t regs : Ptr) (s : System)
    → Handled t regs s (os_interrupt fuel board ev regs s)
unfolding os_interrupt switch read_key
os_interrupt-Handled fuel board irq_timer t regs s =
    switched t regs s _ (kmt_schedule-Scheduled fuel _)
os_interrupt-Handled fuel board yield t regs s = switched t regs s _ (kmt_schedule-Scheduled fuel _)
os_interrupt-Handled fuel board irq_iodev t regs s =
    keyboard t regs board s (find_device dev_input 1 board.devices)
os_interrupt-Handled fuel board error t regs s = ceased
os_interrupt-Handled fuel board event_null t regs s = still t regs null s s refl
os_interrupt-Handled fuel board pagefault t regs s = still t regs null s s refl
os_interrupt-Handled fuel board syscall t regs s = still t regs null s s refl

-- The thread `t` does not run in `s`; other threads run, which may do anything but change its saved
-- registers and the variable `current`; interrupts come; and the last of them, from which the
-- system is in `s'`, runs `t` again and answers `a`.
pub data Away (fuel : ℕ) (board : Board) (t : Ptr) : System → Ptr → System → Type 0 where
  again :
      (ev : Event) (regs : Ptr) {a : Ptr} {s s' : System}
      → running s ≢ t
      → os_interrupt fuel board ev regs s ≡ done a s'
      → running s' ≡ t
      → Away fuel board t s a s'
  other :
      (ev : Event) (regs : Ptr) {b a : Ptr} {s s' s'' : System}
      → running s ≢ t
      → os_interrupt fuel board ev regs s ≡ done b s'
      → Away fuel board t s' a s''
      → Away fuel board t s a s''
  work :
      {a : Ptr} {s s' s'' : System}
      → saved t s' ≡ saved t s
      → running s' ≡ running s
      → Away fuel board t s' a s''
      → Away fuel board t s a s''

Handled-at :
    {t regs a : Ptr} {s s' : System} {o : Outcome System Ptr}
    → Handled t regs s o
    → o ≡ done a s'
    → Handled t regs s (done a s')
Handled-at h e = rw (sym e) h

other_saved :
    {t regs a : Ptr} {s s' : System}
    → Handled t regs s (done a s')
    → running s ≢ t
    → saved t s' ≡ saved t s
other_saved (handled h _ _) ne = h ne

again_saved :
    {t regs a : Ptr} {s s' : System}
    → Handled t regs s (done a s')
    → running s ≢ t
    → running s' ≡ t
    → a ≡ saved t s
again_saved (handled h k _) ne e = k ne e ∙ h ne

own_saved :
    {t regs a : Ptr} {s s' : System}
    → Handled t regs s (done a s')
    → running s ≡ t
    → t ≢ null
    → running s' ≢ t
    → saved t s' ≡ regs
own_saved (handled _ _ h) e n ne = h e n ne

module _ (fuel : ℕ) (board : Board) (t : Ptr) where
  Away-saved : {s s' : System} {a : Ptr} → Away fuel board t s a s' → a ≡ saved t s
  Away-saved (again ev regs {s = s} ne e back) =
      again_saved (Handled-at (os_interrupt-Handled fuel board ev t regs s) e) ne back
  Away-saved (other ev regs {s = s} ne e rest) =
      Away-saved rest ∙ other_saved (Handled-at (os_interrupt-Handled fuel board ev t regs s) e) ne
  Away-saved (work same _ rest) = Away-saved rest ∙ same

  -- An interrupt that takes the processor from the thread `t`, which ran at the address t other than
  -- NULL, saves its registers, and the first interrupt that runs `t` again answers with just these
  -- registers, whatever interrupts come in between and whatever the other threads do that leaves
  -- the saved registers of `t` and the variable current alone.
  pub os_interrupt-Away :
      (ev : Event) (regs b a : Ptr) (s s' s'' : System)
      → t ≢ null
      → running s ≡ t
      → os_interrupt fuel board ev regs s ≡ done b s'
      → running s' ≢ t
      → Away fuel board t s' a s''
      → a ≡ regs
  os_interrupt-Away ev regs b a s s' s'' n own e left away =
      Away-saved away
      ∙ own_saved (Handled-at (os_interrupt-Handled fuel board ev t regs s) e) own n left
