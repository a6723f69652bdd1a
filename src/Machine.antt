-- ===== src/Machine.antt =====
-- What the kernel runs on, and how a run of its code ends.
--
-- The hardware layer (am/am.h) and the allocator are behind parameters. `_intr_read` answers by
-- the history of the writes to the interrupt flag, and `pmm->alloc` by the history of the calls
-- of the allocator, latest first; `_make` answers with the address of a saved register set, and
-- `uptime` with the timer's value at its n-th reading.
use nsos.Prelude.{ℕ, ◌≡◌, Bool, List, ◌∷◌}

-- An address. NULL is 0.
abbrev pub Ptr : Type 0
Ptr = ℕ

abbrev pub null : Ptr
null = 0

pub data HeapCall : Type 0 where
  alloc_call : ℕ → HeapCall
  free_call : Ptr → HeapCall

pub record Env : Type 0 where
  pub intr_read : List Bool → Bool
  pub alloc : List HeapCall → ℕ → Ptr
  pub make : ℕ → ℕ → Ptr → Ptr → Ptr
  pub uptime : ℕ → ℕ

-- Reading the interrupt flag gives what was last written to it.
abbrev pub ReadsBack : Env → Type 0
ReadsBack env = (b : Bool) (log : List Bool) → env.intr_read (b ∷ log) ≡ b

-- Why a run does not come to its end: the thread sleeps on a semaphore, the kernel panics, it
-- calls through a function pointer that is NULL, or a loop does not end within its fuel.
pub data Stop : Type 0 where
  asleep panic fault hang : Stop

pub data Outcome (S A : Type 0) : Type 0 where
  done : A → S → Outcome S A
  stop : Stop → S → Outcome S A

-- The state in which a run ends or stops.
abbrev pub state_of : {S A : Type 0} → Outcome S A → S
state_of (done a s) = s
state_of (stop why s) = s

abbrev pub Run : Type 0 → Type 0 → Type 0
Run S A = S → Outcome S A

module _ {S A : Type 0} where
  abbrev pub pure : A → Run S A
  pure a s = done a s

  abbrev pub halt : Stop → Run S A
  halt why s = stop why s

  -- Read the state.
  abbrev pub gets : (S → A) → Run S A
  gets f s = done (f s) s

abbrev pub modify : {S : Type 0} → (S → S) → Run S (Unit {0})
modify f s = done tt (f s)

module _ {S A B : Type 0} where
  abbrev pub and_then : Outcome S A → (A → Run S B) → Outcome S B
  and_then (done a s) k = k a s
  and_then (stop why s) k = stop why s

  infixl 5 ◌>>=◌ ◌>>◌
  abbrev pub ◌>>=◌ : Run S A → (A → Run S B) → Run S B
  ◌>>=◌ m k s = and_then (m s) k

  abbrev pub ◌>>◌ : Run S A → Run S B → Run S B
  ◌>>◌ m k s = and_then (m s) (λ _. k)
